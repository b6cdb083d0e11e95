-- ===== src/Archive/Blocks/Complete.antt =====
-- What a success of handleBlock means, and when an event is sent.
use push_anode.Prelude.{
  ◌≡◌, refl, ◌∙◌, ap, ◌≢◌, ◌⊎◌, inl, inr, Bool, true, List, [], ◌∷◌, Option, none, some, ok, Text,
  text_eq, All, All-mono, arith,
}
use push_anode.Util.Hex.{Bytes}
use push_anode.Wire.{Transaction, TransactionObj, Block, Failure, Libraries}
use push_anode.Validator.Contract.{Contract}
use push_anode.Sockets.Subscriptions.{broadcast}
use push_anode.Archive.Database.{TxRow, row_at, Database, IsDatabase}
use push_anode.Archive.Rows.{hash_block_as_hex, get_transaction_hash, block_row, filter_block_data}
use push_anode.Archive.Rows.Laws.{IsCovered, prepare-IsCovered}
use push_anode.Archive.Blocks.{Node, handle_block}
use push_anode.Archive.Blocks.Safety.{block_at-created}
use push_anode.Archive.Blocks.Outcomes.{
  NewRows, Handled, known, read_failed, invalid, nothing_new, block_failed, txs_failed, stored,
  handle_block-Handled,
}

module _ (lib : Libraries) (D : Database) where
  -- The transaction is present, and its hash is stored.
  abbrev pub IsStored : D.Db → TransactionObj → Type 0
  IsStored d t =
      (tx : Transaction) × (t.tx ≡ some tx) × (D.tx_at d (get_transaction_hash lib tx) ≢ none)

module _ (lib : Libraries) (D : Database) (law : IsDatabase D) (contract : Contract) (block : Block)
    (raw : Bytes) where
  covered-IsStored :
      (d d1 d' : D.Db) (rows : List TxRow)
      → D.create_block d (block_row lib block raw) ≡ ok d1
      → D.create_txs d1 rows ≡ ok d'
      → (t : TransactionObj) → IsCovered lib D law d (hash_block_as_hex lib raw) block.ts rows t
      → IsStored lib D d' t
  covered-IsStored d d1 d' rows p q t (tx, e, covered) =
      let h = get_transaction_hash lib tx in
      (
        tx,
        e,
        λ gone. ground (
          arith,
          covered,
          law.txs_added d1 rows h q,
          law.block_added-tx_at d (block_row lib block raw) h p,
        ),
      )

  nothing-IsStored :
      (d : D.Db) (t : TransactionObj)
      → IsCovered lib D law d (hash_block_as_hex lib raw) block.ts [] t
      → IsStored lib D d t
  nothing-IsStored d t (tx, e, inl h) = (tx, e, h)
  nothing-IsStored d t (tx, e, inr h) = absurd (h refl)

  abbrev Success : Node D → (Bool × Option Failure) × Node D → Type 0
  Success node r =
      D.block_at node.db (hash_block_as_hex lib raw) ≡ none
      → r.0.0 ≡ true
      → (r.0.1 ≡ none) × All (IsStored lib D r.1.db) block.tx_obj

  success :
      (node : Node D) {r : (Bool × Option Failure) × Node D}
      → Handled lib D contract block raw node r
      → Success node r
  success node (known old at_hash) free e = absurd (cc (free, at_hash))
  success node (nothing_new f v n) free e = (
    refl,
    All-mono _ (IsStored lib D node.db) (nothing-IsStored node.db) block.tx_obj (
        prepare-IsCovered lib D law node.db (hash_block_as_hex lib raw) block.ts block.tx_obj [] n),
  )
  success node (stored t ts d d' v n p q) free e = (
    refl,
    All-mono _ (IsStored lib D d') (covered-IsStored node.db d d' (t ∷ ts) p q) block.tx_obj (
        prepare-IsCovered lib D law node.db (hash_block_as_hex lib raw) block.ts block.tx_obj
          (t ∷ ts) n),
  )
  success node (read_failed x) free e = absurd (cc e)
  success node (invalid v) free e = absurd (cc e)
  success node (block_failed x t ts v n p) free e = absurd (cc e)
  success node (txs_failed x t ts d v n p q) free e = absurd (cc e)

  -- If the block was not known and handleBlock answers true, then it gives no message, and every
  -- transaction of the block is present and stored.
  pub handle_block-IsStored :
      (node : Node D)
      → D.block_at node.db (hash_block_as_hex lib raw) ≡ none
      → (handle_block lib D contract block raw node).0.0 ≡ true
      → ((handle_block lib D contract block raw node).0.1 ≡ none)
        × All (IsStored lib D (handle_block lib D contract block raw node).1.db) block.tx_obj
  handle_block-IsStored node = success node (handle_block-Handled lib D contract block raw node law)

  -- The subscribers hear of a block as it is stored, with the transactions that were new, which are
  -- what the table of transactions has more than before.
  abbrev pub Announced : Node D → Node D → Type 0
  Announced node node' =
      (row : TxRow) × (rows : List TxRow) × NewRows lib D contract block raw node (row ∷ rows)
      × (D.block_at node'.db (hash_block_as_hex lib raw) ≡ some (block_row lib block raw))
      × ((h : Text)
          → D.tx_at node'.db h
            ≡ elim (row_at (row ∷ rows) h) [ none ↦ D.tx_at node.db h | some r ↦ some r ])
      × (node'.hub
          ≡ broadcast (filter_block_data (hash_block_as_hex lib raw) (row ∷ rows)) node.hub)

  announced :
      (node : Node D) {r : (Bool × Option Failure) × Node D}
      → Handled lib D contract block raw node r
      → ((r.1.hub ≡ node.hub)) ⊎ ((r.0 ≡ (true, none)) × Announced node r.1)
  announced node (known old at_hash) = inl refl
  announced node (nothing_new f v n) = inl refl
  announced node (read_failed x) = inl refl
  announced node (invalid v) = inl refl
  announced node (block_failed x t ts v n p) = inl refl
  announced node (txs_failed x t ts d v n p q) = inl refl
  announced node (stored t ts d d' v n p q) = inr (
    refl,
    (
      t,
      ts,
      n,
      law.txs_added-block_at d (t ∷ ts) (hash_block_as_hex lib raw) q
          ∙ block_at-created lib D law contract block raw node.db d p,
      λ h.
          law.txs_added d (t ∷ ts) h q
          ∙ ap (λ old. elim (row_at (t ∷ ts) h) [ none ↦ old | some r ↦ some r ])
              (law.block_added-tx_at node.db (block_row lib block raw) h p),
      refl,
    ),
  )

  -- No socket hears of a block that failed, that was known or that brought nothing new: either
  -- nothing is sent, or the answer is true, the block is stored, the rows of its new transactions are
  -- what the table of transactions has more than before, and these are sent as one event.
  pub handle_block-Announced :
      (node : Node D)
      → ((handle_block lib D contract block raw node).1.hub ≡ node.hub)
        ⊎ (((handle_block lib D contract block raw node).0 ≡ (true, none))
            × Announced node (handle_block lib D contract block raw node).1)
  handle_block-Announced node =
      announced node (handle_block-Handled lib D contract block raw node law)
