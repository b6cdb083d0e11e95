-- ===== src/Queries/Txs/Sent.antt =====
-- From handleBlock to a search: a transaction that came with a block is found as it was sent.
use push_anode.Prelude.{
  ◌<◌, ◌≡◌, ◌≢◌, refl, sym, subst, Bool, true, List, [], ◌∷◌, Option, none, some, Text, text_eq, ok,
  All, Option-cases, inl, inr,
}
use mathlib.Core.List.{Memᴰ}
use mathlib.Core.List.Memᴰ
use push_anode.Util.Hex.{Bytes, bytes_to_base16}
use push_anode.Wire.{Transaction, TransactionObj, Block, Failure, Libraries}
use push_anode.Validator.Contract.{Contract}
use push_anode.Archive.Database.{TxRow, row_at, Database, IsDatabase}
use push_anode.Archive.Rows.{hash_block_as_hex, get_transaction_hash, block_row, tx_row}
use push_anode.Archive.Rows.Laws.{IsCovered, prepare-IsCovered}
use push_anode.Archive.Rows.Members.{prepare-IsNewTx}
use push_anode.Archive.Blocks.{Node, handle_block}
use push_anode.Archive.Blocks.Safety.{Grows, block_at-created}
use push_anode.Archive.Blocks.Outcomes.{
  NewRows, Handled, known, read_failed, invalid, nothing_new, block_failed, txs_failed, stored,
  handle_block-Handled,
}
use push_anode.Queries.Reads.{Reads}
use push_anode.Queries.Views.{PaginatedBlocksResponse, BlockWithTransactions}
use push_anode.Queries.Txs.{push_get_transaction_by_hash}
use push_anode.Queries.Txs.Stored.{as_sent, push_get_transaction_by_hash-tx_row}

All-Memᴰ {ℓ κ} : {A : Type ℓ} (P : A → Type κ) (a : A) (xs : List A) → All P xs → Memᴰ a xs → P a
All-Memᴰ P a [] h here = absurd (Memᴰ.not-nil here)
All-Memᴰ P a (x ∷ xs) (h, hs) here = elim (Memᴰ.cases_cons here) [
  | inl e ↦ subst P (sym e) h
  | inr later ↦ All-Memᴰ P a xs hs later
]

module _ (lib : Libraries) (D : Database) (law : IsDatabase D) (contract : Contract) (block : Block)
    (raw : Bytes) where
  abbrev hash : Text
  hash = hash_block_as_hex lib raw

  -- The block is stored, and at `h` a transaction of it with this hash.
  abbrev HasSent : Text → D.Db → Type 0
  HasSent h d =
      (t : TransactionObj) × (tx : Transaction) × Memᴰ t block.tx_obj
      × (t.tx ≡ some tx)
      × (get_transaction_hash lib tx ≡ h)
      × (D.tx_at d h ≡ some (tx_row lib tx t hash block.ts))
      × (D.block_at d hash ≡ some (block_row lib block raw))

  covered_at :
      (d : D.Db) (rows : List TxRow) (t : TransactionObj) (tx : Transaction)
      → t.tx ≡ some tx
      → D.tx_at d (get_transaction_hash lib tx) ≡ none
      → IsCovered lib D law d hash block.ts rows t
      → row_at rows (get_transaction_hash lib tx) ≢ none
  covered_at d rows t tx p free (tx', q, inl there) =
      let same : tx' ≡ tx = cc (p, q) in
      absurd (there (subst (λ x. D.tx_at d (get_transaction_hash lib x) ≡ none) (sym same) free))
  covered_at d rows t tx p free (tx', q, inr there) =
      let same : tx' ≡ tx = cc (p, q) in
      subst (λ x. row_at rows (get_transaction_hash lib x) ≢ none) same there

  module _ (node : Node D) (t : TransactionObj) (tx : Transaction) (here : Memᴰ t block.tx_obj)
      (is_tx : t.tx ≡ some tx) (free : D.tx_at node.db (get_transaction_hash lib tx) ≡ none) where
    has_row :
        (rows : List TxRow)
        → NewRows lib D contract block raw node rows
        → row_at rows (get_transaction_hash lib tx) ≢ none
    has_row rows new = covered_at node.db rows t tx is_tx free (
        All-Memᴰ (IsCovered lib D law node.db hash block.ts rows) t block.tx_obj
          (prepare-IsCovered lib D law node.db hash block.ts block.tx_obj rows new) here)

    sent :
        {r : (Bool × Option Failure) × Node D}
        → Handled lib D contract block raw node r
        → D.block_at node.db hash ≡ none
        → r.0.0 ≡ true
        → HasSent (get_transaction_hash lib tx) r.1.db
    sent (stored row rows d d' v new p q) unknown e =
        elim (Option-cases (row_at (row ∷ rows) (get_transaction_hash lib tx))) [
          | inl miss ↦ absurd (has_row (row ∷ rows) new miss)
          | inr (found, hit) ↦
              let (t', tx', here', is_tx', same, before, is_row) =
                prepare-IsNewTx lib D law node.db hash block.ts block.tx_obj (row ∷ rows) new
                  (get_transaction_hash lib tx) found hit in
              (
                t',
                tx',
                here',
                is_tx',
                same,
                cc (law.txs_added d (row ∷ rows) (get_transaction_hash lib tx) q, hit, is_row),
                cc (
                  law.txs_added-block_at d (row ∷ rows) hash q,
                  block_at-created lib D law contract block raw node.db d p,
                ),
              )
        ]
    sent (nothing_new f v new) unknown e = absurd (has_row [] new refl)
    sent (known old at_hash) unknown e = absurd (cc (unknown, at_hash))
    sent (read_failed x) unknown e = absurd (cc e)
    sent (invalid v) unknown e = absurd (cc e)
    sent (block_failed x row rows v new p) unknown e = absurd (cc e)
    sent (txs_failed x row rows d v new p q) unknown e = absurd (cc e)

  -- The transaction objects that a search by `h` can show, and what it shows of them and the block.
  abbrev pub ShowsSent : Text → PaginatedBlocksResponse → Type 0
  ShowsSent h r =
      (t : TransactionObj) × (tx : Transaction) × Memᴰ t block.tx_obj
      × (t.tx ≡ some tx)
      × (get_transaction_hash lib tx ≡ h)
      × (shown : BlockWithTransactions) × (r.blocks ≡ shown ∷ [])
      × (shown.block_data ≡ bytes_to_base16 raw)
      × (shown.transactions ≡ as_sent lib tx t hash block.ts ∷ [])

  shows :
      (R : Reads D) (d : D.Db) (h : Text) {r : PaginatedBlocksResponse}
      → HasSent h d
      → All (λ o. (x : Transaction) → o.tx ≡ some x → All (λ b. b < 256) x.payload) block.tx_obj
      → push_get_transaction_by_hash R d h ≡ ok r
      → ShowsSent h r
  unfolding block_row
  shows R d h {r} (t, tx, here, is_tx, same, at_tx, at_block) are_bytes e =
      let (shown, list, of_block, txs) =
        push_get_transaction_by_hash-tx_row lib tx t hash block.ts law R d (block_row lib block raw)
          (All-Memᴰ _ t block.tx_obj are_bytes here tx is_tx)
          (subst (λ x. D.tx_at d x ≡ some (tx_row lib tx t hash block.ts)) (sym same) at_tx)
          at_block (subst (λ x. push_get_transaction_by_hash R d x ≡ ok r) (sym same) e) in
      (t, tx, here, is_tx, same, shown, list, of_block, txs)

  -- If handleBlock answers true for a block that was not known, then a search by the hash of any
  -- transaction of it that was not stored before, in any later state that has kept what is stored,
  -- shows, if the database answers, one block, with the bytes of this one in base 16, and in it one
  -- transaction: a transaction of the block with this hash as it was sent, with its payload in base
  -- 16, where the payloads are bytes.
  pub push_get_transaction_by_hash-handle_block :
      (node : Node D) (t : TransactionObj) (tx : Transaction)
      → D.block_at node.db (hash_block_as_hex lib raw) ≡ none
      → (handle_block lib D contract block raw node).0.0 ≡ true
      → Memᴰ t block.tx_obj
      → t.tx ≡ some tx
      → D.tx_at node.db (get_transaction_hash lib tx) ≡ none
      → All (λ o. (x : Transaction) → o.tx ≡ some x → All (λ b. b < 256) x.payload) block.tx_obj
      → (R : Reads D) (later : D.Db) {r : PaginatedBlocksResponse}
      → Grows D (handle_block lib D contract block raw node).1.db later
      → push_get_transaction_by_hash R later (get_transaction_hash lib tx) ≡ ok r
      → ShowsSent (get_transaction_hash lib tx) r
  push_get_transaction_by_hash-handle_block node t tx unknown e here is_tx free are_bytes R later
        grows answer =
      let (t', tx', here', is_tx', same, at_tx, at_block) =
        sent node t tx here is_tx free (handle_block-Handled lib D contract block raw node law)
          unknown e in
      shows R later (get_transaction_hash lib tx)
        (t', tx', here', is_tx', same, grows.1 _ _ at_tx, grows.0 _ _ at_block) are_bytes answer
