-- ===== src/Archive/Blocks/Linked.antt =====
-- Transactions refer to stored blocks.
use push_anode.Prelude.{
  ◌≡◌, refl, sym, ◌∙◌, inl, inr, Bool, List, [], ◌∷◌, Option, some, Text, text_eq, ◌==◌, ok, All,
  arith, Bool-cases, Option-cases,
}
use push_anode.Util.Hex.{Bytes}
use push_anode.Wire.{Block, Failure, Libraries}
use push_anode.Validator.Contract.{Contract}
use push_anode.Archive.Database.{BlockRow, TxRow, row_at, Database, IsDatabase}
use push_anode.Archive.Rows.{hash_block_as_hex, block_row}
use push_anode.Archive.Rows.Laws.{prepare-block_hash}
use push_anode.Archive.Blocks.{Node, handle_block}
use push_anode.Archive.Blocks.Safety.{kept_block, block_at-created}
use push_anode.Archive.Blocks.Outcomes.{
  Handled, known, read_failed, invalid, nothing_new, block_failed, txs_failed, stored,
  handle_block-Handled,
}

module _ (D : Database) where
  -- Every transaction refers to a block that is stored.
  unfoldable pub IsLinked : D.Db → Type 0
  IsLinked d =
      (h : Text) (row : TxRow)
      → D.tx_at d h ≡ some row
      → (b : BlockRow) × (D.block_at d row.block_hash ≡ some b)

module _ (lib : Libraries) (D : Database) (law : IsDatabase D) (contract : Contract) (block : Block)
    (raw : Bytes) where
  linked_rows :
      (d d' : D.Db) (rows : List TxRow) (b : BlockRow) (bh : Text)
      → All (λ r. r.block_hash ≡ bh) rows
      → D.block_at d' bh ≡ some b
      → (h : Text) (row : TxRow) → row_at rows h ≡ some row
      → (b : BlockRow) × (D.block_at d' row.block_hash ≡ some b)
  linked_rows d d' [] b bh hs at_bh h row p = cc
  linked_rows d d' (x ∷ rows) b bh (e, hs) at_bh h row p = elim (Bool-cases (x.txn_hash == h)) [
    | inl hit ↦ (b, ground (arith, hit))
    | inr miss ↦ linked_rows d d' rows b bh hs at_bh h row (rw miss at p)
  ]

  pub IsLinked-create :
      (d d' : D.Db)
      → D.create_block d (block_row lib block raw) ≡ ok d'
      → IsLinked D d
      → IsLinked D d'
  unfolding IsLinked
  IsLinked-create d d' p linked = λ h row at_h.
      let (b, at_b) =
        linked h row (sym (law.block_added-tx_at d (block_row lib block raw) h p) ∙ at_h) in
      (b, kept_block lib D law contract block raw d d' row.block_hash b p at_b)

  pub IsLinked-txs :
      (d d' : D.Db) (rows : List TxRow) (b : BlockRow) (bh : Text)
      → D.create_txs d rows ≡ ok d'
      → All (λ r. r.block_hash ≡ bh) rows
      → D.block_at d bh ≡ some b
      → IsLinked D d
      → IsLinked D d'
  unfolding IsLinked
  IsLinked-txs d d' rows b bh q hs at_bh linked = λ h row at_h.
      elim (Option-cases (row_at rows h)) [
        | inl miss ↦
            let old = linked h row (sym (law.txs_added d rows h q ∙ rw miss refl) ∙ at_h) in
            (old.0, law.txs_added-block_at d rows row.block_hash q ∙ old.1)
        | inr (r, hit) ↦
            let same : r ≡ row = cc (law.txs_added d rows h q, hit, at_h) in
            linked_rows d d' rows b bh hs (law.txs_added-block_at d rows bh q ∙ at_bh) h row
              (rw (← same) hit)
      ]

  IsLinked-after :
      (node : Node D) {r : (Bool × Option Failure) × Node D}
      → Handled lib D contract block raw node r
      → IsLinked D node.db
      → IsLinked D r.1.db
  IsLinked-after node (known old at_hash) l = l
  IsLinked-after node (read_failed e) l = l
  IsLinked-after node (invalid v) l = l
  IsLinked-after node (nothing_new f v n) l = l
  IsLinked-after node (block_failed e t ts v n p) l = l
  IsLinked-after node (txs_failed e t ts d v n p q) l = IsLinked-create node.db d p l
  IsLinked-after node (stored t ts d d' v n p q) l =
      IsLinked-txs d d' (t ∷ ts) (block_row lib block raw) (hash_block_as_hex lib raw) q
        (prepare-block_hash lib D law node.db (hash_block_as_hex lib raw) block.ts block.tx_obj
          (t ∷ ts) n)
        (block_at-created lib D law contract block raw node.db d p) (IsLinked-create node.db d p l)

  -- handleBlock keeps every stored transaction linked to a stored block, also when it fails half way.
  pub handle_block-IsLinked :
      (node : Node D)
      → IsLinked D node.db
      → IsLinked D (handle_block lib D contract block raw node).1.db
  handle_block-IsLinked node =
      IsLinked-after node (handle_block-Handled lib D contract block raw node law)
