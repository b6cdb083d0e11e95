-- ===== src/Archive/Blocks/Safety.antt =====
-- What handleBlock can change in the database.
use push_anode.Prelude.{
  ◌≡◌, refl, sym, ◌∙◌, subst, inl, inr, Bool, true, List, [], ◌∷◌, Option, none, some, Text,
  text_eq, text_beq_iff, ◌==◌, Result, ok, err, All, arith, Bool-cases, Option-cases,
}
use push_anode.Collections.Map
use push_anode.Util.Hex.{Bytes}
use push_anode.Wire.{Block, Failure, Libraries}
use push_anode.Validator.Check.{CheckR, pass, fail}
use push_anode.Validator.Signers.{check_block_as_snode}
use push_anode.Validator.Contract.{Contract}
use push_anode.Archive.Database.{BlockRow, TxRow, row_at, Database, IsDatabase}
use push_anode.Archive.Rows.{hash_block_as_hex, block_row}
use push_anode.Archive.Blocks.{Node, check_result, validate_block, handle_block}
use push_anode.Archive.Blocks.Outcomes.{
  Valid, Handled, known, read_failed, invalid, nothing_new, block_failed, txs_failed, stored,
  handle_block-Handled,
}

module _ (D : Database) where
  -- Nothing that was stored is changed or lost.
  abbrev pub Grows : D.Db → D.Db → Type 0
  Grows d d' =
      ((h : Text) (row : BlockRow) → D.block_at d h ≡ some row → D.block_at d' h ≡ some row)
      × ((h : Text) (row : TxRow) → D.tx_at d h ≡ some row → D.tx_at d' h ≡ some row)

module _ (lib : Libraries) (D : Database) (law : IsDatabase D) (contract : Contract) (block : Block)
    (raw : Bytes) where
  abbrev after : Node D → Node D
  after node = (handle_block lib D contract block raw node).1

  -- The signature check passed.
  abbrev pub IsChecked : Type 0
  IsChecked =
      check_block_as_snode lib block (Map.keys contract.vnodes) contract.val_per_block ≡ ok pass

  checked_of : (r : Result Failure CheckR) → check_result lib D contract r ≡ ok true → r ≡ ok pass
  checked_of (err e) h = cc
  checked_of (ok pass) h = refl
  checked_of (ok (fail e)) h = cc

  pub Valid-checked : Valid lib D contract block raw → IsChecked
  unfolding validate_block
  Valid-checked v = checked_of _ v

  module _ (d d' : D.Db) (h : Text) (row : BlockRow)
      (e : D.create_block d (block_row lib block raw) ≡ ok d') where
    -- A row that was not there is the new one.
    pub new_block :
        D.block_at d h ≡ none
        → D.block_at d' h ≡ some row
        → (h ≡ hash_block_as_hex lib raw) × (row ≡ block_row lib block raw)
    unfolding block_row
    new_block free at_h = ground (
      arith,
      law.block_added d (block_row lib block raw) h e,
      text_beq_iff (hash_block_as_hex lib raw) h,
    )

    -- A row that was there stays.
    pub kept_block : D.block_at d h ≡ some row → D.block_at d' h ≡ some row
    unfolding block_row
    kept_block at_h = ground (
      arith,
      law.block_added d (block_row lib block raw) h e,
      law.block_key d (block_row lib block raw) e,
      text_beq_iff (hash_block_as_hex lib raw) h,
    )

  -- How a run can change the block at `h`.
  only_new :
      (node : Node D) {r : (Bool × Option Failure) × Node D} (h : Text) (row : BlockRow)
      → Handled lib D contract block raw node r
      → D.block_at node.db h ≡ none
      → D.block_at r.1.db h ≡ some row
      → (h ≡ hash_block_as_hex lib raw) × (row ≡ block_row lib block raw) × IsChecked
  only_new node h row (txs_failed e t ts d valid new p q) free at_h =
      let (same, is_row) = new_block node.db d h row p free at_h in
      (same, is_row, Valid-checked valid)
  only_new node h row (stored t ts d d' valid new p q) free at_h =
      let (same, is_row) =
        new_block node.db d h row p free (sym (law.txs_added-block_at d (t ∷ ts) h q) ∙ at_h) in
      (same, is_row, Valid-checked valid)
  only_new node h row (known old at_hash) free at_h = absurd (cc (free, at_h))
  only_new node h row (read_failed e) free at_h = absurd (cc (free, at_h))
  only_new node h row (invalid v) free at_h = absurd (cc (free, at_h))
  only_new node h row (nothing_new f v n) free at_h = absurd (cc (free, at_h))
  only_new node h row (block_failed e t ts v n p) free at_h = absurd (cc (free, at_h))

  -- The only block that handleBlock can add is the one that it was given, at the hash of its bytes
  -- and with those bytes, and only after the signature check has passed.
  pub handle_block_only_checked :
      (node : Node D) (h : Text) (row : BlockRow)
      → D.block_at node.db h ≡ none
      → D.block_at (after node).db h ≡ some row
      → (h ≡ hash_block_as_hex lib raw) × (row ≡ block_row lib block raw) × IsChecked
  handle_block_only_checked node h row =
      only_new node h row (handle_block-Handled lib D contract block raw node law)

  pub block_at-created :
      (d d' : D.Db)
      → D.create_block d (block_row lib block raw) ≡ ok d'
      → D.block_at d' (hash_block_as_hex lib raw) ≡ some (block_row lib block raw)
  unfolding block_row
  block_at-created d d' p = ground (
    arith,
    law.block_added d (block_row lib block raw) (hash_block_as_hex lib raw) p,
    text_beq_iff (hash_block_as_hex lib raw) (hash_block_as_hex lib raw),
  )

  fresh_at :
      (d : D.Db) (rows : List TxRow) (h : Text) (r : TxRow)
      → All (λ x. D.tx_at d x.txn_hash ≡ none) rows
      → row_at rows h ≡ some r
      → D.tx_at d h ≡ none
  fresh_at d [] h r k p = cc
  fresh_at d (x ∷ rows) h r (k, ks) p = elim (Bool-cases (x.txn_hash == h)) [
    | inl hit ↦ subst (λ t. D.tx_at d t ≡ none) ((text_beq_iff x.txn_hash h).0 hit) k
    | inr miss ↦ fresh_at d rows h r ks (rw miss at p)
  ]

  pub kept_tx :
      (d d' : D.Db) (rows : List TxRow) (h : Text) (row : TxRow)
      → D.create_txs d rows ≡ ok d'
      → D.tx_at d h ≡ some row
      → D.tx_at d' h ≡ some row
  kept_tx d d' rows h row e at_h = elim (Option-cases (row_at rows h)) [
    | inl p ↦ law.txs_added d rows h e ∙ rw p at_h
    | inr (r, p) ↦ absurd (cc (at_h, fresh_at d rows h r (law.txs_key d rows e) p))
  ]

  kept :
      (node : Node D) {r : (Bool × Option Failure) × Node D}
      → Handled lib D contract block raw node r
      → Grows D node.db r.1.db
  kept node (known old at_hash) = (λ h row e. e, λ h row e. e)
  kept node (read_failed e) = (λ h row e. e, λ h row e. e)
  kept node (invalid v) = (λ h row e. e, λ h row e. e)
  kept node (nothing_new f v n) = (λ h row e. e, λ h row e. e)
  kept node (block_failed e t ts v n p) = (λ h row e. e, λ h row e. e)
  kept node (txs_failed e t ts d v n p q) = (
    λ h row at_h. kept_block node.db d h row p at_h,
    λ h row at_h. law.block_added-tx_at node.db (block_row lib block raw) h p ∙ at_h,
  )
  kept node (stored t ts d d' v n p q) = (
    λ h row at_h. law.txs_added-block_at d (t ∷ ts) h q ∙ kept_block node.db d h row p at_h,
    λ h row at_h.
        kept_tx d d' (t ∷ ts) h row q
          (law.block_added-tx_at node.db (block_row lib block raw) h p ∙ at_h),
  )

  -- Whatever its outcome, handleBlock changes and loses no block and no transaction that is stored.
  pub handle_block-Grows : (node : Node D) → Grows D node.db (after node).db
  handle_block-Grows node = kept node (handle_block-Handled lib D contract block raw node law)
