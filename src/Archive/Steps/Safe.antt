-- ===== src/Archive/Steps/Safe.antt =====
-- What calls of handleBlock can do together, in whatever order their turns come.
use push_anode.Prelude.{
  ◌≡◌, refl, ◌∙◌, subst, inl, inr, Bool, true, false, List, [], ◌∷◌, Option, none, some, Text,
  Result, ok, err, All, All-append, Result-cases, >>=-eq-ok, ok_injective,
}
use push_anode.Util.Hex.{Bytes}
use push_anode.Wire.{Transaction, TransactionObj, Block, Failure, Libraries}
use push_anode.Validator.Check.{defined}
use push_anode.Validator.Contract.{Contract}
use push_anode.Archive.Database.{BlockRow, TxRow, Database, IsDatabase}
use push_anode.Archive.Rows.{
  hash_block_as_hex, get_transaction_hash, block_row, tx_row, unless_stored,
}
use push_anode.Archive.Blocks.{Node, validate_block, create_block, create_txs}
use push_anode.Archive.Blocks.Outcomes.{Valid}
use push_anode.Archive.Blocks.Safety.{
  IsChecked, Valid-checked, new_block, kept_block, kept_tx, block_at-created,
}
use push_anode.Archive.Blocks.Linked.{IsLinked-create, IsLinked-txs}
use push_anode.Archive.Queue.Laws.{IsSafe, IsSafe-refl}
use push_anode.Archive.Steps.{
  Phase, looking, checking, preparing, creating, filling, announcing, done, looked, checked,
  prepared, prepare_next, step,
}

module _ (lib : Libraries) (D : Database) (law : IsDatabase D) (contract : Contract) where
  module _ (block : Block) (raw : Bytes) where
    abbrev hash : Text
    hash = hash_block_as_hex lib raw

    abbrev OfBlock : List TxRow → Type 0
    OfBlock rows = All (λ r. r.block_hash ≡ hash) rows

    -- What a waiting call relies on: it has passed the check before it writes, its rows are of its
    -- block, and its block is stored when its transactions are written.
    unfoldable pub IsReady : D.Db → Phase → Type 0
    IsReady d looking = Unit
    IsReady d checking = Unit
    IsReady d (preparing objs rows) = Valid lib D contract block raw × OfBlock rows
    IsReady d (creating row rows) = Valid lib D contract block raw × OfBlock (row ∷ rows)
    IsReady d (filling row rows) =
        OfBlock (row ∷ rows) × (D.block_at d hash ≡ some (block_row lib block raw))
    IsReady d (announcing row rows) = Unit
    IsReady d (done b e) = Unit

    -- The rows that a step adds are those of its block, checked.
    abbrev pub AddsOnly : D.Db → D.Db → Type 0
    AddsOnly d d' =
        (h : Text) (row : BlockRow)
        → D.block_at d h ≡ none
        → D.block_at d' h ≡ some row
        → (h ≡ hash) × (row ≡ block_row lib block raw) × IsChecked lib D law contract block raw

    AddsOnly-refl : (d : D.Db) → AddsOnly d d
    AddsOnly-refl d h row free at_h = absurd (cc (free, at_h))

    -- After a step.
    abbrev Stepped : D.Db → Phase × Node D → Type 0
    Stepped d (p, node) = IsReady node.db p × (IsSafe D d node.db × AddsOnly d node.db)

    stays : (p : Phase) (node : Node D) → IsReady node.db p → Stepped node.db (p, node)
    stays p node ready = (ready, (IsSafe-refl D node.db, AddsOnly-refl node.db))

    looked-IsReady : (d : D.Db) (r : Result Failure (Option BlockRow)) → IsReady d (looked r)
    unfolding IsReady
    looked-IsReady d (err e) = tt
    looked-IsReady d (ok (some row)) = tt
    looked-IsReady d (ok none) = tt

    checked-IsReady :
        (d : D.Db) (r : Result Failure Bool)
        → validate_block lib D contract block ≡ r
        → IsReady d (checked block.tx_obj r)
    unfolding IsReady
    checked-IsReady d (err e) p = tt
    checked-IsReady d (ok true) p = (p, tt)
    checked-IsReady d (ok false) p = tt

    next-OfBlock :
        (t : TransactionObj) (tx : Transaction) (stored : Option TxRow)
        → OfBlock (unless_stored lib D stored (tx_row lib tx t hash block.ts) [])
    unfolding tx_row
    next-OfBlock t tx none = (refl, tt)
    next-OfBlock t tx (some old) = tt

    prepared-IsReady :
        (t : TransactionObj) (objs : List TransactionObj) (rows : List TxRow) (node : Node D)
        (r : Result Failure (List TxRow))
        → Valid lib D contract block raw
        → OfBlock rows
        → prepare_next lib D contract block raw t rows node ≡ r
        → IsReady node.db (prepared objs r)
    unfolding IsReady prepare_next
    prepared-IsReady t objs rows node (err e) valid of_block p = tt
    prepared-IsReady t objs rows node (ok new) valid of_block p =
        let (tx, q, p1) = >>=-eq-ok (defined t.tx) _ p in
        let (stored, q', p2) = >>=-eq-ok (D.find_tx node.db (get_transaction_hash lib tx)) _ p1 in
        (
          valid,
          subst OfBlock (ok_injective p2)
              (All-append (λ r. r.block_hash ≡ hash) rows _ of_block (next-OfBlock t tx stored)),
        )

    creates :
        (d d' : D.Db)
        → D.create_block d (block_row lib block raw) ≡ ok d'
        → Valid lib D contract block raw
        → IsSafe D d d' × AddsOnly d d'
    unfolding IsSafe
    creates d d' p valid = (
      (
        (
          λ h row at_h. kept_block lib D law contract block raw d d' h row p at_h,
          λ h row at_h. law.block_added-tx_at d (block_row lib block raw) h p ∙ at_h,
        ),
        IsLinked-create lib D law contract block raw d d' p,
      ),
      λ h row free at_h.
          let (same, is_row) = new_block lib D law contract block raw d d' h row p free at_h in
          (same, is_row, Valid-checked lib D law contract block raw valid),
    )

    fills :
        (d d' : D.Db) (rows : List TxRow)
        → D.create_txs d rows ≡ ok d'
        → OfBlock rows
        → D.block_at d hash ≡ some (block_row lib block raw)
        → IsSafe D d d' × AddsOnly d d'
    unfolding IsSafe
    fills d d' rows p of_block at_hash = (
      (
        (
          λ h row at_h. law.txs_added-block_at d rows h p ∙ at_h,
          λ h row at_h. kept_tx lib D law contract block raw d d' rows h row p at_h,
        ),
        IsLinked-txs lib D law contract block raw d d' rows (block_row lib block raw) hash p
            of_block at_hash,
      ),
      λ h row free at_h. absurd (cc (free, at_h, law.txs_added-block_at d rows h p)),
    )

    pub step-Stepped :
        (p : Phase) (node : Node D)
        → IsReady node.db p
        → Stepped node.db (step lib D contract block raw p node)
    unfolding step IsReady create_block create_txs
    step-Stepped looking node r = stays _ node (looked-IsReady node.db (D.find_block node.db hash))
    step-Stepped checking node r = stays _ node (checked-IsReady node.db _ refl)
    step-Stepped (preparing (t ∷ objs) rows) node (valid, of_block) =
        stays _ node (prepared-IsReady t objs rows node _ valid of_block refl)
    step-Stepped (preparing [] []) node r = stays (done true none) node tt
    step-Stepped (preparing [] (row ∷ rows)) node r = stays (creating row rows) node r
    step-Stepped (creating row rows) node (valid, of_block) =
        elim (Result-cases (D.create_block node.db (block_row lib block raw))) [
          | inr (e, p) ↦ rw p (stays (done false (some e)) node tt)
          | inl (d, p) ↦ rw p (
            (of_block, block_at-created lib D law contract block raw node.db d p),
            creates node.db d p valid,
          )
        ]
    step-Stepped (filling row rows) node (of_block, at_hash) =
        elim (Result-cases (D.create_txs node.db (row ∷ rows))) [
          | inr (e, p) ↦ rw p (stays (done false (some e)) node tt)
          | inl (d, p) ↦ rw p (tt, fills node.db d (row ∷ rows) p of_block at_hash)
        ]
    step-Stepped (announcing row rows) node r = (tt, (IsSafe-refl D node.db, AddsOnly-refl node.db))
    step-Stepped (done b e) node r = stays (done b e) node tt

    -- What others write does not take from a call what it relies on.
    pub IsReady-Grows : (d d' : D.Db) (p : Phase) → IsSafe D d d' → IsReady d p → IsReady d' p
    unfolding IsReady IsSafe
    IsReady-Grows d d' looking safe r = r
    IsReady-Grows d d' checking safe r = r
    IsReady-Grows d d' (preparing objs rows) safe r = r
    IsReady-Grows d d' (creating row rows) safe r = r
    IsReady-Grows d d' (filling row rows) ((blocks, txs), linked) (of_block, at_hash) =
        (of_block, blocks hash (block_row lib block raw) at_hash)
    IsReady-Grows d d' (announcing row rows) safe r = r
    IsReady-Grows d d' (done b e) safe r = r
