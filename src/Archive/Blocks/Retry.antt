-- ===== src/Archive/Blocks/Retry.antt =====
-- A block that is given again, and one whose transactions could not be written.
use push_anode.Prelude.{
  ◌≡◌, ◌≢◌, refl, sym, ◌∙◌, ap, Bool, true, false, List, ◌∷◌, Option, none, some, ok, Text, text_eq,
  text_beq_iff,
}
use mathlib.Core.List.{Memᴰ}
use push_anode.Util.Hex.{Bytes}
use push_anode.Wire.{Transaction, TransactionObj, Block, Failure, Libraries}
use push_anode.Validator.Contract.{Contract}
use push_anode.Archive.Database.{BlockRow, TxRow, Database, IsDatabase}
use push_anode.Archive.Rows.{hash_block_as_hex, block_row, get_transaction_hash}
use push_anode.Archive.Rows.Members.{prepare-IsNewTx}
use push_anode.Archive.Blocks.{Node, handle_block, try_block, unless_known}
use push_anode.Archive.Blocks.Safety.{Grows, block_at-created}
use push_anode.Archive.Blocks.Outcomes.{
  NewRows, Handled, known, read_failed, invalid, nothing_new, block_failed, txs_failed, stored,
  handle_block-Handled,
}

module _ (lib : Libraries) (D : Database) (law : IsDatabase D) (contract : Contract) (block : Block)
    (raw : Bytes) where
  -- A block whose hash is stored is answered with true, and nothing is read further or written.
  known_again :
      (node : Node D) (row : BlockRow) (found : Option BlockRow)
      → D.block_at node.db (hash_block_as_hex lib raw) ≡ some row
      → D.find_block node.db (hash_block_as_hex lib raw) ≡ ok found
      → handle_block lib D contract block raw node ≡ ((true, none), node)
  unfolding handle_block try_block unless_known
  known_again node row found at_hash e =
      let same : found ≡ some row =
        sym (law.found_block node.db (hash_block_as_hex lib raw) e) ∙ at_hash in
      rw (e, same)

  abbrev after : Node D → Node D
  after node = (handle_block lib D contract block raw node).1

  -- A transaction of the block is not in the database.
  abbrev pub IsMissing : D.Db → Type 0
  IsMissing d =
      (t : TransactionObj) × (tx : Transaction) × Memᴰ t block.tx_obj
      × (t.tx ≡ some tx)
      × (D.tx_at d (get_transaction_hash lib tx) ≡ none)

  left_out :
      (node : Node D) (row : TxRow) (rows : List TxRow) (d : D.Db)
      → NewRows lib D contract block raw node (row ∷ rows)
      → D.create_block node.db (block_row lib block raw) ≡ ok d
      → IsMissing d
  left_out node row rows d new p =
      let (t, tx, here, is_tx, same, free, is_row) =
        prepare-IsNewTx lib D law node.db (hash_block_as_hex lib raw) block.ts block.tx_obj
          (row ∷ rows) new row.txn_hash row
          (rw ((text_beq_iff row.txn_hash row.txn_hash).1 refl) refl) in
      (
        t,
        tx,
        here,
        is_tx,
        law.block_added-tx_at node.db (block_row lib block raw) (get_transaction_hash lib tx) p
            ∙ (ap (D.tx_at node.db) same ∙ free),
      )

  -- What a failed call that leaves the block behind has done.
  abbrev HalfStored : Node D → (Bool × Option Failure) × Node D → Type 0
  HalfStored node r =
      (D.block_at r.1.db (hash_block_as_hex lib raw) ≡ some (block_row lib block raw))
      × IsMissing r.1.db
      × ((h : Text) → D.tx_at r.1.db h ≡ D.tx_at node.db h)
      × (r.1.hub ≡ node.hub)

  half_stored :
      (node : Node D) {r : (Bool × Option Failure) × Node D}
      → Handled lib D contract block raw node r
      → D.block_at node.db (hash_block_as_hex lib raw) ≡ none
      → r.0.0 ≡ false
      → D.block_at r.1.db (hash_block_as_hex lib raw) ≢ none
      → HalfStored node r
  half_stored node (txs_failed e row rows d valid new p q) free failed kept = (
    block_at-created lib D law contract block raw node.db d p,
    left_out node row rows d new p,
    λ h. law.block_added-tx_at node.db (block_row lib block raw) h p,
    refl,
  )
  half_stored node (known old at_hash) free failed kept = absurd (kept free)
  half_stored node (read_failed e) free failed kept = absurd (kept free)
  half_stored node (invalid v) free failed kept = absurd (kept free)
  half_stored node (nothing_new f v n) free failed kept = absurd (kept free)
  half_stored node (block_failed e t ts v n p) free failed kept = absurd (kept free)
  half_stored node (stored t ts d d' v n p q) free failed kept = absurd (cc failed)

  -- If a call of handleBlock on a block that was not known answers false, and still leaves the hash of
  -- the block in the database, then the block is stored, a transaction of it is not, no transaction
  -- was written and nobody was told; and a call with the same bytes on any later state that has kept
  -- the blocks and transactions of this one answers true and changes nothing, if the database can be
  -- read.
  pub handle_block_half_stored :
      (node : Node D)
      → D.block_at node.db (hash_block_as_hex lib raw) ≡ none
      → (handle_block lib D contract block raw node).0.0 ≡ false
      → D.block_at (after node).db (hash_block_as_hex lib raw) ≢ none
      → (later : Node D) (found : Option BlockRow) → Grows D (after node).db later.db
      → D.find_block later.db (hash_block_as_hex lib raw) ≡ ok found
      → (D.block_at (after node).db (hash_block_as_hex lib raw) ≡ some (block_row lib block raw))
        × IsMissing (after node).db
        × ((h : Text) → D.tx_at (after node).db h ≡ D.tx_at node.db h)
        × ((after node).hub ≡ node.hub)
        × (handle_block lib D contract block raw later ≡ ((true, none), later))
  handle_block_half_stored node free failed kept later found grows again =
      let (at_hash, missing, same, quiet) =
        half_stored node (handle_block-Handled lib D contract block raw node law) free failed
          kept in
      (
        at_hash,
        missing,
        same,
        quiet,
        known_again later (block_row lib block raw) found (grows.0 _ _ at_hash) again,
      )
