-- ===== src/Archive/Blocks/Outcomes.antt =====
-- The ways in which handleBlock can end, each with what it has read and written.
use push_anode.Prelude.{
  ◌≡◌, Bool, true, false, List, [], ◌∷◌, Option, none, some, Text, lit, Result, ok, err, inl, inr,
  Result-cases,
}
use push_anode.Util.Hex.{Bytes}
use push_anode.Wire.{Block, Failure, thrown, Libraries}
use push_anode.Validator.Contract.{Contract}
use push_anode.Sockets.Subscriptions.{broadcast}
use push_anode.Archive.Database.{BlockRow, TxRow, Database, IsDatabase}
use push_anode.Archive.Rows.{
  hash_block_as_hex, block_row, prepare_transactions_data, filter_block_data,
}
use push_anode.Archive.Blocks.{
  Node, validate_block, insert_block, store_block, unless_known, try_block, handle_block, caught,
}

module _ (lib : Libraries) (D : Database) (contract : Contract) (block : Block) (raw : Bytes) where
  abbrev pub hash : Text
  hash = hash_block_as_hex lib raw

  -- The rows of the transactions that the database does not hold yet.
  abbrev pub NewRows : Node D → List TxRow → Type 0
  NewRows node rows = prepare_transactions_data lib D node.db block.tx_obj hash block.ts ≡ ok rows

  abbrev pub Valid : Type 0
  Valid = validate_block lib D contract block ≡ ok true

  -- `Handled node r`: from `node`, handleBlock can end in `r`.
  pub data Handled (node : Node D) : (Bool × Option Failure) × Node D → Type 0 where
    known :
        (row : BlockRow) → D.block_at node.db hash ≡ some row → Handled node ((true, none), node)
    read_failed : (e : Failure) → Handled node ((false, some e), node)
    invalid :
        validate_block lib D contract block ≡ ok false
        → Handled node ((false, some (thrown (lit "Block validation failed"))), node)
    nothing_new :
        D.block_at node.db hash ≡ none → Valid → NewRows node [] → Handled node ((true, none), node)
    block_failed :
        (e : Failure) (row : TxRow) (rows : List TxRow)
        → Valid
        → NewRows node (row ∷ rows)
        → D.create_block node.db (block_row lib block raw) ≡ err e
        → Handled node ((false, some e), node)
    txs_failed :
        (e : Failure) (row : TxRow) (rows : List TxRow) (d : D.Db)
        → Valid
        → NewRows node (row ∷ rows)
        → D.create_block node.db (block_row lib block raw) ≡ ok d
        → D.create_txs d (row ∷ rows) ≡ err e
        → Handled node ((false, some e), record node { db = d })
    stored :
        (row : TxRow) (rows : List TxRow) (d d' : D.Db)
        → Valid
        → NewRows node (row ∷ rows)
        → D.create_block node.db (block_row lib block raw) ≡ ok d
        → D.create_txs d (row ∷ rows) ≡ ok d'
        → Handled node (
          (true, none),
          record node { db = d'; hub = broadcast (filter_block_data hash (row ∷ rows)) node.hub },
        )

  abbrev Ends : Node D → Result Failure Bool × Node D → Type 0
  Ends node (ok b, n) = Handled node ((b, none), n)
  Ends node (err e, n) = Handled node ((false, some e), n)

  module _ (node : Node D) where
    insert-Ends :
        (rows : List TxRow)
        → D.block_at node.db hash ≡ none
        → Valid
        → NewRows node rows
        → Ends node (insert_block lib D contract block raw rows node)
    unfolding insert_block
    insert-Ends [] free valid new = nothing_new free valid new
    insert-Ends (row ∷ rows) free valid new =
        elim (Result-cases (D.create_block node.db (block_row lib block raw))) [
          | inr (e, p) ↦ rw p (block_failed e row rows valid new p)
          | inl (d, p) ↦ elim (Result-cases (D.create_txs d (row ∷ rows))) [
            | inr (e, q) ↦ rw (p, q) (txs_failed e row rows d valid new p q)
            | inl (d', q) ↦ rw (p, q) (stored row rows d d' valid new p q)
          ]
        ]

    store-Ends :
        D.block_at node.db hash ≡ none → Ends node (store_block lib D contract block raw node)
    unfolding store_block
    store-Ends free = elim (Result-cases (validate_block lib D contract block)) [
      | inr (e, p) ↦ rw p (read_failed e)
      | inl (false, p) ↦ rw p (invalid p)
      | inl (true, p) ↦
          elim (Result-cases (prepare_transactions_data lib D node.db block.tx_obj hash block.ts)) [
            | inr (e, q) ↦ rw (p, q) (read_failed e)
            | inl (rows, q) ↦ rw (p, q) (insert-Ends rows free p q)
          ]
    ]

    known-Ends :
        (found : Option BlockRow)
        → D.block_at node.db hash ≡ found
        → Ends node (unless_known lib D contract block raw found node)
    unfolding unless_known
    known-Ends none at_hash = store-Ends at_hash
    known-Ends (some row) at_hash = known row at_hash

    try-Ends : IsDatabase D → Ends node (try_block lib D contract block raw node)
    unfolding try_block
    try-Ends law = elim (Result-cases (D.find_block node.db hash)) [
      | inr (e, p) ↦ rw p (read_failed e)
      | inl (found, p) ↦ rw p (known-Ends found (law.found_block node.db hash p))
    ]

    ends : (r : Result Failure Bool × Node D) → Ends node r → Handled node (caught lib D contract r)
    ends (ok b, n) h = h
    ends (err e, n) h = h

    -- Every run of handleBlock ends in one of these ways.
    pub handle_block-Handled :
        IsDatabase D → Handled node (handle_block lib D contract block raw node)
    unfolding handle_block
    handle_block-Handled law = ends (try_block lib D contract block raw node) (try-Ends law)
