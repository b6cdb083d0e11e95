-- ===== src/Archive/Steps.antt =====
-- handleBlock of src/modules/archive/archive-node.service.ts one `await` at a time: while a call
-- waits for the database, other calls of it go on.
pub mod Alone
pub mod Safe
pub mod Together
use push_anode.Prelude.{
  ℕ, zero, suc, Bool, true, false, List, [], ◌∷◌, ◌++◌, Option, none, some, Text, lit, Result, ok,
  err, ◌>>=◌,
}
use push_anode.Util.Hex.{Bytes}
use push_anode.Wire.{Transaction, TransactionObj, Block, Failure, thrown, Libraries}
use push_anode.Validator.Check.{defined}
use push_anode.Validator.Contract.{Contract}
use push_anode.Sockets.Subscriptions.{broadcast}
use push_anode.Archive.Database.{BlockRow, TxRow, Database}
use push_anode.Archive.Rows.{
  hash_block_as_hex, get_transaction_hash, tx_row, unless_stored, filter_block_data,
}
use push_anode.Archive.Blocks.{Node, validate_block, create_block, create_txs}

-- What a call waits for: the block by its hash, the signature check, the next transaction by its
-- hash (with the rows so far), block.create, createMany, and the turn to tell the subscribers.
pub data Phase : Type 0 where
  looking : Phase
  checking : Phase
  preparing : List TransactionObj → List TxRow → Phase
  creating : TxRow → List TxRow → Phase
  filling : TxRow → List TxRow → Phase
  announcing : TxRow → List TxRow → Phase
  done : Bool → Option Failure → Phase

-- A call with its arguments.
pub record Call : Type 0 where
  pub block : Block
  pub raw : Bytes
  pub phase : Phase

abbrev pub fails : Failure → Phase
fails e = done false (some e)

abbrev pub looked : Result Failure (Option BlockRow) → Phase
looked (err e) = fails e
looked (ok (some row)) = done true none
looked (ok none) = checking

abbrev pub checked : List TransactionObj → Result Failure Bool → Phase
checked objs (err e) = fails e
checked objs (ok true) = preparing objs []
checked objs (ok false) = fails (thrown (lit "Block validation failed"))

abbrev pub prepared : List TransactionObj → Result Failure (List TxRow) → Phase
prepared objs (err e) = fails e
prepared objs (ok rows) = preparing objs rows

abbrev pub written : Result Failure (Unit {0}) → Phase → Phase
written (err e) next = fails e
written (ok u) next = next

module _ (lib : Libraries) (D : Database) (contract : Contract) where
  module _ (block : Block) (raw : Bytes) where
    -- The row of one transaction after those so far, unless it is stored.
    unfoldable pub prepare_next : TransactionObj → List TxRow → Node D → Result Failure (List TxRow)
    prepare_next t rows node = do
      tx ← defined t.tx
      stored ← D.find_tx node.db (get_transaction_hash lib tx)
      ok (
          rows
          ++ unless_stored lib D stored (tx_row lib tx t (hash_block_as_hex lib raw) block.ts) [])

    -- From one `await` to the next.
    unfoldable pub step : Phase → Node D → Phase × Node D
    step looking node = (looked (D.find_block node.db (hash_block_as_hex lib raw)), node)
    step checking node = (checked block.tx_obj (validate_block lib D contract block), node)
    step (preparing (t ∷ objs) rows) node = (prepared objs (prepare_next t rows node), node)
    step (preparing [] []) node = (done true none, node)
    step (preparing [] (row ∷ rows)) node = (creating row rows, node)
    step (creating row rows) node =
        let (res, node') = create_block lib D contract block raw node in
        (written res (filling row rows), node')
    step (filling row rows) node =
        let (res, node') = create_txs lib D contract (row ∷ rows) node in
        (written res (announcing row rows), node')
    step (announcing row rows) node = (
      done true none,
      record node {
        hub = broadcast (filter_block_data (hash_block_as_hex lib raw) (row ∷ rows)) node.hub;
      },
    )
    step (done b e) node = (done b e, node)

    -- A call on its own.
    unfoldable pub steps : ℕ → Phase → Node D → Phase × Node D
    steps zero p node = (p, node)
    steps (suc n) p node = let (p', node') = step p node in steps n p' node'

  -- The turn of the call at an index.
  unfoldable pub step_at : ℕ → List Call → Node D → List Call × Node D
  step_at i [] node = ([], node)
  step_at zero (c ∷ calls) node =
      let (p, node') = step c.block c.raw c.phase node in (record c { phase = p } ∷ calls, node')
  step_at (suc i) (c ∷ calls) node =
      let (calls', node') = step_at i calls node in (c ∷ calls', node')

  -- Turns in any order.
  unfoldable pub interleave : List ℕ → List Call → Node D → List Call × Node D
  interleave [] calls node = (calls, node)
  interleave (i ∷ turns) calls node =
      let (calls', node') = step_at i calls node in interleave turns calls' node'
