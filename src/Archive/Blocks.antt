-- ===== src/Archive/Blocks.antt =====
-- handleBlock and accept of src/modules/archive/archive-node.service.ts.
pub mod Outcomes
pub mod Safety
pub mod Linked
pub mod Complete
pub mod Retry
use push_anode.Prelude.{
  ℕ, Bool, true, false, List, [], ◌∷◌, map, Option, none, some, Text, lit, text_eq, ◌==◌, Result,
  ok, err, if◌then◌else◌,
}
use push_anode.Prelude
use push_anode.Prelude.Actions.{Action, pure, raise, reads, modify, ◌>>=◌, ◌>>◌}
use push_anode.Collections.Map
use push_anode.Util.Hex.{Bytes, decode_hex}
use push_anode.Wire.{Block, Failure, thrown, Libraries}
use push_anode.Validator.Check.{CheckR, pass, fail}
use push_anode.Validator.Signers.{check_block_as_snode}
use push_anode.Validator.Contract.{Contract}
use push_anode.Sockets.Subscriptions.{Hub, broadcast}
use push_anode.Archive.Database.{BlockRow, TxRow, Database}
use push_anode.Archive.Rows.{
  hash_block_as_hex, block_row, prepare_transactions_data, filter_block_data,
}

-- The state that the archive writes: the database, and the sockets of the subscribers.
pub record Node (D : Database) : Type 0 where
  pub db : D.Db
  pub hub : Hub

-- QItem: a block in base 16, with the hash that its producer gave.
pub record QItem : Type 0 where
  pub id : ℕ
  pub object : Text
  pub object_hash : Text

module _ (lib : Libraries) (D : Database) (contract : Contract) where
  -- validateBlock
  abbrev pub check_result : Result Failure CheckR → Result Failure Bool
  check_result (err e) = err e
  check_result (ok pass) = ok true
  check_result (ok (fail e)) = ok false

  unfoldable pub validate_block : Block → Result Failure Bool
  validate_block block =
      check_result
        (check_block_as_snode lib block (Map.keys contract.vnodes) contract.val_per_block)

  abbrev pub Step : Type 0 → Type 0
  Step A = Action Failure (Node D) A

  abbrev save : Node D → Result Failure D.Db → Result Failure (Unit {0}) × Node D
  save node (ok db) = (ok tt, record node { db = db })
  save node (err e) = (err e, node)

  unfoldable pub create_block : Block → Bytes → Step (Unit {0})
  create_block block block_bytes node =
      save node (D.create_block node.db (block_row lib block block_bytes))

  unfoldable pub create_txs : List TxRow → Step (Unit {0})
  create_txs rows node = save node (D.create_txs node.db rows)

  -- What handleBlock writes for new rows: the block, its transactions, the event.
  unfoldable pub insert_block : Block → Bytes → List TxRow → Step Bool
  unfolding create_block create_txs
  insert_block block block_bytes [] = pure true
  insert_block block block_bytes (row ∷ rows) = do
    create_block block block_bytes
    create_txs (row ∷ rows)
    modify (λ node. record node {
      hub = broadcast (filter_block_data (hash_block_as_hex lib block_bytes) (row ∷ rows)) node.hub;
    })
    pure true

  unfoldable pub store_block : Block → Bytes → Step Bool
  store_block block block_bytes = do
    valid ← reads (λ _. validate_block block)
    rows ←
        (if valid
          then reads (λ node.
            prepare_transactions_data lib D node.db block.tx_obj (hash_block_as_hex lib block_bytes)
              block.ts)
          else raise (thrown (lit "Block validation failed")))
    insert_block block block_bytes rows

  unfoldable pub unless_known : Block → Bytes → Option BlockRow → Step Bool
  unless_known block block_bytes (some row) = pure true
  unless_known block block_bytes none = store_block block block_bytes

  unfoldable pub try_block : Block → Bytes → Step Bool
  try_block block block_bytes = do
    stored ← reads (λ node. D.find_block node.db (hash_block_as_hex lib block_bytes))
    unless_known block block_bytes stored

  -- The `catch` of handleBlock: the pair [result, message].
  abbrev pub caught : Result Failure Bool × Node D → (Bool × Option Failure) × Node D
  caught (ok b, node) = ((b, none), node)
  caught (err e, node) = ((false, some e), node)

  -- handleBlock
  unfoldable pub handle_block : Block → Bytes → Node D → (Bool × Option Failure) × Node D
  handle_block block block_bytes node = caught (try_block block block_bytes node)

  abbrev pub accept_block : Result Failure Block → Bytes → Text → Node D → Bool × Node D
  accept_block (err e) bytes object_hash node = (false, node)
  accept_block (ok block) bytes object_hash node =
      if hash_block_as_hex lib bytes == object_hash
      then (let ((res, e), node') = handle_block block bytes node in (res, node'))
      else (false, node)

  -- accept: every exception of it is caught, and answers false
  unfoldable pub accept : QItem → Node D → Bool × Node D
  accept item node =
      let bytes = decode_hex item.object in
      accept_block (lib.deserialize_block bytes) bytes item.object_hash node
