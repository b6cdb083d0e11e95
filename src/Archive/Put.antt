-- ===== src/Archive/Put.antt =====
-- push_putBlock of src/modules/block/block.service.ts: the blocks that another node sends.
pub mod Laws
use push_anode.Prelude.{Bool, true, false, List, [], ◌∷◌, Option, none, some, Text, Result, ok, err}
use push_anode.Util.Hex.{Bytes, HexError, base16_to_bytes}
use push_anode.Wire.{Block, Failure, Libraries}
use push_anode.Validator.Contract.{Contract}
use push_anode.Archive.Database.{Database}
use push_anode.Archive.Blocks.{Node, handle_block}

-- The reason of a refusal: a text that is not base 16, an exception, or the pair [false, null].
pub data Reason : Type 0 where
  bad_text : HexError → Reason
  failure : Failure → Reason
  duplicate : Reason

-- The status of one block.
pub data Status : Type 0 where
  success : Status
  rejected : Reason → Status

abbrev pub status_of : Bool → Option Failure → Status
status_of res (some e) = rejected (failure e)
status_of false none = rejected duplicate
status_of true none = success

module _ (lib : Libraries) (D : Database) (contract : Contract) where
  abbrev pub put_parsed : Result Failure Block → Bytes → Node D → Status × Node D
  put_parsed (err e) mb node = (rejected (failure e), node)
  put_parsed (ok parsed) mb node =
      let ((res, e), node') = handle_block lib D contract parsed mb node in (status_of res e, node')

  abbrev pub put_bytes : Result HexError Bytes → Node D → Status × Node D
  put_bytes (err e) node = (rejected (bad_text e), node)
  put_bytes (ok mb) node = put_parsed (lib.deserialize_block mb) mb node

  -- One round of the loop, with its `catch`.
  unfoldable pub put_block : Text → Node D → Status × Node D
  put_block block node = put_bytes (base16_to_bytes block) node

  -- push_putBlock
  unfoldable pub push_put_block : List Text → Node D → List Status × Node D
  push_put_block [] node = ([], node)
  push_put_block (block ∷ blocks) node =
      let (status, node1) = put_block block node in
      let (statuses, node2) = push_put_block blocks node1 in (status ∷ statuses, node2)
