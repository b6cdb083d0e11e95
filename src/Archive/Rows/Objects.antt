-- ===== src/Archive/Rows/Objects.antt =====
-- What is stored of a block as JSON.
use push_anode.Prelude.{◌≡◌}
use push_anode.Util.Hex.{Bytes}
use push_anode.Util.Value.Laws.{recursively_convert_to_json-IsJson}
use push_anode.Wire.{Block, Libraries}
use push_anode.Wire.Jspb.{Jspb}
use push_anode.Wire.Generated.{generated}
use push_anode.Wire.Push.Block
use push_anode.Wire.Push.Json.{MapsAreJson, block-IsJson}
use push_anode.Archive.Rows.{block_row}

-- With the generated code, where maps become arrays of texts, the conversion to JSON changes nothing:
-- a block is stored with its byte fields in base 64, as toObject gives them.
pub block_row-to_object :
    (J : Jspb) (lib : Libraries) (b : Block) (raw : Bytes)
    → MapsAreJson J
    → (block_row (generated J lib) b raw).data_as_json ≡ Block.to_object J b
unfolding block_row generated
block_row-to_object J lib b raw maps =
    (recursively_convert_to_json-IsJson (Block.to_object J b)).1 (block-IsJson J maps b)
