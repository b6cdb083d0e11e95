-- ===== src/Wire/Generated.antt =====
-- The codec of src/generated/push/block_pb.js as the codec of the program.
use push_anode.Wire.{Libraries}
use push_anode.Wire.Jspb.{Jspb}
use push_anode.Wire.Push.Block
use push_anode.Wire.Push.Transaction
use push_anode.Wire.Push.TransactionObj

-- Hashes and signatures stay those of the libraries.
unfoldable pub generated : Jspb → Libraries → Libraries
generated J lib = record lib {
  serialize_block = Block.serialize_binary J;
  deserialize_block = Block.deserialize_binary J;
  serialize_tx = Transaction.serialize_binary J;
  block_to_object = Block.to_object J;
  tx_obj_to_object = TransactionObj.to_object J;
}
