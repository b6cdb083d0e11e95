-- ===== src/Tests/Messages.antt =====
-- A block with signatures, votes and a map, in a wire format.
use push_anode.Prelude.{◌≡◌, refl, [], ◌∷◌, some, lit, ok, All, arith}
use push_anode.Collections.Map
use push_anode.Wire.{Block, accepted}
use push_anode.Wire.Generated.{generated}
use push_anode.Wire.Jspb.{AreWritable, ◌++f◌, text, Fields, nil, field}
use push_anode.Wire.Jspb.Ending.{Ends}
use push_anode.Wire.Push.Block.{
  to_object, serialize_binary, serialize_binary_to_writer, deserialize_binary, contents, read_field,
}
use push_anode.Wire.Push.Block
use push_anode.Wire.Push.DidMapping
use push_anode.Wire.Push.Ends.{block_messages-Ends}
use push_anode.Wire.Push.Block.RoundTrip.{
  deserialize_binary-serialize_binary, deserialize_binary-appended,
}
use push_anode.Wire.Push.Signer
use push_anode.Wire.Push.Transaction
use push_anode.Wire.Push.TransactionObj
use push_anode.Wire.Push.TransactionObj.{IsInOrder}
use push_anode.Wire.Push.TxAttestorData
use push_anode.Wire.Push.TxValidatorData
use push_anode.Archive.Rows.{block_row}
use push_anode.Archive.Rows.Objects.{block_row-to_object}
use push_anode.Tests.Codec.{libraries}
use push_anode.Tests.Jspb.{jspb, jspb-IsWriter, jspb-IsReader, jspb-IsForward, pairs-AreJson}
use push_anode.Tests.Signers.{attested_twice, mail}

abbrev mapped : Block
mapped = record attested_twice {
  tx_obj =
      record {
        tx = some mail;
        validator_data =
            some (record { vote = accepted; did_mapping = some ((lit "did:a", lit "did:b") ∷ []) });
        attestor_data = record { vote = accepted } ∷ [];
      }
      ∷ [];
}

mapped-AreWritable : AreWritable jspb-IsReader.IsUnicode (contents jspb mapped)
unfolding jspb-IsReader
mapped-AreWritable = omega arith

mapped-IsInOrder : All (IsInOrder jspb) mapped.tx_obj
unfolding Map.set
mapped-IsInOrder = (refl, tt)

deserialize_binary-serialize_binary_example :
    deserialize_binary jspb (serialize_binary jspb mapped) ≡ ok mapped
deserialize_binary-serialize_binary_example =
    deserialize_binary-serialize_binary jspb-IsReader mapped mapped-AreWritable mapped-IsInOrder

-- A second encoding of the block: a field of number 9 follows.
abbrev note : Fields
note = field 9 (text (lit "x")) nil

with_note-AreWritable : AreWritable jspb-IsReader.IsUnicode (contents jspb mapped ++f note)
unfolding jspb-IsReader
with_note-AreWritable = omega arith

deserialize_binary-appended_example :
    deserialize_binary jspb (
      jspb.get_result_buffer
        (jspb.write_string 9 (lit "x") (serialize_binary_to_writer jspb mapped jspb.new_writer)))
    ≡ ok mapped
unfolding jspb-IsWriter
deserialize_binary-appended_example =
    deserialize_binary-appended jspb-IsReader mapped note _ refl (omega arith) with_note-AreWritable
      mapped-IsInOrder

block_messages-Ends_example :
    Ends jspb (Block.read_field jspb)
    × Ends jspb (TransactionObj.read_field jspb)
    × Ends jspb (Transaction.read_field jspb)
    × Ends jspb (TxValidatorData.read_field jspb)
    × Ends jspb (DidMapping.read_field jspb)
    × Ends jspb (TxAttestorData.read_field jspb)
    × Ends jspb (Signer.read_field jspb)
block_messages-Ends_example = block_messages-Ends jspb jspb-IsForward

block_row-to_object_example :
    (block_row (generated jspb libraries) mapped (1 ∷ 2 ∷ [])).data_as_json
    ≡ Block.to_object jspb mapped
block_row-to_object_example = block_row-to_object jspb libraries mapped (1 ∷ 2 ∷ []) pairs-AreJson
