-- ===== src/Wire/Push/Block.antt =====
-- proto.push.Block of src/generated/push/block_pb.js
pub mod RoundTrip
use push_anode.Prelude.{
  ℕ, ◌≡◌, refl, sym, ap, subst, ◌∙◌, List, [], ◌∷◌, ◌++◌, lit, Result, ok, ◌>>=◌, ◌==◌, nat_eq, All,
  All-every, if◌then◌else◌,
}
use push_anode.Util.Base64.{bytes_to_base64}
use push_anode.Util.Hex.{Bytes}
use push_anode.Util.Value
use push_anode.Util.Value.{Value, num, str, array, Items, cons, object, end, field}
use push_anode.Wire.{TransactionObj, Signer, Block, Failure}
use push_anode.Wire.Jspb
use push_anode.Wire.Jspb.{
  Jspb, IsWriter, IsReader, uint64, bytes, message, Fields, nil, ◌++f◌, each, AreWritable,
}
use push_anode.Wire.Jspb.Reading.{
  read_all, read_into, skip, Restores, read_all-Restores, append-ReadsAll, message-Reads,
  uint64-Reads, bytes-Reads, zero-ReadsAll, empty-ReadsAll, each-ReadsAll,
}
use push_anode.Wire.Jspb.Writing.{
  unless_zero, unless_empty, Writes, then-Writes, zero-Writes, empty-Writes, each-Writes,
}
use push_anode.Wire.Push.TransactionObj
use push_anode.Wire.Push.TransactionObj.{IsInOrder}
use push_anode.Wire.Push.Signer

abbrev pub signers_to_object : List Signer → Items
signers_to_object [] = Value.nil
signers_to_object (s ∷ ss) = cons (Signer.to_object s) (signers_to_object ss)

abbrev pub empty : Block
empty = record { ts = 0; attest_token = []; tx_obj = []; signers = [] }

module _ (J : Jspb) where
  abbrev pub tx_objs_to_object : List TransactionObj → Items
  tx_objs_to_object [] = Value.nil
  tx_objs_to_object (t ∷ ts) = cons (TransactionObj.to_object J t) (tx_objs_to_object ts)

  unfoldable pub to_object : Block → Value
  to_object msg = object (
      field (lit "ts") (num msg.ts) (
        field (lit "attesttoken") (str (bytes_to_base64 msg.attest_token)) (
          field (lit "txobjList") (array (tx_objs_to_object msg.tx_obj))
            (field (lit "signersList") (array (signers_to_object msg.signers)) end))))

  -- serializeBinaryToWriter
  unfoldable pub serialize_binary_to_writer : Block → J.Writer → J.Writer
  serialize_binary_to_writer msg w =
      let w1 = unless_zero msg.ts (J.write_uint64 1 msg.ts w) w in
      let w2 = unless_empty msg.attest_token (J.write_bytes 4 msg.attest_token w1) w1 in
      let w3 =
        unless_empty msg.tx_obj
          (J.write_repeated_message 2 msg.tx_obj (TransactionObj.serialize_binary_to_writer J) w2)
          w2 in
      unless_empty msg.signers
        (J.write_repeated_message 3 msg.signers (Signer.serialize_binary_to_writer J) w3) w3

  unfoldable pub serialize_binary : Block → Bytes
  serialize_binary msg = J.get_result_buffer (serialize_binary_to_writer msg J.new_writer)

  -- The switch of deserializeBinaryFromReader.
  unfoldable pub read_field : ℕ → Block → J.Reader → Result Failure (Block × J.Reader)
  read_field n msg r =
      if n == 1
      then read_into J (J.read_uint64 r) (λ v. record msg { ts = v })
      else if n == 4
      then read_into J (J.read_bytes r) (λ v. record msg { attest_token = v })
      else if n == 2
      then read_into J
          (J.read_message TransactionObj.empty (TransactionObj.deserialize_binary_from_reader J) r)
          (λ v. record msg { tx_obj = msg.tx_obj ++ v ∷ [] })
      else if n == 3
      then read_into J (J.read_message Signer.empty (Signer.deserialize_binary_from_reader J) r)
          (λ v. record msg { signers = msg.signers ++ v ∷ [] })
      else skip J msg r

  unfoldable pub deserialize_binary_from_reader :
      Block → J.Reader → Result Failure (Block × J.Reader)
  deserialize_binary_from_reader msg r = read_all J read_field msg r

  unfoldable pub deserialize_binary : Bytes → Result Failure Block
  deserialize_binary raw = do
    (msg, r) ← deserialize_binary_from_reader empty (J.new_reader raw)
    ok msg

  -- The fields of a message.
  abbrev pub contents : Block → Fields
  contents msg =
      unless_zero msg.ts (Jspb.field 1 (uint64 msg.ts) nil) nil
      ++f unless_empty msg.attest_token (Jspb.field 4 (bytes msg.attest_token) nil) nil
      ++f each 2 (TransactionObj.contents J) msg.tx_obj
      ++f each 3 Signer.contents msg.signers
