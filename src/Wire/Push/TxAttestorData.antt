-- ===== src/Wire/Push/TxAttestorData.antt =====
-- proto.push.TxAttestorData of src/generated/push/block_pb.js
use push_anode.Prelude.{ℕ, refl, lit, Result, ◌==◌, nat_eq, if◌then◌else◌}
use push_anode.Util.Value.{Value, num, object, end, field}
use push_anode.Wire.{TxAttestorData, Failure}
use push_anode.Wire.Jspb
use push_anode.Wire.Jspb.{Jspb, IsWriter, IsReader, enum, Fields, nil}
use push_anode.Wire.Jspb.Reading.{
  read_all, read_into, skip, Restores, read_all-Restores, enum-Reads, zero-ReadsAll,
}
use push_anode.Wire.Jspb.Writing.{unless_zero, Writes, zero-Writes}

unfoldable pub to_object : TxAttestorData → Value
to_object msg = object (field (lit "vote") (num msg.vote) end)

abbrev pub empty : TxAttestorData
empty = record { vote = 0 }

module _ (J : Jspb) where
  -- serializeBinaryToWriter
  unfoldable pub serialize_binary_to_writer : TxAttestorData → J.Writer → J.Writer
  serialize_binary_to_writer msg w = unless_zero msg.vote (J.write_enum 1 msg.vote w) w

  -- The switch of deserializeBinaryFromReader.
  unfoldable pub read_field :
      ℕ → TxAttestorData → J.Reader → Result Failure (TxAttestorData × J.Reader)
  read_field n msg r =
      if n == 1 then read_into J (J.read_enum r) (λ v. record msg { vote = v }) else skip J msg r

  unfoldable pub deserialize_binary_from_reader :
      TxAttestorData → J.Reader → Result Failure (TxAttestorData × J.Reader)
  deserialize_binary_from_reader msg r = read_all J read_field msg r

-- The fields of a message.
abbrev pub contents : TxAttestorData → Fields
contents msg = unless_zero msg.vote (Jspb.field 1 (enum msg.vote) nil) nil

pub serialize-Writes :
    {J : Jspb} (W : IsWriter J) (msg : TxAttestorData) (w : J.Writer)
    → Writes W w (serialize_binary_to_writer J msg w) (contents msg)
unfolding serialize_binary_to_writer
serialize-Writes W msg w = zero-Writes W msg.vote w _ _ (W.written-write_enum 1 msg.vote w)

pub deserialize-Restores :
    {J : Jspb} {W : IsWriter J} (L : IsReader J W) (msg : TxAttestorData)
    → Restores L (deserialize_binary_from_reader J) (contents msg) empty msg
unfolding deserialize_binary_from_reader read_field
deserialize-Restores {J} L msg = read_all-Restores L (read_field J) (contents msg) empty msg (
    zero-ReadsAll L (read_field J) 1 msg.vote (enum msg.vote) (λ v. record { vote = v })
      (enum-Reads L (read_field J) empty 1 msg.vote (λ v. record { vote = v }) (λ r. refl)))
