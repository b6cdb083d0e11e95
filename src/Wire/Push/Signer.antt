-- ===== src/Wire/Push/Signer.antt =====
-- proto.push.Signer of src/generated/push/block_pb.js
use push_anode.Prelude.{ℕ, refl, [], lit, Result, ◌==◌, nat_eq, if◌then◌else◌}
use push_anode.Util.Base64.{bytes_to_base64}
use push_anode.Util.Value.{Value, str, object, end, field}
use push_anode.Wire.{Signer, Failure}
use push_anode.Wire.Jspb.{Jspb, IsWriter, IsReader, bytes, Fields, nil}
use push_anode.Wire.Jspb
use push_anode.Wire.Jspb.Reading.{
  read_all, read_into, skip, Restores, read_all-Restores, bytes-Reads, empty-ReadsAll,
}
use push_anode.Wire.Jspb.Writing.{unless_empty, Writes, empty-Writes}

unfoldable pub to_object : Signer → Value
to_object msg = object (field (lit "sig") (str (bytes_to_base64 msg.sig)) end)

abbrev pub empty : Signer
empty = record { sig = [] }

module _ (J : Jspb) where
  -- serializeBinaryToWriter
  unfoldable pub serialize_binary_to_writer : Signer → J.Writer → J.Writer
  serialize_binary_to_writer msg w = unless_empty msg.sig (J.write_bytes 1 msg.sig w) w

  -- The switch of deserializeBinaryFromReader.
  unfoldable pub read_field : ℕ → Signer → J.Reader → Result Failure (Signer × J.Reader)
  read_field n msg r =
      if n == 1 then read_into J (J.read_bytes r) (λ v. record msg { sig = v }) else skip J msg r

  unfoldable pub deserialize_binary_from_reader :
      Signer → J.Reader → Result Failure (Signer × J.Reader)
  deserialize_binary_from_reader msg r = read_all J read_field msg r

-- The fields of a message.
abbrev pub contents : Signer → Fields
contents msg = unless_empty msg.sig (Jspb.field 1 (bytes msg.sig) nil) nil

pub serialize-Writes :
    {J : Jspb} (W : IsWriter J) (msg : Signer) (w : J.Writer)
    → Writes W w (serialize_binary_to_writer J msg w) (contents msg)
unfolding serialize_binary_to_writer
serialize-Writes W msg w = empty-Writes W msg.sig w _ _ (W.written-write_bytes 1 msg.sig w)

pub deserialize-Restores :
    {J : Jspb} {W : IsWriter J} (L : IsReader J W) (msg : Signer)
    → Restores L (deserialize_binary_from_reader J) (contents msg) empty msg
unfolding deserialize_binary_from_reader read_field
deserialize-Restores {J} L msg = read_all-Restores L (read_field J) (contents msg) empty msg (
    empty-ReadsAll L (read_field J) 1 msg.sig (bytes msg.sig) (λ v. record { sig = v })
      (bytes-Reads L (read_field J) empty 1 msg.sig (λ v. record { sig = v }) (λ r. refl)))
