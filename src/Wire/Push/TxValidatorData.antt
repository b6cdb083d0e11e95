-- ===== src/Wire/Push/TxValidatorData.antt =====
-- proto.push.TxValidatorData of src/generated/push/block_pb.js
use push_anode.Prelude.{ℕ, refl, [], none, some, lit, Result, ◌==◌, nat_eq, if◌then◌else◌}
use push_anode.Util.Value.{Value, undefined, num, object, end, field}
use push_anode.Wire.{TxValidatorData, Failure}
use push_anode.Wire.Jspb
use push_anode.Wire.Jspb.{Jspb, IsWriter, IsReader, enum, message, Fields, nil, ◌++f◌}
use push_anode.Wire.Jspb.Reading.{
  read_all, read_into, skip, Restores, read_all-Restores, append-ReadsAll, enum-Reads,
  zero-ReadsAll, message-Reads, null-ReadsAll,
}
use push_anode.Wire.Jspb.Writing.{
  unless_zero, unless_null, Writes, then-Writes, zero-Writes, null-Writes,
}
use push_anode.Wire.Push.DidMapping
use push_anode.Wire.Push.DidMapping.{IsOrdered}

abbrev pub empty : TxValidatorData
empty = record { vote = 0; did_mapping = none }

module _ (J : Jspb) where
  unfoldable pub to_object : TxValidatorData → Value
  to_object msg = object (
      field (lit "vote") (num msg.vote) (
        field (lit "didmapping") (unless_null msg.did_mapping (DidMapping.to_object J) undefined)
          end))

  -- serializeBinaryToWriter
  unfoldable pub serialize_binary_to_writer : TxValidatorData → J.Writer → J.Writer
  serialize_binary_to_writer msg w =
      let w1 = unless_zero msg.vote (J.write_enum 1 msg.vote w) w in
      unless_null msg.did_mapping
        (λ f. J.write_message 2 f (DidMapping.serialize_binary_to_writer J) w1) w1

  -- The switch of deserializeBinaryFromReader.
  unfoldable pub read_field :
      ℕ → TxValidatorData → J.Reader → Result Failure (TxValidatorData × J.Reader)
  read_field n msg r =
      if n == 1
      then read_into J (J.read_enum r) (λ v. record msg { vote = v })
      else if n == 2
      then read_into J (J.read_message [] (DidMapping.deserialize_binary_from_reader J) r)
          (λ v. record msg { did_mapping = some v })
      else skip J msg r

  unfoldable pub deserialize_binary_from_reader :
      TxValidatorData → J.Reader → Result Failure (TxValidatorData × J.Reader)
  deserialize_binary_from_reader msg r = read_all J read_field msg r

  -- The fields of a message.
  abbrev pub contents : TxValidatorData → Fields
  contents msg =
      unless_zero msg.vote (Jspb.field 1 (enum msg.vote) nil) nil
      ++f unless_null msg.did_mapping (λ f. Jspb.field 2 (message (DidMapping.contents J f)) nil)
          nil

-- Its map stands in the order in which it is written.
abbrev pub HasOrder : Jspb → TxValidatorData → Type 0
HasOrder jspb msg = unless_null msg.did_mapping (IsOrdered jspb) Unit

pub serialize-Writes :
    {J : Jspb} (W : IsWriter J) (msg : TxValidatorData) (w : J.Writer)
    → Writes W w (serialize_binary_to_writer J msg w) (contents J msg)
unfolding serialize_binary_to_writer
serialize-Writes W msg w =
    then-Writes W w _ _ _ _ (zero-Writes W msg.vote w _ _ (W.written-write_enum 1 msg.vote w)) (
      null-Writes W msg.did_mapping _ _ _
        (λ f. W.written-write_message 2 f _ _ (DidMapping.serialize-Writes W f) _))

pub deserialize-Restores :
    {J : Jspb} {W : IsWriter J} (L : IsReader J W) (msg : TxValidatorData)
    → HasOrder J msg
    → Restores L (deserialize_binary_from_reader J) (contents J msg) empty msg
unfolding deserialize_binary_from_reader read_field
deserialize-Restores {J} L msg ordered =
    let switch = read_field J in
    let voted = record empty { vote = msg.vote } in
    read_all-Restores L switch (contents J msg) empty msg (
      append-ReadsAll L switch _ _ empty voted msg
        (zero-ReadsAll L switch 1 msg.vote (enum msg.vote) (λ v. record empty { vote = v })
          (enum-Reads L switch empty 1 msg.vote (λ v. record empty { vote = v }) (λ r. refl)))
        (null-ReadsAll L switch 2 msg.did_mapping (DidMapping.contents J)
          (λ o. record voted { did_mapping = o })
          (λ f is.
            message-Reads L switch voted 2 _ (DidMapping.contents J f) [] f
              (λ v. record voted { did_mapping = some v }) (λ r. refl)
              (DidMapping.deserialize-Restores L f (rw is at ordered)))))
