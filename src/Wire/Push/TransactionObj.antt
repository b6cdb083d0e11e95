-- ===== src/Wire/Push/TransactionObj.antt =====
-- proto.push.TransactionObj of src/generated/push/block_pb.js
use push_anode.Prelude.{
  ℕ, refl, List, [], ◌∷◌, ◌++◌, none, some, lit, Result, ◌==◌, nat_eq, All-every, if◌then◌else◌,
}
use push_anode.Util.Value
use push_anode.Util.Value.{Value, undefined, array, Items, cons, object, end, field}
use push_anode.Wire.{TxAttestorData, TransactionObj, Failure}
use push_anode.Wire.Jspb
use push_anode.Wire.Jspb.{Jspb, IsWriter, IsReader, message, Fields, nil, ◌++f◌, each}
use push_anode.Wire.Jspb.Reading.{
  read_all, read_into, skip, Restores, read_all-Restores, append-ReadsAll, message-Reads,
  null-ReadsAll, each-ReadsAll,
}
use push_anode.Wire.Jspb.Writing.{
  unless_empty, unless_null, Writes, then-Writes, null-Writes, each-Writes,
}
use push_anode.Wire.Push.Transaction
use push_anode.Wire.Push.TxValidatorData
use push_anode.Wire.Push.TxValidatorData.{HasOrder}
use push_anode.Wire.Push.TxAttestorData

-- jspb.Message.toObjectList, on the votes
abbrev pub votes_to_object : List TxAttestorData → Items
votes_to_object [] = Value.nil
votes_to_object (v ∷ vs) = cons (TxAttestorData.to_object v) (votes_to_object vs)

abbrev pub empty : TransactionObj
empty = record { tx = none; validator_data = none; attestor_data = [] }

module _ (J : Jspb) where
  unfoldable pub to_object : TransactionObj → Value
  to_object msg = object (
      field (lit "tx") (unless_null msg.tx Transaction.to_object undefined) (
        field (lit "validatordata")
          (unless_null msg.validator_data (TxValidatorData.to_object J) undefined)
          (field (lit "attestordataList") (array (votes_to_object msg.attestor_data)) end)))

  -- serializeBinaryToWriter
  unfoldable pub serialize_binary_to_writer : TransactionObj → J.Writer → J.Writer
  serialize_binary_to_writer msg w =
      let w1 =
        unless_null msg.tx (λ f. J.write_message 1 f (Transaction.serialize_binary_to_writer J) w)
          w in
      let w2 =
        unless_null msg.validator_data
          (λ f. J.write_message 2 f (TxValidatorData.serialize_binary_to_writer J) w1) w1 in
      unless_empty msg.attestor_data
        (J.write_repeated_message 3 msg.attestor_data (TxAttestorData.serialize_binary_to_writer J)
          w2)
        w2

  -- The switch of deserializeBinaryFromReader.
  unfoldable pub read_field :
      ℕ → TransactionObj → J.Reader → Result Failure (TransactionObj × J.Reader)
  read_field n msg r =
      if n == 1
      then read_into J
          (J.read_message Transaction.empty (Transaction.deserialize_binary_from_reader J) r)
          (λ v. record msg { tx = some v })
      else if n == 2
      then read_into J
          (J.read_message TxValidatorData.empty (TxValidatorData.deserialize_binary_from_reader J)
            r)
          (λ v. record msg { validator_data = some v })
      else if n == 3
      then read_into J
          (J.read_message TxAttestorData.empty (TxAttestorData.deserialize_binary_from_reader J) r)
          (λ v. record msg { attestor_data = msg.attestor_data ++ v ∷ [] })
      else skip J msg r

  unfoldable pub deserialize_binary_from_reader :
      TransactionObj → J.Reader → Result Failure (TransactionObj × J.Reader)
  deserialize_binary_from_reader msg r = read_all J read_field msg r

  -- The fields of a message.
  abbrev pub contents : TransactionObj → Fields
  contents msg =
      unless_null msg.tx (λ f. Jspb.field 1 (message (Transaction.contents f)) nil) nil
      ++f unless_null msg.validator_data
          (λ f. Jspb.field 2 (message (TxValidatorData.contents J f)) nil) nil
      ++f each 3 TxAttestorData.contents msg.attestor_data

  -- Its map stands in the order in which it is written.
  abbrev pub IsInOrder : TransactionObj → Type 0
  IsInOrder msg = unless_null msg.validator_data (HasOrder J) Unit

pub serialize-Writes :
    {J : Jspb} (W : IsWriter J) (msg : TransactionObj) (w : J.Writer)
    → Writes W w (serialize_binary_to_writer J msg w) (contents J msg)
unfolding serialize_binary_to_writer
serialize-Writes W msg w =
    then-Writes W _ _ _ _ _
      (null-Writes W msg.tx _ _ _
        (λ f. W.written-write_message 1 f _ _ (Transaction.serialize-Writes W f) _))
      (then-Writes W _ _ _ _ _
        (null-Writes W msg.validator_data _ _ _
          (λ f. W.written-write_message 2 f _ _ (TxValidatorData.serialize-Writes W f) _))
        (each-Writes W msg.attestor_data 3 TxAttestorData.contents _ _ (
          W.written-write_repeated_message 3 msg.attestor_data _ TxAttestorData.contents
            (TxAttestorData.serialize-Writes W) _)))

pub deserialize-Restores :
    {J : Jspb} {W : IsWriter J} (L : IsReader J W) (msg : TransactionObj)
    → IsInOrder J msg
    → Restores L (deserialize_binary_from_reader J) (contents J msg) empty msg
unfolding deserialize_binary_from_reader read_field
deserialize-Restores {J} L msg ordered =
    let switch = read_field J in
    let m1 = record empty { tx = msg.tx } in
    let m2 = record m1 { validator_data = msg.validator_data } in
    read_all-Restores L switch (contents J msg) empty msg (
      append-ReadsAll L switch _ _ empty m1 msg
        (null-ReadsAll L switch 1 msg.tx Transaction.contents (λ o. record empty { tx = o })
          (λ f is.
            message-Reads L switch empty 1 _ (Transaction.contents f) Transaction.empty f
              (λ v. record empty { tx = some v }) (λ r. refl)
              (Transaction.deserialize-Restores L f)))
        (append-ReadsAll L switch _ _ m1 m2 msg
          (null-ReadsAll L switch 2 msg.validator_data (TxValidatorData.contents J)
            (λ o. record m1 { validator_data = o })
            (λ f is.
              message-Reads L switch m1 2 _ (TxValidatorData.contents J f) TxValidatorData.empty f
                (λ v. record m1 { validator_data = some v }) (λ r. refl)
                (TxValidatorData.deserialize-Restores L f (rw is at ordered))))
          (each-ReadsAll L switch 3 (λ v. Unit) TxAttestorData.contents
            (λ vs. record m2 { attestor_data = vs })
            (λ before v u.
              message-Reads L switch (record m2 { attestor_data = before }) 3 _
                (TxAttestorData.contents v) TxAttestorData.empty v
                (λ x. record m2 { attestor_data = before ++ x ∷ [] }) (λ r. refl)
                (TxAttestorData.deserialize-Restores L v))
            [] msg.attestor_data (All-every (λ v. tt) msg.attestor_data))))
