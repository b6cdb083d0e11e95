-- ===== src/Wire/Push/Transaction.antt =====
-- proto.push.Transaction of src/generated/push/block_pb.js; its field `data` is `payload` here.
use push_anode.Prelude.{
  ℕ, ◌≡◌, refl, List, [], ◌∷◌, ◌++◌, Text, lit, Result, ok, ◌>>=◌, ◌==◌, nat_eq, if◌then◌else◌,
}
use push_anode.Util.Base64.{bytes_to_base64}
use push_anode.Util.Hex.{Bytes}
use push_anode.Util.Value.{Value, num, str, array, Items, cons, object, end, field}
use push_anode.Util.Value
use push_anode.Wire.{Transaction, Failure}
use push_anode.Wire.Jspb
use push_anode.Wire.Jspb.{
  Jspb, IsWriter, IsReader, uint32, text, bytes, Fields, nil, ◌++f◌, texts, AreWritable,
}
use push_anode.Wire.Jspb.Reading.{
  written-Restores, read_all, read_into, skip, Restores, read_all-Restores, append-ReadsAll,
  uint32-Reads, text-Reads, bytes-Reads, zero-ReadsAll, empty-ReadsAll, texts-ReadsAll,
}
use push_anode.Wire.Jspb.Writing.{
  unless_zero, unless_empty, Writes, then-Writes, zero-Writes, empty-Writes, texts-Writes,
}

abbrev pub strings : List Text → Items
strings [] = Value.nil
strings (t ∷ ts) = cons (str t) (strings ts)

unfoldable pub to_object : Transaction → Value
to_object msg = object (
    field (lit "type") (num msg.type) (
      field (lit "category") (str msg.category) (
        field (lit "sender") (str msg.sender) (
          field (lit "recipientsList") (array (strings msg.recipients)) (
            field (lit "data") (str (bytes_to_base64 msg.payload)) (
              field (lit "salt") (str (bytes_to_base64 msg.salt)) (
                field (lit "apitoken") (str (bytes_to_base64 msg.api_token)) (
                  field (lit "signature") (str (bytes_to_base64 msg.signature))
                    (field (lit "fee") (str msg.fee) end)))))))))

abbrev pub empty : Transaction
empty = record {
  type = 0;
  category = [];
  sender = [];
  recipients = [];
  payload = [];
  salt = [];
  api_token = [];
  signature = [];
  fee = [];
}

module _ (J : Jspb) where
  -- serializeBinaryToWriter
  unfoldable pub serialize_binary_to_writer : Transaction → J.Writer → J.Writer
  serialize_binary_to_writer msg w =
      let w1 = unless_zero msg.type (J.write_uint32 1 msg.type w) w in
      let w2 = unless_empty msg.category (J.write_string 2 msg.category w1) w1 in
      let w3 = unless_empty msg.sender (J.write_string 3 msg.sender w2) w2 in
      let w4 = unless_empty msg.recipients (J.write_repeated_string 4 msg.recipients w3) w3 in
      let w5 = unless_empty msg.payload (J.write_bytes 5 msg.payload w4) w4 in
      let w6 = unless_empty msg.salt (J.write_bytes 6 msg.salt w5) w5 in
      let w7 = unless_empty msg.api_token (J.write_bytes 7 msg.api_token w6) w6 in
      let w8 = unless_empty msg.signature (J.write_bytes 8 msg.signature w7) w7 in
      unless_empty msg.fee (J.write_string 9 msg.fee w8) w8

  unfoldable pub serialize_binary : Transaction → Bytes
  serialize_binary msg = J.get_result_buffer (serialize_binary_to_writer msg J.new_writer)

  -- The switch of deserializeBinaryFromReader.
  unfoldable pub read_field : ℕ → Transaction → J.Reader → Result Failure (Transaction × J.Reader)
  read_field n msg r =
      if n == 1
      then read_into J (J.read_uint32 r) (λ v. record msg { type = v })
      else if n == 2
      then read_into J (J.read_string r) (λ v. record msg { category = v })
      else if n == 3
      then read_into J (J.read_string r) (λ v. record msg { sender = v })
      else if n == 4
      then read_into J (J.read_string r) (λ v. record msg { recipients = msg.recipients ++ v ∷ [] })
      else if n == 5
      then read_into J (J.read_bytes r) (λ v. record msg { payload = v })
      else if n == 6
      then read_into J (J.read_bytes r) (λ v. record msg { salt = v })
      else if n == 7
      then read_into J (J.read_bytes r) (λ v. record msg { api_token = v })
      else if n == 8
      then read_into J (J.read_bytes r) (λ v. record msg { signature = v })
      else if n == 9
      then read_into J (J.read_string r) (λ v. record msg { fee = v })
      else skip J msg r

  unfoldable pub deserialize_binary_from_reader :
      Transaction → J.Reader → Result Failure (Transaction × J.Reader)
  deserialize_binary_from_reader msg r = read_all J read_field msg r

  unfoldable pub deserialize_binary : Bytes → Result Failure Transaction
  deserialize_binary raw = do
    (msg, r) ← deserialize_binary_from_reader empty (J.new_reader raw)
    ok msg

-- The fields of a message.
abbrev pub contents : Transaction → Fields
contents msg =
    unless_zero msg.type (Jspb.field 1 (uint32 msg.type) nil) nil
    ++f unless_empty msg.category (Jspb.field 2 (text msg.category) nil) nil
    ++f unless_empty msg.sender (Jspb.field 3 (text msg.sender) nil) nil
    ++f texts 4 msg.recipients
    ++f unless_empty msg.payload (Jspb.field 5 (bytes msg.payload) nil) nil
    ++f unless_empty msg.salt (Jspb.field 6 (bytes msg.salt) nil) nil
    ++f unless_empty msg.api_token (Jspb.field 7 (bytes msg.api_token) nil) nil
    ++f unless_empty msg.signature (Jspb.field 8 (bytes msg.signature) nil) nil
    ++f unless_empty msg.fee (Jspb.field 9 (text msg.fee) nil) nil

pub serialize-Writes :
    {J : Jspb} (W : IsWriter J) (msg : Transaction) (w : J.Writer)
    → Writes W w (serialize_binary_to_writer J msg w) (contents msg)
unfolding serialize_binary_to_writer
serialize-Writes W msg w =
    (then-Writes W _ _ _ _ _ (zero-Writes W msg.type _ _ _ (W.written-write_uint32 1 msg.type _)) (
      then-Writes W _ _ _ _ _
        (empty-Writes W msg.category _ _ _ (W.written-write_string 2 msg.category _))
        (then-Writes W _ _ _ _ _
          (empty-Writes W msg.sender _ _ _ (W.written-write_string 3 msg.sender _))
          (then-Writes W _ _ _ _ _
            (texts-Writes W msg.recipients 4 _ _
              (W.written-write_repeated_string 4 msg.recipients _))
            (then-Writes W _ _ _ _ _
              (empty-Writes W msg.payload _ _ _ (W.written-write_bytes 5 msg.payload _))
              (then-Writes W _ _ _ _ _
                (empty-Writes W msg.salt _ _ _ (W.written-write_bytes 6 msg.salt _))
                (then-Writes W _ _ _ _ _
                  (empty-Writes W msg.api_token _ _ _ (W.written-write_bytes 7 msg.api_token _))
                  (then-Writes W _ _ _ _ _
                    (empty-Writes W msg.signature _ _ _ (W.written-write_bytes 8 msg.signature _))
                    (empty-Writes W msg.fee _ _ _ (W.written-write_string 9 msg.fee _))))))))))

pub deserialize-Restores :
    {J : Jspb} {W : IsWriter J} (L : IsReader J W) (msg : Transaction)
    → Restores L (deserialize_binary_from_reader J) (contents msg) empty msg
unfolding deserialize_binary_from_reader read_field
deserialize-Restores {J} L msg =
    let switch = read_field J in
    let m0 = empty in
    let m1 = record m0 { type = msg.type } in
    let m2 = record m1 { category = msg.category } in
    let m3 = record m2 { sender = msg.sender } in
    let m4 = record m3 { recipients = msg.recipients } in
    let m5 = record m4 { payload = msg.payload } in
    let m6 = record m5 { salt = msg.salt } in
    let m7 = record m6 { api_token = msg.api_token } in
    let m8 = record m7 { signature = msg.signature } in
    let m9 = record m8 { fee = msg.fee } in
    read_all-Restores L switch (contents msg) m0 m9 (
      append-ReadsAll L switch _ _ m0 m1 m9
        (zero-ReadsAll L switch 1 msg.type (uint32 msg.type) (λ v. record m0 { type = v })
          (uint32-Reads L switch m0 1 msg.type (λ v. record m0 { type = v }) (λ r. refl)))
        (append-ReadsAll L switch _ _ m1 m2 m9
          (empty-ReadsAll L switch 2 msg.category (text msg.category)
            (λ v. record m1 { category = v })
            (text-Reads L switch m1 2 msg.category (λ v. record m1 { category = v }) (λ r. refl)))
          (append-ReadsAll L switch _ _ m2 m3 m9
            (empty-ReadsAll L switch 3 msg.sender (text msg.sender) (λ v. record m2 { sender = v })
              (text-Reads L switch m2 3 msg.sender (λ v. record m2 { sender = v }) (λ r. refl)))
            (append-ReadsAll L switch _ _ m3 m4 m9
              (texts-ReadsAll L switch 4 (λ v. record m3 { recipients = v })
                (λ before t.
                  text-Reads L switch (record m3 { recipients = before }) 4 t
                    (λ v. record m3 { recipients = before ++ v ∷ [] }) (λ r. refl))
                [] msg.recipients)
              (append-ReadsAll L switch _ _ m4 m5 m9
                (empty-ReadsAll L switch 5 msg.payload (bytes msg.payload)
                  (λ v. record m4 { payload = v })
                  (bytes-Reads L switch m4 5 msg.payload (λ v. record m4 { payload = v })
                    (λ r. refl)))
                (append-ReadsAll L switch _ _ m5 m6 m9
                  (empty-ReadsAll L switch 6 msg.salt (bytes msg.salt) (λ v. record m5 { salt = v })
                    (bytes-Reads L switch m5 6 msg.salt (λ v. record m5 { salt = v }) (λ r. refl)))
                  (append-ReadsAll L switch _ _ m6 m7 m9
                    (empty-ReadsAll L switch 7 msg.api_token (bytes msg.api_token)
                      (λ v. record m6 { api_token = v })
                      (bytes-Reads L switch m6 7 msg.api_token (λ v. record m6 { api_token = v })
                        (λ r. refl)))
                    (append-ReadsAll L switch _ _ m7 m8 m9
                      (empty-ReadsAll L switch 8 msg.signature (bytes msg.signature)
                        (λ v. record m7 { signature = v })
                        (bytes-Reads L switch m7 8 msg.signature (λ v. record m7 { signature = v })
                          (λ r. refl)))
                      (empty-ReadsAll L switch 9 msg.fee (text msg.fee) (λ v. record m8 { fee = v })
                        (text-Reads L switch m8 9 msg.fee (λ v. record m8 { fee = v })
                          (λ r. refl)))))))))))

-- A transaction is read back from its bytes.
pub deserialize_binary-serialize_binary_tx :
    {J : Jspb} {W : IsWriter J} (L : IsReader J W) (tx : Transaction)
    → AreWritable L.IsUnicode (contents tx)
    → deserialize_binary J (serialize_binary J tx) ≡ ok tx
unfolding deserialize_binary serialize_binary
deserialize_binary-serialize_binary_tx {J} {W} L tx writable =
    let w = serialize_binary_to_writer J tx J.new_writer in
    let (r', e) =
      written-Restores L (deserialize_binary_from_reader J) w (contents tx) empty tx
        (serialize-Writes W tx J.new_writer) writable (deserialize-Restores L tx) in
    rw e refl
