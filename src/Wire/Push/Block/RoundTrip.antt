-- ===== src/Wire/Push/Block/RoundTrip.antt =====
-- A block as bytes: what is written is read, also where fields follow that are not known.
use push_anode.Prelude.{ℕ, ◌≡◌, refl, sym, subst, [], ◌∷◌, ◌++◌, ok, nat_eq, All, All-every}
use push_anode.Wire.{Block}
use push_anode.Wire.Jspb
use push_anode.Wire.Jspb.{
  Jspb, IsWriter, IsReader, uint64, bytes, message, Fields, nil, ◌++f◌, each, AreWritable,
}
use push_anode.Wire.Jspb.Reading.{
  read_all-Restores, append-ReadsAll, message-Reads, uint64-Reads, bytes-Reads, zero-ReadsAll,
  empty-ReadsAll, each-ReadsAll,
}
use push_anode.Wire.Jspb.Writing.{Writes, then-Writes, zero-Writes, empty-Writes, each-Writes}
use push_anode.Wire.Push.TransactionObj
use push_anode.Wire.Push.TransactionObj.{IsInOrder}
use push_anode.Wire.Push.Signer
use push_anode.Prelude.{◌<◌, ◌^◌, arith}
use push_anode.Wire.Jspb.{Item}
use push_anode.Wire.Jspb.Writing.{++f-nil}
use push_anode.Wire.Jspb.Reading.{Reads, ReadsAll, written-Restores}
use push_anode.Wire.Push.Block.{
  empty, serialize_binary_to_writer, serialize_binary, read_field, deserialize_binary_from_reader,
  deserialize_binary, contents,
}

serialize-Writes :
    {J : Jspb} (W : IsWriter J) (msg : Block) (w : J.Writer)
    → Writes W w (serialize_binary_to_writer J msg w) (contents J msg)
unfolding serialize_binary_to_writer
serialize-Writes W msg w =
    then-Writes W _ _ _ _ _ (zero-Writes W msg.ts _ _ _ (W.written-write_uint64 1 msg.ts _)) (
      then-Writes W _ _ _ _ _
        (empty-Writes W msg.attest_token _ _ _ (W.written-write_bytes 4 msg.attest_token _))
        (then-Writes W _ _ _ _ _
          (each-Writes W msg.tx_obj 2 _ _ _ (
            W.written-write_repeated_message 2 msg.tx_obj _ _ (TransactionObj.serialize-Writes W)
              _))
          (each-Writes W msg.signers 3 _ _ _
            (W.written-write_repeated_message 3 msg.signers _ _ (Signer.serialize-Writes W) _))))

contents-ReadsAll :
    {J : Jspb} {W : IsWriter J} (L : IsReader J W) (msg : Block)
    → All (IsInOrder J) msg.tx_obj
    → ReadsAll L (read_field J) (contents J msg) empty msg
unfolding read_field
contents-ReadsAll {J} L msg ordered =
    let switch = read_field J in
    let m1 = record empty { ts = msg.ts } in
    let m2 = record m1 { attest_token = msg.attest_token } in
    let m3 = record m2 { tx_obj = msg.tx_obj } in
    (append-ReadsAll L switch _ _ empty m1 msg
      (zero-ReadsAll L switch 1 msg.ts (uint64 msg.ts) (λ v. record empty { ts = v })
        (uint64-Reads L switch empty 1 msg.ts (λ v. record empty { ts = v }) (λ r. refl)))
      (append-ReadsAll L switch _ _ m1 m2 msg
        (empty-ReadsAll L switch 4 msg.attest_token (bytes msg.attest_token)
          (λ v. record m1 { attest_token = v })
          (bytes-Reads L switch m1 4 msg.attest_token (λ v. record m1 { attest_token = v })
            (λ r. refl)))
        (append-ReadsAll L switch _ _ m2 m3 msg
          (each-ReadsAll L switch 2 (IsInOrder J) (TransactionObj.contents J)
            (λ ts. record m2 { tx_obj = ts })
            (λ before t in_order.
              message-Reads L switch (record m2 { tx_obj = before }) 2 _
                (TransactionObj.contents J t) TransactionObj.empty t
                (λ x. record m2 { tx_obj = before ++ x ∷ [] }) (λ r. refl)
                (TransactionObj.deserialize-Restores L t in_order))
            [] msg.tx_obj ordered)
          (each-ReadsAll L switch 3 (λ s. Unit) Signer.contents (λ ss. record m3 { signers = ss })
            (λ before s u.
              message-Reads L switch (record m3 { signers = before }) 3 _ (Signer.contents s)
                Signer.empty s (λ x. record m3 { signers = before ++ x ∷ [] }) (λ r. refl)
                (Signer.deserialize-Restores L s))
            [] msg.signers (All-every (λ s. tt) msg.signers)))))

-- The fields after those of a block have numbers that the switch does not know, and that the header
-- of a field has room for.
abbrev pub HasNewNumbers : Fields → Type 0
HasNewNumbers nil = Unit
HasNewNumbers (Jspb.field n i fs) = (4 < n) × (n < 2 ^ 29) × HasNewNumbers fs

module _ {J : Jspb} {W : IsWriter J} (L : IsReader J W) where
  skip-Reads : (n : ℕ) (i : Item) (msg : Block) → 4 < n → Reads L (read_field J) n i msg msg
  unfolding read_field
  skip-Reads n i msg lt r fs at =
      let (r', e, h) = L.skip_field-At r n i fs at in (r', ground (arith, lt, e), h)

  skip-ReadsAll :
      (more : Fields) (msg : Block) → HasNewNumbers more → ReadsAll L (read_field J) more msg msg
  skip-ReadsAll nil msg new = refl
  skip-ReadsAll (Jspb.field n i fs) msg (lt, below, new) =
      (msg, skip-Reads n i msg lt, skip-ReadsAll fs msg new)

  -- Whatever fields of other numbers, below 2 ^ 29, a writer appends to those of a block, the bytes
  -- are read as that block, if the values are in the range of their types and the maps of the block
  -- stand in the order in which the library writes them.
  pub deserialize_binary-appended :
      (b : Block) (more : Fields) (w : J.Writer)
      → Writes W (serialize_binary_to_writer J b J.new_writer) w more
      → HasNewNumbers more
      → AreWritable L.IsUnicode (contents J b ++f more)
      → All (IsInOrder J) b.tx_obj
      → deserialize_binary J (J.get_result_buffer w) ≡ ok b
  unfolding deserialize_binary deserialize_binary_from_reader
  deserialize_binary-appended b more w writes new writable ordered =
      let (r', e) =
        written-Restores L (deserialize_binary_from_reader J) w (contents J b ++f more) empty b
          (then-Writes W _ _ _ _ _ (serialize-Writes W b J.new_writer) writes) writable
          (read_all-Restores L (read_field J) _ empty b (
            append-ReadsAll L (read_field J) _ _ empty b b (contents-ReadsAll L b ordered)
              (skip-ReadsAll more b new))) in
      rw e refl

  -- A block is read back from its bytes as it was, if its values are in the range of their types and
  -- its maps stand in the order in which the library writes them.
  pub deserialize_binary-serialize_binary :
      (b : Block)
      → AreWritable L.IsUnicode (contents J b)
      → All (IsInOrder J) b.tx_obj
      → deserialize_binary J (serialize_binary J b) ≡ ok b
  unfolding serialize_binary
  deserialize_binary-serialize_binary b writable ordered =
      deserialize_binary-appended b nil _ (sym (++f-nil _)) tt
        (subst (AreWritable L.IsUnicode) (sym (++f-nil (contents J b))) writable) ordered
