-- ===== src/Wire/Jspb/Reading.antt =====
-- The loop over the fields of a message, which every deserializeBinaryFromReader of
-- src/generated/push/block_pb.js has, and what it makes of the fields that were written.
use push_anode.Prelude.{
  ℕ, zero, suc, ◌≤◌, ◌≡◌, refl, sym, ◌∙◌, ap, subst, true, false, List, [], ◌∷◌, ◌++◌, Option, none,
  some, Text, arith, All, Result, ok, err, ◌>>=◌,
}
use push_anode.Util.Hex.{Bytes}
use push_anode.Wire.{Failure, type_error}
use push_anode.Wire.Jspb.{
  Jspb, IsWriter, IsReader, Item, uint32, uint64, enum, text, bytes, message, Fields, nil, field,
  ◌++f◌, count, texts, each, AreWritable,
}
use push_anode.Wire.Jspb.Writing.{Writes, unless_zero, unless_empty, unless_null}
use mathlib.Core.List.{append-nil, append_assoc}

-- A switch reads the field of a number into a message.
abbrev pub Switch : Jspb → Type 0 → Type 0
Switch J A = ℕ → A → J.Reader → Result Failure (A × J.Reader)

module _ (J : Jspb) {A : Type 0} where
  -- The loop, for a number of fields.
  unfoldable pub read_fields : Switch J A → ℕ → A → J.Reader → Result Failure (A × J.Reader)
  read_fields switch zero msg r = err type_error
  read_fields switch (suc rounds) msg r = do
    (more, r1) ← J.next_field r
    elim more [
      | false ↦ ok (msg, r1)
      | true ↦ elim (J.is_end_group r1) [
        | true ↦ ok (msg, r1)
        | false ↦ (do
          (msg', r2) ← switch (J.get_field_number r1) msg r1
          read_fields switch rounds msg' r2)
      ]
    ]

  -- Each round takes a byte at least.
  unfoldable pub read_all : Switch J A → A → J.Reader → Result Failure (A × J.Reader)
  read_all switch msg r = read_fields switch (suc (J.left r)) msg r

  -- `default: reader.skipField()`
  abbrev pub skip : A → J.Reader → Result Failure (A × J.Reader)
  skip msg r = do r' ← J.skip_field r; ok (msg, r')

  -- Reads a value and puts it into the message.
  abbrev pub read_into :
      {V : Type 0} → Result Failure (V × J.Reader) → (V → A) → Result Failure (A × J.Reader)
  read_into (err e) set = err e
  read_into (ok (v, r)) set = ok (set v, r)

module _ {J : Jspb} {W : IsWriter J} (L : IsReader J W) where
  -- A method that reads these fields to the end, and takes the message from `a` to `b` by them.
  abbrev pub Restores :
      {A : Type 0} → (A → J.Reader → Result Failure (A × J.Reader)) → Fields → A → A → Type 0
  Restores read fs a b =
      (r : J.Reader) → L.Holds r fs → (r' : J.Reader) × (read a r ≡ ok (b, r')) × L.Holds r' nil

  module _ {A : Type 0} (switch : Switch J A) where
    -- A field takes the message from `a` to `b`.
    abbrev pub Reads : ℕ → Item → A → A → Type 0
    Reads n i a b =
        (r : J.Reader) (fs : Fields)
        → L.At r n i fs
        → (r' : J.Reader) × (switch n a r ≡ ok (b, r')) × L.Holds r' fs

    abbrev pub ReadsAll : Fields → A → A → Type 0
    ReadsAll nil a b = a ≡ b
    ReadsAll (field n i fs) a b = (c : A) × Reads n i a c × ReadsAll fs c b

    pub append-ReadsAll :
        (fs gs : Fields) (a b c : A) → ReadsAll fs a b → ReadsAll gs b c → ReadsAll (fs ++f gs) a c
    append-ReadsAll nil gs a b c e h = subst (λ x. ReadsAll gs x c) (sym e) h
    append-ReadsAll (field n i fs) gs a b c (m, first, rest) h =
        (m, first, append-ReadsAll fs gs m b c rest h)

    pub read_fields-Holds :
        (fs : Fields) (rounds : ℕ) (a b : A) (r : J.Reader)
        → ReadsAll fs a b
        → L.Holds r fs
        → count fs ≤ rounds
        → (r' : J.Reader) × (read_fields J switch (suc rounds) a r ≡ ok (b, r')) × L.Holds r' nil
    unfolding read_fields
    read_fields-Holds nil rounds a b r same h le =
        let (r', e, h') = L.next_field-nil r h in (r', rw (e, same) refl, h')
    read_fields-Holds (field n i fs) zero a b r all h le = absurd (omega arith)
    read_fields-Holds (field n i fs) (suc rounds) a b r (c, first, rest) h le =
        let (r1, e1, at) = L.next_field-field r n i fs h in
        let (number, goes_on) = L.At-number r1 n i fs at in
        let (r2, e2, h2) = first r1 fs at in
        let (r3, e3, h3) = read_fields-Holds fs rounds c b r2 rest h2 (omega arith) in
        (r3, rw (e1, goes_on, number, e2) e3, h3)

    -- As many rounds as there are bytes are enough.
    pub read_all-Restores :
        (fs : Fields) (a b : A) → ReadsAll fs a b → Restores (read_all J switch) fs a b
    unfolding read_all
    read_all-Restores fs a b all r h =
        read_fields-Holds fs (J.left r) a b r all h (L.count-Holds r fs h)

    module _ (a : A) (n : ℕ) where
      pub uint32-Reads :
          (v : ℕ) (set : ℕ → A)
          → ((r : J.Reader) → switch n a r ≡ read_into J (J.read_uint32 r) set)
          → Reads n (uint32 v) a (set v)
      uint32-Reads v set by r fs at =
          let (r', e, h) = L.read_uint32-At r n v fs at in (r', by r ∙ rw e refl, h)

      pub uint64-Reads :
          (v : ℕ) (set : ℕ → A)
          → ((r : J.Reader) → switch n a r ≡ read_into J (J.read_uint64 r) set)
          → Reads n (uint64 v) a (set v)
      uint64-Reads v set by r fs at =
          let (r', e, h) = L.read_uint64-At r n v fs at in (r', by r ∙ rw e refl, h)

      pub enum-Reads :
          (v : ℕ) (set : ℕ → A)
          → ((r : J.Reader) → switch n a r ≡ read_into J (J.read_enum r) set)
          → Reads n (enum v) a (set v)
      enum-Reads v set by r fs at =
          let (r', e, h) = L.read_enum-At r n v fs at in (r', by r ∙ rw e refl, h)

      pub text-Reads :
          (t : Text) (set : Text → A)
          → ((r : J.Reader) → switch n a r ≡ read_into J (J.read_string r) set)
          → Reads n (text t) a (set t)
      text-Reads t set by r fs at =
          let (r', e, h) = L.read_string-At r n t fs at in (r', by r ∙ rw e refl, h)

      pub bytes-Reads :
          (b : Bytes) (set : Bytes → A)
          → ((r : J.Reader) → switch n a r ≡ read_into J (J.read_bytes r) set)
          → Reads n (bytes b) a (set b)
      bytes-Reads b set by r fs at =
          let (r', e, h) = L.read_bytes-At r n b fs at in (r', by r ∙ rw e refl, h)

      pub message-Reads :
          {B : Type 0} (read : B → J.Reader → Result Failure (B × J.Reader)) (inner : Fields)
          (x y : B) (set : B → A)
          → ((r : J.Reader) → switch n a r ≡ read_into J (J.read_message x read r) set)
          → Restores read inner x y
          → Reads n (message inner) a (set y)
      message-Reads read inner x y set by whole r fs at =
          let (r', e, h) = L.read_message-At r n inner fs x y read at whole in
          (r', by r ∙ rw e refl, h)

    -- A value that is written unless it is the default, which an empty message has.
    module _ (n : ℕ) where
      pub zero-ReadsAll :
          (v : ℕ) (i : Item) (with : ℕ → A)
          → Reads n i (with 0) (with v)
          → ReadsAll (unless_zero v (field n i nil) nil) (with 0) (with v)
      zero-ReadsAll zero i with h = refl
      zero-ReadsAll (suc v) i with h = (with (suc v), h, refl)

      pub empty-ReadsAll :
          {B : Type 0} (xs : List B) (i : Item) (with : List B → A)
          → Reads n i (with []) (with xs)
          → ReadsAll (unless_empty xs (field n i nil) nil) (with []) (with xs)
      empty-ReadsAll [] i with h = refl
      empty-ReadsAll (x ∷ xs) i with h = (with (x ∷ xs), h, refl)

      pub null-ReadsAll :
          {B : Type 0} (o : Option B) (contents : B → Fields) (with : Option B → A)
          → ((b : B) → o ≡ some b → Reads n (message (contents b)) (with none) (with (some b)))
          → ReadsAll
              (unless_null o (λ b. field n (message (contents b)) nil) nil)
              (with none)
              (with o)
      null-ReadsAll none contents with h = refl
      null-ReadsAll (some b) contents with h = (with (some b), h b refl, refl)

      pub each-ReadsAll :
          {B : Type 0} (P : B → Type 0) (contents : B → Fields) (with : List B → A)
          → ((before : List B) (b : B)
              → P b
              → Reads n (message (contents b)) (with before) (with (before ++ b ∷ [])))
          → (before xs : List B) → All P xs
          → ReadsAll (each n contents xs) (with before) (with (before ++ xs))
      each-ReadsAll P contents with h before [] all = ap with (sym (append-nil before))
      each-ReadsAll P contents with h before (x ∷ xs) (here, there) = (
        with (before ++ x ∷ []),
        h before x here,
        subst (λ l. ReadsAll (each n contents xs) (with (before ++ x ∷ [])) (with l))
            (append_assoc before (x ∷ []) xs)
            (each-ReadsAll P contents with h (before ++ x ∷ []) xs there),
      )

      pub texts-ReadsAll :
          (with : List Text → A)
          → ((before : List Text) (t : Text)
              → Reads n (text t) (with before) (with (before ++ t ∷ [])))
          → (before ts : List Text) → ReadsAll (texts n ts) (with before) (with (before ++ ts))
      texts-ReadsAll with h before [] = ap with (sym (append-nil before))
      texts-ReadsAll with h before (t ∷ ts) = (
        with (before ++ t ∷ []),
        h before t,
        subst (λ l. ReadsAll (texts n ts) (with (before ++ t ∷ [])) (with l))
            (append_assoc before (t ∷ []) ts) (texts-ReadsAll with h (before ++ t ∷ []) ts),
      )

  -- What was written into a new writer is read from its bytes.
  pub written-Restores :
      {A : Type 0} (read : A → J.Reader → Result Failure (A × J.Reader)) (w : J.Writer)
      (fs : Fields) (a b : A)
      → Writes W J.new_writer w fs
      → AreWritable L.IsUnicode fs
      → Restores read fs a b
      → (r' : J.Reader) × (read a (J.new_reader (J.get_result_buffer w)) ≡ ok (b, r'))
  written-Restores read w fs a b writes writable whole =
      let is : W.written w ≡ fs = writes ∙ ap (λ l. l ++f fs) W.written-new_writer in
      let holds =
        subst (L.Holds (J.new_reader (J.get_result_buffer w))) is
          (L.Holds-new_reader w (subst (AreWritable L.IsUnicode) (sym is) writable)) in
      let (r', e, h) = whole _ holds in (r', e)
