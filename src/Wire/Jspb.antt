-- ===== src/Wire/Jspb.antt =====
-- google-protobuf, which src/generated/push/block_pb.js calls, as an interface: a writer of fields,
-- a reader of fields, and what is documented of them. The library is not under src/.
pub mod Writing
pub mod Reading
pub mod Ending
use push_anode.Prelude.{
  ℕ, zero, suc, ◌≤◌, ◌<◌, ◌^◌, ◌≡◌, Bool, true, false, List, [], ◌∷◌, Text, text_eq, Result, ok,
  All,
}
use push_anode.Collections.Map
use push_anode.Collections.Map.{Map}
use push_anode.Util.Hex.{Bytes}
use push_anode.Util.Value.{Value, IsJson}
use push_anode.Wire.{Failure}

-- What a binary message holds: numbered fields in their order.
mutual
  pub data Item : Type 0 where
    uint32 : ℕ → Item
    uint64 : ℕ → Item
    enum : ℕ → Item
    text : Text → Item
    bytes : Bytes → Item
    message : Fields → Item
    entry : Text → Text → Item

  pub data Fields : Type 0 where
    nil : Fields
    field : ℕ → Item → Fields → Fields

infixr 40 ◌++f◌
abbrev pub ◌++f◌ : Fields → Fields → Fields
nil ++f gs = gs
(field n i fs) ++f gs = field n i (fs ++f gs)

abbrev pub count : Fields → ℕ
count nil = 0
count (field n i fs) = suc (count fs)

abbrev pub texts : ℕ → List Text → Fields
texts n [] = nil
texts n (t ∷ ts) = field n (text t) (texts n ts)

-- A field for each message of a list.
abbrev pub each : {A : Type 0} → ℕ → (A → Fields) → List A → Fields
each n contents [] = nil
each n contents (a ∷ more) = field n (message (contents a)) (each n contents more)

abbrev pub entries : ℕ → Map Text Text → Fields
entries n [] = nil
entries n ((k, v) ∷ m) = field n (entry k v) (entries n m)

-- jspb.BinaryWriter, jspb.BinaryReader and jspb.Map. A method of a reader gives the reader as it is
-- then, and may throw; `left` is how many bytes are left to read.
pub record Jspb : Type 1 where
  pub Writer : Type 0
  pub new_writer : Writer
  pub write_uint32 : ℕ → ℕ → Writer → Writer
  pub write_uint64 : ℕ → ℕ → Writer → Writer
  pub write_enum : ℕ → ℕ → Writer → Writer
  pub write_string : ℕ → Text → Writer → Writer
  pub write_bytes : ℕ → Bytes → Writer → Writer
  pub write_repeated_string : ℕ → List Text → Writer → Writer
  pub write_message : {A : Type 0} → ℕ → A → (A → Writer → Writer) → Writer → Writer
  pub write_repeated_message : {A : Type 0} → ℕ → List A → (A → Writer → Writer) → Writer → Writer
  pub write_map : ℕ → Map Text Text → Writer → Writer
  pub get_result_buffer : Writer → Bytes
  pub Reader : Type 0
  pub new_reader : Bytes → Reader
  pub left : Reader → ℕ
  pub next_field : Reader → Result Failure (Bool × Reader)
  pub is_end_group : Reader → Bool
  pub get_field_number : Reader → ℕ
  pub read_uint32 : Reader → Result Failure (ℕ × Reader)
  pub read_uint64 : Reader → Result Failure (ℕ × Reader)
  pub read_enum : Reader → Result Failure (ℕ × Reader)
  pub read_string : Reader → Result Failure (Text × Reader)
  pub read_bytes : Reader → Result Failure (Bytes × Reader)
  pub read_message :
      {A : Type 0}
      → A
      → (A → Reader → Result Failure (A × Reader))
      → Reader
      → Result Failure (A × Reader)
  pub read_entry : Map Text Text → Reader → Result Failure (Map Text Text × Reader)
  pub skip_field : Reader → Result Failure Reader
  -- the order in which jspb.Map writes its entries, and its form as an object
  pub map_order : Map Text Text → Map Text Text
  pub map_to_object : Map Text Text → Value

-- What a writer is asked for: the fields, in the order of the calls.
pub record IsWriter (J : Jspb) : Type 1 where
  pub written : J.Writer → Fields
  pub written-new_writer : written J.new_writer ≡ nil
  pub written-write_uint32 :
      (n v : ℕ) (w : J.Writer)
      → written (J.write_uint32 n v w) ≡ written w ++f field n (uint32 v) nil
  pub written-write_uint64 :
      (n v : ℕ) (w : J.Writer)
      → written (J.write_uint64 n v w) ≡ written w ++f field n (uint64 v) nil
  pub written-write_enum :
      (n v : ℕ) (w : J.Writer) → written (J.write_enum n v w) ≡ written w ++f field n (enum v) nil
  pub written-write_string :
      (n : ℕ) (t : Text) (w : J.Writer)
      → written (J.write_string n t w) ≡ written w ++f field n (text t) nil
  pub written-write_bytes :
      (n : ℕ) (b : Bytes) (w : J.Writer)
      → written (J.write_bytes n b w) ≡ written w ++f field n (bytes b) nil
  pub written-write_repeated_string :
      (n : ℕ) (ts : List Text) (w : J.Writer)
      → written (J.write_repeated_string n ts w) ≡ written w ++f texts n ts
  pub written-write_message :
      {A : Type 0} (n : ℕ) (a : A) (put : A → J.Writer → J.Writer) (fs : Fields)
      → ((w : J.Writer) → written (put a w) ≡ written w ++f fs)
      → (w : J.Writer)
      → written (J.write_message n a put w) ≡ written w ++f field n (message fs) nil
  pub written-write_repeated_message :
      {A : Type 0} (n : ℕ) (list : List A) (put : A → J.Writer → J.Writer) (contents : A → Fields)
      → ((a : A) (w : J.Writer) → written (put a w) ≡ written w ++f contents a)
      → (w : J.Writer)
      → written (J.write_repeated_message n list put w) ≡ written w ++f each n contents list
  pub written-write_map :
      (n : ℕ) (m : Map Text Text) (w : J.Writer)
      → written (J.write_map n m w) ≡ written w ++f entries n (J.map_order m)

-- The values that a reader gives back as they are: numbers in the range of their type and exact as
-- JavaScript's, bytes, and the texts that UTF-8 keeps. The numbers of their fields are those that
-- the header of a field has room for.
abbrev pub IsFieldNumber : ℕ → Type 0
IsFieldNumber n = (0 < n) × (n < 2 ^ 29)

abbrev mutual
  pub IsWritable : (Text → Type 0) → Item → Type 0
  IsWritable IsUnicode (uint32 v) = v < 2 ^ 32
  IsWritable IsUnicode (uint64 v) = v < 2 ^ 53
  IsWritable IsUnicode (enum v) = v < 2 ^ 31
  IsWritable IsUnicode (text t) = IsUnicode t
  IsWritable IsUnicode (bytes b) = All (λ x. x < 256) b
  IsWritable IsUnicode (message fs) = AreWritable IsUnicode fs
  IsWritable IsUnicode (entry k v) = IsUnicode k × IsUnicode v

  pub AreWritable : (Text → Type 0) → Fields → Type 0
  AreWritable IsUnicode nil = Unit
  AreWritable IsUnicode (field n i fs) =
      IsFieldNumber n × IsWritable IsUnicode i × AreWritable IsUnicode fs

-- What a reader gives: `Holds` says which fields are left, `At` that a field is to be read, with the
-- fields after it. A message inside is read by a reader of its own fields.
pub record IsReader (J : Jspb) (W : IsWriter J) : Type 1 where
  pub IsUnicode : Text → Type 0
  pub Holds : J.Reader → Fields → Type 0
  pub At : J.Reader → ℕ → Item → Fields → Type 0
  pub Holds-new_reader :
      (w : J.Writer)
      → AreWritable IsUnicode (W.written w)
      → Holds (J.new_reader (J.get_result_buffer w)) (W.written w)
  pub count-Holds : (r : J.Reader) (fs : Fields) → Holds r fs → count fs ≤ J.left r
  pub next_field-nil :
      (r : J.Reader)
      → Holds r nil
      → (r' : J.Reader) × (J.next_field r ≡ ok (false, r')) × Holds r' nil
  pub next_field-field :
      (r : J.Reader) (n : ℕ) (i : Item) (fs : Fields)
      → Holds r (field n i fs)
      → (r' : J.Reader) × (J.next_field r ≡ ok (true, r')) × At r' n i fs
  pub At-number :
      (r : J.Reader) (n : ℕ) (i : Item) (fs : Fields)
      → At r n i fs
      → (J.get_field_number r ≡ n) × (J.is_end_group r ≡ false)
  pub read_uint32-At :
      (r : J.Reader) (n v : ℕ) (fs : Fields)
      → At r n (uint32 v) fs
      → (r' : J.Reader) × (J.read_uint32 r ≡ ok (v, r')) × Holds r' fs
  pub read_uint64-At :
      (r : J.Reader) (n v : ℕ) (fs : Fields)
      → At r n (uint64 v) fs
      → (r' : J.Reader) × (J.read_uint64 r ≡ ok (v, r')) × Holds r' fs
  pub read_enum-At :
      (r : J.Reader) (n v : ℕ) (fs : Fields)
      → At r n (enum v) fs
      → (r' : J.Reader) × (J.read_enum r ≡ ok (v, r')) × Holds r' fs
  pub read_string-At :
      (r : J.Reader) (n : ℕ) (t : Text) (fs : Fields)
      → At r n (text t) fs
      → (r' : J.Reader) × (J.read_string r ≡ ok (t, r')) × Holds r' fs
  pub read_bytes-At :
      (r : J.Reader) (n : ℕ) (b : Bytes) (fs : Fields)
      → At r n (bytes b) fs
      → (r' : J.Reader) × (J.read_bytes r ≡ ok (b, r')) × Holds r' fs
  pub read_message-At :
      {A : Type 0} (r : J.Reader) (n : ℕ) (inner fs : Fields) (a a' : A)
      (read : A → J.Reader → Result Failure (A × J.Reader))
      → At r n (message inner) fs
      → ((s : J.Reader) → Holds s inner → (s' : J.Reader) × (read a s ≡ ok (a', s')) × Holds s' nil)
      → (r' : J.Reader) × (J.read_message a read r ≡ ok (a', r')) × Holds r' fs
  pub read_entry-At :
      (r : J.Reader) (n : ℕ) (k v : Text) (fs : Fields) (m : Map Text Text)
      → At r n (entry k v) fs
      → (r' : J.Reader) × (J.read_entry m r ≡ ok (Map.set m k v, r')) × Holds r' fs
  pub skip_field-At :
      (r : J.Reader) (n : ℕ) (i : Item) (fs : Fields)
      → At r n i fs
      → (r' : J.Reader) × (J.skip_field r ≡ ok r') × Holds r' fs
