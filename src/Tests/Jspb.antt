-- ===== src/Tests/Jspb.antt =====
-- A wire format that meets what is assumed of google-protobuf, and messages in it. A field is its
-- number, its kind and its value, or the length of its value and the value.
use push_anode.Prelude.{
  ℕ, zero, suc, ◌≤◌, ◌≡◌, refl, ◌∙◌, ap, ap₂, Bool, false, true, List, [], ◌∷◌, ◌++◌, Text, text_eq,
  Result, ok, err, ◌>>=◌, length, length-append, length-drop, >>=-eq-ok, subst, ◌<◌, take, drop,
  arith,
}
use push_anode.Collections.Map
use push_anode.Collections.Map.{Map}
use push_anode.Util.Hex.{Bytes}
use push_anode.Util.Value.{AreJson, str, array, cons}
use push_anode.Util.Value
use push_anode.Wire.{Failure, type_error}
use push_anode.Wire.Jspb.{
  Jspb, IsWriter, IsReader, Item, uint32, uint64, enum, text, bytes, message, entry, Fields, nil,
  ◌++f◌, count, texts, each, entries,
}
use push_anode.Wire.Jspb
use push_anode.Wire.Jspb.Ending.{Below, IsForward}

abbrev number : ℕ → Bytes → Bytes
number v rest = 0 ∷ v ∷ rest

abbrev delimited : Bytes → Bytes → Bytes
delimited s rest = 1 ∷ length s ∷ (s ++ rest)

abbrev mutual
  body : Item → Bytes → Bytes
  body (uint32 v) rest = number v rest
  body (uint64 v) rest = number v rest
  body (enum v) rest = number v rest
  body (text t) rest = delimited t rest
  body (bytes b) rest = delimited b rest
  body (message fs) rest = delimited (encode fs) rest
  body (entry k v) rest = delimited (length k ∷ (k ++ v)) rest

  encode : Fields → Bytes
  encode nil = []
  encode (Jspb.field n i fs) = n ∷ body i (encode fs)

-- The number of the field that is read, and the bytes that are left.
abbrev Reader : Type 0
Reader = ℕ × Bytes

abbrev next_field : Reader → Result Failure (Bool × Reader)
next_field (n, []) = ok (false, (n, []))
next_field (n, m ∷ rest) = ok (true, (m, rest))

abbrev read_number : Reader → Result Failure (ℕ × Reader)
read_number (n, zero ∷ v ∷ rest) = ok (v, (n, rest))
read_number (n, s) = err type_error

abbrev read_delimited : Reader → Result Failure (Bytes × Reader)
read_delimited (n, suc zero ∷ size ∷ rest) = ok (take size rest, (n, drop size rest))
read_delimited (n, s) = err type_error

abbrev read_message :
    {A : Type 0}
    → A
    → (A → Reader → Result Failure (A × Reader))
    → Reader
    → Result Failure (A × Reader)
read_message a read r = do (s, rest) ← read_delimited r; (a', done) ← read a (0, s); ok (a', rest)

abbrev set_entry : Map Text Text → Bytes → Map Text Text
set_entry m [] = m
set_entry m (size ∷ s) = Map.set m (take size s) (drop size s)

abbrev read_entry : Map Text Text → Reader → Result Failure (Map Text Text × Reader)
read_entry m r = do (s, rest) ← read_delimited r; ok (set_entry m s, rest)

abbrev skip_field : Reader → Result Failure Reader
skip_field (n, zero ∷ v ∷ rest) = ok (n, rest)
skip_field (n, suc zero ∷ size ∷ rest) = ok (n, drop size rest)
skip_field (n, s) = err type_error

abbrev pairs : Map Text Text → Value.Items
pairs [] = Value.nil
pairs ((k, v) ∷ m) = cons (array (cons (str k) (cons (str v) Value.nil))) (pairs m)

abbrev pub jspb : Jspb
jspb = record {
  Writer = Fields;
  new_writer = nil;
  write_uint32 = λ n v w. w ++f Jspb.field n (uint32 v) nil;
  write_uint64 = λ n v w. w ++f Jspb.field n (uint64 v) nil;
  write_enum = λ n v w. w ++f Jspb.field n (enum v) nil;
  write_string = λ n t w. w ++f Jspb.field n (text t) nil;
  write_bytes = λ n b w. w ++f Jspb.field n (bytes b) nil;
  write_repeated_string = λ n ts w. w ++f texts n ts;
  write_message = λ n a put w. w ++f Jspb.field n (message (put a nil)) nil;
  write_repeated_message = λ n list put w. w ++f each n (λ a. put a nil) list;
  write_map = λ n m w. w ++f entries n m;
  get_result_buffer = encode;
  Reader = Reader;
  new_reader = λ s. (0, s);
  left = λ r. length r.1;
  next_field = next_field;
  is_end_group = λ r. false;
  get_field_number = λ r. r.0;
  read_uint32 = read_number;
  read_uint64 = read_number;
  read_enum = read_number;
  read_string = read_delimited;
  read_bytes = read_delimited;
  read_message = read_message;
  read_entry = read_entry;
  skip_field = skip_field;
  map_order = λ m. m;
  map_to_object = λ m. array (pairs m);
}

pub each-eq :
    {A : Type 0} (n : ℕ) (f g : A → Fields) (list : List A)
    → ((a : A) → f a ≡ g a)
    → each n f list ≡ each n g list
each-eq n f g [] same = refl
each-eq n f g (a ∷ list) same =
    ap₂ (λ x y. Jspb.field n (message x) y) (same a) (each-eq n f g list same)

unfoldable pub jspb-IsWriter : IsWriter jspb
jspb-IsWriter = record {
  written = λ w. w;
  written-new_writer = refl;
  written-write_uint32 = λ n v w. refl;
  written-write_uint64 = λ n v w. refl;
  written-write_enum = λ n v w. refl;
  written-write_string = λ n t w. refl;
  written-write_bytes = λ n b w. refl;
  written-write_repeated_string = λ n ts w. refl;
  written-write_message = λ n a put fs is w. ap (λ f. w ++f Jspb.field n (message f) nil) (is nil);
  written-write_repeated_message = λ n list put contents is w.
      ap (λ f. w ++f f) (each-eq n (λ a. put a nil) contents list (λ a. is a nil));
  written-write_map = λ n m w. refl;
}

pub take_whole : (s rest : Bytes) → take (length s) (s ++ rest) ≡ s
take_whole [] rest = refl
take_whole (b ∷ s) rest = ap (λ l. b ∷ l) (take_whole s rest)

pub drop_whole : (s rest : Bytes) → drop (length s) (s ++ rest) ≡ rest
drop_whole [] rest = refl
drop_whole (b ∷ s) rest = drop_whole s rest

abbrev HoldsAt : Reader → ℕ → Item → Fields → Type 0
HoldsAt r n i fs = (r.0 ≡ n) × (r.1 ≡ body i (encode fs))

pub read_delimited-body :
    (n : ℕ) (s rest : Bytes) → read_delimited (n, delimited s rest) ≡ ok (s, (n, rest))
read_delimited-body n s rest = ap₂ (λ x y. ok (x, (n, y))) (take_whole s rest) (drop_whole s rest)

longer : (s rest : Bytes) (k : ℕ) → k ≤ length rest → k ≤ length (delimited s rest)
longer s rest k h = omega (arith, length-append s rest, h)

pub delimited_then :
    {B : Type 0} (n : ℕ) (s rest : Bytes) (next : Bytes × Reader → Result Failure B)
    → (read_delimited (n, delimited s rest) >>= next) ≡ next (s, (n, rest))
delimited_then n s rest next = ap (λ d. d >>= next) (read_delimited-body n s rest)

count-body : (i : Item) (k : ℕ) (rest : Bytes) → k ≤ length rest → k ≤ length (body i rest)
count-body (uint32 v) k rest h = omega arith
count-body (uint64 v) k rest h = omega arith
count-body (enum v) k rest h = omega arith
count-body (text t) k rest h = longer t rest k h
count-body (bytes b) k rest h = longer b rest k h
count-body (message inner) k rest h = longer (encode inner) rest k h
count-body (entry x y) k rest h = longer (length x ∷ (x ++ y)) rest k h

pub count-encode : (fs : Fields) → count fs ≤ length (encode fs)
count-encode nil = omega arith
count-encode (Jspb.field n i fs) =
    omega (arith, count-body i (count fs) (encode fs) (count-encode fs))

pub skips : (n : ℕ) (i : Item) (rest : Bytes) → skip_field (n, body i rest) ≡ ok (n, rest)
skips n (uint32 v) rest = refl
skips n (uint64 v) rest = refl
skips n (enum v) rest = refl
skips n (text t) rest = ap (λ s. ok (n, s)) (drop_whole t rest)
skips n (bytes b) rest = ap (λ s. ok (n, s)) (drop_whole b rest)
skips n (message inner) rest = ap (λ s. ok (n, s)) (drop_whole (encode inner) rest)
skips n (entry x y) rest = ap (λ s. ok (n, s)) (drop_whole (length x ∷ (x ++ y)) rest)

unfoldable pub jspb-IsReader : IsReader jspb jspb-IsWriter
unfolding jspb-IsWriter
jspb-IsReader = record {
  IsUnicode = λ t. Unit;
  Holds = λ r fs. r.1 ≡ encode fs;
  At = HoldsAt;
  Holds-new_reader = λ w writable. refl;
  count-Holds = λ r fs e. rw e (count-encode fs);
  next_field-nil = λ (n, s) e. ((n, []), ap (λ x. next_field (n, x)) e, refl);
  next_field-field =
      λ (k, s) n i fs e. ((n, body i (encode fs)), ap (λ x. next_field (k, x)) e, (refl, refl));
  At-number = λ r n i fs (e, f). (e, refl);
  read_uint32-At = λ (k, s) n v fs (e, f). ((k, encode fs), ap (λ x. read_number (k, x)) f, refl);
  read_uint64-At = λ (k, s) n v fs (e, f). ((k, encode fs), ap (λ x. read_number (k, x)) f, refl);
  read_enum-At = λ (k, s) n v fs (e, f). ((k, encode fs), ap (λ x. read_number (k, x)) f, refl);
  read_string-At = λ (k, s) n t fs (e, f). (
    (k, encode fs),
    ap (λ x. read_delimited (k, x)) f ∙ read_delimited-body k t (encode fs),
    refl,
  );
  read_bytes-At = λ (k, s) n b fs (e, f). (
    (k, encode fs),
    ap (λ x. read_delimited (k, x)) f ∙ read_delimited-body k b (encode fs),
    refl,
  );
  read_message-At = λ (k, s) n inner fs a a' read (e, f) whole.
      let (s', got, done) = whole (0, encode inner) refl in
      (
        (k, encode fs),
        ap (λ x. read_message a read (k, x)) f
            ∙ delimited_then k (encode inner) (encode fs)
                (λ (s, rest). read a (0, s) >>= λ (x, done). ok (x, rest))
            ∙ ap (λ x. x >>= λ (y, done). ok (y, (k, encode fs))) got,
        refl,
      );
  read_entry-At = λ (k, s) n x y fs m (e, f). (
    (k, encode fs),
    ap (λ z. read_entry m (k, z)) f
        ∙ delimited_then k (length x ∷ (x ++ y)) (encode fs) (λ (s, rest). ok (set_entry m s, rest))
        ∙ ap₂ (λ u v. ok (Map.set m u v, (k, encode fs))) (take_whole x y) (drop_whole x y),
    refl,
  );
  skip_field-At = λ (k, s) n i fs (e, f).
      ((k, encode fs), ap (λ x. skip_field (k, x)) f ∙ skips k i (encode fs), refl);
}

number-left : (r : Reader) → Below jspb (length r.1) (read_number r)
number-left (n, []) v r is = cc
number-left (n, zero ∷ []) v r is = cc
number-left (n, zero ∷ x ∷ rest) v r is =
    let same : (n, rest) ≡ r = cc is in
    subst (λ (q : Reader). length q.1 ≤ suc (suc (length rest))) same (omega arith)
number-left (n, suc k ∷ rest) v r is = cc

delimited-left : (r : Reader) → Below jspb (length r.1) (read_delimited r)
delimited-left (n, []) v r is = cc
delimited-left (n, zero ∷ rest) v r is = cc
delimited-left (n, suc zero ∷ []) v r is = cc
delimited-left (n, suc zero ∷ size ∷ rest) v r is =
    let same : (n, drop size rest) ≡ r = cc is in
    subst (λ (q : Reader). length q.1 ≤ suc (suc (length rest))) same
      (omega (arith, length-drop size rest))
delimited-left (n, suc (suc k) ∷ rest) v r is = cc

next-left : (r r' : Reader) → next_field r ≡ ok (true, r') → length r'.1 < length r.1
next-left (n, []) r' is = cc
next-left (n, m ∷ rest) r' is =
    let same : (m, rest) ≡ r' = cc is in
    subst (λ (q : Reader). length q.1 < suc (length rest)) same (omega arith)

skip-left : (r r' : Reader) → skip_field r ≡ ok r' → length r'.1 ≤ length r.1
skip-left (n, []) r' is = cc
skip-left (n, zero ∷ []) r' is = cc
skip-left (n, zero ∷ v ∷ rest) r' is =
    let same : (n, rest) ≡ r' = cc is in
    subst (λ (q : Reader). length q.1 ≤ suc (suc (length rest))) same (omega arith)
skip-left (n, suc zero ∷ []) r' is = cc
skip-left (n, suc zero ∷ size ∷ rest) r' is =
    let same : (n, drop size rest) ≡ r' = cc is in
    subst (λ (q : Reader). length q.1 ≤ suc (suc (length rest))) same
      (omega (arith, length-drop size rest))
skip-left (n, suc (suc k) ∷ rest) r' is = cc

pub jspb-IsForward : IsForward jspb
jspb-IsForward = record {
  next_field-left = next-left;
  read_uint32-left = number-left;
  read_uint64-left = number-left;
  read_enum-left = number-left;
  read_string-left = delimited-left;
  read_bytes-left = delimited-left;
  read_message-left = λ a read r b s is.
      let ((inner, rest), e, is1) = >>=-eq-ok (read_delimited r) _ is in
      let ((x, done), e1, is2) = >>=-eq-ok (read a (0, inner)) _ is1 in
      let same : rest ≡ s = cc is2 in rw (← same) (delimited-left r inner rest e);
  read_entry-left = λ m r b s is.
      let ((inner, rest), e, is1) = >>=-eq-ok (read_delimited r) _ is in
      let same : rest ≡ s = cc is1 in rw (← same) (delimited-left r inner rest e);
  skip_field-left = skip-left;
}

pub pairs-AreJson : (m : Map Text Text) → AreJson (pairs m)
pairs-AreJson [] = tt
pairs-AreJson ((k, v) ∷ m) = ((tt, (tt, tt)), pairs-AreJson m)
