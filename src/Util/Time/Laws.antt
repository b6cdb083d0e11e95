-- ===== src/Util/Time/Laws.antt =====
-- The text of a number is a timestamp.
use push_anode.Prelude.{
  ℕ, zero, suc, ◌+◌, ◌/◌, ◌^◌, ◌<◌, ◌%◌, some, ◌≡◌, refl, true, false, [], ◌∷◌, ◌++◌, Text, leb,
  ltb, length, length-append, All, All-append, Bool-cases, inl, inr, arith, lit, err, nat_eq,
}
use push_anode.Util.Str.{is_empty, get_or_default}
use push_anode.Wire.{thrown}
use push_anode.Util.Time.{
  Floats, is_digit, after_digits, is_timestamp, max_unix_ts, parse_unix_float_or_fail, digits,
  to_text,
}

abbrev IsDigit : ℕ → Type 0
IsDigit c = is_digit c ≡ true

last-IsDigit : (n : ℕ) → IsDigit (n % 10 + 48)
last-IsDigit n = ground arith

pub digits_small : (rounds n : ℕ) → ltb n 10 ≡ true → digits (suc rounds) n ≡ (n + 48) ∷ []
digits_small rounds n small = rw (small, digits) refl

pub digits_big :
    (rounds n : ℕ)
    → ltb n 10 ≡ false
    → digits (suc rounds) n ≡ digits rounds (n / 10) ++ (n % 10 + 48) ∷ []
digits_big rounds n big = rw (big, digits) refl

digits-All : (rounds n : ℕ) → All IsDigit (digits rounds n)
digits-All zero n = (last-IsDigit n, tt)
digits-All (suc rounds) n = elim (Bool-cases (ltb n 10)) [
  | inl small ↦ rw (digits_small rounds n small) (ground (arith, small), tt)
  | inr big ↦ rw (digits_big rounds n big) (
      All-append IsDigit (digits rounds (n / 10)) _ (digits-All rounds (n / 10))
        (last-IsDigit n, tt))
]

length-digits : (rounds n : ℕ) → 0 < length (digits rounds n)
length-digits zero n = omega arith
length-digits (suc rounds) n = elim (Bool-cases (ltb n 10)) [
  | inl small ↦ rw (digits_small rounds n small) (omega arith)
  | inr big ↦
      rw (digits_big rounds n big)
        (omega (arith, length-append (digits rounds (n / 10)) ((n % 10 + 48) ∷ [])))
]

after_digits-nil : (t : Text) → All IsDigit t → after_digits t ≡ []
after_digits-nil [] h = refl
after_digits-nil (c ∷ t) (here, there) = rw here (after_digits-nil t there)

is_timestamp-digits : (t : Text) → All IsDigit t → 0 < length t → is_timestamp t ≡ true
unfolding is_timestamp
is_timestamp-digits [] h lt = absurd (omega arith)
is_timestamp-digits (c ∷ t) (here, there) lt = rw (here, after_digits-nil t there) refl

pub is_timestamp-to_text : (n : ℕ) → is_timestamp (to_text n) ≡ true
unfolding to_text
is_timestamp-to_text n = is_timestamp-digits (digits n n) (digits-All n n) (length-digits n n)

pub get_or_default-to_text : (n : ℕ) (t : Text) → get_or_default (some (to_text n)) t ≡ to_text n
unfolding to_text get_or_default is_empty
get_or_default-to_text n t = ground (arith, length-digits n n)

-- What JavaScript documents of its numbers: the text of a whole number below 2 ^ 53 is read exactly.
abbrev pub IsExact : Floats → Type 0
IsExact F =
    (n m : ℕ)
    → n < 2 ^ 53
    → (F.at_least (F.parse_float (to_text n)) 0 ≡ true)
      × (F.at_most (F.parse_float (to_text n)) m ≡ leb n m)

-- A time in milliseconds, from 1978 on, is refused as one in seconds.
pub parse_unix_float_or_fail-millis :
    (F : Floats) (n : ℕ)
    → IsExact F
    → max_unix_ts < n
    → n < 2 ^ 53
    → parse_unix_float_or_fail F (to_text n)
      ≡ err (thrown (lit "timestamp must be less that year 99999"))
unfolding parse_unix_float_or_fail
parse_unix_float_or_fail-millis F n exact late lt =
    let (least, most) = exact n max_unix_ts lt in
    let over : leb n max_unix_ts ≡ false = ground arith in
    rw (is_timestamp-to_text n, least, most, over) refl
