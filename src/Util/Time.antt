-- ===== src/Util/Time.antt =====
-- src/utilz/dateUtil.ts and numUtil.ts: times that come as texts, and numbers as texts.
pub mod Laws
use push_anode.Prelude.{
  ℕ, zero, suc, ◌+◌, ◌/◌, ◌%◌, Bool, true, false, ◌&&◌, List, [], ◌∷◌, ◌++◌, Text, lit, leb, ltb,
  all, length, ◌==◌, nat_eq, Result, ok, err, ◌>>◌, guard, if◌then◌else◌,
}
use push_anode.Wire.{Failure, thrown}

-- JavaScript's numbers with a fraction: what Number.parseFloat gives, its comparisons, and
-- Math.round of a thousand times it.
pub record Floats : Type 1 where
  pub Float : Type 0
  pub parse_float : Text → Float
  pub at_least : Float → ℕ → Bool
  pub at_most : Float → ℕ → Bool
  pub round_thousand : Float → ℕ

abbrev pub is_digit : ℕ → Bool
is_digit c = leb 48 c && leb c 57

abbrev pub after_digits : Text → Text
after_digits [] = []
after_digits (c ∷ t) = let rest = after_digits t in if is_digit c then rest else c ∷ t

-- A point and up to six digits, or nothing.
abbrev pub is_fraction : Text → Bool
is_fraction [] = true
is_fraction (c ∷ t) = c == 46 && (leb (length t) 6 && all is_digit t)

-- TIMESTAMP_REGEXP: /^(\d+)$|^(\d+)\.(\d{0,6})$/
unfoldable pub is_timestamp : Text → Bool
is_timestamp [] = false
is_timestamp (c ∷ t) = is_digit c && is_fraction (after_digits t)

abbrev pub max_unix_ts : ℕ
max_unix_ts = 253402300799

module _ (F : Floats) where
  -- parseUnixFloatOrFail
  unfoldable pub parse_unix_float_or_fail : Text → Result Failure F.Float
  parse_unix_float_or_fail timestamp =
      let result = F.parse_float timestamp in
      guard (is_timestamp timestamp) (
        thrown (
          lit
            "timestamp format should be XXXXXXXX.YYYYYY where XXXXXXXX is the unit timestamp and Y..YYYYYY is the sub-second precision"))
      >> guard (F.at_least result 0) (thrown (lit "timestamp must be a positive integer"))
      >> guard (F.at_most result max_unix_ts)
          (thrown (lit "timestamp must be less that year 99999"))
      >> ok result

  -- unixFloatToMillis
  unfoldable pub unix_float_to_millis : F.Float → ℕ
  unix_float_to_millis unix_seconds = F.round_thousand unix_seconds

-- The digits of a number, in so many rounds; each takes a digit off, so the number is enough.
abbrev pub digits : ℕ → ℕ → Text
digits zero n = (n % 10 + 48) ∷ []
digits (suc rounds) n = elim (ltb n 10) [
  | true ↦ (n + 48) ∷ []
  | false ↦ digits rounds (n / 10) ++ (n % 10 + 48) ∷ []
]

-- NumUtil.toString of a whole number
unfoldable pub to_text : ℕ → Text
to_text value = digits value value
