-- ===== src/Util/Base64.antt =====
-- Base 64 of Node's buffers, of which src/utilz/bitUtil.ts and the archive make use.
pub mod Laws
use push_anode.Prelude.{
  ℕ, ◌+◌, ◌-◌, ◌*◌, ◌/◌, ◌%◌, ◌||◌, List, [], ◌∷◌, Option, none, some, Text, ltb, leb, ◌==◌, nat_eq,
  ◌&&◌, if◌then◌else◌,
}
use push_anode.Util.Hex.{Bytes, bytes_to_base16}

unfoldable pub base64_digit : ℕ → ℕ
base64_digit v =
    if ltb v 26
    then v + 65
    else if ltb v 52
    then v + 71
    else if ltb v 62
    then v - 4
    else if v == 62
    then 43
    else 47

unfoldable pub bytes_to_base64 : Bytes → Text
unfolding base64_digit
bytes_to_base64 [] = []
bytes_to_base64 (a ∷ []) = base64_digit (a / 4) ∷ base64_digit (a % 4 * 16) ∷ 61 ∷ 61 ∷ []
bytes_to_base64 (a ∷ b ∷ []) =
    base64_digit (a / 4) ∷ base64_digit (a % 4 * 16 + b / 16) ∷ base64_digit (b % 16 * 4) ∷ 61 ∷ []
bytes_to_base64 (a ∷ b ∷ c ∷ rest) =
    base64_digit (a / 4)
    ∷ base64_digit (a % 4 * 16 + b / 16)
    ∷ base64_digit (b % 16 * 4 + c / 64)
    ∷ base64_digit (c % 64)
    ∷ bytes_to_base64 rest

-- The value of a digit, also in the alphabet for URLs.
unfoldable pub base64_value : ℕ → Option ℕ
base64_value c =
    if leb 65 c && leb c 90
    then some (c - 65)
    else if leb 97 c && leb c 122
    then some (c - 71)
    else if leb 48 c && leb c 57
    then some (c + 4)
    else if c == 43 || c == 45
    then some 62
    else if c == 47 || c == 95
    then some 63
    else none

abbrev add_sextet : Option ℕ → List ℕ → List ℕ
add_sextet none vs = vs
add_sextet (some v) vs = v ∷ vs

-- The digits up to the padding; other characters are skipped.
unfoldable pub sextets : Text → List ℕ
sextets [] = []
sextets (c ∷ s) = let rest = sextets s in if c == 61 then [] else add_sextet (base64_value c) rest

unfoldable pub join_sextets : List ℕ → Bytes
join_sextets (a ∷ b ∷ c ∷ d ∷ rest) =
    (a * 4 + b / 16) ∷ (b % 16 * 16 + c / 4) ∷ (c % 4 * 64 + d) ∷ join_sextets rest
join_sextets (a ∷ b ∷ c ∷ []) = (a * 4 + b / 16) ∷ (b % 16 * 16 + c / 4) ∷ []
join_sextets (a ∷ b ∷ []) = (a * 4 + b / 16) ∷ []
join_sextets _ = []

-- Buffer.from(value, 'base64')
unfoldable pub base64_to_bytes : Text → Bytes
base64_to_bytes s = join_sextets (sextets s)

-- BitUtil.base64ToBase16
unfoldable pub base64_to_base16 : Text → Text
base64_to_base16 s = bytes_to_base16 (base64_to_bytes s)
