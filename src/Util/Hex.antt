-- ===== src/Util/Hex.antt =====
-- Base 16 in src/utilz/bitUtil.ts. A byte is a number below 256.
-- `Buffer.from(s, 'hex')` of Node is `decode_hex`: it stops before the first pair that is not two
-- hexadecimal digits, and drops an odd last character.
pub mod Laws
use push_anode.Prelude.{
  ℕ, ◌+◌, ◌-◌, ◌*◌, ◌/◌, ◌%◌, ◌≤◌, ◌<◌, ◌≡◌, refl, Bool, true, false, ◌&&◌, ◌||◌, Option, none,
  some, List, [], ◌∷◌, ◌++◌, Text, lit, Result, ok, err, ◌>>=◌, ◌>>◌, guard, leb, ltb, ◌==◌, length,
  if◌then◌else◌, nat_eq,
}

abbrev pub Bytes : Type 0
Bytes = List ℕ

pub data HexError : Type 0 where
  bad_hex : Text → HexError

-- asciiToBase16: the value of one digit, `none` for undefined
unfoldable pub ascii_to_base16 : ℕ → Option ℕ
ascii_to_base16 char =
    if leb 48 char && leb char 57
    then some (char - 48)
    else if leb 65 char && leb char 70
    then some (char - (65 - 10))
    else if leb 97 char && leb char 102
    then some (char - (97 - 10))
    else none

abbrev pub pair_value : Option ℕ → Option ℕ → Option ℕ
pair_value none low = none
pair_value (some h) none = none
pair_value (some h) (some l) = some (h * 16 + l)

abbrev pub push_byte : Option ℕ → Bytes → Bytes
push_byte none rest = []
push_byte (some b) rest = b ∷ rest

-- Buffer.from(s, 'hex')
unfoldable pub decode_hex : Text → Bytes
unfolding ascii_to_base16
decode_hex [] = []
decode_hex (h ∷ []) = []
decode_hex (h ∷ l ∷ s) =
    push_byte (pair_value (ascii_to_base16 h) (ascii_to_base16 l)) (decode_hex s)

-- The lower-case digit of a value below 16.
unfoldable pub hex_digit : ℕ → ℕ
hex_digit v = if ltb v 10 then v + 48 else v + 87

-- bytesToBase16: buffer.toString('hex')
unfoldable pub bytes_to_base16 : Bytes → Text
unfolding hex_digit
bytes_to_base16 [] = []
bytes_to_base16 (b ∷ bs) = hex_digit (b / 16) ∷ hex_digit (b % 16) ∷ bytes_to_base16 bs

-- An odd number of digits is read with a leading zero.
unfoldable pub pad_even : Text → Text
pad_even s = if length s % 2 == 1 then lit "0" ++ s else s

unfoldable pub base16_to_bytes : Text → Result HexError Bytes
base16_to_bytes base16_string = do
  let padded = pad_even base16_string
  let result = decode_hex padded
  guard (length padded == 0 || (length result * 2 == length padded)) (bad_hex padded)
  ok result
