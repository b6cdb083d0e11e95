-- ===== src/Util/Prefix.antt =====
-- The base 16 texts with a prefix 0x of src/utilz/bitUtil.ts.
use push_anode.Prelude.{
  Bool, ◌||◌, ◌++◌, Text, lit, drop, Result, starts_with, nat_eq, if◌then◌else◌,
}
use push_anode.Util.Hex.{Bytes, HexError, pad_even, base16_to_bytes}
use push_anode.Util.Str.{to_lower_case}

unfoldable pub has_prefix : Text → Bool
has_prefix s = starts_with (lit "0x") s || starts_with (lit "0X") s

-- hex0xRemove
unfoldable pub hex_0x_remove : Text → Text
hex_0x_remove s = to_lower_case (pad_even (if has_prefix s then drop 2 s else s))

-- hex0xAppend
unfoldable pub hex_0x_append : Text → Text
hex_0x_append s = if has_prefix s then s else lit "0x" ++ s

-- hex0xToBytes; its own check of the length repeats the one of base16ToBytes
unfoldable pub hex_0x_to_bytes : Text → Result HexError Bytes
hex_0x_to_bytes s = base16_to_bytes (hex_0x_remove s)
