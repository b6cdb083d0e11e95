-- ===== src/Util/Str.antt =====
-- src/utilz/strUtil.ts: tests on strings. A string that may be null is an `Option Text`.
use push_anode.Prelude.{
  ℕ, Bool, true, false, ◌&&◌, ◌||◌, Option, none, some, Text, leb, ltb, ◌==◌, nat_eq, all, length,
  map, ◌+◌, if◌then◌else◌,
}
use push_anode.Util.Hex.{ascii_to_base16}

-- isEmpty
unfoldable pub is_empty : Option Text → Bool
is_empty none = true
is_empty (some s) = length s == 0

-- A bound that is null does not count.
abbrev pub below : ℕ → Option ℕ → Bool
below n none = false
below n (some bound) = ltb n bound

abbrev pub above : ℕ → Option ℕ → Bool
above n none = false
above n (some bound) = ltb bound n

-- hasSize
unfoldable pub has_size : Option Text → Option ℕ → Option ℕ → Bool
has_size none min_size max_size = false
has_size (some s) min_size max_size =
    if below (length s) min_size then false else if above (length s) max_size then false else true

abbrev pub is_some_digit : Option ℕ → Bool
is_some_digit none = false
is_some_digit (some v) = true

-- isHex: /^[A-F0-9]+$/i
unfoldable pub is_hex : Option Text → Bool
unfolding is_empty
is_hex none = false
is_hex (some s) =
    if is_empty (some s) then false else all (λ c. is_some_digit (ascii_to_base16 c)) s

-- getOrDefault
unfoldable pub get_or_default : Option Text → Text → Text
unfolding is_empty
get_or_default none default_value = default_value
get_or_default (some s) default_value = if is_empty (some s) then default_value else s

-- White space and line ends of ECMAScript, which `trim` removes.
unfoldable pub is_space : ℕ → Bool
is_space c =
    (leb 9 c && leb c 13)
    || (c == 32
        || (c == 0xa0
            || (c == 0x1680
                || ((leb 0x2000 c && leb c 0x200a)
                    || (c == 0x2028
                        || (c == 0x2029
                            || (c == 0x202f || (c == 0x205f || (c == 0x3000 || c == 0xfeff)))))))))

-- s.trim() === ''
unfoldable pub is_blank : Text → Bool
unfolding is_space
is_blank s = all is_space s

-- s.toLowerCase(), on the ASCII letters: the program lowers addresses and base 16 only
unfoldable pub to_lower_case : Text → Text
to_lower_case s = map (λ c. if leb 65 c && leb c 90 then c + 32 else c) s
