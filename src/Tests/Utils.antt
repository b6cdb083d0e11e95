-- ===== src/Tests/Utils.antt =====
-- Runs of the utilities of src/utilz/.
use push_anode.Prelude.{◌≡◌, ◌↔◌, [], ◌∷◌, map, All, some, lit, text_eq, ok}
use push_anode.Util.Hex.{bytes_to_base16, base16_to_bytes, pad_even}
use push_anode.Util.Hex.Laws.{IsByte, IsHexDigit, lower_digit, base16_to_bytes_iff}
use push_anode.Util.Caip.{CaipAddr, parse_caip_address}
use push_anode.Util.Caip.Laws.{IsCaip, print_caip, parse_caip_address_iff}

base16_to_bytes_iff_example : (base16_to_bytes (lit "A0b") ≡ ok (10 ∷ 11 ∷ [])) ↔ (
    All IsHexDigit (pad_even (lit "A0b"))
    × ((bytes_to_base16 (10 ∷ 11 ∷ []) ≡ map lower_digit (pad_even (lit "A0b")))
        × All IsByte (10 ∷ 11 ∷ [])))
base16_to_bytes_iff_example = base16_to_bytes_iff (lit "A0b") (10 ∷ 11 ∷ [])

abbrev ethereum : CaipAddr
ethereum = record { namespace = lit "eip155"; chain_id = some (lit "1"); addr = lit "0xAAAA" }

parse_caip_address_iff_example :
    (parse_caip_address (lit "eip155:1:0xAAAA") ≡ ok ethereum)
    ↔ (IsCaip ethereum × (print_caip ethereum ≡ lit "eip155:1:0xAAAA"))
parse_caip_address_iff_example = parse_caip_address_iff (lit "eip155:1:0xAAAA") ethereum
