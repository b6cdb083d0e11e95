-- ===== src/Util/Hex/Laws.antt =====
-- Decoding and printing in base 16 are inverse to one another.
use push_anode.Prelude.{
  ℕ, ◌+◌, ◌-◌, ◌*◌, ◌/◌, ◌%◌, ◌<◌, ◌≡◌, refl, sym, ap, ◌∙◌, ◌≢◌, ◌↔◌, none, some, [], ◌∷◌, Text, ok,
  leb, length, All, arith, map, if◌then◌else◌, Option-cases, inl, inr, ◌&&◌,
}
use push_anode.Util.Hex.{
  Bytes, ascii_to_base16, decode_hex, hex_digit, bytes_to_base16, pad_even, base16_to_bytes,
}

abbrev pub IsByte : ℕ → Type 0
IsByte b = b < 256

-- One of 0-9, A-F, a-f.
abbrev pub IsHexDigit : ℕ → Type 0
IsHexDigit c = ascii_to_base16 c ≢ none

-- The lower-case form of a hexadecimal digit.
abbrev pub lower_digit : ℕ → ℕ
lower_digit c = if leb 65 c && leb c 70 then c + 32 else c

ascii_to_base16-hex_digit : (v : ℕ) → v < 16 → ascii_to_base16 (hex_digit v) ≡ some v
unfolding ascii_to_base16 hex_digit
ascii_to_base16-hex_digit v h = ground arith

hex_digit_of_value : (c v : ℕ) → ascii_to_base16 c ≡ some v → hex_digit v ≡ lower_digit c
unfolding ascii_to_base16 hex_digit
hex_digit_of_value c v h = ground arith

value-lt : (c v : ℕ) → ascii_to_base16 c ≡ some v → v < 16
unfolding ascii_to_base16
value-lt c v h = ground arith

length-bytes_to_base16 : (bs : Bytes) → length (bytes_to_base16 bs) ≡ length bs * 2
unfolding bytes_to_base16
length-bytes_to_base16 [] = refl
length-bytes_to_base16 (b ∷ bs) = omega (arith, length-bytes_to_base16 bs)

decode_hex-bytes_to_base16 : (bs : Bytes) → All IsByte bs → decode_hex (bytes_to_base16 bs) ≡ bs
unfolding decode_hex bytes_to_base16
decode_hex-bytes_to_base16 [] h = refl
decode_hex-bytes_to_base16 (b ∷ bs) h = ground (
  arith,
  ascii_to_base16-hex_digit (b / 16) (omega arith),
  ascii_to_base16-hex_digit (b % 16) (omega arith),
  decode_hex-bytes_to_base16 bs h.1,
)

pad_even_of_even : (s : Text) (n : ℕ) → length s ≡ n * 2 → pad_even s ≡ s
unfolding pad_even
pad_even_of_even s n h = ground arith

-- Printed bytes are read back as they were.
pub base16_to_bytes-bytes_to_base16 :
    (bs : Bytes) → All IsByte bs → base16_to_bytes (bytes_to_base16 bs) ≡ ok bs
unfolding base16_to_bytes
base16_to_bytes-bytes_to_base16 bs h = ground (
  arith,
  decode_hex-bytes_to_base16 bs h,
  length-bytes_to_base16 bs,
  pad_even_of_even (bytes_to_base16 bs) (length bs),
)

-- What is decoded in full: every character is a digit, and printing gives the text in lower case.
abbrev Full : Text → Type 0
Full s =
    All IsHexDigit s
    × (bytes_to_base16 (decode_hex s) ≡ map lower_digit s)
    × All IsByte (decode_hex s)

split_pair : (h l : ℕ) → l < 16 → ((h * 16 + l) / 16 ≡ h) × ((h * 16 + l) % 16 ≡ l)
split_pair h l b = omega arith

pair-Full :
    (c d h l : ℕ) (s : Text)
    → ascii_to_base16 c ≡ some h
    → ascii_to_base16 d ≡ some l
    → Full s
    → Full (c ∷ d ∷ s)
unfolding decode_hex bytes_to_base16
pair-Full c d h l s p q (digits, printed, bytes) =
    let hb : h < 16 = value-lt c h p in
    let lb : l < 16 = value-lt d l q in
    rw (p, q)
      (
        (λ e. cc, (λ e. cc, digits)),
        ground (arith, split_pair h l lb, hex_digit_of_value c h p, hex_digit_of_value d l q),
        (omega arith, bytes),
      )

abbrev Decoded : Text → Type 0
Decoded s = length (decode_hex s) * 2 ≡ length s

-- Only a pair of two digits goes on.
decoded_pair :
    (c d : ℕ) (s : Text)
    → Decoded (c ∷ d ∷ s)
    → (h : ℕ) × (l : ℕ) × (ascii_to_base16 c ≡ some h) × (ascii_to_base16 d ≡ some l) × Decoded s
unfolding decode_hex
decoded_pair c d s e = elim (Option-cases (ascii_to_base16 c)) [
  | inl p ↦ absurd (ground (arith, p))
  | inr (h, p) ↦ elim (Option-cases (ascii_to_base16 d)) [
    | inl q ↦ absurd (ground (arith, p, q))
    | inr (l, q) ↦ (h, l, p, q, ground (arith, p, q))
  ]
]

decode_hex-Full : (s : Text) → Decoded s → Full s
decode_hex-Full [] e = unfold decode_hex bytes_to_base16 in (tt, refl, tt)
decode_hex-Full (c ∷ []) e = absurd (unfold decode_hex in omega arith)
decode_hex-Full (c ∷ d ∷ s) e =
    let (h, l, p, q, rest) = decoded_pair c d s e in
    pair-Full c d h l s p q (decode_hex-Full s rest)

Decoded-empty : (s : Text) → length s ≡ 0 → Decoded s
Decoded-empty [] e = unfold decode_hex in refl
Decoded-empty (c ∷ s) e = absurd (omega arith)

accepted :
    (s : Text) (bs : Bytes)
    → base16_to_bytes s ≡ ok bs
    → Decoded (pad_even s) × (decode_hex (pad_even s) ≡ bs)
unfolding base16_to_bytes
accepted s bs e = ground (arith, Decoded-empty (pad_even s))

-- An accepted text holds digits only, and its bytes print as the padded text in lower case.
pub base16_to_bytes_sound :
    (s : Text) (bs : Bytes)
    → base16_to_bytes s ≡ ok bs
    → All IsHexDigit (pad_even s)
      × (bytes_to_base16 bs ≡ map lower_digit (pad_even s))
      × All IsByte bs
base16_to_bytes_sound s bs e =
    let (decoded, same) = accepted s bs e in rw (← same) (decode_hex-Full (pad_even s) decoded)

decoded_of_digits : (s : Text) (n : ℕ) → length s ≡ n * 2 → All IsHexDigit s → Decoded s
unfolding decode_hex
decoded_of_digits [] n e h = refl
decoded_of_digits (c ∷ []) n e h = absurd (omega arith)
decoded_of_digits (c ∷ d ∷ s) n e (hc, (hd, hs)) =
    let ih = decoded_of_digits s (n - 1) (omega arith) hs in
    elim (Option-cases (ascii_to_base16 c)) [
      | inl p ↦ absurd (hc p)
      | inr (h, p) ↦ elim (Option-cases (ascii_to_base16 d)) [
        | inl q ↦ absurd (hd q)
        | inr (l, q) ↦ rw (p, q) (omega (arith, ih))
      ]
    ]

length-pad_even : (s : Text) → length (pad_even s) ≡ (length s + 1) / 2 * 2
unfolding pad_even
length-pad_even s = ground arith

-- Every text of digits, of any length and in any case, is accepted.
pub base16_to_bytes_complete :
    (s : Text) → All IsHexDigit (pad_even s) → base16_to_bytes s ≡ ok (decode_hex (pad_even s))
unfolding base16_to_bytes
base16_to_bytes_complete s h =
    ground (arith, decoded_of_digits (pad_even s) ((length s + 1) / 2) (length-pad_even s) h)

-- A text gives these bytes exactly when, padded to an even length, it holds digits only, the bytes
-- are bytes, and they print as the padded text in lower case.
pub base16_to_bytes_iff :
    (s : Text) (bs : Bytes)
    → (base16_to_bytes s ≡ ok bs) ↔ (
        All IsHexDigit (pad_even s)
        × ((bytes_to_base16 bs ≡ map lower_digit (pad_even s)) × All IsByte bs))
base16_to_bytes_iff s bs = (
  λ e.
      let (digits, printed, are_bytes) = base16_to_bytes_sound s bs e in
      (digits, (printed, are_bytes)),
  λ (digits, (printed, are_bytes)).
      let accepts = base16_to_bytes_complete s digits in
      let (_, printed', are_bytes') = base16_to_bytes_sound s (decode_hex (pad_even s)) accepts in
      accepts
      ∙ sym (base16_to_bytes-bytes_to_base16 (decode_hex (pad_even s)) are_bytes')
      ∙ ap base16_to_bytes (printed' ∙ sym printed)
      ∙ base16_to_bytes-bytes_to_base16 bs are_bytes,
)
