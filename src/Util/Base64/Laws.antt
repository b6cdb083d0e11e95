-- ===== src/Util/Base64/Laws.antt =====
-- Bytes are read back from their base 64.
use push_anode.Prelude.{
  ℕ, ◌+◌, ◌*◌, ◌/◌, ◌%◌, ◌<◌, ◌≡◌, refl, ap, false, [], ◌∷◌, some, Text, arith, All, nat_beq,
}
use push_anode.Util.Hex.{Bytes}
use push_anode.Util.Base64.{
  base64_digit, bytes_to_base64, base64_value, sextets, join_sextets, base64_to_bytes,
}

base64_value-digit : (v : ℕ) → v < 64 → base64_value (base64_digit v) ≡ some v
unfolding base64_value base64_digit
base64_value-digit v h = ground arith

base64_digit_not_padding : (v : ℕ) → v < 64 → nat_beq (base64_digit v) 61 ≡ false
unfolding base64_digit
base64_digit_not_padding v h = ground arith

sextets-digit : (v : ℕ) (s : Text) → v < 64 → sextets (base64_digit v ∷ s) ≡ v ∷ sextets s
unfolding sextets
sextets-digit v s h = rw (base64_digit_not_padding v h, base64_value-digit v h) refl

sextets-padding : (s : Text) → sextets (61 ∷ s) ≡ []
unfolding sextets
sextets-padding s = refl

sextets-nil : sextets [] ≡ []
unfolding sextets
sextets-nil = refl

-- The bytes that a group of digits stands for.
first_byte : (a b : ℕ) → a < 256 → b < 256 → a / 4 * 4 + (a % 4 * 16 + b / 16) / 16 ≡ a
first_byte a b ha hb = omega (arith, ha, hb)

second_byte :
    (a b c : ℕ)
    → b < 256
    → c < 256
    → (a % 4 * 16 + b / 16) % 16 * 16 + (b % 16 * 4 + c / 64) / 4 ≡ b
second_byte a b c hb hc = omega (arith, hb, hc)

third_byte : (b c : ℕ) → c < 256 → (b % 16 * 4 + c / 64) % 4 * 64 + c % 64 ≡ c
third_byte b c hc = omega (arith, hc)

-- Bytes are read back from their base 64, with its padding.
pub base64_to_bytes-bytes_to_base64 :
    (bytes : Bytes) → All (λ b. b < 256) bytes → base64_to_bytes (bytes_to_base64 bytes) ≡ bytes
unfolding base64_to_bytes bytes_to_base64 join_sextets
base64_to_bytes-bytes_to_base64 [] h = rw sextets-nil refl
base64_to_bytes-bytes_to_base64 (a ∷ []) (ha, h) =
    rw
      (
        sextets-digit (a / 4) _ (omega (arith, ha)),
        sextets-digit (a % 4 * 16) _ (omega (arith, ha)),
        sextets-padding (61 ∷ []),
      )
      (ap (λ n. n ∷ []) (omega (arith, ha)))
base64_to_bytes-bytes_to_base64 (a ∷ b ∷ []) (ha, (hb, h)) =
    rw
      (
        sextets-digit (a / 4) _ (omega (arith, ha)),
        sextets-digit (a % 4 * 16 + b / 16) _ (omega (arith, hb)),
        sextets-digit (b % 16 * 4) _ (omega (arith, hb)),
        sextets-padding [],
        first_byte a b ha hb,
      )
      (ap (λ n. a ∷ n ∷ []) (omega (arith, hb)))
base64_to_bytes-bytes_to_base64 (a ∷ b ∷ c ∷ rest) (ha, (hb, (hc, h))) =
    rw
      (
        sextets-digit (a / 4) _ (omega (arith, ha)),
        sextets-digit (a % 4 * 16 + b / 16) _ (omega (arith, hb)),
        sextets-digit (b % 16 * 4 + c / 64) _ (omega (arith, hc)),
        sextets-digit (c % 64) _ (omega (arith, hc)),
        first_byte a b ha hb,
        second_byte a b c hb hc,
        third_byte b c hc,
        base64_to_bytes-bytes_to_base64 rest h,
      )
      refl
