-- ===== src/Tests/Recent.antt =====
-- Transactions of a wallet around a time, over rows in memory and whole numbers.
use push_anode.Prelude.{
  ℕ, zero, suc, ◌+◌, ◌-◌, ◌*◌, ◌/◌, ◌%◌, ◌≤◌, ◌≡◌, refl, ap, [], ◌∷◌, ◌++◌, none, some, Text,
  text_beq, starts_with, lit, leb, ltb, filter, ok, err, Bool-cases, inl, inr, arith,
}
use push_anode.Util.Caip.{
  is_full_caip_address, parse_caip_address, parse_components, check_components, strip_0x,
}
use push_anode.Util.Split.{split}
use push_anode.Util.Str.{is_empty, is_blank, is_space, has_size, get_or_default}
use push_anode.Util.Time.{
  Floats, digits, to_text, is_timestamp, parse_unix_float_or_fail, unix_float_to_millis,
}
use push_anode.Util.Time.Laws.{IsExact, digits_small, digits_big}
use push_anode.Wire.{thrown}
use push_anode.Archive.Rows.{tx_row}
use push_anode.Queries.Recent.{SqlReads, push_get_transactions, is_wanted, last_item}
use push_anode.Queries.Recent.Stored.{Sent, row_of, shown, push_get_transactions-row_of}
use push_anode.Queries.Recent.Next.{push_get_transactions-last_ts}
use push_anode.Tests.Codec.{libraries}
use push_anode.Tests.Jspb.{jspb}
use push_anode.Tests.Signers.{mail}
use push_anode.Tests.Tables.{tables}
use push_anode.Tests.Archive.{start}

abbrev value : ℕ → Text → ℕ
value acc [] = acc
value acc (c ∷ t) = value (acc * 10 + (c - 48)) t

value_snoc : (acc : ℕ) (t : Text) (c : ℕ) → value acc (t ++ c ∷ []) ≡ value acc t * 10 + (c - 48)
value_snoc acc [] c = refl
value_snoc acc (b ∷ t) c = value_snoc (acc * 10 + (b - 48)) t c

value-digits : (rounds n : ℕ) → n ≤ rounds → value 0 (digits rounds n) ≡ n
value-digits zero n h = omega arith
value-digits (suc rounds) n h = elim (Bool-cases (ltb n 10)) [
  | inl small ↦ rw (digits_small rounds n small) (omega arith)
  | inr big ↦
      let less : n / 10 ≤ rounds = ground (arith, big) in
      rw
        (
          digits_big rounds n big,
          value_snoc 0 (digits rounds (n / 10)) (n % 10 + 48),
          value-digits rounds (n / 10) less,
        )
        (omega arith)
]

unfoldable floats : Floats
floats = record {
  Float = ℕ;
  parse_float = value 0;
  at_least = λ x m. leb m x;
  at_most = λ x m. leb x m;
  round_thousand = λ x. x * 1000;
}

floats-IsExact : IsExact floats
unfolding floats to_text
floats-IsExact n m lt = (ground arith, ap (λ x. leb x m) (value-digits n n (omega arith)))

abbrev sent : Sent
sent = record {
  tx = mail;
  tx_obj = record { tx = some mail; validator_data = none; attestor_data = [] };
  holds = refl;
  are_bytes = omega arith;
  block_hash = lit "0708";
  block_ts = 1700000000000;
}

-- The rows are those of one transaction.
abbrev sql : SqlReads tables
sql = record {
  fetch_with_ties = λ d test order n. ok (filter test (row_of jspb libraries sent ∷ []));
}

push_get_transactions-row_of_example :
    push_get_transactions sql floats start.db 1800000000
      (lit "eip155:1:0xAAAA")
      (lit "EMAIL")
      none
      none
    ≡ ok (record {
      items = shown jspb libraries sent ∷ [];
      last_ts = last_item (shown jspb libraries sent ∷ []);
    })
unfolding floats is_full_caip_address parse_caip_address is_empty is_blank parse_components split
    check_components has_size strip_0x starts_with text_beq get_or_default parse_unix_float_or_fail
    is_timestamp to_text is_wanted is_space unix_float_to_millis tx_row libraries start
push_get_transactions-row_of_example =
    push_get_transactions-row_of jspb libraries sql floats start.db 1800000000
      (lit "eip155:1:0xAAAA") (lit "EMAIL") none none 1800000000 (sent ∷ []) refl refl refl refl

push_get_transactions-last_ts_example :
    push_get_transactions sql floats start.db 1800000000
      (lit "eip155:1:0xAAAA")
      (lit "EMAIL")
      (some (to_text 1700000000000))
      none
    ≡ err (thrown (lit "timestamp must be less that year 99999"))
unfolding is_full_caip_address parse_caip_address is_empty is_blank parse_components split
    check_components has_size strip_0x starts_with text_beq get_or_default is_space
push_get_transactions-last_ts_example =
    push_get_transactions-last_ts jspb libraries sql floats start.db 1800000000
      (lit "eip155:1:0xAAAA") (lit "EMAIL") none (sent ∷ []) (to_text 1700000000000) floats-IsExact
      ((omega arith, omega arith), tt) refl refl refl
