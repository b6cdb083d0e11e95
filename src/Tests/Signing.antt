-- ===== src/Tests/Signing.antt =====
-- A run of the signing of an INIT_DID and of its check.
use push_anode.Prelude.{◌≡◌, refl, [], ◌∷◌, some, text_beq, text_eq, lit, ok, arith, starts_with}
use push_anode.Util.Str.{is_empty, has_size, is_blank, is_space, to_lower_case}
use push_anode.Util.Split.{split}
use push_anode.Util.Hex.{
  bytes_to_base16, base16_to_bytes, pad_even, decode_hex, ascii_to_base16, hex_digit,
}
use push_anode.Util.Prefix.{hex_0x_to_bytes, hex_0x_remove, has_prefix}
use push_anode.Util.Caip.{
  CaipAddr, parse_caip_address, parse_components, check_components, strip_0x,
}
use push_anode.Wire.{Transaction, InitDid}
use push_anode.Validator.Check.{pass}
use push_anode.Validator.Sdk.{
  Wallets, to_hex_0x, push_addr_to_evm_addr, check_push_network_signature,
  check_push_init_did_wallet_mapping,
}
use push_anode.Validator.Transactions.{check_wallets, check_tx_signature}
use push_anode.Validator.Transactions.Signing.{sign_init_did}
use push_anode.Validator.Transactions.Signing.Laws.{check_tx_signature-sign_init_did}
use push_anode.Tests.Codec.{libraries, wallets, wallets-ReadsTx}
use push_anode.Tests.Signers.{wallet, mail}

abbrev account : InitDid
account = record {
  master_pub_key = lit "0xaabb";
  derived_pub_key = [];
  wallets = (lit "eip155:1:0xCCCC", lit "0xCCCC") ∷ [];
}

-- The address of a key is its text in base 16, and every push address has the bytes of one key.
abbrev account_wallets : Wallets
account_wallets = record wallets {
  deserialize_init_did = λ s. ok account;
  compute_address = λ key. ok (to_hex_0x key);
  bech32_bytes = λ a. ok (170 ∷ 187 ∷ []);
}

abbrev registration : Transaction
registration = record mail {
  category = lit "INIT_DID";
  sender = lit "push:devnet:pushconsumer";
  signature = [];
}

abbrev signed_registration : Transaction
signed_registration = record registration { signature = lit "0xaabb" }

abbrev push_account : CaipAddr
push_account = record {
  namespace = lit "push";
  chain_id = some (lit "devnet");
  addr = lit "pushconsumer";
}

registration_parses : parse_caip_address registration.sender ≡ ok push_account
unfolding parse_caip_address parse_components check_components split is_empty has_size is_blank
    is_space strip_0x starts_with
registration_parses = refl

check_tx_signature-sign_init_did_example :
    check_tx_signature libraries account_wallets signed_registration ≡ ok pass
unfolding wallets sign_init_did hex_0x_to_bytes base16_to_bytes pad_even hex_0x_remove to_lower_case
    has_prefix starts_with decode_hex to_hex_0x bytes_to_base16 push_addr_to_evm_addr check_wallets
    parse_caip_address is_empty is_blank parse_components split text_beq check_components strip_0x
    ascii_to_base16 hex_digit has_size is_space check_push_init_did_wallet_mapping
    check_push_network_signature
check_tx_signature-sign_init_did_example =
    check_tx_signature-sign_init_did libraries account_wallets (wallet (lit "0xaabb"))
      (lit "0xaabb") registration signed_registration account push_account (170 ∷ 187 ∷ [])
      (lit "0xaabb") (wallets-ReadsTx signed_registration) (λ m. (refl, omega arith))
      registration_parses refl refl refl refl refl refl refl
