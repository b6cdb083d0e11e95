-- ===== src/Tests/Checks.antt =====
-- Runs of the checks of transactions and blocks.
use push_anode.Prelude.{
  ℕ, ◌≡◌, ◌≢◌, ◌↔◌, ◌≤◌, ◌<◌, ◌⊎◌, refl, [], ◌∷◌, some, true, text_eq, text_beq, lit, ok, length,
  nat_eq, ◌==◌, if◌then◌else◌, starts_with,
}
use push_anode.Collections.Set
use push_anode.Util.Str.{is_empty, has_size, is_blank, is_space}
use push_anode.Util.Split.{split}
use push_anode.Util.Caip.{
  CaipAddr, parse_caip_address, parse_components, check_components, strip_0x, is_full_caip_address,
}
use push_anode.Wire.{Transaction, Block}
use push_anode.Validator.Check.{pass, fail, empty_transaction}
use push_anode.Validator.Signers.{
  check_block_as_snode, recover_signer_address, recover_validator, recover_attestor, check_signers,
  only_first_signer, only_attestation,
}
use push_anode.Validator.Sdk.{message_bytes_to_hash_bytes, check_push_network_signature}
use push_anode.Validator.Transactions.{
  has_min_size, check_validator_token_format, signed_bytes, check_sender, check_tx_signature,
  check_tx_payload, check_recipients, check_tx,
}
use push_anode.Validator.Transactions.Laws.{
  IsAcceptable, check_tx_iff, check_tx_payload_never_fails,
}
use push_anode.Validator.Transactions.Signed.{message_of, check_tx_signature_evm_iff}
use push_anode.Validator.Attestor.{
  Limits, is_fresh, has_validator_vote, has_attestor_vote, check_attest_token_format, tx_size,
  total_tx_bytes, check_tx_objs, check_attestation_counts, check_allowed, check_block_as_attestor,
  check_votes, check_attestors, check_block_finalized,
}
use push_anode.Validator.Attestor.Laws.{IsAttestable, check_block_as_attestor_iff}
use push_anode.Validator.Attestor.Finalized.{check_block_finalized-check_block_as_snode}
use push_anode.Validator.Shards.{
  shard_of, calculate_affected_shard, add_wallets, calculate_affected_shards_tx, add_txs,
  calculate_affected_shards,
}
use push_anode.Validator.Shards.Laws.{IsBelow, calculate_affected_shards-IsBelow}
use push_anode.Validator.Shards.Members.{HaveShard, calculate_affected_shards_tx_iff}
use push_anode.Tests.Codec.{libraries, wallets, wallets-ReadsTx}
use push_anode.Tests.Signers.{registered, mail, attested_twice, voted_obj}

abbrev signed_mail : Transaction
signed_mail = record mail { signature = lit "0xAAAA" }

abbrev sender_of_mail : CaipAddr
sender_of_mail = record { namespace = lit "eip155"; chain_id = some (lit "1"); addr = lit "0xAAAA" }

check_tx_iff_example :
    (check_tx libraries wallets signed_mail ≡ ok pass) ↔ IsAcceptable libraries wallets signed_mail
check_tx_iff_example = check_tx_iff libraries wallets signed_mail

check_tx_payload_never_fails_example :
    check_tx_payload libraries wallets mail ≢ ok (fail empty_transaction)
check_tx_payload_never_fails_example =
    check_tx_payload_never_fails libraries wallets mail empty_transaction

mail_parses : parse_caip_address mail.sender ≡ ok sender_of_mail
unfolding parse_caip_address parse_components check_components split is_empty has_size is_blank
    is_space strip_0x starts_with
mail_parses = refl

check_tx_signature_evm_iff_example :
    (check_tx_signature libraries wallets signed_mail ≡ ok pass) ↔ (
      (4 ≤ length (lit "0xAAAA"))
      × (wallets.verify_message (message_of libraries wallets signed_mail) (lit "0xAAAA")
          ≡ ok (lit "0xAAAA")))
check_tx_signature_evm_iff_example =
    check_tx_signature_evm_iff libraries wallets signed_mail sender_of_mail
      (wallets-ReadsTx signed_mail) (λ e. cc e) mail_parses refl

abbrev limits : Limits
limits = record {
  max_transaction_size_bytes = 1000;
  max_total_transaction_size_bytes = 2000;
  max_transactions_per_block = 10;
  attestor_max_block_age_seconds = 60;
  now = 2000;
}

abbrev final_block : Block
final_block = record attested_twice {
  tx_obj =
      record voted_obj {
        tx = some signed_mail;
        attestor_data = record { vote = 1 } ∷ record { vote = 2 } ∷ [];
      }
      ∷ [];
}

check_block_as_attestor_iff_example :
    (check_block_as_attestor libraries wallets limits final_block registered ≡ ok pass)
    ↔ IsAttestable libraries wallets limits final_block registered
check_block_as_attestor_iff_example =
    check_block_as_attestor_iff libraries wallets limits final_block registered

check_block_finalized-check_block_as_snode_example :
    check_block_as_snode libraries final_block registered 3 ≡ ok pass
unfolding libraries wallets check_block_finalized check_block_as_attestor is_fresh
    has_validator_vote has_attestor_vote check_attest_token_format tx_size total_tx_bytes
    check_tx_objs check_attestation_counts check_allowed check_votes check_attestors has_min_size
    check_validator_token_format signed_bytes check_sender check_tx_signature check_tx_payload
    check_recipients check_tx message_bytes_to_hash_bytes check_push_network_signature
    recover_signer_address recover_validator recover_attestor check_signers only_first_signer
    only_attestation Set.has text_beq parse_caip_address parse_components check_components split
    is_empty has_size is_blank is_space strip_0x starts_with is_full_caip_address
check_block_finalized-check_block_as_snode_example =
    check_block_finalized-check_block_as_snode libraries wallets limits final_block registered 3
      refl

calculate_affected_shards-IsBelow_example : IsBelow 5 (0 ∷ 1 ∷ [])
unfolding libraries wallets calculate_affected_shards add_txs calculate_affected_shards_tx
    add_wallets calculate_affected_shard shard_of Set.add text_beq parse_caip_address
    parse_components check_components split is_empty has_size is_blank is_space strip_0x starts_with
calculate_affected_shards-IsBelow_example =
    calculate_affected_shards-IsBelow libraries wallets 5 final_block (0 ∷ 1 ∷ []) refl

calculate_affected_shards_tx_iff_example : (Set.has {A = ℕ} (0 ∷ 1 ∷ []) 1 ≡ true) ↔ (
    (Set.has {A = ℕ} [] 1 ≡ true)
    ⊎ (if mail.category == lit "INIT_DID"
        then 1 < 5
        else HaveShard libraries wallets 5 (mail.sender ∷ mail.recipients) 1))
unfolding libraries wallets calculate_affected_shards_tx add_wallets calculate_affected_shard
    shard_of Set.add text_beq parse_caip_address parse_components check_components split is_empty
    has_size is_blank is_space strip_0x starts_with
calculate_affected_shards_tx_iff_example =
    calculate_affected_shards_tx_iff libraries wallets mail 5 [] (0 ∷ 1 ∷ []) 1 refl
