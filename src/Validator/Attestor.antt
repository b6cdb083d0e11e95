-- ===== src/Validator/Attestor.antt =====
-- The checks of an attestor, and of a finalized block, in src/modules/validator/blockUtil.ts.
pub mod Laws
pub mod Finalized
use push_anode.Prelude.{
  ℕ, zero, suc, ◌+◌, ◌-◌, ◌*◌, Bool, true, false, not, ◌&&◌, ◌||◌, List, [], ◌∷◌, Option, none,
  some, Text, lit, Result, ok, err, ◌>>=◌, leb, ltb, ◌==◌, text_eq, nat_eq, length, drop, all,
  starts_with, if◌then◌else◌,
}
use push_anode.Collections.Set
use push_anode.Collections.Set.{Set}
use push_anode.Util.Hex.{Bytes}
use push_anode.Wire.{
  TxValidatorData, TxAttestorData, Transaction, TransactionObj, Block, Failure, Libraries, accepted,
  rejected,
}
use push_anode.Validator.Check.{
  CheckError, wrong_signature_count, unregistered_validator, bad_token, block_full, block_old,
  short_token, empty_transaction, transaction_size, bad_validator_data, total_size, no_signer,
  wrong_attestation_count, bad_attestor_data, CheckR, pass, fail, ◌and_then◌, require,
}
use push_anode.Validator.Signers.{recover_signer_address, check_signers, only_first_signer}
use push_anode.Validator.Sdk.{Wallets}
use push_anode.Validator.Transactions.{has_min_size, check_tx}

-- The limits of the environment, and the clock in milliseconds.
pub record Limits : Type 0 where
  pub max_transaction_size_bytes : ℕ
  pub max_total_transaction_size_bytes : ℕ
  pub max_transactions_per_block : ℕ
  pub attestor_max_block_age_seconds : ℕ
  pub now : ℕ

-- Math.abs(ts - now)
abbrev pub age : ℕ → ℕ → ℕ
age ts now = (ts - now) + (now - ts)

-- No limit is set, or the block is in time.
unfoldable pub is_fresh : Limits → ℕ → Bool
is_fresh limits ts =
    limits.attestor_max_block_age_seconds == 0
    || leb (age ts limits.now) (1000 * limits.attestor_max_block_age_seconds)

-- VALID_VALIDATOR_VOTES
unfoldable pub has_validator_vote : Option TxValidatorData → Bool
has_validator_vote none = false
has_validator_vote (some d) = d.vote == accepted

-- VALID_ATTESTOR_VOTES
unfoldable pub has_attestor_vote : TxAttestorData → Bool
has_attestor_vote a = a.vote == accepted || a.vote == rejected

module _ (lib : Libraries) (w : Wallets) where
  -- checkAttestTokenFormat
  unfoldable pub check_attest_token_format : Bytes → Result Failure CheckR
  check_attest_token_format token =
      require (bad_token token) (starts_with (lit "AT1") (w.utf8_decode token))

  unfoldable pub tx_size : Transaction → ℕ
  tx_size tx = length (lib.serialize_tx tx)

  abbrev pub size_of : Option Transaction → ℕ
  size_of none = 0
  size_of (some tx) = tx_size tx

  unfoldable pub total_tx_bytes : List TransactionObj → ℕ
  total_tx_bytes [] = 0
  total_tx_bytes (t ∷ ts) = size_of t.tx + total_tx_bytes ts

  abbrev pub check_tx_of : Limits → ℕ → TransactionObj → Option Transaction → Result Failure CheckR
  check_tx_of limits i t none = ok (fail empty_transaction)
  check_tx_of limits i t (some tx) =
      require (transaction_size (tx_size tx)) (leb (tx_size tx) limits.max_transaction_size_bytes)
      and_then require (bad_validator_data i) (has_validator_vote t.validator_data)
      and_then check_tx lib w tx

  -- The loop over the transactions, from index `i` on.
  unfoldable pub check_tx_objs : Limits → ℕ → List TransactionObj → Result Failure CheckR
  check_tx_objs limits i [] = ok pass
  check_tx_objs limits i (t ∷ ts) =
      check_tx_of limits i t t.tx and_then check_tx_objs limits (suc i) ts

  -- The loop that compares the attestations of each transaction with the signatures.
  unfoldable pub check_attestation_counts : ℕ → List TransactionObj → Result Failure CheckR
  check_attestation_counts count ts =
      require wrong_attestation_count (all (λ t. length t.attestor_data == count) ts)

  unfoldable pub check_allowed : Set Text → Result Failure Text → Result Failure CheckR
  check_allowed validators (err e) = err e
  check_allowed validators (ok node_id) =
      require (unregistered_validator node_id) (Set.has validators node_id)

  -- checkBlockAsAttestor
  unfoldable pub check_block_as_attestor : Limits → Block → Set Text → Result Failure CheckR
  check_block_as_attestor limits block validators =
      check_attest_token_format block.attest_token
      and_then require (block_full (length block.tx_obj))
          (ltb (length block.tx_obj) limits.max_transactions_per_block)
      and_then require (block_old block.ts) (is_fresh limits block.ts)
      and_then require short_token (has_min_size block.attest_token 4)
      and_then check_tx_objs limits 0 block.tx_obj
      and_then require (total_size (total_tx_bytes block.tx_obj))
          (leb (total_tx_bytes block.tx_obj) limits.max_total_transaction_size_bytes)
      and_then require no_signer (not (length block.signers == 0))
      and_then check_attestation_counts (length block.signers - 1) block.tx_obj
      and_then check_allowed validators (recover_signer_address lib block 0)

  abbrev check_votes_of : ℕ → ℕ → TransactionObj → Option Transaction → Result Failure CheckR
  check_votes_of count i t none = ok (fail empty_transaction)
  check_votes_of count i t (some tx) =
      require wrong_attestation_count (length t.attestor_data == count)
      and_then require (bad_attestor_data i) (all has_attestor_vote t.attestor_data)

  -- The loop over the attestations of each transaction.
  unfoldable pub check_votes : ℕ → ℕ → List TransactionObj → Result Failure CheckR
  check_votes count i [] = ok pass
  check_votes count i (t ∷ ts) = check_votes_of count i t t.tx and_then check_votes count (suc i) ts

  -- The signers after the validator.
  unfoldable pub check_attestors : Block → Set Text → Result Failure CheckR
  check_attestors block validators = do
    copy ← lib.deserialize_block (lib.serialize_block block)
    tmp_block ← only_first_signer block.signers copy
    check_signers lib block validators (drop 1 block.signers) 1

  -- checkBlockFinalized
  unfoldable pub check_block_finalized : Limits → Block → Set Text → ℕ → Result Failure CheckR
  check_block_finalized limits block validators val_per_block =
      check_block_as_attestor limits block validators
      and_then require (wrong_signature_count (length block.signers) val_per_block)
          (length block.signers == val_per_block)
      and_then check_attestation_counts (length block.signers - 1) block.tx_obj
      and_then check_votes (length block.signers - 1) 0 block.tx_obj
      and_then check_attestors block validators
