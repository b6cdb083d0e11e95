-- ===== src/Tests/Signers.antt =====
-- A block of one transaction, signed by a validator and attested twice.
use push_anode.Prelude.{
  ℕ, ◌≡◌, ◌<◌, ◌↔◌, refl, List, [], ◌∷◌, none, some, true, Text, text_eq, text_beq, lit, ok, length,
}
use push_anode.Collections.Set
use push_anode.Wire.{Signer, Transaction, TransactionObj, Block, AttestBlockResult, accepted}
use push_anode.Validator.Check.{pass, fail, unregistered_validator}
use push_anode.Validator.Signers.{
  Wallet, check_block_as_snode, sign_block_as_validator, recover_signer_address,
  sign_block_as_attestor, append_patch_as_validator, recover_validator, recover_attestor,
  check_signers, append_votes, only_first_signer, only_attestation,
}
use push_anode.Validator.Signers.Laws.{IsAllowed, check_block_as_snode_iff}
use push_anode.Validator.Signers.Accepts.{
  IsAttested, alone, attested, IsRegistered, check_block_as_snode-signed,
}
use push_anode.Validator.Signers.{recover_patch_address}
use push_anode.Validator.Signers.Patch.{recover_patch_address-sign_block_as_attestor}
use push_anode.Tests.Codec.{libraries, libraries-IsReadBack}

abbrev pub wallet : Text → Wallet
wallet name = record { address = name; sign = λ _. name }

abbrev pub val : Wallet
val = wallet (lit "0xV")

abbrev pub att_one : Wallet
att_one = wallet (lit "0xA")

abbrev pub att_two : Wallet
att_two = wallet (lit "0xB")

abbrev pub registered : List Text
registered = lit "0xV" ∷ lit "0xA" ∷ lit "0xB" ∷ []

abbrev pub mail : Transaction
mail = record {
  type = 0;
  category = lit "EMAIL";
  sender = lit "eip155:1:0xAAAA";
  recipients = lit "eip155:1:0xBBBB" ∷ [];
  payload = 1 ∷ 2 ∷ [];
  salt = 1 ∷ 2 ∷ 3 ∷ 4 ∷ [];
  api_token = lit "VT1";
  signature = 9 ∷ 9 ∷ 9 ∷ 9 ∷ [];
  fee = lit "0";
}

abbrev pub unsigned_block : Block
unsigned_block = record {
  ts = 1700;
  attest_token = lit "AT1x";
  signers = [];
  tx_obj = record { tx = some mail; validator_data = none; attestor_data = [] } ∷ [];
}

abbrev pub voted_obj : TransactionObj
voted_obj = record {
  tx = some mail;
  validator_data = some (record { vote = accepted; did_mapping = none });
  attestor_data = [];
}

abbrev pub sig_of : Wallet → Signer
sig_of w = record { sig = w.address }

abbrev pub signed_block : Block
signed_block = record unsigned_block { tx_obj = voted_obj ∷ []; signers = sig_of val ∷ [] }

abbrev yes_vote : AttestBlockResult
yes_vote = record { attestor_data = record { vote = 1 } ∷ []; signer = sig_of att_one }

abbrev pub attested_once : Block
attested_once = record signed_block {
  tx_obj = record voted_obj { attestor_data = record { vote = 1 } ∷ [] } ∷ [];
  signers = sig_of val ∷ sig_of att_one ∷ [];
}

abbrev pub attested_twice : Block
attested_twice = record signed_block {
  tx_obj = record voted_obj { attestor_data = record { vote = 1 } ∷ record { vote = 1 } ∷ [] } ∷ [];
  signers = sig_of val ∷ sig_of att_one ∷ sig_of att_two ∷ [];
}

IsAttested-history : IsAttested libraries signed_block (att_one ∷ att_two ∷ []) attested_twice
unfolding libraries sign_block_as_attestor append_patch_as_validator append_votes
IsAttested-history =
    attested {ws = att_one ∷ []} {block = attested_once} att_two
      (record yes_vote { signer = sig_of att_two }) attested_twice
      (attested {ws = []} {block = signed_block} att_one yes_vote attested_once alone refl refl)
      refl refl

signed_by_validator : sign_block_as_validator libraries val unsigned_block ≡ ok signed_block
unfolding libraries sign_block_as_validator
signed_by_validator = refl

is_registered :
    (name : Text) → Set.has registered name ≡ true → IsRegistered libraries registered (wallet name)
unfolding libraries
is_registered name h = (λ m. refl, h)

check_block_as_snode-signed_example :
    check_block_as_snode libraries attested_twice registered 3 ≡ ok pass
unfolding Set.has text_beq
check_block_as_snode-signed_example =
    check_block_as_snode-signed libraries registered val (att_one ∷ att_two ∷ []) unsigned_block
      signed_block attested_twice (libraries-IsReadBack signed_block)
      (libraries-IsReadBack attested_twice) (is_registered (lit "0xV") refl)
      (is_registered (lit "0xA") refl, (is_registered (lit "0xB") refl, tt)) signed_by_validator
      IsAttested-history

check_block_as_snode_iff_example :
    (check_block_as_snode libraries attested_twice registered 3 ≡ ok pass) ↔ (
      (length attested_twice.signers ≡ 3)
      × (0 < 3)
      × ((i : ℕ) → i < 3 → IsAllowed libraries attested_twice registered i))
check_block_as_snode_iff_example =
    check_block_as_snode_iff libraries attested_twice registered 3
      (libraries-IsReadBack attested_twice)

-- One address that is not registered is enough for a refusal.
refused :
    check_block_as_snode libraries attested_twice (lit "0xV" ∷ lit "0xA" ∷ []) 3
    ≡ ok (fail (unregistered_validator (lit "0xB")))
unfolding libraries check_block_as_snode only_first_signer only_attestation check_signers
    recover_signer_address recover_validator recover_attestor Set.has text_beq
refused = refl

recover_patch_address-sign_block_as_attestor_example :
    recover_patch_address libraries signed_block yes_vote ≡ ok (lit "0xA")
unfolding libraries sign_block_as_attestor
recover_patch_address-sign_block_as_attestor_example =
    recover_patch_address-sign_block_as_attestor libraries att_one signed_block yes_vote
      (libraries-IsReadBack signed_block) (λ m. refl) refl
