-- ===== src/Validator/Check.antt =====
-- What a check answers: CheckR of src/modules/validator/blockUtil.ts and SigCheck of
-- src/modules/validator/pushSdkUtil.ts, each message with the values that it quotes.
use push_anode.Prelude.{
  ℕ, ◌≡◌, ◌↔◌, refl, Bool, true, false, Option, none, some, Text, Result, ok, err,
}
use push_anode.Util.Hex.{Bytes}
use push_anode.Util.Caip.{CaipError}
use push_anode.Wire.{Failure, type_error}

-- SigCheck
pub data SigError : Type 0 where
  init_did_signature : Text → Text → SigError
  init_did_sender : Text → Text → SigError
  init_did_mapping : Text → SigError → SigError
  differs_from_recovered : Text → Text → SigError
  not_signed : Text → SigError
  unsupported_chain : Text → SigError

pub data SigCheck : Type 0 where
  valid : SigCheck
  refused : SigError → SigCheck

-- CheckR
pub data CheckError : Type 0 where
  wrong_signature_count : ℕ → ℕ → CheckError
  unregistered_validator : Text → CheckError
  bad_token : Bytes → CheckError
  value_transaction : CheckError
  sender_not_full : Text → CheckError
  recipient_not_full : Text → CheckError
  short_salt : Bytes → CheckError
  bad_caip : CaipError → CheckError
  short_signature : CheckError
  bad_signature : SigError → CheckError
  block_full : ℕ → CheckError
  block_old : ℕ → CheckError
  short_token : CheckError
  empty_transaction : CheckError
  transaction_size : ℕ → CheckError
  bad_validator_data : ℕ → CheckError
  total_size : ℕ → CheckError
  no_signer : CheckError
  wrong_attestation_count : CheckError
  bad_attestor_data : ℕ → CheckError

pub data CheckR : Type 0 where
  pass : CheckR
  fail : CheckError → CheckR

-- A value that the code reads a property of: undefined is an exception.
abbrev pub defined {ℓ} : {A : Type ℓ} → Option A → Result Failure A
defined none = err type_error
defined (some a) = ok a

-- The next check, if this one passed.
infixl 5 ◌and_then◌
abbrev pub ◌and_then◌ : Result Failure CheckR → Result Failure CheckR → Result Failure CheckR
err e and_then next = err e
ok (fail e) and_then next = ok (fail e)
ok pass and_then next = next

-- The early return of a check that fails.
abbrev pub require : CheckError → Bool → Result Failure CheckR
require e true = ok pass
require e false = ok (fail e)

-- Both checks pass.
pub and_then_iff :
    (a b : Result Failure CheckR) → (a and_then b ≡ ok pass) ↔ ((a ≡ ok pass) × (b ≡ ok pass))
and_then_iff (err e) b = (λ h. cc, λ (h, _). cc)
and_then_iff (ok (fail e)) b = (λ h. cc, λ (h, _). cc)
and_then_iff (ok pass) b = (λ h. (refl, h), λ (_, h). h)

pub require_iff : (e : CheckError) (b : Bool) → (require e b ≡ ok pass) ↔ (b ≡ true)
require_iff e true = (λ _. refl, λ _. refl)
require_iff e false = (λ h. cc, λ h. cc)
