-- ===== src/Validator/Transactions/Laws.antt =====
-- Which transactions pass.
use push_anode.Prelude.{
  ℕ, ◌≡◌, ◌≢◌, ◌↔◌, ◌≤◌, refl, true, List, [], ◌∷◌, Text, lit, text_eq, text_beq_iff, nat_eq,
  nat_beq_iff, Result, ok, err, All, arith, starts_with, length, ◌==◌, Bool-cases, inl, inr,
}
use push_anode.Util.Hex.{Bytes}
use push_anode.Util.Caip.{CaipAddr, is_full_caip_address}
use push_anode.Util.Caip.Laws.{IsFull, print_caip, is_full_caip_address_iff}
use push_anode.Wire.{Transaction, InitDid, Failure, Libraries}
use push_anode.Validator.Check.{
  CheckError, recipient_not_full, pass, fail, require, and_then_iff, require_iff,
}
use push_anode.Validator.Sdk.{Wallets}
use push_anode.Validator.Transactions.{
  has_min_size, check_validator_token_format, check_tx_signature, check_tx_payload,
  check_recipients, check_tx, read_only,
}

-- Some address in full form prints as this text.
abbrev pub IsFullText : Text → Type 0
IsFullText s = (c : CaipAddr) × IsFull c × (print_caip c ≡ s)

pub has_min_size_iff : (array : Bytes) (n : ℕ) → (has_min_size array n ≡ true) ↔ (n ≤ length array)
unfolding has_min_size
has_min_size_iff array n = ground arith

module _ (lib : Libraries) (w : Wallets) where
  check_recipients_iff :
      (recipients : List Text)
      → (check_recipients lib w recipients ≡ ok pass) ↔ All IsFullText recipients
  unfolding check_recipients
  check_recipients_iff [] = (λ _. tt, λ _. refl)
  check_recipients_iff (r ∷ rs) =
      let full = is_full_caip_address_iff r in
      let here = require_iff (recipient_not_full r) (is_full_caip_address r) in
      let both =
        and_then_iff (require (recipient_not_full r) (is_full_caip_address r))
          (check_recipients lib w rs) in
      let rest = check_recipients_iff rs in
      (
        λ h. let (a, b) = both.0 h in (full.0 (here.0 a), rest.0 b),
        λ (a, b). both.1 (here.1 (full.1 a), rest.1 b),
      )

  abbrev IsReadable : Transaction → Type 0
  IsReadable tx =
      (tx.category ≡ lit "INIT_DID") → (i : InitDid) × (w.deserialize_init_did tx.payload ≡ ok i)

  read_iff :
      (r : Result Failure InitDid) → (read_only lib w r ≡ ok pass) ↔ ((i : InitDid) × (r ≡ ok i))
  read_iff (ok i) = (λ _. (i, refl), λ _. refl)
  read_iff (err e) = (λ h. cc, λ (i, h). cc)

  payload_iff : (tx : Transaction) → (check_tx_payload lib w tx ≡ ok pass) ↔ IsReadable tx
  unfolding check_tx_payload
  payload_iff tx = elim (Bool-cases (tx.category == lit "INIT_DID")) [
    | inl hit ↦ (
      λ h _. (read_iff _).0 (rw hit at h),
      λ r. rw hit ((read_iff _).1 (r ((text_beq_iff _ _).0 hit))),
    )
    | inr miss ↦ (λ _ is. absurd (cc (miss, (text_beq_iff _ _).1 is)), λ _. rw miss refl)
  ]

  -- The conditions on a transaction.
  pub record IsAcceptable (tx : Transaction) : Type 0 where
    pub token : starts_with (lit "VT1") (w.utf8_decode tx.api_token) ≡ true
    pub no_value : tx.type ≡ 0
    pub sender_full : IsFullText tx.sender
    pub recipients_full : All IsFullText tx.recipients
    pub salted : 4 ≤ length tx.salt
    pub readable : IsReadable tx
    pub signed : check_tx_signature lib w tx ≡ ok pass

  -- A transaction passes exactly when its token starts with VT1, its type is 0, its sender and every
  -- recipient are addresses in full form, its salt has 4 bytes, its data can be read if it is an
  -- INIT_DID, and its signature passes.
  pub check_tx_iff : (tx : Transaction) → (check_tx lib w tx ≡ ok pass) ↔ IsAcceptable tx
  unfolding check_tx check_validator_token_format
  check_tx_iff tx = (
    λ h.
        let (h6, sig) = (and_then_iff _ _).0 h in
        let (h5, read) = (and_then_iff _ _).0 h6 in
        let (h4, salt) = (and_then_iff _ _).0 h5 in
        let (h3, recipients) = (and_then_iff _ _).0 h4 in
        let (h2, sender) = (and_then_iff _ _).0 h3 in
        let (token, type) = (and_then_iff _ _).0 h2 in
        record {
          token = (require_iff _ _).0 token;
          no_value = (nat_beq_iff _ _).0 ((require_iff _ _).0 type);
          sender_full = (is_full_caip_address_iff tx.sender).0 ((require_iff _ _).0 sender);
          recipients_full = (check_recipients_iff tx.recipients).0 recipients;
          salted = (has_min_size_iff tx.salt 4).0 ((require_iff _ _).0 salt);
          readable = (payload_iff tx).0 read;
          signed = sig;
        },
    λ v. (and_then_iff _ _).1 (
      (and_then_iff _ _).1 (
        (and_then_iff _ _).1 (
          (and_then_iff _ _).1 (
            (and_then_iff _ _).1 (
              (and_then_iff _ _).1 (
                (require_iff _ _).1 v.token,
                (require_iff _ _).1 ((nat_beq_iff _ _).1 v.no_value),
              ),
              (require_iff _ _).1 ((is_full_caip_address_iff tx.sender).1 v.sender_full),
            ),
            (check_recipients_iff tx.recipients).1 v.recipients_full,
          ),
          (require_iff _ _).1 ((has_min_size_iff tx.salt 4).1 v.salted),
        ),
        (payload_iff tx).1 v.readable,
      ),
      v.signed,
    ),
  )

  -- The check of the data never refuses a transaction: it passes, or the data cannot be read.
  pub check_tx_payload_never_fails :
      (tx : Transaction) (e : CheckError) → check_tx_payload lib w tx ≢ ok (fail e)
  unfolding check_tx_payload
  check_tx_payload_never_fails tx e h = elim (Bool-cases (tx.category == lit "INIT_DID")) [
    | inl hit ↦ never (w.deserialize_init_did tx.payload) (rw hit at h)
    | inr miss ↦ absurd (cc (rw miss at h))
  ]
    where
      never : (r : Result Failure InitDid) → read_only lib w r ≢ ok (fail e)
      never (ok i) h = cc
      never (err x) h = cc
