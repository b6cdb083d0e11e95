-- ===== src/Validator/Attestor/Laws.antt =====
-- Which blocks an attestor accepts.
use push_anode.Prelude.{
  ℕ, suc, ◌-◌, ◌*◌, ◌≡◌, ◌≢◌, ◌↔◌, ◌≤◌, ◌<◌, refl, true, not, List, [], ◌∷◌, Option, some, none,
  Text, lit, text_eq, nat_eq, nat_beq_iff, Result, ok, err, All, arith, starts_with, length, ◌==◌,
  leb_iff, ltb_iff, all_iff-All, subst,
}
use push_anode.Collections.Set
use push_anode.Collections.Set.{Set}
use push_anode.Wire.{Transaction, TransactionObj, Block, Failure, Libraries}
use push_anode.Validator.Check.{pass, and_then_iff, require_iff}
use push_anode.Validator.Signers.{recover_signer_address}
use push_anode.Validator.Sdk.{Wallets}
use push_anode.Validator.Transactions.Laws.{has_min_size_iff, IsAcceptable, check_tx_iff}
use push_anode.Validator.Attestor.{
  Limits, age, is_fresh, has_validator_vote, check_attest_token_format, tx_size, total_tx_bytes,
  check_tx_of, check_tx_objs, check_attestation_counts, check_allowed, check_block_as_attestor,
}

module _ (lib : Libraries) (w : Wallets) where
  -- The transaction is there, is small enough, has the validator's vote and passes.
  abbrev pub IsAttestableTx : Limits → TransactionObj → Type 0
  IsAttestableTx limits t =
      (tx : Transaction) × (t.tx ≡ some tx)
      × (tx_size lib w tx ≤ limits.max_transaction_size_bytes)
      × (has_validator_vote t.validator_data ≡ true)
      × IsAcceptable lib w tx

  tx_iff :
      (limits : Limits) (i : ℕ) (t : TransactionObj) (o : Option Transaction)
      → t.tx ≡ o
      → (check_tx_of lib w limits i t o ≡ ok pass) ↔ IsAttestableTx limits t
  tx_iff limits i t none e = (λ h. cc, λ (tx, p, _, _, _). absurd (cc (e, p)))
  tx_iff limits i t (some tx) e = (
    λ h.
        let (h2, checked) = (and_then_iff _ _).0 h in
        let (size, vote) = (and_then_iff _ _).0 h2 in
        (
          tx,
          e,
          (leb_iff _ _).0 ((require_iff _ _).0 size),
          (require_iff _ _).0 vote,
          (check_tx_iff lib w tx).0 checked,
        ),
    λ (tx', p, size, vote, good).
        let same : tx' ≡ tx = cc (e, p) in
        subst (λ x. check_tx_of lib w limits i t (some x) ≡ ok pass) same
          ((and_then_iff _ _).1 (
            (and_then_iff _ _).1
                ((require_iff _ _).1 ((leb_iff _ _).1 size), (require_iff _ _).1 vote),
            (check_tx_iff lib w tx').1 good,
          )),
  )

  tx_objs_iff :
      (limits : Limits) (i : ℕ) (ts : List TransactionObj)
      → (check_tx_objs lib w limits i ts ≡ ok pass) ↔ All (IsAttestableTx limits) ts
  unfolding check_tx_objs
  tx_objs_iff limits i [] = (λ _. tt, λ _. refl)
  tx_objs_iff limits i (t ∷ ts) =
      let here = tx_iff limits i t t.tx refl in
      let rest = tx_objs_iff limits (suc i) ts in
      let both =
        and_then_iff (check_tx_of lib w limits i t t.tx) (check_tx_objs lib w limits (suc i) ts) in
      (λ h. let (a, b) = both.0 h in (here.0 a, rest.0 b), λ (a, b). both.1 (here.1 a, rest.1 b))

  pub allowed_iff :
      (validators : Set Text) (r : Result Failure Text)
      → (check_allowed lib w validators r ≡ ok pass)
        ↔ ((node_id : Text) × (r ≡ ok node_id) × (Set.has validators node_id ≡ true))
  unfolding check_allowed
  allowed_iff validators (err e) = (λ h. cc, λ (n, h, _). cc)
  allowed_iff validators (ok node_id) = (
    λ h. (node_id, refl, (require_iff _ _).0 h),
    λ (n, e, h). let same : node_id ≡ n = cc e in (require_iff _ _).1 (rw same h),
  )

  -- The conditions on a block that an attestor gets.
  pub record IsAttestable (limits : Limits) (block : Block) (validators : Set Text) : Type 0 where
    pub token : starts_with (lit "AT1") (w.utf8_decode block.attest_token) ≡ true
    pub not_full : length block.tx_obj < limits.max_transactions_per_block
    pub fresh :
        limits.attestor_max_block_age_seconds ≢ 0
        → age block.ts limits.now ≤ 1000 * limits.attestor_max_block_age_seconds
    pub token_size : 4 ≤ length block.attest_token
    pub txs : All (IsAttestableTx limits) block.tx_obj
    pub total : total_tx_bytes lib w block.tx_obj ≤ limits.max_total_transaction_size_bytes
    pub signed : 0 < length block.signers
    pub attested : All (λ t. length t.attestor_data ≡ length block.signers - 1) block.tx_obj
    pub registered :
        (node_id : Text) × (recover_signer_address lib block 0 ≡ ok node_id)
        × (Set.has validators node_id ≡ true)

  fresh_iff :
      (limits : Limits) (ts : ℕ)
      → (is_fresh limits ts ≡ true) ↔ (
          limits.attestor_max_block_age_seconds ≢ 0
          → age ts limits.now ≤ 1000 * limits.attestor_max_block_age_seconds)
  unfolding is_fresh
  fresh_iff limits ts = ground arith

  signed_iff : (n : ℕ) → (not (n == 0) ≡ true) ↔ (0 < n)
  signed_iff n = ground arith

  counts_iff :
      (count : ℕ) (ts : List TransactionObj)
      → (check_attestation_counts lib w count ts ≡ ok pass)
        ↔ All (λ t. length t.attestor_data ≡ count) ts
  unfolding check_attestation_counts
  counts_iff count ts =
      let each =
        all_iff-All (λ t. length t.attestor_data == count) (λ t. length t.attestor_data ≡ count)
          (λ t. nat_beq_iff _ _) ts in
      (λ h. each.0 ((require_iff _ _).0 h), λ h. (require_iff _ _).1 (each.1 h))

  -- An attestor accepts a block exactly when its token starts with AT1 and has at least 4 bytes, it
  -- has fewer transactions than the limit, its time is within the limit of the present, before it
  -- or after it, if there is such a limit, each transaction is there, is small enough, has the vote
  -- of the validator and passes on its own, the sizes together are within the limit, there is a
  -- signer, each transaction has an attestation for each further signer, and the first signature is
  -- of a registered node.
  pub check_block_as_attestor_iff :
      (limits : Limits) (block : Block) (validators : Set Text)
      → (check_block_as_attestor lib w limits block validators ≡ ok pass)
        ↔ IsAttestable limits block validators
  unfolding check_block_as_attestor check_attest_token_format
  check_block_as_attestor_iff limits block validators = (
    λ h.
        let (h8, allowed) = (and_then_iff _ _).0 h in
        let (h7, counts) = (and_then_iff _ _).0 h8 in
        let (h6, some_signer) = (and_then_iff _ _).0 h7 in
        let (h5, sizes) = (and_then_iff _ _).0 h6 in
        let (h4, checked) = (and_then_iff _ _).0 h5 in
        let (h3, long) = (and_then_iff _ _).0 h4 in
        let (h2, in_time) = (and_then_iff _ _).0 h3 in
        let (prefix, few) = (and_then_iff _ _).0 h2 in
        record {
          token = (require_iff _ _).0 prefix;
          not_full = (ltb_iff _ _).0 ((require_iff _ _).0 few);
          fresh = (fresh_iff limits block.ts).0 ((require_iff _ _).0 in_time);
          token_size = (has_min_size_iff block.attest_token 4).0 ((require_iff _ _).0 long);
          txs = (tx_objs_iff limits 0 block.tx_obj).0 checked;
          total = (leb_iff _ _).0 ((require_iff _ _).0 sizes);
          signed = (signed_iff _).0 ((require_iff _ _).0 some_signer);
          attested = (counts_iff _ block.tx_obj).0 counts;
          registered = (allowed_iff validators _).0 allowed;
        },
    λ v. (and_then_iff _ _).1 (
      (and_then_iff _ _).1 (
        (and_then_iff _ _).1 (
          (and_then_iff _ _).1 (
            (and_then_iff _ _).1 (
              (and_then_iff _ _).1 (
                (and_then_iff _ _).1 (
                  (and_then_iff _ _).1 (
                    (require_iff _ _).1 v.token,
                    (require_iff _ _).1 ((ltb_iff _ _).1 v.not_full),
                  ),
                  (require_iff _ _).1 ((fresh_iff limits block.ts).1 v.fresh),
                ),
                (require_iff _ _).1 ((has_min_size_iff block.attest_token 4).1 v.token_size),
              ),
              (tx_objs_iff limits 0 block.tx_obj).1 v.txs,
            ),
            (require_iff _ _).1 ((leb_iff _ _).1 v.total),
          ),
          (require_iff _ _).1 ((signed_iff _).1 v.signed),
        ),
        (counts_iff _ block.tx_obj).1 v.attested,
      ),
      (allowed_iff validators _).1 v.registered,
    ),
  )
