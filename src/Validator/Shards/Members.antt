-- ===== src/Validator/Shards/Members.antt =====
-- Which shards are in the answer.
use push_anode.Prelude.{
  ℕ, zero, suc, ◌+◌, ◌≡◌, ◌<◌, ◌≤◌, ◌↔◌, ◌⊎◌, inl, inr, sym, true, List, [], ◌∷◌, Option, none,
  some, Text, lit, text_eq, text_beq_iff, nat_eq, ok, >>=-eq-ok, arith, ◌==◌, if◌then◌else◌,
  Bool-cases, subst,
}
use push_anode.Collections.Set
use push_anode.Collections.Set.{Set}
use push_anode.Wire.{Transaction, Libraries}
use push_anode.Validator.Sdk.{Wallets}
use push_anode.Validator.Shards.{
  calculate_affected_shard, add_range, add_some, add_wallets, calculate_affected_shards_tx,
}

module _ (lib : Libraries) (w : Wallets) where
  add_range_iff :
      (left i : ℕ) (shards : Set ℕ) (s : ℕ)
      → (Set.has (add_range lib w left i shards) s ≡ true)
        ↔ ((Set.has shards s ≡ true) ⊎ ((i ≤ s) × (s < i + left)))
  unfolding add_range
  add_range_iff zero i shards s =
      (λ h. inl h, λ r. elim r [ inl h ↦ h | inr (a, b) ↦ absurd (omega (arith, a, b)) ])
  add_range_iff (suc left) i shards s =
      ground (arith, add_range_iff left (suc i) (Set.add shards i) s, Set.has-add shards i s)

  -- One of these wallets has the shard.
  abbrev pub HaveShard : ℕ → List Text → ℕ → Type 0
  HaveShard shard_count wallets s =
      (wallet : Text) × (Set.has wallets wallet ≡ true)
      × (calculate_affected_shard lib w wallet shard_count ≡ ok (some s))

  add_some_iff :
      (shards : Set ℕ) (found : Option ℕ) (s : ℕ)
      → (Set.has (add_some lib w shards found) s ≡ true)
        ↔ ((Set.has shards s ≡ true) ⊎ (found ≡ some s))
  add_some_iff shards none s = (λ h. inl h, λ r. elim r [ inl h ↦ h | inr e ↦ absurd (cc e) ])
  add_some_iff shards (some n) s = ground (arith, Set.has-add shards n s)

  module _ (shard_count : ℕ) (wallet : Text) (wallets : List Text) (s : ℕ) where
    here :
        calculate_affected_shard lib w wallet shard_count ≡ ok (some s)
        → HaveShard shard_count (wallet ∷ wallets) s
    unfolding Set.has
    here e = (wallet, ground (arith, text_beq_iff wallet wallet), e)

    later : HaveShard shard_count wallets s → HaveShard shard_count (wallet ∷ wallets) s
    unfolding Set.has
    later (other, h, e) = (other, ground (arith, h), e)

    split_shard :
        (found : Option ℕ)
        → calculate_affected_shard lib w wallet shard_count ≡ ok found
        → HaveShard shard_count (wallet ∷ wallets) s
        → (found ≡ some s) ⊎ HaveShard shard_count wallets s
    unfolding Set.has
    split_shard found p (other, h, e) = elim (Bool-cases (wallet == other)) [
      | inl hit ↦
          let same : wallet ≡ other = (text_beq_iff wallet other).0 hit in
          inl (
            cc (
              p,
              subst (λ x. calculate_affected_shard lib w x shard_count ≡ ok (some s)) (sym same) e,
            ))
      | inr miss ↦ inr (other, rw miss at h, e)
    ]

  add_wallets_iff :
      (shard_count : ℕ) (wallets : List Text) (shards : Set ℕ) {result : Set ℕ} (s : ℕ)
      → add_wallets lib w wallets shard_count shards ≡ ok result
      → (Set.has result s ≡ true) ↔ ((Set.has shards s ≡ true) ⊎ HaveShard shard_count wallets s)
  unfolding add_wallets Set.has
  add_wallets_iff shard_count [] shards {result} s e =
      let same : shards ≡ result = cc e in
      (λ h. inl (rw same h), λ r. elim r [ inl h ↦ rw (← same) h | inr (x, h, p) ↦ absurd (cc h) ])
  add_wallets_iff shard_count (wallet ∷ wallets) shards {result} s e =
      let (found, p, rest) = >>=-eq-ok (calculate_affected_shard lib w wallet shard_count) _ e in
      let more = add_wallets_iff shard_count wallets (add_some lib w shards found) s rest in
      let added = add_some_iff shards found s in
      (
        λ h. elim (more.0 h) [
          | inl g ↦ elim (added.0 g) [
            | inl old ↦ inl old
            | inr new ↦ inr (here shard_count wallet wallets s (rw (← new) p))
          ]
          | inr left ↦ inr (later shard_count wallet wallets s left)
        ],
        λ r. elim r [
          | inl old ↦ more.1 (inl (added.1 (inl old)))
          | inr have ↦ elim (split_shard shard_count wallet wallets s found p have) [
            | inl new ↦ more.1 (inl (added.1 (inr new)))
            | inr left ↦ more.1 (inr left)
          ]
        ],
      )

  -- If it answers, calculateAffectedShardsTx adds every shard below the number of shards for an
  -- INIT_DID, and for another transaction just the shards of its sender and its recipients.
  pub calculate_affected_shards_tx_iff :
      (tx : Transaction) (shard_count : ℕ) (shards result : Set ℕ) (s : ℕ)
      → calculate_affected_shards_tx lib w tx shard_count shards ≡ ok result
      → (Set.has result s ≡ true) ↔ (
          (Set.has shards s ≡ true)
          ⊎ (if tx.category == lit "INIT_DID"
              then s < shard_count
              else HaveShard shard_count (tx.sender ∷ tx.recipients) s))
  unfolding calculate_affected_shards_tx
  calculate_affected_shards_tx_iff tx shard_count shards result s e =
      elim (Bool-cases (tx.category == lit "INIT_DID")) [
        | inl hit ↦
            let same : add_range lib w shard_count 0 shards ≡ result = cc (rw hit at e) in
            rw (hit, ← same) (ground (arith, add_range_iff shard_count 0 shards s))
        | inr miss ↦
            rw miss
              (add_wallets_iff shard_count (tx.sender ∷ tx.recipients) shards s (rw miss at e))
      ]
