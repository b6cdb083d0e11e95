-- ===== src/Validator/Shards/Laws.antt =====
-- The bounds and the members of the set of shards.
use push_anode.Prelude.{
  ℕ, zero, suc, ◌+◌, ◌%◌, ◌≡◌, ◌<◌, ◌≤◌, inl, inr, true, List, [], ◌∷◌, Option, none, some, Text,
  lit, text_eq, nat_eq, Result, ok, err, >>=-eq-ok, arith, ◌==◌, ltb, leb, guard, get_elem?, length,
  Bool-cases, subst,
}
use native.Mathlib.Nat.{mod-lt}
use push_anode.Collections.Set
use push_anode.Collections.Set.{Set}
use push_anode.Util.Caip.{CaipAddr, CaipError, strip_0x, parse_caip_address}
use push_anode.Wire.{Transaction, TransactionObj, Block, thrown, Libraries}
use push_anode.Validator.Check.{defined}
use push_anode.Validator.Sdk.{Wallets}
use push_anode.Validator.Shards.{
  shard_of, shard_of_caip, calculate_affected_shard, add_range, add_some, add_wallets,
  calculate_affected_shards_tx, add_txs, calculate_affected_shards,
}

-- Every member is a shard.
unfoldable pub IsBelow : ℕ → Set ℕ → Type 0
IsBelow n shards = (s : ℕ) → Set.has shards s ≡ true → s < n

module _ (lib : Libraries) (w : Wallets) (shard_count : ℕ) where
  shard_of_lt :
      (addr : Text) (s : ℕ) → shard_of lib w addr shard_count ≡ ok (some s) → s < shard_count
  unfolding shard_of
  shard_of_lt addr s e =
      let (id, found, e1) =
        >>=-eq-ok (defined (get_elem? (lib.sha256 (w.utf8_encode (strip_0x addr))) 0)) _ e in
      let (u, small, e2) = >>=-eq-ok (guard (leb id 255) (thrown (lit "Assertion failed"))) _ e1 in
      let (v, some_shard, e3) =
        >>=-eq-ok (guard (leb 1 shard_count) (thrown (lit "Assertion failed"))) _ e2 in
      let same : id % shard_count ≡ s = cc e3 in
      rw (← same) (mod-lt id (ground (arith, some_shard)))

  shard_of_caip_lt :
      (r : Result CaipError CaipAddr) (s : ℕ)
      → shard_of_caip lib w r shard_count ≡ ok (some s)
      → s < shard_count
  shard_of_caip_lt (err x) s e = absurd (cc e)
  shard_of_caip_lt (ok caip) s e = elim (Bool-cases (ltb 4 (length caip.addr))) [
    | inl long ↦ shard_of_lt caip.addr s (rw long at e)
    | inr short ↦ absurd (cc (rw short at e))
  ]

  shard_lt :
      (wallet : Text) (s : ℕ)
      → calculate_affected_shard lib w wallet shard_count ≡ ok (some s)
      → s < shard_count
  unfolding calculate_affected_shard shard_of
  shard_lt [] s e = absurd (cc e)
  shard_lt (c ∷ wallet) s e = shard_of_caip_lt (parse_caip_address (c ∷ wallet)) s e

  IsBelow-add :
      (shards : Set ℕ) (s : ℕ)
      → s < shard_count
      → IsBelow shard_count shards
      → IsBelow shard_count (Set.add shards s)
  unfolding IsBelow
  IsBelow-add shards s lt below = λ t h. ground (arith, Set.has-add shards s t, below t)

  IsBelow-add_range :
      (left i : ℕ) (shards : Set ℕ)
      → i + left ≤ shard_count
      → IsBelow shard_count shards
      → IsBelow shard_count (add_range lib w left i shards)
  unfolding add_range
  IsBelow-add_range zero i shards le below = below
  IsBelow-add_range (suc left) i shards le below =
      IsBelow-add_range left (suc i) (Set.add shards i) (omega (arith, le))
        (IsBelow-add shards i (omega (arith, le)) below)

  IsBelow-add_some :
      (shards : Set ℕ) (found : Option ℕ) (wallet : Text)
      → calculate_affected_shard lib w wallet shard_count ≡ ok found
      → IsBelow shard_count shards
      → IsBelow shard_count (add_some lib w shards found)
  IsBelow-add_some shards none wallet e below = below
  IsBelow-add_some shards (some s) wallet e below = IsBelow-add shards s (shard_lt wallet s e) below

  IsBelow-add_wallets :
      (wallets : List Text) (shards : Set ℕ) {result : Set ℕ}
      → IsBelow shard_count shards
      → add_wallets lib w wallets shard_count shards ≡ ok result
      → IsBelow shard_count result
  unfolding add_wallets
  IsBelow-add_wallets [] shards {result} below e = subst (IsBelow shard_count) (cc e) below
  IsBelow-add_wallets (wallet ∷ wallets) shards {result} below e =
      let (found, p, rest) = >>=-eq-ok (calculate_affected_shard lib w wallet shard_count) _ e in
      IsBelow-add_wallets wallets (add_some lib w shards found)
        (IsBelow-add_some shards found wallet p below) rest

  IsBelow-tx :
      (tx : Transaction) (shards : Set ℕ) {result : Set ℕ}
      → IsBelow shard_count shards
      → calculate_affected_shards_tx lib w tx shard_count shards ≡ ok result
      → IsBelow shard_count result
  unfolding calculate_affected_shards_tx
  IsBelow-tx tx shards {result} below e = elim (Bool-cases (tx.category == lit "INIT_DID")) [
    | inl hit ↦
        subst (IsBelow shard_count) (cc (rw hit at e))
          (IsBelow-add_range shard_count 0 shards (omega arith) below)
    | inr miss ↦ IsBelow-add_wallets (tx.sender ∷ tx.recipients) shards below (rw miss at e)
  ]

  IsBelow-add_txs :
      (ts : List TransactionObj) (shards : Set ℕ) {result : Set ℕ}
      → IsBelow shard_count shards
      → add_txs lib w ts shard_count shards ≡ ok result
      → IsBelow shard_count result
  unfolding add_txs
  IsBelow-add_txs [] shards {result} below e = subst (IsBelow shard_count) (cc e) below
  IsBelow-add_txs (t ∷ ts) shards {result} below e =
      let (tx, p, e1) = >>=-eq-ok (defined t.tx) _ e in
      let (more, q, rest) =
        >>=-eq-ok (calculate_affected_shards_tx lib w tx shard_count shards) _ e1 in
      IsBelow-add_txs ts more (IsBelow-tx tx shards below q) rest

  -- Every shard that calculateAffectedShards answers is below the number of shards.
  pub calculate_affected_shards-IsBelow :
      (block : Block) (shards : Set ℕ)
      → calculate_affected_shards lib w block shard_count ≡ ok shards
      → IsBelow shard_count shards
  unfolding calculate_affected_shards Set.has IsBelow
  calculate_affected_shards-IsBelow block shards e = IsBelow-add_txs block.tx_obj [] (λ s h. cc h) e
