-- ===== src/Collections/Map/Unique.antt =====
-- No key stands twice in a map that `set` builds.
use push_anode.Prelude.{◌≡◌, refl, ◌∙◌, false, [], ◌∷◌, arith, Eq, ◌==◌, Bool-cases, inl, inr}
use push_anode.Collections.Map.{Map, has, set}

module _ {ℓ} {K : Type ℓ} ⦃e : Eq K⦄ where
  flip : (i k : K) → (i == k) ≡ false → (k == i) ≡ false
  flip i k ne = ground (arith, e.beq_iff i k, e.beq_iff k i)

  has-nil {κ} : {V : Type κ} (v : V) (k : K) → has {V = V} [] k ≡ false
  unfolding has
  has-nil v k = refl

module _ {ℓ κ} {K : Type ℓ} {V : Type κ} ⦃e : Eq K⦄ where
  abbrev pub HasUniqueKeys : Map K V → Type 0
  HasUniqueKeys [] = Unit
  HasUniqueKeys ((k, v) ∷ m) = (has m k ≡ false) × HasUniqueKeys m

  has-set_other : (m : Map K V) (k j : K) (v : V) → (k == j) ≡ false → has (set m k v) j ≡ has m j
  unfolding has set
  has-set_other [] k j v ne = rw ne refl
  has-set_other ((i, w) ∷ m) k j v ne = elim (Bool-cases (i == k)) [
    | inl hit ↦ rw hit refl
    | inr miss ↦ ground (arith, has-set_other m k j v ne)
  ]

  pub set-HasUniqueKeys :
      (m : Map K V) (k : K) (v : V) → HasUniqueKeys m → HasUniqueKeys (set m k v)
  unfolding set
  set-HasUniqueKeys [] k v h = (has-nil v k, tt)
  set-HasUniqueKeys ((i, w) ∷ m) k v (h, hs) = elim (Bool-cases (i == k)) [
    | inl hit ↦ rw hit (h, hs)
    | inr miss ↦ rw miss (has-set_other m k i v (flip i k miss) ∙ h, set-HasUniqueKeys m k v hs)
  ]
