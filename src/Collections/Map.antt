-- ===== src/Collections/Map.antt =====
-- JavaScript's `Map`: entries in insertion order, one for a key; `set` on a key that is there
-- keeps its place.
pub mod Unique
use push_anode.Prelude.{
  ◌≡◌, refl, ◌∙◌, Bool, true, false, Option, none, some, List, [], ◌∷◌, map, arith, Eq, ◌==◌,
  if◌then◌else◌,
}

abbrev pub Map {ℓ κ} : Type ℓ → Type κ → Type (ℓ ⊔ κ)
Map K V = List (K × V)

abbrev pub keys {ℓ κ} : {K : Type ℓ} {V : Type κ} → Map K V → List K
keys m = map (λ e. e.0) m

abbrev pub values {ℓ κ} : {K : Type ℓ} {V : Type κ} → Map K V → List V
values m = map (λ e. e.1) m

module _ {ℓ κ} {K : Type ℓ} {V : Type κ} ⦃e : Eq K⦄ where
  unfoldable pub get : Map K V → K → Option V
  get [] k = none
  get ((j, v) ∷ m) k = if j == k then some v else get m k

  unfoldable pub has : Map K V → K → Bool
  has [] k = false
  has ((j, v) ∷ m) k = if j == k then true else has m k

  unfoldable pub set : Map K V → K → V → Map K V
  set [] k v = (k, v) ∷ []
  set ((j, w) ∷ m) k v = if j == k then (j, v) ∷ m else (j, w) ∷ set m k v

  unfoldable pub delete : Map K V → K → Map K V
  delete [] k = []
  delete ((j, w) ∷ m) k = let rest = delete m k in if j == k then rest else (j, w) ∷ rest

  pub get-set :
      (m : Map K V) (k j : K) (v : V) → get (set m k v) j ≡ (if k == j then some v else get m j)
  unfolding get set
  get-set [] k j v = refl
  get-set ((i, w) ∷ m) k j v =
      ground (arith, e.beq_iff k j, e.beq_iff i k, e.beq_iff i j, get-set m k j v)

  pub get-delete : (m : Map K V) (k j : K) → get (delete m k) j ≡ (if k == j then none else get m j)
  unfolding get delete
  get-delete [] k j = ground arith
  get-delete ((i, w) ∷ m) k j =
      ground (arith, e.beq_iff k j, e.beq_iff i k, e.beq_iff i j, get-delete m k j)

  pub has-eq-get : (m : Map K V) (k : K) → has m k ≡ elim (get m k) [ none ↦ false | some _ ↦ true ]
  unfolding get has
  has-eq-get [] k = refl
  has-eq-get ((i, w) ∷ m) k = ground (arith, has-eq-get m k)

  pub get-set_same : (m : Map K V) (k : K) (v : V) → get (set m k v) k ≡ some v
  get-set_same m k v = ground (arith, get-set m k k v, e.beq_iff k k)

  pub missing-has : (m : Map K V) (k : K) → get m k ≡ none → has m k ≡ false
  missing-has m k gone = has-eq-get m k ∙ rw gone refl

  pub get-missing : (m : Map K V) (k : K) → has m k ≡ false → get m k ≡ none
  unfolding get has
  get-missing [] k h = refl
  get-missing ((i, w) ∷ m) k h = ground (arith, h, get-missing m k)
