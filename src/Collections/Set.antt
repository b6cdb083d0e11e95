-- ===== src/Collections/Set.antt =====
-- JavaScript's `Set`: members in insertion order, each once.
use push_anode.Prelude.{◌≡◌, refl, Bool, true, false, List, [], ◌∷◌, arith, Eq, ◌==◌, if◌then◌else◌}

abbrev pub Set {ℓ} : Type ℓ → Type ℓ
Set A = List A

module _ {ℓ} {A : Type ℓ} ⦃e : Eq A⦄ where
  unfoldable pub has : Set A → A → Bool
  has [] a = false
  has (x ∷ s) a = if x == a then true else has s a

  unfoldable pub add : Set A → A → Set A
  add [] a = a ∷ []
  add (x ∷ s) a = if x == a then x ∷ s else x ∷ add s a

  -- new Set(items), added to a set that is there
  unfoldable pub add_all : Set A → List A → Set A
  unfolding add
  add_all s [] = s
  add_all s (x ∷ xs) = add_all (add s x) xs

  pub has-add : (s : Set A) (a b : A) → has (add s a) b ≡ (if a == b then true else has s b)
  unfolding has add
  has-add [] a b = refl
  has-add (x ∷ s) a b = ground (arith, e.beq_iff a b, e.beq_iff x a, e.beq_iff x b, has-add s a b)
