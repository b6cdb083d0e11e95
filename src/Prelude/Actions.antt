-- ===== src/Prelude/Actions.antt =====
-- Methods that change an object and may throw. What was written before an exception stays
-- written, so the state comes back beside the error too.
use push_anode.Prelude.Errors.{Result, ok, err}

abbrev pub Action {ℓ κ ι} : Type ℓ → Type κ → Type ι → Type (ℓ ⊔ κ ⊔ ι)
Action E S A = S → Result E A × S

module _ {ℓ κ ι} {E : Type ℓ} {S : Type κ} {A : Type ι} where
  abbrev pub pure : A → Action E S A
  pure a s = (ok a, s)

  abbrev pub raise : E → Action E S A
  raise e s = (err e, s)

  -- What the state determines, or an exception; the state stays.
  abbrev pub reads : (S → Result E A) → Action E S A
  reads f s = (f s, s)

module _ {ℓ κ} {E : Type ℓ} {S : Type κ} where
  abbrev pub modify : (S → S) → Action E S (Unit {0})
  modify f s = (ok tt, f s)

module _ {ℓ κ ι υ} {E : Type ℓ} {S : Type κ} {A : Type ι} {B : Type υ} where
  abbrev continue : Result E A × S → (A → Action E S B) → Result E B × S
  continue (ok a, s) f = f a s
  continue (err e, s) f = (err e, s)

  infixl 5 ◌>>=◌
  abbrev pub ◌>>=◌ : Action E S A → (A → Action E S B) → Action E S B
  ◌>>=◌ m f s = continue (m s) f

infixl 5 ◌>>◌
abbrev pub ◌>>◌ {ℓ κ ι} :
    {E : Type ℓ} {S : Type κ} {B : Type ι} → Action E S (Unit {0}) → Action E S B → Action E S B
m >> n = m >>= λ _. n
