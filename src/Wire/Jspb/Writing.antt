-- ===== src/Wire/Jspb/Writing.antt =====
-- What the serializeBinaryToWriter of src/generated/push/block_pb.js leave out, and the fields that
-- they ask a writer for.
use push_anode.Prelude.{
  ℕ, zero, suc, ◌≡◌, refl, sym, ◌∙◌, ap, List, [], ◌∷◌, Option, none, some, Text,
}
use push_anode.Wire.Jspb.{Jspb, IsWriter, Fields, nil, field, ◌++f◌, texts, each}

-- `f !== 0`, `f.length > 0` and `f != null`: what is done then, and otherwise.
abbrev pub unless_zero {ℓ} : {X : Type ℓ} → ℕ → X → X → X
unless_zero zero present absent = absent
unless_zero (suc n) present absent = present

abbrev pub unless_empty {ℓ κ} : {A : Type ℓ} {X : Type κ} → List A → X → X → X
unless_empty [] present absent = absent
unless_empty (x ∷ xs) present absent = present

abbrev pub unless_null {ℓ κ} : {A : Type ℓ} {X : Type κ} → Option A → (A → X) → X → X
unless_null none present absent = absent
unless_null (some a) present absent = present a

pub ++f-nil : (fs : Fields) → fs ++f nil ≡ fs
++f-nil nil = refl
++f-nil (field n i fs) = ap (field n i) (++f-nil fs)

++f_assoc : (fs gs hs : Fields) → (fs ++f gs) ++f hs ≡ fs ++f (gs ++f hs)
++f_assoc nil gs hs = refl
++f_assoc (field n i fs) gs hs = ap (field n i) (++f_assoc fs gs hs)

module _ {J : Jspb} (W : IsWriter J) where
  -- From `w` to `w'` these fields are written.
  abbrev pub Writes : J.Writer → J.Writer → Fields → Type 0
  Writes w w' fs = W.written w' ≡ W.written w ++f fs

  pub then-Writes :
      (w w1 w2 : J.Writer) (fs gs : Fields)
      → Writes w w1 fs
      → Writes w1 w2 gs
      → Writes w w2 (fs ++f gs)
  then-Writes w w1 w2 fs gs first second =
      second ∙ ap (λ l. l ++f gs) first ∙ ++f_assoc (W.written w) fs gs

  pub zero-Writes :
      (v : ℕ) (w w' : J.Writer) (fs : Fields)
      → Writes w w' fs
      → Writes w (unless_zero v w' w) (unless_zero v fs nil)
  zero-Writes zero w w' fs h = sym (++f-nil (W.written w))
  zero-Writes (suc v) w w' fs h = h

  pub empty-Writes :
      {A : Type 0} (xs : List A) (w w' : J.Writer) (fs : Fields)
      → Writes w w' fs
      → Writes w (unless_empty xs w' w) (unless_empty xs fs nil)
  empty-Writes [] w w' fs h = sym (++f-nil (W.written w))
  empty-Writes (x ∷ xs) w w' fs h = h

  pub null-Writes :
      {A : Type 0} (o : Option A) (w : J.Writer) (put : A → J.Writer) (contents : A → Fields)
      → ((a : A) → Writes w (put a) (contents a))
      → Writes w (unless_null o put w) (unless_null o contents nil)
  null-Writes none w put contents h = sym (++f-nil (W.written w))
  null-Writes (some a) w put contents h = h a

  pub each-Writes :
      {A : Type 0} (xs : List A) (n : ℕ) (contents : A → Fields) (w w' : J.Writer)
      → Writes w w' (each n contents xs)
      → Writes w (unless_empty xs w' w) (each n contents xs)
  each-Writes [] n contents w w' h = sym (++f-nil (W.written w))
  each-Writes (x ∷ xs) n contents w w' h = h

  pub texts-Writes :
      (ts : List Text) (n : ℕ) (w w' : J.Writer)
      → Writes w w' (texts n ts)
      → Writes w (unless_empty ts w' w) (texts n ts)
  texts-Writes [] n w w' h = sym (++f-nil (W.written w))
  texts-Writes (t ∷ ts) n w w' h = h
