-- ===== src/Queries/Order/Laws.antt =====
-- A list in order is the sorted list, if no two times are the same.
use push_anode.Prelude.{
  ℕ, suc, length, ◌≡◌, ◌≢◌, refl, sym, ◌∙◌, ap, subst, List, [], ◌∷◌, All, arith,
}
use mathlib.Core.List.Permᴰ
use mathlib.Core.List.{Permᴰ}
use push_anode.Queries.Order.{Order, asc, desc, InOrder, IsSorted, HasNoTies, insert, sort}

module _ {A : Type 0} (P : A → Type 0) where
  pub All-perm : {xs ys : List A} → Permᴰ xs ys → All P xs → All P ys
  All-perm Permᴰ.nil h = h
  All-perm (Permᴰ.cons e p) (h, hs) = (subst P e h, All-perm p hs)
  All-perm (Permᴰ.swap e f) (h, (k, hs)) = (subst P f k, (subst P e h, hs))
  All-perm (Permᴰ.trans p q) h = All-perm q (All-perm p h)

module _ {A : Type 0} (ts : A → ℕ) where
  insert_comm :
      (order : Order) (a b : A) (xs : List A)
      → ts a ≢ ts b
      → insert ts order a (insert ts order b xs) ≡ insert ts order b (insert ts order a xs)
  unfolding insert
  insert_comm asc a b [] ne = ground (arith, ne)
  insert_comm desc a b [] ne = ground (arith, ne)
  insert_comm asc a b (x ∷ xs) ne = ground (arith, ne, insert_comm asc a b xs ne)
  insert_comm desc a b (x ∷ xs) ne = ground (arith, ne, insert_comm desc a b xs ne)

  length-insert :
      (order : Order) (x : A) (xs : List A) → length (insert ts order x xs) ≡ suc (length xs)
  unfolding insert
  length-insert order x [] = refl
  length-insert asc x (y ∷ ys) = ground (arith, length-insert asc x ys)
  length-insert desc x (y ∷ ys) = ground (arith, length-insert desc x ys)

  pub length-sort : (order : Order) (xs : List A) → length (sort ts order xs) ≡ length xs
  unfolding sort
  length-sort order [] = refl
  length-sort order (x ∷ xs) =
      length-insert order x (sort ts order xs) ∙ ap suc (length-sort order xs)

  insert_first :
      (order : Order) (x : A) (xs : List A)
      → All (InOrder ts order x) xs
      → insert ts order x xs ≡ x ∷ xs
  unfolding insert
  insert_first order x [] h = refl
  insert_first asc x (y ∷ ys) (h, hs) = ground arith
  insert_first desc x (y ∷ ys) (h, hs) = ground arith

  pub sort-IsSorted : (order : Order) (xs : List A) → IsSorted ts order xs → sort ts order xs ≡ xs
  unfolding sort
  sort-IsSorted order [] h = refl
  sort-IsSorted order (x ∷ xs) (h, hs) =
      ap (insert ts order x) (sort-IsSorted order xs hs) ∙ insert_first order x xs h

  HasNoTies-perm : {xs ys : List A} → Permᴰ xs ys → HasNoTies ts xs → HasNoTies ts ys
  HasNoTies-perm Permᴰ.nil h = h
  HasNoTies-perm (Permᴰ.cons {a = a} {b = b} {l₂ = ys} e p) (h, hs) = (
    subst (λ c. All (λ y. ts c ≢ ts y) ys) e (All-perm (λ y. ts a ≢ ts y) p h),
    HasNoTies-perm p hs,
  )
  HasNoTies-perm (Permᴰ.swap {l = l} e f) ((ne, h), (k, hs)) = (
    ((λ q. ne (ap ts e ∙ sym q ∙ sym (ap ts f))), subst (λ c. All (λ y. ts c ≢ ts y) l) f k),
    (subst (λ c. All (λ y. ts c ≢ ts y) l) e h, hs),
  )
  HasNoTies-perm (Permᴰ.trans p q) h = HasNoTies-perm q (HasNoTies-perm p h)

  sort-perm :
      (order : Order) {xs ys : List A}
      → Permᴰ xs ys
      → HasNoTies ts xs
      → sort ts order xs ≡ sort ts order ys
  unfolding sort
  sort-perm order Permᴰ.nil h = refl
  sort-perm order (Permᴰ.cons {b = b} {l₁ = xs} e p) (h, hs) =
      ap (λ c. insert ts order c (sort ts order xs)) e
      ∙ ap (insert ts order b) (sort-perm order p hs)
  sort-perm order (Permᴰ.swap {a = a} {b = b} {a' = c'} {l = l} e f) ((ne, h), (k, hs)) =
      insert_comm order a b (sort ts order l) ne
      ∙ ap (λ c. insert ts order c (insert ts order a (sort ts order l))) f
      ∙ ap (λ c. insert ts order c' (insert ts order c (sort ts order l))) e
  sort-perm order (Permᴰ.trans p q) h = sort-perm order p h ∙ sort-perm order q (HasNoTies-perm p h)

  -- The rows in an order are determined by that order, where no two times are the same.
  pub sort-of_perm :
      (order : Order) {xs ys : List A}
      → Permᴰ ys xs
      → HasNoTies ts xs
      → IsSorted ts order ys
      → ys ≡ sort ts order xs
  sort-of_perm order {xs} {ys} p h sorted =
      sym (sort-IsSorted order ys sorted) ∙ sort-perm order p (HasNoTies-perm (Permᴰ.symm p) h)
