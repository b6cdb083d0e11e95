-- ===== src/Queries/Pages/Laws.antt =====
-- The pages of a list give the list.
use push_anode.Prelude.{
  ℕ, zero, suc, ◌+◌, ◌*◌, ◌/◌, ◌≤◌, ◌≡◌, refl, sym, ◌∙◌, ap, List, [], ◌∷◌, ◌++◌, take, drop,
  length, length-drop, arith,
}
use push_anode.Queries.Pages.{pages_of}

module _ {A : Type 0} where
  take-append-drop : (n : ℕ) (xs : List A) → take n xs ++ drop n xs ≡ xs
  take-append-drop zero xs = refl
  take-append-drop (suc n) [] = refl
  take-append-drop (suc n) (x ∷ xs) = ap (λ l. x ∷ l) (take-append-drop n xs)

  drop-nil : (n : ℕ) → drop {A = A} n [] ≡ []
  drop-nil zero = refl
  drop-nil (suc n) = refl

  pub drop-drop : (k m n : ℕ) (xs : List A) → k ≡ m + n → drop n (drop m xs) ≡ drop k xs
  drop-drop k zero n xs e = ap (λ i. drop i xs) (omega (arith, e))
  drop-drop k (suc m) n [] e = drop-nil n ∙ sym (drop-nil k)
  drop-drop zero (suc m) n (x ∷ xs) e = absurd (omega (arith, e))
  drop-drop (suc k) (suc m) n (x ∷ xs) e = drop-drop k m n xs (omega (arith, e))

  all_short : (xs : List A) → length xs ≤ 0 → xs ≡ []
  all_short [] h = refl
  all_short (x ∷ xs) h = absurd (omega (arith, h))

  -- Enough pages give the whole list.
  pub pages_of-all : (n size : ℕ) (xs : List A) → length xs ≤ n * size → pages_of n size xs ≡ xs
  unfolding pages_of
  pages_of-all zero size xs h = sym (all_short xs (omega (arith, h)))
  pages_of-all (suc n) size xs h =
      ap (λ l. take size xs ++ l)
        (pages_of-all n size (drop size xs) (rw (length-drop size xs) (omega (arith, h))))
      ∙ take-append-drop size xs

pub enough_pages : (total size : ℕ) → total ≤ (total + size) / suc size * suc size
enough_pages total size = omega arith
