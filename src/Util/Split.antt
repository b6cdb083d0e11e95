-- ===== src/Util/Split.antt =====
-- `split` of JavaScript strings at a one-character separator, and its inverse.
use push_anode.Prelude.{
  ℕ, ◌≡◌, refl, ap, ◌≢◌, List, [], ◌∷◌, ◌++◌, Text, ◌==◌, nat_eq, All, arith, if◌then◌else◌,
  Bool-cases, inl, inr, nat_beq_iff,
}

abbrev push_head : ℕ → List Text → List Text
push_head c [] = (c ∷ []) ∷ []
push_head c (part ∷ parts) = (c ∷ part) ∷ parts

-- s.split(sep)
unfoldable pub split : ℕ → Text → List Text
split sep [] = [] ∷ []
split sep (c ∷ s) = let rest = split sep s in if c == sep then [] ∷ rest else push_head c rest

-- parts.join(sep)
unfoldable pub join : ℕ → List Text → Text
join sep [] = []
join sep (part ∷ []) = part
join sep (part ∷ next ∷ parts) = part ++ (sep ∷ join sep (next ∷ parts))

abbrev pub Lacks : ℕ → Text → Type 0
Lacks sep s = All (λ c. c ≢ sep) s

module _ (sep : ℕ) where
  abbrev IsSplit : Text → List Text → Type 0
  IsSplit s [] = ⊥
  IsSplit s (part ∷ parts) = (join sep (part ∷ parts) ≡ s) × All (Lacks sep) (part ∷ parts)

  IsSplit-push_head :
      (c : ℕ) (s : Text) (parts : List Text)
      → c ≢ sep
      → IsSplit s parts
      → IsSplit (c ∷ s) (push_head c parts)
  unfolding join
  IsSplit-push_head c s [] ne h = absurd h
  IsSplit-push_head c s (part ∷ []) ne (joined, lack) = (ap (◌∷◌ c) joined, ((ne, lack.0), tt))
  IsSplit-push_head c s (part ∷ next ∷ parts) ne (joined, lack) =
      (ap (◌∷◌ c) joined, ((ne, lack.0), lack.1))

  IsSplit-sep : (s : Text) (parts : List Text) → IsSplit s parts → IsSplit (sep ∷ s) ([] ∷ parts)
  unfolding join
  IsSplit-sep s [] h = absurd h
  IsSplit-sep s (part ∷ parts) (joined, lack) = (ap (◌∷◌ sep) joined, (tt, lack))

  IsSplit-split : (s : Text) → IsSplit s (split sep s)
  unfolding split
  IsSplit-split [] = (unfold join in refl, (tt, tt))
  IsSplit-split (c ∷ s) = elim (Bool-cases (c == sep)) [
    | inl e ↦ rw (e, (nat_beq_iff c sep).0 e) (IsSplit-sep s (split sep s) (IsSplit-split s))
    | inr e ↦ rw e (
        IsSplit-push_head c s (split sep s) (λ h. cc (e, (nat_beq_iff c sep).1 h))
          (IsSplit-split s))
  ]

  IsSplit-parts :
      (s : Text) (parts : List Text)
      → IsSplit s parts
      → (join sep parts ≡ s) × All (Lacks sep) parts
  IsSplit-parts s [] h = absurd h
  IsSplit-parts s (part ∷ parts) h = h

  -- Joining undoes splitting.
  pub join-split : (s : Text) → join sep (split sep s) ≡ s
  join-split s = (IsSplit-parts s (split sep s) (IsSplit-split s)).0

  pub split-Lacks : (s : Text) → All (Lacks sep) (split sep s)
  split-Lacks s = (IsSplit-parts s (split sep s) (IsSplit-split s)).1

  split_last : (part : Text) → Lacks sep part → split sep part ≡ part ∷ []
  unfolding split
  split_last [] h = refl
  split_last (c ∷ part) (ne, h) = ground (arith, split_last part h)

  split_first :
      (part s : Text) → Lacks sep part → split sep (part ++ (sep ∷ s)) ≡ part ∷ split sep s
  unfolding split
  split_first [] s h = ground arith
  split_first (c ∷ part) s (ne, h) = ground (arith, split_first part s h)

  -- Splitting undoes joining, if no part holds the separator.
  pub split-join :
      (part : Text) (parts : List Text)
      → All (Lacks sep) (part ∷ parts)
      → split sep (join sep (part ∷ parts)) ≡ part ∷ parts
  unfolding join
  split-join part [] (h, _) = split_last part h
  split-join part (next ∷ parts) (h, hs) =
      rw (split_first part (join sep (next ∷ parts)) h, split-join next parts hs)
