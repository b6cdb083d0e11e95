-- ===== src/Queries/Order.antt =====
-- Orders of rows by their time, and the sorted list as the reference for them.
pub mod Laws
use push_anode.Prelude.{
  ℕ, ◌≤◌, ◌≢◌, Bool, List, [], ◌∷◌, Text, lit, text_eq, ◌==◌, leb, All, if◌then◌else◌,
}

-- 'asc' and 'desc'
pub data Order : Type 0 where
  asc : Order
  desc : Order

-- direction === 'ASC' ? 'asc' : 'desc'
unfoldable pub order_by_direction : Text → Order
order_by_direction direction = if direction == lit "ASC" then asc else desc

-- The test of `ts: { [asc ? 'gte' : 'lte']: startTime }`.
unfoldable pub from_start : Order → ℕ → ℕ → Bool
from_start asc start_time ts = leb start_time ts
from_start desc start_time ts = leb ts start_time

abbrev pub precedes : Order → ℕ → ℕ → Bool
precedes asc a b = leb a b
precedes desc a b = leb b a

module _ {A : Type 0} (ts : A → ℕ) where
  abbrev pub InOrder : Order → A → A → Type 0
  InOrder asc a b = ts a ≤ ts b
  InOrder desc a b = ts b ≤ ts a

  abbrev pub IsSorted : Order → List A → Type 0
  IsSorted order [] = Unit
  IsSorted order (x ∷ xs) = All (InOrder order x) xs × IsSorted order xs

  -- No two rows have the same time.
  abbrev pub HasNoTies : List A → Type 0
  HasNoTies [] = Unit
  HasNoTies (x ∷ xs) = All (λ y. ts x ≢ ts y) xs × HasNoTies xs

  unfoldable pub insert : Order → A → List A → List A
  insert order x [] = x ∷ []
  insert order x (y ∷ ys) =
      let rest = insert order x ys in if precedes order (ts x) (ts y) then x ∷ y ∷ ys else y ∷ rest

  unfoldable pub sort : Order → List A → List A
  sort order [] = []
  sort order (x ∷ xs) = insert order x (sort order xs)
