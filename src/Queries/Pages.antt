-- ===== src/Queries/Pages.antt =====
-- Numbered pages of a list, as the queries of blocks and of transactions compute them.
pub mod Laws
use push_anode.Prelude.{
  ℕ, zero, suc, ◌+◌, ◌-◌, ◌*◌, ◌/◌, List, [], ◌∷◌, ◌++◌, Option, none, some, take, drop,
}
use push_anode.Queries.Reads.{ℤ, pos, negsuc}

abbrev minus : ℕ → ℤ
minus zero = pos 0
minus (suc n) = negsuc n

-- (page - 1) * pageSize
unfoldable pub skip_of : ℕ → ℕ → ℤ
skip_of zero page_size = minus page_size
skip_of (suc before) page_size = pos (before * page_size)

-- Math.ceil(total / pageSize); none where the quotient is not a finite number
unfoldable pub total_pages : ℕ → ℕ → Option ℕ
total_pages total zero = none
total_pages total (suc size) = some ((total + size) / suc size)

-- All pages in their order.
unfoldable pub pages_of : {A : Type 0} → ℕ → ℕ → List A → List A
pages_of zero size xs = []
pages_of (suc n) size xs = take size xs ++ pages_of n size (drop size xs)
