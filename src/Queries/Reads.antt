-- ===== src/Queries/Reads.antt =====
-- The `count` and `findMany` of the Prisma client, as an interface: PostgreSQL is not under src/.
use push_anode.Prelude.{
  ℕ, ◌≡◌, Bool, List, [], ◌∷◌, Option, none, some, Text, text_eq, ◌==◌, if◌then◌else◌, Result, ok,
  All, length, take, drop, filter, map,
}
use mathlib.Core.List.{Permᴰ}
use push_anode.Wire.{Failure}
use push_anode.Archive.Database.{BlockRow, TxRow, row_at, Database}
use push_anode.Queries.Order.{Order, IsSorted}

-- The value of `skip`, which a page below 1 makes negative.
pub data ℤ : Type 0 where
  pos : ℕ → ℤ
  negsuc : ℕ → ℤ

-- One table: `where` is a test on its rows; `orderBy` is by time.
pub record Table (Db Row : Type 0) : Type 0 where
  pub count : Db → (Row → Bool) → Result Failure ℕ
  pub find_many : Db → (Row → Bool) → Result Failure (List Row)
  pub find_page : Db → (Row → Bool) → Order → ℕ → ℤ → Result Failure (List Row)

pub record Reads (D : Database) : Type 0 where
  pub blocks : Table D.Db BlockRow
  pub txs : Table D.Db TxRow
  -- The left join of hashes with the blocks: each hash, and 1 where there is a block of that hash.
  pub join_hashes : D.Db → List Text → Result Failure (List (Text × ℕ))

-- The documented behaviour of the three calls on the rows that a table holds: in an order by time,
-- rows of the same time stand in any order, which may be another one in another call.
pub record IsTable {Db Row : Type 0} (T : Table Db Row) (rows : Db → List Row) (ts : Row → ℕ)
    : Type 0 where
  pub counted :
      (d : Db) (test : Row → Bool) {n : ℕ}
      → T.count d test ≡ ok n
      → n ≡ length (filter test (rows d))
  pub found :
      (d : Db) (test : Row → Bool) {found : List Row}
      → T.find_many d test ≡ ok found
      → Permᴰ found (filter test (rows d))
  pub paged :
      (d : Db) (test : Row → Bool) (order : Order) (n skip : ℕ) {found : List Row}
      → T.find_page d test order n (pos skip) ≡ ok found
      → (all : List Row) × Permᴰ all (filter test (rows d))
        × IsSorted ts order all
        × (found ≡ take n (drop skip all))

abbrev pub is_present : Option BlockRow → ℕ
is_present none = 0
is_present (some row) = 1

-- The block of a hash among rows.
abbrev pub block_in : List BlockRow → Text → Option BlockRow
block_in [] h = none
block_in (r ∷ rows) h = if r.block_hash == h then some r else block_in rows h

-- The rows of both tables, each found under its key; a join gives its rows in any order.
pub record IsReads (D : Database) (R : Reads D) : Type 0 where
  pub block_rows : D.Db → List BlockRow
  pub tx_rows : D.Db → List TxRow
  pub blocks_law : IsTable R.blocks block_rows (λ r. r.ts)
  pub txs_law : IsTable R.txs tx_rows (λ r. r.ts)
  pub block_keys : (d : D.Db) → All (λ r. D.block_at d r.block_hash ≡ some r) (block_rows d)
  pub block_listed : (d : D.Db) (h : Text) → D.block_at d h ≡ block_in (block_rows d) h
  pub joined :
      (d : D.Db) (hashes : List Text) {found : List (Text × ℕ)}
      → R.join_hashes d hashes ≡ ok found
      → Permᴰ found (map (λ h. (h, is_present (D.block_at d h))) hashes)
  pub tx_listed : (d : D.Db) (h : Text) → D.tx_at d h ≡ row_at (tx_rows d) h
  pub tx_keys : (d : D.Db) → All (λ r. D.tx_at d r.txn_hash ≡ some r) (tx_rows d)
