-- ===== src/Tests/Reads.antt =====
-- Queries of tables in memory: the assumptions on the reads of a database can be met.
use push_anode.Prelude.{
  ℕ, ◌≡◌, refl, sym, ◌∙◌, subst, true, false, not, List, [], ◌∷◌, map, Option, none, some, Text,
  lit, text_eq, text_beq_iff, ◌==◌, Result, ok, err, ok_injective, filter, take, drop, length, All,
  All-mono, arith, Bool-cases, inl, inr, if◌then◌else◌,
}
use mathlib.Core.List.Permᴰ
use mathlib.Core.List.{Permᴰ}
use push_anode.Wire.{Failure, library}
use push_anode.Archive.Database.{BlockRow, TxRow}
use push_anode.Queries.Order.{Order, asc, desc, precedes, InOrder, IsSorted, insert, sort}
use push_anode.Queries.Order.Laws.{All-perm}
use push_anode.Queries.Reads.{ℤ, pos, negsuc, Table, Reads, IsTable, IsReads, is_present}
use push_anode.Tests.Tables.{Tables, tables, block_of}

module _ {A : Type 0} (key : A → Text) where
  abbrev find_in : List A → Text → Option A
  find_in [] h = none
  find_in (r ∷ rows) h = if key r == h then some r else find_in rows h

  -- The rows that can be found: the first of each key.
  abbrev distinct : List A → List A
  distinct [] = []
  distinct (r ∷ rows) = r ∷ filter (λ x. not (key r == key x)) (distinct rows)

  find_in-filter :
      (k h : Text) (rows : List A)
      → (k == h) ≡ false
      → find_in (filter (λ x. not (k == key x)) rows) h ≡ find_in rows h
  find_in-filter k h [] e = refl
  find_in-filter k h (x ∷ rows) e = ground (
    arith,
    e,
    text_beq_iff k (key x),
    text_beq_iff (key x) h,
    text_beq_iff k h,
    find_in-filter k h rows e,
  )

  pub find_in-distinct : (h : Text) (rows : List A) → find_in (distinct rows) h ≡ find_in rows h
  find_in-distinct h [] = refl
  find_in-distinct h (r ∷ rows) = elim (Bool-cases (key r == h)) [
    | inl hit ↦ rw hit refl
    | inr miss ↦ rw miss (find_in-filter (key r) h (distinct rows) miss ∙ find_in-distinct h rows)
  ]

  kept :
      (r : A) (all rows : List A)
      → All (λ x. find_in all (key x) ≡ some x) rows
      → All
          (λ x. find_in (r ∷ filter (λ x. not (key r == key x)) all) (key x) ≡ some x)
          (filter (λ x. not (key r == key x)) rows)
  kept r all [] h = tt
  kept r all (x ∷ rows) (h, hs) = elim (Bool-cases (key r == key x)) [
    | inl hit ↦ rw hit (kept r all rows hs)
    | inr miss ↦ rw miss (rw miss (find_in-filter (key r) (key x) all miss ∙ h), kept r all rows hs)
  ]

  distinct-keys :
      (rows : List A) → All (λ x. find_in (distinct rows) (key x) ≡ some x) (distinct rows)
  distinct-keys [] = tt
  distinct-keys (r ∷ rows) = (
    rw ((text_beq_iff (key r) (key r)).1 refl) refl,
    kept r (distinct rows) (distinct rows) (distinct-keys rows),
  )

  pub found_keys : (rows : List A) → All (λ x. find_in rows (key x) ≡ some x) (distinct rows)
  found_keys rows =
      All-mono (λ x. find_in (distinct rows) (key x) ≡ some x) (λ x. find_in rows (key x) ≡ some x)
        (λ x e. sym (find_in-distinct (key x) rows) ∙ e) (distinct rows) (distinct-keys rows)

module _ {A : Type 0} (ts : A → ℕ) where
  insert-perm : (order : Order) (x : A) (xs : List A) → Permᴰ (insert ts order x xs) (x ∷ xs)
  unfolding insert
  insert-perm order x [] = Permᴰ.refl (x ∷ [])
  insert-perm order x (y ∷ ys) = elim (Bool-cases (precedes order (ts x) (ts y))) [
    | inl hit ↦ rw hit (Permᴰ.refl (x ∷ y ∷ ys))
    | inr miss ↦
        rw miss (Permᴰ.trans (Permᴰ.cons refl (insert-perm order x ys)) (Permᴰ.swap refl refl))
  ]

  sort-perm_of : (order : Order) (xs : List A) → Permᴰ (sort ts order xs) xs
  unfolding sort
  sort-perm_of order [] = Permᴰ.nil
  sort-perm_of order (x ∷ xs) =
      Permᴰ.trans (insert-perm order x (sort ts order xs)) (Permᴰ.cons refl (sort-perm_of order xs))

  ordered : (order : Order) (x y : A) → precedes order (ts x) (ts y) ≡ true → InOrder ts order x y
  ordered asc x y e = ground (arith, e)
  ordered desc x y e = ground (arith, e)

  ordered_other :
      (order : Order) (x y : A) → precedes order (ts x) (ts y) ≡ false → InOrder ts order y x
  ordered_other asc x y e = ground (arith, e)
  ordered_other desc x y e = ground (arith, e)

  InOrder-trans :
      (order : Order) (x y : A) (ys : List A)
      → InOrder ts order x y
      → All (InOrder ts order y) ys
      → All (InOrder ts order x) ys
  InOrder-trans order x y [] h hs = tt
  InOrder-trans asc x y (z ∷ ys) h (k, hs) = (omega (arith, h, k), InOrder-trans asc x y ys h hs)
  InOrder-trans desc x y (z ∷ ys) h (k, hs) = (omega (arith, h, k), InOrder-trans desc x y ys h hs)

  IsSorted-insert :
      (order : Order) (x : A) (xs : List A)
      → IsSorted ts order xs
      → IsSorted ts order (insert ts order x xs)
  unfolding insert
  IsSorted-insert order x [] h = (tt, tt)
  IsSorted-insert order x (y ∷ ys) (h, hs) = elim (Bool-cases (precedes order (ts x) (ts y))) [
    | inl hit ↦
        let first = ordered order x y hit in
        rw hit ((first, InOrder-trans order x y ys first h), (h, hs))
    | inr miss ↦ rw miss (
      All-perm (InOrder ts order y) (Permᴰ.symm (insert-perm order x ys))
          (ordered_other order x y miss, h),
      IsSorted-insert order x ys hs,
    )
  ]

  IsSorted-sort : (order : Order) (xs : List A) → IsSorted ts order (sort ts order xs)
  unfolding sort
  IsSorted-sort order [] = tt
  IsSorted-sort order (x ∷ xs) = IsSorted-insert order x (sort ts order xs) (IsSorted-sort order xs)

  abbrev page : Order → ℕ → ℤ → List A → Result Failure (List A)
  page order n (pos skip) rows = ok (take n (drop skip (sort ts order rows)))
  page order n (negsuc skip) rows = err (library (lit "Value can only be positive"))

  abbrev table : (Tables → List A) → Table Tables A
  table rows = record {
    count = λ d test. ok (length (filter test (rows d)));
    find_many = λ d test. ok (filter test (rows d));
    find_page = λ d test order n skip. page order n skip (filter test (rows d));
  }

  pub table-IsTable : (rows : Tables → List A) → IsTable (table rows) rows ts
  table-IsTable rows = record {
    counted = λ d test e. cc e;
    found = λ d test e.
        subst (λ l. Permᴰ l (filter test (rows d))) (ok_injective e)
          (Permᴰ.refl (filter test (rows d)));
    paged = λ d test order n skip e. (
      sort ts order (filter test (rows d)),
      sort-perm_of order (filter test (rows d)),
      IsSorted-sort order (filter test (rows d)),
      sym (ok_injective e),
    );
  }

abbrev block_rows : Tables → List BlockRow
block_rows d = distinct (λ (r : BlockRow). r.block_hash) d.blocks

abbrev tx_rows : Tables → List TxRow
tx_rows d = distinct (λ (r : TxRow). r.txn_hash) d.txs

unfoldable pub reads : Reads tables
unfolding tables
reads = record {
  blocks = table (λ (r : BlockRow). r.ts) block_rows;
  txs = table (λ (r : TxRow). r.ts) tx_rows;
  join_hashes = λ d hashes. ok (map (λ h. (h, is_present (block_of d.blocks h))) hashes);
}

unfoldable pub reads-IsReads : IsReads tables reads
unfolding tables reads
reads-IsReads = record {
  block_rows = block_rows;
  tx_rows = tx_rows;
  blocks_law = table-IsTable (λ (r : BlockRow). r.ts) block_rows;
  txs_law = table-IsTable (λ (r : TxRow). r.ts) tx_rows;
  block_keys = λ d. found_keys (λ (r : BlockRow). r.block_hash) d.blocks;
  block_listed = λ d h. sym (find_in-distinct (λ (r : BlockRow). r.block_hash) h d.blocks);
  tx_listed = λ d h. sym (find_in-distinct (λ (r : TxRow). r.txn_hash) h d.txs);
  tx_keys = λ d. found_keys (λ (r : TxRow). r.txn_hash) d.txs;
  joined = λ d hashes e.
      subst (λ l. Permᴰ l (map (λ h. (h, is_present (block_of d.blocks h))) hashes))
        (ok_injective e) (Permᴰ.refl _);
}
