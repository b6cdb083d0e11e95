-- ===== src/Queries/Blocks/Pages.antt =====
-- The pages of block hashes, of which other archival nodes ask one after the other.
use push_anode.Prelude.{
  ℕ, zero, suc, ◌+◌, ◌*◌, ◌/◌, ◌≤◌, ◌≡◌, refl, subst, sym, ◌∙◌, ap, ap₂, List, [], ◌∷◌, ◌++◌, map,
  some, Text, Result, ok, ◌>>=◌, >>=-eq-ok, ok_injective, filter, take, drop, length, arith,
}
use push_anode.Wire.{Failure}
use push_anode.Archive.Database.{BlockRow, Database}
use push_anode.Queries.Order.{HasNoTies, sort, order_by_direction}
use push_anode.Queries.Order.Laws.{sort-of_perm, length-sort}
use push_anode.Queries.Reads.{Reads, IsReads}
use push_anode.Queries.Pages.{skip_of, total_pages, pages_of}
use push_anode.Queries.Pages.Laws.{pages_of-all, enough_pages, drop-drop}
use push_anode.Queries.Blocks.{
  BlockHashResponseInternal, PaginatedBlockHashResponseInternal, hash_response, block_from,
  push_get_block_hash_by_time_internal,
}

module _ {D : Database} (R : Reads D) (law : IsReads D R) (d : D.Db) (start_time : ℕ)
    (direction : Text) (size : ℕ) where
  abbrev query : ℕ → Result Failure PaginatedBlockHashResponseInternal
  query page = push_get_block_hash_by_time_internal R d start_time direction (suc size) page

  -- The pages from one on, `n` of them, each asked for by a request of its own.
  unfoldable pub ask_pages : ℕ → ℕ → Result Failure (List BlockHashResponseInternal)
  ask_pages zero page = ok []
  ask_pages (suc n) page = do
    response ← query page
    rest ← ask_pages n (suc page)
    ok (response.block_hashes ++ rest)

  -- The blocks that the query is about.
  abbrev pub wanted : List BlockRow
  wanted = filter (block_from (order_by_direction direction) start_time) (law.block_rows d)

  abbrev pub in_order : List BlockRow
  in_order = sort (λ b. b.ts) (order_by_direction direction) wanted

  -- What one request answers.
  query-page :
      HasNoTies (λ (b : BlockRow). b.ts) wanted
      → (before : ℕ) {r : PaginatedBlockHashResponseInternal} → query (suc before) ≡ ok r
      → (r.block_hashes ≡ map hash_response (take (suc size) (drop (before * suc size) in_order)))
        × (r.total_pages ≡ total_pages (length wanted) (suc size))
  unfolding push_get_block_hash_by_time_internal skip_of
  query-page ties before e =
      let (total, p, e1) = >>=-eq-ok (R.blocks.count d _) _ e in
      let (blocks, q, e2) = >>=-eq-ok (R.blocks.find_page d _ _ _ _) _ e1 in
      let (all, perm, sorted, same) = law.blocks_law.paged d _ _ _ _ q in
      let all_sorted = sort-of_perm (λ (b : BlockRow). b.ts) _ perm ties sorted in
      (
        ap (λ x. x.block_hashes) (sym (ok_injective e2))
            ∙ ap (map hash_response)
                (same ∙ ap (λ l. take (suc size) (drop (before * suc size) l)) all_sorted),
        ap (λ x. x.total_pages) (sym (ok_injective e2))
            ∙ ap (λ n. total_pages n (suc size)) (law.blocks_law.counted d _ p),
      )

  map-append :
      (xs ys : List BlockRow)
      → map hash_response (xs ++ ys) ≡ map hash_response xs ++ map hash_response ys
  map-append [] ys = refl
  map-append (x ∷ xs) ys = ap (λ l. hash_response x ∷ l) (map-append xs ys)

  ask_pages-pages_of :
      HasNoTies (λ (b : BlockRow). b.ts) wanted
      → (n before : ℕ) {hs : List BlockHashResponseInternal} → ask_pages n (suc before) ≡ ok hs
      → hs ≡ map hash_response (pages_of n (suc size) (drop (before * suc size) in_order))
  unfolding ask_pages pages_of
  ask_pages-pages_of ties zero before e = sym (ok_injective e)
  ask_pages-pages_of ties (suc n) before e =
      let (r, p, e1) = >>=-eq-ok (query (suc before)) _ e in
      let (rest, q, e2) = >>=-eq-ok (ask_pages n (suc (suc before))) _ e1 in
      let page = drop (before * suc size) in_order in
      sym (ok_injective e2)
      ∙ ap₂ ◌++◌ (query-page ties before p).0 (ask_pages-pages_of ties n (suc before) q)
      ∙ sym (map-append (take (suc size) page) _)
      ∙ ap (λ l. map hash_response (take (suc size) page ++ pages_of n (suc size) l))
          (sym (
            drop-drop (suc before * suc size) (before * suc size) (suc size) in_order
              (omega arith)))

  -- Where no two of the wanted blocks have the same time, the pages up to the number of pages that
  -- any request reports hold every wanted block once, in the order of their times.
  pub ask_pages-sort :
      HasNoTies (λ (b : BlockRow). b.ts) wanted
      → (before n : ℕ) {r : PaginatedBlockHashResponseInternal}
        {hs : List BlockHashResponseInternal}
      → query (suc before) ≡ ok r
      → r.total_pages ≡ some n
      → ask_pages n 1 ≡ ok hs
      → hs ≡ map hash_response in_order
  unfolding total_pages
  ask_pages-sort ties before n e total asked =
      let all : drop (0 * suc size) in_order ≡ in_order =
        subst (λ k. drop k in_order ≡ in_order) {x = 0} (omega arith) refl in
      let pages : n ≡ (length in_order + size) / suc size = cc (
        total,
        (query-page ties before e).1,
        length-sort (λ (b : BlockRow). b.ts) (order_by_direction direction) wanted,
      ) in
      ask_pages-pages_of ties n 0 asked
      ∙ ap (λ l. map hash_response (pages_of n (suc size) l)) all
      ∙ ap (map hash_response) (
          pages_of-all n (suc size) in_order (
            subst (λ k. length in_order ≤ k * suc size) (sym pages)
              (enough_pages (length in_order) size)))
