-- ===== src/Queries/Txs/Complete.antt =====
-- The pages of transactions show every transaction of the page.
use push_anode.Prelude.{
  ℕ, suc, ◌*◌, ◌≡◌, refl, sym, ◌∙◌, ap, subst, List, [], ◌∷◌, map, Option, none, some, Text,
  text_eq, text_beq_iff, ◌==◌, ok, >>=-eq-ok, ok_injective, filter, take, drop, All, All-filter,
  All-take, All-drop, All-mono, Bool-cases, Option-cases, inl, inr,
}
use mathlib.Core.List.Permᴰ
use mathlib.Core.List.{Permᴰ}
use push_anode.Archive.Database.{BlockRow, TxRow, Database, IsDatabase}
use push_anode.Archive.Blocks.Linked.{IsLinked}
use push_anode.Queries.Order.{Order, IsSorted, order_by_direction}
use push_anode.Queries.Order.Laws.{All-perm}
use push_anode.Queries.Reads.{Reads, IsReads}
use push_anode.Queries.Pages.{skip_of}
use push_anode.Queries.Views.{PaginatedBlocksResponse, transaction_dto}
use push_anode.Queries.Blocks.{in_block}
use push_anode.Queries.Txs.{
  TxWhere, matches, paginate_transactions, group_transactions_by_block, answer_page,
}
use push_anode.Queries.Txs.Shown.{shown_in}
use push_anode.Queries.Txs.Groups.{expected, group_transactions_by_block-expected}

module _ {D : Database} (law : IsDatabase D) (R : Reads D) (reads_law : IsReads D R)
    (d : D.Db) where
  abbrev HasBlock : TxRow → Type 0
  HasBlock t = (b : BlockRow) × (D.block_at d t.block_hash ≡ some b)

  -- A page of the transactions that match, in an order by time.
  abbrev pub IsPage : TxWhere → Order → ℕ → ℕ → List TxRow → Type 0
  IsPage w order size skip txs =
      (all : List TxRow) × Permᴰ all (filter (matches w) (reads_law.tx_rows d))
      × IsSorted (λ (t : TxRow). t.ts) order all
      × (txs ≡ take size (drop skip all))

  page-HasBlock :
      (w : TxWhere) (order : Order) (size skip : ℕ) (txs : List TxRow)
      → IsLinked D d
      → IsPage w order size skip txs
      → All HasBlock txs
  unfolding IsLinked
  page-HasBlock w order size skip txs linked (all, perm, sorted, same) =
      let rows = reads_law.tx_rows d in
      subst (All HasBlock) (sym same) (
        All-take HasBlock size _ (
          All-drop HasBlock skip all (
            All-perm HasBlock (Permᴰ.symm perm) (
              All-filter HasBlock (matches w) rows (
                All-mono (λ t. D.tx_at d t.txn_hash ≡ some t) HasBlock
                  (λ t at_t. linked t.txn_hash t at_t) rows (reads_law.tx_keys d))))))

  none_in_missing :
      (h : Text) (txs : List TxRow)
      → D.block_at d h ≡ none
      → All HasBlock txs
      → filter (in_block h) txs ≡ []
  none_in_missing h [] free all = refl
  none_in_missing h (t ∷ txs) free ((b, at_b), all) = elim (Bool-cases (t.block_hash == h)) [
    | inl hit ↦ absurd (cc (at_b, free, (text_beq_iff t.block_hash h).0 hit))
    | inr miss ↦ rw miss (none_in_missing h txs free all)
  ]

  each_expected :
      (txs : List TxRow) (h : Text)
      → All HasBlock txs
      → expected law R reads_law d txs h ≡ map transaction_dto (filter (in_block h) txs)
  each_expected txs h all = elim (Option-cases (D.block_at d h)) [
    | inl free ↦ rw (free, none_in_missing h txs free all) refl
    | inr (b, at_h) ↦ rw at_h refl
  ]

  -- Where every transaction refers to a stored block, a query by time shows every transaction of the
  -- page that was asked for, in the blocks of its hash, in the order of the page and once.
  pub answer_page-IsPage :
      (w : TxWhere) (direction : Text) (size before : ℕ) {r : PaginatedBlocksResponse}
      → IsLinked D d
      → answer_page R d w direction size (suc before) ≡ ok r
      → (txs : List TxRow) × IsPage w (order_by_direction direction) size (before * size) txs
        × ((h : Text) → shown_in r.blocks h ≡ map transaction_dto (filter (in_block h) txs))
  unfolding answer_page paginate_transactions skip_of
  answer_page-IsPage w direction size before linked e =
      let (page, p, e1) = >>=-eq-ok (paginate_transactions R d w direction size (suc before)) _ e in
      let (blocks, q, e2) = >>=-eq-ok (group_transactions_by_block R d page.0) _ e1 in
      let (total, p1, p2) = >>=-eq-ok (R.txs.count d (matches w)) _ p in
      let (txs, p3, p4) = >>=-eq-ok (R.txs.find_page d (matches w) _ size _) _ p2 in
      let same : txs ≡ page.0 = ap (λ (x : List TxRow × Option ℕ). x.0) (ok_injective p4) in
      let is_page =
        subst (IsPage w (order_by_direction direction) size (before * size)) same
          (reads_law.txs_law.paged d (matches w) _ size _ p3) in
      let has_block = page-HasBlock w _ size (before * size) page.0 linked is_page in
      (
        page.0,
        is_page,
        λ h.
            ap (λ (x : PaginatedBlocksResponse). shown_in x.blocks h) (sym (ok_injective e2))
            ∙ group_transactions_by_block-expected law R reads_law d page.0 q h
            ∙ each_expected page.0 h has_block,
      )
