-- ===== src/Queries/Txs/Groups.antt =====
-- Transactions grouped by their blocks: none is lost, and none is shown twice.
use push_anode.Prelude.{
  ℕ, ◌≡◌, refl, sym, ◌∙◌, ap, subst, List, [], ◌∷◌, ◌++◌, map, Option, none, some, Text, text_eq,
  text_beq_iff, ◌==◌, ok, >>=-eq-ok, ok_injective, filter, arith, if◌then◌else◌, Bool-cases,
  Option-cases, inl, inr,
}
use mathlib.Core.List.{append-nil, append_assoc}
use push_anode.Collections.Map
use push_anode.Collections.Map.{Map}
use push_anode.Collections.Map.Unique.{HasUniqueKeys, set-HasUniqueKeys}
use push_anode.Archive.Database.{BlockRow, TxRow, Database, IsDatabase}
use push_anode.Queries.Reads.{Reads, IsReads}
use push_anode.Queries.Views.{
  TransactionDto, BlockWithTransactions, transaction_dto, block_with_transactions,
}
use push_anode.Queries.Blocks.{in_block}
use push_anode.Queries.Txs.{
  push_transaction, load_found, load_block, group_from, group_transactions_by_block,
}
use push_anode.Queries.Txs.Shown.{
  shown_in, transactions_of, IsKeyed, set-IsKeyed, get-IsKeyed, shown_in-get, block_in-hash,
}

module _ {D : Database} (law : IsDatabase D) (R : Reads D) (reads_law : IsReads D R)
    (d : D.Db) where
  hashed : (h : Text) {row : BlockRow} → D.block_at d h ≡ some row → row.block_hash ≡ h
  hashed h e = block_in-hash (reads_law.block_rows d) h (sym (reads_law.block_listed d h) ∙ e)

  abbrev if_stored : Option BlockRow → List TransactionDto → List TransactionDto
  if_stored none txs = []
  if_stored (some row) txs = txs

  if_stored-nil : (o : Option BlockRow) → if_stored o [] ≡ []
  if_stored-nil none = refl
  if_stored-nil (some row) = refl

  -- What is to be shown for a hash: its transactions in their order, if the block is stored.
  abbrev pub expected : List TxRow → Text → List TransactionDto
  expected txs h = if_stored (D.block_at d h) (map transaction_dto (filter (in_block h) txs))

  filter_snoc :
      (h : Text) (txs : List TxRow) (tx : TxRow)
      → map transaction_dto (filter (in_block h) (txs ++ tx ∷ [])) ≡ (
          if in_block h tx
          then map transaction_dto (filter (in_block h) txs) ++ transaction_dto tx ∷ []
          else map transaction_dto (filter (in_block h) txs))
  filter_snoc h [] tx = ground arith
  filter_snoc h (t ∷ txs) tx = ground (arith, filter_snoc h txs tx)

  record Grouped (m : Map Text BlockWithTransactions) (txs : List TxRow) : Type 0 where
    keyed : IsKeyed m
    unique : HasUniqueKeys m
    only_stored : (h : Text) → D.block_at d h ≡ none → Map.get m h ≡ none
    shows : (h : Text) → transactions_of (Map.get m h) ≡ expected txs h

  load_stored :
      (m : Map Text BlockWithTransactions) (txs : List TxRow) (bh : Text) (row : BlockRow)
      (total : ℕ)
      → D.block_at d bh ≡ some row
      → Map.get m bh ≡ none
      → Grouped m txs
      → Grouped (Map.set m bh (block_with_transactions row [] total)) txs
  unfolding block_with_transactions
  load_stored m txs bh row total at_bh missing g = record {
    keyed = set-IsKeyed m bh _ (hashed bh at_bh) g.keyed;
    unique = set-HasUniqueKeys m bh _ g.unique;
    only_stored = λ h free. Map.get-set m bh h _ ∙ elim (Bool-cases (bh == h)) [
      | inl hit ↦ absurd (cc (at_bh, free, (text_beq_iff bh h).0 hit))
      | inr miss ↦ rw miss (g.only_stored h free)
    ];
    shows = λ h. ap transactions_of (Map.get-set m bh h _) ∙ elim (Bool-cases (bh == h)) [
      | inl hit ↦
          let same = (text_beq_iff bh h).0 hit in
          rw hit
            (sym (ap transactions_of (subst (λ t. Map.get m t ≡ none) same missing)) ∙ g.shows h)
      | inr miss ↦ rw miss (g.shows h)
    ];
  }

  -- A transaction whose block is in the map, or not in the database.
  push_known :
      (m : Map Text BlockWithTransactions) (txs : List TxRow) (tx : TxRow)
      (b : BlockWithTransactions) (row : BlockRow)
      → D.block_at d tx.block_hash ≡ some row
      → Map.get m tx.block_hash ≡ some b
      → Grouped m txs
      → Grouped
          (Map.set m tx.block_hash
            (record b { transactions = b.transactions ++ transaction_dto tx ∷ [] }))
          (txs ++ tx ∷ [])
  push_known m txs tx b row at_bh found g = record {
    keyed = set-IsKeyed m tx.block_hash _ (get-IsKeyed m tx.block_hash g.keyed found) g.keyed;
    unique = set-HasUniqueKeys m tx.block_hash _ g.unique;
    only_stored = λ h free.
        Map.get-set m tx.block_hash h _ ∙ elim (Bool-cases (tx.block_hash == h)) [
          | inl hit ↦ absurd (cc (at_bh, free, (text_beq_iff tx.block_hash h).0 hit))
          | inr miss ↦ rw miss (g.only_stored h free)
        ];
    shows = λ h.
        ap transactions_of (Map.get-set m tx.block_hash h _)
        ∙ elim (Bool-cases (tx.block_hash == h)) [
          | inl hit ↦
              let same = (text_beq_iff tx.block_hash h).0 hit in
              let at_h = subst (λ t. D.block_at d t ≡ some row) same at_bh in
              let shown =
                ap transactions_of (sym (subst (λ t. Map.get m t ≡ some b) same found))
                ∙ g.shows h in
              rw (hit, filter_snoc h txs tx, hit, at_h)
                (ap (λ l. l ++ transaction_dto tx ∷ []) (rw at_h at shown))
          | inr miss ↦ rw (miss, filter_snoc h txs tx, miss) (g.shows h)
        ];
  }

  push_unknown :
      (m : Map Text BlockWithTransactions) (txs : List TxRow) (tx : TxRow)
      → D.block_at d tx.block_hash ≡ none
      → Grouped m txs
      → Grouped m (txs ++ tx ∷ [])
  push_unknown m txs tx at_bh g = record {
    keyed = g.keyed;
    unique = g.unique;
    only_stored = g.only_stored;
    shows = λ h. g.shows h ∙ elim (Bool-cases (tx.block_hash == h)) [
      | inl hit ↦
          let at_h =
            subst (λ t. D.block_at d t ≡ none) ((text_beq_iff tx.block_hash h).0 hit) at_bh in
          rw at_h refl
      | inr miss ↦ rw (filter_snoc h txs tx, miss) refl
    ];
  }

  push_of :
      (m : Map Text BlockWithTransactions) (txs : List TxRow) (tx : TxRow)
      (found : Option BlockWithTransactions)
      → Map.get m tx.block_hash ≡ found
      → ((found ≡ none) → D.block_at d tx.block_hash ≡ none)
      → Grouped m txs
      → Grouped (push_transaction m tx found) (txs ++ tx ∷ [])
  unfolding push_transaction
  push_of m txs tx none e stored g = push_unknown m txs tx (stored refl) g
  push_of m txs tx (some b) e stored g = elim (Option-cases (D.block_at d tx.block_hash)) [
    | inl free ↦ absurd (cc (e, g.only_stored tx.block_hash free))
    | inr (row, at_bh) ↦ push_known m txs tx b row at_bh e g
  ]

  -- After the block of a hash is looked up, the map has it or the database does not.
  Loaded : Map Text BlockWithTransactions → List TxRow → Text → Type 0
  Loaded m txs bh = Grouped m txs × (Map.get m bh ≡ none → D.block_at d bh ≡ none)

  added :
      (m : Map Text BlockWithTransactions) (txs : List TxRow) (bh : Text) (o : Option BlockRow)
      {m1 : Map Text BlockWithTransactions}
      → D.block_at d bh ≡ o
      → Map.get m bh ≡ none
      → load_found R d m bh o ≡ ok m1
      → Grouped m txs
      → Loaded m1 txs bh
  unfolding load_found Loaded
  added m txs bh none at_bh missing e g =
      subst (λ x. Grouped x txs × (Map.get x bh ≡ none → D.block_at d bh ≡ none)) (ok_injective e)
        (g, λ _. at_bh)
  added m txs bh (some row) at_bh missing e g =
      let (total, p, e1) = >>=-eq-ok (R.txs.count d (in_block row.block_hash)) _ e in
      subst (λ x. Grouped x txs × (Map.get x bh ≡ none → D.block_at d bh ≡ none)) (ok_injective e1)
        (
          load_stored m txs bh row total at_bh missing g,
          λ gone. absurd (cc (gone, Map.get-set_same m bh (block_with_transactions row [] total))),
        )

  loaded :
      (m : Map Text BlockWithTransactions) (txs : List TxRow) (bh : Text)
      {m1 : Map Text BlockWithTransactions}
      → load_block R d m bh ≡ ok m1
      → Grouped m txs
      → Loaded m1 txs bh
  unfolding load_block Loaded
  loaded m txs bh e g = elim (Bool-cases (Map.has m bh)) [
    | inl hit ↦
        subst (λ x. Grouped x txs × (Map.get x bh ≡ none → D.block_at d bh ≡ none))
          (ok_injective (rw hit at e)) (g, λ gone. absurd (cc (hit, Map.missing-has m bh gone)))
    | inr miss ↦
        let (o, p, e1) = >>=-eq-ok (D.find_block d bh) _ (rw miss at e) in
        added m txs bh o (law.found_block d bh p) (Map.get-missing m bh miss) e1 g
  ]

  from-Grouped :
      (txs before : List TxRow) (m : Map Text BlockWithTransactions)
      {m1 : Map Text BlockWithTransactions}
      → group_from R d m txs ≡ ok m1
      → Grouped m before
      → Grouped m1 (before ++ txs)
  unfolding group_from Loaded
  from-Grouped [] before m e g =
      subst (λ x. Grouped x (before ++ [])) (ok_injective e)
        (subst (Grouped m) (sym (append-nil before)) g)
  from-Grouped (tx ∷ txs) before m {m1} e g =
      let (m0, p, e1) = >>=-eq-ok (load_block R d m tx.block_hash) _ e in
      let (g0, free) = loaded m before tx.block_hash p g in
      subst (Grouped m1) (append_assoc before (tx ∷ []) txs)
        (from-Grouped txs (before ++ tx ∷ []) _ e1 (push_of m0 before tx _ refl free g0))

  -- Of the transactions that it is given, the answer shows in the blocks of each hash those of that
  -- hash, in their order and each once, if that block is stored, and nothing otherwise.
  pub group_transactions_by_block-expected :
      (txs : List TxRow) {blocks : List BlockWithTransactions}
      → group_transactions_by_block R d txs ≡ ok blocks
      → (h : Text) → shown_in blocks h ≡ expected txs h
  unfolding group_transactions_by_block Map.get
  group_transactions_by_block-expected txs e =
      let (m, p, e1) = >>=-eq-ok (group_from R d [] txs) _ e in
      let g = from-Grouped txs [] [] p (record {
        keyed = tt;
        unique = tt;
        only_stored = λ h free. refl;
        shows = λ h. sym (if_stored-nil (D.block_at d h));
      }) in
      λ h.
        ap (λ b. shown_in b h) (sym (ok_injective e1))
        ∙ shown_in-get m h g.keyed g.unique
        ∙ g.shows h
