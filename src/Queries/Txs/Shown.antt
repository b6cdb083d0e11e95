-- ===== src/Queries/Txs/Shown.antt =====
-- The blocks of an answer, each under its hash, and the transactions that they show.
use push_anode.Prelude.{
  ◌≡◌, refl, sym, ◌∙◌, ap, subst, false, List, [], ◌∷◌, ◌++◌, Option, none, some, Text, text_eq,
  text_beq_iff, ◌==◌, arith, if◌then◌else◌, Bool-cases, inl, inr,
}
use mathlib.Core.List.{append-nil}
use push_anode.Collections.Map
use push_anode.Collections.Map.{Map}
use push_anode.Collections.Map.Unique.{HasUniqueKeys}
use push_anode.Archive.Database.{BlockRow}
use push_anode.Queries.Reads.{block_in}
use push_anode.Queries.Views.{TransactionDto, BlockWithTransactions}

-- All transactions that an answer shows in blocks of a hash.
unfoldable pub shown_in : List BlockWithTransactions → Text → List TransactionDto
shown_in [] h = []
shown_in (b ∷ blocks) h =
    let rest = shown_in blocks h in if b.block_hash == h then b.transactions ++ rest else rest

abbrev pub transactions_of : Option BlockWithTransactions → List TransactionDto
transactions_of none = []
transactions_of (some b) = b.transactions

-- Each block stands under its hash.
abbrev pub IsKeyed : Map Text BlockWithTransactions → Type 0
IsKeyed [] = Unit
IsKeyed ((k, b) ∷ m) = (b.block_hash ≡ k) × IsKeyed m

pub set-IsKeyed :
    (m : Map Text BlockWithTransactions) (k : Text) (b : BlockWithTransactions)
    → b.block_hash ≡ k
    → IsKeyed m
    → IsKeyed (Map.set m k b)
unfolding Map.set
set-IsKeyed [] k b e h = (e, tt)
set-IsKeyed ((j, c) ∷ m) k b e (h, hs) = elim (Bool-cases (j == k)) [
  | inl hit ↦ rw hit (e ∙ sym ((text_beq_iff j k).0 hit), hs)
  | inr miss ↦ rw miss (h, set-IsKeyed m k b e hs)
]

pub get-IsKeyed :
    (m : Map Text BlockWithTransactions) (k : Text) {b : BlockWithTransactions}
    → IsKeyed m
    → Map.get m k ≡ some b
    → b.block_hash ≡ k
unfolding Map.get
get-IsKeyed [] k h e = cc
get-IsKeyed ((j, c) ∷ m) k {b} (h, hs) e = elim (Bool-cases (j == k)) [
  | inl hit ↦
      let same : c ≡ b = cc (rw hit at e) in
      sym (ap (λ (x : BlockWithTransactions). x.block_hash) same) ∙ h ∙ (text_beq_iff j k).0 hit
  | inr miss ↦ get-IsKeyed m k hs (rw miss at e)
]

shown_in-missing :
    (m : Map Text BlockWithTransactions) (h : Text)
    → IsKeyed m
    → Map.has m h ≡ false
    → shown_in (Map.values m) h ≡ []
unfolding shown_in Map.has
shown_in-missing [] h keyed e = refl
shown_in-missing ((j, c) ∷ m) h (k, ks) e = ground (arith, shown_in-missing m h ks, k, e)

-- What is shown for a hash is what the map has for it.
pub shown_in-get :
    (m : Map Text BlockWithTransactions) (h : Text)
    → IsKeyed m
    → HasUniqueKeys m
    → shown_in (Map.values m) h ≡ transactions_of (Map.get m h)
unfolding shown_in Map.get
shown_in-get [] h keyed unique = refl
shown_in-get ((j, c) ∷ m) h (k, ks) (u, us) = elim (Bool-cases (j == h)) [
  | inl hit ↦
      rw (k, hit)
        (ap (λ l. c.transactions ++ l)
            (shown_in-missing m h ks
              (subst (λ t. Map.has m t ≡ false) ((text_beq_iff j h).0 hit) u))
          ∙ append-nil c.transactions)
  | inr miss ↦ rw (k, miss) (shown_in-get m h ks us)
]

pub block_in-hash :
    (rows : List BlockRow) (h : Text) {row : BlockRow}
    → block_in rows h ≡ some row
    → row.block_hash ≡ h
block_in-hash [] h e = cc
block_in-hash (r ∷ rows) h {row} e = elim (Bool-cases (r.block_hash == h)) [
  | inl hit ↦
      let same : r ≡ row = cc (rw hit at e) in
      sym (ap (λ (x : BlockRow). x.block_hash) same) ∙ (text_beq_iff r.block_hash h).0 hit
  | inr miss ↦ block_in-hash rows h (rw miss at e)
]
