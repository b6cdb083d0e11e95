-- ===== src/Queries/Blocks/Lookup.antt =====
-- Blocks by their hashes: an answer for each hash, in the order of the request.
use push_anode.Prelude.{
  ◌≡◌, refl, sym, ◌∙◌, ap, ap₂, subst, Bool, true, false, ◌||◌, List, [], ◌∷◌, map, Option, none,
  some, Text, text_eq, text_beq_iff, ◌==◌, ok, >>=-eq-ok, ok_injective, filter, any, All,
  All-filter, arith, if◌then◌else◌, Bool-cases, inl, inr,
}
use mathlib.Core.List.Permᴰ
use mathlib.Core.List.{Permᴰ}
use push_anode.Collections.Map
use push_anode.Collections.Map.{Map}
use push_anode.Util.Hex.{Bytes}
use push_anode.Archive.Database.{BlockRow, Database}
use push_anode.Queries.Order.Laws.{All-perm}
use push_anode.Queries.Reads.{Reads, IsReads, block_in}
use push_anode.Queries.Blocks.{block_data, block_map, push_get_blocks_by_block_hashes_internal}

abbrev pub bytes_of : Option BlockRow → Option Bytes
bytes_of none = none
bytes_of (some row) = some row.bytes

or_swap : (a b c : Bool) → a || (b || c) ≡ b || (a || c)
or_swap a b c = ground arith

any-perm : {A : Type 0} (p : A → Bool) {xs ys : List A} → Permᴰ xs ys → any p xs ≡ any p ys
any-perm p Permᴰ.nil = refl
any-perm p (Permᴰ.cons e q) = ap₂ ◌||◌ (ap p e) (any-perm p q)
any-perm p (Permᴰ.swap {a = a} {b = b} {l = l} e f) = rw (← e, ← f) (or_swap (p a) (p b) (any p l))
any-perm p (Permᴰ.trans q r) = any-perm p q ∙ any-perm p r

-- A hash is among the rows that have one of the hashes of a list, if it is in that list.
any-filter :
    (h : Text) (test : BlockRow → Bool) (rows : List BlockRow)
    → ((r : BlockRow) → r.block_hash ≡ h → test r ≡ true)
    → any (λ r. r.block_hash == h) (filter test rows) ≡ any (λ r. r.block_hash == h) rows
any-filter h test [] hit = refl
any-filter h test (r ∷ rows) hit =
    ground (arith, hit r, text_beq_iff r.block_hash h, any-filter h test rows hit)

module _ (D : Database) (d : D.Db) (h : Text) where
  -- What the map has for a hash: the block that is stored, if its row was read.
  get-block_map :
      (bs : List BlockRow) (m : Map Text Bytes)
      → All (λ r. D.block_at d r.block_hash ≡ some r) bs
      → Map.get (block_map bs m) h
        ≡ (if any (λ r. r.block_hash == h) bs then bytes_of (D.block_at d h) else Map.get m h)
  unfolding block_map
  get-block_map [] m ks = refl
  get-block_map (b ∷ bs) m (k, ks) = ground (
    arith,
    get-block_map bs (Map.set m b.block_hash b.bytes) ks,
    Map.get-set m b.block_hash h b.bytes,
    text_beq_iff b.block_hash h,
    k,
  )

module _ {D : Database} (R : Reads D) (law : IsReads D R) (d : D.Db) where
  stored_block :
      (h : Text) (rows : List BlockRow)
      → any (λ r. r.block_hash == h) rows ≡ false
      → block_in rows h ≡ none
  stored_block h [] e = refl
  stored_block h (r ∷ rows) e = ground (arith, e, stored_block h rows)

  asked_for :
      (h : Text) (hashes : List Text) (r : BlockRow)
      → any (λ x. h == x) hashes ≡ true
      → r.block_hash ≡ h
      → any (λ x. r.block_hash == x) hashes ≡ true
  asked_for h hashes r e same = subst (λ t. any (λ x. t == x) hashes ≡ true) (sym same) e

  -- The answer for one hash, among those that were asked for.
  answer :
      (hashes : List Text) (blocks : List BlockRow)
      → Permᴰ blocks
          (filter (λ (b : BlockRow). any (λ h. b.block_hash == h) hashes) (law.block_rows d))
      → (h : Text) → any (λ x. h == x) hashes ≡ true
      → Map.get (block_map blocks []) h ≡ bytes_of (D.block_at d h)
  unfolding Map.get
  answer hashes blocks p h asked =
      let test : BlockRow → Bool = λ b. any (λ x. b.block_hash == x) hashes in
      let here =
        any-perm (λ (r : BlockRow). r.block_hash == h) p
        ∙ any-filter h test (law.block_rows d) (λ r. asked_for h hashes r asked) in
      let keys =
        All-perm (λ (r : BlockRow). D.block_at d r.block_hash ≡ some r) (Permᴰ.symm p)
          (All-filter (λ (r : BlockRow). D.block_at d r.block_hash ≡ some r) test (law.block_rows d)
            (law.block_keys d)) in
      get-block_map D d h blocks [] keys ∙ elim (Bool-cases (any (λ r. r.block_hash == h) blocks)) [
        | inl hit ↦ rw hit refl
        | inr miss ↦
            rw (miss, law.block_listed d h, stored_block h (law.block_rows d) (sym here ∙ miss))
              refl
      ]

  asked_each :
      (asked hashes : List Text)
      → ((h : Text) → any (λ x. h == x) asked ≡ true → any (λ x. h == x) hashes ≡ true)
      → All (λ h. any (λ x. h == x) hashes ≡ true) asked
  asked_each [] hashes within = tt
  asked_each (h ∷ asked) hashes within = (
    within h (ground (arith, text_beq_iff h h)),
    asked_each asked hashes (λ g e. within g (ground (arith, e))),
  )

  map_same :
      (f g : Text → Option Text) (P : Text → Type 0)
      → ((h : Text) → P h → f h ≡ g h)
      → (hashes : List Text) → All P hashes
      → map f hashes ≡ map g hashes
  map_same f g P same [] h = refl
  map_same f g P same (x ∷ xs) (h, hs) = ap₂ ◌∷◌ (same x h) (map_same f g P same xs hs)

  -- The request is answered in its order, with the bytes in base 16 of each hash under which a block
  -- is stored and null for each other hash, also where a hash is asked for twice.
  pub push_get_blocks_by_block_hashes_internal-map :
      (hashes : List Text) {answers : List (Option Text)}
      → push_get_blocks_by_block_hashes_internal R d hashes ≡ ok answers
      → answers ≡ map (λ h. block_data (bytes_of (D.block_at d h))) hashes
  unfolding push_get_blocks_by_block_hashes_internal
  push_get_blocks_by_block_hashes_internal-map hashes e =
      let (blocks, p, e1) = >>=-eq-ok (R.blocks.find_many d _) _ e in
      sym (ok_injective e1)
      ∙ map_same _ _ (λ h. any (λ x. h == x) hashes ≡ true)
          (λ h asked. ap block_data (answer hashes blocks (law.blocks_law.found d _ p) h asked))
          hashes (asked_each hashes hashes (λ h e. e))
