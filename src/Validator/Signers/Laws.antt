-- ===== src/Validator/Signers/Laws.antt =====
-- When the check of a storing node passes.
use push_anode.Prelude.{
  ℕ, suc, ◌+◌, ◌≤◌, ◌<◌, ◌≡◌, refl, ◌↔◌, true, List, [], ◌∷◌, Text, ok, >>=-eq-ok, ◌==◌, nat_eq,
  text_eq, length, arith, Bool-cases, inl, inr, nat_beq_iff,
}
use push_anode.Collections.Set
use push_anode.Collections.Set.{Set}
use push_anode.Wire.{Signer, Block, Libraries, IsReadBack}
use push_anode.Validator.Check.{pass}
use push_anode.Validator.Signers.{
  recover_signer_address, check_signers, check_block_as_snode, only_first_signer,
}

only_first_signer-pos :
    (signers : List Signer) (copy : Block) {b : Block}
    → only_first_signer signers copy ≡ ok b
    → 0 < length signers
unfolding only_first_signer
only_first_signer-pos [] copy e = cc
only_first_signer-pos (s ∷ signers) copy e = omega arith

pub only_first_signer-ok :
    (signers : List Signer) (copy : Block)
    → 0 < length signers
    → (b : Block) × (only_first_signer signers copy ≡ ok b)
unfolding only_first_signer
only_first_signer-ok [] copy h = absurd (omega arith)
only_first_signer-ok (s ∷ signers) copy h = (record copy { signers = s ∷ [] }, refl)

module _ (lib : Libraries) (block : Block) (validators : Set Text) where
  -- Signature `i` is that of a registered validator.
  abbrev pub IsAllowed : ℕ → Type 0
  IsAllowed i =
      (a : Text) × (recover_signer_address lib block i ≡ ok a) × (Set.has validators a ≡ true)

  abbrev AllowedFrom : List Signer → ℕ → Type 0
  AllowedFrom [] i = Unit
  AllowedFrom (s ∷ left) i = IsAllowed i × AllowedFrom left (suc i)

  check_signers_sound :
      (left : List Signer) (i : ℕ)
      → check_signers lib block validators left i ≡ ok pass
      → AllowedFrom left i
  unfolding check_signers
  check_signers_sound [] i e = tt
  check_signers_sound (s ∷ left) i e =
      let (a, p, h) = >>=-eq-ok (recover_signer_address lib block i) _ e in
      elim (Bool-cases (Set.has validators a)) [
        | inl q ↦ ((a, p, q), check_signers_sound left (suc i) (rw q at h))
        | inr q ↦ absurd (ground (arith, q))
      ]

  check_signers_complete :
      (left : List Signer) (i : ℕ)
      → AllowedFrom left i
      → check_signers lib block validators left i ≡ ok pass
  unfolding check_signers
  check_signers_complete [] i h = refl
  check_signers_complete (s ∷ left) i ((a, p, q), h) =
      rw (p, q) (check_signers_complete left (suc i) h)

  AllowedFrom-all :
      (left : List Signer) (i : ℕ)
      → AllowedFrom left i
      → (j : ℕ) → i ≤ j
      → j < i + length left
      → IsAllowed j
  AllowedFrom-all [] i h j p q = absurd (omega arith)
  AllowedFrom-all (s ∷ left) i (here, h) j p q = elim (Bool-cases (i == j)) [
    | inl e ↦ let same : i ≡ j = ground arith in rw (← same) here
    | inr e ↦ AllowedFrom-all left (suc i) h j (ground arith) (omega arith)
  ]

  AllowedFrom-of :
      (left : List Signer) (i : ℕ)
      → ((j : ℕ) → i ≤ j → j < i + length left → IsAllowed j)
      → AllowedFrom left i
  AllowedFrom-of [] i h = tt
  AllowedFrom-of (s ∷ left) i h = (
    h i (omega arith) (omega arith),
    AllowedFrom-of left (suc i) (λ j p q. h j (omega arith) (omega arith)),
  )

  -- If a block is read back from its bytes as it was, a storing node accepts it exactly when it has
  -- the number of signatures that the contract asks for, at least one, and each signature is that of a
  -- registered validator.
  pub check_block_as_snode_iff :
      (n : ℕ)
      → IsReadBack lib block
      → (check_block_as_snode lib block validators n ≡ ok pass)
        ↔ ((length block.signers ≡ n) × (0 < n) × ((i : ℕ) → i < n → IsAllowed i))
  unfolding check_block_as_snode
  check_block_as_snode_iff n read_back = (
    λ e. elim (Bool-cases (length block.signers == n)) [
      | inl q ↦
          let same : length block.signers ≡ n = (nat_beq_iff (length block.signers) n).0 q in
          let run = rw (q, read_back) at e in
          let (b, first, h) = >>=-eq-ok (only_first_signer block.signers block) _ run in
          let allowed = check_signers_sound block.signers 0 h in
          (
            same,
            rw (← same) (only_first_signer-pos block.signers block first),
            λ i lt. AllowedFrom-all block.signers 0 allowed i (omega arith) (omega arith),
          )
      | inr q ↦ absurd (ground (arith, q))
    ],
    λ (same, pos, all).
        let (b, first) = only_first_signer-ok block.signers block (omega arith) in
        rw ((nat_beq_iff (length block.signers) n).1 same, read_back, first)
          (check_signers_complete block.signers 0
            (AllowedFrom-of block.signers 0 (λ j p q. all j (omega arith)))),
  )
