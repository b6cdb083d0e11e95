-- ===== src/Validator/Attestor/Finalized.antt =====
-- A finalized block passes the check of a storing node.
use push_anode.Prelude.{
  ℕ, ◌≡◌, ◌<◌, true, List, [], ◌∷◌, Text, text_eq, nat_eq, ok, arith, length, drop, ◌==◌, >>=-eq-ok,
}
use push_anode.Collections.Set
use push_anode.Collections.Set.{Set}
use push_anode.Wire.{Signer, Block, Libraries}
use push_anode.Validator.Check.{pass, and_then_iff, require_iff}
use push_anode.Validator.Signers.{
  recover_signer_address, check_signers, only_first_signer, check_block_as_snode,
}
use push_anode.Validator.Sdk.{Wallets}
use push_anode.Validator.Attestor.{Limits, check_attestors, check_block_finalized}
use push_anode.Validator.Attestor.Laws.{check_block_as_attestor_iff}

module _ (lib : Libraries) (w : Wallets) (limits : Limits) (block : Block)
    (validators : Set Text) where
  -- The validator and the attestors together are all the signers.
  all_signers :
      (signers : List Signer) (node_id : Text)
      → 0 < length signers
      → recover_signer_address lib block 0 ≡ ok node_id
      → Set.has validators node_id ≡ true
      → check_signers lib block validators (drop 1 signers) 1 ≡ ok pass
      → check_signers lib block validators signers 0 ≡ ok pass
  unfolding check_signers
  all_signers [] node_id some_signer e h rest = absurd (omega (arith, some_signer))
  all_signers (s ∷ signers) node_id some_signer e h rest = rw (e, h) rest

  -- A block that passes as finalized passes the check of a storing node with the same validators
  -- and the same number of signatures.
  pub check_block_finalized-check_block_as_snode :
      (val_per_block : ℕ)
      → check_block_finalized lib w limits block validators val_per_block ≡ ok pass
      → check_block_as_snode lib block validators val_per_block ≡ ok pass
  unfolding check_block_finalized check_attestors check_block_as_snode
  check_block_finalized-check_block_as_snode val_per_block h =
      let (h4, attestors) = (and_then_iff _ _).0 h in
      let (h3, votes) = (and_then_iff _ _).0 h4 in
      let (h2, counts) = (and_then_iff _ _).0 h3 in
      let (attested, count) = (and_then_iff _ _).0 h2 in
      let v = (check_block_as_attestor_iff lib w limits block validators).0 attested in
      let (copy, e, h') =
        >>=-eq-ok (lib.deserialize_block (lib.serialize_block block)) _ attestors in
      let (tmp, e', rest) = >>=-eq-ok (only_first_signer block.signers copy) _ h' in
      let same : (length block.signers == val_per_block) ≡ true = (require_iff _ _).0 count in
      let (node_id, found, known) = v.registered in
      rw (same, e, e') (all_signers block.signers node_id v.signed found known rest)
