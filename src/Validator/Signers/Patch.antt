-- ===== src/Validator/Signers/Patch.antt =====
-- The signature of an attestor before the validator appends it.
use push_anode.Prelude.{
  ◌≡◌, refl, List, [], ◌∷◌, map, ok, length, ◌==◌, nat_eq, Bool-cases, inl, inr, subst,
}
use push_anode.Wire.{TransactionObj, Block, AttestBlockResult, Libraries, IsReadBack}
use push_anode.Validator.Signers.{
  Wallet, with_attestation, accepted_vote, sign_block_as_attestor, patched, recover_patch_address,
}
use push_anode.Validator.Signers.Accepts.{CanRecover}

patched_lem :
    (ts : List TransactionObj)
    → patched ts (map (λ _. accepted_vote) ts) ≡ ok (map (with_attestation accepted_vote) ts)
unfolding patched
patched_lem [] = refl
patched_lem (t ∷ ts) = rw (patched_lem ts) refl

module _ (lib : Libraries) (w : Wallet) (block : Block) where
  abbrev answered : AttestBlockResult
  answered = record {
    attestor_data = map (λ _. accepted_vote) block.tx_obj;
    signer = record {
      sig = w.sign (
          lib.serialize_block
            (record block { tx_obj = map (with_attestation accepted_vote) block.tx_obj }));
    };
  }

  signed :
      IsReadBack lib block
      → (ar : AttestBlockResult) → sign_block_as_attestor lib w block ≡ ok ar
      → answered ≡ ar
  unfolding sign_block_as_attestor
  signed read_back ar e = elim (Bool-cases (length block.signers == 1)) [
    | inl hit ↦ cc (rw (read_back, hit) at e)
    | inr miss ↦ absurd (cc (rw (read_back, miss) at e))
  ]

  -- If a block is read back from its bytes as it was, and the address of the attestor's wallet is
  -- recovered from each of its signatures, then recoverPatchAddress finds that address from the block
  -- and what the attestor answers for it, whenever the attestor gives an answer.
  pub recover_patch_address-sign_block_as_attestor :
      (ar : AttestBlockResult)
      → IsReadBack lib block
      → CanRecover lib w
      → sign_block_as_attestor lib w block ≡ ok ar
      → recover_patch_address lib block ar ≡ ok w.address
  unfolding recover_patch_address
  recover_patch_address-sign_block_as_attestor ar read_back can e =
      subst (λ r. recover_patch_address lib block r ≡ ok w.address) (signed read_back ar e)
        (rw (read_back, patched_lem block.tx_obj) (can _))
