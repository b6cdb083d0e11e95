-- ===== src/Validator/Signers.antt =====
-- The signatures of a block, in src/modules/validator/blockUtil.ts: who signed it, the check that a
-- storing node makes, and the signing side.
-- The first signer is the validator, who signs the block with no signer and no attestation. Each
-- other signer signs it with the validator's signature and its own attestation of each transaction.
pub mod Laws
pub mod Accepts
pub mod Patch
use push_anode.Prelude.{
  ℕ, zero, suc, ◌+◌, ◌-◌, Bool, true, false, List, [], ◌∷◌, ◌++◌, map, Option, none, some, Text,
  lit, Result, ok, err, ◌>>=◌, ◌>>◌, guard, ltb, ◌==◌, nat_eq, text_eq, length, get_elem?,
  if◌then◌else◌,
}
use push_anode.Collections.Set
use push_anode.Collections.Set.{Set}
use push_anode.Util.Hex.{Bytes}
use push_anode.Validator.Check.{
  CheckR, pass, fail, wrong_signature_count, unregistered_validator, defined,
}
use push_anode.Wire.{
  Signer, TxAttestorData, TxValidatorData, TransactionObj, Block, AttestBlockResult, Failure,
  type_error, thrown, Libraries, accepted,
}

abbrev pub clear_attestations : TransactionObj → TransactionObj
clear_attestations t = record t { attestor_data = [] }

abbrev pub with_attestation : TxAttestorData → TransactionObj → TransactionObj
with_attestation a t = record t { attestor_data = a ∷ [] }

-- tmpBlock.setSignersList([block.getSignersList()[0]]), which throws if there is none
unfoldable pub only_first_signer : List Signer → Block → Result Failure Block
only_first_signer signers tmp_block = do
  v ← defined (get_elem? signers 0)
  ok (record tmp_block { signers = v ∷ [] })

-- The loop that leaves attestation `k` of each transaction: over the copy and the original.
unfoldable pub only_attestation :
    ℕ → List TransactionObj → List TransactionObj → Result Failure (List TransactionObj)
only_attestation k [] original = ok []
only_attestation k (t ∷ ts) [] = err type_error
only_attestation k (t ∷ ts) (o ∷ os) = do
  a ← defined (get_elem? o.attestor_data k)
  rest ← only_attestation k ts os
  ok (with_attestation a t ∷ rest)

module _ (lib : Libraries) where
  open lib use {serialize_block, deserialize_block, recover_address}

  unfoldable pub recover_validator : Block → Signer → Result Failure Text
  recover_validator block v = do
    tmp_block ← deserialize_block (serialize_block block)
    recover_address
        (serialize_block
          (record tmp_block { signers = []; tx_obj = map clear_attestations tmp_block.tx_obj }))
        v.sig

  unfoldable pub recover_attestor : Block → ℕ → Signer → Result Failure Text
  recover_attestor block k att = do
    copy ← deserialize_block (serialize_block block)
    tmp_block ← only_first_signer block.signers copy
    attested ← only_attestation k tmp_block.tx_obj block.tx_obj
    recover_address (serialize_block (record tmp_block { tx_obj = attested })) att.sig

  abbrev recover_at : Block → ℕ → Signer → Result Failure Text
  recover_at block zero signer = recover_validator block signer
  recover_at block (suc k) signer = recover_attestor block k signer

  abbrev recover_from : Block → ℕ → Option Signer → Result Failure Text
  recover_from block signer_index none = err (thrown (lit "signer out of index"))
  recover_from block signer_index (some signer) = recover_at block signer_index signer

  -- recoverSignerAddress
  unfoldable pub recover_signer_address : Block → ℕ → Result Failure Text
  recover_signer_address block signer_index =
      recover_from block signer_index (get_elem? block.signers signer_index)

  -- The loop over the signers that are left, from index `att_index` on.
  unfoldable pub check_signers : Block → Set Text → List Signer → ℕ → Result Failure CheckR
  check_signers block validators [] att_index = ok pass
  check_signers block validators (s ∷ left) att_index = do
    let next = check_signers block validators left (suc att_index)
    att_node_id ← recover_signer_address block att_index
    if Set.has validators att_node_id then next else ok (fail (unregistered_validator att_node_id))

  -- checkBlockAsSNode
  unfoldable pub check_block_as_snode : Block → Set Text → ℕ → Result Failure CheckR
  check_block_as_snode block validators val_per_block =
      if length block.signers == val_per_block
      then (do
        copy ← deserialize_block (serialize_block block)
        tmp_block ← only_first_signer block.signers copy
        check_signers block validators block.signers 0)
      else ok (fail (wrong_signature_count (length block.signers) val_per_block))

-- A wallet of ethers: its address, and `wallet.signMessage` on bytes.
pub record Wallet : Type 0 where
  pub address : Text
  pub sign : Bytes → Bytes

abbrev pub vote_as_validator : TransactionObj → TransactionObj
vote_as_validator t = record t {
  validator_data = some (record { vote = accepted; did_mapping = none });
  attestor_data = [];
}

abbrev pub accepted_vote : TxAttestorData
accepted_vote = record { vote = accepted }

-- The loop of appendPatchAsValidator, over the transactions and the votes of the patch. The code
-- stores a missing vote as undefined, on which the next serialisation throws; here it throws at once.
unfoldable pub append_votes :
    List TransactionObj → List TxAttestorData → Result Failure (List TransactionObj)
append_votes [] votes = ok []
append_votes (t ∷ ts) [] = err type_error
append_votes (t ∷ ts) (v ∷ votes) = do
  rest ← append_votes ts votes
  ok (record t { attestor_data = t.attestor_data ++ (v ∷ []) } ∷ rest)

-- appendPatchAsValidator
unfoldable pub append_patch_as_validator : Block → AttestBlockResult → Result Failure Block
append_patch_as_validator block ar = do
  tx_obj ← append_votes block.tx_obj ar.attestor_data
  ok (record block { tx_obj = tx_obj; signers = block.signers ++ (ar.signer ∷ []) })

module _ (lib : Libraries) where
  open lib use {serialize_block, deserialize_block}

  -- signBlockAsValidator
  unfoldable pub sign_block_as_validator : Wallet → Block → Result Failure Block
  sign_block_as_validator wallet block = do
    guard (length block.signers == 0) (thrown (lit "Assertion failed"))
    let voted : Block = record block { tx_obj = map vote_as_validator block.tx_obj }
    let signer : Signer = record { sig = wallet.sign (serialize_block voted) }
    ok (record voted { signers = signer ∷ [] })

  -- signBlockAsAttestor
  unfoldable pub sign_block_as_attestor : Wallet → Block → Result Failure AttestBlockResult
  sign_block_as_attestor wallet block = do
    tmp_block ← deserialize_block (serialize_block block)
    guard (length block.signers == 1) (thrown (lit "Assertion failed"))
    let attested : Block = record tmp_block {
      tx_obj = map (with_attestation accepted_vote) tmp_block.tx_obj;
    }
    ok (record {
      attestor_data = map (λ _. accepted_vote) tmp_block.tx_obj;
      signer = record { sig = wallet.sign (serialize_block attested) };
    })

-- Each transaction of the copy with the attestation that the attestor sent for it.
unfoldable pub patched :
    List TransactionObj → List TxAttestorData → Result Failure (List TransactionObj)
patched [] votes = ok []
patched (t ∷ ts) [] = err type_error
patched (t ∷ ts) (vote ∷ votes) = do rest ← patched ts votes; ok (with_attestation vote t ∷ rest)

module _ (lib : Libraries) where
  -- recoverPatchAddress: unlike recoverSignerAddress it leaves every signer in the copy
  unfoldable pub recover_patch_address : Block → AttestBlockResult → Result Failure Text
  recover_patch_address block ar = do
    tmp_block ← lib.deserialize_block (lib.serialize_block block)
    attested ← patched tmp_block.tx_obj ar.attestor_data
    lib.recover_address (lib.serialize_block (record tmp_block { tx_obj = attested })) ar.signer.sig
