-- ===== src/Validator/Signers/Accepts.antt =====
-- The signing side against the checking side: what registered wallets sign is accepted.
use mathlib.Core.List.{map-append}
use push_anode.Prelude.{
  ℕ, zero, suc, ◌<◌, ◌≡◌, refl, ap, true, List, [], ◌∷◌, ◌++◌, map, some, Text, ok, nat_eq, text_eq,
  length, get_elem?, All, arith, length-append, length-map,
}
use push_anode.Collections.Set
use push_anode.Collections.Set.{Set}
use push_anode.Util.Hex.{Bytes}
use push_anode.Wire.{
  Signer, TxAttestorData, TransactionObj, Block, AttestBlockResult, Libraries, IsReadBack,
}
use push_anode.Validator.Check.{pass}
use push_anode.Validator.Signers.{
  Wallet, clear_attestations, with_attestation, only_attestation, recover_validator,
  recover_attestor, recover_signer_address, check_block_as_snode, vote_as_validator, accepted_vote,
  append_votes, append_patch_as_validator, sign_block_as_validator, sign_block_as_attestor,
  only_first_signer,
}
use push_anode.Validator.Signers.Laws.{IsAllowed, check_block_as_snode_iff}

-- A signature of the wallet recovers to its address: the documented behaviour of ethers.
abbrev pub CanRecover : Libraries → Wallet → Type 0
CanRecover lib w = (m : Bytes) → lib.recover_address m (w.sign m) ≡ ok w.address

-- `signed` is the block that the validator signed; `IsAttested lib signed ws block` says that the
-- attestors `ws` signed it in turn, and that the validator appended each patch.
pub data IsAttested (lib : Libraries) (signed : Block) : List Wallet → Block → Type 0 where
  alone : IsAttested lib signed [] signed
  attested :
      {ws : List Wallet} {block : Block} (w : Wallet) (ar : AttestBlockResult) (next : Block)
      → IsAttested lib signed ws block
      → sign_block_as_attestor lib w signed ≡ ok ar
      → append_patch_as_validator block ar ≡ ok next
      → IsAttested lib signed (ws ++ (w ∷ [])) next

abbrev replicate : ℕ → TxAttestorData → List TxAttestorData
replicate zero a = []
replicate (suc k) a = a ∷ replicate k a

abbrev votes : ℕ → TransactionObj → TransactionObj
votes k t = record t { attestor_data = replicate k accepted_vote }

replicate-push : (k : ℕ) (a : TxAttestorData) → replicate k a ++ (a ∷ []) ≡ replicate (suc k) a
replicate-push zero a = refl
replicate-push (suc k) a = ap (◌∷◌ a) (replicate-push k a)

append_votes_lem :
    (k : ℕ) (ts : List TransactionObj)
    → append_votes (map (votes k) ts) (map (λ _. accepted_vote) ts) ≡ ok (map (votes (suc k)) ts)
unfolding append_votes
append_votes_lem k [] = refl
append_votes_lem k (t ∷ ts) = rw (append_votes_lem k ts, replicate-push k accepted_vote)

get_elem?-replicate : (k n : ℕ) (a : TxAttestorData) → k < n → get_elem? (replicate n a) k ≡ some a
get_elem?-replicate k zero a h = absurd (omega arith)
get_elem?-replicate zero (suc n) a h = refl
get_elem?-replicate (suc k) (suc n) a h = get_elem?-replicate k n a (omega arith)

only_attestation_lem :
    (k n : ℕ) (ts : List TransactionObj)
    → k < n
    → only_attestation k (map (votes n) ts) (map (votes n) ts)
      ≡ ok (map (with_attestation accepted_vote) ts)
unfolding only_attestation
only_attestation_lem k n [] h = refl
only_attestation_lem k n (t ∷ ts) h =
    rw (get_elem?-replicate k n accepted_vote h, only_attestation_lem k n ts h)

clear-votes :
    (n : ℕ) (ts : List TransactionObj)
    → map clear_attestations (map (votes n) (map vote_as_validator ts)) ≡ map vote_as_validator ts
clear-votes n [] = refl
clear-votes n (t ∷ ts) = ap (◌∷◌ (vote_as_validator t)) (clear-votes n ts)

votes_none :
    (ts : List TransactionObj) → map (votes 0) (map vote_as_validator ts) ≡ map vote_as_validator ts
votes_none [] = refl
votes_none (t ∷ ts) = ap (◌∷◌ (vote_as_validator t)) (votes_none ts)

nil_of_length : (l : List Signer) → length l ≡ 0 → l ≡ []
nil_of_length [] e = refl
nil_of_length (s ∷ l) e = absurd (omega arith)

length_snoc : (ws : List Wallet) (w : Wallet) → length (ws ++ (w ∷ [])) ≡ suc (length ws)
length_snoc ws w = omega (arith, length-append ws (w ∷ []))

get_elem?-map :
    (f : Wallet → Signer) (ws : List Wallet) (k : ℕ) {w : Wallet}
    → get_elem? ws k ≡ some w
    → get_elem? (map f ws) k ≡ some (f w)
get_elem?-map f [] k e = cc
get_elem?-map f (x ∷ ws) zero e = cc
get_elem?-map f (x ∷ ws) (suc k) e = get_elem?-map f ws k e

get_elem?-lt : (ws : List Wallet) (k : ℕ) {w : Wallet} → get_elem? ws k ≡ some w → k < length ws
get_elem?-lt [] k e = cc
get_elem?-lt (x ∷ ws) zero e = omega arith
get_elem?-lt (x ∷ ws) (suc k) e = omega (arith, get_elem?-lt ws k e)

module _ (lib : Libraries) (v : Wallet) (b : Block) where
  abbrev voted : Block
  voted = record b { tx_obj = map vote_as_validator b.tx_obj; signers = [] }

  abbrev validator_signer : Signer
  validator_signer = record { sig = v.sign (lib.serialize_block voted) }

  abbrev attestor_view : Block
  attestor_view = record voted {
    tx_obj = map (with_attestation accepted_vote) voted.tx_obj;
    signers = validator_signer ∷ [];
  }

  abbrev attestor_signer : Wallet → Signer
  attestor_signer w = record { sig = w.sign (lib.serialize_block attestor_view) }

  abbrev final : List Wallet → Block
  final ws = record voted {
    tx_obj = map (votes (length ws)) voted.tx_obj;
    signers = validator_signer ∷ map attestor_signer ws;
  }

  abbrev signed_block : Block
  signed_block = record voted { signers = validator_signer ∷ [] }

  abbrev patch : Wallet → AttestBlockResult
  patch w = record {
    attestor_data = map (λ _. accepted_vote) voted.tx_obj;
    signer = attestor_signer w;
  }

  sign_validator :
      (signed : Block) → sign_block_as_validator lib v b ≡ ok signed → signed_block ≡ signed
  unfolding sign_block_as_validator
  sign_validator signed e = ground (arith, nil_of_length b.signers)

  sign_attestor :
      (w : Wallet)
      → IsReadBack lib signed_block
      → sign_block_as_attestor lib w signed_block ≡ ok (patch w)
  unfolding sign_block_as_attestor
  sign_attestor w read_back = rw read_back

  append_patch :
      (ws : List Wallet) (w : Wallet)
      → append_patch_as_validator (final ws) (patch w) ≡ ok (final (ws ++ (w ∷ [])))
  unfolding append_patch_as_validator
  append_patch ws w = rw (
    append_votes_lem (length ws) voted.tx_obj,
    length_snoc ws w,
    map-append attestor_signer ws (w ∷ []),
  )

  IsAttested-final :
      {ws : List Wallet} {block : Block}
      → IsReadBack lib signed_block
      → IsAttested lib signed_block ws block
      → final ws ≡ block
  IsAttested-final read_back alone = rw (votes_none b.tx_obj)
  IsAttested-final read_back (attested {ws} {block} w ar next h s p) =
      let same = IsAttested-final read_back h in
      cc (s, p, same, sign_attestor w read_back, append_patch ws w)

  recover_first :
      (ws : List Wallet)
      → IsReadBack lib (final ws)
      → CanRecover lib v
      → recover_signer_address lib (final ws) 0 ≡ ok v.address
  unfolding recover_signer_address recover_validator
  recover_first ws read_back can = rw (read_back, clear-votes (length ws) b.tx_obj) (can _)

  recover_other :
      (ws : List Wallet) (k : ℕ) (w : Wallet)
      → get_elem? ws k ≡ some w
      → IsReadBack lib (final ws)
      → CanRecover lib w
      → recover_signer_address lib (final ws) (suc k) ≡ ok w.address
  unfolding recover_signer_address recover_attestor only_first_signer
  recover_other ws k w e read_back can =
      rw
        (
          get_elem?-map attestor_signer ws k e,
          read_back,
          only_attestation_lem k (length ws) voted.tx_obj (get_elem?-lt ws k e),
        )
        (can _)

-- A wallet whose signatures recover to its address, which the contract has registered.
abbrev pub IsRegistered : Libraries → Set Text → Wallet → Type 0
IsRegistered lib validators w = CanRecover lib w × (Set.has validators w.address ≡ true)

IsRegistered-at :
    (lib : Libraries) (validators : Set Text) (ws : List Wallet) (k : ℕ)
    → All (IsRegistered lib validators) ws
    → k < length ws
    → (w : Wallet) × (get_elem? ws k ≡ some w) × IsRegistered lib validators w
IsRegistered-at lib validators [] k h lt = absurd (omega arith)
IsRegistered-at lib validators (w ∷ ws) zero h lt = (w, refl, h.0)
IsRegistered-at lib validators (w ∷ ws) (suc k) h lt =
    IsRegistered-at lib validators ws k h.1 (omega arith)

module _ (lib : Libraries) (validators : Set Text) (v : Wallet) (ws : List Wallet) (b : Block) where
  allowed :
      IsReadBack lib (final lib v b ws)
      → IsRegistered lib validators v
      → All (IsRegistered lib validators) ws
      → (i : ℕ) → i < suc (length ws)
      → IsAllowed lib (final lib v b ws) validators i
  allowed read_back (can, has) hs zero lt = (v.address, recover_first lib v b ws read_back can, has)
  allowed read_back hv hs (suc k) lt =
      let (w, at_k, (can, has)) = IsRegistered-at lib validators ws k hs (omega arith) in
      (w.address, recover_other lib v b ws k w at_k read_back can, has)

  -- What a registered validator signs and registered attestors attest, in any number, is accepted
  -- by a storing node whose contract asks for that many signatures, if these blocks are read back as
  -- they were written.
  pub check_block_as_snode-signed :
      (signed block : Block)
      → IsReadBack lib signed
      → IsReadBack lib block
      → IsRegistered lib validators v
      → All (IsRegistered lib validators) ws
      → sign_block_as_validator lib v b ≡ ok signed
      → IsAttested lib signed ws block
      → check_block_as_snode lib block validators (suc (length ws)) ≡ ok pass
  check_block_as_snode-signed signed block reads_signed reads_block hv hs sign attest =
      let same = sign_validator lib v b signed sign in
      let done =
        IsAttested-final lib v b {ws = ws} {block = block} (rw same reads_signed)
          (rw same attest) in
      let reads_final : IsReadBack lib (final lib v b ws) = rw done reads_block in
      rw (← done) (
        (check_block_as_snode_iff lib (final lib v b ws) validators (suc (length ws)) reads_final).1
          (
            ap suc (length-map (attestor_signer lib v b) ws),
            omega arith,
            allowed reads_final hv hs,
          ))
