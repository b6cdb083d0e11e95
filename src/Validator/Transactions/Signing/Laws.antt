-- ===== src/Validator/Transactions/Signing/Laws.antt =====
-- What users sign, and what the check of a signature says of it.
use push_anode.Prelude.{
  ◌≡◌, ◌≤◌, refl, sym, ap, subst, Bool, true, false, [], Text, lit, text_eq, text_beq_iff, nat_eq,
  Result, ok, ◌>>◌, guard, length, ◌==◌,
}
use push_anode.Util.Caip.{CaipAddr, parse_caip_address}
use push_anode.Util.Hex.{Bytes}
use push_anode.Util.Prefix.{hex_0x_to_bytes}
use push_anode.Util.Str.{to_lower_case}
use push_anode.Wire.{Transaction, InitDid, Failure, Libraries}
use push_anode.Validator.Check.{pass}
use push_anode.Validator.Signers.{Wallet}
use push_anode.Validator.Sdk.{
  Wallets, push_addr_to_evm_addr, check_push_init_did_signature, check_push_init_did_sender,
  message_bytes_to_hash_bytes,
}
use push_anode.Validator.Transactions.{
  no_hex, signed_bytes, check_init_did, check_wallets, check_tx_signature,
}
use push_anode.Validator.Transactions.Laws.{has_min_size_iff}
use push_anode.Validator.Transactions.Signed.{ReadsTx, IsWallet, no_bytes}
use push_anode.Validator.Transactions.Signing.{to_sign, sign_init_did}

guard-eq-ok :
    {A : Type 0} (b : Bool) (e : Failure) (next : Result Failure A) {a : A}
    → (guard b e >> next) ≡ ok a
    → (b ≡ true) × (next ≡ ok a)
guard-eq-ok true e next h = (refl, h)
guard-eq-ok false e next h = cc

module _ (lib : Libraries) (w : Wallets) where
  abbrev with_signature : Transaction → Bytes → Transaction
  with_signature tx sig = record tx { signature = sig }

  -- The transaction without its signature is what was signed.
  unsigned :
      (tx : Transaction) (sig : Bytes)
      → tx.signature ≡ []
      → ReadsTx lib w (with_signature tx sig)
      → signed_bytes lib w (with_signature tx sig) ≡ ok (lib.serialize_tx tx)
  unfolding signed_bytes
  unsigned tx sig blank reads =
      rw reads (ap (λ s. ok (lib.serialize_tx (with_signature tx s))) (sym blank))

  init_did_signs :
      (wallet : Wallet) (public_key : Text) (tx signed : Transaction) (init : InitDid)
      → w.deserialize_init_did tx.payload ≡ ok init
      → sign_init_did lib w wallet public_key tx ≡ ok signed
      → (tx.signature ≡ [])
        × (tx.category ≡ lit "INIT_DID")
        × (init.master_pub_key ≡ public_key)
        × (with_signature tx (wallet.sign (to_sign lib w tx)) ≡ signed)
  unfolding sign_init_did
  init_did_signs wallet public_key tx signed init read e =
      let (blank, e1) = guard-eq-ok (length tx.signature == 0) _ _ e in
      let (did, e2) = guard-eq-ok (tx.category == lit "INIT_DID") _ _ e1 in
      let e3 = rw read at e2 in
      let (key, e4) = guard-eq-ok (init.master_pub_key == public_key) _ _ e3 in
      (
        no_bytes tx.signature blank,
        (text_beq_iff tx.category (lit "INIT_DID")).0 did,
        (text_beq_iff init.master_pub_key public_key).0 key,
        cc e4,
      )

  init_did_passes :
      (wallet : Wallet) (tx : Transaction) (init : InitDid) (caip : CaipAddr) (master : Bytes)
      (evm : Text) (msg : Bytes)
      → IsWallet lib w wallet
      → signed_bytes lib w tx ≡ ok msg
      → tx.signature ≡ wallet.sign (message_bytes_to_hash_bytes lib w msg)
      → w.deserialize_init_did tx.payload ≡ ok init
      → no_hex (hex_0x_to_bytes init.master_pub_key) ≡ ok master
      → w.compute_address master ≡ ok wallet.address
      → push_addr_to_evm_addr lib w caip.addr ≡ ok evm
      → to_lower_case evm ≡ to_lower_case wallet.address
      → check_wallets lib w init.wallets master ≡ ok pass
      → check_init_did lib w tx caip ≡ ok pass
  unfolding check_init_did check_push_init_did_signature check_push_init_did_sender
  init_did_passes wallet tx init caip master evm msg good bytes sig read hex address owner same
        wallets =
      rw
        (
          bytes,
          read,
          hex,
          sig,
          address,
          (good (message_bytes_to_hash_bytes lib w msg)).0,
          owner,
          same,
          (text_beq_iff (to_lower_case wallet.address) (to_lower_case wallet.address)).1 refl,
        )
        wallets

  did_checked :
      (tx : Transaction) (caip : CaipAddr)
      → parse_caip_address tx.sender ≡ ok caip
      → tx.category ≡ lit "INIT_DID"
      → 4 ≤ length tx.signature
      → check_init_did lib w tx caip ≡ ok pass
      → check_tx_signature lib w tx ≡ ok pass
  unfolding check_tx_signature
  did_checked tx caip parsed did size checked =
      rw
        (
          parsed,
          (has_min_size_iff tx.signature 4).1 size,
          (text_beq_iff tx.category (lit "INIT_DID")).1 did,
        )
        checked

  -- What signInitDid signs passes the signature check, if it is read back as it was written, its
  -- payload is an INIT_DID whose master key is hexadecimal and has the wallet's address, the
  -- sender's address is the wallet's in any case of its letters, and the accounts it connects pass
  -- their check.
  pub check_tx_signature-sign_init_did :
      (wallet : Wallet) (public_key : Text) (tx signed : Transaction) (init : InitDid)
      (caip : CaipAddr) (master : Bytes) (evm : Text)
      → ReadsTx lib w signed
      → IsWallet lib w wallet
      → parse_caip_address tx.sender ≡ ok caip
      → w.deserialize_init_did tx.payload ≡ ok init
      → no_hex (hex_0x_to_bytes public_key) ≡ ok master
      → w.compute_address master ≡ ok wallet.address
      → push_addr_to_evm_addr lib w caip.addr ≡ ok evm
      → to_lower_case evm ≡ to_lower_case wallet.address
      → check_wallets lib w init.wallets master ≡ ok pass
      → sign_init_did lib w wallet public_key tx ≡ ok signed
      → check_tx_signature lib w signed ≡ ok pass
  check_tx_signature-sign_init_did wallet public_key tx signed init caip master evm reads good
        parsed read hex address owner same wallets e =
      let (blank, did, key, made) = init_did_signs wallet public_key tx signed init read e in
      let msg = to_sign lib w tx in
      let sent = with_signature tx (wallet.sign msg) in
      let checked : check_init_did lib w sent caip ≡ ok pass =
        init_did_passes wallet sent init caip master evm (lib.serialize_tx tx) good
          (unsigned tx (wallet.sign msg) blank (rw made reads)) refl read (rw key hex) address owner
          same wallets in
      subst (λ s. check_tx_signature lib w s ≡ ok pass) made
        (did_checked sent caip parsed did (good msg).1 checked)
