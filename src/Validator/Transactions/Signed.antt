-- ===== src/Validator/Transactions/Signed.antt =====
-- The signature of a transaction whose sender is an Ethereum address.
use push_anode.Prelude.{
  ◌≡◌, ◌≢◌, ◌↔◌, ◌≤◌, refl, sym, ap, true, [], ◌∷◌, Text, lit, text_eq, text_beq, text_beq_iff,
  nat_eq, ok, arith, length, ◌==◌, Bool-cases, Result-cases, subst, inl, inr,
}
use push_anode.Util.Hex.{Bytes}
use push_anode.Util.Caip.{CaipAddr, parse_caip_address}
use push_anode.Wire.{Transaction, Libraries}
use push_anode.Validator.Check.{pass, and_then_iff, require_iff}
use push_anode.Validator.Signers.{Wallet}
use push_anode.Validator.Sdk.{
  Wallets, message_bytes_to_hash_bytes, check_push_network_signature, check_evm,
}
use push_anode.Validator.Transactions.{
  signed_bytes, check_sender, check_tx_signature, sdk_check, sign_tx_evm,
}
use push_anode.Validator.Transactions.Laws.{has_min_size_iff}

pub no_bytes : (s : Bytes) → (length s == 0) ≡ true → s ≡ []
no_bytes [] e = refl
no_bytes (b ∷ s) e = absurd (ground arith)

module _ (lib : Libraries) (w : Wallets) where
  -- The transaction is read back as it was written.
  abbrev pub ReadsTx : Transaction → Type 0
  ReadsTx tx = w.deserialize_tx (lib.serialize_tx tx) ≡ ok tx

  -- What the sender signed.
  abbrev pub message_of : Transaction → Bytes
  message_of tx =
      message_bytes_to_hash_bytes lib w (lib.serialize_tx (record tx { signature = [] }))

  evm_iff :
      (addr : Text) (msg sig : Bytes)
      → (sdk_check (check_evm lib w addr msg sig) ≡ ok pass) ↔ (w.verify_message msg sig ≡ ok addr)
  evm_iff addr msg sig = elim (Result-cases (w.verify_message msg sig)) [
    | inl (r, p) ↦ rw p (ground (arith, text_beq_iff r addr))
    | inr (e, p) ↦ rw p (λ h. cc, λ h. cc)
  ]

  sender_iff :
      (tx : Transaction) (caip : CaipAddr)
      → ReadsTx tx
      → caip.namespace ≡ lit "eip155"
      → (check_sender lib w tx caip ≡ ok pass)
        ↔ (w.verify_message (message_of tx) tx.signature ≡ ok caip.addr)
  unfolding check_sender signed_bytes check_push_network_signature text_beq
  sender_iff tx caip reads evm = rw (reads, evm) (evm_iff caip.addr (message_of tx) tx.signature)

  -- A transaction that is not an INIT_DID and whose sender is an address of the namespace eip155 has
  -- a good signature exactly when the signature has 4 bytes and the address recovered from it and
  -- the unsigned transaction is the sender's, if the transaction is read back as it was written.
  pub check_tx_signature_evm_iff :
      (tx : Transaction) (caip : CaipAddr)
      → ReadsTx tx
      → tx.category ≢ lit "INIT_DID"
      → parse_caip_address tx.sender ≡ ok caip
      → caip.namespace ≡ lit "eip155"
      → (check_tx_signature lib w tx ≡ ok pass) ↔ (
          (4 ≤ length tx.signature)
          × (w.verify_message (message_of tx) tx.signature ≡ ok caip.addr))
  unfolding check_tx_signature
  check_tx_signature_evm_iff tx caip reads other parsed evm =
      elim (Bool-cases (tx.category == lit "INIT_DID")) [
        | inl hit ↦ absurd (other ((text_beq_iff _ _).0 hit))
        | inr miss ↦
            rw (parsed, miss)
              (
                λ h.
                    let (size, sig) = (and_then_iff _ _).0 h in
                    (
                      (has_min_size_iff tx.signature 4).0 ((require_iff _ _).0 size),
                      (sender_iff tx caip reads evm).0 sig,
                    ),
                λ (size, sig). (and_then_iff _ _).1 (
                  (require_iff _ _).1 ((has_min_size_iff tx.signature 4).1 size),
                  (sender_iff tx caip reads evm).1 sig,
                ),
              )
      ]

  -- The wallet's signatures name its address, and have 4 bytes.
  abbrev pub IsWallet : Wallet → Type 0
  IsWallet wallet =
      (m : Bytes)
      → (w.verify_message m (wallet.sign m) ≡ ok wallet.address) × (4 ≤ length (wallet.sign m))

  unsigned : (tx : Transaction) → tx.signature ≡ [] → record tx { signature = [] } ≡ tx
  unsigned tx e = ap (λ s. record tx { signature = s }) (sym e)

  signs :
      (wallet : Wallet) (tx : Transaction) (signed : Transaction)
      → sign_tx_evm lib w wallet tx ≡ ok signed
      → (tx.signature ≡ [])
        × (record tx {
          signature = wallet.sign (message_bytes_to_hash_bytes lib w (lib.serialize_tx tx));
        }
            ≡ signed)
  unfolding sign_tx_evm
  signs wallet tx signed e = elim (Bool-cases (length tx.signature == 0)) [
    | inl hit ↦ (no_bytes tx.signature hit, cc (rw hit at e))
    | inr miss ↦ absurd (cc (rw miss at e))
  ]

  -- What signTxEVM signs for a sender whose address is the wallet's passes the signature check, if
  -- it is read back as it was written.
  pub check_tx_signature-sign_tx_evm :
      (wallet : Wallet) (tx : Transaction) (signed : Transaction) (caip : CaipAddr)
      → ReadsTx signed
      → IsWallet wallet
      → tx.category ≢ lit "INIT_DID"
      → parse_caip_address tx.sender ≡ ok caip
      → caip.namespace ≡ lit "eip155"
      → caip.addr ≡ wallet.address
      → sign_tx_evm lib w wallet tx ≡ ok signed
      → check_tx_signature lib w signed ≡ ok pass
  check_tx_signature-sign_tx_evm wallet tx signed caip reads good other parsed evm owner e =
      let (blank, same) = signs wallet tx signed e in
      let msg = message_bytes_to_hash_bytes lib w (lib.serialize_tx tx) in
      let sent : Transaction = record tx { signature = wallet.sign msg } in
      let now : message_of sent ≡ msg =
        ap (λ t. message_bytes_to_hash_bytes lib w (lib.serialize_tx t)) (unsigned tx blank) in
      subst (λ s. check_tx_signature lib w s ≡ ok pass) same
        ((check_tx_signature_evm_iff sent caip (rw same reads) other parsed evm).1
          ((good msg).1, rw (now, owner) (good msg).0))
