-- ===== src/Validator/Transactions/Signing.antt =====
-- signInitDid, signTxSolana and signTxStarkNet of src/modules/validator/blockUtil.ts.
pub mod Laws
use push_anode.Prelude.{
  ℕ, not, [], Text, lit, text_eq, nat_eq, Result, ok, err, ◌>>=◌, ◌>>◌, guard, ◌==◌, length,
}
use push_anode.Util.Hex.{Bytes}
use push_anode.Wire.{Transaction, Failure, thrown, Libraries}
use push_anode.Validator.Signers.{Wallet}
use push_anode.Validator.Sdk.{Wallets, message_bytes_to_hash_bytes}

module _ (lib : Libraries) (w : Wallets) where
  -- What a wallet is given to sign.
  abbrev pub to_sign : Transaction → Bytes
  to_sign tx = message_bytes_to_hash_bytes lib w (lib.serialize_tx tx)

  -- signInitDid; `public_key` is the key of the wallet
  unfoldable pub sign_init_did : Wallet → Text → Transaction → Result Failure Transaction
  sign_init_did wallet public_key tx = do
    guard (length tx.signature == 0) (thrown (lit "clear the signature field first"))
    guard (tx.category == lit "INIT_DID") (thrown (lit "not an INIT_DID transaction"))
    init_did ← w.deserialize_init_did tx.payload
    guard (init_did.master_pub_key == public_key)
        (thrown (lit "masterPublicKey does not match evmWallet publicKey"))
    ok (record tx { signature = wallet.sign (to_sign tx) })

  -- signTxSolana, with nacl's signature by the private key
  unfoldable pub sign_tx_solana : (Bytes → Bytes) → Transaction → Result Failure Transaction
  sign_tx_solana sign tx = do
    guard (length tx.signature == 0) (thrown (lit "clear the signature field first"))
    guard (not (length (sign (to_sign tx)) == 0)) (thrown (lit "Assertion failed"))
    ok (record tx { signature = sign (to_sign tx) })

  -- signTxStarkNet
  unfoldable pub sign_tx_stark_net : (Bytes → Bytes) → Transaction → Result Failure Transaction
  sign_tx_stark_net sign tx = do
    guard (length tx.signature == 0) (thrown (lit "clear the signature field first"))
    ok (record tx { signature = sign (to_sign tx) })
