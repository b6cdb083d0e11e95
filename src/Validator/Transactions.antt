-- ===== src/Validator/Transactions.antt =====
-- The checks of one transaction in src/modules/validator/blockUtil.ts.
pub mod Laws
pub mod Signed
pub mod Signing
use push_anode.Prelude.{
  ℕ, Bool, true, false, not, List, [], ◌∷◌, Option, none, some, Text, lit, Result, ok, err, ◌>>=◌,
  ◌>>◌, guard, leb, ◌==◌, text_eq, nat_eq, length, starts_with, if◌then◌else◌,
}
use push_anode.Util.Hex.{Bytes, HexError}
use push_anode.Util.Prefix.{hex_0x_to_bytes}
use push_anode.Util.Caip.{CaipAddr, CaipError, parse_caip_address, is_full_caip_address}
use push_anode.Wire.{Transaction, InitDid, Failure, thrown, Libraries}
use push_anode.Validator.Check.{
  SigCheck, valid, refused, CheckError, bad_token, value_transaction, sender_not_full,
  recipient_not_full, short_salt, bad_caip, short_signature, bad_signature, CheckR, pass, fail,
  ◌and_then◌, require,
}
use push_anode.Validator.Signers.{Wallet}
use push_anode.Validator.Sdk.{
  Wallets, message_bytes_to_hash_bytes, check_push_init_did_signature, check_push_init_did_sender,
  check_push_network_signature, check_push_init_did_wallet_mapping,
}

-- ArrayUtil.hasMinSize, for a size that is not 0
unfoldable pub has_min_size : Bytes → ℕ → Bool
has_min_size array min_size = leb min_size (length array)

abbrev pub no_hex : Result HexError Bytes → Result Failure Bytes
no_hex (ok bytes) = ok bytes
no_hex (err e) = err (thrown (lit "hex string contains invalid chars"))

abbrev pub as_check : SigCheck → Result Failure CheckR
as_check valid = ok pass
as_check (refused e) = ok (fail (bad_signature e))

-- A check of the SDK, as a check of the transaction.
abbrev pub sdk_check : Result Failure SigCheck → Result Failure CheckR
sdk_check r = r >>= as_check

module _ (lib : Libraries) (w : Wallets) where
  -- checkValidatorTokenFormat
  unfoldable pub check_validator_token_format : Bytes → Result Failure CheckR
  check_validator_token_format api_token =
      require (bad_token api_token) (starts_with (lit "VT1") (w.utf8_decode api_token))

  -- What was signed: the transaction with no signature.
  unfoldable pub signed_bytes : Transaction → Result Failure Bytes
  signed_bytes tx = do
    tmp ← w.deserialize_tx (lib.serialize_tx tx)
    ok (lib.serialize_tx (record tmp { signature = [] }))

  abbrev check_wallet : Result CaipError CaipAddr → Bytes → Bytes → Result Failure CheckR
  check_wallet (err e) master sig = ok (fail (bad_caip e))
  check_wallet (ok caip) master sig =
      sdk_check (check_push_init_did_wallet_mapping lib w caip.namespace caip.addr master sig)

  -- The loop over walletToEncDerivedKey.
  unfoldable pub check_wallets : List (Text × Bytes) → Bytes → Result Failure CheckR
  check_wallets [] master = ok pass
  check_wallets ((key, sig) ∷ wallets) master =
      check_wallet (parse_caip_address key) master sig and_then check_wallets wallets master

  -- The signatures of a transaction that registers an account.
  unfoldable pub check_init_did : Transaction → CaipAddr → Result Failure CheckR
  check_init_did tx caip = do
    tmp_bytes ← signed_bytes tx
    init_did ← w.deserialize_init_did tx.payload
    master ← no_hex (hex_0x_to_bytes init_did.master_pub_key)
    sdk_check (check_push_init_did_signature lib w master tmp_bytes tx.signature)
        and_then sdk_check (check_push_init_did_sender lib w caip.addr master)
        and_then check_wallets init_did.wallets master

  -- The signature of any other transaction.
  unfoldable pub check_sender : Transaction → CaipAddr → Result Failure CheckR
  check_sender tx caip = do
    tmp_bytes ← signed_bytes tx
    sdk_check (
        check_push_network_signature lib w caip.namespace caip.addr
          (message_bytes_to_hash_bytes lib w tmp_bytes) tx.signature)

  abbrev pub check_signature_of : Transaction → Result CaipError CaipAddr → Result Failure CheckR
  check_signature_of tx (err e) = ok (fail (bad_caip e))
  check_signature_of tx (ok caip) =
      require short_signature (has_min_size tx.signature 4)
      and_then (if tx.category == lit "INIT_DID"
          then check_init_did tx caip
          else check_sender tx caip)

  -- checkTxSignature
  unfoldable pub check_tx_signature : Transaction → Result Failure CheckR
  check_tx_signature tx = check_signature_of tx (parse_caip_address tx.sender)

  abbrev read_only : Result Failure InitDid → Result Failure CheckR
  read_only (err e) = err e
  read_only (ok init_did) = ok pass

  -- checkTxPayload: it makes results that it does not return
  unfoldable pub check_tx_payload : Transaction → Result Failure CheckR
  check_tx_payload tx =
      if tx.category == lit "INIT_DID"
      then read_only (w.deserialize_init_did tx.payload)
      else ok pass

  -- The loop over the recipients.
  unfoldable pub check_recipients : List Text → Result Failure CheckR
  check_recipients [] = ok pass
  check_recipients (r ∷ recipients) =
      require (recipient_not_full r) (is_full_caip_address r) and_then check_recipients recipients

  -- checkTx
  unfoldable pub check_tx : Transaction → Result Failure CheckR
  check_tx tx =
      check_validator_token_format tx.api_token
      and_then require value_transaction (tx.type == 0)
      and_then require (sender_not_full tx.sender) (is_full_caip_address tx.sender)
      and_then check_recipients tx.recipients
      and_then require (short_salt tx.salt) (has_min_size tx.salt 4)
      and_then check_tx_payload tx
      and_then check_tx_signature tx

  -- signTxEVM
  unfoldable pub sign_tx_evm : Wallet → Transaction → Result Failure Transaction
  sign_tx_evm wallet tx = do
    guard (length tx.signature == 0) (thrown (lit "clear the signature field first"))
    ok (record tx {
      signature = wallet.sign (message_bytes_to_hash_bytes lib w (lib.serialize_tx tx));
    })
