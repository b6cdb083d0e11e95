-- ===== src/Validator/Sdk.antt =====
-- src/modules/validator/pushSdkUtil.ts: the signatures of users and of their wallets.
use push_anode.Prelude.{Bool, ◌++◌, Text, lit, Result, ok, ◌>>=◌, ◌==◌, text_eq, if◌then◌else◌}
use push_anode.Util.Hex.{Bytes, bytes_to_base16}
use push_anode.Util.Str.{to_lower_case}
use push_anode.Wire.{Transaction, InitDid, Failure, Libraries}
use push_anode.Validator.Check.{
  SigError, init_did_signature, init_did_sender, init_did_mapping, differs_from_recovered,
  not_signed, unsupported_chain, SigCheck, valid, refused,
}

-- ethers, nacl, bs58 and bech32, the codec of transactions and the UTF-8 decoder: not under src/.
-- `bech32_bytes` is bech32m.fromWords(bech32m.decode(address).words).
pub record Wallets : Type 0 where
  pub deserialize_tx : Bytes → Result Failure Transaction
  pub deserialize_init_did : Bytes → Result Failure InitDid
  pub utf8_decode : Bytes → Text
  pub utf8_encode : Text → Bytes
  pub compute_address : Bytes → Result Failure Text
  pub verify_message : Bytes → Bytes → Result Failure Text
  pub bech32_bytes : Text → Result Failure Bytes
  pub get_address : Text → Result Failure Text
  pub base58_decode : Text → Result Failure Bytes
  pub verify_detached : Bytes → Bytes → Bytes → Result Failure Bool

-- toHex0x
unfoldable pub to_hex_0x : Bytes → Text
to_hex_0x value = lit "0x" ++ bytes_to_base16 value

module _ (lib : Libraries) (w : Wallets) where
  -- messageBytesToHashBytes; UTF-8 of ASCII text is the text
  unfoldable pub message_bytes_to_hash_bytes : Bytes → Bytes
  message_bytes_to_hash_bytes payload = to_hex_0x (lib.sha256 payload)

  -- pushAddrToEvmAddr
  unfoldable pub push_addr_to_evm_addr : Text → Result Failure Text
  push_addr_to_evm_addr address = do bytes ← w.bech32_bytes address; w.get_address (to_hex_0x bytes)

  abbrev equal : Text → Text → SigError → SigCheck
  equal a b e = if a == b then valid else refused e

  -- checkPushInitDidSignature
  unfoldable pub check_push_init_did_signature : Bytes → Bytes → Bytes → Result Failure SigCheck
  check_push_init_did_signature master_public_key msg_bytes sig = do
    master ← w.compute_address master_public_key
    recovered ← w.verify_message (message_bytes_to_hash_bytes msg_bytes) sig
    ok (
        equal (to_lower_case recovered) (to_lower_case master)
          (init_did_signature (to_lower_case master) (to_lower_case recovered)))

  -- checkPushInitDidSender
  unfoldable pub check_push_init_did_sender : Text → Bytes → Result Failure SigCheck
  check_push_init_did_sender caip_addr master_public_key = do
    evm ← push_addr_to_evm_addr caip_addr
    master ← w.compute_address master_public_key
    ok (
        equal (to_lower_case evm) (to_lower_case master)
          (init_did_sender caip_addr (to_lower_case master)))

  -- buildConnectAccountString
  unfoldable pub build_connect_account_string : Bytes → Bytes
  build_connect_account_string master_public_key =
      lit "Connect Account To PUSH_DID:" ++ bytes_to_base16 (lib.sha256 master_public_key)

  abbrev check_push : Text → Bytes → Bytes → Result Failure SigCheck
  check_push caip_addr msg_bytes sig = do
    evm ← push_addr_to_evm_addr caip_addr
    recovered ← w.verify_message msg_bytes sig
    ok (
        equal (to_lower_case recovered) (to_lower_case evm)
          (differs_from_recovered caip_addr recovered))

  abbrev pub check_evm : Text → Bytes → Bytes → Result Failure SigCheck
  check_evm caip_addr msg_bytes sig = do
    recovered ← w.verify_message msg_bytes sig
    ok (equal recovered caip_addr (differs_from_recovered caip_addr recovered))

  abbrev check_solana : Text → Bytes → Bytes → Result Failure SigCheck
  check_solana caip_addr msg_bytes sig = do
    key ← w.base58_decode caip_addr
    good ← w.verify_detached msg_bytes sig key
    ok (if good then valid else refused (not_signed caip_addr))

  -- checkPushNetworkSignature
  unfoldable pub check_push_network_signature :
      Text → Text → Bytes → Bytes → Result Failure SigCheck
  check_push_network_signature caip_namespace caip_addr msg_bytes sig =
      if caip_namespace == lit "push"
      then check_push caip_addr msg_bytes sig
      else if caip_namespace == lit "eip155"
      then check_evm caip_addr msg_bytes sig
      else if caip_namespace == lit "solana"
      then check_solana caip_addr msg_bytes sig
      else ok (refused (unsupported_chain caip_namespace))

  abbrev mapping : Text → SigCheck → SigCheck
  mapping caip_addr valid = valid
  mapping caip_addr (refused e) = refused (init_did_mapping caip_addr e)

  -- checkPushInitDidWalletMapping
  unfoldable pub check_push_init_did_wallet_mapping :
      Text → Text → Bytes → Bytes → Result Failure SigCheck
  check_push_init_did_wallet_mapping caip_namespace caip_addr master_public_key sig = do
    check ←
        check_push_network_signature caip_namespace caip_addr
          (build_connect_account_string master_public_key) sig
    ok (mapping caip_addr check)
