-- ===== src/Wire.antt =====
-- The messages of src/proto/push/block.proto (in the program: src/generated/push/block_pb), and
-- the libraries that work on them as parameters.
pub mod Jspb
pub mod Push
pub mod Generated
use push_anode.Prelude.{ℕ, ◌≡◌, List, Option, Text, Result, ok}
use push_anode.Util.Hex.{Bytes}
use push_anode.Util.Value.{Value}

pub record Signer : Type 0 where
  pub sig : Bytes

-- A vote is an open enumeration: any number can arrive.
abbrev pub accepted : ℕ
accepted = 1

abbrev pub rejected : ℕ
rejected = 2

pub record TxValidatorData : Type 0 where
  pub vote : ℕ
  pub did_mapping : Option (List (Text × Text))

pub record TxAttestorData : Type 0 where
  pub vote : ℕ

pub record Transaction : Type 0 where
  pub type : ℕ
  pub category : Text
  pub sender : Text
  pub recipients : List Text
  pub payload : Bytes
  pub salt : Bytes
  pub api_token : Bytes
  pub signature : Bytes
  pub fee : Text

pub record TransactionObj : Type 0 where
  pub tx : Option Transaction
  pub validator_data : Option TxValidatorData
  pub attestor_data : List TxAttestorData

pub record Block : Type 0 where
  pub ts : ℕ
  pub attest_token : Bytes
  pub tx_obj : List TransactionObj
  pub signers : List Signer

pub record AttestBlockResult : Type 0 where
  pub attestor_data : List TxAttestorData
  pub signer : Signer

-- `signature` is the field walletToEncDerivedKey[wallet].signature.
pub record InitDid : Type 0 where
  pub master_pub_key : Text
  pub derived_pub_key : Text
  pub wallets : List (Text × Bytes)

-- An exception: of a library with its message, of the runtime on a missing value, or thrown by
-- the program's own code.
pub data Failure : Type 0 where
  library : Text → Failure
  type_error : Failure
  thrown : Text → Failure

-- google-protobuf, the hash functions and ethers: what they compute is not under src/.
pub record Libraries : Type 0 where
  pub serialize_block : Block → Bytes
  pub deserialize_block : Bytes → Result Failure Block
  pub serialize_tx : Transaction → Bytes
  pub block_to_object : Block → Value
  pub tx_obj_to_object : TransactionObj → Value
  pub sha256 : Bytes → Bytes
  pub crypto_js_sha256 : Bytes → Bytes
  pub recover_address : Bytes → Bytes → Result Failure Text

-- The block is read back as it was written.
abbrev pub IsReadBack : Libraries → Block → Type 0
IsReadBack lib b = lib.deserialize_block (lib.serialize_block b) ≡ ok b
