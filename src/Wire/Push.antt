-- ===== src/Wire/Push.antt =====
-- src/generated/push/block_pb.js: the form of the messages as bytes and as objects, over the
-- interface to google-protobuf. A message is a record of its fields, where a field that is not set
-- has the default, as the getters answer it.
pub mod Signer
pub mod TxAttestorData
pub mod DidMapping
pub mod TxValidatorData
pub mod Transaction
pub mod TransactionObj
pub mod Block
pub mod Json
pub mod Ends
