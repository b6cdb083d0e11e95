-- ===== src/Validator.antt =====
-- src/modules/validator/.
pub mod Check
pub mod Signers
pub mod Contract
pub mod Sdk
pub mod Transactions
pub mod Attestor
pub mod Shards
