-- ===== src/Util.antt =====
-- The helpers of src/utilz that the services share.
pub mod Hex
pub mod Base64
pub mod Value
pub mod Time
pub mod Str
pub mod Prefix
pub mod Split
pub mod Caip
