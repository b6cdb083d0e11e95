-- ===== src/Queries.antt =====
-- src/modules/block, src/modules/tx and src/rpc.service.ts: what the node answers to readers.
pub mod Order
pub mod Reads
pub mod Pages
pub mod Views
pub mod Blocks
pub mod Txs
pub mod Rpc
pub mod Recent
