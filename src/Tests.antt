-- ===== src/Tests.antt =====
-- Concrete runs, and the theorems at inputs that meet their hypotheses.
mod Codec
mod Signers
mod Signing
mod Utils
mod Tables
mod Reads
mod Queries
mod Steps
mod Jspb
mod Recent
mod Messages
mod Sync
mod Contract
mod Archive
mod Sent
mod Polling
mod Sockets
mod Checks
