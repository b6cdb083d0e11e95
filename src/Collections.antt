-- ===== src/Collections.antt =====
-- The collections of JavaScript that the program keeps its state in.
pub mod Map
pub mod Set
