-- ===== src/Support.antt =====
-- S-expressions and the scoped cache (include/gazer/Support, src/Support, include/gazer/ADT).
pub mod Sexpr
pub mod ScopedCache
pub mod Algorithm
pub mod Graph
