-- ===== src/Automaton.antt =====
-- Control flow automata (include/gazer/Automaton, src/Automaton).
pub mod Cfa
pub mod Dominators
pub mod PathCondition
pub mod CallGraph
pub mod Unreachable
pub mod Build
pub mod Variables
