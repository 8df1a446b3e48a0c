-- ===== src/Folding.antt =====
-- FoldingExprBuilder (src/Core/Expr/FoldingExprBuilder.cpp), the builder that folds constants and
-- simplifies. `Match` has the casts and patterns that it looks at its operands with, `Logic`,
-- `Arithmetic`, `Compare`, `Select` and `Misc` its methods.
pub mod Match
pub mod Logic
pub mod Arithmetic
pub mod Compare
pub mod Select
pub mod SelectSwap
pub mod Misc
mod Values
mod Operands
pub mod Recursion
mod Steps
pub mod ArithmeticSound
mod OperandValues
mod AndLoop
pub mod AndSound
mod OrLoop
pub mod OrSound
mod Moves
mod IntValues
pub mod LtEqSound
pub mod BuildLtEq
