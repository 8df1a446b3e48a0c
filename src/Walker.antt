-- ===== src/Walker.antt =====
-- The traversal of expressions (include/gazer/Core/Expr/ExprWalker.h). `Order` has the operands of
-- an expression, the recursive post-order that the walker stands for, and the induction over it;
-- `Stack` has the loop of the walker over its explicit stack of frames; `Correct` relates the two,
-- by the `Size` of an expression and by what single `Rounds` do.
pub mod Order
pub mod Stack
pub mod Size
pub mod Rounds
pub mod Correct
