-- ===== src/Evaluator.antt =====
-- ExprEvaluatorBase and ValuationExprEvaluator (src/Core/Expr/ExprEvaluator.cpp). `Arithmetic`,
-- `Compare` and `Logic` have the functions on values that the visits call, `Visit` the visits and
-- the evaluation of an expression. The operations of LLVM are the instance argument.
pub mod Arithmetic
pub mod Compare
pub mod Logic
pub mod Visit
pub mod Walk
pub mod Modulo
pub mod Connectives
pub mod Negation
