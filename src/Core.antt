-- ===== src/Core.antt =====
-- Types, literals and expressions (include/gazer/Core), the operations of LLVM that they are built
-- on, and the checked constructors of expressions (src/Core/Expr.cpp).
pub mod Ty
pub mod Llvm
pub mod Literal
pub mod Expr
pub mod Create
pub mod Builder
pub mod Storage
