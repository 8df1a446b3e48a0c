-- ===== src/Rewrite.antt =====
-- Rewriting of expressions (include/gazer/Core/Expr/ExprRewrite.h, src/Core/Expr/ExprRewrite.cpp): a
-- walker that makes each node again from its rewritten operands, with a builder.
use gazer.Base.{
  Bool, true, false, ℕ, List, [], ◌∷◌, Option, none, some, Result, ok, fault, Fault, ◌>>=◌,
}
use gazer.Core.Ty.{Ty, is_float_type, is_bv_type}
use gazer.Core.Expr.{Expr, Exprs, Variable, FpCastKind, BitCastKind}
use gazer.Core.Builder.{ExprBuilder}
use gazer.Walker.Order.{post_order, from_list}
use gazer.Walker.Stack.{walk}
pub mod Node
pub mod Sound
pub mod Substitution

-- the cast of the node's type to FloatType or to BvType
unfoldable pub casts_type : FpCastKind → Ty → Bool
unfolding is_float_type is_bv_type
casts_type FpCastKind.fp_to_signed t = is_bv_type t
casts_type FpCastKind.fp_to_unsigned t = is_bv_type t
casts_type _ t = is_float_type t

unfoldable pub casts_bits : BitCastKind → Ty → Bool
unfolding is_float_type is_bv_type
casts_bits BitCastKind.fp_to_bv t = is_bv_type t
casts_bits BitCastKind.bv_to_fp t = is_float_type t

abbrev pub require_cast : Bool → Result (Unit {0})
require_cast test = elim test [ false ↦ fault Fault.bad_cast | true ↦ ok tt ]

module _ (builder : ExprBuilder) where
  -- ExprRewriteBase::rewriteNonNullary. `ops[i]` past the end of the vector is undefined; tuples have
  -- no case in the switch.
  unfoldable pub rewrite_non_nullary : Expr → List Expr → Result Expr
  unfolding from_list casts_type casts_bits
  rewrite_non_nullary (Expr.not_expr e) (a ∷ ops) = builder.not_expr a
  rewrite_non_nullary (Expr.zext e w) (a ∷ ops) = builder.zext a w
  rewrite_non_nullary (Expr.sext e w) (a ∷ ops) = builder.sext a w
  rewrite_non_nullary (Expr.extract e o w) (a ∷ ops) = builder.extract a o w
  rewrite_non_nullary (Expr.arithmetic k l r) (a ∷ b ∷ ops) = builder.arithmetic k a b
  rewrite_non_nullary (Expr.bv_concat l r) (a ∷ b ∷ ops) = builder.bv_concat a b
  rewrite_non_nullary (Expr.and_expr es) ops = builder.and_exprs (from_list ops)
  rewrite_non_nullary (Expr.or_expr es) ops = builder.or_exprs (from_list ops)
  rewrite_non_nullary (Expr.imply l r) (a ∷ b ∷ ops) = builder.imply a b
  rewrite_non_nullary (Expr.comparison k l r) (a ∷ b ∷ ops) = builder.comparison k a b
  rewrite_non_nullary (Expr.fp_query k e) (a ∷ ops) = builder.fp_query k a
  rewrite_non_nullary (Expr.fp_cast k e t m) (a ∷ ops) =
      require_cast (casts_type k t) >>= λ _. builder.fp_cast k a t m
  rewrite_non_nullary (Expr.bit_cast k e t) (a ∷ ops) =
      require_cast (casts_bits k t) >>= λ _. builder.bit_cast k a t
  rewrite_non_nullary (Expr.fp_arithmetic k l r m) (a ∷ b ∷ ops) = builder.fp_arithmetic k a b m
  rewrite_non_nullary (Expr.fp_compare k l r) (a ∷ b ∷ ops) = builder.fp_compare k a b
  rewrite_non_nullary (Expr.select c t e) (p ∷ a ∷ b ∷ ops) = builder.select p a b
  rewrite_non_nullary (Expr.array_read a i) (b ∷ j ∷ ops) = builder.read b j
  rewrite_non_nullary (Expr.array_write a i v) (b ∷ j ∷ w ∷ ops) = builder.write b j w
  rewrite_non_nullary (Expr.undef t) ops = fault Fault.unreachable
  rewrite_non_nullary (Expr.literal l) ops = fault Fault.unreachable
  rewrite_non_nullary (Expr.var_ref v) ops = fault Fault.unreachable
  rewrite_non_nullary (Expr.tuple_select e i) ops = fault Fault.unreachable
  rewrite_non_nullary (Expr.tuple_construct ts es) ops = fault Fault.unreachable
  rewrite_non_nullary _ _ = fault Fault.undefined_behaviour

-- mRewriteMap, with a null pointer as `none`: reading a missing key adds a null pointer
abbrev pub RewriteMap : Type 0
RewriteMap = Variable → Option Expr

-- VariableExprRewrite::visitVarRef
unfoldable pub visit_var_ref : RewriteMap → Variable → Expr
visit_var_ref map v = elim (map v) [ some e ↦ e | none ↦ Expr.var_ref v ]

module _ (builder : ExprBuilder) (map : RewriteMap) where
  -- visitExpr, visitNonNullary and visitVarRef, by the dispatch of the walker
  unfoldable pub visit_expr : Expr → List Expr → Result Expr
  unfolding visit_var_ref rewrite_non_nullary
  visit_expr (Expr.undef t) ops = ok (Expr.undef t)
  visit_expr (Expr.literal l) ops = ok (Expr.literal l)
  visit_expr (Expr.var_ref v) ops = ok (visit_var_ref map v)
  visit_expr e ops = rewrite_non_nullary builder e ops

  -- VariableExprRewrite::walk, which skips nothing and keeps no state; an undef stands for the null
  -- pointer of a new slot
  unfoldable pub rewrite : ℕ → Expr → Result Expr
  unfolding walk
  rewrite fuel e =
      walk (Expr.undef Ty.bool) visit_expr (λ _ _. none) (λ s _ _. s) fuel tt e >>= λ (r, _). ok r
