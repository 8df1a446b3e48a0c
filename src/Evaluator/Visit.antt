-- ===== src/Evaluator/Visit.antt =====
-- The visits by kind of expression (ExprWalker::doVisit with the overrides of ExprEvaluatorBase),
-- and evaluation: the walker over these visits, and the recursion that it stands for.
use gazer.Base.{ℕ, List, ◌∷◌, Bool, Option, none, some, Result, ok, fault, Fault, ◌>>=◌}
use gazer.Core.Ty.{Ty}
use gazer.Core.Llvm.{Llvm}
use gazer.Core.Literal.{Literal, Atom, undef, lit}
use gazer.Core.Expr.{Expr, Variable, BitCastKind, type_of}
use gazer.Walker.Order.{post_order}
use gazer.Walker.Stack.{walk}
use gazer.Evaluator.Arithmetic.{
  eval_binary_arithmetic, visit_zext, visit_sext, visit_extract, visit_bv_concat,
}
use gazer.Evaluator.Compare.{eval_binary_compare}
use gazer.Evaluator.Logic.{
  visit_not, and_loop, or_loop, visit_imply, visit_select, visit_array_read, visit_fp_query,
  visit_fp_to_bv, visit_bv_to_fp,
}

-- Valuation
abbrev pub Valuation : Type 0
Valuation = Variable → Option Literal

-- ValuationExprEvaluator::getVariableValue
unfoldable pub get_variable_value : Valuation → Variable → Atom
get_variable_value valuation v = elim (valuation v) [ none ↦ undef v.ty | some l ↦ lit l ]

module _ ⦃llvm : Llvm⦄ (valuation : Valuation) where
  -- The operands are those of the top frame; an index out of range fails the assertion of
  -- getOperand. visitExpr, for the kinds with no override, is unreachable.
  unfoldable pub visit : Expr → List Atom → Result Atom
  unfolding get_variable_value
  visit (Expr.undef t) ops = ok (undef t)
  visit (Expr.literal l) ops = ok (lit l)
  visit (Expr.var_ref v) ops = ok (get_variable_value valuation v)
  visit (Expr.not_expr e) (a ∷ ops) = visit_not a
  visit (Expr.zext e w) (a ∷ ops) = visit_zext w a
  visit (Expr.sext e w) (a ∷ ops) = visit_sext w a
  visit (Expr.extract e o w) (a ∷ ops) = visit_extract o w a
  visit (Expr.arithmetic k l r) (a ∷ b ∷ ops) = eval_binary_arithmetic k a b
  visit (Expr.bv_concat l r) (a ∷ b ∷ ops) = visit_bv_concat (type_of (Expr.bv_concat l r)) a b
  visit (Expr.and_expr es) ops = and_loop ops Bool.false
  visit (Expr.or_expr es) ops = or_loop ops Bool.false
  visit (Expr.imply l r) (a ∷ b ∷ ops) = visit_imply a b
  visit (Expr.comparison k l r) (a ∷ b ∷ ops) = eval_binary_compare k a b
  visit (Expr.fp_query k e) (a ∷ ops) = visit_fp_query k a
  visit (Expr.bit_cast BitCastKind.fp_to_bv e t) (a ∷ ops) = visit_fp_to_bv t a
  visit (Expr.bit_cast BitCastKind.bv_to_fp e t) (a ∷ ops) = visit_bv_to_fp t a
  visit (Expr.select c t e) (p ∷ a ∷ b ∷ ops) = visit_select (type_of (Expr.select c t e)) p a b
  visit (Expr.array_read a i) (v ∷ j ∷ ops) = visit_array_read (type_of (Expr.array_read a i)) v j
  visit (Expr.fp_cast k e t m) ops = fault Fault.unreachable
  visit (Expr.fp_arithmetic k l r m) ops = fault Fault.unreachable
  visit (Expr.fp_compare k l r) ops = fault Fault.unreachable
  visit (Expr.array_write a i v) ops = fault Fault.unreachable
  visit (Expr.tuple_select e i) ops = fault Fault.unreachable
  visit (Expr.tuple_construct ts es) ops = fault Fault.unreachable
  visit _ _ = fault Fault.assertion

  -- The value of an expression by recursion.
  abbrev pub eval : Expr → Result Atom
  eval = post_order visit

  -- ExprEvaluatorBase::evaluate: the walker with its default hooks, which skip nothing and keep no
  -- state. An undef stands for the null pointer of a new slot.
  unfoldable pub evaluate : ℕ → Expr → Result Atom
  unfolding walk
  evaluate fuel e =
      walk (undef Ty.bool) visit (λ _ _. none) (λ s _ _. s) fuel tt e >>= λ (a, _). ok a
