-- ===== src/Evaluator/Compare.antt =====
-- EvalBinaryCompare with EvalBvCompare and EvalIntCompare.
use gazer.Base.{ℕ, Bool, true, false, not, ◌==◌, Result, ok, fault, Fault, ◌>>=◌, ◌>>◌, require}
use gazer.Base.Int.{ℤ, ltb_ℤ, leb_ℤ, eqb_ℤ}
use gazer.Core.Ty.{Ty, equals, is_float_type}
use gazer.Core.Llvm.{Llvm}
use gazer.Core.Literal.{Literal, bool_lit, int_lit, bv_lit, Atom, undef, lit, atom_type}
use gazer.Core.Expr.{CompareKind}

-- equality of truth values
unfoldable pub eqb : Bool → Bool → Bool
eqb true b = b
eqb false b = not b

unfoldable pub is_equality : CompareKind → Bool
is_equality CompareKind.eq = true
is_equality CompareKind.not_eq = true
is_equality _ = false

-- EvalIntCompare
unfoldable pub eval_int_compare : CompareKind → ℤ → ℤ → Result Bool
eval_int_compare CompareKind.eq a b = ok (eqb_ℤ a b)
eval_int_compare CompareKind.not_eq a b = ok (not (eqb_ℤ a b))
eval_int_compare CompareKind.lt a b = ok (ltb_ℤ a b)
eval_int_compare CompareKind.lt_eq a b = ok (leb_ℤ a b)
eval_int_compare CompareKind.gt a b = ok (ltb_ℤ b a)
eval_int_compare CompareKind.gt_eq a b = ok (leb_ℤ b a)
eval_int_compare _ a b = fault Fault.unreachable

-- the comparison of two booleans: the kind is asserted, and both kinds give equality
unfoldable pub eval_bool_compare : CompareKind → Bool → Bool → Result Bool
unfolding is_equality eqb
eval_bool_compare k a b = require (is_equality k) >> ok (eqb a b)

module _ ⦃llvm : Llvm⦄ where
  -- EvalBvCompare
  unfoldable pub eval_bv_compare : CompareKind → ℕ → ℕ → ℕ → Result Bool
  eval_bv_compare CompareKind.eq w a b = ok (a == b)
  eval_bv_compare CompareKind.not_eq w a b = ok (not (a == b))
  eval_bv_compare CompareKind.bv_slt w a b = ok (llvm.slt w a b)
  eval_bv_compare CompareKind.bv_slt_eq w a b = ok (llvm.sle w a b)
  eval_bv_compare CompareKind.bv_sgt w a b = ok (llvm.sgt w a b)
  eval_bv_compare CompareKind.bv_sgt_eq w a b = ok (llvm.sge w a b)
  eval_bv_compare CompareKind.bv_ult w a b = ok (llvm.ult w a b)
  eval_bv_compare CompareKind.bv_ult_eq w a b = ok (llvm.ule w a b)
  eval_bv_compare CompareKind.bv_ugt w a b = ok (llvm.ugt w a b)
  eval_bv_compare CompareKind.bv_ugt_eq w a b = ok (llvm.uge w a b)
  eval_bv_compare _ w a b = fault Fault.unreachable

  -- the switch on the type of the operands
  unfoldable pub compare_literals : CompareKind → Literal → Literal → Result Bool
  unfolding eval_bv_compare eval_bool_compare eval_int_compare
  compare_literals k (bv_lit w a) (bv_lit v b) = eval_bv_compare k w a b
  compare_literals k (bool_lit a) (bool_lit b) = eval_bool_compare k a b
  compare_literals k (int_lit a) (int_lit b) = eval_int_compare k a b
  compare_literals k _ _ = fault Fault.unreachable

  unfoldable pub compare_operands : CompareKind → Atom → Atom → Result Atom
  unfolding compare_literals
  compare_operands k (undef t) b = ok (undef Ty.bool)
  compare_operands k (lit a) (undef t) = ok (undef Ty.bool)
  compare_operands k (lit a) (lit b) = compare_literals k a b >>= λ c. ok (lit (bool_lit c))

  -- EvalBinaryCompare
  unfoldable pub eval_binary_compare : CompareKind → Atom → Atom → Result Atom
  unfolding compare_operands atom_type equals is_float_type
  eval_binary_compare k a b = do
    require (equals (atom_type a) (atom_type b))
    require (not (is_float_type (atom_type a)))
    compare_operands k a b
