-- ===== src/Evaluator/Arithmetic.antt =====
-- EvalBinaryArithmetic, and the visits of the extensions, of the extraction and of the concatenation.
use gazer.Base.{
  ℕ, ◌+◌, ◌-◌, ◌%◌, ◌^◌, if◌then◌else◌, ltb, Result, ok, fault, Fault, ◌>>=◌, ◌>>◌, require,
  or_fault,
}
use gazer.Base.Int.{ℤ, pos, ◌+ℤ◌, ◌-ℤ◌, ◌*ℤ◌, div_ℤ, rem_ℤ, ltb_ℤ, eqb_ℤ, to_long}
use gazer.Core.Ty.{Ty, equals}
use gazer.Core.Llvm.{Llvm}
use gazer.Core.Literal.{Literal, int_lit, bv_lit, Atom, undef, lit, literal_type, atom_type}
use gazer.Core.Expr.{ArithmeticKind}

-- `rightBv.getLimitedValue()`, a uint64_t, converted to the `unsigned` of APInt::lshr and ashr
unfoldable pub shift_amount : ℕ → ℕ
shift_amount v = (if ltb v (2 ^ 64) then v else 2 ^ 64 - 1) % 2 ^ 32

-- `std::abs`, undefined where the result is not representable
unfoldable pub abs_long : ℤ → Result ℤ
abs_long a = if ltb_ℤ a (pos 0) then to_long (pos 0 -ℤ a) else ok a

-- `/` and `%` on `long long int`: undefined for a zero divisor, and where the quotient is not
-- representable
unfoldable pub div_long : ℤ → ℤ → Result ℤ
div_long a b = if eqb_ℤ b (pos 0) then fault Fault.undefined_behaviour else to_long (div_ℤ a b)

unfoldable pub rem_long : ℤ → ℤ → Result ℤ
unfolding div_long
rem_long a b = div_long a b >>= λ _. ok (rem_ℤ a b)

unfoldable pub eval_mod : ℤ → ℤ → Result ℤ
unfolding rem_long abs_long
eval_mod a b = do
  result ← rem_long a b
  if ltb_ℤ result (pos 0) then (abs_long b >>= λ m. to_long (result +ℤ m)) else ok result

unfoldable pub eval_int_arithmetic : ArithmeticKind → ℤ → ℤ → Result ℤ
unfolding div_long rem_long eval_mod
eval_int_arithmetic ArithmeticKind.add a b = to_long (a +ℤ b)
eval_int_arithmetic ArithmeticKind.sub a b = to_long (a -ℤ b)
eval_int_arithmetic ArithmeticKind.mul a b = to_long (a *ℤ b)
eval_int_arithmetic ArithmeticKind.div a b = div_long a b
eval_int_arithmetic ArithmeticKind.mod_kind a b = eval_mod a b
eval_int_arithmetic ArithmeticKind.rem a b = rem_long a b
eval_int_arithmetic _ a b = fault Fault.unreachable

module _ ⦃llvm : Llvm⦄ where
  unfoldable pub eval_bv_arithmetic : ArithmeticKind → ℕ → ℕ → ℕ → Result ℕ
  unfolding shift_amount
  eval_bv_arithmetic ArithmeticKind.add w a b = ok (llvm.add w a b)
  eval_bv_arithmetic ArithmeticKind.sub w a b = ok (llvm.sub w a b)
  eval_bv_arithmetic ArithmeticKind.mul w a b = ok (llvm.mul w a b)
  eval_bv_arithmetic ArithmeticKind.bv_sdiv w a b = or_fault Fault.assertion (llvm.sdiv w a b)
  eval_bv_arithmetic ArithmeticKind.bv_udiv w a b = or_fault Fault.assertion (llvm.udiv w a b)
  eval_bv_arithmetic ArithmeticKind.bv_srem w a b = or_fault Fault.assertion (llvm.srem w a b)
  eval_bv_arithmetic ArithmeticKind.bv_urem w a b = or_fault Fault.assertion (llvm.urem w a b)
  eval_bv_arithmetic ArithmeticKind.shl w a b = ok (llvm.shl w a b)
  eval_bv_arithmetic ArithmeticKind.lshr w a b =
      or_fault Fault.assertion (llvm.lshr_by w a (shift_amount b))
  eval_bv_arithmetic ArithmeticKind.ashr w a b =
      or_fault Fault.assertion (llvm.ashr_by w a (shift_amount b))
  eval_bv_arithmetic ArithmeticKind.bv_and w a b = ok (llvm.and_bits w a b)
  eval_bv_arithmetic ArithmeticKind.bv_or w a b = ok (llvm.or_bits w a b)
  eval_bv_arithmetic ArithmeticKind.bv_xor w a b = ok (llvm.xor_bits w a b)
  eval_bv_arithmetic _ w a b = fault Fault.unreachable

  -- The operands are literals of one type.
  unfoldable pub eval_literals : ArithmeticKind → Literal → Literal → Result Atom
  unfolding eval_int_arithmetic eval_bv_arithmetic
  eval_literals k (bv_lit w a) (bv_lit v b) =
      eval_bv_arithmetic k w a b >>= λ c. ok (lit (bv_lit w c))
  eval_literals k (int_lit a) (int_lit b) = eval_int_arithmetic k a b >>= λ c. ok (lit (int_lit c))
  eval_literals k _ _ = fault Fault.unreachable

  unfoldable pub eval_operands : ArithmeticKind → Atom → Atom → Result Atom
  unfolding eval_literals
  eval_operands k (undef t) b = ok (undef t)
  eval_operands k (lit a) (undef t) = ok (undef (literal_type a))
  eval_operands k (lit a) (lit b) = eval_literals k a b

  -- EvalBinaryArithmetic
  unfoldable pub eval_binary_arithmetic : ArithmeticKind → Atom → Atom → Result Atom
  unfolding eval_operands atom_type equals
  eval_binary_arithmetic k a b = require (equals (atom_type a) (atom_type b)) >> eval_operands k a b

  -- visitZExt, visitSExt and visitExtract: the operand is followed as a BvLiteralExpr without a
  -- test, and the literal asserts that the width of its value is that of the type
  unfoldable pub visit_zext : ℕ → Atom → Result Atom
  visit_zext width (lit (bv_lit w v)) =
      or_fault Fault.assertion (llvm.zext w width v) >>= λ r. ok (lit (bv_lit width r))
  visit_zext width _ = fault Fault.null_pointer

  unfoldable pub visit_sext : ℕ → Atom → Result Atom
  visit_sext width (lit (bv_lit w v)) =
      or_fault Fault.assertion (llvm.sext w width v) >>= λ r. ok (lit (bv_lit width r))
  visit_sext width _ = fault Fault.null_pointer

  unfoldable pub visit_extract : ℕ → ℕ → Atom → Result Atom
  visit_extract offset width (lit (bv_lit w v)) =
      or_fault Fault.assertion (llvm.extract_bits w v width offset) >>= λ r.
      ok (lit (bv_lit width r))
  visit_extract offset width _ = fault Fault.null_pointer

  -- the two values extended, the left one shifted to its place, and the bits joined
  unfoldable pub concat_bits : ℕ → ℕ → ℕ → ℕ → Result ℕ
  concat_bits w a v b = do
    high ← or_fault Fault.assertion (llvm.zext w (w + v) a)
    low ← or_fault Fault.assertion (llvm.zext v (w + v) b)
    ok (llvm.or_bits (w + v) (llvm.shl (w + v) high v) low)

  -- visitBvConcat, with the type of the expression
  unfoldable pub visit_bv_concat : Ty → Atom → Atom → Result Atom
  unfolding concat_bits
  visit_bv_concat t (undef _) b = ok (undef t)
  visit_bv_concat t (lit _) (undef _) = ok (undef t)
  visit_bv_concat t (lit (bv_lit w a)) (lit (bv_lit v b)) =
      concat_bits w a v b >>= λ r. ok (lit (bv_lit (w + v) r))
  visit_bv_concat t _ _ = fault Fault.bad_cast
