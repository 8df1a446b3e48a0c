-- ===== src/Folding/Arithmetic.antt =====
-- foldBinaryExpr and the methods of the macro FOLD_BINARY_ARITHMETIC; Div, Mod and Rem are not
-- overridden. A null pointer, "cannot fold", is `none`.
use gazer.Base.{
  ℕ, zero, suc, Bool, true, false, ◌||◌, Option, none, some, if◌then◌else◌, ◌==◌, Result, ok, fault,
  Fault, ◌>>=◌, ◌>>◌, require, or_fault,
}
use gazer.Base.Int.{ℤ, pos, ◌+ℤ◌, ◌-ℤ◌, ◌*ℤ◌, to_long}
use gazer.Core.Llvm.{Llvm}
use gazer.Core.Literal.{int_lit, bv_lit, is_zero, is_one, is_all_ones, is_zero_int, is_one_int}
use gazer.Core.Expr.{Expr, ArithmeticKind}
use gazer.Core.Create.{create_arithmetic}
use gazer.Evaluator.Arithmetic.{div_long}
use gazer.Folding.Match.{as_literal, as_int, as_bv}

abbrev pub int_expr : ℤ → Expr
int_expr n = Expr.literal (int_lit n)

abbrev pub bv_expr : ℕ → ℕ → Expr
bv_expr w v = Expr.literal (bv_lit w v)

-- Expr::isCommutative, at the arithmetic kinds
unfoldable pub is_commutative : ArithmeticKind → Bool
is_commutative ArithmeticKind.add = true
is_commutative ArithmeticKind.mul = true
is_commutative ArithmeticKind.bv_and = true
is_commutative ArithmeticKind.bv_or = true
is_commutative ArithmeticKind.bv_xor = true
is_commutative _ = false

-- The first switch: the right side is the integer literal n.
unfoldable pub fold_int_right : ArithmeticKind → Expr → ℤ → Option Expr
fold_int_right ArithmeticKind.add left n = if is_zero_int n then some left else none
fold_int_right ArithmeticKind.sub left n = if is_zero_int n then some left else none
fold_int_right ArithmeticKind.mul left n =
    if is_zero_int n then some (int_expr n) else if is_one_int n then some left else none
fold_int_right ArithmeticKind.div left n = if is_one_int n then some left else none
fold_int_right ArithmeticKind.mod_kind left n =
    if is_one_int n then some (int_expr (pos 0)) else none
fold_int_right ArithmeticKind.rem left n = if is_one_int n then some (int_expr (pos 0)) else none
fold_int_right _ left n = none

-- The second switch: the right side is a bit-vector literal. The case of BvOr falls through to
-- that of BvXor.
unfoldable pub fold_bv_right : ArithmeticKind → Expr → ℕ → ℕ → Option Expr
fold_bv_right ArithmeticKind.add left w v = if is_zero v then some left else none
fold_bv_right ArithmeticKind.sub left w v = if is_zero v then some left else none
fold_bv_right ArithmeticKind.mul left w v =
    if is_zero v then some (bv_expr w v) else if is_one v then some left else none
fold_bv_right ArithmeticKind.bv_udiv left w v = if is_one v then some left else none
fold_bv_right ArithmeticKind.bv_sdiv left w v = if is_one v then some left else none
fold_bv_right ArithmeticKind.bv_urem left w v = if is_one v then some (bv_expr w 0) else none
fold_bv_right ArithmeticKind.bv_srem left w v = if is_one v then some (bv_expr w 0) else none
fold_bv_right ArithmeticKind.bv_and left w v =
    if is_zero v then some (bv_expr w v) else if is_all_ones w v then some left else none
fold_bv_right ArithmeticKind.bv_or left w v =
    if is_zero v
    then some left
    else if is_all_ones w v
    then some (bv_expr w v)
    else if is_zero v
    then some left
    else none
fold_bv_right ArithmeticKind.bv_xor left w v = if is_zero v then some left else none
fold_bv_right _ left w v = none

-- Both sides are integer literals.
unfoldable pub fold_int_literals : ArithmeticKind → ℤ → ℤ → Result (Option Expr)
unfolding div_long
fold_int_literals ArithmeticKind.add l r = to_long (l +ℤ r) >>= λ n. ok (some (int_expr n))
fold_int_literals ArithmeticKind.sub l r = to_long (l -ℤ r) >>= λ n. ok (some (int_expr n))
fold_int_literals ArithmeticKind.mul l r = to_long (l *ℤ r) >>= λ n. ok (some (int_expr n))
fold_int_literals ArithmeticKind.div l r = div_long l r >>= λ n. ok (some (int_expr n))
fold_int_literals _ l r = ok none

unfoldable pub is_shift : ArithmeticKind → Bool
is_shift ArithmeticKind.shl = true
is_shift ArithmeticKind.lshr = true
is_shift ArithmeticKind.ashr = true
is_shift _ = false

-- The left side is a bit-vector literal, and the right one is none.
unfoldable pub fold_bv_zero : ArithmeticKind → ℕ → ℕ → Option Expr
fold_bv_zero ArithmeticKind.bv_sdiv w v = if is_zero v then some (bv_expr w v) else none
fold_bv_zero ArithmeticKind.bv_udiv w v = if is_zero v then some (bv_expr w v) else none
fold_bv_zero ArithmeticKind.bv_srem w v = if is_zero v then some (bv_expr w v) else none
fold_bv_zero ArithmeticKind.bv_urem w v = if is_zero v then some (bv_expr w v) else none
fold_bv_zero ArithmeticKind.lshr w v = if is_zero v then some (bv_expr w v) else none
fold_bv_zero ArithmeticKind.ashr w v = if is_zero v then some (bv_expr w v) else none
fold_bv_zero ArithmeticKind.shl w v = if is_zero v then some (bv_expr w v) else none
fold_bv_zero _ w v = none

module _ ⦃llvm : Llvm⦄ where
  -- Both sides are bit-vector literals of one width.
  unfoldable pub fold_bv_values : ArithmeticKind → ℕ → ℕ → ℕ → Result ℕ
  fold_bv_values ArithmeticKind.add w l r = ok (llvm.add w l r)
  fold_bv_values ArithmeticKind.sub w l r = ok (llvm.sub w l r)
  fold_bv_values ArithmeticKind.mul w l r = ok (llvm.mul w l r)
  fold_bv_values ArithmeticKind.bv_udiv w l r = or_fault Fault.assertion (llvm.udiv w l r)
  fold_bv_values ArithmeticKind.bv_sdiv w l r = or_fault Fault.assertion (llvm.sdiv w l r)
  fold_bv_values ArithmeticKind.bv_urem w l r = or_fault Fault.assertion (llvm.urem w l r)
  fold_bv_values ArithmeticKind.bv_srem w l r = or_fault Fault.assertion (llvm.srem w l r)
  fold_bv_values ArithmeticKind.bv_and w l r = ok (llvm.and_bits w l r)
  fold_bv_values ArithmeticKind.bv_or w l r = ok (llvm.or_bits w l r)
  fold_bv_values ArithmeticKind.bv_xor w l r = ok (llvm.xor_bits w l r)
  fold_bv_values ArithmeticKind.shl w l r = ok (llvm.shl w l r)
  fold_bv_values ArithmeticKind.lshr w l r = ok (llvm.lshr w l r)
  fold_bv_values ArithmeticKind.ashr w l r = ok (llvm.ashr w l r)
  fold_bv_values _ w l r = fault Fault.unreachable

  -- The part of foldBinaryExpr after the simplifications by the right side. The operations of
  -- APInt assert that the widths agree, except for those of the shifts.
  unfoldable pub fold_literals : ArithmeticKind → Expr → Expr → Result (Option Expr)
  unfolding as_int as_bv is_shift fold_int_literals fold_bv_values fold_bv_zero
  fold_literals k left right = elim (as_int left) [
    | some l ↦ elim (as_int right) [ some r ↦ fold_int_literals k l r | none ↦ ok none ]
    | none ↦ elim (as_bv left) [
      | some (w, l) ↦ elim (as_bv right) [
        | some (v, r) ↦
            require (is_shift k || w == v)
            >> (fold_bv_values k w l r >>= λ x. ok (some (bv_expr w x)))
        | none ↦ ok (fold_bv_zero k w l)
      ]
      | none ↦ ok none
    ]
  ]

  -- foldBinaryExpr. The swap of a literal to the right is a recursive call.
  unfoldable pub fold_binary_expr : ℕ → ArithmeticKind → Expr → Expr → Result (Option Expr)
  unfolding as_int as_bv as_literal is_commutative fold_int_right fold_bv_right fold_literals
  fold_binary_expr zero k left right = fault Fault.out_of_fuel
  fold_binary_expr (suc fuel) k left right =
      let swapped = fold_binary_expr fuel k right left in
      let both = fold_literals k left right in
      elim (as_int right) [
        | some n ↦ elim (fold_int_right k left n) [ some e ↦ ok (some e) | none ↦ both ]
        | none ↦ elim (as_bv right) [
          | some (w, v) ↦ elim (fold_bv_right k left w v) [ some e ↦ ok (some e) | none ↦ both ]
          | none ↦ elim (as_literal left) [
            | some l ↦ if is_commutative k then swapped else both
            | none ↦ both
          ]
        ]
      ]

-- the kinds whose methods call foldBinaryExpr
unfoldable pub is_overridden : ArithmeticKind → Bool
is_overridden ArithmeticKind.div = false
is_overridden ArithmeticKind.mod_kind = false
is_overridden ArithmeticKind.rem = false
is_overridden _ = true

module _ ⦃llvm : Llvm⦄ where
  -- Add, Sub, Mul, BvSDiv to BvXor, and the inherited Div, Mod and Rem
  unfoldable pub build_arithmetic : ℕ → ArithmeticKind → Expr → Expr → Result Expr
  unfolding is_overridden fold_binary_expr create_arithmetic
  build_arithmetic fuel k left right =
      if is_overridden k
      then (fold_binary_expr fuel k left right >>= λ folded. elim folded [
        | some e ↦ ok e
        | none ↦ create_arithmetic k left right
      ])
      else create_arithmetic k left right
