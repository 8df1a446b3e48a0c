-- ===== src/Evaluator/Logic.antt =====
-- The visits of the Boolean connectives, of Select, of the array read, and of the casts and queries
-- of floating-point values that have one.
use gazer.Base.{
  List, [], ◌∷◌, Bool, true, false, not, ◌||◌, ◌==◌, if◌then◌else◌, Result, ok, fault, Fault, ◌>>=◌,
  ◌>>◌, require,
}
use gazer.Core.Ty.{Ty, precision_bits}
use gazer.Core.Llvm.{Llvm}
use gazer.Core.Literal.{
  Literal, bool_lit, bv_lit, float_lit, array_lit, Atom, undef, lit, get_value,
}
use gazer.Core.Expr.{FpQueryKind}

-- `cast<BoolLiteralExpr>(operand)->getValue()`
unfoldable pub bool_value : Atom → Result Bool
bool_value (lit (bool_lit b)) = ok b
bool_value _ = fault Fault.bad_cast

-- visitNot
unfoldable pub visit_not : Atom → Result Atom
unfolding bool_value
visit_not a = bool_value a >>= λ b. ok (lit (bool_lit (not b)))

unfoldable pub is_undef : Atom → Bool
is_undef (undef t) = true
is_undef (lit l) = false

-- the loop of visitAnd from an operand on, with the flag `isUndef`
unfoldable pub and_loop : List Atom → Bool → Result Atom
unfolding bool_value is_undef
and_loop [] was_undef = ok (if was_undef then undef Ty.bool else lit (bool_lit true))
and_loop (a ∷ rest) was_undef =
    bool_value a
    >>= elim [ true ↦ and_loop rest (was_undef || is_undef a) | false ↦ ok (lit (bool_lit false)) ]

-- the loop of visitOr
unfoldable pub or_loop : List Atom → Bool → Result Atom
unfolding bool_value is_undef
or_loop [] was_undef = ok (if was_undef then undef Ty.bool else lit (bool_lit false))
or_loop (a ∷ rest) was_undef =
    bool_value a
    >>= elim [ true ↦ ok (lit (bool_lit true)) | false ↦ or_loop rest (was_undef || is_undef a) ]

-- visitImply: an undef side decides nothing, unless the other side alone makes the formula true
unfoldable pub visit_imply : Atom → Atom → Result Atom
unfolding bool_value
visit_imply (undef t) (lit (bool_lit true)) = ok (lit (bool_lit true))
visit_imply (undef t) _ = ok (undef t)
visit_imply (lit (bool_lit false)) (undef t) = ok (lit (bool_lit true))
visit_imply (lit _) (undef t) = ok (undef t)
visit_imply (lit a) (lit b) =
    bool_value (lit a) >>= λ p. bool_value (lit b) >>= λ q. ok (lit (bool_lit (not p || q)))

-- the classes of literals that EvalSelect is instantiated for, by the type of the expression
unfoldable pub casts_to : Ty → Literal → Bool
casts_to Ty.bool (bool_lit b) = true
casts_to Ty.int (Literal.int_lit n) = true
casts_to Ty.real (Literal.real_lit n d) = true
casts_to (Ty.bv w) (bv_lit v x) = v == w
casts_to (Ty.float p) (float_lit q x) = precision_bits p == precision_bits q
casts_to _ _ = false

-- `cast<ExprTy>(operand)->getValue()`, as a literal of the type
unfoldable pub cast_literal : Ty → Atom → Result Atom
unfolding casts_to
cast_literal t (lit l) = if casts_to t l then ok (lit l) else fault Fault.bad_cast
cast_literal t (undef _) = fault Fault.bad_cast

-- the types that the switch of visitSelect has a case for
unfoldable pub is_selectable : Ty → Bool
is_selectable (Ty.array i e) = false
is_selectable (Ty.tuple ts) = false
is_selectable _ = true

-- visitSelect, with the type of the expression: the operand that is not chosen is not looked at
unfoldable pub visit_select : Ty → Atom → Atom → Atom → Result Atom
unfolding bool_value is_selectable cast_literal
visit_select t c a b = bool_value c >>= λ p.
    if is_selectable t then cast_literal t (if p then a else b) else fault Fault.unreachable

-- visitArrayRead, with the type of the expression
unfoldable pub visit_array_read : Ty → Atom → Atom → Result Atom
unfolding get_value
visit_array_read t (undef _) index = ok (undef t)
visit_array_read t (lit (array_lit i e m d)) (undef _) = ok (lit d)
visit_array_read t (lit (array_lit i e m d)) (lit key) = get_value i m d key
visit_array_read t (lit _) index = fault Fault.assertion

module _ ⦃llvm : Llvm⦄ where
  -- visitFIsNan and visitFIsInf
  unfoldable pub visit_fp_query : FpQueryKind → Atom → Result Atom
  visit_fp_query FpQueryKind.f_is_nan (lit (float_lit p v)) = ok (lit (bool_lit (llvm.is_nan p v)))
  visit_fp_query FpQueryKind.f_is_inf (lit (float_lit p v)) =
      ok (lit (bool_lit (llvm.is_infinity p v)))
  visit_fp_query _ _ = fault Fault.bad_cast

-- visitFpToBv: the literal asserts that the widths agree
unfoldable pub visit_fp_to_bv : Ty → Atom → Result Atom
visit_fp_to_bv (Ty.bv w) (lit (float_lit p v)) =
    require (precision_bits p == w) >> ok (lit (bv_lit w v))
visit_fp_to_bv _ _ = fault Fault.bad_cast

-- visitBvToFp: an APFloat takes exactly the bits of its semantics
unfoldable pub visit_bv_to_fp : Ty → Atom → Result Atom
visit_bv_to_fp (Ty.float p) (lit (bv_lit w v)) =
    require (precision_bits p == w) >> ok (lit (float_lit p v))
visit_bv_to_fp _ _ = fault Fault.bad_cast
