-- ===== src/Folding/Misc.antt =====
-- The other methods of FoldingExprBuilder: extensions, extraction, concatenation, floating-point
-- queries, array reads and writes.
use gazer.Base.{
  ℕ, ◌+◌, Bool, true, false, ◌&&◌, none, some, if◌then◌else◌, Result, ok, Fault, ◌>>=◌, ◌>>◌,
  require, or_fault,
}
use gazer.Core.Ty.{Ty, is_bv_type}
use gazer.Core.Llvm.{Llvm}
use gazer.Core.Literal.{Entries, float_lit, array_lit}
use gazer.Core.Expr.{Expr, FpQueryKind, same, type_of, width_of}
use gazer.Core.Create.{
  create_zext, create_sext, create_extract, create_bv_concat, create_fp_query, create_array_read,
  create_array_write,
}
use gazer.Evaluator.Arithmetic.{concat_bits}
use gazer.Folding.Match.{as_bv}
use gazer.Folding.Logic.{bool_expr}
use gazer.Folding.Arithmetic.{bv_expr}

unfoldable pub is_undef_expr : Expr → Bool
is_undef_expr (Expr.undef t) = true
is_undef_expr _ = false

module _ ⦃llvm : Llvm⦄ where
  -- ZExt and SExt, with the width of the type
  unfoldable pub build_zext : Expr → ℕ → Result Expr
  unfolding as_bv create_zext
  build_zext op width = elim (as_bv op) [
    | some (w, v) ↦ or_fault Fault.assertion (llvm.zext w width v) >>= λ r. ok (bv_expr width r)
    | none ↦ create_zext op width
  ]

  unfoldable pub build_sext : Expr → ℕ → Result Expr
  unfolding as_bv create_sext
  build_sext op width = elim (as_bv op) [
    | some (w, v) ↦ or_fault Fault.assertion (llvm.sext w width v) >>= λ r. ok (bv_expr width r)
    | none ↦ create_sext op width
  ]

  -- Extract
  unfoldable pub build_extract : Expr → ℕ → ℕ → Result Expr
  unfolding as_bv is_undef_expr create_extract
  build_extract op offset width = elim (as_bv op) [
    | some (w, v) ↦
        or_fault Fault.assertion (llvm.extract_bits w v width offset) >>= λ r. ok (bv_expr width r)
    | none ↦
        if is_undef_expr op then ok (Expr.undef (Ty.bv width)) else create_extract op offset width
  ]

  -- BvConcat when not both sides are literals
  unfoldable pub concat_other : Expr → Expr → ℕ → Result Expr
  unfolding is_undef_expr create_bv_concat
  concat_other left right width =
      if is_undef_expr left && is_undef_expr right
      then ok (Expr.undef (Ty.bv width))
      else create_bv_concat left right

  -- BvConcat: the casts of the types of the operands come first
  unfoldable pub build_bv_concat : Expr → Expr → Result Expr
  unfolding as_bv concat_bits concat_other
  build_bv_concat left right =
      let width = width_of (type_of left) + width_of (type_of right) in
      require (is_bv_type (type_of left) && is_bv_type (type_of right)) >> elim (as_bv left) [
        | some (w, a) ↦ elim (as_bv right) [
          | some (v, b) ↦ concat_bits w a v b >>= λ r. ok (bv_expr (w + v) r)
          | none ↦ concat_other left right width
        ]
        | none ↦ concat_other left right width
      ]

  -- FIsNan and FIsInf
  unfoldable pub build_fp_query : FpQueryKind → Expr → Result Expr
  unfolding create_fp_query
  build_fp_query FpQueryKind.f_is_nan (Expr.literal (float_lit p v)) =
      ok (bool_expr (llvm.is_nan p v))
  build_fp_query FpQueryKind.f_is_inf (Expr.literal (float_lit p v)) =
      ok (bool_expr (llvm.is_infinity p v))
  build_fp_query k op = create_fp_query k op

-- Read: an array literal with an empty map is its default everywhere.
unfoldable pub build_read : Expr → Expr → Result Expr
unfolding create_array_read
build_read (Expr.literal (array_lit i e Entries.no_entries d)) index = ok (Expr.literal d)
build_read array index = create_array_read array index

-- Write: the default written to an array literal with an empty map changes nothing.
unfoldable pub build_write : Expr → Expr → Expr → Result Expr
unfolding same create_array_write
build_write (Expr.literal (array_lit i e Entries.no_entries d)) index value =
    if same (Expr.literal d) value
    then ok (Expr.literal (array_lit i e Entries.no_entries d))
    else create_array_write (Expr.literal (array_lit i e Entries.no_entries d)) index value
build_write array index value = create_array_write array index value
