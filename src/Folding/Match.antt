-- ===== src/Folding/Match.antt =====
-- The casts `dyn_cast<BoolLiteralExpr>` and the like, and the patterns of
-- include/gazer/Core/Expr/Matcher.h that the builder uses, each with what a match says of its input.
use gazer.Base.{ℕ, Bool, Option, none, some, ◌≡◌, arith}
use gazer.Base.Int.{ℤ}
use gazer.Core.Literal.{Literal, bool_lit, int_lit, bv_lit}
use gazer.Core.Expr.{Expr, Exprs, ArithmeticKind}

unfoldable pub as_literal : Expr → Option Literal
as_literal (Expr.literal l) = some l
as_literal _ = none

-- dyn_cast<BoolLiteralExpr>
unfoldable pub as_bool : Expr → Option Bool
as_bool (Expr.literal (bool_lit b)) = some b
as_bool _ = none

-- dyn_cast<IntLiteralExpr>, and the pattern m_Int
unfoldable pub as_int : Expr → Option ℤ
as_int (Expr.literal (int_lit n)) = some n
as_int _ = none

-- dyn_cast<BvLiteralExpr>: the width and the value
unfoldable pub as_bv : Expr → Option (ℕ × ℕ)
as_bv (Expr.literal (bv_lit w v)) = some (w, v)
as_bv _ = none

-- dyn_cast<AndExpr> and dyn_cast<OrExpr>
unfoldable pub as_and : Expr → Option Exprs
as_and (Expr.and_expr es) = some es
as_and _ = none

unfoldable pub as_or : Expr → Option Exprs
as_or (Expr.or_expr es) = some es
as_or _ = none

-- m_Not(m_Expr(x))
unfoldable pub as_not : Expr → Option Expr
as_not (Expr.not_expr e) = some e
as_not _ = none

-- m_Select(m_Expr(c), m_Expr(t), m_Expr(e))
unfoldable pub as_select : Expr → Option (Expr × Expr × Expr)
as_select (Expr.select c t e) = some (c, t, e)
as_select _ = none

-- m_Add(m_Int(&c), m_Expr(x)), which looks at the operands in both orders
unfoldable pub as_add_int : Expr → Option (ℤ × Expr)
unfolding as_int
as_add_int (Expr.arithmetic ArithmeticKind.add l r) = elim (as_int l) [
  | some c ↦ some (c, r)
  | none ↦ elim (as_int r) [ some c ↦ some (c, l) | none ↦ none ]
]
as_add_int _ = none

-- m_Sub(m_Expr(x), m_Int(&c))
unfoldable pub as_sub_int : Expr → Option (ℤ × Expr)
unfolding as_int
as_sub_int (Expr.arithmetic ArithmeticKind.sub l r) = elim (as_int r) [
  | some c ↦ some (c, l)
  | none ↦ none
]
as_sub_int _ = none

pub as_literal-some : (e : Expr) (l : Literal) → as_literal e ≡ some l → e ≡ Expr.literal l
unfolding as_literal
as_literal-some (Expr.literal k) l h = cc
as_literal-some _ l h = cc

pub as_bool-some : (e : Expr) (b : Bool) → as_bool e ≡ some b → e ≡ Expr.literal (bool_lit b)
unfolding as_bool
as_bool-some (Expr.literal (bool_lit c)) b h = cc
as_bool-some _ b h = cc

pub as_int-some : (e : Expr) (n : ℤ) → as_int e ≡ some n → e ≡ Expr.literal (int_lit n)
unfolding as_int
as_int-some (Expr.literal (int_lit m)) n h = cc
as_int-some _ n h = cc

pub as_bv-some : (e : Expr) (w v : ℕ) → as_bv e ≡ some (w, v) → e ≡ Expr.literal (bv_lit w v)
unfolding as_bv
as_bv-some (Expr.literal (bv_lit u x)) w v h = ground arith
as_bv-some _ w v h = cc

pub as_and-some : (e : Expr) (es : Exprs) → as_and e ≡ some es → e ≡ Expr.and_expr es
unfolding as_and
as_and-some (Expr.and_expr fs) es h = cc
as_and-some _ es h = cc

pub as_or-some : (e : Expr) (es : Exprs) → as_or e ≡ some es → e ≡ Expr.or_expr es
unfolding as_or
as_or-some (Expr.or_expr fs) es h = cc
as_or-some _ es h = cc

pub as_not-some : (e x : Expr) → as_not e ≡ some x → e ≡ Expr.not_expr x
unfolding as_not
as_not-some (Expr.not_expr y) x h = cc
as_not-some _ x h = cc

pub as_select-some : (e c t f : Expr) → as_select e ≡ some (c, t, f) → e ≡ Expr.select c t f
unfolding as_select
as_select-some (Expr.select c' t' f') c t f h = ground arith
as_select-some _ c t f h = cc
