-- ===== src/Walker/Size.antt =====
-- The size of an expression, by which the rounds of the walker are bounded.
use gazer.Base.{ℕ, suc, ◌+◌, List, [], ◌∷◌, ◌≡◌, refl, ap, arith}
use gazer.Core.Expr.{Expr, Exprs}
use gazer.Walker.Order.{operands, to_list}

-- The number of nodes.
unfoldable mutual
  pub size : Expr → ℕ
  size (Expr.undef t) = 1
  size (Expr.literal l) = 1
  size (Expr.var_ref v) = 1
  size (Expr.not_expr e) = suc (size e)
  size (Expr.zext e w) = suc (size e)
  size (Expr.sext e w) = suc (size e)
  size (Expr.extract e o w) = suc (size e)
  size (Expr.arithmetic k l r) = suc (size l + size r)
  size (Expr.bv_concat l r) = suc (size l + size r)
  size (Expr.and_expr es) = suc (size_all es)
  size (Expr.or_expr es) = suc (size_all es)
  size (Expr.imply l r) = suc (size l + size r)
  size (Expr.comparison k l r) = suc (size l + size r)
  size (Expr.fp_query k e) = suc (size e)
  size (Expr.fp_cast k e t m) = suc (size e)
  size (Expr.bit_cast k e t) = suc (size e)
  size (Expr.fp_arithmetic k l r m) = suc (size l + size r)
  size (Expr.fp_compare k l r) = suc (size l + size r)
  size (Expr.select c t e) = suc (size c + size t + size e)
  size (Expr.array_read a i) = suc (size a + size i)
  size (Expr.array_write a i v) = suc (size a + size i + size v)
  size (Expr.tuple_select e i) = suc (size e)
  size (Expr.tuple_construct ts es) = suc (size_all es)

  pub size_all : Exprs → ℕ
  size_all Exprs.nil = 0
  size_all (Exprs.cons e es) = size e + size_all es

unfoldable pub total : List Expr → ℕ
unfolding size
total [] = 0
total (e ∷ es) = size e + total es

size_all-total : (es : Exprs) → size_all es ≡ total (to_list es)
unfolding total to_list
size_all-total Exprs.nil = refl
size_all-total (Exprs.cons e es) = ap (λ n. size e + n) (size_all-total es)

pub size_lem : (e : Expr) → size e ≡ suc (total (operands e))
unfolding size total operands
size_lem (Expr.undef t) = refl
size_lem (Expr.and_expr es) = ap suc (size_all-total es)
size_lem (Expr.or_expr es) = ap suc (size_all-total es)
size_lem (Expr.tuple_construct ts es) = ap suc (size_all-total es)
size_lem _ = omega arith
