-- ===== src/Evaluator/Negation.antt =====
-- NotEq against Eq in the evaluator.
use gazer.Base.{Bool, not, ◌≡◌, ◌≢◌, refl, ok, ◌>>=◌}
use gazer.Core.Ty.{Ty}
use gazer.Core.Llvm.{Llvm}
use gazer.Core.Literal.{Literal, bool_lit, int_lit, bv_lit, lit, literal_type}
use gazer.Core.Expr.{Expr, CompareKind}
use gazer.Evaluator.Compare.{compare_literals, eval_binary_compare, eqb}
use gazer.Evaluator.Visit.{Valuation, eval, visit}

module _ ⦃llvm : Llvm⦄ where
  -- On literals of every type but Bool, NotEq has the negation of the value of Eq, and it has none
  -- where Eq has none.
  pub not_eq-negates :
      (a b : Literal)
      → literal_type a ≢ Ty.bool
      → compare_literals CompareKind.not_eq a b
        ≡ (compare_literals CompareKind.eq a b >>= λ v. ok (not v))
  unfolding compare_literals literal_type
  not_eq-negates (bool_lit a) b h = absurd (h refl)
  not_eq-negates (bv_lit w a) (bv_lit v b) h = refl
  not_eq-negates (int_lit a) (int_lit b) h = refl
  not_eq-negates _ b h = refl

  -- On two Boolean operands a NotEq node has the value of an Eq node: true where they agree.
  pub not_eq-eq_bool :
      (valuation : Valuation) (l r : Expr) (a b : Bool)
      → eval valuation l ≡ ok (lit (bool_lit a))
      → eval valuation r ≡ ok (lit (bool_lit b))
      → (eval valuation (Expr.comparison CompareKind.not_eq l r) ≡ ok (lit (bool_lit (eqb a b))))
        × (eval valuation (Expr.comparison CompareKind.eq l r) ≡ ok (lit (bool_lit (eqb a b))))
  unfolding gazer.Walker.Order.post_order visit eval_binary_compare
  not_eq-eq_bool valuation l r a b p q = (rw (p, q), rw (p, q))
