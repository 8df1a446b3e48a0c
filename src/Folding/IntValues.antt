-- ===== src/Folding/IntValues.antt =====
-- Nodes whose value is an integer, and the values of their operands.
use gazer.Base.{
  ◌≡◌, refl, sym, ap, ◌∙◌, subst, List, [], ◌∷◌, some, Result, ok, fault, >>=-eq-ok, require,
}
use gazer.Base.Int.{ℤ, leb_ℤ}
use gazer.Core.Ty.{Ty, equals}
use gazer.Core.Llvm.{Llvm}
use gazer.Core.Literal.{int_lit, bv_lit, Atom, undef, lit, literal_type, atom_type}
use gazer.Core.Expr.{Expr, ArithmeticKind, CompareKind}
use gazer.Walker.Order.{post_order, sequence}
use gazer.Evaluator.Arithmetic.{
  eval_binary_arithmetic, eval_int_arithmetic, eval_bv_arithmetic, eval_literals, eval_operands,
}
use gazer.Evaluator.Compare.{eval_binary_compare}
use gazer.Evaluator.Connectives.{truth}
use gazer.Evaluator.Visit.{Valuation, visit, eval}
use gazer.Folding.Match.{as_int, as_int-some}
use gazer.Folding.Operands.{eval_literal}

sequence_two :
    (m n : Result Atom) (ops : List Atom)
    → sequence (m ∷ n ∷ []) ≡ ok ops
    → (a b : Atom) × (m ≡ ok a) × (n ≡ ok b) × (ops ≡ a ∷ b ∷ [])
sequence_two (ok a) (ok b) ops h = (a, b, refl, refl, cc)
sequence_two (ok a) (fault f) ops h = cc
sequence_two (fault f) n ops h = cc

ok_lit : {a b : Atom} → ok a ≡ ok b → a ≡ b
ok_lit h = cc

lit_int : {m n : ℤ} → lit (int_lit m) ≡ lit (int_lit n) → m ≡ n
lit_int h = cc

module _ ⦃llvm : Llvm⦄ where
  int_inversion :
      (k : ArithmeticKind) (a b : Atom) (m : ℤ)
      → eval_binary_arithmetic k a b ≡ ok (lit (int_lit m))
      → (x y : ℤ) × (a ≡ lit (int_lit x))
        × (b ≡ lit (int_lit y))
        × (eval_int_arithmetic k x y ≡ ok m)
  unfolding eval_binary_arithmetic
  int_inversion k (lit (int_lit x)) (lit (int_lit y)) m h =
      let (z, p, q) = >>=-eq-ok (eval_int_arithmetic k x y) (λ c. ok (lit (int_lit c))) h in
      (x, y, refl, refl, p ∙ ap ok (lit_int cc))
  int_inversion k (lit (bv_lit w x)) (lit (bv_lit v y)) m h =
      let (_, _, rest) =
        >>=-eq-ok (require (equals (Ty.bv w) (Ty.bv v)))
          (λ _. eval_literals k (bv_lit w x) (bv_lit v y)) h in
      let (z, p, q) = >>=-eq-ok (eval_bv_arithmetic k w x y) (λ c. ok (lit (bv_lit w c))) rest in cc
  int_inversion k (undef t) b m h =
      let (_, _, rest) =
        >>=-eq-ok (require (equals t (atom_type b))) (λ _. eval_operands k (undef t) b) h in
      cc
  int_inversion k (lit a) (undef t) m h =
      let (_, _, rest) =
        >>=-eq-ok (require (equals (literal_type a) t)) (λ _. eval_operands k (lit a) (undef t))
          h in
      cc
  int_inversion k (lit a) (lit b) m h =
      let (_, _, rest) =
        >>=-eq-ok (require (equals (literal_type a) (literal_type b))) (λ _. eval_literals k a b)
          h in
      cc

module _ ⦃llvm : Llvm⦄ (valuation : Valuation) where
  -- The expression evaluates to the integer.
  abbrev pub IsInt : Expr → ℤ → Type 0
  IsInt e n = eval valuation e ≡ ok (lit (int_lit n))

  pub eval-lt_eq :
      (l r : Expr) (m n : ℤ)
      → IsInt l m
      → IsInt r n
      → eval valuation (Expr.comparison CompareKind.lt_eq l r) ≡ ok (truth (leb_ℤ m n))
  unfolding post_order visit eval_binary_compare
  eval-lt_eq l r m n p q = rw (p, q) refl

  pub IsInt-arithmetic :
      (k : ArithmeticKind) (l r : Expr) (m : ℤ)
      → IsInt (Expr.arithmetic k l r) m
      → (x y : ℤ) × IsInt l x × IsInt r y × (eval_int_arithmetic k x y ≡ ok m)
  unfolding post_order visit
  IsInt-arithmetic k l r m h =
      let (ops, evaluate, value) =
        >>=-eq-ok (sequence (eval valuation l ∷ eval valuation r ∷ []))
          (visit valuation (Expr.arithmetic k l r)) h in
      let (a, b, p, q, is) = sequence_two (eval valuation l) (eval valuation r) ops evaluate in
      let result : eval_binary_arithmetic k a b ≡ ok (lit (int_lit m)) =
        subst (λ os. visit valuation (Expr.arithmetic k l r) os ≡ ok (lit (int_lit m))) is value in
      let (x, y, ax, by, z) = int_inversion k a b m result in (x, y, p ∙ ap ok ax, q ∙ ap ok by, z)

  pub literal_int : (e : Expr) (c x : ℤ) → as_int e ≡ some c → IsInt e x → x ≡ c
  literal_int e c x is_int h = lit_int (
      ok_lit
        (sym h ∙ ap (eval valuation) (as_int-some e c is_int) ∙ eval_literal valuation (int_lit c)))
