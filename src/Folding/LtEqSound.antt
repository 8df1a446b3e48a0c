-- ===== src/Folding/LtEqSound.antt =====
-- simplifyLtEq of the folding builder keeps the value of the comparison.
use gazer.Base.{
  ◌≡◌, sym, ap, ◌∙◌, subst, inl, inr, false, not, ◌||◌, some, Option-cases, Bool-cases,
  if◌then◌else◌, Result, ok, ◌>>=◌, >>=-eq-ok, require,
}
use gazer.Base.Int.{ℤ, ◌+ℤ◌, ◌-ℤ◌, leb_ℤ, to_long, to_long-eq-ok}
use gazer.Core.Ty.{equals, is_bv_type}
use gazer.Core.Llvm.{Llvm}
use gazer.Core.Literal.{int_lit}
use gazer.Core.Expr.{Expr, ArithmeticKind, CompareKind, type_of, same, same-true, same_self}
use gazer.Core.Create.{create_compare, is_bv_only_compare}
use gazer.Evaluator.Arithmetic.{eval_int_arithmetic}
use gazer.Evaluator.Connectives.{truth}
use gazer.Evaluator.Visit.{Valuation, eval}
use gazer.Folding.Match.{as_int, as_add_int, as_sub_int}
use gazer.Folding.Arithmetic.{int_expr}
use gazer.Folding.Compare.{move_constant, simplify_with, simplify_lt_eq}
use gazer.Folding.Operands.{eval_literal}
use gazer.Folding.Moves.{add_comm_ℤ, sum_moves, difference_moves, as_add_int-some, as_sub_int-some}
use gazer.Folding.IntValues.{IsInt, eval-lt_eq, IsInt-arithmetic, literal_int}

create_compare_lem :
    (k : CompareKind) (l r e : Expr) → create_compare k l r ≡ ok e → e ≡ Expr.comparison k l r
unfolding create_compare
create_compare_lem k l r e h =
    let (_, _, rest) = >>=-eq-ok (require (equals (type_of l) (type_of r))) _ h in
    let (_, _, made) =
      >>=-eq-ok (require (not (is_bv_only_compare k) || is_bv_type (type_of l)))
        (λ _. ok (Expr.comparison k l r)) rest in
    cc

module _ ⦃llvm : Llvm⦄ (valuation : Valuation) where
  -- A constant is moved away from a sum, or from a difference.
  moved :
      (other x : Expr) (m c2 : ℤ) (constant : Result ℤ) (n : ℤ)
      → IsInt valuation other m
      → move_constant other c2 ≡ some (x, constant)
      → constant ≡ ok n
      → (k : ℤ) × IsInt valuation x k × (leb_ℤ m c2 ≡ leb_ℤ k n) × (leb_ℤ c2 m ≡ leb_ℤ n k)
  unfolding move_constant eval_int_arithmetic
  moved other x m c2 constant n value moves given = elim (Option-cases (as_add_int other)) [
    | inr ((c1, y), is_add) ↦
        let same_x : y ≡ x = cc in
        let same_constant : to_long (c2 -ℤ c1) ≡ ok n = cc in
        let (l, r, is, sides) = as_add_int-some other y c1 is_add in
        let (p, q, lp, rq, sum) =
          IsInt-arithmetic valuation ArithmeticKind.add l r m
            (subst (λ a. IsInt valuation a m) is value) in
        let total : p +ℤ q ≡ m = to_long-eq-ok (p +ℤ q) sum in
        let difference : c2 -ℤ c1 ≡ n = to_long-eq-ok (c2 -ℤ c1) same_constant in
        elim sides [
          | inl (const, rest) ↦
              let pc : p ≡ c1 = literal_int valuation l c1 p const lp in
              let (low, high) =
                sum_moves c1 q m c2 n (sym total ∙ ap (λ z. z +ℤ q) pc) (sym difference) in
              (q, subst (λ a. IsInt valuation a q) (rest ∙ same_x) rq, low, high)
          | inr (const, rest) ↦
              let qc : q ≡ c1 = literal_int valuation r c1 q const rq in
              let (low, high) =
                sum_moves c1 p m c2 n (sym total ∙ add_comm_ℤ p q ∙ ap (λ z. z +ℤ p) qc)
                  (sym difference) in
              (p, subst (λ a. IsInt valuation a p) (rest ∙ same_x) lp, low, high)
        ]
    | inl no_add ↦ elim (Option-cases (as_sub_int other)) [
      | inr ((c1, y), is_sub) ↦
          let same_x : y ≡ x = cc in
          let same_constant : to_long (c2 +ℤ c1) ≡ ok n = cc in
          let (l, r, is, const, rest) = as_sub_int-some other y c1 is_sub in
          let (p, q, lp, rq, sum) =
            IsInt-arithmetic valuation ArithmeticKind.sub l r m
              (subst (λ a. IsInt valuation a m) is value) in
          let total : p -ℤ q ≡ m = to_long-eq-ok (p -ℤ q) sum in
          let qc : q ≡ c1 = literal_int valuation r c1 q const rq in
          let (low, high) =
            difference_moves c1 p m c2 n (sym total ∙ ap (λ z. p -ℤ z) qc)
              (sym (to_long-eq-ok (c2 +ℤ c1) same_constant)) in
          (p, subst (λ a. IsInt valuation a p) (rest ∙ same_x) lp, low, high)
      | inl no_sub ↦ cc
    ]
  ]

  plain :
      (left right e : Expr) (m n : ℤ)
      → IsInt valuation left m
      → IsInt valuation right n
      → create_compare CompareKind.lt_eq left right ≡ ok e
      → eval valuation e ≡ ok (truth (leb_ℤ m n))
  plain left right e m n l r h =
      ap (eval valuation) (create_compare_lem CompareKind.lt_eq left right e h)
      ∙ eval-lt_eq valuation left right m n l r

  constant_right :
      (left right e : Expr) (m c : ℤ)
      → IsInt valuation left m
      → IsInt valuation right c
      → simplify_with left right left c ≡ ok e
      → eval valuation e ≡ ok (truth (leb_ℤ m c))
  unfolding simplify_with
  constant_right left right e m c l r h = elim (Option-cases (move_constant left c)) [
    | inl stays ↦ plain left right e m c l r cc
    | inr ((x, constant), moves) ↦
        let step : (constant >>= λ d.
        if same left left
        then create_compare CompareKind.lt_eq x (int_expr d)
        else create_compare CompareKind.lt_eq (int_expr d) x)
            ≡ ok e =
          cc in
        let (d, given, made) =
          >>=-eq-ok constant
            (λ d.
              if same left left
              then create_compare CompareKind.lt_eq x (int_expr d)
              else create_compare CompareKind.lt_eq (int_expr d) x)
            step in
        let (k, xk, low, high) = moved left x m c constant d l moves given in
        let node : create_compare CompareKind.lt_eq x (int_expr d) ≡ ok e =
          subst
            (λ t.
              (if t
                then create_compare CompareKind.lt_eq x (int_expr d)
                else create_compare CompareKind.lt_eq (int_expr d) x)
              ≡ ok e)
            (same_self left) made in
        plain x (int_expr d) e k d xk (eval_literal valuation (int_lit d)) node
        ∙ ap (λ b. ok (truth b)) (sym low)
  ]

  constant_left :
      (left right e : Expr) (c n : ℤ)
      → same right left ≡ false
      → IsInt valuation left c
      → IsInt valuation right n
      → simplify_with left right right c ≡ ok e
      → eval valuation e ≡ ok (truth (leb_ℤ c n))
  unfolding simplify_with
  constant_left left right e c n differs l r h = elim (Option-cases (move_constant right c)) [
    | inl stays ↦ plain left right e c n l r cc
    | inr ((x, constant), moves) ↦
        let step : (constant >>= λ d.
        if same right left
        then create_compare CompareKind.lt_eq x (int_expr d)
        else create_compare CompareKind.lt_eq (int_expr d) x)
            ≡ ok e =
          cc in
        let (d, given, made) =
          >>=-eq-ok constant
            (λ d.
              if same right left
              then create_compare CompareKind.lt_eq x (int_expr d)
              else create_compare CompareKind.lt_eq (int_expr d) x)
            step in
        let (k, xk, low, high) = moved right x n c constant d r moves given in
        let node : create_compare CompareKind.lt_eq (int_expr d) x ≡ ok e =
          subst
            (λ t.
              (if t
                then create_compare CompareKind.lt_eq x (int_expr d)
                else create_compare CompareKind.lt_eq (int_expr d) x)
              ≡ ok e)
            differs made in
        plain (int_expr d) x e d k (eval_literal valuation (int_lit d)) xk node
        ∙ ap (λ b. ok (truth b)) (sym high)
  ]

  -- On operands with integer values, what simplifyLtEq makes of them has the value of the comparison,
  -- a constant that is moved to the other side included.
  pub simplify_lt_eq_sound :
      (left right e : Expr) (m n : ℤ)
      → IsInt valuation left m
      → IsInt valuation right n
      → simplify_lt_eq left right ≡ ok e
      → eval valuation e ≡ ok (truth (leb_ℤ m n))
  unfolding simplify_lt_eq
  simplify_lt_eq_sound left right e m n l r h = elim (Option-cases (as_int right)) [
    | inr (c, is_int) ↦
        let nc : n ≡ c = literal_int valuation right c n is_int r in
        constant_right left right e m c l (subst (λ z. IsInt valuation right z) nc r) (cc)
        ∙ ap (λ z. ok (truth (leb_ℤ m z))) (sym nc)
    | inl no_int ↦ elim (Option-cases (as_int left)) [
      | inl neither ↦ plain left right e m n l r cc
      | inr (c, is_int) ↦
          let mc : m ≡ c = literal_int valuation left c m is_int l in
          elim (Bool-cases (same right left)) [
            | inl alike ↦ let equal : right ≡ left = same-true right left alike in cc
            | inr differs ↦
                constant_left left right e c n differs (subst (λ z. IsInt valuation left z) mc l) r
                  (cc)
                ∙ ap (λ z. ok (truth (leb_ℤ z n))) (sym mc)
          ]
    ]
  ]
