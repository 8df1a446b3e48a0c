-- ===== src/Folding/Steps.antt =====
-- Each way in which foldBinaryExpr comes to a result keeps the value of the node.
use gazer.Base.{
  ℕ, ◌≡◌, refl, sym, ap, ap₂, ◌∙◌, subst, inl, inr, some, ◌==◌, ◌||◌, ok, ◌>>=◌, >>=-eq-ok, require,
}
use gazer.Base.Int.{ℤ}
use gazer.Core.Llvm.{Llvm, IsLlvm}
use gazer.Core.Literal.{Literal, int_lit, bv_lit, Atom, lit}
use gazer.Core.Expr.{Expr, ArithmeticKind}
use gazer.Walker.Order.{post_order}
use gazer.Evaluator.Arithmetic.{eval_binary_arithmetic, eval_int_arithmetic}
use gazer.Evaluator.Visit.{Valuation, visit, eval}
use gazer.Folding.Match.{as_int, as_int-some, as_bv, as_bv-some}
use gazer.Folding.Arithmetic.{
  int_expr, bv_expr, fold_int_right, fold_bv_right, fold_bv_zero, fold_bv_values, is_shift,
  fold_literals,
}
use gazer.Folding.Values.{
  fold_int_right_sound, fold_int_literals_sound, fold_bv_right_sound, fold_bv_zero_sound,
  fold_bv_values_sound,
}
use gazer.Folding.Operands.{
  Fits, ShiftOk, int_operands, bv_operands, bv_left, eval_literal, literal_value, bv_lit-width,
  bv_lit-value,
}

module _ ⦃llvm : Llvm⦄ (laws : IsLlvm llvm) (valuation : Valuation) (k : ArithmeticKind) where
  -- The left operand has the value a, the right one b, and the node the value v.
  pub record Node (left right : Expr) (a b : Literal) (v : Atom) : Type 0 where
    pub left_value : eval valuation left ≡ ok (lit a)
    pub right_value : eval valuation right ≡ ok (lit b)
    pub left_fits : Fits a
    pub right_fits : Fits b
    pub shift : ShiftOk k b
    pub value : eval_binary_arithmetic k (lit a) (lit b) ≡ ok v

  pub right_int_sound :
      (left right e : Expr) (a b : Literal) (n : ℤ) (v : Atom)
      → Node left right a b v
      → as_int right ≡ some n
      → fold_int_right k left n ≡ some e
      → eval valuation e ≡ ok v
  unfolding as_int
  right_int_sound left right e a b n v node is_int folded =
      let b_is : b ≡ int_lit n =
        literal_value valuation right (int_lit n) b (as_int-some right n is_int) node.right_value in
      let (x, y, a_is, p, q) = int_operands k a n v (rw (sym b_is) node.value) in
      elim (fold_int_right_sound k left e x n y folded p) [
        | inl (same_expr, same_value) ↦
            ap (eval valuation) same_expr
            ∙ node.left_value
            ∙ ap ok (ap lit (a_is ∙ ap int_lit (sym same_value)) ∙ sym q)
        | inr is_lit ↦
            ap (eval valuation) is_lit ∙ eval_literal valuation (int_lit y) ∙ ap ok (sym q)
      ]

  pub right_bv_sound :
      (left right e : Expr) (a b : Literal) (w x : ℕ) (v : Atom)
      → Node left right a b v
      → as_bv right ≡ some (w, x)
      → fold_bv_right k left w x ≡ some e
      → eval valuation e ≡ ok v
  right_bv_sound left right e a b w x v node is_bv folded =
      let b_is : b ≡ bv_lit w x =
        literal_value valuation right (bv_lit w x) b (as_bv-some right w x is_bv)
          node.right_value in
      let (z, y, a_is, p, q) = bv_operands k a w x v (rw (sym b_is) node.value) in
      elim (fold_bv_right_sound laws k left e w z x y (subst Fits a_is node.left_fits) folded p) [
        | inl (same_expr, same_value) ↦
            ap (eval valuation) same_expr
            ∙ node.left_value
            ∙ ap ok (ap lit (a_is ∙ ap (bv_lit w) (sym same_value)) ∙ sym q)
        | inr is_lit ↦
            ap (eval valuation) is_lit ∙ eval_literal valuation (bv_lit w y) ∙ ap ok (sym q)
      ]

  pub literals_sound :
      (left right e : Expr) (a b : Literal) (v : Atom)
      → Node left right a b v
      → fold_literals k left right ≡ ok (some e)
      → eval valuation e ≡ ok v
  unfolding as_int as_bv fold_literals post_order visit
  literals_sound (Expr.literal (int_lit x)) (Expr.literal (int_lit n)) e a b v node folded =
      let b_is : b ≡ int_lit n = literal_value valuation _ (int_lit n) b refl node.right_value in
      let a_is : a ≡ int_lit x = literal_value valuation _ (int_lit x) a refl node.left_value in
      let (z, y, az, p, q) =
        int_operands k a n v
          (subst (λ c. eval_binary_arithmetic k (lit a) (lit c) ≡ ok v) b_is node.value) in
      let same : z ≡ x = cc in
      let is_lit : e ≡ int_expr y =
        fold_int_literals_sound k e x n y folded
          (subst (λ c. eval_int_arithmetic k c n ≡ ok y) same p) in
      ap (eval valuation) is_lit ∙ ap ok (sym q)
  literals_sound (Expr.literal (bv_lit u x)) (Expr.literal (bv_lit w n)) e a b v node folded =
      let b_is : b ≡ bv_lit w n = literal_value valuation _ (bv_lit w n) b refl node.right_value in
      let a_is : a ≡ bv_lit u x = literal_value valuation _ (bv_lit u x) a refl node.left_value in
      let (z, y, az, p, q) =
        bv_operands k a w n v
          (subst (λ c. eval_binary_arithmetic k (lit a) (lit c) ≡ ok v) b_is node.value) in
      let same_width : u ≡ w = bv_lit-width (sym a_is ∙ az) in
      let same : z ≡ x = bv_lit-value (sym az ∙ a_is) in
      let (_, _, rest) =
        >>=-eq-ok (require (is_shift k || u == w))
          (λ _. fold_bv_values k u x n >>= λ c. ok (some (bv_expr u c))) folded in
      let (c, given, is_lit) =
        >>=-eq-ok (fold_bv_values k u x n) (λ c. ok (some (bv_expr u c))) rest in
      let agree : c ≡ y =
        fold_bv_values_sound laws k u x n c y (subst (ShiftOk k) b_is node.shift) given
          (rw (same_width, sym same) p) in
      let is_bv : e ≡ bv_expr u c = cc in
      ap (eval valuation) is_bv ∙ ap ok (ap lit (ap₂ bv_lit same_width agree) ∙ sym q)
  literals_sound (Expr.literal (bv_lit u x)) right e a b v node folded =
      let a_is : a ≡ bv_lit u x = literal_value valuation _ (bv_lit u x) a refl node.left_value in
      let (y, z, p, q) =
        bv_left k b u x v
          (subst (λ c. eval_binary_arithmetic k (lit c) (lit b) ≡ ok v) a_is node.value) in
      let zero_folds : fold_bv_zero k u x ≡ some e = cc in
      ap (eval valuation) (fold_bv_zero_sound laws k e u x y z zero_folds p) ∙ ap ok (sym q)
  literals_sound left right e a b v node folded = cc
