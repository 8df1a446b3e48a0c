-- ===== src/Folding/ArithmeticSound.antt =====
-- The arithmetic methods of the folding builder keep the value of the node that they stand for.
use gazer.Base.{
  ℕ, zero, suc, ◌≡◌, refl, sym, ap, ◌∙◌, ◌⊎◌, inl, inr, true, Option, none, some, Bool-cases,
  Option-cases, Result, ok, ◌>>=◌, >>=-eq-ok, require, arith,
}
use gazer.Base.Int.{ℤ}
use gazer.Core.Ty.{equals}
use gazer.Core.Llvm.{Llvm, IsLlvm}
use gazer.Core.Literal.{Literal, bv_lit, Atom, lit}
use gazer.Core.Expr.{type_of, Expr, ArithmeticKind}
use gazer.Core.Create.{accepts, create_arithmetic}
use gazer.Walker.Order.{post_order}
use gazer.Evaluator.Arithmetic.{eval_binary_arithmetic}
use gazer.Evaluator.Visit.{Valuation, visit, eval}
use gazer.Folding.Match.{as_int, as_bv, as_literal}
use gazer.Folding.Arithmetic.{
  is_commutative, fold_int_right, is_overridden, fold_bv_right, fold_literals, fold_binary_expr,
  build_arithmetic,
}
use gazer.Folding.Values.{ShiftFits}
use gazer.Folding.Operands.{Fits, ShiftOk, comm_operands}
use gazer.Folding.Steps.{Node, right_int_sound, right_bv_sound, literals_sound}

prefer :
    (o : Option Expr) (both : Result (Option Expr)) (e : Expr)
    → elim o [ some x ↦ ok (some x) | none ↦ both ] ≡ ok (some e)
    → (o ≡ some e) ⊎ (both ≡ ok (some e))
prefer (some x) both e h = inl cc
prefer none both e h = inr h

module _ ⦃llvm : Llvm⦄ (laws : IsLlvm llvm) (valuation : Valuation) (k : ArithmeticKind) where
  -- How foldBinaryExpr comes to its result.
  fold_cases :
      (fuel : ℕ) (left right e : Expr)
      → fold_binary_expr (suc fuel) k left right ≡ ok (some e)
      → ((n : ℤ) × (as_int right ≡ some n) × (fold_int_right k left n ≡ some e))
        ⊎ ((w x : ℕ) × (as_bv right ≡ some (w, x)) × (fold_bv_right k left w x ≡ some e))
        ⊎ ((is_commutative k ≡ true) × (fold_binary_expr fuel k right left ≡ ok (some e)))
        ⊎ (fold_literals k left right ≡ ok (some e))
  unfolding fold_binary_expr
  fold_cases fuel left right e h = elim (Option-cases (as_int right)) [
    | inr (n, is_int) ↦ elim (prefer (fold_int_right k left n) (fold_literals k left right) e cc) [
      | inl folded ↦ inl (n, is_int, folded)
      | inr both ↦ inr (inr (inr both))
    ]
    | inl no_int ↦ elim (Option-cases (as_bv right)) [
      | inr ((w, x), is_bv) ↦
          elim (prefer (fold_bv_right k left w x) (fold_literals k left right) e cc) [
            | inl folded ↦ inr (inl (w, x, is_bv, folded))
            | inr both ↦ inr (inr (inr both))
          ]
      | inl no_bv ↦ elim (Option-cases (as_literal left)) [
        | inr (l, is_literal) ↦ ground arith
        | inl no_literal ↦ ground arith
      ]
    ]
  ]

ShiftFits-of_commutative : (k : ArithmeticKind) (v : ℕ) → is_commutative k ≡ true → ShiftFits k v
unfolding is_commutative
ShiftFits-of_commutative ArithmeticKind.lshr v h = cc
ShiftFits-of_commutative ArithmeticKind.ashr v h = cc
ShiftFits-of_commutative _ v h = tt

ShiftOk-of_commutative : (k : ArithmeticKind) (c : Literal) → is_commutative k ≡ true → ShiftOk k c
ShiftOk-of_commutative k (bv_lit w v) h = ShiftFits-of_commutative k v h
ShiftOk-of_commutative k _ h = tt

module _ ⦃llvm : Llvm⦄ (laws : IsLlvm llvm) (valuation : Valuation) (k : ArithmeticKind) where
  -- foldBinaryExpr gives an expression of the value of the node, with any fuel.
  fold_binary_expr_sound :
      (fuel : ℕ) (left right e : Expr) (a b : Literal) (v : Atom)
      → Node laws valuation k left right a b v
      → fold_binary_expr fuel k left right ≡ ok (some e)
      → eval valuation e ≡ ok v
  unfolding fold_binary_expr
  fold_binary_expr_sound zero left right e a b v node h = cc
  fold_binary_expr_sound (suc fuel) left right e a b v node h =
      elim (fold_cases laws valuation k fuel left right e h) [
        | inl (n, is_int, folded) ↦
            right_int_sound laws valuation k left right e a b n v node is_int folded
        | inr (inl (w, x, is_bv, folded)) ↦
            right_bv_sound laws valuation k left right e a b w x v node is_bv folded
        | inr (inr (inl (commutes, swapped))) ↦
            let turned : Node laws valuation k right left b a v = record {
              left_value = node.right_value;
              right_value = node.left_value;
              left_fits = node.right_fits;
              right_fits = node.left_fits;
              shift = ShiftOk-of_commutative k a commutes;
              value = comm_operands laws k a b v commutes node.value;
            } in
            fold_binary_expr_sound fuel right left e b a v turned swapped
        | inr (inr (inr both)) ↦ literals_sound laws valuation k left right e a b v node both
      ]

  eval_arithmetic :
      (left right : Expr) (a b : Literal)
      → eval valuation left ≡ ok (lit a)
      → eval valuation right ≡ ok (lit b)
      → eval valuation (Expr.arithmetic k left right) ≡ eval_binary_arithmetic k (lit a) (lit b)
  unfolding post_order visit
  eval_arithmetic left right a b l r = rw (l, r) refl

  create_arithmetic_lem :
      (left right e : Expr)
      → create_arithmetic k left right ≡ ok e
      → e ≡ Expr.arithmetic k left right
  unfolding create_arithmetic
  create_arithmetic_lem left right e h =
      let (_, _, rest) = >>=-eq-ok (require (equals (type_of left) (type_of right))) _ h in
      let (_, _, made) =
        >>=-eq-ok (require (accepts k (type_of left))) (λ _. ok (Expr.arithmetic k left right))
          rest in
      cc

  after_fold :
      (fuel : ℕ) (left right e : Expr) (folded : Option Expr)
      → fold_binary_expr fuel k left right ≡ ok folded
      → elim folded [ some x ↦ ok x | none ↦ create_arithmetic k left right ] ≡ ok e
      → (fold_binary_expr fuel k left right ≡ ok (some e)) ⊎ (e ≡ Expr.arithmetic k left right)
  after_fold fuel left right e (some x) p h = inl cc
  after_fold fuel left right e none p h = inr (create_arithmetic_lem left right e h)

  build_cases :
      (fuel : ℕ) (left right e : Expr)
      → build_arithmetic fuel k left right ≡ ok e
      → (fold_binary_expr fuel k left right ≡ ok (some e)) ⊎ (e ≡ Expr.arithmetic k left right)
  unfolding build_arithmetic
  build_cases fuel left right e h = elim (Bool-cases (is_overridden k)) [
    | inl overridden ↦
        let rest : (fold_binary_expr fuel k left right >>= λ folded. elim folded [
          | some x ↦ ok x
          | none ↦ create_arithmetic k left right
        ])
            ≡ ok e =
          cc in
        let (folded, p, q) =
          >>=-eq-ok (fold_binary_expr fuel k left right)
            (λ folded. elim folded [ some x ↦ ok x | none ↦ create_arithmetic k left right ])
            rest in
        after_fold fuel left right e folded p q
    | inr inherited ↦ inr (create_arithmetic_lem left right e cc)
  ]

  -- Where the operands evaluate to literals, the plain node has a value, bit-vector literals fit
  -- their width, the amount of a right shift is below 2 ^ 32, and LLVM behaves as documented: what an
  -- arithmetic method of the folding builder gives, with any fuel, has the value of the plain node.
  pub build_arithmetic_sound :
      (fuel : ℕ) (left right e : Expr) (a b : Literal) (v : Atom)
      → eval valuation left ≡ ok (lit a)
      → eval valuation right ≡ ok (lit b)
      → Fits a
      → Fits b
      → ShiftOk k b
      → build_arithmetic fuel k left right ≡ ok e
      → eval valuation (Expr.arithmetic k left right) ≡ ok v
      → eval valuation e ≡ ok v
  unfolding build_arithmetic
  build_arithmetic_sound fuel left right e a b v l r fits_a fits_b shift h value =
      let node : Node laws valuation k left right a b v = record {
        left_value = l;
        right_value = r;
        left_fits = fits_a;
        right_fits = fits_b;
        shift = shift;
        value = sym (eval_arithmetic left right a b l r) ∙ value;
      } in
      elim (build_cases fuel left right e h) [
        | inl folded ↦ fold_binary_expr_sound fuel left right e a b v node folded
        | inr plain ↦ ap (eval valuation) plain ∙ value
      ]
