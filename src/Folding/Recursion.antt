-- ===== src/Folding/Recursion.antt =====
-- The recursive call of foldBinaryExpr, which swaps the operands of a commutative operator to have
-- a literal on the right.
use gazer.Base.{
  ℕ, zero, suc, ◌≡◌, ◌≢◌, refl, sym, ◌∙◌, ◌⊎◌, inl, inr, Bool, true, false, ◌&&◌, Option, none,
  some, Option-cases, Bool-cases, Result, ok, fault, Fault, arith,
}
use gazer.Base.Int.{ℤ}
use gazer.Core.Llvm.{Llvm}
use gazer.Core.Literal.{Literal, int_lit, bv_lit}
use gazer.Core.Expr.{Expr, ArithmeticKind}
use gazer.Evaluator.Arithmetic.{div_long}
use gazer.Folding.Match.{as_literal, as_int, as_bv}
use gazer.Folding.Arithmetic.{
  is_commutative, fold_int_literals, fold_bv_values, fold_literals, fold_binary_expr,
  fold_int_right, fold_bv_right,
}

-- A literal that is neither an integer nor a bit-vector.
unfoldable pub is_other_literal : Expr → Bool
is_other_literal (Expr.literal (int_lit n)) = false
is_other_literal (Expr.literal (bv_lit w v)) = false
is_other_literal (Expr.literal l) = true
is_other_literal _ = false

-- The inputs on which the swap is undone by a swap.
unfoldable pub swaps_forever : ArithmeticKind → Expr → Expr → Bool
unfolding is_commutative is_other_literal
swaps_forever k left right = is_commutative k && is_other_literal left && is_other_literal right

IsOther-as_int : (e : Expr) → is_other_literal e ≡ true → as_int e ≡ none
unfolding is_other_literal as_int
IsOther-as_int (Expr.literal (int_lit n)) h = cc
IsOther-as_int _ h = ground arith

IsOther-as_bv : (e : Expr) → is_other_literal e ≡ true → as_bv e ≡ none
unfolding is_other_literal as_bv
IsOther-as_bv (Expr.literal (bv_lit n v)) h = cc
IsOther-as_bv _ h = ground arith

IsOther-as_literal :
    (e : Expr) → is_other_literal e ≡ true → (l : Literal) × (as_literal e ≡ some l)
unfolding is_other_literal as_literal
IsOther-as_literal (Expr.literal l) h = (l, refl)
IsOther-as_literal _ h = cc

-- An expression is no integer and no bit-vector literal.
abbrev NoNumber : Expr → Type 0
NoNumber e = (as_int e ≡ none) × (as_bv e ≡ none)

IsOther-NoNumber : (e : Expr) → is_other_literal e ≡ true → NoNumber e
IsOther-NoNumber e h = (IsOther-as_int e h, IsOther-as_bv e h)

literal-IsOther :
    (e : Expr) (l : Literal) → NoNumber e → as_literal e ≡ some l → is_other_literal e ≡ true
unfolding as_literal as_int as_bv is_other_literal
literal-IsOther (Expr.literal (int_lit n)) l h p = cc
literal-IsOther (Expr.literal (bv_lit w v)) l h p = cc
literal-IsOther (Expr.literal c) l h p = refl
literal-IsOther _ l h p = cc

-- An expression is an integer or a bit-vector, or neither.
number_cases :
    (e : Expr)
    → (((n : ℤ) × (as_int e ≡ some n)) ⊎ ((w v : ℕ) × (as_bv e ≡ some (w, v)) × (as_int e ≡ none)))
      ⊎ NoNumber e
unfolding as_int as_bv
number_cases (Expr.literal (int_lit n)) = inl (inl (n, refl))
number_cases (Expr.literal (bv_lit w v)) = inl (inr (w, v, refl, refl))
number_cases e = inr (refl, refl)

fold_int_literals-ends :
    (k : ArithmeticKind) (l r : ℤ) → fold_int_literals k l r ≢ fault Fault.out_of_fuel
unfolding fold_int_literals div_long
fold_int_literals-ends ArithmeticKind.add l r = ground arith
fold_int_literals-ends ArithmeticKind.sub l r = ground arith
fold_int_literals-ends ArithmeticKind.mul l r = ground arith
fold_int_literals-ends ArithmeticKind.div l r = ground arith
fold_int_literals-ends _ l r = ground arith

keeps :
    (o : Option Expr) {m : Result (Option Expr)}
    → m ≢ fault Fault.out_of_fuel
    → elim o [ some e ↦ ok (some e) | none ↦ m ] ≢ fault Fault.out_of_fuel
keeps (some e) h = λ p. cc
keeps none h = h

module _ ⦃llvm : Llvm⦄ (k : ArithmeticKind) where
  fold_bv_values-ends : (w l r : ℕ) → fold_bv_values k w l r ≢ fault Fault.out_of_fuel
  unfolding fold_bv_values
  fold_bv_values-ends w l r = ground arith

  fold_literals-ends : (left right : Expr) → fold_literals k left right ≢ fault Fault.out_of_fuel
  unfolding fold_literals
  fold_literals-ends (Expr.literal (int_lit l)) (Expr.literal (int_lit r)) =
      fold_int_literals-ends k l r
  fold_literals-ends (Expr.literal (bv_lit w l)) (Expr.literal (bv_lit v r)) =
      ground (arith, fold_bv_values-ends w l r)
  fold_literals-ends left right = ground arith

  -- From one step on, the result does not depend on the fuel, and it is there.
  abbrev Settles : Expr → Expr → Type 0
  Settles left right =
      (fuel other : ℕ)
      → (fold_binary_expr (suc fuel) k left right ≡ fold_binary_expr (suc other) k left right)
        × (fold_binary_expr (suc fuel) k left right ≢ fault Fault.out_of_fuel)

  at_int : (left right : Expr) (n : ℤ) → as_int right ≡ some n → Settles left right
  unfolding fold_binary_expr
  at_int left right n is_int fuel other = (
    rw (fold_binary_expr, is_int) refl,
    rw (fold_binary_expr, is_int) (keeps (fold_int_right k left n) (fold_literals-ends left right)),
  )

  at_bv :
      (left right : Expr) (w v : ℕ)
      → as_bv right ≡ some (w, v)
      → as_int right ≡ none
      → Settles left right
  unfolding fold_binary_expr
  at_bv left right w v is_bv no_int fuel other = (
    rw (fold_binary_expr, no_int, is_bv) refl,
    rw (fold_binary_expr, no_int, is_bv)
        (keeps (fold_bv_right k left w v) (fold_literals-ends left right)),
  )

  at_no_literal : (left right : Expr) → NoNumber right → as_literal left ≡ none → Settles left right
  unfolding fold_binary_expr
  at_no_literal left right (no_int, no_bv) no_literal fuel other = (
    rw (fold_binary_expr, no_int, no_bv, no_literal) refl,
    rw (fold_binary_expr, no_int, no_bv, no_literal) (fold_literals-ends left right),
  )

  at_literal :
      (left right : Expr) (l : Literal)
      → NoNumber right
      → as_literal left ≡ some l
      → is_commutative k ≡ false
      → Settles left right
  unfolding fold_binary_expr
  at_literal left right l (no_int, no_bv) is_literal stays fuel other = (
    rw (fold_binary_expr, no_int, no_bv, is_literal, stays) refl,
    rw (fold_binary_expr, no_int, no_bv, is_literal, stays) (fold_literals-ends left right),
  )

  at_swap :
      (left right : Expr) (l : Literal) (fuel : ℕ)
      → NoNumber right
      → as_literal left ≡ some l
      → is_commutative k ≡ true
      → fold_binary_expr (suc fuel) k left right ≡ fold_binary_expr fuel k right left
  unfolding fold_binary_expr
  at_swap left right l fuel (no_int, no_bv) is_literal swaps =
      rw (fold_binary_expr, no_int, no_bv, is_literal, swaps) refl

  -- The recursion does not end where the operator is commutative and both operands are literals
  -- that are neither integers nor bit-vectors.
  pub fold_binary_expr-swaps_forever :
      (left right : Expr)
      → swaps_forever k left right ≡ true
      → (fuel : ℕ) → fold_binary_expr fuel k left right ≡ fault Fault.out_of_fuel
  unfolding swaps_forever fold_binary_expr
  fold_binary_expr-swaps_forever left right h zero = refl
  fold_binary_expr-swaps_forever left right h (suc fuel) =
      let commutes : is_commutative k ≡ true = ground arith in
      let left_other : is_other_literal left ≡ true = ground arith in
      let right_other : is_other_literal right ≡ true = ground arith in
      let turned : swaps_forever k right left ≡ true =
        rw (commutes, left_other, right_other) refl in
      let (l, is_literal) = IsOther-as_literal left left_other in
      at_swap left right l fuel (IsOther-NoNumber right right_other) is_literal commutes
      ∙ fold_binary_expr-swaps_forever right left turned fuel

  after_swap :
      (left right : Expr) (l : Literal)
      → NoNumber right
      → as_literal left ≡ some l
      → is_commutative k ≡ true
      → Settles right left
      → (fuel : ℕ)
      → (fold_binary_expr (suc (suc fuel)) k left right ≡ fold_binary_expr 2 k left right)
        × (fold_binary_expr 2 k left right ≢ fault Fault.out_of_fuel)
  after_swap left right l no_number is_literal swaps settles fuel =
      let first = at_swap left right l (suc fuel) no_number is_literal swaps in
      let second = at_swap left right l 1 no_number is_literal swaps in
      (first ∙ (settles fuel 0).0 ∙ sym second, λ p. (settles 0 0).1 (sym second ∙ p))

  without_swap :
      (left right : Expr)
      → Settles left right
      → (fuel : ℕ)
      → (fold_binary_expr (suc (suc fuel)) k left right ≡ fold_binary_expr 2 k left right)
        × (fold_binary_expr 2 k left right ≢ fault Fault.out_of_fuel)
  without_swap left right settles fuel = ((settles (suc fuel) 1).0, (settles 1 1).1)

  Settles-back :
      (left right : Expr) (l : Literal)
      → NoNumber right
      → as_literal left ≡ some l
      → is_commutative k ≡ true
      → swaps_forever k left right ≡ false
      → Settles right left
  unfolding swaps_forever
  Settles-back left right l right_no is_literal swaps h = elim (number_cases left) [
    | inl (inl (n, is_int)) ↦ at_int right left n is_int
    | inl (inr (w, v, is_bv, no_int)) ↦ at_bv right left w v is_bv no_int
    | inr left_no ↦ elim (Option-cases (as_literal right)) [
      | inl no_literal ↦ at_no_literal right left left_no no_literal
      | inr (r, right_literal) ↦
          let left_other = literal-IsOther left l left_no is_literal in
          let right_other = literal-IsOther right r right_no right_literal in ground arith
    ]
  ]

  -- On operands that are not swapped forever, foldBinaryExpr ends: two steps of fuel are enough, and
  -- more fuel gives the same.
  pub fold_binary_expr-ends :
      (left right : Expr)
      → swaps_forever k left right ≡ false
      → (fuel : ℕ)
      → (fold_binary_expr (suc (suc fuel)) k left right ≡ fold_binary_expr 2 k left right)
        × (fold_binary_expr 2 k left right ≢ fault Fault.out_of_fuel)
  unfolding swaps_forever
  fold_binary_expr-ends left right h fuel = elim (number_cases right) [
    | inl (inl (n, is_int)) ↦ without_swap left right (at_int left right n is_int) fuel
    | inl (inr (w, v, is_bv, no_int)) ↦
        without_swap left right (at_bv left right w v is_bv no_int) fuel
    | inr right_no ↦ elim (Option-cases (as_literal left)) [
      | inl no_literal ↦ without_swap left right (at_no_literal left right right_no no_literal) fuel
      | inr (l, is_literal) ↦ elim (Bool-cases (is_commutative k)) [
        | inr stays ↦
            without_swap left right (at_literal left right l right_no is_literal stays) fuel
        | inl swaps ↦
            after_swap left right l right_no is_literal swaps
              (Settles-back left right l right_no is_literal swaps h) fuel
      ]
    ]
  ]
