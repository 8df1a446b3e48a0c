-- ===== src/Folding/Operands.antt =====
-- The operands of EvalBinaryArithmetic where it gives a value, and the value of a literal node.
use gazer.Base.{
  ℕ, ◌^◌, ◌<◌, ◌≡◌, refl, sym, ap, ◌∙◌, subst, true, ◌==◌, ==_iff, ok, >>=-eq-ok, require,
  require-eq-ok,
}
use gazer.Base.Int.{ℤ}
use gazer.Core.Ty.{Ty, equals, equals_iff}
use gazer.Core.Llvm.{Llvm, IsLlvm}
use gazer.Core.Literal.{Literal, int_lit, bv_lit, Atom, lit, literal_type}
use gazer.Core.Expr.{Expr, ArithmeticKind}
use gazer.Walker.Order.{post_order}
use gazer.Evaluator.Arithmetic.{
  eval_binary_arithmetic, eval_literals, eval_int_arithmetic, eval_bv_arithmetic,
}
use gazer.Evaluator.Visit.{Valuation, visit, eval}
use gazer.Folding.Arithmetic.{is_commutative}
use gazer.Folding.Values.{int_comm, ShiftFits, bv_comm}

-- The value of a bit-vector literal fits its width, as that of an APInt does.
abbrev pub Fits : Literal → Type 0
Fits (bv_lit w v) = v < 2 ^ w
Fits _ = Unit

-- The amount of a right shift by a literal fits an `unsigned`.
abbrev pub ShiftOk : ArithmeticKind → Literal → Type 0
ShiftOk k (bv_lit w v) = ShiftFits k v
ShiftOk k _ = Unit

bv_inj : {u w : ℕ} → Ty.bv u ≡ Ty.bv w → u ≡ w
bv_inj h = cc

pub bv_lit-width : {u x w y : ℕ} → bv_lit u x ≡ bv_lit w y → u ≡ w
bv_lit-width h = cc

pub bv_lit-value : {u x w y : ℕ} → bv_lit u x ≡ bv_lit w y → x ≡ y
bv_lit-value h = cc

module _ ⦃llvm : Llvm⦄ where
  pub int_operands :
      (k : ArithmeticKind) (a : Literal) (n : ℤ) (v : Atom)
      → eval_binary_arithmetic k (lit a) (lit (int_lit n)) ≡ ok v
      → (x y : ℤ) × (a ≡ int_lit x) × (eval_int_arithmetic k x n ≡ ok y) × (v ≡ lit (int_lit y))
  unfolding eval_binary_arithmetic
  int_operands k (int_lit x) n v h =
      let (y, p, q) = >>=-eq-ok (eval_int_arithmetic k x n) (λ c. ok (lit (int_lit c))) h in
      (x, y, refl, p, cc)
  int_operands k _ n v h = cc

  pub bv_operands :
      (k : ArithmeticKind) (a : Literal) (w b : ℕ) (v : Atom)
      → eval_binary_arithmetic k (lit a) (lit (bv_lit w b)) ≡ ok v
      → (x y : ℕ) × (a ≡ bv_lit w x) × (eval_bv_arithmetic k w x b ≡ ok y) × (v ≡ lit (bv_lit w y))
  unfolding eval_binary_arithmetic
  bv_operands k (bv_lit u x) w b v h =
      let (_, width, rest) = >>=-eq-ok (require (equals (Ty.bv u) (Ty.bv w))) _ h in
      let same_width : u ≡ w =
        bv_inj ((equals_iff (Ty.bv u) (Ty.bv w)).0 (require-eq-ok _ width)) in
      let (y, p, q) = >>=-eq-ok (eval_bv_arithmetic k u x b) (λ c. ok (lit (bv_lit u c))) rest in
      (x, y, cc, cc, cc)
  bv_operands k _ w b v h = cc

  pub bv_left :
      (k : ArithmeticKind) (b : Literal) (u x : ℕ) (v : Atom)
      → eval_binary_arithmetic k (lit (bv_lit u x)) (lit b) ≡ ok v
      → (y z : ℕ) × (eval_bv_arithmetic k u x y ≡ ok z) × (v ≡ lit (bv_lit u z))
  unfolding eval_binary_arithmetic
  bv_left k (bv_lit w y) u x v h =
      let (_, width, rest) = >>=-eq-ok (require (equals (Ty.bv u) (Ty.bv w))) _ h in
      let (z, p, q) = >>=-eq-ok (eval_bv_arithmetic k u x y) (λ c. ok (lit (bv_lit u c))) rest in
      (y, z, p, cc)
  bv_left k _ u x v h = cc

  same_width_value :
      (k : ArithmeticKind) (w x y z : ℕ)
      → eval_bv_arithmetic k w x y ≡ ok z
      → eval_binary_arithmetic k (lit (bv_lit w x)) (lit (bv_lit w y)) ≡ ok (lit (bv_lit w z))
  unfolding eval_binary_arithmetic
  same_width_value k w x y z h =
      let width : (w == w) ≡ true = (==_iff w w).1 refl in rw (width, h) refl

  pub comm_operands :
      (laws : IsLlvm llvm) (k : ArithmeticKind) (a b : Literal) (v : Atom)
      → is_commutative k ≡ true
      → eval_binary_arithmetic k (lit a) (lit b) ≡ ok v
      → eval_binary_arithmetic k (lit b) (lit a) ≡ ok v
  unfolding eval_binary_arithmetic
  comm_operands laws k (int_lit x) (int_lit y) v c h = rw (int_comm k y x c) h
  comm_operands laws k (bv_lit u x) (bv_lit w y) v c h =
      let (x', z, a_bv, p, q) = bv_operands k (bv_lit u x) w y v h in
      subst (λ c. eval_binary_arithmetic k (lit (bv_lit w y)) (lit c) ≡ ok v) (sym a_bv)
        (same_width_value k w y x' z (sym (bv_comm laws k w x' y c) ∙ p) ∙ ap ok (sym q))
  comm_operands laws k a b v c h =
      let (_, _, rest) =
        >>=-eq-ok (require (equals (literal_type a) (literal_type b))) (λ _. eval_literals k a b)
          h in
      cc

  pub eval_literal :
      (valuation : Valuation) (c : Literal) → eval valuation (Expr.literal c) ≡ ok (lit c)
  unfolding post_order visit
  eval_literal valuation c = refl

  pub literal_value :
      (valuation : Valuation) (e : Expr) (c a : Literal)
      → e ≡ Expr.literal c
      → eval valuation e ≡ ok (lit a)
      → a ≡ c
  literal_value valuation e c a h p =
      let q : ok (lit c) ≡ ok (lit a) =
        sym (eval_literal valuation c) ∙ sym (ap (eval valuation) h) ∙ p in
      cc
