-- ===== src/Folding/Values.antt =====
-- The switches of foldBinaryExpr on values: what they give is what the evaluator gives.
use native.Mathlib.Nat.{mod-eq_of_lt, add-mod_right, sub-zero}
use gazer.Base.{ℕ, ◌+◌, ◌-◌, ◌%◌, ◌^◌, ◌<◌, ◌≡◌, ap, ◌∙◌, ◌⊎◌, true, some, ok, arith}
use gazer.Base.Int.{ℤ, ◌+ℤ◌, ◌-ℤ◌, ◌*ℤ◌, div_ℤ, rem_ℤ}
use gazer.Core.Llvm.{Llvm, IsLlvm}
use gazer.Core.Expr.{Expr, ArithmeticKind}
use gazer.Evaluator.Arithmetic.{eval_int_arithmetic, eval_bv_arithmetic, shift_amount}
use gazer.Folding.Arithmetic.{
  int_expr, bv_expr, fold_int_right, fold_bv_right, fold_int_literals, fold_bv_zero, fold_bv_values,
  is_commutative,
}

-- The folded expression is the left operand, with its value, or the literal of the value.
abbrev pub Answers {ℓ} : {A : Type 0} {E : Type ℓ} → (A → E) → E → A → E → A → Type ℓ
Answers literal left x e y = (e ≡ left) × (y ≡ x) ⊎ (e ≡ literal y)

pub fold_int_right_sound :
    (k : ArithmeticKind) (left e : Expr) (x n y : ℤ)
    → fold_int_right k left n ≡ some e
    → eval_int_arithmetic k x n ≡ ok y
    → Answers int_expr left x e y
unfolding fold_int_right eval_int_arithmetic ◌+ℤ◌ ◌-ℤ◌ ◌*ℤ◌ div_ℤ rem_ℤ
fold_int_right_sound ArithmeticKind.add left e x n y h v = ground arith
fold_int_right_sound ArithmeticKind.sub left e x n y h v = ground arith
fold_int_right_sound ArithmeticKind.mul left e x n y h v = ground arith
fold_int_right_sound ArithmeticKind.div left e x n y h v = ground arith
fold_int_right_sound ArithmeticKind.mod_kind left e x n y h v = ground arith
fold_int_right_sound ArithmeticKind.rem left e x n y h v = ground arith
fold_int_right_sound _ left e x n y h v = cc

pub fold_int_literals_sound :
    (k : ArithmeticKind) (e : Expr) (l r y : ℤ)
    → fold_int_literals k l r ≡ ok (some e)
    → eval_int_arithmetic k l r ≡ ok y
    → e ≡ int_expr y
unfolding fold_int_literals eval_int_arithmetic
fold_int_literals_sound ArithmeticKind.add e l r y h v = ground arith
fold_int_literals_sound ArithmeticKind.sub e l r y h v = ground arith
fold_int_literals_sound ArithmeticKind.mul e l r y h v = ground arith
fold_int_literals_sound ArithmeticKind.div e l r y h v = ground arith
fold_int_literals_sound _ e l r y h v = cc

pub int_comm :
    (k : ArithmeticKind) (l r : ℤ)
    → is_commutative k ≡ true
    → eval_int_arithmetic k l r ≡ eval_int_arithmetic k r l
unfolding is_commutative eval_int_arithmetic ◌+ℤ◌ ◌*ℤ◌
int_comm ArithmeticKind.add l r h = ground arith
int_comm ArithmeticKind.mul l r h = ground arith
int_comm _ l r h = ground arith

wrap_sub : (w x : ℕ) → x < 2 ^ w → (x + 2 ^ w - 0) % 2 ^ w ≡ x
wrap_sub w x h =
    ap (λ (t : ℕ). t % 2 ^ w) (sub-zero (x + 2 ^ w)) ∙ add-mod_right x (2 ^ w) ∙ mod-eq_of_lt h

-- The amount of a right shift fits the `unsigned` that the evaluator converts it to.
abbrev pub ShiftFits : ArithmeticKind → ℕ → Type 0
ShiftFits ArithmeticKind.lshr v = v < 2 ^ 32
ShiftFits ArithmeticKind.ashr v = v < 2 ^ 32
ShiftFits _ v = Unit

shift_amount_lem : (v : ℕ) → v < 2 ^ 32 → shift_amount v ≡ v
unfolding shift_amount
shift_amount_lem v h = ground arith

module _ ⦃llvm : Llvm⦄ (laws : IsLlvm llvm) where
  pub fold_bv_right_sound :
      (k : ArithmeticKind) (left e : Expr) (w x v y : ℕ)
      → x < 2 ^ w
      → fold_bv_right k left w v ≡ some e
      → eval_bv_arithmetic k w x v ≡ ok y
      → Answers (bv_expr w) left x e y
  unfolding fold_bv_right eval_bv_arithmetic
  fold_bv_right_sound ArithmeticKind.add left e w x v y b h c =
      ground (arith, laws.add_lem w x v, mod-eq_of_lt b)
  fold_bv_right_sound ArithmeticKind.sub left e w x v y b h c =
      ground (arith, laws.sub_lem w x v, wrap_sub w x b)
  fold_bv_right_sound ArithmeticKind.mul left e w x v y b h c =
      ground (arith, laws.mul_lem w x v, mod-eq_of_lt b)
  fold_bv_right_sound ArithmeticKind.bv_sdiv left e w x v y b h c =
      ground (arith, laws.sdiv_one w x y b)
  fold_bv_right_sound ArithmeticKind.bv_udiv left e w x v y b h c =
      ground (arith, laws.udiv_lem w x v y)
  fold_bv_right_sound ArithmeticKind.bv_srem left e w x v y b h c =
      ground (arith, laws.srem_one w x y b)
  fold_bv_right_sound ArithmeticKind.bv_urem left e w x v y b h c =
      ground (arith, laws.urem_lem w x v y)
  fold_bv_right_sound ArithmeticKind.bv_and left e w x v y b h c =
      ground (arith, laws.and_zero w x, laws.and_ones w x b)
  fold_bv_right_sound ArithmeticKind.bv_or left e w x v y b h c =
      ground (arith, laws.or_zero w x b, laws.or_ones w x b)
  fold_bv_right_sound ArithmeticKind.bv_xor left e w x v y b h c =
      ground (arith, laws.xor_zero w x b)
  fold_bv_right_sound _ left e w x v y b h c = cc

  pub fold_bv_zero_sound :
      (k : ArithmeticKind) (e : Expr) (w x v y : ℕ)
      → fold_bv_zero k w x ≡ some e
      → eval_bv_arithmetic k w x v ≡ ok y
      → e ≡ bv_expr w y
  unfolding fold_bv_zero eval_bv_arithmetic
  fold_bv_zero_sound ArithmeticKind.bv_sdiv e w x v y h c = ground (arith, laws.sdiv_zero w v y)
  fold_bv_zero_sound ArithmeticKind.bv_udiv e w x v y h c = ground (arith, laws.udiv_lem w x v y)
  fold_bv_zero_sound ArithmeticKind.bv_srem e w x v y h c = ground (arith, laws.srem_zero w v y)
  fold_bv_zero_sound ArithmeticKind.bv_urem e w x v y h c = ground (arith, laws.urem_lem w x v y)
  fold_bv_zero_sound ArithmeticKind.shl e w x v y h c = ground (arith, laws.shl_zero w v)
  fold_bv_zero_sound ArithmeticKind.lshr e w x v y h c =
      ground (arith, laws.lshr_by_lem w x (shift_amount v) y, laws.lshr_zero w (shift_amount v))
  fold_bv_zero_sound ArithmeticKind.ashr e w x v y h c =
      ground (arith, laws.ashr_by_lem w x (shift_amount v) y, laws.ashr_zero w (shift_amount v))
  fold_bv_zero_sound _ e w x v y h c = cc

  pub fold_bv_values_sound :
      (k : ArithmeticKind) (w x v z y : ℕ)
      → ShiftFits k v
      → fold_bv_values k w x v ≡ ok z
      → eval_bv_arithmetic k w x v ≡ ok y
      → z ≡ y
  unfolding fold_bv_values eval_bv_arithmetic
  fold_bv_values_sound ArithmeticKind.lshr w x v z y s h c =
      ground (arith, shift_amount_lem v s, laws.lshr_by_lem w x v y)
  fold_bv_values_sound ArithmeticKind.ashr w x v z y s h c =
      ground (arith, shift_amount_lem v s, laws.ashr_by_lem w x v y)
  fold_bv_values_sound ArithmeticKind.bv_sdiv w x v z y s h c = cc
  fold_bv_values_sound ArithmeticKind.bv_udiv w x v z y s h c = cc
  fold_bv_values_sound ArithmeticKind.bv_srem w x v z y s h c = cc
  fold_bv_values_sound ArithmeticKind.bv_urem w x v z y s h c = cc
  fold_bv_values_sound _ w x v z y s h c = cc

  pub bv_comm :
      (k : ArithmeticKind) (w x v : ℕ)
      → is_commutative k ≡ true
      → eval_bv_arithmetic k w x v ≡ eval_bv_arithmetic k w v x
  unfolding is_commutative eval_bv_arithmetic
  bv_comm ArithmeticKind.add w x v h = ground (arith, laws.add_lem w x v, laws.add_lem w v x)
  bv_comm ArithmeticKind.mul w x v h = ground (arith, laws.mul_lem w x v, laws.mul_lem w v x)
  bv_comm ArithmeticKind.bv_and w x v h = rw (laws.and_comm w x v)
  bv_comm ArithmeticKind.bv_or w x v h = rw (laws.or_comm w x v)
  bv_comm ArithmeticKind.bv_xor w x v h = rw (laws.xor_comm w x v)
  bv_comm _ w x v h = cc
