-- ===== src/Evaluator/Modulo.antt =====
-- The remainders of the evaluator on Int values.
use native.Mathlib.Nat.{div-add-mod}
use gazer.Base.{
  ℕ, suc, ◌+◌, ◌*◌, ◌<◌, ◌≡◌, ◌≢◌, ap, sym, ◌∙◌, Bool-cases, ◌⊎◌, inl, inr, if◌then◌else◌, ok,
  ◌>>=◌, arith, >>=-eq-ok,
}
use gazer.Base.Int.{
  ℤ, pos, negsuc, pos_part, neg_part, ◌+ℤ◌, ◌-ℤ◌, ◌*ℤ◌, ◌≤ℤ◌, div_ℤ, rem_ℤ, +ℤ_parts, -ℤ_parts,
  eq_of_parts, ltb_ℤ, to_long, to_long-eq-ok,
}
use gazer.Evaluator.Arithmetic.{eval_mod, rem_long, div_long, abs_long}

abbrev pub magnitude : ℤ → ℕ
magnitude a = pos_part a + neg_part a

-- `a % b` of C++ is smaller than b.
rem_ℤ_bounds : (a b : ℤ) → b ≢ pos 0 → magnitude (rem_ℤ a b) < magnitude b
unfolding rem_ℤ
rem_ℤ_bounds (pos a) (pos b) h = ground arith
rem_ℤ_bounds (pos a) (negsuc b) h = ground arith
rem_ℤ_bounds (negsuc a) (pos b) h = ground arith
rem_ℤ_bounds (negsuc a) (negsuc b) h = ground arith

-- `a / b` and `a % b` of C++ split a.
div_rem : (a b : ℤ) → div_ℤ a b *ℤ b +ℤ rem_ℤ a b ≡ a
unfolding div_ℤ rem_ℤ ◌*ℤ◌ ◌+ℤ◌
div_rem (pos a) (pos b) = ground (arith, div-add-mod a b)
div_rem (pos a) (negsuc b) = ground (arith, div-add-mod a (suc b))
div_rem (negsuc a) (pos b) = ground (arith, div-add-mod (suc a) b)
div_rem (negsuc a) (negsuc b) = ground (arith, div-add-mod (suc a) (suc b))

sign_ℤ : ℤ → ℤ
sign_ℤ (pos b) = pos 1
sign_ℤ (negsuc b) = negsuc 0

*ℤ_parts :
    (a b : ℤ)
    → pos_part (a *ℤ b) + pos_part a * neg_part b + neg_part a * pos_part b
      ≡ neg_part (a *ℤ b) + pos_part a * pos_part b + neg_part a * neg_part b
unfolding ◌*ℤ◌
*ℤ_parts a b = ground arith

-- The quotient one less, and the remainder up by the divisor; and the other way for a divisor
-- below zero.
move_up :
    (a q r : ℤ) (n : ℕ)
    → q *ℤ pos n +ℤ r ≡ a
    → (q -ℤ pos 1) *ℤ pos n +ℤ (r +ℤ pos (magnitude (pos n))) ≡ a
move_up a q r n h =
    let up = q -ℤ pos 1 in
    let step = ap (λ (t : ℕ). t * n) (-ℤ_parts q (pos 1)) in
    eq_of_parts _ _ (
      omega (
        arith,
        +ℤ_parts,
        step,
        *ℤ_parts q (pos n),
        *ℤ_parts up (pos n),
        ap pos_part h,
        ap neg_part h,
      ))

move_down :
    (a q r : ℤ) (n : ℕ)
    → q *ℤ negsuc n +ℤ r ≡ a
    → (q +ℤ pos 1) *ℤ negsuc n +ℤ (r +ℤ pos (magnitude (negsuc n))) ≡ a
move_down a q r n h =
    let down = q +ℤ pos 1 in
    let step = ap (λ (t : ℕ). t * suc n) (+ℤ_parts q (pos 1)) in
    eq_of_parts _ _ (
      omega (
        arith,
        +ℤ_parts,
        step,
        *ℤ_parts q (negsuc n),
        *ℤ_parts down (negsuc n),
        ap pos_part h,
        ap neg_part h,
      ))

abs_long_lem : (b m : ℤ) → abs_long b ≡ ok m → m ≡ pos (magnitude b)
unfolding abs_long ◌-ℤ◌
abs_long_lem b m h = ground arith

rem_long_lem : (a b r : ℤ) → rem_long a b ≡ ok r → (b ≢ pos 0) × (r ≡ rem_ℤ a b)
unfolding rem_long div_long
rem_long_lem a b r h = ground arith

add_bounds :
    (r b m : ℤ)
    → magnitude r < magnitude b
    → r ≤ℤ negsuc 0
    → m ≡ r +ℤ pos (magnitude b)
    → (pos 0 ≤ℤ m) × (magnitude m < magnitude b)
unfolding ◌+ℤ◌
add_bounds r b m h n e = ground arith

-- m is the Euclidean remainder of a by b.
abbrev pub IsModulo : ℤ → ℤ → ℤ → Type 0
IsModulo a b m = (pos 0 ≤ℤ m) × (magnitude m < magnitude b) × ((q : ℤ) × (q *ℤ b +ℤ m ≡ a))

raise :
    (a b r m q : ℤ)
    → q *ℤ b +ℤ r ≡ a
    → magnitude r < magnitude b
    → r ≤ℤ negsuc 0
    → m ≡ r +ℤ pos (magnitude b)
    → IsModulo a b m
raise a (pos n) r m q h k s e =
    let bounds = add_bounds r (pos n) m k s e in
    (bounds.0, bounds.1, (q -ℤ pos 1, rw e (move_up a q r n h)))
raise a (negsuc n) r m q h k s e =
    let bounds = add_bounds r (negsuc n) m k s e in
    (bounds.0, bounds.1, (q +ℤ pos 1, rw e (move_down a q r n h)))

ok_inj : {a b : ℤ} → ok a ≡ ok b → a ≡ b
ok_inj h = cc

eval_mod_cases :
    (a b m r : ℤ)
    → (if ltb_ℤ r (pos 0) then (abs_long b >>= λ n. to_long (r +ℤ n)) else ok r) ≡ ok m
    → (pos 0 ≤ℤ r) × (m ≡ r) ⊎ (r ≤ℤ negsuc 0) × (m ≡ r +ℤ pos (magnitude b))
eval_mod_cases a b m r h = elim (Bool-cases (ltb_ℤ r (pos 0))) [
  | inl negative ↦
      let (n, size, sum) = >>=-eq-ok (abs_long b) (λ n. to_long (r +ℤ n)) (rw negative at h) in
      let raised : m ≡ r +ℤ pos (magnitude b) =
        sym (to_long-eq-ok (r +ℤ n) sum) ∙ ap (λ k. r +ℤ k) (abs_long_lem b n size) in
      inr (ground arith, raised)
  | inr other ↦ inl (ground arith, ok_inj (sym (rw other at h)))
]

-- Mod of two Int values is the Euclidean remainder: where the evaluator has a value m for a mod b,
-- it is not negative, it is smaller than the magnitude of b, and it differs from a by a multiple of b.
pub eval_mod-euclidean : (a b m : ℤ) → eval_mod a b ≡ ok m → IsModulo a b m
unfolding eval_mod
eval_mod-euclidean a b m h =
    let (r, rem, rest) = >>=-eq-ok (rem_long a b) _ h in
    let (nonzero, value) = rem_long_lem a b r rem in
    let split : div_ℤ a b *ℤ b +ℤ r ≡ a = rw value (div_rem a b) in
    let small : magnitude r < magnitude b = rw value (rem_ℤ_bounds a b nonzero) in
    elim (eval_mod_cases a b m r rest) [
      | inl (low, same) ↦ rw same (low, small, (div_ℤ a b, split))
      | inr (low, up) ↦ raise a b r m (div_ℤ a b) split small low up
    ]
