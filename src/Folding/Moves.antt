-- ===== src/Folding/Moves.antt =====
-- The sums and differences that simplifyLtEq looks for, and what moving their constant does.
use gazer.Base.{◌≡◌, refl, sym, ap, ◌∙◌, ◌⊎◌, inl, inr, some, Option-cases, arith}
use gazer.Base.Int.{ℤ, ◌+ℤ◌, ◌-ℤ◌, +ℤ_parts, -ℤ_parts, leb_ℤ}
use gazer.Core.Expr.{Expr, ArithmeticKind}
use gazer.Folding.Match.{as_int, as_add_int, as_sub_int}

move_left : (c k n : ℤ) → leb_ℤ (c +ℤ k) n ≡ leb_ℤ k (n -ℤ c)
move_left c k n = ground (arith, +ℤ_parts c k, -ℤ_parts n c)

move_right : (c k n : ℤ) → leb_ℤ n (c +ℤ k) ≡ leb_ℤ (n -ℤ c) k
move_right c k n = ground (arith, +ℤ_parts c k, -ℤ_parts n c)

back_left : (c k n : ℤ) → leb_ℤ (k -ℤ c) n ≡ leb_ℤ k (n +ℤ c)
back_left c k n = ground (arith, +ℤ_parts n c, -ℤ_parts k c)

back_right : (c k n : ℤ) → leb_ℤ n (k -ℤ c) ≡ leb_ℤ (n +ℤ c) k
back_right c k n = ground (arith, +ℤ_parts n c, -ℤ_parts k c)

pub add_comm_ℤ : (a b : ℤ) → a +ℤ b ≡ b +ℤ a
unfolding ◌+ℤ◌
add_comm_ℤ a b = ground arith

-- The effect of moving a constant from a sum, and from a difference.
pub sum_moves :
    (c k m c2 n : ℤ)
    → m ≡ c +ℤ k
    → n ≡ c2 -ℤ c
    → (leb_ℤ m c2 ≡ leb_ℤ k n) × (leb_ℤ c2 m ≡ leb_ℤ n k)
sum_moves c k m c2 n e f = (
  ap (λ z. leb_ℤ z c2) e ∙ move_left c k c2 ∙ ap (λ z. leb_ℤ k z) (sym f),
  ap (λ z. leb_ℤ c2 z) e ∙ move_right c k c2 ∙ ap (λ z. leb_ℤ z k) (sym f),
)

pub difference_moves :
    (c k m c2 n : ℤ)
    → m ≡ k -ℤ c
    → n ≡ c2 +ℤ c
    → (leb_ℤ m c2 ≡ leb_ℤ k n) × (leb_ℤ c2 m ≡ leb_ℤ n k)
difference_moves c k m c2 n e f = (
  ap (λ z. leb_ℤ z c2) e ∙ back_left c k c2 ∙ ap (λ z. leb_ℤ k z) (sym f),
  ap (λ z. leb_ℤ c2 z) e ∙ back_right c k c2 ∙ ap (λ z. leb_ℤ z k) (sym f),
)

pub as_add_int-some :
    (e x : Expr) (c : ℤ)
    → as_add_int e ≡ some (c, x)
    → (l r : Expr) × (e ≡ Expr.arithmetic ArithmeticKind.add l r)
      × ((as_int l ≡ some c) × (r ≡ x) ⊎ (as_int r ≡ some c) × (l ≡ x))
unfolding as_add_int
as_add_int-some (Expr.arithmetic ArithmeticKind.add l r) x c h = (
  l,
  r,
  refl,
  elim (Option-cases (as_int l)) [
    | inr (d, p) ↦ inl (cc, cc)
    | inl none_left ↦ elim (Option-cases (as_int r)) [
      | inr (d, p) ↦ inr (cc, cc)
      | inl none_right ↦ cc
    ]
  ],
)
as_add_int-some _ x c h = cc

pub as_sub_int-some :
    (e x : Expr) (c : ℤ)
    → as_sub_int e ≡ some (c, x)
    → (l r : Expr) × (e ≡ Expr.arithmetic ArithmeticKind.sub l r) × (as_int r ≡ some c) × (l ≡ x)
unfolding as_sub_int
as_sub_int-some (Expr.arithmetic ArithmeticKind.sub l r) x c h = elim (Option-cases (as_int r)) [
  | inr (d, p) ↦ (l, r, refl, cc, cc)
  | inl no_int ↦ cc
]
as_sub_int-some _ x c h = cc
