-- ===== src/Folding/BuildLtEq.antt =====
-- LtEq of the folding builder keeps the value of the comparison.
use gazer.Base.{
  ℕ, ◌≡◌, sym, ap, ap₂, ◌∙◌, Option, none, some, Option-cases, inl, inr, ok, >>=-eq-ok,
}
use gazer.Base.Int.{ℤ, leb_ℤ}
use gazer.Core.Llvm.{Llvm}
use gazer.Core.Literal.{Literal, bool_lit, bv_lit, lit}
use gazer.Core.Expr.{Expr, CompareKind}
use gazer.Evaluator.Connectives.{truth}
use gazer.Evaluator.Visit.{Valuation, eval}
use gazer.Folding.Match.{as_bool, as_int, as_bv, as_bv-some}
use gazer.Folding.Logic.{bool_expr}
use gazer.Folding.Compare.{fold_compare_literals, fold_binary_compare, simplify_lt_eq, build_lt_eq}
use gazer.Folding.Operands.{eval_literal}
use gazer.Folding.IntValues.{IsInt, literal_int}
use gazer.Folding.LtEqSound.{simplify_lt_eq_sound}

module _ ⦃llvm : Llvm⦄ (valuation : Valuation) where
  IsInt-as_bv : (e : Expr) (n : ℤ) (w v : ℕ) → IsInt valuation e n → as_bv e ≡ some (w, v) → ⊥
  IsInt-as_bv e n w v value is_bv =
      let clash : ok (lit (bv_lit w v)) ≡ ok (lit (Literal.int_lit n)) =
        sym (eval_literal valuation (bv_lit w v))
        ∙ sym (ap (eval valuation) (as_bv-some e w v is_bv))
        ∙ value in
      cc

  literals_lt_eq :
      (left right x : Expr) (m n : ℤ)
      → IsInt valuation left m
      → IsInt valuation right n
      → fold_compare_literals CompareKind.lt_eq left right ≡ ok (some x)
      → eval valuation x ≡ ok (truth (leb_ℤ m n))
  unfolding fold_compare_literals
  literals_lt_eq left right x m n l r h = elim (Option-cases (as_bv left)) [
    | inr ((w, v), is_bv) ↦ absurd (IsInt-as_bv left m w v l is_bv)
    | inl no_bv ↦ elim (Option-cases (as_int left)) [
      | inl no_int ↦ cc
      | inr (c, left_is) ↦ elim (Option-cases (as_int right)) [
        | inl no_int ↦ cc
        | inr (d, right_is) ↦
            let is : x ≡ bool_expr (leb_ℤ c d) = cc in
            ap (eval valuation) is
            ∙ eval_literal valuation (bool_lit (leb_ℤ c d))
            ∙ ap₂ (λ a b. ok (truth (leb_ℤ a b))) (sym (literal_int valuation left c m left_is l))
                (sym (literal_int valuation right d n right_is r))
      ]
    ]
  ]

  folded_lt_eq :
      (left right x : Expr) (m n : ℤ)
      → IsInt valuation left m
      → IsInt valuation right n
      → fold_binary_compare CompareKind.lt_eq left right ≡ ok (some x)
      → eval valuation x ≡ ok (truth (leb_ℤ m n))
  unfolding fold_binary_compare
  folded_lt_eq left right x m n l r h = elim (Option-cases (as_bool right)) [
    | inr (b, is_bool) ↦ cc
    | inl right_no ↦ elim (Option-cases (as_bool left)) [
      | inr (b, is_bool) ↦ cc
      | inl left_no ↦ literals_lt_eq left right x m n l r cc
    ]
  ]

  after_fold :
      (left right e : Expr) (m n : ℤ) (folded : Option Expr)
      → IsInt valuation left m
      → IsInt valuation right n
      → fold_binary_compare CompareKind.lt_eq left right ≡ ok folded
      → elim folded [ some x ↦ ok x | none ↦ simplify_lt_eq left right ] ≡ ok e
      → eval valuation e ≡ ok (truth (leb_ℤ m n))
  after_fold left right e m n (some x) l r p h = folded_lt_eq left right e m n l r cc
  after_fold left right e m n none l r p h = simplify_lt_eq_sound valuation left right e m n l r h

  -- On operands with integer values, what LtEq of the folding builder gives has the value of the
  -- comparison: folded literals, and constants moved to the other side, included.
  pub build_lt_eq_sound :
      (left right e : Expr) (m n : ℤ)
      → IsInt valuation left m
      → IsInt valuation right n
      → build_lt_eq left right ≡ ok e
      → eval valuation e ≡ ok (truth (leb_ℤ m n))
  unfolding build_lt_eq
  build_lt_eq_sound left right e m n l r h =
      let (folded, p, q) =
        >>=-eq-ok (fold_binary_compare CompareKind.lt_eq left right)
          (λ folded. elim folded [ some x ↦ ok x | none ↦ simplify_lt_eq left right ]) h in
      after_fold left right e m n folded l r p q
