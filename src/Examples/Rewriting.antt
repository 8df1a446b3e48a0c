-- ===== src/Examples/Rewriting.antt =====
-- The rewriting of `x + 1 != 5` by `x = y * 2`, with the base builder, where y is 3.
use gazer.Base.{
  ℕ, zero, suc, ◌*◌, ◌≤◌, ◌≡◌, ◌≢◌, refl, sym, subst, inl, inr, Bool, true, List, [], ◌∷◌, Option,
  none, some, Result, ok, arith, ◌==◌, if◌then◌else◌, Memᴰ,
}
use gazer.Base.Memᴰ
use gazer.Base.Int.{pos}
use gazer.Core.Ty.{Ty, equals, is_bool_type}
use gazer.Core.Literal.{int_lit, literal_type}
use gazer.Core.Expr.{Expr, Variable, ArithmeticKind, CompareKind, type_of}
use gazer.Core.Builder.{base_builder}
use gazer.Evaluator.Visit.{Valuation, get_variable_value, visit, eval}
use gazer.Walker.Order.{operands, post_order}
use gazer.Rewrite.{RewriteMap, rewrite}
use gazer.Rewrite.Node.{create}
use gazer.Rewrite.Sound.{Rewritable, base_builder-IsSound}
use gazer.Rewrite.Substitution.{Everywhere, everywhere, IsMade, Replaces, rewrite-substitutes}
use gazer.Core.Create.{
  create_compare, create_arithmetic, create_not, accepts, is_bv_only, is_arithmetic_only,
  is_bv_only_compare,
}
use gazer.Evaluator.Arithmetic.{eval_binary_arithmetic}
use gazer.Walker.Size.{size}
use gazer.Examples.Machine.{machine}

abbrev int_variable : ℕ → Variable
int_variable n = record { id = n; ty = Ty.int }

abbrev number : ℕ → Expr
number n = Expr.literal (int_lit (pos n))

abbrev sum_is_not_five : Expr
sum_is_not_five =
    Expr.comparison CompareKind.not_eq
      (Expr.arithmetic ArithmeticKind.add (Expr.var_ref (int_variable 0)) (number 1)) (number 5)

abbrev twice_y : Expr
twice_y = Expr.arithmetic ArithmeticKind.mul (Expr.var_ref (int_variable 1)) (number 2)

-- The Int variable 0 is x.
abbrev at_x : {A : Type 0} → A → A → Ty → ℕ → A
at_x a b Ty.int zero = a
at_x a b _ n = b

abbrev x_to_twice_y : RewriteMap
x_to_twice_y v = at_x (some twice_y) none v.ty v.id

abbrev y_is_three : Valuation
y_is_three v = some (int_lit (pos 3))

abbrev x_is_six : Valuation
x_is_six v = at_x (some (int_lit (pos 6))) (some (int_lit (pos 3))) v.ty v.id

test_rewrite :
    rewrite base_builder x_to_twice_y 14 sum_is_not_five
    ≡ ok (
        Expr.not_expr (
          Expr.comparison CompareKind.eq
            (Expr.arithmetic ArithmeticKind.add twice_y (number 1))
            (number 5)))
unfolding rewrite gazer.Rewrite.visit_expr gazer.Core.Builder.plain_comparison create_compare
    create_arithmetic create_not equals type_of accepts is_bool_type is_bv_only_compare operands
    gazer.Core.Ty.is_int_type
test_rewrite = refl

replaced_by :
    (t : Ty) (n : ℕ) (e : Expr)
    → at_x (some twice_y) none t n ≡ some e
    → (type_of e ≡ t)
      × (eval y_is_three e ≡ ok (get_variable_value x_is_six (record { id = n; ty = t })))
unfolding type_of post_order visit eval_binary_arithmetic get_variable_value gazer.Base.Int.◌*ℤ◌
replaced_by Ty.int zero e h =
    let is : twice_y ≡ e = cc in
    subst
      (λ e.
        (type_of e ≡ Ty.int)
        × (eval y_is_three e ≡ ok (get_variable_value x_is_six (record { id = 0; ty = Ty.int }))))
      is (refl, refl)
replaced_by Ty.int (suc n) e h = absurd (cc)
replaced_by _ n e h = absurd (cc)

kept_values :
    (t : Ty) (n : ℕ)
    → at_x (some twice_y) none t n ≡ none
    → x_is_six (record { id = n; ty = t }) ≡ y_is_three (record { id = n; ty = t })
kept_values Ty.int zero h = cc
kept_values Ty.int (suc n) h = refl
kept_values _ n h = refl

x_to_twice_y-Replaces : Replaces x_is_six y_is_three x_to_twice_y
x_to_twice_y-Replaces = record {
  replaced = λ v e h. replaced_by v.ty v.id e h;
  kept = λ v h. kept_values v.ty v.id h;
}

no_operands : {P : Expr → Type 0} (e : Expr) → operands e ≡ [] → P e → Everywhere P e
no_operands e none_there p =
    everywhere p (λ o m. absurd (Memᴰ.not-nil (subst (λ es. Memᴰ o es) none_there m)))

both_operands :
    {P : Expr → Type 0} (e l r : Expr)
    → operands e ≡ l ∷ r ∷ []
    → P e
    → Everywhere P l
    → Everywhere P r
    → Everywhere P e
both_operands {P} e l r are p left right = everywhere p (λ o m.
    elim (Memᴰ.cases_cons (subst (λ es. Memᴰ o es) are m)) [
      | inl is ↦ subst (λ e. Everywhere P e) (sym is) left
      | inr later ↦ elim (Memᴰ.cases_cons later) [
        | inl is ↦ subst (λ e. Everywhere P e) (sym is) right
        | inr more ↦ absurd (Memᴰ.not-nil more)
      ]
    ])

abbrev x_plus_one : Expr
x_plus_one = Expr.arithmetic ArithmeticKind.add (Expr.var_ref (int_variable 0)) (number 1)

sum-IsMade : Everywhere IsMade sum_is_not_five
unfolding create operands equals type_of accepts is_bv_only_compare is_bv_only is_arithmetic_only
    create_compare create_arithmetic gazer.Core.Ty.is_bv_type gazer.Core.Ty.is_int_type
sum-IsMade =
    both_operands sum_is_not_five x_plus_one (number 5) refl refl
      (both_operands x_plus_one (Expr.var_ref (int_variable 0)) (number 1) refl refl
        (no_operands (Expr.var_ref (int_variable 0)) refl refl) (no_operands (number 1) refl refl))
      (no_operands (number 5) refl refl)

sum-Rewritable : Everywhere (Rewritable x_is_six) sum_is_not_five
unfolding Rewritable operands post_order visit eval_binary_arithmetic get_variable_value
    literal_type gazer.Base.Int.◌+ℤ◌
sum-Rewritable =
    both_operands sum_is_not_five x_plus_one (number 5) refl
      (int_lit (pos 7), int_lit (pos 5), refl, refl, λ same. cc)
      (both_operands x_plus_one (Expr.var_ref (int_variable 0)) (number 1) refl tt
        (no_operands (Expr.var_ref (int_variable 0)) refl tt) (no_operands (number 1) refl tt))
      (no_operands (number 5) refl tt)

enough_rounds : 2 * size sum_is_not_five ≤ 14
unfolding size
enough_rounds = omega arith

rewrite-substitutes_example :
    (r : Expr) × (rewrite base_builder x_to_twice_y 14 sum_is_not_five ≡ ok r)
    × (type_of r ≡ type_of sum_is_not_five)
    × (eval y_is_three r ≡ eval x_is_six sum_is_not_five)
rewrite-substitutes_example =
    rewrite-substitutes x_is_six y_is_three base_builder x_to_twice_y
      (base_builder-IsSound y_is_three) x_to_twice_y-Replaces sum_is_not_five sum-IsMade
      sum-Rewritable 14 enough_rounds
