-- ===== src/Examples/Paths.antt =====
-- The path condition over the diamond, with the plain builder, where n is 7.
use gazer.Base.{
  ℕ, zero, suc, ◌==◌, ◌≡◌, refl, sym, ap, subst, Bool, true, false, not, [], ok, arith, Memᴰ, inl,
  inr, decided,
}
use gazer.Base.Int.{pos}
use gazer.Base.Memᴰ
use gazer.Core.Ty.{Ty, is_bool_type, equals}
use gazer.Core.Literal.{int_lit}
use gazer.Core.Expr.{Expr, Variable, CompareKind, type_of}
use gazer.Core.Create.{create_compare, is_bv_only_compare}
use gazer.Evaluator.Compare.{eval_binary_compare}
use gazer.Evaluator.Visit.{visit}
use gazer.Walker.Order.{post_order}
use gazer.Automaton.Cfa.{Transition, assign_edge, VariableAssignment}
use gazer.Automaton.PathCondition.{truth_expr, is_undef_value, encode}
use gazer.Automaton.PathCondition.Meaning.{IsBool, Feasible, HasValues, Makes}
use gazer.Automaton.PathCondition.Formula.{truth_expr-IsBool}
use gazer.Automaton.PathCondition.PlainBuilder.{plain_builder, plain_builder-IsFaithful}
use gazer.Automaton.PathCondition.Correct.{encode-decides}
use gazer.Automaton.Dominators.Order.{Listed}
use gazer.Examples.Machine.{machine}
use gazer.Examples.{values}
use gazer.Examples.Automata.{
  diamond, own_index, diamond_incoming, diamond-TopologicalOrder, left_in, right_in, left_out,
  right_out, left_assignments, for_one, for_two,
}

-- Only the edge to location 2 has a false guard.
abbrev open_guard : Transition → Bool
open_guard edge = not (edge.target == 2)

abbrev is_equal : VariableAssignment → Bool
is_equal a = true

abbrev no_call : Transition → Bool
no_call edge = true

abbrev call_true : Transition → Expr
call_true edge = truth_expr true

abbrev Valued : Transition → Type 0
Valued = HasValues values open_guard is_equal no_call plain_builder call_true

abbrev bool_variable : ℕ → Ty → Variable
bool_variable n ty = record { id = n; ty = ty }

empty_edge :
    (edge : Transition) (b : Bool)
    → edge.guard ≡ truth_expr b
    → open_guard edge ≡ b
    → edge.kind ≡ assign_edge []
    → Valued edge
empty_edge edge b guard opens is = record {
  guard_value =
      subst (λ c. IsBool values edge.guard c) (sym opens)
        (subst (λ g. IsBool values g b) (sym guard) (truth_expr-IsBool values b));
  call_value = truth_expr-IsBool values true;
  equation_value = λ assignments same a mem some_value.
      let none_there : [] ≡ assignments = cc in
      absurd (Memᴰ.not-nil (subst (λ as'. Memᴰ a as') (sym none_there) mem));
}

n_is_7 :
    Makes values
      (create_compare CompareKind.eq
        (Expr.var_ref (record { id = 3; ty = Ty.int }))
        (Expr.literal (int_lit (pos 7))))
      true
unfolding create_compare equals type_of is_bool_type is_bv_only_compare post_order visit
    eval_binary_compare
n_is_7 = (_, refl, record { bool_type = refl; value = refl })

left_in-Valued : Valued left_in
unfolding is_undef_value
left_in-Valued = record {
  guard_value = truth_expr-IsBool values true;
  call_value = truth_expr-IsBool values true;
  equation_value = λ assignments same a mem some_value.
      let these : left_assignments ≡ assignments = cc in
      elim (Memᴰ.cases_cons (subst (λ as'. Memᴰ a as') (sym these) mem)) [
        | inl first ↦
            subst (λ b. Makes values (plain_builder.eq_expr (Expr.var_ref b.variable) b.value) true)
              (sym first) n_is_7
        | inr rest ↦
            absurd (cc (some_value, ap (λ b. is_undef_value b.value) (Memᴰ.eq_of_singleton rest)))
      ];
}

diamond-Valued :
    (location : ℕ)
    → Listed diamond own_index location
    → (edge : Transition) → Memᴰ edge (diamond_incoming location)
    → Valued edge
unfolding diamond_incoming
diamond-Valued zero l e m = absurd (Memᴰ.not-nil m)
diamond-Valued (suc zero) l e m = for_one Valued left_in-Valued e m
diamond-Valued (suc (suc zero)) l e m =
    for_one Valued (empty_edge right_in false refl refl refl) e m
diamond-Valued (suc (suc (suc zero))) l e m =
    for_two Valued (empty_edge left_out true refl refl refl)
      (empty_edge right_out true refl refl refl) e m
diamond-Valued (suc (suc (suc (suc k)))) l e m = absurd (Memᴰ.not-nil m)

encode-decides_example :
    (e : Expr) × (d : Dec (Feasible values open_guard is_equal no_call diamond_incoming 0 3))
    × (encode plain_builder false bool_variable
          (λ l. l)
          diamond
          own_index
          diamond_incoming
          call_true
          0
          3
          (record { pred_index = 0; reported = [] })
        ≡ ok (e, record { pred_index = 0; reported = [] }))
    × IsBool values e (decided d)
encode-decides_example =
    encode-decides values plain_builder (plain_builder-IsFaithful values) open_guard is_equal
      no_call call_true diamond own_index diamond_incoming diamond-TopologicalOrder diamond-Valued 0
      refl bool_variable (λ l. l) 3 (record { pred_index = 0; reported = [] }) refl
      (inr (omega arith))
