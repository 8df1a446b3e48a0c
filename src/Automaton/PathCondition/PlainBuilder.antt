-- ===== src/Automaton/PathCondition/PlainBuilder.antt =====
-- The base class ExprBuilder (include/gazer/Core/Expr/ExprBuilder.h), whose And, Or, Eq, Not and Select
-- create the plain nodes, makes faithful formulas.
use gazer.Base.{◌≡◌, refl, Bool, true, false, List, [], ◌∷◌, map, ok}
use gazer.Core.Llvm.{Llvm}
use gazer.Core.Ty.{is_bool_type}
use gazer.Core.Expr.{Expr, Exprs, CompareKind, type_of}
use gazer.Core.Create.{
  create_and, create_or, create_not, create_compare, create_select, all_bool, is_nonempty,
}
use gazer.Walker.Order.{sequence, post_order, post_order_all}
use gazer.Evaluator.Logic.{and_loop, or_loop, bool_value}
use gazer.Evaluator.Visit.{Valuation, visit}
use gazer.Evaluator.Connectives.{truth}
use gazer.Automaton.PathCondition.{Builder}
use gazer.Automaton.PathCondition.Meaning.{
  all_true, any_true, AreBool, none_left, one_more, IsFaithful,
}

abbrev pub plain_builder : Builder
plain_builder = record {
  and_exprs = create_and;
  or_exprs = create_or;
  eq_expr = create_compare CompareKind.eq;
  not_expr = create_not;
  select_expr = create_select;
}

and_loop-truths : (bs : List Bool) → and_loop (map truth bs) false ≡ ok (truth (all_true bs))
unfolding and_loop bool_value
and_loop-truths [] = refl
and_loop-truths (true ∷ bs) = and_loop-truths bs
and_loop-truths (false ∷ bs) = refl

or_loop-truths : (bs : List Bool) → or_loop (map truth bs) false ≡ ok (truth (any_true bs))
unfolding or_loop bool_value
or_loop-truths [] = refl
or_loop-truths (false ∷ bs) = or_loop-truths bs
or_loop-truths (true ∷ bs) = refl

module _ ⦃llvm : Llvm⦄ (valuation : Valuation) where
  AreBool-types : (es : Exprs) (bs : List Bool) → AreBool valuation es bs → all_bool es ≡ true
  unfolding all_bool
  AreBool-types _ _ none_left = refl
  AreBool-types _ _ (one_more {e} {b} {es} {bs} p ps) =
      let t = p.bool_type in let ts = AreBool-types es bs ps in cc

  AreBool-values :
      (es : Exprs) (bs : List Bool)
      → AreBool valuation es bs
      → sequence (post_order_all (visit valuation) es) ≡ ok (map truth bs)
  unfolding post_order
  AreBool-values _ _ none_left = refl
  AreBool-values _ _ (one_more {e} {b} {es} {bs} p ps) =
      rw p.value (rw (AreBool-values es bs ps) refl)

  pub plain_builder-IsFaithful : IsFaithful valuation plain_builder
  unfolding create_and create_or is_nonempty type_of is_bool_type post_order visit
  plain_builder-IsFaithful = record {
    and_value = λ e es b bs are.
        let types = AreBool-types (Exprs.cons e es) (b ∷ bs) are in
        (
          Expr.and_expr (Exprs.cons e es),
          rw types refl,
          record {
            bool_type = refl;
            value = rw (AreBool-values (Exprs.cons e es) (b ∷ bs) are) (and_loop-truths (b ∷ bs));
          },
        );
    or_value = λ e es b bs are.
        let types = AreBool-types (Exprs.cons e es) (b ∷ bs) are in
        (
          Expr.or_expr (Exprs.cons e es),
          rw types refl,
          record {
            bool_type = refl;
            value = rw (AreBool-values (Exprs.cons e es) (b ∷ bs) are) (or_loop-truths (b ∷ bs));
          },
        );
  }
