-- ===== src/Automaton/PathCondition/Formula.antt =====
-- The formula of an edge, and that of the predecessors of a location, without a callback.
use gazer.Base.{
  ℕ, ◌≡◌, refl, sym, ◌∙◌, subst, ap₂, inl, inr, Bool, true, false, Bool-cases, ◌&&◌, ◌||◌, List, [],
  ◌∷◌, none, ok, Memᴰ,
}
use gazer.Core.Llvm.{Llvm}
use gazer.Core.Ty.{Ty, is_bool_type}
use gazer.Core.Expr.{Expr, Exprs, type_of, Variable}
use gazer.Evaluator.Visit.{Valuation, visit}
use gazer.Walker.Order.{post_order}
use gazer.Automaton.Cfa.{Transition, VariableAssignment, EdgeKind-cases}
use gazer.Automaton.PathCondition.{
  Builder, is_undef_value, truth_expr, pair, equations, with_equations, edge_formula,
  PathPredecessor, PathState, combine, identified, either,
}
use gazer.Automaton.PathCondition.Meaning.{
  all_true, any_true, IsBool, AreBool, none_left, one_more, Makes, IsFaithful, all_assigned, holds,
  HasValues,
}

and_true : (b : Bool) → (b && true) ≡ b
and_true true = refl
and_true false = refl

or_false : (b : Bool) → (b || false) ≡ b
or_false true = refl
or_false false = refl

and_assoc : (a b c : Bool) → ((a && b) && c) ≡ (a && (b && c))
and_assoc true b c = refl
and_assoc false b c = refl

module _ ⦃llvm : Llvm⦄ (valuation : Valuation) where
  pub truth_expr-IsBool : (b : Bool) → IsBool valuation (truth_expr b) b
  unfolding type_of post_order visit is_bool_type
  truth_expr-IsBool b = record { bool_type = refl; value = refl }

  module _ (builder : Builder) (faithful : IsFaithful valuation builder) where
    pub and_pair :
        (a b : Expr) (x y : Bool)
        → IsBool valuation a x
        → IsBool valuation b y
        → Makes valuation (builder.and_exprs (pair a b)) (x && y)
    and_pair a b x y p q =
        let both = one_more p (one_more q none_left) in
        let (e, made, v) = faithful.and_value a (Exprs.cons b Exprs.nil) x (y ∷ []) both in
        (e, made, subst (λ z. IsBool valuation e (x && z)) (and_true y) v)

    or_pair :
        (a b : Expr) (x y : Bool)
        → IsBool valuation a x
        → IsBool valuation b y
        → Makes valuation (builder.or_exprs (pair a b)) (x || y)
    or_pair a b x y p q =
        let both = one_more p (one_more q none_left) in
        let (e, made, v) = faithful.or_value a (Exprs.cons b Exprs.nil) x (y ∷ []) both in
        (e, made, subst (λ z. IsBool valuation e (x || z)) (or_false y) v)

    or_some :
        (es : Exprs) (b : Bool) (bs : List Bool)
        → AreBool valuation es (b ∷ bs)
        → Makes valuation (builder.or_exprs es) (any_true (b ∷ bs))
    or_some _ b bs (one_more {e} {es} p ps) = faithful.or_value e es b bs (one_more p ps)

    with_equations-Makes :
        (formula : Expr) (es : Exprs) (b : Bool) (bs : List Bool)
        → IsBool valuation formula b
        → AreBool valuation es bs
        → Makes valuation (with_equations builder formula es) (b && all_true bs)
    unfolding with_equations
    with_equations-Makes formula _ b _ p none_left =
        (formula, refl, subst (λ z. IsBool valuation formula z) (sym (and_true b)) p)
    with_equations-Makes formula _ b _ p (one_more {e} {b = c} {es} {bs = cs} q qs) =
        let (all, made, v) = faithful.and_value e es c cs (one_more q qs) in
        let (whole, made', v') = and_pair formula all b (all_true (c ∷ cs)) p v in (whole, (cc), v')

    module _ (guard_true : Transition → Bool) (assigned : VariableAssignment → Bool)
        (called : Transition → Bool) where
      equations-AreBool :
          (assignments : List VariableAssignment)
          → ((a : VariableAssignment)
              → Memᴰ a assignments
              → is_undef_value a.value ≡ false
              → Makes valuation (builder.eq_expr (Expr.var_ref a.variable) a.value) (assigned a))
          → (es : Exprs) × (bs : List Bool) × (equations builder assignments ≡ ok es)
            × AreBool valuation es bs
            × (all_true bs ≡ all_assigned valuation guard_true assigned called assignments)
      unfolding equations all_assigned
      equations-AreBool [] values = (Exprs.nil, [], refl, none_left, refl)
      equations-AreBool (a ∷ rest) values =
          let (es, bs, made, are, same) = equations-AreBool rest (λ b m. values b (Memᴰ.tail m)) in
          elim (Bool-cases (is_undef_value a.value)) [
            | inl u ↦ (es, bs, (cc), are, (cc))
            | inr d ↦
                let (e, made', v) = values a (Memᴰ.head refl) d in
                (Exprs.cons e es, assigned a ∷ bs, (cc), one_more v are, (cc))
          ]

      pub edge_formula-Makes :
          (calls : Transition → Expr) (edge : Transition) (before : Expr) (b : Bool)
          → HasValues valuation guard_true assigned called builder calls edge
          → IsBool valuation before b
          → Makes valuation
              (edge_formula builder calls before edge)
              (b && holds valuation guard_true assigned called edge)
      unfolding edge_formula holds
      edge_formula-Makes calls edge before b values p =
          let (formula, made, v) =
            and_pair before edge.guard b (guard_true edge) p values.guard_value in
          let first = b && guard_true edge in
          elim (EdgeKind-cases edge.kind) [
            | inl (assignments, is) ↦
                let (es, bs, made_es, are, same) =
                  equations-AreBool assignments (values.equation_value assignments is) in
                let (whole, made', v') = with_equations-Makes formula es first bs v are in
                let regroup = and_assoc b (guard_true edge) (all_true bs) in
                (whole, (cc), subst (λ z. IsBool valuation whole z) (cc) v')
            | inr (callee, inputs, outputs, is) ↦
                let (whole, made', v') =
                  and_pair formula (calls edge) first (called edge) v values.call_value in
                let regroup = and_assoc b (guard_true edge) (called edge) in
                (whole, (cc), subst (λ z. IsBool valuation whole z) (cc) v')
          ]

    -- The formulas of the predecessors, and whether one of them is true.
    pub data ArePreds : List PathPredecessor → List Bool → Type 0 where
      no_preds : ArePreds [] []
      a_pred :
          {p : PathPredecessor} {b : Bool} {ps : List PathPredecessor} {bs : List Bool}
          → IsBool valuation p.expr b
          → ArePreds ps bs
          → ArePreds (p ∷ ps) (b ∷ bs)

    module _ (pred_variable : ℕ → Ty → Variable) (location_id : ℕ → ℕ) where
      identified-AreBool :
          (preds : List PathPredecessor) (bs : List Bool)
          → ArePreds preds bs
          → (es : Exprs) × (identified builder false pred_variable location_id none preds ≡ ok es)
            × AreBool valuation es bs
      unfolding identified
      identified-AreBool _ _ no_preds = (Exprs.nil, refl, none_left)
      identified-AreBool _ _ (a_pred {p} {b} {ps} {bs} v rest) =
          let (e, made, v') = and_pair p.expr (truth_expr true) b true v (truth_expr-IsBool true) in
          let (es, made', are) = identified-AreBool ps bs rest in
          (Exprs.cons e es, (cc), one_more (subst (λ z. IsBool valuation e z) (and_true b) v') are)

      pub combine-Makes :
          (location : ℕ) (st : PathState) (preds : List PathPredecessor) (bs : List Bool)
          → ArePreds preds bs
          → (e : Expr) × (combine builder false pred_variable location_id location preds st
              ≡ ok (e, st))
            × IsBool valuation e (any_true bs)
      unfolding combine either
      combine-Makes location st _ _ no_preds = (truth_expr false, refl, truth_expr-IsBool false)
      combine-Makes location st _ _ (a_pred {p} {b} v no_preds) =
          (p.expr, refl, subst (λ z. IsBool valuation p.expr z) (sym (or_false b)) v)
      combine-Makes location st _ _ (a_pred {p} {b} v (a_pred {p = q} {b = c} w no_preds)) =
          let (l, made_l, v') =
            and_pair p.expr (truth_expr true) b true v (truth_expr-IsBool true) in
          let (r, made_r, w') =
            and_pair q.expr (truth_expr true) c true w (truth_expr-IsBool true) in
          let (e, made, u) = or_pair l r (b && true) (c && true) v' w' in
          (
            e,
            (cc),
            subst (λ z. IsBool valuation e z)
                (ap₂ (λ x y. x || y) (and_true b) (and_true c ∙ sym (or_false c))) u,
          )
      combine-Makes location st (p ∷ q ∷ r ∷ preds) _ (a_pred v (a_pred w (a_pred u rest))) =
          let all = a_pred v (a_pred w (a_pred u rest)) in
          let (es, made, are) = identified-AreBool (p ∷ q ∷ r ∷ preds) _ all in
          let (e, made_e, value) = or_some es _ _ are in (e, (cc), value)
