-- ===== src/Automaton/PathCondition.antt =====
-- PathConditionCalculator::encode (src/Automaton/CfaUtils.cpp): the formula for the paths between two
-- locations, over a topological order. The heap, the calls' formulas and the new variables are given by
-- functions, what the callback receives and the count of new variables are the state.
use gazer.Base.{
  ℕ, zero, suc, ◌+◌, ◌-◌, ◌^◌, Bool, true, false, List, [], ◌∷◌, ◌++◌, Option, none, some,
  replicate, set, get_elem?, length, ltb, leb, ◌==◌, if◌then◌else◌, Result, fault, ok, Fault, ◌>>=◌,
  ◌>>◌, require, or_fault,
}
use gazer.Base.Int.{pos}
use gazer.Core.Ty.{Ty}
use gazer.Core.Literal.{bool_lit, int_lit}
use gazer.Core.Expr.{Expr, Exprs, Variable}
use gazer.Automaton.Cfa.{Transition, EdgeKind, assign_edge, call_edge, VariableAssignment}
use gazer.Automaton.Dominators.{location_at}
pub mod Meaning
pub mod Formula
pub mod Correct
pub mod PlainBuilder

-- The methods of ExprBuilder that the calculator calls.
pub record Builder : Type 0 where
  pub and_exprs : Exprs → Result Expr
  pub or_exprs : Exprs → Result Expr
  pub eq_expr : Expr → Expr → Result Expr
  pub not_expr : Expr → Result Expr
  pub select_expr : Expr → Expr → Expr → Result Expr

abbrev pub truth_expr : Bool → Expr
truth_expr b = Expr.literal (bool_lit b)

abbrev pub id_expr : ℕ → Expr
id_expr n = Expr.literal (int_lit (pos n))

abbrev pub pair : Expr → Expr → Exprs
pair a b = Exprs.cons a (Exprs.cons b Exprs.nil)

unfoldable pub is_undef_value : Expr → Bool
is_undef_value (Expr.undef t) = true
is_undef_value _ = false

-- The edge and its formula; the index is not used.
pub record PathPredecessor : Type 0 where
  pub edge : Transition
  pub expr : Expr

-- mPredIdx, and the calls of mPredecessors, the last one first.
pub record PathState : Type 0 where
  pub pred_index : ℕ
  pub reported : List (ℕ × Expr)

module _ (builder : Builder) where
  -- The equations of the assignments, without those of an undef.
  unfoldable pub equations : List VariableAssignment → Result Exprs
  unfolding is_undef_value
  equations [] = ok Exprs.nil
  equations (a ∷ rest) = elim (is_undef_value a.value) [
    | true ↦ equations rest
    | false ↦ do
      e ← builder.eq_expr (Expr.var_ref a.variable) a.value
      es ← equations rest
      ok (Exprs.cons e es)
  ]

  unfoldable pub with_equations : Expr → Exprs → Result Expr
  with_equations formula Exprs.nil = ok formula
  with_equations formula (Exprs.cons e es) =
      builder.and_exprs (Exprs.cons e es) >>= λ all. builder.and_exprs (pair formula all)

  -- The formula of an edge from a location with the formula `before`.
  module _ (calls : Transition → Expr) where
    unfoldable pub edge_formula : Expr → Transition → Result Expr
    unfolding equations with_equations
    edge_formula before edge = builder.and_exprs (pair before edge.guard) >>= λ formula.
        elim edge.kind [
          | assign_edge assignments ↦ equations assignments >>= λ es. with_equations formula es
          | call_edge callee inputs outputs ↦ builder.and_exprs (pair formula (calls edge))
        ]

    -- The loop over the incoming edges of the location at `start + i`.
    module _ (index : ℕ → ℕ) (start i : ℕ) (dp : List Expr) where
      unfoldable pub collect : List Transition → Result (List PathPredecessor)
      unfolding edge_formula
      collect [] = ok []
      collect (edge ∷ edges) =
          require (ltb (index edge.source) (i + start)) >> (elim (leb start (index edge.source)) [
            | false ↦ collect edges
            | true ↦ do
              before ← or_fault Fault.undefined_behaviour (get_elem? dp (index edge.source - start))
              formula ← edge_formula before edge
              preds ← collect edges
              ok (record { edge = edge; expr = formula } ∷ preds)
          ])

  -- `watched` is whether there is a callback.
  module _ (watched : Bool) (pred_variable : ℕ → Ty → Variable) (location_id : ℕ → ℕ) where
    unfoldable pub report : ℕ → Expr → PathState → PathState
    report location e st = record {
      pred_index = st.pred_index;
      reported = (location, e) ∷ st.reported;
    }

    -- The new variable takes the next number.
    unfoldable pub count_up : PathState → PathState
    count_up st = record { pred_index = suc st.pred_index; reported = st.reported }

    unfoldable pub identified : Option Expr → List PathPredecessor → Result Exprs
    identified discriminator [] = ok Exprs.nil
    identified discriminator (p ∷ preds) = do
      identification ← elim discriminator [
        | none ↦ ok (truth_expr true)
        | some v ↦ builder.eq_expr v (id_expr (location_id p.edge.source))
      ]
      formula ← builder.and_exprs (pair p.expr identification)
      rest ← identified discriminator preds
      ok (Exprs.cons formula rest)

    -- Or of two predecessors, with the formula that picks each.
    unfoldable pub either : PathPredecessor → PathPredecessor → Expr → Expr → Result Expr
    either p q pick_p pick_q = do
      l ← builder.and_exprs (pair p.expr pick_p)
      r ← builder.and_exprs (pair q.expr pick_q)
      builder.or_exprs (pair l r)

    -- dp[i], by the number of predecessors.
    unfoldable pub combine : ℕ → List PathPredecessor → PathState → Result (Expr × PathState)
    unfolding report count_up identified either
    combine location [] st = ok (truth_expr false, st)
    combine location (p ∷ []) st =
        ok
          (p.expr, if watched then report location (id_expr (location_id p.edge.source)) st else st)
    combine location (p ∷ q ∷ []) st = elim watched [
      | false ↦ either p q (truth_expr true) (truth_expr true) >>= λ e. ok (e, st)
      | true ↦ do
        let v = Expr.var_ref (pred_variable st.pred_index Ty.bool)
        choice ←
            builder.select_expr v (id_expr (location_id p.edge.source))
              (id_expr (location_id q.edge.source))
        negated ← builder.not_expr v
        e ← either p q v negated
        ok (e, report location choice (count_up st))
    ]
    combine location preds st = elim watched [
      | false ↦ do es ← identified none preds; e ← builder.or_exprs es; ok (e, st)
      | true ↦ do
        let v = Expr.var_ref (pred_variable st.pred_index Ty.int)
        es ← identified (some v) preds
        e ← builder.or_exprs es
        ok (e, report location v (count_up st))
    ]

    module _ (topo : List ℕ) (index : ℕ → ℕ) (incoming : ℕ → List Transition)
        (calls : Transition → Expr) where
      -- The loop from `i` on, over `count` entries.
      unfoldable pub fill_formulas :
          (start count i : ℕ) → List Expr → PathState → Result (List Expr × PathState)
      unfolding collect combine location_at
      fill_formulas start zero i dp st = ok (dp, st)
      fill_formulas start (suc count) i dp st = do
        location ← location_at topo (i + start)
        preds ← collect calls index start i dp (incoming location)
        next ← combine location preds st
        fill_formulas start count (suc i) (set dp i next.0) next.1

      unfoldable pub encode : (source target : ℕ) → PathState → Result (Expr × PathState)
      unfolding fill_formulas
      encode source target st = elim (source == target) [
        | true ↦ ok (truth_expr true, st)
        | false ↦ do
          let first = index source
          let last = index target
          require (ltb first last)
          require (ltb last (length topo))
          let size = last - first + 1
          filled ←
              fill_formulas first (size - 1) 1
                (set (replicate size (truth_expr false)) 0 (truth_expr true)) st
          back ← or_fault Fault.undefined_behaviour (get_elem? (filled.0) (size - 1))
          ok (back, filled.1)
      ]
