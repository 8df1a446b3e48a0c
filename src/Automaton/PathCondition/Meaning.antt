-- ===== src/Automaton/PathCondition/Meaning.antt =====
-- What the formulas of path conditions mean: the values under a valuation, the builder's promise, and the
-- paths whose edges hold.
use gazer.Base.{ℕ, ◌≡◌, Bool, true, false, ◌&&◌, ◌||◌, List, [], ◌∷◌, Result, ok, Memᴰ}
use gazer.Core.Llvm.{Llvm}
use gazer.Core.Ty.{is_bool_type}
use gazer.Core.Expr.{Expr, Exprs, type_of}
use gazer.Evaluator.Visit.{Valuation, eval}
use gazer.Evaluator.Connectives.{truth}
use gazer.Automaton.Cfa.{Transition, assign_edge, call_edge, VariableAssignment}
use gazer.Automaton.PathCondition.{Builder, is_undef_value}

abbrev pub all_true : List Bool → Bool
all_true [] = true
all_true (b ∷ bs) = b && all_true bs

abbrev pub any_true : List Bool → Bool
any_true [] = false
any_true (b ∷ bs) = b || any_true bs

module _ ⦃llvm : Llvm⦄ (valuation : Valuation) where
  -- A Boolean expression with the value b.
  pub record IsBool (e : Expr) (b : Bool) : Type 0 where
    pub bool_type : is_bool_type (type_of e) ≡ true
    pub value : eval valuation e ≡ ok (truth b)

  pub data AreBool : Exprs → List Bool → Type 0 where
    none_left : AreBool Exprs.nil []
    one_more :
        {e : Expr} {b : Bool} {es : Exprs} {bs : List Bool}
        → IsBool e b
        → AreBool es bs
        → AreBool (Exprs.cons e es) (b ∷ bs)

  abbrev pub Makes : Result Expr → Bool → Type 0
  Makes made b = (e : Expr) × (made ≡ ok e) × IsBool e b

  -- And and Or of at least one Boolean operand give their conjunction and disjunction.
  pub record IsFaithful (builder : Builder) : Type 0 where
    pub and_value :
        (e : Expr) (es : Exprs) (b : Bool) (bs : List Bool)
        → AreBool (Exprs.cons e es) (b ∷ bs)
        → Makes (builder.and_exprs (Exprs.cons e es)) (all_true (b ∷ bs))
    pub or_value :
        (e : Expr) (es : Exprs) (b : Bool) (bs : List Bool)
        → AreBool (Exprs.cons e es) (b ∷ bs)
        → Makes (builder.or_exprs (Exprs.cons e es)) (any_true (b ∷ bs))

  -- Which guards, equations and calls hold: of an edge, the guard does and, for an assignment, every
  -- equation but those of an undef, for a call, the formula of the call.
  module _ (guard_true : Transition → Bool) (assigned : VariableAssignment → Bool)
      (called : Transition → Bool) where
    unfoldable pub all_assigned : List VariableAssignment → Bool
    all_assigned [] = true
    all_assigned (a ∷ rest) = (is_undef_value a.value || assigned a) && all_assigned rest

    unfoldable pub holds : Transition → Bool
    unfolding all_assigned
    holds edge = guard_true edge && elim edge.kind [
      | assign_edge assignments ↦ all_assigned assignments
      | call_edge callee inputs outputs ↦ called edge
    ]

    -- A way from the source along edges that hold.
    module _ (incoming : ℕ → List Transition) (source : ℕ) where
      pub data Feasible : ℕ → Type 0 where
        at_source : Feasible source
        along :
            {location : ℕ} (edge : Transition)
            → Feasible edge.source
            → Memᴰ edge (incoming location)
            → holds edge ≡ true
            → Feasible location

    -- The guards, the calls and the equations of the edges have Boolean values, those.
    pub record HasValues (builder : Builder) (calls : Transition → Expr) (edge : Transition)
        : Type 0 where
      pub guard_value : IsBool edge.guard (guard_true edge)
      pub call_value : IsBool (calls edge) (called edge)
      pub equation_value :
          (assignments : List VariableAssignment)
          → edge.kind ≡ assign_edge assignments
          → (a : VariableAssignment) → Memᴰ a assignments
          → is_undef_value a.value ≡ false
          → Makes (builder.eq_expr (Expr.var_ref a.variable) a.value) (assigned a)
