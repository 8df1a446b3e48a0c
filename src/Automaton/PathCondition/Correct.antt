-- ===== src/Automaton/PathCondition/Correct.antt =====
-- The path condition without a callback: it is true exactly where a path is feasible.
use gazer.Base.{
  ℕ, zero, suc, ◌+◌, ◌-◌, ◌<◌, ◌≤◌, ◌≡◌, ◌≢◌, refl, sym, ap, ◌∙◌, subst, ◌⊎◌, inl, inr, Bool, true,
  false, ◌&&◌, ◌||◌, List, [], ◌∷◌, some, replicate, set, get_elem?, length, leb, ltb, ◌==◌, ok,
  arith, Memᴰ, decided, le_or_lt, length-set, length-replicate, get_elem?-set_self,
  get_elem?-set_other, get_elem?-before, get_elem?-length,
}
use gazer.Base.Memᴰ
use native.Mathlib.Decide.{ℕ_discrete}
use gazer.Core.Llvm.{Llvm}
use gazer.Core.Ty.{Ty}
use gazer.Core.Expr.{Expr, Variable}
use gazer.Evaluator.Visit.{Valuation}
use gazer.Automaton.Cfa.{Transition, VariableAssignment}
use gazer.Automaton.Dominators.{location_at}
use gazer.Automaton.Dominators.Order.{Listed, ltb-of_lt}
use gazer.Automaton.Dominators.Predecessors.{TopologicalOrder}
use gazer.Automaton.PathCondition.{
  Builder, truth_expr, edge_formula, PathPredecessor, PathState, collect, combine, fill_formulas,
  encode,
}
use gazer.Automaton.PathCondition.Meaning.{
  any_true, IsBool, IsFaithful, holds, Feasible, at_source, along, HasValues,
}
use gazer.Automaton.PathCondition.Formula.{
  truth_expr-IsBool, edge_formula-Makes, ArePreds, no_preds, a_pred, combine-Makes,
}

-- A decision and a Boolean decide both together.
both {ℓ} :
    {A : Type ℓ} (d : Dec A) (b : Bool) → (e : Dec (A × (b ≡ true))) × (decided d && b ≡ decided e)
both (yes a) true = (yes (a, refl), refl)
both (yes a) false = (no (λ h. absurd (cc (h.1))), refl)
both (no n) b = (no (λ h. n h.0), refl)

-- One round of the loop.
module _ (builder : Builder) (watched : Bool) (pred_variable : ℕ → Ty → Variable)
    (location_id : ℕ → ℕ) (topo : List ℕ) (index : ℕ → ℕ) (incoming : ℕ → List Transition)
    (calls : Transition → Expr) where
  fill_formulas-suc :
      (start count i : ℕ) (dp dp' : List Expr) (st : PathState) (location : ℕ)
      (preds : List PathPredecessor) (e : Expr)
      → get_elem? topo (i + start) ≡ some location
      → collect builder calls index start i dp (incoming location) ≡ ok preds
      → combine builder watched pred_variable location_id location preds st ≡ ok (e, st)
      → fill_formulas builder watched pred_variable location_id topo index incoming calls start
          count
          (suc i)
          (set dp i e)
          st
        ≡ ok (dp', st)
      → fill_formulas builder watched pred_variable location_id topo index incoming calls start
          (suc count)
          i
          dp
          st
        ≡ ok (dp', st)
  unfolding fill_formulas location_at
  fill_formulas-suc start count i dp dp' st location preds e at_i collects combines rest =
      rw at_i (rw collects (rw combines rest))

==-false : (a b : ℕ) → a ≢ b → (a == b) ≡ false
==-false a b h = ground arith

encode-runs :
    (builder : Builder) (watched : Bool) (pred_variable : ℕ → Ty → Variable) (location_id : ℕ → ℕ)
    (topo : List ℕ) (index : ℕ → ℕ) (incoming : ℕ → List Transition) (calls : Transition → Expr)
    (source target : ℕ) (st : PathState) (dp : List Expr) (e : Expr)
    → (source == target) ≡ false
    → ltb (index source) (index target) ≡ true
    → ltb (index target) (length topo) ≡ true
    → fill_formulas builder watched pred_variable location_id topo index incoming calls
        (index source)
        (index target - index source + 1 - 1)
        1
        (set (replicate (index target - index source + 1) (truth_expr false)) 0 (truth_expr true))
        st
      ≡ ok (dp, st)
    → get_elem? dp (index target - index source + 1 - 1) ≡ some e
    → encode builder watched pred_variable location_id topo index incoming calls source target st
      ≡ ok (e, st)
unfolding encode
encode-runs builder watched pred_variable location_id topo index incoming calls source target st dp
      e other ascends inside fills got =
    cc

module _ ⦃llvm : Llvm⦄ (valuation : Valuation) (builder : Builder)
    (faithful : IsFaithful valuation builder) (guard_true : Transition → Bool)
    (assigned : VariableAssignment → Bool) (called : Transition → Bool) (calls : Transition → Expr)
    (topo : List ℕ) (index : ℕ → ℕ) (incoming : ℕ → List Transition)
    (order : TopologicalOrder topo index incoming)
    (values : (location : ℕ)
      → Listed topo index location
      → (edge : Transition) → Memᴰ edge (incoming location)
      → HasValues valuation guard_true assigned called builder calls edge)
    (source : ℕ) (source_listed : Listed topo index source) where
  abbrev Reached : ℕ → Type 0
  Reached location = Feasible valuation guard_true assigned called incoming source location

  abbrev edge_holds : Transition → Bool
  edge_holds edge = holds valuation guard_true assigned called edge

  Feasible-after :
      {location : ℕ} → Reached location → Listed topo index location → index source ≤ index location
  Feasible-after at_source listed = omega arith
  Feasible-after (along {location} edge before mem held) listed =
      let (listed', below) = order.ascends location listed edge mem in
      omega (arith, Feasible-after before listed', below)

  -- The entries before `source + i` are the formulas of the listed locations there.
  record Filled (size i : ℕ) (dp : List Expr) : Type 0 where
    sized : length dp ≡ size
    formula :
        (location : ℕ)
        → Listed topo index location
        → index source ≤ index location
        → index location < i + index source
        → (e : Expr) × (d : Dec (Reached location)) × (get_elem? dp (index location - index source)
            ≡ some e)
          × IsBool valuation e (decided d)

  -- An edge through which the location is reached.
  abbrev Through : List Transition → Type 0
  Through edges =
      (edge : Transition) × Memᴰ edge edges × Reached edge.source × (edge_holds edge ≡ true)

  nowhere : ¬ Through []
  nowhere h = Memᴰ.not-nil h.1

  skip :
      (edge : Transition) (edges : List Transition)
      → ¬ (Reached edge.source × (edge_holds edge ≡ true))
      → (d : Dec (Through edges)) → (e : Dec (Through (edge ∷ edges))) × (decided d ≡ decided e)
  skip edge edges not_here (yes (other, mem, reached, held)) =
      (yes (other, Memᴰ.tail mem, reached, held), refl)
  skip edge edges not_here (no n) = (
    no (λ (other, mem, reached, held). elim (Memᴰ.cases_cons mem) [
      | inl same ↦
          not_here
            (subst (λ t. Reached t.source) same reached, sym (ap (λ t. edge_holds t) same) ∙ held)
      | inr later ↦ n (other, later, reached, held)
    ]),
    refl,
  )

  keep :
      (edge : Transition) (edges : List Transition)
      → (here : Dec (Reached edge.source × (edge_holds edge ≡ true))) → (d : Dec (Through edges))
      → (e : Dec (Through (edge ∷ edges))) × (decided here || decided d ≡ decided e)
  keep edge edges (yes (reached, held)) d = (yes (edge, Memᴰ.head refl, reached, held), refl)
  keep edge edges (no n) d = skip edge edges n d

  module _ (size i : ℕ) (dp : List Expr) (filled : Filled size i dp) where
    edge-Makes :
        (edge : Transition)
        → Listed topo index edge.source
        → index source ≤ index edge.source
        → index edge.source < i + index source
        → HasValues valuation guard_true assigned called builder calls edge
        → (before formula : Expr) × (d : Dec (Reached edge.source × (edge_holds edge ≡ true)))
          × (get_elem? dp (index edge.source - index source) ≡ some before)
          × (edge_formula builder calls before edge ≡ ok formula)
          × IsBool valuation formula (decided d)
    edge-Makes edge listed after below has =
        let (before, d, got, v) = filled.formula edge.source listed after below in
        let (formula, made, v') =
          edge_formula-Makes valuation builder faithful guard_true assigned called calls edge before
            (decided d) has v in
        let (both_hold, same) = both d (edge_holds edge) in
        (before, formula, both_hold, got, made, subst (λ z. IsBool valuation formula z) same v')

    collect-ArePreds :
        (edges : List Transition)
        → ((edge : Transition)
            → Memᴰ edge edges
            → Listed topo index edge.source
              × (index edge.source < i + index source)
              × HasValues valuation guard_true assigned called builder calls edge)
        → (preds : List PathPredecessor) × (bs : List Bool) × (d : Dec (Through edges)) × (collect
              builder calls index
              (index source)
              i
              dp
              edges
            ≡ ok preds)
          × ArePreds valuation builder faithful preds bs
          × (any_true bs ≡ decided d)
    unfolding collect
    collect-ArePreds [] has = ([], [], no nowhere, refl, no_preds, refl)
    collect-ArePreds (edge ∷ edges) has =
        let (preds, bs, d, runs, are, same) =
          collect-ArePreds edges (λ e mem. has e (Memᴰ.tail mem)) in
        let (listed, below, meaning) = has edge (Memᴰ.head refl) in
        let earlier = ltb-of_lt (index edge.source) (i + index source) below in
        elim (le_or_lt (index source) (index edge.source)) [
          | inl after ↦
              let inside : leb (index source) (index edge.source) ≡ true = ground arith in
              let (before, formula, here, got, made, v) =
                edge-Makes edge listed after below meaning in
              let (e, joined) = keep edge edges here d in
              (
                record { edge = edge; expr = formula } ∷ preds,
                decided here ∷ bs,
                e,
                (cc),
                a_pred v are,
                ap (λ z. decided here || z) same ∙ joined,
              )
          | inr out ↦
              let outside : leb (index source) (index edge.source) ≡ false = ground arith in
              let unreached : ¬ (Reached edge.source × (edge_holds edge ≡ true)) =
                λ h. absurd (omega (arith, out, Feasible-after h.0 listed)) in
              let (e, joined) = skip edge edges unreached d in
              (preds, bs, e, (cc), are, same ∙ joined)
        ]

  Through-Reached : (location : ℕ) → Through (incoming location) → Reached location
  Through-Reached location (edge, mem, reached, held) = along edge reached mem held

  Reached-Through :
      {location : ℕ} → location ≢ source → Reached location → Through (incoming location)
  Reached-Through other at_source = absurd (other refl)
  Reached-Through other (along edge before mem held) = (edge, mem, before, held)

  Dec-Reached :
      (location : ℕ)
      → location ≢ source
      → (d : Dec (Through (incoming location)))
      → (e : Dec (Reached location)) × (decided d ≡ decided e)
  Dec-Reached location other (yes t) = (yes (Through-Reached location t), refl)
  Dec-Reached location other (no n) = (no (λ r. n (Reached-Through other r)), refl)

  Filled-set :
      (size i : ℕ)
      → i < size
      → (dp : List Expr) → Filled size i dp
      → (location : ℕ) → index location ≡ i + index source
      → get_elem? topo (i + index source) ≡ some location
      → (e : Expr) (d : Dec (Reached location)) → IsBool valuation e (decided d)
      → Filled size (suc i) (set dp i e)
  Filled-set size i below dp filled location position at_i e d v = record {
    sized = length-set dp i e ∙ filled.sized;
    formula = λ other listed after before. elim (ℕ_discrete i (index other - index source)) [
      | yes same ↦
          let at_other : get_elem? topo (i + index source) ≡ some other =
            subst (λ n. get_elem? topo n ≡ some other) (omega (arith, same, after)) listed in
          let is_other : location ≡ other = cc in
          let own = get_elem?-set_self dp i e (omega (arith, filled.sized, below)) in
          subst
            (λ l.
              (f : Expr) × (d' : Dec (Reached l)) × (get_elem? (set dp i e)
                  (index other - index source)
                ≡ some f)
              × IsBool valuation f (decided d'))
            is_other (e, d, subst (λ n. get_elem? (set dp i e) n ≡ some e) same own, v)
      | no different ↦
          let (f, d', got, v') =
            filled.formula other listed after (omega (arith, before, different, after)) in
          (f, d', get_elem?-set_other dp i (index other - index source) e different ∙ got, v')
    ];
  }

  module _ (pred_variable : ℕ → Ty → Variable) (location_id : ℕ → ℕ) (size last : ℕ)
      (ends : get_elem? topo (size - 1 + index source) ≡ some last) where
    fill-Filled :
        (count i : ℕ)
        → 0 < i
        → i + count ≡ size
        → (dp : List Expr) (st : PathState) → Filled size i dp
        → (dp' : List Expr) × (fill_formulas builder false pred_variable location_id topo index
              incoming calls
              (index source)
              count
              i
              dp
              st
            ≡ ok (dp', st))
          × Filled size size dp'
    unfolding fill_formulas location_at
    fill-Filled zero i pos total dp st filled =
        (dp, refl, subst (λ n. Filled size n dp) (omega (arith, total)) filled)
    fill-Filled (suc count) i pos total dp st filled =
        let (location, at_i) =
          get_elem?-before topo (i + index source) (size - 1 + index source) (omega (arith, total))
            ends in
        let position = order.position (i + index source) location at_i in
        let listed = subst (λ n. get_elem? topo n ≡ some location) (sym position) at_i in
        let (preds, bs, d, collects, are, same) =
          collect-ArePreds size i dp filled (incoming location) (λ edge mem.
            let (l, below) = order.ascends location listed edge mem in
            (l, omega (arith, below, position), values location listed edge mem)) in
        let (e, combines, v) =
          combine-Makes valuation builder faithful pred_variable location_id location st preds bs
            are in
        let other : location ≢ source =
          λ is. absurd (omega (arith, position, pos, ap (λ n. index n) is)) in
        let (d', same') = Dec-Reached location other d in
        let v' = subst (λ z. IsBool valuation e z) (same ∙ same') v in
        let next =
          Filled-set size i (omega (arith, total)) dp filled location position at_i e d' v' in
        let (dp', fills, full) =
          fill-Filled count (suc i) (omega arith) (omega (arith, total)) (set dp i e) st next in
        (
          dp',
          fill_formulas-suc builder false pred_variable location_id topo index incoming calls
              (index source) count i dp dp' st location preds e at_i collects combines fills,
          full,
        )

  first-Filled :
      (size : ℕ)
      → 0 < size
      → Filled size 1 (set (replicate size (truth_expr false)) 0 (truth_expr true))
  first-Filled size pos =
      let blank = length-replicate size (truth_expr false) in
      record {
        sized = length-set (replicate size (truth_expr false)) 0 (truth_expr true) ∙ blank;
        formula = λ location listed after before.
            let same_index : index location ≡ index source = omega (arith, after, before) in
            let at_source_index = subst (λ n. get_elem? topo n ≡ some location) same_index listed in
            let is_source : source ≡ location = cc in
            let zero_there : 0 ≡ index location - index source = omega (arith, same_index) in
            let own =
              get_elem?-set_self (replicate size (truth_expr false)) 0 (truth_expr true)
                (omega (arith, blank, pos)) in
            (
              truth_expr true,
              yes (subst (λ l. Reached l) is_source at_source),
              subst
                  (λ n.
                    get_elem? (set (replicate size (truth_expr false)) 0 (truth_expr true)) n
                    ≡ some (truth_expr true))
                  zero_there own,
              truth_expr-IsBool valuation true,
            );
      }

  -- Where And and Or of the builder give the conjunction and the disjunction of Boolean operands, where
  -- the incoming edges of listed locations come from earlier listed ones, and their guards, equations and
  -- calls have Boolean values under the valuation, then without a callback, for a listed target that is
  -- the listed source or comes later, the encoding gives a formula and keeps the state, and the formula's
  -- value is true exactly where a way from the source to the target leads along edges that hold.
  pub encode-decides :
      (pred_variable : ℕ → Ty → Variable) (location_id : ℕ → ℕ) (target : ℕ) (st : PathState)
      → Listed topo index target
      → (source ≡ target) ⊎ (index source < index target)
      → (e : Expr) × (d : Dec (Reached target)) × (encode builder false pred_variable location_id
            topo index incoming calls source target st
          ≡ ok (e, st))
        × IsBool valuation e (decided d)
  unfolding encode
  encode-decides pred_variable location_id target st listed (inl same) =
      let equal : (source == target) ≡ true = ground (arith, same) in
      (
        truth_expr true,
        yes (subst (λ l. Reached l) same at_source),
        (cc),
        truth_expr-IsBool valuation true,
      )
  encode-decides pred_variable location_id target st listed (inr later) =
      let other : (source == target) ≡ false =
        ==-false source target (λ is. absurd (omega (arith, later, ap (λ n. index n) is))) in
      let size = index target - index source + 1 in
      let at_end : index target ≡ size - 1 + index source = omega (arith, later) in
      let ends = subst (λ n. get_elem? topo n ≡ some target) at_end listed in
      let (dp, fills, full) =
        fill-Filled pred_variable location_id size target ends (size - 1) 1 (omega arith)
          (omega arith) (set (replicate size (truth_expr false)) 0 (truth_expr true)) st
          (first-Filled size (omega arith)) in
      let (e, d, got, v) =
        full.formula target listed (omega (arith, later)) (omega (arith, later)) in
      let got' = subst (λ n. get_elem? dp n ≡ some e) (omega arith) got in
      (
        e,
        d,
        encode-runs builder false pred_variable location_id topo index incoming calls source target
            st dp e other (ltb-of_lt (index source) (index target) later)
            (ltb-of_lt (index target) (length topo) (get_elem?-length topo (index target) listed))
            fills got',
        v,
      )
