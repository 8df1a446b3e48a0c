-- ===== src/Automaton/Build/Edits.antt =====
-- Sequences of the operations that construct an automaton.
use gazer.Base.{
  ◌+◌, ◌≤◌, ◌<◌, unsigned_size, arith, ℕ, ◌≡◌, ◌≢◌, ◌==◌, refl, sym, ap, ◌∙◌, subst, inl, inr, ◌⊎◌,
  Bool, true, false, Bool-cases, List, [], ◌∷◌, Option, none, some, Result, ok, fault, Fault, ◌>>=◌,
  ◌>>◌, require, length, ℕ_discrete, Memᴰ,
}
use gazer.Base.Memᴰ
use gazer.Core.Ty.{is_bool_type}
use gazer.Core.Expr.{Expr, type_of}
use gazer.Support.Graph.{Graph, update, create_edge}
use gazer.Support.Graph.Remove.{update_same, update_other}
use gazer.Support.Graph.Linked.{create_edge-Linked}
use gazer.Automaton.Cfa.{VariableAssignment, EdgeKind}
use gazer.Automaton.Build.{
  Automaton, add_location, create_location, create_error_location, connect, add_transition,
  create_assign_transition, create_call_transition, add_error_code, guard_or_true, empty_cfa,
  new_cfa,
}
use gazer.Automaton.Build.Numbers.{
  IsBuilt, HasErrors, add_location-IsBuilt, create_location-HasErrors,
  create_error_location-HasErrors,
}

pub data Edit : Type 0 where
  -- the new address
  new_location : ℕ → Edit
  new_error_location : ℕ → Edit
  -- the new address, the source and the target
  new_assign : ℕ → ℕ → ℕ → Option Expr → List VariableAssignment → Edit
  -- also the guard, the callee, and its numbers of inputs and outputs
  new_call : ℕ → ℕ → ℕ → Expr → ℕ → ℕ → ℕ → List VariableAssignment → List VariableAssignment → Edit
  error_code : ℕ → Expr → Edit

unfoldable pub apply_edit : Edit → Automaton → Result Automaton
unfolding create_location create_error_location create_assign_transition create_call_transition
    add_error_code
apply_edit (new_location l) a = ok (create_location l a)
apply_edit (new_error_location l) a = ok (create_error_location l a)
apply_edit (new_assign e s t guard assignments) a =
    create_assign_transition e s t guard assignments a
apply_edit (new_call e s t guard callee n m inputs outputs) a =
    create_call_transition e s t guard callee n m inputs outputs a
apply_edit (error_code l code) a = add_error_code l code a

-- A new address is not in use, and a transition is between locations of the automaton.
unfoldable pub IsAllowed : Edit → Automaton → Type 0
IsAllowed (new_location l) a = ¬ Memᴰ l a.graph.nodes
IsAllowed (new_error_location l) a = ¬ Memᴰ l a.graph.nodes
IsAllowed (new_assign e s t guard assignments) a =
    (a.graph.source_of e ≡ none) × Memᴰ s a.graph.nodes × Memᴰ t a.graph.nodes
IsAllowed (new_call e s t guard callee n m inputs outputs) a =
    (a.graph.source_of e ≡ none) × Memᴰ s a.graph.nodes × Memᴰ t a.graph.nodes
IsAllowed (error_code l code) a = Unit

pub record IsWhole (a : Automaton) : Type 0 where
  pub built : IsBuilt a
  pub with_errors : HasErrors a

-- The numbers that locations can have: the two largest ones of `unsigned` are no keys of a DenseMap.
abbrev pub max_locations : ℕ
max_locations = 4294967294

-- The result, which is whole and has a next number up to the bound, or the failed assertion.
pub IsWholeOr : ℕ → Result Automaton → Type 0
IsWholeOr bound r =
    ((a : Automaton) × (r ≡ ok a) × IsWhole a × (a.location_idx ≤ bound))
    ⊎ (r ≡ fault Fault.assertion)

module _ (edge s t : ℕ) (a : Automaton) (whole : IsWhole a) (fresh : a.graph.source_of edge ≡ none)
    (s_there : Memᴰ s a.graph.nodes) (t_there : Memᴰ t a.graph.nodes) where
  end-of_created :
      (f : ℕ → Option ℕ) (at : ℕ)
      → Memᴰ at a.graph.nodes
      → ((e n : ℕ) → f e ≡ some n → Memᴰ n a.graph.nodes)
      → (e n : ℕ) → update f edge (some at) e ≡ some n
      → Memᴰ n a.graph.nodes
  end-of_created f at there old e n h = elim (ℕ_discrete e edge) [
    | yes is ↦
        let new = ap (update f edge (some at)) is ∙ update_same f edge (some at) in
        let same : at ≡ n = cc in subst (λ k. Memᴰ k a.graph.nodes) same there
    | no other ↦ old e n (sym (update_other f edge e (some at) other) ∙ h)
  ]

  add_transition-IsWholeOr :
      (guard : Expr) (kind : EdgeKind)
      → IsWholeOr a.location_idx (add_transition edge s t guard kind a)
  unfolding add_transition connect IsWholeOr create_edge
  add_transition-IsWholeOr guard kind = elim (Bool-cases (is_bool_type (type_of guard))) [
    | inr not_bool ↦ inr (rw not_bool refl)
    | inl bool ↦ inl (
      connect edge s t guard kind a,
      rw bool refl,
      record {
        built = record {
          numbered = whole.built.numbered;
          listed = whole.built.listed;
          sources = end-of_created a.graph.source_of s s_there whole.built.sources;
          targets = end-of_created a.graph.target_of t t_there whole.built.targets;
          linked = create_edge-Linked a.graph edge s t whole.built.linked fresh;
        };
        with_errors = record { errors = whole.with_errors.errors };
      },
      omega arith,
    )
  ]

  -- Two more assertions on the result.
  checked_twice :
      (bound : ℕ) (r : Result Automaton) (first second : Bool)
      → IsWholeOr bound r
      → IsWholeOr bound (r >>= λ next. require first >> (require second >> ok next))
  unfolding IsWholeOr
  checked_twice bound r first second (inr failed) =
      inr (ap (λ m. m >>= λ next. require first >> (require second >> ok next)) failed)
  checked_twice bound r true true (inl (next, made, w, small)) =
      inl (next, ap (λ m. m >>= λ next. require true >> (require true >> ok next)) made, w, small)
  checked_twice bound r true false (inl (next, made, w, small)) =
      inr (ap (λ m. m >>= λ next. require true >> (require false >> ok next)) made)
  checked_twice bound r false second (inl (next, made, w, small)) =
      inr (ap (λ m. m >>= λ next. require false >> (require second >> ok next)) made)

create_location-IsWhole :
    (l : ℕ) (a : Automaton)
    → ¬ Memᴰ l a.graph.nodes
    → a.location_idx + 1 < unsigned_size
    → IsWhole a
    → IsWhole (create_location l a)
unfolding create_location
create_location-IsWhole l a fresh few whole = record {
  built = add_location-IsBuilt l a fresh false few whole.built;
  with_errors = create_location-HasErrors l a fresh whole.with_errors;
}

create_error_location-IsBuilt :
    (l : ℕ) (a : Automaton) → IsBuilt (add_location l true a) → IsBuilt (create_error_location l a)
unfolding create_error_location
create_error_location-IsBuilt l a b = record {
  numbered = b.numbered;
  listed = b.listed;
  sources = b.sources;
  targets = b.targets;
  linked = b.linked;
}

add_error_code-IsWholeOr :
    (l : ℕ) (code : Expr) (a : Automaton)
    → IsWhole a
    → IsWholeOr a.location_idx (add_error_code l code a)
unfolding add_error_code IsWholeOr
add_error_code-IsWholeOr l code a whole = elim (Bool-cases (a.is_error l)) [
  | inr no_error ↦ inr (rw no_error refl)
  | inl error ↦ inl (
    record a { error_fields = update a.error_fields l (some code) },
    rw error refl,
    record {
      built = record {
        numbered = whole.built.numbered;
        listed = whole.built.listed;
        sources = whole.built.sources;
        targets = whole.built.targets;
        linked = whole.built.linked;
      };
      with_errors = record { errors = whole.with_errors.errors };
    },
    omega arith,
  )
]

-- A next number that is at most another one is at most its successor.
more : (n : ℕ) (r : Result Automaton) → IsWholeOr n r → IsWholeOr (n + 1) r
unfolding IsWholeOr
more n r (inl (a, is, whole, at_most)) = inl (a, is, whole, omega arith)
more n r (inr failed) = inr failed

apply_edit-IsWholeOr :
    (edit : Edit) (a : Automaton)
    → IsWhole a
    → IsAllowed edit a
    → a.location_idx + 1 < unsigned_size
    → IsWholeOr (a.location_idx + 1) (apply_edit edit a)
unfolding apply_edit IsAllowed IsWholeOr create_location create_error_location add_location
apply_edit-IsWholeOr (new_location l) a whole fresh few =
    inl (create_location l a, refl, create_location-IsWhole l a fresh few whole, omega arith)
apply_edit-IsWholeOr (new_error_location l) a whole fresh few = inl (
  create_error_location l a,
  refl,
  record {
    built = create_error_location-IsBuilt l a (add_location-IsBuilt l a fresh true few whole.built);
    with_errors = create_error_location-HasErrors l a fresh whole.with_errors;
  },
  omega arith,
)
apply_edit-IsWholeOr (new_assign e s t guard assignments) a whole (fresh, at_s, at_t) few =
    more a.location_idx _
      (add_transition-IsWholeOr e s t a whole fresh at_s at_t (guard_or_true guard) _)
apply_edit-IsWholeOr (new_call e s t guard callee n m inputs outputs) a whole (fresh, at_s, at_t)
      few =
    more a.location_idx _ (
      checked_twice e s t a whole fresh at_s at_t a.location_idx _ (n == length inputs)
        (m == length outputs) (add_transition-IsWholeOr e s t a whole fresh at_s at_t guard _))
apply_edit-IsWholeOr (error_code l code) a whole fresh few =
    more a.location_idx _ (add_error_code-IsWholeOr l code a whole)

-- The operations in order, up to the first failed assertion.
unfoldable pub apply_edits : List Edit → Automaton → Result Automaton
unfolding apply_edit
apply_edits [] a = ok a
apply_edits (edit ∷ edits) a = apply_edit edit a >>= λ next. apply_edits edits next

unfoldable pub AreAllowed : List Edit → Automaton → Type 0
AreAllowed [] a = Unit
AreAllowed (edit ∷ edits) a =
    IsAllowed edit a × ((next : Automaton) → apply_edit edit a ≡ ok next → AreAllowed edits next)

apply_edits-IsWholeOr :
    (edits : List Edit) (a : Automaton)
    → IsWhole a
    → AreAllowed edits a
    → a.location_idx + length edits ≤ max_locations
    → IsWholeOr max_locations (apply_edits edits a)
unfolding apply_edits AreAllowed IsWholeOr
apply_edits-IsWholeOr [] a whole allowed few = inl (a, refl, whole, omega arith)
apply_edits-IsWholeOr (edit ∷ edits) a whole (allowed, later) few =
    elim (apply_edit-IsWholeOr edit a whole allowed (omega arith)) [
      | inr failed ↦ inr (ap (λ m. m >>= λ next. apply_edits edits next) failed)
      | inl (next, made, whole', at_most) ↦
          elim (apply_edits-IsWholeOr edits next whole' (later next made) (omega arith)) [
            | inr failed ↦ inr (ap (λ m. m >>= λ next. apply_edits edits next) made ∙ failed)
            | inl (last, made', whole'', bound) ↦
                inl (
                  last,
                  ap (λ m. m >>= λ next. apply_edits edits next) made ∙ made',
                  whole'',
                  bound,
                )
          ]
    ]

empty_cfa-IsWhole : (entry exit : ℕ) → IsWhole (empty_cfa entry exit)
unfolding empty_cfa
empty_cfa-IsWhole entry exit = record {
  built = record {
    numbered = λ l m. absurd (Memᴰ.not-nil m);
    listed = λ i l h. absurd (cc);
    sources = λ e n h. absurd (cc);
    targets = λ e n h. absurd (cc);
    linked = record {
      outgoing_ends = λ n e m. absurd (Memᴰ.not-nil m);
      outgoing_has = λ n t e h h'. absurd (cc);
      incoming_ends = λ n e m. absurd (Memᴰ.not-nil m);
      incoming_has = λ n s e h h'. absurd (cc);
    };
  };
  with_errors = record {
    errors = λ l. (λ m. absurd (Memᴰ.not-nil m), λ (m, error). absurd (Memᴰ.not-nil m));
  };
}

new_cfa-IsWhole : (entry exit : ℕ) → entry ≢ exit → IsWhole (new_cfa entry exit)
unfolding new_cfa empty_cfa create_location add_location gazer.Support.Graph.create_node
new_cfa-IsWhole entry exit apart =
    create_location-IsWhole exit (create_location entry (empty_cfa entry exit))
      (λ m. apart (sym (Memᴰ.eq_of_singleton m))) (omega arith)
      (create_location-IsWhole entry (empty_cfa entry exit) (λ m. absurd (Memᴰ.not-nil m))
        (omega arith) (empty_cfa-IsWhole entry exit))

-- From the constructor on, with an entry and an exit at two addresses, less than 2 ^ 32 - 3 operations
-- fail an assertion or give an automaton in which each location is found by its number, below the next
-- number, each number that is given is that of a location, the transitions are between locations and are
-- in the lists of both, and the list of error locations has those that are errors; new addresses are not
-- in use, and new transitions are between locations.
pub apply_edits-IsWhole :
    (entry exit : ℕ) (edits : List Edit)
    → entry ≢ exit
    → AreAllowed edits (new_cfa entry exit)
    → length edits + 2 ≤ max_locations
    → ((a : Automaton) × (apply_edits edits (new_cfa entry exit) ≡ ok a) × IsWhole a)
      ⊎ (apply_edits edits (new_cfa entry exit) ≡ fault Fault.assertion)
unfolding IsWholeOr new_cfa create_location add_location empty_cfa
apply_edits-IsWhole entry exit edits apart allowed few =
    elim (apply_edits-IsWholeOr edits (new_cfa entry exit) (new_cfa-IsWhole entry exit apart)
      allowed (omega arith)) [
        | inl (a, made, whole, at_most) ↦ inl (a, made, whole)
        | inr failed ↦ inr failed
      ]
