-- ===== src/Automaton/Build.antt =====
-- The construction of automata (src/Automaton/Cfa.cpp): locations and transitions with their tables.
-- Locations and transitions are their addresses, which the operations take; the graph is `Support.Graph`.
use gazer.Base.{
  ◌+◌, ◌%◌, unsigned_size, ℕ, suc, List, [], ◌∷◌, ◌++◌, Option, none, some, Bool, true, false, ◌==◌,
  if◌then◌else◌, length, Result, ok, fault, Fault, ◌>>=◌, ◌>>◌, require, or_fault,
}
use gazer.Core.Ty.{is_bool_type}
use gazer.Core.Literal.{bool_lit}
use gazer.Core.Expr.{Expr, type_of}
use gazer.Support.Graph.{Graph, update, create_node, create_edge}
use gazer.Automaton.Cfa.{VariableAssignment, EdgeKind, assign_edge, call_edge}
pub mod Numbers
pub mod Edits

pub record Automaton : Type 0 where
  pub graph : Graph
  -- mID and mKind of the locations, in the heap
  pub id_of : ℕ → ℕ
  pub is_error : ℕ → Bool
  -- mLocationIdx, mLocationNumbers, mErrorLocations, mErrorFieldExprs
  pub location_idx : ℕ
  pub location_numbers : ℕ → Option ℕ
  pub error_locations : List ℕ
  pub error_fields : ℕ → Option Expr
  -- the guards and the kinds of the transitions, in the heap
  pub guard_of : ℕ → Option Expr
  pub kind_of : ℕ → Option EdgeKind
  pub entry : ℕ
  pub exit : ℕ

-- What createLocation and createErrorLocation share: a location of the kind, with the next number, an
-- `unsigned` that wraps around.
unfoldable pub add_location : ℕ → Bool → Automaton → Automaton
unfolding create_node update
add_location loc error a = record a {
  graph = create_node loc a.graph;
  id_of = update a.id_of loc a.location_idx;
  is_error = update a.is_error loc error;
  location_idx = (a.location_idx + 1) % unsigned_size;
  location_numbers = update a.location_numbers a.location_idx (some loc);
}

unfoldable pub create_location : ℕ → Automaton → Automaton
unfolding add_location
create_location loc a = add_location loc false a

unfoldable pub create_error_location : ℕ → Automaton → Automaton
unfolding add_location
create_error_location loc a =
    let made = add_location loc true a in
    record made { error_locations = made.error_locations ++ loc ∷ [] }

-- findLocationById: `lookup` gives a null pointer for a missing key
unfoldable pub find_location_by_id : ℕ → Automaton → Option ℕ
find_location_by_id id a = a.location_numbers id

-- The members before the constructor's body, but for the entry and the exit that it sets.
unfoldable pub empty_cfa : ℕ → ℕ → Automaton
empty_cfa entry exit = record {
  graph = record {
    nodes = [];
    edges = [];
    incoming = λ n. [];
    outgoing = λ n. [];
    source_of = λ e. none;
    target_of = λ e. none;
  };
  id_of = λ l. 0;
  is_error = λ l. false;
  location_idx = 0;
  location_numbers = λ i. none;
  error_locations = [];
  error_fields = λ l. none;
  guard_of = λ e. none;
  kind_of = λ e. none;
  entry = entry;
  exit = exit;
}

unfoldable pub new_cfa : ℕ → ℕ → Automaton
unfolding create_location empty_cfa
new_cfa entry exit = create_location exit (create_location entry (empty_cfa entry exit))

-- The new edge in the graph, with its guard and kind.
unfoldable pub connect : ℕ → ℕ → ℕ → Expr → EdgeKind → Automaton → Automaton
unfolding create_edge update
connect edge source target guard kind a = record a {
  graph = create_edge edge source target a.graph;
  guard_of = update a.guard_of edge (some guard);
  kind_of = update a.kind_of edge (some kind);
}

-- The constructor of Transition, and what both methods do with the new edge.
unfoldable pub add_transition : ℕ → ℕ → ℕ → Expr → EdgeKind → Automaton → Result Automaton
unfolding connect
add_transition edge source target guard kind a =
    require (is_bool_type (type_of guard)) >> ok (connect edge source target guard kind a)

abbrev true_guard : Expr
true_guard = Expr.literal (bool_lit true)

-- `guard == nullptr`
unfoldable pub guard_or_true : Option Expr → Expr
guard_or_true none = true_guard
guard_or_true (some guard) = guard

unfoldable pub create_assign_transition :
    ℕ → ℕ → ℕ → Option Expr → List VariableAssignment → Automaton → Result Automaton
unfolding add_transition guard_or_true
create_assign_transition edge source target guard assignments a =
    add_transition edge source target (guard_or_true guard) (assign_edge assignments) a

-- The constructor of CallTransition compares the numbers of inputs and of outputs with the callee's.
unfoldable pub create_call_transition :
    ℕ
    → ℕ
    → ℕ
    → Expr
    → (callee callee_inputs callee_outputs : ℕ) → (inputs outputs : List VariableAssignment)
    → Automaton
    → Result Automaton
unfolding add_transition
create_call_transition edge source target guard callee callee_inputs callee_outputs inputs outputs
      a =
    do
      next ← add_transition edge source target guard (call_edge callee inputs outputs) a
      require (callee_inputs == length inputs)
      require (callee_outputs == length outputs)
      ok next

unfoldable pub add_error_code : ℕ → Expr → Automaton → Result Automaton
unfolding update
add_error_code loc code a =
    require (a.is_error loc)
    >> ok (record a { error_fields = update a.error_fields loc (some code) })

unfoldable pub get_error_field_expr : ℕ → Automaton → Result Expr
get_error_field_expr loc a =
    require (a.is_error loc) >> or_fault Fault.assertion (a.error_fields loc)
