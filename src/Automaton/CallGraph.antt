-- ===== src/Automaton/CallGraph.antt =====
-- The call graph (include/gazer/Automaton/CallGraph.h, src/Automaton/CallGraph.cpp): a node for each
-- automaton of the system, by its address, and the test for tail recursion.
use gazer.Base.{
  ℕ, Bool, true, false, not, List, [], ◌∷◌, ◌++◌, Option, none, some, ◌==◌, if◌then◌else◌, Result,
  fault, ok, Fault, ◌>>=◌, or_fault,
}
use gazer.Automaton.Cfa.{Transition, EdgeKind, assign_edge, call_edge, Cfa}
pub mod Added
pub mod Calls

-- CallGraph::Node: the call sites are the edge and the address of the called automaton.
pub record Node : Type 0 where
  pub calls_to_others : List (Transition × ℕ)
  pub calls_to_this : List Transition

-- mNodes; a missing node is a null pointer.
abbrev pub Nodes : Type 0
Nodes = ℕ → Option Node

unfoldable pub put : ℕ → Node → Nodes → Nodes
put address node nodes other = if other == address then some node else nodes other

unfoldable pub find : ℕ → Nodes → Result Node
find address nodes = or_fault Fault.null_pointer (nodes address)

-- Node::addCall on the node of the caller, which asserts that there is a node of the callee.
unfoldable pub add_call : ℕ → Transition → ℕ → Nodes → Result Nodes
unfolding find put
add_call caller edge callee nodes = do
  _ ← or_fault Fault.assertion (nodes callee)
  from ← find caller nodes
  let nodes' =
      put caller
        (record {
          calls_to_others = from.calls_to_others ++ (edge, callee) ∷ [];
          calls_to_this = from.calls_to_this;
        })
        nodes
  to ← find callee nodes'
  ok (
      put callee
        (record {
          calls_to_others = to.calls_to_others;
          calls_to_this = to.calls_to_this ++ edge ∷ [];
        })
        nodes')

-- The loop over the edges of an automaton.
unfoldable pub add_calls : ℕ → List Transition → Nodes → Result Nodes
unfolding add_call
add_calls caller [] nodes = ok nodes
add_calls caller (edge ∷ edges) nodes = elim edge.kind [
  | assign_edge assignments ↦ add_calls caller edges nodes
  | call_edge callee inputs outputs ↦
      add_call caller edge callee nodes >>= λ next. add_calls caller edges next
]

-- The first loop of the constructor.
unfoldable pub create_nodes : List Cfa → Nodes
unfolding put
create_nodes [] address = none
create_nodes (cfa ∷ system) address =
    put cfa.address (record { calls_to_others = []; calls_to_this = [] }) (create_nodes system)
      address

-- The second one.
unfoldable pub fill_nodes : List Cfa → Nodes → Result Nodes
unfolding add_calls
fill_nodes [] nodes = ok nodes
fill_nodes (cfa ∷ system) nodes =
    add_calls cfa.address cfa.transitions nodes >>= λ next. fill_nodes system next

unfoldable pub create_call_graph : List Cfa → Result Nodes
unfolding create_nodes fill_nodes
create_call_graph system = fill_nodes system (create_nodes system)

-- The loop of isTailRecursive, which stops at the first call that is not before the exit.
unfoldable pub tail_loop : ℕ → ℕ → List (Transition × ℕ) → Bool → Bool
tail_loop self exit [] is_recursive = is_recursive
tail_loop self exit ((edge, callee) ∷ calls) is_recursive = elim (callee == self) [
  | false ↦ tail_loop self exit calls is_recursive
  | true ↦ elim (edge.target == exit) [ false ↦ false | true ↦ tail_loop self exit calls true ]
]

unfoldable pub is_tail_recursive : Nodes → Cfa → Result Bool
unfolding find tail_loop
is_tail_recursive nodes cfa = do
  node ← find cfa.address nodes
  ok (tail_loop cfa.address cfa.exit node.calls_to_others false)
