-- ===== src/Automaton/Cfa.antt =====
-- The data of automata (include/gazer/Automaton/Cfa.h): transitions with their guard, and assignments
-- or a call. A location is its address, a number, and the edges of the locations are in the heap.
use gazer.Base.{ℕ, List, ◌≡◌, refl, ◌⊎◌, inl, inr}
use gazer.Core.Expr.{Expr, Variable}

-- VariableAssignment
pub record VariableAssignment : Type 0 where
  pub variable : Variable
  pub value : Expr

-- AssignTransition and CallTransition; the callee is the address of its automaton.
pub data EdgeKind : Type 0 where
  assign_edge : List VariableAssignment → EdgeKind
  call_edge : (callee : ℕ) (inputs outputs : List VariableAssignment) → EdgeKind

pub EdgeKind-cases :
    (k : EdgeKind)
    → ((assignments : List VariableAssignment) × (k ≡ assign_edge assignments))
      ⊎ ((callee : ℕ) × (inputs : List VariableAssignment) × (outputs : List VariableAssignment)
          × (k ≡ call_edge callee inputs outputs))
EdgeKind-cases (assign_edge assignments) = inl (assignments, refl)
EdgeKind-cases (call_edge callee inputs outputs) = inr (callee, inputs, outputs, refl)

pub record Transition : Type 0 where
  pub source : ℕ
  pub target : ℕ
  pub guard : Expr
  pub kind : EdgeKind

-- An automaton: its address, its exit location, and its transitions.
pub record Cfa : Type 0 where
  pub address : ℕ
  pub exit : ℕ
  pub transitions : List Transition
