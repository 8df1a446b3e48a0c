-- ===== src/Support/Graph.antt =====
-- The graph of nodes and edges (include/gazer/ADT/Graph.h) that automata are. Nodes and edges are their
-- addresses; the lists of the nodes and the ends of the edges are in the heap, and a null end is `none`.
use gazer.Base.{
  ℕ, Bool, true, false, not, ◌&&◌, ◌||◌, List, [], ◌∷◌, ◌++◌, Option, none, some, ◌==◌,
  if◌then◌else◌, Result, ok, Fault, ◌>>=◌, or_fault,
}
pub mod Remove
pub mod Detach
pub mod Linked
pub mod Cleared
pub mod Ends

pub record Graph : Type 0 where
  pub nodes : List ℕ
  pub edges : List ℕ
  pub incoming : ℕ → List ℕ
  pub outgoing : ℕ → List ℕ
  pub source_of : ℕ → Option ℕ
  pub target_of : ℕ → Option ℕ

unfoldable pub update : {A : Type 0} → (ℕ → A) → ℕ → A → ℕ → A
update f a v b = if b == a then v else f b

-- removeIncoming and removeOutgoing: std::remove and erase
unfoldable pub remove : ℕ → List ℕ → List ℕ
remove e [] = []
remove e (x ∷ xs) = let rest = remove e xs in if x == e then rest else x ∷ rest

-- createNode, with the address of the new node
unfoldable pub create_node : ℕ → Graph → Graph
unfolding update
create_node node g = record g {
  nodes = g.nodes ++ node ∷ [];
  incoming = update g.incoming node [];
  outgoing = update g.outgoing node [];
}

-- createEdge, with the address of the new edge
unfoldable pub create_edge : ℕ → ℕ → ℕ → Graph → Graph
unfolding update
create_edge edge source target g = record g {
  edges = g.edges ++ edge ∷ [];
  outgoing = update g.outgoing source (g.outgoing source ++ edge ∷ []);
  incoming = update g.incoming target (g.incoming target ++ edge ∷ []);
  source_of = update g.source_of edge (some source);
  target_of = update g.target_of edge (some target);
}

unfoldable pub disconnect_edge : ℕ → Graph → Result Graph
unfolding update remove
disconnect_edge edge g = do
  source ← or_fault Fault.null_pointer (g.source_of edge)
  target ← or_fault Fault.null_pointer (g.target_of edge)
  ok (record g {
    outgoing = update g.outgoing source (remove edge (g.outgoing source));
    incoming = update g.incoming target (remove edge (g.incoming target));
    source_of = update g.source_of edge none;
    target_of = update g.target_of edge none;
  })

-- The two loops of disconnectNode.
unfoldable pub detach_incoming : List ℕ → Graph → Result Graph
unfolding update remove
detach_incoming [] g = ok g
detach_incoming (edge ∷ edges) g = or_fault Fault.null_pointer (g.source_of edge) >>= λ source.
    detach_incoming edges (record g {
      target_of = update g.target_of edge none;
      outgoing = update g.outgoing source (remove edge (g.outgoing source));
    })

unfoldable pub detach_outgoing : List ℕ → Graph → Result Graph
unfolding update remove
detach_outgoing [] g = ok g
detach_outgoing (edge ∷ edges) g = or_fault Fault.null_pointer (g.target_of edge) >>= λ target.
    detach_outgoing edges (record g {
      source_of = update g.source_of edge none;
      incoming = update g.incoming target (remove edge (g.incoming target));
    })

unfoldable pub clear_lists : ℕ → Graph → Graph
unfolding update
clear_lists node g = record g {
  incoming = update g.incoming node [];
  outgoing = update g.outgoing node [];
}

unfoldable pub disconnect_node : ℕ → Graph → Result Graph
unfolding clear_lists detach_incoming detach_outgoing
disconnect_node node g = do
  g' ← detach_incoming (g.incoming node) g
  g'' ← detach_outgoing (g'.outgoing node) g'
  ok (clear_lists node g'')

-- clearDisconnectedElements
unfoldable pub is_empty : List ℕ → Bool
is_empty [] = true
is_empty (x ∷ xs) = false

unfoldable pub is_null : Option ℕ → Bool
is_null none = true
is_null (some n) = false

unfoldable pub remove_if : (ℕ → Bool) → List ℕ → List ℕ
remove_if test [] = []
remove_if test (x ∷ xs) = let rest = remove_if test xs in if test x then rest else x ∷ rest

unfoldable pub clear_disconnected_elements : Graph → Graph
unfolding is_empty is_null remove_if
clear_disconnected_elements g = record g {
  nodes = remove_if (λ n. is_empty (g.incoming n) && is_empty (g.outgoing n)) g.nodes;
  edges = remove_if (λ e. is_null (g.source_of e) || is_null (g.target_of e)) g.edges;
}
