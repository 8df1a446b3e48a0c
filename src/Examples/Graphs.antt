-- ===== src/Examples/Graphs.antt =====
-- A graph with an edge that is made and disconnected, alone and with its source.
use gazer.Base.{◌≡◌, refl, [], ◌∷◌, none, ok}
use gazer.Base.Memᴰ
use gazer.Support.Graph.{Graph, create_edge, disconnect_edge, disconnect_node}
use gazer.Support.Graph.Linked.{
  Linked, create_edge-Linked, disconnect_edge-Linked, disconnect_node-Linked,
}
use gazer.Support.Graph.Cleared.{Cleared, clear_disconnected_elements-Cleared}

abbrev two_nodes : Graph
two_nodes = record {
  nodes = 0 ∷ 1 ∷ [];
  edges = [];
  incoming = λ n. [];
  outgoing = λ n. [];
  source_of = λ e. none;
  target_of = λ e. none;
}

two_nodes-Linked : Linked two_nodes
two_nodes-Linked = record {
  outgoing_ends = λ n e mem. absurd (Memᴰ.not-nil mem);
  outgoing_has = λ n t e h h'. absurd (cc);
  incoming_ends = λ n e mem. absurd (Memᴰ.not-nil mem);
  incoming_has = λ n s e h h'. absurd (cc);
}

one_edge-Linked : Linked (create_edge 7 0 1 two_nodes)
one_edge-Linked = create_edge-Linked two_nodes 7 0 1 two_nodes-Linked refl

disconnect_edge-Linked_example :
    (next : Graph) × (disconnect_edge 7 (create_edge 7 0 1 two_nodes) ≡ ok next)
    × Linked next
    × (next.source_of 7 ≡ none)
    × (next.target_of 7 ≡ none)
unfolding create_edge
disconnect_edge-Linked_example =
    disconnect_edge-Linked (create_edge 7 0 1 two_nodes) 7 0 1 one_edge-Linked refl refl

disconnect_node-Linked_example :
    (next : Graph) × (disconnect_node 0 (create_edge 7 0 1 two_nodes) ≡ ok next)
    × Linked next
    × (next.incoming 0 ≡ [])
    × (next.outgoing 0 ≡ [])
disconnect_node-Linked_example =
    disconnect_node-Linked (create_edge 7 0 1 two_nodes) 0 one_edge-Linked

clear_disconnected_elements-Cleared_example : Cleared (create_edge 7 0 1 two_nodes)
clear_disconnected_elements-Cleared_example =
    clear_disconnected_elements-Cleared (create_edge 7 0 1 two_nodes) one_edge-Linked
