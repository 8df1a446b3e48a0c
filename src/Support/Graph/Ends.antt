-- ===== src/Support/Graph/Ends.antt =====
-- Which ends of edges disconnectNode leaves (include/gazer/ADT/Graph.h).
use gazer.Base.{ℕ, ◌≡◌, ◌≢◌, sym, ap, ◌∙◌, some, ok, Memᴰ}
use gazer.Support.Graph.{Graph, clear_lists, disconnect_node}
use gazer.Support.Graph.Detach.{reversed}
use gazer.Support.Graph.Linked.{
  Linked, Isolated, detach-Isolated, Isolated-Linked, disconnect_node-runs,
}

-- An edge with both ends.
unfoldable pub Joins : Graph → (e s t : ℕ) → Type 0
Joins g e s t = (g.source_of e ≡ some s) × (g.target_of e ≡ some t)

-- The lists of the graph are as before, and the edges with both ends are those without the node.
pub record Disconnected (node : ℕ) (g next : Graph) : Type 0 where
  pub nodes_same : next.nodes ≡ g.nodes
  pub edges_same : next.edges ≡ g.edges
  pub before : (e s t : ℕ) → Joins next e s t → Joins g e s t × (s ≢ node) × (t ≢ node)
  pub kept : (e s t : ℕ) → Joins g e s t → s ≢ node → t ≢ node → Joins next e s t

Isolated-Disconnected :
    (g : Graph) (node : ℕ) (middle back : Graph)
    → Linked g
    → Isolated node g middle back
    → Disconnected node g (clear_lists node (reversed back))
unfolding reversed clear_lists Joins
Isolated-Disconnected g node middle back linked both =
    let one = both.first in
    let two = both.second in
    record {
      nodes_same = two.nodes_same ∙ one.nodes_same;
      edges_same = two.edges_same ∙ one.edges_same;
      before = λ e s t (h, h').
          let (apart, at_s) = two.target_before e s h in
          let (away, at_t) = one.target_before e t (sym (two.sources e) ∙ h') in
          let from_s = sym (one.sources e) ∙ at_s in
          (
            (from_s, at_t),
            (λ is. apart (
                one.outgoing_kept node e away
                  (linked.outgoing_has node t e (from_s ∙ ap some is) at_t))),
            (λ is. away (linked.incoming_has node s e from_s (at_t ∙ ap some is))),
          );
      kept = λ e s t (at_s, at_t) s_other t_other.
          let away : ¬ Memᴰ e (g.incoming node) =
            λ m. let (_, _, at_node) = linked.incoming_ends node e m in t_other (cc) in
          let apart : ¬ Memᴰ e (middle.outgoing node) = λ m.
            let (_, m') = one.outgoing_before node e m in
            let (_, at_node, _) = linked.outgoing_ends node e m' in s_other (cc) in
          (
            two.target_kept e apart ∙ one.sources e ∙ at_s,
            two.sources e ∙ one.target_kept e away ∙ at_t,
          );
    }

-- A node of a linked graph can be disconnected; the graph is linked then, and has lost the edges of the node.
pub disconnect_node-Disconnected :
    (g : Graph) (node : ℕ)
    → Linked g
    → (next : Graph) × (disconnect_node node g ≡ ok next) × Linked next × Disconnected node g next
disconnect_node-Disconnected g node linked =
    let (middle, back, runs, runs', both) = detach-Isolated g node linked in
    (
      clear_lists node (reversed back),
      disconnect_node-runs g node middle back runs runs',
      Isolated-Linked g node middle back linked both,
      Isolated-Disconnected g node middle back linked both,
    )
