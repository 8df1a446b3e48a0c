-- ===== src/Examples/Removal.antt =====
-- An edge from the entry 0 to 1, and one from 2, which cannot be reached, to 1.
use gazer.Base.{
  ℕ, ◌≡◌, ◌↔◌, refl, sym, ap, ◌∙◌, subst, inl, inr, ◌⊎◌, true, [], ◌∷◌, none, some, ok, ltb,
  ℕ_discrete, Memᴰ, arith,
}
use gazer.Base.Memᴰ
use gazer.Support.Graph.{Graph, update, create_edge}
use gazer.Support.Graph.Remove.{update_other}
use gazer.Support.Graph.Linked.{Linked, create_edge-Linked}
use gazer.Support.Graph.Ends.{Joins}
use gazer.Automaton.Unreachable.{remove_unreachable_locations}
use gazer.Automaton.Unreachable.Reached.{
  Reachable, at_entry, along, Searched, LiveEdge, remove_unreachable_locations-Reachable,
}

abbrev three_nodes : Graph
three_nodes = record {
  nodes = 0 ∷ 1 ∷ 2 ∷ [];
  edges = [];
  incoming = λ n. [];
  outgoing = λ n. [];
  source_of = λ e. none;
  target_of = λ e. none;
}

abbrev two_edges : Graph
two_edges = create_edge 8 2 1 (create_edge 7 0 1 three_nodes)

three_nodes-Linked : Linked three_nodes
three_nodes-Linked = record {
  outgoing_ends = λ n e mem. absurd (Memᴰ.not-nil mem);
  outgoing_has = λ n t e h h'. absurd (cc);
  incoming_ends = λ n e mem. absurd (Memᴰ.not-nil mem);
  incoming_has = λ n s e h h'. absurd (cc);
}

two_edges-Linked : Linked two_edges
unfolding create_edge
two_edges-Linked =
    create_edge-Linked (create_edge 7 0 1 three_nodes) 8 2 1
      (create_edge-Linked three_nodes 7 0 1 three_nodes-Linked refl) refl

joined_by : (e s t : ℕ) → Joins two_edges e s t → ((s ≡ 0) ⊎ (s ≡ 2)) × (t ≡ 1)
unfolding Joins create_edge
joined_by e s t (at_s, at_t) = elim (ℕ_discrete e 8) [
  | yes is ↦
      let source : some 2 ≡ some s = sym (ap two_edges.source_of is) ∙ at_s in
      let target : some 1 ≡ some t = sym (ap two_edges.target_of is) ∙ at_t in
      let same_s : 2 ≡ s = cc in let same_t : 1 ≡ t = cc in (inr (sym same_s), sym same_t)
  | no other ↦ elim (ℕ_discrete e 7) [
    | yes is ↦
        let source : some 0 ≡ some s = sym (ap two_edges.source_of is) ∙ at_s in
        let target : some 1 ≡ some t = sym (ap two_edges.target_of is) ∙ at_t in
        let same_s : 0 ≡ s = cc in let same_t : 1 ≡ t = cc in (inl (sym same_s), sym same_t)
    | no neither ↦
        let nothing : two_edges.source_of e ≡ none =
          update_other (update (λ k. none) 7 (some 0)) 8 e (some 2) other
          ∙ update_other (λ k. none) 7 e (some 0) neither in
        absurd (cc (nothing, at_s))
  ]
]

reached-visited : (n : ℕ) → Reachable two_edges 0 n → ltb n 2 ≡ true
reached-visited _ at_entry = refl
reached-visited _ (along e s t reached joins) =
    let (_, is) = joined_by e s t joins in ap (λ k. ltb k 2) is

visited-reached : (n : ℕ) → ltb n 2 ≡ true → Reachable two_edges 0 n
unfolding Joins create_edge
visited-reached n below = elim (ℕ_discrete n 0) [
  | yes is ↦ subst (λ k. Reachable two_edges 0 k) (sym is) at_entry
  | no other ↦
      let is : n ≡ 1 = ground arith in
      subst (λ k. Reachable two_edges 0 k) (sym is) (along 7 0 1 at_entry (refl, refl))
]

two_edges-Searched : Searched (λ n. ltb n 2) two_edges 0
unfolding create_edge
two_edges-Searched = record {
  listed_ends = λ e s t joins.
      let (sources, target) = joined_by e s t joins in
      (
        elim sources [ inl is ↦ Memᴰ.head is | inr is ↦ Memᴰ.tail (Memᴰ.tail (Memᴰ.head is)) ],
        Memᴰ.tail (Memᴰ.head target),
      );
  visits = λ n. (visited-reached n, reached-visited n);
}

remove_unreachable_locations-Reachable_example :
    (next : Graph) × (remove_unreachable_locations (λ n. ltb n 2) two_edges ≡ ok next)
    × Linked next
    × ((e s t : ℕ) → Joins next e s t ↔ LiveEdge two_edges 0 e s t)
    × ((n : ℕ)
        → Memᴰ n next.nodes ↔ (
            Memᴰ n two_edges.nodes
            × Reachable two_edges 0 n
            × ((e s t : ℕ) × LiveEdge two_edges 0 e s t × ((s ≡ n) ⊎ (t ≡ n)))))
    × ((e : ℕ)
        → Memᴰ e next.edges ↔ (Memᴰ e two_edges.edges × ((s t : ℕ) × LiveEdge two_edges 0 e s t)))
remove_unreachable_locations-Reachable_example =
    remove_unreachable_locations-Reachable (λ n. ltb n 2) two_edges 0 two_edges-Searched
      two_edges-Linked
