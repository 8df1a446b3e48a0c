-- ===== src/Support/Graph/Linked.antt =====
-- The lists of the nodes and the ends of the edges agree.
use gazer.Base.{
  ℕ, ◌≡◌, ◌≢◌, sym, ap, ◌∙◌, subst, inl, inr, ◌⊎◌, List, [], ◌∷◌, ◌++◌, none, some, ok, ◌>>=◌, Memᴰ,
  ℕ_discrete,
}
use gazer.Base.Memᴰ
use gazer.Support.Graph.{
  Graph, update, remove, create_edge, disconnect_edge, detach_incoming, detach_outgoing,
  disconnect_node, clear_lists,
}
use gazer.Support.Graph.Remove.{
  update_same, update_other, removed-mem, mem-removed, added-mem, mem-added_last, mem-added,
}
use gazer.Support.Graph.Detach.{
  reversed, detach_outgoing-reversed, update-some, Detached, detach_incoming-Detached,
}

-- An edge is in the list of its source, and in that of its target, exactly where it has both.
pub record Linked (g : Graph) : Type 0 where
  pub outgoing_ends :
      (n e : ℕ)
      → Memᴰ e (g.outgoing n)
      → (t : ℕ) × (g.source_of e ≡ some n) × (g.target_of e ≡ some t)
  pub outgoing_has :
      (n t e : ℕ) → g.source_of e ≡ some n → g.target_of e ≡ some t → Memᴰ e (g.outgoing n)
  pub incoming_ends :
      (n e : ℕ)
      → Memᴰ e (g.incoming n)
      → (s : ℕ) × (g.source_of e ≡ some s) × (g.target_of e ≡ some n)
  pub incoming_has :
      (n s e : ℕ) → g.source_of e ≡ some s → g.target_of e ≡ some n → Memᴰ e (g.incoming n)

-- An edge with both ends of a linked graph can be disconnected; then it has no ends, and the graph is linked.
pub disconnect_edge-Linked :
    (g : Graph) (edge s t : ℕ)
    → Linked g
    → g.source_of edge ≡ some s
    → g.target_of edge ≡ some t
    → (next : Graph) × (disconnect_edge edge g ≡ ok next)
      × Linked next
      × (next.source_of edge ≡ none)
      × (next.target_of edge ≡ none)
unfolding disconnect_edge
disconnect_edge-Linked g edge s t linked at_s at_t =
    let only_s : (m : ℕ) → Memᴰ edge (g.outgoing m) → m ≡ s =
      λ m mem. let (_, is, _) = linked.outgoing_ends m edge mem in cc in
    let only_t : (m : ℕ) → Memᴰ edge (g.incoming m) → m ≡ t =
      λ m mem. let (_, _, is) = linked.incoming_ends m edge mem in cc in
    let next : Graph = record g {
      outgoing = update g.outgoing s (remove edge (g.outgoing s));
      incoming = update g.incoming t (remove edge (g.incoming t));
      source_of = update g.source_of edge none;
      target_of = update g.target_of edge none;
    } in
    (
      next,
      (cc),
      record {
        outgoing_ends = λ n e mem.
            let (other, there) = removed-mem g.outgoing s edge only_s n e mem in
            let (u, at_n, at_u) = linked.outgoing_ends n e there in
            (
              u,
              update_other g.source_of edge e none other ∙ at_n,
              update_other g.target_of edge e none other ∙ at_u,
            );
        outgoing_has = λ n u e h h'.
            let (other, at_n) = update-some g.source_of edge e n h in
            let (_, at_u) = update-some g.target_of edge e u h' in
            mem-removed g.outgoing s edge n e other (linked.outgoing_has n u e at_n at_u);
        incoming_ends = λ n e mem.
            let (other, there) = removed-mem g.incoming t edge only_t n e mem in
            let (u, at_u, at_n) = linked.incoming_ends n e there in
            (
              u,
              update_other g.source_of edge e none other ∙ at_u,
              update_other g.target_of edge e none other ∙ at_n,
            );
        incoming_has = λ n u e h h'.
            let (other, at_u) = update-some g.source_of edge e u h in
            let (_, at_n) = update-some g.target_of edge e n h' in
            mem-removed g.incoming t edge n e other (linked.incoming_has n u e at_u at_n);
      },
      update_same g.source_of edge none,
      update_same g.target_of edge none,
    )

-- Both loops of disconnectNode.
pub record Isolated (node : ℕ) (g middle back : Graph) : Type 0 where
  pub first : Detached (g.incoming node) g middle
  pub second : Detached (middle.outgoing node) (reversed middle) back

pub detach-Isolated :
    (g : Graph) (node : ℕ)
    → Linked g
    → (middle back : Graph) × (detach_incoming (g.incoming node) g ≡ ok middle)
      × (detach_outgoing (middle.outgoing node) middle ≡ ok (reversed back))
      × Isolated node g middle back
unfolding reversed
detach-Isolated g node linked =
    let (middle, runs, first) =
      detach_incoming-Detached (g.incoming node) g
        (λ e mem. let (s, at_s, _) = linked.incoming_ends node e mem in (s, at_s))
        (λ m e mem there. let (_, at_m, _) = linked.outgoing_ends m e there in at_m) in
    let (back, runs', second) =
      detach_incoming-Detached (middle.outgoing node) (reversed middle)
        (λ e mem.
          let (away, there) = first.outgoing_before node e mem in
          let (t, _, at_t) = linked.outgoing_ends node e there in
          (t, first.target_kept e away ∙ at_t))
        (λ m e mem there.
          let (away, _) = first.outgoing_before node e mem in
          let (_, _, at_m) =
            linked.incoming_ends m e (subst (λ xs. Memᴰ e xs) (first.incomings m) there) in
          first.target_kept e away ∙ at_m) in
    (
      middle,
      back,
      runs,
      detach_outgoing-reversed (middle.outgoing node) middle
          ∙ ap (λ r. r >>= λ g'. ok (reversed g')) runs',
      record { first = first; second = second },
    )

update-mem :
    (lists : ℕ → List ℕ) (a b x : ℕ) → Memᴰ x (update lists a [] b) → (b ≢ a) × Memᴰ x (lists b)
update-mem lists a b x mem = elim (ℕ_discrete b a) [
  | yes same ↦ absurd (
      Memᴰ.not-nil
        (subst (λ xs. Memᴰ x xs) (ap (λ k. update lists a [] k) same ∙ update_same lists a []) mem))
  | no other ↦ (other, subst (λ xs. Memᴰ x xs) (update_other lists a b [] other) mem)
]

mem-update :
    (lists : ℕ → List ℕ) (a b x : ℕ) → b ≢ a → Memᴰ x (lists b) → Memᴰ x (update lists a [] b)
mem-update lists a b x other mem =
    subst (λ xs. Memᴰ x xs) (sym (update_other lists a b [] other)) mem

-- The graph after the loops, with the node's lists cleared.
pub Isolated-Linked :
    (g : Graph) (node : ℕ) (middle back : Graph)
    → Linked g
    → Isolated node g middle back
    → Linked (clear_lists node (reversed back))
unfolding reversed clear_lists
Isolated-Linked g node middle back linked both =
    let one = both.first in
    let two = both.second in
    record {
      outgoing_ends = λ m e mem.
          let (other, there) = update-mem back.incoming node m e mem in
          let there' = subst (λ xs. Memᴰ e xs) (two.incomings m) there in
          let (away, there'') = one.outgoing_before m e there' in
          let (t, at_m, at_t) = linked.outgoing_ends m e there'' in
          let apart : ¬ Memᴰ e (middle.outgoing node) = λ k.
            let (_, k') = one.outgoing_before node e k in
            let (_, at_node, _) = linked.outgoing_ends node e k' in other (cc) in
          (
            t,
            two.target_kept e apart ∙ one.sources e ∙ at_m,
            two.sources e ∙ one.target_kept e away ∙ at_t,
          );
      outgoing_has = λ m t e h h'.
          let (apart, at_m) = two.target_before e m h in
          let (away, at_t) = one.target_before e t (sym (two.sources e) ∙ h') in
          let there = linked.outgoing_has m t e (sym (one.sources e) ∙ at_m) at_t in
          let kept = one.outgoing_kept m e away there in
          mem-update back.incoming node m e
            (λ is. apart (subst (λ k. Memᴰ e (middle.outgoing k)) is kept))
            (subst (λ xs. Memᴰ e xs) (sym (two.incomings m)) kept);
      incoming_ends = λ m e mem.
          let (other, there) = update-mem back.outgoing node m e mem in
          let (apart, there') = two.outgoing_before m e there in
          let there'' = subst (λ xs. Memᴰ e xs) (one.incomings m) there' in
          let (s, at_s, at_m) = linked.incoming_ends m e there'' in
          let away : ¬ Memᴰ e (g.incoming node) =
            λ k. let (_, _, at_node) = linked.incoming_ends node e k in other (cc) in
          (
            s,
            two.target_kept e apart ∙ one.sources e ∙ at_s,
            two.sources e ∙ one.target_kept e away ∙ at_m,
          );
      incoming_has = λ m s e h h'.
          let (apart, at_s) = two.target_before e s h in
          let (away, at_m) = one.target_before e m (sym (two.sources e) ∙ h') in
          let there = linked.incoming_has m s e (sym (one.sources e) ∙ at_s) at_m in
          mem-update back.outgoing node m e
            (λ is. away (subst (λ k. Memᴰ e (g.incoming k)) is there))
            (two.outgoing_kept m e apart (subst (λ xs. Memᴰ e xs) (sym (one.incomings m)) there));
    }

-- What the loops give is what disconnectNode gives.
pub disconnect_node-runs :
    (g : Graph) (node : ℕ) (middle back : Graph)
    → detach_incoming (g.incoming node) g ≡ ok middle
    → detach_outgoing (middle.outgoing node) middle ≡ ok (reversed back)
    → disconnect_node node g ≡ ok (clear_lists node (reversed back))
unfolding disconnect_node
disconnect_node-runs g node middle back runs runs' =
    ap
      (λ r. r >>= λ (g' : Graph).
        detach_outgoing (g'.outgoing node) g' >>= λ (g'' : Graph). ok (clear_lists node g''))
      runs
    ∙ ap (λ r. r >>= λ (g'' : Graph). ok (clear_lists node g'')) runs'

-- A node of a linked graph can be disconnected; then its lists are empty, and the graph is linked.
pub disconnect_node-Linked :
    (g : Graph) (node : ℕ)
    → Linked g
    → (next : Graph) × (disconnect_node node g ≡ ok next)
      × Linked next
      × (next.incoming node ≡ [])
      × (next.outgoing node ≡ [])
unfolding clear_lists
disconnect_node-Linked g node linked =
    let (middle, back, runs, runs', both) = detach-Isolated g node linked in
    (
      clear_lists node (reversed back),
      disconnect_node-runs g node middle back runs runs',
      Isolated-Linked g node middle back linked both,
      update_same ((reversed back).incoming) node [],
      update_same ((reversed back).outgoing) node [],
    )

-- Both ends of an edge after the new edge is made.
ends-created :
    (g : Graph) (edge s t e n u : ℕ)
    → e ≢ edge
    → g.source_of e ≡ some n
    → g.target_of e ≡ some u
    → ((create_edge edge s t g).source_of e ≡ some n)
      × ((create_edge edge s t g).target_of e ≡ some u)
unfolding create_edge
ends-created g edge s t e n u other h h' = (
  update_other g.source_of edge e (some s) other ∙ h,
  update_other g.target_of edge e (some t) other ∙ h',
)

created-ends :
    (g : Graph) (edge s t e n u : ℕ)
    → (create_edge edge s t g).source_of e ≡ some n
    → (create_edge edge s t g).target_of e ≡ some u
    → ((e ≡ edge) × (n ≡ s) × (u ≡ t)) ⊎ ((g.source_of e ≡ some n) × (g.target_of e ≡ some u))
unfolding create_edge
created-ends g edge s t e n u h h' = elim (ℕ_discrete e edge) [
  | yes same ↦
      let at_s =
        ap (λ k. update g.source_of edge (some s) k) same ∙ update_same g.source_of edge (some s) in
      let at_t =
        ap (λ k. update g.target_of edge (some t) k) same ∙ update_same g.target_of edge (some t) in
      inl (same, (cc), (cc))
  | no other ↦ inr (
    sym (update_other g.source_of edge e (some s) other) ∙ h,
    sym (update_other g.target_of edge e (some t) other) ∙ h',
  )
]

-- A linked graph stays linked with a new edge at an address that has no source.
pub create_edge-Linked :
    (g : Graph) (edge s t : ℕ)
    → Linked g
    → g.source_of edge ≡ none
    → Linked (create_edge edge s t g)
unfolding create_edge
create_edge-Linked g edge s t linked no_s =
    let apart : (e n : ℕ) → g.source_of e ≡ some n → e ≢ edge =
      λ e n h is. let at_edge = ap g.source_of is in absurd (cc (h, at_edge, no_s)) in
    let new_s = update_same g.source_of edge (some s) in
    let new_t = update_same g.target_of edge (some t) in
    record {
      outgoing_ends = λ n e mem. elim (added-mem g.outgoing s edge n e mem) [
        | inl (is_s, is_edge) ↦ (
          t,
          ap (update g.source_of edge (some s)) is_edge ∙ new_s ∙ ap (λ k. some k) (sym is_s),
          ap (update g.target_of edge (some t)) is_edge ∙ new_t,
        )
        | inr old ↦
            let (u, at_n, at_u) = linked.outgoing_ends n e old in
            let (h, h') = ends-created g edge s t e n u (apart e n at_n) at_n at_u in (u, h, h')
      ];
      outgoing_has = λ n u e h h'. elim (created-ends g edge s t e n u h h') [
        | inl (is_edge, is_s, _) ↦
            subst (λ k. Memᴰ k (update g.outgoing s (g.outgoing s ++ edge ∷ []) n)) (sym is_edge)
              (subst (λ m. Memᴰ edge (update g.outgoing s (g.outgoing s ++ edge ∷ []) m)) (sym is_s)
                (mem-added_last g.outgoing s edge))
        | inr (at_n, at_u) ↦ mem-added g.outgoing s edge n e (linked.outgoing_has n u e at_n at_u)
      ];
      incoming_ends = λ n e mem. elim (added-mem g.incoming t edge n e mem) [
        | inl (is_t, is_edge) ↦ (
          s,
          ap (update g.source_of edge (some s)) is_edge ∙ new_s,
          ap (update g.target_of edge (some t)) is_edge ∙ new_t ∙ ap (λ k. some k) (sym is_t),
        )
        | inr old ↦
            let (u, at_u, at_n) = linked.incoming_ends n e old in
            let (h, h') = ends-created g edge s t e u n (apart e u at_u) at_u at_n in (u, h, h')
      ];
      incoming_has = λ n u e h h'. elim (created-ends g edge s t e u n h h') [
        | inl (is_edge, _, is_t) ↦
            subst (λ k. Memᴰ k (update g.incoming t (g.incoming t ++ edge ∷ []) n)) (sym is_edge)
              (subst (λ m. Memᴰ edge (update g.incoming t (g.incoming t ++ edge ∷ []) m)) (sym is_t)
                (mem-added_last g.incoming t edge))
        | inr (at_u, at_n) ↦ mem-added g.incoming t edge n e (linked.incoming_has n u e at_u at_n)
      ];
    }
