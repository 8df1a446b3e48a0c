-- ===== src/Support/Graph/Detach.antt =====
-- The two loops of disconnectNode: what they change, the second one being the first on the reversed graph.
use gazer.Base.{
  ℕ, ◌≡◌, ◌≢◌, refl, sym, ap, ◌∙◌, inl, inr, List, [], ◌∷◌, Option, none, some, ok, ◌>>=◌, Memᴰ,
  ℕ_discrete, Fault, or_fault,
}
use gazer.Base.Memᴰ
use gazer.Support.Graph.{Graph, update, remove, detach_incoming, detach_outgoing}
use gazer.Support.Graph.Remove.{update_same, update_other, removed-mem, mem-removed}

-- Each edge from its target to its source.
unfoldable pub reversed : Graph → Graph
reversed g = record {
  nodes = g.nodes;
  edges = g.edges;
  incoming = g.outgoing;
  outgoing = g.incoming;
  source_of = g.target_of;
  target_of = g.source_of;
}

pub detach_outgoing-reversed :
    (edges : List ℕ) (g : Graph)
    → detach_outgoing edges g ≡ (detach_incoming edges (reversed g) >>= λ g'. ok (reversed g'))
unfolding detach_incoming detach_outgoing reversed
detach_outgoing-reversed [] g = refl
detach_outgoing-reversed (edge ∷ edges) g =
    elim (g.target_of edge)
      as (λ o.
        (or_fault Fault.null_pointer o >>= λ target. detach_outgoing edges (record g {
          source_of = update g.source_of edge none;
          incoming = update g.incoming target (remove edge (g.incoming target));
        }))
        ≡ ((or_fault Fault.null_pointer o >>= λ target. detach_incoming edges (
              reversed (record g {
                source_of = update g.source_of edge none;
                incoming = update g.incoming target (remove edge (g.incoming target));
              })))
            >>= λ g'. ok (reversed g'))) [
              | none ↦ refl
              | some target ↦ detach_outgoing-reversed edges _
            ]

-- An end that is there after an end has been set to null.
pub update-some :
    {A : Type 0} (f : ℕ → Option A) (a b : ℕ) (v : A)
    → update f a none b ≡ some v
    → (b ≢ a) × (f b ≡ some v)
update-some f a b v h = elim (ℕ_discrete b a) [
  | yes same ↦ absurd (cc (ap (λ k. update f a none k) same ∙ update_same f a none, h))
  | no other ↦ (other, sym (update_other f a b none other) ∙ h)
]

-- The edges have no targets any more, and are in no list of outgoing edges.
pub record Detached (edges : List ℕ) (g next : Graph) : Type 0 where
  pub nodes_same : next.nodes ≡ g.nodes
  pub edges_same : next.edges ≡ g.edges
  pub sources : (e : ℕ) → next.source_of e ≡ g.source_of e
  pub incomings : (m : ℕ) → next.incoming m ≡ g.incoming m
  pub target_before :
      (e t : ℕ) → next.target_of e ≡ some t → ¬ Memᴰ e edges × (g.target_of e ≡ some t)
  pub target_kept : (e : ℕ) → ¬ Memᴰ e edges → next.target_of e ≡ g.target_of e
  pub outgoing_before :
      (m e : ℕ) → Memᴰ e (next.outgoing m) → ¬ Memᴰ e edges × Memᴰ e (g.outgoing m)
  pub outgoing_kept : (m e : ℕ) → ¬ Memᴰ e edges → Memᴰ e (g.outgoing m) → Memᴰ e (next.outgoing m)

pub detach_incoming-Detached :
    (edges : List ℕ) (g : Graph)
    → ((e : ℕ) → Memᴰ e edges → (s : ℕ) × (g.source_of e ≡ some s))
    → ((m e : ℕ) → Memᴰ e edges → Memᴰ e (g.outgoing m) → g.source_of e ≡ some m)
    → (next : Graph) × (detach_incoming edges g ≡ ok next) × Detached edges g next
unfolding detach_incoming
detach_incoming-Detached [] g has outs = (
  g,
  refl,
  record {
    nodes_same = refl;
    edges_same = refl;
    sources = λ e. refl;
    incomings = λ m. refl;
    target_before = λ e t h. (λ m. absurd (Memᴰ.not-nil m), h);
    target_kept = λ e out. refl;
    outgoing_before = λ m e mem. (λ n. absurd (Memᴰ.not-nil n), mem);
    outgoing_kept = λ m e out mem. mem;
  },
)
detach_incoming-Detached (edge ∷ edges) g has outs =
    let (s, at_edge) = has edge (Memᴰ.head refl) in
    let only : (m : ℕ) → Memᴰ edge (g.outgoing m) → m ≡ s =
      λ m mem. let at_m = outs m edge (Memᴰ.head refl) mem in cc in
    let g' : Graph = record g {
      target_of = update g.target_of edge none;
      outgoing = update g.outgoing s (remove edge (g.outgoing s));
    } in
    let before = removed-mem g.outgoing s edge only in
    let (next, runs, rest) =
      detach_incoming-Detached edges g' (λ e m. has e (Memᴰ.tail m))
        (λ m e mem there. outs m e (Memᴰ.tail mem) ((before m e there).1)) in
    (
      next,
      (cc),
      record {
        nodes_same = rest.nodes_same;
        edges_same = rest.edges_same;
        sources = rest.sources;
        incomings = rest.incomings;
        target_before = λ e t h.
            let (away, h') = rest.target_before e t h in
            let (other, h'') = update-some g.target_of edge e t h' in
            (λ m. elim (Memᴰ.cases_cons m) [ inl is ↦ other is | inr later ↦ away later ], h'');
        target_kept = λ e out.
            rest.target_kept e (λ m. out (Memᴰ.tail m))
            ∙ update_other g.target_of edge e none (λ is. out (Memᴰ.head is));
        outgoing_before = λ m e mem.
            let (away, there) = rest.outgoing_before m e mem in
            let (other, there') = before m e there in
            (λ k. elim (Memᴰ.cases_cons k) [ inl is ↦ other is | inr later ↦ away later ], there');
        outgoing_kept = λ m e out mem.
            rest.outgoing_kept m e (λ k. out (Memᴰ.tail k))
              (mem-removed g.outgoing s edge m e (λ is. out (Memᴰ.head is)) mem);
      },
    )
