-- ===== src/Automaton/CallGraph/Added.antt =====
-- What addCall adds to the nodes of the call graph.
use gazer.Base.{
  ℕ, ◌≡◌, ◌≢◌, refl, sym, ap, ◌∙◌, subst, inl, inr, Bool-cases, List, [], ◌∷◌, ◌++◌, none, some,
  ◌==◌, ==_iff, if◌then◌else◌, ok, Memᴰ,
}
use mathlib.Core.List.{append_assoc, append-nil}
use gazer.Automaton.Cfa.{Transition, assign_edge, call_edge, VariableAssignment, EdgeKind-cases}
use gazer.Automaton.CallGraph.{Node, Nodes, put, find, add_call, add_calls}

-- The calls among edges, with the automata that they call.
unfoldable pub calls_of : List Transition → List (Transition × ℕ)
calls_of [] = []
calls_of (edge ∷ edges) = elim edge.kind [
  | assign_edge assignments ↦ calls_of edges
  | call_edge callee inputs outputs ↦ (edge, callee) ∷ calls_of edges
]

-- Every automaton of the system has a node.
unfoldable pub Known : List ℕ → Nodes → Type 0
Known addresses nodes = (a : ℕ) → Memᴰ a addresses → (node : Node) × (nodes a ≡ some node)

-- The calls of the node at an address.
unfoldable pub others : Nodes → ℕ → List (Transition × ℕ)
others nodes a = elim (nodes a) [ none ↦ [] | some node ↦ node.calls_to_others ]

pub record Added (addresses : List ℕ) (caller : ℕ) (calls : List (Transition × ℕ))
    (nodes next : Nodes) : Type 0 where
  pub known : Known addresses next
  pub own : others next caller ≡ others nodes caller ++ calls
  pub others_same : (a : ℕ) → a ≢ caller → others next a ≡ others nodes a

pub put_self : (a : ℕ) (node : Node) (nodes : Nodes) → put a node nodes a ≡ some node
unfolding put
put_self a node nodes = ap (λ b. if b then some node else nodes a) ((==_iff a a).1 refl)

pub put_other : (a b : ℕ) (node : Node) (nodes : Nodes) → b ≢ a → put a node nodes b ≡ nodes b
unfolding put
put_other a b node nodes other = elim (Bool-cases (b == a)) [
  | inl t ↦ absurd (other ((==_iff b a).0 t))
  | inr f ↦ ap (λ c. if c then some node else nodes b) f
]

pub Known-put :
    (addresses : List ℕ) (a : ℕ) (node : Node) (nodes : Nodes)
    → Known addresses nodes
    → Known addresses (put a node nodes)
unfolding Known
Known-put addresses a node nodes known b mem = elim (Bool-cases (b == a)) [
  | inl t ↦ (node, ap (λ c. put a node nodes c) ((==_iff b a).0 t) ∙ put_self a node nodes)
  | inr f ↦
      let (other, at_b) = known b mem in
      (other, put_other a b node nodes (λ e. absurd (cc (f, (==_iff b a).1 e))) ∙ at_b)
]

pub others-at :
    (a : ℕ) (node : Node) (nodes : Nodes)
    → nodes a ≡ some node
    → others nodes a ≡ node.calls_to_others
unfolding others
others-at a node nodes h = cc

pub others-put_other :
    (a b : ℕ) (node : Node) (nodes : Nodes) → b ≢ a → others (put a node nodes) b ≡ others nodes b
unfolding others
others-put_other a b node nodes other = let same = put_other a b node nodes other in cc

-- A node with the same calls in the place of another.
pub others-put_same :
    (a : ℕ) (node : Node) (nodes : Nodes)
    → node.calls_to_others ≡ others nodes a
    → (b : ℕ) → others (put a node nodes) b ≡ others nodes b
others-put_same a node nodes same b = elim (Bool-cases (b == a)) [
  | inl t ↦
      let is = (==_iff b a).0 t in
      ap (λ c. others (put a node nodes) c) is
      ∙ others-at a node (put a node nodes) (put_self a node nodes)
      ∙ same
      ∙ ap (λ c. others nodes c) (sym is)
  | inr f ↦ others-put_other a b node nodes (λ e. absurd (cc (f, (==_iff b a).1 e)))
]

pub add_call-runs :
    (caller : ℕ) (edge : Transition) (callee : ℕ) (nodes : Nodes) (to0 from to : Node)
    → nodes callee ≡ some to0
    → nodes caller ≡ some from
    → put caller
        (record {
          calls_to_others = from.calls_to_others ++ (edge, callee) ∷ [];
          calls_to_this = from.calls_to_this;
        })
        nodes
        callee
      ≡ some to
    → add_call caller edge callee nodes
      ≡ ok (
          put callee
            (record {
              calls_to_others = to.calls_to_others;
              calls_to_this = to.calls_to_this ++ edge ∷ [];
            })
            (put caller
              (record {
                calls_to_others = from.calls_to_others ++ (edge, callee) ∷ [];
                calls_to_this = from.calls_to_this;
              })
              nodes))
unfolding add_call find
add_call-runs caller edge callee nodes to0 from to h0 h1 h2 = cc

pub add_call-Added :
    (addresses : List ℕ) (caller : ℕ) (edge : Transition) (callee : ℕ) (nodes : Nodes)
    → Known addresses nodes
    → Memᴰ caller addresses
    → Memᴰ callee addresses
    → (next : Nodes) × (add_call caller edge callee nodes ≡ ok next)
      × Added addresses caller ((edge, callee) ∷ []) nodes next
unfolding Known
add_call-Added addresses caller edge callee nodes known mem mem' =
    let (from, at_from) = known caller mem in
    let (to0, at_to0) = known callee mem' in
    let from' : Node = record {
      calls_to_others = from.calls_to_others ++ (edge, callee) ∷ [];
      calls_to_this = from.calls_to_this;
    } in
    let nodes' = put caller from' nodes in
    let (to, at_to) = Known-put addresses caller from' nodes known callee mem' in
    let to' : Node = record {
      calls_to_others = to.calls_to_others;
      calls_to_this = to.calls_to_this ++ edge ∷ [];
    } in
    let keeps = others-put_same callee to' nodes' (sym (others-at callee to nodes' at_to)) in
    (
      put callee to' nodes',
      add_call-runs caller edge callee nodes to0 from to at_to0 at_from at_to,
      record {
        known =
            Known-put addresses callee to' nodes' (Known-put addresses caller from' nodes known);
        own =
            keeps caller
            ∙ others-at caller from' nodes' (put_self caller from' nodes)
            ∙ ap (λ calls. calls ++ (edge, callee) ∷ [])
                (sym (others-at caller from nodes at_from));
        others_same = λ a other. keeps a ∙ others-put_other caller a from' nodes other;
      },
    )

-- The automata that the edges call are in the system.
abbrev pub CalleesIn : List ℕ → List Transition → Type 0
CalleesIn addresses edges =
    (edge : Transition)
    → Memᴰ edge edges
    → (callee : ℕ) (inputs outputs : List VariableAssignment)
    → edge.kind ≡ call_edge callee inputs outputs
    → Memᴰ callee addresses

pub add_calls-Added :
    (addresses : List ℕ) (caller : ℕ) (edges : List Transition) (nodes : Nodes)
    → Known addresses nodes
    → Memᴰ caller addresses
    → CalleesIn addresses edges
    → (next : Nodes) × (add_calls caller edges nodes ≡ ok next)
      × Added addresses caller (calls_of edges) nodes next
unfolding add_calls calls_of
add_calls-Added addresses caller [] nodes known mem inside = (
  nodes,
  refl,
  record {
    known = known;
    own = sym (append-nil (others nodes caller));
    others_same = λ a other. refl;
  },
)
add_calls-Added addresses caller (edge ∷ edges) nodes known mem inside =
    elim (EdgeKind-cases edge.kind) [
      | inl (assignments, is) ↦
          let (next, runs, added) =
            add_calls-Added addresses caller edges nodes known mem
              (λ e m. inside e (Memᴰ.tail m)) in
          (next, (cc), subst (λ calls. Added addresses caller calls nodes next) (cc) added)
      | inr (callee, inputs, outputs, is) ↦
          let (middle, adds, first) =
            add_call-Added addresses caller edge callee nodes known mem
              (inside edge (Memᴰ.head refl) callee inputs outputs is) in
          let (next, runs, added) =
            add_calls-Added addresses caller edges middle first.known mem
              (λ e m. inside e (Memᴰ.tail m)) in
          (
            next,
            (cc),
            subst (λ calls. Added addresses caller calls nodes next) (cc)
                (record {
                  known = added.known;
                  own =
                      added.own
                      ∙ ap (λ calls. calls ++ calls_of edges) first.own
                      ∙ append_assoc (others nodes caller) ((edge, callee) ∷ []) (calls_of edges);
                  others_same = λ a other. added.others_same a other ∙ first.others_same a other;
                }),
          )
    ]
