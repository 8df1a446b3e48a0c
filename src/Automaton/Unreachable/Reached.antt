-- ===== src/Automaton/Unreachable/Reached.antt =====
-- What removeUnreachableLocations leaves of an automaton.
use gazer.Base.{
  ℕ, Bool, true, false, ◌≡◌, ◌≢◌, ◌↔◌, refl, sym, ap, ◌∙◌, subst, inl, inr, ◌⊎◌, Bool-cases, List,
  [], ◌∷◌, ok, ◌>>=◌, if◌then◌else◌, Memᴰ,
}
use gazer.Base.Memᴰ
use gazer.Support.Graph.{Graph, disconnect_node, clear_disconnected_elements}
use gazer.Support.Graph.Linked.{Linked}
use gazer.Support.Graph.Ends.{Joins, disconnect_node-Disconnected}
use gazer.Support.Graph.Cleared.{AtNode, Cleared, clear_disconnected_elements-Cleared}
use gazer.Automaton.Unreachable.{disconnect_unvisited, remove_unreachable_locations}

-- The locations that the search visits have lost no edge between them, the other ones of the list all
-- edges; the graph's lists are as before.
record Pruned (visited : ℕ → Bool) (locs : List ℕ) (g next : Graph) : Type 0 where
  nodes_same : next.nodes ≡ g.nodes
  edges_same : next.edges ≡ g.edges
  before :
      (e s t : ℕ)
      → Joins next e s t
      → Joins g e s t × ((n : ℕ) → Memᴰ n locs → visited n ≡ false → (s ≢ n) × (t ≢ n))
  kept : (e s t : ℕ) → Joins g e s t → visited s ≡ true → visited t ≡ true → Joins next e s t

-- A visited location is not one that is not.
apart_of : (visited : ℕ → Bool) (a b : ℕ) → visited a ≡ true → visited b ≡ false → a ≢ b
apart_of visited a b h h' is = absurd (cc (h, h', ap visited is))

step-Pruned :
    (visited : ℕ → Bool) (loc : ℕ) (g : Graph)
    → Linked g
    → (next : Graph) × ((if visited loc then ok g else disconnect_node loc g) ≡ ok next)
      × Linked next
      × Pruned visited (loc ∷ []) g next
step-Pruned visited loc g linked = elim (Bool-cases (visited loc)) [
  | inl t ↦ (
    g,
    ap (λ b. if b then ok g else disconnect_node loc g) t,
    linked,
    record {
      nodes_same = refl;
      edges_same = refl;
      before = λ e a b joins.
          (joins, λ n m lost. absurd (cc (t, lost, ap visited (Memᴰ.eq_of_singleton m))));
      kept = λ e a b joins h h'. joins;
    },
  )
  | inr f ↦
      let (next, runs, still, d) = disconnect_node-Disconnected g loc linked in
      (
        next,
        ap (λ b. if b then ok g else disconnect_node loc g) f ∙ runs,
        still,
        record {
          nodes_same = d.nodes_same;
          edges_same = d.edges_same;
          before = λ e a b joins.
              let (joined, a_other, b_other) = d.before e a b joins in
              (
                joined,
                λ n m lost.
                    let is = Memᴰ.eq_of_singleton m in
                    (λ h. a_other (h ∙ is), λ h. b_other (h ∙ is)),
              );
          kept = λ e a b joins h h'.
              d.kept e a b joins (apart_of visited a loc h f) (apart_of visited b loc h' f);
        },
      )
]

loop-Pruned :
    (visited : ℕ → Bool) (locs : List ℕ) (g : Graph)
    → Linked g
    → (next : Graph) × (disconnect_unvisited visited locs g ≡ ok next)
      × Linked next
      × Pruned visited locs g next
unfolding disconnect_unvisited
loop-Pruned visited [] g linked = (
  g,
  refl,
  linked,
  record {
    nodes_same = refl;
    edges_same = refl;
    before = λ e s t joins. (joins, λ n m lost. absurd (Memᴰ.not-nil m));
    kept = λ e s t joins h h'. joins;
  },
)
loop-Pruned visited (loc ∷ locs) g linked =
    let (g', runs, linked', first) = step-Pruned visited loc g linked in
    let (next, rest, still, later) = loop-Pruned visited locs g' linked' in
    (
      next,
      ap (λ r. r >>= λ g'. disconnect_unvisited visited locs g') runs ∙ rest,
      still,
      record {
        nodes_same = later.nodes_same ∙ first.nodes_same;
        edges_same = later.edges_same ∙ first.edges_same;
        before = λ e s t joins.
            let (joined, apart) = later.before e s t joins in
            let (joined', apart') = first.before e s t joined in
            (
              joined',
              λ n m lost. elim (Memᴰ.cases_cons m) [
                | inl is ↦ apart' n (Memᴰ.head is) lost
                | inr there ↦ apart n there lost
              ],
            );
        kept = λ e s t joins h h'. later.kept e s t (first.kept e s t joins h h') h h';
      },
    )

-- The locations to which edges lead from the entry.
pub data Reachable (g : Graph) (entry : ℕ) : ℕ → Type 0 where
  at_entry : Reachable g entry entry
  along : (e s t : ℕ) → Reachable g entry s → Joins g e s t → Reachable g entry t

-- The ends of edges are listed locations, and the search of LLVM visits those that can be reached.
pub record Searched (visited : ℕ → Bool) (g : Graph) (entry : ℕ) : Type 0 where
  pub listed_ends : (e s t : ℕ) → Joins g e s t → Memᴰ s g.nodes × Memᴰ t g.nodes
  pub visits : (n : ℕ) → (visited n ≡ true) ↔ Reachable g entry n

-- An edge from a location that can be reached.
unfoldable pub LiveEdge : Graph → (entry e s t : ℕ) → Type 0
LiveEdge g entry e s t = Joins g e s t × Reachable g entry s

module _ (visited : ℕ → Bool) (g : Graph) (entry : ℕ) (searched : Searched visited g entry) where
  listed-visited :
      (locs : List ℕ) (n : ℕ)
      → Memᴰ n locs
      → ((m : ℕ) → Memᴰ m locs → visited m ≡ false → n ≢ m)
      → visited n ≡ true
  listed-visited locs n m apart = elim (Bool-cases (visited n)) [
    | inl yes_visited ↦ yes_visited
    | inr lost ↦ absurd (apart n m lost refl)
  ]

  live_iff :
      (next : Graph)
      → Pruned visited g.nodes g next
      → (e s t : ℕ) → Joins next e s t ↔ LiveEdge g entry e s t
  unfolding LiveEdge
  live_iff next pruned e s t = (
    λ joins.
        let (joined, apart) = pruned.before e s t joins in
        let (s_listed, _) = searched.listed_ends e s t joined in
        (
          joined,
          (searched.visits s).0
              (listed-visited g.nodes s s_listed (λ n m lost. (apart n m lost).0)),
        ),
    λ (joined, reached).
        pruned.kept e s t joined ((searched.visits s).1 reached)
          ((searched.visits t).1 (along e s t reached joined)),
  )

  nodes_iff :
      (next : Graph)
      → Linked next
      → Pruned visited g.nodes g next
      → (n : ℕ)
      → Memᴰ n ((clear_disconnected_elements next).nodes) ↔ (
          Memᴰ n g.nodes
          × Reachable g entry n
          × ((e s t : ℕ) × LiveEdge g entry e s t × ((s ≡ n) ⊎ (t ≡ n))))
  unfolding Cleared AtNode LiveEdge Joins
  nodes_iff next linked pruned n =
      let stays = (clear_disconnected_elements-Cleared next linked).0 n in
      (
        λ m.
            let (listed, (e, (s, t, at_s, at_t, one))) = stays.0 m in
            let (joined, reached) = (live_iff next pruned e s t).0 (at_s, at_t) in
            (
              subst (λ ns. Memᴰ n ns) pruned.nodes_same listed,
              elim one [
                | inl is ↦ subst (λ k. Reachable g entry k) is reached
                | inr is ↦ subst (λ k. Reachable g entry k) is (along e s t reached joined)
              ],
              (e, s, t, (joined, reached), one),
            ),
        λ (listed, _, (e, s, t, live, one)).
            let (at_s, at_t) = (live_iff next pruned e s t).1 live in
            stays.1 (
              subst (λ ns. Memᴰ n ns) (sym pruned.nodes_same) listed,
              (e, (s, t, at_s, at_t, one)),
            ),
      )

  edges_iff :
      (next : Graph)
      → Linked next
      → Pruned visited g.nodes g next
      → (e : ℕ)
      → Memᴰ e ((clear_disconnected_elements next).edges)
        ↔ (Memᴰ e g.edges × ((s t : ℕ) × LiveEdge g entry e s t))
  unfolding Cleared LiveEdge Joins
  edges_iff next linked pruned e =
      let stays = (clear_disconnected_elements-Cleared next linked).1 e in
      (
        λ m.
            let (listed, (s, t, at_s, at_t)) = stays.0 m in
            (
              subst (λ es. Memᴰ e es) pruned.edges_same listed,
              (s, t, (live_iff next pruned e s t).0 (at_s, at_t)),
            ),
        λ (listed, (s, t, live)).
            let (at_s, at_t) = (live_iff next pruned e s t).1 live in
            stays.1 (subst (λ es. Memᴰ e es) (sym pruned.edges_same) listed, (s, t, at_s, at_t)),
      )

  -- Where the ends of the edges of a linked graph are listed, and the search visits the locations that can
  -- be reached from the entry, the unreachable ones are removed without a null pointer followed; the graph
  -- is linked then, its edges with both ends are those that start at a reachable location, a listed
  -- location stays listed exactly where it can be reached and is an end of such an edge, and a listed edge
  -- exactly where it is such an edge.
  pub remove_unreachable_locations-Reachable :
      Linked g
      → (next : Graph) × (remove_unreachable_locations visited g ≡ ok next)
        × Linked next
        × ((e s t : ℕ) → Joins next e s t ↔ LiveEdge g entry e s t)
        × ((n : ℕ)
            → Memᴰ n next.nodes ↔ (
                Memᴰ n g.nodes
                × Reachable g entry n
                × ((e s t : ℕ) × LiveEdge g entry e s t × ((s ≡ n) ⊎ (t ≡ n)))))
        × ((e : ℕ) → Memᴰ e next.edges ↔ (Memᴰ e g.edges × ((s t : ℕ) × LiveEdge g entry e s t)))
  unfolding remove_unreachable_locations clear_disconnected_elements Joins
  remove_unreachable_locations-Reachable linked =
      let (middle, runs, still, pruned) = loop-Pruned visited g.nodes g linked in
      (
        clear_disconnected_elements middle,
        ap (λ r. r >>= λ g'. ok (clear_disconnected_elements g')) runs,
        record {
          outgoing_ends = still.outgoing_ends;
          outgoing_has = still.outgoing_has;
          incoming_ends = still.incoming_ends;
          incoming_has = still.incoming_has;
        },
        live_iff middle pruned,
        nodes_iff middle still pruned,
        edges_iff middle still pruned,
      )
