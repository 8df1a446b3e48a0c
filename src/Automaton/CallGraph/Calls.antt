-- ===== src/Automaton/CallGraph/Calls.antt =====
-- The node of an automaton has the calls of its edges, and what the test for tail recursion finds.
use gazer.Base.{
  ℕ, ◌≡◌, ◌≢◌, refl, sym, ap, ◌∙◌, subst, inl, inr, Bool-cases, Bool, true, false, not, ◌&&◌, ◌||◌,
  List, [], ◌∷◌, ◌++◌, map, some, ◌==◌, ==_iff, ok, ◌>>=◌, Memᴰ,
}
use gazer.Base.Memᴰ
use gazer.Automaton.Cfa.{Transition, Cfa}
use gazer.Automaton.CallGraph.{
  Node, Nodes, put, find, create_nodes, fill_nodes, create_call_graph, tail_loop, is_tail_recursive,
}
use gazer.Automaton.CallGraph.Added.{calls_of, Known, others, CalleesIn, add_calls-Added}

-- Some call is to the automaton, and all calls to it lead to its exit.
unfoldable pub calls_self : ℕ → List (Transition × ℕ) → Bool
calls_self self [] = false
calls_self self ((edge, callee) ∷ calls) = (callee == self) || calls_self self calls

unfoldable pub only_before_exit : ℕ → ℕ → List (Transition × ℕ) → Bool
only_before_exit self exit [] = true
only_before_exit self exit ((edge, callee) ∷ calls) =
    (not (callee == self) || (edge.target == exit)) && only_before_exit self exit calls

tail_loop_lem :
    (self exit : ℕ) (calls : List (Transition × ℕ)) (is_recursive : Bool)
    → tail_loop self exit calls is_recursive
      ≡ ((is_recursive || calls_self self calls) && only_before_exit self exit calls)
unfolding tail_loop calls_self only_before_exit
tail_loop_lem self exit [] true = refl
tail_loop_lem self exit [] false = refl
tail_loop_lem self exit ((edge, callee) ∷ calls) is_recursive =
    let rest = tail_loop_lem self exit calls is_recursive in
    let rest' = tail_loop_lem self exit calls true in
    elim (Bool-cases (callee == self)) [
      | inr f ↦ (cc)
      | inl t ↦ elim (Bool-cases (edge.target == exit)) [
        | inl e ↦ elim (Bool-cases is_recursive) [ inl r ↦ (cc) | inr r ↦ (cc) ]
        | inr e ↦ elim (Bool-cases is_recursive) [ inl r ↦ (cc) | inr r ↦ (cc) ]
      ]
    ]

-- No two automata of the list have one address.
pub data Distinct : List Cfa → Type 0 where
  no_automata : Distinct []
  one_more :
      {cfa : Cfa} {system : List Cfa}
      → ((other : Cfa) → Memᴰ other system → cfa.address ≢ other.address)
      → Distinct system
      → Distinct (cfa ∷ system)

fill_nodes-calls :
    (addresses : List ℕ) (system : List Cfa) (nodes : Nodes)
    → Distinct system
    → Known addresses nodes
    → ((cfa : Cfa)
        → Memᴰ cfa system
        → Memᴰ cfa.address addresses × CalleesIn addresses cfa.transitions)
    → (next : Nodes) × (fill_nodes system nodes ≡ ok next)
      × Known addresses next
      × ((cfa : Cfa)
          → Memᴰ cfa system
          → others next cfa.address ≡ others nodes cfa.address ++ calls_of cfa.transitions)
      × ((a : ℕ)
          → ((cfa : Cfa) → Memᴰ cfa system → a ≢ cfa.address)
          → others next a ≡ others nodes a)
unfolding fill_nodes
fill_nodes-calls addresses [] nodes no_automata known inside =
    (nodes, refl, known, λ cfa m. absurd (Memᴰ.not-nil m), λ a away. refl)
fill_nodes-calls addresses (cfa ∷ system) nodes (one_more apart distinct) known inside =
    let (mem, callees) = inside cfa (Memᴰ.head refl) in
    let (middle, adds, added) =
      add_calls-Added addresses cfa.address cfa.transitions nodes known mem callees in
    let (next, runs, known', own, away) =
      fill_nodes-calls addresses system middle distinct added.known
        (λ c m. inside c (Memᴰ.tail m)) in
    (
      next,
      (cc),
      known',
      λ c m. elim (Memᴰ.cases_cons m) [
        | inl is ↦
            subst (λ d. others next d.address ≡ others nodes d.address ++ calls_of d.transitions)
              (sym is) (away cfa.address apart ∙ added.own)
        | inr later ↦
            own c later
            ∙ ap (λ calls. calls ++ calls_of c.transitions)
                (added.others_same c.address (λ e. apart c later (sym e)))
      ],
      λ a outside.
          away a (λ c m. outside c (Memᴰ.tail m))
          ∙ added.others_same a (outside cfa (Memᴰ.head refl)),
    )

others-create_nodes : (system : List Cfa) (a : ℕ) → others (create_nodes system) a ≡ []
unfolding create_nodes others put
others-create_nodes [] a = refl
others-create_nodes (cfa ∷ system) a = elim (Bool-cases (a == cfa.address)) [
  | inl t ↦ (cc)
  | inr f ↦ let rest = others-create_nodes system a in (cc)
]

create_nodes-Known :
    (system : List Cfa) → Known (map (λ (cfa : Cfa). cfa.address) system) (create_nodes system)
unfolding create_nodes Known put
create_nodes-Known [] a m = absurd (Memᴰ.not-nil m)
create_nodes-Known (cfa ∷ system) a m = elim (Bool-cases (a == cfa.address)) [
  | inl t ↦ (record { calls_to_others = []; calls_to_this = [] }, (cc))
  | inr f ↦ elim (Memᴰ.cases_cons m) [
    | inl is ↦ absurd (cc (f, (==_iff a cfa.address).1 is))
    | inr later ↦ let (node, at_a) = create_nodes-Known system a later in (node, (cc))
  ]
]

is_tail_recursive-others :
    (nodes : Nodes) (cfa : Cfa) (node : Node)
    → nodes cfa.address ≡ some node
    → is_tail_recursive nodes cfa
      ≡ ok (tail_loop cfa.address cfa.exit (others nodes cfa.address) false)
unfolding is_tail_recursive find others
is_tail_recursive-others nodes cfa node h = cc

-- Where the automata of a system have distinct addresses and call only each other, the call graph is made,
-- and an automaton of the system is tail-recursive by it exactly where one of its edges calls it and all
-- such edges lead to its exit.
pub is_tail_recursive_lem :
    (system : List Cfa) (cfa : Cfa)
    → Distinct system
    → ((c : Cfa) → Memᴰ c system → CalleesIn (map (λ (d : Cfa). d.address) system) c.transitions)
    → Memᴰ cfa system
    → (create_call_graph system >>= λ nodes. is_tail_recursive nodes cfa)
      ≡ ok (
          calls_self cfa.address (calls_of cfa.transitions)
          && only_before_exit cfa.address cfa.exit (calls_of cfa.transitions))
unfolding create_call_graph Known
is_tail_recursive_lem system cfa distinct inside mem =
    let addresses = map (λ (d : Cfa). d.address) system in
    let (nodes, made, known, own, away) =
      fill_nodes-calls addresses system (create_nodes system) distinct (create_nodes-Known system)
        (λ c m. (Memᴰ.map (λ (d : Cfa). d.address) m, inside c m)) in
    let (node, at_cfa) = known cfa.address (Memᴰ.map (λ (d : Cfa). d.address) mem) in
    let calls =
      own cfa mem
      ∙ ap (λ before. before ++ calls_of cfa.transitions)
          (others-create_nodes system cfa.address) in
    ap (λ r. r >>= λ ns. is_tail_recursive ns cfa) made
    ∙ is_tail_recursive-others nodes cfa node at_cfa
    ∙ ap (λ cs. ok (tail_loop cfa.address cfa.exit cs false)) calls
    ∙ ap (λ b. ok b) (tail_loop_lem cfa.address cfa.exit (calls_of cfa.transitions) false)
