-- ===== src/Automaton/Dominators/Predecessors.antt =====
-- The region of findLowestCommonDominator on an acyclic automaton: its rows and their predecessors.
use gazer.Base.{
  ℕ, ◌+◌, ◌-◌, ◌<◌, ◌≤◌, ◌≡◌, sym, ap, ◌∙◌, subst, ◌⊎◌, inl, inr, List, map, Option, none, some,
  get_elem?, ok, ◌>>=◌, arith, le_or_lt, Memᴰ, get_elem?-before,
}
use gazer.Base.Memᴰ
use gazer.Automaton.Cfa.{Transition}
use gazer.Automaton.Dominators.{location_at, predecessor_row}
use gazer.Automaton.Dominators.Rows.{Way, here, there, Region}
use gazer.Automaton.Dominators.Order.{Listed, IsStart, given, first_location}

-- The sources of the incoming edges.
abbrev pub predecessors : (ℕ → List Transition) → ℕ → List ℕ
predecessors incoming location = map (λ (edge : Transition). edge.source) (incoming location)

module _ (index : ℕ → ℕ) (start i : ℕ) (edge : Transition)
    (earlier : index edge.source < i + start) where
  predecessor_row-skip : index edge.source < start → predecessor_row index start i edge ≡ ok none
  unfolding predecessor_row
  predecessor_row-skip h = ground arith

  predecessor_row-keep :
      start ≤ index edge.source
      → predecessor_row index start i edge ≡ ok (some (index edge.source - start))
  unfolding predecessor_row
  predecessor_row-keep h = ground arith

module _ (topo : List ℕ) (index : ℕ → ℕ) (incoming : ℕ → List Transition) where
  -- The edges that `incoming` gives for listed locations come from earlier ones, and the index of a
  -- location is where it is listed.
  pub record TopologicalOrder : Type 0 where
    pub position : (k location : ℕ) → get_elem? topo k ≡ some location → index location ≡ k
    pub ascends :
        (location : ℕ)
        → Listed topo index location
        → (edge : Transition) → Memᴰ edge (incoming location)
        → Listed topo index edge.source × (index edge.source < index location)

  module _ (order : TopologicalOrder) where
    pub IsStart-Listed :
        {o : Option ℕ} {start : ℕ} → IsStart topo index o start → Listed topo index start
    IsStart-Listed (given l) = l
    IsStart-Listed (first_location {location = start} h) =
        subst (λ k. get_elem? topo k ≡ some start) (sym (order.position 0 start h)) h

    Way-after :
        (start : ℕ)
        → {location : ℕ} {visited : List ℕ} → Way (predecessors incoming) start location visited
        → Listed topo index location
        → index start ≤ index location
    Way-after start here l = omega arith
    Way-after start (there {before} {location} p m) l =
        let (edge, mem, same) = Memᴰ.of_map (λ (e : Transition). e.source) (incoming location) m in
        let (l', below) = order.ascends location l edge mem in
        let rest = Way-after start p (subst (λ n. Listed topo index n) same l') in
        omega (arith, rest, below, ap (λ n. index n) same)

    module _ (start size : ℕ) (pos : 0 < size) (last : ℕ)
        (ends : get_elem? topo (index start + size) ≡ some last)
        (start_listed : Listed topo index start) where
      unfoldable pub place : ℕ → ℕ
      place k = elim (get_elem? topo (index start + k)) [ none ↦ 0 | some location ↦ location ]

      pub place-listed :
          (k : ℕ)
          → k < size
          → (get_elem? topo (index start + k) ≡ some (place k))
            × (index (place k) ≡ index start + k)
      unfolding place
      place-listed k below =
          let (l, at_k) =
            get_elem?-before topo (index start + k) (index start + size) (omega (arith, below))
              ends in
          let same : place k ≡ l = cc in
          let at_place = at_k ∙ ap (λ n. some n) (sym same) in
          (at_place, order.position (index start + k) (place k) at_place)

      pub place-start : place 0 ≡ start
      unfolding place
      place-start =
          let shift : index start ≡ index start + 0 = omega arith in
          let at_0 = subst (λ n. get_elem? topo n ≡ some start) shift start_listed in (cc)

      pub place-Listed : (k : ℕ) → k < size → Listed topo index (place k)
      place-Listed k below =
          let (at_k, position) = place-listed k below in
          subst (λ n. get_elem? topo n ≡ some (place k)) (sym position) at_k

      pub place-index :
          (l : ℕ) → Listed topo index l → index start ≤ index l → place (index l - index start) ≡ l
      unfolding place
      place-index l listed after =
          let moved : index l ≡ index start + (index l - index start) = omega (arith, after) in
          let at_l = subst (λ n. get_elem? topo n ≡ some l) moved listed in (cc)

      row-earlier :
          (i : ℕ)
          → i < size
          → (edge : Transition) → Memᴰ edge (incoming (place i))
          → (predecessor_row index (index start) i edge ≡ ok none)
            ⊎ ((k : ℕ) × (predecessor_row index (index start) i edge ≡ ok (some k))
                × (k < i)
                × Memᴰ (place k) (predecessors incoming (place i)))
      row-earlier i below edge mem =
          let (listed, ascending) = order.ascends (place i) (place-Listed i below) edge mem in
          let (_, position) = place-listed i below in
          let earlier : index edge.source < i + index start = omega (arith, ascending, position) in
          elim (le_or_lt (index start) (index edge.source)) [
            | inr before ↦ inl (predecessor_row-skip index (index start) i edge earlier before)
            | inl after ↦ inr (
              index edge.source - index start,
              predecessor_row-keep index (index start) i edge earlier after,
              omega (arith, after, ascending, position),
              subst (λ n. Memᴰ n (predecessors incoming (place i)))
                  (sym (place-index edge.source listed after))
                  (Memᴰ.map (λ (e : Transition). e.source) mem),
            )
          ]

      row-reached :
          (i : ℕ)
          → i < size
          → (before : ℕ) (visited : List ℕ) → Way (predecessors incoming) (place 0) before visited
          → Memᴰ before (predecessors incoming (place i))
          → (edge : Transition) × (k : ℕ) × Memᴰ edge (incoming (place i))
            × (predecessor_row index (index start) i edge ≡ ok (some k))
            × (place k ≡ before)
      row-reached i below before visited path near =
          let (edge, mem, same) =
            Memᴰ.of_map (λ (e : Transition). e.source) (incoming (place i)) near in
          let (listed, ascending) = order.ascends (place i) (place-Listed i below) edge mem in
          let (_, position) = place-listed i below in
          let (_, position_0) = place-listed 0 pos in
          let after = Way-after (place 0) path (subst (λ n. Listed topo index n) same listed) in
          let from : index start ≤ index edge.source =
            omega (arith, after, position_0, ap (λ n. index n) same) in
          (
            edge,
            index edge.source - index start,
            mem,
            predecessor_row-keep index (index start) i edge (omega (arith, ascending, position))
                from,
            place-index edge.source listed from ∙ same,
          )

      pub region :
          Region size
            (predecessor_row index (index start))
            (λ i. location_at topo (index start + i) >>= λ location. ok (incoming location))
            (predecessors incoming)
            place
      unfolding location_at place
      region = record {
        edges_at = λ i. incoming (place i);
        nonempty = pos;
        place_injective = λ i j bi bj same.
            omega (arith, (place-listed i bi).1, (place-listed j bj).1, ap (λ n. index n) same);
        edges = λ i p below. let (at_i, _) = place-listed i below in (cc);
        earlier = λ i p below edge mem. row-earlier i below edge mem;
        reached =
            λ i p below before visited path near. row-reached i below before visited path near;
      }
