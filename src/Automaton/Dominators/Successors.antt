-- ===== src/Automaton/Dominators/Successors.antt =====
-- The region of findHighestCommonPostDominator on an acyclic automaton: its rows and their successors.
use gazer.Base.{
  ℕ, ◌-◌, ◌<◌, ◌≤◌, ◌≡◌, sym, ap, ◌∙◌, subst, ◌⊎◌, inl, inr, List, map, Option, none, some,
  get_elem?, ok, ◌>>=◌, arith, le_or_lt, Memᴰ, get_elem?-before,
}
use gazer.Base.Memᴰ
use gazer.Automaton.Cfa.{Transition}
use gazer.Automaton.Dominators.{location_at, successor_row, sub_size}
use gazer.Automaton.Dominators.Rows.{Way, here, there, Region}
use gazer.Automaton.Dominators.Order.{Listed, IsEnd, given_end, at_exit, sub_size-eq}

-- The targets of the outgoing edges.
abbrev pub successors : (ℕ → List Transition) → ℕ → List ℕ
successors outgoing location = map (λ (edge : Transition). edge.target) (outgoing location)

module _ (index : ℕ → ℕ) (start i : ℕ) (edge : Transition) where
  successor_row-skip : start < index edge.target → successor_row index start i edge ≡ ok none
  unfolding successor_row
  successor_row-skip h = ground arith

  successor_row-keep :
      index edge.target ≤ start
      → successor_row index start i edge ≡ ok (some (start - index edge.target))
  unfolding successor_row
  successor_row-keep h = ground arith

module _ (topo : List ℕ) (index : ℕ → ℕ) (outgoing : ℕ → List Transition) where
  -- The edges that `outgoing` gives for listed locations lead to later ones, and the index of a
  -- location is where it is listed.
  pub record DescendingOrder : Type 0 where
    pub position : (k location : ℕ) → get_elem? topo k ≡ some location → index location ≡ k
    pub descends :
        (location : ℕ)
        → Listed topo index location
        → (edge : Transition) → Memᴰ edge (outgoing location)
        → Listed topo index edge.target × (index location < index edge.target)

  module _ (order : DescendingOrder) where
    pub IsEnd-Listed :
        {exit : ℕ} {o : Option ℕ} {start : ℕ}
        → IsEnd topo index exit o start
        → Listed topo index start
    IsEnd-Listed (given_end l) = l
    IsEnd-Listed (at_exit l) = l

    Way-before :
        (start : ℕ)
        → {location : ℕ} {visited : List ℕ} → Way (successors outgoing) start location visited
        → Listed topo index location
        → index location ≤ index start
    Way-before start here l = omega arith
    Way-before start (there {before} {location} p m) l =
        let (edge, mem, same) = Memᴰ.of_map (λ (e : Transition). e.target) (outgoing location) m in
        let (l', below) = order.descends location l edge mem in
        let rest = Way-before start p (subst (λ n. Listed topo index n) same l') in
        omega (arith, rest, below, ap (λ n. index n) same)

    module _ (start size : ℕ) (pos : 0 < size) (fits : size ≤ index start)
        (start_listed : Listed topo index start) where
      unfoldable pub place : ℕ → ℕ
      place k = elim (get_elem? topo (index start - k)) [ none ↦ 0 | some location ↦ location ]

      pub place-listed :
          (k : ℕ)
          → k < size
          → (get_elem? topo (index start - k) ≡ some (place k))
            × (index (place k) ≡ index start - k)
      unfolding place
      place-listed k below =
          let (l, at_k) =
            get_elem?-before topo (index start - k) (index start) (omega arith) start_listed in
          let same : place k ≡ l = cc in
          let at_place = at_k ∙ ap (λ n. some n) (sym same) in
          (at_place, order.position (index start - k) (place k) at_place)

      pub place-start : place 0 ≡ start
      unfolding place
      place-start =
          let shift : index start ≡ index start - 0 = omega arith in
          let at_0 = subst (λ n. get_elem? topo n ≡ some start) shift start_listed in (cc)

      pub place-Listed : (k : ℕ) → k < size → Listed topo index (place k)
      place-Listed k below =
          let (at_k, position) = place-listed k below in
          subst (λ n. get_elem? topo n ≡ some (place k)) (sym position) at_k

      pub place-index :
          (l : ℕ) → Listed topo index l → index l ≤ index start → place (index start - index l) ≡ l
      unfolding place
      place-index l listed after =
          let moved : index l ≡ index start - (index start - index l) = omega (arith, after) in
          let at_l = subst (λ n. get_elem? topo n ≡ some l) moved listed in (cc)

      row-earlier :
          (i : ℕ)
          → i < size
          → (edge : Transition) → Memᴰ edge (outgoing (place i))
          → (successor_row index (index start) i edge ≡ ok none)
            ⊎ ((k : ℕ) × (successor_row index (index start) i edge ≡ ok (some k))
                × (k < i)
                × Memᴰ (place k) (successors outgoing (place i)))
      row-earlier i below edge mem =
          let (listed, descending) = order.descends (place i) (place-Listed i below) edge mem in
          let (_, position) = place-listed i below in
          elim (le_or_lt (index edge.target) (index start)) [
            | inr before ↦ inl (successor_row-skip index (index start) i edge before)
            | inl after ↦ inr (
              index start - index edge.target,
              successor_row-keep index (index start) i edge after,
              omega (arith, after, descending, position, below, fits),
              subst (λ n. Memᴰ n (successors outgoing (place i)))
                  (sym (place-index edge.target listed after))
                  (Memᴰ.map (λ (e : Transition). e.target) mem),
            )
          ]

      row-reached :
          (i : ℕ)
          → i < size
          → (before : ℕ) (visited : List ℕ) → Way (successors outgoing) (place 0) before visited
          → Memᴰ before (successors outgoing (place i))
          → (edge : Transition) × (k : ℕ) × Memᴰ edge (outgoing (place i))
            × (successor_row index (index start) i edge ≡ ok (some k))
            × (place k ≡ before)
      row-reached i below before visited path near =
          let (edge, mem, same) =
            Memᴰ.of_map (λ (e : Transition). e.target) (outgoing (place i)) near in
          let (listed, descending) = order.descends (place i) (place-Listed i below) edge mem in
          let (_, position) = place-listed i below in
          let (_, position_0) = place-listed 0 pos in
          let after = Way-before (place 0) path (subst (λ n. Listed topo index n) same listed) in
          let from : index edge.target ≤ index start =
            omega (arith, after, position_0, ap (λ n. index n) same) in
          (
            edge,
            index start - index edge.target,
            mem,
            successor_row-keep index (index start) i edge from,
            place-index edge.target listed from ∙ same,
          )

      pub region :
          Region size
            (successor_row index (index start))
            (λ i.
              location_at topo (sub_size (index start) i) >>= λ location. ok (outgoing location))
            (successors outgoing)
            place
      unfolding location_at place
      region = record {
        edges_at = λ i. outgoing (place i);
        nonempty = pos;
        place_injective = λ i j bi bj same. omega (
          arith,
          (place-listed i bi).1,
          (place-listed j bj).1,
          ap (λ n. index n) same,
          bi,
          bj,
          fits,
        );
        edges = λ i p below.
            let (at_i, _) = place-listed i below in
            let shift = sub_size-eq (index start) i (omega (arith, below, fits)) in (cc);
        earlier = λ i p below edge mem. row-earlier i below edge mem;
        reached =
            λ i p below before visited path near. row-reached i below before visited path near;
      }
