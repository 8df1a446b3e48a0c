-- ===== src/Automaton/Dominators/Highest.antt =====
-- findHighestCommonPostDominator on an acyclic automaton: it finds the highest of the common post-dominators.
use gazer.Base.{
  ℕ, ◌+◌, ◌-◌, ◌<◌, ◌≤◌, ◌≡◌, refl, ap, ◌∙◌, subst, true, List, ◌∷◌, Option, some, ltb, ok, ◌>>=◌,
  arith, Memᴰ,
}
use gazer.Automaton.Cfa.{Transition}
use gazer.Automaton.Dominators.{
  extreme_element, source_after, location_at, successor_row, sub_size, common_bit,
  find_highest_common_post_dominator,
}
use gazer.Automaton.Dominators.Rows.{Dominates, Avoids}
use gazer.Automaton.Dominators.Common.{common_bit-IsCommon}
use gazer.Automaton.Dominators.Extreme.{mem-extreme_element, first_source-least}
use gazer.Automaton.Dominators.Order.{
  Listed, IsEnd, IsOrigin, given_end, at_exit, sub_size-eq, ltb-of_lt,
}
use gazer.Automaton.Dominators.Successors.{
  successors, DescendingOrder, IsEnd-Listed, place, place-listed, place-start, place-Listed,
  place-index, region,
}

module _ (topo : List ℕ) (index : ℕ → ℕ) (outgoing : ℕ → List Transition) where
  -- The location that the search has found, for targets whose first one starts at index `last`.
  module _ (start last : ℕ) (targets : List Transition) where
    pub record IsHighest (found : ℕ) : Type 0 where
      pub is_listed : Listed topo index found
      pub post_dominates :
          (edge : Transition)
          → Memᴰ edge targets
          → Dominates (successors outgoing) start found edge.target
      pub highest :
          (other : ℕ)
          → Listed topo index other
          → index other < index found
          → last < index other
          → (edge : Transition) × Memᴰ edge targets
            × Avoids (successors outgoing) start other edge.target

  module _ (order : DescendingOrder topo index outgoing) (start size : ℕ) (pos : 0 < size)
      (fits : size ≤ index start) (start_listed : Listed topo index start)
      (targets : List Transition)
      (all : (t : Transition) → Memᴰ t targets → IsOrigin topo index start t)
      (before : (t : Transition) → Memᴰ t targets → index start < index t.target + size) where
    abbrev spot : ℕ → ℕ
    spot k = place topo index outgoing order start size pos fits start_listed k

    target_row-eq :
        (t : Transition)
        → Memᴰ t targets
        → sub_size (index start) (index t.target) ≡ index start - index t.target
    target_row-eq t mem = sub_size-eq (index start) (index t.target) ((all t mem).before_start)

    target_row-inside :
        (t : Transition) → Memᴰ t targets → sub_size (index start) (index t.target) < size
    target_row-inside t mem =
        omega (arith, before t mem, (all t mem).before_start, target_row-eq t mem)

    target_row-spot :
        (t : Transition)
        → Memᴰ t targets
        → spot (sub_size (index start) (index t.target)) ≡ t.target
    target_row-spot t mem =
        ap (λ k. spot k) (target_row-eq t mem)
        ∙ place-index topo index outgoing order start size pos fits start_listed t.target
            ((all t mem).target_listed) ((all t mem).before_start)

    common_bit-IsHighest :
        (c : ℕ) × (common_bit size
            (successor_row index (index start))
            (λ i.
              location_at topo (sub_size (index start) i) >>= λ location. ok (outgoing location))
            (λ target. sub_size (index start) (index target.target))
            targets
          ≡ ok c)
        × (location_at topo (sub_size (index start) c) ≡ ok (spot c))
        × IsHighest start (index start - size) targets (spot c)
    unfolding location_at
    common_bit-IsHighest =
        let r = region topo index outgoing order start size pos fits start_listed in
        let at_start = place-start topo index outgoing order start size pos fits start_listed in
        let (c, runs, common) =
          common_bit-IsCommon size (successor_row index (index start))
            (λ i.
              location_at topo (sub_size (index start) i) >>= λ location. ok (outgoing location))
            (successors outgoing) spot r (λ target. sub_size (index start) (index target.target))
            targets target_row-inside in
        let (at_c, position) =
          place-listed topo index outgoing order start size pos fits start_listed c common.within in
        let turned = sub_size-eq (index start) c (omega (arith, common.within, fits)) in
        (
          c,
          runs,
          (cc),
          record {
            is_listed =
                place-Listed topo index outgoing order start size pos fits start_listed c
                  common.within;
            post_dominates = λ edge mem.
                subst (λ s. Dominates (successors outgoing) s (spot c) edge.target) at_start
                  (subst (λ n. Dominates (successors outgoing) (spot 0) (spot c) n)
                    (target_row-spot edge mem) (common.dominates edge mem));
            highest = λ other listed after below.
                let from : index other ≤ index start = omega (arith, after, position) in
                let (edge, mem, avoided) =
                  common.greatest (index start - index other)
                    (omega (arith, after, position, from, common.within, fits))
                    (omega (arith, below, from, fits)) in
                let at_other =
                  place-index topo index outgoing order start size pos fits start_listed other
                    listed from in
                (
                  edge,
                  mem,
                  subst (λ s. Avoids (successors outgoing) s other edge.target) at_start
                      (subst (λ n. Avoids (successors outgoing) (spot 0) other n)
                        (target_row-spot edge mem)
                        (subst
                          (λ o.
                            Avoids (successors outgoing) (spot 0) o
                              (spot (sub_size (index start) (index edge.target))))
                          at_other avoided)),
                );
          },
        )

  post_dominator-runs :
      (exit : ℕ) (edge : Transition) (edges : List Transition) (from : Option ℕ) (start last : ℕ)
      (c found : ℕ)
      → IsEnd topo index exit from start
      → index ((extreme_element (source_after index) edge edges).source) ≡ last
      → ltb last (index start) ≡ true
      → common_bit
          (index start - last)
          (successor_row index (index start))
          (λ i. location_at topo (sub_size (index start) i) >>= λ location. ok (outgoing location))
          (λ target. sub_size (index start) (index target.target))
          (edge ∷ edges)
        ≡ ok c
      → location_at topo (sub_size (index start) c) ≡ ok found
      → find_highest_common_post_dominator topo index outgoing exit (edge ∷ edges) from
        ≡ ok (some found)
  unfolding find_highest_common_post_dominator
  post_dominator-runs exit edge edges _ start last c found (given_end l) ended descends runs finds =
      cc
  post_dominator-runs exit edge edges _ start last c found (at_exit l) ended descends runs finds =
      cc

  -- Where the outgoing edges of listed locations lead to later listed ones, the start of the search is
  -- listed, and the targets are edges between listed locations, forward and up to that start, the search
  -- ends with a listed location through which every path from the end of a target to that start leads; and
  -- each listed location that is earlier, but after the first source of the targets, is avoided by some
  -- path from the end of a target.
  pub find_highest_common_post_dominator-IsHighest :
      DescendingOrder topo index outgoing
      → (exit : ℕ) (edge : Transition) (edges : List Transition) (from : Option ℕ) (start : ℕ)
      → IsEnd topo index exit from start
      → ((target : Transition) → Memᴰ target (edge ∷ edges) → IsOrigin topo index start target)
      → (found : ℕ) × (find_highest_common_post_dominator topo index outgoing exit
            (edge ∷ edges)
            from
          ≡ ok (some found))
        × IsHighest start
            (index ((extreme_element (source_after index) edge edges).source))
            (edge ∷ edges)
            found
  find_highest_common_post_dominator-IsHighest order exit edge edges from start begins targets =
      let top = extreme_element (source_after index) edge edges in
      let last = index top.source in
      let is_top = targets top (mem-extreme_element (source_after index) edge edges) in
      let start_listed = IsEnd-Listed topo index outgoing order begins in
      let pos : 0 < index start - last = omega (arith, is_top.before_start, is_top.forward) in
      let total : index start - (index start - last) ≡ last = omega (arith, pos) in
      let fits : index start - last ≤ index start = omega arith in
      let common =
        common_bit-IsHighest order start (index start - last) pos fits start_listed (edge ∷ edges)
          targets
          (λ t mem.
            omega
              (arith, first_source-least index edge edges t mem, (targets t mem).forward, pos)) in
      let (c, runs, finds, highest) = common in
      let descends = ltb-of_lt last (index start) (omega (arith, pos)) in
      let found =
        place topo index outgoing order start (index start - last) pos fits start_listed c in
      (
        found,
        post_dominator-runs exit edge edges from start last c found begins refl descends runs finds,
        subst (λ n. IsHighest start n (edge ∷ edges) found) total highest,
      )
