-- ===== src/Automaton/Dominators/Lowest.antt =====
-- findLowestCommonDominator on an acyclic automaton: it finds the lowest of the common dominators.
use gazer.Base.{
  ℕ, ◌+◌, ◌-◌, ◌<◌, ◌≤◌, ◌≡◌, sym, ap, ◌∙◌, subst, List, ◌∷◌, Option, some, get_elem?, ok, ◌>>=◌,
  arith, Memᴰ,
}
use gazer.Automaton.Cfa.{Transition}
use gazer.Automaton.Dominators.{
  extreme_element, source_before, location_at, predecessor_row, sub_size, common_bit,
  find_lowest_common_dominator,
}
use gazer.Automaton.Dominators.Rows.{Dominates, Avoids}
use gazer.Automaton.Dominators.Common.{common_bit-IsCommon}
use gazer.Automaton.Dominators.Extreme.{mem-extreme_element, last_source-greatest}
use gazer.Automaton.Dominators.Order.{
  Listed, IsStart, IsTarget, sub_size-eq, ltb-of_lt, start_or_first-runs,
}
use gazer.Automaton.Dominators.Predecessors.{
  predecessors, TopologicalOrder, IsStart-Listed, place, place-listed, place-start, place-Listed,
  place-index, region,
}

module _ (topo : List ℕ) (index : ℕ → ℕ) (incoming : ℕ → List Transition) where
  -- The location that the search has found, for targets whose last one ends at index `last`.
  module _ (start last : ℕ) (targets : List Transition) where
    pub record IsLowest (found : ℕ) : Type 0 where
      pub is_listed : Listed topo index found
      pub dominates :
          (edge : Transition)
          → Memᴰ edge targets
          → Dominates (predecessors incoming) start found edge.source
      pub lowest :
          (other : ℕ)
          → Listed topo index other
          → index found < index other
          → index other < last
          → (edge : Transition) × Memᴰ edge targets
            × Avoids (predecessors incoming) start other edge.source

  module _ (order : TopologicalOrder topo index incoming) (start size : ℕ) (pos : 0 < size)
      (last : ℕ) (ends : get_elem? topo (index start + size) ≡ some last)
      (start_listed : Listed topo index start) (targets : List Transition)
      (all : (t : Transition) → Memᴰ t targets → IsTarget topo index start t)
      (before : (t : Transition) → Memᴰ t targets → index t.source < index start + size) where
    abbrev spot : ℕ → ℕ
    spot k = place topo index incoming order start size pos last ends start_listed k

    target_row-eq :
        (t : Transition)
        → Memᴰ t targets
        → sub_size (index t.source) (index start) ≡ index t.source - index start
    target_row-eq t mem = sub_size-eq (index t.source) (index start) ((all t mem).after_start)

    target_row-inside :
        (t : Transition) → Memᴰ t targets → sub_size (index t.source) (index start) < size
    target_row-inside t mem =
        omega (arith, before t mem, (all t mem).after_start, target_row-eq t mem)

    target_row-spot :
        (t : Transition)
        → Memᴰ t targets
        → spot (sub_size (index t.source) (index start)) ≡ t.source
    target_row-spot t mem =
        ap (λ k. spot k) (target_row-eq t mem)
        ∙ place-index topo index incoming order start size pos last ends start_listed t.source
            ((all t mem).source_listed) ((all t mem).after_start)

    common_bit-IsLowest :
        (c : ℕ) × (common_bit size
            (predecessor_row index (index start))
            (λ i. location_at topo (index start + i) >>= λ location. ok (incoming location))
            (λ target. sub_size (index target.source) (index start))
            targets
          ≡ ok c)
        × (location_at topo (c + index start) ≡ ok (spot c))
        × IsLowest start (index start + size) targets (spot c)
    unfolding location_at
    common_bit-IsLowest =
        let r = region topo index incoming order start size pos last ends start_listed in
        let at_start =
          place-start topo index incoming order start size pos last ends start_listed in
        let (c, runs, common) =
          common_bit-IsCommon size (predecessor_row index (index start))
            (λ i. location_at topo (index start + i) >>= λ location. ok (incoming location))
            (predecessors incoming) spot r (λ target. sub_size (index target.source) (index start))
            targets target_row-inside in
        let (at_c, position) =
          place-listed topo index incoming order start size pos last ends start_listed c
            common.within in
        let turned : index start + c ≡ c + index start = omega arith in
        let at_c' = subst (λ n. get_elem? topo n ≡ some (spot c)) turned at_c in
        (
          c,
          runs,
          (cc),
          record {
            is_listed =
                place-Listed topo index incoming order start size pos last ends start_listed c
                  common.within;
            dominates = λ edge mem.
                subst (λ s. Dominates (predecessors incoming) s (spot c) edge.source) at_start
                  (subst (λ n. Dominates (predecessors incoming) (spot 0) (spot c) n)
                    (target_row-spot edge mem) (common.dominates edge mem));
            lowest = λ other listed after below.
                let from : index start ≤ index other = omega (arith, after, position) in
                let (edge, mem, avoided) =
                  common.greatest (index other - index start) (omega (arith, after, position, from))
                    (omega (arith, below, from)) in
                let at_other =
                  place-index topo index incoming order start size pos last ends start_listed other
                    listed from in
                (
                  edge,
                  mem,
                  subst (λ s. Avoids (predecessors incoming) s other edge.source) at_start
                      (subst (λ n. Avoids (predecessors incoming) (spot 0) other n)
                        (target_row-spot edge mem)
                        (subst
                          (λ o.
                            Avoids (predecessors incoming) (spot 0) o
                              (spot (sub_size (index edge.source) (index start))))
                          at_other avoided)),
                );
          },
        )

  -- Where the incoming edges of listed locations come from earlier listed ones, the start is listed, and
  -- the targets are edges between listed locations, forward and from the start on, the search ends with a
  -- listed location through which every path from the start to the source of a target leads; and each
  -- listed location that is later, but before the end of the target with the last source, is avoided by
  -- some path from the start to the source of a target.
  pub find_lowest_common_dominator-IsLowest :
      TopologicalOrder topo index incoming
      → (edge : Transition) (edges : List Transition) (from : Option ℕ) (start : ℕ)
      → IsStart topo index from start
      → ((target : Transition) → Memᴰ target (edge ∷ edges) → IsTarget topo index start target)
      → (found : ℕ) × (find_lowest_common_dominator topo index incoming (edge ∷ edges) from
          ≡ ok (some found))
        × IsLowest start
            (index ((extreme_element (source_before index) edge edges).target))
            (edge ∷ edges)
            found
  unfolding find_lowest_common_dominator
  find_lowest_common_dominator-IsLowest order edge edges from start begins targets =
      let top = extreme_element (source_before index) edge edges in
      let last = index top.target in
      let is_top = targets top (mem-extreme_element (source_before index) edge edges) in
      let start_listed = IsStart-Listed topo index incoming order begins in
      let pos : 0 < last - index start = omega (arith, is_top.after_start, is_top.forward) in
      let total : last ≡ index start + (last - index start) = omega (arith, pos) in
      let ends = subst (λ n. get_elem? topo n ≡ some top.target) total is_top.target_listed in
      let common =
        common_bit-IsLowest order start (last - index start) pos top.target ends start_listed
          (edge ∷ edges) targets
          (λ t mem.
            omega (arith, last_source-greatest index edge edges t mem, is_top.forward, total)) in
      let (c, runs, finds, lowest) = common in
      let started = start_or_first-runs topo index begins in
      let ascends =
        ltb-of_lt (index start) last (omega (arith, is_top.after_start, is_top.forward)) in
      let found =
        place topo index incoming order start (last - index start) pos top.target ends start_listed
          c in
      (found, (cc), subst (λ n. IsLowest start n (edge ∷ edges) found) (sym total) lowest)
