-- ===== src/Automaton/Dominators/Common.antt =====
-- What the intersection of the targets' rows gives: the highest bit that is set in all of them.
use gazer.Base.{
  ℕ, zero, suc, ◌-◌, ◌<◌, ◌≤◌, ◌≡◌, refl, sym, ◌∙◌, subst, inl, inr, Bool, true, false, Bool-cases,
  List, Option, some, replicate, length, Result, ok, arith, Memᴰ, length-replicate,
}
use native.Mathlib.Decide.{ℕ_discrete}
use gazer.Automaton.Cfa.{Transition}
use gazer.Automaton.Dominators.{test_bit, highest_bit, first_rows, common_bit}
use gazer.Automaton.Dominators.Bits.{Reads, found, Meets, and_edges-Meets, test_bit-replicate}
use gazer.Automaton.Dominators.Rows.{
  Way-start, Dominates, Avoids, Region, Filled, first_rows-Filled, fill-Filled,
}

-- `h` is the highest set bit up to `i`.
record IsHighest (bits : List Bool) (i h : ℕ) : Type 0 where
  low : h ≤ i
  is_set : test_bit bits h ≡ true
  above : (j : ℕ) → h < j → j ≤ i → test_bit bits j ≡ false

highest_bit-IsHighest :
    (bits : List Bool) (i : ℕ) → test_bit bits 0 ≡ true → IsHighest bits i (highest_bit bits i)
unfolding highest_bit
highest_bit-IsHighest bits zero h = record {
  low = omega arith;
  is_set = h;
  above = λ j after upto. absurd (omega (arith, after, upto));
}
highest_bit-IsHighest bits (suc i) h = elim (Bool-cases (test_bit bits (suc i))) [
  | inl t ↦
      subst (λ n. IsHighest bits (suc i) n) (cc)
        (record {
          low = omega arith;
          is_set = t;
          above = λ j after upto. absurd (omega (arith, after, upto));
        })
  | inr f ↦
      let rest = highest_bit-IsHighest bits i h in
      subst (λ n. IsHighest bits (suc i) n) (cc)
        (record {
          low = omega (arith, rest.low);
          is_set = rest.is_set;
          above = λ j after upto. elim (ℕ_discrete j (suc i)) [
            | yes same ↦ subst (λ n. test_bit bits n ≡ false) (sym same) f
            | no other ↦ rest.above j after (omega (arith, upto, other))
          ];
        })
]

module _ (size : ℕ) (row_of : ℕ → Transition → Result (Option ℕ))
    (edges_of : ℕ → Result (List Transition)) (neighbours : ℕ → List ℕ) (place : ℕ → ℕ)
    (region : Region size row_of edges_of neighbours place) (target_row : Transition → ℕ) where
  Reads-table :
      (table : List (List Bool))
      → Filled size row_of edges_of neighbours place size table
      → (edge : Transition) → target_row edge < size
      → Reads (λ target. ok (some (target_row target))) table size edge
  Reads-table table full edge inside =
      let (bits, got, r) = full.filled (target_row edge) inside in
      found (target_row edge) bits refl got r.sized

  module _ (targets : List Transition)
      (inside : (edge : Transition) → Memᴰ edge targets → target_row edge < size) where
    -- The greatest place that dominates all targets.
    pub record IsCommon (c : ℕ) : Type 0 where
      pub within : c < size
      pub dominates :
          (edge : Transition)
          → Memᴰ edge targets
          → Dominates neighbours (place 0) (place c) (place (target_row edge))
      pub greatest :
          (j : ℕ)
          → c < j
          → j < size
          → (edge : Transition) × Memᴰ edge targets
            × Avoids neighbours (place 0) (place j) (place (target_row edge))

    common-Dominates :
        (table : List (List Bool))
        → Filled size row_of edges_of neighbours place size table
        → (common : List Bool)
        → Meets (λ target. ok (some (target_row target))) table targets (replicate size true) common
        → (j : ℕ) → j < size
        → test_bit common j ≡ true
        → (edge : Transition) → Memᴰ edge targets
        → Dominates neighbours (place 0) (place j) (place (target_row edge))
    common-Dominates table full common m j below bit edge mem =
        let (bits, got, r) = full.filled (target_row edge) (inside edge mem) in
        r.set_bit j below (m.row_bit j bit edge (target_row edge) bits mem refl got)

    common-Avoids :
        (table : List (List Bool))
        → Filled size row_of edges_of neighbours place size table
        → (common : List Bool)
        → Meets (λ target. ok (some (target_row target))) table targets (replicate size true) common
        → (j : ℕ) → j < size
        → test_bit common j ≡ false
        → (edge : Transition) × Memᴰ edge targets
          × Avoids neighbours (place 0) (place j) (place (target_row edge))
    common-Avoids table full common m j below bit = elim (m.clear_bit j bit) [
      | inl b ↦ absurd (cc (b, test_bit-replicate size true j below))
      | inr (edge, k, row, mem, reads, got, b) ↦
          let (bits, got', r) = full.filled (target_row edge) (inside edge mem) in
          let same_row : row ≡ bits = cc in
          (edge, mem, r.clear_bit j below (subst (λ x. test_bit x j ≡ false) same_row b))
    ]

    common-start :
        (table : List (List Bool))
        → Filled size row_of edges_of neighbours place size table
        → (common : List Bool)
        → Meets (λ target. ok (some (target_row target))) table targets (replicate size true) common
        → test_bit common 0 ≡ true
    unfolding Avoids
    common-start table full common m = elim (Bool-cases (test_bit common 0)) [
      | inl t ↦ t
      | inr f ↦
          let (edge, mem, avoided) = common-Avoids table full common m 0 region.nonempty f in
          let (visited, path, avoids) = avoided in
          absurd (avoids (Way-start neighbours (place 0) path))
    ]

    pub common_bit-IsCommon :
        (c : ℕ) × (common_bit size row_of edges_of target_row targets ≡ ok c) × IsCommon c
    unfolding common_bit
    common_bit-IsCommon =
        let (table, filled, full) =
          fill-Filled size row_of edges_of neighbours place region (size - 1) 1 (omega arith)
            (omega (arith, region.nonempty)) (first_rows size)
            (first_rows-Filled size row_of edges_of neighbours place region) in
        let (common, met, m) =
          and_edges-Meets (λ target. ok (some (target_row target))) table targets
            (replicate size true) size (length-replicate size true)
            (λ edge mem. Reads-table table full edge (inside edge mem)) in
        let start = common-start table full common m in
        let sized = m.same_size ∙ length-replicate size true in
        let highest = highest_bit-IsHighest common (length common - 1) start in
        (
          highest_bit common (length common - 1),
          (cc),
          record {
            within = omega (arith, highest.low, sized, region.nonempty);
            dominates = λ edge mem.
                common-Dominates table full common m (highest_bit common (length common - 1))
                  (omega (arith, highest.low, sized, region.nonempty)) highest.is_set edge mem;
            greatest = λ j after below.
                common-Avoids table full common m j below
                  (highest.above j after (omega (arith, below, sized)));
          },
        )
