-- ===== src/Automaton/Dominators.antt =====
-- The common dominators of a set of transitions (src/Automaton/CfaUtils.cpp), by rows of bits over a
-- topological order. A bitset is the list of its bits, and all have the size `numLocs`.
use gazer.Base.{
  ℕ, zero, suc, ◌+◌, ◌-◌, ◌^◌, Bool, true, false, List, [], ◌∷◌, Option, none, some, replicate, set,
  get_elem?, length, ltb, leb, if◌then◌else◌, Result, fault, ok, Fault, ◌>>=◌, ◌>>◌, require,
  or_fault,
}
use gazer.Automaton.Cfa.{Transition}
pub mod Bits
pub mod Rows
pub mod Common
pub mod Extreme
pub mod Order
pub mod Predecessors
pub mod Lowest
pub mod Successors
pub mod Highest

-- the subtraction of size_t
unfoldable pub sub_size : ℕ → ℕ → ℕ
sub_size a b = if leb b a then a - b else a + 2 ^ 64 - b

-- operator& on bitsets
unfoldable pub and_bits : List Bool → List Bool → List Bool
and_bits (true ∷ xs) (y ∷ ys) = y ∷ and_bits xs ys
and_bits (false ∷ xs) (y ∷ ys) = false ∷ and_bits xs ys
and_bits _ _ = []

unfoldable pub test_bit : List Bool → ℕ → Bool
test_bit [] i = false
test_bit (b ∷ bits) zero = b
test_bit (b ∷ bits) (suc i) = test_bit bits i

-- The loops over edges: `bits` is intersected with the row of each edge that is not skipped. A row out
-- of bounds is undefined behaviour.
module _ (row_of : Transition → Result (Option ℕ)) (rows : List (List Bool)) where
  unfoldable pub and_edges : List Transition → List Bool → Result (List Bool)
  unfolding and_bits
  and_edges [] bits = ok bits
  and_edges (edge ∷ edges) bits = row_of edge >>= λ o. elim o [
    | none ↦ and_edges edges bits
    | some k ↦ or_fault Fault.undefined_behaviour (get_elem? rows k) >>= λ row.
        and_edges edges (and_bits bits row)
  ]

-- The rows from `i` on, the rows before it being there: `size` bits each, `count` rows.
module _ (size : ℕ) (row_of : ℕ → Transition → Result (Option ℕ))
    (edges_of : ℕ → Result (List Transition)) where
  unfoldable pub row : ℕ → List (List Bool) → Result (List Bool)
  unfolding and_edges
  row i rows = do
    edges ← edges_of i
    bits ← and_edges (row_of i) rows edges (replicate size true)
    ok (set bits i true)

  unfoldable pub fill : (count i : ℕ) → List (List Bool) → Result (List (List Bool))
  unfolding row
  fill zero i rows = ok rows
  fill (suc count) i rows = row i rows >>= λ bits. fill count (suc i) (set rows i bits)

-- The rows before the loop: row 0 has bit 0.
unfoldable pub first_rows : ℕ → List (List Bool)
first_rows size = set (replicate size (replicate size false)) 0 (set (replicate size false) 0 true)

-- The loop for the highest set bit, from `i` down.
unfoldable pub highest_bit : List Bool → ℕ → ℕ
unfolding test_bit
highest_bit bits zero = 0
highest_bit bits (suc i) = elim (test_bit bits (suc i)) [
  | true ↦ suc i
  | false ↦ highest_bit bits i
]

-- std::max_element and std::min_element: an edge takes the place of the best so far where the test says
-- so, and the first of several equal ones stays.
module _ (replaces : Transition → Transition → Bool) where
  unfoldable pub better : Transition → Transition → Transition
  better best edge = if replaces best edge then edge else best

  unfoldable pub extreme_element : Transition → List Transition → Transition
  unfolding better
  extreme_element best [] = best
  extreme_element best (edge ∷ edges) = extreme_element (better best edge) edges

module _ (index : ℕ → ℕ) where
  -- the comparison by the index of the source
  unfoldable pub source_before : Transition → Transition → Bool
  source_before a b = ltb (index a.source) (index b.source)

  unfoldable pub source_after : Transition → Transition → Bool
  unfolding source_before
  source_after a b = source_before b a

-- What both functions do from the row of an edge, with `size` locations between start and last.
module _ (size : ℕ) (row_of : ℕ → Transition → Result (Option ℕ))
    (edges_of : ℕ → Result (List Transition)) (target_row : Transition → ℕ) where
  unfoldable pub common_bit : List Transition → Result ℕ
  unfolding fill first_rows and_edges test_bit highest_bit
  common_bit targets = do
    rows ← fill size row_of edges_of (size - 1) 1 (first_rows size)
    common ← and_edges (λ edge. ok (some (target_row edge))) rows targets (replicate size true)
    require (test_bit common 0)
    ok (highest_bit common (length common - 1))

-- topo[k]
unfoldable pub location_at : List ℕ → ℕ → Result ℕ
location_at topo k = or_fault Fault.undefined_behaviour (get_elem? topo k)

-- A null start stands for the first location.
unfoldable pub start_or_first : List ℕ → Option ℕ → Result ℕ
unfolding location_at
start_or_first topo none = location_at topo 0
start_or_first topo (some location) = ok location

-- `index` is the position of a location in `topo`.
module _ (index : ℕ → ℕ) where
  -- The predecessor of an incoming edge of row `i`: before the start, it is skipped.
  unfoldable pub predecessor_row : (start i : ℕ) → Transition → Result (Option ℕ)
  predecessor_row start i edge =
      require (ltb (index edge.source) (i + start))
      >> ok (if ltb (index edge.source) start then none else some (index edge.source - start))

  -- The successor of an outgoing edge: after the start, it is skipped.
  unfoldable pub successor_row : (start i : ℕ) → Transition → Result (Option ℕ)
  successor_row start i edge =
      ok (if ltb start (index edge.target) then none else some (start - index edge.target))

-- `incoming` and `outgoing` read the heap.
module _ (topo : List ℕ) (index : ℕ → ℕ) (incoming : ℕ → List Transition) where
  unfoldable pub find_lowest_common_dominator : List Transition → Option ℕ → Result (Option ℕ)
  unfolding start_or_first location_at sub_size extreme_element source_before common_bit
      predecessor_row
  find_lowest_common_dominator [] start = ok none
  find_lowest_common_dominator (edge ∷ edges) start = do
    start_location ← start_or_first topo start
    let first = index start_location
    let last = index ((extreme_element (source_before index) edge edges).target)
    require (ltb first last)
    common ←
        common_bit (last - first) (predecessor_row index first)
          (λ i. location_at topo (first + i) >>= λ location. ok (incoming location))
          (λ target. sub_size (index target.source) first) (edge ∷ edges)
    found ← location_at topo (common + first)
    ok (some found)

module _ (topo : List ℕ) (index : ℕ → ℕ) (outgoing : ℕ → List Transition) where
  unfoldable pub find_highest_common_post_dominator :
      (exit : ℕ) → List Transition → Option ℕ → Result (Option ℕ)
  unfolding location_at sub_size extreme_element source_after common_bit successor_row
  find_highest_common_post_dominator exit [] start = ok none
  find_highest_common_post_dominator exit (edge ∷ edges) start = do
    let first = index (elim start [ none ↦ exit | some location ↦ location ])
    let last = index ((extreme_element (source_after index) edge edges).source)
    require (ltb last first)
    common ←
        common_bit (first - last) (successor_row index first)
          (λ i. location_at topo (sub_size first i) >>= λ location. ok (outgoing location))
          (λ target. sub_size first (index target.target)) (edge ∷ edges)
    found ← location_at topo (sub_size first common)
    ok (some found)
