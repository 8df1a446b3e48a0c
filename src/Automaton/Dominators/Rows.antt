-- ===== src/Automaton/Dominators/Rows.antt =====
-- The rows of the dominator table: a bit is set where every path to the row's location passes through
-- the bit's location. Paths are given by the neighbours of a location towards the start.
use gazer.Base.{
  ℕ, zero, suc, ◌+◌, ◌<◌, ◌≡◌, ◌≢◌, refl, sym, ap, ◌∙◌, subst, ◌⊎◌, inl, inr, Bool, true, false,
  List, [], ◌∷◌, Option, none, some, replicate, set, get_elem?, length, Result, ok, arith, Memᴰ,
  length-set, length-replicate, get_elem?-set_self, get_elem?-set_other,
}
use gazer.Base.Memᴰ
use native.Mathlib.Decide.{ℕ_discrete}
use gazer.Automaton.Cfa.{Transition}
use gazer.Automaton.Dominators.{test_bit, row, fill, first_rows}
use gazer.Automaton.Dominators.Bits.{
  Reads, skipped, found, Meets, and_edges-Meets, test_bit-set_self, test_bit-set_other,
  test_bit-replicate,
}

-- The locations on a way from the start, the last one first.
module _ (neighbours : ℕ → List ℕ) (start : ℕ) where
  pub data Way : ℕ → List ℕ → Type 0 where
    here : Way start (start ∷ [])
    there :
        {before location : ℕ} {visited : List ℕ}
        → Way before visited
        → Memᴰ before (neighbours location)
        → Way location (location ∷ visited)

  pub Way-head : {location : ℕ} {visited : List ℕ} → Way location visited → Memᴰ location visited
  Way-head here = Memᴰ.head refl
  Way-head (there p m) = Memᴰ.head refl

  pub Way-start : {location : ℕ} {visited : List ℕ} → Way location visited → Memᴰ start visited
  Way-start here = Memᴰ.head refl
  Way-start (there p m) = Memᴰ.tail (Way-start p)

  pub Way-cases :
      {location : ℕ} {visited : List ℕ}
      → Way location visited
      → location ≢ start
      → (before : ℕ) × (rest : List ℕ) × Way before rest
        × Memᴰ before (neighbours location)
        × (visited ≡ location ∷ rest)
  Way-cases here other = absurd (other refl)
  Way-cases (there {before} {location} {visited} p m) other = (before, visited, p, m, refl)

  -- Every path passes through `through`; some path avoids it.
  unfoldable pub Dominates : (through location : ℕ) → Type 0
  Dominates through location = (visited : List ℕ) → Way location visited → Memᴰ through visited

  unfoldable pub Avoids : (through location : ℕ) → Type 0
  Avoids through location = (visited : List ℕ) × Way location visited × ¬ Memᴰ through visited

-- A region of `size` locations: row `i` is for `place i`, whose edges lead to earlier rows, one for each
-- neighbour that a path reaches.
module _ (size : ℕ) (row_of : ℕ → Transition → Result (Option ℕ))
    (edges_of : ℕ → Result (List Transition)) (neighbours : ℕ → List ℕ) (place : ℕ → ℕ) where
  pub record Region : Type 0 where
    pub edges_at : ℕ → List Transition
    pub nonempty : 0 < size
    pub place_injective : (i j : ℕ) → i < size → j < size → place i ≡ place j → i ≡ j
    pub edges : (i : ℕ) → 0 < i → i < size → edges_of i ≡ ok (edges_at i)
    pub earlier :
        (i : ℕ)
        → 0 < i
        → i < size
        → (edge : Transition) → Memᴰ edge (edges_at i)
        → (row_of i edge ≡ ok none)
          ⊎ ((k : ℕ) × (row_of i edge ≡ ok (some k))
              × (k < i)
              × Memᴰ (place k) (neighbours (place i)))
    pub reached :
        (i : ℕ)
        → 0 < i
        → i < size
        → (before : ℕ) (visited : List ℕ) → Way neighbours (place 0) before visited
        → Memᴰ before (neighbours (place i))
        → (edge : Transition) × (k : ℕ) × Memᴰ edge (edges_at i)
          × (row_of i edge ≡ ok (some k))
          × (place k ≡ before)

  -- What the bits of row `i` say.
  pub record IsRow (i : ℕ) (bits : List Bool) : Type 0 where
    pub sized : length bits ≡ size
    pub set_bit :
        (j : ℕ)
        → j < size
        → test_bit bits j ≡ true
        → Dominates neighbours (place 0) (place j) (place i)
    pub clear_bit :
        (j : ℕ)
        → j < size
        → test_bit bits j ≡ false
        → Avoids neighbours (place 0) (place j) (place i)

  pub record Filled (i : ℕ) (rows : List (List Bool)) : Type 0 where
    pub row_count : length rows ≡ size
    pub filled :
        (k : ℕ) → k < i → (bits : List Bool) × (get_elem? rows k ≡ some bits) × IsRow k bits

  module _ (region : Region) where
    Reads-rows :
        (i : ℕ)
        → 0 < i
        → i < size
        → (rows : List (List Bool)) → Filled i rows
        → (edge : Transition) → Memᴰ edge (region.edges_at i)
        → Reads (row_of i) rows size edge
    Reads-rows i pos below rows f edge mem = elim (region.earlier i pos below edge mem) [
      | inl s ↦ skipped s
      | inr (k, reads, before, _) ↦
          let (bits, got, r) = f.filled k before in found k bits reads got r.sized
    ]

    -- What a set bit and a clear one of the row's intersection say of the earlier rows.
    row-set_bit :
        (i : ℕ)
        → 0 < i
        → i < size
        → (rows : List (List Bool)) → Filled i rows
        → (result : List Bool)
        → Meets (row_of i) rows (region.edges_at i) (replicate size true) result
        → (j : ℕ) → j < size
        → test_bit result j ≡ true
        → Dominates neighbours (place 0) (place j) (place i)
    unfolding Dominates
    row-set_bit i pos below rows f result m j inside bit visited path =
        let far : place i ≢ place 0 =
          λ e. absurd (omega (arith, pos, region.place_injective i 0 below region.nonempty e)) in
        let (before, rest, p, near, shape) = Way-cases neighbours (place 0) path far in
        let (edge, k, mem, reads, at_k) = region.reached i pos below before rest p near in
        elim (region.earlier i pos below edge mem) [
          | inl s ↦ absurd (cc)
          | inr (k', reads', earlier, _) ↦
              let same_k : k' ≡ k = cc in
              let (bits, got, r) = f.filled k (subst (λ n. n < i) same_k earlier) in
              let set_there = m.row_bit j bit edge k bits mem reads got in
              let p' = subst (λ l. Way neighbours (place 0) l rest) (sym at_k) p in
              subst (λ v. Memᴰ (place j) v) (sym shape)
                (Memᴰ.tail (r.set_bit j inside set_there rest p'))
        ]

    row-clear_bit :
        (i : ℕ)
        → 0 < i
        → i < size
        → (rows : List (List Bool)) → Filled i rows
        → (result : List Bool)
        → Meets (row_of i) rows (region.edges_at i) (replicate size true) result
        → (j : ℕ) → j < size
        → i ≢ j
        → test_bit result j ≡ false
        → Avoids neighbours (place 0) (place j) (place i)
    unfolding Avoids
    row-clear_bit i pos below rows f result m j inside other clear = elim (m.clear_bit j clear) [
      | inl b ↦ absurd (cc (b, test_bit-replicate size true j inside))
      | inr (edge, k, bits, mem, reads, got, b) ↦ elim (region.earlier i pos below edge mem) [
        | inl s ↦ absurd (cc)
        | inr (k', reads', earlier, near) ↦
            let same_k : k' ≡ k = cc in
            let (bits', got', r) = f.filled k (subst (λ n. n < i) same_k earlier) in
            let same_bits : bits ≡ bits' = cc in
            let (visited, path, avoids) =
              r.clear_bit j inside (subst (λ x. test_bit x j ≡ false) same_bits b) in
            (
              place i ∷ visited,
              there path (subst (λ n. Memᴰ (place n) (neighbours (place i))) same_k near),
              λ through. elim (Memᴰ.cases_cons through) [
                | inl e ↦ other (region.place_injective i j below inside (sym e))
                | inr t ↦ avoids t
              ],
            )
      ]
    ]

    -- The row with its own bit set.
    Meets-IsRow :
        (i : ℕ)
        → 0 < i
        → i < size
        → (rows : List (List Bool)) → Filled i rows
        → (result : List Bool)
        → Meets (row_of i) rows (region.edges_at i) (replicate size true) result
        → IsRow i (set result i true)
    unfolding Dominates
    Meets-IsRow i pos below rows f result m =
        let sized : length result ≡ size = m.same_size ∙ length-replicate size true in
        let own = test_bit-set_self result i (omega (arith, sized, below)) in
        record {
          sized = length-set result i true ∙ sized;
          set_bit = λ j inside bit. elim (ℕ_discrete i j) [
            | yes same ↦ λ visited path.
                subst (λ n. Memᴰ (place n) visited) same (Way-head neighbours (place 0) path)
            | no other ↦
                row-set_bit i pos below rows f result m j inside
                  (sym (test_bit-set_other result true i j other) ∙ bit)
          ];
          clear_bit = λ j inside bit. elim (ℕ_discrete i j) [
            | yes same ↦ absurd (cc (own, ap (λ n. test_bit (set result i true) n) same, bit))
            | no other ↦
                row-clear_bit i pos below rows f result m j inside other
                  (sym (test_bit-set_other result true i j other) ∙ bit)
          ];
        }

    row-IsRow :
        (i : ℕ)
        → 0 < i
        → i < size
        → (rows : List (List Bool)) → Filled i rows
        → (bits : List Bool) × (row size row_of edges_of i rows ≡ ok bits) × IsRow i bits
    unfolding row
    row-IsRow i pos below rows f =
        let here_edges = region.edges i pos below in
        let (result, runs, m) =
          and_edges-Meets (row_of i) rows (region.edges_at i) (replicate size true) size
            (length-replicate size true) (Reads-rows i pos below rows f) in
        (set result i true, (cc), Meets-IsRow i pos below rows f result m)

    base-IsRow : IsRow 0 (set (replicate size false) 0 true)
    unfolding Dominates Avoids
    base-IsRow =
        let blank = length-replicate size false in
        let own =
          test_bit-set_self (replicate size false) 0 (omega (arith, blank, region.nonempty)) in
        record {
          sized = length-set (replicate size false) 0 true ∙ blank;
          set_bit = λ j inside bit. elim (ℕ_discrete 0 j) [
            | yes same ↦ λ visited path.
                subst (λ n. Memᴰ (place n) visited) same (Way-head neighbours (place 0) path)
            | no other ↦ absurd (
                cc (
                  bit,
                  test_bit-set_other (replicate size false) true 0 j other,
                  test_bit-replicate size false j inside,
                ))
          ];
          clear_bit = λ j inside bit. elim (ℕ_discrete 0 j) [
            | yes same ↦
                absurd
                  (cc (own, ap (λ n. test_bit (set (replicate size false) 0 true) n) same, bit))
            | no other ↦ (
              place 0 ∷ [],
              here,
              λ through. elim (Memᴰ.cases_cons through) [
                | inl e ↦ other (region.place_injective 0 j region.nonempty inside (sym e))
                | inr t ↦ Memᴰ.not-nil t
              ],
            )
          ];
        }

    pub first_rows-Filled : Filled 1 (first_rows size)
    unfolding first_rows
    first_rows-Filled =
        let blank = replicate size (replicate size false) in
        let top = set (replicate size false) 0 true in
        let long = length-replicate size (replicate size false) in
        record {
          row_count = length-set blank 0 top ∙ long;
          filled = λ k below. elim (ℕ_discrete k 0) [
            | yes same ↦
                subst
                  (λ n.
                    (bits : List Bool) × (get_elem? (set blank 0 top) n ≡ some bits) × IsRow n bits)
                  (sym same)
                  (
                    top,
                    get_elem?-set_self blank 0 top (omega (arith, long, region.nonempty)),
                    base-IsRow,
                  )
            | no other ↦ absurd (omega (arith, below, other))
          ];
        }

    Filled-set :
        (i : ℕ)
        → i < size
        → (rows : List (List Bool)) → Filled i rows
        → (bits : List Bool) → IsRow i bits
        → Filled (suc i) (set rows i bits)
    Filled-set i below rows f bits r = record {
      row_count = length-set rows i bits ∙ f.row_count;
      filled = λ k upto. elim (ℕ_discrete i k) [
        | yes same ↦
            subst (λ n. (b : List Bool) × (get_elem? (set rows i bits) n ≡ some b) × IsRow n b) same
              (bits, get_elem?-set_self rows i bits (omega (arith, f.row_count, below)), r)
        | no other ↦
            let (b, got, is_row) = f.filled k (omega arith) in
            (b, get_elem?-set_other rows i k bits other ∙ got, is_row)
      ];
    }

    pub fill-Filled :
        (count i : ℕ)
        → 0 < i
        → i + count ≡ size
        → (rows : List (List Bool)) → Filled i rows
        → (table : List (List Bool)) × (fill size row_of edges_of count i rows ≡ ok table)
          × Filled size table
    unfolding fill
    fill-Filled zero i pos total rows f =
        (rows, refl, subst (λ n. Filled n rows) (omega (arith, total)) f)
    fill-Filled (suc count) i pos total rows f =
        let (bits, made, r) = row-IsRow i pos (omega arith) rows f in
        let (table, runs, full) =
          fill-Filled count (suc i) (omega arith) (omega arith) (set rows i bits)
            (Filled-set i (omega arith) rows f bits r) in
        (table, (cc), full)
