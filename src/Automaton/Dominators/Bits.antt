-- ===== src/Automaton/Dominators/Bits.antt =====
-- Lemmas on bitsets: a bit after an assignment, and after an intersection over edges.
use gazer.Base.{
  ℕ, zero, suc, ◌<◌, ◌≡◌, ◌≢◌, refl, ◌⊎◌, inl, inr, Bool, true, false, List, [], ◌∷◌, Option, none,
  some, replicate, set, get_elem?, length, Result, ok, arith, Memᴰ, sym, ◌∙◌, subst,
}
use gazer.Base.Memᴰ
use gazer.Automaton.Cfa.{Transition}
use gazer.Automaton.Dominators.{and_bits, test_bit, and_edges}

pub test_bit-set_self :
    (bits : List Bool) (i : ℕ) → i < length bits → test_bit (set bits i true) i ≡ true
unfolding test_bit
test_bit-set_self [] i h = absurd (omega (arith, h))
test_bit-set_self (b ∷ bits) zero h = refl
test_bit-set_self (b ∷ bits) (suc i) h = test_bit-set_self bits i (omega arith)

pub test_bit-set_other :
    (bits : List Bool) (v : Bool) (i j : ℕ) → i ≢ j → test_bit (set bits i v) j ≡ test_bit bits j
unfolding test_bit
test_bit-set_other [] v i j h = refl
test_bit-set_other (b ∷ bits) v zero zero h = absurd (h refl)
test_bit-set_other (b ∷ bits) v zero (suc j) h = refl
test_bit-set_other (b ∷ bits) v (suc i) zero h = refl
test_bit-set_other (b ∷ bits) v (suc i) (suc j) h = test_bit-set_other bits v i j (λ e. h (cc))

pub test_bit-replicate : (n : ℕ) (v : Bool) (i : ℕ) → i < n → test_bit (replicate n v) i ≡ v
unfolding test_bit
test_bit-replicate zero v i h = absurd (omega (arith, h))
test_bit-replicate (suc n) v zero h = refl
test_bit-replicate (suc n) v (suc i) h = test_bit-replicate n v i (omega arith)

pub length-and_bits :
    (xs ys : List Bool) → length ys ≡ length xs → length (and_bits xs ys) ≡ length xs
unfolding and_bits
length-and_bits [] ys h = refl
length-and_bits (x ∷ xs) [] h = absurd (omega (arith, h))
length-and_bits (true ∷ xs) (y ∷ ys) h = omega (arith, length-and_bits xs ys (omega (arith, h)))
length-and_bits (false ∷ xs) (y ∷ ys) h = omega (arith, length-and_bits xs ys (omega (arith, h)))

pub test_bit-and_true :
    (xs ys : List Bool) (i : ℕ)
    → test_bit (and_bits xs ys) i ≡ true
    → (test_bit xs i ≡ true) × (test_bit ys i ≡ true)
unfolding and_bits test_bit
test_bit-and_true [] ys i h = cc
test_bit-and_true (true ∷ xs) [] i h = cc
test_bit-and_true (false ∷ xs) [] i h = cc
test_bit-and_true (true ∷ xs) (y ∷ ys) zero h = (refl, h)
test_bit-and_true (false ∷ xs) (y ∷ ys) zero h = cc
test_bit-and_true (true ∷ xs) (y ∷ ys) (suc i) h = test_bit-and_true xs ys i h
test_bit-and_true (false ∷ xs) (y ∷ ys) (suc i) h = test_bit-and_true xs ys i h

pub test_bit-and_false :
    (xs ys : List Bool) (i : ℕ)
    → length ys ≡ length xs
    → test_bit (and_bits xs ys) i ≡ false
    → (test_bit xs i ≡ false) ⊎ (test_bit ys i ≡ false)
unfolding and_bits test_bit
test_bit-and_false [] ys i e h = inl refl
test_bit-and_false (x ∷ xs) [] i e h = inr refl
test_bit-and_false (true ∷ xs) (y ∷ ys) zero e h = inr h
test_bit-and_false (false ∷ xs) (y ∷ ys) zero e h = inl refl
test_bit-and_false (true ∷ xs) (y ∷ ys) (suc i) e h =
    test_bit-and_false xs ys i (omega (arith, e)) h
test_bit-and_false (false ∷ xs) (y ∷ ys) (suc i) e h =
    test_bit-and_false xs ys i (omega (arith, e)) h

module _ (row_of : Transition → Result (Option ℕ)) (rows : List (List Bool)) where
  -- The edge is skipped, or the row of the edge is there.
  pub data Reads (size : ℕ) : Transition → Type 0 where
    skipped : {edge : Transition} → row_of edge ≡ ok none → Reads size edge
    found :
        {edge : Transition} (k : ℕ) (row : List Bool)
        → row_of edge ≡ ok (some k)
        → get_elem? rows k ≡ some row
        → length row ≡ size
        → Reads size edge

  -- The bit of `result` is the conjunction of the bit of `bits` and those in the rows of the edges.
  pub record Meets (edges : List Transition) (bits result : List Bool) : Type 0 where
    pub same_size : length result ≡ length bits
    pub start_bit : (j : ℕ) → test_bit result j ≡ true → test_bit bits j ≡ true
    pub row_bit :
        (j : ℕ)
        → test_bit result j ≡ true
        → (edge : Transition) (k : ℕ) (row : List Bool) → Memᴰ edge edges
        → row_of edge ≡ ok (some k)
        → get_elem? rows k ≡ some row
        → test_bit row j ≡ true
    pub clear_bit :
        (j : ℕ)
        → test_bit result j ≡ false
        → (test_bit bits j ≡ false)
          ⊎ ((edge : Transition) × (k : ℕ) × (row : List Bool) × Memᴰ edge edges
              × (row_of edge ≡ ok (some k))
              × (get_elem? rows k ≡ some row)
              × (test_bit row j ≡ false))

  Meets-skip :
      {edge : Transition} {edges : List Transition} {bits result : List Bool}
      → row_of edge ≡ ok none
      → Meets edges bits result
      → Meets (edge ∷ edges) bits result
  Meets-skip {edge} none_here m = record {
    same_size = m.same_size;
    start_bit = m.start_bit;
    row_bit = λ j h e k row mem r g. elim (Memᴰ.cases_cons mem) [
      | inl same ↦ absurd (cc)
      | inr later ↦ m.row_bit j h e k row later r g
    ];
    clear_bit = λ j h. elim (m.clear_bit j h) [
      | inl b ↦ inl b
      | inr (e, k, row, mem, r, g, b) ↦ inr (e, k, row, Memᴰ.tail mem, r, g, b)
    ];
  }

  Meets-found :
      {edge : Transition} {edges : List Transition} {bits result : List Bool} (k : ℕ)
      (row : List Bool)
      → row_of edge ≡ ok (some k)
      → get_elem? rows k ≡ some row
      → length row ≡ length bits
      → Meets edges (and_bits bits row) result
      → Meets (edge ∷ edges) bits result
  Meets-found {edge} {edges} {bits} k row reads got sized m = record {
    same_size = m.same_size ∙ length-and_bits bits row sized;
    start_bit = λ j h. (test_bit-and_true bits row j (m.start_bit j h)).0;
    row_bit = λ j h e k' row' mem r g. elim (Memᴰ.cases_cons mem) [
      | inl same ↦
          subst (λ x. test_bit x j ≡ true) (cc) ((test_bit-and_true bits row j (m.start_bit j h)).1)
      | inr later ↦ m.row_bit j h e k' row' later r g
    ];
    clear_bit = λ j h. elim (m.clear_bit j h) [
      | inl b ↦ elim (test_bit-and_false bits row j sized b) [
        | inl b' ↦ inl b'
        | inr b' ↦ inr (edge, k, row, Memᴰ.head refl, reads, got, b')
      ]
      | inr (e, k', row', mem, r, g, b) ↦ inr (e, k', row', Memᴰ.tail mem, r, g, b)
    ];
  }

  pub and_edges-Meets :
      (edges : List Transition) (bits : List Bool) (size : ℕ)
      → length bits ≡ size
      → ((edge : Transition) → Memᴰ edge edges → Reads size edge)
      → (result : List Bool) × (and_edges row_of rows edges bits ≡ ok result)
        × Meets edges bits result
  unfolding and_edges
  and_edges-Meets [] bits size sized reads = (
    bits,
    refl,
    record {
      same_size = refl;
      start_bit = λ j h. h;
      row_bit = λ j h edge k row m. absurd (Memᴰ.not-nil m);
      clear_bit = λ j h. inl h;
    },
  )
  and_edges-Meets (edge ∷ edges) bits size sized reads = elim (reads edge (Memᴰ.head refl)) [
    | skipped s ↦
        let (result, runs, m) =
          and_edges-Meets edges bits size sized (λ e mem. reads e (Memᴰ.tail mem)) in
        (result, (cc), Meets-skip s m)
    | found k row r got long ↦
        let (result, runs, m) =
          and_edges-Meets edges (and_bits bits row) size
            (length-and_bits bits row (long ∙ sym sized) ∙ sized)
            (λ e mem. reads e (Memᴰ.tail mem)) in
        (result, (cc), Meets-found k row r got (long ∙ sym sized) m)
  ]
