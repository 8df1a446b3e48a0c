-- ===== src/Automaton/Variables/Fresh.antt =====
-- The search for a name that the context does not have.
use gazer.Base.{
  unsigned_size, ℕ, zero, suc, ◌+◌, ◌%◌, ◌<◌, ◌≤◌, ◌≡◌, ◌≢◌, refl, sym, ap, ◌∙◌, inl, inr, ◌⊎◌,
  Bool, true, false, Bool-cases, List, [], ◌∷◌, none, some, if◌then◌else◌, length, Memᴰ, ok,
  decided, arith,
}
use gazer.Automaton.Variables.{
  NamedVariable, Name-discrete, get_variable, is_taken, numbered_name, fresh_name,
}
use gazer.Automaton.Variables.Numerals.{numbered_name-injective}

remove_one :
    (x : List ℕ) (ys : List (List ℕ))
    → Memᴰ x ys
    → (rest : List (List ℕ)) × (length ys ≡ suc (length rest))
      × ((y : List ℕ) → y ≢ x → Memᴰ y ys → Memᴰ y rest)
remove_one x [] m = elim m [ ]
remove_one x (z ∷ ys) (Memᴰ.head same) = (
  ys,
  refl,
  λ y other m. elim m [
    | Memᴰ.head here ↦ absurd (other (here ∙ sym same))
    | Memᴰ.tail there ↦ there
  ],
)
remove_one x (z ∷ ys) (Memᴰ.tail m) =
    let (rest, count, keeps) = remove_one x ys m in
    (
      z ∷ rest,
      ap suc count,
      λ y other m'. elim m' [
        | Memᴰ.head here ↦ Memᴰ.head here
        | Memᴰ.tail there ↦ Memᴰ.tail (keeps y other there)
      ],
    )

-- There are not more different members of a list than its length.
length-bounds :
    (k : ℕ) (f : ℕ → List ℕ) (ys : List (List ℕ))
    → ((i j : ℕ) → i < k → j < k → f i ≡ f j → i ≡ j)
    → ((i : ℕ) → i < k → Memᴰ (f i) ys)
    → k ≤ length ys
length-bounds zero f ys apart in_list = omega arith
length-bounds (suc k) f ys apart in_list =
    let (rest, count, keeps) = remove_one (f k) ys (in_list k (omega arith)) in
    let fewer =
      length-bounds k f rest (λ i j a b same. apart i j (omega arith) (omega arith) same)
        (λ i a.
          keeps (f i)
            (λ same. let twice = apart i k (omega arith) (omega arith) same in absurd (omega arith))
            (in_list i (omega arith))) in
    omega arith

keys : List NamedVariable → List (List ℕ)
keys [] = []
keys (v ∷ table) = v.key ∷ keys table

length-keys : (table : List NamedVariable) → length (keys table) ≡ length table
unfolding keys
length-keys [] = refl
length-keys (v ∷ table) = ap suc (length-keys table)

taken-mem :
    (name : List ℕ) (table : List NamedVariable)
    → is_taken name table ≡ true
    → Memᴰ name (keys table)
unfolding is_taken get_variable keys
taken-mem name [] taken = absurd (cc)
taken-mem name (v ∷ table) taken =
    elim (Name-discrete name v.key)
        as (λ d.
          (elim (if decided d then some v.variable else get_variable name table) as (λ _. Bool) [
            | some v ↦ true
            | none ↦ false
          ])
            ≡ true
          → Memᴰ name (v.key ∷ keys table)) [
            | yes same ↦ λ _. Memᴰ.head same
            | no other ↦ λ later. Memᴰ.tail (taken-mem name table later)
          ]
      taken

-- The names that the loop tries.
tried : List ℕ → ℕ → List ℕ → ℕ → List ℕ
tried base tmp name zero = name
tried base tmp name (suc i) = tried base ((tmp + 1) % unsigned_size) (numbered_name base tmp) i

tried-next :
    (base : List ℕ) (tmp : ℕ) (name : List ℕ) (i : ℕ)
    → tmp < unsigned_size
    → tried base tmp name (suc i) ≡ numbered_name base ((tmp + i) % unsigned_size)
unfolding tried
tried-next base tmp name zero below = ap (numbered_name base) (omega arith)
tried-next base tmp name (suc i) below =
    tried-next base ((tmp + 1) % unsigned_size) (numbered_name base tmp) i (omega arith)
    ∙ ap (numbered_name base) (omega arith)

-- A name that the table lacks, and the next number for a name.
unfoldable pub IsFound : List NamedVariable → List ℕ × ℕ → Type 0
IsFound table found = (is_taken found.0 table ≡ false) × (found.1 < unsigned_size)

tried-all :
    (fuel : ℕ) (table : List NamedVariable) (base : List ℕ) (tmp : ℕ) (name : List ℕ)
    → is_taken name table ≡ true
    → ((i : ℕ)
        → i < fuel
        → is_taken (tried base ((tmp + 1) % unsigned_size) (numbered_name base tmp) i) table ≡ true)
    → (i : ℕ) → i < suc fuel
    → is_taken (tried base tmp name i) table ≡ true
unfolding tried
tried-all fuel table base tmp name taken all zero less = taken
tried-all fuel table base tmp name taken all (suc i) less = all i (omega arith)

different :
    (base : List ℕ) (tmp : ℕ) (name : List ℕ) (i j : ℕ)
    → tmp < unsigned_size
    → i < unsigned_size
    → j < unsigned_size
    → tried base tmp name (suc i) ≡ tried base tmp name (suc j)
    → i ≡ j
different base tmp name i j below less less' same =
    let numbers : (tmp + i) % unsigned_size ≡ (tmp + j) % unsigned_size =
      numbered_name-injective base _ _ (omega arith) (omega arith)
        (sym (tried-next base tmp name i below) ∙ same ∙ tried-next base tmp name j below) in
    omega arith

search_cases :
    (fuel : ℕ) (table : List NamedVariable) (base : List ℕ) (tmp : ℕ) (name : List ℕ)
    → tmp < unsigned_size
    → ((found : List ℕ × ℕ) × (fresh_name fuel table base tmp name ≡ ok found)
        × IsFound table found)
      ⊎ ((i : ℕ) → i < fuel → is_taken (tried base tmp name i) table ≡ true)
unfolding fresh_name tried IsFound
search_cases zero table base tmp name below = inr (λ i less. absurd (omega arith))
search_cases (suc fuel) table base tmp name below = elim (Bool-cases (is_taken name table)) [
  | inl taken ↦
      elim (search_cases fuel table base ((tmp + 1) % unsigned_size) (numbered_name base tmp)
        (omega arith)) [
          | inl (found, is, good) ↦ inl (found, rw (taken, fresh_name) is, good)
          | inr all ↦ inr (tried-all fuel table base tmp name taken all)
        ]
  | inr free ↦ inl ((name, tmp), rw (free, fresh_name) refl, (free, below))
]

-- With less than 2 ^ 32 variables in the table, the loop ends within two rounds more than there are.
pub fresh_name-IsFound :
    (fuel : ℕ) (table : List NamedVariable) (base : List ℕ) (tmp : ℕ) (name : List ℕ)
    → tmp < unsigned_size
    → length table < unsigned_size
    → length table + 2 ≤ fuel
    → (found : List ℕ × ℕ) × (fresh_name fuel table base tmp name ≡ ok found) × IsFound table found
fresh_name-IsFound fuel table base tmp name below few enough =
    elim (search_cases fuel table base tmp name below) [
      | inl found ↦ found
      | inr all ↦
          let count = length-keys table in
          let bounds =
            length-bounds (suc (length table)) (λ i. tried base tmp name (suc i)) (keys table)
              (λ i j a b same. different base tmp name i j below (omega arith) (omega arith) same)
              (λ i a. taken-mem (tried base tmp name (suc i)) table (all (suc i) (omega arith))) in
          absurd (omega arith)
    ]

-- A name that the table lacks is kept.
pub fresh_name-free :
    (fuel : ℕ) (table : List NamedVariable) (base : List ℕ) (tmp : ℕ) (name : List ℕ)
    → is_taken name table ≡ false
    → 0 < fuel
    → fresh_name fuel table base tmp name ≡ ok (name, tmp)
unfolding fresh_name
fresh_name-free zero table base tmp name free some_fuel = absurd (omega arith)
fresh_name-free (suc fuel) table base tmp name free some_fuel = rw (free, fresh_name) refl
