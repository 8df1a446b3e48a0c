-- ===== src/Automaton/Variables/Found.antt =====
-- Looking a new input up by its name.
use gazer.Base.{
  unsigned_size, ℕ, suc, ◌+◌, ◌<◌, ◌≤◌, ◌≡◌, ◌≢◌, ◌↔◌, refl, sym, ap, ◌∙◌, inl, inr, Bool, true,
  false, Bool-cases, List, [], ◌∷◌, ◌++◌, Option, none, some, if◌then◌else◌, length, ok, decided,
  decided_intro, decided-true, ◌==◌, ==_iff, arith,
}
use gazer.Core.Expr.{Variable}
use gazer.Automaton.Variables.{
  NamedVariable, Name-discrete, Members, get_variable, create_variable, base_name, is_taken,
  fresh_name, add_variable, create_member_variable, create_input, index_in, if_contained,
  find_variable_by_name, find_input_by_name,
}
use gazer.Automaton.Variables.Fresh.{IsFound, fresh_name-IsFound, fresh_name-free}

-- No name of the table has the variable.
unfoldable pub IsNew : Variable → List NamedVariable → Type 0
IsNew v table = (name : List ℕ) → get_variable name table ≢ some v

taken-eq :
    (name : List ℕ) (table : List NamedVariable)
    → is_taken name table ≡ false
    → get_variable name table ≡ none
unfolding is_taken
taken-eq name table free =
    elim (get_variable name table)
        as (λ o. (elim o as (λ _. Bool) [ some v ↦ true | none ↦ false ]) ≡ false → o ≡ none) [
          | some v ↦ λ h. absurd (cc)
          | none ↦ λ h. refl
        ]
      free

free_name :
    (name : List ℕ) (table : List NamedVariable)
    → get_variable name table ≡ none
    → is_taken name table ≡ false
unfolding is_taken
free_name name table absent = rw (absent, is_taken) refl

index_in-last : (v : Variable) (vs : List Variable) → (i : ℕ) × (index_in v (vs ++ v ∷ []) ≡ some i)
unfolding index_in
index_in-last v [] =
    let same : (v.id == v.id) ≡ true = (==_iff v.id v.id).1 refl in (0, rw (same, index_in) refl)
index_in-last v (w ∷ vs) = elim (Bool-cases (v.id == w.id)) [
  | inl here ↦ (0, rw (here, index_in) refl)
  | inr later ↦ let (i, is) = index_in-last v vs in (suc i, rw (later, index_in) (rw is refl))
]

found_in :
    (vec : List Variable) (name : List ℕ) (b : Members) (o : Option Variable)
    → get_variable (base_name b.name name) b.table ≡ o
    → find_variable_by_name vec name b
      ≡ (elim o as (λ _. Option Variable) [ none ↦ none | some w ↦ if_contained vec w ])
unfolding find_variable_by_name
found_in vec name b o is =
    ap (λ p. elim p as (λ _. Option Variable) [ none ↦ none | some w ↦ if_contained vec w ]) is

if_contained-eq : (vec : List Variable) (w v : Variable) → if_contained vec w ≡ some v → w ≡ v
unfolding if_contained
if_contained-eq vec w v =
    elim (index_in w vec)
      as (λ o.
        (elim o as (λ _. Option Variable) [ some i ↦ some w | none ↦ none ]) ≡ some v → w ≡ v) [
          | some i ↦ λ h. cc
          | none ↦ λ h. absurd (cc)
        ]

-- The input that createInput gives, found by its name.
module _ (fuel : ℕ) (v : Variable) (name : List ℕ) (a : Members) where
  input_of : List ℕ × ℕ → Members
  unfolding add_variable
  input_of found = record (add_variable v name found.0 found.1 a) { inputs = a.inputs ++ v ∷ [] }

  created :
      (found : List ℕ × ℕ)
      → fresh_name fuel a.table (base_name a.name name) a.tmp (base_name a.name name) ≡ ok found
      → create_input fuel v name a ≡ ok (input_of found)
  unfolding create_input create_member_variable input_of
  created found is = rw is refl

  lookup :
      (found : List ℕ × ℕ) (other : List ℕ)
      → get_variable other (input_of found).table
        ≡ (if decided (Name-discrete other found.0) then some v else get_variable other a.table)
  unfolding input_of add_variable create_variable get_variable
  lookup found other = refl

  look_for :
      (found : List ℕ × ℕ) (o : Option Variable)
      → get_variable (base_name a.name name) (input_of found).table ≡ o
      → find_input_by_name name (input_of found) ≡ (elim o as (λ _. Option Variable) [
        | none ↦ none
        | some w ↦ if_contained (a.inputs ++ v ∷ []) w
      ])
  unfolding find_input_by_name input_of add_variable
  look_for found o is = found_in (a.inputs ++ v ∷ []) name (input_of found) o is

  found_first :
      (found : List ℕ × ℕ)
      → found.0 ≡ base_name a.name name
      → find_input_by_name name (input_of found) ≡ some v
  unfolding if_contained
  found_first found same =
      let here : decided (Name-discrete (base_name a.name name) found.0) ≡ true =
        decided_intro (Name-discrete (base_name a.name name) found.0) (sym same) in
      let (i, last) = index_in-last v a.inputs in
      look_for found (some v) (lookup found (base_name a.name name) ∙ rw here refl)
      ∙ rw (last, if_contained) refl

  other_one :
      (found : List ℕ × ℕ) (o : Option Variable)
      → IsNew v a.table
      → get_variable (base_name a.name name) a.table ≡ o
      → get_variable (base_name a.name name) (input_of found).table ≡ o
      → find_input_by_name name (input_of found) ≡ some v
      → o ≡ none
  unfolding IsNew
  other_one found none new old now is = refl
  other_one found (some w) new old now is =
      let same : w ≡ v =
        if_contained-eq (a.inputs ++ v ∷ []) w v (sym (look_for found (some w) now) ∙ is) in
      absurd (new (base_name a.name name) (old ∙ ap some same))

  found_only :
      (found : List ℕ × ℕ)
      → IsNew v a.table
      → is_taken found.0 a.table ≡ false
      → find_input_by_name name (input_of found) ≡ some v
      → get_variable (base_name a.name name) a.table ≡ none
  unfolding IsNew
  found_only found new free is =
      elim (Bool-cases (decided (Name-discrete (base_name a.name name) found.0))) [
        | inl here ↦
            let same = decided-true (Name-discrete (base_name a.name name) found.0) here in
            taken-eq (base_name a.name name) a.table (ap (λ n. is_taken n a.table) same ∙ free)
        | inr there ↦
            let before = lookup found (base_name a.name name) ∙ rw there refl in
            other_one found (get_variable (base_name a.name name) a.table) new refl before is
      ]

  kept :
      (found : List ℕ × ℕ)
      → fresh_name fuel a.table (base_name a.name name) a.tmp (base_name a.name name) ≡ ok found
      → get_variable (base_name a.name name) a.table ≡ none
      → 0 < fuel
      → found.0 ≡ base_name a.name name
  kept found is absent some_fuel =
      let free : is_taken (base_name a.name name) a.table ≡ false =
        free_name (base_name a.name name) a.table absent in
      let same =
        fresh_name-free fuel a.table (base_name a.name name) a.tmp (base_name a.name name) free
          some_fuel in
      let pairs : found ≡ (base_name a.name name, a.tmp) = cc in ap (λ p. p.0) pairs

  -- Where mTmp and the number of the context's variables are below 2 ^ 32, and with two rounds more than there
  -- are variables, createInput ends, with a name that the context did not have, under which it has the new
  -- variable, and all others as before; the input is then found by the name that was given exactly where
  -- the context had no variable of the automaton's name with that name.
  pub create_input-finds :
      a.tmp < unsigned_size
      → length a.table < unsigned_size
      → length a.table + 2 ≤ fuel
      → IsNew v a.table
      → (b : Members) × (new_name : List ℕ) × (create_input fuel v name a ≡ ok b)
        × (get_variable new_name a.table ≡ none)
        × ((other : List ℕ)
            → get_variable other b.table ≡ (
                if decided (Name-discrete other new_name)
                then some v
                else get_variable other a.table))
        × ((find_input_by_name name b ≡ some v)
            ↔ (get_variable (base_name a.name name) a.table ≡ none))
  unfolding IsFound
  create_input-finds below few enough new =
      let (found, is, (free, _)) =
        fresh_name-IsFound fuel a.table (base_name a.name name) a.tmp (base_name a.name name) below
          few enough in
      (
        input_of found,
        found.0,
        created found is,
        taken-eq found.0 a.table free,
        lookup found,
        (
          found_only found new free,
          λ absent. found_first found (kept found is absent (omega arith)),
        ),
      )
