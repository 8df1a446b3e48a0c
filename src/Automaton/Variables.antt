-- ===== src/Automaton/Variables.antt =====
-- The variables of an automaton (src/Automaton/Cfa.cpp) and of its context (src/Core/GazerContext.cpp).
-- A name is the list of its character codes, a variable's address its `id`.
use gazer.Base.{
  unsigned_size, ℕ, zero, suc, ◌+◌, ◌*◌, ◌/◌, ◌%◌, ◌≡◌, Bool, true, false, List, [], ◌∷◌, ◌++◌,
  Option, none, some, ltb, ◌==◌, if◌then◌else◌, decided, Result, ok, fault, Fault, ◌>>=◌, or_fault,
  ℕ_discrete,
}
use gazer.Core.Ty.{Ty}
use gazer.Core.Expr.{Variable}
use gazer.Support.Graph.{update}
pub mod Numerals
pub mod Fresh
pub mod Found

abbrev pub slash : ℕ
slash = 47

abbrev pub underscore : ℕ
underscore = 95

abbrev pub digit_zero : ℕ
digit_zero = 48

-- The decimal numeral of a number before a text.
unfoldable pub digits_before : ℕ → ℕ → List ℕ → List ℕ
digits_before zero n text = (digit_zero + n) ∷ text
digits_before (suc fuel) n text =
    let more = digits_before fuel (n / 10) ((digit_zero + n % 10) ∷ text) in
    if ltb n 10 then (digit_zero + n) ∷ text else more

-- std::to_string of an unsigned number, which has ten digits at most
unfoldable pub to_string : ℕ → List ℕ
unfolding digits_before
to_string n = digits_before 9 n []

pub Name-discrete : Discrete (List ℕ)
Name-discrete = hlevel (ℕ_discrete)

-- VariableTable of the context
pub record NamedVariable : Type 0 where
  pub key : List ℕ
  pub variable : Variable

-- GazerContext::getVariable; a missing key gives a null pointer
unfoldable pub get_variable : List ℕ → List NamedVariable → Option Variable
unfolding Name-discrete
get_variable name [] = none
get_variable name (v ∷ table) =
    let rest = get_variable name table in
    if decided (Name-discrete name v.key) then some v.variable else rest

-- GazerContext::createVariable, with the address that `new` gives; the lookup finds the last one of a key
unfoldable pub create_variable : List ℕ → Variable → List NamedVariable → List NamedVariable
create_variable name v table = record { key = name; variable = v } ∷ table

-- The members of Cfa that concern its variables, and the context's table.
pub record Members : Type 0 where
  pub table : List NamedVariable
  pub name : List ℕ
  pub inputs : List Variable
  pub outputs : List Variable
  pub locals : List Variable
  pub symbol_names : ℕ → Option (List ℕ)
  pub tmp : ℕ

unfoldable pub base_name : List ℕ → List ℕ → List ℕ
base_name owner name = owner ++ slash ∷ name

unfoldable pub numbered_name : List ℕ → ℕ → List ℕ
unfolding to_string
numbered_name base tmp = base ++ underscore ∷ to_string tmp

unfoldable pub is_taken : List ℕ → List NamedVariable → Bool
unfolding get_variable
is_taken name table = elim (get_variable name table) [ some v ↦ true | none ↦ false ]

-- The loop of createMemberVariable: the name that it ends with, and mTmp.
unfoldable pub fresh_name : ℕ → List NamedVariable → List ℕ → ℕ → List ℕ → Result (List ℕ × ℕ)
unfolding numbered_name
fresh_name zero table base tmp name = fault Fault.out_of_fuel
fresh_name (suc fuel) table base tmp name = elim (is_taken name table) [
  | false ↦ ok (name, tmp)
  | true ↦ fresh_name fuel table base ((tmp + 1) % unsigned_size) (numbered_name base tmp)
]

unfoldable pub add_variable : Variable → List ℕ → List ℕ → ℕ → Members → Members
unfolding create_variable update
add_variable v name new_name tmp a = record a {
  table = create_variable new_name v a.table;
  symbol_names = update a.symbol_names v.id (some name);
  tmp = tmp;
}

-- createMemberVariable, of a variable at a new address with the type
unfoldable pub create_member_variable : ℕ → Variable → List ℕ → Members → Result Members
unfolding fresh_name base_name add_variable
create_member_variable fuel v name a =
    fresh_name fuel a.table (base_name a.name name) a.tmp (base_name a.name name) >>= λ found.
    ok (add_variable v name found.0 found.1 a)

unfoldable pub create_input : ℕ → Variable → List ℕ → Members → Result Members
unfolding create_member_variable
create_input fuel v name a =
    create_member_variable fuel v name a >>= λ b. ok (record b { inputs = b.inputs ++ v ∷ [] })

unfoldable pub create_local : ℕ → Variable → List ℕ → Members → Result Members
unfolding create_member_variable
create_local fuel v name a =
    create_member_variable fuel v name a >>= λ b. ok (record b { locals = b.locals ++ v ∷ [] })

unfoldable pub add_output : Variable → Members → Members
add_output v a = record a { outputs = a.outputs ++ v ∷ [] }

-- std::find on a list of pointers, as the distance from the beginning
unfoldable pub index_in : Variable → List Variable → Option ℕ
index_in v [] = none
index_in v (w ∷ ws) = elim (v.id == w.id) [
  | true ↦ some 0
  | false ↦ elim (index_in v ws) [ none ↦ none | some i ↦ some (suc i) ]
]

unfoldable pub get_input_number : Variable → Members → Result ℕ
unfolding index_in
get_input_number v a = or_fault Fault.assertion (index_in v a.inputs)

unfoldable pub get_output_number : Variable → Members → Result ℕ
unfolding index_in
get_output_number v a = or_fault Fault.assertion (index_in v a.outputs)

unfoldable pub is_output : Variable → Members → Bool
unfolding index_in
is_output v a = elim (index_in v a.outputs) [ some i ↦ true | none ↦ false ]

-- `find(vec, variable) == end`
unfoldable pub if_contained : List Variable → Variable → Option Variable
unfolding index_in
if_contained vec v = elim (index_in v vec) [ some i ↦ some v | none ↦ none ]

unfoldable pub find_variable_by_name : List Variable → List ℕ → Members → Option Variable
unfolding get_variable base_name if_contained
find_variable_by_name vec name a = elim (get_variable (base_name a.name name) a.table) [
  | none ↦ none
  | some v ↦ if_contained vec v
]

unfoldable pub find_input_by_name : List ℕ → Members → Option Variable
unfolding find_variable_by_name
find_input_by_name name a = find_variable_by_name a.inputs name a

unfoldable pub find_local_by_name : List ℕ → Members → Option Variable
unfolding find_variable_by_name
find_local_by_name name a = find_variable_by_name a.locals name a

unfoldable pub find_output_by_name : List ℕ → Members → Option Variable
unfolding find_variable_by_name
find_output_by_name name a = find_variable_by_name a.outputs name a
