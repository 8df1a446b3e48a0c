-- ===== src/Examples/Naming.antt =====
-- An input with a name that the context has, in the automaton "m".
use gazer.Base.{
  ℕ, ◌≡◌, ◌≢◌, ◌↔◌, sym, refl, ◌∙◌, ap, inl, inr, Bool-cases, List, [], ◌∷◌, Option, none, some,
  if◌then◌else◌, ok, decided, arith,
}
use gazer.Core.Ty.{Ty}
use gazer.Core.Expr.{Variable}
use gazer.Automaton.Variables.{
  Members, NamedVariable, Name-discrete, get_variable, base_name, create_input, find_input_by_name,
}
use gazer.Automaton.Variables.Found.{IsNew, create_input-finds}

abbrev old_variable : Variable
old_variable = record { id = 0; ty = Ty.bool }

abbrev new_variable : Variable
new_variable = record { id = 1; ty = Ty.bool }

-- "m/x"
abbrev one_variable : List NamedVariable
one_variable = record { key = 109 ∷ 47 ∷ 120 ∷ []; variable = old_variable } ∷ []

abbrev automaton_m : Members
automaton_m = record {
  table = one_variable;
  name = 109 ∷ [];
  inputs = [];
  outputs = [];
  locals = old_variable ∷ [];
  symbol_names = λ i. none;
  tmp = 0;
}

address_of : Option Variable → ℕ
address_of none = 0
address_of (some v) = v.id

apart : some old_variable ≢ some new_variable
unfolding address_of
apart same = let ids : ◌≡◌ {A = ℕ} 0 1 = ap address_of same in omega arith

new_variable-IsNew : IsNew new_variable one_variable
unfolding IsNew get_variable
new_variable-IsNew name is =
    elim (Bool-cases (decided (Name-discrete name (109 ∷ 47 ∷ 120 ∷ [])))) [
      | inl here ↦ apart (sym (rw here refl) ∙ is)
      | inr there ↦ absurd (cc)
    ]

create_input-finds_example :
    (b : Members) × (new_name : List ℕ) × (create_input 3 new_variable (120 ∷ []) automaton_m
      ≡ ok b)
    × (get_variable new_name one_variable ≡ none)
    × ((other : List ℕ)
        → get_variable other b.table ≡ (
            if decided (Name-discrete other new_name)
            then some new_variable
            else get_variable other one_variable))
    × ((find_input_by_name (120 ∷ []) b ≡ some new_variable)
        ↔ (get_variable (base_name (109 ∷ []) (120 ∷ [])) one_variable ≡ none))
create_input-finds_example =
    create_input-finds 3 new_variable (120 ∷ []) automaton_m (omega arith) (omega arith)
      (omega arith) new_variable-IsNew
