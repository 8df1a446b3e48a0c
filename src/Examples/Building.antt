-- ===== src/Examples/Building.antt =====
-- An automaton with an error location and a transition to it.
use gazer.Base.{
  ◌≡◌, refl, subst, inl, inr, ◌⊎◌, List, [], ◌∷◌, none, some, ok, fault, Fault, Memᴰ, arith,
}
use gazer.Base.Memᴰ
use gazer.Support.Graph.{create_node}
use gazer.Automaton.Build.{
  Automaton, new_cfa, create_error_location, create_location, add_location, empty_cfa,
  find_location_by_id,
}
use gazer.Automaton.Build.Edits.{
  Edit, new_error_location, new_assign, apply_edit, apply_edits, IsAllowed, AreAllowed, IsWhole,
  apply_edits-IsWhole,
}

abbrev error_edits : List Edit
error_edits = new_error_location 12 ∷ new_assign 7 10 12 none [] ∷ []

-- What is allowed after the one result of a step.
after_step :
    (edits : List Edit) (a : Automaton)
    → AreAllowed edits a
    → (next : Automaton) → ok a ≡ ok next
    → AreAllowed edits next
after_step edits a allowed next is = subst (AreAllowed edits) (cc) allowed

error_edits-AreAllowed : AreAllowed error_edits (new_cfa 10 11)
unfolding AreAllowed IsAllowed apply_edit new_cfa create_error_location create_location add_location
    empty_cfa create_node
error_edits-AreAllowed = (
  λ m. elim (Memᴰ.cases_cons m) [
    | inl is ↦ absurd (omega (arith, is))
    | inr later ↦ absurd (omega (arith, Memᴰ.eq_of_singleton later))
  ],
  after_step (new_assign 7 10 12 none [] ∷ []) (create_error_location 12 (new_cfa 10 11))
      ((refl, Memᴰ.head refl, Memᴰ.tail (Memᴰ.tail (Memᴰ.head refl))), λ next h. tt),
)

apply_edits-IsWhole_example :
    ((a : Automaton) × (apply_edits error_edits (new_cfa 10 11) ≡ ok a) × IsWhole a)
    ⊎ (apply_edits error_edits (new_cfa 10 11) ≡ fault Fault.assertion)
apply_edits-IsWhole_example =
    apply_edits-IsWhole 10 11 error_edits (λ is. absurd (omega (arith, is))) error_edits-AreAllowed
      (omega arith)

found_by_id : find_location_by_id 2 (create_error_location 12 (new_cfa 10 11)) ≡ some 12
unfolding new_cfa create_error_location find_location_by_id
found_by_id = refl
