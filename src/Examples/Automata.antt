-- ===== src/Examples/Automata.antt =====
-- The searches for common dominators on a diamond of four locations.
use gazer.Base.{
  ℕ, zero, suc, ◌<◌, ◌≡◌, refl, sym, subst, true, List, [], ◌∷◌, none, some, get_elem?, ok, arith,
  Memᴰ, inl, inr, false,
}
use gazer.Base.Memᴰ
use gazer.Base.Int.{pos}
use gazer.Core.Ty.{Ty}
use gazer.Core.Literal.{bool_lit, int_lit}
use gazer.Core.Expr.{Expr}
use gazer.Automaton.Cfa.{Transition, assign_edge, VariableAssignment}
use gazer.Automaton.Dominators.{
  find_lowest_common_dominator, find_highest_common_post_dominator, extreme_element, source_before,
  source_after,
}
use gazer.Automaton.Dominators.Order.{Listed, given, IsTarget, at_exit, IsOrigin}
use gazer.Automaton.Dominators.Predecessors.{TopologicalOrder}
use gazer.Automaton.Dominators.Successors.{DescendingOrder}
use gazer.Automaton.Dominators.Lowest.{IsLowest, find_lowest_common_dominator-IsLowest}
use gazer.Automaton.Dominators.Highest.{IsHighest, find_highest_common_post_dominator-IsHighest}

abbrev pub plain : ℕ → ℕ → Transition
plain source target = record {
  source = source;
  target = target;
  guard = Expr.literal (bool_lit true);
  kind = assign_edge [];
}

-- n := 7, and an undef
abbrev pub left_assignments : List VariableAssignment
left_assignments =
    record { variable = record { id = 3; ty = Ty.int }; value = Expr.literal (int_lit (pos 7)) }
    ∷ record { variable = record { id = 4; ty = Ty.int }; value = Expr.undef Ty.int }
    ∷ []

abbrev pub left_in : Transition
left_in = record {
  source = 0;
  target = 1;
  guard = Expr.literal (bool_lit true);
  kind = assign_edge left_assignments;
}

abbrev pub right_in : Transition
right_in = record {
  source = 0;
  target = 2;
  guard = Expr.literal (bool_lit false);
  kind = assign_edge [];
}

abbrev pub left_out : Transition
left_out = plain 1 3

abbrev pub right_out : Transition
right_out = plain 2 3

abbrev pub diamond : List ℕ
diamond = 0 ∷ 1 ∷ 2 ∷ 3 ∷ []

abbrev pub own_index : ℕ → ℕ
own_index location = location

unfoldable pub diamond_incoming : ℕ → List Transition
diamond_incoming (suc zero) = left_in ∷ []
diamond_incoming (suc (suc zero)) = right_in ∷ []
diamond_incoming (suc (suc (suc zero))) = left_out ∷ right_out ∷ []
diamond_incoming _ = []

unfoldable pub diamond_outgoing : ℕ → List Transition
diamond_outgoing zero = left_in ∷ right_in ∷ []
diamond_outgoing (suc zero) = left_out ∷ []
diamond_outgoing (suc (suc zero)) = right_out ∷ []
diamond_outgoing _ = []

lowest_test :
    find_lowest_common_dominator diamond own_index diamond_incoming (left_out ∷ right_out ∷ []) none
    ≡ ok (some 0)
unfolding find_lowest_common_dominator diamond_incoming
lowest_test = refl

highest_test :
    find_highest_common_post_dominator diamond own_index diamond_outgoing 3
      (left_in ∷ right_in ∷ [])
      none
    ≡ ok (some 3)
unfolding find_highest_common_post_dominator diamond_outgoing
highest_test = refl

-- Every member of the list of the heap has the property.
pub for_one :
    (P : Transition → Type 0) {a : Transition} → P a → (e : Transition) → Memᴰ e (a ∷ []) → P e
for_one P p e m = subst P (sym (Memᴰ.eq_of_singleton m)) p

pub for_two :
    (P : Transition → Type 0) {a b : Transition}
    → P a
    → P b
    → (e : Transition) → Memᴰ e (a ∷ b ∷ [])
    → P e
for_two P p q e m = elim (Memᴰ.cases_cons m) [
  | inl same ↦ subst P (sym same) p
  | inr rest ↦ for_one P q e rest
]

diamond-position : (k location : ℕ) → get_elem? diamond k ≡ some location → location ≡ k
diamond-position zero location h = cc
diamond-position (suc zero) location h = cc
diamond-position (suc (suc zero)) location h = cc
diamond-position (suc (suc (suc zero))) location h = cc
diamond-position (suc (suc (suc (suc k)))) location h = cc

pub diamond-TopologicalOrder : TopologicalOrder diamond own_index diamond_incoming
unfolding diamond_incoming
diamond-TopologicalOrder = record { position = diamond-position; ascends = goes }
  where
    goes :
        (location : ℕ)
        → Listed diamond own_index location
        → (edge : Transition) → Memᴰ edge (diamond_incoming location)
        → Listed diamond own_index edge.source × (edge.source < location)
    goes zero l e m = absurd (Memᴰ.not-nil m)
    goes (suc zero) l e m =
        for_one (λ edge. Listed diamond own_index edge.source × (edge.source < 1))
          (refl, omega arith) e m
    goes (suc (suc zero)) l e m =
        for_one (λ edge. Listed diamond own_index edge.source × (edge.source < 2))
          (refl, omega arith) e m
    goes (suc (suc (suc zero))) l e m =
        for_two (λ edge. Listed diamond own_index edge.source × (edge.source < 3))
          (refl, omega arith) (refl, omega arith) e m
    goes (suc (suc (suc (suc k)))) l e m = absurd (Memᴰ.not-nil m)

diamond-DescendingOrder : DescendingOrder diamond own_index diamond_outgoing
unfolding diamond_outgoing
diamond-DescendingOrder = record { position = diamond-position; descends = goes }
  where
    goes :
        (location : ℕ)
        → Listed diamond own_index location
        → (edge : Transition) → Memᴰ edge (diamond_outgoing location)
        → Listed diamond own_index edge.target × (location < edge.target)
    goes zero l e m =
        for_two (λ edge. Listed diamond own_index edge.target × (0 < edge.target))
          (refl, omega arith) (refl, omega arith) e m
    goes (suc zero) l e m =
        for_one (λ edge. Listed diamond own_index edge.target × (1 < edge.target))
          (refl, omega arith) e m
    goes (suc (suc zero)) l e m =
        for_one (λ edge. Listed diamond own_index edge.target × (2 < edge.target))
          (refl, omega arith) e m
    goes (suc (suc (suc k))) l e m = absurd (Memᴰ.not-nil m)

find_lowest_common_dominator-IsLowest_example :
    (found : ℕ) × (find_lowest_common_dominator diamond own_index diamond_incoming
        (left_out ∷ right_out ∷ [])
        (some 0)
      ≡ ok (some found))
    × IsLowest diamond own_index diamond_incoming 0 3 (left_out ∷ right_out ∷ []) found
unfolding extreme_element source_before
find_lowest_common_dominator-IsLowest_example =
    find_lowest_common_dominator-IsLowest diamond own_index diamond_incoming
      diamond-TopologicalOrder left_out (right_out ∷ []) (some 0) 0 (given refl)
      (for_two (λ edge. IsTarget diamond own_index 0 edge)
        (record {
          source_listed = refl;
          target_listed = refl;
          after_start = omega arith;
          forward = omega arith;
        })
        (record {
          source_listed = refl;
          target_listed = refl;
          after_start = omega arith;
          forward = omega arith;
        }))

find_highest_common_post_dominator-IsHighest_example :
    (found : ℕ) × (find_highest_common_post_dominator diamond own_index diamond_outgoing 3
        (left_in ∷ right_in ∷ [])
        none
      ≡ ok (some found))
    × IsHighest diamond own_index diamond_outgoing 3 0 (left_in ∷ right_in ∷ []) found
unfolding extreme_element source_after
find_highest_common_post_dominator-IsHighest_example =
    find_highest_common_post_dominator-IsHighest diamond own_index diamond_outgoing
      diamond-DescendingOrder 3 left_in (right_in ∷ []) none 3 (at_exit refl)
      (for_two (λ edge. IsOrigin diamond own_index 3 edge)
        (record {
          source_listed = refl;
          target_listed = refl;
          before_start = omega arith;
          forward = omega arith;
        })
        (record {
          source_listed = refl;
          target_listed = refl;
          before_start = omega arith;
          forward = omega arith;
        }))
