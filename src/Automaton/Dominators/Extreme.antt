-- ===== src/Automaton/Dominators/Extreme.antt =====
-- std::max_element and std::min_element: an element of the list, and one that no other surpasses.
use gazer.Base.{
  ℕ, ◌≤◌, ◌≡◌, refl, sym, ◌∙◌, subst, ◌⊎◌, inl, inr, Bool, Bool-cases, List, [], ◌∷◌, arith, Memᴰ,
}
use gazer.Base.Memᴰ
use gazer.Automaton.Cfa.{Transition}
use gazer.Automaton.Dominators.{better, extreme_element, source_before, source_after}

module _ (replaces : Transition → Transition → Bool) where
  better-cases :
      (best edge : Transition)
      → (better replaces best edge ≡ best) ⊎ (better replaces best edge ≡ edge)
  unfolding better
  better-cases best edge = elim (Bool-cases (replaces best edge)) [
    | inl t ↦ inr (cc)
    | inr f ↦ inl (cc)
  ]

  pub mem-extreme_element :
      (best : Transition) (edges : List Transition)
      → Memᴰ (extreme_element replaces best edges) (best ∷ edges)
  unfolding extreme_element
  mem-extreme_element best [] = Memᴰ.head refl
  mem-extreme_element best (edge ∷ edges) =
      elim (Memᴰ.cases_cons (mem-extreme_element (better replaces best edge) edges)) [
        | inl e ↦ elim (better-cases best edge) [
          | inl b ↦ Memᴰ.head (e ∙ b)
          | inr b ↦ Memᴰ.tail (Memᴰ.head (e ∙ b))
        ]
        | inr m ↦ Memᴰ.tail (Memᴰ.tail m)
      ]

  -- Where the test replaces a smaller element by a greater one only, the greatest remains.
  module _ (rank : Transition → Transition → Type 0) (same : (a : Transition) → rank a a)
      (chain : (a b c : Transition) → rank a b → rank b c → rank a c)
      (grows : (a b : Transition) → rank a (better replaces a b))
      (covers : (a b : Transition) → rank b (better replaces a b)) where
    pub extreme_element-greatest :
        (best : Transition) (edges : List Transition) (edge : Transition)
        → Memᴰ edge (best ∷ edges)
        → rank edge (extreme_element replaces best edges)
    unfolding extreme_element
    extreme_element-greatest best [] edge mem =
        subst (λ e. rank e best) (sym (Memᴰ.eq_of_singleton mem)) (same best)
    extreme_element-greatest best (next ∷ edges) edge mem =
        let rest = extreme_element-greatest (better replaces best next) edges in
        let top = rest (better replaces best next) (Memᴰ.head refl) in
        elim (Memᴰ.cases_cons mem) [
          | inl e ↦
              subst (λ a. rank a (extreme_element replaces (better replaces best next) edges))
                (sym e) (chain best _ _ (grows best next) top)
          | inr m ↦ elim (Memᴰ.cases_cons m) [
            | inl e ↦
                subst (λ a. rank a (extreme_element replaces (better replaces best next) edges))
                  (sym e) (chain next _ _ (covers best next) top)
            | inr m' ↦ rest edge (Memᴰ.tail m')
          ]
        ]

module _ (index : ℕ → ℕ) where
  pub last_source-greatest :
      (best : Transition) (edges : List Transition) (edge : Transition)
      → Memᴰ edge (best ∷ edges)
      → index edge.source ≤ index ((extreme_element (source_before index) best edges).source)
  unfolding source_before better
  last_source-greatest =
      extreme_element-greatest (source_before index) (λ a b. index a.source ≤ index b.source)
        (λ a. omega arith) (λ a b c p q. omega (arith, p, q)) (λ a b. ground arith)
        (λ a b. ground arith)

  pub first_source-least :
      (best : Transition) (edges : List Transition) (edge : Transition)
      → Memᴰ edge (best ∷ edges)
      → index ((extreme_element (source_after index) best edges).source) ≤ index edge.source
  unfolding source_after source_before better
  first_source-least =
      extreme_element-greatest (source_after index) (λ a b. index b.source ≤ index a.source)
        (λ a. omega arith) (λ a b c p q. omega (arith, p, q)) (λ a b. ground arith)
        (λ a b. ground arith)
