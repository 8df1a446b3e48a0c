-- ===== src/Support/Algorithm/Members.antt =====
-- The outputs of intersection_difference by the members of the ranges.
use gazer.Base.{
  ◌≡◌, refl, sym, ap, ◌∙◌, inl, inr, Bool-cases, Bool, true, false, not, ◌&&◌, ◌||◌, List, [], ◌∷◌,
  ◌++◌, map, decided, decided-true, decided_intro, if◌then◌else◌,
}
use mathlib.Core.List.{append_assoc, append-nil}
use gazer.Support.Algorithm.{Outputs, scan, pair_up, unpaired, intersection_difference}

or_false : (b : Bool) → (b || false) ≡ b
or_false true = refl
or_false false = refl

or_true : (b : Bool) → (b || true) ≡ true
or_true true = refl
or_true false = refl

or_assoc : (a b c : Bool) → ((a || b) || c) ≡ (a || (b || c))
or_assoc true b c = refl
or_assoc false b c = refl

-- A common element is written where it is met for the first time.
abbrev writes : (present met done : Bool) → Bool
writes true met done = false
writes false true done = not done
writes false false done = false

module _ {A : Type 0} (same : Discrete A) where
  unfoldable pub member : A → List A → Bool
  member x [] = false
  member x (y ∷ ys) = decided (same x y) || member x ys

  -- The elements of a list that are, or are not, in another.
  unfoldable pub without : List A → List A → List A
  unfolding member
  without [] others = []
  without (x ∷ xs) others =
      let rest = without xs others in if member x others then rest else x ∷ rest

  -- The elements of a list that are in another, each once, and not those that came before.
  unfoldable pub shared : List A → List A → List A → List A
  unfolding member
  shared before [] others = []
  shared before (x ∷ xs) others =
      let rest = shared (before ++ x ∷ []) xs others in
      if member x others && not (member x before) then x ∷ rest else rest

  -- A right element is marked where it is among the left ones that are done.
  marked : List A → A → A × Bool
  marked done r = (r, member r done)

  member-append : (x : A) (xs ys : List A) → member x (xs ++ ys) ≡ (member x xs || member x ys)
  unfolding member
  member-append x [] ys = refl
  member-append x (y ∷ xs) ys =
      ap (λ b. decided (same x y) || b) (member-append x xs ys)
      ∙ sym (or_assoc (decided (same x y)) (member x xs) (member x ys))

  decided_sym : (x y : A) → decided (same x y) ≡ decided (same y x)
  decided_sym x y = elim (Bool-cases (decided (same x y))) [
    | inl t ↦ t ∙ sym (decided_intro (same y x) (sym (decided-true (same x y) t)))
    | inr f ↦ elim (Bool-cases (decided (same y x))) [
      | inl t ↦ absurd (cc (f, decided_intro (same x y) (sym (decided-true (same y x) t))))
      | inr f' ↦ f ∙ sym f'
    ]
  ]

  -- The mark of an element after one more left element.
  member-last :
      (x r : A) (done : List A) → member r (done ++ x ∷ []) ≡ (member r done || decided (same x r))
  unfolding member
  member-last x r done =
      member-append r done (x ∷ [])
      ∙ ap (λ b. member r done || b) (or_false (decided (same r x)) ∙ decided_sym r x)

  scan-marked :
      (x : A) (done right : List A) (present : Bool) (common : List A)
      → scan same x (map (marked done) right) present common ≡ (
        map (marked (done ++ x ∷ [])) right,
        present || member x right,
        if writes present (member x right) (member x done) then common ++ x ∷ [] else common,
      )
  unfolding scan member marked
  scan-marked x done [] true common = refl
  scan-marked x done [] false common = refl
  scan-marked x done (r ∷ right) present common = elim (Bool-cases (decided (same x r))) [
    | inl t ↦
        let alike : member r done ≡ member x done =
          ap (λ a. member a done) (sym (decided-true (same x r) t)) in
        let mark : member r (done ++ x ∷ []) ≡ true =
          member-last x r done ∙ ap (λ b. member r done || b) t ∙ or_true (member r done) in
        let rest =
          scan-marked x done right true
            (if not (member r done) && not present then common ++ x ∷ [] else common) in
        elim (Bool-cases (member x done)) [
          | inl d ↦ elim (Bool-cases present) [ inl p ↦ (cc) | inr p ↦ (cc) ]
          | inr d ↦ elim (Bool-cases present) [ inl p ↦ (cc) | inr p ↦ (cc) ]
        ]
    | inr f ↦
        let mark : member r (done ++ x ∷ []) ≡ member r done =
          member-last x r done ∙ ap (λ b. member r done || b) f ∙ or_false (member r done) in
        let rest = scan-marked x done right present common in (cc)
  ]

  state : List (A × Bool) → List A → List A → Outputs same
  state marks common only_left = record { marks = marks; common = common; only_left = only_left }

  shared-step :
      (x : A) (left done right common : List A)
      → (if writes false (member x right) (member x done) then common ++ x ∷ [] else common)
          ++ shared (done ++ x ∷ []) left right
        ≡ common ++ shared done (x ∷ left) right
  unfolding shared
  shared-step x left done right common =
      let split = append_assoc common (x ∷ []) (shared (done ++ x ∷ []) left right) in
      elim (Bool-cases (member x right)) [
        | inl m ↦ elim (Bool-cases (member x done)) [ inl d ↦ (cc) | inr d ↦ (cc) ]
        | inr m ↦ (cc)
      ]

  without-step :
      (x : A) (left right only_left : List A)
      → (if member x right then only_left else only_left ++ x ∷ []) ++ without left right
        ≡ only_left ++ without (x ∷ left) right
  unfolding without
  without-step x left right only_left =
      let split = append_assoc only_left (x ∷ []) (without left right) in
      elim (Bool-cases (member x right)) [ inl m ↦ (cc) | inr m ↦ (cc) ]

  -- The loop over the left range, with the elements of `done` behind it.
  pair_up-marked :
      (left done right common only_left : List A)
      → pair_up same left (state (map (marked done) right) common only_left)
        ≡ state
            (map (marked (done ++ left)) right)
            (common ++ shared done left right)
            (only_left ++ without left right)
  unfolding pair_up shared without state
  pair_up-marked [] done right common only_left =
      let a = append-nil done in let b = append-nil common in let c = append-nil only_left in (cc)
  pair_up-marked (x ∷ left) done right common only_left =
      ap
        (λ (p : List (A × Bool) × Bool × List A).
          pair_up same left (state p.0 p.2 (if p.1 then only_left else only_left ++ x ∷ [])))
        (scan-marked x done right false common)
      ∙ pair_up-marked left (done ++ x ∷ []) right
          (if writes false (member x right) (member x done) then common ++ x ∷ [] else common)
          (if member x right then only_left else only_left ++ x ∷ [])
      ∙ together (append_assoc done (x ∷ []) left) (shared-step x left done right common)
          (without-step x left right only_left)
    where
      together :
          {d d' c c' o o' : List A}
          → d ≡ d'
          → c ≡ c'
          → o ≡ o'
          → state (map (marked d) right) c o ≡ state (map (marked d') right) c' o'
      together p q r = cc

  unpaired-marked :
      (done right : List A) → unpaired same (map (marked done) right) ≡ without right done
  unfolding unpaired without marked
  unpaired-marked done [] = refl
  unpaired-marked done (r ∷ right) =
      let rest = unpaired-marked done right in
      elim (Bool-cases (member r done)) [ inl m ↦ (cc) | inr m ↦ (cc) ]

  -- The outputs are the elements of the left range that are in the right one, each at its first place only,
  -- those that are not in it, and those of the right range that are not in the left one, duplicates
  -- included.
  pub intersection_difference_lem :
      (left right : List A)
      → intersection_difference same left right
        ≡ (shared [] left right, without left right, without right left)
  unfolding intersection_difference state marked member
  intersection_difference_lem left right =
      ap (λ (out : Outputs same). (out.common, out.only_left, unpaired same out.marks))
        (pair_up-marked left [] right [] [])
      ∙ ap (λ (rest : List A). (shared [] left right, without left right, rest))
          (unpaired-marked left right)
