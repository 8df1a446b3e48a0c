-- ===== src/Support/Sexpr/Equality.antt =====
-- The comparison of values: a list is found equal to each list that goes on after it.
use gazer.Base.{
  ℕ, ◌≡◌, refl, sym, ap, ap₂, ◌∙◌, subst, ◌↔◌, inl, inr, true, false, Bool-cases, ◌&&◌, List, [],
  ◌∷◌, ◌==◌, ==_iff, ok, >>=-eq-ok,
}
use gazer.Support.Sexpr.{Value, Values, atom, list, nil, cons, null, same_text, equal, equal_items}

-- The same text, and lists of which the first has no more elements than the second, each within that of
-- the second.
mutual
  pub data Within : Value → Value → Type 0 where
    same_atom : {text : List ℕ} → Within (atom text) (atom text)
    within_list : {vs ws : Values} → Starting vs ws → Within (list vs) (list ws)

  pub data Starting : Values → Values → Type 0 where
    at_end : {ws : Values} → Starting nil ws
    element :
        {v w : Value} {vs ws : Values}
        → Within v w
        → Starting vs ws
        → Starting (cons v vs) (cons w ws)

same_text-eq : (a b : List ℕ) → same_text a b ≡ true → a ≡ b
unfolding same_text
same_text-eq [] [] h = refl
same_text-eq [] (d ∷ ds) h = cc
same_text-eq (c ∷ cs) [] h = cc
same_text-eq (c ∷ cs) (d ∷ ds) h = elim (Bool-cases (c == d)) [
  | inl t ↦
      ap₂ (λ x xs. x ∷ xs) ((==_iff c d).0 t)
        (same_text-eq cs ds (ap (λ b. b && same_text cs ds) (sym t) ∙ h))
  | inr f ↦ cc
]

same_text_self : (a : List ℕ) → same_text a a ≡ true
unfolding same_text
same_text_self [] = refl
same_text_self (c ∷ cs) = ap (λ b. b && same_text cs cs) ((==_iff c c).1 refl) ∙ same_text_self cs

mutual
  unfolding equal

  equal-true-Within : (v w : Value) → equal v w ≡ ok true → Within v w
  equal-true-Within (atom a) (atom b) h =
      subst (λ t. Within (atom a) (atom t)) (same_text-eq a b (cc)) same_atom
  equal-true-Within (atom a) (list ws) h = cc
  equal-true-Within (list vs) (atom b) h = cc
  equal-true-Within (list vs) (list ws) h = within_list (equal_items-Starting vs ws h)

  equal_items-Starting : (vs ws : Values) → equal_items vs ws ≡ ok true → Starting vs ws
  equal_items-Starting nil ws h = at_end
  equal_items-Starting (cons v vs) nil h = cc
  equal_items-Starting (null vs) nil h = cc
  equal_items-Starting (null vs) (cons w ws) h = cc
  equal_items-Starting (null vs) (null ws) h = cc
  equal_items-Starting (cons v vs) (null ws) h = cc
  equal_items-Starting (cons v vs) (cons w ws) h =
      let (same, first, rest) =
        >>=-eq-ok (equal v w) (λ same. elim same [ false ↦ ok false | true ↦ equal_items vs ws ])
          h in
      elim (Bool-cases same) [
        | inl t ↦
            element (equal-true-Within v w (first ∙ ap (λ b. ok b) t))
              (equal_items-Starting vs ws (cc))
        | inr f ↦ cc
      ]

mutual
  unfolding equal

  Within-equal : {v w : Value} → Within v w → equal v w ≡ ok true
  Within-equal (same_atom {text}) = ap (λ b. ok b) (same_text_self text)
  Within-equal (within_list s) = Starting-equal s

  Starting-equal : {vs ws : Values} → Starting vs ws → equal_items vs ws ≡ ok true
  Starting-equal at_end = refl
  Starting-equal (element p s) = let h = Within-equal p in let h' = Starting-equal s in cc

-- operator== gives true exactly where the texts of atoms agree and each list starts the other one's list,
-- so that a list compares equal to a longer one.
pub equal-Within : (v w : Value) → (equal v w ≡ ok true) ↔ Within v w
equal-Within v w = (equal-true-Within v w, Within-equal)
