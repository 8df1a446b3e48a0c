-- ===== src/Support/Graph/Cleared.antt =====
-- What clearDisconnectedElements leaves in the lists of a linked graph (include/gazer/ADT/Graph.h).
use gazer.Base.{
  ℕ, Bool, true, false, ◌&&◌, ◌||◌, ◌≡◌, refl, sym, ap, ◌∙◌, subst, inl, inr, ◌⊎◌, ◌↔◌, Bool-cases,
  List, [], ◌∷◌, Option, none, some, if◌then◌else◌, Memᴰ,
}
use gazer.Base.Memᴰ
use gazer.Support.Graph.{Graph, is_empty, is_null, remove_if, clear_disconnected_elements}
use gazer.Support.Graph.Linked.{Linked}

remove_if-mem :
    (test : ℕ → Bool) (x : ℕ) (xs : List ℕ)
    → Memᴰ x (remove_if test xs)
    → Memᴰ x xs × (test x ≡ false)
unfolding remove_if
remove_if-mem test x [] m = absurd (Memᴰ.not-nil m)
remove_if-mem test x (y ∷ ys) m = elim (Bool-cases (test y)) [
  | inl t ↦
      let (later, fails) =
        remove_if-mem test x ys
          (subst (λ b. Memᴰ x (if b then remove_if test ys else y ∷ remove_if test ys)) t m) in
      (Memᴰ.tail later, fails)
  | inr f ↦
      elim (Memᴰ.cases_cons
        (subst (λ b. Memᴰ x (if b then remove_if test ys else y ∷ remove_if test ys)) f m)) [
          | inl is ↦ (Memᴰ.head is, ap test is ∙ f)
          | inr later ↦
              let (later', fails) = remove_if-mem test x ys later in (Memᴰ.tail later', fails)
        ]
]

mem-remove_if :
    (test : ℕ → Bool) (x : ℕ) (xs : List ℕ)
    → Memᴰ x xs
    → test x ≡ false
    → Memᴰ x (remove_if test xs)
unfolding remove_if
mem-remove_if test x [] m fails = m
mem-remove_if test x (y ∷ ys) m fails = elim (Bool-cases (test y)) [
  | inl t ↦ elim (Memᴰ.cases_cons m) [
    | inl is ↦ absurd (cc (t, fails, ap test is))
    | inr later ↦
        subst (λ b. Memᴰ x (if b then remove_if test ys else y ∷ remove_if test ys)) (sym t)
          (mem-remove_if test x ys later fails)
  ]
  | inr f ↦
      subst (λ b. Memᴰ x (if b then remove_if test ys else y ∷ remove_if test ys)) (sym f)
        (elim (Memᴰ.cases_cons m) [
          | inl is ↦ Memᴰ.head is
          | inr later ↦ Memᴰ.tail (mem-remove_if test x ys later fails)
        ])
]

some_member : (xs : List ℕ) → is_empty xs ≡ false → (x : ℕ) × Memᴰ x xs
unfolding is_empty
some_member [] h = absurd (cc)
some_member (x ∷ xs) h = (x, Memᴰ.head refl)

member-not_empty : (x : ℕ) (xs : List ℕ) → Memᴰ x xs → is_empty xs ≡ false
unfolding is_empty
member-not_empty x [] m = absurd (Memᴰ.not-nil m)
member-not_empty x (y ∷ ys) m = refl

both_given :
    (a b : Option ℕ) → (is_null a || is_null b) ≡ false → (s t : ℕ) × (a ≡ some s) × (b ≡ some t)
unfolding is_null
both_given none b h = absurd (cc)
both_given (some s) none h = absurd (cc)
both_given (some s) (some t) h = (s, t, refl, refl)

given_both : (a b : Option ℕ) (s t : ℕ) → a ≡ some s → b ≡ some t → (is_null a || is_null b) ≡ false
unfolding is_null
given_both a b s t h h' = ap (λ o. is_null o || is_null b) h ∙ ap is_null h'

not_both : (a b : Bool) → (a && b) ≡ false → (a ≡ false) ⊎ (b ≡ false)
not_both true b h = inr h
not_both false b h = inl refl

either_not : (a b : Bool) → (a ≡ false) ⊎ (b ≡ false) → (a && b) ≡ false
either_not true b (inl h) = absurd (cc)
either_not true b (inr h) = h
either_not false b h = refl

-- An edge with both ends, of which the node is one.
unfoldable pub AtNode : Graph → ℕ → ℕ → Type 0
AtNode g n e = (s t : ℕ) × (g.source_of e ≡ some s) × (g.target_of e ≡ some t) × ((s ≡ n) ⊎ (t ≡ n))

-- What clearing leaves of the nodes, and of the edges.
unfoldable pub Cleared : Graph → Type 0
Cleared g =
    ((n : ℕ)
      → Memᴰ n ((clear_disconnected_elements g).nodes)
        ↔ (Memᴰ n (g.nodes) × ((e : ℕ) × AtNode g n e)))
    × ((e : ℕ)
        → Memᴰ e ((clear_disconnected_elements g).edges)
          ↔ (Memᴰ e (g.edges) × ((s t : ℕ) × (g.source_of e ≡ some s) × (g.target_of e ≡ some t))))

-- A listed node of a linked graph stays listed exactly where an edge with both ends has it as one of
-- them, and a listed edge exactly where it has both ends; nothing else is listed.
pub clear_disconnected_elements-Cleared : (g : Graph) → Linked g → Cleared g
unfolding clear_disconnected_elements AtNode Cleared
clear_disconnected_elements-Cleared g linked =
    let lone : ℕ → Bool = λ n. is_empty (g.incoming n) && is_empty (g.outgoing n) in
    let loose : ℕ → Bool = λ e. is_null (g.source_of e) || is_null (g.target_of e) in
    (
      λ n. (
        λ m.
            let (listed, fails) = remove_if-mem lone n g.nodes m in
            elim (not_both (is_empty (g.incoming n)) (is_empty (g.outgoing n)) fails) [
              | inl has ↦
                  let (e, mem) = some_member (g.incoming n) has in
                  let (s, at_s, at_n) = linked.incoming_ends n e mem in
                  (listed, (e, (s, n, at_s, at_n, inr refl)))
              | inr has ↦
                  let (e, mem) = some_member (g.outgoing n) has in
                  let (t, at_n, at_t) = linked.outgoing_ends n e mem in
                  (listed, (e, (n, t, at_n, at_t, inl refl)))
            ],
        λ (listed, (e, (s, t, at_s, at_t, one))). mem-remove_if lone n g.nodes listed (
            either_not (is_empty (g.incoming n)) (is_empty (g.outgoing n)) (elim one [
              | inl is ↦ inr (
                  member-not_empty e (g.outgoing n)
                    (linked.outgoing_has n t e (at_s ∙ ap some is) at_t))
              | inr is ↦ inl (
                  member-not_empty e (g.incoming n)
                    (linked.incoming_has n s e at_s (at_t ∙ ap some is)))
            ])),
      ),
      λ e. (
        λ m.
            let (listed, fails) = remove_if-mem loose e g.edges m in
            (listed, both_given (g.source_of e) (g.target_of e) fails),
        λ (listed, (s, t, at_s, at_t)).
            mem-remove_if loose e g.edges listed
              (given_both (g.source_of e) (g.target_of e) s t at_s at_t),
      ),
    )
