-- ===== src/Support/Graph/Remove.antt =====
-- Lemmas on the heap of a graph: updates, and the members of a list after a removal.
use gazer.Base.{
  ℕ, ◌≡◌, ◌≢◌, refl, sym, ap, ◌∙◌, subst, inl, inr, ◌⊎◌, Bool-cases, List, [], ◌∷◌, ◌++◌, ◌==◌,
  ==_iff, if◌then◌else◌, Memᴰ, ℕ_discrete,
}
use gazer.Base.Memᴰ
use gazer.Support.Graph.{update, remove}

pub update_same : {A : Type 0} (f : ℕ → A) (a : ℕ) (v : A) → update f a v a ≡ v
unfolding update
update_same f a v = ap (λ b. if b then v else f a) ((==_iff a a).1 refl)

pub update_other : {A : Type 0} (f : ℕ → A) (a b : ℕ) (v : A) → b ≢ a → update f a v b ≡ f b
unfolding update
update_other f a b v other = elim (Bool-cases (b == a)) [
  | inl t ↦ absurd (other ((==_iff b a).0 t))
  | inr e ↦ ap (λ c. if c then v else f b) e
]

pub remove-mem : (e x : ℕ) (xs : List ℕ) → Memᴰ x (remove e xs) → (x ≢ e) × Memᴰ x xs
unfolding remove
remove-mem e x [] m = absurd (Memᴰ.not-nil m)
remove-mem e x (y ∷ ys) m = elim (Bool-cases (y == e)) [
  | inl t ↦
      let (other, later) =
        remove-mem e x ys (subst (λ b. Memᴰ x (if b then remove e ys else y ∷ remove e ys)) t m) in
      (other, Memᴰ.tail later)
  | inr f ↦
      elim (Memᴰ.cases_cons
        (subst (λ b. Memᴰ x (if b then remove e ys else y ∷ remove e ys)) f m)) [
          | inl is ↦ (λ same. absurd (cc (f, (==_iff y e).1 (sym is ∙ same))), Memᴰ.head is)
          | inr later ↦ let (other, later') = remove-mem e x ys later in (other, Memᴰ.tail later')
        ]
]

pub mem-remove : (e x : ℕ) (xs : List ℕ) → x ≢ e → Memᴰ x xs → Memᴰ x (remove e xs)
unfolding remove
mem-remove e x [] other m = m
mem-remove e x (y ∷ ys) other m = elim (Bool-cases (y == e)) [
  | inl t ↦ elim (Memᴰ.cases_cons m) [
    | inl is ↦ absurd (other (is ∙ (==_iff y e).0 t))
    | inr later ↦
        subst (λ b. Memᴰ x (if b then remove e ys else y ∷ remove e ys)) (sym t)
          (mem-remove e x ys other later)
  ]
  | inr f ↦
      subst (λ b. Memᴰ x (if b then remove e ys else y ∷ remove e ys)) (sym f)
        (elim (Memᴰ.cases_cons m) [
          | inl is ↦ Memᴰ.head is
          | inr later ↦ Memᴰ.tail (mem-remove e x ys other later)
        ])
]

-- The lists of all nodes without an edge that only the list of `n` may have.
module _ (lists : ℕ → List ℕ) (n e : ℕ) where
  pub removed-mem :
      ((m : ℕ) → Memᴰ e (lists m) → m ≡ n)
      → (m x : ℕ) → Memᴰ x (update lists n (remove e (lists n)) m)
      → (x ≢ e) × Memᴰ x (lists m)
  removed-mem only m x mem = elim (ℕ_discrete m n) [
    | yes same ↦
        let (other, there) = remove-mem e x (lists n) (
          subst (λ xs. Memᴰ x xs)
            (ap (λ k. update lists n (remove e (lists n)) k) same
              ∙ update_same lists n (remove e (lists n)))
            mem) in
        (other, subst (λ k. Memᴰ x (lists k)) (sym same) there)
    | no away ↦
        let there =
          subst (λ xs. Memᴰ x xs) (update_other lists n m (remove e (lists n)) away) mem in
        (λ is. away (only m (subst (λ y. Memᴰ y (lists m)) is there)), there)
  ]

  pub mem-removed :
      (m x : ℕ) → x ≢ e → Memᴰ x (lists m) → Memᴰ x (update lists n (remove e (lists n)) m)
  mem-removed m x other mem = elim (ℕ_discrete m n) [
    | yes same ↦
        subst (λ xs. Memᴰ x xs)
          (sym (
            ap (λ k. update lists n (remove e (lists n)) k) same
            ∙ update_same lists n (remove e (lists n))))
          (mem-remove e x (lists n) other (subst (λ k. Memᴰ x (lists k)) same mem))
    | no away ↦ subst (λ xs. Memᴰ x xs) (sym (update_other lists n m (remove e (lists n)) away)) mem
  ]

-- One more edge at the end of the list of `n`.
module _ (lists : ℕ → List ℕ) (n e : ℕ) where
  pub added-mem :
      (m x : ℕ)
      → Memᴰ x (update lists n (lists n ++ e ∷ []) m)
      → ((m ≡ n) × (x ≡ e)) ⊎ Memᴰ x (lists m)
  added-mem m x mem = elim (ℕ_discrete m n) [
    | yes same ↦
        let there =
          subst (λ xs. Memᴰ x xs)
            (ap (λ k. update lists n (lists n ++ e ∷ []) k) same
              ∙ update_same lists n (lists n ++ e ∷ []))
            mem in
        elim (Memᴰ.append_cases (lists n) there) [
          | inl old ↦ inr (subst (λ k. Memᴰ x (lists k)) (sym same) old)
          | inr new ↦ inl (same, Memᴰ.eq_of_singleton new)
        ]
    | no other ↦
        inr (subst (λ xs. Memᴰ x xs) (update_other lists n m (lists n ++ e ∷ []) other) mem)
  ]

  pub mem-added_last : Memᴰ e (update lists n (lists n ++ e ∷ []) n)
  mem-added_last =
      subst (λ xs. Memᴰ e xs) (sym (update_same lists n (lists n ++ e ∷ [])))
        (Memᴰ.append_right (lists n) (Memᴰ.head refl))

  pub mem-added : (m x : ℕ) → Memᴰ x (lists m) → Memᴰ x (update lists n (lists n ++ e ∷ []) m)
  mem-added m x mem = elim (ℕ_discrete m n) [
    | yes same ↦
        subst (λ xs. Memᴰ x xs)
          (sym (
            ap (λ k. update lists n (lists n ++ e ∷ []) k) same
            ∙ update_same lists n (lists n ++ e ∷ [])))
          (Memᴰ.append_left (e ∷ []) (subst (λ k. Memᴰ x (lists k)) same mem))
    | no other ↦
        subst (λ xs. Memᴰ x xs) (sym (update_other lists n m (lists n ++ e ∷ []) other)) mem
  ]
