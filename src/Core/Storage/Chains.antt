-- ===== src/Core/Storage/Chains.antt =====
-- One bucket of the table: what a search finds, and what a new entry at its front changes.
use gazer.Base.{
  ℕ, zero, suc, ◌+◌, ◌≤◌, ◌<◌, ◌≡◌, ◌≢◌, refl, sym, ap, ◌∙◌, subst, inl, inr, ◌⊎◌, Bool, true,
  false, Bool-cases, List, [], ◌∷◌, Option, none, some, if◌then◌else◌, length, ℕ_discrete, Memᴰ,
  arith,
}
use gazer.Base.Memᴰ
use gazer.Support.Graph.{update}
use gazer.Support.Graph.Remove.{update_same, update_other}
use gazer.Core.Storage.{Hasher, Entry, find_entry}

-- The branches of a search.
taken :
    (b : Bool) (x : ℕ) (o : Option ℕ) {y : ℕ}
    → b ≡ true
    → (if b then some x else o) ≡ some y
    → x ≡ y
taken true x o t h = cc
taken false x o t h = absurd (cc)

passed :
    (b : Bool) (x : ℕ) (o : Option ℕ) {r : Option ℕ}
    → b ≡ false
    → (if b then some x else o) ≡ r
    → o ≡ r
passed true x o t h = absurd (cc)
passed false x o t h = h

not_none : (b : Bool) (x : ℕ) (o : Option ℕ) → b ≡ true → (if b then some x else o) ≢ none
not_none true x o t h = cc
not_none false x o t h = cc

module _ {K : Type 0} ⦃hasher : Hasher K⦄ (k : K) where
  pub find_entry-some :
      (es : List (Entry K)) (address : ℕ)
      → find_entry k es ≡ some address
      → (e : Entry K) × Memᴰ e es × (e.node ≡ k) × (e.address ≡ address)
  unfolding find_entry
  find_entry-some [] address h = absurd (cc)
  find_entry-some (e ∷ es) address h = elim (Bool-cases (hasher.equals e.node k)) [
    | inl same ↦ (
      e,
      Memᴰ.head refl,
      (hasher.equals_iff e.node k).0 same,
      taken (hasher.equals e.node k) e.address (find_entry k es) same h,
    )
    | inr other ↦
        let (e', m, is, at) =
          find_entry-some es address
            (passed (hasher.equals e.node k) e.address (find_entry k es) other h) in
        (e', Memᴰ.tail m, is, at)
  ]

  pub find_entry-none :
      (es : List (Entry K)) → find_entry k es ≡ none → (e : Entry K) → Memᴰ e es → e.node ≢ k
  unfolding find_entry
  find_entry-none [] h e m is = absurd (Memᴰ.not-nil m)
  find_entry-none (x ∷ es) h e m is = elim (Bool-cases (hasher.equals x.node k)) [
    | inl same ↦ not_none (hasher.equals x.node k) x.address (find_entry k es) same h
    | inr other ↦ elim (Memᴰ.cases_cons m) [
      | inl at ↦
          absurd (
            cc (other, (hasher.equals_iff x.node k).1 (ap (λ (y : Entry K). y.node) (sym at) ∙ is)))
      | inr later ↦
          find_entry-none es (passed (hasher.equals x.node k) x.address (find_entry k es) other h) e
            later is
    ]
  ]

-- An entry at the front of bucket h.
module _ {A : Type 0} (f : ℕ → List A) (h : ℕ) (x : A) where
  abbrev pub pushed : ℕ → List A
  pushed = update f h (x ∷ f h)

  pub pushed-mem : (i : ℕ) (e : A) → Memᴰ e (pushed i) → ((e ≡ x) × (h ≡ i)) ⊎ Memᴰ e (f i)
  pushed-mem i e m = elim (ℕ_discrete i h) [
    | yes same ↦
        elim (Memᴰ.cases_cons
          (subst (λ l. Memᴰ e l) (ap pushed same ∙ update_same f h (x ∷ f h)) m)) [
            | inl is ↦ inl (is, sym same)
            | inr later ↦ inr (subst (λ j. Memᴰ e (f j)) (sym same) later)
          ]
    | no other ↦ inr (subst (λ l. Memᴰ e l) (update_other f h i (x ∷ f h) other) m)
  ]

  pub mem-pushed : (i : ℕ) (e : A) → Memᴰ e (f i) → Memᴰ e (pushed i)
  mem-pushed i e m = elim (ℕ_discrete i h) [
    | yes same ↦
        subst (λ l. Memᴰ e l) (sym (ap pushed same ∙ update_same f h (x ∷ f h)))
          (Memᴰ.tail (subst (λ j. Memᴰ e (f j)) same m))
    | no other ↦ subst (λ l. Memᴰ e l) (sym (update_other f h i (x ∷ f h) other)) m
  ]

  pub mem-pushed_new : Memᴰ x (pushed h)
  mem-pushed_new = subst (λ l. Memᴰ x l) (sym (update_same f h (x ∷ f h))) (Memᴰ.head refl)

-- The entries in the first n buckets.
unfoldable pub total : {A : Type 0} → ℕ → (ℕ → List A) → ℕ
total zero f = 0
total (suc n) f = length (f n) + total n f

pub total-empty : (A : Type 0) (n : ℕ) → total {A = A} n (λ i. []) ≡ 0
unfolding total
total-empty A zero = refl
total-empty A (suc n) = omega (arith, total-empty A n)

module _ {A : Type 0} (f : ℕ → List A) (h : ℕ) (x : A) where
  total-pushed_beyond : (n : ℕ) → n ≤ h → total n (pushed f h x) ≡ total n f
  unfolding total
  total-pushed_beyond zero b = refl
  total-pushed_beyond (suc n) b =
      let same = ap length (update_other f h n (x ∷ f h) (omega arith)) in
      omega (arith, same, total-pushed_beyond n (omega arith))

  pub total-pushed : (n : ℕ) → h < n → total n (pushed f h x) ≡ suc (total n f)
  unfolding total
  total-pushed zero b = absurd (omega arith)
  total-pushed (suc n) b = elim (ℕ_discrete n h) [
    | yes is ↦
        let more = ap length (ap (pushed f h x) is ∙ update_same f h (x ∷ f h)) in
        let old = ap (λ j. length (f j)) is in
        omega (arith, more, old, total-pushed_beyond n (omega arith))
    | no other ↦
        let same = ap length (update_other f h n (x ∷ f h) other) in
        omega (arith, same, total-pushed n (omega arith))
  ]
