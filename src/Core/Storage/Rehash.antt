-- ===== src/Core/Storage/Rehash.antt =====
-- rehashTable puts every entry in the bucket of its hash code and loses none.
use gazer.Base.{
  ℕ, zero, suc, ◌+◌, ◌≤◌, ◌<◌, ◌%◌, ◌≡◌, refl, sym, ap, ◌∙◌, subst, inl, inr, ◌⊎◌, List, [], ◌∷◌,
  length, Memᴰ, arith,
}
use gazer.Base.Memᴰ
use gazer.Core.Storage.{Entry, rehash_chain, rehash_buckets}
use gazer.Core.Storage.Chains.{
  pushed, pushed-mem, mem-pushed, mem-pushed_new, total, total-empty, total-pushed,
}

module _ {K : Type 0} (size : ℕ) where
  rehash_chain-mem :
      (es : List (Entry K)) (fresh : ℕ → List (Entry K)) (i : ℕ) (e : Entry K)
      → Memᴰ e (rehash_chain size es fresh i)
      → (Memᴰ e es × (e.hash_code % size ≡ i)) ⊎ Memᴰ e (fresh i)
  unfolding rehash_chain
  rehash_chain-mem [] fresh i e m = inr m
  rehash_chain-mem (x ∷ es) fresh i e m =
      elim (rehash_chain-mem es (pushed fresh (x.hash_code % size) x) i e m) [
        | inl (later, at) ↦ inl (Memᴰ.tail later, at)
        | inr there ↦ elim (pushed-mem fresh (x.hash_code % size) x i e there) [
          | inl (is, at) ↦ inl (Memᴰ.head is, ap (λ (y : Entry K). y.hash_code % size) is ∙ at)
          | inr old ↦ inr old
        ]
      ]

  mem-rehash_chain_old :
      (es : List (Entry K)) (fresh : ℕ → List (Entry K)) (i : ℕ) (e : Entry K)
      → Memᴰ e (fresh i)
      → Memᴰ e (rehash_chain size es fresh i)
  unfolding rehash_chain
  mem-rehash_chain_old [] fresh i e m = m
  mem-rehash_chain_old (x ∷ es) fresh i e m =
      mem-rehash_chain_old es (pushed fresh (x.hash_code % size) x) i e
        (mem-pushed fresh (x.hash_code % size) x i e m)

  mem-rehash_chain :
      (es : List (Entry K)) (fresh : ℕ → List (Entry K)) (e : Entry K)
      → Memᴰ e es
      → Memᴰ e (rehash_chain size es fresh (e.hash_code % size))
  unfolding rehash_chain
  mem-rehash_chain [] fresh e m = absurd (Memᴰ.not-nil m)
  mem-rehash_chain (x ∷ es) fresh e m = elim (Memᴰ.cases_cons m) [
    | inl is ↦
        subst
          (λ (y : Entry K).
            Memᴰ y
              (rehash_chain size es (pushed fresh (x.hash_code % size) x) (y.hash_code % size)))
          (sym is)
          (mem-rehash_chain_old es (pushed fresh (x.hash_code % size) x) (x.hash_code % size) x
            (mem-pushed_new fresh (x.hash_code % size) x))
    | inr later ↦ mem-rehash_chain es (pushed fresh (x.hash_code % size) x) e later
  ]

  pub rehash_buckets-mem :
      (old : ℕ → List (Entry K)) (n i : ℕ) (e : Entry K)
      → Memᴰ e (rehash_buckets size old n i)
      → ((j : ℕ) × Memᴰ e (old j)) × (e.hash_code % size ≡ i)
  unfolding rehash_buckets
  rehash_buckets-mem old zero i e m = absurd (Memᴰ.not-nil m)
  rehash_buckets-mem old (suc n) i e m =
      elim (rehash_chain-mem (old n) (rehash_buckets size old n) i e m) [
        | inl (there, at) ↦ ((n, there), at)
        | inr before ↦ rehash_buckets-mem old n i e before
      ]

  pub mem-rehash_buckets :
      (old : ℕ → List (Entry K)) (n j : ℕ) (e : Entry K)
      → j < n
      → Memᴰ e (old j)
      → Memᴰ e (rehash_buckets size old n (e.hash_code % size))
  unfolding rehash_buckets
  mem-rehash_buckets old zero j e b m = absurd (omega arith)
  mem-rehash_buckets old (suc n) j e b m = elim (gazer.Base.ℕ_discrete j n) [
    | yes is ↦
        mem-rehash_chain (old n) (rehash_buckets size old n) e (subst (λ k. Memᴰ e (old k)) is m)
    | no other ↦
        mem-rehash_chain_old (old n) (rehash_buckets size old n) (e.hash_code % size) e
          (mem-rehash_buckets old n j e (omega arith) m)
  ]

  total-rehash_chain :
      (es : List (Entry K)) (fresh : ℕ → List (Entry K))
      → 0 < size
      → total size (rehash_chain size es fresh) ≡ length es + total size fresh
  unfolding rehash_chain
  total-rehash_chain [] fresh pos = omega arith
  total-rehash_chain (x ∷ es) fresh pos = omega (
    arith,
    total-rehash_chain es (pushed fresh (x.hash_code % size) x) pos,
    total-pushed fresh (x.hash_code % size) x size (omega arith),
  )

  pub total-rehash_buckets :
      (old : ℕ → List (Entry K)) (n : ℕ)
      → 0 < size
      → total size (rehash_buckets size old n) ≡ total n old
  unfolding rehash_buckets total
  total-rehash_buckets old zero pos = total-empty (Entry K) size
  total-rehash_buckets old (suc n) pos = omega (
    arith,
    total-rehash_chain (old n) (rehash_buckets size old n) pos,
    total-rehash_buckets old n pos,
  )
