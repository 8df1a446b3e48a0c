-- ===== src/Support/ScopedCache/Scopes.antt =====
-- Lookups after insertions, and scopes that are opened and closed.
use gazer.Base.{
  ◌≡◌, refl, ap, ◌∙◌, inl, inr, Bool-cases, List, [], ◌∷◌, ◌++◌, some, fault, ok, ◌>>=◌, decided,
  if◌then◌else◌,
}
use gazer.Support.ScopedCache.{
  Cache, Scope, no_entries, get, push, pop, insert, Operation, insert_op, push_op, pop_op, apply,
  run,
}

module _ {K V : Type 0} (same : Discrete K) where
  -- The cache has its root scope.
  pub data HasRoot : Cache K V → Type 0 where
    has_root : {scope : Scope K V} {scopes : List (Scope K V)} → HasRoot (scope ∷ scopes)

  -- What is inserted in a cache with its root scope is found under its key, whatever the scopes around hold,
  -- and other keys are as before.
  pub get-insert :
      (scopes : Cache K V)
      → HasRoot scopes
      → (key other : K) (v : V)
      → (insert same key v scopes >>= λ next. ok (get next other))
        ≡ ok (if decided (same other key) then some v else get scopes other)
  unfolding insert get
  get-insert _ has_root key other v = elim (Bool-cases (decided (same other key))) [
    | inl t ↦ (cc)
    | inr f ↦ (cc)
  ]

  -- Operations that close every scope they open, and clear nothing.
  pub data Balanced : List (Operation K V) → Type 0 where
    nothing : Balanced []
    inserts :
        (key : K) (v : V) {ops : List (Operation K V)}
        → Balanced ops
        → Balanced (insert_op key v ∷ ops)
    nests :
        {inner rest : List (Operation K V)}
        → Balanced inner
        → Balanced rest
        → Balanced (push_op ∷ inner ++ pop_op ∷ rest)

  run-append :
      (ops more : List (Operation K V)) (scopes : Cache K V)
      → run same (ops ++ more) scopes ≡ (run same ops scopes >>= λ next. run same more next)
  unfolding run
  run-append [] more scopes = refl
  run-append (op ∷ ops) more scopes =
      elim (apply same op scopes)
        as (λ r.
          (r >>= λ next. run same (ops ++ more) next)
          ≡ ((r >>= λ next. run same ops next) >>= λ next. run same more next)) [
            | fault e ↦ refl
            | ok next ↦ run-append ops more next
          ]

  -- Balanced operations change the current scope only.
  Balanced-keeps :
      {ops : List (Operation K V)}
      → Balanced ops
      → (scope : Scope K V) (scopes : List (Scope K V))
      → (scope' : Scope K V) × (run same ops (scope ∷ scopes) ≡ ok (scope' ∷ scopes))
  unfolding run apply insert push pop
  Balanced-keeps nothing scope scopes = (scope, refl)
  Balanced-keeps (inserts key v b) scope scopes = Balanced-keeps b _ scopes
  Balanced-keeps (nests {inner} {rest} b c) scope scopes =
      let (inner_scope, runs) = Balanced-keeps b (no_entries K V) (scope ∷ scopes) in
      let (after, runs') = Balanced-keeps c scope scopes in
      (
        after,
        run-append inner (pop_op ∷ rest) (no_entries K V ∷ scope ∷ scopes)
            ∙ ap (λ r. r >>= λ next. run same (pop_op ∷ rest) next) runs
            ∙ runs',
      )

  -- Where a cache has its root scope, after a scope is opened, balanced operations are done and the scope is
  -- closed, the cache is what it was.
  pub run-scope :
      (ops : List (Operation K V)) (scopes : Cache K V)
      → Balanced ops
      → HasRoot scopes
      → run same (push_op ∷ ops ++ pop_op ∷ []) scopes ≡ ok scopes
  unfolding run apply push pop
  run-scope ops _ b (has_root {scope} {scopes}) =
      let (inner_scope, runs) = Balanced-keeps b (no_entries K V) (scope ∷ scopes) in
      run-append ops (pop_op ∷ []) (no_entries K V ∷ scope ∷ scopes)
      ∙ ap (λ r. r >>= λ next. run same (pop_op ∷ []) next) runs
