-- ===== src/Support/ScopedCache.antt =====
-- ScopedCache (include/gazer/ADT/ScopedCache.h): a stack of maps, the current scope first. A map is the
-- function that looks a key up, and keys are compared by their decided equality.
use gazer.Base.{
  Bool, List, [], ◌∷◌, Option, none, some, Result, fault, ok, Fault, ◌>>=◌, decided, if◌then◌else◌,
}
pub mod Scopes

abbrev pub Scope : Type 0 → Type 0 → Type 0
Scope K V = K → Option V

abbrev pub Cache : Type 0 → Type 0 → Type 0
Cache K V = List (Scope K V)

module _ (K V : Type 0) where
  abbrev pub no_entries : Scope K V
  no_entries key = none

  -- The constructor makes the root scope.
  abbrev pub fresh : Cache K V
  fresh = no_entries ∷ []

module _ {K V : Type 0} where
  unfoldable pub get : Cache K V → K → Option V
  get [] key = none
  get (scope ∷ scopes) key = elim (scope key) [ none ↦ get scopes key | some v ↦ some v ]

  unfoldable pub push : Cache K V → Cache K V
  push scopes = no_entries K V ∷ scopes

  unfoldable pub pop : Cache K V → Result (Cache K V)
  pop (scope ∷ outer ∷ scopes) = ok (outer ∷ scopes)
  pop _ = fault Fault.assertion

  -- `resize(1)` keeps the root scope, which is then cleared.
  unfoldable pub clear : Cache K V → Cache K V
  clear scopes = fresh K V

  module _ (same : Discrete K) where
    -- `back` of an empty vector is undefined.
    unfoldable pub insert : K → V → Cache K V → Result (Cache K V)
    insert key v [] = fault Fault.undefined_behaviour
    insert key v (scope ∷ scopes) =
        ok ((λ other. if decided (same other key) then some v else scope other) ∷ scopes)

-- The operations that change a cache, and what a sequence of them does.
pub data Operation (K V : Type 0) : Type 0 where
  insert_op : K → V → Operation K V
  push_op pop_op clear_op : Operation K V

module _ {K V : Type 0} (same : Discrete K) where
  unfoldable pub apply : Operation K V → Cache K V → Result (Cache K V)
  unfolding insert push pop clear
  apply (insert_op key v) scopes = insert same key v scopes
  apply push_op scopes = ok (push scopes)
  apply pop_op scopes = pop scopes
  apply clear_op scopes = ok (clear scopes)

  unfoldable pub run : List (Operation K V) → Cache K V → Result (Cache K V)
  unfolding apply
  run [] scopes = ok scopes
  run (op ∷ ops) scopes = apply op scopes >>= λ next. run ops next
