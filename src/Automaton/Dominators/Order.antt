-- ===== src/Automaton/Dominators/Order.antt =====
-- The arguments of the searches for common dominators, and their indexes.
use gazer.Base.{
  ℕ, ◌-◌, ◌<◌, ◌≤◌, ◌≡◌, refl, ap, true, List, Option, none, some, get_elem?, ltb, ok, or_fault,
  Fault, arith,
}
use gazer.Automaton.Cfa.{Transition}
use gazer.Automaton.Dominators.{start_or_first, location_at, sub_size}

-- What the search asks of its arguments: the locations are listed at their index.
module _ (topo : List ℕ) (index : ℕ → ℕ) where
  -- `topo` lists the location, at its index.
  abbrev pub Listed : ℕ → Type 0
  Listed location = get_elem? topo (index location) ≡ some location

  -- The start of the region: the given location, or the first one.
  pub data IsStart : Option ℕ → ℕ → Type 0 where
    given : {location : ℕ} → Listed location → IsStart (some location) location
    first_location : {location : ℕ} → get_elem? topo 0 ≡ some location → IsStart none location

  -- The start of the search for post-dominators: the given location, or the exit of the automaton.
  pub data IsEnd (exit : ℕ) : Option ℕ → ℕ → Type 0 where
    given_end : {location : ℕ} → Listed location → IsEnd exit (some location) location
    at_exit : Listed exit → IsEnd exit none exit

  -- An edge of the automaton from a location at or after the start.
  pub record IsTarget (start : ℕ) (edge : Transition) : Type 0 where
    pub source_listed : Listed edge.source
    pub target_listed : Listed edge.target
    pub after_start : index start ≤ index edge.source
    pub forward : index edge.source < index edge.target

  -- An edge of the automaton to a location at or before the start of the search.
  pub record IsOrigin (start : ℕ) (edge : Transition) : Type 0 where
    pub source_listed : Listed edge.source
    pub target_listed : Listed edge.target
    pub before_start : index edge.target ≤ index start
    pub forward : index edge.source < index edge.target

pub sub_size-eq : (a b : ℕ) → b ≤ a → sub_size a b ≡ a - b
unfolding sub_size
sub_size-eq a b h = ground arith

pub ltb-of_lt : (a b : ℕ) → a < b → ltb a b ≡ true
ltb-of_lt a b h = ground arith

pub start_or_first-runs :
    (topo : List ℕ) (index : ℕ → ℕ) {o : Option ℕ} {start : ℕ}
    → IsStart topo index o start
    → start_or_first topo o ≡ ok start
unfolding start_or_first location_at
start_or_first-runs topo index (given l) = refl
start_or_first-runs topo index (first_location h) = ap (λ o. or_fault Fault.undefined_behaviour o) h
