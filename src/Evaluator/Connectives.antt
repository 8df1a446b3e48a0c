-- ===== src/Evaluator/Connectives.antt =====
-- And and Or of the evaluator: the loops of visitAnd and visitOr over the values of the operands.
use gazer.Base.{List, [], ◌∷◌, Bool, true, false, ◌≡◌, ◌↔◌, ◌⊎◌, ok, arith}
use gazer.Core.Literal.{bool_lit, Atom, lit}
use gazer.Evaluator.Logic.{and_loop, or_loop, bool_value}

abbrev pub truth : Bool → Atom
truth b = lit (bool_lit b)

-- All operands have the value b.
abbrev pub AllAre : Bool → List Atom → Type 0
AllAre b [] = Unit
AllAre b (a ∷ rest) = (a ≡ truth b) × AllAre b rest

-- The operands up to one with the value b have the other value.
abbrev pub Reaches : Bool → Bool → List Atom → Type 0
Reaches b other [] = ⊥
Reaches b other (a ∷ rest) = (a ≡ truth b) ⊎ (a ≡ truth other) × Reaches b other rest

bool_value-eq-ok : (a : Atom) (b : Bool) → bool_value a ≡ ok b → a ≡ truth b
unfolding bool_value
bool_value-eq-ok (lit (bool_lit c)) b h = cc
bool_value-eq-ok _ b h = cc

-- And has a value exactly where all operands are true, and it is true, or where the operands up to
-- a false one are true, and it is false. It never gives an undef.
pub and_loop-value :
    (ops : List Atom) (a : Atom)
    → (and_loop ops false ≡ ok a)
      ↔ ((a ≡ truth true) × AllAre true ops ⊎ (a ≡ truth false) × Reaches false true ops)
unfolding and_loop bool_value
and_loop-value [] a = ground arith
and_loop-value (lit (bool_lit true) ∷ ops) a = ground (arith, and_loop-value ops a)
and_loop-value (lit (bool_lit false) ∷ ops) a = ground arith
and_loop-value (_ ∷ ops) a = ground arith

-- Or has a value exactly where all operands are false, and it is false, or where the operands up to
-- a true one are false, and it is true. It never gives an undef.
pub or_loop-value :
    (ops : List Atom) (a : Atom)
    → (or_loop ops false ≡ ok a)
      ↔ ((a ≡ truth false) × AllAre false ops ⊎ (a ≡ truth true) × Reaches true false ops)
unfolding or_loop bool_value
or_loop-value [] a = ground arith
or_loop-value (lit (bool_lit false) ∷ ops) a = ground (arith, or_loop-value ops a)
or_loop-value (lit (bool_lit true) ∷ ops) a = ground arith
or_loop-value (_ ∷ ops) a = ground arith
