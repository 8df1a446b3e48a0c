-- ===== src/Folding/AndLoop.antt =====
-- The loop of visitAnd, where operands are dropped, and where those of an inner And are put in its place.
use gazer.Base.{◌≡◌, refl, ◌∙◌, subst, List, [], ◌∷◌, ◌++◌, true, false, ok, arith}
use gazer.Core.Literal.{bool_lit, Atom, lit}
use gazer.Evaluator.Logic.{and_loop, bool_value}
use gazer.Evaluator.Connectives.{truth}

pub and_loop-append_true :
    (xs ys : List Atom)
    → and_loop xs false ≡ ok (truth true)
    → and_loop (xs ++ ys) false ≡ and_loop ys false
unfolding and_loop bool_value
and_loop-append_true [] ys h = refl
and_loop-append_true (lit (bool_lit true) ∷ xs) ys h = and_loop-append_true xs ys h
and_loop-append_true (_ ∷ xs) ys h = ground arith

pub and_loop-append_false :
    (xs ys : List Atom)
    → and_loop xs false ≡ ok (truth false)
    → and_loop (xs ++ ys) false ≡ ok (truth false)
unfolding and_loop bool_value
and_loop-append_false [] ys h = ground arith
and_loop-append_false (lit (bool_lit true) ∷ xs) ys h = and_loop-append_false xs ys h
and_loop-append_false (lit (bool_lit false) ∷ xs) ys h = refl
and_loop-append_false (_ ∷ xs) ys h = ground arith

-- Replacing the operands after the first keeps the value of the loop.
pub and_loop-cons :
    (x : Atom) (xs ys : List Atom) (v : Atom)
    → ((w : Atom) → and_loop xs false ≡ ok w → and_loop ys false ≡ ok w)
    → and_loop (x ∷ xs) false ≡ ok v
    → and_loop (x ∷ ys) false ≡ ok v
unfolding and_loop bool_value
and_loop-cons (lit (bool_lit true)) xs ys v f h = f v h
and_loop-cons (lit (bool_lit false)) xs ys v f h = h
and_loop-cons _ xs ys v f h = ground arith

pub and_loop-inline :
    (inner xs ys : List Atom) (x v : Atom)
    → and_loop inner false ≡ ok x
    → ((w : Atom) → and_loop xs false ≡ ok w → and_loop ys false ≡ ok w)
    → and_loop (x ∷ xs) false ≡ ok v
    → and_loop (inner ++ ys) false ≡ ok v
unfolding and_loop bool_value
and_loop-inline inner xs ys (lit (bool_lit true)) v p f h = and_loop-append_true inner ys p ∙ f v h
and_loop-inline inner xs ys (lit (bool_lit false)) v p f h = and_loop-append_false inner ys p ∙ h
and_loop-inline inner xs ys _ v p f h = ground arith

-- Where the rest can only give false, the whole does.
pub and_loop-false :
    (x : Atom) (xs : List Atom) (v : Atom)
    → ((w : Atom) → and_loop xs false ≡ ok w → w ≡ truth false)
    → and_loop (x ∷ xs) false ≡ ok v
    → v ≡ truth false
unfolding and_loop bool_value
and_loop-false (lit (bool_lit true)) xs v f h = f v h
and_loop-false (lit (bool_lit false)) xs v f h = cc
and_loop-false _ xs v f h = cc

pub and_loop-nil : and_loop [] false ≡ ok (truth true)
unfolding and_loop
and_loop-nil = refl

pub and_loop-single : (x v : Atom) → and_loop (x ∷ []) false ≡ ok v → x ≡ v
unfolding and_loop bool_value
and_loop-single (lit (bool_lit true)) v h = cc
and_loop-single (lit (bool_lit false)) v h = cc
and_loop-single _ v h = cc

pub and_loop-first :
    (x : Atom) (xs : List Atom) (v : Atom)
    → x ≡ truth false
    → and_loop (x ∷ xs) false ≡ ok v
    → v ≡ truth false
unfolding and_loop bool_value
and_loop-first x xs v is h =
    let loop : and_loop (truth false ∷ xs) false ≡ ok v =
      subst (λ y. and_loop (y ∷ xs) false ≡ ok v) is h in
    cc

pub and_loop-skip :
    (vs xs : List Atom) (v : Atom)
    → vs ≡ truth true ∷ xs
    → and_loop vs false ≡ ok v
    → and_loop xs false ≡ ok v
unfolding and_loop bool_value
and_loop-skip vs xs v same h = subst (λ l. and_loop l false ≡ ok v) same h
