-- ===== src/Folding/OrLoop.antt =====
-- The loop of visitOr, where operands are dropped, and where those of an inner Or are put in its place.
use gazer.Base.{◌≡◌, refl, ◌∙◌, subst, List, [], ◌∷◌, ◌++◌, false, true, ok, arith}
use gazer.Core.Literal.{bool_lit, Atom, lit}
use gazer.Evaluator.Logic.{or_loop, bool_value}
use gazer.Evaluator.Connectives.{truth}

pub or_loop-append_false :
    (xs ys : List Atom)
    → or_loop xs false ≡ ok (truth false)
    → or_loop (xs ++ ys) false ≡ or_loop ys false
unfolding or_loop bool_value
or_loop-append_false [] ys h = refl
or_loop-append_false (lit (bool_lit false) ∷ xs) ys h = or_loop-append_false xs ys h
or_loop-append_false (_ ∷ xs) ys h = ground arith

pub or_loop-append_true :
    (xs ys : List Atom)
    → or_loop xs false ≡ ok (truth true)
    → or_loop (xs ++ ys) false ≡ ok (truth true)
unfolding or_loop bool_value
or_loop-append_true [] ys h = ground arith
or_loop-append_true (lit (bool_lit false) ∷ xs) ys h = or_loop-append_true xs ys h
or_loop-append_true (lit (bool_lit true) ∷ xs) ys h = refl
or_loop-append_true (_ ∷ xs) ys h = ground arith

-- Replacing the operands after the first keeps the value of the loop.
pub or_loop-cons :
    (x : Atom) (xs ys : List Atom) (v : Atom)
    → ((w : Atom) → or_loop xs false ≡ ok w → or_loop ys false ≡ ok w)
    → or_loop (x ∷ xs) false ≡ ok v
    → or_loop (x ∷ ys) false ≡ ok v
unfolding or_loop bool_value
or_loop-cons (lit (bool_lit false)) xs ys v f h = f v h
or_loop-cons (lit (bool_lit true)) xs ys v f h = h
or_loop-cons _ xs ys v f h = ground arith

pub or_loop-inline :
    (inner xs ys : List Atom) (x v : Atom)
    → or_loop inner false ≡ ok x
    → ((w : Atom) → or_loop xs false ≡ ok w → or_loop ys false ≡ ok w)
    → or_loop (x ∷ xs) false ≡ ok v
    → or_loop (inner ++ ys) false ≡ ok v
unfolding or_loop bool_value
or_loop-inline inner xs ys (lit (bool_lit false)) v p f h = or_loop-append_false inner ys p ∙ f v h
or_loop-inline inner xs ys (lit (bool_lit true)) v p f h = or_loop-append_true inner ys p ∙ h
or_loop-inline inner xs ys _ v p f h = ground arith

-- Where the rest can only give true, the whole does.
pub or_loop-true :
    (x : Atom) (xs : List Atom) (v : Atom)
    → ((w : Atom) → or_loop xs false ≡ ok w → w ≡ truth true)
    → or_loop (x ∷ xs) false ≡ ok v
    → v ≡ truth true
unfolding or_loop bool_value
or_loop-true (lit (bool_lit false)) xs v f h = f v h
or_loop-true (lit (bool_lit true)) xs v f h = cc
or_loop-true _ xs v f h = cc

pub or_loop-nil : or_loop [] false ≡ ok (truth false)
unfolding or_loop
or_loop-nil = refl

pub or_loop-single : (x v : Atom) → or_loop (x ∷ []) false ≡ ok v → x ≡ v
unfolding or_loop bool_value
or_loop-single (lit (bool_lit false)) v h = cc
or_loop-single (lit (bool_lit true)) v h = cc
or_loop-single _ v h = cc

pub or_loop-first :
    (x : Atom) (xs : List Atom) (v : Atom)
    → x ≡ truth true
    → or_loop (x ∷ xs) false ≡ ok v
    → v ≡ truth true
unfolding or_loop bool_value
or_loop-first x xs v is h =
    let loop : or_loop (truth true ∷ xs) false ≡ ok v =
      subst (λ y. or_loop (y ∷ xs) false ≡ ok v) is h in
    cc

pub or_loop-skip :
    (vs xs : List Atom) (v : Atom)
    → vs ≡ truth false ∷ xs
    → or_loop vs false ≡ ok v
    → or_loop xs false ≡ ok v
unfolding or_loop bool_value
or_loop-skip vs xs v same h = subst (λ l. or_loop l false ≡ ok v) same h
