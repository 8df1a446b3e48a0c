-- ===== src/Folding/OperandValues.antt =====
-- The values of a list of operands.
use gazer.Base.{
  ◌≡◌, refl, sym, ap, ◌∙◌, subst, List, [], ◌∷◌, ◌++◌, Bool, some, ok, ◌>>=◌, >>=-eq-ok,
}
use gazer.Core.Llvm.{Llvm}
use gazer.Core.Literal.{bool_lit, Atom}
use gazer.Core.Expr.{Expr, Exprs}
use gazer.Walker.Order.{sequence, post_order, post_order_all}
use gazer.Evaluator.Connectives.{truth}
use gazer.Evaluator.Visit.{Valuation, visit, eval}
use gazer.Folding.Match.{as_bool, as_bool-some}
use gazer.Folding.Operands.{eval_literal}
use gazer.Folding.Logic.{append}

module _ ⦃llvm : Llvm⦄ (valuation : Valuation) where
  -- The operands evaluate to the values.
  abbrev pub Values : Exprs → List Atom → Type 0
  Values es vs = sequence (post_order_all (visit valuation) es) ≡ ok vs

  pub Values-cons :
      (e : Expr) (es : Exprs) (vs : List Atom)
      → Values (Exprs.cons e es) vs
      → (x : Atom) × (xs : List Atom) × (vs ≡ x ∷ xs) × (eval valuation e ≡ ok x) × Values es xs
  unfolding post_order
  Values-cons e es vs h =
      let (x, p, rest) =
        >>=-eq-ok (eval valuation e)
          (λ a. sequence (post_order_all (visit valuation) es) >>= λ as'. ok (a ∷ as')) h in
      let (xs, q, made) =
        >>=-eq-ok (sequence (post_order_all (visit valuation) es)) (λ as'. ok (x ∷ as')) rest in
      (x, xs, cc, p, q)

  pub cons-Values :
      (e : Expr) (es : Exprs) (x : Atom) (xs : List Atom)
      → eval valuation e ≡ ok x
      → Values es xs
      → Values (Exprs.cons e es) (x ∷ xs)
  unfolding post_order
  cons-Values e es x xs p q = rw (p, q) refl

  pub append-Values :
      (es fs : Exprs) (xs ys : List Atom)
      → Values es xs
      → Values fs ys
      → Values (append es fs) (xs ++ ys)
  unfolding post_order append
  append-Values Exprs.nil fs xs ys p q =
      let same : xs ≡ [] = cc in subst (λ zs. Values fs (zs ++ ys)) (sym same) q
  append-Values (Exprs.cons e es) fs xs ys p q =
      let (z, zs, same, head, tail) = Values-cons e es xs p in
      subst (λ l. Values (Exprs.cons e (append es fs)) (l ++ ys)) (sym same)
        (cons-Values e (append es fs) z (zs ++ ys) head (append-Values es fs zs ys tail q))

  pub Values-nil : (vs : List Atom) → Values Exprs.nil vs → vs ≡ []
  unfolding post_order
  Values-nil vs h = cc

  pub literal_truth :
      (e : Expr) (b : Bool) (x : Atom) → as_bool e ≡ some b → eval valuation e ≡ ok x → x ≡ truth b
  literal_truth e b x is_bool h =
      let value : ok (truth b) ≡ ok x =
        sym (eval_literal valuation (bool_lit b))
        ∙ sym (ap (eval valuation) (as_bool-some e b is_bool))
        ∙ h in
      cc
