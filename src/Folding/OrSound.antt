-- ===== src/Folding/OrSound.antt =====
-- Or of the folding builder keeps the value of the disjunction.
use gazer.Base.{
  ◌≡◌, refl, sym, ap, ◌∙◌, subst, inl, inr, List, [], ◌∷◌, ◌++◌, Bool, false, true, Option, none,
  some, Option-cases, if◌then◌else◌, ok, >>=-eq-ok, require,
}
use gazer.Core.Llvm.{Llvm}
use gazer.Core.Literal.{bool_lit, Atom}
use gazer.Core.Expr.{Expr, Exprs}
use gazer.Core.Create.{all_bool, is_nonempty, create_or}
use gazer.Walker.Order.{sequence, post_order, post_order_all}
use gazer.Evaluator.Logic.{or_loop}
use gazer.Evaluator.Connectives.{truth}
use gazer.Evaluator.Visit.{Valuation, visit, eval}
use gazer.Folding.Match.{as_bool, as_or, as_or-some}
use gazer.Folding.Operands.{eval_literal}
use gazer.Folding.Logic.{append, or_ops, finish_or, build_or}
use gazer.Folding.OperandValues.{
  Values, Values-cons, cons-Values, append-Values, Values-nil, literal_truth,
}
use gazer.Folding.OrLoop.{
  or_loop-cons, or_loop-inline, or_loop-true, or_loop-nil, or_loop-single, or_loop-first,
  or_loop-skip,
}

create_or_lem : (es : Exprs) (e : Expr) → create_or es ≡ ok e → e ≡ Expr.or_expr es
unfolding create_or
create_or_lem es e h =
    let (_, _, rest) = >>=-eq-ok (require (all_bool es)) _ h in
    let (_, _, made) = >>=-eq-ok (require (is_nonempty es)) (λ _. ok (Expr.or_expr es)) rest in cc

false_only :
    (b : Bool) (rest : Option Exprs) (ops : Exprs)
    → (if b then none else rest) ≡ some ops
    → (b ≡ false) × (rest ≡ some ops)
false_only false rest ops h = (refl, h)
false_only true rest ops h = cc

module _ ⦃llvm : Llvm⦄ (valuation : Valuation) where
  eval-or :
      (es : Exprs) (v : Atom)
      → eval valuation (Expr.or_expr es) ≡ ok v
      → (vs : List Atom) × Values valuation es vs × (or_loop vs false ≡ ok v)
  unfolding post_order visit
  eval-or es v h =
      >>=-eq-ok (sequence (post_order_all (visit valuation) es)) (visit valuation (Expr.or_expr es))
        h

  or-eval :
      (es : Exprs) (vs : List Atom) (v : Atom)
      → Values valuation es vs
      → or_loop vs false ≡ ok v
      → eval valuation (Expr.or_expr es) ≡ ok v
  unfolding post_order visit
  or-eval es vs v p q = rw p q

  -- The operands that are left evaluate, and their loop gives the same.
  or_ops-Values :
      (es ops : Exprs) (vs : List Atom)
      → Values valuation es vs
      → or_ops es ≡ some ops
      → (ws : List Atom) × Values valuation ops ws
        × ((v : Atom) → or_loop vs false ≡ ok v → or_loop ws false ≡ ok v)
  unfolding or_ops
  or_ops-Values Exprs.nil ops vs p h =
      let same : ops ≡ Exprs.nil = cc in
      (vs, subst (λ o. Values valuation o vs) (sym same) p, λ v q. q)
  or_ops-Values (Exprs.cons e es) ops vs p h =
      let (x, xs, same, head, tail) = Values-cons valuation e es vs p in
      elim (Option-cases (as_bool e)) [
        | inr (b, is_bool) ↦
            let rest : (b ≡ false) × (or_ops es ≡ some ops) = false_only b (or_ops es) ops cc in
            let (ws, evaluate, keeps) = or_ops-Values es ops xs tail rest.1 in
            let is_false : x ≡ truth false =
              literal_truth valuation e b x is_bool head ∙ ap truth rest.0 in
            (
              ws,
              evaluate,
              λ v q. keeps v (or_loop-skip vs xs v (same ∙ ap (λ a. a ∷ xs) is_false) q),
            )
        | inl no_bool ↦ elim (Option-cases (or_ops es)) [
          | inl none_left ↦ cc
          | inr (left, is_left) ↦
              let (ws, evaluate, keeps) = or_ops-Values es left xs tail is_left in
              elim (Option-cases (as_or e)) [
                | inl no_or ↦
                    let is : ops ≡ Exprs.cons e left = cc in
                    (
                      x ∷ ws,
                      subst (λ o. Values valuation o (x ∷ ws)) (sym is)
                          (cons-Values valuation e left x ws head evaluate),
                      λ v q.
                          or_loop-cons x xs ws v keeps (subst (λ l. or_loop l false ≡ ok v) same q),
                    )
                | inr (inner, is_or) ↦
                    let is : ops ≡ append inner left = cc in
                    let value : eval valuation (Expr.or_expr inner) ≡ ok x =
                      subst (λ a. eval valuation a ≡ ok x) (as_or-some e inner is_or) head in
                    let (us, inner_values, loop) = eval-or inner x value in
                    (
                      us ++ ws,
                      subst (λ o. Values valuation o (us ++ ws)) (sym is)
                          (append-Values valuation inner left us ws inner_values evaluate),
                      λ v q.
                          or_loop-inline us xs ws x v loop keeps
                            (subst (λ l. or_loop l false ≡ ok v) same q),
                    )
              ]
        ]
      ]

  -- An early return stands for a true operand.
  or_ops-none :
      (es : Exprs) (vs : List Atom) (v : Atom)
      → Values valuation es vs
      → or_ops es ≡ none
      → or_loop vs false ≡ ok v
      → v ≡ truth true
  unfolding or_ops
  or_ops-none Exprs.nil vs v p h q = cc
  or_ops-none (Exprs.cons e es) vs v p h q =
      let (x, xs, same, head, tail) = Values-cons valuation e es vs p in
      let loop : or_loop (x ∷ xs) false ≡ ok v = subst (λ l. or_loop l false ≡ ok v) same q in
      let later : or_ops es ≡ none → v ≡ truth true =
        λ gone. or_loop-true x xs v (λ w r. or_ops-none es xs w tail gone r) loop in
      elim (Option-cases (or_ops es)) [
        | inl gone ↦ later gone
        | inr (left, is_left) ↦ elim (Option-cases (as_bool e)) [
          | inr (false, is_bool) ↦ cc
          | inr (true, is_bool) ↦
              or_loop-first x xs v (literal_truth valuation e true x is_bool head) loop
          | inl no_bool ↦ elim (Option-cases (as_or e)) [ inl no_or ↦ cc | inr (inner, is_or) ↦ cc ]
        ]
      ]

  finish_or-Values :
      (ops : Exprs) (e : Expr) (ws : List Atom) (v : Atom)
      → finish_or ops ≡ ok e
      → Values valuation ops ws
      → or_loop ws false ≡ ok v
      → eval valuation e ≡ ok v
  unfolding finish_or
  finish_or-Values Exprs.nil e ws v h p q =
      let same : ws ≡ [] = Values-nil valuation ws p in
      let is : e ≡ Expr.literal (bool_lit false) = cc in
      let loop : or_loop [] false ≡ ok v = subst (λ l. or_loop l false ≡ ok v) same q in
      ap (eval valuation) is ∙ eval_literal valuation (bool_lit false) ∙ sym or_loop-nil ∙ loop
  finish_or-Values (Exprs.cons f Exprs.nil) e ws v h p q =
      let (x, xs, same, head, tail) = Values-cons valuation f Exprs.nil ws p in
      let is : e ≡ f = cc in
      let loop : or_loop (x ∷ []) false ≡ ok v =
        subst (λ l. or_loop l false ≡ ok v) (same ∙ ap (λ l. x ∷ l) (Values-nil valuation xs tail))
          q in
      ap (eval valuation) is ∙ head ∙ ap ok (or_loop-single x v loop)
  finish_or-Values (Exprs.cons f (Exprs.cons g fs)) e ws v h p q =
      let is : e ≡ Expr.or_expr (Exprs.cons f (Exprs.cons g fs)) =
        create_or_lem (Exprs.cons f (Exprs.cons g fs)) e h in
      ap (eval valuation) is ∙ or-eval (Exprs.cons f (Exprs.cons g fs)) ws v p q

  -- Where a disjunction has a value, what Or of the folding builder makes of its operands has it.
  pub build_or_sound :
      (es : Exprs) (e : Expr) (v : Atom)
      → build_or es ≡ ok e
      → eval valuation (Expr.or_expr es) ≡ ok v
      → eval valuation e ≡ ok v
  unfolding build_or
  build_or_sound es e v h value =
      let (vs, values, loop) = eval-or es v value in
      elim (Option-cases (or_ops es)) [
        | inl gone ↦
            let is : e ≡ Expr.literal (bool_lit true) = cc in
            ap (eval valuation) is
            ∙ eval_literal valuation (bool_lit true)
            ∙ ap ok (sym (or_ops-none es vs v values gone loop))
        | inr (ops, left) ↦
            let (ws, evaluate, keeps) = or_ops-Values es ops vs values left in
            let made : finish_or ops ≡ ok e = cc in
            finish_or-Values ops e ws v made evaluate (keeps v loop)
      ]
