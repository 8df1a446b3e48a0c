-- ===== src/Folding/AndSound.antt =====
-- And of the folding builder keeps the value of the conjunction.
use gazer.Base.{
  ◌≡◌, refl, sym, ap, ◌∙◌, subst, inl, inr, List, [], ◌∷◌, ◌++◌, Bool, true, false, Option, none,
  some, Option-cases, if◌then◌else◌, ok, >>=-eq-ok, require,
}
use gazer.Core.Llvm.{Llvm}
use gazer.Core.Literal.{bool_lit, Atom}
use gazer.Core.Expr.{Expr, Exprs}
use gazer.Core.Create.{all_bool, is_nonempty, create_and}
use gazer.Walker.Order.{sequence, post_order, post_order_all}
use gazer.Evaluator.Logic.{and_loop}
use gazer.Evaluator.Connectives.{truth}
use gazer.Evaluator.Visit.{Valuation, visit, eval}
use gazer.Folding.Match.{as_bool, as_and, as_and-some}
use gazer.Folding.Operands.{eval_literal}
use gazer.Folding.Logic.{append, and_ops, finish_and, build_and}
use gazer.Folding.OperandValues.{
  Values, Values-cons, cons-Values, append-Values, Values-nil, literal_truth,
}
use gazer.Folding.AndLoop.{
  and_loop-cons, and_loop-inline, and_loop-false, and_loop-nil, and_loop-single, and_loop-first,
  and_loop-skip,
}

create_and_lem : (es : Exprs) (e : Expr) → create_and es ≡ ok e → e ≡ Expr.and_expr es
unfolding create_and
create_and_lem es e h =
    let (_, _, rest) = >>=-eq-ok (require (all_bool es)) _ h in
    let (_, _, made) = >>=-eq-ok (require (is_nonempty es)) (λ _. ok (Expr.and_expr es)) rest in cc

true_only :
    (b : Bool) (rest : Option Exprs) (ops : Exprs)
    → (if b then rest else none) ≡ some ops
    → (b ≡ true) × (rest ≡ some ops)
true_only true rest ops h = (refl, h)
true_only false rest ops h = cc

module _ ⦃llvm : Llvm⦄ (valuation : Valuation) where
  eval-and :
      (es : Exprs) (v : Atom)
      → eval valuation (Expr.and_expr es) ≡ ok v
      → (vs : List Atom) × Values valuation es vs × (and_loop vs false ≡ ok v)
  unfolding post_order visit
  eval-and es v h =
      >>=-eq-ok (sequence (post_order_all (visit valuation) es))
        (visit valuation (Expr.and_expr es)) h

  and-eval :
      (es : Exprs) (vs : List Atom) (v : Atom)
      → Values valuation es vs
      → and_loop vs false ≡ ok v
      → eval valuation (Expr.and_expr es) ≡ ok v
  unfolding post_order visit
  and-eval es vs v p q = rw p q

  -- The operands that are left evaluate, and their loop gives the same.
  and_ops-Values :
      (es ops : Exprs) (vs : List Atom)
      → Values valuation es vs
      → and_ops es ≡ some ops
      → (ws : List Atom) × Values valuation ops ws
        × ((v : Atom) → and_loop vs false ≡ ok v → and_loop ws false ≡ ok v)
  unfolding and_ops
  and_ops-Values Exprs.nil ops vs p h =
      let same : ops ≡ Exprs.nil = cc in
      (vs, subst (λ o. Values valuation o vs) (sym same) p, λ v q. q)
  and_ops-Values (Exprs.cons e es) ops vs p h =
      let (x, xs, same, head, tail) = Values-cons valuation e es vs p in
      elim (Option-cases (as_bool e)) [
        | inr (b, is_bool) ↦
            let rest : (b ≡ true) × (and_ops es ≡ some ops) = true_only b (and_ops es) ops cc in
            let (ws, evaluate, keeps) = and_ops-Values es ops xs tail rest.1 in
            let is_true : x ≡ truth true =
              literal_truth valuation e b x is_bool head ∙ ap truth rest.0 in
            (
              ws,
              evaluate,
              λ v q. keeps v (and_loop-skip vs xs v (same ∙ ap (λ a. a ∷ xs) is_true) q),
            )
        | inl no_bool ↦ elim (Option-cases (and_ops es)) [
          | inl none_left ↦ cc
          | inr (left, is_left) ↦
              let (ws, evaluate, keeps) = and_ops-Values es left xs tail is_left in
              elim (Option-cases (as_and e)) [
                | inl no_and ↦
                    let is : ops ≡ Exprs.cons e left = cc in
                    (
                      x ∷ ws,
                      subst (λ o. Values valuation o (x ∷ ws)) (sym is)
                          (cons-Values valuation e left x ws head evaluate),
                      λ v q.
                          and_loop-cons x xs ws v keeps
                            (subst (λ l. and_loop l false ≡ ok v) same q),
                    )
                | inr (inner, is_and) ↦
                    let is : ops ≡ append inner left = cc in
                    let value : eval valuation (Expr.and_expr inner) ≡ ok x =
                      subst (λ a. eval valuation a ≡ ok x) (as_and-some e inner is_and) head in
                    let (us, inner_values, loop) = eval-and inner x value in
                    (
                      us ++ ws,
                      subst (λ o. Values valuation o (us ++ ws)) (sym is)
                          (append-Values valuation inner left us ws inner_values evaluate),
                      λ v q.
                          and_loop-inline us xs ws x v loop keeps
                            (subst (λ l. and_loop l false ≡ ok v) same q),
                    )
              ]
        ]
      ]

  -- An early return stands for a false operand.
  and_ops-none :
      (es : Exprs) (vs : List Atom) (v : Atom)
      → Values valuation es vs
      → and_ops es ≡ none
      → and_loop vs false ≡ ok v
      → v ≡ truth false
  unfolding and_ops
  and_ops-none Exprs.nil vs v p h q = cc
  and_ops-none (Exprs.cons e es) vs v p h q =
      let (x, xs, same, head, tail) = Values-cons valuation e es vs p in
      let loop : and_loop (x ∷ xs) false ≡ ok v = subst (λ l. and_loop l false ≡ ok v) same q in
      let later : and_ops es ≡ none → v ≡ truth false =
        λ gone. and_loop-false x xs v (λ w r. and_ops-none es xs w tail gone r) loop in
      elim (Option-cases (and_ops es)) [
        | inl gone ↦ later gone
        | inr (left, is_left) ↦ elim (Option-cases (as_bool e)) [
          | inr (true, is_bool) ↦ cc
          | inr (false, is_bool) ↦
              and_loop-first x xs v (literal_truth valuation e false x is_bool head) loop
          | inl no_bool ↦ elim (Option-cases (as_and e)) [
            | inl no_and ↦ cc
            | inr (inner, is_and) ↦ cc
          ]
        ]
      ]

  finish_and-Values :
      (ops : Exprs) (e : Expr) (ws : List Atom) (v : Atom)
      → finish_and ops ≡ ok e
      → Values valuation ops ws
      → and_loop ws false ≡ ok v
      → eval valuation e ≡ ok v
  unfolding finish_and
  finish_and-Values Exprs.nil e ws v h p q =
      let same : ws ≡ [] = Values-nil valuation ws p in
      let is : e ≡ Expr.literal (bool_lit true) = cc in
      let loop : and_loop [] false ≡ ok v = subst (λ l. and_loop l false ≡ ok v) same q in
      ap (eval valuation) is ∙ eval_literal valuation (bool_lit true) ∙ sym and_loop-nil ∙ loop
  finish_and-Values (Exprs.cons f Exprs.nil) e ws v h p q =
      let (x, xs, same, head, tail) = Values-cons valuation f Exprs.nil ws p in
      let is : e ≡ f = cc in
      let loop : and_loop (x ∷ []) false ≡ ok v =
        subst (λ l. and_loop l false ≡ ok v) (same ∙ ap (λ l. x ∷ l) (Values-nil valuation xs tail))
          q in
      ap (eval valuation) is ∙ head ∙ ap ok (and_loop-single x v loop)
  finish_and-Values (Exprs.cons f (Exprs.cons g fs)) e ws v h p q =
      let is : e ≡ Expr.and_expr (Exprs.cons f (Exprs.cons g fs)) =
        create_and_lem (Exprs.cons f (Exprs.cons g fs)) e h in
      ap (eval valuation) is ∙ and-eval (Exprs.cons f (Exprs.cons g fs)) ws v p q

  -- Where a conjunction has a value, what And of the folding builder makes of its operands has it.
  pub build_and_sound :
      (es : Exprs) (e : Expr) (v : Atom)
      → build_and es ≡ ok e
      → eval valuation (Expr.and_expr es) ≡ ok v
      → eval valuation e ≡ ok v
  unfolding build_and
  build_and_sound es e v h value =
      let (vs, values, loop) = eval-and es v value in
      elim (Option-cases (and_ops es)) [
        | inl gone ↦
            let is : e ≡ Expr.literal (bool_lit false) = cc in
            ap (eval valuation) is
            ∙ eval_literal valuation (bool_lit false)
            ∙ ap ok (sym (and_ops-none es vs v values gone loop))
        | inr (ops, left) ↦
            let (ws, evaluate, keeps) = and_ops-Values es ops vs values left in
            let made : finish_and ops ≡ ok e = cc in
            finish_and-Values ops e ws v made evaluate (keeps v loop)
      ]
