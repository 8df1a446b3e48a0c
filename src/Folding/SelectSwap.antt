-- ===== src/Folding/SelectSwap.antt =====
-- The rule of FoldingExprBuilder::Select for `Select(A, Select(B, E1, E2), E1)`.
use gazer.Base.{
  ◌≡◌, ◌≢◌, refl, ap, ◌∙◌, inl, inr, [], ◌∷◌, Bool, true, false, Bool-cases, not, ◌&&◌, none, some,
  if◌then◌else◌, Result, ok, ◌>>=◌, arith,
}
use gazer.Base.Int.{ℤ}
use gazer.Core.Ty.{Ty, equals, is_bool_type}
use gazer.Core.Llvm.{Llvm}
use gazer.Core.Literal.{bool_lit, int_lit, Atom, lit, literal_type}
use gazer.Core.Expr.{Variable, Expr, type_of, same, same_self, same-true}
use gazer.Core.Create.{all_bool, is_nonempty, create_not, create_and, create_select}
use gazer.Walker.Order.{post_order}
use gazer.Evaluator.Logic.{cast_literal, visit_select, and_loop, visit_not}
use gazer.Evaluator.Connectives.{truth}
use gazer.Evaluator.Visit.{Valuation, visit, eval, get_variable_value}
use gazer.Folding.Match.{as_bool, as_not, as_select}
use gazer.Walker.Size.{size}
use gazer.Folding.Logic.{bool_expr, two, build_and, build_or, build_not}
use gazer.Folding.Select.{
  select_then_inner, select_same_else, select_same_then, select_not, select_literal, build_select,
}

if_not : (x y : Result Expr) (b : Bool) → b ≡ false → (if b then x else y) ≡ y
if_not x y true h = absurd (cc)
if_not x y false h = refl

if_none :
    (w x y z v : Result Expr) (a b c d : Bool)
    → a ≡ false
    → b ≡ false
    → c ≡ false
    → d ≡ false
    → (if a then w else if b then x else if c then y else if d then z else v) ≡ v
if_none w x y z v a b c d p q r s =
    if_not w _ a p ∙ if_not x _ b q ∙ if_not y _ c r ∙ if_not z v d s

same-false : (a b : Expr) → a ≢ b → same a b ≡ false
same-false a b apart = elim (Bool-cases (same a b)) [
  | inl t ↦ absurd (apart (same-true a b t))
  | inr f ↦ f
]

-- A selection is none of its branches, and an expression of another type than Bool no Boolean literal.
not_branch : (d e1 e2 : Expr) → same (Expr.select d e1 e2) e1 ≡ false
unfolding size
not_branch d e1 e2 =
    same-false (Expr.select d e1 e2) e1 (λ is. let sizes = ap size is in absurd (omega arith))

not_literal : (e : Expr) (b : Bool) → type_of e ≡ Ty.int → same e (bool_expr b) ≡ false
unfolding type_of literal_type
not_literal e b type = same-false e (bool_expr b) (λ is. let bools = ap type_of is in absurd (cc))

-- The earlier rules do not apply to two different variables as the conditions, where the branches are
-- integers and the first one is no selection.
module _ (c d : Variable) (e1 e2 : Expr) (apart : c.id ≢ d.id) (type : type_of e1 ≡ Ty.int)
    (no_select : as_select e1 ≡ none) where
  not_same : same (Expr.var_ref c) (Expr.var_ref d) ≡ false
  not_same =
      same-false (Expr.var_ref c) (Expr.var_ref d)
        (λ is. let one : c ≡ d = cc in apart (ap (λ (v : Variable). v.id) one))

  no_equal_branches :
      build_select (Expr.var_ref c) (Expr.select (Expr.var_ref d) e1 e2) e1
      ≡ select_literal (Expr.var_ref c) (Expr.select (Expr.var_ref d) e1 e2) e1
  unfolding build_select as_bool
  no_equal_branches = if_not _ _ _ (not_branch (Expr.var_ref d) e1 e2)

  no_literal :
      select_literal (Expr.var_ref c) (Expr.select (Expr.var_ref d) e1 e2) e1
      ≡ select_not (Expr.var_ref c) (Expr.select (Expr.var_ref d) e1 e2) e1
  unfolding select_literal type_of
  no_literal =
      let whole = Expr.select (Expr.var_ref d) e1 e2 in
      if_none (build_and (two (Expr.var_ref c) whole))
        (build_not (Expr.var_ref c) >>= λ n. build_or (two n whole))
        (build_or (two (Expr.var_ref c) e1))
        (build_not (Expr.var_ref c) >>= λ n. build_and (two n e1)) _ _ _ _ _
        (not_literal e1 false type) (not_literal e1 true type)
        (not_literal (Expr.select (Expr.var_ref d) e1 e2) true type)
        (not_literal (Expr.select (Expr.var_ref d) e1 e2) false type)

  no_inner_selection :
      select_not (Expr.var_ref c) (Expr.select (Expr.var_ref d) e1 e2) e1
      ≡ select_then_inner (Expr.var_ref c) (Expr.select (Expr.var_ref d) e1 e2) e1
  unfolding select_not as_not select_same_then as_select select_same_else
  no_inner_selection = if_not _ _ _ not_same ∙ rw (no_select, select_same_else) refl

  reaches :
      build_select (Expr.var_ref c) (Expr.select (Expr.var_ref d) e1 e2) e1
      ≡ select_then_inner (Expr.var_ref c) (Expr.select (Expr.var_ref d) e1 e2) e1
  reaches = no_equal_branches ∙ no_literal ∙ no_inner_selection

chosen :
    (b : Bool) (m n : ℤ)
    → cast_literal Ty.int (if b then lit (int_lit m) else lit (int_lit n))
      ≡ ok (lit (int_lit (if b then m else n)))
unfolding cast_literal
chosen true m n = refl
chosen false m n = refl

both : (p q : Bool) → and_loop (truth p ∷ truth (not q) ∷ []) false ≡ ok (truth (p && not q))
unfolding and_loop
both true true = refl
both true false = refl
both false q = refl

nested :
    (p q : Bool) (m n : ℤ) → (if p then (if q then m else n) else m) ≡ (if p && not q then n else m)
nested true true m n = refl
nested true false m n = refl
nested false q m n = refl

module _ ⦃llvm : Llvm⦄ (valuation : Valuation) where
  -- A selection between two integers.
  eval-select :
      (c t f : Expr) (b : Bool) (m n : ℤ)
      → type_of t ≡ Ty.int
      → eval valuation c ≡ ok (truth b)
      → eval valuation t ≡ ok (lit (int_lit m))
      → eval valuation f ≡ ok (lit (int_lit n))
      → eval valuation (Expr.select c t f) ≡ ok (lit (int_lit (if b then m else n)))
  unfolding post_order visit visit_select type_of
  eval-select c t f b m n ty p q r = rw (p, q, r, ty) (chosen b m n)

  eval-var :
      (v : Variable) (b : Bool)
      → valuation v ≡ some (bool_lit b)
      → eval valuation (Expr.var_ref v) ≡ ok (truth b)
  unfolding post_order visit get_variable_value
  eval-var v b h = ap (λ o. ok (elim o [ none ↦ Atom.undef v.ty | some l ↦ lit l ])) h

  -- The condition that the rule makes.
  eval-condition :
      (c d : Expr) (p q : Bool)
      → eval valuation c ≡ ok (truth p)
      → eval valuation d ≡ ok (truth q)
      → eval valuation (Expr.and_expr (two c (Expr.not_expr d))) ≡ ok (truth (p && not q))
  unfolding post_order visit visit_not
  eval-condition c d p q h k = rw (h, k) (both p q)

  rule :
      (c d e1 e2 : Expr)
      → select_then_inner c (Expr.select d e1 e2) e1
        ≡ (build_not d >>= λ n. build_and (two c n) >>= λ x. create_select x e1 e2)
  unfolding select_then_inner
  rule c d e1 e2 = rw (same_self e1) refl

  made :
      (c d : Variable) (e1 e2 : Expr)
      → c.ty ≡ Ty.bool
      → d.ty ≡ Ty.bool
      → type_of e1 ≡ Ty.int
      → type_of e2 ≡ Ty.int
      → select_then_inner (Expr.var_ref c) (Expr.select (Expr.var_ref d) e1 e2) e1
        ≡ ok (
            Expr.select
              (Expr.and_expr (two (Expr.var_ref c) (Expr.not_expr (Expr.var_ref d))))
              e1
              e2)
  unfolding build_not build_and create_not create_and create_select all_bool is_nonempty type_of
      is_bool_type equals
  made c d e1 e2 c_bool d_bool t1 t2 =
      rule (Expr.var_ref c) (Expr.var_ref d) e1 e2 ∙ rw d_bool (rw c_bool (rw (t1, t2) refl))

  -- For two different Boolean variables as the conditions, and integer branches, the first of which is
  -- not a selection, FoldingExprBuilder::Select makes of Select(A, Select(B, E1, E2), E1) an expression
  -- whose value is E1's exactly where that of the original is E2's, and the reverse.
  pub build_select-swaps :
      (c d : Variable) (e1 e2 : Expr) (p q : Bool) (m n : ℤ)
      → c.id ≢ d.id
      → c.ty ≡ Ty.bool
      → d.ty ≡ Ty.bool
      → type_of e1 ≡ Ty.int
      → type_of e2 ≡ Ty.int
      → as_select e1 ≡ none
      → valuation c ≡ some (bool_lit p)
      → valuation d ≡ some (bool_lit q)
      → eval valuation e1 ≡ ok (lit (int_lit m))
      → eval valuation e2 ≡ ok (lit (int_lit n))
      → (e : Expr) × (build_select (Expr.var_ref c) (Expr.select (Expr.var_ref d) e1 e2) e1 ≡ ok e)
        × (eval valuation (Expr.select (Expr.var_ref c) (Expr.select (Expr.var_ref d) e1 e2) e1)
            ≡ ok (lit (int_lit (if p && not q then n else m))))
        × (eval valuation e ≡ ok (lit (int_lit (if p && not q then m else n))))
  unfolding type_of
  build_select-swaps c d e1 e2 p q m n apart c_bool d_bool t1 t2 no_select hc hd h1 h2 =
      let pc = eval-var c p hc in
      let pd = eval-var d q hd in
      let inner = eval-select (Expr.var_ref d) e1 e2 q m n t1 pd h1 h2 in
      let whole =
        eval-select (Expr.var_ref c) (Expr.select (Expr.var_ref d) e1 e2) e1 p (if q then m else n)
          m t1 pc inner h1 in
      let condition = eval-condition (Expr.var_ref c) (Expr.var_ref d) p q pc pd in
      (
        Expr.select (Expr.and_expr (two (Expr.var_ref c) (Expr.not_expr (Expr.var_ref d)))) e1 e2,
        reaches c d e1 e2 apart t1 no_select ∙ made c d e1 e2 c_bool d_bool t1 t2,
        whole ∙ ap (λ x. ok (lit (int_lit x))) (nested p q m n),
        eval-select _ e1 e2 (p && not q) m n t1 condition h1 h2,
      )
