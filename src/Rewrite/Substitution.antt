-- ===== src/Rewrite/Substitution.antt =====
-- What VariableExprRewrite gives: the value of the expression where the variables have the values of
-- what replaces them.
use gazer.Base.{
  ℕ, ◌*◌, ◌≤◌, ◌≡◌, refl, sym, ap, ◌∙◌, subst, true, false, Bool-cases, inl, inr, List, [], ◌∷◌,
  map, Option, none, some, ok, ◌>>=◌, Memᴰ,
}
use gazer.Base.Memᴰ
use gazer.Core.Ty.{Ty}
use gazer.Core.Llvm.{Llvm}
use gazer.Core.Literal.{Literal, lit, undef}
use gazer.Core.Expr.{Expr, Exprs, CompareKind, type_of}
use gazer.Core.Builder.{ExprBuilder}
use gazer.Walker.Order.{operands, sequence, post_order, post_order_lem, All, induction}
use gazer.Walker.Size.{size}
use gazer.Walker.Correct.{walk_lem}
use gazer.Evaluator.Visit.{Valuation, get_variable_value, visit as evaluate_node, eval}
use gazer.Rewrite.{RewriteMap, visit_var_ref, visit_expr, rewrite, rewrite_non_nullary}
use gazer.Rewrite.Node.{create, is_nullary, renew, Alike, next, done, type_of-renew}
use gazer.Rewrite.Node.Checks.{create-renew}
use gazer.Rewrite.Node.Values.{eval-renew, is_nullary-renew}
use gazer.Rewrite.Sound.{Rewritable, Keeps, IsSound, rewrite_non_nullary-renew}

-- The node and all nodes below it.
pub data Everywhere (P : Expr → Type 0) : Expr → Type 0 where
  everywhere :
      {e : Expr} → P e → ((o : Expr) → Memᴰ o (operands e) → Everywhere P o) → Everywhere P e

All-at : (P : Expr → Type 0) (xs : List Expr) → All P xs → (x : Expr) → Memᴰ x xs → P x
All-at P [] all x m = absurd (Memᴰ.not-nil m)
All-at P (y ∷ ys) (p, rest) x m = elim (Memᴰ.cases_cons m) [
  | inl is ↦ subst P (sym is) p
  | inr later ↦ All-at P ys rest x later
]

-- The node passes the checks of its Create function.
abbrev pub IsMade : Expr → Type 0
IsMade e = create e ≡ ok e

module _ ⦃llvm : Llvm⦄ (before after : Valuation) where
  -- A replaced variable had, before, the type and the value that its expression has after.
  pub record Replaces (map : RewriteMap) : Type 0 where
    pub replaced :
        (v : gazer.Core.Expr.Variable) (e : Expr)
        → map v ≡ some e
        → (type_of e ≡ v.ty) × (eval after e ≡ ok (get_variable_value before v))
    pub kept : (v : gazer.Core.Expr.Variable) → map v ≡ none → before v ≡ after v

  Rewritable-renew :
      (e : Expr) (rs : List Expr)
      → Alike before after (operands e) rs
      → Rewritable before e
      → Rewritable after (renew e rs)
  unfolding Rewritable renew operands
  Rewritable-renew (Expr.undef t) rs same fine = tt
  Rewritable-renew (Expr.literal l) rs same fine = tt
  Rewritable-renew (Expr.var_ref v) rs same fine = tt
  Rewritable-renew (Expr.not_expr e) _ (next {r = x1} s1 v1 done) fine = tt
  Rewritable-renew (Expr.zext e w) _ (next {r = x1} s1 v1 done) fine = tt
  Rewritable-renew (Expr.sext e w) _ (next {r = x1} s1 v1 done) fine = tt
  Rewritable-renew (Expr.extract e o w) _ (next {r = x1} s1 v1 done) fine = tt
  Rewritable-renew (Expr.arithmetic k l r) _ (next {r = x1} s1 v1 (next {r = x2} s2 v2 done)) fine =
      tt
  Rewritable-renew (Expr.bv_concat l r) _ (next {r = x1} s1 v1 (next {r = x2} s2 v2 done)) fine = tt
  Rewritable-renew (Expr.and_expr es) rs same fine = tt
  Rewritable-renew (Expr.or_expr es) rs same fine = tt
  Rewritable-renew (Expr.imply l r) _ (next {r = x1} s1 v1 (next {r = x2} s2 v2 done)) fine = tt
  Rewritable-renew (Expr.comparison CompareKind.not_eq l r) _
        (next {r = x1} s1 v1 (next {r = x2} s2 v2 done)) (a, b, p, q, other) =
      (a, b, v1 ∙ p, v2 ∙ q, other)
  Rewritable-renew (Expr.comparison k l r) _ (next {r = x1} s1 v1 (next {r = x2} s2 v2 done)) fine =
      tt
  Rewritable-renew (Expr.fp_query k e) _ (next {r = x1} s1 v1 done) fine = tt
  Rewritable-renew (Expr.fp_cast k e t m) _ (next {r = x1} s1 v1 done) fine = tt
  Rewritable-renew (Expr.bit_cast k e t) _ (next {r = x1} s1 v1 done) fine = tt
  Rewritable-renew (Expr.fp_arithmetic k l r m) _ (next {r = x1} s1 v1 (next {r = x2} s2 v2 done))
        fine =
      tt
  Rewritable-renew (Expr.fp_compare k l r) _ (next {r = x1} s1 v1 (next {r = x2} s2 v2 done)) fine =
      tt
  Rewritable-renew (Expr.select c t e) _
        (next {r = x1} s1 v1 (next {r = x2} s2 v2 (next {r = x3} s3 v3 done))) fine =
      tt
  Rewritable-renew (Expr.array_read a i) _ (next {r = x1} s1 v1 (next {r = x2} s2 v2 done)) fine =
      tt
  Rewritable-renew (Expr.array_write a i v) _
        (next {r = x1} s1 v1 (next {r = x2} s2 v2 (next {r = x3} s3 v3 done))) fine =
      tt
  Rewritable-renew (Expr.tuple_select e i) rs same fine = absurd fine
  Rewritable-renew (Expr.tuple_construct ts es) rs same fine = absurd fine

  module _ (builder : ExprBuilder) (map_of : RewriteMap) where
    -- The rewritten expression, with its type and its value.
    Rewritten : Expr → Type 0
    Rewritten e =
        (r : Expr) × (post_order (visit_expr builder map_of) e ≡ ok r)
        × (type_of r ≡ type_of e)
        × (eval after r ≡ eval before e)

    Rewritten-Alike :
        (es : List Expr)
        → ((o : Expr) → Memᴰ o es → Rewritten o)
        → (rs : List Expr) × (sequence (map (post_order (visit_expr builder map_of)) es) ≡ ok rs)
          × Alike before after es rs
    unfolding Rewritten
    Rewritten-Alike [] each = ([], refl, done)
    Rewritten-Alike (e ∷ es) each =
        let (r, made, types, values) = each e (Memᴰ.head refl) in
        let (rs, rest, same) = Rewritten-Alike es (λ o m. each o (Memᴰ.tail m)) in
        (r ∷ rs, rw made (rw rest refl), next types values same)

    visit-node :
        (e : Expr) (rs : List Expr)
        → is_nullary e ≡ false
        → visit_expr builder map_of e rs ≡ rewrite_non_nullary builder e rs
    unfolding visit_expr is_nullary
    visit-node (Expr.undef t) rs h = cc
    visit-node (Expr.literal l) rs h = cc
    visit-node (Expr.var_ref v) rs h = cc
    visit-node _ rs h = refl

    Rewritten-node :
        IsSound after builder
        → (e : Expr) → is_nullary e ≡ false
        → IsMade e
        → Rewritable before e
        → ((o : Expr) → Memᴰ o (operands e) → Rewritten o)
        → Rewritten e
    unfolding Rewritten IsSound Keeps
    Rewritten-node sound e node made fine each =
        let (rs, seq, same) = Rewritten-Alike (operands e) each in
        let (r, built, (types, values)) =
          sound (renew e rs) (is_nullary-renew before after e rs same node)
            (create-renew before after e rs same made) (Rewritable-renew e rs same fine) in
        (
          r,
          post_order_lem (visit_expr builder map_of) e
              ∙ ap (λ m. m >>= visit_expr builder map_of e) seq
              ∙ visit-node e rs node
              ∙ rewrite_non_nullary-renew builder before after e rs same node
              ∙ built,
          types ∙ type_of-renew before after e rs same,
          values ∙ eval-renew before after e rs same node,
        )

    Rewritten-leaf : Replaces map_of → (e : Expr) → is_nullary e ≡ true → Rewritten e
    unfolding Rewritten is_nullary post_order visit_expr visit_var_ref type_of evaluate_node
        get_variable_value
    Rewritten-leaf replaces (Expr.undef t) h = (Expr.undef t, refl, refl, refl)
    Rewritten-leaf replaces (Expr.literal l) h = (Expr.literal l, refl, refl, refl)
    Rewritten-leaf replaces (Expr.var_ref v) h = go (map_of v) refl
      where
        chosen :
            (o : Option Expr)
            → map_of v ≡ o
            → post_order (visit_expr builder map_of) (Expr.var_ref v)
              ≡ ok (elim o [ some e ↦ e | none ↦ Expr.var_ref v ])
        chosen o is =
            ap (λ (o : Option Expr). ok (elim o [ some e ↦ e | none ↦ Expr.var_ref v ])) is

        go : (o : Option Expr) → map_of v ≡ o → Rewritten (Expr.var_ref v)
        go none is = (
          Expr.var_ref v,
          chosen none is,
          refl,
          ap (λ (o : Option Literal). ok (elim o [ none ↦ undef v.ty | some l ↦ lit l ]))
              (sym (replaces.kept v is)),
        )
        go (some e) is =
            let (types, values) = replaces.replaced v e is in (e, chosen (some e) is, types, values)
    Rewritten-leaf replaces _ h = cc

    Rewritten-each :
        IsSound after builder
        → Replaces map_of
        → (e : Expr) → Everywhere IsMade e
        → Everywhere (Rewritable before) e
        → Rewritten e
    Rewritten-each sound replaces =
        induction (λ e. Everywhere IsMade e → Everywhere (Rewritable before) e → Rewritten e) step
      where
        step :
            (e : Expr)
            → All
                (λ o. Everywhere IsMade o → Everywhere (Rewritable before) o → Rewritten o)
                (operands e)
            → Everywhere IsMade e
            → Everywhere (Rewritable before) e
            → Rewritten e
        step e ih (everywhere made below) (everywhere fine below') =
            elim (Bool-cases (is_nullary e)) [
              | inl leaf ↦ Rewritten-leaf replaces e leaf
              | inr node ↦
                  Rewritten-node sound e node made fine
                    (λ o m. All-at _ (operands e) ih o m (below o m) (below' o m))
            ]

    -- Where the builder is sound, each variable has, before, the type and value that its replacement
    -- has after, or its own value if it has none, and every node of the expression passes its checks
    -- and can be rewritten, the rewriter's walk, with fuel for two rounds for each node, gives an
    -- expression with the type of the original and, after, the value that the original has before.
    pub rewrite-substitutes :
        IsSound after builder
        → Replaces map_of
        → (e : Expr) → Everywhere IsMade e
        → Everywhere (Rewritable before) e
        → (fuel : ℕ) → 2 * size e ≤ fuel
        → (r : Expr) × (rewrite builder map_of fuel e ≡ ok r)
          × (type_of r ≡ type_of e)
          × (eval after r ≡ eval before e)
    unfolding rewrite Rewritten
    rewrite-substitutes sound replaces e made fine fuel enough =
        let (r, is, types, values) = Rewritten-each sound replaces e made fine in
        let (t, walked, _) =
          walk_lem (Expr.undef Ty.bool) (visit_expr builder map_of) (λ _ _. none) (λ s _ _. s)
            (λ s e r c p. c) e fuel tt (λ e r p. cc) enough in
        (r, rw walked (rw is refl), types, values)
