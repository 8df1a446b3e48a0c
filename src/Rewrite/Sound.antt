-- ===== src/Rewrite/Sound.antt =====
-- What rewriting asks of a builder, and the base builder as one that gives it.
use gazer.Base.{
  ◌≡◌, ◌≢◌, refl, sym, ap, ◌∙◌, Bool, true, false, not, List, [], ◌∷◌, Result, ok, fault, ◌>>=◌,
  ◌>>◌, require, arith,
}
use gazer.Core.Ty.{Ty, equals, is_bool_type, is_float_type}
use gazer.Core.Llvm.{Llvm}
use gazer.Core.Literal.{Literal, bool_lit, Atom, lit, literal_type}
use gazer.Core.Expr.{Expr, CompareKind, FpCastKind, BitCastKind, type_of}
use gazer.Core.Create.{
  casts, bit_casts, create_compare, create_not, create_and, create_or, is_bv_only_compare,
}
use gazer.Core.Builder.{ExprBuilder, base_builder}
use gazer.Walker.Order.{
  operands, from_list, to_list-from_list, from_list-to_list, sequence, post_order,
}
use gazer.Evaluator.Compare.{compare_literals, eval_binary_compare}
use gazer.Evaluator.Logic.{visit_not, bool_value}
use gazer.Evaluator.Negation.{not_eq-negates}
use gazer.Evaluator.Visit.{Valuation, visit, eval}
use gazer.Rewrite.{rewrite_non_nullary, casts_type, casts_bits}
use gazer.Rewrite.Node.{create, is_nullary, renew, Alike, next, done}

module _ ⦃llvm : Llvm⦄ (builder : ExprBuilder) (before after : Valuation) where
  -- A node made again from operands, whatever the node's own ones are.
  pub rewrite_non_nullary-renew :
      (e : Expr) (rs : List Expr)
      → Alike before after (operands e) rs
      → is_nullary e ≡ false
      → rewrite_non_nullary builder e rs
        ≡ rewrite_non_nullary builder (renew e rs) (operands (renew e rs))
  unfolding rewrite_non_nullary renew operands is_nullary
  rewrite_non_nullary-renew (Expr.undef t) rs same h = cc
  rewrite_non_nullary-renew (Expr.literal l) rs same h = cc
  rewrite_non_nullary-renew (Expr.var_ref v) rs same h = cc
  rewrite_non_nullary-renew (Expr.not_expr e) _ (next {r = x1} s1 v1 done) h = refl
  rewrite_non_nullary-renew (Expr.zext e w) _ (next {r = x1} s1 v1 done) h = refl
  rewrite_non_nullary-renew (Expr.sext e w) _ (next {r = x1} s1 v1 done) h = refl
  rewrite_non_nullary-renew (Expr.extract e o w) _ (next {r = x1} s1 v1 done) h = refl
  rewrite_non_nullary-renew (Expr.arithmetic k l r) _
        (next {r = x1} s1 v1 (next {r = x2} s2 v2 done)) h =
      refl
  rewrite_non_nullary-renew (Expr.bv_concat l r) _ (next {r = x1} s1 v1 (next {r = x2} s2 v2 done))
        h =
      refl
  rewrite_non_nullary-renew (Expr.and_expr es) rs same h =
      ap (λ es. builder.and_exprs (from_list es)) (sym (to_list-from_list rs))
  rewrite_non_nullary-renew (Expr.or_expr es) rs same h =
      ap (λ es. builder.or_exprs (from_list es)) (sym (to_list-from_list rs))
  rewrite_non_nullary-renew (Expr.imply l r) _ (next {r = x1} s1 v1 (next {r = x2} s2 v2 done)) h =
      refl
  rewrite_non_nullary-renew (Expr.comparison k l r) _
        (next {r = x1} s1 v1 (next {r = x2} s2 v2 done)) h =
      refl
  rewrite_non_nullary-renew (Expr.fp_query k e) _ (next {r = x1} s1 v1 done) h = refl
  rewrite_non_nullary-renew (Expr.fp_cast k e t m) _ (next {r = x1} s1 v1 done) h = refl
  rewrite_non_nullary-renew (Expr.bit_cast k e t) _ (next {r = x1} s1 v1 done) h = refl
  rewrite_non_nullary-renew (Expr.fp_arithmetic k l r m) _
        (next {r = x1} s1 v1 (next {r = x2} s2 v2 done)) h =
      refl
  rewrite_non_nullary-renew (Expr.fp_compare k l r) _
        (next {r = x1} s1 v1 (next {r = x2} s2 v2 done)) h =
      refl
  rewrite_non_nullary-renew (Expr.select c t e) _
        (next {r = x1} s1 v1 (next {r = x2} s2 v2 (next {r = x3} s3 v3 done))) h =
      refl
  rewrite_non_nullary-renew (Expr.array_read a i) _ (next {r = x1} s1 v1 (next {r = x2} s2 v2 done))
        h =
      refl
  rewrite_non_nullary-renew (Expr.array_write a i v) _
        (next {r = x1} s1 v1 (next {r = x2} s2 v2 (next {r = x3} s3 v3 done))) h =
      refl
  rewrite_non_nullary-renew (Expr.tuple_select e i) _ (next {r = x1} s1 v1 done) h = refl
  rewrite_non_nullary-renew (Expr.tuple_construct ts es) rs same h = refl

module _ ⦃llvm : Llvm⦄ (valuation : Valuation) where
  -- The kinds that rewriting has a case for; of a NotEq, the operands have values that are not
  -- Boolean, for which it is the negation of Eq.
  unfoldable pub Rewritable : Expr → Type 0
  Rewritable (Expr.comparison CompareKind.not_eq l r) =
      (a b : Literal) × (eval valuation l ≡ ok (lit a))
      × (eval valuation r ≡ ok (lit b))
      × (literal_type a ≢ Ty.bool)
  Rewritable (Expr.tuple_select e i) = ⊥
  Rewritable (Expr.tuple_construct ts es) = ⊥
  Rewritable e = Unit

  -- The type and the value of a node.
  unfoldable pub Keeps : Expr → Expr → Type 0
  Keeps e r = (type_of r ≡ type_of e) × (eval valuation r ≡ eval valuation e)

  -- The builder makes, of the operands of a node that passes its checks, an expression with the
  -- node's type and value.
  unfoldable pub IsSound : ExprBuilder → Type 0
  unfolding Keeps Rewritable
  IsSound builder =
      (e : Expr)
      → is_nullary e ≡ false
      → create e ≡ ok e
      → Rewritable e
      → (r : Expr) × (rewrite_non_nullary builder e (operands e) ≡ ok r) × Keeps e r

-- A cast that is created has the class of types that rewriting casts to.
casts_type-casts :
    (k : FpCastKind) (from t : Ty) (first : Bool) (x : Expr)
    → (require first >> (require (casts k from t) >> ok x)) ≡ ok x
    → casts_type k t ≡ true
unfolding casts casts_type
casts_type-casts FpCastKind.f_cast from t true x h = ground arith
casts_type-casts FpCastKind.signed_to_fp from t true x h = ground arith
casts_type-casts FpCastKind.unsigned_to_fp from t true x h = ground arith
casts_type-casts FpCastKind.fp_to_signed from t true x h = ground arith
casts_type-casts FpCastKind.fp_to_unsigned from t true x h = ground arith
casts_type-casts k from t false x h = cc

casts_bits-casts :
    (k : BitCastKind) (from t : Ty) (first : Bool) (x : Expr)
    → (require first >> (require (bit_casts k from t) >> ok x)) ≡ ok x
    → casts_bits k t ≡ true
unfolding bit_casts casts_bits
casts_bits-casts BitCastKind.fp_to_bv from t true x h = ground arith
casts_bits-casts BitCastKind.bv_to_fp from t true x h = ground arith
casts_bits-casts k from t false x h = cc

-- Eq and then Not pass where NotEq does.
negated_checks :
    (same bv : Bool) (l r : Expr)
    → (require same >> (require true >> ok (Expr.comparison CompareKind.not_eq l r)))
      ≡ ok (Expr.comparison CompareKind.not_eq l r)
    → ((require same >> (require true >> ok (Expr.comparison CompareKind.eq l r))) >>= create_not)
      ≡ ok (Expr.not_expr (Expr.comparison CompareKind.eq l r))
unfolding create_not type_of is_bool_type
negated_checks true bv l r h = refl
negated_checks false bv l r h = cc

-- The value of Not on a comparison that gives a truth value, or none.
negated_value :
    (f : List Atom → Result Atom) (same other : Bool) (m m' : Result Bool)
    → ((c : Bool) → f (lit (bool_lit c) ∷ []) ≡ ok (lit (bool_lit (not c))))
    → m' ≡ (m >>= λ c. ok (not c))
    → (sequence ((require same >> (require other >> (m >>= λ c. ok (lit (bool_lit c))))) ∷ [])
        >>= f)
      ≡ (require same >> (require other >> (m' >>= λ c. ok (lit (bool_lit c)))))
negated_value f true true (ok c) m' g h = g c ∙ ap (λ r. r >>= λ c. ok (lit (bool_lit c))) (sym h)
negated_value f true true (fault x) m' g h = ap (λ r. r >>= λ c. ok (lit (bool_lit c))) (sym h)
negated_value f true false m m' g h = refl
negated_value f false other m m' g h = refl

module _ ⦃llvm : Llvm⦄ (valuation : Valuation) where
  not_eq-value :
      (l r : Expr) (a b : Literal)
      → eval valuation l ≡ ok (lit a)
      → eval valuation r ≡ ok (lit b)
      → literal_type a ≢ Ty.bool
      → eval valuation (Expr.not_expr (Expr.comparison CompareKind.eq l r))
        ≡ eval valuation (Expr.comparison CompareKind.not_eq l r)
  unfolding post_order visit eval_binary_compare visit_not bool_value
  not_eq-value l r a b p q h =
      rw (p, q)
        (negated_value (visit valuation (Expr.not_expr (Expr.comparison CompareKind.eq l r)))
          (equals (literal_type a) (literal_type b)) (not (is_float_type (literal_type a)))
          (compare_literals CompareKind.eq a b) (compare_literals CompareKind.not_eq a b)
          (λ c. refl) (not_eq-negates a b h))

  -- The base builder's nodes, for which nothing is asked but the NotEq of operands with values.
  pub base_builder-IsSound : IsSound valuation base_builder
  unfolding IsSound Rewritable Keeps rewrite_non_nullary operands create is_nullary
      gazer.Core.Builder.plain_comparison create_compare is_bv_only_compare type_of
  base_builder-IsSound (Expr.undef t) n h fine = cc
  base_builder-IsSound (Expr.literal l) n h fine = cc
  base_builder-IsSound (Expr.var_ref v) n h fine = cc
  base_builder-IsSound (Expr.not_expr e) n h fine = (Expr.not_expr e, h, (refl, refl))
  base_builder-IsSound (Expr.zext e w) n h fine = (Expr.zext e w, h, (refl, refl))
  base_builder-IsSound (Expr.sext e w) n h fine = (Expr.sext e w, h, (refl, refl))
  base_builder-IsSound (Expr.extract e o w) n h fine = (Expr.extract e o w, h, (refl, refl))
  base_builder-IsSound (Expr.arithmetic k l r) n h fine = (Expr.arithmetic k l r, h, (refl, refl))
  base_builder-IsSound (Expr.bv_concat l r) n h fine = (Expr.bv_concat l r, h, (refl, refl))
  base_builder-IsSound (Expr.and_expr es) n h fine =
      (Expr.and_expr es, ap (λ xs. create_and xs) (from_list-to_list es) ∙ h, (refl, refl))
  base_builder-IsSound (Expr.or_expr es) n h fine =
      (Expr.or_expr es, ap (λ xs. create_or xs) (from_list-to_list es) ∙ h, (refl, refl))
  base_builder-IsSound (Expr.imply l r) n h fine = (Expr.imply l r, h, (refl, refl))
  base_builder-IsSound (Expr.comparison CompareKind.not_eq l r) n h (a, b, p, q, other) = (
    Expr.not_expr (Expr.comparison CompareKind.eq l r),
    negated_checks (equals (type_of l) (type_of r)) true l r h,
    (refl, not_eq-value l r a b p q other),
  )
  base_builder-IsSound (Expr.comparison k l r) n h fine = (Expr.comparison k l r, h, (refl, refl))
  base_builder-IsSound (Expr.fp_query k e) n h fine = (Expr.fp_query k e, h, (refl, refl))
  base_builder-IsSound (Expr.fp_cast k e t m) n h fine =
      let class =
        casts_type-casts k (type_of e) t (not (equals (type_of e) t)) (Expr.fp_cast k e t m) h in
      (Expr.fp_cast k e t m, rw class h, (refl, refl))
  base_builder-IsSound (Expr.bit_cast k e t) n h fine =
      let class =
        casts_bits-casts k (type_of e) t (not (equals (type_of e) t)) (Expr.bit_cast k e t) h in
      (Expr.bit_cast k e t, rw class h, (refl, refl))
  base_builder-IsSound (Expr.fp_arithmetic k l r m) n h fine =
      (Expr.fp_arithmetic k l r m, h, (refl, refl))
  base_builder-IsSound (Expr.fp_compare k l r) n h fine = (Expr.fp_compare k l r, h, (refl, refl))
  base_builder-IsSound (Expr.select c t e) n h fine = (Expr.select c t e, h, (refl, refl))
  base_builder-IsSound (Expr.array_read a i) n h fine = (Expr.array_read a i, h, (refl, refl))
  base_builder-IsSound (Expr.array_write a i v) n h fine = (Expr.array_write a i v, h, (refl, refl))
  base_builder-IsSound (Expr.tuple_select e i) n h fine = absurd fine
  base_builder-IsSound (Expr.tuple_construct ts es) n h fine = absurd fine
