-- ===== src/Rewrite/Node/Values.antt =====
-- The value of a node that is made again.
use gazer.Base.{◌+◌, ◌≡◌, refl, ap, ap₂, ◌∙◌, false, List, [], ◌∷◌, Result, ok, fault, ◌>>=◌}
use gazer.Core.Ty.{Ty}
use gazer.Core.Llvm.{Llvm}
use gazer.Core.Literal.{Atom}
use gazer.Core.Expr.{Expr, Exprs, BitCastKind, type_of, width_of, element_of}
use gazer.Walker.Order.{operands, to_list, from_list, sequence, post_order, post_order_all}
use gazer.Evaluator.Visit.{Valuation, visit, eval}
use gazer.Evaluator.Logic.{visit_select, visit_array_read}
use gazer.Evaluator.Arithmetic.{visit_bv_concat}
use gazer.Rewrite.Node.{renew, is_nullary, Alike, next, done}

-- A visit of the values of one, two or three operands.
module _ (f g : List Atom → Result Atom) where
  unary :
      {m n : Result Atom}
      → m ≡ n
      → ((a : Atom) → f (a ∷ []) ≡ g (a ∷ []))
      → (sequence (m ∷ []) >>= f) ≡ (sequence (n ∷ []) >>= g)
  unary {n} same h = ap (λ m. sequence (m ∷ []) >>= f) same ∙ go n
    where
      go : (n : Result Atom) → (sequence (n ∷ []) >>= f) ≡ (sequence (n ∷ []) >>= g)
      go (ok a) = h a
      go (fault x) = refl

  binary :
      {m m' n n' : Result Atom}
      → m ≡ n
      → m' ≡ n'
      → ((a b : Atom) → f (a ∷ b ∷ []) ≡ g (a ∷ b ∷ []))
      → (sequence (m ∷ m' ∷ []) >>= f) ≡ (sequence (n ∷ n' ∷ []) >>= g)
  binary {n} {n'} same same' h = ap₂ (λ m m'. sequence (m ∷ m' ∷ []) >>= f) same same' ∙ go n n'
    where
      go : (n n' : Result Atom) → (sequence (n ∷ n' ∷ []) >>= f) ≡ (sequence (n ∷ n' ∷ []) >>= g)
      go (ok a) (ok b) = h a b
      go (ok a) (fault x) = refl
      go (fault x) n' = refl

  ternary :
      {m m' m'' n n' n'' : Result Atom}
      → m ≡ n
      → m' ≡ n'
      → m'' ≡ n''
      → ((a b c : Atom) → f (a ∷ b ∷ c ∷ []) ≡ g (a ∷ b ∷ c ∷ []))
      → (sequence (m ∷ m' ∷ m'' ∷ []) >>= f) ≡ (sequence (n ∷ n' ∷ n'' ∷ []) >>= g)
  ternary {m''} {n} {n'} {n''} same same' same'' h =
      ap₂ (λ m m'. sequence (m ∷ m' ∷ m'' ∷ []) >>= f) same same'
      ∙ ap (λ m''. sequence (n ∷ n' ∷ m'' ∷ []) >>= f) same''
      ∙ go n n' n''
    where
      go :
          (n n' n'' : Result Atom)
          → (sequence (n ∷ n' ∷ n'' ∷ []) >>= f) ≡ (sequence (n ∷ n' ∷ n'' ∷ []) >>= g)
      go (ok a) (ok b) (ok c) = h a b c
      go (ok a) (ok b) (fault x) = refl
      go (ok a) (fault x) n'' = refl
      go (fault x) n' n'' = refl

unreached :
    (m : Result (List Atom)) (f g : List Atom → Result Atom)
    → ((as' : List Atom) → f as' ≡ g as')
    → (m >>= f) ≡ (m >>= g)
unreached (ok as') f g h = h as'
unreached (fault x) f g h = refl

module _ ⦃llvm : Llvm⦄ (before after : Valuation) where
  values-from_list :
      (es : Exprs) (rs : List Expr)
      → Alike before after (to_list es) rs
      → post_order_all (visit after) (from_list rs) ≡ post_order_all (visit before) es
  unfolding post_order to_list from_list
  values-from_list Exprs.nil _ done = refl
  values-from_list (Exprs.cons e es) _ (next s v rest) =
      ap₂ (λ m ms. m ∷ ms) v (values-from_list es _ rest)

  -- The value of a node with operands depends on the values and the types of the operands only.
  pub eval-renew :
      (e : Expr) (rs : List Expr)
      → Alike before after (operands e) rs
      → is_nullary e ≡ false
      → eval after (renew e rs) ≡ eval before e
  unfolding operands renew is_nullary post_order visit type_of
  eval-renew (Expr.undef t) rs same h = cc
  eval-renew (Expr.literal l) rs same h = cc
  eval-renew (Expr.var_ref v) rs same h = cc
  eval-renew (Expr.not_expr e) _ (next {r = x1} s1 v1 done) h =
      unary (visit after (Expr.not_expr x1)) (visit before (Expr.not_expr e)) v1 (λ a. refl)
  eval-renew (Expr.zext e w) _ (next {r = x1} s1 v1 done) h =
      unary (visit after (Expr.zext x1 w)) (visit before (Expr.zext e w)) v1 (λ a. refl)
  eval-renew (Expr.sext e w) _ (next {r = x1} s1 v1 done) h =
      unary (visit after (Expr.sext x1 w)) (visit before (Expr.sext e w)) v1 (λ a. refl)
  eval-renew (Expr.extract e o w) _ (next {r = x1} s1 v1 done) h =
      unary (visit after (Expr.extract x1 o w)) (visit before (Expr.extract e o w)) v1 (λ a. refl)
  eval-renew (Expr.arithmetic k l r) _ (next {r = x1} s1 v1 (next {r = x2} s2 v2 done)) h =
      binary (visit after (Expr.arithmetic k x1 x2)) (visit before (Expr.arithmetic k l r)) v1 v2
        (λ a b. refl)
  eval-renew (Expr.bv_concat l r) _ (next {r = x1} s1 v1 (next {r = x2} s2 v2 done)) h =
      binary (visit after (Expr.bv_concat x1 x2)) (visit before (Expr.bv_concat l r)) v1 v2
        (λ a b. ap₂ (λ t u. visit_bv_concat (Ty.bv (width_of t + width_of u)) a b) s1 s2)
  eval-renew (Expr.and_expr es) rs same h =
      ap (λ ms. sequence ms >>= visit after (Expr.and_expr (from_list rs)))
        (values-from_list es rs same)
  eval-renew (Expr.or_expr es) rs same h =
      ap (λ ms. sequence ms >>= visit after (Expr.or_expr (from_list rs)))
        (values-from_list es rs same)
  eval-renew (Expr.imply l r) _ (next {r = x1} s1 v1 (next {r = x2} s2 v2 done)) h =
      binary (visit after (Expr.imply x1 x2)) (visit before (Expr.imply l r)) v1 v2 (λ a b. refl)
  eval-renew (Expr.comparison k l r) _ (next {r = x1} s1 v1 (next {r = x2} s2 v2 done)) h =
      binary (visit after (Expr.comparison k x1 x2)) (visit before (Expr.comparison k l r)) v1 v2
        (λ a b. refl)
  eval-renew (Expr.fp_query k e) _ (next {r = x1} s1 v1 done) h =
      unary (visit after (Expr.fp_query k x1)) (visit before (Expr.fp_query k e)) v1 (λ a. refl)
  eval-renew (Expr.fp_cast k e t m) _ (next {r = x1} s1 v1 done) h =
      unary (visit after (Expr.fp_cast k x1 t m)) (visit before (Expr.fp_cast k e t m)) v1
        (λ a. refl)
  eval-renew (Expr.bit_cast BitCastKind.fp_to_bv e t) _ (next {r = x1} s1 v1 done) h =
      unary (visit after (Expr.bit_cast BitCastKind.fp_to_bv x1 t))
        (visit before (Expr.bit_cast BitCastKind.fp_to_bv e t)) v1 (λ a. refl)
  eval-renew (Expr.bit_cast BitCastKind.bv_to_fp e t) _ (next {r = x1} s1 v1 done) h =
      unary (visit after (Expr.bit_cast BitCastKind.bv_to_fp x1 t))
        (visit before (Expr.bit_cast BitCastKind.bv_to_fp e t)) v1 (λ a. refl)
  eval-renew (Expr.fp_arithmetic k l r m) _ (next {r = x1} s1 v1 (next {r = x2} s2 v2 done)) h =
      binary (visit after (Expr.fp_arithmetic k x1 x2 m))
        (visit before (Expr.fp_arithmetic k l r m)) v1 v2 (λ a b. refl)
  eval-renew (Expr.fp_compare k l r) _ (next {r = x1} s1 v1 (next {r = x2} s2 v2 done)) h =
      binary (visit after (Expr.fp_compare k x1 x2)) (visit before (Expr.fp_compare k l r)) v1 v2
        (λ a b. refl)
  eval-renew (Expr.select c t e) _
        (next {r = x1} s1 v1 (next {r = x2} s2 v2 (next {r = x3} s3 v3 done))) h =
      ternary (visit after (Expr.select x1 x2 x3)) (visit before (Expr.select c t e)) v1 v2 v3
        (λ a b c. ap (λ t. visit_select t a b c) s2)
  eval-renew (Expr.array_read a i) _ (next {r = x1} s1 v1 (next {r = x2} s2 v2 done)) h =
      binary (visit after (Expr.array_read x1 x2)) (visit before (Expr.array_read a i)) v1 v2
        (λ a b. ap (λ t. visit_array_read (element_of t) a b) s1)
  eval-renew (Expr.array_write a i v) _
        (next {r = x1} s1 v1 (next {r = x2} s2 v2 (next {r = x3} s3 v3 done))) h =
      ternary (visit after (Expr.array_write x1 x2 x3)) (visit before (Expr.array_write a i v)) v1
        v2 v3 (λ a b c. refl)
  eval-renew (Expr.tuple_select e i) _ (next {r = x1} s1 v1 done) h =
      unary (visit after (Expr.tuple_select x1 i)) (visit before (Expr.tuple_select e i)) v1
        (λ a. refl)
  eval-renew (Expr.tuple_construct ts es) rs same h = rw (values-from_list es rs same) (
      unreached (sequence (post_order_all (visit before) es))
        (visit after (Expr.tuple_construct ts (from_list rs)))
        (visit before (Expr.tuple_construct ts es)) (λ as'. refl))

  pub is_nullary-renew :
      (e : Expr) (rs : List Expr)
      → Alike before after (operands e) rs
      → is_nullary e ≡ false
      → is_nullary (renew e rs) ≡ false
  unfolding renew operands is_nullary
  is_nullary-renew (Expr.undef t) rs same h = h
  is_nullary-renew (Expr.literal l) rs same h = h
  is_nullary-renew (Expr.var_ref v) rs same h = h
  is_nullary-renew (Expr.not_expr e) _ (next {r = x1} s1 v1 done) h = refl
  is_nullary-renew (Expr.zext e w) _ (next {r = x1} s1 v1 done) h = refl
  is_nullary-renew (Expr.sext e w) _ (next {r = x1} s1 v1 done) h = refl
  is_nullary-renew (Expr.extract e o w) _ (next {r = x1} s1 v1 done) h = refl
  is_nullary-renew (Expr.arithmetic k l r) _ (next {r = x1} s1 v1 (next {r = x2} s2 v2 done)) h =
      refl
  is_nullary-renew (Expr.bv_concat l r) _ (next {r = x1} s1 v1 (next {r = x2} s2 v2 done)) h = refl
  is_nullary-renew (Expr.and_expr es) rs same h = refl
  is_nullary-renew (Expr.or_expr es) rs same h = refl
  is_nullary-renew (Expr.imply l r) _ (next {r = x1} s1 v1 (next {r = x2} s2 v2 done)) h = refl
  is_nullary-renew (Expr.comparison k l r) _ (next {r = x1} s1 v1 (next {r = x2} s2 v2 done)) h =
      refl
  is_nullary-renew (Expr.fp_query k e) _ (next {r = x1} s1 v1 done) h = refl
  is_nullary-renew (Expr.fp_cast k e t m) _ (next {r = x1} s1 v1 done) h = refl
  is_nullary-renew (Expr.bit_cast k e t) _ (next {r = x1} s1 v1 done) h = refl
  is_nullary-renew (Expr.fp_arithmetic k l r m) _ (next {r = x1} s1 v1 (next {r = x2} s2 v2 done))
        h =
      refl
  is_nullary-renew (Expr.fp_compare k l r) _ (next {r = x1} s1 v1 (next {r = x2} s2 v2 done)) h =
      refl
  is_nullary-renew (Expr.select c t e) _
        (next {r = x1} s1 v1 (next {r = x2} s2 v2 (next {r = x3} s3 v3 done))) h =
      refl
  is_nullary-renew (Expr.array_read a i) _ (next {r = x1} s1 v1 (next {r = x2} s2 v2 done)) h = refl
  is_nullary-renew (Expr.array_write a i v) _
        (next {r = x1} s1 v1 (next {r = x2} s2 v2 (next {r = x3} s3 v3 done))) h =
      refl
  is_nullary-renew (Expr.tuple_select e i) _ (next {r = x1} s1 v1 done) h = refl
  is_nullary-renew (Expr.tuple_construct ts es) rs same h = refl
