-- ===== src/Rewrite/Node/Checks.antt =====
-- The checks of a node that is made again.
use gazer.Base.{
  ◌%◌, unsigned_size, suc, ◌+◌, ◌≡◌, refl, ap, ap₂, Bool, true, false, not, ◌&&◌, ◌||◌, ltb, leb,
  ◌==◌, List, ok, ◌>>◌, require,
}
use gazer.Core.Ty.{equals, is_bool_type, is_float_type, is_bv_type}
use gazer.Core.Llvm.{Llvm}
use gazer.Core.Expr.{Expr, Exprs, type_of, width_of}
use gazer.Core.Create.{
  count_exprs, count_types, has_member, accepts, all_bool, is_nonempty, casts, bit_casts, indexes,
  is_bv_only_compare,
}
use gazer.Walker.Order.{operands, to_list, from_list}
use gazer.Evaluator.Visit.{Valuation}
use gazer.Rewrite.Node.{create, renew, Alike, next, done}

-- A check that passes for a node passes for the node that is checked in the same way.
checked :
    (test : Bool) (x y : Expr) {z : Expr}
    → (require test >> ok x) ≡ ok z
    → (require test >> ok y) ≡ ok y
checked true x y h = refl
checked false x y h = cc

checked_twice :
    (first second : Bool) (x y : Expr) {z : Expr}
    → (require first >> (require second >> ok x)) ≡ ok z
    → (require first >> (require second >> ok y)) ≡ ok y
checked_twice true second x y h = checked second x y h
checked_twice false second x y h = cc

checked_thrice :
    (first second third : Bool) (x y : Expr) {z : Expr}
    → (require first >> (require second >> (require third >> ok x))) ≡ ok z
    → (require first >> (require second >> (require third >> ok y))) ≡ ok y
checked_thrice true second third x y h = checked_twice second third x y h
checked_thrice false second third x y h = cc

module _ ⦃llvm : Llvm⦄ (before after : Valuation) where
  all_bool-from_list :
      (es : Exprs) (rs : List Expr)
      → Alike before after (to_list es) rs
      → all_bool (from_list rs) ≡ all_bool es
  unfolding all_bool to_list from_list
  all_bool-from_list Exprs.nil _ done = refl
  all_bool-from_list (Exprs.cons e es) _ (next s v rest) =
      ap₂ (λ t b. is_bool_type t && b) s (all_bool-from_list es _ rest)

  count_exprs-from_list :
      (es : Exprs) (rs : List Expr)
      → Alike before after (to_list es) rs
      → count_exprs (from_list rs) ≡ count_exprs es
  unfolding count_exprs to_list from_list
  count_exprs-from_list Exprs.nil _ done = refl
  count_exprs-from_list (Exprs.cons e es) _ (next s v rest) =
      ap suc (count_exprs-from_list es _ rest)

  is_nonempty-from_list :
      (es : Exprs) (rs : List Expr)
      → Alike before after (to_list es) rs
      → is_nonempty (from_list rs) ≡ is_nonempty es
  unfolding is_nonempty to_list from_list
  is_nonempty-from_list Exprs.nil _ done = refl
  is_nonempty-from_list (Exprs.cons e es) _ (next s v rest) = refl

  -- The checks of a node look at the types of its operands only.
  pub create-renew :
      (e : Expr) (rs : List Expr)
      → Alike before after (operands e) rs
      → create e ≡ ok e
      → create (renew e rs) ≡ ok (renew e rs)
  unfolding create renew operands
  create-renew (Expr.undef t) rs same h = refl
  create-renew (Expr.literal l) rs same h = refl
  create-renew (Expr.var_ref v) rs same h = refl
  create-renew (Expr.not_expr e) _ (next {r = x1} s1 v1 done) h =
      rw s1 (checked (is_bool_type (type_of e)) (Expr.not_expr e) (Expr.not_expr x1) h)
  create-renew (Expr.zext e w) _ (next {r = x1} s1 v1 done) h = rw s1 (
      checked (is_bv_type (type_of e) && ltb (width_of (type_of e)) w) (Expr.zext e w)
        (Expr.zext x1 w) h)
  create-renew (Expr.sext e w) _ (next {r = x1} s1 v1 done) h = rw s1 (
      checked (is_bv_type (type_of e) && ltb (width_of (type_of e)) w) (Expr.sext e w)
        (Expr.sext x1 w) h)
  create-renew (Expr.extract e o w) _ (next {r = x1} s1 v1 done) h = rw s1 (
      checked_thrice (is_bv_type (type_of e)) (ltb 0 w)
        (leb ((w + o) % unsigned_size) (width_of (type_of e))) (Expr.extract e o w)
        (Expr.extract x1 o w) h)
  create-renew (Expr.arithmetic k l r) _ (next {r = x1} s1 v1 (next {r = x2} s2 v2 done)) h =
      rw (s1, s2)
        (checked_twice (equals (type_of l) (type_of r)) (accepts k (type_of l))
          (Expr.arithmetic k l r) (Expr.arithmetic k x1 x2) h)
  create-renew (Expr.bv_concat l r) _ (next {r = x1} s1 v1 (next {r = x2} s2 v2 done)) h =
      rw (s1, s2)
        (checked_twice (is_bv_type (type_of l)) (is_bv_type (type_of r)) (Expr.bv_concat l r)
          (Expr.bv_concat x1 x2) h)
  create-renew (Expr.and_expr es) rs same h =
      let types = all_bool-from_list es rs same in
      let some_left = is_nonempty-from_list es rs same in
      rw (types, some_left)
        (checked_twice (all_bool es) (is_nonempty es) (Expr.and_expr es)
          (Expr.and_expr (from_list rs)) h)
  create-renew (Expr.or_expr es) rs same h =
      let types = all_bool-from_list es rs same in
      let some_left = is_nonempty-from_list es rs same in
      rw (types, some_left)
        (checked_twice (all_bool es) (is_nonempty es) (Expr.or_expr es)
          (Expr.or_expr (from_list rs)) h)
  create-renew (Expr.imply l r) _ (next {r = x1} s1 v1 (next {r = x2} s2 v2 done)) h =
      rw (s1, s2)
        (checked_twice (is_bool_type (type_of l)) (is_bool_type (type_of r)) (Expr.imply l r)
          (Expr.imply x1 x2) h)
  create-renew (Expr.comparison k l r) _ (next {r = x1} s1 v1 (next {r = x2} s2 v2 done)) h =
      rw (s1, s2)
        (checked_twice (equals (type_of l) (type_of r))
          (not (is_bv_only_compare k) || is_bv_type (type_of l)) (Expr.comparison k l r)
          (Expr.comparison k x1 x2) h)
  create-renew (Expr.fp_query k e) _ (next {r = x1} s1 v1 done) h =
      rw s1 (checked (is_float_type (type_of e)) (Expr.fp_query k e) (Expr.fp_query k x1) h)
  create-renew (Expr.fp_cast k e t m) _ (next {r = x1} s1 v1 done) h = rw s1 (
      checked_twice (not (equals (type_of e) t)) (casts k (type_of e) t) (Expr.fp_cast k e t m)
        (Expr.fp_cast k x1 t m) h)
  create-renew (Expr.bit_cast k e t) _ (next {r = x1} s1 v1 done) h = rw s1 (
      checked_twice (not (equals (type_of e) t)) (bit_casts k (type_of e) t) (Expr.bit_cast k e t)
        (Expr.bit_cast k x1 t) h)
  create-renew (Expr.fp_arithmetic k l r m) _ (next {r = x1} s1 v1 (next {r = x2} s2 v2 done)) h =
      rw (s1, s2)
        (checked_twice (is_float_type (type_of l)) (equals (type_of l) (type_of r))
          (Expr.fp_arithmetic k l r m) (Expr.fp_arithmetic k x1 x2 m) h)
  create-renew (Expr.fp_compare k l r) _ (next {r = x1} s1 v1 (next {r = x2} s2 v2 done)) h =
      rw (s1, s2)
        (checked_twice (is_float_type (type_of l)) (is_float_type (type_of r))
          (Expr.fp_compare k l r) (Expr.fp_compare k x1 x2) h)
  create-renew (Expr.select c t e) _
        (next {r = x1} s1 v1 (next {r = x2} s2 v2 (next {r = x3} s3 v3 done))) h =
      rw (s1, s2, s3)
        (checked_twice (equals (type_of t) (type_of e)) (is_bool_type (type_of c))
          (Expr.select c t e) (Expr.select x1 x2 x3) h)
  create-renew (Expr.array_read a i) _ (next {r = x1} s1 v1 (next {r = x2} s2 v2 done)) h =
      rw (s1, s2)
        (checked (indexes (type_of a) (type_of i)) (Expr.array_read a i) (Expr.array_read x1 x2) h)
  create-renew (Expr.array_write a i v) _
        (next {r = x1} s1 v1 (next {r = x2} s2 v2 (next {r = x3} s3 v3 done))) h =
      rw (s1, s2)
        (checked (indexes (type_of a) (type_of i)) (Expr.array_write a i v)
          (Expr.array_write x1 x2 x3) h)
  create-renew (Expr.tuple_select e i) _ (next {r = x1} s1 v1 done) h =
      rw s1 (checked (has_member (type_of e) i) (Expr.tuple_select e i) (Expr.tuple_select x1 i) h)
  create-renew (Expr.tuple_construct ts es) rs same h =
      let counts = count_exprs-from_list es rs same in
      rw counts (
        checked (count_exprs es == count_types ts) (Expr.tuple_construct ts es)
          (Expr.tuple_construct ts (from_list rs)) h)
