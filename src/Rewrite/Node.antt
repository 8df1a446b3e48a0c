-- ===== src/Rewrite/Node.antt =====
-- A node with other operands of the same types, and its type.
use gazer.Base.{
  suc, ◌+◌, ◌≡◌, refl, ap, ap₂, ◌∙◌, Bool, true, false, not, ◌&&◌, ◌||◌, ltb, leb, ◌==◌, List, [],
  ◌∷◌, Result, ok, fault, ◌>>=◌, ◌>>◌, require,
}
use gazer.Core.Ty.{Ty, equals, is_bool_type, is_float_type, is_bv_type}
use gazer.Core.Llvm.{Llvm}
use gazer.Core.Literal.{Atom}
use gazer.Core.Expr.{Expr, Exprs, BitCastKind, type_of, width_of, element_of, member_of}
use gazer.Core.Create.{
  create_not, create_zext, create_sext, create_extract, create_arithmetic, create_bv_concat,
  create_and, create_or, create_imply, create_compare, create_fp_query, create_fp_cast,
  create_bit_cast, create_fp_arithmetic, create_fp_compare, create_select, create_array_read,
  create_array_write, create_tuple_select, create_tuple_construct, count_exprs, count_types,
  has_member, accepts, all_bool, is_nonempty, casts, bit_casts, indexes, is_bv_only_compare,
}
use gazer.Walker.Order.{operands, to_list, from_list, sequence, post_order, post_order_all}
use gazer.Evaluator.Visit.{Valuation, visit, eval}
use gazer.Evaluator.Logic.{visit_select, visit_array_read}
use gazer.Evaluator.Arithmetic.{visit_bv_concat}
pub mod Checks
pub mod Values

-- The Create function of the node's class, on the node's own operands.
unfoldable pub create : Expr → Result Expr
unfolding create_not create_zext create_sext create_extract create_arithmetic create_bv_concat
    create_and create_or create_imply create_compare create_fp_query create_fp_cast create_bit_cast
    create_fp_arithmetic create_fp_compare create_select create_array_read create_array_write
    create_tuple_select create_tuple_construct
create (Expr.undef t) = ok (Expr.undef t)
create (Expr.literal l) = ok (Expr.literal l)
create (Expr.var_ref v) = ok (Expr.var_ref v)
create (Expr.not_expr e) = create_not e
create (Expr.zext e w) = create_zext e w
create (Expr.sext e w) = create_sext e w
create (Expr.extract e o w) = create_extract e o w
create (Expr.arithmetic k l r) = create_arithmetic k l r
create (Expr.bv_concat l r) = create_bv_concat l r
create (Expr.and_expr es) = create_and es
create (Expr.or_expr es) = create_or es
create (Expr.imply l r) = create_imply l r
create (Expr.comparison k l r) = create_compare k l r
create (Expr.fp_query k e) = create_fp_query k e
create (Expr.fp_cast k e t m) = create_fp_cast k e t m
create (Expr.bit_cast k e t) = create_bit_cast k e t
create (Expr.fp_arithmetic k l r m) = create_fp_arithmetic k l r m
create (Expr.fp_compare k l r) = create_fp_compare k l r
create (Expr.select c t e) = create_select c t e
create (Expr.array_read a i) = create_array_read a i
create (Expr.array_write a i v) = create_array_write a i v
create (Expr.tuple_select e i) = create_tuple_select e i
create (Expr.tuple_construct ts es) = create_tuple_construct ts es

-- The node with new operands.
unfoldable pub renew : Expr → List Expr → Expr
unfolding from_list
renew (Expr.not_expr e) (x ∷ ops) = Expr.not_expr x
renew (Expr.zext e w) (x ∷ ops) = Expr.zext x w
renew (Expr.sext e w) (x ∷ ops) = Expr.sext x w
renew (Expr.extract e o w) (x ∷ ops) = Expr.extract x o w
renew (Expr.arithmetic k l r) (x ∷ y ∷ ops) = Expr.arithmetic k x y
renew (Expr.bv_concat l r) (x ∷ y ∷ ops) = Expr.bv_concat x y
renew (Expr.imply l r) (x ∷ y ∷ ops) = Expr.imply x y
renew (Expr.comparison k l r) (x ∷ y ∷ ops) = Expr.comparison k x y
renew (Expr.fp_query k e) (x ∷ ops) = Expr.fp_query k x
renew (Expr.fp_cast k e t m) (x ∷ ops) = Expr.fp_cast k x t m
renew (Expr.bit_cast k e t) (x ∷ ops) = Expr.bit_cast k x t
renew (Expr.fp_arithmetic k l r m) (x ∷ y ∷ ops) = Expr.fp_arithmetic k x y m
renew (Expr.fp_compare k l r) (x ∷ y ∷ ops) = Expr.fp_compare k x y
renew (Expr.select c t e) (x ∷ y ∷ z ∷ ops) = Expr.select x y z
renew (Expr.array_read a i) (x ∷ y ∷ ops) = Expr.array_read x y
renew (Expr.array_write a i v) (x ∷ y ∷ z ∷ ops) = Expr.array_write x y z
renew (Expr.tuple_select e i) (x ∷ ops) = Expr.tuple_select x i
renew (Expr.and_expr es) ops = Expr.and_expr (from_list ops)
renew (Expr.or_expr es) ops = Expr.or_expr (from_list ops)
renew (Expr.tuple_construct ts es) ops = Expr.tuple_construct ts (from_list ops)
renew e ops = e

-- Expr::isNullary
unfoldable pub is_nullary : Expr → Bool
is_nullary (Expr.undef t) = true
is_nullary (Expr.literal l) = true
is_nullary (Expr.var_ref v) = true
is_nullary _ = false

module _ ⦃llvm : Llvm⦄ (before after : Valuation) where
  -- The expressions of the second list have the types of those of the first one, and after the change
  -- the values that those had before.
  pub data Alike : List Expr → List Expr → Type 0 where
    done : Alike [] []
    next :
        {e r : Expr} {es rs : List Expr}
        → type_of r ≡ type_of e
        → eval after r ≡ eval before e
        → Alike es rs
        → Alike (e ∷ es) (r ∷ rs)

  pub type_of-renew :
      (e : Expr) (rs : List Expr) → Alike (operands e) rs → type_of (renew e rs) ≡ type_of e
  unfolding operands renew type_of
  type_of-renew (Expr.undef t) rs same = refl
  type_of-renew (Expr.literal l) rs same = refl
  type_of-renew (Expr.var_ref v) rs same = refl
  type_of-renew (Expr.not_expr e) _ (next {r = x1} s1 v1 done) = refl
  type_of-renew (Expr.zext e w) _ (next {r = x1} s1 v1 done) = refl
  type_of-renew (Expr.sext e w) _ (next {r = x1} s1 v1 done) = refl
  type_of-renew (Expr.extract e o w) _ (next {r = x1} s1 v1 done) = refl
  type_of-renew (Expr.arithmetic k l r) _ (next {r = x1} s1 v1 (next {r = x2} s2 v2 done)) = s1
  type_of-renew (Expr.bv_concat l r) _ (next {r = x1} s1 v1 (next {r = x2} s2 v2 done)) =
      ap₂ (λ a b. Ty.bv (width_of a + width_of b)) s1 s2
  type_of-renew (Expr.and_expr es) rs same = refl
  type_of-renew (Expr.or_expr es) rs same = refl
  type_of-renew (Expr.imply l r) _ (next {r = x1} s1 v1 (next {r = x2} s2 v2 done)) = s1
  type_of-renew (Expr.comparison k l r) _ (next {r = x1} s1 v1 (next {r = x2} s2 v2 done)) = refl
  type_of-renew (Expr.fp_query k e) _ (next {r = x1} s1 v1 done) = refl
  type_of-renew (Expr.fp_cast k e t m) _ (next {r = x1} s1 v1 done) = refl
  type_of-renew (Expr.bit_cast k e t) _ (next {r = x1} s1 v1 done) = refl
  type_of-renew (Expr.fp_arithmetic k l r m) _ (next {r = x1} s1 v1 (next {r = x2} s2 v2 done)) = s1
  type_of-renew (Expr.fp_compare k l r) _ (next {r = x1} s1 v1 (next {r = x2} s2 v2 done)) = refl
  type_of-renew (Expr.select c t e) _
        (next {r = x1} s1 v1 (next {r = x2} s2 v2 (next {r = x3} s3 v3 done))) =
      s2
  type_of-renew (Expr.array_read a i) _ (next {r = x1} s1 v1 (next {r = x2} s2 v2 done)) =
      ap element_of s1
  type_of-renew (Expr.array_write a i v) _
        (next {r = x1} s1 v1 (next {r = x2} s2 v2 (next {r = x3} s3 v3 done))) =
      s1
  type_of-renew (Expr.tuple_select e i) _ (next {r = x1} s1 v1 done) = ap (λ t. member_of t i) s1
  type_of-renew (Expr.tuple_construct ts es) rs same = refl
