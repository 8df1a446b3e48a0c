-- ===== src/Core/Create.antt =====
-- The checked constructors of expressions, the `Create` functions of src/Core/Expr.cpp: each asserts
-- the types of the operands and builds the node.
use gazer.Base.{
  ◌%◌, unsigned_size, ℕ, suc, ◌+◌, Bool, true, false, not, ◌&&◌, ◌||◌, ltb, leb, ◌==◌, Result, ok,
  ◌>>◌, require,
}
use gazer.Core.Ty.{
  Ty, Tys, is_bool_type, is_int_type, is_real_type, is_bv_type, is_float_type, is_arithmetic,
  equals,
}
use gazer.Core.Expr.{
  Expr, Exprs, ArithmeticKind, CompareKind, FpQueryKind, FpCastKind, BitCastKind, FpArithmeticKind,
  FpCompareKind, RoundingMode, type_of, width_of,
}

-- NotExpr::Create
unfoldable pub create_not : Expr → Result Expr
create_not e = require (is_bool_type (type_of e)) >> ok (Expr.not_expr e)

-- the checks of ExtCastExpr::Create
unfoldable pub widens : Expr → ℕ → Bool
widens e w = is_bv_type (type_of e) && ltb (width_of (type_of e)) w

unfoldable pub create_zext : Expr → ℕ → Result Expr
unfolding widens
create_zext e w = require (widens e w) >> ok (Expr.zext e w)

unfoldable pub create_sext : Expr → ℕ → Result Expr
unfolding widens
create_sext e w = require (widens e w) >> ok (Expr.sext e w)

-- ExtractExpr::Create: the sum is of two `unsigned` values
unfoldable pub create_extract : Expr → ℕ → ℕ → Result Expr
create_extract e offset width = do
  require (is_bv_type (type_of e))
  require (ltb 0 width)
  require (leb ((width + offset) % unsigned_size) (width_of (type_of e)))
  ok (Expr.extract e offset width)

unfoldable pub is_bv_only : ArithmeticKind → Bool
is_bv_only ArithmeticKind.add = false
is_bv_only ArithmeticKind.sub = false
is_bv_only ArithmeticKind.mul = false
is_bv_only ArithmeticKind.div = false
is_bv_only ArithmeticKind.mod_kind = false
is_bv_only ArithmeticKind.rem = false
is_bv_only _ = true

unfoldable pub is_arithmetic_only : ArithmeticKind → Bool
is_arithmetic_only ArithmeticKind.div = true
is_arithmetic_only _ = false

-- the check of ArithmeticExpr::Create on the type of the operands
unfoldable pub accepts : ArithmeticKind → Ty → Bool
unfolding is_bv_only is_arithmetic_only
accepts k t = elim (is_bv_only k) [
  | true ↦ is_bv_type t
  | false ↦ elim (is_arithmetic_only k) [
    | true ↦ is_arithmetic t
    | false ↦ is_bv_type t || is_int_type t || is_real_type t
  ]
]

-- ArithmeticExpr::Create
unfoldable pub create_arithmetic : ArithmeticKind → Expr → Expr → Result Expr
unfolding accepts
create_arithmetic k l r = do
  require (equals (type_of l) (type_of r))
  require (accepts k (type_of l))
  ok (Expr.arithmetic k l r)

-- ArithmeticExpr<Expr::BvConcat>::Create
unfoldable pub create_bv_concat : Expr → Expr → Result Expr
create_bv_concat l r = do
  require (is_bv_type (type_of l))
  require (is_bv_type (type_of r))
  ok (Expr.bv_concat l r)

unfoldable pub is_bv_only_compare : CompareKind → Bool
is_bv_only_compare CompareKind.eq = false
is_bv_only_compare CompareKind.not_eq = false
is_bv_only_compare CompareKind.lt = false
is_bv_only_compare CompareKind.lt_eq = false
is_bv_only_compare CompareKind.gt = false
is_bv_only_compare CompareKind.gt_eq = false
is_bv_only_compare _ = true

-- CompareExpr::Create
unfoldable pub create_compare : CompareKind → Expr → Expr → Result Expr
create_compare k l r = do
  require (equals (type_of l) (type_of r))
  require (not (is_bv_only_compare k) || is_bv_type (type_of l))
  ok (Expr.comparison k l r)

unfoldable pub all_bool : Exprs → Bool
all_bool Exprs.nil = true
all_bool (Exprs.cons e es) = is_bool_type (type_of e) && all_bool es

unfoldable pub is_nonempty : Exprs → Bool
is_nonempty Exprs.nil = false
is_nonempty (Exprs.cons e es) = true

-- MultiaryLogicExpr::Create
unfoldable pub create_and : Exprs → Result Expr
create_and es = do require (all_bool es); require (is_nonempty es); ok (Expr.and_expr es)

unfoldable pub create_or : Exprs → Result Expr
create_or es = do require (all_bool es); require (is_nonempty es); ok (Expr.or_expr es)

-- BinaryLogicExpr::Create
unfoldable pub create_imply : Expr → Expr → Result Expr
create_imply l r = do
  require (is_bool_type (type_of l))
  require (is_bool_type (type_of r))
  ok (Expr.imply l r)

-- FpQueryExpr::Create
unfoldable pub create_fp_query : FpQueryKind → Expr → Result Expr
create_fp_query k e = require (is_float_type (type_of e)) >> ok (Expr.fp_query k e)

-- the checks of BvFpCastExpr::Create on the types of the operand and of the result
unfoldable pub casts : FpCastKind → Ty → Ty → Bool
casts FpCastKind.f_cast from to = is_float_type from && is_float_type to && not (equals from to)
casts FpCastKind.signed_to_fp from to = is_bv_type from && is_float_type to
casts FpCastKind.unsigned_to_fp from to = is_bv_type from && is_float_type to
casts FpCastKind.fp_to_signed from to = is_float_type from && is_bv_type to
casts FpCastKind.fp_to_unsigned from to = is_float_type from && is_bv_type to

-- BvFpCastExpr::Create
unfoldable pub create_fp_cast : FpCastKind → Expr → Ty → RoundingMode → Result Expr
create_fp_cast k e t m = do
  require (not (equals (type_of e) t))
  require (casts k (type_of e) t)
  ok (Expr.fp_cast k e t m)

unfoldable pub bit_casts : BitCastKind → Ty → Ty → Bool
bit_casts BitCastKind.fp_to_bv from to = is_float_type from && is_bv_type to
bit_casts BitCastKind.bv_to_fp from to = is_bv_type from && is_float_type to

-- BitCastExpr::Create
unfoldable pub create_bit_cast : BitCastKind → Expr → Ty → Result Expr
create_bit_cast k e t = do
  require (not (equals (type_of e) t))
  require (bit_casts k (type_of e) t)
  ok (Expr.bit_cast k e t)

-- FpArithmeticExpr::Create
unfoldable pub create_fp_arithmetic : FpArithmeticKind → Expr → Expr → RoundingMode → Result Expr
create_fp_arithmetic k l r m = do
  require (is_float_type (type_of l))
  require (equals (type_of l) (type_of r))
  ok (Expr.fp_arithmetic k l r m)

-- FpCompareExpr::Create
unfoldable pub create_fp_compare : FpCompareKind → Expr → Expr → Result Expr
create_fp_compare k l r = do
  require (is_float_type (type_of l))
  require (is_float_type (type_of r))
  ok (Expr.fp_compare k l r)

-- SelectExpr::Create
unfoldable pub create_select : Expr → Expr → Expr → Result Expr
create_select c t e = do
  require (equals (type_of t) (type_of e))
  require (is_bool_type (type_of c))
  ok (Expr.select c t e)

-- the index type, for an array
unfoldable pub indexes : Ty → Ty → Bool
indexes (Ty.array i e) t = equals i t
indexes _ t = false

-- ArrayReadExpr::Create
unfoldable pub create_array_read : Expr → Expr → Result Expr
create_array_read a i = require (indexes (type_of a) (type_of i)) >> ok (Expr.array_read a i)

-- ArrayWriteExpr::Create, which does not look at the type of the value
unfoldable pub create_array_write : Expr → Expr → Expr → Result Expr
create_array_write a i v = require (indexes (type_of a) (type_of i)) >> ok (Expr.array_write a i v)

unfoldable pub count_types : Tys → ℕ
count_types Tys.nil = 0
count_types (Tys.cons t ts) = suc (count_types ts)

unfoldable pub count_exprs : Exprs → ℕ
count_exprs Exprs.nil = 0
count_exprs (Exprs.cons e es) = suc (count_exprs es)

unfoldable pub has_member : Ty → ℕ → Bool
unfolding count_types
has_member (Ty.tuple ts) i = ltb i (count_types ts)
has_member _ i = false

-- TupleSelectExpr::Create
unfoldable pub create_tuple_select : Expr → ℕ → Result Expr
create_tuple_select e i = require (has_member (type_of e) i) >> ok (Expr.tuple_select e i)

-- TupleConstructExpr::Create
unfoldable pub create_tuple_construct : Tys → Exprs → Result Expr
create_tuple_construct ts es =
    require (count_exprs es == count_types ts) >> ok (Expr.tuple_construct ts es)
