-- ===== src/Core/Builder.antt =====
-- ExprBuilder (include/gazer/Core/Expr/ExprBuilder.h): its virtual methods, by groups of kinds, with
-- what they do in the base class, and the methods of src/Core/Expr/ExprBuilder.cpp that call them.
use gazer.Base.{
  ℕ, zero, suc, Bool, true, false, ltb, leb, ◌==◌, if◌then◌else◌, Result, ok, fault, Fault, ◌>>=◌,
  ◌>>◌, require,
}
use gazer.Core.Ty.{Ty, Tys, is_bv_type, equals}
use gazer.Core.Expr.{
  Expr, Exprs, ArithmeticKind, CompareKind, FpQueryKind, FpCastKind, BitCastKind, FpArithmeticKind,
  FpCompareKind, RoundingMode, type_of, width_of, member_of,
}
use gazer.Core.Create.{
  create_not, create_zext, create_sext, create_extract, create_arithmetic, create_bv_concat,
  create_and, create_or, create_imply, create_compare, create_fp_query, create_fp_cast,
  create_bit_cast, create_fp_arithmetic, create_fp_compare, create_select, create_array_read,
  create_array_write, create_tuple_select, create_tuple_construct, count_types,
}
pub mod Resize
pub mod Members
pub mod Insert

pub record ExprBuilder : Type 0 where
  pub not_expr : Expr → Result Expr
  -- with the width of the new type
  pub zext : Expr → ℕ → Result Expr
  pub sext : Expr → ℕ → Result Expr
  -- the offset and the width
  pub extract : Expr → ℕ → ℕ → Result Expr
  -- Add to BvXor
  pub arithmetic : ArithmeticKind → Expr → Expr → Result Expr
  pub bv_concat : Expr → Expr → Result Expr
  pub and_exprs : Exprs → Result Expr
  pub or_exprs : Exprs → Result Expr
  pub imply : Expr → Expr → Result Expr
  -- Eq to BvUGtEq
  pub comparison : CompareKind → Expr → Expr → Result Expr
  pub fp_query : FpQueryKind → Expr → Result Expr
  pub fp_cast : FpCastKind → Expr → Ty → RoundingMode → Result Expr
  pub bit_cast : BitCastKind → Expr → Ty → Result Expr
  pub fp_arithmetic : FpArithmeticKind → Expr → Expr → RoundingMode → Result Expr
  pub fp_compare : FpCompareKind → Expr → Expr → Result Expr
  pub select : Expr → Expr → Expr → Result Expr
  pub read : Expr → Expr → Result Expr
  pub write : Expr → Expr → Expr → Result Expr
  pub tup_sel : Expr → ℕ → Result Expr
  pub tuple_constructor : Tys → Exprs → Result Expr

-- NotEq of the base class is the negation of Eq; the other comparisons create their node.
unfoldable pub plain_comparison : CompareKind → Expr → Expr → Result Expr
unfolding create_compare create_not
plain_comparison CompareKind.not_eq l r = create_compare CompareKind.eq l r >>= create_not
plain_comparison k l r = create_compare k l r

-- CreateExprBuilder
abbrev pub base_builder : ExprBuilder
base_builder = record {
  not_expr = create_not;
  zext = create_zext;
  sext = create_sext;
  extract = create_extract;
  arithmetic = create_arithmetic;
  bv_concat = create_bv_concat;
  and_exprs = create_and;
  or_exprs = create_or;
  imply = create_imply;
  comparison = plain_comparison;
  fp_query = create_fp_query;
  fp_cast = create_fp_cast;
  bit_cast = create_bit_cast;
  fp_arithmetic = create_fp_arithmetic;
  fp_compare = create_fp_compare;
  select = create_select;
  read = create_array_read;
  write = create_array_write;
  tup_sel = create_tuple_select;
  tuple_constructor = create_tuple_construct;
}

module _ (builder : ExprBuilder) where
  -- Trunc
  unfoldable pub trunc : Expr → ℕ → Result Expr
  trunc op w = builder.extract op 0 w

  -- BvResize, with the width of the new type
  unfoldable pub bv_resize : Expr → ℕ → Result Expr
  unfolding trunc
  bv_resize op w =
      require (is_bv_type (type_of op))
      >> (if ltb (width_of (type_of op)) w
          then builder.zext op w
          else if ltb w (width_of (type_of op))
          then trunc op w
          else ok op)

  -- the loop of TupleInsert over the indexes from `i` on, `n` of them
  unfoldable pub select_members : Expr → ℕ → ℕ → Result Exprs
  select_members tuple i zero = ok Exprs.nil
  select_members tuple i (suc n) =
      builder.tup_sel tuple i >>= λ e. select_members tuple (suc i) n >>= λ es. ok (Exprs.cons e es)

  unfoldable pub tuple_members : Expr → Tys → Result Exprs
  unfolding select_members count_types
  tuple_members (Expr.tuple_construct ts es) types = ok es
  tuple_members tuple types = select_members tuple 0 (count_types types)

-- `newMembers[index] = value`, past the end of the vector for an index out of range
unfoldable pub set_member : Exprs → ℕ → Expr → Result Exprs
set_member Exprs.nil i v = fault Fault.undefined_behaviour
set_member (Exprs.cons e es) zero v = ok (Exprs.cons v es)
set_member (Exprs.cons e es) (suc i) v = set_member es i v >>= λ rest. ok (Exprs.cons e rest)

-- `getTypeAtIndex`, past the end of the vector for an index out of range
unfoldable pub get_type_at : Tys → ℕ → Result Ty
get_type_at Tys.nil i = fault Fault.undefined_behaviour
get_type_at (Tys.cons t ts) zero = ok t
get_type_at (Tys.cons t ts) (suc i) = get_type_at ts i

module _ (builder : ExprBuilder) where
  unfoldable pub insert_member : Expr → Tys → Expr → ℕ → Result Expr
  unfolding tuple_members set_member get_type_at count_types
  insert_member tuple types value index = do
    require (leb index (count_types types))
    t ← get_type_at types index
    require (equals t (type_of value))
    members ← tuple_members builder tuple types
    members' ← set_member members index value
    builder.tuple_constructor types members'

  unfoldable pub insert_typed : Ty → Expr → Expr → ℕ → Result Expr
  unfolding insert_member
  insert_typed (Ty.tuple types) tuple value index = insert_member tuple types value index
  insert_typed t tuple value index = fault Fault.assertion

  -- TupleInsert
  unfoldable pub tuple_insert : Expr → Expr → ℕ → Result Expr
  unfolding insert_typed
  tuple_insert tuple value index = insert_typed (type_of tuple) tuple value index
