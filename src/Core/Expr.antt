-- ===== src/Core/Expr.antt =====
-- Expressions (include/gazer/Core/Expr.h, ExprTypes.h, Expr/ExprKind.def, src/Core/Expr.cpp).
-- They are hash-consed in the context: the pointer comparisons of the code compare structures.
use gazer.Base.{
  ℕ, zero, suc, ◌+◌, ◌≡◌, refl, Bool, true, ℕ_discrete, decided, decided-true, decided_intro,
}
use gazer.Core.Ty.{Ty, Tys, nil as no_types, cons as more_types, Ty-discrete}
use gazer.Core.Literal.{Literal, literal_type, Literal-discrete}

-- A variable is its identity in the context and its type.
pub record Variable : Type 0 where
  pub id : ℕ
  pub ty : Ty

-- Add to BvXor
pub data ArithmeticKind : Type 0 where
  add sub mul div mod_kind rem : ArithmeticKind
  bv_sdiv bv_udiv bv_srem bv_urem shl lshr ashr bv_and bv_or bv_xor : ArithmeticKind

-- Eq to BvUGtEq
pub data CompareKind : Type 0 where
  eq not_eq lt lt_eq gt gt_eq : CompareKind
  bv_slt bv_slt_eq bv_sgt bv_sgt_eq bv_ult bv_ult_eq bv_ugt bv_ugt_eq : CompareKind

pub data RoundingMode : Type 0 where
  nearest_ties_to_even toward_positive toward_negative toward_zero nearest_ties_to_away :
      RoundingMode

pub data FpQueryKind : Type 0 where
  f_is_nan f_is_inf : FpQueryKind

pub data FpCastKind : Type 0 where
  f_cast signed_to_fp unsigned_to_fp fp_to_signed fp_to_unsigned : FpCastKind

pub data BitCastKind : Type 0 where
  fp_to_bv bv_to_fp : BitCastKind

pub data FpArithmeticKind : Type 0 where
  f_add f_sub f_mul f_div : FpArithmeticKind

pub data FpCompareKind : Type 0 where
  f_eq f_gt f_gt_eq f_lt f_lt_eq : FpCompareKind

mutual
  pub data Expr : Type 0 where
    undef : Ty → Expr
    literal : Literal → Expr
    var_ref : Variable → Expr
    not_expr : Expr → Expr
    -- the operand and the new width
    zext sext : Expr → ℕ → Expr
    -- the operand, the offset and the width
    extract : Expr → ℕ → ℕ → Expr
    arithmetic : ArithmeticKind → Expr → Expr → Expr
    bv_concat : Expr → Expr → Expr
    and_expr or_expr : Exprs → Expr
    imply : Expr → Expr → Expr
    comparison : CompareKind → Expr → Expr → Expr
    fp_query : FpQueryKind → Expr → Expr
    fp_cast : FpCastKind → Expr → Ty → RoundingMode → Expr
    bit_cast : BitCastKind → Expr → Ty → Expr
    fp_arithmetic : FpArithmeticKind → Expr → Expr → RoundingMode → Expr
    fp_compare : FpCompareKind → Expr → Expr → Expr
    -- the condition, `then` and `else`
    select : Expr → Expr → Expr → Expr
    array_read : Expr → Expr → Expr
    array_write : Expr → Expr → Expr → Expr
    tuple_select : Expr → ℕ → Expr
    tuple_construct : Tys → Exprs → Expr

  -- ExprVector
  pub data Exprs : Type 0 where
    nil : Exprs
    cons : Expr → Exprs → Exprs

Variable-discrete : Discrete Variable
Variable-discrete = hlevel (ℕ_discrete, Ty-discrete)

ArithmeticKind-discrete : Discrete ArithmeticKind
ArithmeticKind-discrete = hlevel

CompareKind-discrete : Discrete CompareKind
CompareKind-discrete = hlevel

RoundingMode-discrete : Discrete RoundingMode
RoundingMode-discrete = hlevel

FpQueryKind-discrete : Discrete FpQueryKind
FpQueryKind-discrete = hlevel

FpCastKind-discrete : Discrete FpCastKind
FpCastKind-discrete = hlevel

BitCastKind-discrete : Discrete BitCastKind
BitCastKind-discrete = hlevel

FpArithmeticKind-discrete : Discrete FpArithmeticKind
FpArithmeticKind-discrete = hlevel

FpCompareKind-discrete : Discrete FpCompareKind
FpCompareKind-discrete = hlevel

unfoldable pub Expr-discrete : Discrete Expr
unfolding Variable-discrete ArithmeticKind-discrete CompareKind-discrete RoundingMode-discrete
    FpQueryKind-discrete FpCastKind-discrete BitCastKind-discrete FpArithmeticKind-discrete
    FpCompareKind-discrete
Expr-discrete = hlevel (
  ℕ_discrete, Literal-discrete, Variable-discrete, Ty-discrete, ArithmeticKind-discrete,
  CompareKind-discrete, RoundingMode-discrete, FpQueryKind-discrete, FpCastKind-discrete,
  BitCastKind-discrete, FpArithmeticKind-discrete, FpCompareKind-discrete,
)

-- `left == right` on pointers to hash-consed expressions
unfoldable pub same : Expr → Expr → Bool
unfolding Expr-discrete Literal-discrete Ty-discrete ℕ_discrete
same a b = decided (Expr-discrete a b)

pub same-true : (a b : Expr) → same a b ≡ true → a ≡ b
unfolding same
same-true a b h = decided-true (Expr-discrete a b) h

pub same_self : (a : Expr) → same a a ≡ true
unfolding same
same_self a = decided_intro (Expr-discrete a a) refl

unfoldable pub width_of : Ty → ℕ
width_of (Ty.bv w) = w
width_of _ = 0

unfoldable pub element_of : Ty → Ty
element_of (Ty.array i e) = e
element_of t = t

-- the type at an index, and `none` out of range
pub type_at : Tys → ℕ → Ty → Ty
type_at no_types i d = d
type_at (more_types t ts) zero d = t
type_at (more_types t ts) (suc i) d = type_at ts i d

unfoldable pub member_of : Ty → ℕ → Ty
unfolding type_at
member_of (Ty.tuple ts) i = type_at ts i (Ty.tuple ts)
member_of t i = t

-- Expr::getType, the type that the creating function gives
unfoldable pub type_of : Expr → Ty
unfolding literal_type width_of element_of member_of
type_of (undef t) = t
type_of (literal l) = literal_type l
type_of (var_ref v) = v.ty
type_of (not_expr e) = Ty.bool
type_of (zext e w) = Ty.bv w
type_of (sext e w) = Ty.bv w
type_of (extract e o w) = Ty.bv w
type_of (arithmetic k l r) = type_of l
type_of (bv_concat l r) = Ty.bv (width_of (type_of l) + width_of (type_of r))
type_of (and_expr es) = Ty.bool
type_of (or_expr es) = Ty.bool
type_of (imply l r) = type_of l
type_of (comparison k l r) = Ty.bool
type_of (fp_query k e) = Ty.bool
type_of (fp_cast k e t m) = t
type_of (bit_cast k e t) = t
type_of (fp_arithmetic k l r m) = type_of l
type_of (fp_compare k l r) = Ty.bool
type_of (select c t e) = type_of t
type_of (array_read a i) = element_of (type_of a)
type_of (array_write a i v) = type_of a
type_of (tuple_select e i) = member_of (type_of e) i
type_of (tuple_construct ts es) = Ty.tuple ts
