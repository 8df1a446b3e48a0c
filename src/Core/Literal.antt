-- ===== src/Core/Literal.antt =====
-- Literals and atomic values (include/gazer/Core/LiteralExpr.h, src/Core/LiteralExpr.cpp). They are
-- hash-consed in the context, so two pointers are equal exactly when the structures are.
use gazer.Base.{
  ℕ, ◌-◌, ◌^◌, Bool, ◌==◌, if◌then◌else◌, ℕ_discrete, decided, Result, ok, ◌>>◌, require,
}
use gazer.Base.Int.{ℤ, pos, ℤ-discrete, eqb_ℤ}
use gazer.Core.Ty.{Ty, FloatPrecision, FloatPrecision-discrete, Ty-discrete, equals}

-- LiteralExpr and its subclasses; a rational is its numerator and denominator, a bit-vector its
-- width and value, and an array its index and element types, its map and its default.
mutual
  pub data Literal : Type 0 where
    bool_lit : Bool → Literal
    int_lit : ℤ → Literal
    real_lit : ℤ → ℕ → Literal
    bv_lit : ℕ → ℕ → Literal
    float_lit : FloatPrecision → ℕ → Literal
    array_lit : Ty → Ty → Entries → Literal → Literal

  pub data Entries : Type 0 where
    no_entries : Entries
    entry : Literal → Literal → Entries → Entries

Bool-discrete : Discrete Bool
Bool-discrete = hlevel

unfoldable pub Literal-discrete : Discrete Literal
unfolding Bool-discrete ℤ-discrete FloatPrecision-discrete Ty-discrete
Literal-discrete =
    hlevel (ℕ_discrete, ℤ-discrete, FloatPrecision-discrete, Ty-discrete, Bool-discrete)

-- AtomicExpr: an undef of a type, or a literal.
pub data Atom : Type 0 where
  undef : Ty → Atom
  lit : Literal → Atom

unfoldable pub literal_type : Literal → Ty
literal_type (bool_lit b) = Ty.bool
literal_type (int_lit n) = Ty.int
literal_type (real_lit n d) = Ty.real
literal_type (bv_lit w v) = Ty.bv w
literal_type (float_lit p v) = Ty.float p
literal_type (array_lit i e m d) = Ty.array i e

unfoldable pub atom_type : Atom → Ty
unfolding literal_type
atom_type (undef t) = t
atom_type (lit l) = literal_type l

-- BvLiteralExpr::isZero, isOne and isAllOnes, and IntLiteralExpr::isZero and isOne
abbrev pub is_zero : ℕ → Bool
is_zero v = v == 0

abbrev pub is_one : ℕ → Bool
is_one v = v == 1

abbrev pub is_all_ones : ℕ → ℕ → Bool
is_all_ones w v = v == 2 ^ w - 1

abbrev pub is_zero_int : ℤ → Bool
is_zero_int a = eqb_ℤ a (pos 0)

abbrev pub is_one_int : ℤ → Bool
is_one_int a = eqb_ℤ a (pos 1)

-- `mMap.find(key)`, and the default for a key that is not there
unfoldable pub find_entry : Entries → Literal → Literal → Literal
unfolding Literal-discrete
find_entry no_entries d key = d
find_entry (entry k v rest) d key =
    if decided (Literal-discrete k key) then v else find_entry rest d key

-- ArrayLiteralExpr::getValue, with the index type, the map and the default of the literal
unfoldable pub get_value : Ty → Entries → Literal → Literal → Result Atom
unfolding literal_type equals find_entry
get_value index_type entries d key = do
  require (equals (literal_type key) index_type)
  ok (lit (find_entry entries d key))
