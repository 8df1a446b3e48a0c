-- ===== src/Core/Ty.antt =====
-- Types (include/gazer/Core/Type.h, src/Core/Type.cpp). All types here belong to one GazerContext,
-- which owns them, so a type is its structure.
use gazer.Base.{
  ℕ, ◌≡◌, refl, ap, ap₂, ◌↔◌, Bool, true, false, ◌&&◌, ◌||◌, ◌==◌, ==_iff, ℕ_discrete, arith,
}
pub mod Contexts

-- FloatType::FloatPrecision
pub data FloatPrecision : Type 0 where
  half single double quad : FloatPrecision

unfoldable pub FloatPrecision-discrete : Discrete FloatPrecision
FloatPrecision-discrete = hlevel

mutual
  pub data Ty : Type 0 where
    bool int real : Ty
    bv : ℕ → Ty
    float : FloatPrecision → Ty
    array : Ty → Ty → Ty
    tuple : Tys → Ty

  pub data Tys : Type 0 where
    nil : Tys
    cons : Ty → Tys → Tys

unfoldable pub Ty-discrete : Discrete Ty
unfolding FloatPrecision-discrete
Ty-discrete = hlevel (ℕ_discrete, FloatPrecision-discrete)

-- The bits of a precision, which are the values of the enumeration.
abbrev pub precision_bits : FloatPrecision → ℕ
precision_bits FloatPrecision.half = 16
precision_bits FloatPrecision.single = 32
precision_bits FloatPrecision.double = 64
precision_bits FloatPrecision.quad = 128

unfoldable pub is_bool_type : Ty → Bool
is_bool_type Ty.bool = true
is_bool_type _ = false

unfoldable pub is_int_type : Ty → Bool
is_int_type Ty.int = true
is_int_type _ = false

unfoldable pub is_real_type : Ty → Bool
is_real_type Ty.real = true
is_real_type _ = false

unfoldable pub is_bv_type : Ty → Bool
is_bv_type (Ty.bv w) = true
is_bv_type _ = false

unfoldable pub is_float_type : Ty → Bool
is_float_type (Ty.float p) = true
is_float_type _ = false

unfoldable pub is_arithmetic : Ty → Bool
unfolding is_int_type is_real_type
is_arithmetic t = is_int_type t || is_real_type t

-- Type::equals, of types of one context
unfoldable mutual
  pub equals : Ty → Ty → Bool
  equals Ty.bool Ty.bool = true
  equals Ty.int Ty.int = true
  equals Ty.real Ty.real = true
  equals (Ty.bv v) (Ty.bv w) = v == w
  equals (Ty.float p) (Ty.float q) = precision_bits p == precision_bits q
  equals (Ty.array i e) (Ty.array j f) = equals i j && equals e f
  equals (Ty.tuple ts) (Ty.tuple us) = equals_all ts us
  equals _ _ = false

  pub equals_all : Tys → Tys → Bool
  equals_all Tys.nil Tys.nil = true
  equals_all (Tys.cons t ts) (Tys.cons u us) = equals t u && equals_all ts us
  equals_all _ _ = false

pub &&-true : (a b : Bool) → (a && b) ≡ true → (a ≡ true) × (b ≡ true)
&&-true a b h = ground arith

pub precision_bits_inj : (p q : FloatPrecision) → precision_bits p ≡ precision_bits q → p ≡ q
precision_bits_inj p q h = ground arith

mutual
  unfolding equals

  equals_sound : (t u : Ty) → equals t u ≡ true → t ≡ u
  equals_sound Ty.bool Ty.bool h = refl
  equals_sound Ty.int Ty.int h = refl
  equals_sound Ty.real Ty.real h = refl
  equals_sound (Ty.bv v) (Ty.bv w) h = ap Ty.bv ((==_iff v w).0 h)
  equals_sound (Ty.float p) (Ty.float q) h = ap Ty.float (precision_bits_inj p q ((==_iff _ _).0 h))
  equals_sound (Ty.array i e) (Ty.array j f) h =
      let both = &&-true (equals i j) (equals e f) h in
      ap₂ Ty.array (equals_sound i j both.0) (equals_sound e f both.1)
  equals_sound (Ty.tuple ts) (Ty.tuple us) h = ap Ty.tuple (equals_all_sound ts us h)
  equals_sound _ _ h = cc

  equals_all_sound : (ts us : Tys) → equals_all ts us ≡ true → ts ≡ us
  equals_all_sound Tys.nil Tys.nil h = refl
  equals_all_sound (Tys.cons t ts) (Tys.cons u us) h =
      let both = &&-true (equals t u) (equals_all ts us) h in
      ap₂ Tys.cons (equals_sound t u both.0) (equals_all_sound ts us both.1)
  equals_all_sound _ _ h = cc

mutual
  unfolding equals

  equals_self : (t : Ty) → equals t t ≡ true
  equals_self Ty.bool = refl
  equals_self Ty.int = refl
  equals_self Ty.real = refl
  equals_self (Ty.bv w) = (==_iff w w).1 refl
  equals_self (Ty.float p) = (==_iff _ _).1 refl
  equals_self (Ty.array i e) = rw (equals_self i, equals_self e)
  equals_self (Ty.tuple ts) = equals_all_self ts

  equals_all_self : (ts : Tys) → equals_all ts ts ≡ true
  equals_all_self Tys.nil = refl
  equals_all_self (Tys.cons t ts) = rw (equals_self t, equals_all_self ts)

-- Two types of a context compare as equal exactly when they have the same structure, arrays and
-- tuples included.
pub equals_iff : (t u : Ty) → (equals t u ≡ true) ↔ (t ≡ u)
equals_iff t u = (equals_sound t u, λ e. rw e (equals_self u))
