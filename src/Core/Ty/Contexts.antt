-- ===== src/Core/Ty/Contexts.antt =====
-- Type::equals (src/Core/Type.cpp) on types of any contexts: each type has the context that owns it, and
-- an array or a tuple may have members of other ones.
use gazer.Base.{ℕ, ◌≡◌, ◌↔◌, refl, ap, ap₂, Bool, true, false, ◌&&◌, ◌==◌, ==_iff}
use gazer.Core.Ty.{
  Ty, Tys, FloatPrecision, precision_bits, precision_bits_inj, &&-true, equals, equals_all,
}

-- A type, with its context's address first.
mutual
  pub data ContextType : Type 0 where
    bool int real : ℕ → ContextType
    bv : ℕ → ℕ → ContextType
    float : ℕ → FloatPrecision → ContextType
    array : ℕ → ContextType → ContextType → ContextType
    tuple : ℕ → ContextTypes → ContextType

  pub data ContextTypes : Type 0 where
    nil : ContextTypes
    cons : ContextType → ContextTypes → ContextTypes

-- Type::equals
unfoldable mutual
  pub type_equals : ContextType → ContextType → Bool
  type_equals (bool c) (bool d) = c == d
  type_equals (int c) (int d) = c == d
  type_equals (real c) (real d) = c == d
  type_equals (bv c v) (bv d w) = (c == d) && (v == w)
  type_equals (float c p) (float d q) = (c == d) && (precision_bits p == precision_bits q)
  type_equals (array c i e) (array d j f) = (c == d) && (type_equals i j && type_equals e f)
  type_equals (tuple c ts) (tuple d us) = (c == d) && subtypes_equal ts us
  type_equals _ _ = false

  pub subtypes_equal : ContextTypes → ContextTypes → Bool
  subtypes_equal nil nil = true
  subtypes_equal (cons t ts) (cons u us) = type_equals t u && subtypes_equal ts us
  subtypes_equal _ _ = false

mutual
  unfolding type_equals

  type_equals_sound : (t u : ContextType) → type_equals t u ≡ true → t ≡ u
  type_equals_sound (bool c) (bool d) h = ap bool ((==_iff c d).0 h)
  type_equals_sound (int c) (int d) h = ap int ((==_iff c d).0 h)
  type_equals_sound (real c) (real d) h = ap real ((==_iff c d).0 h)
  type_equals_sound (bv c v) (bv d w) h =
      let (owner, widths) = &&-true (c == d) (v == w) h in
      ap₂ bv ((==_iff c d).0 owner) ((==_iff v w).0 widths)
  type_equals_sound (float c p) (float d q) h =
      let (owner, bits) = &&-true (c == d) (precision_bits p == precision_bits q) h in
      ap₂ float ((==_iff c d).0 owner) (precision_bits_inj p q ((==_iff _ _).0 bits))
  type_equals_sound (array c i e) (array d j f) h =
      let (owner, rest) = &&-true (c == d) (type_equals i j && type_equals e f) h in
      let (indexes, elements) = &&-true (type_equals i j) (type_equals e f) rest in
      let same_owner = (==_iff c d).0 owner in
      let same_index = type_equals_sound i j indexes in
      let same_element = type_equals_sound e f elements in cc
  type_equals_sound (tuple c ts) (tuple d us) h =
      let (owner, members) = &&-true (c == d) (subtypes_equal ts us) h in
      ap₂ tuple ((==_iff c d).0 owner) (subtypes_equal_sound ts us members)
  type_equals_sound _ _ h = cc

  subtypes_equal_sound : (ts us : ContextTypes) → subtypes_equal ts us ≡ true → ts ≡ us
  subtypes_equal_sound nil nil h = refl
  subtypes_equal_sound (cons t ts) (cons u us) h =
      let (first, rest) = &&-true (type_equals t u) (subtypes_equal ts us) h in
      ap₂ cons (type_equals_sound t u first) (subtypes_equal_sound ts us rest)
  subtypes_equal_sound _ _ h = cc

equal_self : (n : ℕ) → (n == n) ≡ true
equal_self n = (==_iff n n).1 refl

mutual
  unfolding type_equals

  type_equals_self : (t : ContextType) → type_equals t t ≡ true
  type_equals_self (bool c) = equal_self c
  type_equals_self (int c) = equal_self c
  type_equals_self (real c) = equal_self c
  type_equals_self (bv c w) = rw (equal_self c, equal_self w)
  type_equals_self (float c p) = rw (equal_self c, equal_self (precision_bits p))
  type_equals_self (array c i e) = rw (equal_self c, type_equals_self i, type_equals_self e)
  type_equals_self (tuple c ts) = rw (equal_self c, subtypes_equal_self ts)

  subtypes_equal_self : (ts : ContextTypes) → subtypes_equal ts ts ≡ true
  subtypes_equal_self nil = refl
  subtypes_equal_self (cons t ts) = rw (type_equals_self t, subtypes_equal_self ts)

-- The type of a context that has a structure.
unfoldable mutual
  pub in_context : ℕ → Ty → ContextType
  in_context c Ty.bool = bool c
  in_context c Ty.int = int c
  in_context c Ty.real = real c
  in_context c (Ty.bv w) = bv c w
  in_context c (Ty.float p) = float c p
  in_context c (Ty.array i e) = array c (in_context c i) (in_context c e)
  in_context c (Ty.tuple ts) = tuple c (all_in_context c ts)

  pub all_in_context : ℕ → Tys → ContextTypes
  all_in_context c Tys.nil = nil
  all_in_context c (Tys.cons t ts) = cons (in_context c t) (all_in_context c ts)

-- Types of one context are compared by their structure.
mutual
  unfolding type_equals in_context equals

  one_context : (c : ℕ) (t u : Ty) → type_equals (in_context c t) (in_context c u) ≡ equals t u
  one_context c Ty.bool Ty.bool = equal_self c
  one_context c Ty.int Ty.int = equal_self c
  one_context c Ty.real Ty.real = equal_self c
  one_context c (Ty.bv v) (Ty.bv w) = rw (equal_self c) refl
  one_context c (Ty.float p) (Ty.float q) = rw (equal_self c) refl
  one_context c (Ty.array i e) (Ty.array j f) =
      rw (equal_self c) (ap₂ ◌&&◌ (one_context c i j) (one_context c e f))
  one_context c (Ty.tuple ts) (Ty.tuple us) = rw (equal_self c) (all_one_context c ts us)
  one_context c _ _ = refl

  all_one_context :
      (c : ℕ) (ts us : Tys)
      → subtypes_equal (all_in_context c ts) (all_in_context c us) ≡ equals_all ts us
  all_one_context c Tys.nil Tys.nil = refl
  all_one_context c (Tys.cons t ts) (Tys.cons u us) =
      ap₂ ◌&&◌ (one_context c t u) (all_one_context c ts us)
  all_one_context c _ _ = refl

-- Two types compare as equal exactly where they are of one context and have the same structure, the
-- members of arrays and tuples with their contexts included; for structures in one context this is the
-- comparison of the structures.
pub type_equals_iff :
    (c : ℕ) (a b : Ty) (t u : ContextType)
    → ((type_equals t u ≡ true) ↔ (t ≡ u))
      × (type_equals (in_context c a) (in_context c b) ≡ equals a b)
type_equals_iff c a b t u =
    ((type_equals_sound t u, λ e. rw e (type_equals_self u)), one_context c a b)
