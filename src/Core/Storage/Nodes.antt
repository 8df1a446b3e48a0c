-- ===== src/Core/Storage/Nodes.antt =====
-- The nodes that the table compares, by the specialisations of expr_hasher (src/Core/GazerContextImpl.h).
-- The hash codes are a parameter.
use gazer.Base.{
  ℕ, ◌≡◌, ◌↔◌, refl, ap, ap₂, Bool, true, false, ◌&&◌, List, [], ◌∷◌, ◌==◌, ==_iff, decided,
  decided-true, decided_intro,
}
use gazer.Core.Ty.{Ty, equals, equals_iff}
use gazer.Core.Literal.{Literal, Literal-discrete, literal_type}
use gazer.Core.Expr.{
  Variable, ArithmeticKind, CompareKind, FpQueryKind, FpCastKind, BitCastKind, FpArithmeticKind,
  FpCompareKind, RoundingMode,
}
use gazer.Core.Storage.{Hasher}

-- The kinds of non-nullary expressions that have operands only, and those with a rounding mode.
pub data PlainKind : Type 0 where
  not_kind zext_kind sext_kind bv_concat_kind and_kind or_kind imply_kind select_kind : PlainKind
  array_read_kind array_write_kind tuple_construct_kind : PlainKind
  arithmetic_kind : ArithmeticKind → PlainKind
  compare_kind : CompareKind → PlainKind
  fp_query_kind : FpQueryKind → PlainKind
  bit_cast_kind : BitCastKind → PlainKind
  fp_compare_kind : FpCompareKind → PlainKind

pub data RoundedKind : Type 0 where
  fp_cast_kind : FpCastKind → RoundedKind
  fp_arithmetic_kind : FpArithmeticKind → RoundedKind

-- The arguments of a constructor, with the operands' addresses.
pub data Node : Type 0 where
  undef : Ty → Node
  literal : Literal → Node
  var_ref : Variable → Node
  plain : PlainKind → Ty → List ℕ → Node
  rounded : RoundedKind → Ty → List ℕ → RoundingMode → Node
  -- the offset and the width
  extract : Ty → List ℕ → ℕ → ℕ → Node
  tuple_select : Ty → List ℕ → ℕ → Node

ArithmeticKind-discrete : Discrete ArithmeticKind
ArithmeticKind-discrete = hlevel

CompareKind-discrete : Discrete CompareKind
CompareKind-discrete = hlevel

FpQueryKind-discrete : Discrete FpQueryKind
FpQueryKind-discrete = hlevel

BitCastKind-discrete : Discrete BitCastKind
BitCastKind-discrete = hlevel

FpCompareKind-discrete : Discrete FpCompareKind
FpCompareKind-discrete = hlevel

FpCastKind-discrete : Discrete FpCastKind
FpCastKind-discrete = hlevel

FpArithmeticKind-discrete : Discrete FpArithmeticKind
FpArithmeticKind-discrete = hlevel

PlainKind-discrete : Discrete PlainKind
PlainKind-discrete = hlevel (
  ArithmeticKind-discrete, CompareKind-discrete, FpQueryKind-discrete, BitCastKind-discrete,
  FpCompareKind-discrete,
)

RoundedKind-discrete : Discrete RoundedKind
RoundedKind-discrete = hlevel (FpCastKind-discrete, FpArithmeticKind-discrete)

RoundingMode-discrete : Discrete RoundingMode
RoundingMode-discrete = hlevel

-- std::equal on the operands, which are pointers
unfoldable pub same_operands : List ℕ → List ℕ → Bool
same_operands [] [] = true
same_operands (a ∷ as') (b ∷ bs) = a == b && same_operands as' bs
same_operands _ _ = false

-- expr_hasher<NonNullaryExpr>::equals, for one class of kinds
unfoldable pub same_base : {K : Type 0} → Discrete K → K → Ty → List ℕ → K → Ty → List ℕ → Bool
unfolding same_operands
same_base kinds k t ops k' t' ops' = decided (kinds k k') && equals t t' && same_operands ops ops'

-- The variable's address stands for its identity and its type.
unfoldable pub same_variable : Variable → Variable → Bool
same_variable v w = v.id == w.id && equals v.ty w.ty

-- expr_hasher::equals, of an expression in the table and the arguments of a constructor
unfoldable pub same_node : Node → Node → Bool
unfolding same_base same_variable Literal-discrete PlainKind-discrete RoundedKind-discrete
    RoundingMode-discrete ArithmeticKind-discrete CompareKind-discrete FpQueryKind-discrete
    BitCastKind-discrete FpCompareKind-discrete FpCastKind-discrete FpArithmeticKind-discrete
same_node (undef t) (undef t') = equals t t'
same_node (literal l) (literal l') =
    equals (literal_type l) (literal_type l') && decided (Literal-discrete l l')
same_node (var_ref v) (var_ref w) = same_variable v w
same_node (plain k t ops) (plain k' t' ops') = same_base PlainKind-discrete k t ops k' t' ops'
same_node (rounded k t ops m) (rounded k' t' ops' m') =
    same_base RoundedKind-discrete k t ops k' t' ops' && decided (RoundingMode-discrete m m')
same_node (extract t ops o w) (extract t' ops' o' w') =
    equals t t' && same_operands ops ops' && o == o' && w == w'
same_node (tuple_select t ops i) (tuple_select t' ops' i') =
    equals t t' && same_operands ops ops' && i == i'
same_node _ _ = false

both : (a b : Bool) → (a && b) ≡ true → (a ≡ true) × (b ≡ true)
both true true h = (refl, refl)
both true false h = absurd (cc)
both false b h = absurd (cc)

same_operands_iff : (xs ys : List ℕ) → (same_operands xs ys ≡ true) ↔ (xs ≡ ys)
unfolding same_operands
same_operands_iff [] [] = (λ h. refl, λ h. refl)
same_operands_iff [] (y ∷ ys) = (λ h. cc, λ h. cc)
same_operands_iff (x ∷ xs) [] = (λ h. cc, λ h. cc)
same_operands_iff (x ∷ xs) (y ∷ ys) = (
  λ h.
      let (here, later) = both (x == y) (same_operands xs ys) h in
      ap₂ (λ z zs. z ∷ zs) ((==_iff x y).0 here) ((same_operands_iff xs ys).0 later),
  λ h. ap₂ ◌&&◌ ((==_iff x y).1 (cc)) ((same_operands_iff xs ys).1 (cc)),
)

and_true : {a b : Bool} → a ≡ true → b ≡ true → (a && b) ≡ true
and_true p q = ap₂ ◌&&◌ p q

module _ {K : Type 0} (kinds : Discrete K) (k k' : K) (t t' : Ty) (ops ops' : List ℕ) where
  same_base-eq : same_base kinds k t ops k' t' ops' ≡ true → (k ≡ k') × (t ≡ t') × (ops ≡ ops')
  unfolding same_base
  same_base-eq h =
      let (first, last) = both (decided (kinds k k') && equals t t') (same_operands ops ops') h in
      let (kind, type) = both (decided (kinds k k')) (equals t t') first in
      (
        decided-true (kinds k k') kind,
        (equals_iff t t').0 type,
        (same_operands_iff ops ops').0 last,
      )

  eq-same_base : k ≡ k' → t ≡ t' → ops ≡ ops' → same_base kinds k t ops k' t' ops' ≡ true
  unfolding same_base
  eq-same_base a b c =
      and_true (and_true (decided_intro (kinds k k') a) ((equals_iff t t').1 b))
        ((same_operands_iff ops ops').1 c)

same_variable_iff : (v w : Variable) → (same_variable v w ≡ true) ↔ (v ≡ w)
unfolding same_variable
same_variable_iff v w = (
  λ h.
      let (ids, types) = both (v.id == w.id) (equals v.ty w.ty) h in
      ap₂ (λ n t. let x : Variable = record { id = n; ty = t } in x) ((==_iff v.id w.id).0 ids)
        ((equals_iff v.ty w.ty).0 types),
  λ h.
      and_true ((==_iff v.id w.id).1 (ap (λ (x : Variable). x.id) h))
        ((equals_iff v.ty w.ty).1 (ap (λ (x : Variable). x.ty) h)),
)

-- The comparison decides whether two nodes are one.
pub same_node_iff : (a b : Node) → (same_node a b ≡ true) ↔ (a ≡ b)
unfolding same_node
same_node_iff (undef t) (undef t') =
    (λ h. ap Node.undef ((equals_iff t t').0 h), λ h. (equals_iff t t').1 (cc))
same_node_iff (literal l) (literal l') = (
  λ h.
      let (_, values) =
        both (equals (literal_type l) (literal_type l')) (decided (Literal-discrete l l')) h in
      ap Node.literal (decided-true (Literal-discrete l l') values),
  λ h.
      let is : l ≡ l' = cc in
      and_true ((equals_iff (literal_type l) (literal_type l')).1 (ap literal_type is))
        (decided_intro (Literal-discrete l l') is),
)
same_node_iff (var_ref v) (var_ref w) =
    (λ h. ap Node.var_ref ((same_variable_iff v w).0 h), λ h. (same_variable_iff v w).1 (cc))
same_node_iff (plain k t ops) (plain k' t' ops') = (
  λ h. let (a, b, c) = same_base-eq PlainKind-discrete k k' t t' ops ops' h in cc,
  λ h. eq-same_base PlainKind-discrete k k' t t' ops ops' (cc) (cc) (cc),
)
same_node_iff (rounded k t ops m) (rounded k' t' ops' m') = (
  λ h.
      let (base, modes) =
        both (same_base RoundedKind-discrete k t ops k' t' ops')
          (decided (RoundingMode-discrete m m')) h in
      let (a, b, c) = same_base-eq RoundedKind-discrete k k' t t' ops ops' base in
      let mode = decided-true (RoundingMode-discrete m m') modes in cc,
  λ h.
      and_true (eq-same_base RoundedKind-discrete k k' t t' ops ops' (cc) (cc) (cc))
        (decided_intro (RoundingMode-discrete m m') (cc)),
)
same_node_iff (extract t ops o w) (extract t' ops' o' w') = (
  λ h.
      let (most, widths) = both (equals t t' && same_operands ops ops' && o == o') (w == w') h in
      let (base, offsets) = both (equals t t' && same_operands ops ops') (o == o') most in
      let (types, operands) = both (equals t t') (same_operands ops ops') base in
      let a = (equals_iff t t').0 types in
      let b = (same_operands_iff ops ops').0 operands in
      let c = (==_iff o o').0 offsets in let d = (==_iff w w').0 widths in cc,
  λ h.
      and_true
        (and_true (and_true ((equals_iff t t').1 (cc)) ((same_operands_iff ops ops').1 (cc)))
          ((==_iff o o').1 (cc)))
        ((==_iff w w').1 (cc)),
)
same_node_iff (tuple_select t ops i) (tuple_select t' ops' i') = (
  λ h.
      let (base, indexes) = both (equals t t' && same_operands ops ops') (i == i') h in
      let (types, operands) = both (equals t t') (same_operands ops ops') base in
      let a = (equals_iff t t').0 types in
      let b = (same_operands_iff ops ops').0 operands in let c = (==_iff i i').0 indexes in cc,
  λ h.
      and_true (and_true ((equals_iff t t').1 (cc)) ((same_operands_iff ops ops').1 (cc)))
        ((==_iff i i').1 (cc)),
)
same_node_iff _ _ = (λ h. absurd (cc), λ h. absurd (cc))

-- The comparison with hash codes.
abbrev pub node_hasher : (Node → ℕ) → Hasher Node
node_hasher hash = record { equals = same_node; hash_value = hash; equals_iff = same_node_iff }
