-- ===== src/Core/Builder/Members.antt =====
-- The members of a tuple, and a list of expressions with one changed.
use gazer.Base.{
  ℕ, zero, suc, ◌+◌, ◌<◌, ◌≤◌, ◌≡◌, refl, ap, ◌∙◌, true, false, Option, none, some, ltb, ◌==◌,
  if◌then◌else◌, ok, fault, Fault, arith,
}
use gazer.Core.Ty.{Ty, Tys}
use gazer.Core.Expr.{Expr, Exprs, type_of}
use gazer.Core.Create.{create_tuple_select, count_types, count_exprs, has_member}
use gazer.Core.Builder.{base_builder, tuple_members, select_members, set_member, get_type_at}

-- The expression at an index.
unfoldable pub expr_at : Exprs → ℕ → Option Expr
expr_at Exprs.nil i = none
expr_at (Exprs.cons e es) zero = some e
expr_at (Exprs.cons e es) (suc i) = expr_at es i

-- The member of a tuple at an index: as it was constructed, or a selection.
unfoldable pub member_at : Expr → Tys → ℕ → Option Expr
unfolding expr_at count_types
member_at (Expr.tuple_construct ts es) types j = expr_at es j
member_at e types j = if ltb j (count_types types) then some (Expr.tuple_select e j) else none

-- What TupleConstructExpr::Create asserts of a constructed tuple.
unfoldable pub HasAllMembers : Expr → Type 0
unfolding count_types count_exprs
HasAllMembers (Expr.tuple_construct ts es) = count_exprs es ≡ count_types ts
HasAllMembers e = Unit

-- A list of expressions that is another one but for an index.
pub record ChangedAt (es : Exprs) (n : ℕ) (old : ℕ → Option Expr) (i : ℕ) (v : Expr) : Type 0 where
  pub as_many : count_exprs es ≡ n
  pub changed : (j : ℕ) → expr_at es j ≡ (if j == i then some v else old j)

changed_first :
    (e v : Expr) (es : Exprs) (j : ℕ)
    → expr_at (Exprs.cons v es) j ≡ (if j == 0 then some v else expr_at (Exprs.cons e es) j)
unfolding expr_at
changed_first e v es zero = refl
changed_first e v es (suc k) = let other : (suc k == 0) ≡ false = ground arith in rw other refl

changed_later :
    (e v : Expr) (es es' : Exprs) (i j : ℕ)
    → ((k : ℕ) → expr_at es' k ≡ (if k == i then some v else expr_at es k))
    → expr_at (Exprs.cons e es') j ≡ (if j == suc i then some v else expr_at (Exprs.cons e es) j)
unfolding expr_at
changed_later e v es es' i zero each =
    let other : (0 == suc i) ≡ false = ground arith in rw other refl
changed_later e v es es' i (suc k) each =
    let test : (suc k == suc i) ≡ (k == i) = ground arith in rw test (each k)

pub set_member-ChangedAt :
    (es : Exprs) (i : ℕ) (v : Expr)
    → i < count_exprs es
    → (es' : Exprs) × (set_member es i v ≡ ok es') × ChangedAt es' (count_exprs es) (expr_at es) i v
unfolding set_member count_exprs
set_member-ChangedAt Exprs.nil i v below = absurd (omega arith)
set_member-ChangedAt (Exprs.cons e es) zero v below =
    (Exprs.cons v es, refl, record { as_many = refl; changed = changed_first e v es })
set_member-ChangedAt (Exprs.cons e es) (suc i) v below =
    let (es', is, c) = set_member-ChangedAt es i v (omega arith) in
    (
      Exprs.cons e es',
      rw is refl,
      record { as_many = ap suc c.as_many; changed = λ j. changed_later e v es es' i j c.changed },
    )

pub get_type_at-inside :
    (ts : Tys) (i : ℕ) → i < count_types ts → (t : Ty) × (get_type_at ts i ≡ ok t)
unfolding get_type_at count_types
get_type_at-inside Tys.nil i below = absurd (omega arith)
get_type_at-inside (Tys.cons t ts) zero below = (t, refl)
get_type_at-inside (Tys.cons t ts) (suc i) below = get_type_at-inside ts i (omega arith)

pub get_type_at-end :
    (ts : Tys) (i : ℕ) → i ≡ count_types ts → get_type_at ts i ≡ fault Fault.undefined_behaviour
unfolding get_type_at count_types
get_type_at-end Tys.nil i end = refl
get_type_at-end (Tys.cons t ts) zero end = absurd (omega arith)
get_type_at-end (Tys.cons t ts) (suc i) end = get_type_at-end ts i (omega arith)

-- What a selection of members from an index on has at each index.
unfoldable selected : Expr → ℕ → ℕ → ℕ → Option Expr
selected tuple i n j = if ltb j n then some (Expr.tuple_select tuple (i + j)) else none

selected-next :
    (tuple : Expr) (i n j : ℕ) (es : Exprs)
    → ((k : ℕ) → expr_at es k ≡ selected tuple (suc i) n k)
    → expr_at (Exprs.cons (Expr.tuple_select tuple i) es) j ≡ selected tuple i (suc n) j
unfolding expr_at selected
selected-next tuple i n zero es each =
    let below : ltb 0 (suc n) ≡ true = ground arith in
    let same : i + 0 ≡ i = omega arith in rw (below, same) refl
selected-next tuple i n (suc k) es each =
    let test : ltb (suc k) (suc n) ≡ ltb k n = ground arith in
    let same : i + suc k ≡ suc i + k = omega arith in rw (test, same) (each k)

module _ (tuple : Expr) (ts : Tys) (type : type_of tuple ≡ Ty.tuple ts) where
  select_members_lem :
      (i n : ℕ)
      → i + n ≤ count_types ts
      → (es : Exprs) × (select_members base_builder tuple i n ≡ ok es)
        × (count_exprs es ≡ n)
        × ((j : ℕ) → expr_at es j ≡ selected tuple i n j)
  unfolding select_members count_exprs create_tuple_select has_member selected expr_at
  select_members_lem i zero inside = (
    Exprs.nil,
    refl,
    refl,
    λ j. let none_left : ltb j 0 ≡ false = ground arith in rw none_left refl,
  )
  select_members_lem i (suc n) inside =
      let (es, is, count, each) = select_members_lem (suc i) n (omega arith) in
      let here : ltb i (count_types ts) ≡ true = ground arith in
      (
        Exprs.cons (Expr.tuple_select tuple i) es,
        rw type (rw here (rw is refl)),
        ap suc count,
        λ j. selected-next tuple i n j es each,
      )

  picked :
      (es : Exprs) × (select_members base_builder tuple 0 (count_types ts) ≡ ok es)
      × (count_exprs es ≡ count_types ts)
      × ((j : ℕ)
          → expr_at es j
            ≡ (if ltb j (count_types ts) then some (Expr.tuple_select tuple j) else none))
  unfolding selected
  picked =
      let (es, is, count, each) = select_members_lem 0 (count_types ts) (omega arith) in
      (es, is, count, λ j. let same : 0 + j ≡ j = omega arith in each j ∙ rw same refl)

pub members_lem :
    (e : Expr) (ts : Tys)
    → type_of e ≡ Ty.tuple ts
    → HasAllMembers e
    → (es : Exprs) × (tuple_members base_builder e ts ≡ ok es)
      × (count_exprs es ≡ count_types ts)
      × ((j : ℕ) → expr_at es j ≡ member_at e ts j)
unfolding tuple_members HasAllMembers member_at type_of
members_lem (Expr.tuple_construct us es) ts type all =
    let same : us ≡ ts = cc in (es, refl, all ∙ ap count_types same, λ j. refl)
members_lem e ts type all = picked e ts type
