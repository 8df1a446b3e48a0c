-- ===== src/Folding/Compare.antt =====
-- foldBinaryCompare, simplifyLtEq, and the comparison methods. The bit-vector comparisons of the
-- builder only create their node.
use gazer.Base.{
  Bool, true, false, Option, none, some, if◌then◌else◌, ◌==◌, Result, ok, ◌>>=◌, ◌>>◌, require,
}
use gazer.Base.Int.{ℤ, pos, ◌+ℤ◌, ◌-ℤ◌, to_long}
use gazer.Core.Llvm.{Llvm}
use gazer.Core.Expr.{Expr, CompareKind, same}
use gazer.Core.Create.{create_compare}
use gazer.Evaluator.Compare.{eval_bv_compare, eval_int_compare}
use gazer.Folding.Match.{as_literal, as_bool, as_int, as_bv, as_select, as_add_int, as_sub_int}
use gazer.Folding.Logic.{bool_expr, build_not}
use gazer.Folding.Arithmetic.{int_expr}

-- The right side is the Boolean literal b.
unfoldable pub fold_bool_right : CompareKind → Expr → Bool → Result (Option Expr)
unfolding build_not
fold_bool_right CompareKind.eq left b =
    if b then ok (some left) else (build_not left >>= λ e. ok (some e))
fold_bool_right CompareKind.not_eq left b =
    if b then (build_not left >>= λ e. ok (some e)) else ok (some left)
fold_bool_right _ left b = ok none

module _ ⦃llvm : Llvm⦄ where
  -- Two bit-vector literals or two integer literals: the switches of this function have the cases
  -- of EvalBvCompare and EvalIntCompare. APInt asserts that the widths agree.
  unfoldable pub fold_compare_literals : CompareKind → Expr → Expr → Result (Option Expr)
  unfolding as_int as_bv eval_bv_compare eval_int_compare
  fold_compare_literals k left right = elim (as_bv left) [
    | some (w, l) ↦ elim (as_bv right) [
      | some (v, r) ↦ require (w == v) >> (eval_bv_compare k w l r >>= λ b. ok (some (bool_expr b)))
      | none ↦ ok none
    ]
    | none ↦ elim (as_int left) [
      | some l ↦ elim (as_int right) [
        | some r ↦ eval_int_compare k l r >>= λ b. ok (some (bool_expr b))
        | none ↦ ok none
      ]
      | none ↦ ok none
    ]
  ]

  -- foldBinaryCompare, with the recursive call for a Boolean literal on the left written out: its
  -- right side is that literal.
  unfoldable pub fold_binary_compare : CompareKind → Expr → Expr → Result (Option Expr)
  unfolding as_bool fold_bool_right fold_compare_literals
  fold_binary_compare k left right = elim (as_bool right) [
    | some b ↦ fold_bool_right k left b
    | none ↦ elim (as_bool left) [
      | some b ↦ fold_bool_right k right b
      | none ↦ fold_compare_literals k left right
    ]
  ]

-- specific_match::match on the stored pointer, `none` for the null pointer
unfoldable pub is_specific : Option Expr → Expr → Bool
unfolding same
is_specific none e = false
is_specific (some stored) e = same stored e

-- m_Select(m_Expr(c1), m_Literal(l1), m_Literal(l2)): the condition
unfoldable pub literal_select : Expr → Option Expr
unfolding as_select as_literal
literal_select e = elim (as_select e) [
  | some (c, t, f) ↦ elim (as_literal t) [
    | some l ↦ elim (as_literal f) [ some m ↦ some c | none ↦ none ]
    | none ↦ none
  ]
  | none ↦ none
]

-- unord_match(left, right, m_Select(…), m_Specific(l)) in Eq. m_Specific takes a `const ExprPtr&`,
-- and l1 and l2 are `ExprRef<LiteralExpr>`: the reference is to the pointer that they are converted
-- to before the match, when they are null.
unfoldable pub match_select : Expr → Expr → Option Expr
unfolding is_specific literal_select
match_select left right =
    let other_way : Option Expr = elim (literal_select right) [
      | some c ↦ if is_specific none left then some c else none
      | none ↦ none
    ] in
    elim (literal_select left) [
      | some c ↦ if is_specific none right then some c else other_way
      | none ↦ other_way
    ]

-- B - A and A + B of simplifyLtEq, with the other operand X, for X + A and X - A
unfoldable pub move_constant : Expr → ℤ → Option (Expr × Result ℤ)
unfolding as_add_int as_sub_int
move_constant other c2 = elim (as_add_int other) [
  | some (c1, x) ↦ some (x, to_long (c2 -ℤ c1))
  | none ↦ elim (as_sub_int other) [ some (c1, x) ↦ some (x, to_long (c2 +ℤ c1)) | none ↦ none ]
]

-- the macro CREATE_RESULT, after the choice of `other` and of its constant
unfoldable pub simplify_with : Expr → Expr → Expr → ℤ → Result Expr
unfolding same move_constant create_compare
simplify_with left right other c2 = elim (move_constant other c2) [
  | some (x, constant) ↦ constant >>= λ n.
      if same other left
      then create_compare CompareKind.lt_eq x (int_expr n)
      else create_compare CompareKind.lt_eq (int_expr n) x
  | none ↦ create_compare CompareKind.lt_eq left right
]

-- FoldingExprBuilder::simplifyLtEq
unfoldable pub simplify_lt_eq : Expr → Expr → Result Expr
unfolding as_int simplify_with create_compare
simplify_lt_eq left right = elim (as_int right) [
  | some c2 ↦ simplify_with left right left c2
  | none ↦ elim (as_int left) [
    | some c2 ↦ simplify_with left right right c2
    | none ↦ create_compare CompareKind.lt_eq left right
  ]
]

module _ ⦃llvm : Llvm⦄ where
  -- Eq after the tests on literals
  unfoldable pub fold_eq : Expr → Expr → Result Expr
  unfolding fold_binary_compare match_select build_not create_compare
  fold_eq left right = fold_binary_compare CompareKind.eq left right >>= λ folded. elim folded [
    | some e ↦ ok e
    | none ↦ elim (match_select left right) [
      | some c1 ↦ ok c1
      | none ↦ elim (match_select left right) [
        | some c1 ↦ build_not c1
        | none ↦ create_compare CompareKind.eq left right
      ]
    ]
  ]

  -- FoldingExprBuilder::Eq
  unfoldable pub build_eq : Expr → Expr → Result Expr
  unfolding same as_literal fold_eq
  build_eq left right = if same left right then ok (bool_expr true) else elim (as_literal left) [
    | some l ↦ elim (as_literal right) [ some r ↦ ok (bool_expr false) | none ↦ fold_eq left right ]
    | none ↦ fold_eq left right
  ]

  -- NotEq
  unfoldable pub build_not_eq : Expr → Expr → Result Expr
  unfolding build_eq build_not
  build_not_eq left right = build_eq left right >>= build_not

  -- LtEq
  unfoldable pub build_lt_eq : Expr → Expr → Result Expr
  unfolding fold_binary_compare simplify_lt_eq
  build_lt_eq left right = fold_binary_compare CompareKind.lt_eq left right >>= λ folded.
      elim folded [ some e ↦ ok e | none ↦ simplify_lt_eq left right ]

  -- Lt
  unfoldable pub build_lt : Expr → Expr → Result Expr
  unfolding build_lt_eq build_not
  build_lt left right = build_lt_eq right left >>= build_not

  -- Gt
  unfoldable pub build_gt : Expr → Expr → Result Expr
  unfolding fold_binary_compare as_int create_compare build_lt_eq build_not
  build_gt left right = fold_binary_compare CompareKind.gt left right >>= λ folded. elim folded [
    | some e ↦ ok e
    | none ↦ elim (as_int left) [
      | some n ↦ to_long (n -ℤ pos 1) >>= λ m. create_compare CompareKind.lt_eq right (int_expr m)
      | none ↦ build_lt_eq left right >>= build_not
    ]
  ]

  -- GtEq
  unfoldable pub build_gt_eq : Expr → Expr → Result Expr
  unfolding build_lt_eq
  build_gt_eq left right = build_lt_eq right left

  -- All comparison methods; BvSLt to BvUGtEq are those of the macro-free list that only creates.
  unfoldable pub build_compare : CompareKind → Expr → Expr → Result Expr
  unfolding build_eq build_not_eq build_lt build_lt_eq build_gt build_gt_eq create_compare
  build_compare CompareKind.eq left right = build_eq left right
  build_compare CompareKind.not_eq left right = build_not_eq left right
  build_compare CompareKind.lt left right = build_lt left right
  build_compare CompareKind.lt_eq left right = build_lt_eq left right
  build_compare CompareKind.gt left right = build_gt left right
  build_compare CompareKind.gt_eq left right = build_gt_eq left right
  build_compare k left right = create_compare k left right
