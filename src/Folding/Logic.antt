-- ===== src/Folding/Logic.antt =====
-- And, Or, Not and Imply of FoldingExprBuilder.
use gazer.Base.{Bool, true, false, not, Option, none, some, if◌then◌else◌, Result, ok, ◌>>=◌}
use gazer.Core.Literal.{bool_lit}
use gazer.Core.Expr.{Expr, Exprs}
use gazer.Core.Create.{create_not, create_and, create_or, create_imply}
use gazer.Folding.Match.{as_bool, as_and, as_or}

abbrev pub bool_expr : Bool → Expr
bool_expr b = Expr.literal (bool_lit b)

unfoldable pub append : Exprs → Exprs → Exprs
append Exprs.nil fs = fs
append (Exprs.cons e es) fs = Exprs.cons e (append es fs)

-- The loop of And over its operands: `none` is the early return of False, and otherwise it gives
-- the operands that are left, those of an AndExpr in its place.
unfoldable pub and_ops : Exprs → Option Exprs
unfolding as_bool as_and append
and_ops Exprs.nil = some Exprs.nil
and_ops (Exprs.cons op ops) =
    let rest = and_ops ops in
    elim (as_bool op) [
      | some b ↦ if b then rest else none
      | none ↦ elim rest [
        | none ↦ none
        | some es ↦ elim (as_and op) [
          | some fs ↦ some (append fs es)
          | none ↦ some (Exprs.cons op es)
        ]
      ]
    ]

unfoldable pub finish_and : Exprs → Result Expr
unfolding create_and
finish_and Exprs.nil = ok (bool_expr true)
finish_and (Exprs.cons e Exprs.nil) = ok e
finish_and es = create_and es

-- FoldingExprBuilder::And
unfoldable pub build_and : Exprs → Result Expr
unfolding and_ops finish_and
build_and es = elim (and_ops es) [ none ↦ ok (bool_expr false) | some ops ↦ finish_and ops ]

unfoldable pub or_ops : Exprs → Option Exprs
unfolding as_bool as_or append
or_ops Exprs.nil = some Exprs.nil
or_ops (Exprs.cons op ops) =
    let rest = or_ops ops in
    elim (as_bool op) [
      | some b ↦ if b then none else rest
      | none ↦ elim rest [
        | none ↦ none
        | some es ↦ elim (as_or op) [
          | some fs ↦ some (append fs es)
          | none ↦ some (Exprs.cons op es)
        ]
      ]
    ]

unfoldable pub finish_or : Exprs → Result Expr
unfolding create_or
finish_or Exprs.nil = ok (bool_expr false)
finish_or (Exprs.cons e Exprs.nil) = ok e
finish_or es = create_or es

-- FoldingExprBuilder::Or
unfoldable pub build_or : Exprs → Result Expr
unfolding or_ops finish_or
build_or es = elim (or_ops es) [ none ↦ ok (bool_expr true) | some ops ↦ finish_or ops ]

abbrev pub two : Expr → Expr → Exprs
two a b = Exprs.cons a (Exprs.cons b Exprs.nil)

-- FoldingExprBuilder::Not: the pattern m_Or(m_Not(m_Expr(x)), m_Expr(y)) matches an Or of two
-- operands in both orders.
unfoldable pub build_not : Expr → Result Expr
unfolding build_and create_not
build_not (Expr.literal (bool_lit b)) = ok (bool_expr (not b))
build_not (Expr.or_expr (Exprs.cons (Expr.not_expr x) (Exprs.cons y Exprs.nil))) =
    build_not y >>= λ n. build_and (two x n)
build_not (Expr.or_expr (Exprs.cons y (Exprs.cons (Expr.not_expr x) Exprs.nil))) =
    build_not y >>= λ n. build_and (two x n)
build_not op = create_not op

-- FoldingExprBuilder::Imply
unfoldable pub build_imply : Expr → Expr → Result Expr
unfolding as_bool build_not create_imply
build_imply left right = elim (as_bool left) [
  | some b ↦ if b then ok right else ok (bool_expr true)
  | none ↦ elim (as_bool right) [
    | some b ↦ if b then ok (bool_expr true) else build_not left
    | none ↦ create_imply left right
  ]
]
