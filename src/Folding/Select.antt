-- ===== src/Folding/Select.antt =====
-- FoldingExprBuilder::Select, its rules in the order of the code.
use gazer.Base.{true, false, none, some, if◌then◌else◌, Result, ok, ◌>>=◌}
use gazer.Core.Expr.{Expr, same}
use gazer.Core.Create.{create_select, create_and, create_or}
use gazer.Folding.Match.{as_bool, as_not, as_select}
use gazer.Folding.Logic.{bool_expr, two, build_and, build_or, build_not}

-- Select(A, E1, Select(B, E1, E2)) --> Select(A or B, E1, E2), and the plain node
unfoldable pub select_else_inner : Expr → Expr → Expr → Result Expr
unfolding as_select same create_or create_select
select_else_inner c t e =
    let plain = create_select c t e in
    elim (as_select e) [
      | some (c2, e1, e2) ↦
          if same t e1 then (create_or (two c c2) >>= λ d. create_select d t e2) else plain
      | none ↦ plain
    ]

-- Select(A, Select(B, E1, E2), E1) and Select(A, Select(B, E1, E2), E2). The node that the code
-- creates for the first has the branches E1 and E2 in this order. Reached where no rule above applies.
unfoldable pub select_then_inner : Expr → Expr → Expr → Result Expr
unfolding as_select same build_not build_and create_and create_select select_else_inner
select_then_inner c t e = elim (as_select t) [
  | some (c2, e1, e2) ↦
      if same e1 e
      then (build_not c2 >>= λ n. build_and (two c n) >>= λ d. create_select d e1 e2)
      else if same e2 e
      then (create_and (two c c2) >>= λ d. create_select d e1 e2)
      else select_else_inner c t e
  | none ↦ select_else_inner c t e
]

-- Select(A, E1, Select(A, E', E2)) --> Select(A, E1, E2)
unfoldable pub select_same_else : Expr → Expr → Expr → Result Expr
unfolding as_select same create_select select_then_inner
select_same_else c t e = elim (as_select e) [
  | some (c', e', e2) ↦ if same c c' then create_select c t e2 else select_then_inner c t e
  | none ↦ select_then_inner c t e
]

-- Select(A, Select(A, E1, E'), E2) --> Select(A, E1, E2)
unfoldable pub select_same_then : Expr → Expr → Expr → Result Expr
unfolding as_select same create_select select_same_else
select_same_then c t e = elim (as_select t) [
  | some (c', e1, e') ↦ if same c c' then create_select c e1 e else select_same_else c t e
  | none ↦ select_same_else c t e
]

-- Select(not C, E1, E2) --> Select(C, E2, E1)
unfoldable pub select_not : Expr → Expr → Expr → Result Expr
unfolding as_not create_select select_same_then
select_not c t e = elim (as_not c) [
  | some c1 ↦ create_select c1 e t
  | none ↦ select_same_then c t e
]

-- the rules for a Boolean literal in a branch
unfoldable pub select_literal : Expr → Expr → Expr → Result Expr
unfolding same build_not build_and build_or select_not
select_literal c t e =
    if same e (bool_expr false)
    then build_and (two c t)
    else if same e (bool_expr true)
    then (build_not c >>= λ n. build_or (two n t))
    else if same t (bool_expr true)
    then build_or (two c e)
    else if same t (bool_expr false)
    then (build_not c >>= λ n. build_and (two n e))
    else select_not c t e

-- FoldingExprBuilder::Select
unfoldable pub build_select : Expr → Expr → Expr → Result Expr
unfolding as_bool same select_literal
build_select c t e = elim (as_bool c) [
  | some b ↦ ok (if b then t else e)
  | none ↦ if same t e then ok t else select_literal c t e
]
