-- ===== src/Walker/Stack.antt =====
-- ExprWalker::walk (include/gazer/Core/Expr/ExprWalker.h): the frames and the loop. The derived class
-- is a parameter: `visit`, and `should_skip` and `handle_result` over its own state, such as a
-- cache. `blank` is the default-constructed result that fills a new frame.
use gazer.Base.{
  ℕ, zero, suc, List, [], ◌∷◌, Option, none, some, Bool, ◌==◌, if◌then◌else◌, length, get_elem?,
  replicate, set, Result, ok, fault, Fault, ◌>>=◌,
}
use gazer.Core.Expr.{Expr}
use gazer.Walker.Order.{operands}

-- The parent of a frame is the one below it on the stack.
pub record Frame (R : Type 0) : Type 0 where
  pub expr : Expr
  pub index : ℕ
  pub state : ℕ
  pub visited_ops : List R

-- The stack after one round of the loop, or the result of the walk.
pub data Round (S R : Type 0) : Type 0 where
  running : S → List (Frame R) → Round S R
  returned : R → S → Round S R

module _ {R : Type 0} (blank : R) where
  unfoldable pub create_frame : Expr → ℕ → Frame R
  create_frame e i = record {
    expr = e;
    index = i;
    state = 0;
    visited_ops = replicate (length (operands e)) blank;
  }

unfoldable pub is_finished : {R : Type 0} → Frame R → Bool
is_finished f = length (operands f.expr) == f.state

-- The result goes to the slot of the parent frame, or out of the loop.
unfoldable pub deliver : {S R : Type 0} → S → R → ℕ → List (Frame R) → Round S R
deliver s r i [] = returned r s
deliver s r i (parent ∷ up) =
    running s (record parent { visited_ops = set parent.visited_ops i r } ∷ up)

module _ {S R : Type 0} (blank : R) (visit : Expr → List R → Result R)
    (should_skip : S → Expr → Option R) (handle_result : S → Expr → R → S) where
  -- `createFrame(nn->getOperand(i), i, current)`, and `current->mState++`
  unfoldable pub push : S → Frame R → List (Frame R) → Result (Round S R)
  unfolding create_frame
  push s current up = elim (get_elem? (operands current.expr) current.state) [
    | none ↦ fault Fault.assertion
    | some op ↦ ok (
        running s
          (create_frame blank op current.state ∷ record current { state = suc current.state } ∷ up))
  ]

  unfoldable pub finish : S → Frame R → List (Frame R) → Result (Round S R)
  unfolding deliver
  finish s current up = do
    ret ← visit current.expr current.visited_ops
    ok (deliver (handle_result s current.expr ret) ret current.index up)

  -- One round of the loop.
  unfoldable pub round : S → List (Frame R) → Result (Round S R)
  unfolding push finish is_finished deliver
  round s [] = fault Fault.unreachable
  round s (current ∷ up) = elim (should_skip s current.expr) [
    | some ret ↦ ok (deliver s ret current.index up)
    | none ↦ if is_finished current then finish s current up else push s current up
  ]

  unfoldable pub loop : ℕ → S → List (Frame R) → Result (R × S)
  unfolding round
  loop zero s frames = fault Fault.out_of_fuel
  loop (suc fuel) s frames =
      round s frames
      >>= elim [ running s' frames' ↦ loop fuel s' frames' | returned r s' ↦ ok (r, s') ]

  unfoldable pub walk : ℕ → S → Expr → Result (R × S)
  unfolding loop create_frame
  walk fuel s e = loop fuel s (create_frame blank e 0 ∷ [])
