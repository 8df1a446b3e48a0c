-- ===== src/Evaluator/Walk.antt =====
-- Evaluation by the walker's loop is evaluation by recursion.
use gazer.Base.{ℕ, ◌*◌, ◌≤◌, ◌≡◌, none, Result, ok, fault, ◌>>=◌}
use gazer.Core.Ty.{Ty}
use gazer.Core.Llvm.{Llvm}
use gazer.Core.Literal.{undef}
use gazer.Core.Expr.{Expr}
use gazer.Walker.Size.{size}
use gazer.Walker.Correct.{walk_lem}
use gazer.Evaluator.Visit.{Valuation, visit, eval, evaluate}

first_of_result :
    {A T : Type 0} (m : Result A) (t : T) (n : Result (A × T))
    → n ≡ (m >>= λ a. ok (a, t))
    → (n >>= λ (a, _). ok a) ≡ m
first_of_result (ok a) t n h = rw h
first_of_result (fault f) t n h = rw h

module _ ⦃llvm : Llvm⦄ (valuation : Valuation) where
  -- With fuel for two rounds for each node, the walker returns the value that the recursion over
  -- the expression has, or stops with its fault.
  pub evaluate-eq-eval :
      (e : Expr) (fuel : ℕ) → 2 * size e ≤ fuel → evaluate valuation fuel e ≡ eval valuation e
  unfolding evaluate
  evaluate-eq-eval e fuel h =
      let (t, done, _) =
        walk_lem (undef Ty.bool) (visit valuation) (λ _ _. none) (λ s _ _. s) (λ s e r c p. c) e
          fuel tt (λ e r p. cc) h in
      first_of_result (eval valuation e) t _ done
