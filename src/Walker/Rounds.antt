-- ===== src/Walker/Rounds.antt =====
-- What one round of the walker's loop does with the frame on top of the stack.
use gazer.Base.{
  ℕ, suc, ◌+◌, ◌≤◌, List, [], ◌∷◌, ◌++◌, ◌≡◌, refl, ◌∙◌, Option, none, some, length, get_elem?, set,
  length-append, get_elem?-append, Result, ok, fault, Fault, arith,
}
use gazer.Core.Expr.{Expr}
use gazer.Walker.Order.{operands, post_order}
use gazer.Walker.Stack.{Frame, running, create_frame, deliver, round, loop}

module _ {S R : Type 0} (blank : R) (visit : Expr → List R → Result R)
    (should_skip : S → Expr → Option R) (handle_result : S → Expr → R → S) where
  -- The state answers for an expression only with what a visit of it gives.
  abbrev pub IsCoherent : S → Type 0
  IsCoherent s = (e : Expr) (r : R) → should_skip s e ≡ some r → post_order visit e ≡ ok r

  abbrev pub KeepsCoherent : Type 0
  KeepsCoherent =
      (s : S) (e : Expr) (r : R)
      → IsCoherent s
      → post_order visit e ≡ ok r
      → IsCoherent (handle_result s e r)

  abbrev pub run : ℕ → S → List (Frame R) → Result (R × S)
  run = loop blank visit should_skip handle_result

  -- The loop after a result was delivered.
  unfoldable pub resume : ℕ → S → R → ℕ → List (Frame R) → Result (R × S)
  resume fuel s r i [] = ok (r, s)
  resume fuel s r i (p ∷ up) = run fuel s (record p { visited_ops = set p.visited_ops i r } ∷ up)

  -- What the loop does with a frame on top: it delivers the result after at most `need` rounds, or
  -- it stops with the fault.
  unfoldable pub Delivers : Result R → ℕ → ℕ → ℕ → List (Frame R) → Result (R × S) → Type 0
  Delivers (ok r) fuel need i up out =
      (s : S) × (rest : ℕ) × IsCoherent s × (fuel ≤ rest + need) × (out ≡ resume rest s r i up)
  Delivers (fault f) fuel need i up out = out ≡ fault f

  run-deliver :
      (fuel : ℕ) (s t : S) (r : R) (i : ℕ) (f : Frame R) (up : List (Frame R))
      → round blank visit should_skip handle_result s (f ∷ up) ≡ ok (deliver t r i up)
      → run (suc fuel) s (f ∷ up) ≡ resume fuel t r i up
  unfolding loop deliver resume
  run-deliver fuel s t r i f [] h = rw h
  run-deliver fuel s t r i f (p ∷ up) h = rw h

  pub Delivers-later :
      (m : Result R) (fuel fuel' need need' i : ℕ) (up : List (Frame R)) (out : Result (R × S))
      → fuel' + need ≤ fuel + need'
      → Delivers m fuel need i up out
      → Delivers m fuel' need' i up out
  unfolding Delivers
  Delivers-later (ok r) fuel fuel' need need' i up out h (s, rest, c, b, e) =
      (s, rest, c, omega arith, e)
  Delivers-later (fault f) fuel fuel' need need' i up out h d = d

  abbrev pub frame : Expr → ℕ → ℕ → List R → Frame R
  frame e i n rs = record { expr = e; index = i; state = n; visited_ops = rs }

  round_finish :
      (e : Expr) (i : ℕ) (rs : List R) (up : List (Frame R)) (s : S) (r : R)
      → should_skip s e ≡ none
      → length rs ≡ length (operands e)
      → visit e rs ≡ ok r
      → round blank visit should_skip handle_result s (frame e i (length rs) rs ∷ up)
        ≡ ok (deliver (handle_result s e r) r i up)
  unfolding round
  round_finish e i rs up s r h n q = ground arith

  round_fault :
      (e : Expr) (i : ℕ) (rs : List R) (up : List (Frame R)) (s : S) (f : Fault)
      → should_skip s e ≡ none
      → length rs ≡ length (operands e)
      → visit e rs ≡ fault f
      → round blank visit should_skip handle_result s (frame e i (length rs) rs ∷ up) ≡ fault f
  unfolding round
  round_fault e i rs up s f h n q = ground arith

  round_push :
      (e : Expr) (i : ℕ) (rs : List R) (up : List (Frame R)) (s : S) (before : List Expr)
      (op : Expr) (after : List Expr) (n : ℕ)
      → should_skip s e ≡ none
      → operands e ≡ before ++ op ∷ after
      → length before ≡ n
      → round blank visit should_skip handle_result s (frame e i n rs ∷ up)
        ≡ ok (running s (create_frame blank op n ∷ frame e i (suc n) rs ∷ up))
  unfolding round
  round_push e i rs up s before op after n h ops len =
      let here : get_elem? (operands e) n ≡ some op =
        rw (ops, ← len) (get_elem?-append before op after) in
      let more : length (operands e) ≡ suc (n + length after) =
        rw ops (omega (arith, length-append before (op ∷ after))) in
      ground arith

  run_fault :
      (fuel : ℕ) (s : S) (f : Frame R) (up : List (Frame R)) (x : Fault)
      → round blank visit should_skip handle_result s (f ∷ up) ≡ fault x
      → run (suc fuel) s (f ∷ up) ≡ fault x
  unfolding loop
  run_fault fuel s f up x h = rw h

  -- A frame whose expression the state answers for.
  pub skip_lem :
      (e : Expr) (i n : ℕ) (rs : List R) (up : List (Frame R)) (fuel : ℕ) (s : S) (r : R)
      → IsCoherent s
      → should_skip s e ≡ some r
      → Delivers (post_order visit e) (suc fuel) 1 i up (run (suc fuel) s (frame e i n rs ∷ up))
  unfolding Delivers round
  skip_lem e i n rs up fuel s r c h =
      rw (c e r h)
        (s, fuel, c, omega arith, run-deliver fuel s s r i (frame e i n rs) up (rw (h, round)))

  -- A frame whose operands all have their results.
  pub finish_lem :
      (e : Expr) (i : ℕ) (rs : List R) (up : List (Frame R)) (fuel : ℕ) (s : S)
      → KeepsCoherent
      → IsCoherent s
      → should_skip s e ≡ none
      → length rs ≡ length (operands e)
      → post_order visit e ≡ visit e rs
      → Delivers
          (post_order visit e)
          (suc fuel)
          1
          i
          up
          (run (suc fuel) s (frame e i (length rs) rs ∷ up))
  unfolding Delivers
  finish_lem e i rs up fuel s keep c h n p = go (visit e rs) refl
    where
      go :
          (m : Result R)
          → visit e rs ≡ m
          → Delivers
              (post_order visit e)
              (suc fuel)
              1
              i
              up
              (run (suc fuel) s (frame e i (length rs) rs ∷ up))
      go (ok r) q =
          let t = handle_result s e r in
          rw (p ∙ q) (
            t,
            fuel,
            keep s e r c (p ∙ q),
            omega arith,
            run-deliver fuel s t r i (frame e i (length rs) rs) up
                (round_finish e i rs up s r h n q),
          )
      go (fault f) q =
          rw (p ∙ q)
            (run_fault fuel s (frame e i (length rs) rs) up f (round_fault e i rs up s f h n q))

  pub push_lem :
      (e : Expr) (i : ℕ) (rs : List R) (up : List (Frame R)) (fuel : ℕ) (s : S) (before : List Expr)
      (op : Expr) (after : List Expr) (n : ℕ)
      → should_skip s e ≡ none
      → operands e ≡ before ++ op ∷ after
      → length before ≡ n
      → run (suc fuel) s (frame e i n rs ∷ up)
        ≡ run fuel s (create_frame blank op n ∷ frame e i (suc n) rs ∷ up)
  unfolding loop
  push_lem e i rs up fuel s before op after n h ops len =
      rw (round_push e i rs up s before op after n h ops len)
