-- ===== src/Walker/Correct.antt =====
-- The walker returns what the recursive post-order returns, within two rounds for each node, and
-- the state of the derived class keeps answering only with the results of visits.
use mathlib.Core.List.{map-append, append_assoc, append-nil}
use gazer.Base.{
  ℕ, zero, suc, ◌+◌, ◌*◌, ◌≤◌, List, [], ◌∷◌, ◌++◌, map, ◌≡◌, refl, sym, ap₂, ◌∙◌, Option, none,
  some, inl, inr, Option-cases, length, replicate, length-append, set-append, Result, ok, fault,
  Fault, ◌>>=◌, >>=-eq-ok, arith,
}
use gazer.Core.Expr.{Expr}
use gazer.Walker.Order.{operands, sequence, post_order, post_order_lem, All, induction}
use gazer.Walker.Stack.{Frame, create_frame, walk}
use gazer.Walker.Size.{size, total, size_lem}
use gazer.Walker.Rounds.{
  IsCoherent, KeepsCoherent, run, resume, Delivers, Delivers-later, frame, skip_lem, finish_lem,
  push_lem,
}

module _ {A : Type 0} where
  sequence_next :
      (ms : List (Result A)) (m : Result A) (rs : List A) (a : A)
      → sequence ms ≡ ok rs
      → m ≡ ok a
      → sequence (ms ++ m ∷ []) ≡ ok (rs ++ a ∷ [])
  sequence_next [] m rs a h k = ground arith
  sequence_next (ok z ∷ ms) m rs a h k =
      let (zs, e, q) = >>=-eq-ok (sequence ms) (λ zs. ok (z ∷ zs)) h in
      ground (arith, sequence_next ms m zs a e k)
  sequence_next (fault f ∷ ms) m rs a h k = cc

  sequence_stop :
      (ms : List (Result A)) (m : Result A) (ns : List (Result A)) (rs : List A) (f : Fault)
      → sequence ms ≡ ok rs
      → m ≡ fault f
      → sequence (ms ++ m ∷ ns) ≡ fault f
  sequence_stop [] m ns rs f h k = rw k
  sequence_stop (ok z ∷ ms) m ns rs f h k =
      let (zs, e, q) = >>=-eq-ok (sequence ms) (λ zs. ok (z ∷ zs)) h in
      rw (sequence_stop ms m ns zs f e k)
  sequence_stop (fault g ∷ ms) m ns rs f h k = cc

module _ {S R : Type 0} (blank : R) (visit : Expr → List R → Result R)
    (should_skip : S → Expr → Option R) (handle_result : S → Expr → R → S)
    (keep : KeepsCoherent blank visit should_skip handle_result) where
  abbrev Good : Expr → Type 0
  Good e =
      (i : ℕ) (up : List (Frame R)) (fuel : ℕ) (s : S)
      → IsCoherent blank visit should_skip handle_result s
      → suc (2 * total (operands e)) ≤ fuel
      → Delivers blank visit should_skip handle_result (post_order visit e) fuel
          (suc (2 * total (operands e))) i up
          (run blank visit should_skip handle_result fuel s (create_frame blank e i ∷ up))

  -- What the loop does with a frame whose first operands have their results.
  abbrev Finishes : Expr → List Expr → List R → Type 0
  Finishes e after rs =
      (i : ℕ) (up : List (Frame R)) (fuel : ℕ) (s : S)
      → IsCoherent blank visit should_skip handle_result s
      → suc (2 * total after) ≤ fuel
      → Delivers blank visit should_skip handle_result (post_order visit e) fuel
          (suc (2 * total after)) i up
          (run blank visit should_skip handle_result fuel s (
            frame blank visit should_skip handle_result e i (length rs)
              (rs ++ replicate (length after) blank)
            ∷ up))

  Finishes_skip :
      (e : Expr) (after : List Expr) (rs : List R) (i : ℕ) (up : List (Frame R)) (fuel : ℕ) (s : S)
      (r : R)
      → IsCoherent blank visit should_skip handle_result s
      → should_skip s e ≡ some r
      → Delivers blank visit should_skip handle_result
          (post_order visit e)
          (suc fuel)
          (suc (2 * total after))
          i
          up
          (run blank visit should_skip handle_result (suc fuel) s (
            frame blank visit should_skip handle_result e i
              (length rs)
              (rs ++ replicate (length after) blank)
            ∷ up))
  Finishes_skip e after rs i up fuel s r c h =
      Delivers-later blank visit should_skip handle_result (post_order visit e) (suc fuel)
        (suc fuel) 1 _ i up _ (omega arith)
        (skip_lem blank visit should_skip handle_result e i _ _ up fuel s r c h)

  visit_eq :
      (e : Expr) (before : List Expr) (rs : List R)
      → operands e ≡ before
      → sequence (map (post_order visit) before) ≡ ok rs
      → post_order visit e ≡ visit e rs
  visit_eq e before rs ops seq = post_order_lem visit e ∙ rw (ops, seq)

  Finishes-last :
      (e : Expr) (before : List Expr) (rs : List R)
      → operands e ≡ before
      → sequence (map (post_order visit) before) ≡ ok rs
      → length rs ≡ length before
      → Finishes e [] rs
  unfolding total
  Finishes-last e before rs ops seq len i up zero s c b = absurd (omega arith)
  Finishes-last e before rs ops seq len i up (suc fuel) s c b =
      elim (Option-cases (should_skip s e)) [
        | inl h ↦ rw (append-nil rs) (
            finish_lem blank visit should_skip handle_result e i rs up fuel s keep c h (rw ops len)
              (visit_eq e before rs ops seq))
        | inr (r, h) ↦ Finishes_skip e [] rs i up fuel s r c h
      ]

  -- The result of an operand goes to its slot, and the frame is on top again.
  resume-frame :
      (e : Expr) (after : List Expr) (rs : List R) (a : R) (i : ℕ) (up : List (Frame R)) (fuel : ℕ)
      (s : S)
      → resume blank visit should_skip handle_result fuel s a (length rs) (
          frame blank visit should_skip handle_result e i
            (suc (length rs))
            (rs ++ blank ∷ replicate (length after) blank)
          ∷ up)
        ≡ run blank visit should_skip handle_result fuel s (
            frame blank visit should_skip handle_result e i
              (length (rs ++ a ∷ []))
              ((rs ++ a ∷ []) ++ replicate (length after) blank)
            ∷ up)
  unfolding resume
  resume-frame e after rs a i up fuel s =
      let filled = replicate (length after) blank in
      let slots = set-append rs blank a filled ∙ sym (append_assoc rs (a ∷ []) filled) in
      let count : suc (length rs) ≡ length (rs ++ a ∷ []) =
        omega (arith, length-append rs (a ∷ [])) in
      ap₂
        (λ n v.
          run blank visit should_skip handle_result fuel s
            (frame blank visit should_skip handle_result e i n v ∷ up))
        count slots

  Finishes-push :
      (e op : Expr) (before after : List Expr) (rs : List R)
      → operands e ≡ before ++ op ∷ after
      → sequence (map (post_order visit) before) ≡ ok rs
      → length rs ≡ length before
      → Good op
      → ((a : R) → post_order visit op ≡ ok a → Finishes e after (rs ++ a ∷ []))
      → (i : ℕ) (up : List (Frame R)) (fuel : ℕ) (s : S)
      → IsCoherent blank visit should_skip handle_result s
      → 2 * (size op + total after) ≤ fuel
      → should_skip s e ≡ none
      → Delivers blank visit should_skip handle_result
          (post_order visit e)
          (suc fuel)
          (suc (2 * (size op + total after)))
          i
          up
          (run blank visit should_skip handle_result (suc fuel) s (
            frame blank visit should_skip handle_result e i
              (length rs)
              (rs ++ blank ∷ replicate (length after) blank)
            ∷ up))
  unfolding Delivers
  Finishes-push e op before after rs ops seq len good next i up fuel s c b h =
      rw
        (push_lem blank visit should_skip handle_result e i slots up fuel s before op after
          (length rs) h ops (sym len))
        (go (post_order visit op) refl
          (good (length rs) (waiting ∷ up) fuel s c (omega (arith, size_lem op))))
    where
      slots : List R
      slots = rs ++ blank ∷ replicate (length after) blank

      waiting : Frame R
      waiting = frame blank visit should_skip handle_result e i (suc (length rs)) slots

      pushed : Result (R × S)
      pushed =
          run blank visit should_skip handle_result fuel s
            (create_frame blank op (length rs) ∷ waiting ∷ up)

      stops : (f : Fault) → post_order visit op ≡ fault f → post_order visit e ≡ fault f
      stops f p =
          let all =
            sequence_stop (map (post_order visit) before) (post_order visit op)
              (map (post_order visit) after) rs f seq p in
          post_order_lem visit e ∙ rw (ops, map-append, all)

      go :
          (m : Result R)
          → post_order visit op ≡ m
          → Delivers blank visit should_skip handle_result m fuel
              (suc (2 * total (operands op)))
              (length rs)
              (waiting ∷ up)
              pushed
          → Delivers blank visit should_skip handle_result
              (post_order visit e)
              (suc fuel)
              (suc (2 * (size op + total after)))
              i
              up
              pushed
      go (ok a) p (t, rest, ct, bt, q) = rw (q ∙ resume-frame e after rs a i up rest t) (
          Delivers-later blank visit should_skip handle_result (post_order visit e) rest (suc fuel)
            (suc (2 * total after)) _ i up _ (omega (arith, size_lem op))
            (next a p i up rest t ct (omega (arith, size_lem op))))
      go (fault f) p q = rw (stops f p) q

  -- The next operand has its result, or stops the walk.
  Finishes-operand :
      (e op : Expr) (before after : List Expr) (rs : List R)
      → operands e ≡ before ++ op ∷ after
      → sequence (map (post_order visit) before) ≡ ok rs
      → length rs ≡ length before
      → Good op
      → ((a : R) → post_order visit op ≡ ok a → Finishes e after (rs ++ a ∷ []))
      → Finishes e (op ∷ after) rs
  unfolding total
  Finishes-operand e op before after rs ops seq len good next i up zero s c b = absurd (omega arith)
  Finishes-operand e op before after rs ops seq len good next i up (suc fuel) s c b =
      elim (Option-cases (should_skip s e)) [
        | inl h ↦
            Finishes-push e op before after rs ops seq len good next i up fuel s c (omega arith) h
        | inr (r, h) ↦ Finishes_skip e (op ∷ after) rs i up fuel s r c h
      ]

  frame_lem :
      (e : Expr) (before after : List Expr) (rs : List R)
      → operands e ≡ before ++ after
      → sequence (map (post_order visit) before) ≡ ok rs
      → length rs ≡ length before
      → All Good after
      → Finishes e after rs
  frame_lem e before [] rs ops seq len good =
      Finishes-last e before rs (ops ∙ append-nil before) (seq) len
  frame_lem e before (op ∷ after) rs ops seq len good =
      Finishes-operand e op before after rs ops seq len good.0 (λ a h.
        frame_lem e (before ++ op ∷ []) after (rs ++ a ∷ [])
          (ops ∙ sym (append_assoc before (op ∷ []) after))
          (rw (map-append)
            (sequence_next (map (post_order visit) before) (post_order visit op) rs a seq h))
          (omega (arith, length-append rs (a ∷ []), length-append before (op ∷ []))) good.1)

  walk_frame : (e : Expr) → Good e
  unfolding create_frame
  walk_frame = induction Good (λ e good. frame_lem e [] (operands e) [] refl refl refl good)

  -- From a coherent state, and with two rounds of fuel for each node of the expression, `walk`
  -- stops: with the result of the post-order and a coherent state if the post-order has a result,
  -- and with the fault of the post-order otherwise.
  pub walk_lem :
      (e : Expr) (fuel : ℕ) (s : S)
      → IsCoherent blank visit should_skip handle_result s
      → 2 * size e ≤ fuel
      → ((t : S) × (walk blank visit should_skip handle_result fuel s e
            ≡ (post_order visit e >>= λ r. ok (r, t)))
          × IsCoherent blank visit should_skip handle_result t)
  unfolding walk Delivers resume
  walk_lem e fuel s c b =
      go (post_order visit e) refl (walk_frame e 0 [] fuel s c (omega (arith, size_lem e)))
    where
      go :
          (m : Result R)
          → post_order visit e ≡ m
          → Delivers blank visit should_skip handle_result m fuel
              (suc (2 * total (operands e)))
              0
              []
              (run blank visit should_skip handle_result fuel s (create_frame blank e 0 ∷ []))
          → ((t : S) × (walk blank visit should_skip handle_result fuel s e
                ≡ (post_order visit e >>= λ r. ok (r, t)))
              × IsCoherent blank visit should_skip handle_result t)
      go (ok r) p (t, rest, ct, bt, q) = (t, rw p q, ct)
      go (fault f) p q = (s, rw p q, c)
