-- ===== src/Support/Algorithm.antt =====
-- intersection_difference (include/gazer/ADT/Algorithm.h): the common elements of two ranges, and those of
-- each that are not in the other. The bits of `rightElems` stand with the elements of the right range.
use gazer.Base.{Bool, true, false, not, ◌&&◌, List, [], ◌∷◌, ◌++◌, map, decided, if◌then◌else◌}
pub mod Members

module _ {A : Type 0} (same : Discrete A) where
  -- What the loops have written so far.
  pub record Outputs : Type 0 where
    pub marks : List (A × Bool)
    pub common : List A
    pub only_left : List A

  -- The inner loop for the left element `x`: the marks, whether `x` was met, and the common elements.
  unfoldable pub scan : A → List (A × Bool) → Bool → List A → List (A × Bool) × Bool × List A
  scan x [] present common = ([], present, common)
  scan x ((r, seen) ∷ marks) present common = elim (decided (same x r)) [
    | true ↦
        let written = if not seen && not present then common ++ x ∷ [] else common in
        let (marks', present', common') = scan x marks true written in
        ((r, true) ∷ marks', present', common')
    | false ↦
        let (marks', present', common') = scan x marks present common in
        ((r, seen) ∷ marks', present', common')
  ]

  -- The loop over the left range.
  unfoldable pub pair_up : List A → Outputs → Outputs
  unfolding scan
  pair_up [] st = st
  pair_up (x ∷ left) st =
      let (marks', present, common') = scan x st.marks false st.common in
      pair_up left (record {
        marks = marks';
        common = common';
        only_left = if present then st.only_left else st.only_left ++ x ∷ [];
      })

  -- The last loop: the elements without a mark.
  unfoldable pub unpaired : List (A × Bool) → List A
  unpaired [] = []
  unpaired ((r, true) ∷ marks) = unpaired marks
  unpaired ((r, false) ∷ marks) = r ∷ unpaired marks

  -- The common elements, those of the left range only, and those of the right one only.
  unfoldable pub intersection_difference : List A → List A → List A × List A × List A
  unfolding pair_up unpaired
  intersection_difference left right =
      let out =
        pair_up left
          (record { marks = map (λ r. (r, false)) right; common = []; only_left = [] }) in
      (out.common, out.only_left, unpaired out.marks)
