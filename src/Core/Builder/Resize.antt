-- ===== src/Core/Builder/Resize.antt =====
-- BvResize gives a bit-vector of the width that is asked for.
use gazer.Base.{
  ◌%◌, unsigned_size, ℕ, ◌+◌, ◌<◌, ◌≡◌, refl, ap, ◌∙◌, inl, inr, true, Bool-cases, ltb, leb, ok,
  arith,
}
use gazer.Core.Ty.{Ty, is_bv_type}
use gazer.Core.Expr.{Expr, type_of, width_of}
use gazer.Core.Create.{create_zext, create_extract}
use gazer.Core.Builder.{base_builder, bv_resize}

-- A bit-vector expression can be resized to any positive width, and has that width then.
pub bv_resize-type :
    (e : Expr) (v w : ℕ)
    → type_of e ≡ Ty.bv v
    → 0 < w
    → (r : Expr) × (bv_resize base_builder e w ≡ ok r) × (type_of r ≡ Ty.bv w)
unfolding bv_resize create_zext create_extract width_of is_bv_type type_of
bv_resize-type e v w type pos = elim (Bool-cases (ltb v w)) [
  | inl wider ↦ (Expr.zext e w, rw type (rw wider refl), refl)
  | inr not_wider ↦ elim (Bool-cases (ltb w v)) [
    | inl narrower ↦
        let some_bits : ltb 0 w ≡ true = ground arith in
        let inside : leb ((w + 0) % unsigned_size) v ≡ true = ground arith in
        (Expr.extract e 0 w, rw type (rw (not_wider, narrower, some_bits, inside) refl), refl)
    | inr same ↦
        let equal : v ≡ w = ground arith in
        (e, rw type (rw (not_wider, same) refl), type ∙ ap Ty.bv equal)
  ]
]
