-- ===== src/Examples/Resizing.antt =====
-- A 32-bit variable, as 8 bits.
use gazer.Base.{◌≡◌, refl, ok, arith}
use gazer.Core.Ty.{Ty}
use gazer.Core.Expr.{Expr, type_of}
use gazer.Core.Builder.{base_builder, bv_resize}
use gazer.Core.Builder.Resize.{bv_resize-type}

abbrev word : Expr
word = Expr.var_ref (record { id = 0; ty = Ty.bv 32 })

bv_resize-type_example : (r : Expr) × (bv_resize base_builder word 8 ≡ ok r) × (type_of r ≡ Ty.bv 8)
unfolding type_of
bv_resize-type_example = bv_resize-type word 32 8 refl (omega arith)
