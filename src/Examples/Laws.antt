-- ===== src/Examples/Laws.antt =====
-- The machine of the examples keeps the documented behaviour of LLVM.
use gazer.Base.{ℕ, zero, suc, ◌-◌, ◌/◌, ◌^◌, ◌<◌, ◌≡◌, refl, arith}
use gazer.Core.Llvm.{IsLlvm}
use gazer.Examples.Machine.{machine, and_rec, or_rec, xor_rec}

and_rec_comm : (w a b : ℕ) → and_rec w a b ≡ and_rec w b a
unfolding and_rec
and_rec_comm zero a b = refl
and_rec_comm (suc w) a b = ground (arith, and_rec_comm w (a / 2) (b / 2))

or_rec_comm : (w a b : ℕ) → or_rec w a b ≡ or_rec w b a
unfolding or_rec
or_rec_comm zero a b = refl
or_rec_comm (suc w) a b = ground (arith, or_rec_comm w (a / 2) (b / 2))

xor_rec_comm : (w a b : ℕ) → xor_rec w a b ≡ xor_rec w b a
unfolding xor_rec
xor_rec_comm zero a b = refl
xor_rec_comm (suc w) a b = ground (arith, xor_rec_comm w (a / 2) (b / 2))

and_rec-zero : (w a : ℕ) → and_rec w a 0 ≡ 0
unfolding and_rec
and_rec-zero zero a = refl
and_rec-zero (suc w) a = ground (arith, and_rec-zero w (a / 2))

and_rec-ones : (w a : ℕ) → a < 2 ^ w → and_rec w a (2 ^ w - 1) ≡ a
unfolding and_rec
and_rec-ones zero a h = ground arith
and_rec-ones (suc w) a h = ground (arith, and_rec-ones w (a / 2))

or_rec-zero : (w a : ℕ) → a < 2 ^ w → or_rec w a 0 ≡ a
unfolding or_rec
or_rec-zero zero a h = ground arith
or_rec-zero (suc w) a h = ground (arith, or_rec-zero w (a / 2))

or_rec-ones : (w a : ℕ) → a < 2 ^ w → or_rec w a (2 ^ w - 1) ≡ 2 ^ w - 1
unfolding or_rec
or_rec-ones zero a h = refl
or_rec-ones (suc w) a h = ground (arith, or_rec-ones w (a / 2))

xor_rec-zero : (w a : ℕ) → a < 2 ^ w → xor_rec w a 0 ≡ a
unfolding xor_rec
xor_rec-zero zero a h = ground arith
xor_rec-zero (suc w) a h = ground (arith, xor_rec-zero w (a / 2))

pub machine-IsLlvm : IsLlvm machine
machine-IsLlvm = record {
  add_lem = λ w a b. refl;
  sub_lem = λ w a b. refl;
  mul_lem = λ w a b. refl;
  udiv_lem = λ w a b q h. ground arith;
  urem_lem = λ w a b r h. ground arith;
  sdiv_one = λ w a q b h. ground arith;
  srem_one = λ w a r b h. ground arith;
  sdiv_zero = λ w b q h. ground arith;
  srem_zero = λ w b r h. ground arith;
  shl_zero = λ w b. ground arith;
  lshr_zero = λ w b. ground arith;
  ashr_zero = λ w b. refl;
  lshr_by_lem = λ w a n r h. ground arith;
  ashr_by_lem = λ w a n r h. ground arith;
  and_comm = and_rec_comm;
  or_comm = or_rec_comm;
  xor_comm = xor_rec_comm;
  and_zero = and_rec-zero;
  and_ones = and_rec-ones;
  or_zero = or_rec-zero;
  or_ones = or_rec-ones;
  xor_zero = xor_rec-zero;
}
