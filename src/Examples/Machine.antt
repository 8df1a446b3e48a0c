-- ===== src/Examples/Machine.antt =====
-- A machine with the operations of llvm::APInt and llvm::APFloat that the examples run on.
use gazer.Base.{
  ℕ, zero, suc, ◌+◌, ◌-◌, ◌*◌, ◌/◌, ◌%◌, ◌^◌, Bool, not, ◌&&◌, Option, none, some, if◌then◌else◌,
  ltb, leb, ◌==◌,
}
use gazer.Base.Int.{ℤ, pos, negsuc, ◌-ℤ◌, div_ℤ, rem_ℤ, ltb_ℤ, leb_ℤ}
use gazer.Core.Ty.{FloatPrecision}
use gazer.Core.Llvm.{Llvm}

abbrev to_signed : ℕ → ℕ → ℤ
to_signed w a = if ltb a (2 ^ (w - 1)) then pos a else pos a -ℤ pos (2 ^ w)

abbrev of_signed : ℕ → ℤ → ℕ
of_signed w (pos n) = n % 2 ^ w
of_signed w (negsuc n) = 2 ^ w - 1 - n % 2 ^ w

unfoldable pub and_rec : ℕ → ℕ → ℕ → ℕ
and_rec zero a b = 0
and_rec (suc w) a b = a % 2 * (b % 2) + 2 * and_rec w (a / 2) (b / 2)

unfoldable pub or_rec : ℕ → ℕ → ℕ → ℕ
or_rec zero a b = 0
or_rec (suc w) a b = (if a % 2 + b % 2 == 0 then 0 else 1) + 2 * or_rec w (a / 2) (b / 2)

unfoldable pub xor_rec : ℕ → ℕ → ℕ → ℕ
xor_rec zero a b = 0
xor_rec (suc w) a b = (a % 2 + b % 2) % 2 + 2 * xor_rec w (a / 2) (b / 2)

abbrev exponent_bits : FloatPrecision → ℕ
exponent_bits FloatPrecision.half = 5
exponent_bits FloatPrecision.single = 8
exponent_bits FloatPrecision.double = 11
exponent_bits FloatPrecision.quad = 15

abbrev fraction_bits : FloatPrecision → ℕ
fraction_bits FloatPrecision.half = 10
fraction_bits FloatPrecision.single = 23
fraction_bits FloatPrecision.double = 52
fraction_bits FloatPrecision.quad = 112

abbrev has_last_exponent : FloatPrecision → ℕ → Bool
has_last_exponent p b = b / 2 ^ fraction_bits p % 2 ^ exponent_bits p == 2 ^ exponent_bits p - 1

-- The quotient and the remainder by one, and those of zero, are written out.
abbrev pub signed_div : ℕ → ℕ → ℕ → Option ℕ
signed_div w a b =
    if b == 0
    then none
    else if b == 1
    then some a
    else if a == 0
    then some 0
    else some (of_signed w (div_ℤ (to_signed w a) (to_signed w b)))

abbrev pub signed_rem : ℕ → ℕ → ℕ → Option ℕ
signed_rem w a b =
    if b == 0
    then none
    else if b == 1
    then some 0
    else if a == 0
    then some 0
    else some (of_signed w (rem_ℤ (to_signed w a) (to_signed w b)))

abbrev pub shift_right : ℕ → ℕ → ℕ → ℕ
shift_right w a n = a / 2 ^ n

abbrev pub shift_right_signed : ℕ → ℕ → ℕ → ℕ
shift_right_signed w a n =
    if a == 0
    then 0
    else if ltb a (2 ^ (w - 1))
    then a / 2 ^ n
    else (a + 2 ^ w * (2 ^ n - 1)) / 2 ^ n % 2 ^ w

instance abbrev pub machine : Llvm
machine = record {
  add = λ w a b. (a + b) % 2 ^ w;
  sub = λ w a b. (a + 2 ^ w - b) % 2 ^ w;
  mul = λ w a b. a * b % 2 ^ w;
  udiv = λ w a b. if b == 0 then none else some (a / b);
  sdiv = signed_div;
  urem = λ w a b. if b == 0 then none else some (a % b);
  srem = signed_rem;
  shl = λ w a n. a * 2 ^ n % 2 ^ w;
  lshr = shift_right;
  ashr = shift_right_signed;
  lshr_by = λ w a n. if leb n w then some (shift_right w a n) else none;
  ashr_by = λ w a n. if leb n w then some (shift_right_signed w a n) else none;
  and_bits = and_rec;
  or_bits = or_rec;
  xor_bits = xor_rec;
  zext = λ w v a. if ltb w v then some a else none;
  sext = λ w v a. if ltb w v then some (of_signed v (to_signed w a)) else none;
  extract_bits = λ w a n offset. if leb (n + offset) w then some (a / 2 ^ offset % 2 ^ n) else none;
  slt = λ w a b. ltb_ℤ (to_signed w a) (to_signed w b);
  sle = λ w a b. leb_ℤ (to_signed w a) (to_signed w b);
  ult = λ w a b. ltb a b;
  ule = λ w a b. leb a b;
  sgt = λ w a b. ltb_ℤ (to_signed w b) (to_signed w a);
  sge = λ w a b. leb_ℤ (to_signed w b) (to_signed w a);
  ugt = λ w a b. ltb b a;
  uge = λ w a b. leb b a;
  is_nan = λ p b. has_last_exponent p b && not (b % 2 ^ fraction_bits p == 0);
  is_infinity = λ p b. has_last_exponent p b && b % 2 ^ fraction_bits p == 0;
}
