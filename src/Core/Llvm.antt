-- ===== src/Core/Llvm.antt =====
-- The operations of llvm::APInt and llvm::APFloat that the code calls. LLVM is no part of the
-- repository, so they are a parameter: a value of an APInt of w bits is a number below 2 ^ w, the
-- width is the first argument, and `none` is an assertion of LLVM that fails. An APFloat is its
-- bit pattern. `IsLlvm` states what LLVM documents, as far as the theorems use it.
use gazer.Base.{ℕ, ◌+◌, ◌-◌, ◌*◌, ◌/◌, ◌%◌, ◌^◌, ◌≤◌, ◌<◌, ◌≡◌, ◌≢◌, Bool, Option, some}
use gazer.Core.Ty.{FloatPrecision}

pub record Llvm : Type 0 where
  pub add : ℕ → ℕ → ℕ → ℕ
  pub sub : ℕ → ℕ → ℕ → ℕ
  pub mul : ℕ → ℕ → ℕ → ℕ
  pub udiv : ℕ → ℕ → ℕ → Option ℕ
  pub sdiv : ℕ → ℕ → ℕ → Option ℕ
  pub urem : ℕ → ℕ → ℕ → Option ℕ
  pub srem : ℕ → ℕ → ℕ → Option ℕ
  -- shl, lshr and ashr by an APInt, and lshr and ashr by an `unsigned`
  pub shl : ℕ → ℕ → ℕ → ℕ
  pub lshr : ℕ → ℕ → ℕ → ℕ
  pub ashr : ℕ → ℕ → ℕ → ℕ
  pub lshr_by : ℕ → ℕ → ℕ → Option ℕ
  pub ashr_by : ℕ → ℕ → ℕ → Option ℕ
  pub and_bits : ℕ → ℕ → ℕ → ℕ
  pub or_bits : ℕ → ℕ → ℕ → ℕ
  pub xor_bits : ℕ → ℕ → ℕ → ℕ
  -- the old width and the new one
  pub zext : ℕ → ℕ → ℕ → Option ℕ
  pub sext : ℕ → ℕ → ℕ → Option ℕ
  -- the width, the value, the number of bits and the offset
  pub extract_bits : ℕ → ℕ → ℕ → ℕ → Option ℕ
  pub slt : ℕ → ℕ → ℕ → Bool
  pub sle : ℕ → ℕ → ℕ → Bool
  pub ult : ℕ → ℕ → ℕ → Bool
  pub ule : ℕ → ℕ → ℕ → Bool
  pub sgt : ℕ → ℕ → ℕ → Bool
  pub sge : ℕ → ℕ → ℕ → Bool
  pub ugt : ℕ → ℕ → ℕ → Bool
  pub uge : ℕ → ℕ → ℕ → Bool
  pub is_nan : FloatPrecision → ℕ → Bool
  pub is_infinity : FloatPrecision → ℕ → Bool

pub record IsLlvm (l : Llvm) : Type 0 where
  pub add_lem : (w a b : ℕ) → l.add w a b ≡ (a + b) % 2 ^ w
  pub sub_lem : (w a b : ℕ) → l.sub w a b ≡ (a + 2 ^ w - b) % 2 ^ w
  pub mul_lem : (w a b : ℕ) → l.mul w a b ≡ a * b % 2 ^ w
  pub udiv_lem : (w a b q : ℕ) → l.udiv w a b ≡ some q → (b ≢ 0) × (q ≡ a / b)
  pub urem_lem : (w a b r : ℕ) → l.urem w a b ≡ some r → (b ≢ 0) × (r ≡ a % b)
  pub sdiv_one : (w a q : ℕ) → a < 2 ^ w → l.sdiv w a 1 ≡ some q → q ≡ a
  pub srem_one : (w a r : ℕ) → a < 2 ^ w → l.srem w a 1 ≡ some r → r ≡ 0
  pub sdiv_zero : (w b q : ℕ) → l.sdiv w 0 b ≡ some q → q ≡ 0
  pub srem_zero : (w b r : ℕ) → l.srem w 0 b ≡ some r → r ≡ 0
  pub shl_zero : (w b : ℕ) → l.shl w 0 b ≡ 0
  pub lshr_zero : (w b : ℕ) → l.lshr w 0 b ≡ 0
  pub ashr_zero : (w b : ℕ) → l.ashr w 0 b ≡ 0
  pub lshr_by_lem : (w a n r : ℕ) → l.lshr_by w a n ≡ some r → (n ≤ w) × (r ≡ l.lshr w a n)
  pub ashr_by_lem : (w a n r : ℕ) → l.ashr_by w a n ≡ some r → (n ≤ w) × (r ≡ l.ashr w a n)
  pub and_comm : (w a b : ℕ) → l.and_bits w a b ≡ l.and_bits w b a
  pub or_comm : (w a b : ℕ) → l.or_bits w a b ≡ l.or_bits w b a
  pub xor_comm : (w a b : ℕ) → l.xor_bits w a b ≡ l.xor_bits w b a
  pub and_zero : (w a : ℕ) → l.and_bits w a 0 ≡ 0
  pub and_ones : (w a : ℕ) → a < 2 ^ w → l.and_bits w a (2 ^ w - 1) ≡ a
  pub or_zero : (w a : ℕ) → a < 2 ^ w → l.or_bits w a 0 ≡ a
  pub or_ones : (w a : ℕ) → a < 2 ^ w → l.or_bits w a (2 ^ w - 1) ≡ 2 ^ w - 1
  pub xor_zero : (w a : ℕ) → a < 2 ^ w → l.xor_bits w a 0 ≡ a
