-- ===== src/Base/Outcome.antt =====
-- What the C++ does where a function has no value: a failed `assert`, a `cast` to another class, a
-- null pointer followed, `llvm_unreachable`, and undefined behaviour of the built-in integers.
use mathlib.Core.Path.{◌≡◌, refl}
use mathlib.Core.Bool.{Bool, true, false}
use mathlib.Core.Option.{Option, none, some}

pub data Fault : Type 0 where
  assertion bad_cast null_pointer unreachable undefined_behaviour : Fault
  -- the fuel of a model of a loop or of a recursion ran out
  out_of_fuel : Fault

-- A fault, or the value that the function returned.
pub data Result {ℓ} (V : Type ℓ) : Type ℓ where
  fault : Fault → Result V
  ok : V → Result V

-- LLVM's failed assertions come as `none`.
abbrev pub or_fault {ℓ} : {V : Type ℓ} → Fault → Option V → Result V
or_fault failure (some v) = ok v
or_fault failure none = fault failure

-- Sequencing: after a fault nothing runs.
infixl 5 ◌>>=◌
abbrev pub ◌>>=◌ {κ ℓ} : {V : Type κ} {W : Type ℓ} → Result V → (V → Result W) → Result W
fault failure >>= next = fault failure
ok v >>= next = next v

-- Where the whole has a value, the first step has one, and the rest gives the whole from there.
pub >>=-eq-ok {κ ℓ} :
    {V : Type κ} {W : Type ℓ} (first : Result V) (next : V → Result W) {w : W}
    → (first >>= next) ≡ ok w
    → (v : V) × (first ≡ ok v) × (next v ≡ ok w)
>>=-eq-ok (fault failure) next gives = cc
>>=-eq-ok (ok v) next gives = (v, refl, gives)

infixl 5 ◌>>◌
abbrev pub ◌>>◌ {ℓ} : {W : Type ℓ} → Result (Unit {0}) → Result W → Result W
check >> rest = check >>= λ _. rest

-- `assert (test)`
abbrev pub require : Bool → Result (Unit {0})
require test = elim test [ false ↦ fault Fault.assertion | true ↦ ok tt ]

pub require-eq-ok : (test : Bool) {u : Unit {0}} → require test ≡ ok u → test ≡ true
require-eq-ok false gives = cc
require-eq-ok true gives = refl

pub or_fault-eq-ok {ℓ} :
    {A : Type ℓ} (e : Fault) (o : Option A) {a : A} → or_fault e o ≡ ok a → o ≡ some a
or_fault-eq-ok e none h = cc
or_fault-eq-ok e (some a) h = cc
