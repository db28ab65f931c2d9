-- ===== src/Common/Fallible.antt =====
-- The outcome of Rust code that may fail with an error or panic.
use mathlib.Core.Path.{◌≡◌, refl}
use Prim.Native.Nat.{ℕ, ◌+◌, ◌-◌, ◌*◌, ◌^◌}
use mathlib.Core.Bool.{Bool, true, false}
use mathlib.Core.Option.{Option, none, some}
use funderberker.Common.Tests.{ltb, leb, if◌then◌else◌}

-- `ok` and `err` are the cases of `Result`; `panic` stands for a failed assertion, `unwrap` or
-- overflow check, and for `unreachable!`.
pub data Outcome (E A : Type 0) : Type 0 where
  ok : A → Outcome E A
  err : E → Outcome E A
  panic : Outcome E A

infixl 5 ◌>>=◌
abbrev pub ◌>>=◌ : {E A B : Type 0} → Outcome E A → (A → Outcome E B) → Outcome E B
panic >>= next = panic
err why >>= next = err why
ok result >>= next = next result

infixl 5 ◌>>◌
abbrev pub ◌>>◌ : {E B : Type 0} → Outcome E (Unit {0}) → Outcome E B → Outcome E B
check >> rest = check >>= λ passed. rest

-- `assert!`
abbrev pub assert : {E : Type 0} → Bool → Outcome E (Unit {0})
assert true = ok tt
assert false = panic

-- an early `return Err(e)` when the test holds
abbrev pub reject : {E : Type 0} → Bool → E → Outcome E (Unit {0})
reject true e = err e
reject false e = ok tt

-- `unwrap` of an `Option`
abbrev pub unwrap_option : {E A : Type 0} → Option A → Outcome E A
unwrap_option none = panic
unwrap_option (some a) = ok a

-- `ok_or`
abbrev pub ok_or : {E A : Type 0} → Option A → E → Outcome E A
ok_or none e = err e
ok_or (some a) e = ok a

-- `unwrap` of a `Result`
abbrev pub unwrap : {E F A : Type 0} → Outcome E A → Outcome F A
unwrap (ok a) = ok a
unwrap (err e) = panic
unwrap panic = panic

abbrev pub map_err : {E F A : Type 0} → (E → F) → Outcome E A → Outcome F A
map_err f (ok a) = ok a
map_err f (err e) = err (f e)
map_err f panic = panic

-- `usize` has 64 bits.
abbrev pub usize_mod : ℕ
usize_mod = 2 ^ 64

-- Arithmetic on `usize` with the overflow checks of the development profile.
abbrev pub add_usize : {E : Type 0} → ℕ → ℕ → Outcome E ℕ
add_usize a b = if ltb (a + b) usize_mod then ok (a + b) else panic

abbrev pub sub_usize : {E : Type 0} → ℕ → ℕ → Outcome E ℕ
sub_usize a b = if leb b a then ok (a - b) else panic

abbrev pub mul_usize : {E : Type 0} → ℕ → ℕ → Outcome E ℕ
mul_usize a b = if ltb (a * b) usize_mod then ok (a * b) else panic

-- A chain that succeeds: its first step did, and so did the rest.
pub >>=-eq-ok :
    {E A B : Type 0} (first : Outcome E A) (next : A → Outcome E B) {result : B}
    → (first >>= next) ≡ ok result
    → (a : A) × (first ≡ ok a) × (next a ≡ ok result)
>>=-eq-ok panic next h = cc
>>=-eq-ok (err why) next h = cc
>>=-eq-ok (ok a) next h = (a, refl, h)
