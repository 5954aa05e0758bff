-- ===== src/Base/Int.antt =====
-- Signed integers, for `pid_t`, `int` and the negative error codes that the kernel returns.
use Prim.Native.Nat.{ℕ, ◌-◌}
use mathlib.Core.Path.{◌≡◌}
use mathlib.Core.Logic.{◌↔◌}
use mathlib.Core.Bool.{Bool, true, false}
use native.Mathlib.Omega.{arith}
use vd2024_so2_private_code.Base.Tests.{◌==◌, ==_self}

-- `negsuc n` is -(n + 1).
pub data ℤ : Type 0 where
  pos : ℕ → ℤ
  negsuc : ℕ → ℤ

abbrev pub is_neg : ℤ → Bool
is_neg (pos n) = false
is_neg (negsuc n) = true

-- `-e`, for a positive error number `e`.
abbrev pub neg : ℕ → ℤ
neg e = negsuc (e - 1)

infix 50 ◌==ℤ◌
abbrev pub ◌==ℤ◌ : ℤ → ℤ → Bool
pos a ==ℤ pos b = a == b
negsuc a ==ℤ negsuc b = a == b
_ ==ℤ _ = false

pub ==ℤ_eq : (a b : ℤ) → (a ==ℤ b) ≡ true → a ≡ b
==ℤ_eq (pos a) (pos b) h = ground arith
==ℤ_eq (pos a) (negsuc b) h = ground arith
==ℤ_eq (negsuc a) (pos b) h = ground arith
==ℤ_eq (negsuc a) (negsuc b) h = ground arith

pub ==ℤ_self : (a : ℤ) → (a ==ℤ a) ≡ true
==ℤ_self (pos a) = ==_self a
==ℤ_self (negsuc a) = ==_self a

pub ==ℤ_iff : (a b : ℤ) → ((a ==ℤ b) ≡ true) ↔ (a ≡ b)
==ℤ_iff a b = (==ℤ_eq a b, λ e. rw e (==ℤ_self b))
