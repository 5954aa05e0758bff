-- ===== src/Base/Bits.antt =====
-- A mask bounds what `&` leaves, proved from the digits of a number.
use Prim.Native.Nat.{
  ℕ, zero, suc, ◌+◌, ◌*◌, ◌/◌, ◌%◌, ◌≤◌, ◌<◌, min, max, bit_and, bit_or, bit_xor, digits, differ,
  bit_and-bitwise, bit_or-bitwise, bit_xor-bitwise,
}
use mathlib.Core.Path.{◌≡◌, refl, sym, ap}
use native.Mathlib.Omega.{arith}

-- The `n` lowest digits of `a & b`.
abbrev low_and : ℕ → ℕ → ℕ → ℕ
low_and n a b = digits (λ _. zero) min n a b

low_and-le : (n a b : ℕ) → low_and n a b ≤ b
low_and-le zero zero b = omega arith
low_and-le zero (suc a) b = omega arith
low_and-le (suc n) zero b = omega arith
low_and-le (suc n) (suc a) b = omega (arith, low_and-le n (suc a / 2) (b / 2))

pub bit_and-le : (a b : ℕ) → bit_and a b ≤ b
bit_and-le a b = omega (arith, bit_and-bitwise a b, low_and-le a a b)

-- The digits do not depend on the count of digits that is more than enough.
module _ (z : ℕ → ℕ) (f : ℕ → ℕ → ℕ) where
  digits_enough : (n m a b : ℕ) → a ≤ n → a ≤ m → digits z f n a b ≡ digits z f m a b
  digits_enough zero zero a b h k = refl
  digits_enough zero (suc m) zero b h k = refl
  digits_enough zero (suc m) (suc a) b h k = absurd (omega arith)
  digits_enough (suc n) zero zero b h k = refl
  digits_enough (suc n) zero (suc a) b h k = absurd (omega arith)
  digits_enough (suc n) (suc m) zero b h k = refl
  digits_enough (suc n) (suc m) (suc a) b h k =
      ap (λ x. x * 2 + f (suc a % 2) (b % 2))
        (digits_enough n m (suc a / 2) (b / 2) (omega arith) (omega arith))

-- Each operation goes from the lowest digit on.
and_step : (a b : ℕ) → bit_and a b ≡ bit_and (a / 2) (b / 2) * 2 + min (a % 2) (b % 2)
and_step zero b = omega (arith, bit_and-bitwise zero b, bit_and-bitwise zero (b / 2))
and_step (suc a) b = omega (
  arith,
  bit_and-bitwise (suc a) b,
  bit_and-bitwise (suc a / 2) (b / 2),
  digits_enough (λ _. zero) min a (suc a / 2) (suc a / 2) (b / 2) (omega arith) (omega arith),
)

or_step : (a b : ℕ) → bit_or a b ≡ bit_or (a / 2) (b / 2) * 2 + max (a % 2) (b % 2)
or_step zero b = omega (arith, bit_or-bitwise zero b, bit_or-bitwise zero (b / 2))
or_step (suc a) b = omega (
  arith,
  bit_or-bitwise (suc a) b,
  bit_or-bitwise (suc a / 2) (b / 2),
  digits_enough (λ b. b) max a (suc a / 2) (suc a / 2) (b / 2) (omega arith) (omega arith),
)

differ-less : (a b : ℕ) → a < 2 → b < 2 → differ a b < 2
differ-less zero b h k = k
differ-less (suc a) zero h k = h
differ-less (suc a) (suc b) h k = differ-less a b (omega arith) (omega arith)

xor_step : (a b : ℕ) → bit_xor a b ≡ bit_xor (a / 2) (b / 2) * 2 + differ (a % 2) (b % 2)
xor_step zero b = omega (arith, bit_xor-bitwise zero b, bit_xor-bitwise zero (b / 2))
xor_step (suc a) b = omega (
  arith,
  bit_xor-bitwise (suc a) b,
  bit_xor-bitwise (suc a / 2) (b / 2),
  digits_enough (λ b. b) differ a (suc a / 2) (suc a / 2) (b / 2) (omega arith) (omega arith),
)

differ_same : (a b c : ℕ) → a < 2 → b < 2 → min (differ a b) c ≡ 0 → min a c ≡ min b c
differ_same zero zero c h k e = refl
differ_same zero (suc b) c h k e = omega (arith, e)
differ_same (suc a) zero c h k e = omega (arith, e)
differ_same (suc a) (suc b) c h k e = omega arith

or_and_within :
    (n a s c : ℕ) → a ≤ n → s ≤ n → bit_and s c ≡ 0 → bit_and (bit_or a s) c ≡ bit_and a c
or_and_within zero a s c h k e =
    let p : a ≡ 0 = omega arith in let q : s ≡ 0 = omega arith in rw (p, q) refl
or_and_within (suc n) a s c h k e =
    let half : bit_or a s / 2 ≡ bit_or (a / 2) (s / 2) = omega (arith, or_step a s) in
    let low : bit_or a s % 2 ≡ max (a % 2) (s % 2) = omega (arith, or_step a s) in
    let rest =
      or_and_within n (a / 2) (s / 2) (c / 2) (omega arith) (omega arith)
        (omega (arith, and_step s c, e)) in
    let step : bit_and (bit_or a s) c
        ≡ bit_and (bit_or (a / 2) (s / 2)) (c / 2) * 2 + min (max (a % 2) (s % 2)) (c % 2) =
      rw (sym half, sym low) (and_step (bit_or a s) c) in
    omega (arith, step, rest, and_step a c, and_step s c, e)

-- Setting flags does not change the others.
pub or_and : (a s c : ℕ) → bit_and s c ≡ 0 → bit_and (bit_or a s) c ≡ bit_and a c
or_and a s c e = or_and_within (a + s) a s c (omega arith) (omega arith) e

xor_and_within :
    (n a b c : ℕ) → a ≤ n → b ≤ n → bit_and (bit_xor a b) c ≡ 0 → bit_and a c ≡ bit_and b c
xor_and_within zero a b c h k e =
    let p : a ≡ 0 = omega arith in let q : b ≡ 0 = omega arith in rw (p, q) refl
xor_and_within (suc n) a b c h k e =
    let d = differ (a % 2) (b % 2) in
    let small = differ-less (a % 2) (b % 2) (omega arith) (omega arith) in
    let half : bit_xor a b / 2 ≡ bit_xor (a / 2) (b / 2) = omega (arith, xor_step a b, small) in
    let low : bit_xor a b % 2 ≡ d = omega (arith, xor_step a b, small) in
    let step : bit_and (bit_xor a b) c
        ≡ bit_and (bit_xor (a / 2) (b / 2)) (c / 2) * 2 + min d (c % 2) =
      rw (sym half, sym low) (and_step (bit_xor a b) c) in
    let rest =
      xor_and_within n (a / 2) (b / 2) (c / 2) (omega arith) (omega arith)
        (omega (arith, step, e)) in
    let digit =
      differ_same (a % 2) (b % 2) (c % 2) (omega arith) (omega arith) (omega (arith, step, e)) in
    omega (arith, rest, digit, and_step a c, and_step b c)

-- Flags that differ in none of a mask have the same of it.
pub xor_and : (a b c : ℕ) → bit_and (bit_xor a b) c ≡ 0 → bit_and a c ≡ bit_and b c
xor_and a b c e = xor_and_within (a + b) a b c (omega arith) (omega arith) e

and_sub_within : (n x m k : ℕ) → x ≤ n → k ≤ n → bit_and x m ≡ 0 → bit_and k m ≡ k → bit_and x k ≡ 0
and_sub_within zero x m k h i e d = let p : x ≡ 0 = omega arith in omega (arith, bit_and-le x k)
and_sub_within (suc n) x m k h i e d =
    let rest =
      and_sub_within n (x / 2) (m / 2) (k / 2) (omega arith) (omega arith)
        (omega (arith, and_step x m, e)) (omega (arith, and_step k m, d)) in
    omega (arith, rest, and_step x k, and_step x m, and_step k m, e, d)

-- Flags with none of a mask have none of a part of it.
pub and_sub : (x m k : ℕ) → bit_and x m ≡ 0 → bit_and k m ≡ k → bit_and x k ≡ 0
and_sub x m k e d = and_sub_within (x + k) x m k (omega arith) (omega arith) e d

and_clear_within : (n x m k : ℕ) → k ≤ n → bit_and m k ≡ 0 → bit_and (bit_and x m) k ≡ 0
and_clear_within zero x m k h e = omega (arith, bit_and-le (bit_and x m) k)
and_clear_within (suc n) x m k h e =
    let half : bit_and x m / 2 ≡ bit_and (x / 2) (m / 2) = omega (arith, and_step x m) in
    let rest =
      and_clear_within n (x / 2) (m / 2) (k / 2) (omega arith) (omega (arith, and_step m k, e)) in
    let low : min (bit_and x m % 2) (k % 2) ≡ 0 = omega (arith, and_step x m, and_step m k, e) in
    let rest' : bit_and (bit_and x m / 2) (k / 2) ≡ 0 = rw half rest in
    omega (arith, and_step (bit_and x m) k, low, rest')

-- The bits of `k` are not in what a mask without them leaves.
pub and_clear : (x m k : ℕ) → bit_and m k ≡ 0 → bit_and (bit_and x m) k ≡ 0
and_clear x m k e = and_clear_within k x m k (omega arith) e
