-- ===== src/Base/Words.antt =====
-- Machine words of the 64-bit kernel as native numbers below 2 ^ 64, pages of 4096 bytes, and the
-- macros on them that the source takes from the kernel's headers.
use Prim.Native.Nat.{ℕ, ◌+◌, ◌-◌, ◌*◌, ◌/◌, ◌%◌, ◌^◌, ◌≤◌, ◌<◌}
use mathlib.Core.Path.{◌≡◌}
use mathlib.Core.Bool.{Bool}
use native.Mathlib.Omega.{arith}
use vd2024_so2_private_code.Base.Tests.{leb}

-- ULONG_MAX + 1
abbrev pub word : ℕ
word = 2 ^ 64

-- `unsigned long` addition and subtraction wrap.
abbrev pub add64 : ℕ → ℕ → ℕ
add64 a b = (a + b) % 2 ^ 64

abbrev pub sub64 : ℕ → ℕ → ℕ
sub64 a b = (a + 2 ^ 64 - b) % 2 ^ 64

abbrev pub page_size : ℕ
page_size = 4096

-- `x << PAGE_SHIFT`, `x >> PAGE_SHIFT`
abbrev pub shl_page : ℕ → ℕ
shl_page x = x * 4096 % 2 ^ 64

abbrev pub shr_page : ℕ → ℕ
shr_page x = x / 4096

-- PAGE_ALIGN(x), which is `(x + PAGE_SIZE - 1) & PAGE_MASK`; `x & PAGE_MASK`; offset_in_page(x).
abbrev pub page_align : ℕ → ℕ
page_align x = (x + 4095) % 2 ^ 64 / 4096 * 4096

abbrev pub page_mask : ℕ → ℕ
page_mask x = x / 4096 * 4096

abbrev pub offset_in_page : ℕ → ℕ
offset_in_page x = x % 4096

-- IS_ERR_VALUE(x): the top 4095 words stand for the negative error numbers.
abbrev pub is_err_value : ℕ → Bool
is_err_value x = leb (2 ^ 64 - 4095) x

-- `-e` as an `unsigned long`.
abbrev pub err64 : ℕ → ℕ
err64 e = 2 ^ 64 - e

-- The error numbers of errno-base.h and errno.h that the code returns.
abbrev pub eperm : ℕ
eperm = 1

abbrev pub esrch : ℕ
esrch = 3

abbrev pub eintr : ℕ
eintr = 4

abbrev pub ebadf : ℕ
ebadf = 9

abbrev pub eagain : ℕ
eagain = 11

abbrev pub enomem : ℕ
enomem = 12

abbrev pub eacces : ℕ
eacces = 13

abbrev pub efault : ℕ
efault = 14

abbrev pub eexist : ℕ
eexist = 17

abbrev pub enodev : ℕ
enodev = 19

abbrev pub einval : ℕ
einval = 22

abbrev pub etxtbsy : ℕ
etxtbsy = 26

abbrev pub enosys : ℕ
enosys = 38

abbrev pub eoverflow : ℕ
eoverflow = 75

abbrev pub eopnotsupp : ℕ
eopnotsupp = 95

pub page_align_bounds :
    (x : ℕ)
    → x + 4095 < 2 ^ 64
    → (x ≤ page_align x) × (page_align x < x + 4096) × (page_align x % 4096 ≡ 0)
page_align_bounds x h = omega arith
