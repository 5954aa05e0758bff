-- ===== src/Mm/Space.antt =====
-- The address space of a process as the calls of mm/mmap.c change it.
use vd2024_so2_private_code.Base.{ℕ, List, Bool, true, false, none, some}
use vd2024_so2_private_code.Base.State.{M}
use vd2024_so2_private_code.Limits.{Kernel}
use vd2024_so2_private_code.Mm.Types.{Vma, MmStruct}

-- Its counters, its vmas in the order that an iterator meets them, its write lock, the limits of
-- main.c, the ranges that were populated, and the pages that the overcommit accounting has charged.
pub record Space : Type 0 where
  pub mm : MmStruct
  pub vmas : List Vma
  pub mmap_lock : Bool
  pub kernel : Kernel
  pub populated : List (ℕ × ℕ)
  pub committed : ℕ

-- Whether the lock was taken.
unfoldable pub mmap_write_lock_killable : Bool → M Space Bool
mmap_write_lock_killable interrupted s = elim interrupted [
  | true ↦ some (false, s)
  | false ↦ elim s.mmap_lock [ true ↦ none | false ↦ some (true, record s { mmap_lock = true }) ]
]

unfoldable pub mmap_write_unlock : M Space (Unit {0})
mmap_write_unlock s = elim s.mmap_lock [
  | true ↦ some (tt, record s { mmap_lock = false })
  | false ↦ none
]
