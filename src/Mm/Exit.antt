-- ===== src/Mm/Exit.antt =====
-- mm/mmap.c, exit_mmap: the end of an address space. Page tables are left out.
pub mod Answer
use vd2024_so2_private_code.Base.{
  ℕ, suc, ◌+◌, ◌/◌, ◌^◌, ◌%◌, List, [], ◌∷◌, Option, none, some, Bool, true, false, not, ◌==◌,
  if◌then◌else◌, add64,
}
use vd2024_so2_private_code.Base.State.{M, ◌>>=◌, ◌>>◌, ret, gets, puts}
use vd2024_so2_private_code.Mm.Types.{Vma, MmStruct, has, vm_account}
use vd2024_so2_private_code.Mm.Merge.{vma_pages}
use vd2024_so2_private_code.Mm.Space.{Space, mmap_write_unlock}
use vd2024_so2_private_code.Mm.Unmap.{vm_unacct_memory}

-- Whether an entry of the tree is the mark that dup_mmap left when it ran out of memory.
pub record ExitEnv : Type 0 where
  pub xa_is_zero : Vma → Bool

-- `mmap_read_lock`, `mmap_write_lock`: to take a lock that is held is a fault.
pub lock_mmap : M Space (Unit {0})
lock_mmap s = if s.mmap_lock then none else some (tt, record s { mmap_lock = true })

-- `destroy:`
pub destroy : ℕ → M Space (Unit {0})
unfolding vm_unacct_memory
destroy nr_accounted = do
  puts (λ s. record s { vmas = [] })
  mmap_write_unlock
  puts (vm_unacct_memory nr_accounted)

-- The BUG_ON is a fault.
pub close_all : ℕ × ℕ → M Space (Unit {0})
unfolding destroy
close_all (count, nr_accounted) s = if count == s.mm.map_count then destroy nr_accounted s else none

module _ (e : ExitEnv) where
  -- The loop on a vma and those after it: the number of vmas and of accounted pages.
  pub close_vmas : ℕ → ℕ → Vma → List Vma → ℕ × ℕ
  close_vmas count nr_accounted vma [] = (
    add64 count 1,
    if has vma.vm_flags vm_account then add64 nr_accounted (vma_pages vma) else nr_accounted,
  )
  close_vmas count nr_accounted vma (next ∷ rest) =
      let accounted =
        if has vma.vm_flags vm_account then add64 nr_accounted (vma_pages vma) else nr_accounted in
      let more = close_vmas (add64 count 1) accounted next rest in
      if e.xa_is_zero next then (add64 count 1, accounted) else more

  pub exit_found : List Vma → M Space (Unit {0})
  unfolding lock_mmap destroy close_all close_vmas
  exit_found [] = do mmap_write_unlock; lock_mmap; destroy 0
  exit_found (vma ∷ rest) =
      if e.xa_is_zero vma
      then (do mmap_write_unlock; lock_mmap; destroy 0)
      else (do mmap_write_unlock; lock_mmap; close_all (close_vmas 0 0 vma rest))

  pub exit_mmap : M Space (Unit {0})
  unfolding exit_found lock_mmap
  exit_mmap = do lock_mmap; λ s. exit_found s.vmas s
