-- ===== src/Mm/Heap/Brk.antt =====
-- The operations that brk ends in, filled by do_vma_munmap and do_brk_flags.
use vd2024_so2_private_code.Base.{ℕ, Option, none, some, true, arith, shr_page, add64}
use vd2024_so2_private_code.Mm.Types.{Vma}
use vd2024_so2_private_code.Mm.Space.{Space}
use vd2024_so2_private_code.Mm.Brk.{BrkOps, IsBrkOps}
use vd2024_so2_private_code.Mm.Split.{
  count_vma, init_vma_prep, init_multi_vma_prep, vma_complete, store_inserted,
}
use vd2024_so2_private_code.Mm.Split.Frame.{IsFramed}
use vd2024_so2_private_code.Mm.Unmap.{vm_unacct_memory, do_vma_munmap}
use vd2024_so2_private_code.Mm.Unmap.Frame.{do_vma_munmap-Drops}
use vd2024_so2_private_code.Mm.Unmap.Calls.{IsUnmapEnv}
use vd2024_so2_private_code.Mm.Heap.{
  HeapEnv, brk_flags, count_brk, unacct_fail, extend, create, extend_or_create, do_brk_flags,
}

module _ (e : HeapEnv) where
  -- brk asks do_vma_munmap to drop the lock.
  unfoldable pub heap_ops : BrkOps
  heap_ops = record {
    do_vma_munmap = λ vma start end s. do_vma_munmap e.unmap start end vma true s;
    do_brk_flags = λ vma addr len flags s. do_brk_flags e vma addr len flags s;
  }

  extend-IsFramed :
      (vma : Vma) (addr len flags : ℕ) (s : Space) → IsFramed s (extend e vma addr len flags s).1
  unfolding extend count_brk unacct_fail vm_unacct_memory vma_complete init_vma_prep
      init_multi_vma_prep store_inserted
  extend-IsFramed vma addr len flags s = ground arith

  create-IsFramed : (addr len flags : ℕ) (s : Space) → IsFramed s (create e addr len flags s).1
  unfolding create count_brk unacct_fail vm_unacct_memory count_vma
  create-IsFramed addr len flags s = ground arith

  extend_or_create-IsFramed :
      (vma : Option Vma) (addr len flags : ℕ) (s : Space)
      → IsFramed s (extend_or_create e vma addr len flags s).1
  unfolding extend_or_create
  extend_or_create-IsFramed none addr len flags s = create-IsFramed addr len flags s
  extend_or_create-IsFramed (some vma) addr len flags s =
      ground (arith, create-IsFramed addr len flags s, extend-IsFramed vma addr len flags s)

  do_brk_flags-IsFramed :
      (vma : Option Vma) (addr len flags : ℕ) (s : Space)
      → IsFramed s (do_brk_flags e vma addr len flags s).1
  unfolding do_brk_flags
  do_brk_flags-IsFramed vma addr len flags s =
      let t = record s { committed = add64 s.committed (shr_page len) } in
      ground (arith, extend_or_create-IsFramed vma addr len (brk_flags e s.mm flags) t)

  -- The operations are as brk relies on: do_vma_munmap drops the lock on success only, do_brk_flags
  -- keeps it, and neither touches the break or the limits of main.c.
  pub heap_ops-IsBrkOps : IsUnmapEnv e.unmap → IsBrkOps heap_ops
  unfolding heap_ops
  heap_ops-IsBrkOps env = record {
    munmap_lock = λ v a b s.
        let (r, s') = do_vma_munmap e.unmap a b v true s in
        let drops = do_vma_munmap-Drops e.unmap a b v true s (env.arch a b s) in
        ground (arith, drops.0);
    munmap_brk = λ v a b s.
        let (lock, kernel, brk, def_flags) =
          do_vma_munmap-Drops e.unmap a b v true s (env.arch a b s) in
        (brk, kernel);
    flags_keep = λ v a l f s.
        let (lock, kernel, brk, def_flags) = do_brk_flags-IsFramed v a l f s in (lock, brk, kernel);
  }
