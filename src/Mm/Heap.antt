-- ===== src/Mm/Heap.antt =====
-- mm/mmap.c, do_brk_flags and vm_brk_flags: anonymous memory at a given address, for the heap and
-- for the loaders of programs. A vma is stored with VM_SOFTDIRTY, which the source sets on it last.
pub mod Grow
pub mod Flags
pub mod Extend
pub mod Ops
pub mod Calls
pub mod Brk
use vd2024_so2_private_code.Base.{
  ℕ, ◌+◌, ◌-◌, ◌/◌, ◌^◌, ◌%◌, ◌*◌, List, [], Option, none, some, Bool, true, false, not, ◌&&◌, ltb,
  leb, ◌==◌, if◌then◌else◌, is_some, is_set, ℤ, pos, neg, negsuc, ◌==ℤ◌, add64, sub64, shr_page,
  page_align, bit_or, bit_and, enomem, einval, eintr,
}
use vd2024_so2_private_code.Base.State.{M, ◌>>=◌, ◌>>◌, ret, gets, puts}
use vd2024_so2_private_code.Mm.Types.{
  Vma, MmStruct, Rlimits, has, complement, vm_locked, vm_account, vm_softdirty, vm_exec,
}
use vd2024_so2_private_code.Mm.Accounting.{may_expand_vm}
use vd2024_so2_private_code.Mm.Merge.{MergeEnv, can_vma_merge_after}
use vd2024_so2_private_code.Mm.Brk.{BrkEnv, check_brk_limits, mm_populate}
use vd2024_so2_private_code.Mm.Space.{Space, mmap_write_lock_killable, mmap_write_unlock}
use vd2024_so2_private_code.Mm.Split.{count_vma, init_vma_prep, vma_complete}
use vd2024_so2_private_code.Mm.Unmap.{UnmapEnv, vm_unacct_memory, do_vmi_munmap}

-- What the growth of the heap takes from the rest of the kernel: the overcommit accounting, which
-- charges the pages that it does not refuse, whether memory is given for a vma and for the tree, and
-- the protection for flags.
pub record HeapEnv : Type 0 where
  pub unmap : UnmapEnv
  pub brk : BrkEnv
  pub merge : MergeEnv
  pub vm_data_default_flags : ℕ
  pub security_vm_enough_memory_mm : ℕ → ℕ → Bool
  pub vm_area_alloc : List Vma → Bool
  pub vma_iter_store_gfp : List Vma → Vma → Bool
  pub vm_get_page_prot : ℕ → ℕ

module _ (e : HeapEnv) where
  pub brk_flags : MmStruct → ℕ → ℕ
  brk_flags mm flags =
      bit_or flags (bit_or (bit_or e.vm_data_default_flags vm_account) mm.def_flags)

  -- `out:`
  pub count_brk : ℕ → ℕ → Space → Space
  count_brk len flags s =
      let pages = shr_page len in
      record s {
        mm = record s.mm {
          total_vm = add64 s.mm.total_vm pages;
          data_vm = add64 s.mm.data_vm pages;
          locked_vm = if has flags vm_locked then add64 s.mm.locked_vm pages else s.mm.locked_vm;
        };
      }

  -- `unacct_fail:`
  pub unacct_fail : ℕ → Space → ℤ × Space
  unacct_fail len s = (neg enomem, vm_unacct_memory (shr_page len) s)

  pub can_extend : Vma → ℕ → ℕ → Bool
  can_extend vma addr flags =
      vma.vm_end == addr
      && not (is_some vma.vm_policy)
      && can_vma_merge_after e.merge vma
          (record {
            vm_flags = flags;
            anon_vma = none;
            file = none;
            vm_userfaultfd_ctx = none;
            anon_name = none;
          })
          (shr_page addr)

  pub extended_vma : Vma → ℕ → ℕ → Vma
  extended_vma vma addr len = record vma {
    vm_end = add64 addr len;
    vm_flags = bit_or vma.vm_flags vm_softdirty;
  }

  pub extend : Vma → ℕ → ℕ → ℕ → Space → ℤ × Space
  unfolding count_brk unacct_fail extended_vma
  extend vma addr len flags s =
      let vma' = extended_vma vma addr len in
      if e.unmap.split.vma_iter_prealloc s.vmas vma'
      then unacct_fail len s
      else (let stored = record s { vmas = e.unmap.split.tree.vma_iter_store vma' s.vmas } in
          (pos 0, count_brk len flags (vma_complete e.unmap.split.tree (init_vma_prep vma) stored)))

  pub anonymous_vma : ℕ → ℕ → ℕ → Vma
  anonymous_vma addr len flags = record {
    vm_start = addr;
    vm_end = add64 addr len;
    vm_pgoff = shr_page addr;
    vm_flags = bit_or flags vm_softdirty;
    vm_page_prot = e.vm_get_page_prot flags;
    vm_file = none;
    vm_ops = none;
    anon_vma = none;
    anon_vma_chain = [];
    vm_policy = none;
    vm_userfaultfd_ctx = none;
    anon_name = none;
  }

  pub create : ℕ → ℕ → ℕ → Space → ℤ × Space
  unfolding count_brk unacct_fail anonymous_vma
  create addr len flags s =
      let vma = anonymous_vma addr len flags in
      if not (e.vm_area_alloc s.vmas)
      then unacct_fail len s
      else (if e.vma_iter_store_gfp s.vmas vma
          then unacct_fail len s
          else (let stored = record s { vmas = e.unmap.split.tree.vma_iter_store vma s.vmas } in
              (pos 0, count_brk len flags (count_vma stored))))

  pub extend_or_create : Option Vma → ℕ → ℕ → ℕ → Space → ℤ × Space
  unfolding can_extend extend create
  extend_or_create none addr len flags s = create addr len flags s
  extend_or_create (some vma) addr len flags s =
      if can_extend vma addr flags then extend vma addr len flags s else create addr len flags s

  pub do_brk_flags : Option Vma → ℕ → ℕ → ℕ → Space → ℤ × Space
  unfolding brk_flags extend_or_create
  do_brk_flags vma addr len flags s =
      let pages = shr_page len in
      let flags' = brk_flags s.mm flags in
      if not (may_expand_vm e.unmap.kinds e.brk.rlimits s.mm flags' pages)
      then (neg enomem, s)
      else (if ltb e.unmap.split.sysctl_max_map_count s.mm.map_count
          then (neg enomem, s)
          else (if e.security_vm_enough_memory_mm pages s.committed
              then (neg enomem, s)
              else extend_or_create vma addr len flags'
                  (record s { committed = add64 s.committed pages })))

  -- `-error` where check_brk_limits gives a word.
  pub as_int : ℕ → ℤ
  as_int word = if is_set word then neg (sub64 0 word) else pos 0

  pub unlock_and : ℤ → M Space ℤ
  unfolding mmap_write_unlock
  unlock_and r = do mmap_write_unlock; ret r

  pub populate_heap : ℕ → ℕ → ℤ × Space → Option (ℤ × Space)
  unfolding mmap_write_unlock
  populate_heap addr len (r, s) =
      if has s.mm.def_flags vm_locked && (r ==ℤ pos 0)
      then (do mmap_write_unlock; mm_populate addr len; ret r) s
      else (do mmap_write_unlock; ret r) s

  pub brk_after_munmap : ℕ → ℕ → ℕ → ℤ × Space → Option (ℤ × Space)
  unfolding do_brk_flags unlock_and populate_heap
  brk_after_munmap addr len flags (r, s) =
      if not (r ==ℤ pos 0)
      then unlock_and r s
      else populate_heap addr len
          (do_brk_flags (e.unmap.split.tree.vma_prev addr s.vmas) addr len flags s)

  pub brk_with_limits : ℕ → ℕ → ℕ → Option ℕ → M Space ℤ
  unfolding as_int unlock_and brk_after_munmap
  brk_with_limits addr len flags none s = none
  brk_with_limits addr len flags (some error) s =
      if is_set error
      then unlock_and (as_int error) s
      else brk_after_munmap addr len flags (do_vmi_munmap e.unmap addr len false s)

  pub lock_and_brk : ℕ → ℕ → ℕ → M Space ℤ
  unfolding brk_with_limits mmap_write_lock_killable
  lock_and_brk addr len flags = do
    locked ← mmap_write_lock_killable e.unmap.interrupted
    λ s.
        if locked
        then brk_with_limits addr len flags (check_brk_limits e.brk s.mm addr len) s
        else some (neg eintr, s)

  pub vm_brk_flags : ℕ → ℕ → ℕ → M Space ℤ
  unfolding lock_and_brk
  vm_brk_flags addr request flags =
      let len = page_align request in
      if ltb len request
      then ret (neg enomem)
      else (if len == 0
          then ret (pos 0)
          else (if is_set (bit_and flags (complement vm_exec))
              then ret (neg einval)
              else lock_and_brk addr len flags))
