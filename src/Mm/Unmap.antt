-- ===== src/Mm/Unmap.antt =====
-- mm/mmap.c, munmap: remove_mt, do_vmi_align_munmap, do_vmi_munmap, do_munmap, do_vma_munmap and the
-- calls on them. Page tables and the counters of high watermarks are left out, and so is the mark
-- that a vma is detached, which an error takes back.
pub mod Body
pub mod Gather
pub mod Removed
pub mod First
pub mod Frame
pub mod Range
pub mod Calls
use vd2024_so2_private_code.Base.{
  ℕ, ◌+◌, ◌-◌, ◌/◌, ◌^◌, ◌%◌, ◌*◌, List, [], ◌∷◌, ◌++◌, Option, none, some, Bool, true, false, not,
  ◌&&◌, ◌||◌, ltb, leb, ◌==◌, if◌then◌else◌, is_set, ℤ, pos, neg, ◌==ℤ◌, add64, sub64, page_align,
  offset_in_page, enomem, einval, eintr,
}
use vd2024_so2_private_code.Base.State.{M, ◌>>=◌, ◌>>◌, ret}
use vd2024_so2_private_code.Mm.Types.{Vma, MmStruct, has, vm_locked, vm_account}
use vd2024_so2_private_code.Mm.Accounting.{MappingKinds, vm_stat_account}
use vd2024_so2_private_code.Mm.Merge.{vma_pages}
use vd2024_so2_private_code.Mm.Space.{Space, mmap_write_lock_killable, mmap_write_unlock}
use vd2024_so2_private_code.Mm.Vmas.{from}
use vd2024_so2_private_code.Mm.Split.{SplitEnv, split_vma_unchecked}

-- What munmap takes from the rest of the kernel: the errors of the tree that gathers vmas, of the
-- tree of the process and of userfaultfd, which is `none` where nobody asks for its events.
pub record UnmapEnv : Type 0 where
  pub split : SplitEnv
  pub kinds : MappingKinds
  pub mas_store_gfp : ℕ → Vma → ℤ
  pub userfaultfd_unmap_prep : Option (Vma → ℕ → ℕ → ℤ)
  pub vma_iter_clear_gfp : List Vma → ℕ → ℕ → ℤ
  pub arch_unmap : ℕ → ℕ → Space → Space
  pub untagged_addr : ℕ → ℕ
  pub task_size : ℕ
  pub interrupted : Bool

-- The vmas that were detached, how many they are, and their locked pages.
pub record Gathered : Type 0 where
  pub count : ℕ
  pub locked_vm : ℕ
  pub detached : List Vma

unfoldable pub vm_unacct_memory : ℕ → Space → Space
vm_unacct_memory pages s = record s { committed = sub64 s.committed pages }

-- The loop of remove_mt, from a number of accounted pages on, and its end.
pub remove_vmas : MappingKinds → ℕ → List Vma → Space → Space
unfolding vm_unacct_memory
remove_vmas k nr_accounted [] s = vm_unacct_memory nr_accounted s
remove_vmas k nr_accounted (vma ∷ vmas) s =
    let nrpages = vma_pages vma in
    let accounted =
      if has vma.vm_flags vm_account then add64 nr_accounted nrpages else nr_accounted in
    remove_vmas k accounted vmas
      (record s { mm = vm_stat_account k s.mm vma.vm_flags (sub64 0 nrpages) })

pub remove_mt : MappingKinds → List Vma → Space → Space
unfolding remove_vmas
remove_mt k vmas s = remove_vmas k 0 vmas s

abbrev pub unlocked : Bool → Space → Space
unlocked unlock s = if unlock then record s { mmap_lock = false } else s

module _ (e : UnmapEnv) where
  module _ (start end : ℕ) where
    pub split_first : Vma → Space → ℤ × Vma × Space
    split_first vma s =
        if ltb vma.vm_start start
        then (if ltb end vma.vm_end && leb e.split.sysctl_max_map_count s.mm.map_count
            then (neg enomem, vma, s)
            else split_vma_unchecked e.split vma start true s)
        else (pos 0, vma, s)

    pub split_end : Vma → Space → ℤ × Vma × Space
    split_end next s =
        if ltb end next.vm_end
        then split_vma_unchecked e.split next end false s
        else (pos 0, next, s)

    pub unmap_prep : Vma → ℤ
    unmap_prep next = elim e.userfaultfd_unmap_prep [
      | none ↦ pos 0
      | some prep ↦ prep next start end
    ]

    pub gathered : Vma → Gathered → Gathered
    gathered next g = record {
      count = add64 g.count 1;
      locked_vm =
          if has next.vm_flags vm_locked then add64 g.locked_vm (vma_pages next) else g.locked_vm;
      detached = g.detached ++ next ∷ [];
    }

    -- The body of the loop, after the split at the end.
    pub detach : Gathered → ℤ × Vma × Space → ℤ × Gathered × Space
    unfolding unmap_prep gathered
    detach g (error, next, s) =
        if not (error ==ℤ pos 0)
        then (error, g, s)
        else (if not (e.mas_store_gfp g.count next ==ℤ pos 0)
            then (e.mas_store_gfp g.count next, g, s)
            else (unmap_prep next, gathered next g, s))

    pub gather_one : Vma → Gathered → Space → ℤ × Gathered × Space
    unfolding split_end detach
    gather_one next g s = detach g (split_end next s)

    -- The loop on `next` and the vmas that the iterator meets after it.
    pub gather : Vma → List Vma → Gathered → Space → ℤ × Gathered × Space
    unfolding gather_one
    gather next [] g s = gather_one next g s
    gather next (after ∷ rest) g s =
        let (error, g', s') = gather_one next g s in
        elim ((error ==ℤ pos 0) && ltb after.vm_start end) [
          | true ↦ gather after rest g' s'
          | false ↦ (error, g', s')
        ]

    -- From the point of no return on: the mapped range is cleared and what was in it is accounted.
    pub cleared : Bool → Gathered → Space → Space
    unfolding remove_mt
    cleared unlock g s = unlocked unlock (
        remove_mt e.kinds g.detached (record s {
          vmas = e.split.tree.vma_iter_clear start end s.vmas;
          mm = record s.mm {
            locked_vm = sub64 s.mm.locked_vm g.locked_vm;
            map_count = sub64 s.mm.map_count g.count;
          };
        }))

    pub clear_range : Bool → ℤ × Gathered × Space → ℤ × Space
    unfolding cleared
    clear_range unlock (error, g, s) =
        if not (error ==ℤ pos 0)
        then (error, s)
        else (if not (e.vma_iter_clear_gfp s.vmas start end ==ℤ pos 0)
            then (e.vma_iter_clear_gfp s.vmas start end, s)
            else (pos 0, cleared unlock g s))

    pub gather_from : Bool → ℤ × Vma × Space → ℤ × Space
    unfolding gather clear_range
    gather_from unlock (error, first, s) =
        if not (error ==ℤ pos 0)
        then (error, s)
        else clear_range unlock (
            gather first (from first.vm_end s.vmas)
              (record { count = 0; locked_vm = 0; detached = [] }) s)

    pub do_vmi_align_munmap : Vma → Bool → Space → ℤ × Space
    unfolding split_first gather_from
    do_vmi_align_munmap vma unlock s = gather_from unlock (split_first vma s)

    pub do_vma_munmap : Vma → Bool → Space → ℤ × Space
    unfolding do_vmi_align_munmap
    do_vma_munmap vma unlock s = do_vmi_align_munmap vma unlock (e.arch_unmap start end s)

    -- Where no vma is in the range, there is nothing to do.
    pub munmap_found : Bool → Option Vma → Space → ℤ × Space
    unfolding do_vmi_align_munmap
    munmap_found unlock none s = (pos 0, unlocked unlock s)
    munmap_found unlock (some vma) s = do_vmi_align_munmap vma unlock s

    pub find_and_munmap : Bool → Space → ℤ × Space
    unfolding munmap_found
    find_and_munmap unlock s =
        let s' = e.arch_unmap start end s in
        munmap_found unlock (e.split.tree.vma_find start end s'.vmas) s'

  pub do_vmi_munmap : ℕ → ℕ → Bool → Space → ℤ × Space
  unfolding find_and_munmap
  do_vmi_munmap start len unlock s =
      let end = add64 start (page_align len) in
      if is_set (offset_in_page start) || ltb e.task_size start || ltb (sub64 e.task_size start) len
      then (neg einval, s)
      else (if end == start then (neg einval, s) else find_and_munmap start end unlock s)

  pub do_munmap : ℕ → ℕ → Space → ℤ × Space
  unfolding do_vmi_munmap
  do_munmap start len s = do_vmi_munmap start len false s

  pub unlock_munmap : Bool → ℤ × Space → Option (ℤ × Space)
  unfolding mmap_write_unlock
  unlock_munmap unlock (r, s) =
      if not (r ==ℤ pos 0) || not unlock then (do mmap_write_unlock; ret r) s else some (r, s)

  pub munmap_locked : ℕ → ℕ → Bool → M Space ℤ
  unfolding do_vmi_munmap unlock_munmap
  munmap_locked start len unlock s = unlock_munmap unlock (do_vmi_munmap start len unlock s)

  -- __vm_munmap
  pub vm_munmap_range : ℕ → ℕ → Bool → M Space ℤ
  unfolding mmap_write_lock_killable munmap_locked
  vm_munmap_range start len unlock = do
    locked ← mmap_write_lock_killable e.interrupted
    if locked then munmap_locked start len unlock else ret (neg eintr)

  pub vm_munmap : ℕ → ℕ → M Space ℤ
  unfolding vm_munmap_range
  vm_munmap start len = vm_munmap_range start len false

  pub munmap : ℕ → ℕ → M Space ℤ
  unfolding vm_munmap_range
  munmap addr len = vm_munmap_range (e.untagged_addr addr) len true
