-- ===== src/Mm/Stack.antt =====
-- mm/mmap.c, the growth of a stack on an architecture where stacks grow downwards.
pub mod Growth
pub mod Fault
use vd2024_so2_private_code.Base.{
  ℕ, ◌+◌, ◌-◌, ◌*◌, ◌^◌, List, [], ◌∷◌, Option, none, some, Bool, true, false, not, ◌&&◌, ◌||◌, ltb,
  leb, if◌then◌else◌, ℤ, pos, neg, ◌==ℤ◌, add64, sub64, page_mask, shr_page, eperm, enomem, efault,
}
use vd2024_so2_private_code.Base.State.{M, ◌>>=◌, ◌>>◌, ret, puts}
use vd2024_so2_private_code.Mm.Types.{Vma, MmStruct, Rlimits, has, vm_growsdown, vm_locked}
use vd2024_so2_private_code.Mm.Tree.{VmaTree}
use vd2024_so2_private_code.Mm.Area.{find_vma_prev}
use vd2024_so2_private_code.Mm.Accounting.{
  MappingKinds, StackEnv, acct_stack_growth, vm_stat_account,
}

pub data MmapLock : Type 0 where
  unlocked read_locked write_locked : MmapLock

-- The address space of a growing stack: its counters, its lock, the lock of the stack's anon_vma,
-- and the vmas that were stored in the tree, the last first.
pub record Stack : Type 0 where
  pub mm : MmStruct
  pub mmap_lock : MmapLock
  pub anon_lock : Bool
  pub stored : List Vma

-- What the code takes from the kernel. `raced` is what others did to the vma until its anon_vma is
-- locked; the two failures are those of mas_preallocate and anon_vma_prepare.
pub record GrowEnv : Type 0 where
  pub tree : VmaTree
  pub kinds : MappingKinds
  pub stack_env : StackEnv
  pub rlimits : Rlimits
  pub mmap_min_addr : ℕ
  pub first_user_address : ℕ
  pub stack_guard_gap : ℕ
  pub vma_is_accessible : Vma → Bool
  pub mas_preallocate : Bool
  pub anon_vma_prepare : Bool
  pub raced : Vma → Vma
  pub interrupted : Bool

anon_vma_lock_write : M Stack (Unit {0})
anon_vma_lock_write s = elim s.anon_lock [
  | true ↦ none
  | false ↦ some (tt, record s { anon_lock = true })
]

anon_vma_unlock_write : M Stack (Unit {0})
anon_vma_unlock_write s = elim s.anon_lock [
  | true ↦ some (tt, record s { anon_lock = false })
  | false ↦ none
]

module _ (e : GrowEnv) where
  -- Whether the page at `address` is too near to the vma before.
  pub near_prev : ℕ → Option Vma → Bool
  near_prev address none = false
  near_prev address (some prev) =
      not (has prev.vm_flags vm_growsdown)
      && e.vma_is_accessible prev
      && ltb (sub64 address prev.vm_end) e.stack_guard_gap

  -- Under the page table lock: the counters, the vma and the tree.
  pub store_growth : Vma → ℕ → ℕ → Stack → Vma × Stack
  store_growth vma address grow s =
      let locked =
        if has vma.vm_flags vm_locked
        then record s.mm { locked_vm = add64 s.mm.locked_vm grow }
        else s.mm in
      let grown = record vma { vm_start = address; vm_pgoff = sub64 vma.vm_pgoff grow } in
      (
        grown,
        record s {
          mm = vm_stat_account e.kinds locked vma.vm_flags grow;
          stored = grown ∷ s.stored;
        },
      )

  -- From the test that somebody else might have expanded it already on: the error and the vma.
  pub grow_locked : Vma → ℕ → Stack → (ℤ × Vma) × Stack
  unfolding store_growth
  grow_locked vma address s =
      let size = sub64 vma.vm_end address in
      let grow = shr_page (sub64 vma.vm_start address) in
      let error = acct_stack_growth e.kinds e.stack_env e.rlimits s.mm vma size grow in
      if not (ltb address vma.vm_start)
      then ((pos 0, vma), s)
      else (if not (leb grow vma.vm_pgoff)
          then ((neg enomem, vma), s)
          else (if not (error ==ℤ pos 0)
              then ((error, vma), s)
              else (let (grown, s') = store_growth vma address grow s in ((pos 0, grown), s'))))

  pub expand_locked : Vma → ℕ → M Stack (ℤ × Vma)
  unfolding anon_vma_lock_write anon_vma_unlock_write grow_locked
  expand_locked vma address = do
    anon_vma_lock_write
    answer ← λ s. some (grow_locked vma address s)
    anon_vma_unlock_write
    ret answer

  -- The error, and the vma as it is then.
  pub expand_downwards : Vma → ℕ → M Stack (ℤ × Vma)
  unfolding near_prev expand_locked
  expand_downwards vma address =
      let page = page_mask address in
      if not (has vma.vm_flags vm_growsdown)
      then ret (neg efault, vma)
      else (if ltb page e.mmap_min_addr || ltb page e.first_user_address
          then ret (neg eperm, vma)
          else (if near_prev page (e.tree.mas_prev vma.vm_start)
              then ret (neg enomem, vma)
              else (if not e.mas_preallocate
                  then ret (neg enomem, vma)
                  else (if not e.anon_vma_prepare
                      then ret (neg enomem, vma)
                      else expand_locked (e.raced vma) page))))

  pub expand_stack_locked : Vma → ℕ → M Stack (ℤ × Vma)
  unfolding expand_downwards
  expand_stack_locked vma address = expand_downwards vma address

  mmap_read_unlock : M Stack (Unit {0})
  mmap_read_unlock s = elim s.mmap_lock [
    | read_locked ↦ some (tt, record s { mmap_lock = unlocked })
    | unlocked ↦ none
    | write_locked ↦ none
  ]

  -- The locks that expand_stack holds at its end, and what it returns.
  pub finish_expand : Option Vma → M Stack (Option Vma)
  finish_expand vma s = elim s.mmap_lock [
    | write_locked ↦ elim vma [
      | none ↦ some (none, record s { mmap_lock = unlocked })
      | some v ↦ some (some v, record s { mmap_lock = read_locked })
    ]
    | unlocked ↦ none
    | read_locked ↦ none
  ]

  -- `vma_expand_up` is -EFAULT here, so the vma before is never taken.
  pub find_and_expand : ℕ → Option Vma → M Stack (Option Vma)
  unfolding finish_expand expand_downwards
  find_and_expand addr none = finish_expand none
  find_and_expand addr (some vma) = if leb vma.vm_start addr then finish_expand (some vma) else (do
    (error, grown) ← expand_downwards vma addr
    finish_expand (if error ==ℤ pos 0 then some grown else none))

  -- With the lock for writing, unless a fatal signal ends the wait for it.
  pub look_again : ℕ → M Stack (Option Vma)
  unfolding find_and_expand
  look_again addr s = elim e.interrupted [
    | true ↦ some (none, s)
    | false ↦
        find_and_expand addr (find_vma_prev e.tree addr).0 (record s { mmap_lock = write_locked })
  ]

  pub expand_stack : ℕ → M Stack (Option Vma)
  unfolding mmap_read_unlock look_again
  expand_stack addr = do mmap_read_unlock; look_again addr
