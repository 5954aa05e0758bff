-- ===== src/Mm/Merge.antt =====
-- mm/mmap.c, the tests on which vmas are merged and share an anon_vma, and the ones on tracking
-- writes to them.
pub mod Sharing
pub mod Allowed
use vd2024_so2_private_code.Base.{
  ℕ, ◌+◌, ◌-◌, ◌/◌, ◌*◌, ◌^◌, List, [], ◌∷◌, Option, none, some, Bool, true, false, not, ◌&&◌, ◌||◌,
  ◌==◌, if◌then◌else◌, is_some, is_set, add64, sub64, shr_page, bit_and, bit_or, bit_xor,
}
use vd2024_so2_private_code.Mm.Types.{
  Vma, VmOps, has, complement, vm_softdirty, vm_read, vm_write, vm_exec, vm_shared, vm_pfnmap,
}
use vd2024_so2_private_code.Mm.Tree.{VmaTree}

-- Two pointers, known by what they point to.
pub same_pointer : Option ℕ → Option ℕ → Bool
same_pointer none none = true
same_pointer none (some b) = false
same_pointer (some a) none = false
same_pointer (some a) (some b) = a == b

abbrev pub list_is_singular : List ℕ → Bool
list_is_singular [] = false
list_is_singular (x ∷ []) = true
list_is_singular (x ∷ y ∷ rest) = false

-- The comparisons of the kernel's headers.
pub record MergeEnv : Type 0 where
  pub is_mergeable_vm_userfaultfd_ctx : Vma → Option ℕ → Bool
  pub anon_vma_name_eq : Option ℕ → Option ℕ → Bool
  pub mpol_equal : Option ℕ → Option ℕ → Bool

-- `vma->vm_ops && vma->vm_ops->close`
abbrev pub may_close : Option VmOps → Bool
may_close none = false
may_close (some ops) = ops.has_close

-- vma_pages(vma)
abbrev pub vma_pages : Vma → ℕ
vma_pages vma = shr_page (sub64 vma.vm_end vma.vm_start)

-- What a mapping must have in common with a vma.
pub record Attributes : Type 0 where
  pub vm_flags : ℕ
  pub anon_vma : Option ℕ
  pub file : Option ℕ
  pub vm_userfaultfd_ctx : Option ℕ
  pub anon_name : Option ℕ

-- `none` for no vma.
pub is_mergeable_anon_vma : Option ℕ → Option ℕ → Option Vma → Bool
unfolding same_pointer
is_mergeable_anon_vma anon_vma1 anon_vma2 vma =
    if (not (is_some anon_vma1) || not (is_some anon_vma2))
      && elim vma [ none ↦ true | some v ↦ list_is_singular v.anon_vma_chain ]
    then true
    else same_pointer anon_vma1 anon_vma2

pub anon_vma_compatible : MergeEnv → Vma → Vma → Bool
unfolding same_pointer
anon_vma_compatible e a b =
    a.vm_end == b.vm_start
    && e.mpol_equal a.vm_policy b.vm_policy
    && same_pointer a.vm_file b.vm_file
    && not (
        has (bit_xor a.vm_flags b.vm_flags)
          (complement (bit_or (bit_or vm_read (bit_or vm_write vm_exec)) vm_softdirty)))
    && b.vm_pgoff == add64 a.vm_pgoff (shr_page (sub64 b.vm_start a.vm_start))

pub reusable_anon_vma : MergeEnv → Vma → Vma → Vma → Option ℕ
unfolding anon_vma_compatible
reusable_anon_vma e old a b =
    if anon_vma_compatible e a b && is_some old.anon_vma && list_is_singular old.anon_vma_chain
    then old.anon_vma
    else none

-- With the previous vma, which is the one before `vma` in the tree.
pub try_prev : MergeEnv → Vma → Option Vma → Option ℕ
unfolding reusable_anon_vma
try_prev e vma none = none
try_prev e vma (some prev) = reusable_anon_vma e prev prev vma

pub try_next : MergeEnv → Vma → Option Vma → Option ℕ
unfolding reusable_anon_vma
try_next e vma none = none
try_next e vma (some next) = reusable_anon_vma e next vma next

unfoldable pub find_mergeable_anon_vma : MergeEnv → VmaTree → Vma → Option ℕ
unfolding try_prev try_next
find_mergeable_anon_vma e t vma = elim (try_next e vma (t.mas_walk vma.vm_end)) [
  | some anon_vma ↦ some anon_vma
  | none ↦ try_prev e vma (t.mas_prev vma.vm_start)
]

module _ (e : MergeEnv) (vma : Vma) (a : Attributes) where
  pub is_mergeable_vma : Bool → Bool
  unfolding same_pointer
  is_mergeable_vma may_remove_vma =
      if has (bit_xor vma.vm_flags a.vm_flags) (complement vm_softdirty)
      then false
      else (if not (same_pointer vma.vm_file a.file)
          then false
          else (if may_remove_vma && may_close vma.vm_ops
              then false
              else (if not (e.is_mergeable_vm_userfaultfd_ctx vma a.vm_userfaultfd_ctx)
                  then false
                  else e.anon_vma_name_eq vma.anon_name a.anon_name)))

  pub can_vma_merge_before : ℕ → Bool
  unfolding is_mergeable_vma is_mergeable_anon_vma
  can_vma_merge_before vm_pgoff =
      if is_mergeable_vma true && is_mergeable_anon_vma a.anon_vma vma.anon_vma (some vma)
      then vma.vm_pgoff == vm_pgoff
      else false

  unfoldable pub can_vma_merge_after : ℕ → Bool
  unfolding is_mergeable_vma is_mergeable_anon_vma
  can_vma_merge_after vm_pgoff =
      if is_mergeable_vma false && is_mergeable_anon_vma a.anon_vma vma.anon_vma (some vma)
      then add64 vma.vm_pgoff (vma_pages vma) == vm_pgoff
      else false

-- What the tests on writes ask of the kernel.
pub record DirtyEnv : Type 0 where
  pub mapping_can_writeback : ℕ → Bool
  pub pgprot_modify : ℕ → ℕ → ℕ
  pub vm_get_page_prot : ℕ → ℕ
  pub vma_soft_dirty_enabled : Vma → Bool
  pub is_vm_hugetlb_page : Vma → Bool
  pub userfaultfd_wp : Vma → Bool

pub vm_ops_needs_writenotify : Option VmOps → Bool
vm_ops_needs_writenotify none = false
vm_ops_needs_writenotify (some ops) = ops.has_page_mkwrite || ops.has_pfn_mkwrite

pub vma_is_shared_writable : Vma → Bool
vma_is_shared_writable vma =
    bit_and vma.vm_flags (bit_or vm_write vm_shared) == bit_or vm_write vm_shared

module _ (e : DirtyEnv) where
  unfoldable pub vm_pgprot_modify : ℕ → ℕ → ℕ
  vm_pgprot_modify oldprot vm_flags = e.pgprot_modify oldprot (e.vm_get_page_prot vm_flags)

  -- A file has its mapping.
  pub vma_fs_can_writeback : Vma → Bool
  vma_fs_can_writeback vma =
      if has vma.vm_flags vm_pfnmap
      then false
      else elim vma.vm_file [ none ↦ false | some file ↦ e.mapping_can_writeback file ]

  unfoldable pub vma_needs_dirty_tracking : Vma → Bool
  unfolding vma_is_shared_writable vm_ops_needs_writenotify vma_fs_can_writeback
  vma_needs_dirty_tracking vma =
      if not (vma_is_shared_writable vma)
      then false
      else (if vm_ops_needs_writenotify vma.vm_ops then true else vma_fs_can_writeback vma)

  pub vma_wants_writenotify : Vma → ℕ → Bool
  unfolding vma_is_shared_writable vm_ops_needs_writenotify vm_pgprot_modify vma_fs_can_writeback
  vma_wants_writenotify vma vm_page_prot =
      if not (vma_is_shared_writable vma)
      then false
      else (if vm_ops_needs_writenotify vma.vm_ops
          then true
          else (if not (vm_page_prot == vm_pgprot_modify vm_page_prot vma.vm_flags)
              then false
              else (if e.vma_soft_dirty_enabled vma && not (e.is_vm_hugetlb_page vma)
                  then true
                  else (if e.userfaultfd_wp vma then true else vma_fs_can_writeback vma))))

  pub vma_set_page_prot : Vma → Vma
  unfolding vm_pgprot_modify vma_wants_writenotify
  vma_set_page_prot vma =
      let vm_page_prot = vm_pgprot_modify vma.vm_page_prot vma.vm_flags in
      if vma_wants_writenotify vma vm_page_prot
      then record vma {
        vm_page_prot = vm_pgprot_modify vm_page_prot (bit_and vma.vm_flags (complement vm_shared));
      }
      else record vma { vm_page_prot = vm_page_prot }
