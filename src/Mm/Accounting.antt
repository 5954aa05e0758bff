-- ===== src/Mm/Accounting.antt =====
-- The accounting of mm/mmap.c: what a process may map, lock and grow, and the counters of pages.
pub mod Limits
pub mod Counters
use vd2024_so2_private_code.Base.{
  ℕ, ◌+◌, ◌-◌, ◌/◌, ◌%◌, ◌^◌, ◌≤◌, ◌<◌, ◌≡◌, Option, none, some, Bool, true, false, not, ◌&&◌, ◌||◌,
  arith, ltb, leb, ◌==◌, if◌then◌else◌, add64, sub64, shr_page, shl_page, page_mask, page_align,
  bit_and, bit_or, is_set, is_some, List, [], ◌∷◌, max, min, ℤ, pos, neg, enomem, efault,
}
use vd2024_so2_private_code.Mm.Types.{
  Vma, MmStruct, Rlimits, has, vm_locked, vm_growsup, vm_noreserve, vm_shared, vm_write, vm_exec,
  vm_growsdown,
}

-- If a hint is below mmap_min_addr it is moved up to that, and 0 stands for no hint.
pub round_hint_to_min : ℕ → ℕ → ℕ
round_hint_to_min mmap_min_addr hint =
    let hint' = page_mask hint in
    if is_set hint' && ltb hint' mmap_min_addr then page_align mmap_min_addr else hint'

pub mlock_future_ok : Rlimits → MmStruct → ℕ → ℕ → Bool
mlock_future_ok r mm flags bytes =
    if not (has flags vm_locked) || r.cap_ipc_lock
    then true
    else leb (add64 (shr_page bytes) mm.locked_vm) (shr_page r.rlimit_memlock)

-- What file_mmap_size_max asks of a file.
pub record FileKind : Type 0 where
  pub is_reg : Bool
  pub is_blk : Bool
  pub is_sock : Bool
  pub unsigned_offset : Bool

abbrev max_lfs_filesize : ℕ
max_lfs_filesize = 2 ^ 63 - 1

pub file_mmap_size_max : FileKind → ℕ
file_mmap_size_max f =
    if f.is_reg
    then max_lfs_filesize
    else (if f.is_blk
        then max_lfs_filesize
        else (if f.is_sock
            then max_lfs_filesize
            else (if f.unsigned_offset then 0 else 2 ^ 64 - 1)))

unfoldable pub file_mmap_ok : FileKind → ℕ → ℕ → Bool
unfolding file_mmap_size_max
file_mmap_ok f pgoff len =
    let maxsize = file_mmap_size_max f in
    if is_set maxsize && ltb maxsize len
    then false
    else not (ltb (shr_page (sub64 maxsize len)) pgoff)

-- The kinds of mapping that mm/internal.h tells apart by the flags.
pub record MappingKinds : Type 0 where
  pub is_exec_mapping : ℕ → Bool
  pub is_stack_mapping : ℕ → Bool
  pub is_data_mapping : ℕ → Bool

-- The rest of may_expand_vm, where the data of the process would pass its limit.
data_over : Rlimits → MmStruct → ℕ → Bool
data_over r mm npages =
    if r.rlimit_data == 0 && leb (add64 mm.data_vm npages) (shr_page r.rlimit_data_max)
    then true
    else r.ignore_rlimit_data

unfoldable pub may_expand_vm : MappingKinds → Rlimits → MmStruct → ℕ → ℕ → Bool
unfolding data_over
may_expand_vm k r mm flags npages =
    if ltb (shr_page r.rlimit_as) (add64 mm.total_vm npages)
    then false
    else (if k.is_data_mapping flags && ltb (shr_page r.rlimit_data) (add64 mm.data_vm npages)
        then data_over r mm npages
        else true)

-- `npages` is a `long`; a negative number comes as the word that it is.
pub vm_stat_account : MappingKinds → MmStruct → ℕ → ℕ → MmStruct
vm_stat_account k mm flags npages =
    let counted = record mm { total_vm = add64 mm.total_vm npages } in
    if k.is_exec_mapping flags
    then record counted { exec_vm = add64 mm.exec_vm npages }
    else (if k.is_stack_mapping flags
        then record counted { stack_vm = add64 mm.stack_vm npages }
        else (if k.is_data_mapping flags
            then record counted { data_vm = add64 mm.data_vm npages }
            else counted))

-- `hugepages` is whether there is a file and it is one of huge pages.
pub accountable_mapping : Bool → ℕ → Bool
accountable_mapping hugepages vm_flags =
    if hugepages
    then false
    else (bit_and vm_flags (bit_or (bit_or vm_noreserve vm_shared) vm_write) == vm_write)

-- What acct_stack_growth asks of the kernel: whether a range is for huge pages only, and whether
-- the overcommit accounting refuses pages.
pub record StackEnv : Type 0 where
  pub is_hugepage_only_range : ℕ → ℕ → Bool
  pub security_vm_enough_memory_mm : ℕ → Bool

pub acct_stack_growth : MappingKinds → StackEnv → Rlimits → MmStruct → Vma → ℕ → ℕ → ℤ
unfolding may_expand_vm mlock_future_ok
acct_stack_growth k e r mm vma size grow =
    let new_start = if has vma.vm_flags vm_growsup then vma.vm_start else sub64 vma.vm_end size in
    if not (may_expand_vm k r mm vma.vm_flags grow)
    then neg enomem
    else (if ltb r.rlimit_stack size
        then neg enomem
        else (if not (mlock_future_ok r mm vma.vm_flags (shl_page grow))
            then neg enomem
            else (if e.is_hugepage_only_range new_start size
                then neg efault
                else (if e.security_vm_enough_memory_mm grow then neg enomem else pos 0))))

-- The loop, from a count on, over the vmas that the iterator meets between `addr` and `end`.
pub count_pages : ℕ → ℕ → ℕ → List Vma → ℕ
count_pages addr end nr_pages [] = nr_pages
count_pages addr end nr_pages (vma ∷ vmas) =
    let vm_start = max addr vma.vm_start in
    let vm_end = min end vma.vm_end in
    count_pages addr end (add64 nr_pages (shr_page (sub64 vm_end vm_start))) vmas

pub count_vma_pages_range : ℕ → ℕ → List Vma → ℕ
unfolding count_pages
count_vma_pages_range addr end vmas = count_pages addr end 0 vmas
