-- ===== src/Mm/Tests.antt =====
-- The code of mm/mmap.c at concrete inputs, and its theorems there: an address space with one vma.
mod Limits
pub mod Calls
mod Merge
mod Locks
mod Stacks
pub mod Spaces
mod Special
mod Expand
use vd2024_so2_private_code.Base.{
  ℕ, zero, suc, ◌+◌, ◌-◌, ◌/◌, ◌%◌, ◌*◌, ◌^◌, ◌≤◌, ◌<◌, ◌≡◌, ◌⊎◌, inl, inr, refl, arith, max, min,
  List, [], ◌∷◌, Option, none, some, Bool, true, false, not, ◌&&◌, ◌||◌, ltb, leb, ◌==◌,
  if◌then◌else◌, ℤ, pos, neg, err64, enomem, eintr, is_set, is_some, page_align, sub64, add64,
  is_err_value,
}
use vd2024_so2_private_code.Limits.{MemoryLimitation, Mm, Task, Env, Kernel}
use vd2024_so2_private_code.Mm.Types.{Vma, VmOps, MmStruct, Rlimits}
use vd2024_so2_private_code.Mm.Tree.{VmaTree, IsTree, IsFree}
use vd2024_so2_private_code.Mm.Unmapped.{VmUnmappedAreaInfo, vm_unmapped_area}
use vd2024_so2_private_code.Mm.Unmapped.Search.{IsArea}
use vd2024_so2_private_code.Mm.Unmapped.Down.{HasRoom}
use vd2024_so2_private_code.Mm.Unmapped.Found.{vm_unmapped_area-finds}
use vd2024_so2_private_code.Mm.Area.{
  Layout, AreaFunctions, choose_area, get_unmapped_area, generic_get_unmapped_area,
  generic_get_unmapped_area_topdown,
}
use vd2024_so2_private_code.Mm.Area.Answer.{
  generic_get_unmapped_area-finds, generic_get_unmapped_area_topdown-finds,
  get_unmapped_area-checked,
}
use vd2024_so2_private_code.Mm.Accounting.{
  FileKind, MappingKinds, file_mmap_ok, mlock_future_ok, may_expand_vm, vm_stat_account,
  count_vma_pages_range,
}
use vd2024_so2_private_code.Mm.Accounting.Limits.{
  file_end, file_mmap_ok-fits, mlock_within, expand_within,
}
use vd2024_so2_private_code.Mm.Accounting.Counters.{AreWords, stat_account_undone, count_range-le}
use vd2024_so2_private_code.Mm.Reserve.{
  Reserves, mem_offline, reserve_mem_notifier, kept, notifier-kept,
}

-- One page at 0x10000, of the file 5.
abbrev one : Vma
one = record {
  vm_start = 0x10000;
  vm_end = 0x11000;
  vm_pgoff = 2;
  vm_flags = 0;
  vm_page_prot = 0;
  vm_file = some 5;
  vm_ops = none;
  anon_vma = some 9;
  anon_vma_chain = 9 ∷ [];
  vm_policy = none;
  vm_userfaultfd_ctx = none;
  anon_name = none;
}

abbrev tree : VmaTree
tree = record {
  entries = one ∷ [];
  mas_empty_area = λ low high size.
      if leb (low + size) (min (high + 1) 0x10000)
      then some low
      else (if leb (max low 0x11000 + size) (high + 1) then some (max low 0x11000) else none);
  mas_empty_area_rev = λ low high size.
      if leb (max low 0x11000 + size) (high + 1)
      then some high
      else (if leb (low + size) (min (high + 1) 0x10000) then some (min high 0xffff) else none);
  mas_next = λ i. if ltb i 0x10000 then some one else none;
  mas_prev = λ i. if leb 0x11000 i then some one else none;
  mas_walk = λ i. if leb 0x10000 i && ltb i 0x11000 then some one else none;
  mt_find = λ a b. if ltb a 0x11000 && leb 0x10000 b then some one else none;
  vm_start_gap = λ v. v.vm_start;
  vm_end_gap = λ v. v.vm_end;
}

tree-IsTree : IsTree tree
tree-IsTree = record {
  empty_area = λ low high size i h. ground arith;
  empty_area_rev = λ low high size l h. ground arith;
  next = λ i v h. ground arith;
  prev = λ i v h. ground arith;
  walk = λ i v h. ground arith;
  gap = λ i b h k. ground arith;
  start_gap = λ v. omega arith;
  end_gap = λ v. omega arith;
}

tree-HasRoom : HasRoom tree
tree-HasRoom = record { next_room = λ i v h. ground arith; prev_room = λ i v h. ground arith }

abbrev request : VmUnmappedAreaInfo
request = record {
  flags = 1;
  length = 0x2000;
  low_limit = 0x1000;
  high_limit = 0x12000;
  align_mask = 0;
  align_offset = 0;
}

vm_unmapped_area-finds_example :
    (addr : ℕ) × (vm_unmapped_area tree request 0x1000 ≡ some addr)
    × IsArea tree 0x2000 (max 0x1000 0x1000) 0x12000 addr
vm_unmapped_area-finds_example =
    vm_unmapped_area-finds tree request 0x1000 tree-IsTree (omega arith) (omega arith) (omega arith)
      (omega arith) (omega arith) tree-HasRoom

abbrev layout : Layout
layout = record {
  mmap_min_addr = 0x1000;
  task_size = 0x100000;
  task_unmapped_base = 0x8000;
  mmap_base = 0x80000;
  arch_get_mmap_end = λ a n f. 0x100000;
  arch_get_mmap_base = λ a b. b;
  arch_mmap_check = λ a n f. 0;
  security_mmap_addr = λ a. if ltb a 0x1000 then err64 1 else 0;
}

generic_get_unmapped_area-finds_example :
    (given : ℕ) × (generic_get_unmapped_area tree layout 0x10123 0x2000 0 2 ≡ some given)
    × IsArea tree 0x2000 0x1000 0x100000 given
generic_get_unmapped_area-finds_example =
    generic_get_unmapped_area-finds tree layout 0x10123 0x2000 0 2 tree-IsTree tree-HasRoom
      (omega arith) (omega arith) (omega arith) (omega arith) (omega arith) refl

generic_get_unmapped_area_topdown-finds_example :
    (given : ℕ) × (generic_get_unmapped_area_topdown tree layout 0x10000 0x2000 0 2 ≡ some given)
    × IsArea tree 0x2000 0x1000 0x100000 given
generic_get_unmapped_area_topdown-finds_example =
    generic_get_unmapped_area_topdown-finds tree layout 0x10000 0x2000 0 2 tree-IsTree tree-HasRoom
      (omega arith) (omega arith) (omega arith) (omega arith) (omega arith) refl
      (omega arith, omega arith)

-- The functions of an address space where everything is mapped at 0x20000.
abbrev at_20000 : AreaFunctions
at_20000 = record {
  mm_get_unmapped_area = λ a n o f. some 0x20000;
  shmem_get_unmapped_area = λ a n o f. some 0x20000;
  thp_get_unmapped_area = none;
}

at_20000_answer : get_unmapped_area layout at_20000 none 0 0x2000 7 2 ≡ some 0x20000
unfolding get_unmapped_area
at_20000_answer = refl

get_unmapped_area-checked_example :
    (is_err_value 0x20000 ≡ true)
    ⊎ ((0x20000 % 4096 ≡ 0)
        × (0x20000 + 0x2000 ≤ 0x100000)
        × (choose_area at_20000 none 2 0 0x2000 0 2 ≡ some 0x20000))
get_unmapped_area-checked_example =
    get_unmapped_area-checked layout at_20000 none 0 0x2000 7 2 0x20000 (omega arith)
      (λ a h. ground arith) (λ a n f h. ground arith) at_20000_answer

abbrev counters : MmStruct
counters = record {
  total_vm = 10;
  locked_vm = 3;
  data_vm = 4;
  exec_vm = 1;
  stack_vm = 2;
  map_count = 1;
  def_flags = 0;
  mmap_base = 0x80000;
  start_code = 0x1000;
  start_data = 0x2000;
  end_data = 0x3000;
  start_brk = 0x4000;
  brk = 0x5800;
}

abbrev rlimits : Rlimits
rlimits = record {
  rlimit_as = 2 ^ 30;
  rlimit_data = 2 ^ 20;
  rlimit_data_max = 2 ^ 20;
  rlimit_memlock = 2 ^ 16;
  rlimit_stack = 2 ^ 23;
  cap_ipc_lock = false;
  ignore_rlimit_data = false;
}

abbrev kinds : MappingKinds
kinds = record {
  is_exec_mapping = λ f. f == 4;
  is_stack_mapping = λ f. f == 0x100;
  is_data_mapping = λ f. f == 2;
}
