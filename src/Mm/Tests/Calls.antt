-- ===== src/Mm/Tests/Calls.antt =====
-- The calls of mm/mmap.c at concrete inputs, and their theorems there.
use vd2024_so2_private_code.Base.{
  ℕ, suc, ◌≡◌, ◌⊎◌, refl, arith, [], ◌∷◌, Option, none, some, true, false, ◌&&◌, ◌==◌,
  if◌then◌else◌, pos, err64, enomem, eintr, page_align, sub64,
}
use vd2024_so2_private_code.Limits.{Env, Kernel}
use vd2024_so2_private_code.Mm.Area.{choose_area}
use vd2024_so2_private_code.Mm.Accounting.{file_mmap_ok}
use vd2024_so2_private_code.Limits.Table.{lookup}
use vd2024_so2_private_code.Limits.Access.{accepts}
use vd2024_so2_private_code.Mm.Space.{Space}
use vd2024_so2_private_code.Mm.Brk.{BrkEnv, BrkOps, IsBrkOps, brk}
use vd2024_so2_private_code.Mm.Brk.Answer.{Ends, brk-returns, brk-denied}
use vd2024_so2_private_code.Mm.Map.{File, file_area, MapEnv, passes, file_checks, do_mmap}
use vd2024_so2_private_code.Mm.Map.Checks.{is_shared, file_checks-passes, MapsChecked, do_mmap-maps}
use vd2024_so2_private_code.Mm.Map.Entry.{MapState, EntryEnv, made, ksys_mmap_pgoff}
use vd2024_so2_private_code.Mm.Map.Entry.Answer.{
  Balanced, ksys_mmap_pgoff-Balanced, ksys_mmap_pgoff-decided,
}
use vd2024_so2_private_code.Mm.Tests.{one, tree, layout, at_20000, counters, rlimits}

-- Process 7 has 10 pages and may use no more than 8.
abbrev pub over : Kernel
over = record {
  memory_list = (record { pid = pos 7; memory_limit = 32768 }) ∷ [];
  memory_list_mutex = false;
  allocated = 1;
  processes_buffer = [];
  processes_returned = none;
}

abbrev usac : Env
usac = record {
  find_task_by_vpid = λ p. some (record { mm = some (record { total_vm = 10 }) });
  capable = true;
  kmalloc = λ _. true;
  kmalloc_array = λ _. none;
  copy_to_user = λ l. (l, false);
  put_user = false;
}

abbrev pub brk_env : BrkEnv
brk_env = record {
  usac = usac;
  pid = pos 7;
  interrupted = false;
  brk_randomized = none;
  rlimits = rlimits;
  layout = layout;
  areas = at_20000;
  stack_guard_gap = 0x1000;
  vm_start_gap = λ v. v.vm_start;
  check_data_rlimit = λ r b s d e. false;
  vma_find = λ vs a b. none;
  vma_prev_limit = λ vs a b. none;
}

-- Operations that only keep the lock as they should.
abbrev brk_ops : BrkOps
brk_ops = record {
  do_vma_munmap = λ v a b s. (pos 0, record s { mmap_lock = false });
  do_brk_flags = λ v a l f s. (pos 0, s);
}

brk_ops-IsBrkOps : IsBrkOps brk_ops
brk_ops-IsBrkOps = record {
  munmap_lock = λ v a b s. refl;
  munmap_brk = λ v a b s. (refl, refl);
  flags_keep = λ v a l f s. (refl, refl, refl);
}

abbrev space : Space
space = record {
  mm = counters;
  vmas = one ∷ [];
  mmap_lock = false;
  kernel = over;
  populated = [];
  committed = 0;
}

pub at_20000_choice : (a n o f : ℕ) → choose_area at_20000 none f a n o f ≡ some 0x20000
unfolding choose_area
at_20000_choice a n o f = ground arith

shrink_refused :
    accepts
      (sub64 (page_align 0x4800) (page_align 0x5800))
      (lookup (pos 7) over.memory_list)
      (usac.find_task_by_vpid (pos 7))
    ≡ false
unfolding lookup
shrink_refused = refl

brk-returns_example :
    (brk brk_env brk_ops 0x4800 space ≡ some (err64 eintr, space))
    ⊎ Ends 0x4800 0x5800 over (brk brk_env brk_ops 0x4800 space)
brk-returns_example =
    brk-returns brk_env brk_ops brk_ops-IsBrkOps 0x4800 space
      (λ a n f. (0x20000, at_20000_choice a n 0 f)) refl refl

-- Shrinking the heap by a page leaves the process over its limit, and is refused.
brk-denied_example : brk brk_env brk_ops 0x4800 space ≡ some (0x5800, space)
brk-denied_example =
    brk-denied brk_env brk_ops brk_ops-IsBrkOps 0x4800 space refl refl refl shrink_refused

-- A regular file that is open for reading only.
abbrev read_only : File
read_only = record {
  kind = record { is_reg = true; is_blk = false; is_sock = false; unsigned_offset = false };
  fmode_read = true;
  fmode_write = false;
  path_noexec = false;
  mmap_supported_flags = 0;
  is_swapfile = false;
  is_append = false;
  has_mmap = true;
  huge_page_size = none;
  file_get_unmapped_area = none;
}

read_only_shared : file_checks 0xff read_only 4096 1 1 0x71 3 ≡ passes 1 0xd1 3
unfolding file_checks file_mmap_ok
read_only_shared = refl

abbrev three : ℕ
three = 3

file_checks-passes_example :
    (true ≡ true)
    × (true ≡ true)
    × (file_mmap_ok read_only.kind 3 4096 ≡ true)
    × ((is_shared 1 && false && true) ≡ false)
    × ((is_shared 1 && false && false) ≡ false)
    × ((is_shared 1 && false && false) ≡ false)
    × (three ≡ three)
file_checks-passes_example =
    file_checks-passes 0xff read_only 4096 1 1 0x71 3 1 0xd1 3 read_only_shared

abbrev map_env : MapEnv
map_env = record {
  mm = counters;
  tree = tree;
  layout = layout;
  areas = at_20000;
  rlimits = rlimits;
  read_implies_exec = false;
  sysctl_max_map_count = 65530;
  execute_only_pkey = pos 0;
  calc_vm_prot_bits = λ p k. p;
  calc_vm_flag_bits = λ f. 0;
  can_do_mlock = true;
  legacy_map_mask = 0xff;
  overcommit_never = false;
}

-- A region that counts itself.
abbrev count_regions : Option File → ℕ → ℕ → ℕ → ℕ → ℕ → ℕ × ℕ
count_regions file addr len vm_flags pgoff n = (addr, suc n)

do_mmap-maps_example :
    MapsChecked map_env none count_regions 5000 0
      (do_mmap map_env none count_regions 0 5000 3 0x22 0 0 0)
unfolding file_area
do_mmap-maps_example =
    do_mmap-maps map_env none count_regions 0 5000 3 0x22 0 0 0 (omega arith) (λ a h. ground arith)
      (λ a n f h. ground arith) (λ a n o f. (0x20000, at_20000_choice a n o f))

abbrev count_regions_at : Option File → ℕ → ℕ → ℕ → ℕ → ℕ → ℕ → ℕ × ℕ
count_regions_at file addr len prot flags pgoff n = (addr, suc n)

abbrev entry_env : EntryEnv ℕ
entry_env = record {
  usac = usac;
  pid = pos 7;
  fget = λ fd. if fd == 3 then some read_only else none;
  hstate_sizelog = λ n. some 0x200000;
  hugetlb_file_setup = λ len n. made read_only;
  vm_mmap_pgoff = count_regions_at;
}

abbrev map_state : MapState ℕ
map_state = record { kernel = over; files = 2; space = 0 }

ksys_mmap_pgoff-Balanced_example :
    Balanced over 2 (ksys_mmap_pgoff entry_env 0 4096 1 0x40002 3 0 map_state)
ksys_mmap_pgoff-Balanced_example =
    ksys_mmap_pgoff-Balanced entry_env 0 4096 1 0x40002 3 0 map_state refl

ksys_mmap_pgoff-decided_example : ksys_mmap_pgoff entry_env 0 4096 3 0x22 0 0 map_state ≡ (
    if accepts 4096 (lookup (pos 7) over.memory_list) (usac.find_task_by_vpid (pos 7))
    then some (0, record map_state { space = 1 })
    else some (err64 enomem, map_state))
ksys_mmap_pgoff-decided_example =
    ksys_mmap_pgoff-decided entry_env 0 4096 3 0x22 0 0 map_state refl refl refl
