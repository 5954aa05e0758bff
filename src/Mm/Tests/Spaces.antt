-- ===== src/Mm/Tests/Spaces.antt =====
-- Changes to an address space of mm/mmap.c at concrete inputs, on a tree that is its list of vmas.
use vd2024_so2_private_code.Base.{
  ℕ, ◌+◌, ◌≤◌, ◌<◌, ◌≡◌, ◌⊎◌, inl, inr, refl, List, [], ◌∷◌, Option, none, some, true, false, ltb,
  if◌then◌else◌, arith, ap, Bool-cases, Option-cases, pos, ◌==ℤ◌,
}
use vd2024_so2_private_code.Mm.Types.{Vma}
use vd2024_so2_private_code.Mm.Space.{Space}
use vd2024_so2_private_code.Mm.Vmas.{
  MapleTree, IsMapleTree, All, Mem, IsVma, IsOrdered, IsApart, IsCut, insert, without,
}
use vd2024_so2_private_code.Mm.Vmas.Order.{All-map, IsOrdered-All}
use vd2024_so2_private_code.Mm.Vmas.Accounted.{IsAccounted, Kept}
use vd2024_so2_private_code.Mm.Vmas.{total}
use vd2024_so2_private_code.Mm.Split.{SplitEnv, split_vma}
use vd2024_so2_private_code.Mm.Split.Answer.{split_vma-Kept}
use vd2024_so2_private_code.Mm.Unmap.{UnmapEnv, remove_mt, munmap}
use vd2024_so2_private_code.Mm.Unmap.Removed.{accounted_pages, remove_mt-uncharges}
use vd2024_so2_private_code.Mm.Unmap.Calls.{IsUnmapEnv, Munmaps, munmap-Munmaps}
use vd2024_so2_private_code.Mm.Heap.{HeapEnv, brk_flags, do_brk_flags, vm_brk_flags}
use vd2024_so2_private_code.Mm.Brk.{BrkEnv, brk}
use vd2024_so2_private_code.Mm.Brk.Pages.{IsHeapEnv, Moves, brk-Moves}
use vd2024_so2_private_code.Mm.Heap.Brk.{heap_ops}
use vd2024_so2_private_code.Mm.Heap.Grow.{Grows}
use vd2024_so2_private_code.Mm.Heap.Ops.{do_brk_flags-Grows}
use vd2024_so2_private_code.Mm.Heap.Calls.{Brks, vm_brk_flags-Brks}
use vd2024_so2_private_code.Mm.Tests.{counters, kinds}
use vd2024_so2_private_code.Mm.Tests.Calls.{over, brk_env, at_20000_choice}

abbrev find_in : ℕ → ℕ → List Vma → Option Vma
find_in start end [] = none
find_in start end (v ∷ vs) =
    let rest = find_in start end vs in
    if ltb start v.vm_end then (if ltb v.vm_start end then some v else none) else rest

-- The last vma that begins below an address.
abbrev prev_in : ℕ → List Vma → Option Vma
prev_in addr [] = none
prev_in addr (v ∷ vs) =
    let rest = prev_in addr vs in
    if ltb v.vm_start addr then elim rest [ none ↦ some v | some w ↦ some w ] else none

abbrev pub list_tree : MapleTree
list_tree = record {
  vma_iter_store = λ v vs. insert v (without v.vm_start v.vm_end vs);
  vma_iter_clear = λ start end vs. without start end vs;
  vma_find = λ start end vs. find_in start end vs;
  vma_prev = λ addr vs. prev_in addr vs;
}

find_in-first :
    (start end low : ℕ) (vs : List Vma) (v : Vma)
    → IsOrdered low vs
    → find_in start end vs ≡ some v
    → Mem v vs
      × (start < v.vm_end)
      × (v.vm_start < end)
      × All (λ w. (w.vm_end ≤ start) ⊎ (v.vm_start ≤ w.vm_start)) vs
find_in-first start end low [] v o h = absurd (ground (arith, h))
find_in-first start end low (w ∷ ws) v (l, p, o) h = elim (Bool-cases (ltb start w.vm_end)) [
  | inr below ↦
      let found : find_in start end ws ≡ some v = ground (arith, h, below) in
      let (m, a, b, before) = find_in-first start end w.vm_end ws v o found in
      (inr m, a, b, (inl (ground (arith, below)), before))
  | inl above ↦
      let same : v ≡ w = ground (arith, h, above) in
      let begins : w.vm_start < end = ground (arith, h, above) in
      (
        inl same,
        rw same (ground (arith, above)),
        rw same begins,
        (
          inr (rw same (omega arith)),
          All-map (λ x. (w.vm_end ≤ x.vm_start) × IsVma x)
              (λ x. (x.vm_end ≤ start) ⊎ (v.vm_start ≤ x.vm_start)) ws
              (λ x k. inr (rw same (omega (arith, k.0, p.0)))) (IsOrdered-All w.vm_end ws o),
        ),
      )
]

find_in-none :
    (start end low : ℕ) (vs : List Vma)
    → IsOrdered low vs
    → find_in start end vs ≡ none
    → All (IsApart start end) vs
find_in-none start end low [] o h = tt
find_in-none start end low (w ∷ ws) (l, p, o) h = elim (Bool-cases (ltb start w.vm_end)) [
  | inr below ↦
      (inl (ground (arith, below)), find_in-none start end w.vm_end ws o (ground (arith, h, below)))
  | inl above ↦
      let after : end ≤ w.vm_start = ground (arith, h, above) in
      (
        inr after,
        All-map (λ x. (w.vm_end ≤ x.vm_start) × IsVma x) (IsApart start end) ws
            (λ x k. inr (omega (arith, after, k.0, p.0))) (IsOrdered-All w.vm_end ws o),
      )
]

prev_in-before :
    (addr low : ℕ) (vs : List Vma) (v : Vma)
    → prev_in addr vs ≡ some v
    → Mem v vs × (v.vm_start < addr)
prev_in-before addr low [] v h = absurd (ground (arith, h))
prev_in-before addr low (w ∷ ws) v h = elim (Option-cases (prev_in addr ws)) [
  | inl last ↦
      let same : v ≡ w = ground (arith, h, last) in
      let begins : w.vm_start < addr = ground (arith, h, last) in (inl same, rw same begins)
  | inr (x, more) ↦
      let same : x ≡ v = ground (arith, h, more) in
      let (m, b) = prev_in-before addr low ws v (rw more (ap (λ y. some y) same)) in (inr m, b)
]

pub list_tree-IsMapleTree : IsMapleTree list_tree
list_tree-IsMapleTree = record {
  store = λ v vs o h. refl;
  clear = λ a b vs o h. refl;
  find = λ a b vs v o h. find_in-first a b 0 vs v o h;
  find_none = λ a b vs o h. find_in-none a b 0 vs o h;
  prev = λ a vs v o h. prev_in-before a 0 vs v h;
}

-- Four pages of the heap, and two locked pages of a file.
abbrev pub heap_vma : Vma
heap_vma = record {
  vm_start = 0x10000;
  vm_end = 0x14000;
  vm_pgoff = 0x10;
  vm_flags = 0x8100073;
  vm_page_prot = 3;
  vm_file = none;
  vm_ops = none;
  anon_vma = some 9;
  anon_vma_chain = 9 ∷ [];
  vm_policy = none;
  vm_userfaultfd_ctx = none;
  anon_name = none;
}

abbrev file_vma : Vma
file_vma = record {
  vm_start = 0x20000;
  vm_end = 0x22000;
  vm_pgoff = 3;
  vm_flags = 0x2001;
  vm_page_prot = 1;
  vm_file = some 5;
  vm_ops = none;
  anon_vma = none;
  anon_vma_chain = [];
  vm_policy = none;
  vm_userfaultfd_ctx = none;
  anon_name = none;
}

abbrev pub process : Space
process = record {
  mm = record counters { map_count = 2; total_vm = 6; locked_vm = 2 };
  vmas = heap_vma ∷ file_vma ∷ [];
  mmap_lock = false;
  kernel = over;
  populated = [];
  committed = 4;
}

pub process-IsAccounted : IsAccounted process
process-IsAccounted = record {
  ordered = (
    omega arith,
    (omega arith, omega arith, refl, refl),
    (omega arith, (omega arith, omega arith, refl, refl), tt),
  );
  count = refl;
  pages = refl;
  locked = refl;
}

abbrev split_env : SplitEnv
split_env = record {
  tree = list_tree;
  may_split = λ ops. none;
  vm_area_dup = λ vs v. true;
  vma_iter_prealloc = λ vs v. false;
  vma_dup_policy = λ v. pos 0;
  anon_vma_clone = λ new v. (pos 0, v.anon_vma_chain);
  sysctl_max_map_count = 65530;
}

split_vma-Kept_example :
    let (r, v, s') = split_vma split_env heap_vma 0x12000 true process in
    Kept process s'
    × ((((r ==ℤ pos 0) ≡ false) × (s' ≡ process))
        ⊎ ((r ≡ pos 0) × (2 < 65530) × All (IsCut 0x12000) s'.vmas))
split_vma-Kept_example =
    split_vma-Kept split_env list_tree-IsMapleTree heap_vma 0x12000 true process process-IsAccounted
      (inl refl) (omega arith) (omega arith) refl

abbrev unmap_env : UnmapEnv
unmap_env = record {
  split = split_env;
  kinds = kinds;
  mas_store_gfp = λ n v. pos 0;
  userfaultfd_unmap_prep = none;
  vma_iter_clear_gfp = λ vs a b. pos 0;
  arch_unmap = λ a b s. s;
  untagged_addr = λ a. a;
  task_size = 0x100000;
  interrupted = false;
}

unmap_env-IsUnmapEnv : IsUnmapEnv unmap_env
unmap_env-IsUnmapEnv = record {
  tree = list_tree-IsMapleTree;
  arch = λ a b s. refl;
  size = omega arith;
}

-- One page of the middle of the heap.
munmap-Munmaps_example :
    Munmaps unmap_env unmap_env-IsUnmapEnv 0x12000 0x1000 process
      (munmap unmap_env 0x12000 0x1000 process)
munmap-Munmaps_example =
    munmap-Munmaps unmap_env unmap_env-IsUnmapEnv 0x12000 0x1000 process (omega arith) (omega arith)
      refl process-IsAccounted

remove_mt-uncharges_example :
    (remove_mt kinds process.vmas process).committed + total accounted_pages process.vmas ≡ 4
remove_mt-uncharges_example =
    remove_mt-uncharges kinds process.vmas process (omega arith) (omega arith)

abbrev heap_env : HeapEnv
heap_env = record {
  unmap = unmap_env;
  brk = brk_env;
  merge = record {
    is_mergeable_vm_userfaultfd_ctx = λ v c. true;
    anon_vma_name_eq = λ a b. true;
    mpol_equal = λ a b. true;
  };
  vm_data_default_flags = 0x73;
  security_vm_enough_memory_mm = λ n c. false;
  vm_area_alloc = λ vs. true;
  vma_iter_store_gfp = λ vs v. false;
  vm_get_page_prot = λ f. 3;
}

-- Two pages after the heap.
vm_brk_flags-Brks_example :
    Brks heap_env 0x14000 0x2000 0 process (vm_brk_flags heap_env 0x14000 0x1800 0 process)
vm_brk_flags-Brks_example =
    vm_brk_flags-Brks heap_env unmap_env-IsUnmapEnv 0x14000 0x1800 0 process
      (λ a n f. (0x20000, at_20000_choice a n 0 f)) (omega arith) refl (omega arith)
      process-IsAccounted

do_brk_flags-Grows_example :
    Grows 0x14000 0x2000
      (brk_flags heap_env process.mm 0)
      process
      (do_brk_flags heap_env (some heap_vma) 0x14000 0x2000 0 process)
do_brk_flags-Grows_example =
    do_brk_flags-Grows heap_env list_tree-IsMapleTree 0x14000 0x2000 refl refl (omega arith)
      (omega arith) (some heap_vma) 0 process process-IsAccounted
      (inl (omega arith), (inr (omega arith), tt)) (omega arith) (inl refl)

abbrev heap_brk_env : BrkEnv
heap_brk_env = record brk_env {
  vma_find = λ vs a b. find_in a b vs;
  vma_prev_limit = λ vs a b. prev_in a vs;
}

abbrev brk_heap_env : HeapEnv
brk_heap_env = record heap_env { brk = heap_brk_env }

brk_heap_env-IsHeapEnv : IsHeapEnv brk_heap_env
brk_heap_env-IsHeapEnv = record {
  unmap = unmap_env-IsUnmapEnv;
  find = λ vs a b. refl;
  prev = λ vs a b v h. (prev_in-before a 0 vs v h).0;
  gap = λ v. omega arith;
}

-- A process without a limit, whose break goes up by two pages.
abbrev unlimited : Space
unlimited = record process { kernel = record over { memory_list = [] } }

unlimited-IsAccounted : IsAccounted unlimited
unlimited-IsAccounted = record {
  ordered = process-IsAccounted.ordered;
  count = refl;
  pages = refl;
  locked = refl;
}

brk-Moves_example :
    Moves brk_heap_env 0x7800 0x5800 unlimited
      (brk heap_brk_env (heap_ops brk_heap_env) 0x7800 unlimited)
brk-Moves_example =
    brk-Moves brk_heap_env brk_heap_env-IsHeapEnv 0x7800 (omega arith)
      (λ a n f. (0x20000, at_20000_choice a n 0 f)) unlimited refl refl unlimited-IsAccounted
      (omega arith) (omega arith)
