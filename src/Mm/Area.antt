-- ===== src/Mm/Area.antt =====
-- mm/mmap.c, find_vma and its relatives and get_unmapped_area with its generic searches: the
-- address that a new mapping gets.
pub mod Answer
use vd2024_so2_private_code.Base.{
  ℕ, ◌+◌, ◌-◌, ◌*◌, ◌^◌, Option, none, some, Bool, true, false, not, ◌&&◌, ◌||◌, ltb, leb,
  if◌then◌else◌, is_set, is_some, add64, sub64, page_align, offset_in_page, is_err_value, err64,
  enomem, einval, page_size,
}
use vd2024_so2_private_code.Mm.Types.{Vma, has}
use vd2024_so2_private_code.Mm.Tree.{VmaTree}
use vd2024_so2_private_code.Mm.Unmapped.{
  VmUnmappedAreaInfo, vm_unmapped_area, vm_unmapped_area_topdown,
}

abbrev pub map_shared : ℕ
map_shared = 1

abbrev pub map_fixed : ℕ
map_fixed = 0x10

-- What the searches take from the architecture and from the process.
pub record Layout : Type 0 where
  pub mmap_min_addr : ℕ
  pub task_size : ℕ
  pub task_unmapped_base : ℕ
  pub mmap_base : ℕ
  pub arch_get_mmap_end : ℕ → ℕ → ℕ → ℕ
  pub arch_get_mmap_base : ℕ → ℕ → ℕ
  pub arch_mmap_check : ℕ → ℕ → ℕ → ℕ
  pub security_mmap_addr : ℕ → ℕ

-- A function that chooses an address for `addr`, `len`, `pgoff` and `flags`.
abbrev pub GetArea : Type 0
GetArea = ℕ → ℕ → ℕ → ℕ → Option ℕ

module _ (t : VmaTree) where
  pub find_vma_intersection : ℕ → ℕ → Option Vma
  find_vma_intersection start_addr end_addr = t.mt_find start_addr (sub64 end_addr 1)

  pub find_vma : ℕ → Option Vma
  find_vma addr = t.mt_find addr (2 ^ 64 - 1)

  -- The vma at `addr` or the next, and the one before.
  unfoldable pub find_vma_prev : ℕ → Option Vma × Option Vma
  find_vma_prev addr =
      (elim (t.mas_walk addr) [ none ↦ t.mas_next addr | some vma ↦ some vma ], t.mas_prev addr)

  -- `!vma || end <= vm_start_gap(vma)`, `!prev || addr >= vm_end_gap(prev)`
  pub is_before : ℕ → Option Vma → Bool
  is_before end none = true
  is_before end (some vma) = leb end (t.vm_start_gap vma)

  pub is_after : ℕ → Option Vma → Bool
  is_after addr none = true
  is_after addr (some prev) = leb (t.vm_end_gap prev) addr

  -- Whether the hint `addr`, a whole page, is taken.
  pub takes_hint : Layout → ℕ → ℕ → ℕ → Bool
  unfolding find_vma_prev is_before is_after
  takes_hint l mmap_end len addr =
      let (vma, prev) = find_vma_prev addr in
      leb addr (sub64 mmap_end len)
      && leb l.mmap_min_addr addr
      && is_before (add64 addr len) vma
      && is_after addr prev

  pub generic_get_unmapped_area : Layout → GetArea
  unfolding takes_hint
  generic_get_unmapped_area l addr len pgoff flags =
      let mmap_end = l.arch_get_mmap_end addr len flags in
      if ltb (sub64 mmap_end l.mmap_min_addr) len
      then some (err64 enomem)
      else (if has flags map_fixed
          then some addr
          else (if is_set addr && takes_hint l mmap_end len (page_align addr)
              then some (page_align addr)
              else vm_unmapped_area t
                  (record {
                    flags = 0;
                    length = len;
                    low_limit = l.mmap_base;
                    high_limit = mmap_end;
                    align_mask = 0;
                    align_offset = 0;
                  })
                  l.mmap_min_addr))

  -- The fallback to the search from below, when the one from above failed.
  pub fall_back : Layout → ℕ → ℕ → Option ℕ → Option ℕ
  fall_back l mmap_end len none = none
  fall_back l mmap_end len (some addr) =
      if is_set (offset_in_page addr)
      then vm_unmapped_area t
          (record {
            flags = 0;
            length = len;
            low_limit = l.task_unmapped_base;
            high_limit = mmap_end;
            align_mask = 0;
            align_offset = 0;
          })
          l.mmap_min_addr
      else some addr

  -- `arch_get_mmap_base` reads the address after the hint was rounded.
  pub generic_get_unmapped_area_topdown : Layout → GetArea
  unfolding takes_hint fall_back
  generic_get_unmapped_area_topdown l addr len pgoff flags =
      let mmap_end = l.arch_get_mmap_end addr len flags in
      if ltb (sub64 mmap_end l.mmap_min_addr) len
      then some (err64 enomem)
      else (if has flags map_fixed
          then some addr
          else (if is_set addr && takes_hint l mmap_end len (page_align addr)
              then some (page_align addr)
              else fall_back l mmap_end len (
                  vm_unmapped_area t
                    (record {
                      flags = vm_unmapped_area_topdown;
                      length = len;
                      low_limit = page_size;
                      high_limit =
                          l.arch_get_mmap_base (if is_set addr then page_align addr else 0)
                            l.mmap_base;
                      align_mask = 0;
                      align_offset = 0;
                    })
                    l.mmap_min_addr)))

-- The functions that get_unmapped_area chooses from: the process's own, the one of shared memory,
-- and, in a kernel with transparent huge pages, the one for them.
pub record AreaFunctions : Type 0 where
  pub mm_get_unmapped_area : GetArea
  pub shmem_get_unmapped_area : GetArea
  pub thp_get_unmapped_area : Option GetArea

-- The function for a file, of which `some none` has no function of its own.
unfoldable pub choose_area : AreaFunctions → Option (Option GetArea) → ℕ → GetArea
choose_area fs (some (some get_area)) flags = get_area
choose_area fs (some none) flags = fs.mm_get_unmapped_area
choose_area fs none flags =
    if has flags map_shared
    then fs.shmem_get_unmapped_area
    else elim fs.thp_get_unmapped_area [ none ↦ fs.mm_get_unmapped_area | some get_area ↦ get_area ]

-- What is asked of an address before it is given.
pub check_area : Layout → ℕ → ℕ → ℕ
check_area l len addr =
    if is_err_value addr
    then addr
    else (if ltb (sub64 l.task_size len) addr
        then err64 enomem
        else (if is_set (offset_in_page addr)
            then err64 einval
            else (if is_set (l.security_mmap_addr addr) then l.security_mmap_addr addr else addr)))

unfoldable pub get_unmapped_area : Layout → AreaFunctions → Option (Option GetArea) → GetArea
unfolding choose_area check_area
get_unmapped_area l fs file addr len pgoff flags =
    if is_set (l.arch_mmap_check addr len flags)
    then some (l.arch_mmap_check addr len flags)
    else (if ltb l.task_size len
        then some (err64 enomem)
        else elim (choose_area fs file flags addr len (if is_some file then pgoff else 0) flags) [
          | none ↦ none
          | some given ↦ some (check_area l len given)
        ])
