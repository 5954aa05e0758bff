-- ===== src/Mm/Unmapped.antt =====
-- mm/mmap.c, unmapped_area and unmapped_area_topdown: the search for a free range.
pub mod Search
pub mod Down
pub mod Found
use vd2024_so2_private_code.Base.{
  ℕ, zero, suc, ◌+◌, ◌-◌, ◌^◌, Option, none, some, Bool, ltb, leb, if◌then◌else◌, add64, sub64,
  bit_and, is_set, err64, enomem,
}
use vd2024_so2_private_code.Mm.Types.{Vma, has, vm_growsdown}
use vd2024_so2_private_code.Mm.Tree.{VmaTree}

-- `struct vm_unmapped_area_info`
pub record VmUnmappedAreaInfo : Type 0 where
  pub flags : ℕ
  pub length : ℕ
  pub low_limit : ℕ
  pub high_limit : ℕ
  pub align_mask : ℕ
  pub align_offset : ℕ

abbrev pub vm_unmapped_area_topdown : ℕ
vm_unmapped_area_topdown = 1

-- The flags of a vma with a guard gap below it.
abbrev pub vm_startgap_flags : ℕ
vm_startgap_flags = vm_growsdown

module _ (t : VmaTree) (info : VmUnmappedAreaInfo) where
  -- The start of the gap at `index`, aligned.
  pub gap_up : ℕ → ℕ
  gap_up index = add64 index (bit_and (sub64 info.align_offset index) info.align_mask)

  -- The lower limit for another search, if the gap is too near to its neighbours.
  below_up : ℕ → Option Vma → Option ℕ
  below_up gap none = none
  below_up gap (some tmp) = if ltb gap (t.vm_end_gap tmp) then some (t.vm_end_gap tmp) else none

  retry_up : ℕ → ℕ → ℕ → Option Vma → Option ℕ
  unfolding below_up
  retry_up length index gap none = below_up gap (t.mas_prev index)
  retry_up length index gap (some tmp) =
      if has tmp.vm_flags vm_startgap_flags
      then (if ltb (t.vm_start_gap tmp) (sub64 (add64 gap length) 1) then some tmp.vm_end else none)
      else below_up gap (t.mas_prev index)

  -- `retry:` of unmapped_area, on fuel: `none` means that the fuel ran out.
  pub search_up : ℕ → ℕ → ℕ → Option ℕ
  search_up length zero low_limit = none
  search_up length (suc fuel) low_limit =
      elim (t.mas_empty_area low_limit (sub64 info.high_limit 1) length) [
        | none ↦ some (err64 enomem)
        | some index ↦ elim (retry_up length index (gap_up index) (t.mas_next index)) [
          | none ↦ some (gap_up index)
          | some low_limit' ↦ search_up length fuel low_limit'
        ]
      ]

  -- Each retry raises the lower limit.
  pub unmapped_area : ℕ → Option ℕ
  unfolding search_up
  unmapped_area mmap_min_addr =
      let length = add64 info.length info.align_mask in
      let low_limit = if ltb info.low_limit mmap_min_addr then mmap_min_addr else info.low_limit in
      if ltb length info.length
      then some (err64 enomem)
      else search_up length (suc info.high_limit) low_limit

  pub gap_down : ℕ → ℕ
  gap_down last =
      let gap = sub64 (add64 last 1) info.length in
      sub64 gap (bit_and (sub64 gap info.align_offset) info.align_mask)

  above_down : ℕ → Option Vma → Option ℕ
  above_down gap none = none
  above_down gap (some tmp) = if ltb gap (t.vm_end_gap tmp) then some tmp.vm_start else none

  retry_down : ℕ → ℕ → Option Vma → Option ℕ
  unfolding above_down
  retry_down last gap none = above_down gap (t.mas_prev last)
  retry_down last gap (some tmp) =
      if has tmp.vm_flags vm_startgap_flags
      then (if leb (t.vm_start_gap tmp) last then some (t.vm_start_gap tmp) else none)
      else above_down gap (t.mas_prev last)

  pub search_down : ℕ → ℕ → ℕ → ℕ → Option ℕ
  search_down length low_limit zero high_limit = none
  search_down length low_limit (suc fuel) high_limit =
      elim (t.mas_empty_area_rev low_limit (sub64 high_limit 1) length) [
        | none ↦ some (err64 enomem)
        | some last ↦ elim (retry_down last (gap_down last) (t.mas_next last)) [
          | none ↦ some (gap_down last)
          | some high_limit' ↦ search_down length low_limit fuel high_limit'
        ]
      ]

  pub unmapped_area_topdown : ℕ → Option ℕ
  unfolding search_down
  unmapped_area_topdown mmap_min_addr =
      let length = add64 info.length info.align_mask in
      let low_limit = if ltb info.low_limit mmap_min_addr then mmap_min_addr else info.low_limit in
      if ltb length info.length
      then some (err64 enomem)
      else search_down length low_limit (suc info.high_limit) info.high_limit

  pub vm_unmapped_area : ℕ → Option ℕ
  unfolding unmapped_area unmapped_area_topdown
  vm_unmapped_area mmap_min_addr =
      if has info.flags vm_unmapped_area_topdown
      then unmapped_area_topdown mmap_min_addr
      else unmapped_area mmap_min_addr
