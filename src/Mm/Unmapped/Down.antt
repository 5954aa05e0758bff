-- ===== src/Mm/Unmapped/Down.antt =====
-- What the search of mm/mmap.c from above finds, and that it ends.
use vd2024_so2_private_code.Base.{
  ℕ, zero, suc, ◌+◌, ◌-◌, ◌^◌, ◌≤◌, ◌<◌, ◌≡◌, inl, inr, refl, Option, none, some, arith,
  Option-cases, add64, sub64, bit_and, err64, enomem,
}
use vd2024_so2_private_code.Base.Bits.{bit_and-le}
use vd2024_so2_private_code.Mm.Types.{Vma}
use vd2024_so2_private_code.Mm.Tree.{VmaTree, IsTree, IsFree, IsFree-within}
use vd2024_so2_private_code.Mm.Unmapped.{
  VmUnmappedAreaInfo, gap_down, above_down, retry_down, search_down,
}
use vd2024_so2_private_code.Mm.Unmapped.Search.{IsArea, IsArea-wider}

-- No vma, nor its guard gap, begins at the address 0.
pub record HasRoom (t : VmaTree) : Type 0 where
  pub next_room : (i : ℕ) (v : Vma) → t.mas_next i ≡ some v → 0 < t.vm_start_gap v
  pub prev_room : (i : ℕ) (v : Vma) → t.mas_prev i ≡ some v → 0 < v.vm_start

module _ (t : VmaTree) (info : VmUnmappedAreaInfo) (laws : IsTree t) (room : HasRoom t) where
  above_down-falls :
      (last gap high : ℕ) (prev : Option Vma)
      → t.mas_prev last ≡ prev
      → above_down t info gap prev ≡ some high
      → (0 < high) × (high ≤ last)
  unfolding above_down
  above_down-falls last gap high none at h = ground arith
  above_down-falls last gap high (some tmp) at h =
      ground (arith, laws.prev last tmp at, room.prev_room last tmp at)

  -- Another search ends below the gap that was refused.
  retry_down-falls :
      (last gap high : ℕ) (next : Option Vma)
      → t.mas_next last ≡ next
      → retry_down t info last gap next ≡ some high
      → (0 < high) × (high ≤ last)
  unfolding retry_down
  retry_down-falls last gap high none at h = above_down-falls last gap high (t.mas_prev last) refl h
  retry_down-falls last gap high (some tmp) at h =
      ground
        (arith, room.next_room last tmp at, above_down-falls last gap high (t.mas_prev last) refl)

  gap_down-IsFree :
      (low high last : ℕ)
      → 0 < high
      → high < 2 ^ 64
      → 0 < info.length
      → t.mas_empty_area_rev low (sub64 high 1) (info.length + info.align_mask) ≡ some last
      → (last < high)
        × (low + info.length + info.align_mask ≤ last + 1)
        × (low ≤ gap_down t info last)
        × (gap_down t info last + info.length ≤ high)
        × IsFree t.entries (gap_down t info last) (gap_down t info last + info.length)
  unfolding gap_down
  gap_down-IsFree low high last hp hw lp found =
      let size = info.length + info.align_mask in
      let (a, b, c) = laws.empty_area_rev low (sub64 high 1) size last found in
      let gap = sub64 (add64 last 1) info.length in
      let masked = bit_and-le (sub64 gap info.align_offset) info.align_mask in
      let g = sub64 gap (bit_and (sub64 gap info.align_offset) info.align_mask) in
      (
        omega arith,
        omega arith,
        omega arith,
        omega arith,
        IsFree-within t.entries (last + 1 - size) (last + 1) g (g + info.length) (omega arith)
            (omega arith) c,
      )

  -- The search from above ends as well within the distance of the limits, with -ENOMEM or a free
  -- range between them, where no vma or guard gap begins at the address 0.
  pub search_down-finds :
      (fuel low high : ℕ)
      → 0 < high
      → high < 2 ^ 64
      → 0 < info.length
      → 0 < fuel
      → high < low + fuel
      → (addr : ℕ) × (search_down t info (info.length + info.align_mask) low fuel high ≡ some addr)
        × IsArea t info.length low high addr
  unfolding search_down
  search_down-finds zero low high hp hw lp fp enough = ground arith
  search_down-finds (suc fuel) low high hp hw lp fp enough =
      let size = info.length + info.align_mask in
      elim (Option-cases (t.mas_empty_area_rev low (sub64 high 1) size)) [
        | inl full ↦ (err64 enomem, rw (search_down, full) refl, inl refl)
        | inr (last, found) ↦
            let (a, b, c, d, e) = gap_down-IsFree low high last hp hw lp found in
            let gap = gap_down t info last in
            elim (Option-cases (retry_down t info last gap (t.mas_next last))) [
              | inl taken ↦ (gap, rw (search_down, found, taken) refl, inr (c, d, e))
              | inr (next, again) ↦
                  let (up, fall) = retry_down-falls last gap next (t.mas_next last) refl again in
                  let (addr, found', area) =
                    search_down-finds fuel low next up (omega arith) lp (omega arith)
                      (omega arith) in
                  (
                    addr,
                    rw (search_down, found, again) found',
                    IsArea-wider t info.length low low next high addr (omega arith) (omega arith)
                        area,
                  )
            ]
      ]
