-- ===== src/Mm/Unmapped/Search.antt =====
-- What the search of mm/mmap.c for a free range finds, and that it ends.
use vd2024_so2_private_code.Base.{
  ℕ, zero, suc, ◌+◌, ◌^◌, ◌≤◌, ◌<◌, ◌≡◌, ◌⊎◌, inl, inr, refl, Option, none, some, arith,
  Option-cases, sub64, err64, enomem,
}
use vd2024_so2_private_code.Base.Bits.{bit_and-le}
use vd2024_so2_private_code.Mm.Types.{Vma}
use vd2024_so2_private_code.Mm.Tree.{VmaTree, IsTree, IsFree, IsFree-within}
use vd2024_so2_private_code.Mm.Unmapped.{VmUnmappedAreaInfo, gap_up, below_up, retry_up, search_up}

-- An address for a request between two limits: -ENOMEM, or one whose range is free.
abbrev pub IsArea : VmaTree → ℕ → ℕ → ℕ → ℕ → Type 0
IsArea t length low high addr =
    (addr ≡ err64 enomem)
    ⊎ ((low ≤ addr) × (addr + length ≤ high) × IsFree t.entries addr (addr + length))

pub IsArea-wider :
    (t : VmaTree) (length low low' high high' addr : ℕ)
    → low' ≤ low
    → high ≤ high'
    → IsArea t length low high addr
    → IsArea t length low' high' addr
IsArea-wider t length low low' high high' addr h k (inl none_left) = inl none_left
IsArea-wider t length low low' high high' addr h k (inr (a, b, c)) =
    inr (omega arith, omega arith, c)

module _ (t : VmaTree) (info : VmUnmappedAreaInfo) (laws : IsTree t) where
  gap_up-bounds :
      (index : ℕ)
      → index + info.align_mask < 2 ^ 64
      → (index ≤ gap_up t info index) × (gap_up t info index ≤ index + info.align_mask)
  unfolding gap_up
  gap_up-bounds index h = omega (arith, bit_and-le (sub64 info.align_offset index) info.align_mask)

  below_up-rises :
      (gap low : ℕ) (prev : Option Vma) → below_up t info gap prev ≡ some low → gap < low
  unfolding below_up
  below_up-rises gap low none h = ground arith
  below_up-rises gap low (some tmp) h = ground arith

  -- Another search starts above the gap that was refused.
  retry_up-rises :
      (length index gap low : ℕ) (next : Option Vma)
      → t.mas_next index ≡ next
      → index ≤ gap
      → retry_up t info length index gap next ≡ some low
      → index < low
  unfolding retry_up
  retry_up-rises length index gap low none at le h =
      omega (arith, below_up-rises gap low (t.mas_prev index) h)
  retry_up-rises length index gap low (some tmp) at le h =
      ground (arith, laws.next index tmp at, below_up-rises gap low (t.mas_prev index))

  -- The part of a gap that the request gets.
  gap_up-IsFree :
      (low index : ℕ)
      → 0 < info.high_limit
      → info.high_limit < 2 ^ 64
      → 0 < info.length
      → t.mas_empty_area low (sub64 info.high_limit 1) (info.length + info.align_mask) ≡ some index
      → (low ≤ index)
        × (index + info.length + info.align_mask ≤ info.high_limit)
        × (index ≤ gap_up t info index)
        × (gap_up t info index + info.length ≤ info.high_limit)
        × IsFree t.entries (gap_up t info index) (gap_up t info index + info.length)
  gap_up-IsFree low index hp hw lp found =
      let high = sub64 info.high_limit 1 in
      let size = info.length + info.align_mask in
      let (a, b, c) = laws.empty_area low high size index found in
      let (d, e) = gap_up-bounds index (omega arith) in
      let gap = gap_up t info index in
      (
        a,
        omega arith,
        d,
        omega arith,
        IsFree-within t.entries index (index + size) gap (gap + info.length) d (omega arith) c,
      )

  -- The search from below ends within as much fuel as the limits are apart, and answers -ENOMEM or
  -- a free range between them.
  pub search_up-finds :
      (fuel low : ℕ)
      → 0 < info.high_limit
      → info.high_limit < 2 ^ 64
      → 0 < info.length
      → 0 < fuel
      → info.high_limit < low + fuel
      → (addr : ℕ) × (search_up t info (info.length + info.align_mask) fuel low ≡ some addr)
        × IsArea t info.length low info.high_limit addr
  unfolding search_up
  search_up-finds zero low hp hw lp fp enough = ground arith
  search_up-finds (suc fuel) low hp hw lp fp enough =
      let size = info.length + info.align_mask in
      elim (Option-cases (t.mas_empty_area low (sub64 info.high_limit 1) size)) [
        | inl full ↦ (err64 enomem, rw (search_up, full) refl, inl refl)
        | inr (index, found) ↦
            let (a, b, c, d, e) = gap_up-IsFree low index hp hw lp found in
            let gap = gap_up t info index in
            elim (Option-cases (retry_up t info size index gap (t.mas_next index))) [
              | inl taken ↦ (gap, rw (search_up, found, taken) refl, inr (omega arith, d, e))
              | inr (next, again) ↦
                  let up = retry_up-rises size index gap next (t.mas_next index) refl c again in
                  let (addr, found', area) =
                    search_up-finds fuel next hp hw lp (omega arith) (omega arith) in
                  (
                    addr,
                    rw (search_up, found, again) found',
                    IsArea-wider t info.length next low info.high_limit info.high_limit addr
                        (omega arith) (omega arith) area,
                  )
            ]
      ]
