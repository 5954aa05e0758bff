-- ===== src/Mm/Heap/Ops.antt =====
-- do_brk_flags: a free range becomes memory of the heap, or nothing changes.
use vd2024_so2_private_code.Base.{
  ℕ, ◌+◌, ◌%◌, ◌^◌, ◌<◌, ◌≡◌, inl, inr, refl, Option, none, some, ltb, add64, shr_page, Bool-cases,
}
use vd2024_so2_private_code.Mm.Types.{Vma}
use vd2024_so2_private_code.Mm.Accounting.{may_expand_vm}
use vd2024_so2_private_code.Mm.Space.{Space}
use vd2024_so2_private_code.Mm.Vmas.{All, Mem, IsApart, IsMapleTree}
use vd2024_so2_private_code.Mm.Vmas.Accounted.{IsAccounted}
use vd2024_so2_private_code.Mm.Heap.{HeapEnv, brk_flags, can_extend, extend_or_create, do_brk_flags}
use vd2024_so2_private_code.Mm.Heap.Grow.{Grows, create-Grows}
use vd2024_so2_private_code.Mm.Heap.Extend.{extend-Grows}

-- A vma that is given is one of the process.
abbrev pub IsGiven : Option Vma → Space → Type 0
IsGiven none s = Unit {0}
IsGiven (some vma) s = Mem vma s.vmas

module _ (e : HeapEnv) (laws : IsMapleTree e.unmap.split.tree) (addr len : ℕ)
    (low : addr % 4096 ≡ 0) (whole : len % 4096 ≡ 0) (some_pages : 0 < len)
    (high : addr + len < 2 ^ 64) where
  extend_or_create-Grows :
      (vma : Option Vma) (flags : ℕ) (s : Space)
      → IsAccounted s
      → All (IsApart addr (addr + len)) s.vmas
      → s.committed < 2 ^ 64
      → IsGiven vma s
      → Grows addr len flags s (
          extend_or_create e vma addr len flags
            (record s { committed = add64 s.committed (shr_page len) }))
  unfolding extend_or_create
  extend_or_create-Grows none flags s acc apart h given =
      create-Grows e laws addr len low whole some_pages high flags s acc apart h
  extend_or_create-Grows (some vma) flags s acc apart h given =
      elim (Bool-cases (can_extend e vma addr flags)) [
        | inl can ↦ rw can (
            extend-Grows e laws addr len low whole some_pages high vma flags s acc apart h given
              can)
        | inr cannot ↦
            rw cannot (create-Grows e laws addr len low whole some_pages high flags s acc apart h)
      ]

  -- do_brk_flags maps a free range as anonymous memory, in a vma of its own or in the one before it
  -- that it extends, and then the counters agree with the vmas; or it fails with -ENOMEM, and
  -- nothing has changed, the charge for the pages included.
  pub do_brk_flags-Grows :
      (vma : Option Vma) (flags : ℕ) (s : Space)
      → IsAccounted s
      → All (IsApart addr (addr + len)) s.vmas
      → s.committed < 2 ^ 64
      → IsGiven vma s
      → Grows addr len (brk_flags e s.mm flags) s (do_brk_flags e vma addr len flags s)
  unfolding do_brk_flags
  do_brk_flags-Grows vma flags s acc apart h given =
      let pages = shr_page len in
      let flags' = brk_flags e s.mm flags in
      elim (Bool-cases (may_expand_vm e.unmap.kinds e.brk.rlimits s.mm flags' pages)) [
        | inr refused ↦ rw refused (inl (refl, refl))
        | inl fits ↦ elim (Bool-cases (ltb e.unmap.split.sysctl_max_map_count s.mm.map_count)) [
          | inl refused ↦ rw (fits, refused) (inl (refl, refl))
          | inr few ↦ elim (Bool-cases (e.security_vm_enough_memory_mm pages s.committed)) [
            | inl refused ↦ rw (fits, few, refused) (inl (refl, refl))
            | inr enough ↦
                rw (fits, few, enough) (extend_or_create-Grows vma flags' s acc apart h given)
          ]
        ]
      ]
