-- ===== src/Mm/Heap/Grow.antt =====
-- do_brk_flags: what it promises, and a new vma for the range.
use vd2024_so2_private_code.Base.{
  ℕ, ◌+◌, ◌%◌, ◌^◌, ◌<◌, ◌≡◌, ◌⊎◌, inl, inr, refl, ap, none, some, true, ◌&&◌, ltb, leb,
  if◌then◌else◌, arith, add64, sub64, shr_page, bit_and, ℤ, pos, neg, Bool-cases, enomem,
}
use vd2024_so2_private_code.Mm.Types.{Vma, has, complement, vm_softdirty, vm_locked}
use vd2024_so2_private_code.Mm.Merge.{vma_pages}
use vd2024_so2_private_code.Mm.Space.{Space}
use vd2024_so2_private_code.Mm.Vmas.{All, IsVma, IsApart, IsMapleTree, holds, Page, page, page_of}
use vd2024_so2_private_code.Mm.Vmas.Store.{IsStored, free-fits, free-IsStored}
use vd2024_so2_private_code.Mm.Vmas.Accounted.{
  IsAccounted, one, locked_pages, total-pages-le, total-locked-le, map_count-le,
}
use vd2024_so2_private_code.Mm.Split.{count_vma}
use vd2024_so2_private_code.Mm.Unmap.{vm_unacct_memory}
use vd2024_so2_private_code.Mm.Heap.{HeapEnv, count_brk, unacct_fail, anonymous_vma, create}
use vd2024_so2_private_code.Mm.Heap.Flags.{softdirty_hidden, softdirty_locked}

-- A page of the heap, with flags.
abbrev pub heap_page : ℕ → ℕ → Page
heap_page flags addr = record {
  pgoff = shr_page addr;
  flags = bit_and flags (complement vm_softdirty);
  file = none;
  policy = none;
}

-- [start, end) is mapped with the pages of `p`, and nothing else has changed for the process.
pub record IsMapped (start end : ℕ) (p : ℕ → Page) (s s' : Space) : Type 0 where
  pub accounted : IsAccounted s'
  pub page :
      (addr : ℕ)
      → page s'.vmas addr
        ≡ (if leb start addr && ltb addr end then some (p addr) else page s.vmas addr)
  pub lock : s'.mmap_lock ≡ s.mmap_lock
  pub kernel : s'.kernel ≡ s.kernel
  pub brk : s'.mm.brk ≡ s.mm.brk
  pub def_flags : s'.mm.def_flags ≡ s.mm.def_flags

-- After an error the address space is as it was, the charge for the pages given back.
abbrev pub Grows : ℕ → ℕ → ℕ → Space → ℤ × Space → Type 0
Grows addr len flags s (r, s') =
    ((r ≡ neg enomem) × (s' ≡ s))
    ⊎ ((r ≡ pos 0)
        × IsMapped addr (addr + len) (heap_page flags) s s'
        × (s'.committed ≡ add64 s.committed (shr_page len)))

module _ (e : HeapEnv) (laws : IsMapleTree e.unmap.split.tree) (addr len : ℕ)
    (low : addr % 4096 ≡ 0) (whole : len % 4096 ≡ 0) (some_pages : 0 < len)
    (high : addr + len < 2 ^ 64) where
  pub unacct_fail-Grows :
      (flags : ℕ) (s : Space)
      → s.committed < 2 ^ 64
      → Grows addr len flags s
          (unacct_fail e len (record s { committed = add64 s.committed (shr_page len) }))
  unfolding unacct_fail vm_unacct_memory
  unacct_fail-Grows flags s h = inl (refl, uncharged)
    where
      uncharged :
          vm_unacct_memory
            (shr_page len)
            (record s { committed = add64 s.committed (shr_page len) })
          ≡ s
      uncharged =
          let back : sub64 (add64 s.committed (shr_page len)) (shr_page len) ≡ s.committed =
            omega arith in
          ap (λ c. record s { committed = c }) back

  -- The counters after a vma of the heap was stored.
  pub counted-IsAccounted :
      (v : Vma) (old : (Vma → ℕ) → ℕ) (flags : ℕ) (s s' : Space)
      → IsAccounted s
      → IsStored v old s.vmas s'.vmas
      → s'.mm.map_count + old one ≡ s.mm.map_count + 1
      → s'.mm.total_vm ≡ s.mm.total_vm
      → s'.mm.locked_vm ≡ s.mm.locked_vm
      → vma_pages v ≡ old vma_pages + shr_page len
      → locked_pages v ≡ old locked_pages + (if has flags vm_locked then shr_page len else 0)
      → IsAccounted (count_brk e len flags s')
  unfolding count_brk
  counted-IsAccounted v old flags s s' acc stored count total_vm locked_vm pages locked =
      let bound = total-pages-le 0 s'.vmas stored.ordered (omega arith) in
      let few' = total-locked-le s'.vmas in
      record {
        ordered = stored.ordered;
        count = omega (arith, count, acc.count, stored.sum one);
        pages = omega (arith, total_vm, acc.pages, stored.sum vma_pages, pages, bound);
        locked =
            ground (arith, locked_vm, acc.locked, stored.sum locked_pages, locked, bound, few');
      }

  anonymous_vma-page :
      (flags a : ℕ)
      → (holds (anonymous_vma e addr len flags) a ≡ (leb addr a && ltb a (addr + len)))
        × ((leb addr a && ltb a (addr + len)) ≡ true
            → page_of (anonymous_vma e addr len flags) a ≡ heap_page flags a)
  unfolding anonymous_vma
  anonymous_vma-page flags a =
      let top : add64 addr len ≡ addr + len = omega arith in
      let flags_eq = softdirty_hidden flags in
      (rw top refl, λ inside. ground (arith, inside, flags_eq))

  created-IsMapped :
      (flags : ℕ) (s : Space)
      → IsAccounted s
      → All (IsApart addr (addr + len)) s.vmas
      → IsMapped addr (addr + len) (heap_page flags) s (
          count_brk e len flags (
            count_vma (record s {
              committed = add64 s.committed (shr_page len);
              vmas = e.unmap.split.tree.vma_iter_store (anonymous_vma e addr len flags) s.vmas;
            })))
  unfolding count_vma count_brk anonymous_vma
  created-IsMapped flags s acc apart =
      let vs = s.vmas in
      let v = anonymous_vma e addr len flags in
      let top : add64 addr len ≡ addr + len = omega arith in
      let good : IsVma v = (omega arith, omega arith, low, omega arith) in
      let apart' : All (IsApart v.vm_start v.vm_end) vs = rw top apart in
      let law = laws.store v vs acc.ordered (free-fits v good vs acc.ordered apart') in
      let stored = free-IsStored v good vs acc.ordered apart' in
      let t = count_vma (record s {
        committed = add64 s.committed (shr_page len);
        vmas = e.unmap.split.tree.vma_iter_store v vs;
      }) in
      let stored' : IsStored v (λ f. 0) vs t.vmas = rw law stored in
      let locked_eq = softdirty_locked flags in
      record {
        accounted =
            counted-IsAccounted v (λ f. 0) flags s t acc stored' (omega (arith, map_count-le s acc))
              refl refl (omega arith) (ground (arith, locked_eq));
        page = λ a.
            let (inside, same) = anonymous_vma-page flags a in
            ground (arith, stored'.at_addr a, inside, same);
        lock = refl;
        kernel = refl;
        brk = refl;
        def_flags = refl;
      }

  -- A new vma where there was none.
  pub create-Grows :
      (flags : ℕ) (s : Space)
      → IsAccounted s
      → All (IsApart addr (addr + len)) s.vmas
      → s.committed < 2 ^ 64
      → Grows addr len flags s
          (create e addr len flags (record s { committed = add64 s.committed (shr_page len) }))
  unfolding create count_vma
  create-Grows flags s acc apart h =
      let t = record s { committed = add64 s.committed (shr_page len) } in
      let v = anonymous_vma e addr len flags in
      elim (Bool-cases (e.vm_area_alloc s.vmas)) [
        | inr refused ↦ rw refused (unacct_fail-Grows flags s h)
        | inl given ↦ elim (Bool-cases (e.vma_iter_store_gfp s.vmas v)) [
          | inl refused ↦ rw (given, refused) (unacct_fail-Grows flags s h)
          | inr room ↦ rw (given, room) (inr (refl, created-IsMapped flags s acc apart, refl))
        ]
      ]
