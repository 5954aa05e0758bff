-- ===== src/Mm/Unmap/Range.antt =====
-- do_vmi_align_munmap: a range is unmapped as a whole or not at all, as the process sees it.
use vd2024_so2_private_code.Base.{
  ℕ, ◌%◌, ◌≤◌, ◌<◌, ◌≡◌, ◌⊎◌, inl, inr, refl, sym, ◌∙◌, List, [], ◌∷◌, none, Bool, true, false,
  ◌&&◌, ltb, leb, if◌then◌else◌, arith, sub64, ℤ, pos, ◌==ℤ◌, Bool-cases,
}
use vd2024_so2_private_code.Mm.Types.{Vma}
use vd2024_so2_private_code.Mm.Merge.{vma_pages}
use vd2024_so2_private_code.Mm.Space.{Space}
use vd2024_so2_private_code.Mm.Vmas.{
  All, Mem, IsVma, IsOrdered, IsApart, IsWithin, IsCut, IsMapleTree, begun, without, page, from,
}
use vd2024_so2_private_code.Mm.Vmas.Order.{
  All-map, All-both, total-without, IsOrdered-without, at-without,
}
use vd2024_so2_private_code.Mm.Vmas.Member.{All-Mem, Mem-All}
use vd2024_so2_private_code.Mm.Vmas.From.{from-IsOrdered, from-All, from-cover, from-total}
use vd2024_so2_private_code.Mm.Vmas.Pages.{IsOrdered-IsVma}
use vd2024_so2_private_code.Mm.Vmas.Accounted.{
  IsAccounted, Kept, Kept-trans, one, locked_pages, total-pages-le, total-one-le, total-locked-le,
}
use vd2024_so2_private_code.Mm.Unmap.{
  UnmapEnv, Gathered, remove_mt, split_first, gather, cleared, clear_range, gather_from,
  do_vmi_align_munmap, unlocked,
}
use vd2024_so2_private_code.Mm.Unmap.Body.{Gathering, IsAhead}
use vd2024_so2_private_code.Mm.Unmap.Gather.{IsDone, gather-IsDone}
use vd2024_so2_private_code.Mm.Unmap.Removed.{remove_mt-IsRemoved}
use vd2024_so2_private_code.Mm.Unmap.First.{IsFirst, IsUnmapped, Unmaps, split_first-Begins}

module _ (e : UnmapEnv) (laws : IsMapleTree e.split.tree) (start end : ℕ) (low : start % 4096 ≡ 0)
    (high : end % 4096 ≡ 0) (some_pages : start < end) where
  -- No vma is partly in a range that was cut out.
  cuts-fit :
      (vs : List Vma)
      → All IsVma vs
      → All (IsCut start) vs
      → All (IsCut end) vs
      → All (λ w. IsApart start end w ⊎ IsWithin start end w) vs
  cuts-fit [] g a b = tt
  cuts-fit (w ∷ ws) (p, g) (q, a) (r, b) = (ground arith, cuts-fit ws g a b)

  pub unlocked-IsUnmapped :
      (unlock : Bool) (s u : Space)
      → IsUnmapped start end false s u
      → IsUnmapped start end unlock s (unlocked unlock u)
  unlocked-IsUnmapped false s u h = h
  unlocked-IsUnmapped true s u h = record {
    accounted = record {
      ordered = h.accounted.ordered;
      count = h.accounted.count;
      pages = h.accounted.pages;
      locked = h.accounted.locked;
    };
    page = h.page;
    lock = refl;
    kernel = h.kernel;
    brk = h.brk;
    def_flags = h.def_flags;
    committed = h.committed;
  }

  pub IsUnmapped-after :
      (s t u : Space) (unlock : Bool)
      → Kept s t
      → IsUnmapped start end unlock t u
      → IsUnmapped start end unlock s u
  IsUnmapped-after s t u unlock kept h = record {
    accounted = h.accounted;
    page = λ a. rw (sym (kept.page a)) (h.page a);
    lock = rw (sym kept.lock) h.lock;
    kernel = h.kernel ∙ kept.kernel;
    brk = h.brk ∙ kept.brk;
    def_flags = h.def_flags ∙ kept.def_flags;
    committed = λ c. h.committed (omega (arith, kept.committed, c));
  }

  -- From the point of no return on.
  cleared-IsUnmapped :
      (unlock : Bool) (g : Gathered) (s : Space)
      → Gathering start end s g []
      → All (IsCut end) s.vmas
      → IsUnmapped start end unlock s (cleared e start end unlock g s)
  unfolding cleared
  cleared-IsUnmapped unlock g s h cut =
      let acc = h.accounted in
      let vs = s.vmas in
      let good = IsOrdered-IsVma 0 vs acc.ordered in
      let fits = cuts-fit vs good h.cut cut in
      let bound = total-pages-le 0 vs acc.ordered (omega arith) in
      let few = total-one-le 0 vs acc.ordered in
      let few' = total-locked-le vs in
      let out = λ (f : Vma → ℕ). total-without start end f vs in
      let t = record s {
        vmas = e.split.tree.vma_iter_clear start end vs;
        mm = record s.mm {
          locked_vm = sub64 s.mm.locked_vm g.locked_vm;
          map_count = sub64 s.mm.map_count g.count;
        };
      } in
      let r =
        remove_mt-IsRemoved e.kinds g.detached t
          (omega (arith, acc.pages, out vma_pages, h.sum vma_pages))
          (omega (arith, acc.pages, bound)) in
      let u = remove_mt e.kinds g.detached t in
      let left : u.vmas ≡ without start end vs =
        r.vmas ∙ laws.clear start end vs acc.ordered fits in
      let ordered : IsOrdered 0 u.vmas = rw left (IsOrdered-without start end 0 vs acc.ordered) in
      let accounted : IsAccounted u = record {
        ordered = ordered;
        count =
            rw left
              (omega (arith, r.map_count, acc.count, h.count, out one, h.sum one, bound, few));
        pages = rw left (omega (arith, r.total_vm, acc.pages, out vma_pages, h.sum vma_pages));
        locked = rw left (
            omega (
              arith,
              r.locked_vm,
              acc.locked,
              h.locked,
              out locked_pages,
              h.sum locked_pages,
              bound,
              few',
            ));
      } in
      let pages : (addr : ℕ)
          → page u.vmas addr ≡ (if leb start addr && ltb addr end then none else page vs addr) =
        λ addr. rw left (ground (arith, at-without start end vs addr fits good)) in
      unlocked-IsUnmapped unlock s u (record {
        accounted = accounted;
        page = pages;
        lock = r.lock;
        kernel = r.kernel;
        brk = r.brk;
        def_flags = r.def_flags;
        committed = λ c. r.committed;
      })

  -- Where the loop begins, the vma at hand and those after it are all that is ahead.
  begins-IsAhead :
      (v : Vma) (s : Space)
      → IsAccounted s
      → IsFirst start end v s
      → start ≤ v.vm_start
      → IsAhead start end s v (from v.vm_end s.vmas)
  begins-IsAhead v s acc first above =
      let good = All-Mem IsVma v s.vmas (IsOrdered-IsVma 0 s.vmas acc.ordered) first.member in
      record {
        ordered = (above, good, from-IsOrdered v good 0 s.vmas acc.ordered first.member);
        first = first.begins;
        members = (
          first.member,
          from-All v good (λ w. Mem w s.vmas) s.vmas
              (Mem-All (λ w. Mem w s.vmas) s.vmas (λ w m. m)),
        );
        cover =
            All-map (λ w. (w.vm_end ≤ v.vm_start) ⊎ Mem w (v ∷ from v.vm_end s.vmas))
              (λ w. IsCut end w ⊎ Mem w (v ∷ from v.vm_end s.vmas)) s.vmas (λ w h. ahead w h)
              (from-cover v good 0 s.vmas acc.ordered first.member);
      }
    where
      ahead :
          (w : Vma)
          → (w.vm_end ≤ v.vm_start) ⊎ Mem w (v ∷ from v.vm_end s.vmas)
          → IsCut end w ⊎ Mem w (v ∷ from v.vm_end s.vmas)
      ahead w (inl h) = inl (inl (omega (arith, first.begins)))
      ahead w (inr m) = inr m

  begins-Gathering :
      (v : Vma) (s : Space)
      → IsAccounted s
      → IsFirst start end v s
      → start ≤ v.vm_start
      → All (IsCut start) s.vmas
      → Gathering start end s
          (record { count = 0; locked_vm = 0; detached = [] })
          (v ∷ from v.vm_end s.vmas)
  begins-Gathering v s acc first above cut =
      let good = All-Mem IsVma v s.vmas (IsOrdered-IsVma 0 s.vmas acc.ordered) first.member in
      record {
        accounted = acc;
        cut = cut;
        sum = λ f. omega (
          arith,
          from-total v good (begun start end f) 0 s.vmas acc.ordered first.member (outside f),
        );
        count = refl;
        locked = refl;
      }
    where
      outside : (f : Vma → ℕ) → All (λ w. w.vm_end ≤ v.vm_start → begun start end f w ≡ 0) s.vmas
      outside f =
          All-map (λ w. IsVma w × ((w.vm_end ≤ start) ⊎ (v.vm_start ≤ w.vm_start)))
            (λ w. w.vm_end ≤ v.vm_start → begun start end f w ≡ 0) s.vmas
            (λ w h k. ground (arith, h, k))
            (All-both IsVma (λ w. (w.vm_end ≤ start) ⊎ (v.vm_start ≤ w.vm_start)) s.vmas
              (IsOrdered-IsVma 0 s.vmas acc.ordered) first.before)

  clear_range-Unmaps :
      (unlock : Bool) (s : Space) (result : ℤ × Gathered × Space)
      → IsDone start end s result
      → Unmaps start end unlock s (clear_range e start end unlock result)
  unfolding clear_range
  clear_range-Unmaps unlock s (r, g, s') (kept, inl failed) = rw failed (inl (failed, kept))
  clear_range-Unmaps unlock s (r, g, s') (kept, inr (ok, gathering, cut)) =
      elim (Bool-cases (e.vma_iter_clear_gfp s'.vmas start end ==ℤ pos 0)) [
        | inl done ↦
            rw (ok, done)
              (inr (
                refl,
                IsUnmapped-after s s' (cleared e start end unlock g s') unlock kept
                    (cleared-IsUnmapped unlock g s' gathering cut),
              ))
        | inr failed ↦ rw (ok, failed) (inl (failed, kept))
      ]

  -- do_vmi_align_munmap unmaps the range as a whole, or it fails and no page has gone.
  pub do_vmi_align_munmap-Unmaps :
      (vma : Vma) (unlock : Bool) (s : Space)
      → IsAccounted s
      → IsFirst start end vma s
      → Unmaps start end unlock s (do_vmi_align_munmap e start end vma unlock s)
  unfolding do_vmi_align_munmap gather_from
  do_vmi_align_munmap-Unmaps vma unlock s acc first =
      let (r, v, s') = split_first e start end vma s in
      let (kept, answer) =
        split_first-Begins e laws start end low high some_pages vma s acc first in
      elim answer [
        | inl failed ↦ rw failed (inl (failed, kept))
        | inr (ok, first', above, cut) ↦
            let g : Gathered = record { count = 0; locked_vm = 0; detached = [] } in
            let done =
              gather-IsDone e laws start end high s' g v (from v.vm_end s'.vmas)
                (begins-Gathering v s' kept.accounted first' above cut)
                (begins-IsAhead v s' kept.accounted first' above) in
            let result = gather e start end v (from v.vm_end s'.vmas) g s' in
            rw ok
              (clear_range-Unmaps unlock s result (Kept-trans s s' result.2 kept done.0, done.1))
      ]
