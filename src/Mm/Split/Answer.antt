-- ===== src/Mm/Split/Answer.antt =====
-- What a split of mm/mmap.c answers, and what it does to the vmas of the process.
use vd2024_so2_private_code.Base.{
  ℕ, ◌+◌, ◌%◌, ◌≤◌, ◌<◌, ◌≡◌, ◌⊎◌, inl, inr, refl, List, [], Bool, false, leb, if◌then◌else◌, arith,
  add64, ℤ, pos, ◌==ℤ◌, Bool-cases,
}
use vd2024_so2_private_code.Mm.Types.{Vma}
use vd2024_so2_private_code.Mm.Space.{Space}
use vd2024_so2_private_code.Mm.Vmas.{
  All, Mem, total, IsVma, IsOrdered, IsApart, IsWithin, IsCut, IsMapleTree, insert, without,
}
use vd2024_so2_private_code.Mm.Vmas.Member.{set_vma_lem, All-Mem}
use vd2024_so2_private_code.Mm.Vmas.Order.{All-map}
use vd2024_so2_private_code.Mm.Vmas.Pages.{IsOrdered-IsVma}
use vd2024_so2_private_code.Mm.Merge.{vma_pages}
use vd2024_so2_private_code.Mm.Vmas.Accounted.{
  IsAccounted, Kept, Kept-self, one, locked_pages, total-pages-le, total-one-le,
}
use vd2024_so2_private_code.Mm.Split.{
  SplitEnv, init_vma_prep, init_multi_vma_prep, count_vma, store_inserted, vma_complete,
  split_pieces, finish_split, clone_and_split, split_vma_unchecked, split_vma,
}
use vd2024_so2_private_code.Mm.Split.Pieces.{
  AreParts, others, split_pieces-AreParts, split_pieces-page, split_pieces-pages, cut_vmas,
  kept-IsOrdered, kept-fits, cut-IsOrdered, cut-total, cut-All, cut-Mem, cut-page,
}

-- A split that failed, or the parts of the vma and an address space where they stand in its place.
abbrev pub Cut : Vma → ℕ → Bool → Space → ℤ × Vma × Space → Type 0
Cut vma addr below s (r, v, s') =
    ((r ==ℤ pos 0) ≡ false × v ≡ vma × s' ≡ s)
    ⊎ ((r ≡ pos 0)
        × ((chain : List ℕ) × let (new, rest) = split_pieces vma chain addr below in
              (v ≡ rest)
              × (s' ≡ record s {
                vmas = cut_vmas vma new rest s.vmas;
                mm = record s.mm { map_count = add64 s.mm.map_count 1 };
              })))

-- `v` is one of the parts of the vma, and no vma of `s'` has parts on both sides of the address.
pub record IsParted (vma : Vma) (addr : ℕ) (below : Bool) (s : Space) (v : Vma) (s' : Space)
    : Type 0 where
  pub new : Vma
  pub parts : AreParts vma new v
  pub place : (if below then v.vm_start else v.vm_end) ≡ addr
  pub cut : All (IsCut addr) s'.vmas
  pub member : Mem v s'.vmas
  pub cuts : (c : ℕ) → All (IsCut c) s.vmas → All (IsCut c) s'.vmas
  pub sum : (f : Vma → ℕ) → total f s'.vmas + f vma ≡ f new + f v + total f s.vmas

module _ (e : SplitEnv) (laws : IsMapleTree e.tree) where
  module _ (vma : Vma) (addr : ℕ) (below : Bool) (s : Space) (o : IsOrdered 0 s.vmas)
      (m : Mem vma s.vmas) (good : IsVma vma) (low : vma.vm_start < addr) (high : addr < vma.vm_end)
      (whole : addr % 4096 ≡ 0) where
    finish_split-Cut :
        (chain : List ℕ) → Cut vma addr below s (finish_split e vma addr below chain s)
    unfolding finish_split init_vma_prep init_multi_vma_prep vma_complete store_inserted count_vma
    finish_split-Cut chain =
        let (new, rest) = split_pieces vma chain addr below in
        let parts = split_pieces-AreParts vma chain addr below good low high whole in
        let written = set_vma_lem vma rest 0 s.vmas parts.1 parts.3 o m in
        let stored =
          laws.store new (insert rest (without vma.vm_start vma.vm_end s.vmas))
            (kept-IsOrdered vma new rest s.vmas o m parts)
            (kept-fits vma new rest s.vmas o m parts) in
        inr (refl, (chain, (refl, rw (written, stored) refl)))

    clone_and_split-Cut : Cut vma addr below s (clone_and_split e vma addr below s)
    unfolding clone_and_split
    clone_and_split-Cut =
        let new = (split_pieces vma [] addr below).0 in
        ground (arith, finish_split-Cut (e.anon_vma_clone new vma).1)

    pub split_vma_unchecked-Cut : Cut vma addr below s (split_vma_unchecked e vma addr below s)
    unfolding split_vma_unchecked
    split_vma_unchecked-Cut = ground (arith, clone_and_split-Cut)

    -- The counters and the pages after the cut.
    cut-IsAccounted :
        (chain : List ℕ)
        → IsAccounted s
        → let (new, rest) = split_pieces vma chain addr below in
          IsAccounted (record s {
            vmas = cut_vmas vma new rest s.vmas;
            mm = record s.mm { map_count = add64 s.mm.map_count 1 };
          })
    unfolding split_pieces
    cut-IsAccounted chain h =
        let (new, rest) = split_pieces vma chain addr below in
        let parts = split_pieces-AreParts vma chain addr below good low high whole in
        let ordered = cut-IsOrdered vma new rest s.vmas o m parts in
        let bound = total-pages-le 0 (cut_vmas vma new rest s.vmas) ordered (omega arith) in
        let counted = total-one-le 0 (cut_vmas vma new rest s.vmas) ordered in
        let halves = split_pieces-pages vma chain addr below good low high whole in
        let sum = cut-total vma new rest s.vmas o m parts in
        record {
          ordered = ordered;
          count = omega (arith, sum one, bound, counted, h.count);
          pages = omega (arith, sum vma_pages, h.pages, halves.0);
          locked = omega (arith, sum locked_pages, h.locked, halves.1);
        }

    others-IsCut :
        (c : ℕ)
        → vma.vm_start ≤ c
        → c ≤ vma.vm_end
        → All (λ w. IsWithin vma.vm_start vma.vm_end w ⊎ IsCut c w) s.vmas
    others-IsCut c h k =
        All-map (λ w. IsApart vma.vm_start vma.vm_end w ⊎ IsWithin vma.vm_start vma.vm_end w)
          (λ w. IsWithin vma.vm_start vma.vm_end w ⊎ IsCut c w) s.vmas (λ w q. IsCut-other w q)
          (others vma s.vmas o m)
      where
        IsCut-other :
            (w : Vma)
            → IsApart vma.vm_start vma.vm_end w ⊎ IsWithin vma.vm_start vma.vm_end w
            → IsWithin vma.vm_start vma.vm_end w ⊎ IsCut c w
        IsCut-other w q = ground arith

    cut_vmas-IsCut :
        (chain : List ℕ) (c : ℕ)
        → All (IsCut c) s.vmas
        → let (new, rest) = split_pieces vma chain addr below in
          All (IsCut c) (cut_vmas vma new rest s.vmas)
    unfolding split_pieces
    cut_vmas-IsCut chain c h =
        let (new, rest) = split_pieces vma chain addr below in
        let parts = split_pieces-AreParts vma chain addr below good low high whole in
        let q : IsCut c vma = All-Mem (IsCut c) vma s.vmas h m in
        cut-All vma new rest s.vmas o m parts (IsCut c)
          (All-map (IsCut c) (λ w. IsWithin vma.vm_start vma.vm_end w ⊎ IsCut c w) s.vmas
            (λ w k. inr k) h)
          (ground arith) (ground arith)

    -- What a split leaves: the process sees no change, and an answer of 0 comes with the cut.
    pub Cut-Kept :
        (result : ℤ × Vma × Space)
        → IsAccounted s
        → Cut vma addr below s result
        → Kept s result.2
          × (((result.0 ==ℤ pos 0) ≡ false) × (result.2 ≡ s)
              ⊎ ((result.0 ≡ pos 0) × IsParted vma addr below s result.1 result.2))
    unfolding split_pieces
    Cut-Kept (r, v, s') h (inl (failed, e, e')) = (rw e' (Kept-self s h), inl (failed, e'))
    Cut-Kept (r, v, s') h (inr (ok, (chain, (e, e')))) =
        let (new, rest) = split_pieces vma chain addr below in
        let parts = split_pieces-AreParts vma chain addr below good low high whole in
        (
          rw e' (record {
            accounted = cut-IsAccounted chain h;
            page = λ a.
                cut-page vma new rest s.vmas o m parts a
                  (split_pieces-page vma chain addr below a good low high whole);
            lock = refl;
            kernel = refl;
            brk = refl;
            committed = refl;
            def_flags = refl;
          }),
          inr (
            ok,
            rw (e, e')
                (record {
                  new = new;
                  parts = parts;
                  place = ground arith;
                  cut =
                      cut-All vma new rest s.vmas o m parts (IsCut addr)
                        (others-IsCut addr (omega arith) (omega arith)) (ground arith)
                        (ground arith);
                  member = cut-Mem vma new rest s.vmas o m parts;
                  cuts = λ c h. cut_vmas-IsCut chain c h;
                  sum = λ f. cut-total vma new rest s.vmas o m parts f;
                }),
          ),
        )

  -- split_vma leaves the process with the pages that it had at each address, and the counters with
  -- the vmas. It fails without a change, or it answers 0, below the limit on the number of vmas, and
  -- then no vma is on both sides of the address.
  pub split_vma-Kept :
      (vma : Vma) (addr : ℕ) (below : Bool) (s : Space)
      → IsAccounted s
      → Mem vma s.vmas
      → vma.vm_start < addr
      → addr < vma.vm_end
      → addr % 4096 ≡ 0
      → let (r, v, s') = split_vma e vma addr below s in
        Kept s s'
        × ((((r ==ℤ pos 0) ≡ false) × (s' ≡ s))
            ⊎ ((r ≡ pos 0) × (s.mm.map_count < e.sysctl_max_map_count) × All (IsCut addr) s'.vmas))
  unfolding split_vma
  split_vma-Kept vma addr below s acc m low high whole =
      let good = All-Mem IsVma vma s.vmas (IsOrdered-IsVma 0 s.vmas acc.ordered) m in
      elim (Bool-cases (leb e.sysctl_max_map_count s.mm.map_count)) [
        | inl full ↦ rw full (Kept-self s acc, inl (refl, refl))
        | inr room ↦
            let result = split_vma_unchecked e vma addr below s in
            let (kept, answer) =
              Cut-Kept vma addr below s acc.ordered m good low high whole result acc
                (split_vma_unchecked-Cut vma addr below s acc.ordered m good low high whole) in
            rw room (
              kept,
              elim answer [
                | inl failed ↦ inl failed
                | inr (ok, parted) ↦ inr (ok, ground (arith, room), parted.cut)
              ],
            )
      ]
