-- ===== src/Mm/Expand/Answer.antt =====
-- vma_expand: the vma has the whole range, the one that it takes in is gone, or nothing changes.
use vd2024_so2_private_code.Base.{
  ℕ, ◌+◌, ◌^◌, ◌≤◌, ◌<◌, ◌≡◌, ◌⊎◌, inl, inr, refl, ap, sym, ◌∙◌, List, [], ◌∷◌, Option, none, some,
  Bool, true, false, ◌&&◌, not, if◌then◌else◌, is_some, sub64, arith, ℤ, pos, ◌==ℤ◌, Bool-cases,
}
use vd2024_so2_private_code.Mm.Types.{Vma}
use vd2024_so2_private_code.Mm.Space.{Space}
use vd2024_so2_private_code.Mm.Vmas.{
  All, Mem, total, IsVma, IsOrdered, IsApart, IsWithin, IsMapleTree, holds, begun, page, page_of,
  set_vma, without, insert,
}
use vd2024_so2_private_code.Mm.Vmas.Order.{IsOrdered-All}
use vd2024_so2_private_code.Mm.Vmas.Member.{All-Mem}
use vd2024_so2_private_code.Mm.Vmas.Pages.{IsOrdered-put, at-put, total-put}
use vd2024_so2_private_code.Mm.Vmas.Store.{IsStored}
use vd2024_so2_private_code.Mm.Vmas.Accounted.{one}
use vd2024_so2_private_code.Mm.Split.{
  init_multi_vma_prep, vma_complete, store_inserted, uncount_vma,
}
use vd2024_so2_private_code.Mm.Expand.{
  ExpandEnv, dup_answer, dup_anon_vma, expand_nomem, expand_over, expand_dup, removes_next,
  vma_expand,
}

-- What is relied on: anon_vma_clone fails and leaves a vma without an anon_vma, or only gives it a
-- chain; unlink_anon_vmas undoes that.
pub record IsExpandEnv (e : ExpandEnv) : Type 0 where
  pub tree : IsMapleTree e.tree
  pub clone :
      (dst src : Vma)
      → dst.anon_vma ≡ none
      → dst.anon_vma_chain ≡ []
      → (((e.anon_vma_clone (record dst { anon_vma = src.anon_vma }) src).0 ==ℤ pos 0) ≡ false)
          × ((e.anon_vma_clone (record dst { anon_vma = src.anon_vma }) src).1 ≡ dst)
        ⊎ ((e.anon_vma_clone (record dst { anon_vma = src.anon_vma }) src).0 ≡ pos 0)
          × ((chain : List ℕ) × ((e.anon_vma_clone (record dst { anon_vma = src.anon_vma }) src).1
                ≡ record dst { anon_vma = src.anon_vma; anon_vma_chain = chain }))
          × (e.unlink_anon_vmas (e.anon_vma_clone (record dst { anon_vma = src.anon_vma }) src).1
              ≡ dst)

set_vma_self :
    (v : Vma) (low : ℕ) (vs : List Vma) → IsOrdered low vs → Mem v vs → set_vma v v vs ≡ vs
unfolding set_vma
set_vma_self v low [] o m = refl
set_vma_self v low (w ∷ ws) (l, p, o) (inl e) = ground (arith, e)
set_vma_self v low (w ∷ ws) (l, p, o) (inr m) =
    let k = All-Mem (λ x. (w.vm_end ≤ x.vm_start) × IsVma x) v ws (IsOrdered-All w.vm_end ws o) m in
    ground (arith, k, p, set_vma_self v w.vm_end ws o m)

-- The range takes whole vmas: this one alone, where there is no next vma, or that is this one or lies
-- above the range; or this one and the next, which then lies above it and ends where the range does.
abbrev pub Takes : Vma → ℕ → ℕ → Option Vma → Space → Type 0
Takes vma start end none s = total (begun start end one) s.vmas ≡ 1
Takes vma start end (some next) s =
    ((total (begun start end one) s.vmas ≡ 1)
      × ((next.vm_start ≡ vma.vm_start) ⊎ ((end ≤ next.vm_start) × IsVma next)))
    ⊎ ((total (begun start end one) s.vmas ≡ 2)
        × (vma.vm_start < next.vm_start)
        × (next.vm_end ≡ end))

-- The range has the vma, the others are as they were, and the counts are right.
pub record IsExpanded (v : Vma) (s s' : Space) : Type 0 where
  pub ordered : IsOrdered 0 s'.vmas
  pub count : s'.mm.map_count ≡ total one s'.vmas
  pub page :
      (addr : ℕ)
      → page s'.vmas addr ≡ (if holds v addr then some (page_of v addr) else page s.vmas addr)
  pub total_vm : s'.mm.total_vm ≡ s.mm.total_vm
  pub locked_vm : s'.mm.locked_vm ≡ s.mm.locked_vm
  pub lock : s'.mmap_lock ≡ s.mmap_lock
  pub kernel : s'.kernel ≡ s.kernel
  pub committed : s'.committed ≡ s.committed

abbrev pub Expands : Vma → Space → ℤ × Space → Type 0
Expands v s (r, s') = (((r ==ℤ pos 0) ≡ false) × (s' ≡ s)) ⊎ ((r ≡ pos 0) × IsExpanded v s s')

-- The vma before which the range begins, and the range.
abbrev grown : Vma → ℕ → ℕ → ℕ → Vma
grown vma start end pgoff = record vma { vm_start = start; vm_end = end; vm_pgoff = pgoff }

module _ (e : ExpandEnv) (laws : IsExpandEnv e) (vma : Vma) (start end pgoff : ℕ)
    (good : IsVma (grown vma start end pgoff)) (s : Space) (o : IsOrdered 0 s.vmas)
    (count : s.mm.map_count ≡ total one s.vmas) (small : s.mm.map_count < 2 ^ 64)
    (m : Mem vma s.vmas) (fits : All (λ w. IsApart start end w ⊎ IsWithin start end w) s.vmas) where
  range-IsStored :
      (w : Vma)
      → IsStored
          (grown w start end pgoff)
          (λ f. total (begun start end f) s.vmas)
          s.vmas
          (e.tree.vma_iter_store (grown w start end pgoff) s.vmas)
  range-IsStored w =
      let v = grown w start end pgoff in
      let part : IsWithin start end v = (omega arith, omega arith) in
      let put : IsStored v (λ f. total (begun start end f) s.vmas) s.vmas
          (insert v (without start end s.vmas)) =
        record {
          ordered = IsOrdered-put start end v part good s.vmas o fits;
          sum = λ f. total-put start end v part good f s.vmas;
          at_addr = λ a. ground (arith, at-put start end v part good s.vmas o fits a);
        } in
      rw (laws.tree.store v s.vmas o fits) put

  counted-IsExpanded :
      (anon : Option ℕ) (chain : List ℕ) (map_count : ℕ)
      → (IsStored
            (grown (record vma { anon_vma = anon; anon_vma_chain = chain }) start end pgoff)
            (λ f. total (begun start end f) s.vmas)
            s.vmas
            (e.tree.vma_iter_store
              (grown (record vma { anon_vma = anon; anon_vma_chain = chain }) start end pgoff)
              s.vmas)
          → map_count
            ≡ total one (
                e.tree.vma_iter_store
                  (grown (record vma { anon_vma = anon; anon_vma_chain = chain }) start end pgoff)
                  s.vmas))
      → IsExpanded (grown vma start end pgoff) s (record s {
        mm = record s.mm { map_count = map_count };
        vmas =
            e.tree.vma_iter_store
              (grown (record vma { anon_vma = anon; anon_vma_chain = chain }) start end pgoff)
              s.vmas;
      })
  counted-IsExpanded anon chain map_count same =
      let dst : Vma = record vma { anon_vma = anon; anon_vma_chain = chain } in
      let stored = range-IsStored dst in
      record {
        ordered = stored.ordered;
        count = same stored;
        page = λ a. ground (arith, stored.at_addr a);
        total_vm = refl;
        locked_vm = refl;
        lock = refl;
        kernel = refl;
        committed = refl;
      }

  stored-IsExpanded :
      (remove : Option Vma) (anon : Option ℕ) (chain : List ℕ)
      → total (begun start end one) s.vmas ≡ 1 + (if is_some remove then 1 else 0)
      → let dst : Vma = record vma { anon_vma = anon; anon_vma_chain = chain } in
        IsExpanded (grown vma start end pgoff) s (
          vma_complete e.tree
            (init_multi_vma_prep dst none remove none)
            (record s { vmas = e.tree.vma_iter_store (grown dst start end pgoff) s.vmas }))
  unfolding vma_complete init_multi_vma_prep store_inserted uncount_vma
  stored-IsExpanded none anon chain begin =
      counted-IsExpanded anon chain s.mm.map_count
        (λ stored. omega (arith, count, begin, stored.sum one))
  stored-IsExpanded (some next) anon chain begin =
      let expanded =
        counted-IsExpanded anon chain (sub64 s.mm.map_count 1)
          (λ stored. omega (arith, count, small, begin, stored.sum one)) in
      elim (Bool-cases (is_some vma.vm_file)) [
        | inl shared ↦ rw shared expanded
        | inr anonymous ↦ rw anonymous expanded
      ]

  over-Expands :
      (remove : Option Vma) (anon : Option ℕ) (chain : List ℕ) (anon_dup : Bool)
      → total (begun start end one) s.vmas ≡ 1 + (if is_some remove then 1 else 0)
      → (anon_dup ≡ true
          → e.unlink_anon_vmas (record vma { anon_vma = anon; anon_vma_chain = chain }) ≡ vma)
      → Expands (grown vma start end pgoff) s (
          expand_over e vma start end pgoff remove
            (record vma { anon_vma = anon; anon_vma_chain = chain })
            anon_dup
            s)
  unfolding expand_over expand_nomem
  over-Expands remove anon chain anon_dup begin undo =
      let dst : Vma = record vma { anon_vma = anon; anon_vma_chain = chain } in
      elim (Bool-cases (e.vma_iter_prealloc s.vmas dst)) [
        | inr room ↦ rw room (inr (refl, stored-IsExpanded remove anon chain begin))
        | inl refused ↦ elim (Bool-cases anon_dup) [
          | inr kept ↦ rw (refused, kept) (inl (refl, refl))
          | inl cloned ↦
              let same : set_vma vma (e.unlink_anon_vmas dst) s.vmas ≡ s.vmas =
                rw (undo cloned) (set_vma_self vma 0 s.vmas o m) in
              rw (refused, cloned) (inl (refl, ap (λ vs. record s { vmas = vs }) same))
        ]
      ]

  stays_lem :
      (next : Vma)
      → (next.vm_start ≡ vma.vm_start) ⊎ ((end ≤ next.vm_start) × IsVma next)
      → removes_next vma end next ≡ false
  unfolding removes_next
  stays_lem next beside = ground (arith, beside)

  goes_lem :
      (next : Vma)
      → vma.vm_start < next.vm_start
      → next.vm_end ≡ end
      → removes_next vma end next ≡ true
  unfolding removes_next
  goes_lem next above ends = ground (arith, above, ends)

  dup-Expands :
      (next : Vma)
      → total (begun start end one) s.vmas ≡ 2
      → (vma.anon_vma ≡ none → vma.anon_vma_chain ≡ [])
      → Expands
          (grown vma start end pgoff)
          s
          (expand_dup e vma start end pgoff next (dup_anon_vma e vma next) s)
  unfolding expand_dup dup_anon_vma dup_answer
  dup-Expands next begin empty =
      let clones = is_some next.anon_vma && not (is_some vma.anon_vma) in
      elim (Bool-cases clones) [
        | inr kept ↦ rw kept (
            over-Expands (some next) vma.anon_vma vma.anon_vma_chain false begin
              (λ h. absurd (ground (arith, h))))
        | inl cloned ↦
            let fresh : vma.anon_vma ≡ none = ground (arith, cloned) in
            elim (laws.clone vma next fresh (empty fresh)) [
              | inl (failed, back) ↦
                  let same : set_vma vma
                        (e.anon_vma_clone (record vma { anon_vma = next.anon_vma }) next).1 s.vmas
                      ≡ s.vmas =
                    rw back (set_vma_self vma 0 s.vmas o m) in
                  rw (cloned, failed) (inl (failed, ap (λ vs. record s { vmas = vs }) same))
              | inr (done, (chain, made), undo) ↦
                  rw (cloned, done, made)
                    (over-Expands (some next) next.anon_vma chain true begin
                      (λ h. sym (ap e.unlink_anon_vmas made) ∙ undo))
            ]
      ]

  -- vma_expand gives the vma the whole range, over the next vma where the range ends with that, and
  -- each other address has its page and the count of vmas is right; or it fails, and nothing has
  -- changed, a cloned anon_vma included. The range takes whole vmas, this one and at most the next.
  pub vma_expand-Expands :
      (next : Option Vma)
      → Takes vma start end next s
      → (vma.anon_vma ≡ none → vma.anon_vma_chain ≡ [])
      → Expands (grown vma start end pgoff) s (vma_expand e vma start end pgoff next s)
  unfolding vma_expand
  vma_expand-Expands none alone empty =
      over-Expands none vma.anon_vma vma.anon_vma_chain false alone
        (λ h. absurd (ground (arith, h)))
  vma_expand-Expands (some next) (inl (alone, beside)) empty =
      let stays : removes_next vma end next ≡ false = stays_lem next beside in
      rw stays (
        over-Expands none vma.anon_vma vma.anon_vma_chain false alone
          (λ h. absurd (ground (arith, h))))
  vma_expand-Expands (some next) (inr (two, above, ends)) empty =
      let goes : removes_next vma end next ≡ true = goes_lem next above ends in
      rw goes (dup-Expands next two empty)
