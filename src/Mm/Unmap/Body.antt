-- ===== src/Mm/Unmap/Body.antt =====
-- The body of the loop of do_vmi_align_munmap: the split at the end of the range, and what is gathered.
use vd2024_so2_private_code.Base.{
  ℕ, ◌+◌, ◌%◌, ◌≤◌, ◌<◌, ◌≡◌, ◌⊎◌, inl, inr, refl, List, [], ◌∷◌, ◌++◌, false, ltb, arith, ℤ, pos,
  ◌==ℤ◌, Bool-cases, ==ℤ_eq, ltb→lt,
}
use vd2024_so2_private_code.Mm.Types.{Vma}
use vd2024_so2_private_code.Mm.Space.{Space}
use vd2024_so2_private_code.Mm.Vmas.{All, Mem, total, IsOrdered, IsCut, IsMapleTree, begun}
use vd2024_so2_private_code.Mm.Vmas.Order.{total-without}
use vd2024_so2_private_code.Mm.Vmas.Accounted.{
  IsAccounted, Kept, Kept-self, one, locked_pages, total-pages-le, total-one-le, total-locked-le,
}
use vd2024_so2_private_code.Mm.Split.{split_vma_unchecked}
use vd2024_so2_private_code.Mm.Split.Answer.{IsParted, split_vma_unchecked-Cut, Cut-Kept}
use vd2024_so2_private_code.Mm.Unmap.{
  UnmapEnv, Gathered, split_end, unmap_prep, gathered, detach, gather_one,
}

pub total-append : (f : Vma → ℕ) (xs ys : List Vma) → total f (xs ++ ys) ≡ total f xs + total f ys
total-append f [] ys = omega arith
total-append f (x ∷ xs) ys = omega (arith, total-append f xs ys)

-- What was gathered from the vmas of the range, when `rest` is still ahead.
pub record Gathering (start end : ℕ) (s : Space) (g : Gathered) (rest : List Vma) : Type 0 where
  pub accounted : IsAccounted s
  pub cut : All (IsCut start) s.vmas
  pub sum :
      (f : Vma → ℕ)
      → total (begun start end f) s.vmas ≡ total f g.detached + total (begun start end f) rest
  pub count : g.count ≡ total one g.detached
  pub locked : g.locked_vm ≡ total locked_pages g.detached

-- The iterator is at `next`, which is in the range, and all that may pass the end is ahead.
pub record IsAhead (start end : ℕ) (s : Space) (next : Vma) (rest : List Vma) : Type 0 where
  pub ordered : IsOrdered start (next ∷ rest)
  pub first : next.vm_start < end
  pub members : All (λ w. Mem w s.vmas) (next ∷ rest)
  pub cover : All (λ w. IsCut end w ⊎ Mem w (next ∷ rest)) s.vmas

-- The body of the loop failed, or it gathered `next`, after a cut where that passes the end.
abbrev pub Body : ℕ → ℕ → Space → Vma → List Vma → ℤ × Gathered × Space → Type 0
Body start end s next rest (r, g, s') =
    Kept s s'
    × (((r ==ℤ pos 0) ≡ false)
        ⊎ ((r ≡ pos 0)
            × Gathering start end s' g rest
            × (((next.vm_end ≤ end) × (s' ≡ s)) ⊎ ((end < next.vm_end) × All (IsCut end) s'.vmas))))

module _ (e : UnmapEnv) (laws : IsMapleTree e.split.tree) (start end : ℕ)
    (whole : end % 4096 ≡ 0) where
  -- One more vma, when the sums over the range say that it was the next.
  gathered-Gathering :
      (s : Space) (g : Gathered) (v : Vma) (rest : List Vma)
      → IsAccounted s
      → All (IsCut start) s.vmas
      → ((f : Vma → ℕ)
          → total (begun start end f) s.vmas
            ≡ total f g.detached + (f v + total (begun start end f) rest))
      → g.count ≡ total one g.detached
      → g.locked_vm ≡ total locked_pages g.detached
      → Gathering start end s (gathered e start end v g) rest
  unfolding gathered
  gathered-Gathering s g v rest acc cut sum count locked =
      let bound = total-pages-le 0 s.vmas acc.ordered (omega arith) in
      let few = total-one-le 0 s.vmas acc.ordered in
      let few' = total-locked-le s.vmas in
      let added = λ (f : Vma → ℕ). total-append f g.detached (v ∷ []) in
      record {
        accounted = acc;
        cut = cut;
        sum = λ f. omega (arith, sum f, added f);
        count =
            omega
              (arith, count, added one, sum one, total-without start end one s.vmas, bound, few);
        locked = ground (
          arith,
          locked,
          added locked_pages,
          sum locked_pages,
          total-without start end locked_pages s.vmas,
          bound,
          few',
        );
      }

  -- The end of the body, on a vma that stands in the range.
  detach-Body :
      (s s' : Space) (g : Gathered) (next v : Vma) (rest : List Vma) (r : ℤ)
      → Kept s s'
      → (r ≡ pos 0 → Gathering start end s' (gathered e start end v g) rest)
      → (r ≡ pos 0
          → ((next.vm_end ≤ end) × (s' ≡ s)) ⊎ ((end < next.vm_end) × All (IsCut end) s'.vmas))
      → Body start end s next rest (detach e start end g (r, v, s'))
  unfolding detach
  detach-Body s s' g next v rest r kept gathering side = elim (Bool-cases (r ==ℤ pos 0)) [
    | inl ok ↦
        let zero = ==ℤ_eq r (pos 0) ok in
        elim (Bool-cases (e.mas_store_gfp g.count v ==ℤ pos 0)) [
          | inl stored ↦ elim (Bool-cases (unmap_prep e start end v ==ℤ pos 0)) [
            | inl prepared ↦
                rw (ok, stored)
                  (
                    kept,
                    inr (
                      ==ℤ_eq (unmap_prep e start end v) (pos 0) prepared,
                      gathering zero,
                      side zero,
                    ),
                  )
            | inr failed ↦ rw (ok, stored) (kept, inl failed)
          ]
          | inr failed ↦ rw (ok, failed) (kept, inl failed)
        ]
    | inr failed ↦ rw failed (kept, inl failed)
  ]

  begun-in :
      (f : Vma → ℕ) (w : Vma) → start ≤ w.vm_start → w.vm_start < end → begun start end f w ≡ f w
  begun-in f w h k = ground arith

  begun-out : (f : Vma → ℕ) (w : Vma) → end ≤ w.vm_start → begun start end f w ≡ 0
  begun-out f w h = ground arith

  -- A vma that passes the end was cut there: the part below it is the one that is gathered.
  parted-Gathering :
      (s s' : Space) (g : Gathered) (next v : Vma) (rest : List Vma)
      → Gathering start end s g (next ∷ rest)
      → start ≤ next.vm_start
      → next.vm_start < end
      → end < next.vm_end
      → IsAccounted s'
      → IsParted next end false s v s'
      → Gathering start end s' (gathered e start end v g) rest
  parted-Gathering s s' g next v rest h a b c acc parted =
      let new = parted.new in
      let (p0, p1, p2, p3, p4) = parted.parts in
      let place = parted.place in
      let starts : v.vm_start ≡ next.vm_start = ground arith in
      let above : end ≤ new.vm_start = ground arith in
      gathered-Gathering s' g v rest acc (parted.cuts start h.cut)
        (λ f. omega (
          arith,
          parted.sum (begun start end f),
          h.sum f,
          begun-in f next a b,
          begun-in f v (omega arith) (omega arith),
          begun-out f new above,
        ))
        h.count h.locked

  pub gather_one-Body :
      (s : Space) (g : Gathered) (next : Vma) (rest : List Vma)
      → Gathering start end s g (next ∷ rest)
      → IsAhead start end s next rest
      → Body start end s next rest (gather_one e start end next g s)
  unfolding gather_one split_end
  gather_one-Body s g next rest h ahead =
      let (a, good, o) = ahead.ordered in
      elim (Bool-cases (ltb end next.vm_end)) [
        | inl passes ↦
            let passes' = ltb→lt end next.vm_end passes in
            let result = split_vma_unchecked e.split next end false s in
            let (kept, answer) =
              Cut-Kept e.split laws next end false s h.accounted.ordered ahead.members.0 good
                ahead.first passes' whole result h.accounted
                (split_vma_unchecked-Cut e.split laws next end false s h.accounted.ordered
                  ahead.members.0 good ahead.first passes' whole) in
            elim answer [
              | inl (failed, same) ↦ rw passes (
                  detach-Body s result.2 g next result.1 rest result.0 kept
                    (λ ok. absurd (ground (arith, failed, ok)))
                    (λ ok. absurd (ground (arith, failed, ok))))
              | inr (ok, parted) ↦ rw passes (
                  detach-Body s result.2 g next result.1 rest result.0 kept
                    (λ ok.
                      parted-Gathering s result.2 g next result.1 rest h a ahead.first passes'
                        kept.accounted parted)
                    (λ ok. inr (passes', parted.cut)))
            ]
        | inr within ↦ rw within (
            detach-Body s s g next next rest (pos 0) (Kept-self s h.accounted)
              (λ ok.
                gathered-Gathering s g next rest h.accounted h.cut
                  (λ f. omega (arith, h.sum f, begun-in f next a ahead.first)) h.count h.locked)
              (λ ok. inl (ground (arith, within), refl)))
      ]
