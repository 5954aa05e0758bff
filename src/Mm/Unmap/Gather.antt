-- ===== src/Mm/Unmap/Gather.antt =====
-- The loop of do_vmi_align_munmap: it ends, it gathers the vmas of the range and no other, and the
-- process sees no change.
use vd2024_so2_private_code.Base.{
  ℕ, ◌%◌, ◌≤◌, ◌≡◌, ◌⊎◌, inl, inr, refl, List, [], ◌∷◌, true, false, ◌&&◌, ltb, arith, ℤ, pos,
  ◌==ℤ◌, Bool-cases,
}
use vd2024_so2_private_code.Mm.Types.{Vma}
use vd2024_so2_private_code.Mm.Space.{Space}
use vd2024_so2_private_code.Mm.Vmas.{All, Mem, IsVma, IsOrdered, IsCut, IsMapleTree}
use vd2024_so2_private_code.Mm.Vmas.Order.{All-map, IsOrdered-All}
use vd2024_so2_private_code.Mm.Vmas.Member.{All-Mem, begun-above}
use vd2024_so2_private_code.Mm.Vmas.Accounted.{Kept, Kept-trans}
use vd2024_so2_private_code.Mm.Unmap.{UnmapEnv, Gathered, gather_one, gather}
use vd2024_so2_private_code.Mm.Unmap.Body.{Gathering, IsAhead, gather_one-Body}

-- The loop failed, or it gathered all.
abbrev pub IsDone : ℕ → ℕ → Space → ℤ × Gathered × Space → Type 0
IsDone start end s (r, g, s') =
    Kept s s'
    × (((r ==ℤ pos 0) ≡ false)
        ⊎ ((r ≡ pos 0) × Gathering start end s' g [] × All (IsCut end) s'.vmas))

module _ (e : UnmapEnv) (laws : IsMapleTree e.split.tree) (start end : ℕ)
    (whole : end % 4096 ≡ 0) where
  -- What may pass the end after a vma that does not.
  pass-on :
      (s : Space) (next : Vma) (rest : List Vma)
      → next.vm_end ≤ end
      → All (λ w. IsCut end w ⊎ Mem w (next ∷ rest)) s.vmas
      → All (λ w. IsCut end w ⊎ Mem w rest) s.vmas
  pass-on s next rest h cover =
      All-map (λ w. IsCut end w ⊎ Mem w (next ∷ rest)) (λ w. IsCut end w ⊎ Mem w rest) s.vmas
        (λ w k. drop w k) cover
    where
      drop : (w : Vma) → IsCut end w ⊎ Mem w (next ∷ rest) → IsCut end w ⊎ Mem w rest
      drop w (inl c) = inl c
      drop w (inr (inl same)) = inl (inl (rw same h))
      drop w (inr (inr m)) = inr m

  none-ahead :
      (s : Space) (low : ℕ) (rest : List Vma)
      → end ≤ low
      → IsOrdered low rest
      → All (λ w. IsCut end w ⊎ Mem w rest) s.vmas
      → All (IsCut end) s.vmas
  none-ahead s low rest h o cover =
      All-map (λ w. IsCut end w ⊎ Mem w rest) (IsCut end) s.vmas (λ w k. cut w k) cover
    where
      cut : (w : Vma) → IsCut end w ⊎ Mem w rest → IsCut end w
      cut w (inl c) = c
      cut w (inr m) = inr (
          omega (
            arith,
            (All-Mem (λ x. (low ≤ x.vm_start) × IsVma x) w rest (IsOrdered-All low rest o) m).0,
          ))

  stops :
      {r : ℤ} (after : Vma)
      → r ≡ pos 0
      → ((r ==ℤ pos 0) && ltb after.vm_start end) ≡ false
      → end ≤ after.vm_start
  stops {r} after ok h = let zero : (r ==ℤ pos 0) ≡ true = rw ok refl in ground (arith, zero, h)

  -- At a vma beyond the end, nothing of the range is left.
  none-left :
      (s : Space) (g : Gathered) (after : Vma) (rest : List Vma)
      → Gathering start end s g (after ∷ rest)
      → end ≤ after.vm_start
      → IsVma after × IsOrdered after.vm_end rest
      → Gathering start end s g []
  none-left s g after rest h beyond (good, o) = record {
    accounted = h.accounted;
    cut = h.cut;
    sum = λ f. omega (
      arith,
      h.sum f,
      begun-above start end end f (after ∷ rest) (omega arith) (beyond, good, o),
    );
    count = h.count;
    locked = h.locked;
  }

  pub gather-IsDone :
      (s : Space) (g : Gathered) (next : Vma) (rest : List Vma)
      → Gathering start end s g (next ∷ rest)
      → IsAhead start end s next rest
      → IsDone start end s (gather e start end next rest g s)
  unfolding gather
  gather-IsDone s g next [] h ahead =
      let (kept, answer) = gather_one-Body e laws start end whole s g next [] h ahead in
      elim answer [
        | inl failed ↦ (kept, inl failed)
        | inr (ok, gathering, inl (within, same)) ↦ (
          kept,
          inr (
            ok,
            gathering,
            rw same (none-ahead s end [] (omega arith) tt (pass-on s next [] within ahead.cover)),
          ),
        )
        | inr (ok, gathering, inr (passes, cut)) ↦ (kept, inr (ok, gathering, cut))
      ]
  gather-IsDone s g next (after ∷ rest) h ahead =
      let (r, g', s') = gather_one e start end next g s in
      let (kept, answer) = gather_one-Body e laws start end whole s g next (after ∷ rest) h ahead in
      let (a, good, (b, good', o)) = ahead.ordered in
      elim (Bool-cases ((r ==ℤ pos 0) && ltb after.vm_start end)) [
        | inl again ↦ elim answer [
          | inl failed ↦ absurd (ground (arith, again, failed))
          | inr (ok, gathering, inr (passes, cut)) ↦ absurd (ground (arith, again))
          | inr (ok, gathering, inl (within, same)) ↦
              let later : IsAhead start end s after rest = record {
                ordered = (omega arith, good', o);
                first = ground (arith, again);
                members = ahead.members.1;
                cover = pass-on s next (after ∷ rest) within ahead.cover;
              } in
              let (kept', done) = gather-IsDone s' g' after rest gathering (rw same later) in
              rw (gather, again)
                (Kept-trans s s' (gather e start end after rest g' s').2 kept kept', done)
        ]
        | inr stop ↦
            rw (gather, stop)
              (
                kept,
                elim answer [
                  | inl failed ↦ inl failed
                  | inr (ok, gathering, side) ↦
                      let beyond : end ≤ after.vm_start = stops after ok stop in
                      inr (
                        ok,
                        none-left s' g' after rest gathering beyond (good', o),
                        elim side [
                          | inr (passes, cut) ↦ cut
                          | inl (within, same) ↦ rw same (
                              none-ahead s end (after ∷ rest) (omega arith) (beyond, good', o)
                                (pass-on s next (after ∷ rest) within ahead.cover))
                        ],
                      )
                ],
              )
      ]
