-- ===== src/Mm/Exit/Answer.antt =====
-- exit_mmap: every vma is closed, the count agrees, and the charge is given back.
use vd2024_so2_private_code.Base.{
  ℕ, ◌+◌, ◌-◌, ◌^◌, ◌≤◌, ◌<◌, ◌≡◌, inl, inr, refl, ap, ◌∙◌, List, [], ◌∷◌, some, true, false,
  if◌then◌else◌, arith, add64, sub64, Bool-cases, ◌==◌,
}
use vd2024_so2_private_code.Base.State.{puts}
use vd2024_so2_private_code.Mm.Types.{Vma, has, vm_account}
use vd2024_so2_private_code.Mm.Merge.{vma_pages}
use vd2024_so2_private_code.Mm.Space.{Space, mmap_write_unlock}
use vd2024_so2_private_code.Mm.Vmas.{total}
use vd2024_so2_private_code.Mm.Vmas.Accounted.{one}
use vd2024_so2_private_code.Mm.Unmap.{vm_unacct_memory}
use vd2024_so2_private_code.Mm.Unmap.Removed.{accounted_pages}
use vd2024_so2_private_code.Mm.Exit.{
  ExitEnv, lock_mmap, close_vmas, destroy, close_all, exit_found, exit_mmap,
}

-- The vmas before the first mark.
abbrev pub before_mark : ExitEnv → List Vma → List Vma
before_mark e [] = []
before_mark e (v ∷ vs) = let rest = before_mark e vs in if e.xa_is_zero v then [] else v ∷ rest

-- What is left of an address space: no vma, a free lock, and the charge of other processes.
abbrev pub ended : ExitEnv → Space → Space
ended e s = record s {
  vmas = [];
  mmap_lock = false;
  committed = s.committed - total accounted_pages (before_mark e s.vmas);
}

module _ (e : ExitEnv) where
  pair : {a b c d : ℕ} → a ≡ c → b ≡ d → ◌≡◌ {A = ℕ × ℕ} (a, b) (c, d)
  pair h k = λ i. (h i, k i)

  close_vmas_lem :
      (count nr : ℕ) (vma : Vma) (vs : List Vma)
      → nr + accounted_pages vma + total accounted_pages (before_mark e vs) < 2 ^ 64
      → count + 1 + total one (before_mark e vs) < 2 ^ 64
      → close_vmas e count nr vma vs ≡ (
        count + 1 + total one (before_mark e vs),
        nr + accounted_pages vma + total accounted_pages (before_mark e vs),
      )
  unfolding close_vmas
  close_vmas_lem count nr vma [] h k = ground arith
  close_vmas_lem count nr vma (next ∷ vs) h k = elim (Bool-cases (e.xa_is_zero next)) [
    | inl mark ↦ rw mark (ground arith)
    | inr more ↦
        let nr' = if has vma.vm_flags vm_account then add64 nr (vma_pages vma) else nr in
        let sum : nr' ≡ nr + accounted_pages vma = ground (arith, h) in
        let step : add64 count 1 ≡ count + 1 = omega (arith, k) in
        let h' : nr
              + accounted_pages vma
              + accounted_pages next
              + total accounted_pages (before_mark e vs)
            < 2 ^ 64 =
          ground (arith, more, h) in
        let k' : count + 2 + total one (before_mark e vs) < 2 ^ 64 = ground (arith, more, k) in
        let rest =
          close_vmas_lem (add64 count 1) nr' next vs (omega (arith, sum, h'))
            (omega (arith, step, k')) in
        rw more (rest ∙ pair (omega (arith, step)) (omega (arith, sum)))
  ]

  given_back :
      (n : ℕ) (s : Space)
      → n ≤ s.committed
      → s.committed < 2 ^ 64
      → puts (vm_unacct_memory n) s ≡ some (tt, record s { committed = s.committed - n })
  unfolding vm_unacct_memory
  given_back n s h k =
      let back : sub64 s.committed n ≡ s.committed - n = omega arith in
      ap (λ c. some (tt {0}, record s { committed = c })) back

  close_all_lem :
      (vma : Vma) (vs : List Vma) (s : Space)
      → s.mmap_lock ≡ true
      → s.mm.map_count ≡ 1 + total one (before_mark e vs)
      → s.mm.map_count < 2 ^ 64
      → accounted_pages vma + total accounted_pages (before_mark e vs) ≤ s.committed
      → s.committed < 2 ^ 64
      → close_all (close_vmas e 0 0 vma vs) s
        ≡ some (
          tt,
          record s {
            vmas = [];
            mmap_lock = false;
            committed =
                s.committed - (accounted_pages vma + total accounted_pages (before_mark e vs));
          },
        )
  unfolding close_all destroy mmap_write_unlock vm_unacct_memory
  close_all_lem vma vs s lock count small charged word =
      let charge = accounted_pages vma + total accounted_pages (before_mark e vs) in
      let closed : close_vmas e 0 0 vma vs ≡ (1 + total one (before_mark e vs), charge) =
        close_vmas_lem 0 0 vma vs (omega arith) (omega (arith, count))
        ∙ pair (omega arith) (omega arith) in
      let same : (1 + total one (before_mark e vs) == s.mm.map_count) ≡ true =
        ground (arith, count) in
      rw (closed, same, lock)
        (given_back charge (record s { vmas = []; mmap_lock = false }) charged word)

  exit_found_lem :
      (vs : List Vma) (s : Space)
      → s.mmap_lock ≡ true
      → s.mm.map_count ≡ total one (before_mark e vs)
      → s.mm.map_count < 2 ^ 64
      → total accounted_pages (before_mark e vs) ≤ s.committed
      → s.committed < 2 ^ 64
      → exit_found e vs s
        ≡ some (
          tt,
          record s {
            vmas = [];
            mmap_lock = false;
            committed = s.committed - total accounted_pages (before_mark e vs);
          },
        )
  unfolding exit_found destroy mmap_write_unlock lock_mmap vm_unacct_memory
  exit_found_lem [] s lock count small charged word =
      rw lock (given_back 0 (record s { vmas = []; mmap_lock = false }) (omega arith) word)
  exit_found_lem (v ∷ vs) s lock count small charged word = elim (Bool-cases (e.xa_is_zero v)) [
    | inl mark ↦
        rw (mark, lock)
          (given_back 0 (record s { vmas = []; mmap_lock = false }) (omega arith) word)
    | inr live ↦
        rw (live, lock)
          (close_all_lem v vs (record s { mmap_lock = true }) refl (ground (arith, live, count))
            small (ground (arith, live, charged)) word)
  ]

  -- exit_mmap on an address space whose count is that of its vmas, those before the mark of an
  -- interrupted copy, returns: the BUG_ON on the count does not fire and no lock is taken twice; no
  -- vma is left, the lock is free, and what was charged for those vmas is given back.
  pub exit_mmap-ended :
      (s : Space)
      → s.mmap_lock ≡ false
      → s.mm.map_count ≡ total one (before_mark e s.vmas)
      → s.mm.map_count < 2 ^ 64
      → total accounted_pages (before_mark e s.vmas) ≤ s.committed
      → s.committed < 2 ^ 64
      → exit_mmap e s ≡ some (tt, ended e s)
  unfolding exit_mmap lock_mmap
  exit_mmap-ended s free count small charged word =
      rw free (exit_found_lem s.vmas (record s { mmap_lock = true }) refl count small charged word)
