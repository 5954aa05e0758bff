-- ===== src/Mm/Stack/Fault.antt =====
-- What expand_stack of mm/mmap.c holds when it returns to a page fault.
use vd2024_so2_private_code.Base.{
  ℕ, ◌^◌, ◌≤◌, ◌<◌, ◌≡◌, refl, sym, inl, inr, Option-cases, arith, Option, none, some, false,
}
use vd2024_so2_private_code.Mm.Types.{Vma}
use vd2024_so2_private_code.Mm.Tree.{IsTree}
use vd2024_so2_private_code.Mm.Area.{find_vma_prev}
use vd2024_so2_private_code.Mm.Stack.{
  unlocked, read_locked, write_locked, Stack, GrowEnv, mmap_read_unlock, finish_expand,
  find_and_expand, look_again, expand_stack,
}
use vd2024_so2_private_code.Mm.Stack.Growth.{IsPaged, expand_downwards-Expands}

-- No vma and the lock dropped, or a vma that holds the address and the lock held for reading.
abbrev pub Faulted : ℕ → Option (Option Vma × Stack) → Type 0
Faulted addr none = ⊥
Faulted addr (some (none, s)) = s.mmap_lock ≡ unlocked
Faulted addr (some (some v, s)) =
    (v.vm_start ≤ addr) × (addr < v.vm_end) × (s.mmap_lock ≡ read_locked)

-- What others may do to a vma before its anon_vma is locked: they may expand it downwards.
abbrev pub IsRaced : Vma → Vma → Type 0
IsRaced vma raced = IsPaged raced × (raced.vm_end ≡ vma.vm_end)

module _ (e : GrowEnv) (laws : IsTree e.tree) (addr : ℕ) (word : addr < 2 ^ 64) where
  -- The search finds a vma that ends above the address.
  found-above : (vma : Vma) → (find_vma_prev e.tree addr).0 ≡ some vma → addr < vma.vm_end
  unfolding find_vma_prev
  found-above vma found = elim (Option-cases (e.tree.mas_walk addr)) [
    | inr (v, at) ↦
        let same : v ≡ vma = ground (arith, at, found) in
        let ends : addr < v.vm_end = (laws.walk addr v at).1 in rw (sym same) ends
    | inl hole ↦
        let next : e.tree.mas_next addr ≡ some vma = ground (arith, hole, found) in
        omega (arith, laws.next addr vma next)
  ]

  find_and_expand-Faulted :
      (found : Option Vma) (s : Stack)
      → s.mmap_lock ≡ write_locked
      → s.anon_lock ≡ false
      → s.mm.total_vm < 2 ^ 64
      → ((vma : Vma) → found ≡ some vma → IsRaced vma (e.raced vma) × (addr < vma.vm_end))
      → Faulted addr (find_and_expand e addr found s)
  unfolding find_and_expand finish_expand
  find_and_expand-Faulted none s w a t h = ground arith
  find_and_expand-Faulted (some vma) s w a t h =
      let x = (e.raced vma).vm_start in
      let ((paged, end), above) = h vma refl in
      let expands = expand_downwards-Expands e vma addr x s paged t (omega arith) a word in
      ground (arith, expands, end, above)

  -- expand_stack is called with the lock held for reading. If it returns a vma, that holds the
  -- address and the lock is held for reading again; if it returns none, it has dropped the lock,
  -- also where a signal came. Others may have expanded the vma that the search found, whose end they
  -- do not move.
  pub expand_stack-Faulted :
      (s : Stack)
      → s.mmap_lock ≡ read_locked
      → s.anon_lock ≡ false
      → s.mm.total_vm < 2 ^ 64
      → ((vma : Vma) → (find_vma_prev e.tree addr).0 ≡ some vma → IsRaced vma (e.raced vma))
      → Faulted addr (expand_stack e addr s)
  unfolding expand_stack mmap_read_unlock look_again
  expand_stack-Faulted s r a t h =
      let faulted =
        find_and_expand-Faulted (find_vma_prev e.tree addr).0
          (record s { mmap_lock = write_locked }) refl a t
          (λ vma found. (h vma found, found-above vma found)) in
      ground (arith, r, faulted)
