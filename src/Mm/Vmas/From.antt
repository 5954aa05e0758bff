-- ===== src/Mm/Vmas/From.antt =====
-- The vmas that an iterator meets after one of them.
use vd2024_so2_private_code.Base.{
  ℕ, ◌+◌, ◌≤◌, ◌≡◌, ◌⊎◌, inl, inr, refl, sym, List, [], ◌∷◌, arith, lt→ltb,
}
use vd2024_so2_private_code.Mm.Types.{Vma}
use vd2024_so2_private_code.Mm.Vmas.{All, Mem, total, IsVma, IsOrdered, from}
use vd2024_so2_private_code.Mm.Vmas.Order.{IsOrdered-All}
use vd2024_so2_private_code.Mm.Vmas.Member.{All-Mem, Mem-All}

from-above : (x low : ℕ) (vs : List Vma) → x ≤ low → IsOrdered low vs → from x vs ≡ vs
from-above x low [] h o = refl
from-above x low (w ∷ ws) h (l, p, o) = ground arith

module _ (v : Vma) (good : IsVma v) where
  -- One of the vmas, with those after it, for vmas that begin with another.
  from-Mem :
      (low : ℕ) (w : Vma) (ws : List Vma)
      → IsOrdered low (w ∷ ws)
      → Mem v ws
      → (from v.vm_end (w ∷ ws) ≡ from v.vm_end ws) × (w.vm_end ≤ v.vm_start)
  from-Mem low w ws (l, p, o) m =
      let k =
        All-Mem (λ x. (w.vm_end ≤ x.vm_start) × IsVma x) v ws (IsOrdered-All w.vm_end ws o) m in
      (ground (arith, k), k.0)

  from_self :
      (low : ℕ) (w : Vma) (ws : List Vma)
      → IsOrdered low (w ∷ ws)
      → v ≡ w
      → from v.vm_end (w ∷ ws) ≡ ws
  from_self low w ws (l, p, o) e =
      let o' : IsOrdered v.vm_end ws = rw e o in
      rw (sym e, lt→ltb v.vm_start v.vm_end good.0)
        (from-above v.vm_end v.vm_end ws (omega arith) o')

  pub from-IsOrdered :
      (low : ℕ) (vs : List Vma)
      → IsOrdered low vs
      → Mem v vs
      → IsOrdered v.vm_end (from v.vm_end vs)
  from-IsOrdered low [] o m = absurd m
  from-IsOrdered low (w ∷ ws) o (inl e) = rw (from_self low w ws o e) (rw e (o.2))
  from-IsOrdered low (w ∷ ws) o (inr m) =
      rw (from-Mem low w ws o m).0 (from-IsOrdered w.vm_end ws o.2 m)

  pub from-All : (P : Vma → Type 0) (vs : List Vma) → All P vs → All P (from v.vm_end vs)
  from-All P [] a = tt
  from-All P (w ∷ ws) (p, a) = ground (arith, from-All P ws a)

  -- Each vma ends before this one, or is it, or comes after it.
  from-each :
      (low : ℕ) (vs : List Vma) (x : Vma)
      → IsOrdered low vs
      → Mem v vs
      → Mem x vs
      → (x.vm_end ≤ v.vm_start) ⊎ Mem x (v ∷ from v.vm_end vs)
  from-each low [] x o m k = absurd m
  from-each low (w ∷ ws) x o (inl e) k =
      rw (from_self low w ws o e) (inr (elim k [ inl i ↦ inl (rw e i) | inr i ↦ inr i ]))
  from-each low (w ∷ ws) x o (inr m) (inl e) = inl (rw e (from-Mem low w ws o m).1)
  from-each low (w ∷ ws) x o (inr m) (inr k) =
      rw (from-Mem low w ws o m).0 (from-each w.vm_end ws x o.2 m k)

  pub from-cover :
      (low : ℕ) (vs : List Vma)
      → IsOrdered low vs
      → Mem v vs
      → All (λ w. (w.vm_end ≤ v.vm_start) ⊎ Mem w (v ∷ from v.vm_end vs)) vs
  from-cover low vs o m =
      Mem-All (λ w. (w.vm_end ≤ v.vm_start) ⊎ Mem w (v ∷ from v.vm_end vs)) vs
        (λ x k. from-each low vs x o m k)

  -- What counts only from this vma on is summed over it and those after it.
  pub from-total :
      (f : Vma → ℕ) (low : ℕ) (vs : List Vma)
      → IsOrdered low vs
      → Mem v vs
      → All (λ w. (w.vm_end ≤ v.vm_start) → f w ≡ 0) vs
      → total f vs ≡ f v + total f (from v.vm_end vs)
  from-total f low [] o m a = absurd m
  from-total f low (w ∷ ws) o (inl e) a = rw (from_self low w ws o e) (rw e refl)
  from-total f low (w ∷ ws) o (inr m) (q, a) =
      let (same, before) = from-Mem low w ws o m in
      rw same (omega (arith, q before, from-total f w.vm_end ws o.2 m a))
