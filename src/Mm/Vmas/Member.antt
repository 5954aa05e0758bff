-- ===== src/Mm/Vmas/Member.antt =====
-- The vmas of a process after the fields of one of them are written, and the vmas before and after
-- one of them.
use vd2024_so2_private_code.Base.{
  ℕ, ◌≤◌, ◌<◌, ◌≡◌, ◌⊎◌, inl, inr, refl, sym, List, [], ◌∷◌, some, true, ◌&&◌, ltb, leb, arith,
  ==_self,
}
use vd2024_so2_private_code.Mm.Types.{Vma}
use vd2024_so2_private_code.Mm.Vmas.{
  All, Mem, total, IsVma, IsOrdered, IsApart, IsWithin, holds, at, begins, begun, without, insert,
  set_vma,
}
use vd2024_so2_private_code.Mm.Vmas.Order.{All-map, IsOrdered-All}

pub All-Mem : (P : Vma → Type 0) (v : Vma) (vs : List Vma) → All P vs → Mem v vs → P v
All-Mem P v [] a m = absurd m
All-Mem P v (w ∷ ws) (p, a) (inl e) = rw e p
All-Mem P v (w ∷ ws) (p, a) (inr m) = All-Mem P v ws a m

pub Mem-All : (P : Vma → Type 0) (vs : List Vma) → ((v : Vma) → Mem v vs → P v) → All P vs
Mem-All P [] h = tt
Mem-All P (w ∷ ws) h = (h w (inl refl), Mem-All P ws (λ v m. h v (inr m)))

module _ (v : Vma) where
  -- The other vmas are apart from one of them.
  pub Mem-IsApart :
      (low : ℕ) (vs : List Vma)
      → IsOrdered low vs
      → Mem v vs
      → All (λ w. (w ≡ v) ⊎ IsApart v.vm_start v.vm_end w) vs
  Mem-IsApart low [] o m = tt
  Mem-IsApart low (w ∷ ws) (l, p, o) (inl e) = (
    inl (sym e),
    All-map (λ x. (w.vm_end ≤ x.vm_start) × IsVma x) (λ x. (x ≡ v) ⊎ IsApart v.vm_start v.vm_end x)
        ws (λ x h. inr (inr (rw e (h.0)))) (IsOrdered-All w.vm_end ws o),
  )
  Mem-IsApart low (w ∷ ws) (l, p, o) (inr m) = (
    inr (
        inl
          (All-Mem (λ x. (w.vm_end ≤ x.vm_start) × IsVma x) v ws (IsOrdered-All w.vm_end ws o)
            m).0),
    Mem-IsApart w.vm_end ws o m,
  )

  pub at-Mem :
      (low : ℕ) (vs : List Vma) (addr : ℕ)
      → IsOrdered low vs
      → Mem v vs
      → holds v addr ≡ true
      → at vs addr ≡ some v
  at-Mem low [] addr o m h = absurd m
  at-Mem low (w ∷ ws) addr (l, p, o) (inl e) h = rw (sym e) ground (arith, h)
  at-Mem low (w ∷ ws) addr (l, p, o) (inr m) h =
      let k =
        All-Mem (λ x. (w.vm_end ≤ x.vm_start) × IsVma x) v ws (IsOrdered-All w.vm_end ws o) m in
      ground (arith, at-Mem w.vm_end ws addr o m h)

without-above :
    (start end low : ℕ) (vs : List Vma) → end ≤ low → IsOrdered low vs → without start end vs ≡ vs
without-above start end low [] h o = refl
without-above start end low (w ∷ ws) h (l, p, o) =
    ground (arith, without-above start end w.vm_end ws (omega arith) o)

pub begun-above :
    (start end low : ℕ) (f : Vma → ℕ) (vs : List Vma)
    → end ≤ low
    → IsOrdered low vs
    → total (begun start end f) vs ≡ 0
begun-above start end low f [] h o = refl
begun-above start end low f (w ∷ ws) h (l, p, o) =
    ground (arith, begun-above start end w.vm_end f ws (omega arith) o)

insert-above :
    (v : Vma) (low : ℕ) (vs : List Vma) → v.vm_end ≤ low → IsOrdered low vs → insert v vs ≡ v ∷ vs
insert-above v low [] h o = refl
insert-above v low (w ∷ ws) h (l, p, o) = ground arith

between : (a b c : ℕ) → a ≤ c → c < b → (leb a c && ltb c b) ≡ true
between a b c h k = ground arith

begins_self : (v : Vma) → IsVma v → begins v.vm_start v.vm_end v ≡ true
begins_self v h = between v.vm_start v.vm_end v.vm_start (omega arith) h.0

pub begun-Mem :
    (v : Vma) (f : Vma → ℕ) (low : ℕ) (vs : List Vma)
    → IsOrdered low vs
    → Mem v vs
    → total (begun v.vm_start v.vm_end f) vs ≡ f v
begun-Mem v f low [] o m = absurd m
begun-Mem v f low (w ∷ ws) (l, p, o) (inl e) =
    let p' : IsVma v = rw e p in
    let o' : IsOrdered v.vm_end ws = rw e o in
    rw (sym e, begins_self v p', begun-above v.vm_start v.vm_end v.vm_end f ws (omega arith) o')
      (omega arith)
begun-Mem v f low (w ∷ ws) (l, p, o) (inr m) =
    let k = All-Mem (λ x. (w.vm_end ≤ x.vm_start) × IsVma x) v ws (IsOrdered-All w.vm_end ws o) m in
    ground (arith, begun-Mem v f w.vm_end ws o m)

-- Writing the fields of a vma puts what it became in its place, when that is a part of it.
pub set_vma_lem :
    (old v : Vma) (low : ℕ) (vs : List Vma)
    → IsWithin old.vm_start old.vm_end v
    → IsVma v
    → IsOrdered low vs
    → Mem old vs
    → set_vma old v vs ≡ insert v (without old.vm_start old.vm_end vs)
unfolding set_vma
set_vma_lem old v low [] q g o m = absurd m
set_vma_lem old v low (w ∷ ws) q g (l, p, o) (inl e) =
    let p' : IsVma old = rw e p in
    let o' : IsOrdered old.vm_end ws = rw e o in
    rw
      (
        sym e,
        begins_self old p',
        ==_self old.vm_start,
        without-above old.vm_start old.vm_end old.vm_end ws (omega arith) o',
      )
      (sym (insert-above v old.vm_end ws q.1 o'))
set_vma_lem old v low (w ∷ ws) q g (l, p, o) (inr m) =
    let k =
      All-Mem (λ x. (w.vm_end ≤ x.vm_start) × IsVma x) old ws (IsOrdered-All w.vm_end ws o) m in
    ground (arith, set_vma_lem old v w.vm_end ws q g o m)
