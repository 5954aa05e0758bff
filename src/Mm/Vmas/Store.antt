-- ===== src/Mm/Vmas/Store.antt =====
-- A vma stored where there was none, and a vma stored over one that it extends.
use vd2024_so2_private_code.Base.{
  ℕ, ◌+◌, ◌≤◌, ◌<◌, ◌≡◌, ◌⊎◌, inl, inr, sym, List, [], ◌∷◌, some, if◌then◌else◌, arith,
}
use vd2024_so2_private_code.Mm.Types.{Vma}
use vd2024_so2_private_code.Mm.Vmas.{
  All, Mem, total, IsVma, IsOrdered, IsApart, IsWithin, holds, at, begun, without, insert,
}
use vd2024_so2_private_code.Mm.Vmas.Order.{All-map, All-both, IsOrdered-All}
use vd2024_so2_private_code.Mm.Vmas.Member.{All-Mem, Mem-IsApart}
use vd2024_so2_private_code.Mm.Vmas.Pages.{
  begun-IsApart, IsOrdered-IsVma, IsOrdered-put, at-put, total-put,
}

-- What a stored vma leaves, where the vmas that it is stored over count `old`.
pub record IsStored (v : Vma) (old : (Vma → ℕ) → ℕ) (vs vs' : List Vma) : Type 0 where
  pub ordered : IsOrdered 0 vs'
  pub sum : (f : Vma → ℕ) → total f vs' + old f ≡ f v + total f vs
  pub at_addr : (addr : ℕ) → at vs' addr ≡ (if holds v addr then some v else at vs addr)

module _ (v : Vma) (good : IsVma v) (vs : List Vma) (o : IsOrdered 0 vs) where
  IsWithin-self : IsWithin v.vm_start v.vm_end v
  IsWithin-self = (omega arith, omega arith)

  pub free-fits :
      All (IsApart v.vm_start v.vm_end) vs
      → All (λ w. IsApart v.vm_start v.vm_end w ⊎ IsWithin v.vm_start v.vm_end w) vs
  free-fits apart =
      All-map (IsApart v.vm_start v.vm_end)
        (λ w. IsApart v.vm_start v.vm_end w ⊎ IsWithin v.vm_start v.vm_end w) vs (λ w h. inl h)
        apart

  pub free-IsStored :
      All (IsApart v.vm_start v.vm_end) vs
      → IsStored v (λ f. 0) vs (insert v (without v.vm_start v.vm_end vs))
  free-IsStored apart =
      let fits = free-fits apart in
      let good' = IsOrdered-IsVma 0 vs o in
      record {
        ordered = IsOrdered-put v.vm_start v.vm_end v IsWithin-self good vs o fits;
        sum = λ f. omega (
          arith,
          total-put v.vm_start v.vm_end v IsWithin-self good f vs,
          begun-IsApart v.vm_start v.vm_end f vs good' apart,
        );
        at_addr =
            λ addr. ground (arith, at-put v.vm_start v.vm_end v IsWithin-self good vs o fits addr);
      }

-- The one vma that begins in a range, the others being apart from it.
begun-only :
    (a b : ℕ) (f : Vma → ℕ) (old : Vma) (low : ℕ) (vs : List Vma)
    → IsOrdered low vs
    → Mem old vs
    → IsWithin a b old
    → All (λ w. (w.vm_start ≡ old.vm_start) ⊎ IsApart a b w) vs
    → total (begun a b f) vs ≡ f old
begun-only a b f old low [] o m i h = absurd m
begun-only a b f old low (w ∷ ws) (l, p, o) (inl e) i (q, h) =
    let p' : IsVma old = rw e p in
    let o' : IsOrdered old.vm_end ws = rw e o in
    let rest = others ws (IsOrdered-All old.vm_end ws o') h in
    rw (sym e) (
      omega (
        arith,
        begins-in old i.0 p'.0 i.1,
        begun-IsApart a b f ws (IsOrdered-IsVma old.vm_end ws o') (rest p'.0),
      ))
  where
    begins-in :
        (x : Vma) → a ≤ x.vm_start → x.vm_start < x.vm_end → x.vm_end ≤ b → begun a b f x ≡ f x
    begins-in x h k m = ground arith

    others :
        (xs : List Vma)
        → All (λ x. (old.vm_end ≤ x.vm_start) × IsVma x) xs
        → All (λ x. (x.vm_start ≡ old.vm_start) ⊎ IsApart a b x) xs
        → old.vm_start < old.vm_end
        → All (IsApart a b) xs
    others [] g k n = tt
    others (x ∷ xs) (r, g) (c, k) n = (ground arith, others xs g k n)
begun-only a b f old low (w ∷ ws) (l, p, o) (inr m) i (q, h) =
    let k =
      All-Mem (λ x. (w.vm_end ≤ x.vm_start) × IsVma x) old ws (IsOrdered-All w.vm_end ws o) m in
    ground (arith, begun-only a b f old w.vm_end ws o m i h)

-- The others are apart from a vma that `v` extends, and from what it is extended by.
module _ (v old : Vma) (good : IsVma v) (vs : List Vma) (o : IsOrdered 0 vs) (m : Mem old vs)
    (part : IsWithin v.vm_start v.vm_end old)
    (rest : All (λ w. (w.vm_start ≡ old.vm_start) ⊎ IsApart v.vm_start v.vm_end w) vs) where
  pub over-fits : All (λ w. IsApart v.vm_start v.vm_end w ⊎ IsWithin v.vm_start v.vm_end w) vs
  over-fits =
      All-map
        (λ w.
          ((w ≡ old) ⊎ IsApart old.vm_start old.vm_end w)
          × (IsVma w × ((w.vm_start ≡ old.vm_start) ⊎ IsApart v.vm_start v.vm_end w)))
        (λ w. IsApart v.vm_start v.vm_end w ⊎ IsWithin v.vm_start v.vm_end w) vs (λ w h. fit w h)
        (All-both (λ w. (w ≡ old) ⊎ IsApart old.vm_start old.vm_end w)
          (λ w. IsVma w × ((w.vm_start ≡ old.vm_start) ⊎ IsApart v.vm_start v.vm_end w)) vs
          (Mem-IsApart old 0 vs o m)
          (All-both IsVma (λ w. (w.vm_start ≡ old.vm_start) ⊎ IsApart v.vm_start v.vm_end w) vs
            (IsOrdered-IsVma 0 vs o) rest))
    where
      fit :
          (w : Vma)
          → ((w ≡ old) ⊎ IsApart old.vm_start old.vm_end w)
            × (IsVma w × ((w.vm_start ≡ old.vm_start) ⊎ IsApart v.vm_start v.vm_end w))
          → IsApart v.vm_start v.vm_end w ⊎ IsWithin v.vm_start v.vm_end w
      fit w (c, (g, inr apart)) = inl apart
      fit w (inl same, (g, inl start)) = inr (rw same part)
      fit w (inr apart, (g, inl start)) =
          let g' = All-Mem IsVma old vs (IsOrdered-IsVma 0 vs o) m in absurd (ground (arith, g'))

  pub over-IsStored : IsStored v (λ f. f old) vs (insert v (without v.vm_start v.vm_end vs))
  over-IsStored =
      let self : IsWithin v.vm_start v.vm_end v = (omega arith, omega arith) in
      record {
        ordered = IsOrdered-put v.vm_start v.vm_end v self good vs o over-fits;
        sum = λ f. omega (
          arith,
          total-put v.vm_start v.vm_end v self good f vs,
          begun-only v.vm_start v.vm_end f old 0 vs o m part rest,
        );
        at_addr =
            λ addr. ground (arith, at-put v.vm_start v.vm_end v self good vs o over-fits addr);
      }
