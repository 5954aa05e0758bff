-- ===== src/Mm/Vmas/Pages.antt =====
-- One vma put in the place of a range: what becomes of the order, of sums and of the vma at each
-- address.
use vd2024_so2_private_code.Base.{
  ℕ, ◌+◌, ◌≤◌, ◌≡◌, ◌⊎◌, refl, List, [], ◌∷◌, none, some, ◌&&◌, ltb, leb, if◌then◌else◌, arith,
}
use vd2024_so2_private_code.Mm.Types.{Vma}
use vd2024_so2_private_code.Mm.Vmas.{
  All, total, IsVma, IsOrdered, IsApart, IsWithin, holds, at, begun, without, insert,
}
use vd2024_so2_private_code.Mm.Vmas.Order.{
  All-map, IsOrdered-All, IsOrdered-without, total-without, All-without-IsApart, at-without,
  All-insert, IsOrdered-insert, total-insert, at-insert,
}

pub IsOrdered-IsVma : (low : ℕ) (vs : List Vma) → IsOrdered low vs → All IsVma vs
IsOrdered-IsVma low vs o =
    All-map (λ w. (low ≤ w.vm_start) × IsVma w) IsVma vs (λ w h. h.1) (IsOrdered-All low vs o)

pub begun-IsApart :
    (a b : ℕ) (f : Vma → ℕ) (vs : List Vma)
    → All IsVma vs
    → All (IsApart a b) vs
    → total (begun a b f) vs ≡ 0
begun-IsApart a b f [] g h = refl
begun-IsApart a b f (v ∷ vs) (p, g) (q, h) = ground (arith, begun-IsApart a b f vs g h)

module _ (a b : ℕ) (v : Vma) (part : IsWithin a b v) (good : IsVma v) where
  -- What holds of `v` and of the vmas outside of the range.
  pub All-put :
      (P : Vma → Type 0) (vs : List Vma)
      → All IsVma vs
      → All (λ w. IsWithin a b w ⊎ P w) vs
      → P v
      → All P (insert v (without a b vs))
  All-put P vs g h p = All-insert v P (without a b vs) p (kept vs g h)
    where
      kept :
          (ws : List Vma)
          → All IsVma ws
          → All (λ w. IsWithin a b w ⊎ P w) ws
          → All P (without a b ws)
      kept [] g h = tt
      kept (w ∷ ws) (p, g) (q, h) = ground (arith, kept ws g h)

  module _ (vs : List Vma) (o : IsOrdered 0 vs)
      (fits : All (λ w. IsApart a b w ⊎ IsWithin a b w) vs) where
    free : All (IsApart v.vm_start v.vm_end) (without a b vs)
    free =
        All-map (IsApart a b) (IsApart v.vm_start v.vm_end) (without a b vs) (λ w h. narrow w h)
          (All-without-IsApart a b vs fits (IsOrdered-IsVma 0 vs o))
      where
        narrow : (w : Vma) → IsApart a b w → IsApart v.vm_start v.vm_end w
        narrow w h = ground arith

    pub IsOrdered-put : IsOrdered 0 (insert v (without a b vs))
    IsOrdered-put =
        IsOrdered-insert v 0 (without a b vs) (IsOrdered-without a b 0 vs o) (omega arith) good free

    pub at-put :
        (addr : ℕ)
        → at (insert v (without a b vs)) addr ≡ (
            if holds v addr
            then some v
            else (if leb a addr && ltb addr b then none else at vs addr))
    at-put addr =
        rw
          (
            at-insert v (without a b vs) addr free,
            at-without a b vs addr fits (IsOrdered-IsVma 0 vs o),
          )
          refl

  pub total-put :
      (f : Vma → ℕ) (vs : List Vma)
      → total f (insert v (without a b vs)) + total (begun a b f) vs ≡ f v + total f vs
  total-put f vs = omega (arith, total-insert v f (without a b vs), total-without a b f vs)
