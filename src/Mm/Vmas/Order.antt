-- ===== src/Mm/Vmas/Order.antt =====
-- The vmas of a process after one is put in or a range is taken out: their order, their sums and
-- what is at each address.
use vd2024_so2_private_code.Base.{
  ℕ, ◌+◌, ◌≤◌, ◌≡◌, ◌⊎◌, inl, inr, refl, sym, List, [], ◌∷◌, none, some, false, ◌&&◌, ltb, leb,
  if◌then◌else◌, arith,
}
use vd2024_so2_private_code.Mm.Types.{Vma}
use vd2024_so2_private_code.Mm.Vmas.{
  All, Mem, total, IsVma, IsOrdered, IsApart, IsWithin, holds, at, begins, begun, without, insert,
}

pub All-map : (P Q : Vma → Type 0) (vs : List Vma) → ((v : Vma) → P v → Q v) → All P vs → All Q vs
All-map P Q [] h a = tt
All-map P Q (v ∷ vs) h a = (h v a.0, All-map P Q vs h a.1)

pub All-both : (P Q : Vma → Type 0) (vs : List Vma) → All P vs → All Q vs → All (λ v. P v × Q v) vs
All-both P Q [] a b = tt
All-both P Q (v ∷ vs) a b = ((a.0, b.0), All-both P Q vs a.1 b.1)

above :
    (v : Vma)
    → IsVma v
    → (low : ℕ) → low ≤ v.vm_start
    → (w : Vma) → v.vm_end ≤ w.vm_start
    → low ≤ w.vm_start
above v h low l w k = omega arith

pub IsOrdered-All :
    (low : ℕ) (vs : List Vma) → IsOrdered low vs → All (λ w. (low ≤ w.vm_start) × IsVma w) vs
IsOrdered-All low [] o = tt
IsOrdered-All low (v ∷ vs) (l, h, o) = (
  (l, h),
  All-map (λ w. (v.vm_end ≤ w.vm_start) × IsVma w) (λ w. (low ≤ w.vm_start) × IsVma w) vs
      (λ w k. (above v h low l w k.0, k.1)) (IsOrdered-All v.vm_end vs o),
)

pub IsOrdered-below :
    (low low' : ℕ) (vs : List Vma) → low' ≤ low → IsOrdered low vs → IsOrdered low' vs
IsOrdered-below low low' [] h o = tt
IsOrdered-below low low' (v ∷ vs) h (l, p, o) = (omega arith, p, o)

module _ (start end : ℕ) where
  pub All-without : (P : Vma → Type 0) (vs : List Vma) → All P vs → All P (without start end vs)
  All-without P [] a = tt
  All-without P (v ∷ vs) (p, a) = ground (arith, All-without P vs a)

  pub IsOrdered-without :
      (low : ℕ) (vs : List Vma) → IsOrdered low vs → IsOrdered low (without start end vs)
  IsOrdered-without low [] o = tt
  IsOrdered-without low (v ∷ vs) (l, h, o) =
      ground (
        arith,
        IsOrdered-without v.vm_end vs o,
        IsOrdered-below v.vm_end low (without start end vs),
      )

  pub total-without :
      (f : Vma → ℕ) (vs : List Vma)
      → total f (without start end vs) + total (begun start end f) vs ≡ total f vs
  total-without f [] = omega arith
  total-without f (v ∷ vs) = ground (arith, total-without f vs)

  -- Where every vma is in the range or outside, none is left in it.
  pub All-without-IsApart :
      (vs : List Vma)
      → All (λ w. IsApart start end w ⊎ IsWithin start end w) vs
      → All IsVma vs
      → All (IsApart start end) (without start end vs)
  All-without-IsApart [] a o = tt
  All-without-IsApart (v ∷ vs) (h, a) (p, o) = ground (arith, All-without-IsApart vs a o)

  pub at-without :
      (vs : List Vma) (addr : ℕ)
      → All (λ w. IsApart start end w ⊎ IsWithin start end w) vs
      → All IsVma vs
      → at (without start end vs) addr
        ≡ (if leb start addr && ltb addr end then none else at vs addr)
  at-without [] addr a o = ground arith
  at-without (v ∷ vs) addr (h, a) (p, o) = ground (arith, at-without vs addr a o)

module _ (v : Vma) where
  pub All-insert : (P : Vma → Type 0) (vs : List Vma) → P v → All P vs → All P (insert v vs)
  All-insert P [] p a = (p, tt)
  All-insert P (w ∷ ws) p (q, a) = ground (arith, All-insert P ws p a)

  pub Mem-insert : (vs : List Vma) → Mem v (insert v vs)
  Mem-insert [] = inl refl
  Mem-insert (w ∷ ws) = ground (arith, Mem-insert ws)

  pub IsOrdered-insert :
      (low : ℕ) (vs : List Vma)
      → IsOrdered low vs
      → low ≤ v.vm_start
      → IsVma v
      → All (IsApart v.vm_start v.vm_end) vs
      → IsOrdered low (insert v vs)
  IsOrdered-insert low [] o l h a = (l, h, tt)
  IsOrdered-insert low (w ∷ ws) (k, p, o) l h (q, a) =
      ground (arith, IsOrdered-insert w.vm_end ws o)

  pub total-insert : (f : Vma → ℕ) (vs : List Vma) → total f (insert v vs) ≡ f v + total f vs
  total-insert f [] = refl
  total-insert f (w ∷ ws) = ground (arith, total-insert f ws)

  pub at-insert :
      (vs : List Vma) (addr : ℕ)
      → All (IsApart v.vm_start v.vm_end) vs
      → at (insert v vs) addr ≡ (if holds v addr then some v else at vs addr)
  at-insert [] addr a = refl
  at-insert (w ∷ ws) addr (h, a) = ground (arith, at-insert ws addr a)

  pub Mem-insert-other : (w : Vma) (vs : List Vma) → Mem w vs → Mem w (insert v vs)
  Mem-insert-other w [] m = absurd m
  Mem-insert-other w (x ∷ xs) m = ground (arith, Mem-insert-other w xs)

pub Mem-without :
    (a b : ℕ) (w : Vma) (vs : List Vma) → begins a b w ≡ false → Mem w vs → Mem w (without a b vs)
Mem-without a b w [] h m = absurd m
Mem-without a b w (x ∷ xs) h (inl e) = let h' : begins a b x ≡ false = rw (sym e) h in rw h' (inl e)
Mem-without a b w (x ∷ xs) h (inr m) = ground (arith, Mem-without a b w xs h m)
