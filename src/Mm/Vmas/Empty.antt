-- ===== src/Mm/Vmas/Empty.antt =====
-- A range without vmas is one where no address has a page.
use vd2024_so2_private_code.Base.{
  ℕ, ◌<◌, ◌≡◌, inl, inr, refl, List, [], ◌∷◌, none, true, ltb, leb, ◌&&◌, arith, max, min,
  Bool-cases,
}
use vd2024_so2_private_code.Mm.Types.{Vma}
use vd2024_so2_private_code.Mm.Vmas.{All, Mem, IsVma, IsOrdered, IsApart, holds, at, page}
use vd2024_so2_private_code.Mm.Vmas.Member.{All-Mem, Mem-All, at-Mem}
use vd2024_so2_private_code.Mm.Vmas.Pages.{IsOrdered-IsVma}

pub at-IsApart :
    (start end : ℕ) (vs : List Vma) (addr : ℕ)
    → All IsVma vs
    → All (IsApart start end) vs
    → (leb start addr && ltb addr end) ≡ true
    → at vs addr ≡ none
at-IsApart start end [] addr g a h = refl
at-IsApart start end (w ∷ ws) addr (p, g) (q, a) h =
    ground (arith, at-IsApart start end ws addr g a h)

pub page-IsApart :
    (start end : ℕ) (vs : List Vma)
    → start < end
    → IsOrdered 0 vs
    → ((addr : ℕ) → (leb start addr && ltb addr end) ≡ true → page vs addr ≡ none)
    → All (IsApart start end) vs
page-IsApart start end vs n o empty = Mem-All (IsApart start end) vs (λ v m. apart v m)
  where
    apart : (v : Vma) → Mem v vs → IsApart start end v
    apart v m =
        let good = All-Mem IsVma v vs (IsOrdered-IsVma 0 vs o) m in
        let a = max start v.vm_start in
        elim (Bool-cases (ltb a (min end v.vm_end))) [
          | inr beside ↦ ground (arith, beside, good)
          | inl meets ↦
              let inside : (leb start a && ltb a end) ≡ true = ground (arith, meets) in
              let here : holds v a ≡ true = ground (arith, meets) in
              absurd (ground (arith, at-Mem v 0 vs a o m here, empty a inside))
        ]
