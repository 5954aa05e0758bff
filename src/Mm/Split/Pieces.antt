-- ===== src/Mm/Split/Pieces.antt =====
-- A vma cut in two in the list of vmas: the pieces cover it, and at each address they have the page
-- that it had.
use vd2024_so2_private_code.Base.{
  ℕ, ◌+◌, ◌%◌, ◌<◌, ◌≡◌, ◌⊎◌, inl, inr, List, some, Bool, true, if◌then◌else◌, arith,
}
use vd2024_so2_private_code.Mm.Types.{Vma}
use vd2024_so2_private_code.Mm.Vmas.{
  All, Mem, total, IsVma, IsOrdered, IsApart, IsWithin, holds, at, page, page_of, without, insert,
}
use vd2024_so2_private_code.Mm.Vmas.Order.{All-map, Mem-insert, Mem-insert-other, Mem-without}
use vd2024_so2_private_code.Mm.Vmas.Member.{Mem-IsApart, at-Mem, begun-Mem}
use vd2024_so2_private_code.Mm.Vmas.Pages.{
  begun-IsApart, IsOrdered-IsVma, All-put, IsOrdered-put, at-put, total-put,
}
use vd2024_so2_private_code.Mm.Merge.{vma_pages}
use vd2024_so2_private_code.Mm.Vmas.Accounted.{locked_pages}
use vd2024_so2_private_code.Mm.Split.{split_pieces}

-- `new` and `rest` are the parts of `vma` below and above an address, in either order.
abbrev pub AreParts : Vma → Vma → Vma → Type 0
AreParts vma new rest =
    IsWithin vma.vm_start vma.vm_end new
    × IsWithin vma.vm_start vma.vm_end rest
    × IsVma new
    × IsVma rest
    × (((vma.vm_start ≡ new.vm_start) × (new.vm_end ≡ rest.vm_start) × (rest.vm_end ≡ vma.vm_end))
        ⊎ ((vma.vm_start ≡ rest.vm_start)
            × (rest.vm_end ≡ new.vm_start)
            × (new.vm_end ≡ vma.vm_end)))

pub split_pieces-AreParts :
    (vma : Vma) (chain : List ℕ) (addr : ℕ) (below : Bool)
    → IsVma vma
    → vma.vm_start < addr
    → addr < vma.vm_end
    → addr % 4096 ≡ 0
    → let (new, rest) = split_pieces vma chain addr below in AreParts vma new rest
unfolding split_pieces
split_pieces-AreParts vma chain addr below g h k m = ground arith

pub split_pieces-page :
    (vma : Vma) (chain : List ℕ) (addr : ℕ) (below : Bool) (a : ℕ)
    → IsVma vma
    → vma.vm_start < addr
    → addr < vma.vm_end
    → addr % 4096 ≡ 0
    → let (new, rest) = split_pieces vma chain addr below in
      (holds new a ≡ true → page_of new a ≡ page_of vma a)
      × (holds rest a ≡ true → page_of rest a ≡ page_of vma a)
unfolding split_pieces
split_pieces-page vma chain addr below a g h k m = ground arith

pub split_pieces-pages :
    (vma : Vma) (chain : List ℕ) (addr : ℕ) (below : Bool)
    → IsVma vma
    → vma.vm_start < addr
    → addr < vma.vm_end
    → addr % 4096 ≡ 0
    → let (new, rest) = split_pieces vma chain addr below in
      (vma_pages new + vma_pages rest ≡ vma_pages vma)
      × (locked_pages new + locked_pages rest ≡ locked_pages vma)
unfolding split_pieces
split_pieces-pages vma chain addr below g h k m = ground arith

-- The other vmas are apart from the one that is cut.
pub others :
    (vma : Vma) (vs : List Vma)
    → IsOrdered 0 vs
    → Mem vma vs
    → All (λ w. IsApart vma.vm_start vma.vm_end w ⊎ IsWithin vma.vm_start vma.vm_end w) vs
others vma vs o m =
    All-map (λ w. (w ≡ vma) ⊎ IsApart vma.vm_start vma.vm_end w)
      (λ w. IsApart vma.vm_start vma.vm_end w ⊎ IsWithin vma.vm_start vma.vm_end w) vs
      (λ w h. swap w h) (Mem-IsApart vma 0 vs o m)
  where
    swap :
        (w : Vma)
        → (w ≡ vma) ⊎ IsApart vma.vm_start vma.vm_end w
        → IsApart vma.vm_start vma.vm_end w ⊎ IsWithin vma.vm_start vma.vm_end w
    swap w (inl e) = inr (rw e (omega arith))
    swap w (inr h) = inl h

-- The list after the cut.
abbrev pub cut_vmas : Vma → Vma → Vma → List Vma → List Vma
cut_vmas vma new rest vs =
    insert new (without new.vm_start new.vm_end (insert rest (without vma.vm_start vma.vm_end vs)))

module _ (vma new rest : Vma) (vs : List Vma) (o : IsOrdered 0 vs) (m : Mem vma vs)
    (parts : AreParts vma new rest) where
  pub kept-IsOrdered : IsOrdered 0 (insert rest (without vma.vm_start vma.vm_end vs))
  kept-IsOrdered =
      IsOrdered-put vma.vm_start vma.vm_end rest parts.1 parts.3 vs o (others vma vs o m)

  kept-IsApart :
      All (IsApart new.vm_start new.vm_end) (insert rest (without vma.vm_start vma.vm_end vs))
  kept-IsApart =
      All-put vma.vm_start vma.vm_end rest parts.1 parts.3 (IsApart new.vm_start new.vm_end) vs
        (IsOrdered-IsVma 0 vs o)
        (All-map (λ w. IsApart vma.vm_start vma.vm_end w ⊎ IsWithin vma.vm_start vma.vm_end w)
          (λ w. IsWithin vma.vm_start vma.vm_end w ⊎ IsApart new.vm_start new.vm_end w) vs
          (λ w h. narrow w h) (others vma vs o m))
        (ground arith)
    where
      narrow :
          (w : Vma)
          → IsApart vma.vm_start vma.vm_end w ⊎ IsWithin vma.vm_start vma.vm_end w
          → IsWithin vma.vm_start vma.vm_end w ⊎ IsApart new.vm_start new.vm_end w
      narrow w h = ground arith

  pub kept-fits :
      All
        (λ w. IsApart new.vm_start new.vm_end w ⊎ IsWithin new.vm_start new.vm_end w)
        (insert rest (without vma.vm_start vma.vm_end vs))
  kept-fits =
      All-map (IsApart new.vm_start new.vm_end)
        (λ w. IsApart new.vm_start new.vm_end w ⊎ IsWithin new.vm_start new.vm_end w)
        (insert rest (without vma.vm_start vma.vm_end vs)) (λ w h. inl h) kept-IsApart

  self : IsWithin new.vm_start new.vm_end new
  self = (omega arith, omega arith)

  pub cut-IsOrdered : IsOrdered 0 (cut_vmas vma new rest vs)
  cut-IsOrdered =
      IsOrdered-put new.vm_start new.vm_end new self parts.2
        (insert rest (without vma.vm_start vma.vm_end vs)) kept-IsOrdered kept-fits

  pub cut-total :
      (f : Vma → ℕ) → total f (cut_vmas vma new rest vs) + f vma ≡ f new + f rest + total f vs
  cut-total f =
      let ms = insert rest (without vma.vm_start vma.vm_end vs) in
      omega (
        arith,
        total-put new.vm_start new.vm_end new self parts.2 f ms,
        total-put vma.vm_start vma.vm_end rest parts.1 parts.3 f vs,
        begun-Mem vma f 0 vs o m,
        begun-IsApart new.vm_start new.vm_end f ms (IsOrdered-IsVma 0 ms kept-IsOrdered)
            kept-IsApart,
      )

  pub cut-All :
      (P : Vma → Type 0)
      → All (λ w. IsWithin vma.vm_start vma.vm_end w ⊎ P w) vs
      → P new
      → P rest
      → All P (cut_vmas vma new rest vs)
  cut-All P a p q =
      let ms = insert rest (without vma.vm_start vma.vm_end vs) in
      All-put new.vm_start new.vm_end new self parts.2 P ms (IsOrdered-IsVma 0 ms kept-IsOrdered)
        (All-map P (λ w. IsWithin new.vm_start new.vm_end w ⊎ P w) ms (λ w h. inr h)
          (All-put vma.vm_start vma.vm_end rest parts.1 parts.3 P vs (IsOrdered-IsVma 0 vs o) a q))
        p

  pub cut-at :
      (addr : ℕ)
      → at (cut_vmas vma new rest vs) addr
        ≡ (if holds new addr then some new else (if holds rest addr then some rest else at vs addr))
  cut-at addr =
      let ms = insert rest (without vma.vm_start vma.vm_end vs) in
      ground (
        arith,
        at-put new.vm_start new.vm_end new self parts.2 ms kept-IsOrdered kept-fits addr,
        at-put vma.vm_start vma.vm_end rest parts.1 parts.3 vs o (others vma vs o m) addr,
      )

  pub cut-Mem : Mem rest (cut_vmas vma new rest vs)
  cut-Mem =
      let ms = insert rest (without vma.vm_start vma.vm_end vs) in
      Mem-insert-other new rest (without new.vm_start new.vm_end ms) (
        Mem-without new.vm_start new.vm_end rest ms (ground arith)
          (Mem-insert rest (without vma.vm_start vma.vm_end vs)))

  pub cut-page :
      (addr : ℕ)
      → (holds new addr ≡ true → page_of new addr ≡ page_of vma addr)
        × (holds rest addr ≡ true → page_of rest addr ≡ page_of vma addr)
      → page (cut_vmas vma new rest vs) addr ≡ page vs addr
  cut-page addr (h, k) = rw (cut-at addr) (ground (arith, at-Mem vma 0 vs addr o m))
