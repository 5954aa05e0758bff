-- ===== src/Mm/Brk.antt =====
-- mm/mmap.c, the system call brk with the check of main.c in it, and check_brk_limits.
pub mod Answer
pub mod Pages
use vd2024_so2_private_code.Base.{
  ℕ, ◌+◌, ◌-◌, ◌*◌, ◌^◌, ◌≡◌, List, [], ◌∷◌, Option, none, some, Bool, true, false, not, ◌&&◌, ltb,
  leb, ◌==◌, if◌then◌else◌, ℤ, pos, neg, is_neg, ◌==ℤ◌, add64, sub64, page_align, page_size,
  is_err_value, err64, eintr, eagain,
}
use vd2024_so2_private_code.Base.State.{M, ◌>>=◌, ◌>>◌, ret, gets, puts, deref}
use vd2024_so2_private_code.Limits.{Env, Kernel, is_request_accepted}
use vd2024_so2_private_code.Mm.Types.{Vma, MmStruct, Rlimits, has, vm_locked}
use vd2024_so2_private_code.Mm.Space.{Space, mmap_write_lock_killable, mmap_write_unlock}
use vd2024_so2_private_code.Mm.Accounting.{mlock_future_ok}
use vd2024_so2_private_code.Mm.Area.{Layout, AreaFunctions, get_unmapped_area, map_fixed}

-- What brk takes from the rest of the kernel. `interrupted` is whether a fatal signal ends the wait
-- for the lock, and `brk_randomized` is `none` without CONFIG_COMPAT_BRK.
pub record BrkEnv : Type 0 where
  pub usac : Env
  pub pid : ℤ
  pub interrupted : Bool
  pub brk_randomized : Option Bool
  pub rlimits : Rlimits
  pub layout : Layout
  pub areas : AreaFunctions
  pub stack_guard_gap : ℕ
  pub vm_start_gap : Vma → ℕ
  pub check_data_rlimit : ℕ → ℕ → ℕ → ℕ → ℕ → Bool
  pub vma_find : List Vma → ℕ → ℕ → Option Vma
  pub vma_prev_limit : List Vma → ℕ → ℕ → Option Vma

-- The two operations on the address space that brk ends in.
pub record BrkOps : Type 0 where
  pub do_vma_munmap : Vma → ℕ → ℕ → Space → ℤ × Space
  pub do_brk_flags : Option Vma → ℕ → ℕ → ℕ → Space → ℤ × Space

-- What brk relies on: do_vma_munmap drops the lock on success only, do_brk_flags keeps it, and
-- neither touches the break or the limits.
pub record IsBrkOps (o : BrkOps) : Type 0 where
  pub munmap_lock :
      (v : Vma) (start end : ℕ) (s : Space)
      → let (r, s') = o.do_vma_munmap v start end s in
        s'.mmap_lock ≡ (if r ==ℤ pos 0 then false else s.mmap_lock)
  pub munmap_brk :
      (v : Vma) (start end : ℕ) (s : Space)
      → let (r, s') = o.do_vma_munmap v start end s in
        (s'.mm.brk ≡ s.mm.brk) × (s'.kernel ≡ s.kernel)
  pub flags_keep :
      (v : Option Vma) (addr len flags : ℕ) (s : Space)
      → let (r, s') = o.do_brk_flags v addr len flags s in
        (s'.mmap_lock ≡ s.mmap_lock) × (s'.mm.brk ≡ s.mm.brk) × (s'.kernel ≡ s.kernel)

pub set_brk : ℕ → M Space (Unit {0})
set_brk brk = puts (λ s. record s { mm = record s.mm { brk = brk } })

pub in_kernel : {A : Type 0} → M Kernel A → M Space A
in_kernel m s = elim (m s.kernel) [
  | none ↦ none
  | some (a, kernel) ↦ some (a, record s { kernel = kernel })
]

unfoldable pub mm_populate : ℕ → ℕ → M Space (Unit {0})
mm_populate addr len = puts (λ s. record s { populated = (addr, len) ∷ s.populated })

module _ (e : BrkEnv) where
  unfoldable pub check_brk_limits : MmStruct → ℕ → ℕ → Option ℕ
  check_brk_limits mm addr len =
      elim (get_unmapped_area e.layout e.areas none addr len 0 map_fixed) [
        | none ↦ none
        | some mapped_addr ↦ some (
            if is_err_value mapped_addr
            then mapped_addr
            else (if mlock_future_ok e.rlimits mm mm.def_flags len then 0 else err64 eagain))
      ]

module _ (e : BrkEnv) (o : BrkOps) where
  -- `out:`
  pub refuse : ℕ → M Space ℕ
  unfolding set_brk mmap_write_unlock
  refuse origbrk = do set_brk origbrk; mmap_write_unlock; ret origbrk

  pub finish_shrink : ℕ → ℕ → ℤ × Space → Option (ℕ × Space)
  unfolding refuse
  finish_shrink brk origbrk (r, s) = if r ==ℤ pos 0 then some (brk, s) else refuse origbrk s

  pub shrink_vma : ℕ → ℕ → ℕ → ℕ → Option Vma → M Space ℕ
  unfolding refuse set_brk finish_shrink
  shrink_vma brk newbrk oldbrk origbrk none = refuse origbrk
  shrink_vma brk newbrk oldbrk origbrk (some brkvma) =
      if leb oldbrk brkvma.vm_start
      then refuse origbrk
      else (do set_brk brk; λ s. finish_shrink brk origbrk (o.do_vma_munmap brkvma newbrk oldbrk s))

  -- `next && newbrk + PAGE_SIZE > vm_start_gap(next)`
  pub too_near : ℕ → Option Vma → Bool
  too_near newbrk none = false
  too_near newbrk (some next) = ltb (e.vm_start_gap next) (add64 newbrk page_size)

  pub populate_locked : Bool → ℕ → ℕ → M Space (Unit {0})
  unfolding mm_populate
  populate_locked populate addr len = elim populate [ true ↦ mm_populate addr len | false ↦ ret tt ]

  pub finish_grow : ℕ → ℕ → ℕ → ℕ → ℤ × Space → Option (ℕ × Space)
  unfolding refuse set_brk mmap_write_unlock populate_locked
  finish_grow brk newbrk oldbrk origbrk (r, s) = elim (is_neg r) [
    | true ↦ refuse origbrk s
    | false ↦
        (do
          set_brk brk
          mmap_write_unlock
          populate_locked (has s.mm.def_flags vm_locked) oldbrk (sub64 newbrk oldbrk)
          ret brk)
          s
  ]

  pub grow : ℕ → ℕ → ℕ → ℕ → M Space ℕ
  unfolding check_brk_limits refuse too_near finish_grow
  grow brk newbrk oldbrk origbrk s = elim (check_brk_limits e s.mm oldbrk (sub64 newbrk oldbrk)) [
    | none ↦ none
    | some error ↦
        let limit = add64 (add64 newbrk page_size) e.stack_guard_gap in
        if not (error == 0)
        then refuse origbrk s
        else (if too_near newbrk (e.vma_find s.vmas oldbrk limit)
            then refuse origbrk s
            else finish_grow brk newbrk oldbrk origbrk (
                o.do_brk_flags (e.vma_prev_limit s.vmas oldbrk s.mm.start_brk) oldbrk
                  (sub64 newbrk oldbrk) 0 s))
  ]

  pub move_brk : ℕ → ℕ → ℕ → ℕ → M Space ℕ
  unfolding set_brk mmap_write_unlock shrink_vma grow
  move_brk brk newbrk oldbrk origbrk s =
      if oldbrk == newbrk
      then (do set_brk brk; mmap_write_unlock; ret brk) s
      else (if leb brk s.mm.brk
          then shrink_vma brk newbrk oldbrk origbrk (e.vma_find s.vmas newbrk oldbrk) s
          else grow brk newbrk oldbrk origbrk s)

  pub min_brk : MmStruct → ℕ
  min_brk mm = elim e.brk_randomized [
    | none ↦ mm.start_brk
    | some randomized ↦ if randomized then mm.start_brk else mm.end_data
  ]

  pub checked_brk : ℕ → ℕ → Bool → M Space ℕ
  unfolding refuse move_brk
  checked_brk brk origbrk accepted =
      if accepted
      then move_brk brk (page_align brk) (page_align origbrk) origbrk
      else refuse origbrk

  pub brk_locked : ℕ → M Space ℕ
  unfolding min_brk refuse in_kernel checked_brk
  brk_locked brk s =
      let mm = s.mm in
      if ltb brk (min_brk mm)
      then refuse mm.brk s
      else (if e.check_data_rlimit e.rlimits.rlimit_data brk mm.start_brk mm.end_data mm.start_data
          then refuse mm.brk s
          else (do
            accepted ←
                in_kernel
                  (is_request_accepted e.usac e.pid (sub64 (page_align brk) (page_align mm.brk)))
            checked_brk brk mm.brk accepted)
              s)

  pub brk : ℕ → M Space ℕ
  unfolding mmap_write_lock_killable brk_locked
  brk new = do
    locked ← mmap_write_lock_killable e.interrupted
    if locked then brk_locked new else ret (err64 eintr)
