-- ===== src/Entry/Bounds.antt =====
-- No entry of common.c calls outside a table of handlers.
use vd2024_so2_private_code.Base.{
  ℕ, ◌+◌, ◌-◌, ◌%◌, ◌^◌, ◌<◌, ◌≡◌, refl, ap, ◌∙◌, Option, none, some, arith, ℤ,
}
use vd2024_so2_private_code.Entry.{State, Platform, to_uint, x32_syscall_bit}
use vd2024_so2_private_code.Entry.Long.{
  do_syscall_x64, do_syscall_x32, dispatch, track, leave, may_sysret, finish, do_syscall_64,
}
use vd2024_so2_private_code.Entry.Compat.{do_syscall_32_irqs_on}

-- Two tables that cannot be told apart below a size.
abbrev pub SameBelow :
    {W : Type 0} → ℕ → (ℕ → State W → ℕ × State W) → (ℕ → State W → ℕ × State W) → Type 0
SameBelow {W} size f g = (i : ℕ) (s : State W) → i < size → f i s ≡ g i s

module _ {W : Type 0} (p : Platform W) (t x c : ℕ → State W → ℕ × State W) where
  -- The platform with other tables of 64-bit, x32 and 32-bit handlers.
  abbrev pub with_tables : Platform W
  with_tables = record p { sys_call_table = t; x32_sys_call_table = x; ia32_sys_call_table = c }

  x64_bounds :
      (nr : ℤ) (s : State W)
      → SameBelow p.nr_syscalls p.sys_call_table t
      → do_syscall_x64 p nr s ≡ do_syscall_x64 with_tables nr s
  unfolding do_syscall_x64
  x64_bounds nr s h = ground (arith, h (to_uint nr) s)

  x32_bounds :
      (nr : ℤ) (s : State W)
      → SameBelow p.x32_nr_syscalls p.x32_sys_call_table x
      → do_syscall_x32 p nr s ≡ do_syscall_x32 with_tables nr s
  unfolding do_syscall_x32
  x32_bounds nr s h = ground (arith, h ((to_uint nr + 2 ^ 32 - x32_syscall_bit) % 2 ^ 32) s)

  compat_bounds :
      (nr : ℤ) (s : State W)
      → SameBelow p.ia32_nr_syscalls p.ia32_sys_call_table c
      → do_syscall_32_irqs_on p nr s ≡ do_syscall_32_irqs_on with_tables nr s
  unfolding do_syscall_32_irqs_on
  compat_bounds nr s h = ground (arith, h (to_uint nr) s)

  dispatch_bounds :
      (nr : ℤ) (s : State W)
      → SameBelow p.nr_syscalls p.sys_call_table t
      → SameBelow p.x32_nr_syscalls p.x32_sys_call_table x
      → dispatch p nr s ≡ dispatch with_tables nr s
  unfolding dispatch
  dispatch_bounds nr s h k = ground (
    arith,
    x64_bounds nr s h,
    x32_bounds nr (do_syscall_x64 p nr s).1 k,
    x32_bounds nr (do_syscall_x64 with_tables nr s).1 k,
  )

  track-same : (nr : ℤ) (s : State W) → track p nr s ≡ track with_tables nr s
  unfolding track
  track-same nr s = refl

  leave-same : (s : State W) → leave p s ≡ leave with_tables s
  unfolding leave may_sysret
  leave-same s = refl

  finish-same : (m : Option (State W)) → finish p m ≡ finish with_tables m
  unfolding finish
  finish-same none = refl
  finish-same (some u) = ap some (leave-same u)

  -- Entries of the tables past their sizes are never read: whatever stands there, every number
  -- that comes in, negative ones included, is answered the same by the 64-bit entry and by the
  -- 32-bit dispatch.
  pub table_bounds :
      (nr : ℤ) (s : State W)
      → SameBelow p.nr_syscalls p.sys_call_table t
      → SameBelow p.x32_nr_syscalls p.x32_sys_call_table x
      → SameBelow p.ia32_nr_syscalls p.ia32_sys_call_table c
      → (do_syscall_64 p nr s ≡ do_syscall_64 with_tables nr s)
        × (do_syscall_32_irqs_on p nr s ≡ do_syscall_32_irqs_on with_tables nr s)
  unfolding do_syscall_64
  table_bounds nr s h k l =
      let (nr', s') = p.syscall_enter_from_user_mode nr s in
      (
        ap (λ d. finish p (track p nr' d)) (dispatch_bounds nr' s' h k)
            ∙ ap (finish p) (track-same nr' (dispatch with_tables nr' s'))
            ∙ finish-same (track with_tables nr' (dispatch with_tables nr' s')),
        compat_bounds nr s l,
      )
