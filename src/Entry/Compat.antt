-- ===== src/Entry/Compat.antt =====
-- The 32-bit entries of common.c.
use vd2024_so2_private_code.Base.{
  ℕ, ◌+◌, ◌*◌, ◌/◌, ◌%◌, ◌^◌, Option, none, some, Bool, true, false, not, ◌||◌, if◌then◌else◌, ltb,
  ◌==◌, is_set, ℤ, neg, ◌==ℤ◌, bit_and, bit_or, err64, efault, enosys,
}
use vd2024_so2_private_code.Entry.{
  PtRegs, State, Platform, to_uint, to_int, array_index_nospec, x86_eflags_rf, x86_eflags_tf,
  x86_eflags_vm, x86_eflags_if, set_ax, call_handler, ni_syscall,
}

module _ {W : Type 0} (p : Platform W) where
  unfoldable pub syscall_32_enter : State W → ℤ × State W
  syscall_32_enter s =
      (to_int s.regs.orig_ax, if p.ia32_emulation then record s { ts_compat = true } else s)

  unfoldable pub do_syscall_32_irqs_on : ℤ → State W → State W
  do_syscall_32_irqs_on nr s =
      let unr = to_uint nr in
      if ltb unr p.ia32_nr_syscalls
      then call_handler p.ia32_sys_call_table (array_index_nospec unr p.ia32_nr_syscalls) s
      else (if nr ==ℤ neg 1 then s else set_ax ni_syscall s)

  -- The call between the hooks, once the entry work has begun.
  unfoldable pub run_32 : (ℤ → State W → ℤ × State W) → ℤ → State W → State W
  run_32 enter nr s =
      let (nr', s') = enter nr s in p.syscall_exit_to_user_mode (do_syscall_32_irqs_on nr' s')

  unfoldable pub int80_is_external : State W → Bool
  int80_is_external s = if p.xenpv then false else p.apic_isr_0x80 s

  -- With IA32_EMULATION. `none` is a panic.
  unfoldable pub int80_emulation : State W → Option (State W)
  int80_emulation s =
      if not (p.user_mode s.regs)
      then none
      else (let t = p.enter_from_user_mode s in
          let entered = record t {
            regs = record t.regs { orig_ax = t.regs.ax % 2 ^ 32; ax = err64 enosys };
          } in
          let (nr, s') = syscall_32_enter entered in
          if int80_is_external t
          then none
          else some (run_32 p.syscall_enter_from_user_mode_work nr s'))

  -- Of a 32-bit kernel.
  unfoldable pub do_int80_syscall_32 : State W → State W
  do_int80_syscall_32 s =
      let (nr, s') = syscall_32_enter s in run_32 p.syscall_enter_from_user_mode nr s'

  -- The address of the stashed EBP: 32 bits wide on both kinds of kernel.
  abbrev user_sp : State W → ℕ
  user_sp s = s.regs.sp % 2 ^ 32

  -- `*(u32 *)&regs->bp = word`
  abbrev set_ebp : ℕ → State W → State W
  set_ebp word s = record s {
    regs = record s.regs { bp = s.regs.bp / 2 ^ 32 * 2 ^ 32 + word % 2 ^ 32 };
  }

  unfoldable pub fast_syscall_32 : State W → Bool × State W
  fast_syscall_32 s =
      let (nr, entered) = syscall_32_enter s in
      let s' = p.syscall_enter_from_user_mode_prepare entered in
      let (res, word) = p.get_user (user_sp s') s' in
      let t = set_ebp word s' in
      if res
      then (false, p.irqentry_exit_to_user_mode (set_ax (err64 efault) t))
      else (true, run_32 p.syscall_enter_from_user_mode_work nr t)

  unfoldable pub may_sysexit : PtRegs → Bool
  may_sysexit regs =
      if p.xenpv
      then false
      else (if not (regs.ip == p.landing_pad)
          then false
          else (if not (regs.cs == p.user32_cs) || not (regs.ss == p.user_ds)
              then false
              else (if is_set
                    (bit_and regs.flags (bit_or (bit_or x86_eflags_rf x86_eflags_tf) x86_eflags_vm))
                  then false
                  else true)))

  unfoldable pub do_fast_syscall_32 : State W → Bool × State W
  do_fast_syscall_32 s =
      let landed = record s { regs = record s.regs { ip = p.landing_pad } } in
      let (done, t) = fast_syscall_32 landed in if done then (may_sysexit t.regs, t) else (false, t)

  unfoldable pub do_sysenter_32 : State W → Bool × State W
  do_sysenter_32 s = do_fast_syscall_32 (record s {
    regs = record s.regs { sp = s.regs.bp; flags = bit_or s.regs.flags x86_eflags_if };
  })
