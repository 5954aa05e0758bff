-- ===== src/Entry/Long.antt =====
-- The 64-bit entry of common.c.
use vd2024_so2_private_code.Base.{
  ◌+◌, ◌-◌, ◌%◌, ◌^◌, Option, none, some, Bool, true, false, not, ◌&&◌, ◌||◌, if◌then◌else◌, ltb,
  leb, ◌==◌, is_set, ℤ, neg, is_neg, ◌==ℤ◌, bit_and, bit_or,
}
use vd2024_so2_private_code.Monitor.Usage.{track_syscall}
use vd2024_so2_private_code.Entry.{
  PtRegs, State, Platform, to_uint, array_index_nospec, x32_syscall_bit, x86_eflags_rf,
  x86_eflags_tf, set_ax, call_handler, ni_syscall,
}

module _ {W : Type 0} (p : Platform W) where
  unfoldable pub do_syscall_x64 : ℤ → State W → Bool × State W
  do_syscall_x64 nr s =
      let unr = to_uint nr in
      if ltb unr p.nr_syscalls
      then (true, call_handler p.sys_call_table (array_index_nospec unr p.nr_syscalls) s)
      else (false, s)

  unfoldable pub do_syscall_x32 : ℤ → State W → Bool × State W
  do_syscall_x32 nr s =
      let xnr = (to_uint nr + 2 ^ 32 - x32_syscall_bit) % 2 ^ 32 in
      if p.x86_x32_abi && ltb xnr p.x32_nr_syscalls
      then (true, call_handler p.x32_sys_call_table (array_index_nospec xnr p.x32_nr_syscalls) s)
      else (false, s)

  -- `!do_syscall_x64(..) && !do_syscall_x32(..) && nr != -1`, and the call that it guards.
  unfoldable pub dispatch : ℤ → State W → State W
  dispatch nr s =
      let (done, s1) = do_syscall_x64 nr s in
      let (done', s2) = do_syscall_x32 nr s1 in
      if done
      then s1
      else (if done' then s2 else (if nr ==ℤ neg 1 then s2 else set_ax ni_syscall s2))

  -- `if (nr >= 0) track_syscall(nr)`
  unfoldable pub track : ℤ → State W → Option (State W)
  track nr s =
      if is_neg nr then some s else elim (track_syscall (p.ktime_get_real_ts64 s) nr s.counters) [
        | none ↦ none
        | some c ↦ some (record s { counters = c })
      ]

  -- The checks of the registers that decide between SYSRET and IRET.
  unfoldable pub may_sysret : PtRegs → Bool
  may_sysret regs =
      if p.xenpv
      then false
      else (if not (regs.cx == regs.ip) || not (regs.r11 == regs.flags)
          then false
          else (if not (regs.cs == p.user_cs) || not (regs.ss == p.user_ds)
              then false
              else (if leb p.task_size_max regs.ip
                  then false
                  else (if is_set (bit_and regs.flags (bit_or x86_eflags_rf x86_eflags_tf))
                      then false
                      else true))))

  unfoldable pub leave : State W → Bool × State W
  leave s = let t = p.syscall_exit_to_user_mode s in (may_sysret t.regs, t)

  unfoldable pub finish : Option (State W) → Option (Bool × State W)
  finish none = none
  finish (some t) = some (leave t)

  -- `none` is a fault. The result is whether to use SYSRET.
  unfoldable pub do_syscall_64 : ℤ → State W → Option (Bool × State W)
  do_syscall_64 number s =
      let (nr, s') = p.syscall_enter_from_user_mode number s in finish (track nr (dispatch nr s'))
