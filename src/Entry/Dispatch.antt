-- ===== src/Entry/Dispatch.antt =====
-- Which handler the 64-bit entry of common.c calls.
use vd2024_so2_private_code.Base.{
  ◌-◌, ◌^◌, ◌≤◌, ◌<◌, ◌≡◌, ◌&&◌, arith, if◌then◌else◌, ltb, leb, ◌==◌, ℤ, pos, negsuc,
}
use vd2024_so2_private_code.Entry.{State, Platform, call_handler, set_ax, ni_syscall}
use vd2024_so2_private_code.Entry.Long.{dispatch, do_syscall_x64, do_syscall_x32}

module _ {W : Type 0} (p : Platform W) where
  -- The tables are small: the 64-bit one ends below the bit that marks an x32 call, and the x32 one
  -- below the numbers that a negative `int` becomes.
  pub record IsSmall : Type 0 where
    pub x64 : p.nr_syscalls ≤ 2 ^ 30
    pub x32 : p.x32_nr_syscalls ≤ 2 ^ 30

  -- The call that an `int` names: a handler of the 64-bit table, or with the x32 ABI, from 2 ^ 30
  -- on, one of the x32 table. Of the negative numbers -1 is no call and the others, like every
  -- number past the tables, fail with ENOSYS.
  abbrev pub answer : ℤ → State W → State W
  answer (pos n) s =
      if ltb n p.nr_syscalls
      then call_handler p.sys_call_table n s
      else (if p.x86_x32_abi && (leb (2 ^ 30) n && ltb (n - 2 ^ 30) p.x32_nr_syscalls)
          then call_handler p.x32_sys_call_table (n - 2 ^ 30) s
          else set_ax ni_syscall s)
  answer (negsuc n) s = if n == 0 then s else set_ax ni_syscall s

  -- Where an `int` has 32 bits.
  abbrev pub IsInt : ℤ → Type 0
  IsInt (pos n) = n < 2 ^ 31
  IsInt (negsuc n) = n < 2 ^ 31

  -- Through the unsigned comparisons and the two tables the entry makes the call that the signed
  -- number names, at most one, and from the state in which it was entered.
  pub dispatch-answer : (nr : ℤ) (s : State W) → IsSmall → IsInt nr → dispatch p nr s ≡ answer nr s
  unfolding dispatch do_syscall_x64 do_syscall_x32
  dispatch-answer (pos n) s small h = ground arith
  dispatch-answer (negsuc n) s small h = ground arith
