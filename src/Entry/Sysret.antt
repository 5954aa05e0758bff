-- ===== src/Entry/Sysret.antt =====
-- When the 64-bit entry of common.c leaves by SYSRET, and the 32-bit one by SYSEXIT.
use vd2024_so2_private_code.Base.{◌<◌, ◌≡◌, ◌↔◌, some, Bool, true, false, arith, ℤ, bit_and}
use vd2024_so2_private_code.Entry.{PtRegs, State, Platform}
use vd2024_so2_private_code.Entry.Long.{do_syscall_64, finish, leave, may_sysret}
use vd2024_so2_private_code.Entry.Compat.{do_fast_syscall_32, may_sysexit, fast_syscall_32}

module _ {W : Type 0} (p : Platform W) where
  -- What the hardware asks of the registers for SYSRET.
  pub record IsSysretSafe (regs : PtRegs) : Type 0 where
    pub native : p.xenpv ≡ false
    pub rip : regs.cx ≡ regs.ip
    pub rflags : regs.r11 ≡ regs.flags
    pub code : regs.cs ≡ p.user_cs
    pub stack : regs.ss ≡ p.user_ds
    pub canonical : regs.ip < p.task_size_max
    pub no_trap : bit_and regs.flags 0x1_0100 ≡ 0

  may_sysret_iff : (regs : PtRegs) → (may_sysret p regs ≡ true) ↔ IsSysretSafe regs
  unfolding may_sysret
  may_sysret_iff regs = (λ h. ground arith, λ h. ground arith)

  -- What it asks for SYSEXIT: the return is to the landing pad of the vDSO.
  pub record IsSysexitSafe (regs : PtRegs) : Type 0 where
    pub native : p.xenpv ≡ false
    pub eip : regs.ip ≡ p.landing_pad
    pub code : regs.cs ≡ p.user32_cs
    pub stack : regs.ss ≡ p.user_ds
    pub no_trap : bit_and regs.flags 0x3_0100 ≡ 0

  may_sysexit_iff : (regs : PtRegs) → (may_sysexit p regs ≡ true) ↔ IsSysexitSafe regs
  unfolding may_sysexit
  may_sysexit_iff regs = (λ h. ground arith, λ h. ground arith)

  sysret-eq :
      (number : ℤ) (s t : State W) (sysret : Bool)
      → do_syscall_64 p number s ≡ some (sysret, t)
      → sysret ≡ may_sysret p t.regs
  unfolding do_syscall_64 finish leave
  sysret-eq number s t sysret h = ground arith

  -- The entry chooses SYSRET exactly where the registers with which it returns allow it.
  pub sysret_iff :
      (number : ℤ) (s t : State W) (sysret : Bool)
      → do_syscall_64 p number s ≡ some (sysret, t)
      → (sysret ≡ true) ↔ IsSysretSafe t.regs
  sysret_iff number s t sysret h = rw (sysret-eq number s t sysret h) (may_sysret_iff t.regs)

  -- The fast 32-bit entry chooses SYSEXIT only for a call that was made, since its frame pointer
  -- could be read, and only where the registers with which it returns allow it.
  pub sysexit_safe :
      (s : State W)
      → (do_fast_syscall_32 p s).0 ≡ true
      → IsSysexitSafe (do_fast_syscall_32 p s).1.regs
        × ((fast_syscall_32 p (record s { regs = record s.regs { ip = p.landing_pad } })).0 ≡ true)
  unfolding do_fast_syscall_32
  sysexit_safe s h =
      let landed = record s { regs = record s.regs { ip = p.landing_pad } } in
      ground (arith, may_sysexit_iff (fast_syscall_32 p landed).1.regs)
