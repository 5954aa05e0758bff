-- ===== src/Entry/Tracking.antt =====
-- Which entries of common.c count the calls that come through them.
use vd2024_so2_private_code.Base.{
  ℕ, ◌≡◌, ◌∙◌, inl, inr, Option, none, some, Bool, arith, if◌then◌else◌, is_neg, ℤ, Option-cases,
  Bool-cases,
}
use vd2024_so2_private_code.Monitor.Usage.{IsArray, track_syscall, track_syscall-some}
use vd2024_so2_private_code.Entry.{State, Platform}
use vd2024_so2_private_code.Entry.Long.{dispatch, track, leave, finish, do_syscall_64}
use vd2024_so2_private_code.Entry.Compat.{
  syscall_32_enter, do_syscall_32_irqs_on, run_32, int80_emulation, do_int80_syscall_32,
  fast_syscall_32, do_fast_syscall_32, do_sysenter_32,
}

module _ {W : Type 0} (p : Platform W) where
  -- The call is counted once it has been made, under the number that the entry work settled on, if
  -- that is not negative.
  abbrev pub Tracked : ℤ → State W → Option (Bool × State W) → Type 0
  Tracked nr made none = ⊥
  Tracked nr made (some (sysret, t)) =
      (if is_neg nr
        then some made.counters
        else track_syscall (p.ktime_get_real_ts64 made) nr made.counters)
      ≡ some t.counters

  finish-Tracked :
      (nr : ℤ) (made u : State W)
      → ((v : State W) → (p.syscall_exit_to_user_mode v).counters ≡ v.counters)
      → (if is_neg nr
          then some made.counters
          else track_syscall (p.ktime_get_real_ts64 made) nr made.counters)
        ≡ some u.counters
      → Tracked nr made (finish p (some u))
  unfolding finish leave
  finish-Tracked nr made u keeps h = rw keeps h

  track-Tracked :
      (nr : ℤ) (made : State W)
      → ((v : State W) → (p.syscall_exit_to_user_mode v).counters ≡ v.counters)
      → IsArray made.counters
      → Tracked nr made (finish p (track p nr made))
  unfolding track
  track-Tracked nr made keeps a = elim (Bool-cases (is_neg nr)) [
    | inl negative ↦ rw (negative, track) (finish-Tracked nr made made keeps (rw negative))
    | inr number ↦
        elim (Option-cases (track_syscall (p.ktime_get_real_ts64 made) nr made.counters)) [
          | inl fault ↦
              ground (arith, track_syscall-some (p.ktime_get_real_ts64 made) nr made.counters a)
          | inr (c, counted) ↦
              rw (number, track, counted)
                (finish-Tracked nr made (record made { counters = c }) keeps (rw (number, counted)))
        ]
  ]

  -- The 64-bit entry counts every call with a number that is not negative, after it was made, and
  -- nothing else; it never faults while the counters are NULL or the array of four.
  pub syscall_64-Tracked :
      (number : ℤ) (s : State W)
      → ((v : State W) → (p.syscall_exit_to_user_mode v).counters ≡ v.counters)
      → (let (nr, s') = p.syscall_enter_from_user_mode number s in
          IsArray (dispatch p nr s').counters)
      → let (nr, s') = p.syscall_enter_from_user_mode number s in
        Tracked nr (dispatch p nr s') (do_syscall_64 p number s)
  unfolding do_syscall_64
  syscall_64-Tracked number s keeps a =
      let (nr, s') = p.syscall_enter_from_user_mode number s in
      track-Tracked nr (dispatch p nr s') keeps a

  -- Nothing around the 32-bit entries touches the counters.
  pub record KeepsCounters : Type 0 where
    pub handlers : (i : ℕ) (v : State W) → (p.ia32_sys_call_table i v).1.counters ≡ v.counters
    pub enters :
        (nr : ℤ) (v : State W) → (p.syscall_enter_from_user_mode nr v).1.counters ≡ v.counters
    pub works :
        (nr : ℤ) (v : State W) → (p.syscall_enter_from_user_mode_work nr v).1.counters ≡ v.counters
    pub begins : (v : State W) → (p.enter_from_user_mode v).counters ≡ v.counters
    pub prepares : (v : State W) → (p.syscall_enter_from_user_mode_prepare v).counters ≡ v.counters
    pub exits : (v : State W) → (p.syscall_exit_to_user_mode v).counters ≡ v.counters
    pub irq_exits : (v : State W) → (p.irqentry_exit_to_user_mode v).counters ≡ v.counters

  irqs_on-counters :
      (nr : ℤ) (s : State W) → KeepsCounters → (do_syscall_32_irqs_on p nr s).counters ≡ s.counters
  unfolding do_syscall_32_irqs_on
  irqs_on-counters nr s k = grind (arith, k.handlers)

  run_32-counters :
      (enter : ℤ → State W → ℤ × State W) (nr : ℤ) (s : State W)
      → KeepsCounters
      → ((i : ℤ) (v : State W) → (enter i v).1.counters ≡ v.counters)
      → (run_32 p enter nr s).counters ≡ s.counters
  unfolding run_32
  run_32-counters enter nr s k h =
      let (nr', s') = enter nr s in
      k.exits (do_syscall_32_irqs_on p nr' s') ∙ irqs_on-counters nr' s' k ∙ h nr s

  work-counters :
      (nr : ℤ) (s : State W)
      → KeepsCounters
      → (run_32 p p.syscall_enter_from_user_mode_work nr s).counters ≡ s.counters
  work-counters nr s k = run_32-counters p.syscall_enter_from_user_mode_work nr s k k.works

  enter-counters : (s : State W) → (syscall_32_enter p s).1.counters ≡ s.counters
  unfolding syscall_32_enter
  enter-counters s = ground arith

  fast-counters : (s : State W) → KeepsCounters → (fast_syscall_32 p s).1.counters ≡ s.counters
  unfolding fast_syscall_32
  fast-counters s k = grind (arith, enter-counters, k.prepares, k.irq_exits, work-counters)

  -- A call that returns, with the counters as they were.
  abbrev pub Uncounted : State W → Option (State W) → Type 0
  Uncounted s none = Unit {0}
  Uncounted s (some t) = t.counters ≡ s.counters

  int80-counters : (s : State W) → KeepsCounters → Uncounted s (int80_emulation p s)
  unfolding int80_emulation
  int80-counters s k = grind (arith, enter-counters, k.begins, work-counters)

  -- No call that comes through a 32-bit entry is counted: unless a handler or a hook does it, none
  -- of int80, SYSENTER and the fast 32-bit SYSCALL changes the counters.
  pub compat-Uncounted :
      (s : State W)
      → KeepsCounters
      → Uncounted s (int80_emulation p s)
        × ((do_int80_syscall_32 p s).counters ≡ s.counters)
        × ((do_fast_syscall_32 p s).1.counters ≡ s.counters)
        × ((do_sysenter_32 p s).1.counters ≡ s.counters)
  unfolding do_int80_syscall_32 do_fast_syscall_32 do_sysenter_32
  compat-Uncounted s k = (
    int80-counters s k,
    run_32-counters p.syscall_enter_from_user_mode _ _ k k.enters ∙ enter-counters s,
    grind (arith, fast-counters),
    grind (arith, fast-counters),
  )
