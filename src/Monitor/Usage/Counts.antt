-- ===== src/Monitor/Usage/Counts.antt =====
-- What the counters of syscall2.c hold after a history of system calls and queries.
use vd2024_so2_private_code.Base.{
  ℕ, suc, ◌+◌, ◌%◌, ◌^◌, ◌<◌, ◌≡◌, ◌∙◌, ◌++◌, refl, List, [], ◌∷◌, Option, none, some, Bool, true,
  false, arith, if◌then◌else◌, ℤ, pos, ◌==ℤ◌, ==ℤ_iff,
}
use vd2024_so2_private_code.Monitor.Usage.{
  Timespec, SyscallUsage, Counters, track_syscall, matus_track_syscall_usage, unused,
}

-- A system call of a number, made at a time; a query, with whether memory and copy are granted.
pub data Event : Type 0 where
  call : Timespec → ℤ → Event
  query : Bool → Bool → Event

pub step : Event → Counters → Option Counters
step (call now syscall_id) c = track_syscall now syscall_id c
step (query allocated copied) c = some (matus_track_syscall_usage allocated copied c).1

pub run : List Event → Counters → Option Counters
run [] c = some c
run (e ∷ es) c = elim (step e c) [ none ↦ none | some c' ↦ run es c' ]

-- The uses of one system call, and the time of the last of them.
abbrev pub is_use : ℤ → Event → Bool
is_use w (call now syscall_id) = w ==ℤ syscall_id
is_use w (query allocated copied) = false

unfoldable pub uses : ℤ → List Event → ℕ
uses w [] = 0
uses w (e ∷ es) = if is_use w e then suc (uses w es) else uses w es

abbrev event_time : Event → Timespec → Timespec
event_time (call now syscall_id) t = now
event_time (query allocated copied) t = t

unfoldable pub last_use : ℤ → List Event → Timespec → Timespec
last_use w [] t = t
last_use w (e ∷ es) t = last_use w es (if is_use w e then event_time e t else t)

-- A counter after the history, by its own events.
abbrev pub counted : ℤ → List Event → SyscallUsage → SyscallUsage
counted w es u = record {
  count = (u.count + uses w es) % 2 ^ 64;
  time_last_used = last_use w es u.time_last_used;
}

abbrev four : SyscallUsage → SyscallUsage → SyscallUsage → SyscallUsage → List SyscallUsage
four a b c d = a ∷ b ∷ c ∷ d ∷ []

bumped : ℤ → Event → SyscallUsage → SyscallUsage
bumped w e u =
    if is_use w e
    then record { count = (u.count + 1) % 2 ^ 64; time_last_used = event_time e u.time_last_used }
    else u

step-four :
    (e : Event) (a b c d : SyscallUsage)
    → step e (some (four a b c d))
      ≡ some (
          some (
            four
              (bumped (pos 0) e a)
              (bumped (pos 1) e b)
              (bumped (pos 2) e c)
              (bumped (pos 56) e d)))
unfolding step track_syscall matus_track_syscall_usage bumped
step-four (call now id) a b c d =
    ground (arith, ==ℤ_iff (pos 0) id, ==ℤ_iff (pos 1) id, ==ℤ_iff (pos 2) id, ==ℤ_iff (pos 56) id)
step-four (query allocated copied) a b c d = ground arith

after : ℤ → List Event → SyscallUsage → SyscallUsage
after w [] u = u
after w (e ∷ es) u = after w es (bumped w e u)

run-four :
    (es : List Event) (a b c d : SyscallUsage)
    → run es (some (four a b c d))
      ≡ some (
          some (
            four
              (after (pos 0) es a)
              (after (pos 1) es b)
              (after (pos 2) es c)
              (after (pos 56) es d)))
unfolding run after
run-four [] a b c d = refl
run-four (e ∷ es) a b c d = rw (step-four e a b c d, run) (run-four es _ _ _ _)

after-counted :
    (w : ℤ) (es : List Event) (u : SyscallUsage) → u.count < 2 ^ 64 → after w es u ≡ counted w es u
unfolding after uses last_use bumped
after-counted w [] u h = ground arith
after-counted w (e ∷ es) u h = ground (
  arith,
  after-counted w es u h,
  after-counted w es
      (record { count = (u.count + 1) % 2 ^ 64; time_last_used = event_time e u.time_last_used })
      (omega arith),
)

-- An event that leaves the counters unallocated: a call, or a query that gets no memory.
abbrev pub Ungranted : List Event → Type 0
Ungranted [] = Unit {0}
Ungranted (call now syscall_id ∷ es) = Ungranted es
Ungranted (query allocated copied ∷ es) = (allocated ≡ false) × Ungranted es

Ungranted-run : (before es : List Event) → Ungranted before → run (before ++ es) none ≡ run es none
unfolding run step track_syscall matus_track_syscall_usage
Ungranted-run [] es h = refl
Ungranted-run (call now syscall_id ∷ before) es h = Ungranted-run before es h
Ungranted-run (query allocated copied ∷ before) es (h, hs) =
    rw (h, run) (Ungranted-run before es hs)

granted-run :
    (es : List Event) (copied : Bool)
    → run (query true copied ∷ es) none ≡ run es (some (four unused unused unused unused))
unfolding run step matus_track_syscall_usage
granted-run es true = refl
granted-run es false = refl

-- Nothing is counted until the first query that gets its memory. From then on the four counters
-- tell how often, modulo 2 ^ 64, and when last the system calls 0, 1, 2 and 56 were made, whatever
-- queries come between; the array is never left.
pub run_counts :
    (before es : List Event) (copied : Bool)
    → Ungranted before
    → run (before ++ query true copied ∷ es) none
      ≡ some (
          some (
            counted (pos 0) es unused
            ∷ counted (pos 1) es unused
            ∷ counted (pos 2) es unused
            ∷ counted (pos 56) es unused
            ∷ []))
run_counts before es copied h =
    Ungranted-run before (query true copied ∷ es) h
    ∙ granted-run es copied
    ∙ run-four es unused unused unused unused
    ∙ rw (
      after-counted (pos 0) es unused (omega arith),
      after-counted (pos 1) es unused (omega arith),
      after-counted (pos 2) es unused (omega arith),
      after-counted (pos 56) es unused (omega arith),
    )
