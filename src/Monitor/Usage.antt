-- ===== src/Monitor/Usage.antt =====
-- kernel/usac/project1/syscall2.c: the counters of the tracked system calls.
pub mod Counts
use vd2024_so2_private_code.Base.{
  ℕ, ◌+◌, ◌%◌, ◌^◌, ◌≡◌, refl, List, [], ◌∷◌, Option, none, some, Bool, true, arith, length,
  is_some, if◌then◌else◌, get_elem?, set, ℤ, pos, negsuc, neg, ◌==ℤ◌, enomem, efault,
}

-- `struct timespec64`
pub record Timespec : Type 0 where
  pub tv_sec : ℕ
  pub tv_nsec : ℕ

-- `struct syscall_usage`
pub record SyscallUsage : Type 0 where
  pub count : ℕ
  pub time_last_used : Timespec

-- The static pointer `syscall_counters`: NULL until the first query.
abbrev pub Counters : Type 0
Counters = Option (List SyscallUsage)

abbrev pub syscall_whitelist : List ℤ
syscall_whitelist = pos 0 ∷ pos 1 ∷ pos 2 ∷ pos 56 ∷ []

-- What kzalloc gives.
abbrev pub unused : SyscallUsage
unused = record { count = 0; time_last_used = record { tv_sec = 0; tv_nsec = 0 } }

abbrev pub zeroed : List SyscallUsage
zeroed = unused ∷ unused ∷ unused ∷ unused ∷ []

-- `allocated` is whether kzalloc succeeds.
pub init_syscall_counters : Bool → ℤ × Counters
init_syscall_counters allocated = if allocated then (pos 0, some zeroed) else (neg enomem, none)

-- The loop over the array, from index `i` on.
tracked_from : List ℤ → ℕ → ℤ → ℤ
tracked_from [] i syscall_id = neg 1
tracked_from (w ∷ ws) i syscall_id =
    if w ==ℤ syscall_id then pos i else tracked_from ws (i + 1) syscall_id

pub syscall_tracked_index : ℤ → ℤ
unfolding tracked_from
syscall_tracked_index syscall_id = tracked_from syscall_whitelist 0 syscall_id

-- `count++` wraps. An index out of the array faults, as `none`.
touch : Timespec → List SyscallUsage → ℕ → Option Counters
touch now counters i = elim (get_elem? counters i) [
  | none ↦ none
  | some u ↦
      some (some (set counters i (record { count = (u.count + 1) % 2 ^ 64; time_last_used = now })))
]

track_at : Timespec → List SyscallUsage → ℤ → Option Counters
unfolding touch
track_at now counters (pos i) = touch now counters i
track_at now counters (negsuc i) = some (some counters)

-- `now` is what ktime_get_real_ts64 reads.
unfoldable pub track_syscall : Timespec → ℤ → Counters → Option Counters
unfolding track_at syscall_tracked_index
track_syscall now syscall_id none = some none
track_syscall now syscall_id (some counters) =
    track_at now counters (syscall_tracked_index syscall_id)

-- The answers of a query: its reply, the counters after it, and what it copied to the caller.
-- `copied` is whether copy_to_user succeeds.
report : Bool → List SyscallUsage → ℤ × Counters × Option (List SyscallUsage)
report copied counters =
    if copied then (pos 0, some counters, some counters) else (neg efault, some counters, none)

pub matus_track_syscall_usage : Bool → Bool → Counters → ℤ × Counters × Option (List SyscallUsage)
unfolding report init_syscall_counters
matus_track_syscall_usage allocated copied (some counters) = report copied counters
matus_track_syscall_usage allocated copied none =
    let (r, fresh) = init_syscall_counters allocated in
    elim fresh [ none ↦ (neg enomem, none, none) | some counters ↦ report copied counters ]

-- NULL, or an array of the four counters.
abbrev pub IsArray : Counters → Type 0
IsArray none = Unit {0}
IsArray (some counters) = length counters ≡ 4

track_four :
    (now : Timespec) (syscall_id : ℤ) (a b c d : SyscallUsage)
    → is_some (track_syscall now syscall_id (some (a ∷ b ∷ c ∷ d ∷ []))) ≡ true
unfolding track_syscall
track_four now syscall_id a b c d = ground arith

-- No system call leaves the array.
pub track_syscall-some :
    (now : Timespec) (syscall_id : ℤ) (counters : Counters)
    → IsArray counters
    → is_some (track_syscall now syscall_id counters) ≡ true
unfolding track_syscall
track_syscall-some now syscall_id none h = refl
track_syscall-some now syscall_id (some (a ∷ b ∷ c ∷ d ∷ [])) h = track_four now syscall_id a b c d
track_syscall-some now syscall_id (some _) h = absurd (omega arith)
