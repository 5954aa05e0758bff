-- ===== src/Limits/Calls.antt =====
-- Histories of calls of main.c, and the invariant that they keep.
use vd2024_so2_private_code.Base.{
  ℕ, ◌-◌, ◌^◌, ◌≡◌, ◌≢◌, List, [], ◌∷◌, Option, none, some, Bool, true, false, arith, length,
  if◌then◌else◌, not, ◌&&◌, ◌||◌, ltb, is_neg, is_some, ℤ, pos, refl,
}
use vd2024_so2_private_code.Base.State.{M, ◌>>=◌, ret}
use vd2024_so2_private_code.Limits.{
  MemoryLimitation, Env, Kernel, Task, init, copy_out, is_request_accepted, matus_add_memory_limit,
  matus_get_memory_limits, matus_update_memory_limit, matus_remove_memory_limit,
}
use vd2024_so2_private_code.Limits.Access.{is_request_accepted_lem}
use vd2024_so2_private_code.Limits.Table.{
  IsDistinct, listed_lem, update_entry-Changes, update_entry-Keeps, list_del-Changes,
  list_del-Keeps,
}

pub data Call : Type 0 where
  add : ℤ → ℕ → Call
  get : Bool → ℕ → Bool → Call
  update : ℤ → ℕ → Call
  remove : ℤ → Call
  request : ℤ → ℕ → Call

-- The answer of `is_request_accepted`, beside those of the system calls.
abbrev pub as_reply : Bool → ℤ
as_reply b = if b then pos 1 else pos 0

unfoldable pub step : Env → Call → M Kernel ℤ
step e (add pid limit) = matus_add_memory_limit e pid limit
step e (get has_buffer max_entries has_returned) =
    matus_get_memory_limits e has_buffer max_entries has_returned
step e (update pid limit) = matus_update_memory_limit e pid limit
step e (remove pid) = matus_remove_memory_limit e pid
step e (request pid bytes) = is_request_accepted e pid bytes >>= λ b. ret (as_reply b)

unfoldable pub run : List (Env × Call) → M Kernel (List ℤ)
run [] = ret []
run ((e, c) ∷ cs) = step e c >>= λ r. run cs >>= λ rs. ret (r ∷ rs)

-- Between calls the mutex is free, no process has two entries, and the objects held are the
-- entries of the list.
pub record IsValid (s : Kernel) : Type 0 where
  pub unlocked : s.memory_list_mutex ≡ false
  pub distinct : IsDistinct s.memory_list
  pub counted : s.allocated ≡ length s.memory_list

-- A call that returns, in a state with the property.
abbrev pub Returns : {A : Type 0} → (Kernel → Type 0) → Option (A × Kernel) → Type 0
Returns P none = ⊥
Returns P (some (a, s)) = P s

-- A call that returns with the property, if it returns.
abbrev pub Keeps : {A : Type 0} → (Kernel → Type 0) → Option (A × Kernel) → Type 0
Keeps P none = Unit {0}
Keeps P (some (a, s)) = P s

-- A limit that is added for a kernel thread, when the arguments and the caller pass the tests before
-- its mm is read.
abbrev pub is_kernel_thread : Option Task → Bool
is_kernel_thread none = false
is_kernel_thread (some task) = not (is_some task.mm)

abbrev pub reads_null : Env → Call → Bool
reads_null e (add pid limit) =
    not (is_neg pid)
    && is_kernel_thread (e.find_task_by_vpid pid)
    && e.capable
    && ltb limit (2 ^ 63)
reads_null e _ = false

-- A fault, or a return with the property.
abbrev pub Ends : {A : Type 0} → Bool → (Kernel → Type 0) → Option (A × Kernel) → Type 0
Ends true P m = m ≡ none
Ends false P m = Returns P m

add-IsValid :
    (e : Env) (pid : ℤ) (limit : ℕ) (s : Kernel)
    → IsValid s
    → Ends (reads_null e (add pid limit)) IsValid (matus_add_memory_limit e pid limit s)
unfolding matus_add_memory_limit
add-IsValid e pid limit s v = ground (arith, listed_lem pid s.memory_list)

-- The copies to user memory free the kernel's buffer on each way out, and leave the list alone.
copy_out-frees :
    (e : Env) (filled : ℕ × List MemoryLimitation) (s : Kernel)
    → s.allocated ≢ 0
    → Returns
        (λ s'.
          (s'.memory_list ≡ s.memory_list)
          × (s'.memory_list_mutex ≡ s.memory_list_mutex)
          × (s'.allocated ≡ s.allocated - 1))
        (copy_out e filled s)
unfolding copy_out
copy_out-frees e (count, buffer) s h = ground arith

get-IsValid :
    (e : Env) (has_buffer : Bool) (max_entries : ℕ) (has_returned : Bool) (s : Kernel)
    → IsValid s
    → Returns IsValid (matus_get_memory_limits e has_buffer max_entries has_returned s)
unfolding matus_get_memory_limits
get-IsValid e has_buffer max_entries has_returned s v = ground arith

update-IsValid :
    (e : Env) (pid : ℤ) (limit : ℕ) (s : Kernel)
    → IsValid s
    → Returns IsValid (matus_update_memory_limit e pid limit s)
unfolding matus_update_memory_limit
update-IsValid e pid limit s v = ground (
  arith,
  update_entry-Changes pid limit s.memory_list pid,
  update_entry-Keeps pid limit s.memory_list v.distinct,
)

remove-IsValid :
    (e : Env) (pid : ℤ) (s : Kernel)
    → IsValid s
    → Returns IsValid (matus_remove_memory_limit e pid s)
unfolding matus_remove_memory_limit
remove-IsValid e pid s v = ground (
  arith,
  list_del-Changes pid s.memory_list pid v.distinct,
  list_del-Keeps pid s.memory_list v.distinct,
)

request-IsValid :
    (e : Env) (pid : ℤ) (bytes : ℕ) (s : Kernel)
    → IsValid s
    → Returns IsValid (step e (request pid bytes) s)
unfolding step
request-IsValid e pid bytes s v = ground (arith, is_request_accepted_lem e pid bytes s v.unlocked)

-- A call in a valid state faults exactly where it reads through NULL, and otherwise returns, whatever
-- the environment answers, and leaves a valid state.
pub step-IsValid :
    (e : Env) (c : Call) (s : Kernel) → IsValid s → Ends (reads_null e c) IsValid (step e c s)
unfolding step
step-IsValid e (add pid limit) s v = add-IsValid e pid limit s v
step-IsValid e (get has_buffer max_entries has_returned) s v =
    get-IsValid e has_buffer max_entries has_returned s v
step-IsValid e (update pid limit) s v = update-IsValid e pid limit s v
step-IsValid e (remove pid) s v = remove-IsValid e pid s v
step-IsValid e (request pid bytes) s v = request-IsValid e pid bytes s v

Ends-Keeps :
    {A : Type 0} (b : Bool) (P : Kernel → Type 0) (m : Option (A × Kernel)) → Ends b P m → Keeps P m
Ends-Keeps b P none h = tt
Ends-Keeps true P (some (a, s)) h = absurd (ground (arith, h))
Ends-Keeps false P (some (a, s)) h = h

pub step-Keeps : (e : Env) (c : Call) (s : Kernel) → IsValid s → Keeps IsValid (step e c s)
step-Keeps e c s v = Ends-Keeps (reads_null e c) IsValid (step e c s) (step-IsValid e c s v)

abbrev pub some_reads_null : List (Env × Call) → Bool
some_reads_null [] = false
some_reads_null ((e, c) ∷ cs) = reads_null e c || some_reads_null cs

-- The reply is kept, and the state of the rest of the history is the state at its end.
run-tail :
    (b : Bool) (r : ℤ) (m : Option (List ℤ × Kernel))
    → Ends b IsValid m
    → Ends b IsValid (elim m [ none ↦ none | some (rs, s) ↦ some (r ∷ rs, s) ])
run-tail true r none h = refl
run-tail true r (some (rs, s)) h = absurd (ground (arith, h))
run-tail false r none h = h
run-tail false r (some (rs, s)) h = h

run-head :
    (b c : Bool) (cs : List (Env × Call)) (m : Option (ℤ × Kernel))
    → ((s' : Kernel) → IsValid s' → Ends c IsValid (run cs s'))
    → Ends b IsValid m
    → Ends (b || c) IsValid (elim m [
      | none ↦ none
      | some (r, s') ↦ elim (run cs s') [ none ↦ none | some (rs, t) ↦ some (r ∷ rs, t) ]
    ])
run-head true c cs none rest k = refl
run-head true c cs (some (r, s')) rest k = absurd (ground (arith, k))
run-head false c cs none rest k = absurd k
run-head false c cs (some (r, s')) rest k = run-tail c r (run cs s') (rest s' k)

run_from-IsValid :
    (cs : List (Env × Call)) (s : Kernel) → IsValid s → Ends (some_reads_null cs) IsValid (run cs s)
unfolding run
run_from-IsValid [] s v = v
run_from-IsValid ((e, c) ∷ cs) s v =
    run-head (reads_null e c) (some_reads_null cs) cs (step e c s)
      (λ s'. λ v'. run_from-IsValid cs s' v') (step-IsValid e c s v)

-- A history of calls from the start faults exactly when one of its calls adds a limit for a kernel
-- thread, whose mm is NULL, with arguments and a caller that pass the tests before. Every other
-- history returns: no call takes the mutex twice, leaves it held or frees an object twice. At its
-- end the list is valid, and it holds all objects.
pub run-IsValid : (cs : List (Env × Call)) → Ends (some_reads_null cs) IsValid (run cs init)
unfolding init
run-IsValid cs =
    run_from-IsValid cs init (record { unlocked = refl; distinct = tt; counted = refl })
