-- ===== src/Limits/Spec.antt =====
-- What main.c promises of its calls: a table of limits, with no list, mutex or allocation in it.
use vd2024_so2_private_code.Base.{
  ℕ, ◌^◌, List, [], ◌∷◌, Option, none, some, Bool, not, ◌&&◌, ◌||◌, efault, ltb, leb, if◌then◌else◌,
  is_some, ℤ, pos, neg, is_neg, eperm, esrch, einval, enomem,
}
use vd2024_so2_private_code.Limits.{MemoryLimitation, Mm, Env, Kernel, current_usage}
use vd2024_so2_private_code.Limits.Access.{accepts}
use vd2024_so2_private_code.Limits.Table.{lookup, put}
use vd2024_so2_private_code.Limits.Calls.{Call, add, get, update, remove, request, as_reply}

abbrev pub Table : Type 0
Table = ℤ → Option ℕ

abbrev pub view : Kernel → Table
view s j = lookup j s.memory_list

-- A reply that the table tells, or one on the copy of at most so many entries. The table has no order,
-- so it does not tell which entries are copied.
pub data Reply : Type 0 where
  exactly : ℤ → Reply
  copying : (List MemoryLimitation → ℤ) → ℕ → Reply

-- A reply and the table after the call; `none` is a fault.
abbrev pub Outcome : Type 0
Outcome = Option (Reply × Table)

abbrev pub replies : ℤ → Table → Outcome
replies r t = some (exactly r, t)

-- The reply to a copy: -EFAULT unless all entries and their number reach the caller.
abbrev pub copy_reply : Env → List MemoryLimitation → ℤ
copy_reply e entries = if (e.copy_to_user entries).1 || e.put_user then neg efault else pos 0

unfoldable pub spec_get : Env → Bool → ℕ → Bool → Table → Outcome
spec_get e has_buffer max_entries has_returned t =
    if has_buffer && has_returned && ltb 0 max_entries
    then elim (e.kmalloc_array max_entries) [
      | none ↦ replies (neg enomem) t
      | some memory ↦ some (copying (copy_reply e) max_entries, t)
    ]
    else replies (neg einval) t

unfoldable pub spec_insert : Env → ℤ → ℕ → Mm → Table → Outcome
spec_insert e pid limit mm t =
    if ltb limit (current_usage mm)
    then replies (neg 100) t
    else (if is_some (t pid)
        then replies (neg 101) t
        else (if e.kmalloc 32
            then replies (pos 0) (put pid (some limit) t)
            else replies (neg enomem) t))

unfoldable pub spec_add : Env → ℤ → ℕ → Table → Outcome
unfolding spec_insert
spec_add e pid limit t =
    if is_neg pid then replies (neg einval) t else elim (e.find_task_by_vpid pid) [
      | none ↦ replies (neg esrch) t
      | some task ↦
          if not e.capable
          then replies (neg eperm) t
          else (if leb (2 ^ 63) limit
              then replies (neg einval) t
              else elim task.mm [ none ↦ none | some mm ↦ spec_insert e pid limit mm t ])
    ]

-- An update and a removal want an entry. Neither looks at the usage of the process, and an update
-- takes every limit.
unfoldable pub spec_change : Env → ℤ → Option ℕ → Table → Outcome
spec_change e pid limit t =
    if not e.capable
    then replies (neg eperm) t
    else (if is_neg pid
        then replies (neg einval) t
        else (if is_some (t pid) then replies (pos 0) (put pid limit t) else replies (neg 102) t))

unfoldable pub spec_step : Env → Call → Table → Outcome
unfolding spec_add spec_change spec_get
spec_step e (add pid limit) t = spec_add e pid limit t
spec_step e (get has_buffer max_entries has_returned) t =
    spec_get e has_buffer max_entries has_returned t
spec_step e (update pid limit) t = spec_change e pid (some limit) t
spec_step e (remove pid) t = spec_change e pid none t
spec_step e (request pid bytes) t =
    replies (as_reply (accepts bytes (t pid) (e.find_task_by_vpid pid))) t

unfoldable pub spec_run : List (Env × Call) → Table → Option (List Reply × Table)
spec_run [] t = some ([], t)
spec_run ((e, c) ∷ cs) t = elim (spec_step e c t) [
  | none ↦ none
  | some (r, t') ↦ elim (spec_run cs t') [ none ↦ none | some (rs, u) ↦ some (r ∷ rs, u) ]
]
