-- ===== src/Limits/Refine.antt =====
-- The calls of main.c do what those of the table do.
use mathlib.Core.Path.{fun_ext}
use vd2024_so2_private_code.Base.{
  ℕ, zero, suc, ◌+◌, ◌≤◌, ◌≢◌, ◌≡◌, refl, ap, ◌∙◌, inl, inr, List, [], ◌∷◌, Option, none, some,
  Bool, false, ◌&&◌, Bool-cases, Option-cases, length, take, set, arith, ltb, leb, ℤ, pos,
}
use vd2024_so2_private_code.Limits.{
  MemoryLimitation, Env, Kernel, fill, copy_out, matus_add_memory_limit, matus_get_memory_limits,
  matus_update_memory_limit, matus_remove_memory_limit,
}
use vd2024_so2_private_code.Limits.Access.{is_request_accepted_lem}
use vd2024_so2_private_code.Limits.Table.{
  lookup, listed_lem, update_entry-Changes, list_del-Changes,
}
use vd2024_so2_private_code.Limits.Calls.{
  Call, add, get, update, remove, request, step, run, IsValid, Keeps, step-Keeps,
}
use vd2024_so2_private_code.Limits.Spec.{
  Table, view, Reply, exactly, copying, Outcome, copy_reply, spec_get, spec_add, spec_change,
  spec_step, spec_run,
}

abbrev pub Matches : ℤ → Reply → Type 0
Matches r (exactly q) = r ≡ q
Matches r (copying reply most) = (es : List MemoryLimitation) × (length es ≤ most) × (r ≡ reply es)

abbrev pub MatchesAll : List ℤ → List Reply → Type 0
MatchesAll [] [] = Unit {0}
MatchesAll (r ∷ rs) (q ∷ qs) = Matches r q × MatchesAll rs qs
MatchesAll _ _ = ⊥

-- Both fault, or both return, with replies that match and one table.
abbrev pub Agrees :
    {A B : Type 0} → (A → B → Type 0) → Option (A × Kernel) → Option (B × Table) → Type 0
Agrees R none none = Unit {0}
Agrees R (some (r, s)) (some (q, t)) = R r q × (view s ≡ t)
Agrees R _ _ = ⊥

-- The same at one process.
abbrev AgreesAt : ℤ → Option (ℤ × Kernel) → Outcome → Type 0
AgreesAt j none none = Unit {0}
AgreesAt j (some (r, s)) (some (q, t)) = Matches r q × (view s j ≡ t j)
AgreesAt j _ _ = ⊥

Agrees-ext :
    (m : Option (ℤ × Kernel)) (n : Outcome) → ((j : ℤ) → AgreesAt j m n) → Agrees Matches m n
Agrees-ext none none h = tt
Agrees-ext none (some (q, t)) h = h (pos 0)
Agrees-ext (some (r, s)) none h = h (pos 0)
Agrees-ext (some (r, s)) (some (q, t)) h = ((h (pos 0)).0, fun_ext (λ j. (h j).1))

add-AgreesAt :
    (e : Env) (pid : ℤ) (limit : ℕ) (s : Kernel) (j : ℤ)
    → IsValid s
    → AgreesAt j (matus_add_memory_limit e pid limit s) (spec_add e pid limit (view s))
unfolding matus_add_memory_limit spec_add lookup
add-AgreesAt e pid limit s j v = ground (arith, listed_lem pid s.memory_list)

update-AgreesAt :
    (e : Env) (pid : ℤ) (limit : ℕ) (s : Kernel) (j : ℤ)
    → IsValid s
    → AgreesAt j (matus_update_memory_limit e pid limit s) (spec_change e pid (some limit) (view s))
unfolding matus_update_memory_limit spec_change
update-AgreesAt e pid limit s j v = ground (arith, update_entry-Changes pid limit s.memory_list j)

remove-AgreesAt :
    (e : Env) (pid : ℤ) (s : Kernel) (j : ℤ)
    → IsValid s
    → AgreesAt j (matus_remove_memory_limit e pid s) (spec_change e pid none (view s))
unfolding matus_remove_memory_limit spec_change
remove-AgreesAt e pid s j v = ground (arith, list_del-Changes pid s.memory_list j v.distinct)

fill-le :
    (es : List MemoryLimitation) (max_entries count : ℕ) (buffer : List MemoryLimitation)
    → count ≤ max_entries
    → (fill es max_entries count buffer).0 ≤ max_entries
unfolding fill
fill-le [] max_entries count buffer h = h
fill-le (e ∷ es) max_entries count buffer h = elim (Bool-cases (leb max_entries count)) [
  | inl full ↦ rw full h
  | inr more ↦
      rw more (fill-le es max_entries (count + 1) (set buffer count e) (ground (arith, more)))
]

take-le : (n : ℕ) (es : List MemoryLimitation) → length (take n es) ≤ n
take-le zero es = omega arith
take-le (suc n) [] = omega arith
take-le (suc n) (e ∷ es) = omega (arith, take-le n es)

-- The copies of entries to the caller answer, and leave the list alone.
abbrev Copied : Env → List MemoryLimitation → Kernel → Option (ℤ × Kernel) → Type 0
Copied e es s none = ⊥
Copied e es s (some (r, s')) = (r ≡ copy_reply e es) × (s'.memory_list ≡ s.memory_list)

copy_out-Copied :
    (e : Env) (count : ℕ) (buffer : List MemoryLimitation) (s : Kernel)
    → s.allocated ≢ 0
    → Copied e (take count buffer) s (copy_out e (count, buffer) s)
unfolding copy_out
copy_out-Copied e count buffer s h = ground arith

Copied-AgreesAt :
    (e : Env) (n : ℕ) (es : List MemoryLimitation) (s s' : Kernel) (j : ℤ)
    → (out : Option (ℤ × Kernel)) → s'.memory_list ≡ s.memory_list
    → length es ≤ n
    → Copied e es s' out
    → AgreesAt j out (some (copying (copy_reply e) n, view s))
Copied-AgreesAt e n es s s' j none same le c = c
Copied-AgreesAt e n es s s' j (some (r, t)) same le (reply, kept) =
    ((es, le, reply), ap (lookup j) (kept ∙ same))

get-AgreesAt :
    (e : Env) (has_buffer : Bool) (max_entries : ℕ) (has_returned : Bool) (s : Kernel) (j : ℤ)
    → IsValid s
    → AgreesAt j
        (matus_get_memory_limits e has_buffer max_entries has_returned s)
        (spec_get e has_buffer max_entries has_returned (view s))
unfolding matus_get_memory_limits spec_get
get-AgreesAt e has_buffer max_entries has_returned s j v =
    elim (Bool-cases (has_buffer && has_returned && ltb 0 max_entries)) [
      | inr refused ↦ ground (arith, refused)
      | inl asked ↦ elim (Option-cases (e.kmalloc_array max_entries)) [
        | inl missing ↦ ground (arith, asked, missing)
        | inr (memory, found) ↦
            let (count, buffer) = fill s.memory_list max_entries 0 memory in
            let t = record s { memory_list_mutex = false; allocated = suc s.allocated } in
            let copies =
              Copied-AgreesAt e max_entries (take count buffer) s t j (copy_out e (count, buffer) t)
                refl
                (omega (
                  arith,
                  take-le count buffer,
                  fill-le s.memory_list max_entries 0 memory (omega arith),
                ))
                (copy_out-Copied e count buffer t (omega arith)) in
            ground (arith, asked, found, v.unlocked, copies)
      ]
    ]

request-AgreesAt :
    (e : Env) (pid : ℤ) (bytes : ℕ) (s : Kernel) (j : ℤ)
    → IsValid s
    → AgreesAt j (step e (request pid bytes) s) (spec_step e (request pid bytes) (view s))
unfolding step spec_step
request-AgreesAt e pid bytes s j v =
    ground (arith, is_request_accepted_lem e pid bytes s v.unlocked)

-- In a valid state every call of main.c does what the table does: it faults exactly when the
-- table's call faults, and otherwise returns its reply and leaves its table. The reply of `get` to a
-- copy is that to entries as many as it may copy at most, and its table is the one before.
pub step_refines :
    (e : Env) (c : Call) (s : Kernel)
    → IsValid s
    → Agrees Matches (step e c s) (spec_step e c (view s))
unfolding step spec_step
step_refines e (add pid limit) s v = Agrees-ext _ _ (λ j. add-AgreesAt e pid limit s j v)
step_refines e (get has_buffer max_entries has_returned) s v =
    Agrees-ext _ _ (λ j. get-AgreesAt e has_buffer max_entries has_returned s j v)
step_refines e (update pid limit) s v = Agrees-ext _ _ (λ j. update-AgreesAt e pid limit s j v)
step_refines e (remove pid) s v = Agrees-ext _ _ (λ j. remove-AgreesAt e pid s j v)
step_refines e (request pid bytes) s v = Agrees-ext _ _ (λ j. request-AgreesAt e pid bytes s j v)

abbrev consing : ℤ → Option (List ℤ × Kernel) → Option (List ℤ × Kernel)
consing r none = none
consing r (some (rs, s)) = some (r ∷ rs, s)

abbrev spec_consing : Reply → Option (List Reply × Table) → Option (List Reply × Table)
spec_consing q none = none
spec_consing q (some (qs, t)) = some (q ∷ qs, t)

consing-Agrees :
    (r : ℤ) (q : Reply) (m : Option (List ℤ × Kernel)) (n : Option (List Reply × Table))
    → Matches r q
    → Agrees MatchesAll m n
    → Agrees MatchesAll (consing r m) (spec_consing q n)
consing-Agrees r q none none h k = tt
consing-Agrees r q none (some (qs, t)) h k = k
consing-Agrees r q (some (rs, s)) none h k = k
consing-Agrees r q (some (rs, s)) (some (qs, t)) h k = ((h, k.0), k.1)

-- The call in front of a history.
bind_run : List (Env × Call) → Option (ℤ × Kernel) → Option (List ℤ × Kernel)
bind_run cs none = none
bind_run cs (some (r, s)) = consing r (run cs s)

spec_bind_run : List (Env × Call) → Outcome → Option (List Reply × Table)
spec_bind_run cs none = none
spec_bind_run cs (some (q, t)) = spec_consing q (spec_run cs t)

bind_run-Agrees :
    (cs : List (Env × Call)) (m : Option (ℤ × Kernel)) (n : Outcome)
    → ((s : Kernel) → IsValid s → Agrees MatchesAll (run cs s) (spec_run cs (view s)))
    → Keeps IsValid m
    → Agrees Matches m n
    → Agrees MatchesAll (bind_run cs m) (spec_bind_run cs n)
unfolding bind_run spec_bind_run
bind_run-Agrees cs none none rest v a = tt
bind_run-Agrees cs none (some (q, t)) rest v a = absurd a
bind_run-Agrees cs (some (r, s)) none rest v a = absurd a
bind_run-Agrees cs (some (r, s)) (some (q, t)) rest v a =
    consing-Agrees r q (run cs s) (spec_run cs t) a.0 (rw a.1 at (rest s v))

run-cons :
    (e : Env) (c : Call) (cs : List (Env × Call)) (s : Kernel)
    → run ((e, c) ∷ cs) s ≡ bind_run cs (step e c s)
unfolding run bind_run
run-cons e c cs s = ground arith

spec_run-cons :
    (e : Env) (c : Call) (cs : List (Env × Call)) (t : Table)
    → spec_run ((e, c) ∷ cs) t ≡ spec_bind_run cs (spec_step e c t)
unfolding spec_run spec_bind_run
spec_run-cons e c cs t = ground arith

-- A history of calls from a valid state faults exactly when the table's does. Otherwise the replies
-- are the table's, and so is the table at the end; the reply to a copy is -EFAULT exactly when the
-- entries that are copied, at most as many as asked for, or their number do not reach the caller.
pub run_refines :
    (cs : List (Env × Call)) (s : Kernel)
    → IsValid s
    → Agrees MatchesAll (run cs s) (spec_run cs (view s))
unfolding run spec_run
run_refines [] s v = (tt, refl)
run_refines ((e, c) ∷ cs) s v =
    rw (run-cons, spec_run-cons)
      (bind_run-Agrees cs (step e c s) (spec_step e c (view s)) (λ s'. λ v'. run_refines cs s' v')
        (step-Keeps e c s v) (step_refines e c s v))
