-- ===== src/Limits/Tests.antt =====
-- The code of main.c at concrete inputs, and its theorems there.
use vd2024_so2_private_code.Base.{
  ℕ, ◌+◌, ◌*◌, ◌-◌, ◌^◌, ◌≡◌, refl, List, [], ◌∷◌, Option, none, some, true, false, arith, ℤ, pos,
  neg, is_neg, ◌==ℤ◌, if◌then◌else◌, sub64, page_align, ◌≤◌,
}
use vd2024_so2_private_code.Limits.{
  MemoryLimitation, Mm, Task, Env, Kernel, init, check_entries, check_list, is_request_accepted,
  matus_add_memory_limit, matus_get_memory_limits, matus_update_memory_limit,
  matus_remove_memory_limit,
}
use vd2024_so2_private_code.Limits.Table.{lookup}
use vd2024_so2_private_code.Limits.Access.{
  request_enforced, shrink_enforced, request_wraps, accepted_pages,
}
use vd2024_so2_private_code.Limits.Calls.{
  Call, add, get, update, remove, request, step, run, Ends, some_reads_null, IsValid, run-IsValid,
}
use vd2024_so2_private_code.Limits.Listing.{get_lists}
use vd2024_so2_private_code.Limits.Spec.{view, spec_run}
use vd2024_so2_private_code.Limits.Refine.{Agrees, MatchesAll, run_refines}

-- A process of 10 pages, and a kernel thread.
abbrev ten_pages : Mm
ten_pages = record { total_vm = 10 }

abbrev user : Task
user = record { mm = some ten_pages }

abbrev kernel_thread : Task
kernel_thread = record { mm = none }

abbrev entry : ℤ → ℕ → MemoryLimitation
entry pid limit = record { pid = pid; memory_limit = limit }

abbrev find : ℤ → Option Task
find pid = if pid ==ℤ pos 2 then some kernel_thread else (if is_neg pid then none else some user)

-- Everything is granted.
abbrev root : Env
root = record {
  find_task_by_vpid = find;
  capable = true;
  kmalloc = λ _. true;
  kmalloc_array = λ _. some (entry (pos 0) 0 ∷ entry (pos 0) 0 ∷ []);
  copy_to_user = λ l. (l, false);
  put_user = false;
}

-- Process 7 may use 16 pages, process 8 half a page more than 12.
abbrev limited : Kernel
limited = record {
  memory_list = entry (pos 7) 65536 ∷ entry (pos 8) 51200 ∷ entry (pos 9) 40960 ∷ [];
  memory_list_mutex = false;
  allocated = 3;
  processes_buffer = [];
  processes_returned = none;
}

abbrev history : List (Env × Call)
history =
    (root, add (pos 7) 65536)
    ∷ (root, request (pos 7) 24576)
    ∷ (root, request (pos 7) 24577)
    ∷ (root, add (pos 7) 90000)
    ∷ (root, update (pos 7) 40960)
    ∷ (root, request (pos 7) 1)
    ∷ (root, get true 2 true)
    ∷ (root, remove (pos 7))
    ∷ (root, remove (pos 7))
    ∷ []

abbrev replies_of : Option (List ℤ × Kernel) → Option (List ℤ)
replies_of none = none
replies_of (some (rs, s)) = some rs

history_replies :
    replies_of (run history init)
    ≡ some (pos 0 ∷ pos 1 ∷ pos 0 ∷ neg 101 ∷ pos 0 ∷ pos 0 ∷ pos 0 ∷ pos 0 ∷ neg 102 ∷ [])
unfolding run step init check_entries check_list is_request_accepted matus_add_memory_limit
    matus_get_memory_limits matus_update_memory_limit matus_remove_memory_limit
history_replies = refl

limited-IsValid : IsValid limited
unfolding lookup
limited-IsValid = record { unlocked = refl; distinct = (refl, (refl, (refl, tt))); counted = refl }

limited-7 : lookup (pos 7) limited.memory_list ≡ some 65536
unfolding lookup
limited-7 = refl

limited-8 : lookup (pos 8) limited.memory_list ≡ some 51200
unfolding lookup
limited-8 = refl

limited-9 : lookup (pos 9) limited.memory_list ≡ some 40960
unfolding lookup
limited-9 = refl

run-IsValid_example : Ends (some_reads_null history) IsValid (run history init)
run-IsValid_example = run-IsValid history

run_refines_example : Agrees MatchesAll (run history limited) (spec_run history (view limited))
run_refines_example = run_refines history limited limited-IsValid

request_enforced_example : is_request_accepted root (pos 7) 24577 limited ≡ some (false, limited)
request_enforced_example =
    request_enforced root (pos 7) 24577 limited user ten_pages 65536 refl (refl, refl) limited-7
      (omega arith)

-- The heap of process 9 shrinks by a page and leaves 9 pages of the 10 that it may have.
shrink_enforced_example :
    is_request_accepted root (pos 9) (sub64 4096 8192) limited ≡ some (true, limited)
shrink_enforced_example =
    shrink_enforced root (pos 9) 4096 8192 limited user ten_pages 40960 refl (refl, refl) limited-9
      (omega arith) (omega arith) (omega arith) (omega arith)

request_wraps_example :
    is_request_accepted root (pos 7) (2 ^ 64 - 4096) limited ≡ some (true, limited)
request_wraps_example =
    request_wraps root (pos 7) (2 ^ 64 - 4096) limited user ten_pages 65536 refl (refl, refl)
      limited-7 (omega arith) (omega arith) (omega arith) (omega arith)

accepted_pages_example : 10 * 4096 + page_align 10000 ≤ 53248
accepted_pages_example =
    accepted_pages root (pos 8) 10000 limited user ten_pages 51200 refl (refl, refl) limited-8
      (omega arith)
      (request_enforced root (pos 8) 10000 limited user ten_pages 51200 refl (refl, refl) limited-8
        (omega arith))

get_lists_example :
    matus_get_memory_limits root true 2 true limited
    ≡ some (
      pos 0,
      record limited {
        processes_buffer = entry (pos 7) 65536 ∷ entry (pos 8) 51200 ∷ [];
        processes_returned = some 2;
      },
    )
get_lists_example =
    get_lists root 2 (entry (pos 0) 0 ∷ entry (pos 0) 0 ∷ []) limited refl (omega arith) refl refl
      (λ l. refl, refl)
