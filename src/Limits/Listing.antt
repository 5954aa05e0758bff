-- ===== src/Limits/Listing.antt =====
-- `matus_get_memory_limits` of main.c: the copy of the list to the caller.
use mathlib.Core.List.{append-nil, append_assoc}
use vd2024_so2_private_code.Base.{
  ℕ, ◌+◌, ◌-◌, ◌≤◌, ◌<◌, ◌≡◌, min, List, [], ◌∷◌, ◌++◌, some, true, false, arith, length, set,
  length-set, take, take-nil, take-set, take-cons, pos, leb, Bool-cases, leb→le, ◌∙◌, inl, inr,
}
use vd2024_so2_private_code.Limits.{MemoryLimitation, Env, Kernel, fill, matus_get_memory_limits}

-- What the copying loop leaves from `count` on: the number of entries that it has copied, and in
-- the buffer those that were there followed by the entries of the list that fit.
record Filled (es : List MemoryLimitation) (max_entries count : ℕ) (buffer : List MemoryLimitation)
    (out : ℕ × List MemoryLimitation) : Type 0 where
  copied : out.0 ≡ count + min (length es) (max_entries - count)
  entries : take out.0 out.1 ≡ take count buffer ++ take (max_entries - count) es

fill-Filled :
    (es : List MemoryLimitation) (max_entries count : ℕ) (buffer : List MemoryLimitation)
    → length buffer ≡ max_entries
    → count ≤ max_entries
    → Filled es max_entries count buffer (fill es max_entries count buffer)
unfolding fill
fill-Filled [] max_entries count buffer h le = record {
  copied = omega arith;
  entries = rw (take-nil, append-nil);
}
fill-Filled (e ∷ es) max_entries count buffer h le = elim (Bool-cases (leb max_entries count)) [
  | inl full ↦
      let done : max_entries - count ≡ 0 = omega (arith, leb→le max_entries count full) in
      record { copied = rw full (omega arith); entries = rw (full, done, append-nil) }
  | inr more ↦
      let room : count < max_entries = ground arith in
      let ih =
        fill-Filled es max_entries (count + 1) (set buffer count e) (length-set buffer count e ∙ h)
          (omega arith) in
      ground (
        arith,
        ih,
        take-set buffer count e,
        append_assoc (take count buffer) (e ∷ []) (take (max_entries - count - 1) es),
        take-cons (max_entries - count) e es,
      )
]

-- The copies to user memory succeed.
abbrev pub Copies : Env → Type 0
Copies e = ((l : List MemoryLimitation) → e.copy_to_user l ≡ (l, false)) × (e.put_user ≡ false)

-- Where memory is at hand and the copies succeed, the caller gets the entries of the list, newest
-- first, as many as it has room for, and their number. No word of the buffer that was not written
-- reaches it; the list stays, the mutex is free and the buffer is given back.
pub get_lists :
    (e : Env) (max_entries : ℕ) (buffer : List MemoryLimitation) (s : Kernel)
    → s.memory_list_mutex ≡ false
    → 0 < max_entries
    → e.kmalloc_array max_entries ≡ some buffer
    → length buffer ≡ max_entries
    → Copies e
    → matus_get_memory_limits e true max_entries true s
      ≡ some (
        pos 0,
        record s {
          processes_buffer = take max_entries s.memory_list;
          processes_returned = some (min (length s.memory_list) max_entries);
        },
      )
unfolding matus_get_memory_limits
get_lists e max_entries buffer s free some_room found full (copies, puts) =
    let out = fill s.memory_list max_entries 0 buffer in
    ground (
      arith,
      fill-Filled s.memory_list max_entries 0 buffer full (omega arith),
      copies (take out.0 out.1),
    )
