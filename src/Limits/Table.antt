-- ===== src/Limits/Table.antt =====
-- The list of main.c seen as a table from processes to limits, and its loops against that view.
use vd2024_so2_private_code.Base.{
  ℕ, suc, ◌≡◌, refl, List, [], ◌∷◌, Option, none, some, true, arith, length, if◌then◌else◌, is_some,
  ℤ, ◌==ℤ◌, ==ℤ_iff,
}
use vd2024_so2_private_code.Limits.{MemoryLimitation, listed, update_entry, list_del}

-- The limit that holds for a process: that of its first entry.
unfoldable pub lookup : ℤ → List MemoryLimitation → Option ℕ
lookup pid [] = none
lookup pid (entry ∷ rest) = if entry.pid ==ℤ pid then some entry.memory_limit else lookup pid rest

-- No process has two entries.
abbrev pub IsDistinct : List MemoryLimitation → Type 0
IsDistinct [] = Unit {0}
IsDistinct (entry ∷ rest) = (lookup entry.pid rest ≡ none) × IsDistinct rest

-- A table with one entry set, or removed.
abbrev pub put : ℤ → Option ℕ → (ℤ → Option ℕ) → ℤ → Option ℕ
put pid limit table j = if pid ==ℤ j then limit else table j

pub listed_lem : (pid : ℤ) (es : List MemoryLimitation) → listed pid es ≡ is_some (lookup pid es)
unfolding listed lookup
listed_lem pid [] = refl
listed_lem pid (e ∷ es) = ground (arith, listed_lem pid es)

pub lookup-cons :
    (pid j : ℤ) (limit : ℕ) (es : List MemoryLimitation)
    → lookup j (record { pid = pid; memory_limit = limit } ∷ es)
      ≡ put pid (some limit) (λ k. lookup k es) j
unfolding lookup
lookup-cons pid j limit es = refl

-- What a loop that searches for a process leaves, seen at a process `j`: nothing where there is no
-- entry, and otherwise a list that is the table with `limit` put at the process.
abbrev pub Changes :
    ℤ → Option ℕ → List MemoryLimitation → ℤ → Option (List MemoryLimitation) → Type 0
Changes pid limit es j none = lookup pid es ≡ none
Changes pid limit es j (some es') =
    (is_some (lookup pid es) ≡ true)
    × (lookup j es' ≡ put pid limit (λ k. lookup k es) j)
    × (length es ≡ (if is_some limit then length es' else suc (length es')))

pub update_entry-Changes :
    (pid : ℤ) (limit : ℕ) (es : List MemoryLimitation) (j : ℤ)
    → Changes pid (some limit) es j (update_entry pid limit es)
unfolding lookup update_entry
update_entry-Changes pid limit [] j = refl
update_entry-Changes pid limit (e ∷ es) j =
    ground (
      arith,
      ==ℤ_iff e.pid pid,
      ==ℤ_iff e.pid j,
      ==ℤ_iff pid j,
      update_entry-Changes pid limit es j,
    )

pub list_del-Changes :
    (pid : ℤ) (es : List MemoryLimitation) (j : ℤ)
    → IsDistinct es
    → Changes pid none es j (list_del pid es)
unfolding lookup list_del
list_del-Changes pid [] j d = refl
list_del-Changes pid (e ∷ es) j d =
    ground (arith, ==ℤ_iff e.pid pid, ==ℤ_iff e.pid j, ==ℤ_iff pid j, list_del-Changes pid es j d.1)

-- The loops keep the processes of the entries distinct.
abbrev pub Keeps : Option (List MemoryLimitation) → Type 0
Keeps none = Unit {0}
Keeps (some es') = IsDistinct es'

pub update_entry-Keeps :
    (pid : ℤ) (limit : ℕ) (es : List MemoryLimitation)
    → IsDistinct es
    → Keeps (update_entry pid limit es)
unfolding update_entry lookup
update_entry-Keeps pid limit [] d = tt
update_entry-Keeps pid limit (e ∷ es) d = ground (
  arith,
  ==ℤ_iff e.pid pid,
  ==ℤ_iff pid e.pid,
  update_entry-Keeps pid limit es d.1,
  update_entry-Changes pid limit es e.pid,
)

pub list_del-Keeps :
    (pid : ℤ) (es : List MemoryLimitation) → IsDistinct es → Keeps (list_del pid es)
unfolding list_del lookup
list_del-Keeps pid [] d = tt
list_del-Keeps pid (e ∷ es) d = ground (
  arith,
  ==ℤ_iff e.pid pid,
  ==ℤ_iff pid e.pid,
  list_del-Keeps pid es d.1,
  list_del-Changes pid es e.pid d.1,
)
