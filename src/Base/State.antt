-- ===== src/Base/State.antt =====
-- Sequential kernel code as a state monad with faults. `none` is a fault: a read through a NULL
-- pointer, a mutex taken twice or released while free, an object freed twice.
use mathlib.Core.Option.{Option, none, some}

abbrev pub M : Type 0 → Type 0 → Type 0
M S A = S → Option (A × S)

infixl 5 ◌>>=◌ ◌>>◌
abbrev pub ◌>>=◌ : {S A B : Type 0} → M S A → (A → M S B) → M S B
◌>>=◌ m f s = elim (m s) [ none ↦ none | some (a, s') ↦ f a s' ]

abbrev pub ◌>>◌ : {S A B : Type 0} → M S A → M S B → M S B
◌>>◌ m k s = elim (m s) [ none ↦ none | some (a, s') ↦ k s' ]

abbrev pub ret : {S A : Type 0} → A → M S A
ret a s = some (a, s)

abbrev pub gets : {S A : Type 0} → (S → A) → M S A
gets f s = some (f s, s)

abbrev pub puts : {S : Type 0} → (S → S) → M S (Unit {0})
puts f s = some (tt, f s)

-- A read through a pointer that may be NULL.
abbrev pub deref : {S A : Type 0} → Option A → M S A
deref none s = none
deref (some a) s = some (a, s)
