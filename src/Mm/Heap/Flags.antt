-- ===== src/Mm/Heap/Flags.antt =====
-- The flags of a vma of the heap: what VM_SOFTDIRTY leaves, and what a merge has in common.
use vd2024_so2_private_code.Base.{ℕ, ◌≡◌, refl, bit_and, bit_or, bit_xor}
use vd2024_so2_private_code.Base.Bits.{or_and, xor_and, and_sub}
use vd2024_so2_private_code.Mm.Types.{complement, vm_softdirty, vm_locked}

pub softdirty_hidden :
    (flags : ℕ)
    → bit_and (bit_or flags vm_softdirty) (complement vm_softdirty)
      ≡ bit_and flags (complement vm_softdirty)
softdirty_hidden flags = or_and flags vm_softdirty (complement vm_softdirty) refl

pub softdirty_locked :
    (flags : ℕ) → bit_and (bit_or flags vm_softdirty) vm_locked ≡ bit_and flags vm_locked
softdirty_locked flags = or_and flags vm_softdirty vm_locked refl

pub mergeable-flags :
    (a b : ℕ)
    → bit_and (bit_xor a b) (complement vm_softdirty) ≡ 0
    → (bit_and a (complement vm_softdirty) ≡ bit_and b (complement vm_softdirty))
      × (bit_and a vm_locked ≡ bit_and b vm_locked)
mergeable-flags a b h = (
  xor_and a b (complement vm_softdirty) h,
  xor_and a b vm_locked (and_sub (bit_xor a b) (complement vm_softdirty) vm_locked h refl),
)
