-- ===== src/Tamalloc.antt =====
-- kernel/usac/project2/syscall_tamalloc.c: zeroed memory on demand.
mod Tests
use vd2024_so2_private_code.Base.{
  ℕ, ◌+◌, ◌-◌, ◌*◌, ◌^◌, ◌≤◌, ◌<◌, ◌≡◌, ap, inl, inr, arith, ltb, Bool-cases, bit_or, ◌==◌,
  if◌then◌else◌, page_align, is_err_value, err64, einval, enomem,
}

-- The protection and mapping bits of mman.h.
abbrev pub prot_read : ℕ
prot_read = 1

abbrev pub prot_write : ℕ
prot_write = 2

abbrev pub map_private : ℕ
map_private = 0x02

abbrev pub map_anonymous : ℕ
map_anonymous = 0x20

abbrev pub map_noreserve : ℕ
map_noreserve = 0x4000

-- `vm_mmap(file, addr, len, prot, flag, offset)` of mm/util.c, with no file.
pub record VmMmap : Type 0 where
  pub vm_mmap : ℕ → ℕ → ℕ → ℕ → ℕ → ℕ

pub matus_tamalloc : VmMmap → ℕ → ℕ
matus_tamalloc k size =
    let aligned_size = page_align size in
    let addr =
      k.vm_mmap 0 aligned_size (bit_or prot_read prot_write)
        (bit_or (bit_or map_private map_anonymous) map_noreserve) 0 in
    if size == 0
    then err64 einval
    else (if aligned_size == 0 then err64 enomem else (if is_err_value addr then addr else addr))

-- Of size 0 the call makes an error, and of a size whose whole pages do not fit in a word another.
-- Any other size reaches `vm_mmap` rounded up to the pages that it fills, private, anonymous,
-- readable, writable and not reserved, and the call returns what `vm_mmap` does.
pub tamalloc_lem :
    (k : VmMmap) (size pages : ℕ)
    → size < 2 ^ 64
    → size ≤ pages * 4096
    → pages * 4096 < size + 4096
    → matus_tamalloc k size ≡ (
        if size == 0
        then err64 einval
        else (if ltb (2 ^ 64 - 4096) size
            then err64 enomem
            else k.vm_mmap 0 (pages * 4096) 3 0x4022 0))
unfolding matus_tamalloc
tamalloc_lem k size pages word enough tight = elim (Bool-cases (ltb (2 ^ 64 - 4096) size)) [
  | inl big ↦ ground arith
  | inr small ↦
      let whole : page_align size ≡ pages * 4096 = ground arith in
      ground (arith, ap (λ (t : ℕ). k.vm_mmap 0 t 3 0x4022 0) whole)
]
