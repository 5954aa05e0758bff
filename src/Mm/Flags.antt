-- ===== src/Mm/Flags.antt =====
-- The flags of uapi/asm-generic/mman.h that do_mmap of mm/mmap.c reads.
use vd2024_so2_private_code.Base.{ℕ}

abbrev pub prot_read : ℕ
prot_read = 1

abbrev pub prot_write : ℕ
prot_write = 2

abbrev pub prot_exec : ℕ
prot_exec = 4

abbrev pub map_private : ℕ
map_private = 2

abbrev pub map_shared_validate : ℕ
map_shared_validate = 3

abbrev pub map_type : ℕ
map_type = 0xf

abbrev pub map_fixed_noreplace : ℕ
map_fixed_noreplace = 0x100000

abbrev pub map_locked : ℕ
map_locked = 0x2000

abbrev pub map_noreserve : ℕ
map_noreserve = 0x4000

abbrev pub map_populate : ℕ
map_populate = 0x8000

abbrev pub map_nonblock : ℕ
map_nonblock = 0x10000
