-- ===== src/Mboot.antt =====
-- kernel/init/init/multiboot/mboot.c, the driver for the first multiboot standard, and how
-- kernel/init/init/multiboot/api.c calls a driver.
pub mod Map
mod Tests
use missy_kernel.Base.{
  ℕ, ◌+◌, ◌*◌, ◌/◌, ◌^◌, bit_and, u32, ltb, ◌==◌, if◌then◌else◌, Bool, true, false, Option, none,
  some, Store,
}
use missy_kernel.BootInfo.{MmapData, BootApi}

-- MEMSZ_PRESENT, MMAP_PRESENT and the error numbers of multiboot.h
abbrev pub memsz_present : ℕ
memsz_present = 0x0001

abbrev pub mmap_present : ℕ
mmap_present = 0x0040

abbrev pub error_invalid_memsize : ℕ
error_invalid_memsize = 0x0001

abbrev pub error_invalid_memory_map : ℕ
error_invalid_memory_map = 0x0002

abbrev pub error_entry_not_found : ℕ
error_entry_not_found = 0x0006

-- `sizeof(memory_map_inf)`
abbrev pub entry_size : ℕ
entry_size = 24

-- Memory as 32-bit words by byte address, `mboot_ptr`, `current_mmap_entry` and `kinit_errno`.
pub record Mboot : Type 0 where
  pub mem : Store
  pub mboot_ptr : ℕ
  pub current_mmap_entry : ℕ
  pub errno : ℕ

-- The fields of `multiboot_info` that are read, by their offsets in the packed structure.
abbrev pub flags : Mboot → ℕ
flags s = s.mem s.mboot_ptr

abbrev pub memory_sz_lo : Mboot → ℕ
memory_sz_lo s = s.mem (s.mboot_ptr + 4)

abbrev pub memory_sz_hi : Mboot → ℕ
memory_sz_hi s = s.mem (s.mboot_ptr + 8)

abbrev pub mmap_length : Mboot → ℕ
mmap_length s = s.mem (s.mboot_ptr + 44)

abbrev pub mmap_addr : Mboot → ℕ
mmap_addr s = s.mem (s.mboot_ptr + 48)

-- `bootflag_check(x,y)`
abbrev pub bootflag_check : ℕ → ℕ → Bool
bootflag_check x y = if bit_and x y == 0 then false else true

-- `true` for 0, `false` for -1.
unfoldable pub check_multiboot_flags : ℕ → Mboot → Bool × Mboot
check_multiboot_flags fl s =
    if bootflag_check fl memsz_present
    then (if bootflag_check fl mmap_present
        then (true, s)
        else (false, record s { errno = error_invalid_memory_map }))
    else (false, record s { errno = error_invalid_memsize })

unfoldable pub init_multiboot : Mboot → Bool × Mboot
init_multiboot s = check_multiboot_flags (flags s) s

-- `none` for -1.
unfoldable pub mboot_get_memory_size : Mboot → Option ℕ × Mboot
mboot_get_memory_size s =
    if bootflag_check (flags s) memsz_present
    then (some (u32 (memory_sz_lo s + memory_sz_hi s)), s)
    else (none, record s { errno = error_entry_not_found })

-- The address of the entry, or `none` for NULL.
unfoldable pub multiboot_next_mmap : Mboot → Option ℕ × Mboot
multiboot_next_mmap s =
    if ltb s.current_mmap_entry (mmap_length s / entry_size)
    then (
      some (u32 (mmap_addr s + s.mem (mmap_addr s) + 4 + s.current_mmap_entry * entry_size)),
      record s { current_mmap_entry = u32 (s.current_mmap_entry + 1) },
    )
    else (none, s)

-- The entry at an address: `sz`, and then what is copied.
abbrev pub entry_at : Store → ℕ → MmapData
entry_at m a = record {
  base = m (a + 4) + m (a + 8) * 2 ^ 32;
  length = m (a + 12) + m (a + 16) * 2 ^ 32;
  type = m (a + 20);
}

unfoldable pub mboot_get_next_mmap_entry : Mboot → Option MmapData × Mboot
unfolding multiboot_next_mmap
mboot_get_next_mmap_entry s =
    if bootflag_check (flags s) mmap_present
    then (let (next, s') = multiboot_next_mmap s in
        elim next [ none ↦ (none, s') | some a ↦ (some (entry_at s'.mem a), s') ])
    else (none, record s { errno = error_entry_not_found })

-- api.c, with this driver installed.
unfoldable pub multiboot_get_memsz : Mboot → ℕ × Mboot
unfolding mboot_get_memory_size
multiboot_get_memsz s =
    let (memsize, s') = mboot_get_memory_size s in
    elim memsize [ none ↦ (0, s') | some kb ↦ (kb, s') ]

unfoldable pub multiboot_get_mmap_next : Mboot → Option MmapData × Mboot
unfolding mboot_get_next_mmap_entry
multiboot_get_mmap_next s = mboot_get_next_mmap_entry s

-- The driver installs no relocation, so that `multiboot_unimplemented` is called.
unfoldable pub multiboot_relocate : Mboot → ℕ → Mboot
multiboot_relocate s kernel_end_ptr = s

abbrev pub mboot_api : BootApi Mboot
mboot_api = record {
  get_memsz = multiboot_get_memsz;
  relocate = multiboot_relocate;
  get_mmap_next = multiboot_get_mmap_next;
  kinit_errno = λ s. s.errno;
}
