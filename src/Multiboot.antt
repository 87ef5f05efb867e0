-- ===== src/Multiboot.antt =====
-- kernel/init/init/multiboot/api.c: the choice of the multiboot driver, and the calls that go to
-- the one that is installed. Fuel is for the walk over the tags of the second standard.

pub mod Init
pub mod Boot
pub mod Tests
use missy_kernel.Base.{
  ℕ, bit_and, ◌==◌, if◌then◌else◌, Bool, true, false, Option, none, some, Store, word,
}
use missy_kernel.BootInfo.{MmapData, BootApi}
use missy_kernel.Mboot.{Mboot, init_multiboot, mboot_get_memory_size, mboot_get_next_mmap_entry}
use missy_kernel.Mboot2.{
  Mboot2, init_multiboot2, mboot2_get_memory_size, mboot2_get_next_mmap, mboot2_relocate_tags,
}

-- MULTIBOOT_MAGIC, MULTIBOOT2_MAGIC and the error numbers of multiboot.h
abbrev pub multiboot_magic : ℕ
multiboot_magic = 0x2bad_b002

abbrev pub multiboot2_magic : ℕ
multiboot2_magic = 0x36d7_6289

abbrev pub error_misaligned_header : ℕ
error_misaligned_header = 0x0004

abbrev pub error_unsupported : ℕ
error_unsupported = 0x0007

-- The functions that `api_struct` holds: `multiboot_unimplemented` three times, or a driver's. The
-- first driver leaves the relocation unimplemented.
pub data Driver : Type 0 where
  unimplemented : Driver
  mboot : Driver
  mboot2 : Driver

-- `api_struct`, `boot_magic`, memory by bytes, `mboot_ptr`, the `current_mmap_entry` of each
-- driver, and `kinit_errno`.
pub record Multiboot : Type 0 where
  pub driver : Driver
  pub boot_magic : ℕ
  pub mem : Store
  pub mboot_ptr : ℕ
  pub mboot_entry : ℕ
  pub mboot2_entry : ℕ
  pub errno : ℕ

-- What each driver sees of the state, and the state with what it has changed there. The first
-- driver reads memory by words and writes none.
abbrev pub to_mboot : Multiboot → Mboot
to_mboot s = record {
  mem = word s.mem;
  mboot_ptr = s.mboot_ptr;
  current_mmap_entry = s.mboot_entry;
  errno = s.errno;
}

abbrev pub of_mboot : Multiboot → Mboot → Multiboot
of_mboot s d = record s { mboot_entry = d.current_mmap_entry; errno = d.errno }

abbrev pub to_mboot2 : Multiboot → Mboot2
to_mboot2 s = record {
  mem = s.mem;
  mboot_ptr = s.mboot_ptr;
  current_mmap_entry = s.mboot2_entry;
  errno = s.errno;
}

abbrev pub of_mboot2 : Multiboot → Mboot2 → Multiboot
of_mboot2 s d = record s {
  mem = d.mem;
  mboot_ptr = d.mboot_ptr;
  mboot2_entry = d.current_mmap_entry;
  errno = d.errno;
}

unfoldable pub init_api_struct : Multiboot → Multiboot
init_api_struct s = record s { driver = unimplemented }

-- `true` for 0, `false` for -1.
unfoldable pub multiboot_init : ℕ → ℕ → ℕ → Multiboot → Option (Bool × Multiboot)
multiboot_init fuel multiboot_ptr header_magic s =
    let s' = init_api_struct (record s { boot_magic = header_magic; mboot_ptr = multiboot_ptr }) in
    if bit_and multiboot_ptr 7 == 0
    then (if header_magic == multiboot_magic
        then (let (status, d) = init_multiboot (to_mboot s') in
            some (status, of_mboot (record s' { driver = mboot }) d))
        else if header_magic == multiboot2_magic
        then elim (init_multiboot2 fuel (to_mboot2 s')) [
          | none ↦ none
          | some (status, d) ↦ some (status, of_mboot2 (record s' { driver = mboot2 }) d)
        ]
        else some (false, record s' { errno = error_unsupported }))
    else some (false, record s { errno = error_misaligned_header })

-- `memsize`, which stays 0 when the driver answers with -1 or does nothing.
abbrev pub or_zero : Option ℕ → ℕ
or_zero none = 0
or_zero (some memsize) = memsize

unfoldable pub multiboot_get_memsz : ℕ → Driver → Multiboot → Option (ℕ × Multiboot)
multiboot_get_memsz fuel unimplemented s = some (0, s)
multiboot_get_memsz fuel mboot s =
    let (answer, d) = mboot_get_memory_size (to_mboot s) in some (or_zero answer, of_mboot s d)
multiboot_get_memsz fuel mboot2 s = elim (mboot2_get_memory_size fuel (to_mboot2 s)) [
  | none ↦ none
  | some (answer, d) ↦ some (or_zero answer, of_mboot2 s d)
]

-- The buffer afterwards, which holds `buf` before; the inner `none` is -1.
unfoldable pub multiboot_get_mmap_next :
    ℕ → MmapData → Driver → Multiboot → Option (Option MmapData × Multiboot)
multiboot_get_mmap_next fuel buf unimplemented s = some (some buf, s)
multiboot_get_mmap_next fuel buf mboot s =
    let (entry, d) = mboot_get_next_mmap_entry (to_mboot s) in some (entry, of_mboot s d)
multiboot_get_mmap_next fuel buf mboot2 s = elim (mboot2_get_next_mmap fuel (to_mboot2 s)) [
  | none ↦ none
  | some (entry, d) ↦ some (entry, of_mboot2 s d)
]

unfoldable pub multiboot_relocate : ℕ → Driver → Multiboot → Multiboot
multiboot_relocate kernel_end_ptr unimplemented s = s
multiboot_relocate kernel_end_ptr mboot s = s
multiboot_relocate kernel_end_ptr mboot2 s =
    of_mboot2 s (mboot2_relocate_tags kernel_end_ptr (to_mboot2 s))

-- A call from a state that has been reached; `none` is the state when a call has not returned.
abbrev pub call {ℓ} :
    {A : Type ℓ}
    → A
    → (Multiboot → Option (A × Multiboot))
    → Option Multiboot
    → A × Option Multiboot
call default f none = (default, none)
call default f (some s) = elim (f s) [ none ↦ (default, none) | some (a, s') ↦ (a, some s') ]

abbrev pub relocated : ℕ → Option Multiboot → Option Multiboot
relocated kernel_end_ptr none = none
relocated kernel_end_ptr (some s) = some (multiboot_relocate kernel_end_ptr s.driver s)

abbrev pub errno_of : Option Multiboot → ℕ
errno_of none = 0
errno_of (some s) = s.errno

-- What the early allocator calls, with `buf` in its buffer.
abbrev pub multiboot_api : ℕ → MmapData → BootApi (Option Multiboot)
multiboot_api fuel buf = record {
  get_memsz = call 0 (λ s. multiboot_get_memsz fuel s.driver s);
  relocate = λ s kernel_end_ptr. relocated kernel_end_ptr s;
  get_mmap_next = call none (λ s. multiboot_get_mmap_next fuel buf s.driver s);
  kinit_errno = errno_of;
}
