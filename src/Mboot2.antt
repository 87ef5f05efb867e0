-- ===== src/Mboot2.antt =====
-- kernel/init/init/multiboot/mboot2.c, the driver for the second multiboot standard, on the bytes
-- of memory. The walk over the tags takes fuel, and a call is `none` when that runs out.
pub mod Tags
pub mod Find
pub mod Driver
pub mod Tests
use missy_kernel.Base.{
  ℕ, zero, suc, ◌+◌, ◌*◌, ◌/◌, ◌^◌, bit_and, u32, sub32, not32, ltb, ◌==◌, if◌then◌else◌, Bool,
  true, false, Option, none, some, Store, word, List, [], ◌∷◌,
}
use missy_kernel.BootInfo.{MmapData, BootApi}
pub use missy_kernel.Mboot.{error_invalid_memsize, error_invalid_memory_map, error_entry_not_found}
use missy_kernel.Strings.{ki_memcpy}

-- The tag types, and an error number of multiboot.h.
abbrev pub typetag_end : ℕ
typetag_end = 0x00

abbrev pub typetag_memsz : ℕ
typetag_memsz = 0x04

abbrev pub typetag_mmap : ℕ
typetag_mmap = 0x06

abbrev pub error_invalid_bootstruct : ℕ
error_invalid_bootstruct = 0x0005

-- The sizes of `multiboot2_tag_mmap` and `multiboot2_entry_mmap`.
abbrev pub mmap_tag_size : ℕ
mmap_tag_size = 16

abbrev pub mmap_entry_size : ℕ
mmap_entry_size = 24

-- Memory by bytes, `mboot_ptr`, `current_mmap_entry` and `kinit_errno`.
pub record Mboot2 : Type 0 where
  pub mem : Store
  pub mboot_ptr : ℕ
  pub current_mmap_entry : ℕ
  pub errno : ℕ

-- `(uint8_t *) tag + ((tag->size + 7) & ~7)`
abbrev pub next_tag : Store → ℕ → ℕ
next_tag m tag = u32 (tag + bit_and (u32 (word m (tag + 4) + 7)) (not32 7))

-- The loop over the tags from `tag` on: the tag of that type, or `none` at the end tag. The outer
-- `none` is for the fuel.
unfoldable pub find_tag_loop : ℕ → Store → ℕ → ℕ → Option (Option ℕ)
find_tag_loop zero m tag_type tag = none
find_tag_loop (suc fuel) m tag_type tag =
    let rest = find_tag_loop fuel m tag_type (next_tag m tag) in
    if word m tag == typetag_end
    then some none
    else if word m tag == tag_type
    then some (some tag)
    else rest

-- The inner `none` is NULL.
unfoldable pub mboot2_find_tag : ℕ → ℕ → Mboot2 → Option (Option ℕ × Mboot2)
mboot2_find_tag fuel tag_type s =
    if s.mboot_ptr == 0
    then some (none, record s { errno = error_invalid_bootstruct })
    else elim (find_tag_loop fuel s.mem tag_type (u32 (s.mboot_ptr + 8))) [
      | none ↦ none
      | some none ↦ some (none, record s { errno = error_entry_not_found })
      | some (some tag) ↦ some (some tag, s)
    ]

-- The inner `none` is -1.
unfoldable pub mboot2_get_memory_size : ℕ → Mboot2 → Option (Option ℕ × Mboot2)
mboot2_get_memory_size fuel s = elim (mboot2_find_tag fuel typetag_memsz s) [
  | none ↦ none
  | some (none, s') ↦ some (none, record s' { errno = error_entry_not_found })
  | some (some tag, s') ↦ some (some (u32 (word s'.mem (tag + 8) + word s'.mem (tag + 12))), s')
]

-- The address of the entry; the inner `none` is NULL.
unfoldable pub mboot2_next_mmap : ℕ → Mboot2 → Option (Option ℕ × Mboot2)
mboot2_next_mmap fuel s = elim (mboot2_find_tag fuel typetag_mmap s) [
  | none ↦ none
  | some (none, s') ↦ some (none, record s' { errno = error_entry_not_found })
  | some (some tag, s') ↦
      let mmap_entries = sub32 (word s'.mem (tag + 4)) mmap_tag_size / word s'.mem (tag + 8) in
      some (
        if ltb s'.current_mmap_entry mmap_entries
        then (
          some (u32 (u32 (tag + mmap_tag_size) + mmap_entry_size * s'.current_mmap_entry)),
          record s' { current_mmap_entry = u32 (s'.current_mmap_entry + 1) },
        )
        else (none, s'))
]

-- `base_addr`, `length` and `type` of the entry at an address.
abbrev pub entry_at : Store → ℕ → MmapData
entry_at m a = record {
  base = word m a + word m (a + 4) * 2 ^ 32;
  length = word m (a + 8) + word m (a + 12) * 2 ^ 32;
  type = word m (a + 16);
}

-- What is copied to the buffer; the inner `none` is -1.
unfoldable pub mboot2_get_next_mmap : ℕ → Mboot2 → Option (Option MmapData × Mboot2)
mboot2_get_next_mmap fuel s = elim (mboot2_next_mmap fuel s) [
  | none ↦ none
  | some (none, s') ↦ some (none, s')
  | some (some next, s') ↦ some (some (entry_at s'.mem next), s')
]

unfoldable pub mboot2_get_structure_length : Mboot2 → ℕ × Mboot2
mboot2_get_structure_length s =
    if s.mboot_ptr == 0
    then (0, record s { errno = error_invalid_bootstruct })
    else (word s.mem s.mboot_ptr, s)

unfoldable pub mboot2_relocate_tags : ℕ → Mboot2 → Mboot2
mboot2_relocate_tags kernel_end s =
    let (mboot_struct_size, s') = mboot2_get_structure_length s in
    let kernel_end' = u32 (kernel_end + mboot_struct_size) in
    record s' {
      mem = ki_memcpy s'.mem kernel_end' s'.mboot_ptr mboot_struct_size;
      mboot_ptr = kernel_end';
    }

-- `multiboot2_required`: the tags, and the error that the lack of each is.
abbrev pub multiboot2_required : List (ℕ × ℕ)
multiboot2_required =
    (typetag_memsz, error_invalid_memsize) ∷ (typetag_mmap, error_invalid_memory_map) ∷ []

-- The loop over the required tags that are left; `true` for 0, `false` for -1.
unfoldable pub check_tags : ℕ → List (ℕ × ℕ) → Mboot2 → Option (Bool × Mboot2)
check_tags fuel [] s = some (true, s)
check_tags fuel ((tag, errno) ∷ required) s = elim (mboot2_find_tag fuel tag s) [
  | none ↦ none
  | some (none, s') ↦
      some (false, if s'.errno == error_invalid_bootstruct then s' else record s' { errno = errno })
  | some (some _, s') ↦ check_tags fuel required s'
]

unfoldable pub check_multiboot2_tags : ℕ → Mboot2 → Option (Bool × Mboot2)
check_multiboot2_tags fuel s = check_tags fuel multiboot2_required s

unfoldable pub init_multiboot2 : ℕ → Mboot2 → Option (Bool × Mboot2)
init_multiboot2 fuel s = check_multiboot2_tags fuel s
