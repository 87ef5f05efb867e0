-- ===== src/Mboot2/Tests.antt =====
-- mboot2.c on a structure of 72 bytes: the size of memory, a map with one entry, the end tag.
use missy_kernel.Base.{
  ℕ, ◌-◌, ◌+◌, ◌<◌, ◌≤◌, ◌≡◌, ◌⊎◌, inr, refl, arith, Store, get_or, List, [], ◌∷◌, none, some,
}
use missy_kernel.BootInfo.{MmapData}
use missy_kernel.Mboot2.{
  Mboot2, find_tag_loop, mboot2_find_tag, mboot2_next_mmap, mboot2_get_next_mmap,
  mboot2_get_structure_length, mboot2_relocate_tags,
}
use missy_kernel.Strings.{ki_memcpy, ki_memcpy_loop}
use missy_kernel.Mboot2.Tags.{
  Tag, memsz, mmap, no_entry, an_entry, holds_memsz, holds_mmap, end_tag, a_tag,
}
use missy_kernel.Mboot2.Find.{IsBoot, mboot2_find_tag_lem}
use missy_kernel.Mboot2.Driver.{mboot2_relocate_tags_lem}

-- The four bytes of a number below 256.
abbrev small : ℕ → List ℕ → List ℕ
small n rest = n ∷ 0 ∷ 0 ∷ 0 ∷ rest

abbrev bytes : List ℕ
bytes = small 72 (
    small 0 (
      small 4 (
        small 16 (
          small 100 (
            small 28 (
              small 6 (
                small 40 (
                  small 24 (
                    small 0 (
                      0
                      ∷ 0
                      ∷ 16
                      ∷ 0
                      ∷ (small 0 (
                          0
                          ∷ 128
                          ∷ 0
                          ∷ 0
                          ∷ (small 0 (small 1 (small 0 (small 0 (small 8 [])))))))))))))))))

abbrev pub boot_memory : Store
boot_memory a = get_or bytes (a - 0x1000) 0

abbrev s0 : Mboot2
s0 = record { mem = boot_memory; mboot_ptr = 0x1000; current_mmap_entry = 0; errno = 0 }

abbrev pub entry : MmapData
entry = record { base = 0x10_0000; length = 0x8000; type = 1 }

abbrev pub boot_tags : List Tag
boot_tags = memsz 100 28 ∷ mmap (entry ∷ []) ∷ []

pub boot_memory-IsBoot : IsBoot boot_memory 0x1000 72 boot_tags
boot_memory-IsBoot = record {
  present = λ e. omega arith;
  total_size = refl;
  in_memory = omega arith;
  tags =
      a_tag refl (λ e. omega arith) refl (omega arith) (omega arith) (holds_memsz refl refl)
        (a_tag refl (λ e. omega arith) refl (omega arith) (omega arith)
          (holds_mmap refl (an_entry refl no_entry)) (end_tag refl (omega arith)));
}

mboot2_find_tag_example : mboot2_find_tag 3 6 s0 ≡ some (some 0x1018, s0)
mboot2_find_tag_example = mboot2_find_tag_lem 3 6 72 boot_tags s0 boot_memory-IsBoot (omega arith)

mboot2_relocate_tags_example :
    let s' = mboot2_relocate_tags 0x1000 s0 in
    (s'.mboot_ptr ≡ 0x1048)
    × IsBoot s'.mem s'.mboot_ptr 72 boot_tags
    × ((i : ℕ) → i < 72 → s'.mem (0x1048 + i) ≡ boot_memory (0x1000 + i))
    × ((a : ℕ) → (a < 0x1048) ⊎ (0x1090 ≤ a) → s'.mem a ≡ boot_memory a)
    × (s'.current_mmap_entry ≡ 0)
    × (s'.errno ≡ 0)
mboot2_relocate_tags_example =
    mboot2_relocate_tags_lem 0x1000 72 boot_tags s0 boot_memory-IsBoot (omega arith)
      (inr (omega arith))

-- A place that begins inside the structure is written while the structure is still read: with the
-- end of the kernel 40 bytes below the structure, the map is empty once it has moved.
overlap :
    mboot2_get_next_mmap 9 (mboot2_relocate_tags 0xfd8 s0)
    ≡ some (none, mboot2_relocate_tags 0xfd8 s0)
unfolding mboot2_get_next_mmap mboot2_next_mmap find_tag_loop mboot2_find_tag mboot2_relocate_tags
    mboot2_get_structure_length ki_memcpy ki_memcpy_loop
overlap = refl
