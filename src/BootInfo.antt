-- ===== src/BootInfo.antt =====
-- What the early allocator asks of the boot information (kernel/init/init/multiboot/api.c).
use missy_kernel.Base.{ℕ, Option, none, some, List, [], ◌∷◌, ◌≡◌}

-- `mmap_data` of kernel/init/include/init/multiboot/multiboot.h
pub record MmapData : Type 0 where
  pub base : ℕ
  pub length : ℕ
  pub type : ℕ

-- `multiboot_get_memsz`, `multiboot_relocate` and `multiboot_get_mmap_next` over the state `S` of
-- the multiboot driver; `none` is the -1 at the end of the map. `kinit_errno` is the error code
-- that the driver has left.
pub record BootApi (S : Type 0) : Type 0 where
  pub get_memsz : S → ℕ × S
  pub relocate : S → ℕ → S
  pub get_mmap_next : S → Option MmapData × S
  pub kinit_errno : S → ℕ

-- From `s` the map yields the entries in order and then ends, in the state `end`.
pub data Yields {S : Type 0} (api : BootApi S) (end : S) : S → List MmapData → Type 0 where
  done : {s : S} → api.get_mmap_next s ≡ (none, end) → Yields api end s []
  more :
      {s s' : S} {e : MmapData} {es : List MmapData}
      → api.get_mmap_next s ≡ (some e, s')
      → Yields api end s' es
      → Yields api end s (e ∷ es)
