-- ===== src/Multiboot/Tests.antt =====
-- api.c on the structure of 72 bytes that the driver's tests use.
use missy_kernel.Base.{◌≡◌, inr, refl, arith, true, some, [], ◌∷◌}
use missy_kernel.BootInfo.{MmapData}
use missy_kernel.Kmemlow.{Kmemlow, block_count, unit_count, kernel_end, kmemlow_init_allocator}
use missy_kernel.Kmemlow.Init.{Initialised}
use missy_kernel.Kmemlow.Regions.{Paged, paged_nil, paged_cons}
use missy_kernel.Mboot2.Tests.{boot_memory, boot_memory-IsBoot, boot_tags, entry}
use missy_kernel.Multiboot.{
  unimplemented, Multiboot, multiboot2_magic, multiboot_init, multiboot_api,
}
use missy_kernel.Multiboot.Boot.{multiboot_init-kmemlow_init_allocator}

abbrev pub s0 : Multiboot
s0 = record {
  driver = unimplemented;
  boot_magic = 0;
  mem = boot_memory;
  mboot_ptr = 0;
  mboot_entry = 0;
  mboot2_entry = 0;
  errno = 0;
}

abbrev pub k0 : Kmemlow
k0 = record {
  mbitmap_physical = 0;
  map = λ _. 0;
  total_blocks = 0;
  used_blocks = 0;
  bitmap_size = 0;
  kernel_end_physical = 0;
  errno = 0;
}

abbrev pub buf : MmapData
buf = record { base = 0; length = 0; type = 0 }

pub entry-Paged : Paged (entry ∷ [])
entry-Paged =
    paged_cons (λ e. record { boundary = refl; low = omega arith; short = omega arith }) paged_nil

multiboot_init-kmemlow_init_allocator_example :
    (s₁ s₂ : Multiboot) × (k' : Kmemlow) × (multiboot_init 3 0x1000 multiboot2_magic s0
      ≡ some (true, s₁))
    × (kmemlow_init_allocator (multiboot_api 3 buf) 2 0xc011_0000 (some s₁) k0 ≡ some (k', some s₂))
    × Initialised 128 0x11_0000 (entry ∷ []) k0 k'
unfolding kernel_end unit_count block_count
multiboot_init-kmemlow_init_allocator_example =
    multiboot_init-kmemlow_init_allocator 3 2 0x1000 72 128 0xc011_0000 buf boot_tags (entry ∷ [])
      s0 k0 refl boot_memory-IsBoot (omega arith) refl refl (omega arith) entry-Paged refl
      (omega arith) (omega arith) (inr (omega arith))
