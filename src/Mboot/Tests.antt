-- ===== src/Mboot/Tests.antt =====
-- mboot.c on a header whose memory map has two entries of 24 bytes.
use missy_kernel.Base.{◌≡◌, ◌≤◌, refl, arith, Store, some, if◌then◌else◌, ◌==◌}
use missy_kernel.Kmemlow.{Kmemlow, kernel_end, unit_count, block_count, kmemlow_init_allocator}
use missy_kernel.Kmemlow.Init.{Initialised}
use missy_kernel.Kmemlow.Regions.{paged_nil, paged_cons}
use missy_kernel.Mboot.{Mboot, mboot_api}
use missy_kernel.Mboot.Map.{entries_from, kmemlow_init_allocator-mboot_api}

abbrev header : Store
header a =
    if a == 0x1000
    then 0x41
    else if a == 0x1004
    then 640
    else if a == 0x1008
    then 3072
    else if a == 0x102c
    then 48
    else if a == 0x1030
    then 0x2000
    else if a == 0x2000
    then 20
    else if a == 0x201c
    then 0x10_0000
    else if a == 0x2024
    then 0x8000
    else if a == 0x202c
    then 1
    else 0

abbrev s0 : Mboot
s0 = record { mem = header; mboot_ptr = 0x1000; current_mmap_entry = 0; errno = 0 }

abbrev k0 : Kmemlow
k0 = record {
  mbitmap_physical = 0;
  map = λ _. 0;
  total_blocks = 0;
  used_blocks = 0;
  bitmap_size = 0;
  kernel_end_physical = 0;
  errno = 0;
}

above : 0x10_0000 ≤ kernel_end 0x11_0000 (unit_count (block_count 3712))
unfolding kernel_end unit_count block_count
above = omega arith

kmemlow_init_allocator-mboot_api_example :
    (k' : Kmemlow) × (kmemlow_init_allocator mboot_api 3 0xc011_0000 s0 k0
      ≡ some (k', record s0 { current_mmap_entry = 2 }))
    × Initialised 3712 0x11_0000 (entries_from s0 0 2) k0 k'
kmemlow_init_allocator-mboot_api_example =
    kmemlow_init_allocator-mboot_api s0 3 0xc011_0000 k0 refl refl refl (omega arith) (omega arith)
      (paged_cons (λ e. record { boundary = refl; low = omega arith; short = omega arith })
        (paged_cons (λ e. omega (arith, e)) paged_nil))
      above
