-- ===== src/Kmemlow/Tests.antt =====
-- kmemlow.c at 4 MB of memory whose map has two available regions and a reserved one.
use missy_kernel.Base.{
  ◌≤◌, Bool, ◌^◌, ℕ, ◌+◌, ◌/◌, true, false, ◌≢◌, ap, ◌≡◌, refl, arith, Option, none, some, List, [],
  ◌∷◌,
}
use missy_kernel.Bitmap.{mark, clear, find_zero, scan}
use missy_kernel.BootInfo.{MmapData, BootApi, Yields, done, more}
use missy_kernel.Kmemlow.{
  Kmemlow, allocate, deallocate, first_free, kmemlow_alloc, reserve_loop, reserve_region, free_loop,
  free_region, fill, block_count, unit_count, kernel_end, free_available, all_used,
  kmemlow_init_allocator,
}
use missy_kernel.Kmemlow.Alloc.{IsValid, Outcome, kmemlow_alloc_lem}
use missy_kernel.Kmemlow.Regions.{available, freed, Paged, paged_nil, paged_cons}
use missy_kernel.Kmemlow.Init.{
  Initialised, reserved, kmemlow_alloc-Initialised, kmemlow_init_allocator_lem,
}

-- A driver whose state is the rest of the map.
abbrev list_api : BootApi (List MmapData)
list_api = record {
  get_memsz = λ s. (4096, s);
  relocate = λ s _. s;
  get_mmap_next = elim [ [] ↦ (none, []) | e ∷ es ↦ (some e, es) ];
  kinit_errno = λ _. 0;
}

abbrev entries : List MmapData
entries =
    record { base = 0; length = 0x9fc00; type = 1 }
    ∷ record { base = 0xf0000; length = 0x10000; type = 2 }
    ∷ record { base = 0x100000; length = 0x300000; type = 1 }
    ∷ []

abbrev k0 : Kmemlow
k0 = record {
  mbitmap_physical = 0;
  map = λ _. 0;
  total_blocks = 0;
  used_blocks = 0;
  bitmap_size = 0;
  kernel_end_physical = 0;
  errno = 0;
}

entries-Yields : Yields list_api [] entries entries
entries-Yields = more refl (more refl (more refl (done refl)))

entries-Paged : Paged entries
entries-Paged =
    paged_cons (λ e. record { boundary = refl; low = omega arith; short = omega arith })
      (paged_cons (λ e. omega (arith, e))
        (paged_cons (λ e. record { boundary = refl; low = omega arith; short = omega arith })
          paged_nil))

end_above : 0x10_0000 ≤ kernel_end 0x11_0000 (unit_count (block_count 4096))
unfolding kernel_end unit_count block_count
end_above = omega arith

-- An available entry at 4 GiB, of 16 blocks.
high_entry : Bool × Bool
high_entry = (
  freed (record { base = 2 ^ 32; length = 0x10000; type = 1 } ∷ []) 3,
  available (record { base = 2 ^ 32; length = 0x10000; type = 1 } ∷ []) 3,
)

-- The code frees a block below 4 GiB for it, which it does not contain.
high_entry_lem : high_entry ≡ (true, false)
unfolding high_entry
high_entry_lem = refl

k0-IsValid : IsValid k0
k0-IsValid = record { words = λ i. omega arith; small = omega arith }

-- The symbol `_mbitmap` at 0xc0110000: the first block above the kernel is handed out first.
first_block : ℕ
unfolding kmemlow_init_allocator all_used free_available free_region free_loop reserve_region
    reserve_loop allocate deallocate fill block_count unit_count kernel_end mark clear kmemlow_alloc
    first_free scan find_zero
first_block = elim (kmemlow_init_allocator list_api 9 0xc011_0000 entries k0) [
  | none ↦ 0
  | some (k, _) ↦ (kmemlow_alloc k).0
]

first_block_lem : first_block ≡ 0x111000
unfolding first_block
first_block_lem = refl

-- 97 blocks of the first megabyte were never counted out, and are counted in again.
used_blocks_after : ℕ
unfolding kmemlow_init_allocator all_used free_available free_region free_loop reserve_region
    reserve_loop allocate deallocate block_count unit_count kernel_end
used_blocks_after = elim (kmemlow_init_allocator list_api 9 0xc011_0000 entries k0) [
  | none ↦ 0
  | some (k, _) ↦ k.used_blocks
]

used_blocks_after_lem : used_blocks_after ≡ 97 + 0x111
unfolding used_blocks_after
used_blocks_after_lem = refl

kmemlow_init_allocator_example :
    (k' : Kmemlow) × (kmemlow_init_allocator list_api 9 0xc011_0000 entries k0 ≡ some (k', []))
    × Initialised 4096 0x11_0000 entries k0 k'
kmemlow_init_allocator_example =
    kmemlow_init_allocator_lem list_api 0xc011_0000 entries k0 9 entries yields (omega arith)
      entries-Paged end_above
  where
    yields : Yields list_api [] (all_used list_api 0xc011_0000 entries k0).1 entries
    yields = unfold all_used in entries-Yields

kmemlow_alloc_example : Outcome k0 (kmemlow_alloc k0).0 (kmemlow_alloc k0).1
kmemlow_alloc_example = kmemlow_alloc_lem k0 k0-IsValid

-- The state that the initialisation leaves.
abbrev finished :
    (k' : Kmemlow) × (kmemlow_init_allocator list_api 9 0xc011_0000 entries k0 ≡ some (k', []))
    × Initialised 4096 0x11_0000 entries k0 k'
finished =
    kmemlow_init_allocator_lem list_api 0xc011_0000 entries k0 9 entries
      (unfold all_used in entries-Yields) (omega arith) entries-Paged end_above

finished-IsValid : IsValid finished.0
unfolding block_count
finished-IsValid = record {
  words = finished.2.words (λ i. omega arith);
  small = omega (arith, finished.2.total);
}

finished-ne : (kmemlow_alloc finished.0).0 ≢ 0
unfolding first_block
finished-ne e = omega (arith, first_block_lem, ap alloc_of finished.1, e)
  where
    alloc_of : Option (Kmemlow × List MmapData) → ℕ
    alloc_of = elim [ none ↦ 0 | some (k, _) ↦ (kmemlow_alloc k).0 ]

kmemlow_alloc-Initialised_example :
    (available entries ((kmemlow_alloc finished.0).0 / 4096) ≡ true)
    × (reserved finished.0.kernel_end_physical ((kmemlow_alloc finished.0).0 / 4096) ≡ false)
kmemlow_alloc-Initialised_example =
    kmemlow_alloc-Initialised finished.2 finished-IsValid finished-ne
