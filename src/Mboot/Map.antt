-- ===== src/Mboot/Map.antt =====
-- The memory map that the driver yields, and the allocator on top of it.
use missy_kernel.Base.{
  ℕ, zero, suc, ◌+◌, ◌*◌, ◌/◌, ◌^◌, ◌≤◌, ◌<◌, ◌≡◌, refl, sym, ap, arith, u32, sub32, true, Option,
  none, some, List, [], ◌∷◌, length, lt→ltb, le→ltb_false,
}
use missy_kernel.BootInfo.{MmapData, Yields, done, more}
use missy_kernel.Kmemlow.{
  Kmemlow, block_count, unit_count, kernel_end, all_used, kmemlow_init_allocator,
}
use missy_kernel.Kmemlow.Init.{Initialised, kmemlow_init_allocator_lem}
use missy_kernel.Kmemlow.Regions.{Paged}
use missy_kernel.Mboot.{
  Mboot, memsz_present, mmap_present, entry_size, flags, memory_sz_lo, memory_sz_hi, mmap_length,
  mmap_addr, bootflag_check, entry_at, mboot_get_memory_size, multiboot_next_mmap,
  mboot_get_next_mmap_entry, multiboot_get_memsz, multiboot_get_mmap_next, multiboot_relocate,
  mboot_api,
}

-- The `n` entries from the position `i` of the driver on.
abbrev pub entries_from : Mboot → ℕ → ℕ → List MmapData
entries_from s i zero = []
entries_from s i (suc n) =
    entry_at s.mem (u32 (mmap_addr s + s.mem (mmap_addr s) + 4 + i * entry_size))
    ∷ entries_from s (i + 1) n

length-entries_from : (s : Mboot) (i n : ℕ) → length (entries_from s i n) ≡ n
length-entries_from s i zero = refl
length-entries_from s i (suc n) = ap (λ (k : ℕ). suc k) (length-entries_from s (i + 1) n)

next-stop :
    (s : Mboot)
    → bootflag_check (flags s) mmap_present ≡ true
    → mmap_length s / entry_size ≤ s.current_mmap_entry
    → multiboot_get_mmap_next s ≡ (none, s)
unfolding multiboot_get_mmap_next mboot_get_next_mmap_entry multiboot_next_mmap
next-stop s p h =
    let e : multiboot_next_mmap s ≡ (none, s) =
      rw (le→ltb_false s.current_mmap_entry (mmap_length s / entry_size) h) refl in
    rw (p, e, ap (λ (q : Option ℕ × Mboot). q.1) e) refl

next-go :
    (s : Mboot)
    → bootflag_check (flags s) mmap_present ≡ true
    → s.current_mmap_entry < mmap_length s / entry_size
    → mmap_length s < 2 ^ 32
    → multiboot_get_mmap_next s ≡ (
      some (
          entry_at s.mem
            (u32 (mmap_addr s + s.mem (mmap_addr s) + 4 + s.current_mmap_entry * entry_size))),
      record s { current_mmap_entry = s.current_mmap_entry + 1 },
    )
unfolding multiboot_get_mmap_next mboot_get_next_mmap_entry multiboot_next_mmap
next-go s p h k =
    let next : u32 (s.current_mmap_entry + 1) ≡ s.current_mmap_entry + 1 = omega arith in
    let a = u32 (mmap_addr s + s.mem (mmap_addr s) + 4 + s.current_mmap_entry * entry_size) in
    let e : multiboot_next_mmap s
        ≡ (some a, record s { current_mmap_entry = s.current_mmap_entry + 1 }) =
      rw (lt→ltb s.current_mmap_entry (mmap_length s / entry_size) h, next) refl in
    rw (p, e, ap (λ (q : Option ℕ × Mboot). q.1) e) refl

entries-Yields :
    (s : Mboot) (i n : ℕ)
    → bootflag_check (flags s) mmap_present ≡ true
    → i + n ≡ mmap_length s / entry_size
    → mmap_length s < 2 ^ 32
    → Yields mboot_api
        (record s { current_mmap_entry = i + n })
        (record s { current_mmap_entry = i })
        (entries_from s i n)
entries-Yields s i zero p e h =
    let at : i + 0 ≡ i = omega arith in
    rw at (done (next-stop (record s { current_mmap_entry = i }) p (omega arith)))
entries-Yields s i (suc n) p e h =
    let at : i + 1 + n ≡ i + suc n = omega arith in
    more (next-go (record s { current_mmap_entry = i }) p (omega arith) h)
      (rw at at (entries-Yields s (i + 1) n p (omega arith) h))

-- A driver at the start of a map of less than 2^32 bytes, whose header has the map's flag, yields
-- one entry for each 24 bytes of the map, the first of them behind the map's first entry, and then
-- ends.
pub mboot_api-Yields :
    (s : Mboot)
    → s.current_mmap_entry ≡ 0
    → bootflag_check (flags s) mmap_present ≡ true
    → mmap_length s < 2 ^ 32
    → Yields mboot_api
        (record s { current_mmap_entry = mmap_length s / entry_size })
        s
        (entries_from s 0 (mmap_length s / entry_size))
mboot_api-Yields s z p h =
    let first : record s { current_mmap_entry = 0 } ≡ s =
      ap (λ (c : ℕ). record s { current_mmap_entry = c }) (sym z) in
    let at : 0 + mmap_length s / entry_size ≡ mmap_length s / entry_size = omega arith in
    rw (first, at) at (entries-Yields s 0 (mmap_length s / entry_size) p (omega arith) h)

-- With the driver for the first multiboot standard at the start of a map of less than 2^32 bytes,
-- a header that has both flags, and more fuel than the map has entries, where every available
-- entry that the driver yields starts at a page boundary, and starts and is long below 4 GiB, and
-- the end of the kernel that follows from the size of memory lies behind the first megabyte:
-- `kmemlow_init_allocator` returns, and the finished map is right for the sum of the header's two
-- memory sizes and the entries that the driver yields, which are not those of the map but one for
-- each 24 bytes from behind its first entry on: of its blocks those are free that an available one
-- of them contains, but for the first megabyte and the kernel.
pub kmemlow_init_allocator-mboot_api :
    (s : Mboot) (fuel mbitmap : ℕ) (k : Kmemlow)
    → s.current_mmap_entry ≡ 0
    → bootflag_check (flags s) memsz_present ≡ true
    → bootflag_check (flags s) mmap_present ≡ true
    → mmap_length s < 2 ^ 32
    → mmap_length s / entry_size < fuel
    → Paged (entries_from s 0 (mmap_length s / entry_size))
    → 0x10_0000
      ≤ kernel_end
          (sub32 mbitmap 0xc000_0000)
          (unit_count (block_count (u32 (memory_sz_lo s + memory_sz_hi s))))
    → let n = mmap_length s / entry_size in
      (k' : Kmemlow) × (kmemlow_init_allocator mboot_api fuel mbitmap s k
        ≡ some (k', record s { current_mmap_entry = n }))
      × Initialised
          (u32 (memory_sz_lo s + memory_sz_hi s))
          (sub32 mbitmap 0xc000_0000)
          (entries_from s 0 n)
          k
          k'
unfolding all_used multiboot_get_memsz mboot_get_memory_size multiboot_relocate
kmemlow_init_allocator-mboot_api s fuel mbitmap k z f p h l paged above =
    let n = mmap_length s / entry_size in
    let ms : mboot_get_memory_size s ≡ (some (u32 (memory_sz_lo s + memory_sz_hi s)), s) =
      rw f refl in
    let memsz : multiboot_get_memsz s ≡ (u32 (memory_sz_lo s + memory_sz_hi s), s) =
      rw (ms, ap (λ (q : Option ℕ × Mboot). q.1) ms, multiboot_get_memsz) refl in
    let start : (all_used mboot_api mbitmap s k).1 ≡ s = ap (λ (q : ℕ × Mboot). q.1) memsz in
    let y = mboot_api-Yields s z p h in
    let y' : Yields mboot_api (record s { current_mmap_entry = n })
        (all_used mboot_api mbitmap s k).1 (entries_from s 0 n) =
      rw start y in
    let (k', ran, fin) =
      kmemlow_init_allocator_lem mboot_api mbitmap s k fuel (entries_from s 0 n) y'
        (rw (length-entries_from s 0 n) l) paged (rw (ap (λ (q : ℕ × Mboot). q.0) memsz) above) in
    (k', ran, rw (ap (λ (q : ℕ × Mboot). q.0) memsz) at fin)
