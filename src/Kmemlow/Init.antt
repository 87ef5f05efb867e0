-- ===== src/Kmemlow/Init.antt =====
-- `kmemlow_init_allocator`: which blocks are free once the bitmap is built, and the counters.
use missy_kernel.Base.{
  ℕ, zero, suc, ◌+◌, ◌*◌, ◌/◌, ◌%◌, ◌^◌, ◌≤◌, ◌<◌, ◌≡◌, ◌≢◌, refl, ◌∙◌, sym, ◌-◌, ap, arith, Store,
  write, in_run, some, List, length, ltb, if◌then◌else◌, Bool, true, false, ◌||◌, u32, sub32,
}
use missy_kernel.Base.Bits.{bit-full}
use missy_kernel.Base.Masks.{bit_and_align}
use missy_kernel.Bitmap.{block_bit, full_unit}
use missy_kernel.Bitmap.Laws.{IsWords}
use missy_kernel.BootInfo.{MmapData, BootApi, Yields}
use missy_kernel.Kmemlow.{
  Kmemlow, reserve_region, reserve_loop, free_available, fill, block_count, unit_count, kernel_end,
  all_used, kmemlow_init_allocator, kmemlow_alloc,
}
use missy_kernel.Kmemlow.Alloc.{IsValid, Granted, Granted-of_ne}
use missy_kernel.Kmemlow.Regions.{
  Reserved, reserve_loop-Reserved, available, available_blocks, Available, free_available-Available,
  Paged, freed-available, freed_blocks-available_blocks,
}

fill-eq : (n i : ℕ) (m : Store) (x : ℕ) → fill n i m x ≡ (if in_run i n x then full_unit else m x)
unfolding fill
fill-eq zero i m x = ground arith
fill-eq (suc n) i m x = ground (arith, fill-eq n (i + 1) (write m i full_unit) x)

fill-IsWords : (n i : ℕ) (m : Store) → IsWords m → IsWords (fill n i m)
fill-IsWords n i m w x = ground (arith, fill-eq n i m x, w x)

block_bit-fill : (n : ℕ) (m : Store) (j : ℕ) → j < n * 32 → block_bit (fill n 0 m) j ≡ 1
block_bit-fill n m j h = ground (arith, fill-eq n 0 m (j / 32), bit-full (j % 32))

-- The boundary is a page boundary strictly above the bitmap, less than a page away from its end.
pub kernel_end_lem :
    (start size : ℕ)
    → start + size * 4 + 4096 < 2 ^ 32
    → (kernel_end start size % 4096 ≡ 0)
      × (start + size * 4 < kernel_end start size)
      × (kernel_end start size ≤ start + size * 4 + 4096)
unfolding kernel_end
kernel_end_lem start size h =
    omega (arith, bit_and_align 12 (u32 (start + size * 4)) (omega arith) (omega arith))

-- Each block has a bit: the words of the map are enough, and the last one is in use.
pub unit_count_lem :
    (total : ℕ) → (total ≤ unit_count total * 32) × (unit_count total * 32 < total + 32)
unfolding unit_count
unit_count_lem total = ground arith

-- The block begins in the first megabyte, or below the end of the kernel at `kend`.
abbrev pub reserved : ℕ → ℕ → Bool
reserved kend j = ltb (4096 * j) 0x10_0000 || ltb (4096 * j) kend

-- An end of the kernel is a page boundary of 32 bits.
kernel_end-boundary :
    (start size : ℕ) → (kernel_end start size % 4096 ≡ 0) × (kernel_end start size < 2 ^ 32)
unfolding kernel_end
kernel_end-boundary start size =
    omega (arith, bit_and_align 12 (u32 (start + size * 4)) (omega arith) (omega arith))

-- The blocks that the code reserves, for an end of the kernel behind the first megabyte.
reserved-in_run :
    (kend j : ℕ)
    → kend % 4096 ≡ 0
    → kend < 2 ^ 32
    → 0x10_0000 ≤ kend
    → (ltb j 256 || in_run 256 (sub32 kend 0x10_0000 / 4096) j) ≡ reserved kend j
reserved-in_run kend j z low above =
    let length : sub32 kend 0x10_0000 ≡ kend - 0x10_0000 = omega arith in rw length (ground arith)

-- The finished map, for a memory of `memsz` kilobytes with the entries `es`.
pub record Initialised (memsz start : ℕ) (es : List MmapData) (k k' : Kmemlow) : Type 0 where
  pub total : k'.total_blocks ≡ block_count memsz
  pub size : k'.bitmap_size ≡ unit_count (block_count memsz)
  pub end_at : k'.kernel_end_physical ≡ kernel_end start k'.bitmap_size
  pub bits :
      (j : ℕ)
      → j < k'.bitmap_size * 32
      → block_bit k'.map j
        ≡ (if reserved k'.kernel_end_physical j then 1 else if available es j then 0 else 1)
  pub words : IsWords k.map → IsWords k'.map
  pub used :
      u32 (k'.used_blocks + available_blocks es)
      ≡ u32 (k'.total_blocks + 256 + sub32 k'.kernel_end_physical 0x10_0000 / 4096)

-- The state before the memory map is read.
record AllUsed (memsz start : ℕ) (k k₁ : Kmemlow) : Type 0 where
  total : k₁.total_blocks ≡ block_count memsz
  size : k₁.bitmap_size ≡ unit_count (block_count memsz)
  end_at : k₁.kernel_end_physical ≡ kernel_end start k₁.bitmap_size
  bits : (j : ℕ) → j < k₁.bitmap_size * 32 → block_bit k₁.map j ≡ 1
  words : IsWords k.map → IsWords k₁.map
  used : k₁.used_blocks ≡ k₁.total_blocks

finish :
    {memsz start : ℕ} {es : List MmapData} {k k₁ k₂ k₃ k₄ : Kmemlow}
    → Paged es
    → 0x10_0000 ≤ kernel_end start (unit_count (block_count memsz))
    → AllUsed memsz start k k₁
    → Available es k₁ k₂
    → Reserved 0 256 k₂ k₃
    → Reserved 256 (sub32 k₂.kernel_end_physical 0x10_0000 / 4096) k₃ k₄
    → (errno : ℕ) → Initialised memsz start es k (record k₄ { errno = errno })
finish {memsz} {start} {es} {k₂} {k₄} paged above all av low high errno = record {
  total = high.shape.same_total ∙ low.shape.same_total ∙ av.shape.same_total ∙ all.total;
  size = high.shape.same_size ∙ low.shape.same_size ∙ av.shape.same_size ∙ all.size;
  end_at = ground (arith, all.end_at, ends, high.shape, low.shape, av.shape);
  bits = λ j h. rw (sym (blocks j)) (
      ground (
        arith,
        ends,
        high.bits j,
        low.bits j,
        av.bits j,
        freed-available es j paged,
        all.bits j (omega (arith, high.shape, low.shape, av.shape)),
      ));
  words = λ w. high.words (low.words (av.words (all.words w)));
  used = omega (
    arith,
    freed_blocks-available_blocks es paged,
    ends,
    all.used,
    av.used,
    low.used,
    high.used,
    high.shape,
    low.shape,
    av.shape,
  );
}
  where
    ends : k₄.kernel_end_physical ≡ k₂.kernel_end_physical
    ends = high.shape.same_end ∙ low.shape.same_end

    blocks :
        (j : ℕ)
        → (ltb j 256 || in_run 256 (sub32 k₄.kernel_end_physical 0x10_0000 / 4096) j)
          ≡ reserved k₄.kernel_end_physical j
    blocks j =
        let end : k₄.kernel_end_physical ≡ kernel_end start (unit_count (block_count memsz)) =
          ends ∙ av.shape.same_end ∙ all.end_at ∙ ap (kernel_end start) all.size in
        let (z, small) = kernel_end-boundary start (unit_count (block_count memsz)) in
        rw end (reserved-in_run _ j z small above)

module _ {S : Type 0} (api : BootApi S) (mbitmap : ℕ) (s : S) (k : Kmemlow) where
  all_used-AllUsed :
      AllUsed (api.get_memsz s).0 (sub32 mbitmap 0xc000_0000) k (all_used api mbitmap s k).0
  unfolding all_used
  all_used-AllUsed = record {
    total = refl;
    size = refl;
    end_at = refl;
    bits = λ j h. block_bit-fill (unit_count (block_count (api.get_memsz s).0)) k.map j h;
    words = λ w. fill-IsWords (unit_count (block_count (api.get_memsz s).0)) 0 k.map w;
    used = refl;
  }

  reserve_all : S → Kmemlow → Kmemlow
  reserve_all end k₂ =
      record (reserve_region 0x10_0000 (sub32 k₂.kernel_end_physical 0x10_0000)
        (reserve_region 0 0x10_0000 k₂)) { errno = api.kinit_errno end }

  init-eq :
      (fuel : ℕ) {k₂ : Kmemlow} {end : S}
      → free_available api fuel (all_used api mbitmap s k).1 (all_used api mbitmap s k).0
        ≡ some (k₂, end)
      → kmemlow_init_allocator api fuel mbitmap s k ≡ some (reserve_all end k₂, end)
  unfolding kmemlow_init_allocator reserve_all
  init-eq fuel e = rw (e, kmemlow_init_allocator)

  -- With more fuel than the map has entries, and where every available entry starts at a page
  -- boundary, and starts and is long below 4 GiB, and the end of the kernel that follows from the
  -- size of memory lies behind the first megabyte, `kmemlow_init_allocator` returns. Of the blocks
  -- of the bitmap exactly those are free that an available entry contains, all bytes of the block
  -- included, and that lie neither in the first megabyte nor between it and the end of the kernel.
  pub kmemlow_init_allocator_lem :
      (fuel : ℕ) {end : S} (es : List MmapData)
      → Yields api end (all_used api mbitmap s k).1 es
      → length es < fuel
      → Paged es
      → 0x10_0000
        ≤ kernel_end (sub32 mbitmap 0xc000_0000) (unit_count (block_count (api.get_memsz s).0))
      → (k' : Kmemlow) × (kmemlow_init_allocator api fuel mbitmap s k ≡ some (k', end))
        × Initialised (api.get_memsz s).0 (sub32 mbitmap 0xc000_0000) es k k'
  unfolding reserve_all reserve_region
  kmemlow_init_allocator_lem fuel {end} es y h paged above =
      let (k₂, ran, av) = free_available-Available api fuel (all_used api mbitmap s k).0 y h in
      let kernel_blocks = sub32 k₂.kernel_end_physical 0x10_0000 / 4096 in
      let low = reserve_loop-Reserved 256 0 k₂ in
      let high = reserve_loop-Reserved kernel_blocks 256 (reserve_loop 256 0 k₂) in
      (
        reserve_all end k₂,
        init-eq fuel ran,
        finish paged above all_used-AllUsed av low high (api.kinit_errno end),
      )

Granted-Initialised :
    {memsz start : ℕ} {es : List MmapData} {k k' k'' : Kmemlow} {address : ℕ}
    → Initialised memsz start es k k'
    → Granted k' address k''
    → (available es (address / 4096) ≡ true)
      × (reserved k'.kernel_end_physical (address / 4096) ≡ false)
Granted-Initialised {k'} {address} i g =
    let at : address / 4096 ≡ g.block = omega (arith, g.address_of) in
    let inside : g.block < k'.bitmap_size * 32 =
      omega (
        arith,
        g.in_range,
        i.total,
        i.size,
        unit_count_lem k'.total_blocks,
        ap unit_count i.total,
      ) in
    ground (arith, at, i.bits g.block inside, g.was_free)

-- On a finished map that is right for the size of memory and the entries, as
-- `kmemlow_init_allocator` leaves it, with words of 32 bits and at most 2^20 blocks: any address
-- other than NULL that `kmemlow_alloc` returns is a block that an available entry contains, and
-- lies neither in the first megabyte nor between it and the end of the kernel.
pub kmemlow_alloc-Initialised :
    {memsz start : ℕ} {es : List MmapData} {k k' : Kmemlow}
    → Initialised memsz start es k k'
    → IsValid k'
    → (kmemlow_alloc k').0 ≢ 0
    → (available es ((kmemlow_alloc k').0 / 4096) ≡ true)
      × (reserved k'.kernel_end_physical ((kmemlow_alloc k').0 / 4096) ≡ false)
kmemlow_alloc-Initialised {k'} i v ne = Granted-Initialised i (Granted-of_ne k' v ne)
