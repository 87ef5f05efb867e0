-- ===== src/Kmemlow.antt =====
-- kernel/init/init/memory/kmemlow.c: the early allocator of physical 4 KiB blocks, and how it
-- builds the block bitmap from the boot loader's memory map.
pub mod Alloc
pub mod Regions
pub mod Init
mod Tests
use missy_kernel.Base.{
  ℕ, zero, suc, ◌+◌, ◌*◌, ◌/◌, ◌%◌, ◌^◌, bit_and, none, some, Option, Store, write, u32, sub32,
  not32, ltb, ◌==◌, if◌then◌else◌, ◌&&◌,
}
use missy_kernel.Bitmap.{blocks_per_unit, full_unit, mark, clear, scan}
use missy_kernel.BootInfo.{MmapData, BootApi}

-- KMEMLOW_ERROR_ENOMEM of kernel/init/include/init/memory/kmemlow.h
abbrev pub error_enomem : ℕ
error_enomem = 1

-- PAGE_SIZE and KILOBYTES
abbrev pub page_size : ℕ
page_size = 4096

abbrev pub kilobytes : ℕ
kilobytes = 1024

-- `_mbitmap_physical` (its address, and the words that stand there), `total_blocks`,
-- `used_blocks`, `bitmap_size`, `_kernel_end_physical`, and `kinit_errno`.
pub record Kmemlow : Type 0 where
  pub mbitmap_physical : ℕ
  pub map : Store
  pub total_blocks : ℕ
  pub used_blocks : ℕ
  pub bitmap_size : ℕ
  pub kernel_end_physical : ℕ
  pub errno : ℕ

unfoldable pub allocate : Kmemlow → ℕ → Kmemlow
allocate k block = record k { map = mark k.map block }

unfoldable pub deallocate : Kmemlow → ℕ → Kmemlow
deallocate k block = record k { map = clear k.map block }

unfoldable pub first_free : Kmemlow → ℕ × Kmemlow
first_free k = elim (scan (k.total_blocks / blocks_per_unit) k.map 0) [
  | some block ↦ (block, k)
  | none ↦ (0, record k { errno = error_enomem })
]

-- The block's address, or 0 for NULL.
unfoldable pub kmemlow_alloc : Kmemlow → ℕ × Kmemlow
kmemlow_alloc k =
    let (free_block, k') = first_free k in
    if (free_block == 0) && (k'.errno == error_enomem)
    then (0, k')
    else (u32 (free_block * page_size), allocate k' free_block)

unfoldable pub kmemlow_free : Kmemlow → ℕ → Kmemlow
kmemlow_free k block =
    let allocated_block = block / page_size in
    if ltb allocated_block k.total_blocks then deallocate k allocated_block else k

unfoldable pub kmemlow_get_kernel_endptr : Kmemlow → ℕ
kmemlow_get_kernel_endptr k = k.kernel_end_physical

unfoldable pub kmemlow_get_bitmap_ptr : Kmemlow → ℕ
kmemlow_get_bitmap_ptr k = k.mbitmap_physical

unfoldable pub kmemlow_get_bitmap_size : Kmemlow → ℕ
kmemlow_get_bitmap_size k = k.bitmap_size

unfoldable pub kmemlow_get_total_blocks : Kmemlow → ℕ
kmemlow_get_total_blocks k = k.total_blocks

unfoldable pub kmemlow_get_used_blocks : Kmemlow → ℕ
kmemlow_get_used_blocks k = k.used_blocks

-- The loop of `reserve_region`, with `blocks` rounds left.
unfoldable pub reserve_loop : ℕ → ℕ → Kmemlow → Kmemlow
reserve_loop zero align k = k
reserve_loop (suc blocks) align k =
    let k' = allocate k align in
    reserve_loop blocks (align + 1) (record k' { used_blocks = u32 (k'.used_blocks + 1) })

unfoldable pub reserve_region : ℕ → ℕ → Kmemlow → Kmemlow
reserve_region base length k = reserve_loop (length / page_size) (base / page_size) k

-- The loop of `free_region`, with `blocks` rounds left.
unfoldable pub free_loop : ℕ → ℕ → Kmemlow → Kmemlow
free_loop zero align k = k
free_loop (suc blocks) align k =
    let k' = deallocate k align in
    free_loop blocks (align + 1) (record k' { used_blocks = sub32 k'.used_blocks 1 })

unfoldable pub free_region : ℕ → ℕ → Kmemlow → Kmemlow
free_region base length k = free_loop (length / page_size) (base / page_size) k

-- `for (i = 0; i < bitmap_size; i++) _mbitmap_physical[i] = 0xffffffff`, with `n` rounds left.
unfoldable pub fill : ℕ → ℕ → Store → Store
fill zero i m = m
fill (suc n) i m = fill n (i + 1) (write m i full_unit)

-- The sizes that `kmemlow_init_allocator` computes from the memory size in kilobytes.
unfoldable pub block_count : ℕ → ℕ
block_count memsz = u32 (memsz * kilobytes) / page_size

unfoldable pub unit_count : ℕ → ℕ
unit_count total =
    let units = total / blocks_per_unit in
    if ltb 0 (total % blocks_per_unit) then units + 1 else units

-- `_kend_phys`: the first page boundary above the bitmap.
unfoldable pub kernel_end : ℕ → ℕ → ℕ
kernel_end start_address bitmap_size =
    u32 (bit_and (u32 (start_address + bitmap_size * 4)) (not32 0xfff) + page_size)

module _ {S : Type 0} (api : BootApi S) where
  open api use {get_memsz, relocate, get_mmap_next, kinit_errno}

  -- The loop over the memory map, on fuel; `none` means that the fuel ran out.
  unfoldable pub free_available : ℕ → S → Kmemlow → Option (Kmemlow × S)
  free_available zero s k = none
  free_available (suc fuel) s k =
      let (entry, s') = get_mmap_next s in
      elim entry [
        | none ↦ some (k, s')
        | some e ↦
            free_available fuel s'
              (if e.type == 1 then free_region (u32 e.base) (u32 e.length) k else k)
      ]

  -- `kmemlow_init_allocator`, where `mbitmap` is the address of the symbol `_mbitmap`. The state
  -- before the loop over the map, with every block in use:
  unfoldable pub all_used : ℕ → S → Kmemlow → Kmemlow × S
  all_used mbitmap s k =
      let start_address = sub32 mbitmap 0xc000_0000 in
      let (memsz, s') = get_memsz s in
      let total = block_count memsz in
      let bitmap_size = unit_count total in
      let kend_phys = kernel_end start_address bitmap_size in
      (
        record k {
          mbitmap_physical = start_address;
          map = fill bitmap_size 0 k.map;
          total_blocks = total;
          used_blocks = total;
          bitmap_size = bitmap_size;
          kernel_end_physical = kend_phys;
        },
        relocate s' kend_phys,
      )

  unfoldable pub kmemlow_init_allocator : ℕ → ℕ → S → Kmemlow → Option (Kmemlow × S)
  kmemlow_init_allocator fuel mbitmap s k =
      let (k', s') = all_used mbitmap s k in
      elim (free_available fuel s' k') [
        | none ↦ none
        | some (k'', s'') ↦
            let kernel_length = sub32 k''.kernel_end_physical 0x0010_0000 in
            let low = reserve_region 0x0 0x10_0000 k'' in
            some
              (record (reserve_region 0x10_0000 kernel_length low) { errno = kinit_errno s'' }, s'')
      ]
