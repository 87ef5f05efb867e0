-- ===== src/Balloc.antt =====
-- kernel/arch/i386/balloc.c: the kernel's allocator of physical 4 KiB blocks.
pub mod Alloc
pub mod Dealloc
pub mod Count
pub mod Reach
mod Tests
use missy_kernel.Base.{
  ℕ, ◌+◌, ◌*◌, ◌/◌, ◌^◌, none, some, Store, u32, sub32, ltb, ◌==◌, if◌then◌else◌,
}
use missy_kernel.Bitmap.{blocks_per_unit, block_bit, mark, clear, scan}

-- ENOMEM and EINVAL of libc/include/errno.h
abbrev pub enomem : ℕ
enomem = 2

-- BALLOC_PAGE_SIZE
abbrev pub page_size : ℕ
page_size = 4096

-- `_mbmp` (the words of the array that it points to), `_total_blocks`, `_used_blocks`, and the
-- kernel's `errno`, which the module writes.
pub record Balloc : Type 0 where
  pub mbmp : Store
  pub total_blocks : ℕ
  pub used_blocks : ℕ
  pub errno : ℕ

-- `block_is_allocated(x)`, the bit as 0 or 1.
abbrev pub block_is_allocated : Balloc → ℕ → ℕ
block_is_allocated b x = block_bit b.mbmp x

unfoldable pub first_free : Balloc → ℕ × Balloc
first_free b = elim (scan (b.total_blocks / blocks_per_unit) b.mbmp 0) [
  | some k ↦ (k, b)
  | none ↦ (0, record b { errno = enomem })
]

unfoldable pub allocate : Balloc → ℕ → Balloc
allocate b block = record b { mbmp = mark b.mbmp block; used_blocks = u32 (b.used_blocks + 1) }

unfoldable pub deallocate : Balloc → ℕ → Balloc
deallocate b block = record b { mbmp = clear b.mbmp block; used_blocks = sub32 b.used_blocks 1 }

unfoldable pub balloc_initialize : Balloc → Store → ℕ → ℕ → Balloc
balloc_initialize b mbmp total_blocks used_blocks = record b {
  mbmp = mbmp;
  total_blocks = total_blocks;
  used_blocks = used_blocks;
}

-- The block's address, or 0 for NULL.
unfoldable pub balloc_allocate_block : Balloc → ℕ × Balloc
balloc_allocate_block b =
    let (free_block, b') = first_free b in
    if free_block == 0 then (0, b') else (u32 (free_block * page_size), allocate b' free_block)

unfoldable pub balloc_deallocate_block : Balloc → ℕ → Balloc
balloc_deallocate_block b block =
    let allocated_block = block / page_size in
    if block_is_allocated b allocated_block == 1
    then (if ltb allocated_block b.total_blocks then deallocate b allocated_block else b)
    else b

unfoldable pub balloc_get_total_blocks : Balloc → ℕ
balloc_get_total_blocks b = b.total_blocks

unfoldable pub balloc_get_used_blocks : Balloc → ℕ
balloc_get_used_blocks b = b.used_blocks

unfoldable pub balloc_get_free_blocks : Balloc → ℕ
balloc_get_free_blocks b = sub32 b.total_blocks b.used_blocks
