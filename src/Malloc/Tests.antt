-- ===== src/Malloc/Tests.antt =====
-- malloc.c on a list of `_base`, a block of 8 bytes and a block of 64.
use missy_kernel.Base.{ℕ, ◌≡◌, ◌<◌, ◌≤◌, ◌⊎◌, inr, refl, arith, Store, ◌==◌, if◌then◌else◌, some}
use missy_kernel.Balloc.{enomem, balloc_allocate_block, first_free, allocate}
use missy_kernel.Bitmap.{mark, find_zero, scan}
use missy_kernel.Paging.{pdir_entry, ptable_entry}
use missy_kernel.Pagemngr.{pagemngr_map_block, ensure_table, enter_page}
use missy_kernel.Brk.{
  Brk, sbrk, brk, extend, allocate_new_brk, allocate_loop, new_block_count, first_frame, roll_back,
  map_frame,
}
use missy_kernel.Brk.Tests.{s0}
use missy_kernel.Malloc.Grow.{Grown, malloc_short}
use missy_kernel.Malloc.{Heap, header_end, next_of, free, malloc}
use missy_kernel.Malloc.Place.{there, onwards}
use missy_kernel.Malloc.Free.{Inserted, free-malloc}
use missy_kernel.Malloc.Fit.{arrived, past, Taken, malloc_lem}

abbrev memory : Store
memory a =
    if a == 0x101
    then 2
    else if a == 0x201
    then 3
    else if a == 0x204
    then 8
    else if a == 0x301
    then 1
    else if a == 0x304
    then 64
    else 0

abbrev h0 : Heap
h0 = record { mem = memory; base = 0x100; next_free = 0x100; brk = s0 }

malloc_example :
    (a : ℕ) × (h' : Heap) × (malloc 2 16 h0 ≡ some (a, h')) × Taken 16 0x200 0x300 a h0 h'
malloc_example =
    malloc_lem 2 16 1 0x200 0x300 h0 (λ e. omega arith) (λ b. ground arith)
      (past (omega arith) (λ e. omega arith) arrived) (inr (omega arith)) (omega arith)
      (omega arith)

-- A block of 16 bytes at 0x268 that is to be freed.
abbrev h1 : Heap
h1 = record h0 { mem = λ a. if a == 0x264 then 24 else memory a }

free-malloc_example :
    (h₁ h₂ : Heap) × (free 2 0x268 h1 ≡ some h₁)
    × Inserted 0x260 0x200 h1 h₁
    × (malloc 1 16 h₁ ≡ some (0x268, h₂))
    × (next_of h₂.mem 0x200 ≡ 0x300)
    × ((b : ℕ) → (b < 0x200) ⊎ (0x204 ≤ b) → (b < 0x260) ⊎ (0x264 ≤ b) → h₂.mem b ≡ h1.mem b)
free-malloc_example =
    free-malloc 2 0 1 16 0x260 0x200 h1 (onwards (λ b. omega (arith, b)) (there (omega arith)))
      (omega arith)
      (record { apart = omega arith; above = λ e. omega arith; below = λ e. omega arith })
      (λ b. ground arith) (λ e. omega arith) refl (omega arith)

-- The size is in bytes, and the end of a block counts it in headers: 8 bytes from 0x200 on reach
-- to 0x240, so that a block at 0x208 is not joined to it.
header_end-units : header_end memory 0x200 ≡ 0x240
header_end-units = refl

-- A program break that can be moved by two pages once, as three blocks are left.
abbrev brk0 : Brk
brk0 = record s0 {
  pagemngr = record s0.pagemngr {
    balloc = record { mbmp = λ i. 0x1fff_ffff; total_blocks = 32; used_blocks = 29; errno = 0 };
  };
  break = 0xd000_0010;
}

abbrev h2 : Heap
h2 = record { mem = λ a. 0; base = 0x100; next_free = 0; brk = brk0 }

abbrev brk1 : Brk
brk1 = (sbrk 8192 brk0).1

abbrev brk2 : Brk
brk2 = (sbrk 8192 brk1).1

granted : sbrk 8192 brk0 ≡ (0xd000_0010, brk1)
unfolding sbrk brk extend allocate_new_brk allocate_loop new_block_count first_frame
    balloc_allocate_block first_free allocate mark find_zero scan map_frame pagemngr_map_block
    ensure_table enter_page pdir_entry ptable_entry
granted = refl

refused : sbrk 8192 brk1 ≡ (0xffff_ffff, brk2)
unfolding sbrk brk extend allocate_new_brk allocate_loop new_block_count first_frame roll_back
    balloc_allocate_block first_free allocate mark find_zero scan map_frame pagemngr_map_block
    ensure_table enter_page pdir_entry ptable_entry
refused = refl

malloc_short_example :
    (h' : Heap) × (malloc 2 8176 h2 ≡ some (0, h'))
    × Grown 0x100 0xd000_0010 8192 h'
    × (h'.brk.pagemngr.balloc.errno ≡ enomem)
malloc_short_example =
    malloc_short 2 8176 0xd000_0010 h2 brk1 brk2 refl (λ e. omega arith) (omega arith) (omega arith)
      (λ b. omega arith) granted refused (omega arith)
