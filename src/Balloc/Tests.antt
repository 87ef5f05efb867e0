-- ===== src/Balloc/Tests.antt =====
-- balloc.c at a map of 64 blocks of which block 0 is in use.
use missy_kernel.Base.{ℕ, ◌≡◌, ◌≢◌, ◌⊎◌, refl, arith, Store, ◌==◌, if◌then◌else◌}
use missy_kernel.Bitmap.{block_bit, mark, clear, find_zero, scan}
use missy_kernel.Balloc.{
  Balloc, first_free, allocate, deallocate, balloc_allocate_block, balloc_deallocate_block,
}
use missy_kernel.Balloc.Count.{IsValid, count}
use missy_kernel.Balloc.Alloc.{Granted, Refused, balloc_allocate_block_lem}
use missy_kernel.Balloc.Reach.{request, give_back, start, step, Steps-Granted}
use missy_kernel.Balloc.Dealloc.{balloc_deallocate_block-balloc_allocate_block}

abbrev map64 : Store
map64 i = if i == 0 then 1 else 0

abbrev b64 : Balloc
b64 = record { mbmp = map64; total_blocks = 64; used_blocks = 1; errno = 0 }

b64-IsValid : IsValid b64
unfolding count
b64-IsValid = record { words = λ i. ground arith; small = omega arith; counted = refl }

first_block : (balloc_allocate_block b64).0 ≡ 0x1000
unfolding balloc_allocate_block first_free scan find_zero
first_block = refl

first_block-ne : (balloc_allocate_block b64).0 ≢ 0
first_block-ne e = omega (arith, first_block)

second_block : (balloc_allocate_block (balloc_allocate_block b64).1).0 ≡ 0x2000
unfolding balloc_allocate_block first_free scan find_zero allocate mark
second_block = refl

second_block-ne : (balloc_allocate_block (balloc_allocate_block b64).1).0 ≢ 0
second_block-ne e = omega (arith, second_block)

-- Freeing block 0 makes every later request fail.
stuck : (balloc_allocate_block (balloc_deallocate_block b64 0)).0 ≡ 0
unfolding balloc_allocate_block first_free scan find_zero balloc_deallocate_block deallocate clear
stuck = refl

balloc_allocate_block_example :
    Granted b64 (balloc_allocate_block b64).0 (balloc_allocate_block b64).1
    ⊎ Refused b64 (balloc_allocate_block b64).0 (balloc_allocate_block b64).1
balloc_allocate_block_example = balloc_allocate_block_lem b64 b64-IsValid

balloc_roundtrip_example :
    let (p, b') = balloc_allocate_block b64 in
    let b'' = balloc_deallocate_block b' p in
    ((k : ℕ) → block_bit b''.mbmp k ≡ block_bit map64 k)
    × (b''.used_blocks ≡ 1)
    × (b''.total_blocks ≡ 64)
balloc_roundtrip_example =
    balloc_deallocate_block-balloc_allocate_block b64 b64-IsValid first_block-ne

-- A request, its return, and a request again.
abbrev again : Balloc
again = (balloc_allocate_block (balloc_deallocate_block (balloc_allocate_block b64).1 0x1000)).1

Steps-Granted_example :
    IsValid again
    × (Granted again (balloc_allocate_block again).0 (balloc_allocate_block again).1
        ⊎ Refused again (balloc_allocate_block again).0 (balloc_allocate_block again).1)
Steps-Granted_example =
    Steps-Granted (step (step (step start request) (give_back 0x1000)) request) b64-IsValid
