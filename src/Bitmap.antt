-- ===== src/Bitmap.antt =====
-- The block bitmap that the early allocator (kernel/init/init/memory/kmemlow.c) builds and the
-- kernel's allocator (kernel/arch/i386/balloc.c) takes over: the bit of a block, setting and
-- clearing it, and the search for the first clear bit. The array is the store of its words, by
-- index; an index past its end is an address of the store like any other.
pub mod Laws
pub mod Search
use missy_kernel.Base.{
  ℕ, zero, suc, ◌+◌, ◌*◌, ◌/◌, ◌%◌, ◌^◌, bit_and, bit_or, Option, none, some, Store, write, not32,
  ◌>>>◌, ◌==◌, if◌then◌else◌,
}
use missy_kernel.Base.Bits.{bit}

-- BLOCKS_PER_UNIT
abbrev pub blocks_per_unit : ℕ
blocks_per_unit = 32

-- FULL_BITMAP_UNIT, FULL_UNIT
abbrev pub full_unit : ℕ
full_unit = 0xffff_ffff

-- `_mbmp[block / 32] & (1 << (block % 32))`, as 0 or 1
abbrev pub block_bit : Store → ℕ → ℕ
block_bit m block = bit (m (block / blocks_per_unit)) (block % blocks_per_unit)

-- `map[block / 32] |= 1 << (block % 32)`
unfoldable pub mark : Store → ℕ → Store
mark m block =
    let i = block / blocks_per_unit in
    let j = block % blocks_per_unit in write m i (bit_or (m i) (2 ^ j))

-- `map[block / 32] &= ~(1 << (block % 32))`
unfoldable pub clear : Store → ℕ → Store
clear m block =
    let i = block / blocks_per_unit in
    let j = block % blocks_per_unit in write m i (bit_and (m i) (not32 (2 ^ j)))

-- The inner loop of `first_free`, with `n` values of `j` left.
unfoldable pub find_zero : ℕ → ℕ → ℕ → Option ℕ
find_zero zero word j = none
find_zero (suc n) word j =
    let rest = find_zero n word (j + 1) in if (word >>> j) % 2 == 0 then some j else rest

-- The outer loop of `first_free`, with `n` words left. A word without a clear bit falls through.
unfoldable pub scan : ℕ → Store → ℕ → Option ℕ
scan zero m i = none
scan (suc n) m i =
    let rest = scan n m (i + 1) in
    let found : Option ℕ = find_zero blocks_per_unit (m i) 0 in
    if m i == full_unit
    then rest
    else elim found [ some j ↦ some (i * blocks_per_unit + j) | none ↦ rest ]
