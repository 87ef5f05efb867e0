-- ===== src/Balloc/Count.antt =====
-- The invariant of balloc.c: the counter of used blocks is the number of set bits.
use missy_kernel.Base.{ℕ, zero, suc, ◌+◌, ◌^◌, ◌≤◌, ◌<◌, ◌≡◌, arith, Store, ltb, if◌then◌else◌}
use missy_kernel.Bitmap.{block_bit, mark, clear}
use missy_kernel.Bitmap.Laws.{IsWords, block_bit-mark, block_bit-clear, mark-IsWords, clear-IsWords}
use missy_kernel.Balloc.{Balloc, allocate, deallocate}

-- How many of the blocks below `n` are marked.
unfoldable pub count : ℕ → Store → ℕ
count zero m = 0
count (suc n) m = count n m + block_bit m n

pub count-le : (n : ℕ) (m : Store) → count n m ≤ n
unfolding count
count-le zero m = omega arith
count-le (suc n) m = omega (arith, count-le n m)

pub count-mark :
    (n k : ℕ) (m : Store)
    → block_bit m k ≡ 0
    → count n (mark m k) ≡ (if ltb k n then count n m + 1 else count n m)
unfolding count
count-mark zero k m free = ground arith
count-mark (suc n) k m free = ground (arith, count-mark n k m free, block_bit-mark m k n)

pub count-clear :
    (n k : ℕ) (m : Store)
    → block_bit m k ≡ 1
    → count n m ≡ (if ltb k n then count n (clear m k) + 1 else count n (clear m k))
unfolding count
count-clear zero k m used = ground arith
count-clear (suc n) k m used = ground (arith, count-clear n k m used, block_bit-clear m k n)

-- At most 2 ^ 20 blocks of 4 KiB stand in a 32-bit address space.
pub record IsValid (b : Balloc) : Type 0 where
  pub words : IsWords b.mbmp
  pub small : b.total_blocks ≤ 2 ^ 20
  pub counted : b.used_blocks ≡ count b.total_blocks b.mbmp

pub allocate-IsValid :
    (b : Balloc) (k : ℕ)
    → IsValid b
    → k < b.total_blocks
    → block_bit b.mbmp k ≡ 0
    → IsValid (allocate b k)
unfolding allocate
allocate-IsValid b k v small free = record {
  words = mark-IsWords b.mbmp k v.words;
  small = v.small;
  counted = ground (
    arith,
    v.counted,
    v.small,
    count-mark b.total_blocks k b.mbmp free,
    count-le b.total_blocks b.mbmp,
  );
}

pub deallocate-IsValid :
    (b : Balloc) (k : ℕ)
    → IsValid b
    → k < b.total_blocks
    → block_bit b.mbmp k ≡ 1
    → IsValid (deallocate b k)
unfolding deallocate
deallocate-IsValid b k v small used = record {
  words = clear-IsWords b.mbmp k v.words;
  small = v.small;
  counted = ground (
    arith,
    v.counted,
    v.small,
    count-clear b.total_blocks k b.mbmp used,
    count-le b.total_blocks b.mbmp,
  );
}
