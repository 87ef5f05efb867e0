-- ===== src/Bitmap/Laws.antt =====
-- Setting or clearing the bit of one block changes that bit and no other.
use missy_kernel.Base.{ℕ, ◌/◌, ◌%◌, ◌^◌, ◌<◌, ◌≡◌, arith, Store, not32, ◌==◌, if◌then◌else◌}
use missy_kernel.Base.Bits.{bit-set, bit-clear, bit_or-lt, bit_and-le, two_pow-lt}
use missy_kernel.Bitmap.{mark, clear, block_bit}

-- Every word of the map fits `unsigned int`.
abbrev pub IsWords : Store → Type 0
IsWords m = (i : ℕ) → m i < 2 ^ 32

pub block_bit-mark :
    (m : Store) (k b : ℕ) → block_bit (mark m k) b ≡ (if b == k then 1 else block_bit m b)
unfolding mark
block_bit-mark m k b = ground (arith, bit-set (m (k / 32)) (k % 32) (b % 32))

pub block_bit-clear :
    (m : Store) (k b : ℕ) → block_bit (clear m k) b ≡ (if b == k then 0 else block_bit m b)
unfolding clear
block_bit-clear m k b =
    ground (arith, bit-clear (m (k / 32)) (k % 32) (b % 32) (omega arith) (omega arith))

pub mark-IsWords : (m : Store) (k : ℕ) → IsWords m → IsWords (mark m k)
unfolding mark
mark-IsWords m k w i = ground (
  arith,
  w i,
  bit_or-lt 32 (m (k / 32)) (2 ^ (k % 32)) (w (k / 32)) (two_pow-lt 32 (k % 32) (omega arith)),
)

pub clear-IsWords : (m : Store) (k : ℕ) → IsWords m → IsWords (clear m k)
unfolding clear
clear-IsWords m k w i =
    ground (arith, w i, w (k / 32), bit_and-le (m (k / 32)) (not32 (2 ^ (k % 32))))
