-- ===== src/Base/Bits.antt =====
-- The bits of a word: `|=` and `&=` of the bitmaps bit by bit.
use Prim.Native.Nat.{digits, bit_and-bitwise, bit_or-bitwise}
use native.Mathlib.Nat.{pow-succ', pow-le-pow_right, one-le-pow, div-div-eq-div-mul, zero-div}
use missy_kernel.Base.Tests.{◌==◌, if◌then◌else◌}
use missy_kernel.Base.Words.{not32}
use Prim.Native.Nat.{
  ℕ, zero, suc, ◌+◌, ◌-◌, ◌*◌, ◌/◌, ◌%◌, ◌^◌, ◌≤◌, ◌<◌, min, max, bit_and, bit_or,
}
use mathlib.Core.Path.{◌≡◌, refl, sym, ap, ◌∙◌}
use native.Mathlib.Omega.{arith}

-- `(x >> j) & 1`
abbrev pub bit : ℕ → ℕ → ℕ
bit x j = x / 2 ^ j % 2

pub bit-suc : (x j : ℕ) → bit x (suc j) ≡ bit (x / 2) j
bit-suc x j =
    ap (λ (t : ℕ). x / t % 2) (pow-succ' 2 j)
    ∙ ap (λ (t : ℕ). t % 2) (sym (div-div-eq-div-mul x 2 (2 ^ j)))

pub bit-zero_word : (j : ℕ) → bit 0 j ≡ 0
bit-zero_word j = rw zero-div refl

pub bit-lt : (x j : ℕ) → bit x j < 2
bit-lt x j = omega arith

pub bit-double : (q r j : ℕ) → r < 2 → bit (q * 2 + r) (suc j) ≡ bit q j
bit-double q r j h = bit-suc (q * 2 + r) j ∙ ap (λ (t : ℕ). bit t j) (omega arith)

-- The native operations are recursions on the digits with fuel; bit by bit the fuel is gone.
bit-or_digits : (j n a b : ℕ) → a ≤ n → bit (digits (λ y. y) max n a b) j ≡ max (bit a j) (bit b j)
bit-or_digits j zero zero b h = omega (arith, bit-zero_word j)
bit-or_digits j zero (suc a) b h = absurd (omega arith)
bit-or_digits j (suc n) zero b h = omega (arith, bit-zero_word j)
bit-or_digits zero (suc n) (suc a) b h = omega arith
bit-or_digits (suc j) (suc n) (suc a) b h = omega (
  arith,
  bit-double (digits (λ y. y) max n (suc a / 2) (b / 2)) (max (suc a % 2) (b % 2)) j (omega arith),
  bit-or_digits j n (suc a / 2) (b / 2) (omega arith),
  bit-suc (suc a) j,
  bit-suc b j,
)

bit-and_digits : (j n a b : ℕ) → a ≤ n → bit (digits (λ y. 0) min n a b) j ≡ min (bit a j) (bit b j)
bit-and_digits j zero zero b h = omega (arith, bit-zero_word j)
bit-and_digits j zero (suc a) b h = absurd (omega arith)
bit-and_digits j (suc n) zero b h = omega (arith, bit-zero_word j)
bit-and_digits zero (suc n) (suc a) b h = omega arith
bit-and_digits (suc j) (suc n) (suc a) b h = omega (
  arith,
  bit-double (digits (λ y. 0) min n (suc a / 2) (b / 2)) (min (suc a % 2) (b % 2)) j (omega arith),
  bit-and_digits j n (suc a / 2) (b / 2) (omega arith),
  bit-suc (suc a) j,
  bit-suc b j,
)

pub bit-bit_or : (a b j : ℕ) → bit (bit_or a b) j ≡ max (bit a j) (bit b j)
bit-bit_or a b j =
    ap (λ (t : ℕ). bit t j) (bit_or-bitwise a b) ∙ bit-or_digits j a a b (omega arith)

pub bit-bit_and : (a b j : ℕ) → bit (bit_and a b) j ≡ min (bit a j) (bit b j)
bit-bit_and a b j =
    ap (λ (t : ℕ). bit t j) (bit_and-bitwise a b) ∙ bit-and_digits j a a b (omega arith)

-- A single bit, `1 << k`.
pub bit-two_pow : (k j : ℕ) → bit (2 ^ k) j ≡ (if j == k then 1 else 0)
bit-two_pow zero zero = refl
bit-two_pow zero (suc j) = ground (arith, bit-suc 1 j, bit-zero_word j)
bit-two_pow (suc k) zero = ground (arith, pow-succ' 2 k)
bit-two_pow (suc k) (suc j) = ground (arith, pow-succ' 2 k, bit-double (2 ^ k) 0 j, bit-two_pow k j)

-- The bits of the complement within `n` bits.
pub bit-complement : (n x j : ℕ) → x < 2 ^ n → j < n → bit (2 ^ n - 1 - x) j + bit x j ≡ 1
bit-complement zero x j h k = absurd (omega arith)
bit-complement (suc n) x zero h k = omega (arith, pow-succ' 2 n)
bit-complement (suc n) x (suc j) h k =
    let e : 2 ^ suc n ≡ 2 * 2 ^ n = pow-succ' 2 n in
    let half : (2 ^ suc n - 1 - x) / 2 ≡ 2 ^ n - 1 - x / 2 = omega arith in
    omega (
      arith,
      bit-suc (2 ^ suc n - 1 - x) j,
      ap (λ (t : ℕ). bit t j) half,
      bit-suc x j,
      bit-complement n (x / 2) j (omega arith) (omega arith),
    )

-- A word of `n` bits that are all set is the full word.
pub full_of_bits : (n x : ℕ) → x < 2 ^ n → ((j : ℕ) → j < n → bit x j ≡ 1) → x ≡ 2 ^ n - 1
full_of_bits zero x h all = omega arith
full_of_bits (suc n) x h all = omega (
  arith,
  pow-succ' 2 n,
  all 0 (omega arith),
  full_of_bits n (x / 2) (omega (arith, pow-succ' 2 n))
      (λ j k. sym (bit-suc x j) ∙ all (suc j) (omega arith)),
)

pub bit-full : (j : ℕ) → j < 32 → bit (2 ^ 32 - 1) j ≡ 1
bit-full j h = omega (arith, bit-complement 32 0 j (omega arith) h, bit-zero_word j)

-- `x | (1 << k)`
pub bit-set : (x k j : ℕ) → bit (bit_or x (2 ^ k)) j ≡ (if j == k then 1 else bit x j)
bit-set x k j = ground (arith, bit-bit_or x (2 ^ k) j, bit-two_pow k j, bit-lt x j)

pub two_pow-lt : (n k : ℕ) → k < n → 2 ^ k < 2 ^ n
two_pow-lt n k h = omega (
  arith,
  pow-succ' 2 k,
  pow-le-pow_right {n = 2} (omega arith) {i = suc k} {j = n} h,
  one-le-pow k 2 (omega arith),
)

-- `x & ~(1 << k)`
pub bit-clear :
    (x k j : ℕ)
    → k < 32
    → j < 32
    → bit (bit_and x (not32 (2 ^ k))) j ≡ (if j == k then 0 else bit x j)
bit-clear x k j hk hj = ground (
  arith,
  bit-bit_and x (not32 (2 ^ k)) j,
  bit-complement 32 (2 ^ k) j (two_pow-lt 32 k hk) hj,
  bit-two_pow k j,
  bit-lt x j,
)

or_digits-lt : (k n a b : ℕ) → a ≤ n → a < 2 ^ k → b < 2 ^ k → digits (λ y. y) max n a b < 2 ^ k
or_digits-lt k zero zero b h ha hb = hb
or_digits-lt k zero (suc a) b h ha hb = absurd (omega arith)
or_digits-lt k (suc n) zero b h ha hb = hb
or_digits-lt zero (suc n) (suc a) b h ha hb = absurd (omega arith)
or_digits-lt (suc k) (suc n) (suc a) b h ha hb = omega (
  arith,
  pow-succ' 2 k,
  or_digits-lt k n (suc a / 2) (b / 2) (omega arith) (omega (arith, pow-succ' 2 k))
      (omega (arith, pow-succ' 2 k)),
)

and_digits-le : (n a b : ℕ) → digits (λ y. 0) min n a b ≤ a
and_digits-le zero zero b = omega arith
and_digits-le zero (suc a) b = omega arith
and_digits-le (suc n) zero b = omega arith
and_digits-le (suc n) (suc a) b = omega (arith, and_digits-le n (suc a / 2) (b / 2))

-- `|` of words of `k` bits has `k` bits, and `&` only loses bits.
pub bit_or-lt : (k a b : ℕ) → a < 2 ^ k → b < 2 ^ k → bit_or a b < 2 ^ k
bit_or-lt k a b ha hb = omega (arith, bit_or-bitwise a b, or_digits-lt k a a b (omega arith) ha hb)

pub bit_and-le : (a b : ℕ) → bit_and a b ≤ a
bit_and-le a b = omega (arith, bit_and-bitwise a b, and_digits-le a a b)
