-- ===== src/Base/Masks.antt =====
-- Words as fields: masks, alignment and the values that two words put together stand for.
use Prim.Native.Nat.{digits, bit_and-bitwise, bit_or-bitwise}
use native.Mathlib.Nat.{pow-succ', one-le-pow, div-div-eq-div-mul, div-add-mod', mod-lt}
use Prim.Native.Nat.{
  ℕ, zero, suc, ◌+◌, ◌-◌, ◌*◌, ◌/◌, ◌%◌, ◌^◌, ◌≤◌, ◌<◌, min, max, bit_and, bit_or,
}
use mathlib.Core.Path.{◌≡◌, refl, sym, ap, ◌∙◌}
use native.Mathlib.Omega.{arith}
use missy_kernel.Base.Tests.{ltb, if◌then◌else◌}
use missy_kernel.Base.Words.{not32}
use missy_kernel.Base.Bits.{
  bit, bit-suc, bit-double, bit-zero_word, bit-lt, bit-bit_and, bit-bit_or, bit-complement,
  two_pow-lt, bit_and-le,
}

or_digits-zero : (n a : ℕ) → a ≤ n → digits (λ y. y) max n a 0 ≡ a
or_digits-zero zero zero h = refl
or_digits-zero zero (suc a) h = absurd (omega arith)
or_digits-zero (suc n) zero h = refl
or_digits-zero (suc n) (suc a) h = omega (arith, or_digits-zero n (suc a / 2) (omega arith))

and_digits-zero : (n a : ℕ) → digits (λ y. 0) min n a 0 ≡ 0
and_digits-zero zero zero = refl
and_digits-zero zero (suc a) = refl
and_digits-zero (suc n) zero = refl
and_digits-zero (suc n) (suc a) = omega (arith, and_digits-zero n (suc a / 2))

mul-two_pow-suc : (q k : ℕ) → q * 2 ^ suc k ≡ 2 * (q * 2 ^ k)
mul-two_pow-suc q k = omega (arith, ap (λ (t : ℕ). q * t) (pow-succ' 2 k))

or_digits_fields :
    (k n a q r : ℕ) → a ≤ n → a ≡ q * 2 ^ k → r < 2 ^ k → digits (λ y. y) max n a r ≡ a + r
or_digits_fields k zero zero q r h e f = omega arith
or_digits_fields k zero (suc a) q r h e f = absurd (omega arith)
or_digits_fields k (suc n) zero q r h e f = omega arith
or_digits_fields zero (suc n) (suc a) q zero h e f =
    rw (or_digits-zero (suc n) (suc a) h) (omega arith)
or_digits_fields zero (suc n) (suc a) q (suc r) h e f = absurd (omega arith)
or_digits_fields (suc k) (suc n) (suc a) q r h e f = omega (
  arith,
  mul-two_pow-suc q k,
  or_digits_fields k n (suc a / 2) q (r / 2) (omega arith) (omega (arith, mul-two_pow-suc q k))
      (omega (arith, pow-succ' 2 k)),
)

-- A field above and a field below: `(q << k) | r`.
pub bit_or_fields : (k q r : ℕ) → r < 2 ^ k → bit_or (q * 2 ^ k) r ≡ q * 2 ^ k + r
bit_or_fields k q r h =
    bit_or-bitwise (q * 2 ^ k) r
    ∙ or_digits_fields k (q * 2 ^ k) (q * 2 ^ k) q r (omega arith) refl h

and_digits_fields :
    (k n a q r : ℕ)
    → a ≤ n
    → a ≡ q * 2 ^ k + r
    → r < 2 ^ k
    → digits (λ y. 0) min n a (2 ^ k - 1) ≡ r
and_digits_fields k zero zero q r h e f = omega arith
and_digits_fields k zero (suc a) q r h e f = absurd (omega arith)
and_digits_fields k (suc n) zero q r h e f = omega arith
and_digits_fields zero (suc n) (suc a) q r h e f =
    rw (and_digits-zero (suc n) (suc a)) (omega arith)
and_digits_fields (suc k) (suc n) (suc a) q r h e f =
    let p : 2 ^ suc k ≡ 2 * 2 ^ k = pow-succ' 2 k in
    let halved : (2 ^ suc k - 1) / 2 ≡ 2 ^ k - 1 = omega arith in
    let odd : (2 ^ suc k - 1) % 2 ≡ 1 = omega (arith, one-le-pow k 2 (omega arith)) in
    let rest =
      and_digits_fields k n (suc a / 2) q (r / 2) (omega arith) (omega (arith, mul-two_pow-suc q k))
        (omega arith) in
    omega
      (arith, mul-two_pow-suc q k, ap (λ (t : ℕ). digits (λ y. 0) min n (suc a / 2) t) halved, rest)

-- A mask of `k` low bits is the remainder by `2 ^ k`.
pub bit_and_mask : (k a : ℕ) → bit_and a (2 ^ k - 1) ≡ a % 2 ^ k
bit_and_mask k a =
    bit_and-bitwise a (2 ^ k - 1)
    ∙ and_digits_fields k a a (a / 2 ^ k) (a % 2 ^ k) (omega arith) (sym (div-add-mod' a (2 ^ k)))
        (mod-lt a (one-le-pow k 2 (omega arith)))

-- Two words of `n` bits with the same bits are one word.
pub eq_of_bits : (n x y : ℕ) → x < 2 ^ n → y < 2 ^ n → ((j : ℕ) → j < n → bit x j ≡ bit y j) → x ≡ y
eq_of_bits zero x y hx hy same = omega arith
eq_of_bits (suc n) x y hx hy same = omega (
  arith,
  pow-succ' 2 n,
  same 0 (omega arith),
  eq_of_bits n (x / 2) (y / 2) (omega (arith, pow-succ' 2 n)) (omega (arith, pow-succ' 2 n))
      (λ j k. sym (bit-suc x j) ∙ same (suc j) (omega arith) ∙ bit-suc y j),
)

bit-low_mask : (k j : ℕ) → bit (2 ^ k - 1) j ≡ (if ltb j k then 1 else 0)
bit-low_mask zero j = ground (arith, bit-zero_word j)
bit-low_mask (suc k) zero = ground (arith, pow-succ' 2 k, one-le-pow k 2 (omega arith))
bit-low_mask (suc k) (suc j) =
    let p : 2 ^ suc k ≡ 2 * 2 ^ k = pow-succ' 2 k in
    let q : 1 ≤ 2 ^ k = one-le-pow k 2 (omega arith) in
    let e : (2 ^ suc k - 1) / 2 ≡ 2 ^ k - 1 = omega arith in
    ground (arith, bit-suc (2 ^ suc k - 1) j, ap (λ (t : ℕ). bit t j) e, bit-low_mask k j)

bit-aligned : (k x j : ℕ) → bit (x / 2 ^ k * 2 ^ k) j ≡ (if ltb j k then 0 else bit x j)
bit-aligned zero x j =
    let e : x / 2 ^ 0 * 2 ^ 0 ≡ x = omega arith in ground (arith, ap (λ (t : ℕ). bit t j) e)
bit-aligned (suc k) x zero = ground (arith, mul-two_pow-suc (x / 2 ^ suc k) k)
bit-aligned (suc k) x (suc j) =
    let e : x / 2 ^ suc k * 2 ^ suc k ≡ (x / 2 / 2 ^ k * 2 ^ k) * 2 + 0 = omega (
      arith,
      mul-two_pow-suc (x / 2 ^ suc k) k,
      ap (λ (t : ℕ). t * 2 ^ k) (ap (λ (t : ℕ). x / t) (pow-succ' 2 k)),
      ap (λ (t : ℕ). t * 2 ^ k) (div-div-eq-div-mul x 2 (2 ^ k)),
    ) in
    ground (
      arith,
      ap (λ (t : ℕ). bit t (suc j)) e,
      bit-double (x / 2 / 2 ^ k * 2 ^ k) 0 j,
      bit-aligned k (x / 2) j,
      bit-suc x j,
    )

-- `x & ~(2 ^ k - 1)`: the multiple of `2 ^ k` at or below a 32-bit word.
pub bit_and_align :
    (k x : ℕ) → k < 32 → x < 2 ^ 32 → bit_and x (not32 (2 ^ k - 1)) ≡ x / 2 ^ k * 2 ^ k
bit_and_align k x hk hx =
    eq_of_bits 32 (bit_and x (not32 (2 ^ k - 1))) (x / 2 ^ k * 2 ^ k)
      (omega (arith, bit_and-le x (not32 (2 ^ k - 1)))) (omega (arith, div-add-mod' x (2 ^ k)))
      λ j h. ground (
        arith,
        bit-bit_and x (not32 (2 ^ k - 1)) j,
        bit-complement 32 (2 ^ k - 1) j (omega (arith, two_pow-lt 32 k hk)) h,
        bit-low_mask k j,
        bit-aligned k x j,
        bit-lt x j,
      )

eq_of_all_bits : (n x y : ℕ) → x ≤ n → y ≤ n → ((j : ℕ) → bit x j ≡ bit y j) → x ≡ y
eq_of_all_bits zero x y hx hy same = omega arith
eq_of_all_bits (suc n) x y hx hy same = omega (
  arith,
  same 0,
  eq_of_all_bits n (x / 2) (y / 2) (omega arith) (omega arith)
      (λ j. sym (bit-suc x j) ∙ same (suc j) ∙ bit-suc y j),
)

-- `|` from the lowest digit up.
pub bit_or_step : (a b : ℕ) → bit_or a b ≡ bit_or (a / 2) (b / 2) * 2 + max (a % 2) (b % 2)
bit_or_step a b =
    let next = bit_or (a / 2) (b / 2) * 2 + max (a % 2) (b % 2) in
    eq_of_all_bits (bit_or a b + next) (bit_or a b) next (omega arith) (omega arith) bits
  where
    bits : (j : ℕ) → bit (bit_or a b) j ≡ bit (bit_or (a / 2) (b / 2) * 2 + max (a % 2) (b % 2)) j
    bits zero = omega (arith, bit-bit_or a b 0)
    bits (suc j) = omega (
      arith,
      bit-bit_or a b (suc j),
      bit-suc a j,
      bit-suc b j,
      bit-double (bit_or (a / 2) (b / 2)) (max (a % 2) (b % 2)) j (omega arith),
      bit-bit_or (a / 2) (b / 2) j,
    )

-- `|` of low bits leaves the field above them alone.
pub bit_or_low :
    (k q r s : ℕ) → r < 2 ^ k → s < 2 ^ k → bit_or (q * 2 ^ k + r) s ≡ q * 2 ^ k + bit_or r s
bit_or_low zero q r s hr hs =
    let e : r ≡ 0 = omega arith in
    let e' : s ≡ 0 = omega arith in
    let same : q * 2 ^ 0 + 0 ≡ q * 2 ^ 0 = omega arith in
    rw (e, e', same) (bit_or_fields 0 q 0 (omega arith) ∙ omega arith)
bit_or_low (suc k) q r s hr hs = omega (
  arith,
  bit_or_step (q * 2 ^ suc k + r) s,
  bit_or_step r s,
  mul-two_pow-suc q k,
  pow-succ' 2 k,
  ap (λ (t : ℕ). bit_or t (s / 2)) halved,
  bit_or_low k q (r / 2) (s / 2) (omega (arith, pow-succ' 2 k)) (omega (arith, pow-succ' 2 k)),
)
  where
    halved : (q * 2 ^ suc k + r) / 2 ≡ q * 2 ^ k + r / 2
    halved = omega (arith, mul-two_pow-suc q k)

-- The upper byte of a 16-bit word.
pub bit_and-high_byte : (x : ℕ) → x < 2 ^ 16 → bit_and x 0xff00 ≡ x / 2 ^ 8 * 2 ^ 8
bit_and-high_byte x hx =
    eq_of_bits 16 (bit_and x 0xff00) (x / 2 ^ 8 * 2 ^ 8) (omega (arith, bit_and-le x 0xff00))
      (omega (arith, div-add-mod' x (2 ^ 8)))
      λ j h. ground (
        arith,
        bit-bit_and x 0xff00 j,
        bit-complement 16 (2 ^ 8 - 1) j (omega arith) h,
        bit-low_mask 8 j,
        bit-aligned 8 x j,
        bit-lt x j,
      )
