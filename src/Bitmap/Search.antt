-- ===== src/Bitmap/Search.antt =====
-- The search of `first_free` finds the least clear bit of the words that it looks at.
use missy_kernel.Base.{
  ℕ, zero, suc, ◌+◌, ◌*◌, ◌%◌, ◌≤◌, ◌<◌, ◌≡◌, inl, inr, refl, arith, Option, none, some, Store,
  ◌==◌, Option-cases, Bool-cases, ne_of_==_false,
}
use missy_kernel.Base.Bits.{bit, bit-lt, bit-full, full_of_bits}
use missy_kernel.Bitmap.{block_bit, full_unit, find_zero, scan}
use missy_kernel.Bitmap.Laws.{IsWords}

-- The least clear bit of a word among the bits from `lo` up to `hi`, or none.
abbrev pub IsFirstZero : ℕ → ℕ → ℕ → Option ℕ → Type 0
IsFirstZero w lo hi none = (j : ℕ) → lo ≤ j → j < hi → bit w j ≡ 1
IsFirstZero w lo hi (some k) =
    (lo ≤ k) × (k < hi) × (bit w k ≡ 0) × ((j : ℕ) → lo ≤ j → j < k → bit w j ≡ 1)

-- The least free block from `lo` up to `hi`, or none.
abbrev pub IsFirstFree : Store → ℕ → ℕ → Option ℕ → Type 0
IsFirstFree m lo hi none = (b : ℕ) → lo ≤ b → b < hi → block_bit m b ≡ 1
IsFirstFree m lo hi (some k) =
    (lo ≤ k) × (k < hi) × (block_bit m k ≡ 0) × ((b : ℕ) → lo ≤ b → b < k → block_bit m b ≡ 1)

-- The search of the rest, moved past a bit that is set.
IsFirstZero-past :
    (w lo hi : ℕ) (r : Option ℕ)
    → bit w lo ≡ 1
    → IsFirstZero w (lo + 1) hi r
    → IsFirstZero w lo hi r
IsFirstZero-past w lo hi none set rest = λ j p q. grind arith
IsFirstZero-past w lo hi (some k) set rest =
    (omega arith, rest.1, rest.2, λ j p q. ground (arith, rest.3 j))

find_zero_lem : (n w j hi : ℕ) → j + n ≡ hi → IsFirstZero w j hi (find_zero n w j)
unfolding find_zero
find_zero_lem zero w j hi e = λ k p q. absurd (omega arith)
find_zero_lem (suc n) w j hi e = elim (Bool-cases (bit w j == 0)) [
  | inl clear ↦ rw clear (omega arith, omega arith, ground arith, λ k p q. absurd (omega arith))
  | inr set ↦ rw set (
      IsFirstZero-past w j hi (find_zero n w (j + 1)) (ground (arith, bit-lt w j))
        (find_zero_lem n w (j + 1) hi (omega arith)))
]

-- The same step for a whole word.
IsFirstFree-past :
    (m : Store) (i hi : ℕ) (r : Option ℕ)
    → ((j : ℕ) → j < 32 → bit (m i) j ≡ 1)
    → IsFirstFree m ((i + 1) * 32) hi r
    → IsFirstFree m (i * 32) hi r
IsFirstFree-past m i hi none set rest = λ b p q. ground (arith, set (b % 32), rest b)
IsFirstFree-past m i hi (some k) set rest =
    (omega arith, rest.1, rest.2, λ b p q. ground (arith, set (b % 32), rest.3 b))

pub scan_lem :
    (n : ℕ) (m : Store) (i hi : ℕ)
    → IsWords m
    → (i + n) * 32 ≡ hi
    → IsFirstFree m (i * 32) hi (scan n m i)
unfolding scan
scan_lem zero m i hi words e = λ b p q. absurd (omega arith)
scan_lem (suc n) m i hi words e =
    let rest = scan_lem n m (i + 1) hi words (omega arith) in
    let found = find_zero_lem 32 (m i) 0 32 refl in
    elim (Bool-cases (m i == full_unit)) [
      | inl full ↦
          rw full
            (IsFirstFree-past m i hi (scan n m (i + 1)) (λ j p. ground (arith, bit-full j p)) rest)
      | inr room ↦ rw room (elim (Option-cases (find_zero 32 (m i) 0)) [
        | inl e' ↦
            let all : IsFirstZero (m i) 0 32 none = rw e' at found in
            absurd (
              ne_of_==_false (m i) full_unit room
                (full_of_bits 32 (m i) (words i) (λ j p. all j (omega arith) p)))
        | inr (k, e') ↦
            let first : IsFirstZero (m i) 0 32 (some k) = rw e' at found in
            rw e' (
              omega arith,
              omega (arith, first.1),
              ground (arith, first.1, first.2),
              λ b p q. ground (arith, first.1, first.3 (b % 32)),
            )
      ])
    ]
