-- ===== src/Itoa/Text.antt =====
-- The characters that the number printers write, as the numeral of the number.
use missy_kernel.Base.{
  ℕ, zero, suc, ◌+◌, ◌-◌, ◌/◌, ◌%◌, ◌^◌, ◌≤◌, ◌<◌, ◌≡◌, inl, inr, refl, sym, ◌∙◌, ap, arith, Store,
  write, write_self, write_other, ltb, ◌==◌, ◌||◌, if◌then◌else◌, Bool-cases, ==_false_of_ne, true,
  false, Option, some, List, [], ◌∷◌, length,
}
use missy_kernel.Strings.{memset, ki_memset}
use missy_kernel.Strings.Copy.{memset_lem, ki_memset-memset}
use missy_kernel.Strings.Text.{IsText, text_end, text_char, IsText-write}
use missy_kernel.Itoa.{Printer, upper, lower, digit_loop, move_string, itoa, ki_make_ulong_string}
use missy_kernel.Itoa.Digits.{IsLetters, upper-IsLetters, lower-IsLetters, half_lem}
use native.Mathlib.Nat.{mod-lt}

-- The digits of a number of at most `rounds` digits, in front of `acc`.
unfoldable pub digits_onto : (ℕ → ℕ) → ℕ → ℕ → ℕ → List ℕ → List ℕ
digits_onto letter base zero num acc = acc
digits_onto letter base (suc rounds) num acc =
    let rest = digits_onto letter base rounds (num / base) (letter (num % base) ∷ acc) in
    if num == 0 then acc else rest

-- The numeral of a 32-bit number.
unfoldable pub numeral : (ℕ → ℕ) → ℕ → ℕ → List ℕ
unfolding digits_onto
numeral letter base num = if num == 0 then 48 ∷ [] else digits_onto letter base 32 num []

digits_onto-zero :
    (letter : ℕ → ℕ) (base rounds : ℕ) (acc : List ℕ) → digits_onto letter base rounds 0 acc ≡ acc
unfolding digits_onto
digits_onto-zero letter base zero acc = refl
digits_onto-zero letter base (suc rounds) acc = refl

digits_onto-pos :
    (letter : ℕ → ℕ) (base rounds num : ℕ) (acc : List ℕ)
    → digits_onto letter base (suc rounds) (suc num) acc
      ≡ digits_onto letter base rounds (suc num / base) (letter (suc num % base) ∷ acc)
unfolding digits_onto
digits_onto-pos letter base rounds num acc = rw (==_false_of_ne (suc num) 0 (λ e. omega arith)) refl

pub numeral-zero :
    (letter : ℕ → ℕ) (base num : ℕ) → (num == 0) ≡ true → numeral letter base num ≡ 48 ∷ []
unfolding numeral
numeral-zero letter base num z = rw z refl

pub numeral-pos :
    (letter : ℕ → ℕ) (base num : ℕ)
    → (num == 0) ≡ false
    → numeral letter base num ≡ digits_onto letter base 32 num []
unfolding numeral
numeral-pos letter base num z = rw z refl

-- Where the loop stops, with the digits in front of what stood at `top`.
pub record Written (text : List ℕ) (stop top rounds ptr : ℕ) (m' : Store) : Type 0 where
  pub here : IsText m' ptr text
  pub below : ptr ≤ top
  pub fits : top ≤ ptr + rounds
  pub size : ptr + length text ≡ stop

pub digit_loop-Written :
    (letter : ℕ → ℕ) (rounds num base top written : ℕ) (m : Store) (acc : List ℕ)
    → IsLetters base letter
    → 2 ≤ base
    → num < 2 ^ rounds
    → rounds ≤ top
    → IsText m top acc
    → (ptr : ℕ) × (m' : Store) × (digit_loop letter (suc rounds) num base top written m
        ≡ (some (ptr, written + (top - ptr)), m'))
      × Written (digits_onto letter base rounds num acc) (top + length acc) top rounds ptr m'
unfolding digit_loop
digit_loop-Written letter rounds zero base top written m acc l b h t x =
    let none_yet : written + (top - top) ≡ written = omega arith in
    (
      top,
      m,
      rw none_yet refl,
      rw (digits_onto-zero letter base rounds acc)
          (record { here = x; below = omega arith; fits = omega arith; size = refl }),
    )
digit_loop-Written letter zero (suc num) base top written m acc l b h t x = absurd (omega arith)
digit_loop-Written letter (suc rounds) (suc num) base top written m acc l b h t x =
    let c = letter (suc num % base) in
    let m₁ = write m (top - 1) c in
    let pos : (suc num == 0) ≡ false = ground arith in
    let step : digit_loop letter (suc (suc rounds)) (suc num) base top written m
        ≡ digit_loop letter (suc rounds) (suc num / base) base (top - 1) (written + 1) m₁ =
      rw pos refl in
    let back : top - 1 + 1 ≡ top = omega arith in
    let kept : IsText m₁ (top - 1 + 1) acc =
      rw back (IsText-write acc top (top - 1) c x (omega arith)) in
    let first : IsText m₁ (top - 1) (c ∷ acc) =
      text_char (write_self m (top - 1) c)
        (l.nonzero (suc num % base) (mod-lt (suc num) (omega arith))) kept in
    let (ptr, m', e, w) =
      digit_loop-Written letter rounds (suc num / base) base (top - 1) (written + 1) m₁ (c ∷ acc) l
        b (half_lem base (suc num) rounds b h) (omega arith) first in
    let count : written + 1 + (top - 1 - ptr) ≡ written + (top - ptr) = omega (arith, w.below) in
    (
      ptr,
      m',
      step ∙ e ∙ ap (λ (k : ℕ). (some (ptr, k), m')) count,
      rw (digits_onto-pos letter base rounds num acc) (record {
        here = w.here;
        below = omega (arith, w.below);
        fits = omega (arith, w.fits);
        size = omega (arith, w.size);
      }),
    )

-- The move of a string to a place in front of it.
pub move_string-IsText :
    (fuel : ℕ) (m : Store) (dst src : ℕ) (cs : List ℕ)
    → IsText m src cs
    → length cs < fuel
    → dst ≤ src
    → IsText (move_string fuel m dst src) dst cs
      × ((a : ℕ) → a < dst → move_string fuel m dst src a ≡ m a)
unfolding move_string
move_string-IsText zero m dst src cs x f o = absurd (omega arith)
move_string-IsText (suc fuel) m dst src [] (text_end z) f o =
    rw z (text_end (write_self m dst 0), λ a h. write_other m dst 0 a (λ e. omega arith))
move_string-IsText (suc fuel) m dst src (c ∷ cs) (text_char at ne rest) f o =
    let go : (c == 0) ≡ false = ==_false_of_ne c 0 ne in
    let (moved, before) =
      move_string-IsText fuel (write m dst c) (dst + 1) (src + 1) cs
        (IsText-write cs (src + 1) dst c rest (omega arith)) (omega arith) (omega arith) in
    rw (at, go)
      (
        text_char (before dst (omega arith) ∙ write_self m dst c) ne moved,
        λ a h. before a (omega arith) ∙ write_other m dst c a (λ e. omega arith),
      )

zero-IsText : (m : Store) (p : ℕ) → IsText (write (write m p 48) (p + 1) 0) p (48 ∷ [])
zero-IsText m p =
    text_char (write_other (write m p 48) (p + 1) 0 p (λ e. omega arith) ∙ write_self m p 48)
      (λ e. omega arith) (text_end (write_self (write m p 48) (p + 1) 0))

length-digits_onto :
    (letter : ℕ → ℕ) (base rounds num : ℕ) (acc : List ℕ)
    → length (digits_onto letter base rounds num acc) ≤ rounds + length acc
unfolding digits_onto
length-digits_onto letter base zero num acc = omega arith
length-digits_onto letter base (suc rounds) num acc =
    let rest = length-digits_onto letter base rounds (num / base) (letter (num % base) ∷ acc) in
    elim (Bool-cases (num == 0)) [
      | inl z ↦ rw z (omega arith)
      | inr pos ↦ rw pos (omega (arith, rest))
    ]

pub length-numeral : (letter : ℕ → ℕ) (base num : ℕ) → length (numeral letter base num) ≤ 32
length-numeral letter base num = elim (Bool-cases (num == 0)) [
  | inl z ↦ rw (numeral-zero letter base num z) (omega arith)
  | inr pos ↦
      rw (numeral-pos letter base num pos) (omega (arith, length-digits_onto letter base 32 num []))
]

-- Any two numbers of rounds that are enough give the same digits.
digits_onto-rounds :
    (letter : ℕ → ℕ) (base r r' num : ℕ) (acc : List ℕ)
    → 2 ≤ base
    → num < 2 ^ r
    → num < 2 ^ r'
    → digits_onto letter base r num acc ≡ digits_onto letter base r' num acc
digits_onto-rounds letter base r r' zero acc b h h' =
    digits_onto-zero letter base r acc ∙ sym (digits_onto-zero letter base r' acc)
digits_onto-rounds letter base zero r' (suc num) acc b h h' = absurd (omega arith)
digits_onto-rounds letter base (suc r) zero (suc num) acc b h h' = absurd (omega arith)
digits_onto-rounds letter base (suc r) (suc r') (suc num) acc b h h' =
    rw (digits_onto-pos letter base r num acc, digits_onto-pos letter base r' num acc)
      (digits_onto-rounds letter base r r' (suc num / base) (letter (suc num % base) ∷ acc) b
        (half_lem base (suc num) r b h) (half_lem base (suc num) r' b h'))

-- For a base from 2 to 16 and a 32-bit number `ki_make_ulong_string` returns, and leaves the
-- number's numeral.
pub ki_make_ulong_string-letters :
    (buffer num base : ℕ) (p : Printer)
    → 2 ≤ base
    → base ≤ 16
    → num < 2 ^ 32
    → (m : Store) × (ki_make_ulong_string buffer num base p ≡ some (record p { mem = m }))
      × IsText m buffer (numeral lower base num)
unfolding ki_make_ulong_string
ki_make_ulong_string-letters buffer num base p lo hi h =
    let good : (ltb 16 base || ltb base 2) ≡ false = ground arith in
    let m₀ = ki_memset p.mem buffer 0 65 in
    elim (Bool-cases (num == 0)) [
      | inl z ↦
          let m₁ = write m₀ buffer 48 in
          (
            write m₁ (buffer + 1) 0,
            rw z refl,
            rw (numeral-zero lower base num z) (zero-IsText m₀ buffer),
          )
      | inr pos ↦
          let end : m₀ (buffer + 64) ≡ 0 =
            ap (λ (m : Store). m (buffer + 64)) (ki_memset-memset p.mem buffer 0 0 65).0
            ∙ memset_lem p.mem buffer 0 65 (buffer + 64)
            ∙ ground arith in
          let (ptr, m', e, w) =
            digit_loop-Written lower 64 num base (buffer + 64) 0 m₀ [] (lower-IsLetters base hi) lo
              (omega arith) (omega arith) (text_end end) in
          let e₁ = ap (λ (q : Option (ℕ × ℕ) × Store). q.1) e in
          let same = digits_onto-rounds lower base 64 32 num [] lo (omega arith) h in
          let short = length-digits_onto lower base 32 num [] in
          let moved =
            move_string-IsText 65 m' buffer ptr (digits_onto lower base 64 num []) w.here
              (omega (arith, short, ap length same))
              (omega (arith, w.size, short, ap length same)) in
          (
            move_string 65 m' buffer ptr,
            rw (good, pos, e, e₁) refl,
            rw (numeral-pos lower base num pos, sym same) moved.0,
          )
    ]

-- For a base from 2 to 36 and a 32-bit number `itoa` returns the length of the number's numeral,
-- and leaves the numeral.
pub itoa-letters :
    (buffer num base : ℕ) (p : Printer)
    → 2 ≤ base
    → base ≤ 36
    → num < 2 ^ 32
    → (m : Store) × (itoa buffer num base p
        ≡ (some (length (numeral upper base num)), record p { mem = m }))
      × IsText m buffer (numeral upper base num)
unfolding itoa
itoa-letters buffer num base p lo hi h =
    let good : (ltb 36 base || ltb base 2) ≡ false = ground arith in
    elim (Bool-cases (num == 0)) [
      | inl z ↦
          let m₁ = write p.mem buffer 48 in
          (
            write m₁ (buffer + 1) 0,
            rw (good, z, numeral-zero upper base num z) refl,
            rw (numeral-zero upper base num z) (zero-IsText p.mem buffer),
          )
      | inr pos ↦
          let m₀ = memset p.mem buffer 0 33 in
          let end : m₀ (buffer + 32) ≡ 0 =
            memset_lem p.mem buffer 0 33 (buffer + 32) ∙ ground arith in
          let (ptr, m', e, w) =
            digit_loop-Written upper 32 num base (buffer + 32) 0 m₀ [] (upper-IsLetters base hi) lo
              h (omega arith) (text_end end) in
          let e₁ = ap (λ (q : Option (ℕ × ℕ) × Store). q.1) e in
          let short = length-digits_onto upper base 32 num [] in
          let count : 0 + (buffer + 32 - ptr) ≡ length (digits_onto upper base 32 num []) =
            omega (arith, w.size) in
          let moved =
            move_string-IsText 33 m' buffer ptr (digits_onto upper base 32 num []) w.here
              (omega (arith, short)) (omega (arith, w.fits)) in
          (
            move_string 33 m' buffer ptr,
            rw (good, pos, e, e₁, count, numeral-pos upper base num pos) refl,
            rw (numeral-pos upper base num pos) moved.0,
          )
    ]
