-- ===== src/Itoa/Digits.antt =====
-- The digit loop writes a number that reads back, and the move to the front keeps it.
use missy_kernel.Base.{
  ℕ, zero, suc, ◌+◌, ◌-◌, ◌*◌, ◌/◌, ◌%◌, ◌^◌, ◌≤◌, ◌<◌, ◌≡◌, ◌≢◌, ◌⊎◌, inl, inr, refl, ◌∙◌, ap,
  arith, Store, write, write_self, write_other, ltb, ◌==◌, in_run, if◌then◌else◌, some, Bool-cases,
  true, false,
}
use missy_kernel.Strings.Copy.{IsString, IsString-tail, IsString-write}
use native.Mathlib.Nat.{div-add-mod', mod-lt, pow-succ'}
use missy_kernel.Itoa.{upper, lower, digit_loop, move_string}

-- The value of a character as a digit, of either case.
abbrev pub digit_value : ℕ → ℕ
digit_value c = if ltb c 58 then c - 48 else if ltb c 97 then c - 55 else c - 87

-- The number that the `k` characters from `p` on spell in the base.
unfoldable pub value : ℕ → Store → ℕ → ℕ → ℕ
value base m p zero = 0
value base m p (suc k) = value base m p k * base + digit_value (m (p + k))

-- A map from digits to characters that `digit_value` reads back.
pub record IsLetters (base : ℕ) (letter : ℕ → ℕ) : Type 0 where
  pub reads : (d : ℕ) → d < base → digit_value (letter d) ≡ d
  pub nonzero : (d : ℕ) → d < base → letter d ≢ 0

pub upper-IsLetters : (base : ℕ) → base ≤ 36 → IsLetters base upper
upper-IsLetters base h = record { reads = λ d k. ground arith; nonzero = λ d k e. ground arith }

pub lower-IsLetters : (base : ℕ) → base ≤ 16 → IsLetters base lower
lower-IsLetters base h = record { reads = λ d k. ground arith; nonzero = λ d k e. ground arith }

pub value-frame :
    (base k : ℕ) (m m' : Store) (p p' : ℕ)
    → ((i : ℕ) → i < k → m (p + i) ≡ m' (p' + i))
    → value base m p k ≡ value base m' p' k
unfolding value
value-frame base zero m m' p p' h = refl
value-frame base (suc k) m m' p p' h =
    rw (value-frame base k m m' p p' (λ i l. h i (omega arith)), h k (omega arith)) refl

-- The loop has written `n` digits of `num` below `top`, and changed nothing else.
pub record Digits (base num top n : ℕ) (m m' : Store) : Type 0 where
  pub fits : n ≤ top
  pub spells : value base m' (top - n) n ≡ num
  pub nonzero : (i : ℕ) → i < n → m' (top - n + i) ≢ 0
  pub outside : (a : ℕ) → (a < top - n) ⊎ (top ≤ a) → m' a ≡ m a

pub value-zero : (base : ℕ) (m : Store) (p : ℕ) → value base m p zero ≡ 0
unfolding value
value-zero base m p = refl

pub value-suc :
    (base : ℕ) (m : Store) (p k : ℕ)
    → value base m p (suc k) ≡ value base m p k * base + digit_value (m (p + k))
unfolding value
value-suc base m p k = refl

pub half_lem : (base x rounds : ℕ) → 2 ≤ base → x < 2 ^ suc rounds → x / base < 2 ^ rounds
half_lem base x rounds b h =
    let p : 2 ^ suc rounds ≡ 2 * 2 ^ rounds = pow-succ' 2 rounds in
    let q : x / base * base + x % base ≡ x = div-add-mod' x base in
    let c : x / base * 2 ≤ x / base * base = grind arith in omega arith

-- One more digit in front of those of the quotient.
Digits-suc :
    {base x top n : ℕ} {m m' : Store} (letter : ℕ → ℕ)
    → IsLetters base letter
    → 2 ≤ base
    → 0 < top
    → Digits base (x / base) (top - 1) n (write m (top - 1) (letter (x % base))) m'
    → Digits base x top (suc n) m m'
Digits-suc {base} {x} {top} {n} {m} {m'} letter l b t d =
    let start : top - suc n ≡ top - 1 - n = omega arith in
    let last : top - 1 - n + n ≡ top - 1 = omega (arith, d.fits) in
    let small : x % base < base = mod-lt x (omega arith) in
    let cell : m' (top - 1) ≡ letter (x % base) =
      d.outside (top - 1) (inr (omega arith)) ∙ write_self m (top - 1) (letter (x % base)) in
    record {
      fits = omega (arith, d.fits);
      spells =
          value-suc base m' (top - suc n) n
          ∙ rw (start, last, cell, l.reads (x % base) small, d.spells) (div-add-mod' x base);
      nonzero = λ i k. elim (Bool-cases (i == n)) [
        | inl e ↦
            let at : top - suc n + i ≡ top - 1 = ground (arith, e, d.fits) in
            rw (at, cell) (l.nonzero (x % base) small)
        | inr e ↦ rw start (d.nonzero i (ground (arith, e)))
      ];
      outside = λ a o.
          d.outside a (omega (arith, o, d.fits))
          ∙ write_other m (top - 1) (letter (x % base)) a (λ e. omega (arith, o, e, d.fits));
    }

-- With room for the digits of the number in binary, the loop ends.
pub digit_loop_lem :
    (letter : ℕ → ℕ) (rounds num base top written : ℕ) (m : Store)
    → IsLetters base letter
    → 2 ≤ base
    → num < 2 ^ rounds
    → rounds ≤ top
    → (n : ℕ) × (m' : Store) × (digit_loop letter (suc rounds) num base top written m
        ≡ (some (top - n, written + n), m'))
      × (n ≤ rounds)
      × Digits base num top n m m'
unfolding digit_loop value
digit_loop_lem letter rounds zero base top written m l b h t =
    let p : top ≡ top - 0 = omega arith in
    let q : written ≡ written + 0 = omega arith in
    (
      0,
      m,
      ap (λ (a : ℕ). (some (a, written), m)) p ∙ ap (λ (a : ℕ). (some (top - 0, a), m)) q,
      omega arith,
      record {
        fits = omega arith;
        spells = refl;
        nonzero = λ i k. absurd (omega arith);
        outside = λ a o. refl;
      },
    )
digit_loop_lem letter zero (suc num) base top written m l b h t = absurd (omega arith)
digit_loop_lem letter (suc rounds) (suc num) base top written m l b h t =
    let m₁ = write m (top - 1) (letter (suc num % base)) in
    let pos : (suc num == 0) ≡ false = ground arith in
    let step : digit_loop letter (suc (suc rounds)) (suc num) base top written m
        ≡ digit_loop letter (suc rounds) (suc num / base) base (top - 1) (written + 1) m₁ =
      rw pos refl in
    let (n, m', e, r, d) =
      digit_loop_lem letter rounds (suc num / base) base (top - 1) (written + 1) m₁ l b
        (half_lem base (suc num) rounds b h) (omega arith) in
    let p : top - 1 - n ≡ top - suc n = omega arith in
    let q : written + 1 + n ≡ written + suc n = omega arith in
    (
      suc n,
      m',
      step
          ∙ e
          ∙ ap (λ (a : ℕ). (some (a, written + 1 + n), m')) p
          ∙ ap (λ (a : ℕ). (some (top - suc n, a), m')) q,
      omega (arith, r),
      Digits-suc letter l b (omega arith) d,
    )

-- Moving a string to the front of itself, or to any place that does not lie inside it.
pub move_string_lem :
    (fuel : ℕ) (m : Store) (dst src n a : ℕ)
    → IsString m src n
    → n < fuel
    → dst ≤ src
    → move_string fuel m dst src a ≡ (if in_run dst (suc n) a then m (src + (a - dst)) else m a)
unfolding move_string
move_string_lem zero m dst src n a h f o = absurd (omega arith)
move_string_lem (suc fuel) m dst src zero a h f o =
    let e : (m src == 0) ≡ true = ground (arith, h.end) in rw e (ground arith)
move_string_lem (suc fuel) m dst src (suc n) a h f o =
    let e : (m src == 0) ≡ false = ground (arith, h.inner 0 (omega arith)) in
    let tail = IsString-write dst (m src) (IsString-tail h) (omega arith) in
    rw e (
      move_string_lem fuel (write m dst (m src)) (dst + 1) (src + 1) n a tail (omega arith)
        (omega arith)
      ∙ ground arith)
