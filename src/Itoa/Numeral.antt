-- ===== src/Itoa/Numeral.antt =====
-- The numeral of a number: which digits it has, their glyphs, and the printers' agreement with it.
use missy_kernel.Base.{
  ℕ, zero, suc, ◌+◌, ◌*◌, ◌/◌, ◌%◌, ◌^◌, ◌≤◌, ◌<◌, ◌≡◌, ◌≢◌, inl, inr, refl, sym, ◌∙◌, ap, arith,
  ◌==◌, Bool-cases, Store, some, List, [], ◌∷◌, map, length,
}
use missy_kernel.Strings.Text.{IsText}
use missy_kernel.Itoa.{Printer, upper, lower, itoa, ki_make_ulong_string}
use missy_kernel.Itoa.Digits.{half_lem}
use missy_kernel.Itoa.Glyphs.{capitals, smalls, upper-capitals, lower-smalls}
use missy_kernel.Itoa.Text.{
  digits_onto, numeral, numeral-zero, numeral-pos, itoa-letters, ki_make_ulong_string-letters,
}
use native.Mathlib.Nat.{div-add-mod', mod-lt}

digits_onto-same :
    (f g : ℕ → ℕ) (base rounds num : ℕ) (acc : List ℕ)
    → 2 ≤ base
    → ((d : ℕ) → d < base → f d ≡ g d)
    → digits_onto f base rounds num acc ≡ digits_onto g base rounds num acc
unfolding digits_onto
digits_onto-same f g base zero num acc b h = refl
digits_onto-same f g base (suc rounds) num acc b h = elim (Bool-cases (num == 0)) [
  | inl z ↦ rw z refl
  | inr z ↦
      rw (digits_onto, z, h (num % base) (mod-lt num (omega arith)))
        (digits_onto-same f g base rounds (num / base) (g (num % base) ∷ acc) b h)
]

numeral-same :
    (f g : ℕ → ℕ) (base num : ℕ)
    → 2 ≤ base
    → ((d : ℕ) → d < base → f d ≡ g d)
    → numeral f base num ≡ numeral g base num
numeral-same f g base num b h = elim (Bool-cases (num == 0)) [
  | inl z ↦ numeral-zero f base num z ∙ sym (numeral-zero g base num z)
  | inr z ↦
      numeral-pos f base num z
      ∙ digits_onto-same f g base 32 num [] b h
      ∙ sym (numeral-pos g base num z)
]

pub numeral-capitals :
    (base num : ℕ) → 2 ≤ base → base ≤ 36 → numeral upper base num ≡ numeral capitals base num
numeral-capitals base num b h =
    numeral-same upper capitals base num b (λ d l. upper-capitals d (omega arith))

numeral-smalls :
    (base num : ℕ) → 2 ≤ base → base ≤ 16 → numeral lower base num ≡ numeral smalls base num
numeral-smalls base num b h =
    numeral-same lower smalls base num b (λ d l. lower-smalls d (omega arith))

-- For a base from 2 to 36 and a 32-bit number `itoa` returns the length of the number's numeral,
-- and leaves the numeral.
pub itoa-numeral :
    (buffer num base : ℕ) (p : Printer)
    → 2 ≤ base
    → base ≤ 36
    → num < 2 ^ 32
    → (m : Store) × (itoa buffer num base p
        ≡ (some (length (numeral capitals base num)), record p { mem = m }))
      × IsText m buffer (numeral capitals base num)
itoa-numeral buffer num base p lo hi h =
    rw (sym (numeral-capitals base num lo hi)) (itoa-letters buffer num base p lo hi h)

-- For a base from 2 to 16 and a 32-bit number `ki_make_ulong_string` returns, and leaves the
-- number's numeral.
pub ki_make_ulong_string-numeral :
    (buffer num base : ℕ) (p : Printer)
    → 2 ≤ base
    → base ≤ 16
    → num < 2 ^ 32
    → (m : Store) × (ki_make_ulong_string buffer num base p ≡ some (record p { mem = m }))
      × IsText m buffer (numeral smalls base num)
ki_make_ulong_string-numeral buffer num base p lo hi h =
    rw (sym (numeral-smalls base num lo hi))
      (ki_make_ulong_string-letters buffer num base p lo hi h)

-- The number that digits stand for, behind those that stand for `n`.
abbrev pub digits_value : ℕ → ℕ → List ℕ → ℕ
digits_value base n [] = n
digits_value base n (d ∷ ds) = digits_value base (n * base + d) ds

pub data AllBelow (base : ℕ) : List ℕ → Type 0 where
  below_nil : AllBelow base []
  below_cons : {d : ℕ} {ds : List ℕ} → d < base → AllBelow base ds → AllBelow base (d ∷ ds)

-- There is a first digit, and it is 0 only where it is the only one.
pub data Leads : List ℕ → Type 0 where
  leads_alone : {d : ℕ} → Leads (d ∷ [])
  leads : {d : ℕ} {ds : List ℕ} → d ≢ 0 → Leads (d ∷ ds)

-- The digits of a number in a base.
pub record IsNumeral (base num : ℕ) (ds : List ℕ) : Type 0 where
  pub below : AllBelow base ds
  pub leading : Leads ds
  pub stands_for : digits_value base 0 ds ≡ num

abbrev plain : ℕ → ℕ
plain d = d

digits_onto-map :
    (f : ℕ → ℕ) (base rounds num : ℕ) (acc : List ℕ)
    → digits_onto f base rounds num (map f acc) ≡ map f (digits_onto plain base rounds num acc)
unfolding digits_onto
digits_onto-map f base zero num acc = refl
digits_onto-map f base (suc rounds) num acc = elim (Bool-cases (num == 0)) [
  | inl z ↦ rw z refl
  | inr z ↦ rw (digits_onto, z) (digits_onto-map f base rounds (num / base) (num % base ∷ acc))
]

digits_onto-value :
    (base rounds num : ℕ) (acc : List ℕ)
    → 2 ≤ base
    → num < 2 ^ rounds
    → digits_value base 0 (digits_onto plain base rounds num acc) ≡ digits_value base num acc
unfolding digits_onto
digits_onto-value base zero num acc b h = let z : num ≡ 0 = omega arith in rw z refl
digits_onto-value base (suc rounds) num acc b h = elim (Bool-cases (num == 0)) [
  | inl z ↦ let e : num ≡ 0 = ground (arith, z) in rw e refl
  | inr z ↦
      rw (digits_onto, z)
        (digits_onto-value base rounds (num / base) (num % base ∷ acc) b
            (half_lem base num rounds b h)
          ∙ ap (λ (n : ℕ). digits_value base n acc) (div-add-mod' num base))
]

digits_onto-below :
    (base rounds num : ℕ) (acc : List ℕ)
    → 2 ≤ base
    → AllBelow base acc
    → AllBelow base (digits_onto plain base rounds num acc)
unfolding digits_onto
digits_onto-below base zero num acc b x = x
digits_onto-below base (suc rounds) num acc b x = elim (Bool-cases (num == 0)) [
  | inl z ↦ rw (digits_onto, z) x
  | inr z ↦
      rw (digits_onto, z)
        (digits_onto-below base rounds (num / base) (num % base ∷ acc) b
          (below_cons (mod-lt num (omega arith)) x))
]

-- The first digit is not 0 when there is a number left, or when it was not before.
digits_onto-Leads :
    (base rounds num : ℕ) (acc : List ℕ)
    → 2 ≤ base
    → num < 2 ^ rounds
    → (num ≡ 0 → Leads acc)
    → Leads (digits_onto plain base rounds num acc)
unfolding digits_onto
digits_onto-Leads base zero num acc b h x = x (omega arith)
digits_onto-Leads base (suc rounds) num acc b h x = elim (Bool-cases (num == 0)) [
  | inl z ↦ rw (digits_onto, z) (x (ground (arith, z)))
  | inr z ↦
      rw (digits_onto, z)
        (digits_onto-Leads base rounds (num / base) (num % base ∷ acc) b
          (half_lem base num rounds b h)
          (λ e. leads (λ w.
            let whole : num / base * base + num % base ≡ num = div-add-mod' num base in
            let z₀ : 0 * base ≡ 0 = omega arith in
            let none : num / base * base ≡ 0 = rw e z₀ in ground (arith, z, whole, none, w))))
]

-- In a base from 2 to 36 `itoa` leaves, for any 32-bit number, the capital glyphs of the digits of
-- the number, without leading zeros, and the NUL behind them; it returns how many they are, and
-- does not touch `errno`.
pub itoa_lem :
    (buffer num base : ℕ) (p : Printer)
    → 2 ≤ base
    → base ≤ 36
    → num < 2 ^ 32
    → (ds : List ℕ) × (m : Store) × IsNumeral base num ds
      × (itoa buffer num base p ≡ (some (length (map capitals ds)), record p { mem = m }))
      × IsText m buffer (map capitals ds)
itoa_lem buffer num base p lo hi h =
    let (m, e, x) = itoa-numeral buffer num base p lo hi h in
    elim (Bool-cases (num == 0)) [
      | inl z ↦
          let none : num ≡ 0 = ground (arith, z) in
          let s = numeral-zero capitals base num z in
          (
            0 ∷ [],
            m,
            record {
              below = below_cons (omega arith) below_nil;
              leading = leads_alone;
              stands_for = let z₀ : 0 * base + 0 ≡ 0 = omega arith in z₀ ∙ sym none;
            },
            rw s at e,
            rw s at x,
          )
      | inr z ↦
          let ds = digits_onto plain base 32 num [] in
          let s : numeral capitals base num ≡ map capitals ds =
            numeral-pos capitals base num z ∙ digits_onto-map capitals base 32 num [] in
          (
            ds,
            m,
            record {
              below = digits_onto-below base 32 num [] lo below_nil;
              leading = digits_onto-Leads base 32 num [] lo h (λ e. ground (arith, z, e));
              stands_for = digits_onto-value base 32 num [] lo h;
            },
            rw s at e,
            rw s at x,
          )
    ]
