-- ===== src/Itoa/Print.antt =====
-- What `itoa_s` and `ki_make_ulong_string` print.
use missy_kernel.Base.{
  ℕ, suc, ◌+◌, ◌-◌, ◌^◌, ◌≤◌, ◌<◌, ◌≡◌, ◌≢◌, inl, inr, refl, ◌∙◌, sym, ap, arith, Store, write,
  write_self, write_other, ltb, ◌==◌, ◌||◌, Option, some, Bool-cases, ==_false_of_ne, false,
}
use missy_kernel.Strings.{memset, ki_memset}
use missy_kernel.Strings.Copy.{IsString, memset_lem, ki_memset-memset}
use missy_kernel.Itoa.{Printer, upper, lower, magnitude, move_string, itoa_s, ki_make_ulong_string}
use missy_kernel.Itoa.Digits.{
  value, value-zero, value-frame, value-suc, Digits, upper-IsLetters, lower-IsLetters,
  digit_loop_lem, move_string_lem,
}

-- At `p` stands the string of the number's digits, `n` characters long.
pub record Prints (base : ℕ) (m : Store) (p n num : ℕ) : Type 0 where
  pub string : IsString m p n
  pub spells : value base m p n ≡ num

Digits-IsString :
    {base num top n : ℕ} {m m' : Store}
    → Digits base num top n m m'
    → m top ≡ 0
    → IsString m' (top - n) n
Digits-IsString {top} {n} {m'} d z =
    let end : top - n + n ≡ top = omega (arith, d.fits) in
    record { end = ap m' end ∙ d.outside top (inr (omega arith)) ∙ z; inner = d.nonzero }

Prints-move :
    {base num top n : ℕ} {m m' : Store} (fuel dst : ℕ)
    → Digits base num top n m m'
    → m top ≡ 0
    → dst + n ≤ top
    → n < fuel
    → Prints base (move_string fuel m' dst (top - n)) dst n num
Prints-move {base} {num} {top} {n} {m} {m'} fuel dst d z h f =
    let src = Digits-IsString d z in
    let moved = λ (a : ℕ). move_string_lem fuel m' dst (top - n) n a src f (omega arith) in
    let at : (i : ℕ) → i < suc n → move_string fuel m' dst (top - n) (dst + i) ≡ m' (top - n + i) =
      λ i l. moved (dst + i) ∙ ground arith in
    record {
      string = record {
        end = at n (omega arith) ∙ src.end;
        inner = λ i l e. src.inner i l (sym (at i (omega arith)) ∙ e);
      };
      spells = value-frame base n _ m' dst (top - n) (λ i l. at i (omega arith)) ∙ d.spells;
    }

-- The string "0".
Prints-zero : (base : ℕ) (m : Store) (p : ℕ) → Prints base (write (write m p 48) (p + 1) 0) p 1 0
Prints-zero base m p = record {
  string = record { end = write_self (write m p 48) (p + 1) 0; inner = λ i h. ground arith };
  spells =
      let m₂ = write (write m p 48) (p + 1) 0 in
      let z : value base m₂ p 0 ≡ 0 = value-zero base m₂ p in
      let c : m₂ (p + 0) ≡ 48 = ground arith in value-suc base m₂ p 0 ∙ rw (z, c) (omega arith);
}

Digits-write :
    {base num top n : ℕ} {m m' : Store} (a v : ℕ)
    → Digits base num top n m m'
    → a < top - n
    → Digits base num top n (write m a v) (write m' a v)
Digits-write {base} {num} {top} {n} {m} {m'} a v d h = record {
  fits = d.fits;
  spells =
      value-frame base n (write m' a v) m' (top - n) (top - n)
        (λ i l. write_other m' a v (top - n + i) (λ e. omega arith))
      ∙ d.spells;
  nonzero = λ i l e. d.nonzero i l (sym (write_other m' a v (top - n + i) (λ q. omega arith)) ∙ e);
  outside = λ b o. ground (arith, d.outside b o);
}

-- For a number other than 0 whose magnitude is below 2^30, in a base from 2 to 36, `itoa_s`
-- prints a minus sign and then the digits of the magnitude, whichever sign the number has; the
-- result leaves the sign out of the count.
pub itoa_s_lem :
    (buffer num base : ℕ) (p : Printer)
    → 2 ≤ base
    → base ≤ 36
    → num ≢ 0
    → magnitude num < 2 ^ 30
    → (n : ℕ) × (m : Store) × (itoa_s buffer num base p ≡ (some n, record p { mem = m }))
      × Prints base m (buffer + 1) n (magnitude num)
      × (m buffer ≡ 45)
unfolding itoa_s
itoa_s_lem buffer num base p lo hi ne h =
    let good : (ltb 36 base || ltb base 2) ≡ false = ground arith in
    let pos : (num == 0) ≡ false = ==_false_of_ne num 0 ne in
    let m₀ = memset p.mem buffer 0 33 in
    let end : write m₀ buffer 45 (buffer + 32) ≡ 0 =
      write_other m₀ buffer 45 (buffer + 32) (λ e. omega arith)
      ∙ memset_lem p.mem buffer 0 33 (buffer + 32)
      ∙ ground arith in
    let (n, m', e, r, d) =
      digit_loop_lem upper 30 (magnitude num) base (buffer + 32) 0 m₀ (upper-IsLetters base hi) lo h
        (omega arith) in
    let w : 0 + n ≡ n = omega arith in
    let e₁ = ap (λ (q : Option (ℕ × ℕ) × Store). q.1) e in
    let d' = Digits-write buffer 45 d (omega (arith, r)) in
    (
      n,
      move_string 33 (write m' buffer 45) (buffer + 1) (buffer + 32 - n),
      rw (good, pos, e, e₁, w) refl,
      Prints-move 33 (buffer + 1) d' end (omega (arith, r)) (omega (arith, r)),
      move_string_lem 33 (write m' buffer 45) (buffer + 1) (buffer + 32 - n) n buffer
            (Digits-IsString d' end) (omega (arith, r)) (omega (arith, r))
          ∙ ground arith,
    )

-- In a base from 2 to 16 `ki_make_ulong_string` returns for every 32-bit number, and prints its
-- digits.
pub ki_make_ulong_string_lem :
    (buffer num base : ℕ) (p : Printer)
    → 2 ≤ base
    → base ≤ 16
    → num < 2 ^ 32
    → (n : ℕ) × (m : Store) × (ki_make_ulong_string buffer num base p ≡ some (record p { mem = m }))
      × Prints base m buffer n num
unfolding ki_make_ulong_string
ki_make_ulong_string_lem buffer num base p lo hi h =
    let good : (ltb 16 base || ltb base 2) ≡ false = ground arith in
    let m₀ = ki_memset p.mem buffer 0 65 in
    elim (Bool-cases (num == 0)) [
      | inl z ↦
          let zero_num : num ≡ 0 = ground (arith, z) in
          (
            1,
            write (write m₀ buffer 48) (buffer + 1) 0,
            rw z refl,
            rw zero_num (Prints-zero base m₀ buffer),
          )
      | inr pos ↦
          let end : m₀ (buffer + 64) ≡ 0 =
            ap (λ (m : Store). m (buffer + 64)) (ki_memset-memset p.mem buffer 0 0 65).0
            ∙ memset_lem p.mem buffer 0 65 (buffer + 64)
            ∙ ground arith in
          let (n, m', e, r, d) =
            digit_loop_lem lower 64 num base (buffer + 64) 0 m₀ (lower-IsLetters base hi) lo
              (omega arith) (omega arith) in
          let e₁ = ap (λ (q : Option (ℕ × ℕ) × Store). q.1) e in
          (
            n,
            move_string 65 m' buffer (buffer + 64 - n),
            rw (good, pos, e, e₁) refl,
            Prints-move 65 buffer d end (omega (arith, r)) (omega (arith, r)),
          )
    ]
