-- ===== src/Kterm/Print.antt =====
-- What `ki_printf` prints for a format, against a rendering of the format's items.
use missy_kernel.Base.{
  ℕ, zero, suc, ◌+◌, ◌-◌, ◌^◌, ◌≤◌, ◌<◌, ◌≡◌, ◌≢◌, refl, ◌∙◌, sym, ap, arith, u8, u32, Store,
  lt→ltb, le→ltb_false, ◌==◌, ==_false_of_ne, true, false, none, some, List, [], ◌∷◌, ◌++◌, map,
  length,
}
use missy_kernel.Strings.{char_int, ki_strlen}
use missy_kernel.Strings.Text.{IsText, text_end, text_char, strlen-IsText}
use missy_kernel.Itoa.{Printer}
use missy_kernel.Itoa.Glyphs.{smalls}
use missy_kernel.Itoa.Numeral.{ki_make_ulong_string-numeral}
use missy_kernel.Itoa.Text.{numeral, length-numeral}
use missy_kernel.Kterm.{
  Kterm, ki_putc, ki_update_cursor, put_string, kernel_early_puts, kernel_early_putstr, put_digits,
  put_number, base_of, directive, printf_loop, ki_printf,
}
use missy_kernel.Kterm.Format.{
  Item, numeric, plain, number, text, character, verbatim, render, rounds, rounds-pos, IsFormat,
  format_end, format_plain, format_number, format_text, format_character, format_verbatim,
}

abbrev pub put_all : List ℕ → Kterm → Kterm
put_all [] t = t
put_all (c ∷ cs) t = put_all cs (ki_putc c t)

put_all-append : (xs ys : List ℕ) (t : Kterm) → put_all (xs ++ ys) t ≡ put_all ys (put_all xs t)
put_all-append [] ys t = refl
put_all-append (x ∷ xs) ys t = put_all-append xs ys (ki_putc x t)

put_string-IsText :
    (fuel : ℕ) (m : Store) (s : ℕ) (cs : List ℕ) (t : Kterm)
    → IsText m s cs
    → length cs < fuel
    → put_string fuel m s t ≡ some (s + length cs, put_all (map char_int cs) t)
unfolding put_string
put_string-IsText zero m s cs t x f = absurd (omega arith)
put_string-IsText (suc fuel) m s [] t (text_end z) f =
    let e : s ≡ s + 0 = omega arith in rw (put_string, z) (ap (λ (p : ℕ). some (p, t)) e)
put_string-IsText (suc fuel) m s (c ∷ cs) t (text_char at ne rest) f =
    let e : s + 1 + length cs ≡ s + suc (length cs) = omega arith in
    let t₁ = ki_putc (char_int c) t in
    let go : (m s == 0) ≡ false = rw at (==_false_of_ne c 0 ne) in
    rw (put_string, go, at)
      (put_string-IsText fuel m (s + 1) cs t₁ rest (omega arith)
        ∙ ap (λ (p : ℕ). some (p, put_all (map char_int cs) t₁)) e)

-- The rest of the array's string, from the index `i` on.
put_digits-IsText :
    (fuel : ℕ) (m : Store) (i : ℕ) (cs : List ℕ) (t : Kterm)
    → IsText m i cs
    → ki_strlen 65 m 0 ≡ some (i + length cs)
    → length cs < fuel
    → put_digits fuel m i t ≡ some (put_all (map char_int cs) t)
unfolding put_digits
put_digits-IsText zero m i cs t x e f = absurd (omega arith)
put_digits-IsText (suc fuel) m i [] t (text_end z) e f =
    rw (put_digits, e, le→ltb_false i (i + 0) (omega arith)) refl
put_digits-IsText (suc fuel) m i (c ∷ cs) t (text_char at ne rest) e f =
    let next : i + suc (length cs) ≡ i + 1 + length cs = omega arith in
    rw (put_digits, e, lt→ltb i (i + suc (length cs)) (omega arith), at)
      (put_digits-IsText fuel m (i + 1) cs (ki_putc (char_int c) t) rest
        (e ∙ ap (λ (k : ℕ). some k) next) (omega arith))

put_number-numeral :
    (stack : Store) (base argument : ℕ) (t : Kterm)
    → 2 ≤ base
    → base ≤ 16
    → argument < 2 ^ 32
    → put_number stack base argument t
      ≡ some (put_all (map char_int (numeral smalls base argument)) t)
unfolding put_number
put_number-numeral stack base argument t lo hi h =
    let ds = numeral smalls base argument in
    let p₀ : Printer = record { mem = stack; errno = 0 } in
    let (m, e, x) = ki_make_ulong_string-numeral 0 argument base p₀ lo hi h in
    let short = length-numeral smalls base argument in
    let len = (strlen-IsText 65 m 0 ds x (omega (arith, short))).1 in
    let len₀ : length ds ≡ 0 + length ds = omega arith in
    rw (put_number, e)
      (put_digits-IsText 65 m 0 ds t x (len ∙ ap (λ (k : ℕ). some k) len₀) (omega (arith, short)))

numeric-base_of : (c : ℕ) → numeric c ≡ base_of c
numeric-base_of c = ground arith

base_of-range : (c base : ℕ) → base_of c ≡ some base → (2 ≤ base) × (base ≤ 16)
base_of-range c base e = ground (arith, e)

module _ (stack : Store) (m : Store) (args : ℕ → ℕ) where
  percent-go :
      (fuel str i i' : ℕ) (t t' : Kterm)
      → m str ≡ 37
      → directive stack fuel m args (m (str + 1)) i t ≡ some (i', t')
      → printf_loop stack (suc fuel) m args str i t ≡ printf_loop stack fuel m args (str + 2) i' t'
  unfolding printf_loop
  percent-go fuel str i i' t t' p e =
      let nonzero : (m str == 0) ≡ false = rw p refl in
      let percent : (m str == 37) ≡ true = rw p refl in rw (printf_loop, nonzero, percent, e) refl

  directive-number :
      (fuel c base i : ℕ) (t : Kterm)
      → base_of c ≡ some base
      → args i < 2 ^ 32
      → directive stack fuel m args c i t
        ≡ some (i + 1, put_all (map char_int (numeral smalls base (args i))) t)
  unfolding directive
  directive-number fuel c base i t b h =
      let (lo, hi) = base_of-range c base b in
      rw (directive, b, put_number-numeral stack base (args i) t lo hi h) refl

  directive-text :
      (fuel i : ℕ) (cs : List ℕ) (t : Kterm)
      → IsText m (args i) cs
      → length cs < fuel
      → directive stack fuel m args 115 i t ≡ some (i + 1, put_all (map char_int cs) t)
  unfolding directive
  directive-text fuel i cs t x f = rw (directive, put_string-IsText fuel m (args i) cs t x f) refl

  directive-character :
      (fuel i : ℕ) (t : Kterm)
      → directive stack fuel m args 99 i t ≡ some (i + 1, ki_putc (u8 (args i)) t)
  unfolding directive
  directive-character fuel i t = refl

  directive-verbatim :
      (fuel c i : ℕ) (t : Kterm)
      → base_of c ≡ none
      → c ≢ 115
      → c ≢ 99
      → directive stack fuel m args c i t ≡ some (i, ki_putc (char_int c) t)
  unfolding directive
  directive-verbatim fuel c i t b ns nc =
      rw (directive, b, ==_false_of_ne c 115 ns, ==_false_of_ne c 99 nc) refl

  printf_loop-render :
      (fuel str i : ℕ) (is : List Item) (t : Kterm)
      → IsFormat m args str i is
      → rounds is ≤ fuel
      → printf_loop stack fuel m args str i t ≡ some (put_all (render is) t)
  unfolding printf_loop
  printf_loop-render zero str i [] t f h = absurd (omega arith)
  printf_loop-render zero str i (plain c ∷ is) t f h = absurd (omega arith)
  printf_loop-render zero str i (number base n ∷ is) t f h = absurd (omega arith)
  printf_loop-render zero str i (text cs ∷ is) t f h = absurd (omega arith)
  printf_loop-render zero str i (character n ∷ is) t f h = absurd (omega arith)
  printf_loop-render zero str i (verbatim c ∷ is) t f h = absurd (omega arith)
  printf_loop-render (suc fuel) str i [] t (format_end z) h = rw (printf_loop, z) refl
  printf_loop-render (suc fuel) str i (plain c ∷ is) t (format_plain at ne np rest) h =
      let nonzero : (m str == 0) ≡ false = rw at (==_false_of_ne c 0 ne) in
      let plain : (m str == 37) ≡ false = rw at (==_false_of_ne c 37 np) in
      rw (printf_loop, nonzero, plain, at)
        (printf_loop-render fuel (str + 1) i is (ki_putc (char_int c) t) rest (omega arith))
  printf_loop-render (suc fuel) str i (number base n ∷ is) t (format_number p b arg h' rest) h =
      let t' = put_all (map char_int (numeral smalls base n)) t in
      percent-go fuel str i (i + 1) t t' p (
        directive-number fuel (m (str + 1)) base i t (sym (numeric-base_of (m (str + 1))) ∙ b)
          (rw arg h')
        ∙ ap (λ (k : ℕ). some (i + 1, put_all (map char_int (numeral smalls base k)) t)) arg)
      ∙ printf_loop-render fuel (str + 2) (i + 1) is t' rest (omega arith)
      ∙ ap (λ (u : Kterm). some u)
          (sym (put_all-append (map char_int (numeral smalls base n)) (render is) t))
  printf_loop-render (suc fuel) str i (text cs ∷ is) t (format_text p d x rest) h =
      let t' = put_all (map char_int cs) t in
      percent-go fuel str i (i + 1) t t' p
        (rw d (directive-text fuel i cs t x (omega (arith, rounds-pos is))))
      ∙ printf_loop-render fuel (str + 2) (i + 1) is t' rest (omega arith)
      ∙ ap (λ (u : Kterm). some u) (sym (put_all-append (map char_int cs) (render is) t))
  printf_loop-render (suc fuel) str i (character n ∷ is) t (format_character p d arg rest) h =
      let t' = ki_putc (u8 n) t in
      percent-go fuel str i (i + 1) t t' p
        (rw d (directive-character fuel i t ∙ ap (λ (k : ℕ). some (i + 1, ki_putc (u8 k) t)) arg))
      ∙ printf_loop-render fuel (str + 2) (i + 1) is t' rest (omega arith)
  printf_loop-render (suc fuel) str i (verbatim c ∷ is) t (format_verbatim p d ne b ns nc rest) h =
      let t' = ki_putc (char_int c) t in
      percent-go fuel str i i t t' p
        (rw d (directive-verbatim fuel c i t (sym (numeric-base_of c) ∙ b) ns nc))
      ∙ printf_loop-render fuel (str + 2) i is t' rest (omega arith)

  -- For a format whose directives have their arguments, and fuel for a round an item and for its
  -- strings, `ki_printf` returns, and has put the characters of the items' rendering one after the
  -- other and then updated the cursor.
  pub ki_printf-render :
      (fuel str : ℕ) (is : List Item) (t : Kterm)
      → IsFormat m args str 0 is
      → rounds is ≤ fuel
      → ki_printf stack fuel m args str t ≡ some (ki_update_cursor (put_all (render is) t))
  unfolding ki_printf
  ki_printf-render fuel str is t f h = rw (ki_printf, printf_loop-render fuel str 0 is t f h) refl

-- With more fuel than the string is long, and a length below 2^32 - 1, `kernel_early_puts` puts the
-- string's characters and a new line, and `kernel_early_putstr` its characters, and both return one
-- more than its length.
pub kernel_early_puts_lem :
    (fuel : ℕ) (m : Store) (str : ℕ) (cs : List ℕ) (t : Kterm)
    → IsText m str cs
    → length cs < fuel
    → length cs + 1 < 2 ^ 32
    → (kernel_early_puts fuel m str t
        ≡ some (length cs + 1, ki_update_cursor (ki_putc 10 (put_all (map char_int cs) t))))
      × (kernel_early_putstr fuel m str t
          ≡ some (length cs + 1, ki_update_cursor (put_all (map char_int cs) t)))
unfolding kernel_early_puts kernel_early_putstr
kernel_early_puts_lem fuel m str cs t x f h =
    let e = put_string-IsText fuel m str cs t x f in
    let n : u32 (str + length cs - str + 1) ≡ length cs + 1 = omega arith in
    (rw (kernel_early_puts, e, n) refl, rw (kernel_early_putstr, e, n) refl)
