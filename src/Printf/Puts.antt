-- ===== src/Printf/Puts.antt =====
-- What `puts` shows.
use missy_kernel.Base.{
  ℕ, zero, suc, ◌+◌, ◌-◌, ◌^◌, ◌<◌, ◌≡◌, refl, ◌∙◌, ap, arith, u32, Store, ==_false_of_ne, some,
  List, [], ◌∷◌, length,
}
use missy_kernel.Strings.{char_int}
use missy_kernel.Strings.Text.{IsText, text_end, text_char}
use missy_kernel.Display.{Display, display_write}
use missy_kernel.Printf.{putchar, puts_loop, puts}
use missy_kernel.Printf.Pieces.{show}

puts_loop-IsText :
    (fuel : ℕ) (m : Store) (p : ℕ) (cs : List ℕ) (d : Display)
    → IsText m p cs
    → length cs < fuel
    → puts_loop fuel m p d ≡ some (p + length cs, show cs d)
unfolding puts_loop putchar
puts_loop-IsText zero m p cs d x f = absurd (omega arith)
puts_loop-IsText (suc fuel) m p [] d (text_end z) f =
    let e : p ≡ p + 0 = omega arith in rw (puts_loop, z) (ap (λ (q : ℕ). some (q, d)) e)
puts_loop-IsText (suc fuel) m p (c ∷ cs) d (text_char at ne more) f =
    let e : p + 1 + length cs ≡ p + suc (length cs) = omega arith in
    rw (puts_loop, at, ==_false_of_ne c 0 ne, at)
      (puts_loop-IsText fuel m (p + 1) cs (display_write (char_int c) d) more (omega arith)
        ∙ ap (λ (q : ℕ). some (q, show cs (display_write (char_int c) d))) e)

-- For a text whose length with the new line is below 2^32, and more fuel than it is long, `puts`
-- shows the characters of the text and a new line, and returns one more than its length.
pub puts-IsText :
    (fuel : ℕ) (m : Store) (p : ℕ) (cs : List ℕ) (d : Display)
    → IsText m p cs
    → length cs < fuel
    → length cs + 1 < 2 ^ 32
    → puts fuel m p d ≡ some (length cs + 1, display_write 10 (show cs d))
unfolding puts putchar
puts-IsText fuel m p cs d x f low =
    let n : u32 (p + length cs - p + 1) ≡ length cs + 1 = omega arith in
    rw (puts, puts_loop-IsText fuel m p cs d x f, n) refl
