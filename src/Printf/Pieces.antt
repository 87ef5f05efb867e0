-- ===== src/Printf/Pieces.antt =====
-- What the printing steps of `vprintf` show, for characters that stand in memory.
use missy_kernel.Base.{
  ℕ, zero, suc, ◌+◌, ◌-◌, ◌/◌, ◌%◌, ◌≤◌, ◌<◌, ◌≡◌, ◌≢◌, inl, inr, refl, ◌∙◌, sym, ap, arith, u32,
  sub32, Store, ltb, ◌==◌, ==_false_of_ne, Bool-cases, true, false, some, List, [], ◌∷◌, ◌++◌,
  length,
}
use missy_kernel.Strings.{char_int}
use missy_kernel.Strings.Text.{IsText, text_char}
use missy_kernel.Itoa.{upper}
use missy_kernel.Itoa.Glyphs.{capitals}
use missy_kernel.Itoa.Numeral.{numeral-capitals}
use missy_kernel.Itoa.Text.{numeral, digits_onto, numeral-zero, numeral-pos}
use missy_kernel.Display.{Display, display_write}
use missy_kernel.Printf.{int_max, eof, Stdio, putchar, print, print_counted, literal_length}
use native.Mathlib.Nat.{mod-lt}

-- The display after some bytes, one after the other.
abbrev pub show : List ℕ → Display → Display
show [] d = d
show (c ∷ cs) d = show cs (display_write (char_int c) d)

pub show-append : (xs ys : List ℕ) (d : Display) → show (xs ++ ys) d ≡ show ys (show xs d)
show-append [] ys d = refl
show-append (x ∷ xs) ys d = show-append xs ys (display_write (char_int x) d)

-- No byte of the list is the one that reads as EOF.
pub data NoEof : List ℕ → Type 0 where
  no_eof_nil : NoEof []
  no_eof_cons : {c : ℕ} {cs : List ℕ} → c ≢ 255 → NoEof cs → NoEof (c ∷ cs)

-- The bytes stand at `p`, and none is the one that reads as EOF.
pub data Stands (m : Store) : ℕ → List ℕ → Type 0 where
  stands_nil : {p : ℕ} → Stands m p []
  stands_cons :
      {p c : ℕ} {cs : List ℕ} → m p ≡ c → c ≢ 255 → Stands m (p + 1) cs → Stands m p (c ∷ cs)

pub IsText-Stands : {m : Store} (p : ℕ) (cs : List ℕ) → IsText m p cs → NoEof cs → Stands m p cs
IsText-Stands p [] x n = stands_nil
IsText-Stands p (c ∷ cs) (text_char at ne rest) (no_eof_cons n ns) =
    stands_cons at n (IsText-Stands (p + 1) cs rest ns)

digits_onto-NoEof :
    (base rounds num : ℕ) (acc : List ℕ)
    → 2 ≤ base
    → base ≤ 36
    → NoEof acc
    → NoEof (digits_onto upper base rounds num acc)
unfolding digits_onto
digits_onto-NoEof base zero num acc lo hi n = n
digits_onto-NoEof base (suc rounds) num acc lo hi n =
    let d : num % base < base = mod-lt num (omega arith) in
    let rest =
      digits_onto-NoEof base rounds (num / base) (upper (num % base) ∷ acc) lo hi
        (no_eof_cons (λ e. ground arith) n) in
    elim (Bool-cases (num == 0)) [
      | inl z ↦ rw (digits_onto, z) n
      | inr z ↦ rw (digits_onto, z) rest
    ]

letters-NoEof : (base num : ℕ) → 2 ≤ base → base ≤ 36 → NoEof (numeral upper base num)
letters-NoEof base num lo hi = elim (Bool-cases (num == 0)) [
  | inl z ↦ rw (numeral-zero upper base num z) (no_eof_cons (λ e. omega arith) no_eof_nil)
  | inr z ↦ rw (numeral-pos upper base num z) (digits_onto-NoEof base 32 num [] lo hi no_eof_nil)
]

pub numeral-NoEof : (base num : ℕ) → 2 ≤ base → base ≤ 36 → NoEof (numeral capitals base num)
numeral-NoEof base num lo hi =
    rw (sym (numeral-capitals base num lo hi)) (letters-NoEof base num lo hi)

print-Stands :
    (m : Store) (p : ℕ) (cs : List ℕ) (d : Display)
    → Stands m p cs
    → print m p (length cs) d ≡ (true, show cs d)
unfolding print putchar
print-Stands m p [] d x = refl
print-Stands m p (c ∷ cs) d (stands_cons at n rest) =
    let go : (char_int c == eof) ≡ false = ground arith in
    rw (at, go) (print-Stands m (p + 1) cs (display_write (char_int c) d) rest)

pub print_counted-Stands :
    (m : Store) (p written : ℕ) (cs : List ℕ) (s : Stdio)
    → Stands m p cs
    → written + length cs ≤ int_max
    → print_counted m p (length cs) written s
      ≡ (some (written + length cs), record s { display = show cs s.display })
unfolding print_counted
print_counted-Stands m p written cs s x h =
    let left : sub32 int_max written ≡ int_max - written = omega arith in
    let room : ltb (int_max - written) (length cs) ≡ false = ground arith in
    let count : u32 (written + length cs) ≡ written + length cs = omega arith in
    let e = print-Stands m p cs s.display x in rw (left, room, e, count) refl

-- From `p` on stand ordinary characters, up to a '%' or the end.
pub data IsRun (m : Store) : ℕ → List ℕ → Type 0 where
  run_end : {p : ℕ} → m p ≡ 0 → IsRun m p []
  run_percent : {p : ℕ} → m p ≡ 37 → IsRun m p []
  run_char :
      {p c : ℕ} {cs : List ℕ}
      → m p ≡ c
      → c ≢ 0
      → c ≢ 37
      → c ≢ 255
      → IsRun m (p + 1) cs
      → IsRun m p (c ∷ cs)

pub IsRun-Stands : {m : Store} (p : ℕ) (cs : List ℕ) → IsRun m p cs → Stands m p cs
IsRun-Stands p [] r = stands_nil
IsRun-Stands p (c ∷ cs) (run_char at z q n rest) = stands_cons at n (IsRun-Stands (p + 1) cs rest)

pub literal_length-IsRun :
    (fuel : ℕ) (m : Store) (fmt amount : ℕ) (cs : List ℕ)
    → IsRun m (fmt + amount) cs
    → length cs < fuel
    → literal_length fuel m fmt amount ≡ some (amount + length cs)
unfolding literal_length
literal_length-IsRun zero m fmt amount cs r f = absurd (omega arith)
literal_length-IsRun (suc fuel) m fmt amount [] (run_end z) f =
    let e : amount ≡ amount + 0 = omega arith in rw (literal_length, z) (ap (λ (k : ℕ). some k) e)
literal_length-IsRun (suc fuel) m fmt amount [] (run_percent z) f =
    let e : amount ≡ amount + 0 = omega arith in rw (literal_length, z) (ap (λ (k : ℕ). some k) e)
literal_length-IsRun (suc fuel) m fmt amount (c ∷ cs) (run_char at z q n rest) f =
    let e : amount + 1 + length cs ≡ amount + suc (length cs) = omega arith in
    let next : fmt + amount + 1 ≡ fmt + (amount + 1) = omega arith in
    rw (literal_length, at, ==_false_of_ne c 0 z, ==_false_of_ne c 37 q)
      (literal_length-IsRun fuel m fmt (amount + 1) cs (rw (sym next) rest) (omega arith)
        ∙ ap (λ (k : ℕ). some k) e)
