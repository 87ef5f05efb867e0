-- ===== src/Strings/Text.antt =====
-- A string in memory as the list of its characters.
use missy_kernel.Base.{
  ℕ, zero, suc, ◌+◌, ◌<◌, ◌≤◌, SameOutside, ◌≡◌, ◌≢◌, ◌⊎◌, refl, ◌∙◌, ap, arith, Store, write,
  write_other, List, [], ◌∷◌, length, ◌-◌, ◌==◌, ◌&&◌, not, Bool, true, ==_false_of_ne, false, some,
}
use missy_kernel.Strings.{skip_string, strlen, ki_strlen}

pub data IsText (m : Store) : ℕ → List ℕ → Type 0 where
  text_end : {p : ℕ} → m p ≡ 0 → IsText m p []
  text_char : {p c : ℕ} {cs : List ℕ} → m p ≡ c → c ≢ 0 → IsText m (p + 1) cs → IsText m p (c ∷ cs)

-- A write in front of a string, or behind its terminator, keeps it.
pub IsText-write :
    {m : Store} (cs : List ℕ) (p a v : ℕ)
    → IsText m p cs
    → (a < p) ⊎ (p + length cs < a)
    → IsText (write m a v) p cs
IsText-write {m} [] p a v (text_end z) o = text_end (write_other m a v p (λ e. omega arith) ∙ z)
IsText-write {m} (c ∷ cs) p a v (text_char at ne rest) o =
    text_char (write_other m a v p (λ e. omega arith) ∙ at) ne
      (IsText-write cs (p + 1) a v rest (omega arith))

skip_string-IsText :
    (fuel : ℕ) (m : Store) (p : ℕ) (cs : List ℕ)
    → IsText m p cs
    → length cs < fuel
    → skip_string fuel m p ≡ some (p + length cs + 1)
unfolding skip_string
skip_string-IsText zero m p cs t f = absurd (omega arith)
skip_string-IsText (suc fuel) m p [] (text_end z) f =
    let e : p + 1 ≡ p + 0 + 1 = omega arith in rw z (ap (λ (q : ℕ). some q) e)
skip_string-IsText (suc fuel) m p (c ∷ cs) (text_char at ne rest) f =
    let go : (c == 0) ≡ false = ==_false_of_ne c 0 ne in
    let e : p + 1 + length cs + 1 ≡ p + suc (length cs) + 1 = omega arith in
    rw (at, go) (skip_string-IsText fuel m (p + 1) cs rest (omega arith) ∙ ap (λ (q : ℕ). some q) e)

pub strlen-IsText :
    (fuel : ℕ) (m : Store) (p : ℕ) (cs : List ℕ)
    → IsText m p cs
    → length cs < fuel
    → (strlen fuel m p ≡ some (length cs)) × (ki_strlen fuel m p ≡ some (length cs))
unfolding strlen ki_strlen
strlen-IsText fuel m p cs t f =
    let e = skip_string-IsText fuel m p cs t f in
    let d : p + length cs + 1 - p - 1 ≡ length cs = omega arith in
    (rw (strlen, e, d) refl, rw (ki_strlen, e, d) refl)

pub IsText-SameOutside :
    (a n : ℕ) {m m' : Store} (cs : List ℕ) (p : ℕ)
    → SameOutside a n m m'
    → IsText m p cs
    → (p + length cs < a) ⊎ (a + n ≤ p)
    → IsText m' p cs
IsText-SameOutside a n [] p s (text_end z) o = text_end (s p (omega arith) ∙ z)
IsText-SameOutside a n (c ∷ cs) p s (text_char at ne more) o =
    text_char (s p (omega arith) ∙ at) ne (IsText-SameOutside a n cs (p + 1) s more (omega arith))

-- A test for a text in memory.
abbrev pub text_at : Store → ℕ → List ℕ → Bool
text_at m p [] = m p == 0
text_at m p (c ∷ cs) = (m p == c) && not (c == 0) && text_at m (p + 1) cs

pub text_at-IsText : {m : Store} (p : ℕ) (cs : List ℕ) → text_at m p cs ≡ true → IsText m p cs
text_at-IsText p [] h = text_end (ground (arith, h))
text_at-IsText p (c ∷ cs) h =
    text_char (ground (arith, h)) (λ e. ground (arith, e, h))
      (text_at-IsText (p + 1) cs (ground (arith, h)))

pub IsText_kept :
    {m m' : Store} (cs : List ℕ) (p : ℕ)
    → ((b : ℕ) → p ≤ b → b ≤ p + length cs → m' b ≡ m b)
    → IsText m p cs
    → IsText m' p cs
IsText_kept [] p same (text_end z) = text_end (same p (omega arith) (omega arith) ∙ z)
IsText_kept (c ∷ cs) p same (text_char at ne more) =
    text_char (same p (omega arith) (omega arith) ∙ at) ne
      (IsText_kept cs (p + 1) (λ b l h. same b (omega arith) (omega arith)) more)
