-- ===== src/Printf/Literals.antt =====
-- A format that stands in memory as the text of a string literal.
use missy_kernel.Base.{
  ℕ, suc, ◌+◌, ◌^◌, ◌<◌, ◌≡◌, refl, ◌∙◌, ap, arith, Store, ◌==◌, ◌&&◌, not, Bool, true, some, List,
  [], ◌∷◌, ◌++◌, length,
}
use missy_kernel.Strings.Text.{IsText, text_end, text_char}
use missy_kernel.Printf.Pieces.{IsRun, run_end, run_percent, run_char}
use missy_kernel.Printf.Format.{
  numeric, Item, run, number, IsFormat, format_end, format_run, format_number,
}

-- Ordinary characters alone.
abbrev pub plain : List ℕ → Bool
plain [] = true
plain (c ∷ cs) = not (c == 0) && not (c == 37) && not (c == 255) && plain cs

pub IsText-append :
    {m : Store} (cs ds : List ℕ) (p : ℕ) → IsText m p (cs ++ ds) → IsText m (p + length cs) ds
IsText-append [] ds p x = let e : p + 0 ≡ p = omega arith in rw e x
IsText-append (c ∷ cs) ds p (text_char at ne more) =
    let e : p + suc (length cs) ≡ p + 1 + length cs = omega arith in
    rw e (IsText-append cs ds (p + 1) more)

IsText-end : {m : Store} (p : ℕ) → IsText m p [] → m p ≡ 0
IsText-end p (text_end z) = z

append_nil : (cs : List ℕ) → cs ++ [] ≡ cs
append_nil [] = refl
append_nil (c ∷ cs) = ap (λ (l : List ℕ). c ∷ l) (append_nil cs)

-- The character behind a run.
data Stops : List ℕ → Type 0 where
  at_end : Stops []
  at_percent : {c : ℕ} {ds : List ℕ} → c ≡ 37 → Stops (c ∷ ds)

IsText-IsRun :
    {m : Store} (cs ds : List ℕ) (p : ℕ)
    → IsText m p (cs ++ ds)
    → Stops ds
    → plain cs ≡ true
    → IsRun m p cs
IsText-IsRun [] [] p (text_end z) s h = run_end z
IsText-IsRun [] (d ∷ ds) p (text_char at ne more) (at_percent e) h = run_percent (at ∙ e)
IsText-IsRun (c ∷ cs) ds p (text_char at ne more) s h =
    run_char at ne (λ e. ground (arith, e, h)) (λ e. ground (arith, e, h))
      (IsText-IsRun cs ds (p + 1) more s (ground (arith, h)))

module _ {m : Store} (args : ℕ → ℕ) (fmt i : ℕ) (c : ℕ) (cs : List ℕ) where
  run-IsFormat :
      (ds : List ℕ) (is : List Item)
      → IsText m fmt ((c ∷ cs) ++ ds)
      → Stops ds
      → plain (c ∷ cs) ≡ true
      → IsFormat m args (fmt + length (c ∷ cs)) i is
      → IsFormat m args fmt i (run c cs ∷ is)
  run-IsFormat ds is (text_char at ne more) s h rest =
      let e : fmt + suc (length cs) ≡ fmt + (1 + length cs) = omega arith in
      format_run at ne (λ e. ground (arith, e, h)) (λ e. ground (arith, e, h))
        (IsText-IsRun cs ds (fmt + 1) more s (ground (arith, h))) (rw e at rest)

  -- A literal of ordinary characters.
  pub plain-IsFormat :
      IsText m fmt (c ∷ cs) → plain (c ∷ cs) ≡ true → IsFormat m args fmt i (run c cs ∷ [])
  plain-IsFormat x h =
      let whole : IsText m fmt ((c ∷ cs) ++ []) = rw (append_nil (c ∷ cs)) x in
      let z : m (fmt + length (c ∷ cs)) ≡ 0 =
        IsText-end (fmt + length (c ∷ cs)) (IsText-append (c ∷ cs) [] fmt whole) in
      run-IsFormat [] [] whole at_end h (format_end z)

-- A literal of a directive for a number between ordinary characters.
pub number-IsFormat :
    {m : Store} (args : ℕ → ℕ) (fmt n c : ℕ) (cs : List ℕ) (d base c' : ℕ) (cs' : List ℕ)
    → IsText m fmt ((c ∷ cs) ++ 37 ∷ d ∷ c' ∷ cs')
    → plain (c ∷ cs) ≡ true
    → plain (c' ∷ cs') ≡ true
    → numeric d ≡ some base
    → args 0 ≡ n
    → n < 2 ^ 32
    → IsFormat m args fmt 0 (run c cs ∷ number base n ∷ run c' cs' ∷ [])
number-IsFormat {m} args fmt n c cs d base c' cs' x h h' b a low =
    run-IsFormat args fmt 0 c cs (37 ∷ d ∷ c' ∷ cs') _ x (at_percent refl) h
      (number_first (fmt + length (c ∷ cs)) (IsText-append (c ∷ cs) (37 ∷ d ∷ c' ∷ cs') fmt x))
  where
    number_first :
        (p : ℕ)
        → IsText m p (37 ∷ d ∷ c' ∷ cs')
        → IsFormat m args p 0 (number base n ∷ run c' cs' ∷ [])
    number_first p (text_char at ne (text_char at' ne' more)) =
        format_number at at' b a low (plain-IsFormat args (p + 1 + 1) 1 c' cs' more h')
