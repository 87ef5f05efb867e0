-- ===== src/Itoa/Glyphs.antt =====
-- The glyphs of digits, as a table that does not depend on the code's.
use missy_kernel.Base.{
  ℕ, zero, suc, ◌<◌, ◌≡◌, inl, inr, ap, arith, get_or, ◌==◌, ◌&&◌, Bool, Bool-cases, true, none,
  some, Option, if◌then◌else◌, List, [], ◌∷◌, refl, sym, ◌∙◌,
}
use missy_kernel.Itoa.{upper, lower}

-- "0123456789ABCDEFGHIJKLMNOPQRSTUVWXYZ"
abbrev capital_glyphs : List ℕ
capital_glyphs =
    48 ∷ 49 ∷ 50 ∷ 51 ∷ 52 ∷ 53 ∷ 54 ∷ 55 ∷ 56 ∷ 57 ∷ 65 ∷ 66 ∷ 67 ∷ 68 ∷ 69 ∷ 70 ∷ 71 ∷ 72 ∷ 73
    ∷ 74 ∷ 75 ∷ 76 ∷ 77 ∷ 78 ∷ 79 ∷ 80 ∷ 81 ∷ 82 ∷ 83 ∷ 84 ∷ 85 ∷ 86 ∷ 87 ∷ 88 ∷ 89 ∷ 90 ∷ []

-- "0123456789abcdef"
abbrev small_glyphs : List ℕ
small_glyphs = 48 ∷ 49 ∷ 50 ∷ 51 ∷ 52 ∷ 53 ∷ 54 ∷ 55 ∷ 56 ∷ 57 ∷ 97 ∷ 98 ∷ 99 ∷ 100 ∷ 101 ∷ 102 ∷ []

abbrev pub capitals : ℕ → ℕ
capitals d = get_or capital_glyphs d 0

abbrev pub smalls : ℕ → ℕ
smalls d = get_or small_glyphs d 0

abbrev agree : (ℕ → ℕ) → (ℕ → ℕ) → ℕ → Bool
agree f g zero = true
agree f g (suc n) = (f n == g n) && agree f g n

agree-eq : (f g : ℕ → ℕ) (n d : ℕ) → agree f g n ≡ true → d < n → f d ≡ g d
agree-eq f g zero d h l = absurd (omega arith)
agree-eq f g (suc n) d h l = elim (Bool-cases (d == n)) [
  | inl y ↦
      let e : d ≡ n = ground (arith, y) in
      let at : f n ≡ g n = ground (arith, h) in ap f e ∙ at ∙ ap g (sym e)
  | inr y ↦ agree-eq f g n d (ground (arith, h)) (ground (arith, l, y))
]

pub upper-capitals : (d : ℕ) → d < 36 → upper d ≡ capitals d
upper-capitals d h = agree-eq upper capitals 36 d refl h

pub lower-smalls : (d : ℕ) → d < 16 → lower d ≡ smalls d
lower-smalls d h = agree-eq lower smalls 16 d refl h

-- The base of a directive, in a table of directives with their bases.
abbrev pub base_in : List (ℕ × ℕ) → ℕ → Option ℕ
base_in [] c = none
base_in ((d, base) ∷ more) c = if c == d then some base else base_in more c
