-- ===== src/Kterm/Format.antt =====
-- The items of a format of `ki_printf`, their rendering, and the bytes of a format in memory.
use missy_kernel.Base.{
  ℕ, suc, ◌+◌, ◌^◌, ◌<◌, ◌≡◌, ◌≢◌, arith, u8, Store, none, some, Option, List, [], ◌∷◌, ◌++◌, map,
  length,
}
use missy_kernel.Strings.{char_int}
use missy_kernel.Strings.Text.{IsText}
use missy_kernel.Itoa.Glyphs.{base_in, smalls}
use missy_kernel.Itoa.Text.{numeral}

-- The items of a format with their arguments.
pub data Item : Type 0 where
  plain : (c : ℕ) → Item
  number : (base n : ℕ) → Item
  text : (cs : List ℕ) → Item
  character : (n : ℕ) → Item
  verbatim : (c : ℕ) → Item

-- The characters that an item stands for, as patterns of `int`.
abbrev pub render : List Item → List ℕ
render [] = []
render (plain c ∷ is) = char_int c ∷ render is
render (number base n ∷ is) = map char_int (numeral smalls base n) ++ render is
render (text cs ∷ is) = map char_int cs ++ render is
render (character n ∷ is) = u8 n ∷ render is
render (verbatim c ∷ is) = char_int c ∷ render is

-- One round for an item, and the rounds for the longest string.
abbrev pub rounds : List Item → ℕ
rounds [] = 1
rounds (plain c ∷ is) = suc (rounds is)
rounds (number base n ∷ is) = suc (rounds is)
rounds (text cs ∷ is) = suc (length cs + rounds is)
rounds (character n ∷ is) = suc (rounds is)
rounds (verbatim c ∷ is) = suc (rounds is)

pub rounds-pos : (is : List Item) → 0 < rounds is
rounds-pos [] = omega arith
rounds-pos (plain c ∷ is) = omega arith
rounds-pos (number base n ∷ is) = omega arith
rounds-pos (text cs ∷ is) = omega arith
rounds-pos (character n ∷ is) = omega arith
rounds-pos (verbatim c ∷ is) = omega arith

-- The bases of the directives for numbers: %d and %i are decimal, %b is binary, %x and %X are
-- hexadecimal.
abbrev bases : List (ℕ × ℕ)
bases = (98, 2) ∷ (100, 10) ∷ (105, 10) ∷ (88, 16) ∷ (120, 16) ∷ []

abbrev pub numeric : ℕ → Option ℕ
numeric c = base_in bases c

-- From `str` on stands a format for the items, whose arguments are in `args` from `i` on.
pub data IsFormat (m : Store) (args : ℕ → ℕ) : ℕ → ℕ → List Item → Type 0 where
  format_end : {str i : ℕ} → m str ≡ 0 → IsFormat m args str i []
  format_plain :
      {str i c : ℕ} {is : List Item}
      → m str ≡ c
      → c ≢ 0
      → c ≢ 37
      → IsFormat m args (str + 1) i is
      → IsFormat m args str i (plain c ∷ is)
  format_number :
      {str i base n : ℕ} {is : List Item}
      → m str ≡ 37
      → numeric (m (str + 1)) ≡ some base
      → args i ≡ n
      → n < 2 ^ 32
      → IsFormat m args (str + 2) (i + 1) is
      → IsFormat m args str i (number base n ∷ is)
  format_text :
      {str i : ℕ} {cs : List ℕ} {is : List Item}
      → m str ≡ 37
      → m (str + 1) ≡ 115
      → IsText m (args i) cs
      → IsFormat m args (str + 2) (i + 1) is
      → IsFormat m args str i (text cs ∷ is)
  format_character :
      {str i n : ℕ} {is : List Item}
      → m str ≡ 37
      → m (str + 1) ≡ 99
      → args i ≡ n
      → IsFormat m args (str + 2) (i + 1) is
      → IsFormat m args str i (character n ∷ is)
  format_verbatim :
      {str i c : ℕ} {is : List Item}
      → m str ≡ 37
      → m (str + 1) ≡ c
      → c ≢ 0
      → numeric c ≡ none
      → c ≢ 115
      → c ≢ 99
      → IsFormat m args (str + 2) i is
      → IsFormat m args str i (verbatim c ∷ is)
