-- ===== src/Printf/Format.antt =====
-- The items of a format of `vprintf`, their rendering, and the bytes of a format in memory.
use missy_kernel.Base.{
  ℕ, suc, ◌+◌, ◌^◌, ◌<◌, ◌≡◌, ◌≢◌, u8, Store, none, some, Option, List, [], ◌∷◌, ◌++◌, length,
}
use missy_kernel.Strings.Text.{IsText}
use missy_kernel.Itoa.Glyphs.{base_in, capitals}
use missy_kernel.Itoa.Text.{numeral}
use missy_kernel.Printf.Pieces.{NoEof, IsRun}

-- The items of a format with their arguments. `run c cs` is a run of ordinary characters, which
-- begins with `c`; `remainder cs` is the format from an unknown directive on.
pub data Item : Type 0 where
  run : (c : ℕ) (cs : List ℕ) → Item
  number : (base n : ℕ) → Item
  text : (cs : List ℕ) → Item
  character : (n : ℕ) → Item
  remainder : (cs : List ℕ) → Item

-- The bytes that an item stands for.
abbrev pub bytes_of : Item → List ℕ
bytes_of (run c cs) = c ∷ cs
bytes_of (number base n) = numeral capitals base n
bytes_of (text cs) = cs
bytes_of (character n) = u8 n ∷ []
bytes_of (remainder cs) = cs

abbrev pub render : List Item → List ℕ
render [] = []
render (item ∷ is) = bytes_of item ++ render is

-- A round for an item, and the rounds for its characters.
abbrev pub rounds : List Item → ℕ
rounds [] = 1
rounds (item ∷ is) = suc (suc (length (bytes_of item)) + rounds is)

-- The bases of the directives for numbers: %d, %i and %u are decimal, %b is binary, %o is octal, %x
-- and %X are hexadecimal.
abbrev bases : List (ℕ × ℕ)
bases = (98, 2) ∷ (100, 10) ∷ (105, 10) ∷ (111, 8) ∷ (117, 10) ∷ (88, 16) ∷ (120, 16) ∷ []

abbrev pub numeric : ℕ → Option ℕ
numeric c = base_in bases c

-- From `fmt` on stands a format for the items, whose arguments are in `args` from `i` on.
pub data IsFormat (m : Store) (args : ℕ → ℕ) : ℕ → ℕ → List Item → Type 0 where
  format_end : {fmt i : ℕ} → m fmt ≡ 0 → IsFormat m args fmt i []
  format_run :
      {fmt i c : ℕ} {cs : List ℕ} {is : List Item}
      → m fmt ≡ c
      → c ≢ 0
      → c ≢ 37
      → c ≢ 255
      → IsRun m (fmt + 1) cs
      → IsFormat m args (fmt + (1 + length cs)) i is
      → IsFormat m args fmt i (run c cs ∷ is)
  format_percent :
      {fmt i : ℕ} {cs : List ℕ} {is : List Item}
      → m fmt ≡ 37
      → m (fmt + 1) ≡ 37
      → IsRun m (fmt + 1 + 1) cs
      → IsFormat m args (fmt + 1 + (1 + length cs)) i is
      → IsFormat m args fmt i (run 37 cs ∷ is)
  format_number :
      {fmt i c base n : ℕ} {is : List Item}
      → m fmt ≡ 37
      → m (fmt + 1) ≡ c
      → numeric c ≡ some base
      → args i ≡ n
      → n < 2 ^ 32
      → IsFormat m args (fmt + 1 + 1) (i + 1) is
      → IsFormat m args fmt i (number base n ∷ is)
  format_text :
      {fmt i : ℕ} {cs : List ℕ} {is : List Item}
      → m fmt ≡ 37
      → m (fmt + 1) ≡ 115
      → IsText m (args i) cs
      → NoEof cs
      → IsFormat m args (fmt + 1 + 1) (i + 1) is
      → IsFormat m args fmt i (text cs ∷ is)
  format_character :
      {fmt i n : ℕ} {is : List Item}
      → m fmt ≡ 37
      → m (fmt + 1) ≡ 99
      → args i ≡ n
      → u8 n ≢ 255
      → IsFormat m args (fmt + 1 + 1) (i + 1) is
      → IsFormat m args fmt i (character n ∷ is)
  format_remainder :
      {fmt i c : ℕ} {cs : List ℕ}
      → m fmt ≡ 37
      → m (fmt + 1) ≡ c
      → c ≢ 37
      → c ≢ 99
      → c ≢ 115
      → numeric c ≡ none
      → IsText m fmt cs
      → NoEof cs
      → IsFormat m args fmt i (remainder cs ∷ [])
