-- ===== src/Display/Colors.antt =====
-- kernel/include/kernel/display.h: the colours and the attribute byte that is made of two.
use missy_kernel.Base.{ℕ, ◌/◌, ◌%◌, ◌<◌, ◌≡◌, refl, arith, bit_or, bit_and, u8, ◌<<<◌}
use missy_kernel.Base.Masks.{bit_or_fields}

-- COLOR_FG_BLACK to COLOR_FG_WHITE. The first eight are also COLOR_BG_BLACK to COLOR_BG_GRAY.
pub data Color : Type 0 where
  black blue green cyan red purple brown gray : Color
  darkgray lightblue lightgreen lightcyan lightred lightpurple yellow white : Color

unfoldable pub color_fg : Color → ℕ
color_fg black = 0x0
color_fg blue = 0x1
color_fg green = 0x2
color_fg cyan = 0x3
color_fg red = 0x4
color_fg purple = 0x5
color_fg brown = 0x6
color_fg gray = 0x7
color_fg darkgray = 0x8
color_fg lightblue = 0x9
color_fg lightgreen = 0xa
color_fg lightcyan = 0xb
color_fg lightred = 0xc
color_fg lightpurple = 0xd
color_fg yellow = 0xe
color_fg white = 0xf

-- COLOR_BG_BLINK_BLACK and the others.
unfoldable pub color_bg_blink : Color → ℕ
unfolding color_fg
color_bg_blink c = bit_and (color_fg c) 0x8

unfoldable pub display_make_color : ℕ → ℕ → ℕ
display_make_color fg bg = u8 (bit_or (bg <<< 4) fg)

-- Two numbers of colours below 16 make a byte: the foreground is its low half and the background
-- its high half.
pub display_make_color_lem :
    (fg bg : ℕ)
    → fg < 16
    → bg < 16
    → (display_make_color fg bg < 256)
      × (display_make_color fg bg % 16 ≡ fg)
      × (display_make_color fg bg / 16 ≡ bg)
unfolding display_make_color
display_make_color_lem fg bg h h' = omega (arith, bit_or_fields 4 bg fg h)

-- The macros for a blinking background take the bit away that they are to set.
color_bg_blink-black : (c : Color) → color_fg c < 8 → color_bg_blink c ≡ color_fg black
unfolding color_bg_blink color_fg
color_bg_blink-black black h = refl
color_bg_blink-black blue h = refl
color_bg_blink-black green h = refl
color_bg_blink-black cyan h = refl
color_bg_blink-black red h = refl
color_bg_blink-black purple h = refl
color_bg_blink-black brown h = refl
color_bg_blink-black gray h = refl
color_bg_blink-black darkgray h = absurd (omega arith)
color_bg_blink-black lightblue h = absurd (omega arith)
color_bg_blink-black lightgreen h = absurd (omega arith)
color_bg_blink-black lightcyan h = absurd (omega arith)
color_bg_blink-black lightred h = absurd (omega arith)
color_bg_blink-black lightpurple h = absurd (omega arith)
color_bg_blink-black yellow h = absurd (omega arith)
color_bg_blink-black white h = absurd (omega arith)
