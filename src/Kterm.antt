-- ===== src/Kterm.antt =====
-- kernel/init/init/kterm.c: the early terminal and its `ki_printf`. A loop over a string takes
-- fuel, and a call is `none` when that runs out.
pub mod Format
pub mod Print
pub mod Screen
mod Tests
use missy_kernel.Base.{
  ℕ, zero, suc, ◌+◌, ◌-◌, ◌*◌, ◌^◌, bit_or, bit_and, u8, u16, u32, sub32, ltb, leb, ◌==◌, ◌&&◌,
  ◌||◌, if◌then◌else◌, Bool, true, false, Option, none, some, Store, write, List, [], ◌∷◌, ◌<<<◌,
  ◌>>>◌,
}
use missy_kernel.Strings.{char_int, ki_strlen}
use missy_kernel.Itoa.{Printer, maxchars, ki_make_ulong_string}

-- VIDEO_MEMORY_BASE, VIDEO_MAX_COLS, VIDEO_MAX_ROWS, VIDEO_COLOR_ATTRIBUTE and TAB_SIZE
abbrev pub video_memory_base : ℕ
video_memory_base = 0xb8000

abbrev pub video_max_cols : ℕ
video_max_cols = 80

abbrev pub video_max_rows : ℕ
video_max_rows = 25

abbrev pub video_color_attribute : ℕ
video_color_attribute = 0x0f

abbrev pub tab_size : ℕ
tab_size = 4

-- `_cur_x`, `_cur_y` and `color_attribute`, the 16-bit cells of memory by their byte address, and
-- the writes to I/O ports, port and byte, latest first. An `int` is its pattern of 32 bits.
pub record Kterm : Type 0 where
  pub vmem : Store
  pub cur_x : ℕ
  pub cur_y : ℕ
  pub color_attribute : ℕ
  pub ports : List (ℕ × ℕ)

-- `a > b` for an `int` and a small constant.
abbrev pub int_above : ℕ → ℕ → Bool
int_above a b = ltb b a && ltb a (2 ^ 31)

-- `dest[i] = dest[i+VIDEO_MAX_COLS]`, with `n` rounds left.
unfoldable pub move_up : ℕ → ℕ → Store → Store
move_up zero i m = m
move_up (suc n) i m =
    move_up n (i + 1)
      (write m (video_memory_base + 2 * i) (m (video_memory_base + 2 * (i + video_max_cols))))

-- `dest[i] = (VIDEO_COLOR_ATTRIBUTE << 8) | 0x20`, with `n` rounds left.
unfoldable pub blank_row : ℕ → ℕ → Store → Store
blank_row zero i m = m
blank_row (suc n) i m =
    blank_row n (i + 1)
      (write m (video_memory_base + 2 * i) (bit_or (video_color_attribute <<< 8) 0x20))

unfoldable pub kernel_early_scroll_display : Kterm → Kterm
kernel_early_scroll_display t =
    let copy_sz = video_max_cols * (video_max_rows - 1) in
    record t {
      vmem = blank_row video_max_cols copy_sz (move_up copy_sz 0 t.vmem);
      cur_y = video_max_rows - 1;
    }

-- The end of `ki_putc`.
unfoldable pub scroll_if_below : Kterm → Kterm
scroll_if_below t =
    if int_above t.cur_y (video_max_rows - 1) then kernel_early_scroll_display t else t

-- The last branch of `ki_putc`, for any character but a control character.
unfoldable pub put_cell : ℕ → Kterm → Kterm
put_cell c t =
    let video_ptr = u32 (video_memory_base + t.cur_y * video_max_cols * 2 + t.cur_x * 2) in
    let x = u32 (t.cur_x + 1) in
    let t₁ = record t {
      vmem = write t.vmem video_ptr (u16 (bit_or (u16 (t.color_attribute <<< 8)) c));
    } in
    if int_above x (video_max_cols - 1)
    then record t₁ { cur_x = 0; cur_y = u32 (t.cur_y + 1) }
    else record t₁ { cur_x = x }

-- `ki_putc(0x20)`, which the branches for a tab and a backspace call.
unfoldable pub put_blank : Kterm → Kterm
unfolding scroll_if_below put_cell
put_blank t = scroll_if_below (put_cell 0x20 t)

-- The loop for a tab, with `n` rounds left.
unfoldable pub put_blanks : ℕ → Kterm → Kterm
put_blanks zero t = t
put_blanks (suc n) t = put_blanks n (put_blank t)

-- `c` is the pattern of an `int`.
unfoldable pub ki_putc : ℕ → Kterm → Kterm
ki_putc c t = scroll_if_below (
    if c == 10
    then record t { cur_x = 0; cur_y = u32 (t.cur_y + 1) }
    else if c == 9
    then put_blanks tab_size t
    else if c == 8
    then (let t₁ = put_blank (record t { cur_x = sub32 t.cur_x 1 }) in
        record t₁ { cur_x = sub32 t₁.cur_x 1 })
    else put_cell c t)

abbrev pub outportb_low : ℕ → ℕ → Kterm → Kterm
outportb_low port value t = record t { ports = (port, value) ∷ t.ports }

unfoldable pub ki_update_cursor : Kterm → Kterm
ki_update_cursor t =
    let pos = u16 (t.cur_y * video_max_cols + t.cur_x) in
    outportb_low 0x3d5 (u8 (bit_and (pos >>> 8) 0xff)) (
      outportb_low 0x3d4 0x0e
        (outportb_low 0x3d5 (u8 (bit_and pos 0xff)) (outportb_low 0x3d4 0x0f t)))

-- `inportb_low` is what a port answers after the writes before.
unfoldable pub kernel_early_enable_cursor : (List (ℕ × ℕ) → ℕ → ℕ) → ℕ → ℕ → Kterm → Kterm
kernel_early_enable_cursor inportb_low cursor_start cursor_end t =
    let t₁ = outportb_low 0x3d4 0x0a t in
    let t₂ =
      outportb_low 0x3d5 (u8 (bit_or (inportb_low t₁.ports (bit_and 0x3d5 0xc0)) cursor_start))
        t₁ in
    let t₃ = outportb_low 0x3d4 0x0b t₂ in
    outportb_low 0x3d5 (u8 (bit_or (inportb_low t₃.ports (bit_and 0x3d5 0xe0)) cursor_end)) t₃

unfoldable pub kernel_early_set_color_attr : ℕ → Kterm → ℕ × Kterm
kernel_early_set_color_attr color t = (t.color_attribute, record t { color_attribute = color })

-- `while (*s) ki_putc(*s++)`: the pointer at the terminator, and the terminal.
unfoldable pub put_string : ℕ → Store → ℕ → Kterm → Option (ℕ × Kterm)
put_string zero m s t = none
put_string (suc fuel) m s t = elim (m s == 0) [
  | true ↦ some (s, t)
  | false ↦ put_string fuel m (s + 1) (ki_putc (char_int (m s)) t)
]

unfoldable pub kernel_early_puts : ℕ → Store → ℕ → Kterm → Option (ℕ × Kterm)
kernel_early_puts fuel m str t = elim (put_string fuel m str t) [
  | none ↦ none
  | some (s, t') ↦ some (u32 (s - str + 1), ki_update_cursor (ki_putc 10 t'))
]

unfoldable pub kernel_early_putstr : ℕ → Store → ℕ → Kterm → Option (ℕ × Kterm)
kernel_early_putstr fuel m str t = elim (put_string fuel m str t) [
  | none ↦ none
  | some (s, t') ↦ some (u32 (s - str + 1), ki_update_cursor t')
]

-- `for (i = 0; i < ki_strlen(num_str); i++) ki_putc(num_str[i])` from `i` on, where `num_str` is
-- at 0. The string is no longer than its array.
unfoldable pub put_digits : ℕ → Store → ℕ → Kterm → Option Kterm
put_digits zero num_str i t = none
put_digits (suc fuel) num_str i t = elim (ki_strlen maxchars num_str 0) [
  | none ↦ none
  | some n ↦ elim (ltb i n) [
    | true ↦ put_digits fuel num_str (i + 1) (ki_putc (char_int (num_str i)) t)
    | false ↦ some t
  ]
]

-- A number in a base. `stack` is what stands in the array before.
unfoldable pub put_number : Store → ℕ → ℕ → Kterm → Option Kterm
put_number stack base argument t =
    elim (ki_make_ulong_string 0 argument base (record { mem = stack; errno = 0 })) [
      | none ↦ none
      | some p ↦ put_digits maxchars p.mem 0 t
    ]

-- The base of a directive for a number.
abbrev pub base_of : ℕ → Option ℕ
base_of c =
    if (c == 100) || (c == 105)
    then some 10
    else if c == 98
    then some 2
    else if (c == 88) || (c == 120)
    then some 16
    else none

-- The directive `c` behind a '%': the number of words of `args` read so far, and the terminal.
-- `args` are the words on the stack behind the format.
unfoldable pub directive : Store → ℕ → Store → (ℕ → ℕ) → ℕ → ℕ → Kterm → Option (ℕ × Kterm)
directive stack fuel m args c i t = elim (base_of c) [
  | some base ↦ elim (put_number stack base (args i) t) [ none ↦ none | some t' ↦ some (i + 1, t') ]
  | none ↦ elim (c == 115) [
    | true ↦ elim (put_string fuel m (args i) t) [ none ↦ none | some (_, t') ↦ some (i + 1, t') ]
    | false ↦ elim (c == 99) [
      | true ↦ some (i + 1, ki_putc (u8 (args i)) t)
      | false ↦ some (i, ki_putc (char_int c) t)
    ]
  ]
]

-- The loop over the format from `str` on.
unfoldable pub printf_loop : Store → ℕ → Store → (ℕ → ℕ) → ℕ → ℕ → Kterm → Option Kterm
printf_loop stack zero m args str i t = none
printf_loop stack (suc fuel) m args str i t = elim (m str == 0) [
  | true ↦ some t
  | false ↦ elim (m str == 37) [
    | true ↦ elim (directive stack fuel m args (m (str + 1)) i t) [
      | none ↦ none
      | some (i', t') ↦ printf_loop stack fuel m args (str + 2) i' t'
    ]
    | false ↦ printf_loop stack fuel m args (str + 1) i (ki_putc (char_int (m str)) t)
  ]
]

unfoldable pub ki_printf : Store → ℕ → Store → (ℕ → ℕ) → ℕ → Kterm → Option Kterm
ki_printf stack fuel m args str t = elim (printf_loop stack fuel m args str 0 t) [
  | none ↦ none
  | some t' ↦ some (ki_update_cursor t')
]
