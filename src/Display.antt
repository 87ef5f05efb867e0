-- ===== src/Display.antt =====
-- kernel/arch/i386/display.c: the text display with its software cursor.
pub mod Screen
pub mod Scroll
pub mod Write
pub mod Colors
mod Tests
use missy_kernel.Base.{
  ℕ, zero, suc, ◌+◌, ◌-◌, ◌*◌, bit_or, bit_and, not32, Store, write, u8, u16, ltb, ◌==◌, ◌||◌,
  if◌then◌else◌, List, [], ◌∷◌, ◌<<<◌,
}

-- VIDEO_MEMORY_START, VIDEO_COLUMNS, VIDEO_ROWS
abbrev pub video_start : ℕ
video_start = 0xb8000

abbrev pub columns : ℕ
columns = 80

abbrev pub rows : ℕ
rows = 25

-- `x_loc`, `y_loc`, `color_attrib`, the 16-bit cells of memory by their byte address, and the
-- writes to I/O ports, port and byte, latest first.
pub record Display : Type 0 where
  pub vmem : Store
  pub x_loc : ℕ
  pub y_loc : ℕ
  pub color_attrib : ℕ
  pub ports : List (ℕ × ℕ)

abbrev pub poke : ℕ → ℕ → Display → Display
poke address v d = record d { vmem = write d.vmem address v }

-- `(uint16_t)(color_attrib<<8)|CLEAR_SCREEN_CHAR`
abbrev pub blank : Display → ℕ
blank d = bit_or (u16 (d.color_attrib <<< 8)) 0x20

unfoldable pub get_write_location : Display → ℕ
get_write_location d = video_start + (d.y_loc * columns * 2) + d.x_loc * 2

unfoldable pub cursor_cell : Display → ℕ
cursor_cell d = bit_or (u16 (bit_or d.color_attrib 0x80 <<< 8)) 0x5f

unfoldable pub update_blinky_cursor : Display → Display
unfolding get_write_location cursor_cell
update_blinky_cursor d = poke (get_write_location d) (cursor_cell d) d

-- `for (; i < copy_sz; i++) dest[i] = dest[i+VIDEO_COLUMNS]`, with `n` rounds left.
unfoldable pub copy_up : ℕ → ℕ → Store → Store
copy_up zero i m = m
copy_up (suc n) i m =
    copy_up n (i + 1) (write m (video_start + 2 * i) (m (video_start + 2 * (i + columns))))

-- `dest[i] = v` for `n` cells from `i` on.
unfoldable pub fill_cells : ℕ → ℕ → ℕ → Store → Store
fill_cells zero i v m = m
fill_cells (suc n) i v m = fill_cells n (i + 1) v (write m (video_start + 2 * i) v)

unfoldable pub scroll_display : Display → Display
scroll_display d =
    let copy_sz = columns * (rows - 1) in
    record d {
      vmem =
          fill_cells columns copy_sz (u16 (bit_or (d.color_attrib <<< 8) 0x20))
            (copy_up copy_sz 0 d.vmem);
      y_loc = rows - 1;
      x_loc = 0;
    }

-- The last part of `increment_draw_location` and of a new line.
unfoldable pub scroll_if_below : Display → Display
scroll_if_below d = if ltb d.y_loc rows then d else scroll_display d

unfoldable pub increment_draw_location : Display → Display
unfolding scroll_if_below update_blinky_cursor
increment_draw_location d =
    let x = u16 (d.x_loc + 1) in
    update_blinky_cursor (
      scroll_if_below (
        if ltb x columns
        then record d { x_loc = x }
        else record d { x_loc = 0; y_loc = u16 (d.y_loc + 1) }))

unfoldable pub backspace : ℕ → Display → Display
unfolding update_blinky_cursor
backspace write_loc d =
    let d₁ = poke (write_loc - 2) (blank d) (poke write_loc (blank d) d) in
    update_blinky_cursor (
      if d₁.x_loc == 0
      then (if ltb 0 d₁.y_loc then record d₁ { y_loc = d₁.y_loc - 1; x_loc = columns - 1 } else d₁)
      else record d₁ { x_loc = d₁.x_loc - 1 })

-- The loop of `tabulate`, with `n` rounds left.
unfoldable pub tabulate_loop : ℕ → ℕ → Display → Display
tabulate_loop zero write_loc d = d
tabulate_loop (suc n) write_loc d =
    tabulate_loop n (write_loc + 2) (increment_draw_location (poke write_loc (blank d) d))

unfoldable pub tabulate : ℕ → Display → Display
tabulate write_loc d = tabulate_loop 4 write_loc d

unfoldable pub new_line : ℕ → Display → Display
unfolding scroll_if_below update_blinky_cursor
new_line write_loc d =
    let d₁ = poke write_loc (blank d) d in
    update_blinky_cursor (scroll_if_below (record d₁ { x_loc = 0; y_loc = u16 (d.y_loc + 1) }))

unfoldable pub put_character : ℕ → ℕ → Display → Display
put_character write_loc c d =
    increment_draw_location (poke write_loc (u16 (bit_or (d.color_attrib <<< 8) (u8 c))) d)

unfoldable pub display_write : ℕ → Display → Display
display_write c d =
    let write_loc = get_write_location d in
    if c == 8
    then backspace write_loc d
    else if c == 9
    then tabulate write_loc d
    else if (c == 10) || (c == 13)
    then new_line write_loc d
    else put_character write_loc c d

unfoldable pub display_change_color : ℕ → Display → ℕ × Display
display_change_color new_color d = (d.color_attrib, record d { color_attrib = new_color })

unfoldable pub display_clear : Display → Display
unfolding update_blinky_cursor
display_clear d =
    update_blinky_cursor
      (record d { vmem = fill_cells (columns * rows) 0 (blank d) d.vmem; x_loc = 0; y_loc = 0 })

abbrev pub outportb : ℕ → ℕ → Display → Display
outportb port value d = record d { ports = (port, value) ∷ d.ports }

unfoldable pub disable_hardware_cursor : Display → Display
disable_hardware_cursor d = outportb 0x3d5 0x20 (outportb 0x3d4 0x0a d)

-- `preserve` and `attributes` are what the hardware answers on ports 0x3c0 and 0x3c1.
unfoldable pub enable_blinking_text : ℕ → ℕ → Display → Display
enable_blinking_text preserve attributes d =
    outportb 0x3c0 preserve (outportb 0x3c0 (u8 (bit_or attributes 0x08)) (outportb 0x3c0 0x10 d))

unfoldable pub disable_blinking_text : ℕ → ℕ → Display → Display
disable_blinking_text preserve attributes d =
    outportb 0x3c0 preserve
      (outportb 0x3c0 (u8 (bit_and attributes (not32 0x08))) (outportb 0x3c0 0x10 d))

unfoldable pub display_init : ℕ → ℕ → Display → Display
unfolding disable_hardware_cursor display_clear enable_blinking_text
display_init preserve attributes d =
    enable_blinking_text preserve attributes (display_clear (disable_hardware_cursor d))
