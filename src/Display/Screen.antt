-- ===== src/Display/Screen.antt =====
-- The cursor of display.c stays on the screen.
use missy_kernel.Base.{ℕ, zero, suc, ◌<◌, arith, true, false, ◌==◌, ◌||◌, if◌then◌else◌, Bool}
use missy_kernel.Display.{
  Display, columns, rows, blank, poke, get_write_location, scroll_display, scroll_if_below,
  update_blinky_cursor, increment_draw_location, backspace, tabulate_loop, tabulate, new_line,
  put_character, display_write,
}

-- The cursor is on the screen.
pub record OnScreen (d : Display) : Type 0 where
  pub x : d.x_loc < columns
  pub y : d.y_loc < rows

pub increment_draw_location-OnScreen :
    (d : Display) → OnScreen d → OnScreen (increment_draw_location d)
unfolding increment_draw_location update_blinky_cursor scroll_if_below scroll_display
increment_draw_location-OnScreen d h = record {
  x = ground (arith, h.x, h.y);
  y = ground (arith, h.x, h.y);
}

new_line-OnScreen : (write_loc : ℕ) (d : Display) → OnScreen d → OnScreen (new_line write_loc d)
unfolding new_line update_blinky_cursor scroll_if_below scroll_display
new_line-OnScreen write_loc d h = record {
  x = ground (arith, h.x, h.y);
  y = ground (arith, h.x, h.y);
}

backspace-OnScreen : (write_loc : ℕ) (d : Display) → OnScreen d → OnScreen (backspace write_loc d)
unfolding backspace update_blinky_cursor
backspace-OnScreen write_loc d h = record {
  x = ground (arith, h.x, h.y);
  y = ground (arith, h.x, h.y);
}

poke-OnScreen : (a v : ℕ) (d : Display) → OnScreen d → OnScreen (poke a v d)
poke-OnScreen a v d h = record { x = h.x; y = h.y }

tabulate_loop-OnScreen :
    (n write_loc : ℕ) (d : Display) → OnScreen d → OnScreen (tabulate_loop n write_loc d)
unfolding tabulate_loop
tabulate_loop-OnScreen zero write_loc d h = h
tabulate_loop-OnScreen (suc n) write_loc d h =
    tabulate_loop-OnScreen n _ _
      (increment_draw_location-OnScreen _ (poke-OnScreen write_loc (blank d) d h))

if-OnScreen :
    (b : Bool) (d₁ d₂ : Display) → OnScreen d₁ → OnScreen d₂ → OnScreen (if b then d₁ else d₂)
if-OnScreen true d₁ d₂ h₁ h₂ = h₁
if-OnScreen false d₁ d₂ h₁ h₂ = h₂

-- Whatever character is written, a cursor that was on the screen is on the screen afterwards.
pub display_write-OnScreen : (c : ℕ) (d : Display) → OnScreen d → OnScreen (display_write c d)
unfolding display_write tabulate put_character
display_write-OnScreen c d h =
    let write_loc = get_write_location d in
    if-OnScreen (c == 8) _ _ (backspace-OnScreen write_loc d h) (
      if-OnScreen (c == 9) _ _ (tabulate_loop-OnScreen 4 write_loc d h) (
        if-OnScreen ((c == 10) || (c == 13)) _ _ (new_line-OnScreen write_loc d h)
          (increment_draw_location-OnScreen _ (poke-OnScreen write_loc _ d h))))
