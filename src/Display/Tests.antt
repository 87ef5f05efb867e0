-- ===== src/Display/Tests.antt =====
-- display.c on a display whose cursor is in the last column of the last row but one.
use missy_kernel.Base.{◌+◌, ◌*◌, ◌≡◌, refl, arith, []}
use missy_kernel.Display.{
  Display, columns, display_write, update_blinky_cursor, increment_draw_location, scroll_if_below,
  put_character,
}
use missy_kernel.Display.Screen.{OnScreen, display_write-OnScreen}
use missy_kernel.Display.Write.{Printable, Written, display_write-Printable}

abbrev d0 : Display
d0 = record { vmem = λ a. a; x_loc = 79; y_loc = 23; color_attrib = 7; ports = [] }

abbrev corner : Display
corner = record { vmem = λ a. a; x_loc = 79; y_loc = 24; color_attrib = 7; ports = [] }

d0-OnScreen : OnScreen d0
d0-OnScreen = record { x = omega arith; y = omega arith }

corner-OnScreen : OnScreen corner
corner-OnScreen = record { x = omega arith; y = omega arith }

letter : Printable 65
letter = record {
  not_backspace = λ e. omega arith;
  not_tab = λ e. omega arith;
  not_line_feed = λ e. omega arith;
  not_return = λ e. omega arith;
}

-- A letter in the last column puts the cursor at the start of the next row.
wraps : (display_write 65 d0).y_loc * columns + (display_write 65 d0).x_loc ≡ 1920
unfolding display_write put_character increment_draw_location update_blinky_cursor scroll_if_below
wraps = refl

display_write-OnScreen_example : OnScreen (display_write 9 corner)
display_write-OnScreen_example = display_write-OnScreen 9 corner corner-OnScreen

display_write-Printable_example : Written 65 d0 (display_write 65 d0)
display_write-Printable_example = display_write-Printable 65 d0 letter d0-OnScreen (omega arith)
