-- ===== src/Display/Write.antt =====
-- What `display_write` and `display_clear` leave in video memory.
use missy_kernel.Base.{
  ℕ, ◌+◌, ◌*◌, ◌<◌, ◌≡◌, ◌≢◌, ◌∙◌, inl, inr, refl, arith, ltb, bit_or, u16, u8, ◌<<<◌, Bool-cases,
  lt→ltb, ==_false_of_ne, SameOutside,
}
use missy_kernel.Display.{
  Display, video_start, columns, rows, blank, poke, get_write_location, cursor_cell,
  scroll_if_below, update_blinky_cursor, increment_draw_location, put_character, display_write,
  display_clear, fill_cells,
}
use missy_kernel.Display.Scroll.{cell, screen_bytes, fill_cells-in, fill_cells-out}
use missy_kernel.Display.Screen.{OnScreen}

-- `c` is not one of the control characters that `display_write` treats specially.
pub record Printable (c : ℕ) : Type 0 where
  pub not_backspace : c ≢ 8
  pub not_tab : c ≢ 9
  pub not_line_feed : c ≢ 10
  pub not_return : c ≢ 13

-- `c` has been written at the cursor of `d`, and the cursor of `d'` stands in the next cell.
pub record Written (c : ℕ) (d d' : Display) : Type 0 where
  pub here : d'.vmem (cell d.y_loc d.x_loc) ≡ u16 (bit_or (d.color_attrib <<< 8) (u8 c))
  pub next : d'.y_loc * columns + d'.x_loc ≡ d.y_loc * columns + d.x_loc + 1
  pub cursor : d'.vmem (cell d'.y_loc d'.x_loc) ≡ cursor_cell d
  pub others :
      (a : ℕ) → a ≢ cell d.y_loc d.x_loc → a ≢ cell d'.y_loc d'.x_loc → d'.vmem a ≡ d.vmem a

-- What a character and then the cursor's mark in the next cell leave in memory.
put-Written :
    (c : ℕ) (d : Display) (x y : ℕ)
    → y * columns + x ≡ d.y_loc * columns + d.x_loc + 1
    → Written c d (
        update_blinky_cursor
          (record (poke (get_write_location d) (u16 (bit_or (d.color_attrib <<< 8) (u8 c))) d) {
            x_loc = x;
            y_loc = y;
          }))
unfolding update_blinky_cursor get_write_location cursor_cell
put-Written c d x y e = record {
  here = ground (arith, e);
  next = e;
  cursor = ground (arith, e);
  others = λ a h k. ground (arith, e, h, k);
}

advance_lem :
    (d : Display)
    → OnScreen d
    → d.y_loc * columns + d.x_loc + 1 < columns * rows
    → (x : ℕ) × (y : ℕ) × (y * columns + x ≡ d.y_loc * columns + d.x_loc + 1)
      × (increment_draw_location d ≡ update_blinky_cursor (record d { x_loc = x; y_loc = y }))
unfolding increment_draw_location scroll_if_below
advance_lem d h fits = elim (Bool-cases (ltb (u16 (d.x_loc + 1)) columns)) [
  | inl e ↦ (u16 (d.x_loc + 1), d.y_loc, ground (arith, h.x), rw (e, lt→ltb d.y_loc rows h.y))
  | inr e ↦ (
    0,
    u16 (d.y_loc + 1),
    ground (arith, e, h.x, h.y),
    rw (e, lt→ltb (u16 (d.y_loc + 1)) rows (ground (arith, e, h.x, h.y))),
  )
]

-- A printable character that does not fill the last cell of the screen is written at the
-- cursor in the display's colour, the cursor moves to the next cell, where its mark is drawn,
-- and no other memory changes.
pub display_write-Printable :
    (c : ℕ) (d : Display)
    → Printable c
    → OnScreen d
    → d.y_loc * columns + d.x_loc + 1 < columns * rows
    → Written c d (display_write c d)
unfolding display_write put_character
display_write-Printable c d p h fits =
    let d₁ = poke (get_write_location d) (u16 (bit_or (d.color_attrib <<< 8) (u8 c))) d in
    let (x, y, e, f) = advance_lem d₁ (record { x = h.x; y = h.y }) fits in
    let E : display_write c d ≡ update_blinky_cursor (record d₁ { x_loc = x; y_loc = y }) = rw (
      ==_false_of_ne c 8 p.not_backspace,
      ==_false_of_ne c 9 p.not_tab,
      ==_false_of_ne c 10 p.not_line_feed,
      ==_false_of_ne c 13 p.not_return,
      f,
    ) in
    rw E (put-Written c d x y e)

-- Clearing fills the screen with blanks in the display's colour, except for the cursor's mark
-- in the first cell, where the cursor goes, and changes no other memory.
pub record Cleared (d d' : Display) : Type 0 where
  pub blanked : (r c : ℕ) → r < rows → c < columns → 0 < r + c → d'.vmem (cell r c) ≡ blank d
  pub mark : d'.vmem (cell 0 0) ≡ cursor_cell d
  pub outside : SameOutside video_start screen_bytes d.vmem d'.vmem
  pub x : d'.x_loc ≡ 0
  pub y : d'.y_loc ≡ 0

-- Clearing fills the screen with blanks in the display's colour, except for the cursor's mark
-- in the first cell, where the cursor goes, and changes no other memory.
pub display_clear_lem : (d : Display) → Cleared d (display_clear d)
unfolding display_clear update_blinky_cursor get_write_location cursor_cell
display_clear_lem d = record {
  blanked = λ r c h k l.
      let E : (display_clear d).vmem (cell r c)
          ≡ fill_cells (columns * rows) 0 (blank d) d.vmem (cell r c) =
        ground (arith, l) in
      E
      ∙ fill_cells-in (columns * rows) 0 (blank d) d.vmem (r * columns + c) (omega arith)
          (omega arith);
  mark = ground arith;
  outside = λ b h.
      let E : (display_clear d).vmem b ≡ fill_cells (columns * rows) 0 (blank d) d.vmem b =
        ground (arith, h) in
      E ∙ fill_cells-out (columns * rows) 0 (blank d) d.vmem b (omega arith);
  x = refl;
  y = refl;
}
