-- ===== src/Display/Scroll.antt =====
-- `scroll_display` moves every row up by one and blanks the last; `display_clear` blanks all.
use missy_kernel.Base.{
  ℕ, zero, suc, ◌+◌, ◌-◌, ◌*◌, ◌≤◌, ◌<◌, ◌≡◌, ◌⊎◌, inl, inr, refl, ◌∙◌, arith, ap, Store, write,
  SameOutside, ◌==◌, bit_or, u16, ◌<<<◌, Bool-cases,
}
use missy_kernel.Display.{Display, video_start, columns, rows, copy_up, fill_cells, scroll_display}

-- The cell in row `r` and column `c`.
abbrev pub cell : ℕ → ℕ → ℕ
cell r c = video_start + 2 * (r * columns + c)

-- The bytes of the screen.
abbrev pub screen_bytes : ℕ
screen_bytes = 2 * (columns * rows)

pub fill_cells-out :
    (n i v : ℕ) (m : Store) (a : ℕ)
    → (a < video_start + 2 * i) ⊎ (video_start + 2 * (i + n) ≤ a)
    → fill_cells n i v m a ≡ m a
unfolding fill_cells
fill_cells-out zero i v m a h = refl
fill_cells-out (suc n) i v m a h =
    fill_cells-out n (i + 1) v (write m (video_start + 2 * i) v) a (omega arith) ∙ ground arith

pub fill_cells-in :
    (n i v : ℕ) (m : Store) (j : ℕ)
    → i ≤ j
    → j < i + n
    → fill_cells n i v m (video_start + 2 * j) ≡ v
unfolding fill_cells
fill_cells-in zero i v m j h k = absurd (omega arith)
fill_cells-in (suc n) i v m j h k = elim (Bool-cases (j == i)) [
  | inl e ↦
      fill_cells-out n (i + 1) v (write m (video_start + 2 * i) v) (video_start + 2 * j)
        (inl (ground (arith, e)))
      ∙ ground (arith, e)
  | inr e ↦
      fill_cells-in n (i + 1) v (write m (video_start + 2 * i) v) j (ground (arith, e))
        (ground arith)
]

copy_up-out :
    (n i : ℕ) (m : Store) (a : ℕ)
    → (a < video_start + 2 * i) ⊎ (video_start + 2 * (i + n) ≤ a)
    → copy_up n i m a ≡ m a
unfolding copy_up
copy_up-out zero i m a h = refl
copy_up-out (suc n) i m a h =
    copy_up-out n (i + 1) (write m (video_start + 2 * i) (m (video_start + 2 * (i + columns)))) a
      (omega arith)
    ∙ ground arith

-- The cells that are still to be read have not been written.
copy_up-in :
    (n i : ℕ) (m : Store) (j : ℕ)
    → i ≤ j
    → j < i + n
    → copy_up n i m (video_start + 2 * j) ≡ m (video_start + 2 * (j + columns))
unfolding copy_up
copy_up-in zero i m j h k = absurd (omega arith)
copy_up-in (suc n) i m j h k = elim (Bool-cases (j == i)) [
  | inl e ↦
      copy_up-out n (i + 1) (write m (video_start + 2 * i) (m (video_start + 2 * (i + columns))))
        (video_start + 2 * j) (inl (ground (arith, e)))
      ∙ ground (arith, e)
  | inr e ↦
      copy_up-in n (i + 1) (write m (video_start + 2 * i) (m (video_start + 2 * (i + columns)))) j
        (ground (arith, e)) (ground arith)
      ∙ ground arith
]

-- Scrolling puts each row's cells one row higher, blanks the last row in the display's colour,
-- keeps all memory off the screen, and leaves the cursor at the start of the last row.
pub record Scrolled (d d' : Display) : Type 0 where
  pub moved : (r c : ℕ) → r < rows - 1 → c < columns → d'.vmem (cell r c) ≡ d.vmem (cell (r + 1) c)
  pub blanked :
      (c : ℕ) → c < columns → d'.vmem (cell (rows - 1) c) ≡ u16 (bit_or (d.color_attrib <<< 8) 0x20)
  pub outside : SameOutside video_start screen_bytes d.vmem d'.vmem
  pub x : d'.x_loc ≡ 0
  pub y : d'.y_loc ≡ rows - 1
  pub color : d'.color_attrib ≡ d.color_attrib

-- Scrolling puts each row's cells one row higher, blanks the last row in the display's colour,
-- keeps all memory off the screen, and leaves the cursor at the start of the last row.
pub scroll_display_lem : (d : Display) → Scrolled d (scroll_display d)
unfolding scroll_display
scroll_display_lem d = record {
  moved = λ r c h k.
      fill_cells-out columns (columns * (rows - 1)) _ _ (cell r c) (inl (omega arith))
      ∙ copy_up-in (columns * (rows - 1)) 0 d.vmem (r * columns + c) (omega arith) (omega arith)
      ∙ ap d.vmem (omega arith);
  blanked = λ c h. fill_cells-in columns (columns * (rows - 1)) _ _ _ (omega arith) (omega arith);
  outside = λ b h.
      fill_cells-out columns (columns * (rows - 1)) _ _ b (omega arith)
      ∙ copy_up-out (columns * (rows - 1)) 0 d.vmem b (omega arith);
  x = refl;
  y = refl;
  color = refl;
}
