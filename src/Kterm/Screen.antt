-- ===== src/Kterm/Screen.antt =====
-- The cursor of the early terminal stays on the screen, and no other memory is written.
use missy_kernel.Base.{
  ℕ, zero, suc, ◌+◌, ◌-◌, ◌*◌, ◌≤◌, ◌<◌, ◌≡◌, ◌≢◌, ◌⊎◌, inl, inr, refl, ◌∙◌, arith, u32, sub32,
  Store, write, write_other, SameOutside, ◌==◌, Bool-cases, false,
}
use missy_kernel.Kterm.{
  Kterm, video_memory_base, int_above, move_up, blank_row, kernel_early_scroll_display,
  scroll_if_below, put_cell, put_blank, put_blanks, ki_putc,
}

pub record OnScreen (t : Kterm) : Type 0 where
  pub column : t.cur_x < 80
  pub row : t.cur_y < 25

-- A cursor above the limit, and the memory off the screen as it was.
record Stays (limit : ℕ) (t t' : Kterm) : Type 0 where
  column : t'.cur_x < 80
  row : t'.cur_y < limit
  same : SameOutside video_memory_base 4000 t.vmem t'.vmem

move_up-same :
    (n i : ℕ) (m : Store) → i + n ≤ 2000 → SameOutside video_memory_base 4000 m (move_up n i m)
unfolding move_up
move_up-same zero i m h a o = refl
move_up-same (suc n) i m h a o = move_up-same n (i + 1) _ (omega arith) a o ∙ ground arith

blank_row-same :
    (n i : ℕ) (m : Store) → i + n ≤ 2000 → SameOutside video_memory_base 4000 m (blank_row n i m)
unfolding blank_row
blank_row-same zero i m h a o = refl
blank_row-same (suc n) i m h a o = blank_row-same n (i + 1) _ (omega arith) a o ∙ ground arith

scroll-Stays : {t t' : Kterm} → Stays 26 t t' → Stays 25 t (kernel_early_scroll_display t')
unfolding kernel_early_scroll_display
scroll-Stays {t} {t'} s = record {
  column = s.column;
  row = omega arith;
  same = λ a o.
      blank_row-same 80 1920 (move_up 1920 0 t'.vmem) (omega arith) a o
      ∙ move_up-same 1920 0 t'.vmem (omega arith) a o
      ∙ s.same a o;
}

scroll_if_below-Stays : {t t' : Kterm} → Stays 26 t t' → Stays 25 t (scroll_if_below t')
unfolding scroll_if_below
scroll_if_below-Stays {t} {t'} s = elim (Bool-cases (int_above t'.cur_y 24)) [
  | inl e ↦ rw e (scroll-Stays s)
  | inr e ↦ rw e (record { column = s.column; row = ground (arith, e, s.row); same = s.same })
]

put_cell-Stays : (c : ℕ) {t t' : Kterm} → Stays 25 t t' → Stays 26 t (put_cell c t')
unfolding put_cell
put_cell-Stays c {t} {t'} s =
    let at : u32 (video_memory_base + t'.cur_y * 80 * 2 + t'.cur_x * 2)
        ≡ video_memory_base + t'.cur_y * 80 * 2 + t'.cur_x * 2 =
      omega (arith, s.column, s.row) in
    let frame = λ (v a : ℕ) (o : (a < video_memory_base) ⊎ (video_memory_base + 4000 ≤ a)).
      let w : write t'.vmem (video_memory_base + t'.cur_y * 80 * 2 + t'.cur_x * 2) v a ≡ t'.vmem a =
        write_other t'.vmem (video_memory_base + t'.cur_y * 80 * 2 + t'.cur_x * 2) v a
          (λ e. omega (arith, s.column, s.row)) in
      w ∙ s.same a o in
    let x : u32 (t'.cur_x + 1) ≡ t'.cur_x + 1 = omega (arith, s.column) in
    let y : u32 (t'.cur_y + 1) ≡ t'.cur_y + 1 = omega (arith, s.row) in
    elim (Bool-cases (int_above (t'.cur_x + 1) 79)) [
      | inl e ↦
          rw (at, x, e, y)
            (record { column = omega arith; row = omega (arith, s.row); same = λ a o. frame _ a o })
      | inr e ↦
          rw (at, x, e)
            (record {
              column = ground (arith, e, s.column);
              row = omega (arith, s.row);
              same = λ a o. frame _ a o;
            })
    ]

put_blank-Stays : {t t' : Kterm} → Stays 25 t t' → Stays 25 t (put_blank t')
unfolding put_blank
put_blank-Stays s = scroll_if_below-Stays (put_cell-Stays 0x20 s)

put_blanks-Stays : (n : ℕ) {t t' : Kterm} → Stays 25 t t' → Stays 25 t (put_blanks n t')
unfolding put_blanks
put_blanks-Stays zero s = s
put_blanks-Stays (suc n) s = put_blanks-Stays n (put_blank-Stays s)

relax : {t t' : Kterm} → Stays 25 t t' → Stays 26 t t'
relax s = record { column = s.column; row = omega (arith, s.row); same = s.same }

OnScreen-Stays : {t : Kterm} → OnScreen t → Stays 25 t t
OnScreen-Stays o = record { column = o.column; row = o.row; same = λ a h. refl }

scroll_if_below-cur_x : (t : Kterm) → (scroll_if_below t).cur_x ≡ t.cur_x
unfolding scroll_if_below kernel_early_scroll_display
scroll_if_below-cur_x t = elim (Bool-cases (int_above t.cur_y 24)) [
  | inl e ↦ rw e refl
  | inr e ↦ rw e refl
]

put_blank-cur_x : (t : Kterm) → t.cur_x < 79 → (put_blank t).cur_x ≡ t.cur_x + 1
unfolding put_blank put_cell
put_blank-cur_x t h =
    let x : u32 (t.cur_x + 1) ≡ t.cur_x + 1 = omega arith in
    let stay : int_above (t.cur_x + 1) 79 ≡ false = ground arith in
    scroll_if_below-cur_x (put_cell 0x20 t) ∙ rw (x, stay) refl

-- A character keeps a cursor on the screen there, and changes no memory off the screen; so does a
-- backspace behind the first column of a row.
pub ki_putc-OnScreen :
    (c : ℕ) (t : Kterm)
    → OnScreen t
    → (c ≢ 8) ⊎ (0 < t.cur_x)
    → OnScreen (ki_putc c t) × SameOutside video_memory_base 4000 t.vmem (ki_putc c t).vmem
unfolding ki_putc
ki_putc-OnScreen c t o b = let s = stays in (record { column = s.column; row = s.row }, s.same)
  where
    new_line : Stays 26 t (record t { cur_x = 0; cur_y = u32 (t.cur_y + 1) })
    new_line = record { column = omega arith; row = omega (arith, o.row); same = λ a h. refl }

    back :
        0 < t.cur_x
        → Stays 26 t (
            let t₁ = put_blank (record t { cur_x = sub32 t.cur_x 1 }) in
            record t₁ { cur_x = sub32 t₁.cur_x 1 })
    back p =
        let less : sub32 t.cur_x 1 ≡ t.cur_x - 1 = omega (arith, o.column) in
        let t₀ = record t { cur_x = t.cur_x - 1 } in
        let s : Stays 25 t (put_blank t₀) =
          put_blank-Stays
            (record { column = omega (arith, o.column); row = o.row; same = λ a h. refl }) in
        let x = put_blank-cur_x t₀ (omega (arith, o.column)) in
        rw less (record {
          column = rw x (omega (arith, o.column));
          row = omega (arith, s.row);
          same = s.same;
        })

    stays : Stays 25 t (ki_putc c t)
    stays = elim (Bool-cases (c == 10)) [
      | inl e ↦ rw (ki_putc, e) (scroll_if_below-Stays new_line)
      | inr e ↦ elim (Bool-cases (c == 9)) [
        | inl f ↦
            rw (ki_putc, e, f)
              (scroll_if_below-Stays (relax (put_blanks-Stays 4 (OnScreen-Stays o))))
        | inr f ↦ elim (Bool-cases (c == 8)) [
          | inl g ↦ rw (ki_putc, e, f, g) (scroll_if_below-Stays (back (ground (arith, b, g))))
          | inr g ↦
              rw (ki_putc, e, f, g) (scroll_if_below-Stays (put_cell-Stays c (OnScreen-Stays o)))
        ]
      ]
    ]
