-- ===== src/Kterm/Tests.antt =====
-- kterm.c on the format "a%x%s%c%%" with the arguments 255, the string "ok" and a '!'.
use missy_kernel.Base.{ℕ, ◌≡◌, inl, refl, arith, Store, SameOutside, get_or, List, [], ◌∷◌, some}
use missy_kernel.Strings.Text.{IsText, text_end, text_char}
use missy_kernel.Kterm.{
  Kterm, video_memory_base, scroll_if_below, put_cell, put_blank, ki_putc, ki_update_cursor,
  ki_printf,
}
use missy_kernel.Kterm.Format.{
  Item, plain, number, text, character, verbatim, render, format_end, format_plain, format_number,
  format_text, format_character, format_verbatim,
}
use missy_kernel.Kterm.Print.{put_all, ki_printf-render}
use missy_kernel.Kterm.Screen.{OnScreen, ki_putc-OnScreen}

abbrev memory : Store
memory a = get_or (97 ∷ 37 ∷ 120 ∷ 37 ∷ 115 ∷ 37 ∷ 99 ∷ 37 ∷ 37 ∷ 0 ∷ 111 ∷ 107 ∷ 0 ∷ []) a 0

abbrev args : ℕ → ℕ
args i = get_or (255 ∷ 10 ∷ 33 ∷ []) i 0

abbrev t0 : Kterm
t0 = record { vmem = λ _. 0; cur_x = 0; cur_y = 0; color_attribute = 15; ports = [] }

abbrev items : List Item
items = plain 97 ∷ number 16 255 ∷ text (111 ∷ 107 ∷ []) ∷ character 33 ∷ verbatim 37 ∷ []

ok : IsText memory 10 (111 ∷ 107 ∷ [])
ok = text_char refl (λ e. omega arith) (text_char refl (λ e. omega arith) (text_end refl))

ki_printf_example :
    ki_printf (λ _. 0) 9 memory args 0 t0 ≡ some (ki_update_cursor (put_all (render items) t0))
ki_printf_example =
    ki_printf-render (λ _. 0) memory args 9 0 items t0
      (format_plain refl (λ e. omega arith) (λ e. omega arith)
        (format_number refl refl refl (omega arith) (
          format_text refl refl ok (
            format_character refl refl refl (
              format_verbatim refl refl (λ e. omega arith) refl (λ e. omega arith)
                (λ e. omega arith) (format_end refl))))))
      (omega arith)

ki_putc-OnScreen_example :
    OnScreen (ki_putc 97 t0) × SameOutside video_memory_base 4000 t0.vmem (ki_putc 97 t0).vmem
ki_putc-OnScreen_example =
    ki_putc-OnScreen 97 t0 (record { column = omega arith; row = omega arith })
      (inl (λ e. omega arith))

-- A backspace in the first column leaves the cursor at column -1.
backspace-first_column : (ki_putc 8 t0).cur_x ≡ 0xffff_ffff
unfolding ki_putc put_blank put_cell scroll_if_below
backspace-first_column = refl
