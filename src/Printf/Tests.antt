-- ===== src/Printf/Tests.antt =====
-- vprintf.c on the format "a%d%%%s" with the arguments 42 and the string "ok".
use missy_kernel.Base.{ℕ, ◌≡◌, refl, arith, Store, get_or, List, [], ◌∷◌, false, some}
use missy_kernel.Strings.Text.{IsText, text_end, text_char}
use missy_kernel.Itoa.Text.{numeral}
use missy_kernel.Display.{Display}
use missy_kernel.Printf.{Stdio, putchar, print, vprintf, printf}
use missy_kernel.Printf.Pieces.{show, no_eof_nil, no_eof_cons, run_percent}
use missy_kernel.Printf.Format.{
  Item, run, number, text, format_end, format_run, format_percent, format_number, format_text,
}
use missy_kernel.Printf.Render.{vprintf-render}

abbrev memory : Store
memory a = get_or (97 ∷ 37 ∷ 100 ∷ 37 ∷ 37 ∷ 37 ∷ 115 ∷ 0 ∷ 111 ∷ 107 ∷ 0 ∷ []) a 0

abbrev args : ℕ → ℕ
args i = get_or (42 ∷ 8 ∷ []) i 0

abbrev s0 : Stdio
s0 = record {
  display = record { vmem = λ _. 0; x_loc = 0; y_loc = 0; color_attrib = 15; ports = [] };
  errno = 0;
}

abbrev items : List Item
items = run 97 [] ∷ number 10 42 ∷ run 37 [] ∷ text (111 ∷ 107 ∷ []) ∷ []

ok : IsText memory 8 (111 ∷ 107 ∷ [])
ok = text_char refl (λ e. omega arith) (text_char refl (λ e. omega arith) (text_end refl))

vprintf_example :
    let shown = record s0 { display = show (97 ∷ 52 ∷ 50 ∷ 37 ∷ 111 ∷ 107 ∷ []) s0.display } in
    (vprintf (λ _. 0) 99 memory args 0 s0 ≡ some (some 6, shown))
    × (printf (λ _. 0) 99 memory args 0 s0 ≡ some (some 6, shown))
unfolding numeral
vprintf_example =
    vprintf-render (λ _. 0) memory args 99 0 items s0
      (format_run refl (λ e. omega arith) (λ e. omega arith) (λ e. omega arith) (run_percent refl)
        (format_number refl refl refl refl (omega arith) (
          format_percent refl refl (run_percent refl) (
            format_text refl refl ok
              (no_eof_cons (λ e. omega arith) (no_eof_cons (λ e. omega arith) no_eof_nil))
              (format_end refl)))))
      (omega arith) (omega arith)

-- The character 255 is shown and then taken for the EOF of `putchar`.
print-eof : (d : Display) → print (λ _. 255) 0 2 d ≡ (false, (putchar 0xffff_ffff d).1)
unfolding print putchar
print-eof d = refl
