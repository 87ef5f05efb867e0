-- ===== src/Kernel/Boot.antt =====
-- The kernel from its entry to the end of the echo, where the serial port is the first device.
use missy_kernel.Base.{
  ℕ, ◌^◌, ◌≤◌, ◌<◌, ◌≡◌, refl, arith, Store, some, List, [], ◌∷◌, ◌++◌, length, length-append,
}
use missy_kernel.Strings.Text.{IsText}
use missy_kernel.Itoa.Glyphs.{capitals}
use missy_kernel.Itoa.Text.{numeral, length-numeral}
use missy_kernel.Printf.{int_max}
use missy_kernel.Printf.Pieces.{show}
use missy_kernel.Printf.Format.{Item, run, number, render, rounds, IsFormat}
use missy_kernel.Printf.Literals.{number-IsFormat, plain-IsFormat}
use missy_kernel.Printf.Render.{vprintf-render}
use missy_kernel.Chrdev.{stdio}
use missy_kernel.Kernel.{Kernel, set_display, print}

-- "com port device descriptor: " without its first character
abbrev pub port_tail : List ℕ
port_tail =
    111 ∷ 109 ∷ 32 ∷ 112 ∷ 111 ∷ 114 ∷ 116 ∷ 32 ∷ 100 ∷ 101 ∷ 118 ∷ 105 ∷ 99 ∷ 101 ∷ 32 ∷ 100 ∷ 101
    ∷ 115 ∷ 99 ∷ 114 ∷ 105 ∷ 112 ∷ 116 ∷ 111 ∷ 114 ∷ 58 ∷ 32 ∷ []

-- "com port device descriptor: %d\n"
abbrev pub port_message : List ℕ
port_message = (99 ∷ port_tail) ++ 37 ∷ 100 ∷ 10 ∷ []

abbrev pub port_items : ℕ → List Item
port_items dd = run 99 port_tail ∷ number 10 dd ∷ run 10 [] ∷ []

-- "Received EOF from input stream\n" without its first character
abbrev pub eof_tail : List ℕ
eof_tail =
    101 ∷ 99 ∷ 101 ∷ 105 ∷ 118 ∷ 101 ∷ 100 ∷ 32 ∷ 69 ∷ 79 ∷ 70 ∷ 32 ∷ 102 ∷ 114 ∷ 111 ∷ 109 ∷ 32
    ∷ 105 ∷ 110 ∷ 112 ∷ 117 ∷ 116 ∷ 32 ∷ 115 ∷ 116 ∷ 114 ∷ 101 ∷ 97 ∷ 109 ∷ 10 ∷ []

abbrev pub eof_items : List Item
eof_items = run 82 eof_tail ∷ []

pub print-IsFormat :
    (stack : Store) (fuel format n : ℕ) (is : List Item) (k : Kernel)
    → IsFormat k.device.chrdev.heap.mem (λ _. n) format 0 is
    → rounds is ≤ fuel
    → length (render is) ≤ int_max
    → print stack fuel format n k ≡ some (set_display (show (render is) k.device.chrdev.display) k)
unfolding print
print-IsFormat stack fuel format n is k x f small =
    let e =
      vprintf-render stack k.device.chrdev.heap.mem (λ _. n) fuel format is (stdio k.device.chrdev)
        x f small in
    rw (print, e.1) refl

pub print_port :
    (stack : Store) (fuel format n : ℕ) (k : Kernel)
    → IsText k.device.chrdev.heap.mem format port_message
    → n < 2 ^ 32
    → 80 ≤ fuel
    → print stack fuel format n k
      ≡ some (set_display (show (render (port_items n)) k.device.chrdev.display) k)
print_port stack fuel format n k x low f =
    let is =
      number-IsFormat (λ _. n) format n 99 port_tail 100 10 10 [] x refl refl refl refl low in
    let digits = length-numeral capitals 10 n in
    let size = length-append (numeral capitals 10 n) (10 ∷ []) in
    print-IsFormat stack fuel format n (port_items n) k is (omega (arith, digits))
      (omega (arith, digits, size))

pub print_eof :
    (stack : Store) (fuel format : ℕ) (k : Kernel)
    → IsText k.device.chrdev.heap.mem format (82 ∷ eof_tail)
    → 80 ≤ fuel
    → print stack fuel format 0 k
      ≡ some (set_display (show (render eof_items) k.device.chrdev.display) k)
print_eof stack fuel format k x f =
    print-IsFormat stack fuel format 0 eof_items k
      (plain-IsFormat (λ _. 0) format 0 82 eof_tail x refl) (omega arith) (omega arith)
