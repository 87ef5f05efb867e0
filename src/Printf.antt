-- ===== src/Printf.antt =====
-- libc/stdio as the kernel is built with it: vprintf.c, printf.c, puts.c and putchar.c, on the
-- display of kernel/arch/i386/display.c. A loop over a string takes fuel, and a call is `none`
-- when that runs out.
pub mod Pieces
pub mod Format
pub mod Shows
pub mod Render
pub mod Literals
pub mod Puts
mod Tests
use missy_kernel.Base.{
  ℕ, zero, suc, ◌+◌, ◌-◌, ◌^◌, u8, u32, sub32, ltb, ◌==◌, ◌&&◌, ◌||◌, not, if◌then◌else◌, Bool,
  true, false, Option, none, some, Store,
}
use missy_kernel.Strings.{char_int, strlen}
use missy_kernel.Itoa.{Printer, eoverflow, itoa}
use missy_kernel.Display.{Display, display_write}

-- INT_MAX of the compiler's limits.h on i386, and EOF as a pattern of 32 bits.
abbrev pub int_max : ℕ
int_max = 0x7fff_ffff

abbrev pub eof : ℕ
eof = 0xffff_ffff

-- The display and `errno`.
pub record Stdio : Type 0 where
  pub display : Display
  pub errno : ℕ

unfoldable pub putchar : ℕ → Display → ℕ × Display
putchar c d = (c, display_write c d)

-- With `length` rounds left; `true` when every character has been put.
unfoldable pub print : Store → ℕ → ℕ → Display → Bool × Display
unfolding putchar
print m str zero d = (true, d)
print m str (suc length) d =
    let (c, d') = putchar (char_int (m str)) d in
    let rest = print m (str + 1) length d' in if c == eof then (false, d') else rest

-- The steps that every branch of `vprintf` takes with what it prints: the count of characters
-- afterwards, or `none` for -1.
unfoldable pub print_counted : Store → ℕ → ℕ → ℕ → Stdio → Option ℕ × Stdio
print_counted m str length written s =
    if ltb (sub32 int_max written) length
    then (none, record s { errno = eoverflow })
    else (let (printed, d) = print m str length s.display in
        if printed
        then (some (u32 (written + length)), record s { display = d })
        else (none, record s { display = d }))

-- `while (fmt[amount] && fmt[amount] != '%') amount++`
unfoldable pub literal_length : ℕ → Store → ℕ → ℕ → Option ℕ
literal_length zero m fmt amount = none
literal_length (suc fuel) m fmt amount =
    elim (not (m (fmt + amount) == 0) && not (m (fmt + amount) == 37)) [
      | true ↦ literal_length fuel m fmt (amount + 1)
      | false ↦ some amount
    ]

-- What a branch prints, where the format goes on, and the arguments read so far.
pub record Piece : Type 0 where
  pub bytes : Store
  pub start : ℕ
  pub size : ℕ
  pub next : ℕ
  pub used : ℕ
  pub error : ℕ

-- The base of a directive for a number.
abbrev pub number_base : ℕ → Option ℕ
number_base c =
    if (c == 120) || (c == 88)
    then some 16
    else if c == 111
    then some 8
    else if (c == 117) || (c == 100) || (c == 105)
    then some 10
    else if c == 98
    then some 2
    else none

-- `length = itoa(...)`, where the -1 of `itoa` is the largest `size_t`.
abbrev pub itoa_length : Option ℕ → ℕ
itoa_length none = 0xffff_ffff
itoa_length (some n) = n

-- The directive at `fmt`, behind a '%'. `args` are the words of the argument list, of which `i` have
-- been read, and `stack` is what stands in the local buffer.
unfoldable pub directive : Store → ℕ → Store → (ℕ → ℕ) → ℕ → ℕ → ℕ → Option Piece
directive stack fuel m args fmt i errno = elim (m fmt == 99) [
  | true ↦ some (record {
    bytes = λ _. u8 (args i);
    start = 0;
    size = 1;
    next = fmt + 1;
    used = i + 1;
    error = errno;
  })
  | false ↦ elim (m fmt == 115) [
    | true ↦ elim (strlen fuel m (args i)) [
      | none ↦ none
      | some length ↦ some (record {
        bytes = m;
        start = args i;
        size = length;
        next = fmt + 1;
        used = i + 1;
        error = errno;
      })
    ]
    | false ↦ elim (number_base (m fmt)) [
      | some base ↦
          let (length, p) = itoa 0 (args i) base (record { mem = stack; errno = errno }) in
          some (record {
            bytes = p.mem;
            start = 0;
            size = itoa_length length;
            next = fmt + 1;
            used = i + 1;
            error = p.errno;
          })
      | none ↦ elim (strlen fuel m (fmt - 1)) [
        | none ↦ none
        | some length ↦ some (record {
          bytes = m;
          start = fmt - 1;
          size = length;
          next = fmt - 1 + length;
          used = i;
          error = errno;
        })
      ]
    ]
  ]
]

-- A run of other characters from `fmt` on, of which a '%' that stands for itself is skipped.
unfoldable pub literal : ℕ → Store → ℕ → ℕ → ℕ → Option Piece
literal fuel m fmt i errno =
    let fmt' = if m fmt == 37 then fmt + 1 else fmt in
    elim (literal_length fuel m fmt' 1) [
      | none ↦ none
      | some amount ↦ some (record {
        bytes = m;
        start = fmt';
        size = amount;
        next = fmt' + amount;
        used = i;
        error = errno;
      })
    ]

-- The loop over the format from `fmt` on; the inner `none` is -1.
unfoldable pub vprintf_loop :
    Store → ℕ → Store → (ℕ → ℕ) → ℕ → ℕ → ℕ → Stdio → Option (Option ℕ × Stdio)
vprintf_loop stack zero m args fmt i written s = none
vprintf_loop stack (suc fuel) m args fmt i written s = elim (m fmt == 0) [
  | true ↦ some (some written, s)
  | false ↦
      let piece =
        if not (m fmt == 37) || (m (fmt + 1) == 37)
        then literal fuel m fmt i s.errno
        else directive stack fuel m args (fmt + 1) i s.errno in
      elim piece [
        | none ↦ none
        | some p ↦
            let (count, s') =
              print_counted p.bytes p.start p.size written (record s { errno = p.error }) in
            elim count [
              | none ↦ some (none, s')
              | some w ↦ vprintf_loop stack fuel m args p.next p.used w s'
            ]
      ]
]

unfoldable pub vprintf : Store → ℕ → Store → (ℕ → ℕ) → ℕ → Stdio → Option (Option ℕ × Stdio)
vprintf stack fuel m args fmt s = vprintf_loop stack fuel m args fmt 0 0 s

-- The variable arguments of `printf` are the words behind the format.
unfoldable pub printf : Store → ℕ → Store → (ℕ → ℕ) → ℕ → Stdio → Option (Option ℕ × Stdio)
printf stack fuel m args fmt s = vprintf stack fuel m args fmt s

-- `while (*s2) putchar(*s2++)`: the pointer at the terminator, and the display.
unfoldable pub puts_loop : ℕ → Store → ℕ → Display → Option (ℕ × Display)
unfolding putchar
puts_loop zero m s2 d = none
puts_loop (suc fuel) m s2 d = elim (m s2 == 0) [
  | true ↦ some (s2, d)
  | false ↦ puts_loop fuel m (s2 + 1) (putchar (char_int (m s2)) d).1
]

unfoldable pub puts : ℕ → Store → ℕ → Display → Option (ℕ × Display)
unfolding putchar
puts fuel m str d = elim (puts_loop fuel m str d) [
  | none ↦ none
  | some (s2, d') ↦ some (u32 (s2 - str + 1), (putchar 10 d').1)
]
