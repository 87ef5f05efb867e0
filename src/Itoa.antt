-- ===== src/Itoa.antt =====
-- kernel/kernel/itoa.c, and `ki_make_ulong_string` of kernel/init/init/kutils.c, which both write
-- the digits of a number backwards from the end of a buffer and move them to its front.
pub mod Digits
pub mod Print
pub mod Text
pub mod Glyphs
pub mod Numeral
mod Tests
use missy_kernel.Base.{
  ℕ, zero, suc, ◌+◌, ◌-◌, ◌*◌, ◌/◌, ◌%◌, ◌^◌, Store, write, ltb, ◌==◌, ◌||◌, if◌then◌else◌, Option,
  none, some,
}
use missy_kernel.Strings.{memset, ki_memset}

-- ITOA_BUFFER_SIZE and MAXCHARS
abbrev pub itoa_buffer_size : ℕ
itoa_buffer_size = 33

abbrev pub maxchars : ℕ
maxchars = 65

-- EINVAL, ERANGE and EOVERFLOW of libc/include/errno.h
abbrev pub einval : ℕ
einval = 1

abbrev pub erange : ℕ
erange = 3

abbrev pub eoverflow : ℕ
eoverflow = 4

-- `lettermap`: "0123456789ABCDEFGHIJKLMNOPQRSTUVWXYZ" in itoa.c, lower case in kutils.c.
abbrev pub upper : ℕ → ℕ
upper d = if ltb d 10 then 48 + d else 55 + d

abbrev pub lower : ℕ → ℕ
lower d = if ltb d 10 then 48 + d else 87 + d

-- The bytes of memory, and the error number that the file writes.
pub record Printer : Type 0 where
  pub mem : Store
  pub errno : ℕ

-- The loop that writes digits, from `writeptr` down: the last `writeptr` and `written`. The
-- result is `none` as soon as `rounds` digits are written.
unfoldable pub digit_loop : (ℕ → ℕ) → ℕ → ℕ → ℕ → ℕ → ℕ → Store → Option (ℕ × ℕ) × Store
digit_loop letter zero num base writeptr written m = (none, m)
digit_loop letter (suc rounds) num base writeptr written m =
    let rest =
      digit_loop letter rounds (num / base) base (writeptr - 1) (written + 1)
        (write m (writeptr - 1) (letter (num % base))) in
    if num == 0 then (some (writeptr, written), m) else rest

-- `while ((*buffer++ = *writeptr++))`. At most `n` characters are copied.
unfoldable pub move_string : ℕ → Store → ℕ → ℕ → Store
move_string zero m buffer writeptr = m
move_string (suc n) m buffer writeptr =
    let m₁ = write m buffer (m writeptr) in
    let rest = move_string n m₁ (buffer + 1) (writeptr + 1) in if m writeptr == 0 then m₁ else rest

-- The return value is `none` for -1.
unfoldable pub itoa : ℕ → ℕ → ℕ → Printer → Option ℕ × Printer
itoa buffer num base p =
    if ltb 36 base || ltb base 2
    then (some 0, record { mem = write p.mem buffer 0; errno = erange })
    else if num == 0
    then (some 1, record p { mem = write (write p.mem buffer 48) (buffer + 1) 0 })
    else (let (r, m) =
          digit_loop upper itoa_buffer_size num base (buffer + (itoa_buffer_size - 1)) 0
            (memset p.mem buffer 0 itoa_buffer_size) in
        elim r [
          | none ↦ (none, record { mem = m; errno = eoverflow })
          | some (writeptr, written) ↦
              (some written, record p { mem = move_string itoa_buffer_size m buffer writeptr })
        ])

-- `num` is the 32-bit pattern of an `int`. The least `int` has no negation, stays negative, and
-- the loop on `num > 0` does not run.
abbrev pub magnitude : ℕ → ℕ
magnitude num = if ltb num (2 ^ 31) then num else if num == 2 ^ 31 then 0 else 2 ^ 32 - num

unfoldable pub itoa_s : ℕ → ℕ → ℕ → Printer → Option ℕ × Printer
itoa_s buffer num base p =
    if ltb 36 base || ltb base 2
    then (some 0, record { mem = write p.mem buffer 0; errno = erange })
    else if num == 0
    then (some 1, record p { mem = write (write p.mem buffer 48) (buffer + 1) 0 })
    else (let (r, m) =
          digit_loop upper (itoa_buffer_size - 2) (magnitude num) base
            (buffer + (itoa_buffer_size - 1)) 0 (memset p.mem buffer 0 itoa_buffer_size) in
        elim r [
          | none ↦ (none, record { mem = m; errno = eoverflow })
          | some (writeptr, written) ↦ (
            some written,
            record p {
              mem = move_string itoa_buffer_size (write m buffer 45) (buffer + 1) writeptr;
            },
          )
        ])

-- The loop has no limit of its own; `none` for more than 64 digits.
unfoldable pub ki_make_ulong_string : ℕ → ℕ → ℕ → Printer → Option Printer
ki_make_ulong_string buffer number base p =
    let m₀ = ki_memset p.mem buffer 0 maxchars in
    if number == 0
    then some (record p { mem = write (write m₀ buffer 48) (buffer + 1) 0 })
    else if ltb 16 base || ltb base 2
    then some (record { mem = m₀; errno = einval })
    else (let (r, m) = digit_loop lower maxchars number base (buffer + (maxchars - 1)) 0 m₀ in
        elim r [
          | none ↦ none
          | some (writeptr, written) ↦
              some (record p { mem = move_string maxchars m buffer writeptr })
        ])
