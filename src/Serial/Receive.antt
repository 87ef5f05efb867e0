-- ===== src/Serial/Receive.antt =====
-- Reading a character from the serial port.
use missy_kernel.Base.{ℕ, ◌+◌, ◌≤◌, ◌≡◌, refl, arith, u8, ◌==◌, if◌then◌else◌, some}
use missy_kernel.Strings.{char_int}
use missy_kernel.Serial.{Serial, serial_read_char}
use missy_kernel.Serial.Send.{Ready, First, wait_for-Ready}

-- What the kernel makes of a byte: a backspace of DEL, and EOF of the end of a text; a byte of
-- 0xff is EOF too, as it is -1 as a `char`.
abbrev pub received : ℕ → ℕ
received c = if c == 127 then 8 else if c == 3 then 0xffff_ffff else char_int c

-- Where among any `k` reads of the port's line status in a row there is one that reports a
-- character, and with fuel for `k` reads, `serial_read_char` returns. It has read the line status
-- until the first read that reported a character, and returns the byte that the port answers to the
-- next read, as the kernel sees it; nothing has been written to a port.
pub serial_read_char_lem :
    (inportb : ℕ → ℕ → ℕ) (fuel k : ℕ) (s : Serial)
    → Ready inportb s.port 1 k
    → k ≤ fuel
    → (n : ℕ) × (serial_read_char inportb fuel s
        ≡ some (received (u8 (inportb n s.port)), record s { reads = n + 1 }))
      × First inportb s.port 1 s.reads n
unfolding serial_read_char
serial_read_char_lem inportb fuel k s r h =
    let (d, l, ready) = r.within s.reads in
    let (n, w, x) = wait_for-Ready inportb fuel 1 d s ready (omega (arith, l)) in
    (n, rw (serial_read_char, w) refl, x)
