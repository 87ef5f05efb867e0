-- ===== src/Timer/Divisor.antt =====
-- The divisor that the timer is left with.
use missy_kernel.Base.{
  ℕ, ◌+◌, ◌-◌, ◌*◌, ◌/◌, ◌%◌, ◌^◌, ◌≤◌, ◌<◌, ◌≡◌, refl, arith, bit_and, u8, u16, ◌∷◌,
}
use missy_kernel.Base.Masks.{bit_and-high_byte}
use native.Mathlib.Nat.{div-add-mod'}
use missy_kernel.Timer.{Timer, pit_8254_start, reload_bytes, pit_clock_freq}

-- The divisor that the timer reads from the bytes, the low one first.
abbrev pub divisor : ℕ × ℕ → ℕ
divisor (low, high) = low + high * 0x100

reload-small : (freq : ℕ) → 18 < freq → pit_clock_freq / freq < 2 ^ 16
reload-small freq h =
    let q : pit_clock_freq / freq * freq + pit_clock_freq % freq ≡ pit_clock_freq =
      div-add-mod' pit_clock_freq freq in
    let c : pit_clock_freq / freq * 19 ≤ pit_clock_freq / freq * freq = grind arith in
    omega (arith, q, c)

-- For a frequency above 18 Hz the bytes written make the divisor for that frequency with its low
-- byte cleared.
pub pit_8254_start_lem :
    (freq : ℕ) (t : Timer)
    → 18 < freq
    → let reload = pit_clock_freq / freq in
      (divisor (reload_bytes reload) ≡ reload - reload % 256)
      × ((pit_8254_start freq t).cpu.pic.ports
          ≡ (0x40, reload / 256) ∷ (0x40, 0) ∷ (0x43, 0x36) ∷ t.cpu.pic.ports)
unfolding pit_8254_start
pit_8254_start_lem freq t h =
    let reload = pit_clock_freq / freq in
    let small = reload-small freq h in
    let same : u16 reload ≡ reload = omega (arith, small) in
    let masked = bit_and-high_byte reload small in
    let first : u8 (bit_and reload 0xff00) ≡ 0 = omega (arith, masked) in
    let second : u8 (reload / 2 ^ 8) ≡ reload / 256 = omega (arith, small) in
    (rw (first, second) (omega arith), rw (same, first, second) refl)
