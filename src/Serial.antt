-- ===== src/Serial.antt =====
-- kernel/arch/i386/serial.c: the serial port, whose line status the code polls. Serial/Device has
-- the registration as a character device. A polling loop takes fuel, and a call is `none` when it runs out.
pub mod Send
pub mod Receive
pub mod Device
pub mod Registered
pub mod Tests
use missy_kernel.Base.{
  ℕ, zero, suc, ◌+◌, ◌^◌, bit_and, u8, u16, ◌==◌, if◌then◌else◌, true, false, Option, none, some,
  Store, List, [], ◌∷◌,
}
use missy_kernel.Strings.{char_int}
use missy_kernel.Pic.{outportb}
use missy_kernel.Cpu.{Cpu, cpu_install_device}

-- IRQ_INDEX, the registers, ENABLE_DLAB, EIGHT_N_ONE and the characters that are translated
abbrev pub irq_index : ℕ
irq_index = 4

abbrev pub interrupt_enable_register : ℕ
interrupt_enable_register = 1

abbrev pub divisor_value_lsb : ℕ
divisor_value_lsb = 0

abbrev pub divisor_value_msb : ℕ
divisor_value_msb = 1

abbrev pub fifo_control_register : ℕ
fifo_control_register = 2

abbrev pub line_control_register : ℕ
line_control_register = 3

abbrev pub modem_control_register : ℕ
modem_control_register = 4

abbrev pub line_status_register : ℕ
line_status_register = 5

abbrev pub enable_dlab : ℕ
enable_dlab = 0x80

abbrev pub eight_n_one : ℕ
eight_n_one = 0x03

abbrev pub serial_backspace : ℕ
serial_backspace = 127

abbrev pub serial_end_of_text : ℕ
serial_end_of_text = 3

-- The processor with what has been written to its ports, how often a port has been read, and `_port`.
pub record Serial : Type 0 where
  pub cpu : Cpu
  pub reads : ℕ
  pub port : ℕ

abbrev pub out : ℕ → ℕ → Serial → Serial
out port value s = record s {
  cpu = record s.cpu { pic = outportb (u16 port) (u8 value) s.cpu.pic };
}

-- `pic_ports` is what the interrupt controllers' ports answer, `irq` the address of `_serial_irq`.
unfoldable pub initialize_serial_device : (List (ℕ × ℕ) → ℕ → ℕ) → ℕ → ℕ → Serial → Serial
initialize_serial_device pic_ports irq port s =
    let s₁ = record s { cpu = cpu_install_device pic_ports irq_index irq s.cpu } in
    let s₂ =
      out (port + line_control_register) enable_dlab
        (out (port + interrupt_enable_register) 0 s₁) in
    let s₃ = out (port + divisor_value_msb) 0x00 (out (port + divisor_value_lsb) 0x03 s₂) in
    let s₄ =
      out (port + fifo_control_register) 0xc7 (out (port + line_control_register) eight_n_one s₃) in
    record (out (port + modem_control_register) 0x0b s₄) { port = port }

-- `inportb n port` is what the `n`th read of a port answers.
module _ (inportb : ℕ → ℕ → ℕ) where
  -- `while ((inportb(_port+LINE_STATUS_REGISTER) & mask) == 0) ;`
  unfoldable pub wait_for : ℕ → ℕ → Serial → Option Serial
  wait_for zero mask s = none
  wait_for (suc fuel) mask s =
      let status = inportb s.reads (s.port + line_status_register) in
      let s' = record s { reads = s.reads + 1 } in
      elim (bit_and status mask == 0) [ true ↦ wait_for fuel mask s' | false ↦ some s' ]

  unfoldable pub send_character : ℕ → ℕ → Serial → Option Serial
  send_character fuel c s = elim (wait_for fuel 0x20 s) [
    | none ↦ none
    | some s' ↦ some (out s'.port c s')
  ]

  -- The loop from `i` on, with `n` rounds left.
  unfoldable pub write_loop : ℕ → Store → ℕ → ℕ → ℕ → Serial → Option Serial
  write_loop fuel m buffer i zero s = some s
  write_loop fuel m buffer i (suc n) s = elim (send_character fuel (m (buffer + i)) s) [
    | none ↦ none
    | some s' ↦ write_loop fuel m buffer (i + 1) n s'
  ]

  unfoldable pub serial_write_chars : ℕ → Store → ℕ → ℕ → Serial → Option (ℕ × Serial)
  serial_write_chars fuel m buffer length s = elim (write_loop fuel m buffer 0 length s) [
    | none ↦ none
    | some s' ↦ some (length, s')
  ]

  -- The result is the pattern of an `int`.
  unfoldable pub serial_read_char : ℕ → Serial → Option (ℕ × Serial)
  serial_read_char fuel s = elim (wait_for fuel 1 s) [
    | none ↦ none
    | some s' ↦
        let c = u8 (inportb s'.reads s'.port) in
        some (
          if c == serial_backspace
              then 8
              else if c == serial_end_of_text
              then 0xffff_ffff
              else char_int c,
          record s' { reads = s'.reads + 1 },
        )
  ]
