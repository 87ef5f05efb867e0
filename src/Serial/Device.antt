-- ===== src/Serial/Device.antt =====
-- serial.c: the serial port as a character device of kernel/kernel/chrdev.c. The addresses of its
-- functions and of its text are what the linker gives.
use missy_kernel.Base.{
  ℕ, ◌+◌, ◌==◌, if◌then◌else◌, true, false, Option, none, some, Store, List, u16, write32,
}
use missy_kernel.Malloc.{malloc}
use missy_kernel.Chrdev.{Chrdev, Calls, set_mem, print_message, register_device}
use missy_kernel.Serial.{Serial, initialize_serial_device, serial_read_char, serial_write_chars}

-- SERIAL_MAJOR_REVISION and `sizeof(_chrdev_t)`
abbrev pub serial_major_revision : ℕ
serial_major_revision = 0

abbrev pub device_size : ℕ
device_size = 36

-- The addresses of the functions that the device points to.
pub record Functions : Type 0 where
  pub read_char : ℕ
  pub read_chars : ℕ
  pub write_chars : ℕ
  pub open_port : ℕ
  pub close_port : ℕ

-- The drivers' state, that of the character devices, and the static `device_descriptor`.
pub record SerialDevice : Type 0 where
  pub serial : Serial
  pub chrdev : Chrdev
  pub device_descriptor : ℕ

unfoldable pub serial_read_chars : ℕ → ℕ → Serial → ℕ × Serial
serial_read_chars buffer length s = (0, s)

unfoldable pub serial_open : Serial → ℕ × Serial
serial_open s = (0, s)

unfoldable pub serial_close : Serial → ℕ × Serial
serial_close s = (0, s)

-- The assignments to the fields of the device at `device`.
unfoldable pub describe : Functions → ℕ → Store → Store
describe f device m =
    let m₁ = write32 m device 0 in
    let m₂ = write32 m₁ (device + 16) f.read_char in
    let m₃ = write32 m₂ (device + 20) f.read_chars in
    let m₄ = write32 m₃ (device + 24) f.write_chars in
    let m₅ = write32 m₄ (device + 28) f.open_port in
    let m₆ = write32 m₅ (device + 32) f.close_port in write32 m₆ (device + 4) serial_major_revision

-- Where the texts are that are printed.
pub record Messages : Type 0 where
  pub no_memory : ℕ
  pub got_inode : ℕ

unfoldable pub serial_init :
    (List (ℕ × ℕ) → ℕ → ℕ)
    → ℕ
    → Functions
    → Messages
    → Store
    → ℕ
    → ℕ
    → ℕ
    → SerialDevice
    → Option (ℕ × SerialDevice)
serial_init pic_ports irq f messages stack base_inode fuel port s =
    let serial' = initialize_serial_device pic_ports irq (u16 port) s.serial in
    elim (malloc fuel device_size s.chrdev.heap) [
      | none ↦ none
      | some (device, h) ↦
          let s₁ : SerialDevice = record {
            serial = serial';
            chrdev = record s.chrdev { heap = h };
            device_descriptor = device;
          } in
          elim (device == 0) [
            | true ↦ elim (print_message stack fuel messages.no_memory 0 s₁.chrdev) [
              | none ↦ none
              | some k ↦ some (0xffff_ffff, record s₁ { chrdev = k })
            ]
            | false ↦
                elim (register_device base_inode stack fuel messages.got_inode device
                  (set_mem (describe f device h.mem) s₁.chrdev)) [
                    | none ↦ none
                    | some (number, k) ↦ some (number, record s₁ { chrdev = k })
                  ]
          ]
    ]

-- The calls through the device's pointers: the functions of this driver by their addresses, and
-- those of any others. `inportb n port` is what the `n`th read of a port answers, and `fuel` bounds
-- the reads of the line status in a row.
unfoldable pub serial_calls : (ℕ → ℕ → ℕ) → ℕ → Functions → Calls Serial → Calls Serial
serial_calls inportb fuel f others = record {
  readchar =
      λ a s. if a == f.read_char then serial_read_char inportb fuel s else others.readchar a s;
  write = λ a m buffer length s.
      if a == f.write_chars
      then serial_write_chars inportb fuel m buffer length s
      else others.write a m buffer length s;
}
