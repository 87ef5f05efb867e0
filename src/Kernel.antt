-- ===== src/Kernel.antt =====
-- kernel/kernel/kernel.c, panic.c and version.c, and libc/stdlib/abort.c: the sequence of calls that starts the kernel, its
-- echo of the serial port, and its panic. Fuel is for the texts and lists, for the polls of the port
-- and for the characters that are echoed; a call is `none` when it runs out, as it is where the
-- kernel loops without end.
pub mod Panic
pub mod Echo
pub mod Boot
pub mod Main
mod Tests
use missy_kernel.Base.{
  ℕ, zero, suc, ◌+◌, ◌==◌, true, false, if◌then◌else◌, Option, none, some, Store, List,
}
use missy_kernel.Brk.{memory_setbase, memory_init_mmap, brk}
use missy_kernel.Chrdev.{Chrdev, Calls, stdio, set_stdio, read_device_char}
use missy_kernel.Cpu.{Cpu, cpu_driver_init}
use missy_kernel.Display.{Display, display_change_color, display_clear, display_init}
use missy_kernel.Display.Colors.{Color, white, green, red, color_fg, display_make_color}
use missy_kernel.Kinit.{KernelParams}
use missy_kernel.Printf.{eof, printf, putchar, puts}
use missy_kernel.Serial.{Serial}
use missy_kernel.Serial.Device.{Functions, Messages, SerialDevice, serial_init, serial_calls}
use missy_kernel.Timer.{Timer, pit_8254_initialize}

-- COM_PORT_1
abbrev pub com_port_1 : ℕ
com_port_1 = 0x3f8

-- What the ports answer: the interrupt controllers', the two of the display that `display_init`
-- reads, and the serial port's.
pub record Hardware : Type 0 where
  pub pic_ports : List (ℕ × ℕ) → ℕ → ℕ
  pub preserve : ℕ
  pub attributes : ℕ
  pub inportb : ℕ → ℕ → ℕ

-- The addresses of the kernel's functions, tables and texts.
pub record Image : Type 0 where
  pub interrupts : ℕ
  pub default_handler : ℕ
  pub exception_handler : ℕ → ℕ
  pub timer_irq : ℕ
  pub serial_irq : ℕ
  pub base_inode : ℕ
  pub functions : Functions
  pub messages : Messages
  pub banner_text : ℕ
  pub banner_format : ℕ
  pub port_format : ℕ
  pub eof_format : ℕ

-- The drivers' state and `pit_tick_count`.
pub record Kernel : Type 0 where
  pub device : SerialDevice
  pub pit_tick_count : ℕ

abbrev pub set_display : Display → Kernel → Kernel
set_display d k = record k {
  device = record k.device { chrdev = record k.device.chrdev { display = d } };
}

abbrev pub set_cpu : Cpu → Kernel → Kernel
set_cpu c k = record k { device = record k.device { serial = record k.device.serial { cpu = c } } }

unfoldable pub banner : Image → ℕ
banner image = image.banner_text

-- The text display is white on a colour, and empty.
unfoldable pub clear_in : Color → Display → Display
clear_in bg d =
    display_clear (display_change_color (display_make_color (color_fg white) (color_fg bg)) d).1

-- `message` is the address of KERNEL_PANIC_MESSAGE. The display in front of the endless loop.
unfoldable pub kernel_panic : ℕ → Store → ℕ → ℕ → Display → Option Display
unfolding clear_in
kernel_panic fuel m message cause d = elim (puts fuel m message (clear_in red d)) [
  | none ↦ none
  | some (_, d₁) ↦ elim (puts fuel m cause d₁) [ none ↦ none | some (_, d₂) ↦ some d₂ ]
]

-- libc/stdlib/abort.c; `abort_text` is the address of "abort() was called".
unfoldable pub abort : ℕ → Store → ℕ → ℕ → Display → Option Display
abort fuel m message abort_text d = kernel_panic fuel m message abort_text d

-- A call of `printf` with one argument.
unfoldable pub print : Store → ℕ → ℕ → ℕ → Kernel → Option Kernel
print stack fuel format argument k =
    elim (printf stack fuel k.device.chrdev.heap.mem (λ _. argument) format
      (stdio k.device.chrdev)) [
        | none ↦ none
        | some (_, s) ↦
            some (record k { device = record k.device { chrdev = set_stdio s k.device.chrdev } })
      ]

module _ (hw : Hardware) (image : Image) (others : Calls Serial) where
  -- `cpu_driver_init` and `pit_8254_initialize`.
  unfoldable pub init_interrupts : Kernel → Kernel
  init_interrupts k =
      let c =
        cpu_driver_init hw.pic_ports image.interrupts image.default_handler image.exception_handler
          k.device.serial.cpu in
      let t =
        pit_8254_initialize hw.pic_ports image.timer_irq
          (record { cpu = c; pit_tick_count = k.pit_tick_count }) in
      record (set_cpu t.cpu k) { pit_tick_count = t.pit_tick_count }

  -- `memory_setbase`, `memory_init_mmap` and `brk`, whose result is dropped. `bitmap` is what stands
  -- at `kernel_memory_bitmap`.
  unfoldable pub init_memory : KernelParams → Store → Kernel → Kernel
  init_memory kparams bitmap k =
      let b =
        (brk kparams.kernel_heap (
          memory_init_mmap bitmap kparams.allocator_total_blocks kparams.allocator_used_blocks
            (memory_setbase kparams.kernel_heap k.device.chrdev.heap.brk))).1 in
      record k {
        device = record k.device {
          chrdev = record k.device.chrdev { heap = record k.device.chrdev.heap { brk = b } };
        };
      }

  -- The loop that echoes the characters, for at most so many of them. The inner `none` is a read
  -- that ends without a value.
  unfoldable pub echo_loop :
      ℕ → ℕ → ℕ → Store → ℕ → Serial → Display → Option (Option (Serial × Display))
  echo_loop zero fuel polls m dd s d = none
  echo_loop (suc rounds) fuel polls m dd s d =
      elim (read_device_char image.base_inode (serial_calls hw.inportb polls image.functions others)
        fuel dd m s) [
          | none ↦ none
          | some (none, _) ↦ some none
          | some (some c, s') ↦ elim (c == eof) [
            | true ↦ some (some (s', d))
            | false ↦ echo_loop rounds fuel polls m dd s' (putchar c d).1
          ]
        ]

  -- The calls in front of `serial_init`, of which the banner may not be printed.
  unfoldable pub start : Store → ℕ → KernelParams → Store → Kernel → Option Kernel
  unfolding clear_in
  start stack fuel kparams bitmap k =
      let k₁ =
        set_display
          (clear_in green (display_init hw.preserve hw.attributes k.device.chrdev.display)) k in
      elim (print stack fuel image.banner_format (banner image) k₁) [
        | none ↦ none
        | some k₂ ↦ some (init_memory kparams bitmap (init_interrupts k₂))
      ]

  -- The descriptor of the serial port, which is printed.
  unfoldable pub open_serial : Store → ℕ → Kernel → Option (ℕ × Kernel)
  open_serial stack fuel k =
      elim (serial_init hw.pic_ports image.serial_irq image.functions image.messages stack
        image.base_inode fuel com_port_1 k.device) [
          | none ↦ none
          | some (dd, s) ↦ elim (print stack fuel image.port_format dd (record k { device = s })) [
            | none ↦ none
            | some k' ↦ some (dd, k')
          ]
        ]

  -- `rounds` bounds the characters that are echoed.
  unfoldable pub kernel_main :
      Store → ℕ → ℕ → ℕ → KernelParams → Store → Kernel → Option (Option Kernel)
  kernel_main stack rounds fuel polls kparams bitmap k = elim (start stack fuel kparams bitmap k) [
    | none ↦ none
    | some k₁ ↦ elim (open_serial stack fuel k₁) [
      | none ↦ none
      | some (dd, k₂) ↦
          elim (echo_loop rounds fuel polls k₂.device.chrdev.heap.mem dd k₂.device.serial
            k₂.device.chrdev.display) [
              | none ↦ none
              | some none ↦ some none
              | some (some (s, d)) ↦
                  let k₃ = set_display d (record k₂ { device = record k₂.device { serial = s } }) in
                  elim (print stack fuel image.eof_format 0 k₃) [
                    | none ↦ none
                    | some k₄ ↦ some (some k₄)
                  ]
            ]
    ]
  ]
