-- ===== src/Timer.antt =====
-- kernel/arch/i386/timer.c: the programmable interval timer.
pub mod Divisor
mod Tests
use missy_kernel.Base.{ℕ, ◌+◌, ◌*◌, ◌/◌, ◌%◌, ◌^◌, ◌≤◌, ◌<◌, bit_and, bit_or, u8, u16, List, ◌>>>◌}
use missy_kernel.Pic.{outportb}
use missy_kernel.Cpu.{Cpu, cpu_install_device}

-- The ports, the default command and PIT_CLOCK_FREQ
abbrev pub channel0_data_port : ℕ
channel0_data_port = 0x40

abbrev pub pit_command_port : ℕ
pit_command_port = 0x43

abbrev pub default_startup_command : ℕ
default_startup_command = bit_or (bit_or 0x00 0x30) (bit_or 0x06 0)

abbrev pub pit_clock_freq : ℕ
pit_clock_freq = 1193182

-- The processor with what has been written to its ports, and `pit_tick_count`.
pub record Timer : Type 0 where
  pub cpu : Cpu
  pub pit_tick_count : ℕ

abbrev pub out : ℕ → ℕ → Timer → Timer
out port value t = record t { cpu = record t.cpu { pic = outportb port value t.cpu.pic } }

-- The two bytes that are written for a reload value, the first one first.
abbrev pub reload_bytes : ℕ → ℕ × ℕ
reload_bytes reload_value = (u8 (bit_and reload_value 0xff00), u8 (reload_value >>> 8))

-- A frequency of 0, by which the source divides, is left out.
unfoldable pub pit_8254_start : ℕ → Timer → Timer
pit_8254_start freq t =
    let reload_value = u16 (pit_clock_freq / freq) in
    let (first, second) = reload_bytes reload_value in
    out channel0_data_port second
      (out channel0_data_port first (out pit_command_port default_startup_command t))

-- `pic_ports` is what the interrupt controllers' ports answer, `irq` the address of `timer_irq`.
unfoldable pub pit_8254_initialize : (List (ℕ × ℕ) → ℕ → ℕ) → ℕ → Timer → Timer
pit_8254_initialize pic_ports irq t =
    pit_8254_start 100 (record t { cpu = cpu_install_device pic_ports 0 irq t.cpu })

unfoldable pub pit_8254_get_ticks : Timer → ℕ
pit_8254_get_ticks t = t.pit_tick_count
