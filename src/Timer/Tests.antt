-- ===== src/Timer/Tests.antt =====
-- timer.c at 100 Hz.
use missy_kernel.Cpu.Tests.{cpu0}
use missy_kernel.Timer.{Timer}

abbrev t0 : Timer
t0 = record { cpu = cpu0; pit_tick_count = 0 }
