-- ===== src/Cpu/Tests.antt =====
-- cpu.c on a processor with an empty table and controllers that answer 0xff.
use missy_kernel.Base.{
  ℕ, ◌+◌, ◌%◌, ◌*◌, ◌-◌, ◌<◌, ◌≡◌, ◌≢◌, refl, arith, [], none, some, true, false, if◌then◌else◌,
}
use missy_kernel.Pic.Masks.{LineSet}
use missy_kernel.Cpu.{Cpu, cpu_driver_init, cpu_install_device}
use missy_kernel.Cpu.Table.{IsGate, is_exception, cpu_driver_init_lem, cpu_install_device_lem}

abbrev pub cpu0 : Cpu
cpu0 = record {
  interrupts =
      λ i. record { offset_low = 0; selector = 0; zero = 0; type_attribute = 0; offset_high = 0 };
  idt_base = 0;
  idt_limit = 0;
  using_apic = false;
  enabled = false;
  idtr = none;
  pic = record { ports = []; spurious = 0 };
}

cpu_driver_init_example :
    let c' =
      cpu_driver_init (λ ws p. 0xff) 0xc010_5000 0xc010_1000 (λ v. 0xc010_2000 + v % 2) cpu0 in
    ((v : ℕ)
      → v < 256
      → IsGate (if is_exception v then 0xc010_2000 + v % 2 else 0xc010_1000) (c'.interrupts v))
    × (c'.idtr ≡ some (0xc010_5000, 256 * 8 - 1))
    × (c'.enabled ≡ true)
cpu_driver_init_example =
    cpu_driver_init_lem (λ ws p. 0xff) 0xc010_5000 0xc010_1000 (λ v. 0xc010_2000 + v % 2) cpu0
      (omega arith) (λ v. omega arith)

cpu_install_device_example :
    let c' = cpu_install_device (λ ws p. 0xff) 4 0xc010_3000 cpu0 in
    IsGate 0xc010_3000 (c'.interrupts 36)
    × ((v : ℕ) → v ≢ 36 → c'.interrupts v ≡ cpu0.interrupts v)
    × LineSet 4 0 0xff cpu0.pic c'.pic
    × (c'.enabled ≡ true)
cpu_install_device_example =
    cpu_install_device_lem (λ ws p. 0xff) 4 0xc010_3000 cpu0 (omega arith) (omega arith) refl refl
      (omega arith)
