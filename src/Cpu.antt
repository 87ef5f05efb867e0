-- ===== src/Cpu.antt =====
-- kernel/arch/i386/cpu.c: the interrupt descriptor table. The addresses of the assembly handlers
-- and of the table, and what the controllers answer on their ports, are parameters.
pub mod Table
pub mod Tests
use missy_kernel.Base.{
  ℕ, zero, suc, ◌+◌, ◌-◌, ◌*◌, ◌^◌, bit_and, bit_or, u8, u16, u32, ltb, ◌==◌, if◌then◌else◌, not,
  Bool, true, false, List, [], ◌∷◌, Option, none, some, ◌>>>◌,
}
use missy_kernel.Pic.{Pic, pic_8259a_initialize, pic_8259a_disable, pic_8259a_unmask_irq}

-- MAX_INTERRUPTS, DEVICE_INTERRUPT_BASE, INTERRUPT32_TYPE and SYSTEM_CODE_SELECTOR
abbrev pub max_interrupts : ℕ
max_interrupts = 256

abbrev pub device_interrupt_base : ℕ
device_interrupt_base = 0x20

abbrev pub interrupt32_type : ℕ
interrupt32_type = bit_or (bit_or 0x80 0x00) 0x0e

abbrev pub system_code_selector : ℕ
system_code_selector = 0x08

-- `_isr_entry_t`
pub record IsrEntry : Type 0 where
  pub offset_low : ℕ
  pub selector : ℕ
  pub zero : ℕ
  pub type_attribute : ℕ
  pub offset_high : ℕ

-- `interrupts`, as a function of the index, `idt_entry`, `using_apic`, whether interrupts are on,
-- the base and limit in the processor's table register, and the interrupt controllers.
pub record Cpu : Type 0 where
  pub interrupts : ℕ → IsrEntry
  pub idt_base : ℕ
  pub idt_limit : ℕ
  pub using_apic : Bool
  pub enabled : Bool
  pub idtr : Option (ℕ × ℕ)
  pub pic : Pic

abbrev pub stop_interrupts : Cpu → Cpu
stop_interrupts c = record c { enabled = false }

abbrev pub start_interrupts : Cpu → Cpu
start_interrupts c = record c { enabled = true }

abbrev pub load_idtr : Cpu → Cpu
load_idtr c = record c { idtr = some (c.idt_base, c.idt_limit) }

-- The table with the entry at `index` changed. An index of 256 is the place behind the array.
abbrev pub set_entry : ℕ → (IsrEntry → IsrEntry) → Cpu → Cpu
set_entry index f c = record c {
  interrupts = λ i. if i == index then f (c.interrupts i) else c.interrupts i;
}

-- `true` for the result 0, `false` for -1.
unfoldable pub install_handler : ℕ → ℕ → ℕ → ℕ → Cpu → Bool × Cpu
install_handler index flags selector routine c = if ltb max_interrupts index then (false, c) else (
  true,
  set_entry index
      (λ e. record e {
        offset_low = u16 (bit_and routine 0xffff);
        offset_high = u16 (routine >>> 16);
        selector = selector;
        type_attribute = flags;
      })
      c,
)

-- The vectors in the order of the calls of `install_cpu_exceptions`.
abbrev pub exception_vectors : List ℕ
exception_vectors =
    0 ∷ 1 ∷ 2 ∷ 3 ∷ 4 ∷ 5 ∷ 6 ∷ 7 ∷ 8 ∷ 10 ∷ 11 ∷ 12 ∷ 13 ∷ 14 ∷ 16 ∷ 17 ∷ 18 ∷ 19 ∷ 20 ∷ 30 ∷ []

unfoldable pub install_all : (ℕ → ℕ) → List ℕ → Cpu → Cpu
install_all exception [] c = c
install_all exception (v ∷ vs) c =
    install_all exception vs
      (install_handler v interrupt32_type system_code_selector (exception v) c).1

unfoldable pub install_cpu_exceptions : (ℕ → ℕ) → Cpu → Cpu
install_cpu_exceptions exception c = install_all exception exception_vectors c

-- `memset(&interrupts[0], 0, sizeof(_isr_entry_t) * MAX_INTERRUPTS)`
abbrev pub clear_interrupts : Cpu → Cpu
clear_interrupts c = record c {
  interrupts = λ i.
      if ltb i max_interrupts
      then record { offset_low = 0; selector = 0; zero = 0; type_attribute = 0; offset_high = 0 }
      else c.interrupts i;
}

-- The loop of `cpu_driver_init` from `i` on, with `n` rounds left.
unfoldable pub default_loop : ℕ → ℕ → ℕ → Cpu → Cpu
default_loop zero default i c = c
default_loop (suc n) default i c =
    default_loop n default (i + 1)
      (install_handler i interrupt32_type system_code_selector default c).1

-- `cpuid_max` and `edx` are what `__get_cpuid_max` and `__get_cpuid` report.
unfoldable pub has_feature : ℕ → ℕ → ℕ → Bool
has_feature cpuid_max edx feature =
    if ltb 0 cpuid_max then (if bit_and edx feature == 0 then false else true) else false

module _ (inportb : List (ℕ × ℕ) → ℕ → ℕ) where
  -- `table` is `&interrupts[0]`, `default` is `i386_defaulthandler`, and `exception` gives the
  -- handler of each exception's vector.
  unfoldable pub cpu_driver_init : ℕ → ℕ → (ℕ → ℕ) → Cpu → Cpu
  unfolding install_cpu_exceptions
  cpu_driver_init table default exception c =
      let c₁ = default_loop max_interrupts default 0 (clear_interrupts (stop_interrupts c)) in
      let c₂ = record c₁ { idt_base = table; idt_limit = u16 (8 * max_interrupts - 1) } in
      let c₃ = load_idtr (install_cpu_exceptions exception c₂) in
      let pic₁ =
        pic_8259a_initialize inportb device_interrupt_base (device_interrupt_base + 8) c₃.pic in
      start_interrupts (record c₃ { pic = pic_8259a_disable pic₁ })

  unfoldable pub cpu_install_device : ℕ → ℕ → Cpu → Cpu
  unfolding install_handler
  cpu_install_device irq address c =
      let interrupt_idx = u32 (irq + device_interrupt_base) in
      let c₁ =
        start_interrupts
          (install_handler interrupt_idx interrupt32_type system_code_selector address
            (stop_interrupts c)).1 in
      if c₁.using_apic then c₁ else record c₁ { pic = pic_8259a_unmask_irq inportb (u8 irq) c₁.pic }
