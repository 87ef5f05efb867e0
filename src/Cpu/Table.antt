-- ===== src/Cpu/Table.antt =====
-- What the processor finds in the interrupt table.
use missy_kernel.Base.{
  ℕ, zero, suc, ◌+◌, ◌-◌, ◌*◌, ◌^◌, ◌<◌, ◌≡◌, ◌≢◌, refl, sym, arith, ==_refl, lt→ltb,
  ==_false_of_ne, ◌∙◌, u8, u16, u32, ltb, ◌==◌, ◌||◌, ◌&&◌, not, if◌then◌else◌, Bool, Bool-cases,
  inl, inr, true, false, List, [], ◌∷◌, Option, none, some, in_run,
}
use missy_kernel.Base.Masks.{bit_and_mask}
use missy_kernel.Pic.{pic_8259a_unmask_irq}
use missy_kernel.Pic.Masks.{LineSet, data_port, unmask_irq-LineSet}
use missy_kernel.Cpu.{
  IsrEntry, Cpu, max_interrupts, interrupt32_type, system_code_selector, exception_vectors,
  install_handler, install_all, install_cpu_exceptions, default_loop, clear_interrupts,
  stop_interrupts, cpu_driver_init, cpu_install_device,
}

-- The processor reads the entry as a present 32-bit gate of the kernel to `routine`.
pub record IsGate (routine : ℕ) (e : IsrEntry) : Type 0 where
  pub address : e.offset_high * 2 ^ 16 + e.offset_low ≡ routine
  pub code : e.selector ≡ 0x08
  pub kind : e.type_attribute ≡ 0x8e
  pub reserved : e.zero ≡ 0

-- What an entry holds: a gate to an address, or at least a clear reserved byte.
abbrev pub Holds : Option ℕ → IsrEntry → Type 0
Holds none e = e.zero ≡ 0
Holds (some routine) e = IsGate routine e

abbrev pub HasTable : (ℕ → Option ℕ) → Cpu → Type 0
HasTable f c = (v : ℕ) → v < 256 → Holds (f v) (c.interrupts v)

Holds-reserved : (o : Option ℕ) (e : IsrEntry) → Holds o e → e.zero ≡ 0
Holds-reserved none e h = h
Holds-reserved (some routine) e h = h.reserved

install_handler-other :
    (index routine : ℕ) (c : Cpu) (i : ℕ)
    → (i == index) ≡ false
    → (install_handler index interrupt32_type system_code_selector routine c).1.interrupts i
      ≡ c.interrupts i
unfolding install_handler
install_handler-other index routine c i h = elim (Bool-cases (ltb max_interrupts index)) [
  | inl e ↦ rw e refl
  | inr e ↦ rw (e, h) refl
]

install_handler-here :
    (index routine : ℕ) (c : Cpu)
    → index < 256
    → routine < 2 ^ 32
    → (c.interrupts index).zero ≡ 0
    → IsGate routine
        ((install_handler index interrupt32_type system_code_selector routine c).1.interrupts index)
unfolding install_handler
install_handler-here index routine c h k z = record {
  address = ground (arith, bit_and_mask 16 routine);
  code = ground arith;
  kind = ground arith;
  reserved = ground (arith, z);
}

pub install_handler-HasTable :
    (f : ℕ → Option ℕ) (index routine : ℕ) (c : Cpu)
    → routine < 2 ^ 32
    → HasTable f c
    → HasTable
        (λ v. if v == index then some routine else f v)
        (install_handler index interrupt32_type system_code_selector routine c).1
install_handler-HasTable f index routine c k t v h = elim (Bool-cases (v == index)) [
  | inl e ↦
      let same : v ≡ index = ground (arith, e) in
      rw same (
        rw (==_refl index) (
          install_handler-here index routine c (omega (arith, same)) k
            (rw (sym same) (Holds-reserved (f v) (c.interrupts v) (t v h)))))
  | inr e ↦ rw (e, install_handler-other index routine c v e) (t v h)
]

default_loop-HasTable :
    (n default i : ℕ) (f : ℕ → Option ℕ) (c : Cpu)
    → default < 2 ^ 32
    → HasTable f c
    → HasTable (λ v. if in_run i n v then some default else f v) (default_loop n default i c)
unfolding default_loop
default_loop-HasTable zero default i f c k t v h =
    let e : in_run i 0 v ≡ false = ground arith in rw e (t v h)
default_loop-HasTable (suc n) default i f c k t v h =
    let step = install_handler-HasTable f i default c k t in
    let rest = default_loop-HasTable n default (i + 1) _ _ k step v h in
    let e : (if in_run i (suc n) v then some default else f v)
        ≡ (if in_run (i + 1) n v then some default else if v == i then some default else f v) =
      ground arith in
    rw e rest

-- The vectors for which the kernel has handlers: those of the processor's exceptions up to 20, but
-- for the coprocessor overrun (9) and the reserved one (15), and the security exception (30).
abbrev pub is_exception : ℕ → Bool
is_exception v = (ltb v 21 && not (v == 9) && not (v == 15)) || (v == 30)

-- A vector is in the list.
abbrev mem : ℕ → List ℕ → Bool
mem v [] = false
mem v (w ∷ ws) = (v == w) || mem v ws

mem-is_exception : (v : ℕ) → mem v exception_vectors ≡ is_exception v
mem-is_exception v = ground arith

install_all-HasTable :
    (exception : ℕ → ℕ) (vs : List ℕ) (f : ℕ → Option ℕ) (c : Cpu)
    → ((v : ℕ) → exception v < 2 ^ 32)
    → HasTable f c
    → HasTable (λ v. if mem v vs then some (exception v) else f v) (install_all exception vs c)
unfolding install_all
install_all-HasTable exception [] f c k t v h = t v h
install_all-HasTable exception (w ∷ ws) f c k t v h =
    let step = install_handler-HasTable f w (exception w) c (k w) t in
    let rest = install_all-HasTable exception ws _ _ k step v h in
    let e : (if (v == w) || mem v ws then some (exception v) else f v)
        ≡ (if mem v ws then some (exception v) else if v == w then some (exception w) else f v) =
      ground arith in
    rw e rest

install_handler-idt :
    (index routine : ℕ) (c : Cpu)
    → let c' = (install_handler index interrupt32_type system_code_selector routine c).1 in
      (c'.idt_base ≡ c.idt_base) × (c'.idt_limit ≡ c.idt_limit)
unfolding install_handler
install_handler-idt index routine c = elim (Bool-cases (ltb max_interrupts index)) [
  | inl e ↦ rw e (refl, refl)
  | inr e ↦ rw e (refl, refl)
]

install_all-idt :
    (exception : ℕ → ℕ) (vs : List ℕ) (c : Cpu)
    → ((install_all exception vs c).idt_base ≡ c.idt_base)
      × ((install_all exception vs c).idt_limit ≡ c.idt_limit)
unfolding install_all
install_all-idt exception [] c = (refl, refl)
install_all-idt exception (w ∷ ws) c =
    let step = install_handler-idt w (exception w) c in
    let rest =
      install_all-idt exception ws
        (install_handler w interrupt32_type system_code_selector (exception w) c).1 in
    (rest.0 ∙ step.0, rest.1 ∙ step.1)

module _ (inportb : List (ℕ × ℕ) → ℕ → ℕ) where
  -- Where the handlers' addresses fit in 32 bits, after `cpu_driver_init` every one of the 256
  -- entries is a gate: for the vectors 0 to 20 without 9 and 15, and for 30, to the handler of that
  -- exception, for all others to the default handler. The table register has the table's base and its
  -- last byte's offset, and interrupts are on.
  pub cpu_driver_init_lem :
      (table default : ℕ) (exception : ℕ → ℕ) (c : Cpu)
      → default < 2 ^ 32
      → ((v : ℕ) → exception v < 2 ^ 32)
      → let c' = cpu_driver_init inportb table default exception c in
        ((v : ℕ)
          → v < 256
          → IsGate (if is_exception v then exception v else default) (c'.interrupts v))
        × (c'.idtr ≡ some (table, 256 * 8 - 1))
        × (c'.enabled ≡ true)
  unfolding cpu_driver_init install_cpu_exceptions
  cpu_driver_init_lem table default exception c k ks =
      let c₀ = clear_interrupts (stop_interrupts c) in
      let cleared : HasTable (λ _. none) c₀ = λ v h. rw (lt→ltb v 256 h) refl in
      let loop = default_loop-HasTable 256 default 0 (λ _. none) c₀ k cleared in
      let c₂ = record (default_loop 256 default 0 c₀) {
        idt_base = table;
        idt_limit = u16 (8 * 256 - 1);
      } in
      let all =
        install_all-HasTable exception exception_vectors
          (λ v. if in_run 0 256 v then some default else none) c₂ ks loop in
      let idt = install_all-idt exception exception_vectors c₂ in
      (
        λ v h.
            let inside : in_run 0 256 v ≡ true = ground arith in
            rw (sym (mem-is_exception v)) (elim (Bool-cases (mem v exception_vectors)) [
              | inl e ↦ rw e (rw e at (all v h))
              | inr e ↦ rw e (rw (e, inside) at (all v h))
            ]),
        rw (idt.0, idt.1) refl,
        refl,
      )

  -- Where the APIC is not in use, the entry's reserved byte is clear and the controller answers a
  -- byte, installing a device with a 32-bit address on one of the 16 lines makes its vector a gate to the device's handler,
  -- leaves every other entry alone, unmasks that line and no other, and turns interrupts on.
  pub cpu_install_device_lem :
      (irq address : ℕ) (c : Cpu)
      → irq < 16
      → address < 2 ^ 32
      → c.using_apic ≡ false
      → (c.interrupts (irq + 32)).zero ≡ 0
      → inportb c.pic.ports (data_port irq) < 256
      → let c' = cpu_install_device inportb irq address c in
        IsGate address (c'.interrupts (irq + 32))
        × ((v : ℕ) → v ≢ irq + 32 → c'.interrupts v ≡ c.interrupts v)
        × LineSet irq 0 (inportb c.pic.ports (data_port irq)) c.pic c'.pic
        × (c'.enabled ≡ true)
  unfolding cpu_install_device install_handler
  cpu_install_device_lem irq address c h k apic z seen =
      let c₁ = (install_handler (irq + 32) interrupt32_type system_code_selector address c).1 in
      let index : u32 (irq + 32) ≡ irq + 32 = omega arith in
      let inside : ltb 256 (irq + 32) ≡ false = ground arith in
      let line : u8 irq ≡ irq = omega arith in
      let E : cpu_install_device inportb irq address c ≡ record c {
        interrupts = c₁.interrupts;
        enabled = true;
        pic = pic_8259a_unmask_irq inportb irq c.pic;
      } =
        rw (index, inside, line, apic) refl in
      rw E (
        install_handler-here (irq + 32) address c (omega arith) k z,
        λ v n. install_handler-other (irq + 32) address c v (==_false_of_ne v (irq + 32) n),
        unmask_irq-LineSet inportb irq c.pic h seen,
        refl,
      )
