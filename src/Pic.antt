-- ===== src/Pic.antt =====
-- kernel/arch/i386/pic.c: the driver of the two 8259 interrupt controllers. What the hardware
-- answers on a port is a parameter, a function of the writes that it has seen and the port.
pub mod Masks
pub mod Protocol
mod Tests
use missy_kernel.Base.{
  ℕ, ◌+◌, ◌-◌, ◌*◌, ◌%◌, ◌/◌, ◌^◌, bit_or, bit_and, not32, u8, u16, u32, ltb, leb, ◌==◌, ◌||◌, ◌&&◌,
  if◌then◌else◌, List, ◌∷◌, ◌<<<◌,
}
use missy_kernel.Base.Bits.{bit}

-- The ports and commands of the controllers.
abbrev pub pic1_command : ℕ
pic1_command = 0x20

abbrev pub pic1_data : ℕ
pic1_data = 0x21

abbrev pub pic2_command : ℕ
pic2_command = 0xa0

abbrev pub pic2_data : ℕ
pic2_data = 0xa1

abbrev pub command_eoi : ℕ
command_eoi = 0x20

abbrev pub command_readisr : ℕ
command_readisr = 0x0b

abbrev pub icw1_send4 : ℕ
icw1_send4 = 0x01

abbrev pub icw1_initialize : ℕ
icw1_initialize = 0x10

abbrev pub icw4_8086 : ℕ
icw4_8086 = 0x01

-- The writes to I/O ports, port and byte, latest first, and the static counter of the file.
pub record Pic : Type 0 where
  pub ports : List (ℕ × ℕ)
  pub spurious : ℕ

abbrev pub outportb : ℕ → ℕ → Pic → Pic
outportb port value d = record d { ports = (port, value) ∷ d.ports }

-- `pic_8259a_isrset(x,y)`
abbrev pub isrset : ℕ → ℕ → ℕ
isrset x y = bit x y

unfoldable pub pic_8259a_enable : Pic → Pic
pic_8259a_enable d = outportb pic2_data 0x00 (outportb pic1_data 0x00 d)

unfoldable pub pic_8259a_disable : Pic → Pic
pic_8259a_disable d = outportb pic2_data 0xff (outportb pic1_data 0xff d)

unfoldable pub pic_8259a_spurious_count : Pic → ℕ
pic_8259a_spurious_count d = d.spurious

module _ (inportb : List (ℕ × ℕ) → ℕ → ℕ) where
  unfoldable pub pic_8259a_initialize : ℕ → ℕ → Pic → Pic
  pic_8259a_initialize pic1_off pic2_off d =
      let mask_one = inportb d.ports pic1_data in
      let mask_two = inportb d.ports pic2_data in
      let d₁ =
        outportb pic2_command (bit_or icw1_initialize icw1_send4)
          (outportb pic1_command (bit_or icw1_initialize icw1_send4) d) in
      let d₂ = outportb pic2_data pic2_off (outportb pic1_data pic1_off d₁) in
      let d₃ = outportb pic2_data 0x02 (outportb pic1_data 0x04 d₂) in
      let d₄ = outportb pic2_data icw4_8086 (outportb pic1_data icw4_8086 d₃) in
      outportb pic2_data mask_two (outportb pic1_data mask_one d₄)

  -- The shift `1 << irq` is undefined in C from 32 on; for the 16 lines it is below 8.
  unfoldable pub pic_8259a_mask_irq : ℕ → Pic → Pic
  pic_8259a_mask_irq irq d =
      let port = if ltb irq 8 then pic1_data else pic2_data in
      let line = if ltb irq 8 then irq else irq - 8 in
      outportb port (u8 (bit_or (inportb d.ports port) (1 <<< line))) d

  unfoldable pub pic_8259a_unmask_irq : ℕ → Pic → Pic
  pic_8259a_unmask_irq irq d =
      let port = if ltb irq 8 then pic1_data else pic2_data in
      let line = if ltb irq 8 then irq else irq - 8 in
      outportb port (u8 (bit_and (inportb d.ports port) (not32 (1 <<< line)))) d

  unfoldable pub pic_8259a_get_irqreg : ℕ → Pic → ℕ × Pic
  pic_8259a_get_irqreg ocw3 d =
      let d₁ = outportb pic2_command ocw3 (outportb pic1_command ocw3 d) in
      (u16 (bit_or (inportb d₁.ports pic2_data <<< 8) (inportb d₁.ports pic1_data)), d₁)

  unfoldable pub pic_8259a_send_eoi : ℕ → Pic → Pic
  unfolding pic_8259a_get_irqreg
  pic_8259a_send_eoi irq d =
      let (irqreg, d₁) = pic_8259a_get_irqreg command_readisr d in
      if ((irq == 7) || (irq == 15)) && (isrset irqreg irq == 0)
      then (let d₂ = if irq == 15 then outportb pic1_command command_eoi d₁ else d₁ in
          record d₂ { spurious = u32 (d₂.spurious + 1) })
      else if leb 8 irq
      then outportb pic2_command command_eoi d₁
      else outportb pic1_command command_eoi d₁
