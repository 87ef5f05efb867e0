-- ===== src/Pic/Masks.antt =====
-- Masking and unmasking one interrupt line.
use missy_kernel.Base.{
  ℕ, ◌-◌, ◌%◌, ◌^◌, ◌<◌, ◌≡◌, refl, arith, ◌==◌, if◌then◌else◌, ltb, List, ◌∷◌, bit_or, bit_and,
  not32, u8, ◌<<<◌, ◌∙◌, ap,
}
use missy_kernel.Base.Bits.{bit, bit-set, bit-clear, bit_or-lt, bit_and-le, two_pow-lt}
use missy_kernel.Base.Masks.{eq_of_bits}
use missy_kernel.Pic.{Pic, pic1_data, pic2_data, pic_8259a_mask_irq, pic_8259a_unmask_irq}

-- The data port of the controller of a line.
abbrev pub data_port : ℕ → ℕ
data_port irq = if ltb irq 8 then pic1_data else pic2_data

-- One byte has been written to the data port of the line `irq`: `now` in the bit of the line, and
-- what was read from the port in the others.
pub record LineSet (irq now : ℕ) (seen : ℕ) (d d' : Pic) : Type 0 where
  pub mask : ℕ
  pub byte : mask < 256
  pub wrote : d'.ports ≡ (data_port irq, mask) ∷ d.ports
  pub bits : (j : ℕ) → j < 8 → bit mask j ≡ (if j == irq % 8 then now else bit seen j)
  pub same_spurious : d'.spurious ≡ d.spurious

module _ (inportb : List (ℕ × ℕ) → ℕ → ℕ) where
  pub mask_irq-LineSet :
      (irq : ℕ) (d : Pic)
      → irq < 16
      → inportb d.ports (data_port irq) < 256
      → LineSet irq 1 (inportb d.ports (data_port irq)) d (pic_8259a_mask_irq inportb irq d)
  unfolding pic_8259a_mask_irq
  mask_irq-LineSet irq d h k =
      let seen = inportb d.ports (data_port irq) in
      let line : (if ltb irq 8 then irq else irq - 8) ≡ irq % 8 = ground arith in
      let shift : 1 <<< (if ltb irq 8 then irq else irq - 8) ≡ 2 ^ (irq % 8) =
        rw line (omega arith) in
      let small = bit_or-lt 8 seen (2 ^ (irq % 8)) k (two_pow-lt 8 (irq % 8) (omega arith)) in
      let same : u8 (bit_or seen (1 <<< (if ltb irq 8 then irq else irq - 8)))
          ≡ bit_or seen (2 ^ (irq % 8)) =
        rw shift (omega (arith, small)) in
      record {
        mask = bit_or seen (2 ^ (irq % 8));
        byte = small;
        wrote = ap (λ v. (data_port irq, v) ∷ d.ports) same;
        bits = λ j l. bit-set seen (irq % 8) j;
        same_spurious = refl;
      }

  pub unmask_irq-LineSet :
      (irq : ℕ) (d : Pic)
      → irq < 16
      → inportb d.ports (data_port irq) < 256
      → LineSet irq 0 (inportb d.ports (data_port irq)) d (pic_8259a_unmask_irq inportb irq d)
  unfolding pic_8259a_unmask_irq
  unmask_irq-LineSet irq d h k =
      let seen = inportb d.ports (data_port irq) in
      let line : (if ltb irq 8 then irq else irq - 8) ≡ irq % 8 = ground arith in
      let shift : 1 <<< (if ltb irq 8 then irq else irq - 8) ≡ 2 ^ (irq % 8) =
        rw line (omega arith) in
      let small = bit_and-le seen (not32 (2 ^ (irq % 8))) in
      let same : u8 (bit_and seen (not32 (1 <<< (if ltb irq 8 then irq else irq - 8))))
          ≡ bit_and seen (not32 (2 ^ (irq % 8))) =
        rw shift (omega (arith, small)) in
      record {
        mask = bit_and seen (not32 (2 ^ (irq % 8)));
        byte = omega (arith, small);
        wrote = ap (λ v. (data_port irq, v) ∷ d.ports) same;
        bits = λ j l. bit-clear seen (irq % 8) j (omega arith) (omega arith);
        same_spurious = refl;
      }

  -- Where the data port of one of the 16 lines answers a byte, and reads back the byte that is
  -- written to it next, and the line was enabled: masking it writes that byte with the bit of the
  -- line set and the others as they were, and unmasking it then writes the mask that was there
  -- before.
  pub unmask_irq-mask_irq :
      (irq : ℕ) (d : Pic)
      → irq < 16
      → inportb d.ports (data_port irq) < 256
      → bit (inportb d.ports (data_port irq)) (irq % 8) ≡ 0
      → ((v : ℕ) → v < 256 → inportb ((data_port irq, v) ∷ d.ports) (data_port irq) ≡ v)
      → let d' = pic_8259a_unmask_irq inportb irq (pic_8259a_mask_irq inportb irq d) in
        (masked : ℕ) × (d'.ports
          ≡ (data_port irq, inportb d.ports (data_port irq)) ∷ (data_port irq, masked) ∷ d.ports)
        × ((j : ℕ)
            → j < 8
            → bit masked j ≡ (if j == irq % 8 then 1 else bit (inportb d.ports (data_port irq)) j))
  unmask_irq-mask_irq irq d h k enabled latched =
      let m = mask_irq-LineSet irq d h k in
      let read : inportb (pic_8259a_mask_irq inportb irq d).ports (data_port irq) ≡ m.mask =
        rw m.wrote (latched m.mask m.byte) in
      let u =
        unmask_irq-LineSet irq (pic_8259a_mask_irq inportb irq d) h (omega (arith, read, m.byte)) in
      let back : u.mask ≡ inportb d.ports (data_port irq) =
        eq_of_bits 8 u.mask (inportb d.ports (data_port irq)) u.byte k
          (λ j l. ground (arith, u.bits j l, m.bits j l, read, enabled)) in
      (m.mask, u.wrote ∙ rw (back, m.wrote) refl, m.bits)
