-- ===== src/Pic/Protocol.antt =====
-- What the initialisation and the end of an interrupt write to the controllers.
use missy_kernel.Base.{
  ℕ, ◌+◌, ◌≡◌, refl, arith, List, [], ◌∷◌, ◌==◌, ◌||◌, ◌&&◌, if◌then◌else◌, Bool, Bool-cases, inl,
  inr, u32,
}
use missy_kernel.Base.Bits.{bit}
use missy_kernel.Pic.{
  Pic, pic1_command, pic1_data, pic2_command, pic2_data, command_readisr, pic_8259a_initialize,
  pic_8259a_get_irqreg, pic_8259a_send_eoi,
}

-- The bytes that a port has seen, latest first.
abbrev pub seen_by : ℕ → List (ℕ × ℕ) → List ℕ
seen_by port [] = []
seen_by port ((p, v) ∷ ws) = if p == port then v ∷ seen_by port ws else seen_by port ws

-- The end-of-interrupt commands among the writes.
abbrev pub eois : List (ℕ × ℕ) → ℕ
eois [] = 0
eois ((p, v) ∷ ws) =
    (if ((p == pic1_command) || (p == pic2_command)) && (v == 0x20) then 1 else 0) + eois ws

module _ (inportb : List (ℕ × ℕ) → ℕ → ℕ) where
  -- Each controller sees the four initialisation words in the 8259's order, with its own vector
  -- offset, and last the interrupt mask that it had before; no other port sees anything.
  pub pic_8259a_initialize_lem :
      (off₁ off₂ : ℕ) (d : Pic)
      → let d' = pic_8259a_initialize inportb off₁ off₂ d in
        (seen_by pic1_command d'.ports ≡ 0x11 ∷ seen_by pic1_command d.ports)
        × (seen_by pic2_command d'.ports ≡ 0x11 ∷ seen_by pic2_command d.ports)
        × (seen_by pic1_data d'.ports
            ≡ inportb d.ports pic1_data ∷ 0x01 ∷ 0x04 ∷ off₁ ∷ seen_by pic1_data d.ports)
        × (seen_by pic2_data d'.ports
            ≡ inportb d.ports pic2_data ∷ 0x01 ∷ 0x02 ∷ off₂ ∷ seen_by pic2_data d.ports)
  unfolding pic_8259a_initialize
  pic_8259a_initialize_lem off₁ off₂ d = (refl, refl, refl, refl)

  -- Among the lines 7 and 15, one that the register which the driver reads does not show in
  -- service is spurious.
  abbrev pub is_spurious : ℕ → Pic → Bool
  is_spurious irq d =
      ((irq == 7) || (irq == 15))
      && (bit (pic_8259a_get_irqreg inportb command_readisr d).0 irq == 0)

  -- Ending an interrupt sends one end-of-interrupt command, except that a spurious interrupt on
  -- line 7 gets none; the counter goes up for a spurious interrupt and for no other.
  pub pic_8259a_send_eoi_lem :
      (irq : ℕ) (d : Pic)
      → let d' = pic_8259a_send_eoi inportb irq d in
        (eois d'.ports ≡ (if is_spurious irq d && (irq == 7) then 0 else 1) + eois d.ports)
        × (d'.spurious ≡ (if is_spurious irq d then u32 (d.spurious + 1) else d.spurious))
  unfolding pic_8259a_send_eoi pic_8259a_get_irqreg
  pic_8259a_send_eoi_lem irq d = elim (Bool-cases (is_spurious irq d)) [
    | inl e ↦ (ground (arith, e), ground (arith, e))
    | inr e ↦ (ground (arith, e), ground (arith, e))
  ]
