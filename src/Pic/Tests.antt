-- ===== src/Pic/Tests.antt =====
-- pic.c on controllers that answer the byte last written to a port, and 0 before.
use missy_kernel.Base.Bits.{bit}
use missy_kernel.Base.{ℕ, ◌<◌, ◌≡◌, refl, arith, List, [], ◌∷◌, ◌==◌, if◌then◌else◌}
use missy_kernel.Pic.{Pic, pic_8259a_mask_irq, pic_8259a_unmask_irq}
use missy_kernel.Pic.Masks.{unmask_irq-mask_irq}

abbrev latch : List (ℕ × ℕ) → ℕ → ℕ
latch [] port = 0
latch ((p, v) ∷ ws) port = if p == port then v else latch ws port

abbrev idle : Pic
idle = record { ports = (0xa1, 0x20) ∷ []; spurious = 3 }

unmask_irq-mask_irq_example :
    (masked : ℕ) × ((pic_8259a_unmask_irq latch 11 (pic_8259a_mask_irq latch 11 idle)).ports
      ≡ (0xa1, 0x20) ∷ (0xa1, masked) ∷ (0xa1, 0x20) ∷ [])
    × ((j : ℕ) → j < 8 → bit masked j ≡ (if j == 3 then 1 else bit 0x20 j))
unmask_irq-mask_irq_example =
    unmask_irq-mask_irq latch 11 idle (omega arith) (omega arith) refl (λ v h. refl)
