-- ===== src/Base/Bytes.antt =====
-- Words of 32 bits that stand in a store of bytes, the low byte first.
use Prim.Native.Nat.{◌/◌, ◌%◌, ◌^◌, ℕ, ◌+◌, ◌*◌, ◌<◌, ◌≤◌}
use mathlib.Core.Path.{◌≡◌, ap, ◌∙◌}
use native.Mathlib.Omega.{arith}
use missy_kernel.Base.Memory.{Store, write, write_self, write_other}
use mathlib.Core.Logic.{◌⊎◌}

abbrev pub word : Store → ℕ → ℕ
word m a = m a + m (a + 1) * 0x100 + m (a + 2) * 0x1_0000 + m (a + 3) * 0x100_0000

-- The `n` bytes from `src` on in `m` stand from `dst` on in `m'`.
pub record SameRun (m : Store) (src : ℕ) (m' : Store) (dst n : ℕ) : Type 0 where
  pub same : (i : ℕ) → i < n → m' (dst + i) ≡ m (src + i)

pub word-SameRun :
    {m m' : Store} {src dst n : ℕ} (o : ℕ)
    → SameRun m src m' dst n
    → o + 4 ≤ n
    → word m' (dst + o) ≡ word m (src + o)
word-SameRun {m} {m'} {src} {dst} {n} o h k = omega (
  arith,
  h.same o (omega arith),
  byte 1 (omega arith),
  byte 2 (omega arith),
  byte 3 (omega arith),
)
  where
    byte : (j : ℕ) → j < 4 → m' (dst + o + j) ≡ m (src + o + j)
    byte j l = ap m' (omega arith) ∙ h.same (o + j) (omega arith) ∙ ap m (omega arith)

-- A word is written byte by byte.
abbrev pub write32 : Store → ℕ → ℕ → Store
write32 m a v =
    write
      (write (write (write m a (v % 0x100)) (a + 1) (v / 0x100 % 0x100)) (a + 2)
        (v / 0x1_0000 % 0x100))
      (a + 3) (v / 0x100_0000 % 0x100)

pub write32-byte : (m : Store) (a v b : ℕ) → (b < a) ⊎ (a + 4 ≤ b) → write32 m a v b ≡ m b
write32-byte m a v b o = ground arith

pub word-write32 : (m : Store) (a v : ℕ) → v < 2 ^ 32 → word (write32 m a v) a ≡ v
word-write32 m a v h = omega (arith, b₀, b₁, b₂, b₃)
  where
    m₁ : Store
    m₁ = write m a (v % 0x100)

    m₂ : Store
    m₂ = write m₁ (a + 1) (v / 0x100 % 0x100)

    m₃ : Store
    m₃ = write m₂ (a + 2) (v / 0x1_0000 % 0x100)

    x₃ : ℕ
    x₃ = v / 0x100_0000 % 0x100

    b₃ : write32 m a v (a + 3) ≡ x₃
    b₃ = write_self m₃ (a + 3) x₃

    b₂ : write32 m a v (a + 2) ≡ v / 0x1_0000 % 0x100
    b₂ =
        write_other m₃ (a + 3) x₃ (a + 2) (λ e. omega arith)
        ∙ write_self m₂ (a + 2) (v / 0x1_0000 % 0x100)

    b₁ : write32 m a v (a + 1) ≡ v / 0x100 % 0x100
    b₁ =
        write_other m₃ (a + 3) x₃ (a + 1) (λ e. omega arith)
        ∙ write_other m₂ (a + 2) (v / 0x1_0000 % 0x100) (a + 1) (λ e. omega arith)
        ∙ write_self m₁ (a + 1) (v / 0x100 % 0x100)

    b₀ : write32 m a v a ≡ v % 0x100
    b₀ =
        write_other m₃ (a + 3) x₃ a (λ e. omega arith)
        ∙ write_other m₂ (a + 2) (v / 0x1_0000 % 0x100) a (λ e. omega arith)
        ∙ write_other m₁ (a + 1) (v / 0x100 % 0x100) a (λ e. omega arith)
        ∙ write_self m a (v % 0x100)

pub word-write32_other :
    (m : Store) (a v b : ℕ) → (b + 4 ≤ a) ⊎ (a + 4 ≤ b) → word (write32 m a v) b ≡ word m b
word-write32_other m a v b o = omega (
  arith,
  write32-byte m a v b (omega arith),
  write32-byte m a v (b + 1) (omega arith),
  write32-byte m a v (b + 2) (omega arith),
  write32-byte m a v (b + 3) (omega arith),
)
