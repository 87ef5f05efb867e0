-- ===== src/Base/Memory.antt =====
-- Memory as a function from addresses to the values that stand there.
use Prim.Native.Nat.{ℕ, ◌+◌, ◌<◌, ◌≤◌}
use mathlib.Core.Path.{◌≡◌}
use mathlib.Core.Logic.{◌≢◌, ◌⊎◌}
use native.Mathlib.Omega.{arith}
use missy_kernel.Base.Tests.{◌==◌, if◌then◌else◌}

abbrev pub Store : Type 0
Store = ℕ → ℕ

-- One write. It unfolds everywhere, so a read after a write computes to a test of addresses.
abbrev pub write : Store → ℕ → ℕ → Store
write m a v b = if b == a then v else m b

pub write_self : (m : Store) (a v : ℕ) → write m a v a ≡ v
write_self m a v = ground arith

pub write_other : (m : Store) (a v b : ℕ) → b ≢ a → write m a v b ≡ m b
write_other m a v b h = ground arith

-- `m'` differs from `m` at most on the `n` addresses from `a` on.
abbrev pub SameOutside : ℕ → ℕ → Store → Store → Type 0
SameOutside a n m m' = (b : ℕ) → (b < a) ⊎ (a + n ≤ b) → m' b ≡ m b
