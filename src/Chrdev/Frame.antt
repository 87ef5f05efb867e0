-- ===== src/Chrdev/Frame.antt =====
-- What keeps the list of inodes, and the entry of a device into a new inode.
use missy_kernel.Base.{
  ℕ, suc, ◌+◌, ◌^◌, ◌≤◌, ◌<◌, ◌≡◌, ◌≢◌, ◌∙◌, arith, Store, word, write32, write32-byte,
  word-write32, word-write32_other, SameOutside, List, [], ◌∷◌, length,
}
use missy_kernel.Malloc.{Heap}
use missy_kernel.Chrdev.{
  Chrdev, inode_size, inode_of, device_of, next_of, descriptor_of, minor_revision_of, enter,
}
use missy_kernel.Chrdev.Chain.{
  Entry, Apart, Clear, clear_nil, clear_cons, IsSegment, segment_start, segment_next, IsRegistry,
  no_device, devices,
}

pub Clear_part :
    (a n : ℕ) {b k : ℕ} {es : List Entry} → Clear b k es → b ≤ a → a + n ≤ b + k → Clear a n es
Clear_part a n clear_nil l h = clear_nil
Clear_part a n (clear_cons x c) l h = clear_cons (omega arith) (Clear_part a n c l h)

pub word-SameOutside :
    (a n : ℕ) {m m' : Store} (b : ℕ) → SameOutside a n m m' → Apart a n b 4 → word m' b ≡ word m b
word-SameOutside a n b s o = omega (
  arith,
  s b (omega arith),
  s (b + 1) (omega arith),
  s (b + 2) (omega arith),
  s (b + 3) (omega arith),
)

pub IsSegment-SameOutside :
    (a n : ℕ) {m m' : Store} {base : ℕ} {es : List Entry} {q : ℕ}
    → SameOutside a n m m'
    → Clear a n es
    → IsSegment m base es q
    → IsSegment m' base es q
IsSegment-SameOutside a n s c (segment_start w) = segment_start w
IsSegment-SameOutside a n s (clear_cons o c) (segment_next {e} t i x w) =
    segment_next (IsSegment-SameOutside a n s c t)
      (record {
        here = i.here;
        inode = word-SameOutside a n e.at s (omega arith) ∙ i.inode;
        points = word-SameOutside a n (e.at + 4) s (omega arith) ∙ i.points;
      })
      x (word-SameOutside a n (e.at + 8) s (omega arith) ∙ w)

pub IsSegment-write32 :
    (a v : ℕ) {m : Store} {base : ℕ} {es : List Entry} {q : ℕ}
    → Clear a 4 es
    → IsSegment m base es q
    → IsSegment (write32 m a v) base es q
IsSegment-write32 a v {m} c s = IsSegment-SameOutside a 4 (λ b o. write32-byte m a v b o) c s

pub IsRegistry-SameOutside :
    (a n base : ℕ) {es : List Entry} (k : Chrdev) (h : Heap)
    → SameOutside a n k.heap.mem h.mem
    → Apart a n base inode_size
    → Clear a n es
    → IsRegistry base k es
    → IsRegistry base (record k { heap = h }) es
IsRegistry-SameOutside a n base k h s o c (no_device current number b i x) =
    no_device current number b (word-SameOutside a n base s (omega arith) ∙ i)
      (word-SameOutside a n (base + 8) s (omega arith) ∙ x)
IsRegistry-SameOutside a n base k h s o c (devices current number t) =
    devices current number (IsSegment-SameOutside a n s c t)

-- The device has been entered as the newest one.
pub record Entered (base device : ℕ) (es : List Entry) (m : Store) (minor p : ℕ) (r : ℕ × Chrdev)
    : Type 0 where
  pub returns : r.0 ≡ suc (length es)
  pub registry : IsRegistry base r.1 (record { at = p; device = device } ∷ es)
  pub descriptor : descriptor_of r.1.heap.mem device ≡ suc (length es)
  pub minor_revision : minor_revision_of r.1.heap.mem device ≡ minor
  pub functions : (b : ℕ) → device + 12 ≤ b → b < device + 36 → r.1.heap.mem b ≡ m b
  pub alone :
      es ≡ [] → (b : ℕ) → Apart b 1 p inode_size → Apart b 1 device 36 → r.1.heap.mem b ≡ m b

module _ (base p device : ℕ) (k : Chrdev) (es : List Entry) where
  pub enter-Entered :
      IsSegment k.heap.mem base es p
      → next_of k.heap.mem p ≡ 0
      → k.current_inode ≡ p
      → k.current_inode_number ≡ suc (length es)
      → p ≢ 0
      → Clear p inode_size es
      → Clear device 36 es
      → Apart device 36 p inode_size
      → length es + 2 < 2 ^ 32
      → device < 2 ^ 32
      → k.minor_revision_number < 2 ^ 32
      → Entered base device es k.heap.mem k.minor_revision_number p (enter base p device k)
  unfolding enter
  enter-Entered s last current number ne room clear apart few low minor =
      let m = k.heap.mem in
      let n = suc (length es) in
      let v = k.minor_revision_number in
      let m₀ = write32 m (p + 4) device in
      let m₁ = write32 m₀ p n in
      let m₂ = write32 m₁ device n in
      let m₃ = write32 m₂ (device + 8) v in
      let at₁ : inode_of m₁ p ≡ n = word-write32 m₀ p n (omega arith) in
      let at₃ : inode_of m₃ p ≡ n =
        word-write32_other m₂ (device + 8) v p (omega arith)
        ∙ word-write32_other m₁ device n p (omega arith)
        ∙ at₁ in
      let points : device_of m₃ p ≡ device =
        word-write32_other m₂ (device + 8) v (p + 4) (omega arith)
        ∙ word-write32_other m₁ device n (p + 4) (omega arith)
        ∙ word-write32_other m₀ p n (p + 4) (omega arith)
        ∙ word-write32 m (p + 4) device low in
      let next : next_of m₃ p ≡ 0 =
        word-write32_other m₂ (device + 8) v (p + 8) (omega arith)
        ∙ word-write32_other m₁ device n (p + 8) (omega arith)
        ∙ word-write32_other m₀ p n (p + 8) (omega arith)
        ∙ word-write32_other m (p + 4) device (p + 8) (omega arith)
        ∙ last in
      let s₃ : IsSegment m₃ base es p =
        IsSegment-write32 (device + 8) v
          (Clear_part (device + 8) 4 clear (omega arith) (omega arith))
          (IsSegment-write32 device n (Clear_part device 4 clear (omega arith) (omega arith)) (
            IsSegment-write32 p n (Clear_part p 4 room (omega arith) (omega arith)) (
              IsSegment-write32 (p + 4) device
                (Clear_part (p + 4) 4 room (omega arith) (omega arith)) s))) in
      rw (number, at₁)
        (record {
          returns = at₃;
          registry =
              devices current (omega arith)
                (segment_next s₃ (record { here = ne; inode = at₃; points = points }) room next);
          descriptor =
              word-write32_other m₂ (device + 8) v device (omega arith)
              ∙ word-write32 m₁ device n (omega arith);
          minor_revision = word-write32 m₂ (device + 8) v minor;
          alone = λ first b o o'.
              write32-byte m₂ (device + 8) v b (omega arith)
              ∙ write32-byte m₁ device n b (omega arith)
              ∙ write32-byte m₀ p n b (omega arith)
              ∙ write32-byte m (p + 4) device b (omega arith);
          functions = λ b l h.
              write32-byte m₂ (device + 8) v b (omega arith)
              ∙ write32-byte m₁ device n b (omega arith)
              ∙ write32-byte m₀ p n b (omega arith)
              ∙ write32-byte m (p + 4) device b (omega arith);
        })
