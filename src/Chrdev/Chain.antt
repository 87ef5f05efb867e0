-- ===== src/Chrdev/Chain.antt =====
-- The list of inodes in memory as a list of devices, the newest first, and the walk through it.
use missy_kernel.Base.{
  ℕ, zero, suc, ◌+◌, ◌≤◌, ◌<◌, ◌≡◌, ◌≢◌, ◌⊎◌, inl, inr, refl, ◌∙◌, ap, arith, Store, ◌==◌, ==_refl,
  ==_false_of_ne, Bool-cases, true, false, Option, none, some, if◌then◌else◌, ◌-◌, Option-cases,
  List, [], ◌∷◌, length,
}
use missy_kernel.Chrdev.{
  Chrdev, inode_size, inode_of, device_of, next_of, find_loop, find_device_inode,
}

-- A registered device: where its inode stands, and where the device itself does.
pub record Entry : Type 0 where
  pub at : ℕ
  pub device : ℕ

-- Two runs of bytes that have none in common.
abbrev pub Apart : ℕ → ℕ → ℕ → ℕ → Type 0
Apart a n b k = (a + n ≤ b) ⊎ (b + k ≤ a)

-- The `n` bytes from `a` on are none of the inodes'.
pub data Clear (a n : ℕ) : List Entry → Type 0 where
  clear_nil : Clear a n []
  clear_cons :
      {e : Entry} {es : List Entry} → Apart a n e.at inode_size → Clear a n es → Clear a n (e ∷ es)

pub record IsInode (m : Store) (number : ℕ) (e : Entry) : Type 0 where
  pub here : e.at ≢ 0
  pub inode : inode_of m e.at ≡ number
  pub points : device_of m e.at ≡ e.device

-- From `base` on the inodes of the devices stand in memory, numbered from 1, and the last one leads
-- to `q`.
pub data IsSegment (m : Store) (base : ℕ) : List Entry → ℕ → Type 0 where
  segment_start : {q : ℕ} → base ≡ q → IsSegment m base [] q
  segment_next :
      {e : Entry} {es : List Entry} {q : ℕ}
      → IsSegment m base es e.at
      → IsInode m (suc (length es)) e
      → Clear e.at inode_size es
      → next_of m e.at ≡ q
      → IsSegment m base (e ∷ es) q

-- The list that the static variables and the memory stand for.
pub data IsRegistry (base : ℕ) (k : Chrdev) : List Entry → Type 0 where
  no_device :
      k.current_inode ≡ 0
      → k.current_inode_number ≡ 1
      → base ≢ 0
      → inode_of k.heap.mem base ≡ 0
      → next_of k.heap.mem base ≡ 0
      → IsRegistry base k []
  devices :
      {e : Entry} {es : List Entry}
      → k.current_inode ≡ e.at
      → k.current_inode_number ≡ suc (suc (length es))
      → IsSegment k.heap.mem base (e ∷ es) 0
      → IsRegistry base k (e ∷ es)

-- The device with a descriptor, which is its place counted from the oldest.
abbrev pub by_descriptor : ℕ → List Entry → Option Entry
by_descriptor d [] = none
by_descriptor d (e ∷ es) = if d == suc (length es) then some e else by_descriptor d es

-- The address of the inode, or 0.
abbrev pub address : Option Entry → ℕ
address none = 0
address (some e) = e.at

by_descriptor_high : (d : ℕ) (es : List Entry) → length es < d → by_descriptor d es ≡ none
by_descriptor_high d [] h = refl
by_descriptor_high d (e ∷ es) h =
    rw (==_false_of_ne d (suc (length es)) (λ w. omega arith))
      (by_descriptor_high d es (omega arith))

module _ (m : Store) (base : ℕ) where
  find_loop-past :
      (fuel d : ℕ) (es : List Entry) (q : ℕ)
      → IsSegment m base es q
      → by_descriptor d es ≡ none
      → find_loop base (length es + fuel) m d base ≡ find_loop base fuel m d q
  unfolding find_loop
  find_loop-past fuel d [] q (segment_start w) n =
      let z : 0 + fuel ≡ fuel = omega arith in rw (z, w) refl
  find_loop-past fuel d (e ∷ es) q (segment_next s i c w) n =
      elim (Bool-cases (d == suc (length es))) [
        | inl y ↦ cc (rw y at n)
        | inr y ↦
            let t : suc (length es) + fuel ≡ length es + suc fuel = omega arith in
            let other : (inode_of m e.at == d) ≡ false =
              rw i.inode (==_false_of_ne (suc (length es)) d (λ v. ground arith)) in
            rw t (
              find_loop-past (suc fuel) d es e.at s (rw y at n)
              ∙ rw (find_loop, ==_false_of_ne e.at 0 i.here, other, w) refl)
      ]

  find_loop-found :
      (fuel d : ℕ) (es : List Entry) (q : ℕ) (x : Entry)
      → IsSegment m base es q
      → by_descriptor d es ≡ some x
      → find_loop base (length es + fuel) m d base ≡ some x.at
  unfolding find_loop
  find_loop-found fuel d [] q x s n = cc
  find_loop-found fuel d (e ∷ es) q x (segment_next s i c w) n =
      let t : suc (length es) + fuel ≡ length es + suc fuel = omega arith in
      elim (Bool-cases (d == suc (length es))) [
        | inl y ↦
            let low : length es < d = ground arith in
            let same : (inode_of m e.at == d) ≡ true =
              rw i.inode
                (let v : d ≡ suc (length es) = ground arith in rw v (==_refl (suc (length es)))) in
            let found : some e ≡ some x = rw y at n in
            rw t (
              find_loop-past (suc fuel) d es e.at s (by_descriptor_high d es low)
              ∙ rw (find_loop, ==_false_of_ne e.at 0 i.here, same)
                  (ap (λ (o : Option Entry). some (address o)) found))
        | inr y ↦ rw t (find_loop-found (suc fuel) d es e.at x s (rw y at n))
      ]

  -- With fuel for the inodes of the devices and two more, the walk from `base_inode` finds the
  -- inode with a descriptor other than 0.
  find_loop_segment :
      (fuel d : ℕ) (es : List Entry)
      → IsSegment m base es 0
      → length es < fuel
      → find_loop base fuel m d base ≡ some (address (by_descriptor d es))
  unfolding find_loop
  find_loop_segment fuel d es s f =
      let more = fuel - suc (length es) in
      let t : fuel ≡ length es + suc more = omega arith in
      elim (Option-cases (by_descriptor d es)) [
        | inl n ↦ rw (t, n) (find_loop-past (suc more) d es 0 s n ∙ refl)
        | inr (x, n) ↦ rw (t, n) (find_loop-found (suc more) d es 0 x s n)
      ]

-- For every descriptor but 0, the number of an unused `base_inode`, and with fuel for the inodes
-- and two more, `find_device_inode` returns the inode of the device that was registered as the one
-- of that number, and NULL where there is none.
pub find_device_inode_lem :
    (base fuel d : ℕ) (k : Chrdev) (es : List Entry)
    → IsRegistry base k es
    → d ≢ 0
    → length es + 2 ≤ fuel
    → find_device_inode base fuel k.heap.mem d ≡ some (address (by_descriptor d es))
unfolding find_device_inode find_loop
find_device_inode_lem base zero d k es r ne f = absurd (omega arith)
find_device_inode_lem base (suc zero) d k es r ne f = absurd (omega arith)
find_device_inode_lem base (suc (suc fuel)) d k [] (no_device c n b i x) ne f =
    let other : (inode_of k.heap.mem base == d) ≡ false =
      rw i (==_false_of_ne 0 d (λ w. ne (omega arith))) in
    rw (find_device_inode, find_loop, ==_false_of_ne base 0 b, other, x) refl
find_device_inode_lem base (suc (suc fuel)) d k (e ∷ es) (devices c n s) ne f =
    find_loop_segment k.heap.mem base (suc (suc fuel)) d (e ∷ es) s (omega arith)
