-- ===== src/Chrdev/Reach.antt =====
-- The states that registrations lead to, between which other code writes to other memory.
use missy_kernel.Base.{
  ℕ, suc, ◌+◌, ◌^◌, ◌≤◌, ◌<◌, ◌≡◌, ◌≢◌, inl, inr, ◌∙◌, sym, ap, subst, arith, Store, SameOutside,
  ◌==◌, ==_false_of_ne, Bool-cases, some, List, [], ◌∷◌, length,
}
use missy_kernel.Strings.Text.{IsText}
use missy_kernel.Malloc.{Heap}
use missy_kernel.Chrdev.{Chrdev, inode_size, device_of, register_device, find_device_inode}
use missy_kernel.Chrdev.Chain.{
  Entry, Apart, Clear, clear_cons, IsSegment, segment_next, IsRegistry, devices, by_descriptor,
  find_device_inode_lem,
}
use missy_kernel.Chrdev.Frame.{IsRegistry-SameOutside}
use missy_kernel.Chrdev.Register.{Room, inode_message, register_device_lem}
use missy_kernel.Chrdev.Dispatch.{by_descriptor-IsInode}

-- From one state of the list to another by registrations, and by writes to other memory.
pub data Reached (stack : Store) (base format fuel : ℕ) (k₀ : Chrdev) (es₀ : List Entry)
    : Chrdev → List Entry → Type 0 where
  start : Reached stack base format fuel k₀ es₀ k₀ es₀
  register :
      {k : Chrdev} {es : List Entry} (d device p : ℕ) (k' : Chrdev)
      → Reached stack base format fuel k₀ es₀ k es
      → Room base device format fuel k es p
      → IsText k.heap.mem format inode_message
      → length es + 2 < 2 ^ 32
      → device < 2 ^ 32
      → k.minor_revision_number < 2 ^ 32
      → register_device base stack fuel format device k ≡ some (d, k')
      → Reached stack base format fuel k₀ es₀ k' (record { at = p; device = device } ∷ es)
  elsewhere :
      {k : Chrdev} {es : List Entry} (a n : ℕ) (h : Heap)
      → Reached stack base format fuel k₀ es₀ k es
      → SameOutside a n k.heap.mem h.mem
      → Apart a n base inode_size
      → Clear a n es
      → Reached stack base format fuel k₀ es₀ (record k { heap = h }) es

some-injective : {A : Type 0} (a b : A) → some a ≡ some b → a ≡ b
some-injective a b e = cc

Reached-IsRegistry :
    {stack : Store} {base format fuel : ℕ} {k₀ : Chrdev} {es₀ : List Entry} {k : Chrdev}
    {es : List Entry}
    → 80 ≤ fuel
    → IsRegistry base k₀ es₀
    → Reached stack base format fuel k₀ es₀ k es
    → IsRegistry base k es
Reached-IsRegistry f first start = first
Reached-IsRegistry {stack} {base} {format} {fuel} f first
      (register {k} {es} d device p k' before room text few low minor e) =
    let reg = Reached-IsRegistry f first before in
    let (r, e', x, _) =
      register_device_lem stack base device format fuel p es k reg room text few low minor f in
    let same : r ≡ (d, k') = some-injective r (d, k') (sym e' ∙ e) in
    subst (λ (q : ℕ × Chrdev). IsRegistry base q.1 (record { at = p; device = device } ∷ es)) same
      x.registry
Reached-IsRegistry {stack} {base} f first (elsewhere {k} {es} a n h before same o c) =
    IsRegistry-SameOutside a n base k h same o c (Reached-IsRegistry f first before)

by_descriptor-le :
    (d : ℕ) (es : List Entry) (x : Entry) → by_descriptor d es ≡ some x → d ≤ length es
by_descriptor-le d [] x n = cc
by_descriptor-le d (e ∷ es) x n = elim (Bool-cases (d == suc (length es))) [
  | inl y ↦ ground (arith, y)
  | inr y ↦ omega (arith, by_descriptor-le d es x (rw y at n))
]

Clear-ne :
    (a d : ℕ) (es : List Entry) (x : Entry)
    → Clear a inode_size es
    → by_descriptor d es ≡ some x
    → x.at ≢ a
Clear-ne a d [] x c n w = cc
Clear-ne a d (e ∷ es) x (clear_cons o c) n w = elim (Bool-cases (d == suc (length es))) [
  | inl y ↦
      let found : some e ≡ some x = rw y at n in
      let at : e.at ≡ x.at = ap (λ (z : Entry). z.at) (some-injective e x found) in
      omega (arith, at, w, o)
  | inr y ↦ Clear-ne a d es x c (rw y at n) w
]

by_descriptor-pos : (d : ℕ) (es : List Entry) (x : Entry) → by_descriptor d es ≡ some x → 0 < d
by_descriptor-pos d [] x n = cc
by_descriptor-pos d (e ∷ es) x n = elim (Bool-cases (d == suc (length es))) [
  | inl y ↦ ground (arith, y)
  | inr y ↦ by_descriptor-pos d es x (rw y at n)
]

-- What has a descriptor keeps it.
Reached-by_descriptor :
    {stack : Store} {base format fuel : ℕ} {k₀ : Chrdev} {es₀ : List Entry} {k : Chrdev}
    {es : List Entry} (d : ℕ) (x : Entry)
    → by_descriptor d es₀ ≡ some x
    → Reached stack base format fuel k₀ es₀ k es
    → by_descriptor d es ≡ some x
Reached-by_descriptor d x n start = n
Reached-by_descriptor d x n (register {k} {es} _ _ _ _ before _ _ _ _ _ _) =
    let old = Reached-by_descriptor d x n before in
    let l = by_descriptor-le d es x old in
    rw (==_false_of_ne d (suc (length es)) (λ w. omega (arith, w, l))) old
Reached-by_descriptor d x n (elsewhere _ _ _ before _ _ _) = Reached-by_descriptor d x n before

-- Two devices with one inode have one descriptor.
IsSegment-distinct :
    {m : Store} {base q : ℕ} (d d' : ℕ) (es : List Entry) (x x' : Entry)
    → IsSegment m base es q
    → by_descriptor d es ≡ some x
    → by_descriptor d' es ≡ some x'
    → x.at ≡ x'.at
    → d ≡ d'
IsSegment-distinct d d' [] x x' s n n' w = cc
IsSegment-distinct d d' (e ∷ es) x x' (segment_next s i c z) n n' w =
    elim (Bool-cases (d == suc (length es))) [
      | inl y ↦
          let f : some e ≡ some x = rw y at n in
          let at : e.at ≡ x.at = ap (λ (z : Entry). z.at) (some-injective e x f) in
          elim (Bool-cases (d' == suc (length es))) [
            | inl y' ↦ ground (arith, y, y')
            | inr y' ↦ absurd (Clear-ne e.at d' es x' c (rw y' at n') (sym w ∙ sym at))
          ]
      | inr y ↦ elim (Bool-cases (d' == suc (length es))) [
        | inl y' ↦
            let f : some e ≡ some x' = rw y' at n' in
            let at : e.at ≡ x'.at = ap (λ (z : Entry). z.at) (some-injective e x' f) in
            absurd (Clear-ne e.at d es x c (rw y at n) (w ∙ sym at))
        | inr y' ↦ IsSegment-distinct d d' es x x' s (rw y at n) (rw y' at n') w
      ]
    ]

IsRegistry-distinct :
    {base : ℕ} {k : Chrdev} (d d' : ℕ) (es : List Entry) (x x' : Entry)
    → IsRegistry base k es
    → by_descriptor d es ≡ some x
    → by_descriptor d' es ≡ some x'
    → x.at ≡ x'.at
    → d ≡ d'
IsRegistry-distinct d d' [] x x' r n n' w = cc
IsRegistry-distinct d d' (e ∷ es) x x' (devices _ _ s) n n' w =
    IsSegment-distinct d d' (e ∷ es) x x' s n n' w

-- After the statics and the memory stood for a list of devices, whatever further devices
-- `register_device` was called for, each with room and the format in memory, and whatever was
-- written in between to memory other than the inodes: with enough fuel, `find_device_inode` finds
-- for the descriptor of each of those devices the inode it had, that inode still holds the address
-- of the device, and the inode of no other descriptor is the same one.
pub Reached-found :
    (stack : Store) (base format fuel fuel' d : ℕ) (k₀ k : Chrdev) (es₀ es : List Entry) (x : Entry)
    → IsRegistry base k₀ es₀
    → by_descriptor d es₀ ≡ some x
    → Reached stack base format fuel k₀ es₀ k es
    → 80 ≤ fuel
    → length es + 2 ≤ fuel'
    → (find_device_inode base fuel' k.heap.mem d ≡ some x.at)
      × (device_of k.heap.mem x.at ≡ x.device)
      × ((d' : ℕ) (x' : Entry) → by_descriptor d' es ≡ some x' → x.at ≡ x'.at → d ≡ d')
Reached-found stack base format fuel fuel' d k₀ k es₀ es x first n reached f f' =
    let reg = Reached-IsRegistry f first reached in
    let now = Reached-by_descriptor d x n reached in
    let pos = by_descriptor-pos d es x now in
    let found = find_device_inode_lem base fuel' d k es reg (λ w. omega (arith, w, pos)) f' in
    (
      rw now at found,
      (by_descriptor-IsInode base d k es x reg now).points,
      λ d' x' n' w. IsRegistry-distinct d d' es x x' reg now n' w,
    )
