-- ===== src/Chrdev/Dispatch.antt =====
-- Reading and writing by descriptor, on the list of the devices.
use missy_kernel.Base.{
  ℕ, suc, ◌+◌, ◌≤◌, ◌≡◌, ◌≢◌, inl, inr, refl, ◌∙◌, ap, subst, arith, Store, ◌==◌, ==_false_of_ne,
  Bool-cases, Option-cases, Option, none, some, if◌then◌else◌, List, [], ◌∷◌, length,
}
use missy_kernel.Chrdev.{
  Chrdev, device_of, readchar_of, write_of, Calls, read_device_char, write_device,
  find_device_inode,
}
use missy_kernel.Chrdev.Chain.{
  Entry, IsInode, IsSegment, segment_next, IsRegistry, devices, by_descriptor,
  find_device_inode_lem,
}

segment-IsInode :
    {m : Store} {base q : ℕ} (d : ℕ) (es : List Entry) (x : Entry)
    → IsSegment m base es q
    → by_descriptor d es ≡ some x
    → IsInode m d x
segment-IsInode d [] x s n = cc
segment-IsInode {m} d (e ∷ es) x (segment_next s i c w) n =
    elim (Bool-cases (d == suc (length es))) [
      | inl y ↦
          let found : some e ≡ some x = rw y at n in
          let same : suc (length es) ≡ d = ground (arith, y) in
          let newest : e ≡ x = cc in subst (λ (z : Entry). IsInode m d z) newest (rw same at i)
      | inr y ↦ segment-IsInode d es x s (rw y at n)
    ]

pub by_descriptor-IsInode :
    (base d : ℕ) (k : Chrdev) (es : List Entry) (x : Entry)
    → IsRegistry base k es
    → by_descriptor d es ≡ some x
    → IsInode k.heap.mem d x
by_descriptor-IsInode base d k [] x r n = cc
by_descriptor-IsInode base d k (e ∷ es) x (devices c m s) n = segment-IsInode d (e ∷ es) x s n

-- What a function returned, as the value of a function that may end without one.
abbrev pub with_value : {S : Type 0} → Option (ℕ × S) → Option (Option ℕ × S)
with_value none = none
with_value (some (c, s)) = some (some c, s)

module _ {S : Type 0} (calls : Calls S) where
  -- A device reads a character by its function, if it has one.
  abbrev pub read_entry : Store → Option Entry → S → Option (Option ℕ × S)
  read_entry m none s = some (none, s)
  read_entry m (some e) s =
      if readchar_of m e.device == 0
      then some (none, s)
      else with_value (calls.readchar (readchar_of m e.device) s)

  -- A device writes by its function, and it is an error that it has none.
  abbrev pub write_entry : ℕ → ℕ → Store → Option Entry → S → Option (ℕ × S)
  write_entry buffer length m none s = some (0xffff_ffff, s)
  write_entry buffer length m (some e) s =
      if write_of m e.device == 0
      then some (0xffff_ffff, s)
      else calls.write (write_of m e.device) m buffer length s

  module _ (base fuel d : ℕ) (k : Chrdev) (es : List Entry) where
    -- With fuel for the inodes and two more, and for a descriptor other than 0:
    -- `read_device_char` calls the `readchar` and `write_device` the `write` of the device that was
    -- registered as the one of that number. Where there is no such device or it has no such function,
    -- the first ends without a value and the second returns -1, and neither calls anything.
    pub read_device_char-write_device :
        (buffer length' : ℕ) (s : S)
        → IsRegistry base k es
        → d ≢ 0
        → length es + 2 ≤ fuel
        → (read_device_char base calls fuel d k.heap.mem s
            ≡ read_entry k.heap.mem (by_descriptor d es) s)
          × (write_device base calls fuel d buffer length' k.heap.mem s
              ≡ write_entry buffer length' k.heap.mem (by_descriptor d es) s)
    unfolding read_device_char write_device
    read_device_char-write_device buffer length' s r ne f =
        let found = find_device_inode_lem base fuel d k es r ne f in
        elim (Option-cases (by_descriptor d es)) [
          | inl n ↦
              let e : find_device_inode base fuel k.heap.mem d ≡ some 0 = rw n at found in
              rw n (rw (read_device_char, e) refl, rw (write_device, e) refl)
          | inr (x, n) ↦
              let e : find_device_inode base fuel k.heap.mem d ≡ some x.at = rw n at found in
              let i = by_descriptor-IsInode base d k es x r n in
              let here = ==_false_of_ne x.at 0 i.here in
              let m = k.heap.mem in
              let readchar : (readchar_of m (device_of m x.at) == 0)
                  ≡ (readchar_of m x.device == 0) =
                ap (λ (p : ℕ). readchar_of m p == 0) i.points in
              let write : (write_of m (device_of m x.at) == 0) ≡ (write_of m x.device == 0) =
                ap (λ (p : ℕ). write_of m p == 0) i.points in
              rw n (
                elim (Bool-cases (readchar_of m x.device == 0)) [
                  | inl t ↦ rw (read_device_char, e, here, readchar ∙ t, t) refl
                  | inr t ↦
                      rw (read_device_char, e, here, readchar ∙ t, t)
                        (ap (λ (p : ℕ). with_value (calls.readchar (readchar_of m p) s)) i.points)
                ],
                elim (Bool-cases (write_of m x.device == 0)) [
                  | inl t ↦ rw (write_device, e, here, write ∙ t, t) refl
                  | inr t ↦
                      rw (write_device, e, here, write ∙ t, t)
                        (ap (λ (p : ℕ). calls.write (write_of m p) m buffer length' s) i.points)
                ],
              )
        ]
