-- ===== src/Chrdev/Memory.antt =====
-- The registration of a device and the heap: a free block that fits has room for the new inode, and
-- a heap without one makes the registration fail.
use missy_kernel.Base.{
  ℕ, ◌+◌, ◌^◌, ◌≤◌, ◌<◌, ◌≡◌, ◌≢◌, ◌⊎◌, inl, inr, refl, arith, Store, SameOutside, List, ◌∷◌, ◌==◌,
  ==_false_of_ne, some, false,
}
use missy_kernel.Balloc.{enomem}
use missy_kernel.Strings.Text.{IsText, IsText-SameOutside}
use missy_kernel.Malloc.{Heap, next_of, size_of, malloc}
use missy_kernel.Malloc.Fit.{Reaches, malloc_lem}
use missy_kernel.Printf.Pieces.{show}
use missy_kernel.Printf.Format.{render}
use missy_kernel.Brk.{set_errno}
use missy_kernel.Chrdev.{Chrdev, inode_size, new_inode, register_device, set_next}
use missy_kernel.Chrdev.Chain.{Entry, Apart, Clear, segment_next, IsRegistry, devices}
use missy_kernel.Chrdev.Frame.{Clear_part, IsSegment-SameOutside}
use missy_kernel.Chrdev.Register.{
  Room, room_next, inode_message, message_items, print_message-IsText, IsSegment-set_next,
  IsText-set_next,
}

-- What stands apart from the free block at `header` and from the header `prev` in front of it.
pub record Outside (prev header size : ℕ) (device format : ℕ) (es : List Entry) : Type 0 where
  pub device_prev : Apart device 36 prev 4
  pub device_block : Apart device 36 header size
  pub format_prev : Apart format 24 prev 4
  pub format_block : Apart format 24 header size
  pub inodes_prev : Clear prev 4 es
  pub inodes_block : Clear header size es
  pub inodes_device : Clear device 36 es
  pub inodes_format : Clear format 24 es

pub malloc-Room :
    (base device format fuel n prev header : ℕ) (k : Chrdev) (e : Entry) (es : List Entry)
    → k.heap.next_free ≢ 0
    → ((b : ℕ) → k.heap.mem b < 256)
    → Reaches k.heap.mem 20 k.heap.next_free k.heap.next_free
        (next_of k.heap.mem k.heap.next_free)
        n
        prev
        header
    → (size_of k.heap.mem header ≡ 20) ⊎ (28 ≤ size_of k.heap.mem header)
    → header + size_of k.heap.mem header < 2 ^ 32
    → n < fuel
    → Outside prev header (size_of k.heap.mem header) device format (e ∷ es)
    → (p : ℕ) × Room base device format fuel k (e ∷ es) p
malloc-Room base device format fuel n prev header k e es ne bytes r size room f o =
    let (p, h, got, t) = malloc_lem fuel 12 n prev header k.heap ne bytes r size room f in
    let clear =
      Clear_part p inode_size o.inodes_block (omega (arith, t.behind, t.up_to_end))
        (omega (arith, t.behind, t.up_to_end)) in
    let behind = t.behind in
    let up_to_end = t.up_to_end in
    (
      p,
      elim t.how [
        | inl w ↦
            room_next h prev 4 got (λ z. omega arith) (omega arith) w.same o.inodes_prev
              o.device_prev o.format_prev clear (omega arith) (omega arith) o.inodes_device
              o.inodes_format
        | inr w ↦
            room_next h header (size_of k.heap.mem header) got (λ z. omega arith) (omega arith)
              (λ b q. w.same b (omega arith)) o.inodes_block o.device_block o.format_block clear
              (omega arith) (omega arith) o.inodes_device o.inodes_format
      ],
    )

-- Behind the first device, where `malloc` returns NULL and leaves the inodes and the message alone,
-- and there is fuel to print it: `register_device` returns -1 with ENOMEM in `errno`, and the
-- devices are the ones there were.
pub register_device_short :
    (stack : Store) (base device format fuel a n : ℕ) (e : Entry) (es : List Entry) (k : Chrdev)
    (h : Heap)
    → IsRegistry base k (e ∷ es)
    → malloc fuel inode_size k.heap ≡ some (0, h)
    → SameOutside a n k.heap.mem h.mem
    → Clear a n (e ∷ es)
    → Apart format 24 a n
    → Apart format 24 e.at inode_size
    → IsText k.heap.mem format inode_message
    → 80 ≤ fuel
    → (k' : Chrdev) × (register_device base stack fuel format device k ≡ some (0xffff_ffff, k'))
      × IsRegistry base k' (e ∷ es)
      × (k'.heap.brk.pagemngr.balloc.errno ≡ enomem)
unfolding register_device new_inode
register_device_short stack base device format fuel a n e es k h
      (devices c number (segment_next s i x z)) got same clear o o' text f =
    let there : (k.current_inode == 0) ≡ false = rw c (==_false_of_ne e.at 0 i.here) in
    let linked =
      IsSegment-set_next 0 (omega arith)
        (IsSegment-SameOutside a n same clear (segment_next s i x z)) in
    let text' =
      IsText-set_next e.at 0 format o'
        (IsText-SameOutside a n inode_message format same text (omega arith)) in
    let k₁ = record k { heap = record h { mem = set_next e.at 0 h.mem } } in
    let made : new_inode base fuel k ≡ some (0, k₁) = rw (new_inode, there, got, c) refl in
    let printed = print_message-IsText stack fuel format 0 k₁ text' (omega arith) f in
    (
      record k₁ {
        heap = record k₁.heap { brk = set_errno enomem h.brk };
        display = show (render (message_items 0)) k.display;
      },
      rw (register_device, made, printed) refl,
      devices c number linked,
      refl,
    )
