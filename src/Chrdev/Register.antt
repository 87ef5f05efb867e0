-- ===== src/Chrdev/Register.antt =====
-- The registration of a device: what it enters, and what it leaves where memory is short.
use missy_kernel.Base.{
  ℕ, suc, ◌+◌, ◌^◌, ◌≤◌, ◌<◌, ◌≡◌, ◌≢◌, refl, ◌∙◌, sym, ap, arith, Store, write32-byte,
  word-write32, word-write32_other, SameOutside, List, [], ◌∷◌, length, ◌==◌, ==_false_of_ne, some,
  false, ◌++◌, length-append,
}
use missy_kernel.Strings.Text.{IsText, IsText-SameOutside}
use missy_kernel.Malloc.{Heap, malloc}
use missy_kernel.Itoa.Glyphs.{capitals}
use missy_kernel.Itoa.Text.{numeral, length-numeral}
use missy_kernel.Display.{Display}
use missy_kernel.Printf.Pieces.{show}
use missy_kernel.Printf.Format.{Item, run, number, render}
use missy_kernel.Printf.Literals.{number-IsFormat}
use missy_kernel.Printf.Render.{vprintf-render}
use missy_kernel.Chrdev.{
  Chrdev, inode_size, next_of, set_mem, stdio, set_next, print_message, new_inode, enter,
  register_device,
}
use missy_kernel.Chrdev.Chain.{
  Entry, Apart, Clear, clear_nil, clear_cons, IsSegment, segment_start, segment_next, IsRegistry,
  no_device, devices,
}
use missy_kernel.Chrdev.Frame.{
  Clear_part, IsSegment-SameOutside, IsSegment-write32, Entered, enter-Entered,
}

-- "got inode address 0x" without its first character
abbrev pub message_tail : List ℕ
message_tail =
    111 ∷ 116 ∷ 32 ∷ 105 ∷ 110 ∷ 111 ∷ 100 ∷ 101 ∷ 32 ∷ 97 ∷ 100 ∷ 100 ∷ 114 ∷ 101 ∷ 115 ∷ 115 ∷ 32
    ∷ 48 ∷ 120 ∷ []

-- "got inode address 0x%x\n"
abbrev pub inode_message : List ℕ
inode_message = (103 ∷ message_tail) ++ 37 ∷ 120 ∷ 10 ∷ []

abbrev pub message_items : ℕ → List Item
message_items inode = run 103 message_tail ∷ number 16 inode ∷ run 10 [] ∷ []

-- The message is printed.
pub print_message-IsText :
    (stack : Store) (fuel format n : ℕ) (k : Chrdev)
    → IsText k.heap.mem format inode_message
    → n < 2 ^ 32
    → 80 ≤ fuel
    → print_message stack fuel format n k
      ≡ some (record k { display = show (render (message_items n)) k.display })
unfolding print_message
print_message-IsText stack fuel format n k x low f =
    let is =
      number-IsFormat (λ _. n) format n 103 message_tail 120 16 10 [] x refl refl refl refl low in
    let digits = length-numeral capitals 16 n in
    let size = length-append (numeral capitals 16 n) (10 ∷ []) in
    let e =
      vprintf-render stack k.heap.mem (λ _. n) fuel format (message_items n) (stdio k) is
        (omega (arith, digits)) (omega (arith, digits, size)) in
    rw (print_message, e.1) refl

-- What `new_inode` makes of a list: a new inode at `p`, to which the list leads.
record Prepared (base device format p : ℕ) (es : List Entry) (k k₁ : Chrdev) : Type 0 where
  segment : IsSegment k₁.heap.mem base es p
  last : next_of k₁.heap.mem p ≡ 0
  current : k₁.current_inode ≡ p
  number : k₁.current_inode_number ≡ suc (length es)
  minor : k₁.minor_revision_number ≡ k.minor_revision_number
  display : k₁.display ≡ k.display
  here : p ≢ 0
  low : p < 2 ^ 32
  room : Clear p inode_size es
  message : IsText k₁.heap.mem format inode_message
  same : (b : ℕ) → device ≤ b → b < device + 36 → k₁.heap.mem b ≡ k.heap.mem b
  alone : es ≡ [] → (b : ℕ) → Apart b 1 p inode_size → k₁.heap.mem b ≡ k.heap.mem b
  apart : Apart device 36 p inode_size
  clear : Clear device 36 es

-- Where the new inode is: `base_inode` for the first device, and a block from `malloc` behind that,
-- which leaves the inodes, the device and the message alone, and is apart from them.
pub data Room (base device format fuel : ℕ) (k : Chrdev) : List Entry → ℕ → Type 0 where
  room_first :
      {p : ℕ}
      → base ≡ p
      → p < 2 ^ 32
      → Apart device 36 p inode_size
      → Apart format 24 p inode_size
      → Room base device format fuel k [] p
  room_next :
      {e : Entry} {es : List Entry} {p : ℕ} (h : Heap) (a n : ℕ)
      → malloc fuel inode_size k.heap ≡ some (p, h)
      → p ≢ 0
      → p < 2 ^ 32
      → SameOutside a n k.heap.mem h.mem
      → Clear a n (e ∷ es)
      → Apart device 36 a n
      → Apart format 24 a n
      → Clear p inode_size (e ∷ es)
      → Apart device 36 p inode_size
      → Apart format 24 p inode_size
      → Clear device 36 (e ∷ es)
      → Clear format 24 (e ∷ es)
      → Room base device format fuel k (e ∷ es) p

-- The last inode is made to lead to `p`.
pub IsSegment-set_next :
    {m : Store} {base q : ℕ} (p : ℕ) {e : Entry} {es : List Entry}
    → p < 2 ^ 32
    → IsSegment m base (e ∷ es) q
    → IsSegment (set_next e.at p m) base (e ∷ es) p
IsSegment-set_next {m} p {e} {es} low (segment_next s i c w) =
    segment_next
      (IsSegment-write32 (e.at + 8) p (Clear_part (e.at + 8) 4 c (omega arith) (omega arith)) s)
      (record {
        here = i.here;
        inode = word-write32_other m (e.at + 8) p e.at (omega arith) ∙ i.inode;
        points = word-write32_other m (e.at + 8) p (e.at + 4) (omega arith) ∙ i.points;
      })
      c (word-write32 m (e.at + 8) p low)

pub IsText-set_next :
    {m : Store} (inode next format : ℕ)
    → Apart format 24 inode inode_size
    → IsText m format inode_message
    → IsText (set_next inode next m) format inode_message
IsText-set_next {m} inode next format o x =
    IsText-SameOutside (inode + 8) 4 inode_message format
      (λ b o. write32-byte m (inode + 8) next b o) x (omega arith)

new_inode-Prepared :
    (base device format fuel p : ℕ) (es : List Entry) (k : Chrdev)
    → IsRegistry base k es
    → Room base device format fuel k es p
    → IsText k.heap.mem format inode_message
    → (k₁ : Chrdev) × (new_inode base fuel k ≡ some (p, k₁)) × Prepared base device format p es k k₁
unfolding new_inode
new_inode-Prepared base device format fuel p [] k (no_device c n b z x) (room_first w low o f) t =
    let m = k.heap.mem in
    (
      record (set_mem (set_next base 0 m) k) { current_inode = base },
      rw (new_inode, c, w) refl,
      record {
        segment = segment_start w;
        last =
            ap (λ (q : ℕ). next_of (set_next base 0 m) q) (sym w)
            ∙ word-write32 m (base + 8) 0 (omega arith);
        current = w;
        number = n;
        minor = refl;
        display = refl;
        here = rw w at b;
        low = low;
        room = clear_nil;
        message = IsText-set_next base 0 format (omega arith) t;
        same = λ b l h. write32-byte m (base + 8) 0 b (omega arith);
        alone = λ first b q. write32-byte m (base + 8) 0 b (omega arith);
        apart = o;
        clear = clear_nil;
      },
    )
new_inode-Prepared base device format fuel p (e ∷ es) k (devices c n (segment_next s i x z))
      (room_next h a j got ne low same
        (clear_cons q₁ q₂)
        od
        of
        room
        o
        f
        (clear_cons d₁ d₂)
        (clear_cons f₁ f₂))
      t =
    let m₁ = set_next e.at p h.mem in
    let there : (k.current_inode == 0) ≡ false = rw c (==_false_of_ne e.at 0 i.here) in
    let s' = IsSegment-SameOutside a j same (clear_cons q₁ q₂) (segment_next s i x z) in
    let linked = IsSegment-set_next p low s' in
    (
      record k { heap = record h { mem = set_next p 0 m₁ }; current_inode = p },
      rw (new_inode, there, got, ==_false_of_ne p 0 ne, c) refl,
      record {
        segment =
            IsSegment-write32 (p + 8) 0 (Clear_part (p + 8) 4 room (omega arith) (omega arith))
              linked;
        last = word-write32 m₁ (p + 8) 0 (omega arith);
        current = refl;
        number = n;
        minor = refl;
        display = refl;
        here = ne;
        low = low;
        room = room;
        message = IsText-set_next p 0 format f (
            IsText-set_next e.at p format f₁
              (IsText-SameOutside a j inode_message format same t (omega arith)));
        alone = λ first b q. absurd (cc);
        same = λ b l g.
            write32-byte m₁ (p + 8) 0 b (omega arith)
            ∙ write32-byte h.mem (e.at + 8) p b (omega arith)
            ∙ same b (omega arith);
        apart = o;
        clear = clear_cons d₁ d₂;
      },
    )

-- Where the statics and the memory stand for a list of devices, the new inode has room, the format
-- of the message is in memory, there is fuel for it, and the counters are within 32 bits:
-- `register_device` returns, prints the message with the inode's address, makes the device the
-- newest of the list, returns its descriptor, one more than the devices there were, and enters it
-- and the minor revision into the device, of which it leaves all fields behind these as they were.
-- For the first device it changes no other memory but the inode.
pub register_device_lem :
    (stack : Store) (base device format fuel p : ℕ) (es : List Entry) (k : Chrdev)
    → IsRegistry base k es
    → Room base device format fuel k es p
    → IsText k.heap.mem format inode_message
    → length es + 2 < 2 ^ 32
    → device < 2 ^ 32
    → k.minor_revision_number < 2 ^ 32
    → 80 ≤ fuel
    → (r : ℕ × Chrdev) × (register_device base stack fuel format device k ≡ some r)
      × Entered base device es k.heap.mem k.minor_revision_number p r
      × (r.1.display ≡ show (render (message_items p)) k.display)
unfolding register_device enter
register_device_lem stack base device format fuel p es k reg room text few low minor f =
    let (k₁, e, x) = new_inode-Prepared base device format fuel p es k reg room text in
    let printed = print_message-IsText stack fuel format p k₁ x.message x.low f in
    let k₂ = record k₁ { display = show (render (message_items p)) k₁.display } in
    let y =
      enter-Entered base p device k₂ es x.segment x.last x.current x.number x.here x.room x.clear
        x.apart few low (rw x.minor minor) in
    (
      enter base p device k₂,
      rw (register_device, e, printed, ==_false_of_ne p 0 x.here) refl,
      record {
        returns = y.returns;
        registry = y.registry;
        descriptor = y.descriptor;
        minor_revision = y.minor_revision ∙ x.minor;
        functions = λ b l h. y.functions b l h ∙ x.same b (omega arith) h;
        alone = λ first b o o'. y.alone first b o o' ∙ x.alone first b o;
      },
      ap (λ (d : Display). show (render (message_items p)) d) x.display,
    )
