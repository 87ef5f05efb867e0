-- ===== src/Serial/Registered.antt =====
-- The serial port behind the descriptor that `serial_init` returns.
use missy_kernel.Base.{
  ℕ, suc, ◌+◌, ◌^◌, ◌≤◌, ◌<◌, ◌≡◌, ◌≢◌, ◌⊎◌, inl, inr, refl, ◌∙◌, ap, arith, Store, u16, ==_refl,
  ==_false_of_ne, Option, some, List, [], ◌∷◌, length, write32, write32-byte, word, word-write32,
  word-write32_other, SameOutside,
}
use missy_kernel.Strings.Text.{IsText, IsText-SameOutside}
use missy_kernel.Malloc.{Heap, malloc}
use missy_kernel.Chrdev.{
  Chrdev, Calls, inode_size, readchar_of, write_of, read_device_char, write_device,
}
use missy_kernel.Chrdev.Chain.{by_descriptor, Entry, Apart, Clear, IsRegistry}
use missy_kernel.Chrdev.Frame.{IsRegistry-SameOutside, Entered}
use missy_kernel.Printf.Pieces.{show}
use missy_kernel.Printf.Format.{render}
use missy_kernel.Chrdev.Register.{message_items, Room, inode_message, register_device_lem}
use missy_kernel.Chrdev.Dispatch.{
  read_entry, write_entry, with_value, read_device_char-write_device,
}
use missy_kernel.Serial.{Serial, initialize_serial_device, serial_read_char, serial_write_chars}
use missy_kernel.Serial.Device.{
  Functions, Messages, SerialDevice, device_size, describe, serial_init, serial_calls,
}

describe-SameOutside :
    (f : Functions) (device : ℕ) (m : Store)
    → SameOutside device device_size m (describe f device m)
unfolding describe
describe-SameOutside f device m b o =
    let m₁ = write32 m device 0 in
    let m₂ = write32 m₁ (device + 16) f.read_char in
    let m₃ = write32 m₂ (device + 20) f.read_chars in
    let m₄ = write32 m₃ (device + 24) f.write_chars in
    let m₅ = write32 m₄ (device + 28) f.open_port in
    let m₆ = write32 m₅ (device + 32) f.close_port in
    write32-byte m₆ (device + 4) 0 b (omega arith)
    ∙ write32-byte m₅ (device + 32) f.close_port b (omega arith)
    ∙ write32-byte m₄ (device + 28) f.open_port b (omega arith)
    ∙ write32-byte m₃ (device + 24) f.write_chars b (omega arith)
    ∙ write32-byte m₂ (device + 20) f.read_chars b (omega arith)
    ∙ write32-byte m₁ (device + 16) f.read_char b (omega arith)
    ∙ write32-byte m device 0 b (omega arith)

-- The two functions that `chrdev.c` calls.
describe-calls :
    (f : Functions) (device : ℕ) (m : Store)
    → f.read_char < 2 ^ 32
    → f.write_chars < 2 ^ 32
    → (readchar_of (describe f device m) device ≡ f.read_char)
      × (write_of (describe f device m) device ≡ f.write_chars)
unfolding describe
describe-calls f device m lr lw =
    let m₁ = write32 m device 0 in
    let m₂ = write32 m₁ (device + 16) f.read_char in
    let m₃ = write32 m₂ (device + 20) f.read_chars in
    let m₄ = write32 m₃ (device + 24) f.write_chars in
    let m₅ = write32 m₄ (device + 28) f.open_port in
    let m₆ = write32 m₅ (device + 32) f.close_port in
    let behind = λ (b : ℕ) (o : (b ≡ device + 16) ⊎ (b ≡ device + 24)).
      word-write32_other m₆ (device + 4) 0 b (omega (arith, o))
      ∙ word-write32_other m₅ (device + 32) f.close_port b (omega (arith, o))
      ∙ word-write32_other m₄ (device + 28) f.open_port b (omega (arith, o)) in
    (
      behind (device + 16) (inl refl)
          ∙ word-write32_other m₃ (device + 24) f.write_chars (device + 16) (omega arith)
          ∙ word-write32_other m₂ (device + 20) f.read_chars (device + 16) (omega arith)
          ∙ word-write32 m₁ (device + 16) f.read_char lr,
      behind (device + 24) (inr refl) ∙ word-write32 m₃ (device + 24) f.write_chars lw,
    )

-- Where the device of the serial port and its inode are to stand, and what is there before.
pub record Place (base fuel : ℕ) (f : Functions) (messages : Messages) (k : Chrdev)
    (es : List Entry) (device p a n : ℕ) (h : Heap) : Type 0 where
  pub allocated : malloc fuel device_size k.heap ≡ some (device, h)
  pub here : device ≢ 0
  pub low : device < 2 ^ 32
  pub same : SameOutside a n k.heap.mem h.mem
  pub clear : Clear a n es
  pub base_apart : Apart a n base inode_size
  pub message_apart : Apart messages.got_inode 24 a n
  pub device_clear : Clear device device_size es
  pub device_base : Apart device device_size base inode_size
  pub device_message : Apart messages.got_inode 24 device device_size
  pub room :
      Room base device messages.got_inode fuel
        (record k { heap = record h { mem = describe f device h.mem } })
        es
        p

-- The state in front of the registration.
abbrev described : Functions → ℕ → Heap → Chrdev → Chrdev
described f device h k = record k { heap = record h { mem = describe f device h.mem } }

module _ (f : Functions) (messages : Messages) (base fuel : ℕ) (k : Chrdev) (es : List Entry)
    (device p a n : ℕ) (h : Heap) where
  described-IsRegistry :
      Place base fuel f messages k es device p a n h
      → IsRegistry base k es
      → IsRegistry base (described f device h k) es
  described-IsRegistry x r =
      IsRegistry-SameOutside device device_size base (record k { heap = h })
        (record h { mem = describe f device h.mem }) (describe-SameOutside f device h.mem)
        x.device_base x.device_clear
        (IsRegistry-SameOutside a n base k h x.same x.base_apart x.clear r)

  described-IsText :
      Place base fuel f messages k es device p a n h
      → IsText k.heap.mem messages.got_inode inode_message
      → IsText (describe f device h.mem) messages.got_inode inode_message
  described-IsText x t =
      IsText-SameOutside device device_size inode_message messages.got_inode
        (describe-SameOutside f device h.mem)
        (IsText-SameOutside a n inode_message messages.got_inode x.same t
          (omega (arith, x.message_apart)))
        (omega (arith, x.device_message))

-- The functions of the device are those of the driver still when it has been entered.
Entered-calls :
    (f : Functions) (base device p minor : ℕ) (es : List Entry) (m : Store) (r : ℕ × Chrdev)
    → f.read_char < 2 ^ 32
    → f.write_chars < 2 ^ 32
    → Entered base device es (describe f device m) minor p r
    → (readchar_of r.1.heap.mem device ≡ f.read_char)
      × (write_of r.1.heap.mem device ≡ f.write_chars)
Entered-calls f base device p minor es m r lr lw x =
    let (e, e') = describe-calls f device m lr lw in
    (kept 16 (omega arith) (omega arith) ∙ e, kept 24 (omega arith) (omega arith) ∙ e')
  where
    kept :
        (o : ℕ)
        → 12 ≤ o
        → o + 4 ≤ 36
        → word r.1.heap.mem (device + o) ≡ word (describe f device m) (device + o)
    kept o l h = omega (
      arith,
      x.functions (device + o) (omega arith) (omega arith),
      x.functions (device + o + 1) (omega arith) (omega arith),
      x.functions (device + o + 2) (omega arith) (omega arith),
      x.functions (device + o + 3) (omega arith) (omega arith),
    )

-- A device with the driver's functions reads and writes by them.
serial_calls-entry :
    (inportb : ℕ → ℕ → ℕ) (polls : ℕ) (f : Functions) (others : Calls Serial) (m : Store)
    (e : Entry) (buffer len : ℕ) (t : Serial)
    → readchar_of m e.device ≡ f.read_char
    → write_of m e.device ≡ f.write_chars
    → f.read_char ≢ 0
    → f.write_chars ≢ 0
    → (read_entry (serial_calls inportb polls f others) m (some e) t
        ≡ with_value (serial_read_char inportb polls t))
      × (write_entry (serial_calls inportb polls f others) buffer len m (some e) t
          ≡ serial_write_chars inportb polls m buffer len t)
unfolding serial_calls
serial_calls-entry inportb polls f others m e buffer len t rc wc nr nw = (
  rw (rc, ==_false_of_ne f.read_char 0 nr, ==_refl f.read_char) refl,
  rw (wc, ==_false_of_ne f.write_chars 0 nw, ==_refl f.write_chars) refl,
)

-- What holds where `serial_init` has returned a descriptor.
pub record Registered (base fuel : ℕ) (calls : Calls Serial) (read : Serial → Option (ℕ × Serial))
    (write : Store → ℕ → ℕ → Serial → Option (ℕ × Serial)) (es : List Entry) (device p a n : ℕ)
    (started : Serial) (s : SerialDevice) (r : ℕ × SerialDevice) : Type 0 where
  pub returns : r.0 ≡ suc (length es)
  pub registry : IsRegistry base r.1.chrdev (record { at = p; device = device } ∷ es)
  pub serial : r.1.serial ≡ started
  pub display : r.1.chrdev.display ≡ show (render (message_items p)) s.chrdev.display
  pub alone :
      es ≡ []
      → (b : ℕ) → Apart b 1 a n
      → Apart b 1 device device_size
      → Apart b 1 p inode_size
      → r.1.chrdev.heap.mem b ≡ s.chrdev.heap.mem b
  pub reads :
      (t : Serial)
      → read_device_char base calls fuel r.0 r.1.chrdev.heap.mem t ≡ with_value (read t)
  pub writes :
      (buffer len : ℕ) (t : Serial)
      → write_device base calls fuel r.0 buffer len r.1.chrdev.heap.mem t
        ≡ write r.1.chrdev.heap.mem buffer len t

module _ (inportb : ℕ → ℕ → ℕ) (pic_ports : List (ℕ × ℕ) → ℕ → ℕ) (irq : ℕ) (f : Functions)
    (messages : Messages) (stack : Store) (base fuel polls port : ℕ) (others : Calls Serial)
    (s : SerialDevice) (es : List Entry) (device p a n : ℕ) (h : Heap) where
  -- Where the statics and the memory stand for a list of devices, `malloc` has room for the device
  -- and there is room for its inode, the text of the message is in memory, the driver's functions
  -- have addresses other than 0, the counters are within 32 bits and there is fuel for the message
  -- and the inodes: `serial_init` sets the port up and returns the next descriptor, and
  -- `read_device_char` and `write_device` with that descriptor are `serial_read_char` and
  -- `serial_write_chars`. The message is shown, and for the first device no other memory changes but
  -- the device, its inode and what the allocation of the device changes.
  pub serial_init-Registered :
      Place base fuel f messages s.chrdev es device p a n h
      → IsRegistry base s.chrdev es
      → IsText s.chrdev.heap.mem messages.got_inode inode_message
      → f.read_char ≢ 0
      → f.write_chars ≢ 0
      → f.read_char < 2 ^ 32
      → f.write_chars < 2 ^ 32
      → length es + 2 < 2 ^ 32
      → s.chrdev.minor_revision_number < 2 ^ 32
      → 80 ≤ fuel
      → length es + 3 ≤ fuel
      → (r : ℕ × SerialDevice) × (serial_init pic_ports irq f messages stack base fuel port s
          ≡ some r)
        × Registered base fuel
            (serial_calls inportb polls f others)
            (serial_read_char inportb polls)
            (serial_write_chars inportb polls)
            es
            device
            p
            a
            n
            (initialize_serial_device pic_ports irq (u16 port) s.serial)
            s
            r
  unfolding serial_init serial_calls
  serial_init-Registered x reg text nr nw lr lw few minor fuel₁ fuel₂ =
      let k = described f device h s.chrdev in
      let started = initialize_serial_device pic_ports irq (u16 port) s.serial in
      let calls = serial_calls inportb polls f others in
      let (r, e, y, shown) =
        register_device_lem stack base device messages.got_inode fuel p es k
          (described-IsRegistry f messages base fuel s.chrdev es device p a n h x reg) x.room
          (described-IsText f messages base fuel s.chrdev es device p a n h x text) few x.low minor
          fuel₁ in
      let m = r.1.heap.mem in
      let newest : Entry = record { at = p; device = device } in
      let (rc, wc) =
        Entered-calls f base device p s.chrdev.minor_revision_number es h.mem r lr lw y in
      let d : r.0 ≢ 0 = λ w. omega (arith, y.returns, w) in
      let dispatch = λ (buffer len : ℕ) (t : Serial).
        read_device_char-write_device calls base fuel r.0 r.1 (newest ∷ es) buffer len t y.registry
          d (omega (arith, fuel₂)) in
      let found : by_descriptor r.0 (newest ∷ es) ≡ some newest =
        rw (y.returns, ==_refl (suc (length es))) refl in
      (
        (r.0, record { serial = started; chrdev = r.1; device_descriptor = device }),
        rw (serial_init, x.allocated, ==_false_of_ne device 0 x.here, e) refl,
        record {
          returns = y.returns;
          registry = y.registry;
          serial = refl;
          display = shown;
          alone = λ first b o o' q.
              y.alone first b q o'
              ∙ describe-SameOutside f device h.mem b (omega arith)
              ∙ x.same b (omega arith);
          reads = λ t.
              (dispatch 0 0 t).0
              ∙ ap (λ (o : Option Entry). read_entry calls m o t) found
              ∙ (serial_calls-entry inportb polls f others m newest 0 0 t rc wc nr nw).0;
          writes = λ buffer len t.
              (dispatch buffer len t).1
              ∙ ap (λ (o : Option Entry). write_entry calls buffer len m o t) found
              ∙ (serial_calls-entry inportb polls f others m newest buffer len t rc wc nr nw).1;
        },
      )
