-- ===== src/Chrdev.antt =====
-- kernel/kernel/chrdev.c: the character devices, a list of inodes in memory that starts at
-- `base_inode`. An inode has its number at its address, the address of its device 4 bytes further
-- and `next` 8 bytes further. A walk through the list takes fuel, and a call is `none` when that
-- runs out.
pub mod Chain
pub mod Frame
pub mod Register
pub mod Memory
pub mod Dispatch
pub mod Reach
pub mod Tests
use missy_kernel.Base.{
  ℕ, zero, suc, ◌+◌, u32, ◌==◌, if◌then◌else◌, true, false, Option, none, some, Store, word,
  write32,
}
use missy_kernel.Balloc.{enomem}
use missy_kernel.Brk.{set_errno}
use missy_kernel.Malloc.{Heap, malloc}
use missy_kernel.Display.{Display}
use missy_kernel.Printf.{Stdio, printf}

-- CHRDEV_INODE_BASE and `sizeof(_chrdev_inode_t)`
abbrev pub chrdev_inode_base : ℕ
chrdev_inode_base = 1

abbrev pub inode_size : ℕ
inode_size = 12

-- The fields of CHARACTER_DEVICE_INODE at an address.
abbrev pub inode_of : Store → ℕ → ℕ
inode_of m inode = word m inode

abbrev pub device_of : Store → ℕ → ℕ
device_of m inode = word m (inode + 4)

abbrev pub next_of : Store → ℕ → ℕ
next_of m inode = word m (inode + 8)

abbrev pub set_inode : ℕ → ℕ → Store → Store
set_inode inode number m = write32 m inode number

abbrev pub set_device : ℕ → ℕ → Store → Store
set_device inode device m = write32 m (inode + 4) device

abbrev pub set_next : ℕ → ℕ → Store → Store
set_next inode next m = write32 m (inode + 8) next

-- The fields of CHARACTER_DEVICE that this file uses, at an address.
abbrev pub descriptor_of : Store → ℕ → ℕ
descriptor_of m device = word m device

abbrev pub minor_revision_of : Store → ℕ → ℕ
minor_revision_of m device = word m (device + 8)

abbrev pub readchar_of : Store → ℕ → ℕ
readchar_of m device = word m (device + 16)

abbrev pub write_of : Store → ℕ → ℕ
write_of m device = word m (device + 24)

-- The heap, whose memory holds the inodes and the devices, the display, and the static variables.
pub record Chrdev : Type 0 where
  pub heap : Heap
  pub display : Display
  pub current_inode : ℕ
  pub current_inode_number : ℕ
  pub minor_revision_number : ℕ

abbrev pub set_mem : Store → Chrdev → Chrdev
set_mem m k = record k { heap = record k.heap { mem = m } }

abbrev pub stdio : Chrdev → Stdio
stdio k = record { display = k.display; errno = k.heap.brk.pagemngr.balloc.errno }

abbrev pub set_stdio : Stdio → Chrdev → Chrdev
set_stdio s k = record k {
  heap = record k.heap { brk = set_errno s.errno k.heap.brk };
  display = s.display;
}

-- A call of `printf` with one argument.
unfoldable pub print_message : Store → ℕ → ℕ → ℕ → Chrdev → Option Chrdev
print_message stack fuel format argument k =
    elim (printf stack fuel k.heap.mem (λ _. argument) format (stdio k)) [
      | none ↦ none
      | some (_, s) ↦ some (set_stdio s k)
    ]

-- `base_inode` is the address of the static variable.
module _ (base_inode : ℕ) where
  -- The new inode, or 0 for NULL.
  unfoldable pub new_inode : ℕ → Chrdev → Option (ℕ × Chrdev)
  new_inode fuel k = elim (k.current_inode == 0) [
    | true ↦ some (
      base_inode,
      record (set_mem (set_next base_inode 0 k.heap.mem) k) { current_inode = base_inode },
    )
    | false ↦ elim (malloc fuel inode_size k.heap) [
      | none ↦ none
      | some (p, h) ↦
          let k₁ = record k { heap = record h { mem = set_next k.current_inode p h.mem } } in
          elim (p == 0) [
            | true ↦ some (0, k₁)
            | false ↦ some (p, record (set_mem (set_next p 0 k₁.heap.mem) k₁) { current_inode = p })
          ]
    ]
  ]

  unfoldable pub find_loop : ℕ → Store → ℕ → ℕ → Option ℕ
  find_loop zero m descriptor current = none
  find_loop (suc fuel) m descriptor current = elim (current == 0) [
    | true ↦ some 0
    | false ↦ elim (inode_of m current == descriptor) [
      | true ↦ some current
      | false ↦ find_loop fuel m descriptor (next_of m current)
    ]
  ]

  -- The address of the inode, or 0 for NULL.
  unfoldable pub find_device_inode : ℕ → Store → ℕ → Option ℕ
  find_device_inode fuel m descriptor = find_loop fuel m descriptor base_inode

  -- The assignments of `register_device`, and the number that it returns.
  unfoldable pub enter : ℕ → ℕ → Chrdev → ℕ × Chrdev
  enter current device k =
      let m₁ = set_inode current k.current_inode_number (set_device current device k.heap.mem) in
      let m₂ = write32 m₁ device (inode_of m₁ current) in
      let m₃ = write32 m₂ (device + 8) k.minor_revision_number in
      (
        inode_of m₃ current,
        record (set_mem m₃ k) {
          current_inode_number = u32 (k.current_inode_number + 1);
          minor_revision_number = u32 (k.minor_revision_number + 1);
        },
      )

  -- `format` is the address of the text that is printed; the result is the pattern of an `int`.
  unfoldable pub register_device : Store → ℕ → ℕ → ℕ → Chrdev → Option (ℕ × Chrdev)
  register_device stack fuel format device k = elim (new_inode fuel k) [
    | none ↦ none
    | some (current, k₁) ↦ elim (print_message stack fuel format current k₁) [
      | none ↦ none
      | some k₂ ↦ elim (current == 0) [
        | true ↦ some (
          0xffff_ffff,
          record k₂ { heap = record k₂.heap { brk = set_errno enomem k₂.heap.brk } },
        )
        | false ↦ some (enter current device k₂)
      ]
    ]
  ]

-- What the functions of the drivers do, by their addresses, to a state of the drivers. A function
-- that polls may not return, which is `none`.
pub record Calls (S : Type 0) : Type 0 where
  pub readchar : ℕ → S → Option (ℕ × S)
  pub write : ℕ → Store → ℕ → ℕ → S → Option (ℕ × S)

module _ (base_inode : ℕ) {S : Type 0} (calls : Calls S) where
  -- The inner `none` is the end of the function without a value.
  unfoldable pub read_device_char : ℕ → ℕ → Store → S → Option (Option ℕ × S)
  read_device_char fuel descriptor m s = elim (find_device_inode base_inode fuel m descriptor) [
    | none ↦ none
    | some inode ↦ elim (inode == 0) [
      | true ↦ some (none, s)
      | false ↦ elim (readchar_of m (device_of m inode) == 0) [
        | true ↦ some (none, s)
        | false ↦ elim (calls.readchar (readchar_of m (device_of m inode)) s) [
          | none ↦ none
          | some (c, s') ↦ some (some c, s')
        ]
      ]
    ]
  ]

  unfoldable pub write_device : ℕ → ℕ → ℕ → ℕ → Store → S → Option (ℕ × S)
  write_device fuel descriptor buffer length m s =
      elim (find_device_inode base_inode fuel m descriptor) [
        | none ↦ none
        | some inode ↦ elim (inode == 0) [
          | true ↦ some (0xffff_ffff, s)
          | false ↦ elim (write_of m (device_of m inode) == 0) [
            | true ↦ some (0xffff_ffff, s)
            | false ↦ calls.write (write_of m (device_of m inode)) m buffer length s
          ]
        ]
      ]
