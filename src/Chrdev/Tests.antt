-- ===== src/Chrdev/Tests.antt =====
-- chrdev.c with `base_inode` at 0x500, a first device at 0x600, and the text that is printed at
-- 0x700. The free blocks of the heap are `_base`, one of 8 bytes and one of 64.
use missy_kernel.Base.{
  ℕ, zero, suc, ◌+◌, ◌-◌, ◌<◌, ◌≡◌, inr, refl, arith, Store, leb, ltb, ◌&&◌, Bool, true, get_or,
  ◌==◌, if◌then◌else◌, some, List, [], ◌∷◌, Option,
}
use missy_kernel.Strings.Text.{IsText, text_at-IsText}
use missy_kernel.Balloc.{enomem}
use missy_kernel.Brk.{set_errno, brk, sbrk}
use missy_kernel.Brk.Tests.{s0}
use missy_kernel.Display.{Display}
use missy_kernel.Malloc.{Heap, start_list, morecore, malloc_loop, malloc}
use missy_kernel.Malloc.Fit.{arrived, past}
use missy_kernel.Printf.Pieces.{show}
use missy_kernel.Printf.Format.{render}
use missy_kernel.Chrdev.{
  device_of, find_device_inode, Chrdev, Calls, register_device, read_device_char, write_device,
}
use missy_kernel.Chrdev.Chain.{
  Entry, clear_nil, clear_cons, segment_start, segment_next, IsRegistry, devices, by_descriptor,
}
use missy_kernel.Chrdev.Frame.{Entered}
use missy_kernel.Chrdev.Register.{Room, inode_message, message_items, register_device_lem}
use missy_kernel.Chrdev.Memory.{malloc-Room, register_device_short}
use missy_kernel.Chrdev.Reach.{start, register, Reached-found}
use missy_kernel.Chrdev.Dispatch.{read_entry, write_entry, read_device_char-write_device}

abbrev pub memory : Store
memory a =
    if leb 0x700 a
    then get_or inode_message (a - 0x700) 0
    else if a == 0x101
    then 2
    else if a == 0x201
    then 3
    else if a == 0x204
    then 8
    else if a == 0x301
    then 1
    else if a == 0x304
    then 64
    else if a == 0x500
    then 1
    else if a == 0x505
    then 6
    else if a == 0x610
    then 9
    else 0

abbrev display0 : Display
display0 = record { vmem = λ _. 0; x_loc = 0; y_loc = 0; color_attrib = 15; ports = [] }

abbrev k1 : Chrdev
k1 = record {
  heap = record { mem = memory; base = 0x100; next_free = 0x100; brk = s0 };
  display = display0;
  current_inode = 0x500;
  current_inode_number = 2;
  minor_revision_number = 1;
}

abbrev e1 : Entry
e1 = record { at = 0x500; device = 0x600 }

abbrev all_bytes : List ℕ → Bool
all_bytes [] = true
all_bytes (c ∷ cs) = ltb c 256 && all_bytes cs

k1-IsRegistry : IsRegistry 0x500 k1 (e1 ∷ [])
k1-IsRegistry = devices refl refl (
    segment_next (segment_start refl)
      (record { here = λ e. omega arith; inode = refl; points = refl }) clear_nil refl)

pub memory-IsText : IsText memory 0x700 inode_message
memory-IsText = text_at-IsText 0x700 inode_message refl

-- Every byte of the memory is one.
inode_message-lt : (i : ℕ) → get_or inode_message i 0 < 256
inode_message-lt i = below inode_message i refl
  where
    below : (cs : List ℕ) (i : ℕ) → all_bytes cs ≡ true → get_or cs i 0 < 256
    below [] i h = omega arith
    below (c ∷ cs) zero h = ground (arith, h)
    below (c ∷ cs) (suc i) h = below cs i (ground (arith, h))

memory-lt : (a : ℕ) → memory a < 256
memory-lt a = ground (arith, inode_message-lt (a - 0x700))

room : (p : ℕ) × Room 0x500 0x640 0x700 80 k1 (e1 ∷ []) p
room =
    malloc-Room 0x500 0x640 0x700 80 1 0x200 0x300 k1 e1 [] (λ e. omega arith) memory-lt
      (past (omega arith) (λ e. omega arith) arrived) (inr (omega arith)) (omega arith)
      (omega arith)
      (record {
        device_prev = omega arith;
        device_block = omega arith;
        format_prev = omega arith;
        format_block = omega arith;
        inodes_prev = clear_cons (omega arith) clear_nil;
        inodes_block = clear_cons (omega arith) clear_nil;
        inodes_device = clear_cons (omega arith) clear_nil;
        inodes_format = clear_cons (omega arith) clear_nil;
      })

register_device_example :
    (r : ℕ × Chrdev) × (register_device 0x500 (λ _. 0) 80 0x700 0x640 k1 ≡ some r)
    × Entered 0x500 0x640 (e1 ∷ []) memory 1 room.0 r
    × (r.1.display ≡ show (render (message_items room.0)) display0)
register_device_example =
    register_device_lem (λ _. 0) 0x500 0x640 0x700 80 room.0 (e1 ∷ []) k1 k1-IsRegistry room.1
      memory-IsText (omega arith) (omega arith) (omega arith) (omega arith)

-- A heap that cannot grow, as it has no base.
abbrev no_heap : Heap
no_heap = record {
  mem = λ a. if leb 0x500 a then memory a else if a == 0x101 then 1 else 0;
  base = 0x100;
  next_free = 0x100;
  brk = record s0 { heap_base = 0 };
}

abbrev k2 : Chrdev
k2 = record k1 { heap = no_heap }

k2-IsRegistry : IsRegistry 0x500 k2 (e1 ∷ [])
k2-IsRegistry = devices refl refl (
    segment_next (segment_start refl)
      (record { here = λ e. omega arith; inode = refl; points = refl }) clear_nil refl)

malloc_null : malloc 80 12 no_heap ≡ some (0, record no_heap { brk = set_errno enomem no_heap.brk })
unfolding malloc malloc_loop start_list morecore sbrk brk
malloc_null = refl

register_device_short_example :
    (k' : Chrdev) × (register_device 0x500 (λ _. 0) 80 0x700 0x640 k2 ≡ some (0xffff_ffff, k'))
    × IsRegistry 0x500 k' (e1 ∷ [])
    × (k'.heap.brk.pagemngr.balloc.errno ≡ enomem)
register_device_short_example =
    register_device_short (λ _. 0) 0x500 0x640 0x700 80 0 0 e1 [] k2
      (record no_heap { brk = set_errno enomem no_heap.brk }) k2-IsRegistry malloc_null
      (λ b o. refl) (clear_cons (omega arith) clear_nil) (omega arith) (omega arith)
      (text_at-IsText 0x700 inode_message refl) (omega arith)

-- A driver whose functions return the number of calls of them.
abbrev calls : Calls ℕ
calls = record { readchar = λ a s. some (s, s + 1); write = λ a m buffer len s. some (s, s + 1) }

abbrev read_by : ℕ → Option Entry
read_by d = by_descriptor d (e1 ∷ [])

read_device_char-write_device_example :
    (read_device_char 0x500 calls 3 1 memory 5 ≡ read_entry calls memory (read_by 1) 5)
    × (write_device 0x500 calls 3 1 0 0 memory 5 ≡ write_entry calls 0 0 memory (read_by 1) 5)
read_device_char-write_device_example =
    read_device_char-write_device calls 0x500 3 1 k1 (e1 ∷ []) 0 0 5 k1-IsRegistry
      (λ e. omega arith) (omega arith)

-- The state after the registration of a second device at 0x640.
abbrev later : Chrdev
later = register_device_example.0.1

Reached-found_example :
    (find_device_inode 0x500 4 later.heap.mem 1 ≡ some 0x500)
    × (device_of later.heap.mem 0x500 ≡ 0x600)
    × ((d : ℕ) (x : Entry)
        → by_descriptor d (record { at = room.0; device = 0x640 } ∷ e1 ∷ []) ≡ some x
        → 0x500 ≡ x.at
        → 1 ≡ d)
Reached-found_example =
    Reached-found (λ _. 0) 0x500 0x700 80 4 1 k1 later (e1 ∷ [])
      (record { at = room.0; device = 0x640 } ∷ e1 ∷ []) e1 k1-IsRegistry refl
      (register register_device_example.0.0 0x640 room.0 later start room.1 memory-IsText
        (omega arith) (omega arith) (omega arith) register_device_example.1)
      (omega arith) (omega arith)
