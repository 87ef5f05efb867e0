-- ===== src/Serial/Tests.antt =====
-- serial.c with a line that has room at every second read, for the two bytes of "ok".
use missy_kernel.Base.{
  ℕ, ◌+◌, ◌-◌, ◌%◌, ◌*◌, ◌≡◌, refl, ◌∙◌, arith, Store, get_or, [], ◌∷◌, none, some, leb, ◌&&◌,
  if◌then◌else◌, write32-byte, u16,
}
use missy_kernel.Brk.Tests.{s0 as brk0}
use missy_kernel.Cpu.Tests.{cpu0}
use missy_kernel.Strings.Text.{text_at-IsText}
use missy_kernel.Malloc.{Heap, set_size, malloc, malloc_loop, take, start_list}
use missy_kernel.Chrdev.{Chrdev, Calls}
use missy_kernel.Chrdev.Chain.{clear_nil, no_device}
use missy_kernel.Chrdev.Register.{room_first, inode_message}
use missy_kernel.Chrdev.Tests.{memory}
use missy_kernel.Serial.{Serial, initialize_serial_device, serial_read_char, serial_write_chars}
use missy_kernel.Serial.Device.{Functions, Messages, SerialDevice, serial_init, serial_calls}
use missy_kernel.Serial.Registered.{Place, Registered, serial_init-Registered}
use missy_kernel.Serial.Send.{out_all, Ready, serial_write_chars_lem}

abbrev inportb : ℕ → ℕ → ℕ
inportb n port = n % 2 * 32

abbrev pub s0 : Serial
s0 = record { cpu = cpu0; reads = 0; port = 0x3f8 }

abbrev buffer : Store
buffer a = get_or (111 ∷ 107 ∷ []) a 0

inportb-Ready : Ready inportb 0x3f8 0x20 2
inportb-Ready = record {
  within = λ t.
      let odd : (t + (1 - t % 2)) % 2 ≡ 1 = omega arith in
      (1 - t % 2, omega arith, rw odd (λ e. omega arith));
}

serial_write_chars_example :
    (t : ℕ) × (serial_write_chars inportb 2 buffer 0 2 s0
      ≡ some (2, record (out_all (111 ∷ 107 ∷ []) s0) { reads = t }))
serial_write_chars_example =
    serial_write_chars_lem inportb 2 2 buffer 0 2 s0 inportb-Ready (omega arith)

-- The kernel before any device is registered, with a heap that has room for one.
abbrev pub k0 : Chrdev
k0 = record {
  heap = record {
    mem = λ a. if leb 0x500 a && leb a 0x510 then 0 else memory a;
    base = 0x100;
    next_free = 0x100;
    brk = brk0;
  };
  display = record { vmem = λ _. 0; x_loc = 0; y_loc = 0; color_attrib = 15; ports = [] };
  current_inode = 0;
  current_inode_number = 1;
  minor_revision_number = 0;
}

-- The heap behind the allocation of the device at 0x31c.
abbrev h1 : Heap
h1 = record k0.heap { mem = set_size 0x314 44 (set_size 0x300 20 k0.heap.mem); next_free = 0x200 }

abbrev pub functions : Functions
functions = record {
  read_char = 0xc010_0000;
  read_chars = 0xc010_0100;
  write_chars = 0xc010_0200;
  open_port = 0xc010_0300;
  close_port = 0xc010_0400;
}

abbrev pub messages : Messages
messages = record { no_memory = 0x800; got_inode = 0x700 }

abbrev device0 : SerialDevice
device0 = record { serial = s0; chrdev = k0; device_descriptor = 0 }

abbrev pub others : Calls Serial
others = record { readchar = λ a s. none; write = λ a m buffer len s. none }

malloc_36 : malloc 80 36 k0.heap ≡ some (0x31c, h1)
unfolding malloc malloc_loop take start_list
malloc_36 = refl

place : Place 0x500 80 functions messages k0 [] 0x31c 0x500 0x300 64 h1
place = record {
  allocated = malloc_36;
  here = λ e. omega arith;
  low = omega arith;
  same = λ b o.
      write32-byte (set_size 0x300 20 k0.heap.mem) 0x318 44 b (omega arith)
      ∙ write32-byte k0.heap.mem 0x304 20 b (omega arith);
  clear = clear_nil;
  base_apart = omega arith;
  message_apart = omega arith;
  device_clear = clear_nil;
  device_base = omega arith;
  device_message = omega arith;
  room = room_first refl (omega arith) (omega arith) (omega arith);
}

serial_init_example :
    (r : ℕ × SerialDevice) × (serial_init
        (λ ws p. 0xff)
        0xc010_3000
        functions
        messages
        (λ _. 0)
        0x500
        80
        0x3f8
        device0
      ≡ some r)
    × Registered 0x500 80
        (serial_calls inportb 2 functions others)
        (serial_read_char inportb 2)
        (serial_write_chars inportb 2)
        []
        0x31c
        0x500
        0x300
        64
        (initialize_serial_device (λ ws p. 0xff) 0xc010_3000 (u16 0x3f8) s0)
        device0
        r
serial_init_example =
    serial_init-Registered inportb (λ ws p. 0xff) 0xc010_3000 functions messages (λ _. 0) 0x500 80 2
      0x3f8 others device0 [] 0x31c 0x500 0x300 64 h1 place
      (no_device refl refl (λ e. omega arith) refl refl) (text_at-IsText 0x700 inode_message refl)
      (λ e. omega arith) (λ e. omega arith) (omega arith) (omega arith) (omega arith) (omega arith)
      (omega arith) (omega arith)
