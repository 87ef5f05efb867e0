-- ===== src/Kernel/Tests.antt =====
-- The kernel on the heap of the serial port's tests, with the banner "ok", and a port that receives
-- an 'h' and then the end of the text.
use missy_kernel.Base.{
  ℕ, ◌%◌, ◌/◌, ◌+◌, ◌-◌, ◌<◌, ◌≡◌, refl, ◌∙◌, arith, Store, get_or, some, [], ◌∷◌, List, leb, ◌==◌,
  if◌then◌else◌, write32-byte,
}
use missy_kernel.Strings.Text.{text_at-IsText}
use missy_kernel.Display.{Display, display_write}
use missy_kernel.Display.Colors.{display_make_color, display_make_color_lem}
use missy_kernel.Display.Screen.{OnScreen}
use missy_kernel.Display.Write.{Cleared}
use missy_kernel.Malloc.{Heap, set_size, malloc, malloc_loop, take, start_list}
use missy_kernel.Printf.Pieces.{show, no_eof_nil, no_eof_cons}
use missy_kernel.Printf.Format.{Item, run, text, render, format_text}
use missy_kernel.Printf.Literals.{plain-IsFormat}
use missy_kernel.Chrdev.Chain.{clear_nil, no_device}
use missy_kernel.Chrdev.Register.{room_first, inode_message, message_items}
use missy_kernel.Chrdev.Tests.{memory}
use missy_kernel.Serial.{Serial, initialize_serial_device, serial_read_char, wait_for}
use missy_kernel.Serial.Registered.{Place}
use missy_kernel.Serial.Receive.{received, serial_read_char_lem}
use missy_kernel.Serial.Send.{Ready, First}
use missy_kernel.Serial.Tests.{k0, functions, s0, others}
use missy_kernel.Kinit.{KernelParams}
use missy_kernel.Kernel.{
  Hardware, Image, Kernel, kernel_panic, kernel_main, init_memory, init_interrupts,
}
use missy_kernel.Kernel.Boot.{port_message, port_items, eof_tail, eof_items}
use missy_kernel.Kernel.Echo.{receives, receives_eof, write_all}
use missy_kernel.Kernel.Main.{first_display, managed, opened, kernel_main-echoes}
use missy_kernel.Kernel.Panic.{kernel_panic-show}

abbrev texts : Store
texts a =
    if leb 0x790 a
    then get_or (111 ∷ 107 ∷ []) (a - 0x790) 0
    else if leb 0x780 a
    then get_or (37 ∷ 115 ∷ 10 ∷ []) (a - 0x780) 0
    else if leb 0x750 a
    then get_or (82 ∷ eof_tail) (a - 0x750) 0
    else if leb 0x720 a
    then get_or port_message (a - 0x720) 0
    else if leb 0x500 a
    then (if leb 0x700 a then memory a else 0)
    else memory a

abbrev hw : Hardware
hw = record {
  pic_ports = λ ws p. 0xff;
  preserve = 0;
  attributes = 0;
  inportb = λ n port. if port == 0x3fd then 1 else if n == 1 then 104 else 3;
}

abbrev image : Image
image = record {
  interrupts = 0xc010_5000;
  default_handler = 0xc010_1000;
  exception_handler = λ v. 0xc010_2000;
  timer_irq = 0xc010_3000;
  serial_irq = 0xc010_3100;
  base_inode = 0x500;
  functions = functions;
  messages = record { no_memory = 0x800; got_inode = 0x700 };
  banner_text = 0x790;
  banner_format = 0x780;
  port_format = 0x720;
  eof_format = 0x750;
}

abbrev kparams : KernelParams
kparams = record {
  kernel_stack = 0xffbf_fffc;
  kernel_heap = 0xd000_0000;
  kernel_memory_bitmap = 0xc011_0000;
  allocator_total_blocks = 32;
  allocator_used_blocks = 4;
}

abbrev bitmap : Store
bitmap i = if i == 0 then 15 else 0

abbrev k1 : Kernel
k1 = record {
  device = record {
    serial = s0;
    chrdev = record k0 { heap = record k0.heap { mem = texts } };
    device_descriptor = 0;
  };
  pit_tick_count = 0;
}

abbrev items : List Item
items = text (111 ∷ 107 ∷ []) ∷ run 10 [] ∷ []

abbrev m1 : Kernel
m1 = managed hw image others kparams bitmap items k1

abbrev o1 : Serial
o1 = opened hw image others kparams bitmap items k1

abbrev h1 : Heap
h1 = record m1.device.chrdev.heap {
  mem = set_size 0x314 44 (set_size 0x300 20 texts);
  next_free = 0x200;
}

malloc_36 : malloc 80 36 m1.device.chrdev.heap ≡ some (0x31c, h1)
unfolding malloc malloc_loop take start_list init_memory init_interrupts
malloc_36 = refl

place : Place 0x500 80 functions image.messages m1.device.chrdev [] 0x31c 0x500 0x300 64 h1
unfolding init_memory init_interrupts
place = record {
  allocated = malloc_36;
  here = λ e. omega arith;
  low = omega arith;
  same = λ b o.
      write32-byte (set_size 0x300 20 texts) 0x318 44 b (omega arith)
      ∙ write32-byte texts 0x304 20 b (omega arith);
  clear = clear_nil;
  base_apart = omega arith;
  message_apart = omega arith;
  device_clear = clear_nil;
  device_base = omega arith;
  device_message = omega arith;
  room = room_first refl (omega arith) (omega arith) (omega arith);
}

first_read : serial_read_char hw.inportb 2 o1 ≡ some (104, record o1 { reads = 2 })
unfolding serial_read_char wait_for initialize_serial_device init_memory init_interrupts
first_read = refl

second_read :
    serial_read_char hw.inportb 2 (record o1 { reads = 2 })
    ≡ some (0xffff_ffff, record o1 { reads = 4 })
unfolding serial_read_char wait_for initialize_serial_device init_memory init_interrupts
second_read = refl

kernel_main-echoes_example :
    (k' : Kernel) × (kernel_main hw image others (λ _. 0) 2 80 2 kparams bitmap k1 ≡ some (some k'))
    × (k'.device.serial ≡ record o1 { reads = 4 })
    × (k'.device.chrdev.display
        ≡ show (render eof_items) (
            write_all (104 ∷ []) (
              show (render (port_items 1)) (
                show
                  (render (message_items 0x500))
                  (show (render items) (first_display hw image others kparams bitmap items k1))))))
kernel_main-echoes_example =
    kernel_main-echoes hw image others kparams bitmap items k1 (λ _. 0) 2 80 2 0x31c 0x300 64 h1
      (record o1 { reads = 4 }) (104 ∷ [])
      (record {
        banner_format =
            format_text refl refl (text_at-IsText 0x790 (111 ∷ 107 ∷ []) refl)
              (no_eof_cons (λ e. omega arith) (no_eof_cons (λ e. omega arith) no_eof_nil))
              (plain-IsFormat (λ _. 0x790) 0x782 1 10 [] (text_at-IsText 0x782 (10 ∷ []) refl)
                refl);
        enough = omega arith;
        small = omega arith;
        inode = text_at-IsText 0x700 inode_message refl;
        port = text_at-IsText 0x720 port_message refl;
        eof = text_at-IsText 0x750 (82 ∷ eof_tail) refl;
      })
      (no_device refl refl (λ e. omega arith) refl refl) place
      (record {
        spares_block = omega arith;
        spares_device = omega arith;
        spares_inode = omega arith;
      })
      (record {
        spares_block = omega arith;
        spares_device = omega arith;
        spares_inode = omega arith;
      })
      (record {
        read_here = λ e. omega arith;
        write_here = λ e. omega arith;
        read_low = omega arith;
        write_low = omega arith;
      })
      (omega arith) (omega arith)
      (receives first_read (λ e. omega arith) (receives_eof second_read)) (omega arith)

-- "no" as the message and "ok" as the cause.
abbrev panic_texts : Store
panic_texts a = get_or (110 ∷ 111 ∷ 0 ∷ 111 ∷ 107 ∷ []) a 0

kernel_panic-show_example :
    let d = k1.device.chrdev.display in
    (d₀ d₁ : Display) × Cleared (record d { color_attrib = 0x4f }) d₀
    × (kernel_panic 3 panic_texts 0 3 d ≡ some d₁)
    × (d₁ ≡ display_write 10 (show (111 ∷ 107 ∷ []) (display_write 10 (show (110 ∷ 111 ∷ []) d₀))))
    × OnScreen d₁
kernel_panic-show_example =
    kernel_panic-show 3 panic_texts 0 3 (110 ∷ 111 ∷ []) (111 ∷ 107 ∷ []) k1.device.chrdev.display
      (text_at-IsText 0 (110 ∷ 111 ∷ []) refl) (text_at-IsText 3 (111 ∷ 107 ∷ []) refl)
      (omega arith) (omega arith) (omega arith) (omega arith)

display_make_color_example :
    (display_make_color 15 4 < 256)
    × (display_make_color 15 4 % 16 ≡ 15)
    × (display_make_color 15 4 / 16 ≡ 4)
display_make_color_example = display_make_color_lem 15 4 (omega arith) (omega arith)

line-Ready : Ready hw.inportb 0x3f8 1 1
line-Ready = record { within = λ t. (0, omega arith, λ e. omega arith) }

serial_read_char_example :
    (n : ℕ) × (serial_read_char hw.inportb 1 s0
      ≡ some (received (hw.inportb n 0x3f8 % 256), record s0 { reads = n + 1 }))
    × First hw.inportb 0x3f8 1 0 n
serial_read_char_example = serial_read_char_lem hw.inportb 1 1 s0 line-Ready (omega arith)
