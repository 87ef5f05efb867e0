-- ===== src/Kernel/Main.antt =====
-- The kernel from its entry to the end of the echo, where the serial port is the first device.
use missy_kernel.Base.{
  ℕ, ◌^◌, ◌≤◌, ◌<◌, ◌≡◌, ◌≢◌, refl, ◌∙◌, ap, arith, u16, Store, some, List, [], ◌∷◌, length,
}
use missy_kernel.Strings.Text.{IsText, IsText_kept}
use missy_kernel.Malloc.{Heap}
use missy_kernel.Display.{Display, display_init}
use missy_kernel.Display.Colors.{green}
use missy_kernel.Printf.{int_max}
use missy_kernel.Printf.Pieces.{show}
use missy_kernel.Printf.Format.{Item, render, rounds, IsFormat}
use missy_kernel.Chrdev.{Calls, inode_size}
use missy_kernel.Chrdev.Chain.{Apart, IsRegistry, no_device}
use missy_kernel.Chrdev.Register.{inode_message, message_items}
use missy_kernel.Serial.{Serial, initialize_serial_device, serial_read_char, serial_write_chars}
use missy_kernel.Serial.Device.{SerialDevice, Functions, device_size, serial_init, serial_calls}
use missy_kernel.Serial.Registered.{Place, Registered, serial_init-Registered}
use missy_kernel.Kinit.{KernelParams}
use missy_kernel.Kernel.{
  Hardware, Image, Kernel, set_display, banner, clear_in, init_interrupts, init_memory, start,
  open_serial, kernel_main, com_port_1,
}
use missy_kernel.Kernel.Boot.{
  port_message, port_items, eof_tail, eof_items, print-IsFormat, print_port, print_eof,
}
use missy_kernel.Kernel.Echo.{Receives, write_all, echo_loop-Receives}

-- The texts that the kernel prints are in its memory.
pub record HasTexts (image : Image) (fuel : ℕ) (is : List Item) (m : Store) : Type 0 where
  pub banner_format : IsFormat m (λ _. image.banner_text) image.banner_format 0 is
  pub enough : rounds is ≤ fuel
  pub small : length (render is) ≤ int_max
  pub inode : IsText m image.messages.got_inode inode_message
  pub port : IsText m image.port_format port_message
  pub eof : IsText m image.eof_format (82 ∷ eof_tail)

-- The 32 bytes at `format` are apart from the device, its inode and what allocates the device.
pub record Spared (format base device a n : ℕ) : Type 0 where
  pub spares_block : Apart format 32 a n
  pub spares_device : Apart format 32 device device_size
  pub spares_inode : Apart format 32 base inode_size

-- The driver's functions have addresses of 32 bits other than NULL.
pub record HasFunctions (f : Functions) : Type 0 where
  pub read_here : f.read_char ≢ 0
  pub write_here : f.write_chars ≢ 0
  pub read_low : f.read_char < 2 ^ 32
  pub write_low : f.write_chars < 2 ^ 32

module _ (hw : Hardware) (image : Image) (others : Calls Serial) (kparams : KernelParams)
    (bitmap : Store) (is : List Item) (k : Kernel) where
  -- The display that the kernel starts with, and the kernel when its memory is managed.
  abbrev pub first_display : Display
  first_display = clear_in green (display_init hw.preserve hw.attributes k.device.chrdev.display)

  abbrev pub managed : Kernel
  managed =
      init_memory hw image others kparams bitmap
        (init_interrupts hw image others (set_display (show (render is) first_display) k))

  abbrev pub opened : Serial
  opened =
      initialize_serial_device hw.pic_ports image.serial_irq (u16 com_port_1) managed.device.serial

  start-HasTexts :
      (stack : Store) (fuel : ℕ)
      → HasTexts image fuel is k.device.chrdev.heap.mem
      → start hw image others stack fuel kparams bitmap k ≡ some managed
  unfolding start banner clear_in
  start-HasTexts stack fuel x =
      let k₁ = set_display first_display k in
      let printed =
        print-IsFormat stack fuel image.banner_format image.banner_text is k₁ x.banner_format
          x.enough x.small in
      rw (start, printed) refl

  managed-IsRegistry :
      IsRegistry image.base_inode k.device.chrdev []
      → IsRegistry image.base_inode managed.device.chrdev []
  unfolding init_memory init_interrupts
  managed-IsRegistry (no_device c n b i x) = no_device c n b i x

  same_memory : managed.device.chrdev.heap.mem ≡ k.device.chrdev.heap.mem
  unfolding init_memory init_interrupts
  same_memory = refl

  same_display : managed.device.chrdev.display ≡ show (render is) first_display
  unfolding init_memory init_interrupts
  same_display = refl

  same_minor : managed.device.chrdev.minor_revision_number ≡ k.device.chrdev.minor_revision_number
  unfolding init_memory init_interrupts
  same_minor = refl

  kept :
      (format device a n : ℕ) (cs : List ℕ) (m' : Store)
      → Spared format image.base_inode device a n
      → length cs ≤ 31
      → ((b : ℕ)
          → Apart b 1 a n
          → Apart b 1 device device_size
          → Apart b 1 image.base_inode inode_size
          → m' b ≡ k.device.chrdev.heap.mem b)
      → IsText k.device.chrdev.heap.mem format cs
      → IsText m' format cs
  kept format device a n cs m' s small same x =
      IsText_kept cs format
        (λ b l h. same b (omega (arith, s)) (omega (arith, s)) (omega (arith, s))) x

  module _ (stack : Store) (rounds' fuel polls device a n : ℕ) (h : Heap) (end : Serial)
      (cs : List ℕ) where
    -- The kernel behind a call of `serial_init` that has registered the port.
    Registered-echoes :
        (r : ℕ × SerialDevice)
        → serial_init hw.pic_ports image.serial_irq image.functions image.messages stack
            image.base_inode fuel com_port_1 managed.device
          ≡ some r
        → Registered image.base_inode fuel
            (serial_calls hw.inportb polls image.functions others)
            (serial_read_char hw.inportb polls)
            (serial_write_chars hw.inportb polls)
            []
            device
            image.base_inode
            a
            n
            opened
            managed.device
            r
        → HasTexts image fuel is k.device.chrdev.heap.mem
        → Spared image.port_format image.base_inode device a n
        → Spared image.eof_format image.base_inode device a n
        → 80 ≤ fuel
        → Receives (serial_read_char hw.inportb polls) end opened cs
        → length cs < rounds'
        → (k' : Kernel) × (kernel_main hw image others stack rounds' fuel polls kparams bitmap k
            ≡ some (some k'))
          × (k'.device.serial ≡ end)
          × (k'.device.chrdev.display
              ≡ show
                  (render eof_items)
                  (write_all cs (show (render (port_items r.0)) r.1.chrdev.display)))
    unfolding kernel_main open_serial
    Registered-echoes r e y x sp se fuel₁ recv rounds₁ =
        let same =
          λ (b : ℕ) (o : Apart b 1 a n) (o' : Apart b 1 device device_size)
              (q : Apart b 1 image.base_inode inode_size).
            y.alone refl b o o' q ∙ ap (λ (m : Store). m b) same_memory in
        let m' = r.1.chrdev.heap.mem in
        let k₁ : Kernel = record managed { device = r.1 } in
        let port = kept image.port_format device a n port_message m' sp (omega arith) same x.port in
        let eof = kept image.eof_format device a n (82 ∷ eof_tail) m' se (omega arith) same x.eof in
        let printed =
          print_port stack fuel image.port_format r.0 k₁ port (omega (arith, y.returns)) fuel₁ in
        let d = show (render (port_items r.0)) r.1.chrdev.display in
        let echoed =
          echo_loop-Receives hw image others rounds' fuel polls m' r.0
            (serial_read_char hw.inportb polls) end r.1.serial cs d y.reads (rw y.serial recv)
            rounds₁ in
        let k₂ =
          set_display (write_all cs d) (record k₁ { device = record r.1 { serial = end } }) in
        (
          set_display (show (render eof_items) (write_all cs d)) k₂,
          rw
              (
                kernel_main,
                start-HasTexts stack fuel x,
                open_serial,
                e,
                printed,
                echoed,
                print_eof stack fuel image.eof_format k₂ eof fuel₁,
              )
              refl,
          refl,
          refl,
        )

    -- Where no device is registered, the texts are in memory, `malloc` has room for the device of the
    -- serial port apart from them, there is fuel for the texts and a round more than there are
    -- characters, and the serial port, once it is set up, receives some characters and then EOF:
    -- `kernel_main` returns. It has shown the banner on a cleared display, then the messages of the
    -- registration with the descriptor 1, then every character received, in order, and at last that
    -- of the EOF, and no more has been read from the port.
    pub kernel_main-echoes :
        HasTexts image fuel is k.device.chrdev.heap.mem
        → IsRegistry image.base_inode k.device.chrdev []
        → Place image.base_inode fuel image.functions image.messages managed.device.chrdev [] device
            image.base_inode a n h
        → Spared image.port_format image.base_inode device a n
        → Spared image.eof_format image.base_inode device a n
        → HasFunctions image.functions
        → k.device.chrdev.minor_revision_number < 2 ^ 32
        → 80 ≤ fuel
        → Receives (serial_read_char hw.inportb polls) end opened cs
        → length cs < rounds'
        → (k' : Kernel) × (kernel_main hw image others stack rounds' fuel polls kparams bitmap k
            ≡ some (some k'))
          × (k'.device.serial ≡ end)
          × (k'.device.chrdev.display
              ≡ show (render eof_items) (
                  write_all cs (
                    show (render (port_items 1)) (
                      show
                        (render (message_items image.base_inode))
                        (show (render is) first_display)))))
    kernel_main-echoes x reg place sp se f minor fuel₁ recv rounds₁ =
        let (r, e, y) =
          serial_init-Registered hw.inportb hw.pic_ports image.serial_irq image.functions
            image.messages stack image.base_inode fuel polls com_port_1 others managed.device []
            device image.base_inode a n h place (managed-IsRegistry reg) (rw same_memory x.inode)
            f.read_here f.write_here f.read_low f.write_low (omega arith) (rw same_minor minor)
            fuel₁ (omega arith) in
        let (k', ran, serial, display) = Registered-echoes r e y x sp se fuel₁ recv rounds₁ in
        (k', ran, serial, rw (y.returns, y.display, same_display) at display)
