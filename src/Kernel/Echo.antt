-- ===== src/Kernel/Echo.antt =====
-- The loop of the kernel that echoes what it receives.
use missy_kernel.Base.{
  ℕ, zero, suc, ◌<◌, ◌≡◌, ◌≢◌, refl, ◌∙◌, ap, arith, ==_false_of_ne, Store, Option, some, List, [],
  ◌∷◌, length,
}
use missy_kernel.Chrdev.{Calls, read_device_char}
use missy_kernel.Chrdev.Dispatch.{with_value}
use missy_kernel.Display.{Display, display_write}
use missy_kernel.Printf.{eof, putchar}
use missy_kernel.Serial.{Serial}
use missy_kernel.Serial.Device.{serial_calls}
use missy_kernel.Kernel.{Hardware, Image, echo_loop}

-- A function that reads characters gives these and then EOF.
pub data Receives (read : Serial → Option (ℕ × Serial)) (end : Serial)
    : Serial → List ℕ → Type 0 where
  receives_eof : {s : Serial} → read s ≡ some (eof, end) → Receives read end s []
  receives :
      {s s' : Serial} {c : ℕ} {cs : List ℕ}
      → read s ≡ some (c, s')
      → c ≢ eof
      → Receives read end s' cs
      → Receives read end s (c ∷ cs)

-- The display when some characters have been written to it.
abbrev pub write_all : List ℕ → Display → Display
write_all [] d = d
write_all (c ∷ cs) d = write_all cs (display_write c d)

module _ (hw : Hardware) (image : Image) (others : Calls Serial) where
  -- Where the descriptor reads with the function, and the function gives some characters and then
  -- EOF, the loop ends within one round more than there are characters, and has written each to the
  -- display, in order, and nothing else.
  pub echo_loop-Receives :
      (rounds fuel polls : ℕ) (m : Store) (dd : ℕ) (read : Serial → Option (ℕ × Serial))
      (end s : Serial) (cs : List ℕ) (d : Display)
      → ((t : Serial)
          → read_device_char image.base_inode
              (serial_calls hw.inportb polls image.functions others)
              fuel
              dd
              m
              t
            ≡ with_value (read t))
      → Receives read end s cs
      → length cs < rounds
      → echo_loop hw image others rounds fuel polls m dd s d ≡ some (some (end, write_all cs d))
  unfolding echo_loop putchar
  echo_loop-Receives zero fuel polls m dd read end s cs d h r l = absurd (omega arith)
  echo_loop-Receives (suc rounds) fuel polls m dd read end s [] d h (receives_eof e) l =
      let got = h s ∙ ap (λ (o : Option (ℕ × Serial)). with_value o) e in rw (echo_loop, got) refl
  echo_loop-Receives (suc rounds) fuel polls m dd read end s (c ∷ cs) d h (receives {s'} e ne more)
        l =
      let got = h s ∙ ap (λ (o : Option (ℕ × Serial)). with_value o) e in
      rw (echo_loop, got, ==_false_of_ne c eof ne)
        (echo_loop-Receives rounds fuel polls m dd read end s' cs (display_write c d) h more
          (omega arith))
