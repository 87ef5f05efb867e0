-- ===== src/Kernel/Panic.antt =====
-- What a panic leaves on the display.
use missy_kernel.Base.{ℕ, ◌+◌, ◌^◌, ◌<◌, ◌≡◌, refl, arith, Store, some, List, [], ◌∷◌, length}
use missy_kernel.Strings.{char_int}
use missy_kernel.Strings.Text.{IsText}
use missy_kernel.Display.{Display, display_write, display_clear, display_change_color}
use missy_kernel.Display.Colors.{color_fg, display_make_color}
use missy_kernel.Display.Screen.{OnScreen, display_write-OnScreen}
use missy_kernel.Display.Write.{Cleared, display_clear_lem}
use missy_kernel.Printf.Pieces.{show}
use missy_kernel.Printf.Puts.{puts-IsText}
use missy_kernel.Kernel.{clear_in, kernel_panic}

show-OnScreen : (cs : List ℕ) (d : Display) → OnScreen d → OnScreen (show cs d)
show-OnScreen [] d o = o
show-OnScreen (c ∷ cs) d o =
    show-OnScreen cs (display_write (char_int c) d) (display_write-OnScreen (char_int c) d o)

-- For two texts whose lengths with a new line are below 2^32, and more fuel than either is long,
-- `kernel_panic` gets to its endless loop. It has cleared the screen to white on red, and then shown
-- the message, a new line, the cause and a new line, and the cursor is on the screen.
pub kernel_panic-show :
    (fuel : ℕ) (m : Store) (message cause : ℕ) (cs cs' : List ℕ) (d : Display)
    → IsText m message cs
    → IsText m cause cs'
    → length cs < fuel
    → length cs' < fuel
    → length cs + 1 < 2 ^ 32
    → length cs' + 1 < 2 ^ 32
    → (d₀ d₁ : Display) × Cleared (record d { color_attrib = 0x4f }) d₀
      × (kernel_panic fuel m message cause d ≡ some d₁)
      × (d₁ ≡ display_write 10 (show cs' (display_write 10 (show cs d₀))))
      × OnScreen d₁
unfolding kernel_panic clear_in display_make_color color_fg display_change_color
kernel_panic-show fuel m message cause cs cs' d x x' f f' low low' =
    let d₀ = display_clear (record d { color_attrib = 0x4f }) in
    let cleared = display_clear_lem (record d { color_attrib = 0x4f }) in
    let blank : OnScreen d₀ = record {
      x = omega (arith, cleared.x);
      y = omega (arith, cleared.y);
    } in
    let d₁ = display_write 10 (show cs d₀) in
    let e = puts-IsText fuel m message cs d₀ x f low in
    let e' = puts-IsText fuel m cause cs' d₁ x' f' low' in
    let first = display_write-OnScreen 10 _ (show-OnScreen cs d₀ blank) in
    (
      d₀,
      display_write 10 (show cs' d₁),
      cleared,
      rw (kernel_panic, e, e') refl,
      refl,
      display_write-OnScreen 10 _ (show-OnScreen cs' d₁ first),
    )
