-- ===== src/Printf/Render.antt =====
-- What `vprintf` shows for a format, against a rendering of the format's items.
use missy_kernel.Base.{
  ℕ, zero, suc, ◌+◌, ◌≤◌, ◌<◌, ◌≡◌, ◌≢◌, refl, ◌∙◌, sym, ap, arith, Store, ◌==◌, ◌||◌, not,
  ==_false_of_ne, false, Option, some, if◌then◌else◌, List, [], ◌∷◌, length, length-append,
}
use missy_kernel.Display.{Display}
use missy_kernel.Printf.{
  int_max, number_base, Stdio, print_counted, Piece, directive, literal, vprintf_loop, vprintf,
  printf,
}
use missy_kernel.Printf.Pieces.{show, show-append, print_counted-Stands}
use missy_kernel.Printf.Format.{
  Item, numeric, run, number, text, character, remainder, bytes_of, render, rounds, IsFormat,
  format_end, format_run, format_percent, format_number, format_text, format_character,
  format_remainder,
}
use missy_kernel.Printf.Shows.{
  number_base-IsNumber, Shows, IsText-end, number-Shows, text-Shows, character-Shows, rest-Shows,
  run-Shows,
}

numeric-number_base : (c : ℕ) → numeric c ≡ number_base c
numeric-number_base c = ground arith

module _ (stack : Store) (m : Store) (args : ℕ → ℕ) where
  pick : ℕ → ℕ → ℕ → ℕ → Option Piece
  pick fuel fmt i errno =
      if not (m fmt == 37) || (m (fmt + 1) == 37)
      then literal fuel m fmt i errno
      else directive stack fuel m args (fmt + 1) i errno

  -- A round of the loop.
  round-Shows :
      (fuel fmt i written : ℕ) (bytes : List ℕ) (s : Stdio) {fmt' i' : ℕ} (p : Piece)
      → m fmt ≢ 0
      → pick fuel fmt i s.errno ≡ some p
      → Shows bytes fmt' i' s.errno p
      → written + length bytes ≤ int_max
      → vprintf_loop stack (suc fuel) m args fmt i written s
        ≡ vprintf_loop stack fuel m args fmt' i'
            (written + length bytes)
            (record s { display = show bytes s.display })
  unfolding vprintf_loop pick
  round-Shows fuel fmt i written bytes s p ne e sh h =
      let counted : print_counted p.bytes p.start p.size written (record s { errno = p.error })
          ≡ (some (written + length bytes), record s { display = show bytes s.display }) =
        rw (sh.size, sh.error) (print_counted-Stands p.bytes p.start written bytes s sh.stands h) in
      let counted₁ = ap (λ (q : Option ℕ × Stdio). q.1) counted in
      rw (vprintf_loop, ==_false_of_ne (m fmt) 0 ne, e, counted, counted₁, sh.next, sh.used) refl

  -- The item at `fmt`: the piece for it, and how much the loop needs for it.
  item-Shows :
      (fuel fmt i errno : ℕ) (item : Item) (is : List Item)
      → IsFormat m args fmt i (item ∷ is)
      → length (bytes_of item) < fuel
      → (fmt' i' : ℕ) × (p : Piece) × (pick fuel fmt i errno ≡ some p)
        × Shows (bytes_of item) fmt' i' errno p
        × (m fmt ≢ 0)
        × IsFormat m args fmt' i' is
  unfolding pick
  item-Shows fuel fmt i errno (run c cs) is (format_run at z q n r more) f =
      let no_percent : (m fmt == 37) ≡ false = rw at (==_false_of_ne c 37 q) in
      let start : (if m fmt == 37 then fmt + 1 else fmt) ≡ fmt = rw no_percent refl in
      let (p, e, sh) =
        run-Shows stack m args fuel fmt fmt i errno c cs start at n r (omega (arith, f)) in
      (fmt + (1 + length cs), i, p, rw (pick, no_percent) e, sh, λ w. z (sym at ∙ w), more)
  item-Shows fuel fmt i errno (run c cs) is (format_percent at again r more) f =
      let start : (if m fmt == 37 then fmt + 1 else fmt) ≡ fmt + 1 = rw at refl in
      let (p, e, sh) =
        run-Shows stack m args fuel fmt (fmt + 1) i errno 37 cs start again (λ w. omega arith) r
          (omega (arith, f)) in
      (fmt + 1 + (1 + length cs), i, p, rw (pick, at, again) e, sh, λ w. omega (arith, at, w), more)
  item-Shows fuel fmt i errno (number base n) is (format_number {c} at d b₀ arg h more) f =
      let b = sym (numeric-number_base c) ∙ b₀ in
      let k = number_base-IsNumber c base b in
      let (p, e, sh) = number-Shows stack m args fuel (fmt + 1) i errno base (rw d b) (rw arg h) in
      (
        fmt + 1 + 1,
        i + 1,
        p,
        rw (pick, at, d, ==_false_of_ne c 37 k.no_percent) e,
        rw (sym arg) sh,
        λ w. omega (arith, at, w),
        more,
      )
  item-Shows fuel fmt i errno (text cs) is (format_text at d x n more) f =
      let (p, e, sh) = text-Shows stack m args fuel (fmt + 1) i errno cs d x n f in
      (fmt + 1 + 1, i + 1, p, rw (pick, at, d) e, sh, λ w. omega (arith, at, w), more)
  item-Shows fuel fmt i errno (character n) is (format_character at d arg ne more) f =
      let (p, e, sh) = character-Shows stack m args fuel (fmt + 1) i errno d (rw arg ne) in
      (fmt + 1 + 1, i + 1, p, rw (pick, at, d) e, rw (sym arg) sh, λ w. omega (arith, at, w), more)
  item-Shows fuel fmt i errno (remainder cs) is (format_remainder {c} at d q nc ns b₀ x n) f =
      let b = sym (numeric-number_base c) ∙ b₀ in
      let (p, e, sh) =
        rest-Shows stack m args fuel fmt i errno cs (λ w. nc (sym d ∙ w)) (λ w. ns (sym d ∙ w))
          (rw d b) x n f in
      (
        fmt + length cs,
        i,
        p,
        rw (pick, at, d, ==_false_of_ne c 37 q) e,
        sh,
        λ w. omega (arith, at, w),
        format_end (IsText-end fmt cs x),
      )

  vprintf_loop-render :
      (fuel fmt i written : ℕ) (is : List Item) (s : Stdio)
      → IsFormat m args fmt i is
      → rounds is ≤ fuel
      → written + length (render is) ≤ int_max
      → vprintf_loop stack fuel m args fmt i written s
        ≡ some
            (some (written + length (render is)), record s { display = show (render is) s.display })
  unfolding vprintf_loop
  vprintf_loop-render zero fmt i written [] s x f h = absurd (omega arith)
  vprintf_loop-render zero fmt i written (item ∷ is) s x f h = absurd (omega arith)
  vprintf_loop-render (suc fuel) fmt i written [] s (format_end z) f h =
      let e : written ≡ written + 0 = omega arith in
      rw (vprintf_loop, z) (ap (λ (k : ℕ). some (some k, s)) e)
  vprintf_loop-render (suc fuel) fmt i written (item ∷ is) s x f h =
      let n = length-append (bytes_of item) (render is) in
      let (fmt', i', p, e, sh, ne, more) = item-Shows fuel fmt i s.errno item is x (omega arith) in
      let s' = record s { display = show (bytes_of item) s.display } in
      let next : written + length (bytes_of item) + length (render is)
          ≡ written + length (render (item ∷ is)) =
        omega (arith, n) in
      round-Shows fuel fmt i written (bytes_of item) s p ne e sh (omega (arith, n))
      ∙ vprintf_loop-render fuel fmt' i' (written + length (bytes_of item)) is s' more (omega arith)
          (omega (arith, n))
      ∙ ap (λ (k : ℕ). some (some k, record s { display = show (render is) s'.display })) next
      ∙ ap
          (λ (d : Display).
            some (some (written + length (render (item ∷ is))), record s { display = d }))
          (sym (show-append (bytes_of item) (render is) s.display))

  -- For a format whose directives have their arguments, fuel for a round an item and for the
  -- characters, at most INT_MAX bytes to show, and none of them the one that reads as EOF,
  -- `vprintf` and `printf` show the bytes of the items' rendering one after the other, return how
  -- many they are, and leave `errno` alone.
  pub vprintf-render :
      (fuel fmt : ℕ) (is : List Item) (s : Stdio)
      → IsFormat m args fmt 0 is
      → rounds is ≤ fuel
      → length (render is) ≤ int_max
      → let shown = record s { display = show (render is) s.display } in
        (vprintf stack fuel m args fmt s ≡ some (some (length (render is)), shown))
        × (printf stack fuel m args fmt s ≡ some (some (length (render is)), shown))
  unfolding vprintf printf
  vprintf-render fuel fmt is s x f h =
      let z : 0 + length (render is) ≡ length (render is) = omega arith in
      let shown = record s { display = show (render is) s.display } in
      let e : vprintf_loop stack fuel m args fmt 0 0 s ≡ some (some (length (render is)), shown) =
        vprintf_loop-render fuel fmt 0 0 is s x f (rw z h)
        ∙ ap (λ (k : ℕ). some (some k, shown)) z in
      (e, e)
