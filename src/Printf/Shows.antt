-- ===== src/Printf/Shows.antt =====
-- What the branches of `vprintf` print for the items of a format.
use missy_kernel.Base.{
  ℕ, suc, ◌+◌, ◌-◌, ◌^◌, ◌≤◌, ◌<◌, ◌≡◌, ◌≢◌, refl, ◌∙◌, ap, arith, u8, Store, ◌==◌, ==_false_of_ne,
  true, false, none, some, if◌then◌else◌, List, [], ◌∷◌, length,
}
use missy_kernel.Strings.Text.{IsText, text_end, text_char, strlen-IsText}
use missy_kernel.Itoa.{Printer}
use missy_kernel.Itoa.Glyphs.{capitals}
use missy_kernel.Itoa.Numeral.{itoa-numeral}
use missy_kernel.Itoa.Text.{numeral}
use missy_kernel.Printf.{Piece, number_base, directive, literal}
use missy_kernel.Printf.Pieces.{
  NoEof, Stands, stands_nil, stands_cons, IsText-Stands, numeral-NoEof, IsRun, IsRun-Stands,
  literal_length-IsRun,
}

-- A directive for a number is none of the others.
pub record IsNumber (c base : ℕ) : Type 0 where
  pub low : 2 ≤ base
  pub high : base ≤ 16
  pub no_percent : c ≢ 37
  pub no_character : c ≢ 99
  pub no_text : c ≢ 115

pub number_base-IsNumber : (c base : ℕ) → number_base c ≡ some base → IsNumber c base
number_base-IsNumber c base e = record {
  low = ground (arith, e);
  high = ground (arith, e);
  no_percent = λ q. ground (arith, e, q);
  no_character = λ q. ground (arith, e, q);
  no_text = λ q. ground (arith, e, q);
}

-- A piece of the format: the bytes that it shows, and where the format goes on.
pub record Shows (bytes : List ℕ) (fmt i errno : ℕ) (p : Piece) : Type 0 where
  pub stands : Stands p.bytes p.start bytes
  pub size : p.size ≡ length bytes
  pub next : p.next ≡ fmt
  pub used : p.used ≡ i
  pub error : p.error ≡ errno

pub IsText-end : {m : Store} (p : ℕ) (cs : List ℕ) → IsText m p cs → m (p + length cs) ≡ 0
IsText-end {m} p [] (text_end z) = let e : p + 0 ≡ p = omega arith in ap m e ∙ z
IsText-end {m} p (c ∷ cs) (text_char at ne more) =
    let e : p + suc (length cs) ≡ p + 1 + length cs = omega arith in
    ap m e ∙ IsText-end (p + 1) cs more

module _ (stack : Store) (m : Store) (args : ℕ → ℕ) where
  pub number-Shows :
      (fuel fmt i errno base : ℕ)
      → number_base (m fmt) ≡ some base
      → args i < 2 ^ 32
      → (p : Piece) × (directive stack fuel m args fmt i errno ≡ some p)
        × Shows (numeral capitals base (args i)) (fmt + 1) (i + 1) errno p
  unfolding directive
  number-Shows fuel fmt i errno base b h =
      let k = number_base-IsNumber (m fmt) base b in
      let p₀ : Printer = record { mem = stack; errno = errno } in
      let (m', e, x) = itoa-numeral 0 (args i) base p₀ k.low (omega (arith, k.high)) h in
      let stands =
        IsText-Stands 0 (numeral capitals base (args i)) x
          (numeral-NoEof base (args i) k.low (omega (arith, k.high))) in
      (
        record {
          bytes = m';
          start = 0;
          size = length (numeral capitals base (args i));
          next = fmt + 1;
          used = i + 1;
          error = errno;
        },
        rw
            (
              directive,
              ==_false_of_ne (m fmt) 99 k.no_character,
              ==_false_of_ne (m fmt) 115 k.no_text,
              b,
              e,
            )
            refl,
        record { stands = stands; size = refl; next = refl; used = refl; error = refl },
      )

  pub text-Shows :
      (fuel fmt i errno : ℕ) (cs : List ℕ)
      → m fmt ≡ 115
      → IsText m (args i) cs
      → NoEof cs
      → length cs < fuel
      → (p : Piece) × (directive stack fuel m args fmt i errno ≡ some p)
        × Shows cs (fmt + 1) (i + 1) errno p
  unfolding directive
  text-Shows fuel fmt i errno cs d x n f =
      let other : (m fmt == 99) ≡ false = rw d refl in
      let is_text : (m fmt == 115) ≡ true = rw d refl in
      (
        record {
          bytes = m;
          start = args i;
          size = length cs;
          next = fmt + 1;
          used = i + 1;
          error = errno;
        },
        rw (directive, other, is_text, (strlen-IsText fuel m (args i) cs x f).0) refl,
        record {
          stands = IsText-Stands (args i) cs x n;
          size = refl;
          next = refl;
          used = refl;
          error = refl;
        },
      )

  pub character-Shows :
      (fuel fmt i errno : ℕ)
      → m fmt ≡ 99
      → u8 (args i) ≢ 255
      → (p : Piece) × (directive stack fuel m args fmt i errno ≡ some p)
        × Shows (u8 (args i) ∷ []) (fmt + 1) (i + 1) errno p
  unfolding directive
  character-Shows fuel fmt i errno d n = (
    record {
      bytes = λ _. u8 (args i);
      start = 0;
      size = 1;
      next = fmt + 1;
      used = i + 1;
      error = errno;
    },
    rw (directive, d) refl,
    record {
      stands = stands_cons refl n stands_nil;
      size = refl;
      next = refl;
      used = refl;
      error = refl;
    },
  )

  pub rest-Shows :
      (fuel fmt i errno : ℕ) (cs : List ℕ)
      → m (fmt + 1) ≢ 99
      → m (fmt + 1) ≢ 115
      → number_base (m (fmt + 1)) ≡ none
      → IsText m fmt cs
      → NoEof cs
      → length cs < fuel
      → (p : Piece) × (directive stack fuel m args (fmt + 1) i errno ≡ some p)
        × Shows cs (fmt + length cs) i errno p
  unfolding directive
  rest-Shows fuel fmt i errno cs nc ns b x n f =
      let back : fmt + 1 - 1 ≡ fmt = omega arith in
      (
        record {
          bytes = m;
          start = fmt;
          size = length cs;
          next = fmt + length cs;
          used = i;
          error = errno;
        },
        rw
            (
              directive,
              ==_false_of_ne (m (fmt + 1)) 99 nc,
              ==_false_of_ne (m (fmt + 1)) 115 ns,
              b,
              back,
              (strlen-IsText fuel m fmt cs x f).0,
              back,
            )
            refl,
        record {
          stands = IsText-Stands fmt cs x n;
          size = refl;
          next = refl;
          used = refl;
          error = refl;
        },
      )

  pub run-Shows :
      (fuel fmt fmt' i errno c : ℕ) (cs : List ℕ)
      → (if m fmt == 37 then fmt + 1 else fmt) ≡ fmt'
      → m fmt' ≡ c
      → c ≢ 255
      → IsRun m (fmt' + 1) cs
      → length cs < fuel
      → (p : Piece) × (literal fuel m fmt i errno ≡ some p)
        × Shows (c ∷ cs) (fmt' + (1 + length cs)) i errno p
  unfolding literal
  run-Shows fuel fmt fmt' i errno c cs start at n r f = (
    record {
      bytes = m;
      start = fmt';
      size = 1 + length cs;
      next = fmt' + (1 + length cs);
      used = i;
      error = errno;
    },
    rw (literal, start, literal_length-IsRun fuel m fmt' 1 cs r f, start) refl,
    record {
      stands = stands_cons at n (IsRun-Stands (fmt' + 1) cs r);
      size = omega arith;
      next = refl;
      used = refl;
      error = refl;
    },
  )
