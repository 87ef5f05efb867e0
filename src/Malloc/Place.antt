-- ===== src/Malloc/Place.antt =====
-- The walk of `free` to the header behind which a block belongs.
use missy_kernel.Base.{
  ℕ, zero, suc, ◌≤◌, ◌<◌, ◌≡◌, ◌⊎◌, inl, inr, refl, arith, Store, ltb, leb, ◌&&◌, ◌||◌, Bool-cases,
  Bool, true, some,
}
use missy_kernel.Malloc.{next_of, find_header}

-- The block belongs behind the header: between it and the next one, or, where the list turns back
-- to its lowest header, above all headers or below them.
abbrev pub Belongs : Store → ℕ → ℕ → Type 0
Belongs m mblock header =
    ((header < mblock) × (mblock < next_of m header))
    ⊎ ((next_of m header ≤ header) × ((header < mblock) ⊎ (mblock < next_of m header)))

-- The walk from a header gets to the first one behind which the block belongs, in so many steps.
pub data Leads (m : Store) (mblock : ℕ) : ℕ → ℕ → ℕ → Type 0 where
  there : {header : ℕ} → Belongs m mblock header → Leads m mblock header 0 header
  onwards :
      {header n header' : ℕ}
      → ¬ Belongs m mblock header
      → Leads m mblock (next_of m header) n header'
      → Leads m mblock header (suc n) header'

-- The two tests of the walk.
abbrev between : Store → ℕ → ℕ → Bool
between m mblock header = ltb header mblock && ltb mblock (next_of m header)

abbrev at_turn : Store → ℕ → ℕ → Bool
at_turn m mblock header =
    leb (next_of m header) header && (ltb header mblock || ltb mblock (next_of m header))

between-Belongs :
    (m : Store) (mblock header : ℕ) → between m mblock header ≡ true → Belongs m mblock header
between-Belongs m mblock header e = inl (ground arith, ground arith)

at_turn-Belongs :
    (m : Store) (mblock header : ℕ) → at_turn m mblock header ≡ true → Belongs m mblock header
at_turn-Belongs m mblock header e = elim (Bool-cases (ltb header mblock)) [
  | inl l ↦ inr (ground arith, inl (ground arith))
  | inr g ↦ inr (ground arith, inr (ground arith))
]

pub find_header-Leads :
    (fuel : ℕ) (m : Store) (mblock header n header' : ℕ)
    → Leads m mblock header n header'
    → n < fuel
    → find_header fuel m mblock header ≡ some header'
unfolding find_header
find_header-Leads zero m mblock header n header' l f = absurd (omega arith)
find_header-Leads (suc fuel) m mblock header zero header' (there b) f =
    elim (Bool-cases (between m mblock header)) [
      | inl t ↦ rw (find_header, t) refl
      | inr t ↦
          let t' : at_turn m mblock header ≡ true = ground (arith, b, t) in
          rw (find_header, t, t') refl
    ]
find_header-Leads (suc fuel) m mblock header (suc n) header' (onwards ne l) f =
    elim (Bool-cases (between m mblock header)) [
      | inl t ↦ absurd (ne (between-Belongs m mblock header t))
      | inr t ↦ elim (Bool-cases (at_turn m mblock header)) [
        | inl t' ↦ absurd (ne (at_turn-Belongs m mblock header t'))
        | inr t' ↦
            rw (find_header, t, t')
              (find_header-Leads fuel m mblock (next_of m header) n header' l (omega arith))
      ]
    ]
