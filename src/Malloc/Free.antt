-- ===== src/Malloc/Free.antt =====
-- Where `free` puts a block into the list of free blocks, and that `malloc` finds it there.
use missy_kernel.Base.{
  ℕ, suc, ◌+◌, ◌*◌, ◌^◌, ◌≤◌, ◌<◌, ◌≡◌, ◌≢◌, ◌⊎◌, refl, ◌∙◌, ap, arith, u32, sub32, Store, write32,
  write32-byte, word-write32, word-write32_other, ◌==◌, ==_refl, ==_false_of_ne, true, false, some,
}
use missy_kernel.Malloc.{
  Heap, next_of, size_of, set_next, header_end, coalesce_up, coalesce_down, free, take, start_list,
  malloc_loop, malloc,
}
use missy_kernel.Malloc.Place.{Leads, find_header-Leads}
use missy_kernel.Malloc.Fit.{arrived, malloc_loop-Reaches}

pub write32-lt : (m : Store) (a v : ℕ) → ((b : ℕ) → m b < 256) → (b : ℕ) → write32 m a v b < 256
write32-lt m a v bytes b = ground (arith, bytes b)

-- A block that has not been joined with either of its neighbours has been put in between them.
pub record Inserted (mblock header : ℕ) (h h' : Heap) : Type 0 where
  pub to_block : next_of h'.mem header ≡ mblock
  pub from_block : next_of h'.mem mblock ≡ next_of h.mem header
  pub same :
      (b : ℕ)
      → (b < header) ⊎ (header + 4 ≤ b)
      → (b < mblock) ⊎ (mblock + 4 ≤ b)
      → h'.mem b ≡ h.mem b
  pub search_from : h'.next_free ≡ header
  pub same_brk : h'.brk ≡ h.brk
  pub bytes : ((b : ℕ) → h.mem b < 256) → (b : ℕ) → h'.mem b < 256

module _ (mblock header : ℕ) (h : Heap) where
  -- The block does not end where the next one starts, nor start where the one before it ends, as
  -- `free` counts.
  pub record Loose : Type 0 where
    pub apart : (header + 8 ≤ mblock) ⊎ (mblock + 8 ≤ header)
    pub above : header_end h.mem mblock ≢ next_of h.mem header
    pub below : header_end h.mem header ≢ mblock

  pub free-Inserted :
      (fuel n : ℕ)
      → Leads h.mem mblock h.next_free n header
      → n < fuel
      → mblock + 8 < 2 ^ 32
      → Loose
      → ((b : ℕ) → h.mem b < 256)
      → (h' : Heap) × (free fuel (mblock + 8) h ≡ some h') × Inserted mblock header h h'
  unfolding free coalesce_up coalesce_down
  free-Inserted fuel n l f low x bytes =
      let start : sub32 (mblock + 8) 8 ≡ mblock = omega arith in
      let found = find_header-Leads fuel h.mem mblock h.next_free n header l f in
      let next = next_of h.mem header in
      let next_low : next < 2 ^ 32 =
        omega (arith, bytes header, bytes (header + 1), bytes (header + 2), bytes (header + 3)) in
      let m₁ = set_next mblock next h.mem in
      let m₂ = set_next header mblock m₁ in
      let no_up : (header_end h.mem mblock == next) ≡ false = ==_false_of_ne _ next x.above in
      let size : size_of m₁ header ≡ size_of h.mem header =
        word-write32_other h.mem mblock next (header + 4) (omega (arith, x.apart)) in
      let no_down : (header_end m₁ header == mblock) ≡ false =
        ap (λ (k : ℕ). u32 (header + 8 * k) == mblock) size ∙ ==_false_of_ne _ mblock x.below in
      let up : coalesce_up mblock header h.mem ≡ m₁ = rw (coalesce_up, no_up) refl in
      let down : coalesce_down mblock header m₁ ≡ m₂ = rw (coalesce_down, no_down) refl in
      (
        record h { mem = m₂; next_free = header },
        rw (free, start, found, start, up, down) refl,
        record {
          to_block = word-write32 m₁ header mblock (omega arith);
          from_block =
              word-write32_other m₁ header mblock mblock (omega (arith, x.apart))
              ∙ word-write32 h.mem mblock next next_low;
          same = λ b o o'. write32-byte m₁ header mblock b o ∙ write32-byte h.mem mblock next b o';
          search_from = refl;
          same_brk = refl;
          bytes = λ k. write32-lt m₁ header mblock (write32-lt h.mem mblock next k);
        },
      )

-- A block of just the size is taken whole from behind the header where the search starts.
malloc-whole :
    (fuel nbytes mblock header : ℕ) (h : Heap)
    → h.next_free ≡ header
    → header ≢ 0
    → next_of h.mem header ≡ mblock
    → size_of h.mem mblock ≡ nbytes + 8
    → nbytes + 8 < 2 ^ 32
    → mblock + 8 < 2 ^ 32
    → malloc (suc fuel) nbytes h
      ≡ some (
        mblock + 8,
        record h { mem = set_next header (next_of h.mem mblock) h.mem; next_free = header },
      )
unfolding malloc start_list take
malloc-whole fuel nbytes mblock header h at ne next size small low =
    let started : (h.next_free == 0) ≡ false = rw at (==_false_of_ne header 0 ne) in
    let wanted : u32 (nbytes + 8) ≡ nbytes + 8 = omega arith in
    let head : next_of h.mem h.next_free ≡ mblock = ap (λ (p : ℕ). next_of h.mem p) at ∙ next in
    let fits : nbytes + 8 ≤ size_of h.mem mblock = omega (arith, size) in
    let found =
      malloc_loop-Reaches (suc fuel) (nbytes + 8) h.next_free mblock 0 h.next_free mblock h arrived
        fits (omega arith) in
    let exact : (size_of h.mem mblock == nbytes + 8) ≡ true = rw size (==_refl (nbytes + 8)) in
    let address : u32 (mblock + 8) ≡ mblock + 8 = omega arith in
    let taken : take (nbytes + 8) header mblock h ≡ (
      mblock + 8,
      record h { mem = set_next header (next_of h.mem mblock) h.mem; next_free = header },
    ) =
      rw (take, exact, address) refl in
    let begun : malloc (suc fuel) nbytes h
        ≡ malloc_loop (suc fuel) (nbytes + 8) h.next_free (next_of h.mem h.next_free) h =
      rw (malloc, started, wanted) refl in
    begun
    ∙ ap (λ (p : ℕ). malloc_loop (suc fuel) (nbytes + 8) h.next_free p h) head
    ∙ found
    ∙ ap (λ (p : ℕ). some (take (nbytes + 8) p mblock h)) at
    ∙ ap (λ (r : ℕ × Heap). some r) taken

-- Where the walk leads to a header behind which a block of `nbytes` bytes belongs, the block is not
-- joined with a neighbour, as `free` counts, and is apart from the header, the bytes of memory are
-- bytes, and the block ends within 32-bit addresses: with more fuel than steps `free` puts the block
-- in behind that header, and the next `malloc` of the same size returns the same block. Afterwards the
-- header leads where it led before, and no memory but the link in the block's own header and the one
-- in that header has changed.
pub free-malloc :
    (fuel fuel' n nbytes mblock header : ℕ) (h : Heap)
    → Leads h.mem mblock h.next_free n header
    → n < fuel
    → Loose mblock header h
    → ((b : ℕ) → h.mem b < 256)
    → header ≢ 0
    → size_of h.mem mblock ≡ nbytes + 8
    → mblock + 8 < 2 ^ 32
    → (h₁ h₂ : Heap) × (free fuel (mblock + 8) h ≡ some h₁)
      × Inserted mblock header h h₁
      × (malloc (suc fuel') nbytes h₁ ≡ some (mblock + 8, h₂))
      × (next_of h₂.mem header ≡ next_of h.mem header)
      × ((b : ℕ)
          → (b < header) ⊎ (header + 4 ≤ b)
          → (b < mblock) ⊎ (mblock + 4 ≤ b)
          → h₂.mem b ≡ h.mem b)
free-malloc fuel fuel' n nbytes mblock header h l f x bytes ne size low =
    let (h₁, freed, y) = free-Inserted mblock header h fuel n l f low x bytes in
    let next = next_of h.mem header in
    let next_low : next < 2 ^ 32 =
      omega (arith, bytes header, bytes (header + 1), bytes (header + 2), bytes (header + 3)) in
    let small : nbytes + 8 < 2 ^ 32 = omega (
      arith,
      size,
      bytes (mblock + 4),
      bytes (mblock + 4 + 1),
      bytes (mblock + 4 + 2),
      bytes (mblock + 4 + 3),
    ) in
    let size₁ : size_of h₁.mem mblock ≡ nbytes + 8 = omega (
      arith,
      size,
      y.same (mblock + 4) (omega (arith, x.apart)) (omega arith),
      y.same (mblock + 4 + 1) (omega (arith, x.apart)) (omega arith),
      y.same (mblock + 4 + 2) (omega (arith, x.apart)) (omega arith),
      y.same (mblock + 4 + 3) (omega (arith, x.apart)) (omega arith),
    ) in
    let again =
      malloc-whole fuel' nbytes mblock header h₁ y.search_from ne y.to_block size₁ small low in
    (
      h₁,
      record h₁ { mem = set_next header (next_of h₁.mem mblock) h₁.mem; next_free = header },
      freed,
      y,
      again,
      ap (λ (v : ℕ). next_of (set_next header v h₁.mem) header) y.from_block
          ∙ word-write32 h₁.mem header next next_low,
      λ b o o'. write32-byte h₁.mem header (next_of h₁.mem mblock) b o ∙ y.same b o o',
    )
