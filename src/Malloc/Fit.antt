-- ===== src/Malloc/Fit.antt =====
-- Which block `malloc` takes from the list of free blocks, and what it leaves of it.
use missy_kernel.Base.{
  ℕ, zero, suc, ◌+◌, ◌-◌, ◌^◌, ◌≤◌, ◌<◌, ◌≡◌, ◌≢◌, ◌⊎◌, inl, inr, refl, ◌∙◌, arith, u32, Store,
  write32-byte, word-write32, word-write32_other, leb, ◌==◌, ==_refl, ==_false_of_ne, true, false,
  some,
}
use missy_kernel.Malloc.{Heap, next_of, size_of, set_size, take, malloc_loop, start_list, malloc}

-- From the header behind `prev` the loop gets to `header'` behind `prev'` in so many steps, past
-- blocks that are too small, none of which is the one where the search began.
pub data Reaches (m : Store) (size start : ℕ) : ℕ → ℕ → ℕ → ℕ → ℕ → Type 0 where
  arrived : {prev header : ℕ} → Reaches m size start prev header 0 prev header
  past :
      {prev header n prev' header' : ℕ}
      → size_of m header < size
      → header ≢ start
      → Reaches m size start header (next_of m header) n prev' header'
      → Reaches m size start prev header (suc n) prev' header'

pub malloc_loop-Reaches :
    (fuel size prev header n prev' header' : ℕ) (h : Heap)
    → Reaches h.mem size h.next_free prev header n prev' header'
    → size ≤ size_of h.mem header'
    → n < fuel
    → malloc_loop fuel size prev header h ≡ some (take size prev' header' h)
unfolding malloc_loop
malloc_loop-Reaches zero size prev header n prev' header' h r fit f = absurd (omega arith)
malloc_loop-Reaches (suc fuel) size prev header zero prev' header' h arrived fit f =
    let big : leb size (size_of h.mem header) ≡ true = ground arith in rw (malloc_loop, big) refl
malloc_loop-Reaches (suc fuel) size prev header (suc n) prev' header' h (past small ne r) fit f =
    let too_small : leb size (size_of h.mem header) ≡ false = ground arith in
    rw (malloc_loop, too_small, ==_false_of_ne header h.next_free ne)
      (malloc_loop-Reaches fuel size header (next_of h.mem header) n prev' header' h r fit
        (omega arith))

-- The whole block is taken out of the list.
pub record TakenWhole (prev header : ℕ) (h h' : Heap) : Type 0 where
  pub unlinked : next_of h'.mem prev ≡ next_of h.mem header
  pub same : (b : ℕ) → (b < prev) ⊎ (prev + 4 ≤ b) → h'.mem b ≡ h.mem b

-- The end of the block becomes a block of its own, with its header at `taken`.
pub record TakenEnd (header taken size : ℕ) (h h' : Heap) : Type 0 where
  pub left : size_of h'.mem header + size ≡ size_of h.mem header
  pub linked : next_of h'.mem header ≡ next_of h.mem header
  pub sized : size_of h'.mem taken ≡ size
  pub same :
      (b : ℕ)
      → (b < header + 4) ⊎ ((header + 8 ≤ b) × ((b < taken + 4) ⊎ (taken + 8 ≤ b)))
      → h'.mem b ≡ h.mem b

-- The block of `nbytes` bytes at `a` is the end of the block at `header`.
pub record Taken (nbytes prev header a : ℕ) (h h' : Heap) : Type 0 where
  pub behind : header + 8 ≤ a
  pub up_to_end : a + nbytes ≡ header + size_of h.mem header
  pub how : TakenWhole prev header h h' ⊎ TakenEnd header (a - 8) (nbytes + 8) h h'
  pub search_from : h'.next_free ≡ prev
  pub same_brk : h'.brk ≡ h.brk

take-whole :
    (nbytes prev header : ℕ) (h : Heap)
    → ((b : ℕ) → h.mem b < 256)
    → header + size_of h.mem header < 2 ^ 32
    → size_of h.mem header ≡ nbytes + 8
    → let r = take (nbytes + 8) prev header h in Taken nbytes prev header r.0 h r.1
unfolding take
take-whole nbytes prev header h bytes room e =
    let exact : (size_of h.mem header == nbytes + 8) ≡ true = rw e (==_refl (nbytes + 8)) in
    let low : u32 (header + 8) ≡ header + 8 = omega (arith, e) in
    let next : next_of h.mem header < 2 ^ 32 =
      omega (arith, bytes header, bytes (header + 1), bytes (header + 2), bytes (header + 3)) in
    rw (exact, low)
      (record {
        behind = omega arith;
        up_to_end = omega (arith, e);
        how = inl (record {
          unlinked = word-write32 h.mem prev (next_of h.mem header) next;
          same = λ b o. write32-byte h.mem prev (next_of h.mem header) b o;
        });
        search_from = refl;
        same_brk = refl;
      })

take-end :
    (nbytes prev header : ℕ) (h : Heap)
    → ((b : ℕ) → h.mem b < 256)
    → header + size_of h.mem header < 2 ^ 32
    → nbytes + 16 ≤ size_of h.mem header
    → let r = take (nbytes + 8) prev header h in Taken nbytes prev header r.0 h r.1
unfolding take
take-end nbytes prev header h bytes room big =
    let size = size_of h.mem header in
    let left = size - (nbytes + 8) in
    let taken = header + left in
    let larger : (size == nbytes + 8) ≡ false = ground arith in
    let at : u32 (header + left) ≡ taken = omega arith in
    let low : u32 (taken + 8) ≡ taken + 8 = omega arith in
    let m₁ = set_size header left h.mem in
    let back : taken + 8 - 8 ≡ taken = omega arith in
    rw (larger, at, low)
      (record {
        behind = omega arith;
        up_to_end = omega arith;
        how = inr (
            rw back (record {
              left = omega (
                arith,
                word-write32_other m₁ (taken + 4) (nbytes + 8) (header + 4) (omega arith),
                word-write32 h.mem (header + 4) left (omega arith),
              );
              linked =
                  word-write32_other m₁ (taken + 4) (nbytes + 8) header (omega arith)
                  ∙ word-write32_other h.mem (header + 4) left header (omega arith);
              sized = word-write32 m₁ (taken + 4) (nbytes + 8) (omega arith);
              same = λ b o.
                  write32-byte m₁ (taken + 4) (nbytes + 8) b (omega arith)
                  ∙ write32-byte h.mem (header + 4) left b (omega arith);
            }));
        search_from = refl;
        same_brk = refl;
      })

-- Where the list of free blocks has been started, the bytes of memory are bytes, and the search
-- reaches a block that is big enough before it is back at its start, the block being just as big
-- as is asked for, or larger by a header at least, and within 32-bit addresses: with more fuel than
-- steps `malloc` returns the end of that block, and unlinks the block or makes it smaller by what
-- it has returned. It changes no other memory and not the break.
pub malloc_lem :
    (fuel nbytes n prev header : ℕ) (h : Heap)
    → h.next_free ≢ 0
    → ((b : ℕ) → h.mem b < 256)
    → Reaches h.mem (nbytes + 8) h.next_free h.next_free (next_of h.mem h.next_free) n prev header
    → (size_of h.mem header ≡ nbytes + 8) ⊎ (nbytes + 16 ≤ size_of h.mem header)
    → header + size_of h.mem header < 2 ^ 32
    → n < fuel
    → (a : ℕ) × (h' : Heap) × (malloc fuel nbytes h ≡ some (a, h'))
      × Taken nbytes prev header a h h'
unfolding malloc start_list
malloc_lem fuel nbytes n prev header h ne bytes r size room f =
    let started : (h.next_free == 0) ≡ false = ==_false_of_ne h.next_free 0 ne in
    let low : u32 (nbytes + 8) ≡ nbytes + 8 = omega (arith, size) in
    let found =
      malloc_loop-Reaches fuel (nbytes + 8) h.next_free (next_of h.mem h.next_free) n prev header h
        r (omega (arith, size)) f in
    let (a, h') = take (nbytes + 8) prev header h in
    (
      a,
      h',
      rw (malloc, started, low) found,
      elim size [
        | inl e ↦ take-whole nbytes prev header h bytes room e
        | inr big ↦ take-end nbytes prev header h bytes room big
      ],
    )
