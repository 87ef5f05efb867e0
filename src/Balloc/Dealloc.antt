-- ===== src/Balloc/Dealloc.antt =====
-- `balloc_deallocate_block`, and what allocating and deallocating do together.
use missy_kernel.Base.{
  ℕ, ◌+◌, ◌-◌, ◌/◌, ◌%◌, ◌≡◌, ◌≢◌, inl, inr, ◌∙◌, arith, some, ltb, ◌==◌, if◌then◌else◌,
  Option-cases, Bool-cases, ◌&&◌,
}
use missy_kernel.Base.Bits.{bit-lt}
use missy_kernel.Bitmap.{block_bit, scan}
use missy_kernel.Bitmap.Laws.{block_bit-clear}
use missy_kernel.Bitmap.Search.{IsFirstFree}
use missy_kernel.Balloc.{
  Balloc, deallocate, balloc_allocate_block, balloc_deallocate_block, balloc_get_free_blocks,
}
use missy_kernel.Balloc.Count.{
  IsValid, count, count-le, count-clear, allocate-IsValid, deallocate-IsValid,
}
use missy_kernel.Balloc.Alloc.{
  Granted, searched, first_free_lem, found-eq, first_zero-eq, full-eq, balloc_allocate_block_lem,
}

-- `balloc_deallocate_block` frees the block of the address if it lies in the map, changes no
-- other block, and counts it out exactly if it was in use.
pub balloc_deallocate_block_lem :
    (b : Balloc) (address : ℕ)
    → IsValid b
    → let b' = balloc_deallocate_block b address in
      let block = address / 4096 in
      ((k : ℕ)
        → block_bit b'.mbmp k
          ≡ (if (k == block) && ltb k b.total_blocks then 0 else block_bit b.mbmp k))
      × (b'.used_blocks ≡ (
          if (block_bit b.mbmp block == 1) && ltb block b.total_blocks
          then b.used_blocks - 1
          else b.used_blocks))
      × (b'.total_blocks ≡ b.total_blocks)
      × (b'.errno ≡ b.errno)
unfolding balloc_deallocate_block deallocate
balloc_deallocate_block_lem b address v = (
  λ k. ground (
    arith,
    block_bit-clear b.mbmp (address / 4096) k,
    bit-lt (b.mbmp (address / 4096 / 32)) (address / 4096 % 32),
  ),
  ground (
    arith,
    v.counted,
    v.small,
    count-le b.total_blocks b.mbmp,
    count-clear b.total_blocks (address / 4096) b.mbmp,
  ),
  ground arith,
  ground arith,
)

-- `balloc_allocate_block` keeps the state valid: the counter stays the number of blocks in use.
pub balloc_allocate_block-IsValid : (b : Balloc) → IsValid b → IsValid (balloc_allocate_block b).1
balloc_allocate_block-IsValid b v = elim (Option-cases (scan (b.total_blocks / 32) b.mbmp 0)) [
  | inl e ↦ rw (full-eq b e) (record { words = v.words; small = v.small; counted = v.counted })
  | inr (k, e) ↦
      let first : IsFirstFree b.mbmp 0 (searched b) (some k) = rw e at (first_free_lem b v) in
      elim (Bool-cases (k == 0)) [
        | inl z ↦
            let e0 : scan (b.total_blocks / 32) b.mbmp 0 ≡ some 0 = ground arith in
            rw (first_zero-eq b e0) v
        | inr pos ↦
            rw (found-eq b k e pos) (allocate-IsValid b k v (omega (arith, first.1)) first.2)
      ]
]

-- `balloc_deallocate_block` keeps the state valid, whatever address it is given.
pub balloc_deallocate_block-IsValid :
    (b : Balloc) (address : ℕ) → IsValid b → IsValid (balloc_deallocate_block b address)
unfolding balloc_deallocate_block
balloc_deallocate_block-IsValid b address v =
    elim (Bool-cases (block_bit b.mbmp (address / 4096) == 1)) [
      | inl used ↦ elim (Bool-cases (ltb (address / 4096) b.total_blocks)) [
        | inl inside ↦
            rw (used, inside)
              (deallocate-IsValid b (address / 4096) v (ground arith) (ground arith))
        | inr outside ↦ rw (used, outside) v
      ]
      | inr unused ↦ rw unused v
    ]

Granted-undo :
    {b b' : Balloc} {p : ℕ}
    → Granted b p b'
    → IsValid b'
    → let b'' = balloc_deallocate_block b' p in
      ((k : ℕ) → block_bit b''.mbmp k ≡ block_bit b.mbmp k)
      × (b''.used_blocks ≡ b.used_blocks)
      × (b''.total_blocks ≡ b.total_blocks)
Granted-undo {b} {b'} {p} g v' =
    let freed = balloc_deallocate_block_lem b' p v' in
    let at : p / 4096 ≡ g.block = omega (arith, g.address_of) in
    (
      λ k. ground (arith, at, freed.0 k, g.bits k, g.in_range, g.same_total, g.was_free),
      ground (arith, at, freed.1, g.bits (p / 4096), g.in_range, g.same_total, g.used),
      freed.2 ∙ g.same_total,
    )

Granted-distinct : {b b' b'' : Balloc} {p q : ℕ} → Granted b p b' → Granted b' q b'' → p ≢ q
Granted-distinct g g' e = ground (arith, g.address_of, g'.address_of, g'.was_free, g.bits g'.block)

module _ (b : Balloc) (v : IsValid b) where
  -- In a valid state, one of at most 2^20 blocks whose bitmap has words of 32 bits and whose counter
  -- is the number of the blocks' set bits, giving a granted block back restores the use of every
  -- block, and the counter.
  pub balloc_deallocate_block-balloc_allocate_block :
      (balloc_allocate_block b).0 ≢ 0
      → let (p, b') = balloc_allocate_block b in
        let b'' = balloc_deallocate_block b' p in
        ((k : ℕ) → block_bit b''.mbmp k ≡ block_bit b.mbmp k)
        × (b''.used_blocks ≡ b.used_blocks)
        × (b''.total_blocks ≡ b.total_blocks)
  balloc_deallocate_block-balloc_allocate_block ne = elim (balloc_allocate_block_lem b v) [
    | inl g ↦ Granted-undo g (balloc_allocate_block-IsValid b v)
    | inr r ↦ absurd (ne r.null)
  ]

  -- Two blocks granted one after the other are different.
  pub balloc_allocate_block-distinct :
      let (p, b') = balloc_allocate_block b in
      let (q, _) = balloc_allocate_block b' in p ≢ 0 → q ≢ 0 → p ≢ q
  balloc_allocate_block-distinct p q = elim (balloc_allocate_block_lem b v) [
    | inr r ↦ absurd (p r.null)
    | inl g ↦
        elim (balloc_allocate_block_lem (balloc_allocate_block b).1
          (balloc_allocate_block-IsValid b v)) [
            | inr r ↦ absurd (q r.null)
            | inl g' ↦ Granted-distinct g g'
          ]
  ]

  -- `balloc_get_free_blocks` is the number of free blocks, without wrapping.
  pub balloc_get_free_blocks_lem :
      balloc_get_free_blocks b + count b.total_blocks b.mbmp ≡ b.total_blocks
  unfolding balloc_get_free_blocks
  balloc_get_free_blocks_lem = omega (arith, v.counted, v.small, count-le b.total_blocks b.mbmp)
