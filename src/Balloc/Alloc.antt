-- ===== src/Balloc/Alloc.antt =====
-- `balloc_allocate_block`: what it grants, when it refuses, and what it leaves alone.
use missy_kernel.Base.{
  ℕ, ◌+◌, false, ◌*◌, ◌/◌, ◌<◌, ◌≡◌, ◌⊎◌, inl, inr, refl, arith, none, some, ◌==◌, if◌then◌else◌,
  Option-cases, Bool-cases, u32,
}
use missy_kernel.Bitmap.{block_bit, scan}
use missy_kernel.Bitmap.Laws.{block_bit-mark}
use missy_kernel.Bitmap.Search.{IsFirstFree, scan_lem}
use missy_kernel.Balloc.{Balloc, enomem, first_free, allocate, balloc_allocate_block}
use missy_kernel.Balloc.Count.{IsValid, count-le}

-- The search stops at the last whole word of the map.
abbrev pub searched : Balloc → ℕ
searched b = b.total_blocks / 32 * 32

-- A granted block: free before, the least such, and now the one whose bit has changed.
pub record Granted (b : Balloc) (address : ℕ) (b' : Balloc) : Type 0 where
  pub block : ℕ
  pub address_of : address ≡ block * 4096
  pub not_null : 0 < block
  pub in_range : block < b.total_blocks
  pub was_free : block_bit b.mbmp block ≡ 0
  pub least : (k : ℕ) → k < block → block_bit b.mbmp k ≡ 1
  pub bits : (k : ℕ) → block_bit b'.mbmp k ≡ (if k == block then 1 else block_bit b.mbmp k)
  pub used : b'.used_blocks ≡ b.used_blocks + 1
  pub same_total : b'.total_blocks ≡ b.total_blocks
  pub same_errno : b'.errno ≡ b.errno

-- A refusal: NULL, and the map and the counters as they were.
pub record Refused (b : Balloc) (address : ℕ) (b' : Balloc) : Type 0 where
  pub null : address ≡ 0
  pub same_map : b'.mbmp ≡ b.mbmp
  pub same_used : b'.used_blocks ≡ b.used_blocks
  pub same_total : b'.total_blocks ≡ b.total_blocks
  pub cause :
      ((block_bit b.mbmp 0 ≡ 0) × (b'.errno ≡ b.errno))
      ⊎ (((k : ℕ) → k < searched b → block_bit b.mbmp k ≡ 1) × (b'.errno ≡ enomem))

-- The search never leaves the map, and its block number fits.
pub first_free_lem :
    (b : Balloc)
    → IsValid b
    → IsFirstFree b.mbmp 0 (searched b) (scan (b.total_blocks / 32) b.mbmp 0)
first_free_lem b v = scan_lem (b.total_blocks / 32) b.mbmp 0 (searched b) v.words (omega arith)

module _ (b : Balloc) where
  pub found-eq :
      (k : ℕ)
      → scan (b.total_blocks / 32) b.mbmp 0 ≡ some k
      → (k == 0) ≡ false
      → balloc_allocate_block b ≡ (u32 (k * 4096), allocate b k)
  unfolding balloc_allocate_block first_free
  found-eq k e pos = ground arith

  pub first_zero-eq :
      scan (b.total_blocks / 32) b.mbmp 0 ≡ some 0 → balloc_allocate_block b ≡ (0, b)
  unfolding balloc_allocate_block first_free
  first_zero-eq e = ground arith

  pub full-eq :
      scan (b.total_blocks / 32) b.mbmp 0 ≡ none
      → balloc_allocate_block b ≡ (0, record b { errno = enomem })
  unfolding balloc_allocate_block first_free
  full-eq e = ground arith

  grant :
      (k : ℕ)
      → IsValid b
      → IsFirstFree b.mbmp 0 (searched b) (some k)
      → (k == 0) ≡ false
      → Granted b (u32 (k * 4096)) (allocate b k)
  unfolding allocate
  grant k v first pos = record {
    block = k;
    address_of = omega (arith, v.small, first.1);
    not_null = ground arith;
    in_range = omega (arith, first.1);
    was_free = first.2;
    least = λ j h. first.3 j (omega arith) h;
    bits = λ j. block_bit-mark b.mbmp k j;
    used = omega (arith, v.small, v.counted, count-le b.total_blocks b.mbmp);
    same_total = refl;
    same_errno = refl;
  }

-- `balloc_allocate_block` on a valid state either grants the least free block, which then is the
-- only one whose bit has changed, and counts it, or returns NULL and changes neither the map nor
-- the counters. It refuses only where block 0 is free, or where every block of the whole words of
-- the map is in use, and then sets `errno` to ENOMEM.
pub balloc_allocate_block_lem :
    (b : Balloc)
    → IsValid b
    → Granted b (balloc_allocate_block b).0 (balloc_allocate_block b).1
      ⊎ Refused b (balloc_allocate_block b).0 (balloc_allocate_block b).1
balloc_allocate_block_lem b v = elim (Option-cases (scan (b.total_blocks / 32) b.mbmp 0)) [
  | inl e ↦ rw (full-eq b e) (
      inr (record {
        null = refl;
        same_map = refl;
        same_used = refl;
        same_total = refl;
        cause =
            let all : IsFirstFree b.mbmp 0 (searched b) none = rw e at (first_free_lem b v) in
            inr (λ k h. all k (omega arith) h, refl);
      }))
  | inr (k, e) ↦
      let first : IsFirstFree b.mbmp 0 (searched b) (some k) = rw e at (first_free_lem b v) in
      elim (Bool-cases (k == 0)) [
        | inl z ↦
            let e0 : scan (b.total_blocks / 32) b.mbmp 0 ≡ some 0 = ground arith in
            rw (first_zero-eq b e0) (
              inr (record {
                null = refl;
                same_map = refl;
                same_used = refl;
                same_total = refl;
                cause = inl (ground (arith, first.2), refl);
              }))
        | inr pos ↦ rw (found-eq b k e pos) (inl (grant b k v first pos))
      ]
]
