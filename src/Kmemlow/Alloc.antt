-- ===== src/Kmemlow/Alloc.antt =====
-- `kmemlow_alloc` and `kmemlow_free`.
use missy_kernel.Base.{
  ℕ, ◌*◌, ◌/◌, ◌^◌, ◌≤◌, ◌<◌, ◌≡◌, ◌≢◌, inl, inr, refl, arith, none, some, ltb, ◌==◌, if◌then◌else◌,
  Option-cases, Bool-cases, u32, false, ◌&&◌,
}
use missy_kernel.Bitmap.{block_bit, scan}
use missy_kernel.Bitmap.Laws.{IsWords, block_bit-mark, block_bit-clear, mark-IsWords, clear-IsWords}
use missy_kernel.Bitmap.Search.{IsFirstFree, scan_lem}
use missy_kernel.Kmemlow.{
  Kmemlow, error_enomem, first_free, allocate, deallocate, kmemlow_alloc, kmemlow_free,
}

pub record IsValid (k : Kmemlow) : Type 0 where
  pub words : IsWords k.map
  pub small : k.total_blocks ≤ 2 ^ 20

abbrev pub searched : Kmemlow → ℕ
searched k = k.total_blocks / 32 * 32

-- A granted block: free before, the least such, and now in use; nothing else has changed.
pub record Granted (k : Kmemlow) (address : ℕ) (k' : Kmemlow) : Type 0 where
  pub block : ℕ
  pub address_of : address ≡ block * 4096
  pub not_null : 0 < block
  pub in_range : block < k.total_blocks
  pub was_free : block_bit k.map block ≡ 0
  pub least : (j : ℕ) → j < block → block_bit k.map j ≡ 1
  pub now : k' ≡ allocate k block
  pub bits : (j : ℕ) → block_bit k'.map j ≡ (if j == block then 1 else block_bit k.map j)

-- NULL because no block of the whole words of the map is free.
pub record OutOfMemory (k : Kmemlow) (address : ℕ) (k' : Kmemlow) : Type 0 where
  pub null : address ≡ 0
  pub all_used : (j : ℕ) → j < searched k → block_bit k.map j ≡ 1
  pub now : k' ≡ record k { errno = error_enomem }

-- NULL because the least free block is block 0, whose address is 0. It is marked as used unless
-- an earlier error code reads as out of memory.
pub record BlockZero (k : Kmemlow) (address : ℕ) (k' : Kmemlow) : Type 0 where
  pub null : address ≡ 0
  pub was_free : block_bit k.map 0 ≡ 0
  pub now : k' ≡ (if k.errno == error_enomem then k else allocate k 0)

module _ (k : Kmemlow) where
  found-eq :
      (block : ℕ)
      → scan (k.total_blocks / 32) k.map 0 ≡ some block
      → (block == 0) ≡ false
      → kmemlow_alloc k ≡ (u32 (block * 4096), allocate k block)
  unfolding kmemlow_alloc first_free
  found-eq block e pos = ground arith

  first_zero-eq :
      scan (k.total_blocks / 32) k.map 0 ≡ some 0
      → kmemlow_alloc k ≡ (0, if k.errno == error_enomem then k else allocate k 0)
  unfolding kmemlow_alloc first_free
  first_zero-eq e = ground arith

  full-eq :
      scan (k.total_blocks / 32) k.map 0 ≡ none
      → kmemlow_alloc k ≡ (0, record k { errno = error_enomem })
  unfolding kmemlow_alloc first_free
  full-eq e = ground arith

  grant :
      (block : ℕ)
      → IsValid k
      → IsFirstFree k.map 0 (searched k) (some block)
      → (block == 0) ≡ false
      → Granted k (u32 (block * 4096)) (allocate k block)
  unfolding allocate
  grant block v first pos = record {
    block = block;
    address_of = omega (arith, v.small, first.1);
    not_null = ground arith;
    in_range = omega (arith, first.1);
    was_free = first.2;
    least = λ j h. first.3 j (omega arith) h;
    now = refl;
    bits = λ j. block_bit-mark k.map block j;
  }

-- The three ways in which `kmemlow_alloc` returns, each with the whole state that it leaves. The
-- counter of used blocks is never touched.
pub data Outcome (k : Kmemlow) (address : ℕ) (k' : Kmemlow) : Type 0 where
  granted : Granted k address k' → Outcome k address k'
  out_of_memory : OutOfMemory k address k' → Outcome k address k'
  block_zero : BlockZero k address k' → Outcome k address k'

-- From a valid state `kmemlow_alloc` returns in one of three ways: it grants the least free
-- block that its search reaches, or returns NULL because every block it searches is in use, or
-- returns NULL because the first free block is block 0. The resulting state is given in each.
pub kmemlow_alloc_lem :
    (k : Kmemlow) → IsValid k → Outcome k (kmemlow_alloc k).0 (kmemlow_alloc k).1
kmemlow_alloc_lem k v = elim (Option-cases (scan (k.total_blocks / 32) k.map 0)) [
  | inl e ↦
      let all : IsFirstFree k.map 0 (searched k) none = rw e at search in
      rw (full-eq k e) (
        out_of_memory (record { null = refl; all_used = λ j h. all j (omega arith) h; now = refl }))
  | inr (block, e) ↦
      let first : IsFirstFree k.map 0 (searched k) (some block) = rw e at search in
      elim (Bool-cases (block == 0)) [
        | inl z ↦
            let e0 : scan (k.total_blocks / 32) k.map 0 ≡ some 0 = ground arith in
            rw (first_zero-eq k e0)
              (block_zero (record { null = refl; was_free = ground (arith, first.2); now = refl }))
        | inr pos ↦ rw (found-eq k block e pos) (granted (grant k block v first pos))
      ]
]
  where
    search : IsFirstFree k.map 0 (searched k) (scan (k.total_blocks / 32) k.map 0)
    search = scan_lem (k.total_blocks / 32) k.map 0 (searched k) v.words (omega arith)

-- `kmemlow_alloc` keeps a valid state valid.
pub kmemlow_alloc-IsValid : (k : Kmemlow) → IsValid k → IsValid (kmemlow_alloc k).1
unfolding allocate
kmemlow_alloc-IsValid k v = elim (kmemlow_alloc_lem k v) [
  | granted g ↦ rw g.now (record { words = mark-IsWords k.map g.block v.words; small = v.small })
  | out_of_memory o ↦ rw o.now (record { words = v.words; small = v.small })
  | block_zero z ↦ rw z.now (elim (Bool-cases (k.errno == error_enomem)) [
    | inl stale ↦ rw stale v
    | inr other ↦ rw other (record { words = mark-IsWords k.map 0 v.words; small = v.small })
  ])
]

-- `kmemlow_free` frees the block of the address if it lies in the map, and changes nothing else.
pub kmemlow_free_lem :
    (k : Kmemlow) (address : ℕ)
    → IsValid k
    → let k' = kmemlow_free k address in
      let block = address / 4096 in
      ((j : ℕ)
        → block_bit k'.map j
          ≡ (if (j == block) && ltb j k.total_blocks then 0 else block_bit k.map j))
      × (k' ≡ record k { map = k'.map })
      × IsValid k'
unfolding kmemlow_free deallocate
kmemlow_free_lem k address v = (
  λ j. ground (arith, block_bit-clear k.map (address / 4096) j),
  ground arith,
  elim (Bool-cases (ltb (address / 4096) k.total_blocks)) [
    | inl inside ↦
        rw inside (record { words = clear-IsWords k.map (address / 4096) v.words; small = v.small })
    | inr outside ↦ rw outside v
  ],
)

-- An address other than NULL is a granted block.
pub Granted-of_ne :
    (k : Kmemlow)
    → IsValid k
    → (kmemlow_alloc k).0 ≢ 0
    → Granted k (kmemlow_alloc k).0 (kmemlow_alloc k).1
Granted-of_ne k v ne = elim (kmemlow_alloc_lem k v) [
  | granted g ↦ g
  | out_of_memory o ↦ absurd (ne o.null)
  | block_zero z ↦ absurd (ne z.null)
]

pub Granted-end :
    {k k' : Kmemlow} {a : ℕ} → Granted k a k' → k'.kernel_end_physical ≡ k.kernel_end_physical
unfolding allocate
Granted-end g = rw g.now
