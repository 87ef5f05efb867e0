-- ===== src/Kmemlow/Regions.antt =====
-- `reserve_region`, `free_region` and the loop over the memory map, block by block.
use missy_kernel.Base.{
  ℕ, zero, suc, ◌+◌, ◌-◌, ◌/◌, ◌^◌, ◌<◌, ◌≡◌, inl, inr, refl, ◌∙◌, ap, arith, in_run, Option, some,
  List, [], ◌∷◌, length, ◌==◌, if◌then◌else◌, Bool-cases, u32, Bool, true, false, ◌&&◌, ◌||◌, leb,
  ◌%◌, ◌*◌,
}
use missy_kernel.Bitmap.{block_bit, mark, clear}
use missy_kernel.Bitmap.Laws.{IsWords, block_bit-mark, block_bit-clear, mark-IsWords, clear-IsWords}
use missy_kernel.BootInfo.{MmapData, BootApi, Yields, done, more}
use missy_kernel.Kmemlow.{
  Kmemlow, allocate, deallocate, reserve_loop, free_loop, free_region, free_available,
}

-- What the region loops leave alone.
pub record SameShape (k k' : Kmemlow) : Type 0 where
  pub same_address : k'.mbitmap_physical ≡ k.mbitmap_physical
  pub same_total : k'.total_blocks ≡ k.total_blocks
  pub same_size : k'.bitmap_size ≡ k.bitmap_size
  pub same_end : k'.kernel_end_physical ≡ k.kernel_end_physical
  pub same_errno : k'.errno ≡ k.errno

pub SameShape-refl : (k : Kmemlow) → SameShape k k
SameShape-refl k = ground arith

pub SameShape-trans : {k k' k'' : Kmemlow} → SameShape k k' → SameShape k' k'' → SameShape k k''
SameShape-trans p q = ground arith

-- `reserve_region` on `n` blocks from `align` on.
pub record Reserved (align n : ℕ) (k k' : Kmemlow) : Type 0 where
  pub bits : (j : ℕ) → block_bit k'.map j ≡ (if in_run align n j then 1 else block_bit k.map j)
  pub used : u32 k'.used_blocks ≡ u32 (k.used_blocks + n)
  pub words : IsWords k.map → IsWords k'.map
  pub shape : SameShape k k'

pub reserve_loop-Reserved :
    (n align : ℕ) (k : Kmemlow) → Reserved align n k (reserve_loop n align k)
unfolding reserve_loop allocate
reserve_loop-Reserved zero align k = record {
  bits = λ j. ground arith;
  used = ap u32 (omega arith);
  words = λ w. w;
  shape = SameShape-refl k;
}
reserve_loop-Reserved (suc n) align k =
    let rest =
      reserve_loop-Reserved n (align + 1)
        (record k { map = mark k.map align; used_blocks = u32 (k.used_blocks + 1) }) in
    record {
      bits = λ j. ground (arith, rest.bits j, block_bit-mark k.map align j);
      used = omega (arith, rest.used);
      words = λ w. rest.words (mark-IsWords k.map align w);
      shape = ground (arith, rest.shape);
    }

-- `free_region` on `n` blocks from `align` on.
pub record Freed (align n : ℕ) (k k' : Kmemlow) : Type 0 where
  pub bits : (j : ℕ) → block_bit k'.map j ≡ (if in_run align n j then 0 else block_bit k.map j)
  pub used : u32 (k'.used_blocks + n) ≡ u32 k.used_blocks
  pub words : IsWords k.map → IsWords k'.map
  pub shape : SameShape k k'

pub free_loop-Freed : (n align : ℕ) (k : Kmemlow) → Freed align n k (free_loop n align k)
unfolding free_loop deallocate
free_loop-Freed zero align k = record {
  bits = λ j. ground arith;
  used = ap u32 (omega arith);
  words = λ w. w;
  shape = SameShape-refl k;
}
free_loop-Freed (suc n) align k =
    let rest =
      free_loop-Freed n (align + 1)
        (record k { map = clear k.map align; used_blocks = u32 (k.used_blocks + 2 ^ 32 - 1) }) in
    record {
      bits = λ j. ground (arith, rest.bits j, block_bit-clear k.map align j);
      used = omega (arith, rest.used);
      words = λ w. rest.words (clear-IsWords k.map align w);
      shape = ground (arith, rest.shape);
    }

-- The blocks that the code frees for an entry: it cuts the base and the length to 32 bits, and
-- rounds both down.
abbrev freed_by : MmapData → ℕ → Bool
freed_by e j = (e.type == 1) && in_run (u32 e.base / 4096) (u32 e.length / 4096) j

abbrev pub freed : List MmapData → ℕ → Bool
freed [] j = false
freed (e ∷ es) j = freed_by e j || freed es j

abbrev pub freed_blocks : List MmapData → ℕ
freed_blocks [] = 0
freed_blocks (e ∷ es) = (if e.type == 1 then u32 e.length / 4096 else 0) + freed_blocks es

-- An available entry (type 1) contains all bytes of the block `j`.
abbrev pub covers : MmapData → ℕ → Bool
covers e j = (e.type == 1) && leb e.base (4096 * j) && leb (4096 * j + 4096) (e.base + e.length)

abbrev pub available : List MmapData → ℕ → Bool
available [] j = false
available (e ∷ es) j = covers e j || available es j

-- How many blocks the available entries have, blocks that two entries share counted twice.
abbrev pub available_blocks : List MmapData → ℕ
available_blocks [] = 0
available_blocks (e ∷ es) = (if e.type == 1 then e.length / 4096 else 0) + available_blocks es

-- The entry starts at a page boundary, and its start and its length are below 4 GiB.
pub record PagedEntry (e : MmapData) : Type 0 where
  pub boundary : e.base % 4096 ≡ 0
  pub low : e.base < 2 ^ 32
  pub short : e.length < 2 ^ 32

-- All available entries are such.
pub data Paged : List MmapData → Type 0 where
  paged_nil : Paged []
  paged_cons :
      {e : MmapData} {es : List MmapData} → (e.type ≡ 1 → PagedEntry e) → Paged es → Paged (e ∷ es)

freed_by-covers : (e : MmapData) (j : ℕ) → (e.type ≡ 1 → PagedEntry e) → freed_by e j ≡ covers e j
freed_by-covers e j p = elim (Bool-cases (e.type == 1)) [
  | inl y ↦
      let x = p (ground (arith, y)) in
      let base : u32 e.base ≡ e.base = omega (arith, x.low) in
      let size : u32 e.length ≡ e.length = omega (arith, x.short) in
      rw (y, base, size) (ground (arith, x.boundary))
  | inr n ↦ rw n refl
]

pub freed-available : (es : List MmapData) (j : ℕ) → Paged es → freed es j ≡ available es j
freed-available [] j p = refl
freed-available (e ∷ es) j (paged_cons x p) =
    rw (freed_by-covers e j x, freed-available es j p) refl

pub freed_blocks-available_blocks :
    (es : List MmapData) → Paged es → freed_blocks es ≡ available_blocks es
freed_blocks-available_blocks [] p = refl
freed_blocks-available_blocks (e ∷ es) (paged_cons x p) =
    let rest = freed_blocks-available_blocks es p in
    elim (Bool-cases (e.type == 1)) [
      | inl y ↦
          let s = (x (ground (arith, y))).short in
          let size : u32 e.length ≡ e.length = omega (arith, s) in rw (y, size, rest) refl
      | inr n ↦ rw (n, rest) refl
    ]

pub record Available (es : List MmapData) (k k' : Kmemlow) : Type 0 where
  pub bits : (j : ℕ) → block_bit k'.map j ≡ (if freed es j then 0 else block_bit k.map j)
  pub used : u32 (k'.used_blocks + freed_blocks es) ≡ u32 k.used_blocks
  pub words : IsWords k.map → IsWords k'.map
  pub shape : SameShape k k'

Available-skip :
    (e : MmapData) {es : List MmapData} {k k' : Kmemlow}
    → (e.type == 1) ≡ false
    → Available es k k'
    → Available (e ∷ es) k k'
Available-skip e other rest = record {
  bits = λ j. ground (arith, rest.bits j);
  used = rw other (omega (arith, rest.used));
  words = rest.words;
  shape = rest.shape;
}

Available-free :
    (e : MmapData) {es : List MmapData} {k k₁ k' : Kmemlow}
    → (e.type == 1) ≡ true
    → Freed (u32 e.base / 4096) (u32 e.length / 4096) k k₁
    → Available es k₁ k'
    → Available (e ∷ es) k k'
Available-free e usable freed rest = record {
  bits = λ j. ground (arith, rest.bits j, freed.bits j);
  used = rw usable (omega (arith, rest.used, freed.used));
  words = λ w. rest.words (freed.words w);
  shape = SameShape-trans freed.shape rest.shape;
}

Available-cons :
    (e : MmapData) (es : List MmapData) (k k' : Kmemlow)
    → Available es (if e.type == 1 then free_region (u32 e.base) (u32 e.length) k else k) k'
    → Available (e ∷ es) k k'
unfolding free_region
Available-cons e es k k' rest = elim (Bool-cases (e.type == 1)) [
  | inl usable ↦
      Available-free e usable (free_loop-Freed (u32 e.length / 4096) (u32 e.base / 4096) k)
        (rw usable at rest)
  | inr other ↦ Available-skip e other (rw other at rest)
]

module _ {S : Type 0} (api : BootApi S) where
  -- With more fuel than entries the loop ends, after it has seen each entry.
  pub free_available-Available :
      (fuel : ℕ) {s end : S} {es : List MmapData} (k : Kmemlow)
      → Yields api end s es
      → length es < fuel
      → (k' : Kmemlow) × (free_available api fuel s k ≡ some (k', end)) × Available es k k'
  unfolding free_available
  free_available-Available zero k y h = absurd (omega arith)
  free_available-Available (suc fuel) k (done e) h = (
    k,
    rw (e, free_available) (ap (λ (r : Option MmapData × S). some (k, r.1)) e),
    record {
      bits = λ j. refl;
      used = ap u32 (omega arith);
      words = λ w. w;
      shape = SameShape-refl k;
    },
  )
  free_available-Available (suc fuel) k (more {s' = s'} {e = e'} {es = es} e y) h =
      let k₁ = if e'.type == 1 then free_region (u32 e'.base) (u32 e'.length) k else k in
      let (k', ran, rest) = free_available-Available fuel k₁ y (omega arith) in
      (
        k',
        rw (e, free_available)
            (ap (λ (r : Option MmapData × S). free_available api fuel r.1 k₁) e ∙ ran),
        Available-cons e' es k k' rest,
      )
