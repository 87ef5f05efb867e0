-- ===== src/Mboot2/Find.antt =====
-- What `mboot2_find_tag` finds in a list of tags, and what stands there.
use missy_kernel.Base.{
  ℕ, zero, suc, ◌+◌, ◌*◌, ◌^◌, ◌≤◌, ◌<◌, ◌≡◌, ◌≢◌, inl, inr, refl, arith, u32, Store, word, ◌==◌,
  Bool-cases, false, ==_false_of_ne, Option, none, some, List, [], ◌∷◌, length,
}
use missy_kernel.Base.Masks.{bit_and_align}
use missy_kernel.BootInfo.{MmapData}
use missy_kernel.Mboot2.{Mboot2, error_entry_not_found, next_tag, find_tag_loop, mboot2_find_tag}
use missy_kernel.Mboot2.Tags.{
  Tag, memsz, mmap, other, type_of, size_of, padded, holds_memsz, holds_mmap, holds_other,
  IsEntries, IsTags, end_tag, a_tag, offset_of, memory_size, memory_map,
}

-- A boot structure: its address, its length in bytes and its tags.
pub record IsBoot (m : Store) (ptr n : ℕ) (ts : List Tag) : Type 0 where
  pub present : ptr ≢ 0
  pub total_size : word m ptr ≡ n
  pub in_memory : ptr + n < 2 ^ 32
  pub tags : IsTags m ptr n 8 ts

pub IsTags-fits : {m : Store} {base n o : ℕ} {ts : List Tag} → IsTags m base n o ts → o + 8 ≤ n
IsTags-fits (end_tag z h) = h
IsTags-fits (a_tag ty ne sz big fits holds rest) = omega (arith, IsTags-fits rest)

next_tag-padded :
    (m : Store) (base n o : ℕ) (t : Tag)
    → base + n < 2 ^ 32
    → word m (base + o + 4) ≡ size_of t
    → o + padded t + 8 ≤ n
    → next_tag m (base + o) ≡ base + (o + padded t)
next_tag-padded m base n o t h sz fits =
    let w : u32 (size_of t + 7) ≡ size_of t + 7 = omega arith in
    let d : base + o + padded t ≡ base + (o + padded t) = omega arith in
    let low : u32 (base + (o + padded t)) ≡ base + (o + padded t) = omega arith in
    rw (sz, w, bit_and_align 3 (size_of t + 7) (omega arith) (omega arith), d) low

abbrev pub at_base : ℕ → Option ℕ → Option ℕ
at_base base none = none
at_base base (some o) = some (base + o)

find_tag_loop_lem :
    (fuel : ℕ) (m : Store) (base n type o : ℕ) (ts : List Tag)
    → base + n < 2 ^ 32
    → IsTags m base n o ts
    → length ts < fuel
    → find_tag_loop fuel m type (base + o) ≡ some (at_base base (offset_of type o ts))
unfolding find_tag_loop
find_tag_loop_lem zero m base n type o ts h tags f = absurd (omega arith)
find_tag_loop_lem (suc fuel) m base n type o [] h (end_tag z _) f = rw z refl
find_tag_loop_lem (suc fuel) m base n type o (t ∷ ts) h (a_tag ty ne sz big fits holds rest) f =
    let go : (word m (base + o) == 0) ≡ false = rw ty (==_false_of_ne (type_of t) 0 ne) in
    let next = next_tag-padded m base n o t h sz (IsTags-fits rest) in
    let tail = find_tag_loop_lem fuel m base n type (o + padded t) ts h rest (omega arith) in
    rw (go, ty, next, tail)
      (elim (Bool-cases (type_of t == type)) [ inl e ↦ rw e refl | inr e ↦ rw e refl ])

-- The outcome of a search, by the offset of the tag that it is for.
abbrev pub found : Mboot2 → Option ℕ → Option ℕ × Mboot2
found s none = (none, record s { errno = error_entry_not_found })
found s (some o) = (some (s.mboot_ptr + o), s)

-- With more fuel than there are tags, `mboot2_find_tag` returns the first tag of the type, or
-- NULL and the error when there is none.
pub mboot2_find_tag_lem :
    (fuel type n : ℕ) (ts : List Tag) (s : Mboot2)
    → IsBoot s.mem s.mboot_ptr n ts
    → length ts < fuel
    → mboot2_find_tag fuel type s ≡ some (found s (offset_of type 8 ts))
unfolding mboot2_find_tag
mboot2_find_tag_lem fuel type n ts s b f =
    let fits = IsTags-fits b.tags in
    let start : u32 (s.mboot_ptr + 8) ≡ s.mboot_ptr + 8 = omega (arith, b.in_memory) in
    let loop = find_tag_loop_lem fuel s.mem s.mboot_ptr n type 8 ts b.in_memory b.tags f in
    rw (==_false_of_ne s.mboot_ptr 0 b.present, start, loop) (outcome (offset_of type 8 ts))
  where
    outcome :
        (r : Option ℕ)
        → elim (some (at_base s.mboot_ptr r)) [
          | none ↦ none
          | some none ↦ some (none, record s { errno = error_entry_not_found })
          | some (some tag) ↦ some (some tag, s)
        ]
          ≡ some (found s r)
    outcome none = refl
    outcome (some o) = refl

-- The search for the size of memory, against what the tags say of it.
pub data SizeAt (m : Store) (base : ℕ) : Option ℕ → Option ℕ → Type 0 where
  no_size : SizeAt m base none none
  size_at :
      {o k : ℕ}
      → word m (base + o + 8) + word m (base + o + 12) ≡ k
      → SizeAt m base (some o) (some k)

pub memory_size-SizeAt :
    {m : Store} {base n : ℕ} (o : ℕ) (ts : List Tag)
    → IsTags m base n o ts
    → SizeAt m base (offset_of 4 o ts) (memory_size ts)
memory_size-SizeAt o [] h = no_size
memory_size-SizeAt o (memsz l u ∷ ts) (a_tag ty ne sz big fits (holds_memsz lower upper) rest) =
    size_at (rw (lower, upper) refl)
memory_size-SizeAt o (mmap es ∷ ts) (a_tag ty ne sz big fits holds rest) =
    memory_size-SizeAt (o + padded (mmap es)) ts rest
memory_size-SizeAt o (other type size ∷ ts) (a_tag ty ne sz big fits (holds_other a b) rest) =
    rw (==_false_of_ne type 4 a) (memory_size-SizeAt (o + padded (other type size)) ts rest)

-- The search for the memory map, against the entries that the tags give.
pub data MapAt (m : Store) (base n : ℕ) : Option ℕ → Option (List MmapData) → Type 0 where
  no_map : MapAt m base n none none
  map_at :
      {o : ℕ} {es : List MmapData}
      → word m (base + o + 4) ≡ 16 + 24 * length es
      → word m (base + o + 8) ≡ 24
      → o + 16 + 24 * length es ≤ n
      → IsEntries m base (o + 16) es
      → MapAt m base n (some o) (some es)

pub memory_map-MapAt :
    {m : Store} {base n : ℕ} (o : ℕ) (ts : List Tag)
    → IsTags m base n o ts
    → MapAt m base n (offset_of 6 o ts) (memory_map ts)
memory_map-MapAt o [] h = no_map
memory_map-MapAt o (memsz l u ∷ ts) (a_tag ty ne sz big fits holds rest) =
    memory_map-MapAt (o + 16) ts rest
memory_map-MapAt o (mmap es ∷ ts) (a_tag ty ne sz big fits (holds_mmap entry at) rest) =
    map_at sz entry (omega arith) at
memory_map-MapAt o (other type size ∷ ts) (a_tag ty ne sz big fits (holds_other a b) rest) =
    rw (==_false_of_ne type 6 b) (memory_map-MapAt (o + padded (other type size)) ts rest)
