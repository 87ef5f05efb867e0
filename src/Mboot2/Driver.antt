-- ===== src/Mboot2/Driver.antt =====
-- The operations of the driver on a boot structure, by the tags of the structure.
use missy_kernel.Base.{
  ℕ, zero, suc, ◌+◌, ◌*◌, ◌/◌, ◌^◌, ◌≤◌, ◌<◌, ◌≡◌, ◌⊎◌, refl, ◌∙◌, sym, ap, arith, u32, sub32,
  Store, word, SameRun, word-SameRun, ltb, ltb→lt, ltb_false→le, Bool-cases, inl, inr, Bool, true,
  false, ==_false_of_ne, Option, none, some, List, [], ◌∷◌, length, get_elem?,
}
use missy_kernel.BootInfo.{MmapData}
use missy_kernel.Strings.{memcpy}
use missy_kernel.Strings.Copy.{memcpy_lem, ki_memset-memset}
use missy_kernel.Mboot2.{
  Mboot2, error_entry_not_found, entry_at, mboot2_find_tag, mboot2_get_memory_size,
  mboot2_next_mmap, mboot2_get_next_mmap, mboot2_get_structure_length, mboot2_relocate_tags,
  check_tags, check_multiboot2_tags, init_multiboot2,
}
use missy_kernel.Mboot2.Tags.{
  Tag, IsEntries, an_entry, IsTags-moved, offset_of, memory_size, memory_map,
}
use missy_kernel.Mboot2.Find.{
  IsBoot, found, mboot2_find_tag_lem, SizeAt, no_size, size_at, memory_size-SizeAt, MapAt, no_map,
  map_at, memory_map-MapAt, IsTags-fits,
}

abbrev pub not_found : Mboot2 → Mboot2
not_found s = record s { errno = error_entry_not_found }

-- The size that the first tag of its kind gives, or the error.
abbrev pub size_answer : Mboot2 → Option ℕ → Option ℕ × Mboot2
size_answer s none = (none, not_found s)
size_answer s (some k) = (some (u32 k), s)

-- The next entry of the map, from the position that the driver counts, or its end.
abbrev pub entry_answer : Mboot2 → Option MmapData → Option MmapData × Mboot2
entry_answer s none = (none, s)
entry_answer s (some e) = (some e, record s { current_mmap_entry = s.current_mmap_entry + 1 })

abbrev pub map_answer : Mboot2 → Option (List MmapData) → Option MmapData × Mboot2
map_answer s none = (none, not_found s)
map_answer s (some es) = entry_answer s (get_elem? es s.current_mmap_entry)

-- Whether both required tags are there, and the error when one is not.
abbrev pub check_answer : Mboot2 → Option ℕ → Option (List MmapData) → Bool × Mboot2
check_answer s none map = (false, record s { errno = 1 })
check_answer s (some _) none = (false, record s { errno = 2 })
check_answer s (some _) (some _) = (true, s)

get_elem?-at :
    {m : Store} {base : ℕ} (o : ℕ) (es : List MmapData) (i : ℕ)
    → IsEntries m base o es
    → i < length es
    → get_elem? es i ≡ some (entry_at m (base + o + 24 * i))
get_elem?-at o [] i h l = absurd (omega arith)
get_elem?-at {m} {base} o (e ∷ es) zero (an_entry at rest) l =
    let p : base + o + 24 * 0 ≡ base + o = omega arith in rw (p, at) refl
get_elem?-at {m} {base} o (e ∷ es) (suc i) (an_entry at rest) l =
    let p : base + (o + 24) + 24 * i ≡ base + o + 24 * suc i = omega arith in
    get_elem?-at (o + 24) es i rest (omega arith) ∙ ap (λ (a : ℕ). some (entry_at m a)) p

get_elem?-past : (es : List MmapData) (i : ℕ) → length es ≤ i → get_elem? es i ≡ none
get_elem?-past [] i h = refl
get_elem?-past (e ∷ es) zero h = absurd (omega arith)
get_elem?-past (e ∷ es) (suc i) h = get_elem?-past es i (omega arith)

module _ (fuel n : ℕ) (ts : List Tag) (s : Mboot2) where
  -- With more fuel than tags, the size of memory is what the first tag for it says.
  pub mboot2_get_memory_size_lem :
      IsBoot s.mem s.mboot_ptr n ts
      → length ts < fuel
      → mboot2_get_memory_size fuel s ≡ some (size_answer s (memory_size ts))
  unfolding mboot2_get_memory_size
  mboot2_get_memory_size_lem b f =
      answer (offset_of 4 8 ts) (memory_size ts) (mboot2_find_tag_lem fuel 4 n ts s b f)
        (memory_size-SizeAt 8 ts b.tags)
    where
      answer :
          (o k : Option ℕ)
          → mboot2_find_tag fuel 4 s ≡ some (found s o)
          → SizeAt s.mem s.mboot_ptr o k
          → mboot2_get_memory_size fuel s ≡ some (size_answer s k)
      answer none (some k) e at = elim at [ ]
      answer (some o) none e at = elim at [ ]
      answer none none e no_size = rw (mboot2_get_memory_size, e) refl
      answer (some o) (some k) e (size_at w) = rw (mboot2_get_memory_size, e, w) refl

  -- With more fuel than tags, the calls for the next entry go through the entries of the first
  -- map among the tags, and answer with its end from then on.
  pub mboot2_get_next_mmap_lem :
      IsBoot s.mem s.mboot_ptr n ts
      → length ts < fuel
      → mboot2_get_next_mmap fuel s ≡ some (map_answer s (memory_map ts))
  unfolding mboot2_get_next_mmap mboot2_next_mmap
  mboot2_get_next_mmap_lem b f =
      answer (offset_of 6 8 ts) (memory_map ts) (mboot2_find_tag_lem fuel 6 n ts s b f)
        (memory_map-MapAt 8 ts b.tags)
    where
      i : ℕ
      i = s.current_mmap_entry

      answer :
          (o : Option ℕ) (es : Option (List MmapData))
          → mboot2_find_tag fuel 6 s ≡ some (found s o)
          → MapAt s.mem s.mboot_ptr n o es
          → mboot2_get_next_mmap fuel s ≡ some (map_answer s es)
      answer none (some es) e at = elim at [ ]
      answer (some o) none e at = elim at [ ]
      answer none none e no_map = rw (mboot2_get_next_mmap, mboot2_next_mmap, e) refl
      answer (some o) (some es) e (map_at size entry fits at) =
          let count : sub32 (16 + 24 * length es) 16 / 24 ≡ length es =
            omega (arith, b.in_memory) in
          elim (Bool-cases (ltb i (length es))) [
            | inl t ↦
                let l = ltb→lt i (length es) t in
                let p = s.mboot_ptr + o + 16 + 24 * i in
                let next : u32 (i + 1) ≡ i + 1 = omega (arith, b.in_memory) in
                let addr : u32 (u32 (s.mboot_ptr + o + 16) + 24 * i) ≡ p =
                  omega (arith, b.in_memory) in
                let r : mboot2_next_mmap fuel s
                    ≡ some (some p, record s { current_mmap_entry = i + 1 }) =
                  rw (mboot2_next_mmap, e, size, entry, count, t, next, addr) refl in
                let d : s.mboot_ptr + (o + 16) + 24 * i ≡ p = omega arith in
                let at' : get_elem? es i ≡ some (entry_at s.mem p) =
                  rw (get_elem?-at (o + 16) es i at l, d) refl in
                rw (mboot2_get_next_mmap, r, at') refl
            | inr t ↦
                let r : mboot2_next_mmap fuel s ≡ some (none, s) =
                  rw (mboot2_next_mmap, e, size, entry, count, t) refl in
                rw (mboot2_get_next_mmap, r, get_elem?-past es i (ltb_false→le i (length es) t))
                  refl
          ]

  -- With more fuel than tags, the driver accepts the structure just when both required tags are
  -- there, and its error tells which one is not.
  pub init_multiboot2_lem :
      IsBoot s.mem s.mboot_ptr n ts
      → length ts < fuel
      → init_multiboot2 fuel s ≡ some (check_answer s (memory_size ts) (memory_map ts))
  unfolding init_multiboot2 check_multiboot2_tags check_tags
  init_multiboot2_lem b f =
      answer (offset_of 4 8 ts) (memory_size ts) (offset_of 6 8 ts) (memory_map ts)
        (mboot2_find_tag_lem fuel 4 n ts s b f) (memory_size-SizeAt 8 ts b.tags)
        (mboot2_find_tag_lem fuel 6 n ts s b f) (memory_map-MapAt 8 ts b.tags)
    where
      answer :
          (o k o' : Option ℕ) (es : Option (List MmapData))
          → mboot2_find_tag fuel 4 s ≡ some (found s o)
          → SizeAt s.mem s.mboot_ptr o k
          → mboot2_find_tag fuel 6 s ≡ some (found s o')
          → MapAt s.mem s.mboot_ptr n o' es
          → init_multiboot2 fuel s ≡ some (check_answer s k es)
      answer none (some k) o' es e size e' at = elim size [ ]
      answer (some o) none o' es e size e' at = elim size [ ]
      answer (some o) (some k) none (some es) e size e' at = elim at [ ]
      answer (some o) (some k) (some o') none e size e' at = elim at [ ]
      answer none none o' es e no_size e' at = rw (check_tags, e) refl
      answer (some o) (some k) none none e (size_at w) e' no_map =
          rw (check_tags, e, check_tags, e') refl
      answer (some o) (some k) (some o') (some es) e (size_at w) e' (map_at _ _ _ _) =
          rw (check_tags, e, check_tags, e') refl

mboot2_relocate_tags-memcpy :
    (kernel_end n : ℕ) (ts : List Tag) (s : Mboot2)
    → IsBoot s.mem s.mboot_ptr n ts
    → kernel_end + n < 2 ^ 32
    → mboot2_relocate_tags kernel_end s
      ≡ record s { mem = memcpy s.mem (kernel_end + n) s.mboot_ptr n; mboot_ptr = kernel_end + n }
unfolding mboot2_relocate_tags mboot2_get_structure_length
mboot2_relocate_tags-memcpy kernel_end n ts s b h =
    let low : u32 (kernel_end + n) ≡ kernel_end + n = omega arith in
    let len : mboot2_get_structure_length s ≡ (n, s) =
      rw (==_false_of_ne s.mboot_ptr 0 b.present, b.total_size) refl in
    let copy = (ki_memset-memset s.mem (kernel_end + n) s.mboot_ptr 0 n).1 in
    rw (len, low, copy) refl

-- The relocated structure is the old one at its new place, byte for byte and with the same tags, when
-- the two do not overlap the wrong
-- way: the new place is not above the start of the old one, or lies behind all of it. The new
-- place has addresses of 32 bits. No byte outside it changes.
pub mboot2_relocate_tags_lem :
    (kernel_end n : ℕ) (ts : List Tag) (s : Mboot2)
    → IsBoot s.mem s.mboot_ptr n ts
    → kernel_end + n + n < 2 ^ 32
    → (kernel_end + n ≤ s.mboot_ptr) ⊎ (s.mboot_ptr ≤ kernel_end)
    → let s' = mboot2_relocate_tags kernel_end s in
      (s'.mboot_ptr ≡ kernel_end + n)
      × IsBoot s'.mem s'.mboot_ptr n ts
      × ((i : ℕ) → i < n → s'.mem (kernel_end + n + i) ≡ s.mem (s.mboot_ptr + i))
      × ((a : ℕ) → (a < kernel_end + n) ⊎ (kernel_end + n + n ≤ a) → s'.mem a ≡ s.mem a)
      × (s'.current_mmap_entry ≡ s.current_mmap_entry)
      × (s'.errno ≡ s.errno)
mboot2_relocate_tags_lem kernel_end n ts s b h o =
    let dst = kernel_end + n in
    let copy = λ (a : ℕ). memcpy_lem s.mem dst s.mboot_ptr n a (omega arith) in
    let same : SameRun s.mem s.mboot_ptr (memcpy s.mem dst s.mboot_ptr n) dst n = record {
      same = λ i l. copy (dst + i) ∙ ground arith;
    } in
    let fits = IsTags-fits b.tags in
    let z : dst + 0 ≡ dst = omega arith in
    let z' : s.mboot_ptr + 0 ≡ s.mboot_ptr = omega arith in
    let size : word (memcpy s.mem dst s.mboot_ptr n) dst ≡ n =
      sym (ap (word (memcpy s.mem dst s.mboot_ptr n)) z)
      ∙ word-SameRun 0 same (omega arith)
      ∙ ap (word s.mem) z'
      ∙ b.total_size in
    rw (mboot2_relocate_tags-memcpy kernel_end n ts s b (omega arith)) (
      refl,
      record {
        present = λ e. omega arith;
        total_size = size;
        in_memory = h;
        tags = IsTags-moved same 8 ts b.tags;
      },
      same.same,
      λ a out. copy a ∙ ground arith,
      refl,
      refl,
    )
