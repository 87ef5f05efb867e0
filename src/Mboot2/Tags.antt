-- ===== src/Mboot2/Tags.antt =====
-- The tag list of the second multiboot standard as data, and its bytes in memory.
use missy_kernel.Base.{
  ℕ, ◌+◌, ◌*◌, ◌/◌, ◌≤◌, ◌≡◌, ◌≢◌, refl, ◌∙◌, sym, ap, arith, Store, word, SameRun, word-SameRun,
  ◌==◌, if◌then◌else◌, Option, none, some, List, [], ◌∷◌, length,
}
use missy_kernel.BootInfo.{MmapData}
use missy_kernel.Mboot2.{entry_at}

pub data Tag : Type 0 where
  memsz : (lower upper : ℕ) → Tag
  mmap : (entries : List MmapData) → Tag
  other : (type size : ℕ) → Tag

abbrev pub type_of : Tag → ℕ
type_of (memsz lower upper) = 4
type_of (mmap entries) = 6
type_of (other type size) = type

abbrev pub size_of : Tag → ℕ
size_of (memsz lower upper) = 16
size_of (mmap entries) = 16 + 24 * length entries
size_of (other type size) = size

-- A tag is followed by padding up to a multiple of 8 bytes.
abbrev pub padded : Tag → ℕ
padded t = (size_of t + 7) / 8 * 8

-- The entries of a map from the offset `o` of the structure at `base` on.
pub data IsEntries (m : Store) (base : ℕ) : ℕ → List MmapData → Type 0 where
  no_entry : {o : ℕ} → IsEntries m base o []
  an_entry :
      {o : ℕ} {e : MmapData} {es : List MmapData}
      → entry_at m (base + o) ≡ e
      → IsEntries m base (o + 24) es
      → IsEntries m base o (e ∷ es)

-- The contents of a tag at the offset `o`, besides its type and its size.
pub data Holds (m : Store) (base o : ℕ) : Tag → Type 0 where
  holds_memsz :
      {lower upper : ℕ}
      → word m (base + o + 8) ≡ lower
      → word m (base + o + 12) ≡ upper
      → Holds m base o (memsz lower upper)
  holds_mmap :
      {es : List MmapData}
      → word m (base + o + 8) ≡ 24
      → IsEntries m base (o + 16) es
      → Holds m base o (mmap es)
  holds_other : {type size : ℕ} → type ≢ 4 → type ≢ 6 → Holds m base o (other type size)

-- From the offset `o` of the structure at `base`, which is `n` bytes long, stand the tags, and
-- then the end tag.
pub data IsTags (m : Store) (base n : ℕ) : ℕ → List Tag → Type 0 where
  end_tag : {o : ℕ} → word m (base + o) ≡ 0 → o + 8 ≤ n → IsTags m base n o []
  a_tag :
      {o : ℕ} {t : Tag} {ts : List Tag}
      → word m (base + o) ≡ type_of t
      → type_of t ≢ 0
      → word m (base + o + 4) ≡ size_of t
      → 8 ≤ size_of t
      → o + padded t ≤ n
      → Holds m base o t
      → IsTags m base n (o + padded t) ts
      → IsTags m base n o (t ∷ ts)

-- The offset of the first tag of a type.
abbrev pub offset_of : ℕ → ℕ → List Tag → Option ℕ
offset_of type o [] = none
offset_of type o (t ∷ ts) =
    let rest = offset_of type (o + padded t) ts in if type_of t == type then some o else rest

-- What the first tag of its kind says.
abbrev pub memory_size : List Tag → Option ℕ
memory_size [] = none
memory_size (memsz lower upper ∷ ts) = some (lower + upper)
memory_size (mmap _ ∷ ts) = memory_size ts
memory_size (other _ _ ∷ ts) = memory_size ts

abbrev pub memory_map : List Tag → Option (List MmapData)
memory_map [] = none
memory_map (mmap es ∷ ts) = some es
memory_map (memsz _ _ ∷ ts) = memory_map ts
memory_map (other _ _ ∷ ts) = memory_map ts

module _ {m m' : Store} {src dst n : ℕ} (same : SameRun m src m' dst n) where
  word-moved : (o k : ℕ) → o + k + 4 ≤ n → word m' (dst + o + k) ≡ word m (src + o + k)
  word-moved o k h =
      let d : dst + o + k ≡ dst + (o + k) = omega arith in
      let s : src + o + k ≡ src + (o + k) = omega arith in
      ap (word m') d ∙ word-SameRun (o + k) same h ∙ sym (ap (word m) s)

  entry_at-moved : (o : ℕ) → o + 24 ≤ n → entry_at m' (dst + o) ≡ entry_at m (src + o)
  entry_at-moved o h =
      rw
        (
          word-SameRun o same (omega arith),
          word-moved o 4 (omega arith),
          word-moved o 8 (omega arith),
          word-moved o 12 (omega arith),
          word-moved o 16 (omega arith),
        )
        refl

  IsEntries-moved :
      (o : ℕ) (es : List MmapData)
      → o + 24 * length es ≤ n
      → IsEntries m src o es
      → IsEntries m' dst o es
  IsEntries-moved o [] h no_entry = no_entry
  IsEntries-moved o (e ∷ es) h (an_entry at rest) =
      an_entry (entry_at-moved o (omega arith) ∙ at)
        (IsEntries-moved (o + 24) es (omega arith) rest)

  Holds-moved : (o : ℕ) (t : Tag) → o + size_of t ≤ n → Holds m src o t → Holds m' dst o t
  Holds-moved o (memsz lower upper) h (holds_memsz l u) =
      holds_memsz (word-moved o 8 (omega arith) ∙ l) (word-moved o 12 (omega arith) ∙ u)
  Holds-moved o (mmap es) h (holds_mmap s es') =
      holds_mmap (word-moved o 8 (omega arith) ∙ s) (IsEntries-moved (o + 16) es (omega arith) es')
  Holds-moved o (other type size) h (holds_other a b) = holds_other a b

  -- The tags move with the bytes of the structure.
  pub IsTags-moved : (o : ℕ) (ts : List Tag) → IsTags m src n o ts → IsTags m' dst n o ts
  IsTags-moved o [] (end_tag z h) = end_tag (word-SameRun o same (omega arith) ∙ z) h
  IsTags-moved o (t ∷ ts) (a_tag ty ne sz big fits holds rest) =
      a_tag (word-SameRun o same (omega arith) ∙ ty) ne (word-moved o 4 (omega arith) ∙ sz) big fits
        (Holds-moved o t (omega arith) holds) (IsTags-moved (o + padded t) ts rest)
