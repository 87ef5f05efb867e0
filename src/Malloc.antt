-- ===== src/Malloc.antt =====
-- libc/stdlib/malloc.c on the bytes of the kernel's heap, over the program break. A header is a
-- `next` at its address and a `size` 4 bytes further. A walk through the list of free blocks takes
-- fuel, and a call is `none` when that runs out.
pub mod Fit
pub mod Place
pub mod Free
pub mod Grow
mod Tests
use missy_kernel.Base.{
  ℕ, zero, suc, ◌+◌, ◌-◌, ◌*◌, ◌^◌, u32, sub32, ltb, leb, ◌==◌, ◌&&◌, ◌||◌, if◌then◌else◌, true,
  false, Option, none, some, Store, word, write32,
}
use missy_kernel.Balloc.{enomem}
use missy_kernel.Strings.{memset}
use missy_kernel.Brk.{Brk, set_errno, sbrk}

-- MALLOC_MIN_SBRK_REQUEST and `sizeof(_mheader_t)`
abbrev pub malloc_min_sbrk_request : ℕ
malloc_min_sbrk_request = 1024

abbrev pub header_size : ℕ
header_size = 8

-- Memory by bytes, the address of `_base`, `_next_free`, and the program break with `errno`.
pub record Heap : Type 0 where
  pub mem : Store
  pub base : ℕ
  pub next_free : ℕ
  pub brk : Brk

abbrev pub next_of : Store → ℕ → ℕ
next_of m header = word m header

abbrev pub size_of : Store → ℕ → ℕ
size_of m header = word m (header + 4)

abbrev pub set_next : ℕ → ℕ → Store → Store
set_next header next m = write32 m header next

abbrev pub set_size : ℕ → ℕ → Store → Store
set_size header size m = write32 m (header + 4) size

-- `header + header->s.size`, which counts in headers.
abbrev pub header_end : Store → ℕ → ℕ
header_end m header = u32 (header + header_size * size_of m header)

-- The header after which the block belongs.
unfoldable pub find_header : ℕ → Store → ℕ → ℕ → Option ℕ
find_header zero m mblock header = none
find_header (suc fuel) m mblock header = elim (ltb header mblock && ltb mblock (next_of m header)) [
  | true ↦ some header
  | false ↦
      elim (leb (next_of m header) header && (ltb header mblock || ltb mblock (next_of m header))) [
        | true ↦ some header
        | false ↦ find_header fuel m mblock (next_of m header)
      ]
]

unfoldable pub coalesce_up : ℕ → ℕ → Store → Store
coalesce_up mblock header m =
    let next = next_of m header in
    if header_end m mblock == next
    then (let m' = set_size mblock (u32 (size_of m mblock + size_of m next)) m in
        set_next mblock (next_of m' (next_of m' header)) m')
    else set_next mblock next m

unfoldable pub coalesce_down : ℕ → ℕ → Store → Store
coalesce_down mblock header m =
    if header_end m header == mblock
    then (let m' = set_size header (u32 (size_of m header + size_of m mblock)) m in
        set_next header (next_of m' mblock) m')
    else set_next header mblock m

unfoldable pub free : ℕ → ℕ → Heap → Option Heap
unfolding coalesce_up coalesce_down
free fuel block h =
    let mblock = sub32 block header_size in
    elim (find_header fuel h.mem mblock h.next_free) [
      | none ↦ none
      | some header ↦ some (record h {
        mem = coalesce_down mblock header (coalesce_up mblock header h.mem);
        next_free = header;
      })
    ]

-- The new header, or 0 for NULL.
unfoldable pub morecore : ℕ → ℕ → Heap → Option (ℕ × Heap)
morecore fuel size h =
    let wanted = u32 (size + header_size) in
    let request = if ltb wanted malloc_min_sbrk_request then malloc_min_sbrk_request else wanted in
    let (next, brk') = sbrk request h.brk in
    elim (next == 0xffff_ffff) [
      | true ↦ some (0, record h { brk = set_errno enomem brk' })
      | false ↦
          elim (free fuel (u32 (next + header_size))
            (record h { mem = set_size next request h.mem; brk = brk' })) [
              | none ↦ none
              | some h' ↦ some (next, h')
            ]
    ]

-- A block of a header that is big enough: the address for the caller, and the heap.
unfoldable pub take : ℕ → ℕ → ℕ → Heap → ℕ × Heap
take allocation_size prev_header header h =
    if size_of h.mem header == allocation_size
    then (
      u32 (header + header_size),
      record h { mem = set_next prev_header (next_of h.mem header) h.mem; next_free = prev_header },
    )
    else (let left = size_of h.mem header - allocation_size in
        let taken = u32 (header + left) in
        (
          u32 (taken + header_size),
          record h {
            mem = set_size taken allocation_size (set_size header left h.mem);
            next_free = prev_header;
          },
        ))

-- The loop over the headers. The result is 0 for NULL.
unfoldable pub malloc_loop : ℕ → ℕ → ℕ → ℕ → Heap → Option (ℕ × Heap)
malloc_loop zero allocation_size prev_header header h = none
malloc_loop (suc fuel) allocation_size prev_header header h =
    elim (leb allocation_size (size_of h.mem header)) [
      | true ↦ some (take allocation_size prev_header header h)
      | false ↦ elim (header == h.next_free) [
        | true ↦ elim (morecore fuel allocation_size h) [
          | none ↦ none
          | some (zero, h') ↦ some (0, h')
          | some (suc n, h') ↦ malloc_loop fuel allocation_size (suc n) (next_of h'.mem (suc n)) h'
        ]
        | false ↦ malloc_loop fuel allocation_size header (next_of h.mem header) h
      ]
    ]

-- The list starts with `_base` alone.
unfoldable pub start_list : Heap → Heap
start_list h =
    if h.next_free == 0
    then record h { mem = set_size h.base 0 (set_next h.base h.base h.mem); next_free = h.base }
    else h

unfoldable pub malloc : ℕ → ℕ → Heap → Option (ℕ × Heap)
malloc fuel nbytes h =
    let allocation_size = u32 (nbytes + header_size) in
    let h' = start_list h in
    malloc_loop fuel allocation_size h'.next_free (next_of h'.mem h'.next_free) h'

-- The block is asked for twice, and the first one is lost.
unfoldable pub calloc : ℕ → ℕ → ℕ → Heap → Option (ℕ × Heap)
calloc fuel count size h =
    let bytes = u32 (count * size) in
    elim (malloc fuel bytes h) [
      | none ↦ none
      | some (_, h₁) ↦ elim (malloc fuel bytes h₁) [
        | none ↦ none
        | some (zero, h₂) ↦ some (0, h₂)
        | some (suc p, h₂) ↦ some (suc p, record h₂ { mem = memset h₂.mem (suc p) 0 bytes })
      ]
    ]
