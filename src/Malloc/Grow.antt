-- ===== src/Malloc/Grow.antt =====
-- The first `malloc`, which asks for more memory twice.
use missy_kernel.Base.{
  ℕ, zero, suc, ◌+◌, ◌-◌, ◌*◌, ◌^◌, ◌≤◌, ◌<◌, ◌≡◌, ◌≢◌, ◌⊎◌, refl, ◌∙◌, ap, arith, u32,
  word-write32, word-write32_other, ltb, leb, ◌==◌, ==_refl, ==_false_of_ne, true, false, some,
  word, if◌then◌else◌,
}
use missy_kernel.Balloc.{enomem}
use missy_kernel.Brk.{Brk, set_errno, sbrk}
use missy_kernel.Malloc.{
  Heap, next_of, size_of, set_next, set_size, free, morecore, malloc_loop, start_list, malloc,
}
use missy_kernel.Malloc.Place.{there}
use missy_kernel.Malloc.Free.{write32-lt, free-Inserted}

-- A list of `_base` alone, as `malloc` starts it.
pub record Alone (base : ℕ) (h : Heap) : Type 0 where
  pub start : h.next_free ≡ base
  pub to_itself : next_of h.mem base ≡ base
  pub empty : size_of h.mem base ≡ 0
  pub bytes : (b : ℕ) → h.mem b < 256

start_list-Alone :
    (h : Heap)
    → h.next_free ≡ 0
    → h.base < 2 ^ 32
    → ((b : ℕ) → h.mem b < 256)
    → Alone h.base (start_list h)
unfolding start_list
start_list-Alone h z low bytes =
    let m₁ = set_next h.base h.base h.mem in
    rw z (record {
      start = refl;
      to_itself =
          word-write32_other m₁ (h.base + 4) 0 h.base (omega arith)
          ∙ word-write32 h.mem h.base h.base low;
      empty = word-write32 m₁ (h.base + 4) 0 (omega arith);
      bytes = write32-lt m₁ (h.base + 4) 0 (write32-lt h.mem h.base h.base bytes);
    })

start_list-brk : (h : Heap) → (start_list h).brk ≡ h.brk
unfolding start_list
start_list-brk h = ground arith

-- What `morecore` asks for.
abbrev pub request : ℕ → ℕ
request size = if ltb (size + 8) 1024 then 1024 else size + 8

request-le : (size : ℕ) → (size + 8 ≤ request size) × (1024 ≤ request size)
request-le size = (ground arith, ground arith)

-- The new block stands behind `_base` and before it.
pub record Grown (base p wanted : ℕ) (h : Heap) : Type 0 where
  pub search_from : h.next_free ≡ base
  pub to_block : next_of h.mem base ≡ p
  pub to_base : next_of h.mem p ≡ base
  pub size : size_of h.mem p ≡ wanted
  pub empty : size_of h.mem base ≡ 0

morecore-free :
    (fuel size p : ℕ) (h h' : Heap) (b : Brk)
    → sbrk (request size) h.brk ≡ (p, b)
    → p + 8 < 2 ^ 32
    → request size < 2 ^ 32
    → free fuel (p + 8) (record h { mem = set_size p (request size) h.mem; brk = b }) ≡ some h'
    → morecore fuel size h ≡ some (p, h')
unfolding morecore
morecore-free fuel size p h h' b e low small freed =
    let wanted : u32 (size + 8) ≡ size + 8 = omega (arith, request-le size) in
    let granted : (p == 0xffff_ffff) ≡ false = ==_false_of_ne p 0xffff_ffff (λ w. omega arith) in
    let address : u32 (p + 8) ≡ p + 8 = omega arith in
    rw (morecore, wanted, e, granted, wanted, e, address, freed, wanted, e) refl

morecore-Grown :
    (fuel size base p : ℕ) (h : Heap) (b : Brk)
    → Alone base h
    → sbrk (request size) h.brk ≡ (p, b)
    → base + 8 ≤ p
    → p + 8 * request size < 2 ^ 32
    → (h' : Heap) × (morecore (suc fuel) size h ≡ some (p, h'))
      × Grown base p (request size) h'
      × (h'.brk ≡ b)
morecore-Grown fuel size base p h b x e above low =
    let big = request-le size in
    let m = set_size p (request size) h.mem in
    let k : Heap = record h { mem = m; brk = b } in
    let to_itself : next_of m base ≡ base =
      word-write32_other h.mem (p + 4) (request size) base (omega arith) ∙ x.to_itself in
    let empty : size_of m base ≡ 0 =
      word-write32_other h.mem (p + 4) (request size) (base + 4) (omega arith) ∙ x.empty in
    let size_p : size_of m p ≡ request size =
      word-write32 h.mem (p + 4) (request size) (omega arith) in
    let (h', freed, y) =
      free-Inserted p base k (suc fuel) 0 (rw x.start (there (omega (arith, to_itself))))
        (omega arith) (omega arith)
        (record {
          apart = omega arith;
          above = rw (size_p, to_itself) (λ w. omega arith);
          below = rw empty (λ w. omega arith);
        })
        (write32-lt h.mem (p + 4) (request size) x.bytes) in
    let kept : (a : ℕ) → (base + 4 ≤ a) → (a + 4 ≤ p) ⊎ (p + 4 ≤ a) → word h'.mem a ≡ word m a =
      λ a l o. omega (
        arith,
        y.same a (omega arith) (omega arith),
        y.same (a + 1) (omega arith) (omega arith),
        y.same (a + 2) (omega arith) (omega arith),
        y.same (a + 3) (omega arith) (omega arith),
      ) in
    (
      h',
      morecore-free (suc fuel) size p h h' b e (omega arith) (omega arith) freed,
      record {
        search_from = y.search_from;
        to_block = y.to_block;
        to_base = y.from_block ∙ to_itself;
        size = kept (p + 4) (omega arith) (omega arith) ∙ size_p;
        empty = kept (base + 4) (omega arith) (omega arith) ∙ empty;
      },
      y.same_brk,
    )

morecore_refused :
    (fuel size : ℕ) (h : Heap) (b : Brk)
    → sbrk (request size) h.brk ≡ (0xffff_ffff, b)
    → request size < 2 ^ 32
    → morecore fuel size h ≡ some (0, record h { brk = set_errno enomem b })
unfolding morecore
morecore_refused fuel size h b e small =
    let wanted : u32 (size + 8) ≡ size + 8 = omega (arith, request-le size) in
    rw (morecore, wanted, e, wanted, e) refl

-- The search is at `_base`, where it began.
at_base :
    (fuel size prev base : ℕ) (h : Heap)
    → size_of h.mem base ≡ 0
    → 0 < size
    → h.next_free ≡ base
    → ((h' : Heap) (q : ℕ)
        → morecore fuel size h ≡ some (suc q, h')
        → malloc_loop (suc fuel) size prev base h
          ≡ malloc_loop fuel size (suc q) (next_of h'.mem (suc q)) h')
      × ((h' : Heap)
          → morecore fuel size h ≡ some (0, h')
          → malloc_loop (suc fuel) size prev base h ≡ some (0, h'))
unfolding malloc_loop
at_base fuel size prev base h empty pos start =
    let small : leb size (size_of h.mem base) ≡ false = rw empty (ground arith) in
    let wrapped : (base == h.next_free) ≡ true = rw start (==_refl base) in
    (
      λ h' q e. rw (malloc_loop, small, wrapped, e) refl,
      λ h' e. rw (malloc_loop, small, wrapped, e) refl,
    )

-- Where the list has not been started, `_base` is at an address other than 0 below the heap, the
-- bytes of memory are bytes, the program break can be moved for the request once and not a second
-- time, and what it is moved over, 8 bytes for each unit asked for, ends within 32-bit addresses:
-- with fuel for the walks `malloc` returns NULL with ENOMEM in `errno`, although the
-- block that it has been given is free and is larger than the request.
pub malloc_short :
    (fuel nbytes p : ℕ) (h : Heap) (b₁ b₂ : Brk)
    → h.next_free ≡ 0
    → h.base ≢ 0
    → h.base + 8 ≤ p
    → p + 8 * request (nbytes + 8) < 2 ^ 32
    → ((b : ℕ) → h.mem b < 256)
    → sbrk (request (nbytes + 8)) h.brk ≡ (p, b₁)
    → sbrk (request (nbytes + 8)) b₁ ≡ (0xffff_ffff, b₂)
    → 2 ≤ fuel
    → (h' : Heap) × (malloc fuel nbytes h ≡ some (0, h'))
      × Grown h.base p (request (nbytes + 8)) h'
      × (h'.brk.pagemngr.balloc.errno ≡ enomem)
unfolding malloc
malloc_short zero nbytes p h b₁ b₂ z ne above low bytes e e' f = absurd (omega arith)
malloc_short (suc zero) nbytes p h b₁ b₂ z ne above low bytes e e' f = absurd (omega arith)
malloc_short (suc (suc fuel)) nbytes p h b₁ b₂ z ne above low bytes e e' f =
    let x = start_list-Alone h z (omega arith) bytes in
    let h₀ = start_list h in
    let size = nbytes + 8 in
    let wanted : u32 (nbytes + 8) ≡ size = omega (arith, request-le size) in
    let q = p - 1 in
    let at : p ≡ suc q = omega arith in
    let same : h₀.brk ≡ h.brk = start_list-brk h in
    let (h₁, first, y, brk₁) = morecore-Grown fuel size h.base p h₀ b₁ x (rw same e) above low in
    let second = morecore_refused fuel size h₁ b₂ (rw brk₁ e') (omega arith) in
    let h₂ : Heap = record h₁ { brk = set_errno enomem b₂ } in
    let begun : malloc (suc (suc fuel)) nbytes h
        ≡ malloc_loop (suc (suc fuel)) size h₀.next_free (next_of h₀.mem h₀.next_free) h₀ =
      rw (malloc, wanted) refl in
    let head : next_of h₀.mem h₀.next_free ≡ h.base =
      ap (λ (a : ℕ). next_of h₀.mem a) x.start ∙ x.to_itself in
    let once =
      (at_base (suc fuel) size h₀.next_free h.base h₀ x.empty (omega arith) x.start).0 h₁ q
        (rw at at first) in
    let back : next_of h₁.mem (suc q) ≡ h.base = rw at at y.to_base in
    let twice =
      (at_base fuel size (suc q) h.base h₁ y.empty (omega arith) y.search_from).1 h₂ second in
    (
      h₂,
      begun
          ∙ ap (λ (a : ℕ). malloc_loop (suc (suc fuel)) size h₀.next_free a h₀) head
          ∙ once
          ∙ ap (λ (a : ℕ). malloc_loop (suc fuel) size (suc q) a h₁) back
          ∙ twice,
      record {
        search_from = y.search_from;
        to_block = y.to_block;
        to_base = y.to_base;
        size = y.size;
        empty = y.empty;
      },
      refl,
    )
