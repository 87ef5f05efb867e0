-- ===== src/Brk.antt =====
-- kernel/arch/i386/memory.c: the program break of the kernel's address space. `errno` is the one
-- that the allocator writes.
pub mod Valid
pub mod Break
pub mod Tests
use missy_kernel.Base.{
  ℕ, zero, suc, ◌+◌, ◌-◌, ◌/◌, ◌^◌, bit_and, u32, sub32, not32, ltb, ◌==◌, if◌then◌else◌, Store,
}
use missy_kernel.Balloc.{
  Balloc, enomem, balloc_initialize, balloc_allocate_block, balloc_deallocate_block,
}
use missy_kernel.Itoa.{einval}
use missy_kernel.Paging.{Status, success, failure}
use missy_kernel.Pagemngr.{Pagemngr, pagemngr_map_block, pagemngr_unmap_block}

-- PAGEMNGR_PAGE_SIZE
abbrev pub page_size : ℕ
page_size = 4096

-- PAGEMNGR_PAGE_ALIGN_DOWN and PAGEMNGR_PAGE_ALIGN_UP
abbrev pub page_align_down : ℕ → ℕ
page_align_down x = bit_and x (not32 0xfff)

abbrev pub page_align_up : ℕ → ℕ
page_align_up x = u32 (bit_and x (not32 0xfff) + page_size)

-- The page manager with its allocator, `_brk` and `_heap_base`; 0 for NULL.
pub record Brk : Type 0 where
  pub pagemngr : Pagemngr
  pub break : ℕ
  pub heap_base : ℕ

abbrev pub set_errno : ℕ → Brk → Brk
set_errno e s = record s {
  pagemngr = record s.pagemngr { balloc = record s.pagemngr.balloc { errno = e } };
}

unfoldable pub memory_setbase : ℕ → Brk → Brk
memory_setbase base_address s = record s { heap_base = base_address }

unfoldable pub memory_init_mmap : Store → ℕ → ℕ → Brk → Brk
memory_init_mmap mbmp total_blocks used_blocks s = record s {
  pagemngr = record s.pagemngr {
    balloc = balloc_initialize s.pagemngr.balloc mbmp total_blocks used_blocks;
  };
}

-- The round of the inner loop, which returns at its end.
unfoldable pub roll_back : ℕ → Brk → Status × Brk
roll_back frame_addr s =
    let (physical, p) = pagemngr_unmap_block frame_addr s.pagemngr in
    let p' =
      if physical == 0
      then p
      else record p { balloc = balloc_deallocate_block p.balloc physical } in
    (failure, set_errno enomem (record s { pagemngr = p' }))

-- `pagemngr_map_block(block,frame_addr)`, whose result is dropped.
unfoldable pub map_frame : ℕ → ℕ → Brk → Brk
map_frame block frame_addr s = record s {
  pagemngr = (pagemngr_map_block block frame_addr s.pagemngr).1;
}

-- The loop from `i` on, with `n` rounds left.
unfoldable pub allocate_loop : ℕ → ℕ → ℕ → Brk → Status × Brk
allocate_loop zero i frame_addr s = (success, s)
allocate_loop (suc n) i frame_addr s =
    let (block, b) = balloc_allocate_block s.pagemngr.balloc in
    let s' = record s { pagemngr = record s.pagemngr { balloc = b } } in
    let rest =
      allocate_loop n (i + 1) (u32 (frame_addr + page_size)) (map_frame block frame_addr s') in
    if block == 0 then (if ltb 0 i then roll_back frame_addr s' else rest) else rest

unfoldable pub allocate_new_brk : ℕ → ℕ → Brk → Status × Brk
allocate_new_brk frame_addr new_block_count s = allocate_loop new_block_count 0 frame_addr s

-- The blocks that are asked for, with the first of their pages.
unfoldable pub new_block_count : ℕ → Brk → ℕ
new_block_count addr s =
    if s.break == 0
    then sub32 (page_align_up addr) s.heap_base / page_size
    else sub32 (sub32 (page_align_up addr) (page_align_down s.break) / page_size) 1

unfoldable pub first_frame : Brk → ℕ
first_frame s = if s.break == 0 then s.heap_base else page_align_up s.break

unfoldable pub extend : ℕ → Brk → Status × Brk
extend addr s =
    let (done, s') = allocate_new_brk (first_frame s) (new_block_count addr s) s in
    elim done [ failure ↦ (failure, s') | success ↦ (success, record s' { break = addr }) ]

unfoldable pub brk : ℕ → Brk → Status × Brk
brk addr s =
    if s.heap_base == 0
    then (failure, set_errno einval s)
    else if ltb addr s.heap_base
    then (failure, set_errno enomem s)
    else if s.break == 0
    then extend addr s
    else if page_align_down addr == page_align_down s.break
    then (success, record s { break = addr })
    else extend addr s

-- `increment` is the pattern of an `intptr_t`; the result -1 is 0xffff_ffff.
unfoldable pub sbrk : ℕ → Brk → ℕ × Brk
sbrk increment s =
    if increment == 0
    then (s.break, s)
    else (let (done, s') = brk (u32 (s.break + increment)) s in
        elim done [ failure ↦ (0xffff_ffff, set_errno enomem s') | success ↦ (s.break, s') ])
