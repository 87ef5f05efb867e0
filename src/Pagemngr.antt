-- ===== src/Pagemngr.antt =====
-- kernel/arch/i386/pagemngr.c: mapping and unmapping single pages once paging is on. The code
-- reaches the directory and page table `i` through the directory's last entry, which refers to
-- the directory itself (paging.c); the processor then reads them at the directory's address and
-- at the frame of entry `i`, and so does the model, on physical memory.
pub mod Map
pub mod Tests
use missy_kernel.Base.{
  ℕ, zero, suc, ◌+◌, ◌*◌, ◌/◌, ◌-◌, ◌^◌, bit_and, bit_or, Store, write, ltb, ◌==◌, if◌then◌else◌,
  Bool, true, false,
}
use missy_kernel.Balloc.{Balloc, balloc_allocate_block, balloc_deallocate_block}
use missy_kernel.Paging.{Status, success, failure, pdir_entry, ptable_entry}

-- PTABLE_FLAG_PRESENT
abbrev pub ptable_flag_present : ℕ
ptable_flag_present = 0x0001

-- The allocator, physical memory as 32-bit words by their byte address, and
-- `_page_directory_physical`, the directory that the processor uses.
pub record Pagemngr : Type 0 where
  pub balloc : Balloc
  pub phys : Store
  pub directory : ℕ

-- `_page_directory_virtual[i]`
abbrev pub directory_word : Pagemngr → ℕ → ℕ
directory_word p i = p.directory + 4 * i

-- `page_table_virtual[j]` of table `i`
abbrev pub table_word : Pagemngr → ℕ → ℕ → ℕ
table_word p i j = p.phys (directory_word p i) / 4096 * 4096 + 4 * j

-- The directory's base, as the register holds it.
unfoldable pub pagemngr_init : ℕ → Pagemngr → Pagemngr
pagemngr_init base p = record p { directory = base }

-- A page table for entry `i` of the directory, where there is none.
unfoldable pub ensure_table : ℕ → Pagemngr → Status × Pagemngr
ensure_table i p =
    if p.phys (directory_word p i) == 0
    then (let (new_page_table, b) = balloc_allocate_block p.balloc in
        if new_page_table == 0 then (failure, record p { balloc = b }) else (
          success,
          record p {
            balloc = b;
            phys = write p.phys (directory_word p i) (bit_or new_page_table ptable_flag_present);
          },
        ))
    else (success, p)

unfoldable pub enter_page : ℕ → ℕ → ℕ → Pagemngr → Status × Pagemngr
enter_page i j page_table_entry p =
    if p.phys (table_word p i j) == 0
    then (success, record p { phys = write p.phys (table_word p i j) page_table_entry })
    else (failure, p)

unfoldable pub pagemngr_map_block : ℕ → ℕ → Pagemngr → Status × Pagemngr
unfolding ensure_table enter_page
pagemngr_map_block physical virtual p =
    let page_table_entry = bit_or physical ptable_flag_present in
    let (s, p₁) = ensure_table (pdir_entry virtual) p in
    elim s [
      | failure ↦ (failure, p₁)
      | success ↦ enter_page (pdir_entry virtual) (ptable_entry virtual) page_table_entry p₁
    ]

-- The loop that looks for an entry in use, with `n` entries from `i` on left.
unfoldable pub table_is_empty : ℕ → ℕ → Store → ℕ → Bool
table_is_empty zero i m table = true
table_is_empty (suc n) i m table =
    let rest = table_is_empty n (i + 1) m table in if ltb 0 (m (table + 4 * i)) then false else rest

-- The returned address, 0 for NULL.
unfoldable pub pagemngr_unmap_block : ℕ → Pagemngr → ℕ × Pagemngr
pagemngr_unmap_block virtual p =
    let i = pdir_entry virtual in
    let j = ptable_entry virtual in
    let e = p.phys (directory_word p i) in
    if bit_and e ptable_flag_present == 0
    then (0, p)
    else if bit_and (p.phys (table_word p i j)) ptable_flag_present == 0
    then (0, p)
    else (
      bit_and (p.phys (table_word p i j)) 0xfff,
      let p₁ = record p { phys = write p.phys (table_word p i j) 0 } in
          if table_is_empty 1024 0 p₁.phys (e / 4096 * 4096)
          then record p₁ {
            balloc = balloc_deallocate_block p.balloc (p₁.phys (directory_word p₁ i));
            phys = write p₁.phys (directory_word p₁ i) 0;
          }
          else p₁,
    )
