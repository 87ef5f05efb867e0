-- ===== src/Paging.antt =====
-- kernel/init/init/memory/paging.c: the page tables with which the kernel turns paging on.
pub mod Pages
pub mod Walk
pub mod State
pub mod Steps
pub mod Upper
pub mod Setup
mod Tests
use missy_kernel.Base.{
  ℕ, zero, suc, ◌+◌, ◌-◌, ◌*◌, ◌/◌, ◌%◌, ◌^◌, bit_and, bit_or, Store, write, u32, not32, ◌>>>◌,
  ◌==◌, if◌then◌else◌,
}
use missy_kernel.Kmemlow.{Kmemlow, kmemlow_alloc}

-- ERROR_PAGING_ENOMEM, PTABLE_FLAG_PRESENT, PTABLE_FLAG_USER and PAGE_SIZE
abbrev pub error_paging_enomem : ℕ
error_paging_enomem = 1

abbrev pub flag_present : ℕ
flag_present = 0x0001

abbrev pub flag_user : ℕ
flag_user = 0x0004

abbrev pub page_size : ℕ
page_size = 4096

-- PAGE_DIRECTORY_MAPPING and KERNEL_STACK_MAPPING
abbrev pub page_directory_mapping : ℕ
page_directory_mapping = 0xffc0_0000

abbrev pub kernel_stack_mapping : ℕ
kernel_stack_mapping = page_directory_mapping - page_size

unfoldable pub pdir_entry : ℕ → ℕ
pdir_entry x = x >>> 22

unfoldable pub ptable_entry : ℕ → ℕ
ptable_entry x = bit_and x (not32 0xffc0_0000) >>> 12

-- What the functions return: 0 or -1.
pub data Status : Type 0 where
  success failure : Status

-- The early allocator, physical memory as 32-bit words by their byte address (paging is off),
-- and the static variables of the file. `kinit_errno` is the allocator's.
pub record Paging : Type 0 where
  pub mem : Kmemlow
  pub phys : Store
  pub page_directory : ℕ
  pub first_pagetable : ℕ
  pub kernel_pagetable : ℕ
  pub kernel_stack_map : ℕ
  pub kernel_end_virtual : ℕ

-- `table[i] = v`
abbrev pub store : Store → ℕ → ℕ → ℕ → Store
store m table i v = write m (table + 4 * i) v

-- `address | PTABLE_FLAG_PRESENT | PTABLE_FLAG_USER`
abbrev pub entry : ℕ → ℕ
entry address = bit_or (bit_or address flag_present) flag_user

-- `ki_memset(table, 0, PAGE_SIZE)` on words, with `n` words left from index `i` on.
unfoldable pub zero_words : ℕ → ℕ → ℕ → Store → Store
zero_words zero table i m = m
zero_words (suc n) table i m = zero_words n table (i + 1) (store m table i 0)

unfoldable pub clear_page : ℕ → Store → Store
clear_page table m = zero_words 1024 table 0 m

unfoldable pub out_of_memory : Paging → Status × Paging
out_of_memory p = (failure, record p { mem = record (p.mem) { errno = error_paging_enomem } })

unfoldable pub create_page_directory : Paging → Status × Paging
create_page_directory p =
    let (directory, mem) = kmemlow_alloc p.mem in
    let p₁ = record p { mem = mem; page_directory = directory } in
    if directory == 0 then out_of_memory p₁ else (
      success,
      record p₁ {
        phys =
            store (clear_page directory p.phys) directory (pdir_entry 0xffc0_0000)
              (entry directory);
      },
    )

-- `for (i = 0; i < 0x100000; i += PAGE_SIZE)`, with `n` rounds left.
unfoldable pub identity_loop : ℕ → ℕ → ℕ → Store → Store
identity_loop zero table i m = m
identity_loop (suc n) table i m =
    identity_loop n table (i + page_size) (store m table (ptable_entry i) (entry i))

unfoldable pub map_first_megabyte : Paging → Status × Paging
map_first_megabyte p =
    let (table, mem) = kmemlow_alloc p.mem in
    let p₁ = record p { mem = mem; first_pagetable = table } in
    if table == 0 then out_of_memory p₁ else (
      success,
      record p₁ {
        phys =
            identity_loop 256 table 0
              (store (clear_page table p.phys) p.page_directory (pdir_entry 0) (entry table));
      },
    )

-- The loop of `map_kernel` from the virtual address `i` on, with `n` rounds left.
unfoldable pub kernel_loop : ℕ → ℕ → ℕ → Store → Store
kernel_loop zero table i m = m
kernel_loop (suc n) table i m =
    kernel_loop n table (i + page_size) (store m table (ptable_entry i) (entry (i - 0xc000_0000)))

-- The rounds of that loop: it runs from 0xc0100000 in pages while it is below the end.
unfoldable pub kernel_pages : ℕ → ℕ
kernel_pages end = (end - 0xc010_0000 + (page_size - 1)) / page_size

unfoldable pub map_kernel : Paging → Status × Paging
map_kernel p =
    let (table, mem) = kmemlow_alloc p.mem in
    let p₁ = record p { mem = mem; kernel_pagetable = table } in
    let end = u32 (mem.kernel_end_physical + 0xc000_0000) in
    if table == 0 then out_of_memory p₁ else (
      success,
      record p₁ {
        kernel_end_virtual = end;
        phys = kernel_loop (kernel_pages end) table 0xc010_0000 (
            store (clear_page table p.phys) p.page_directory (pdir_entry 0xc010_0000)
              (entry table));
      },
    )

unfoldable pub create_new_kernel_stack : Paging → Status × Paging
create_new_kernel_stack p =
    let (table, mem) = kmemlow_alloc p.mem in
    let p₁ = record p { mem = mem; kernel_stack_map = table } in
    let (block, mem₂) = kmemlow_alloc mem in
    let p₂ = record p₁ { mem = mem₂ } in
    if table == 0 then out_of_memory p₁ else if block == 0 then out_of_memory p₂ else (
      success,
      record p₂ {
        phys =
            store
              (store (clear_page block (clear_page table p.phys)) p.page_directory
                (pdir_entry kernel_stack_mapping) (entry table))
              table (ptable_entry kernel_stack_mapping) (entry block);
      },
    )

-- The next step of `ki_setup_paging` runs only if the last one returned 0.
infixl 5 ◌>>=◌
abbrev pub ◌>>=◌ : Status × Paging → (Paging → Status × Paging) → Status × Paging
r >>= k = elim r.0 [ success ↦ k r.1 | failure ↦ r ]

unfoldable pub ki_setup_paging : Paging → Status × Paging
ki_setup_paging p =
    create_page_directory p >>= map_first_megabyte >>= map_kernel >>= create_new_kernel_stack

unfoldable pub ki_get_kernel_end_virtual : Paging → ℕ
ki_get_kernel_end_virtual p = p.kernel_end_virtual

abbrev pub ki_get_kernel_stack_top : ℕ
ki_get_kernel_stack_top = kernel_stack_mapping + page_size - 4
