-- ===== src/Kinit.antt =====
-- kernel/init/init/kinit.c: the early start of the kernel, from the boot loader's registers to the
-- parameters that the kernel is started with. A build without DEBUG_BUILD. The fuel is for the
-- walks over the boot structure, for the memory map and for the texts, and a call is `none` when it
-- runs out.
pub mod Params
pub mod Start
mod Tests
use missy_kernel.Base.{ℕ, ◌+◌, ◌^◌, u32, true, false, Option, none, some, Store}
use missy_kernel.BootInfo.{MmapData}
use missy_kernel.Kmemlow.{
  kmemlow_init_allocator, kmemlow_get_bitmap_ptr, kmemlow_get_total_blocks, kmemlow_get_used_blocks,
}
use missy_kernel.Multiboot.{Multiboot, multiboot_init, multiboot_api}
use missy_kernel.Paging.{
  Paging, success, failure, create_page_directory, map_first_megabyte, map_kernel, ◌>>=◌,
  ki_setup_paging, ki_get_kernel_stack_top, ki_get_kernel_end_virtual,
}
use missy_kernel.Kterm.{Kterm, ki_printf}

-- `_kernel_params_t`
pub record KernelParams : Type 0 where
  pub kernel_stack : ℕ
  pub kernel_heap : ℕ
  pub kernel_memory_bitmap : ℕ
  pub allocator_total_blocks : ℕ
  pub allocator_used_blocks : ℕ

-- The early terminal, the boot loader's structure with `kinit_errno`, and the page tables with the
-- early allocator.
pub record Early : Type 0 where
  pub term : Kterm
  pub boot : Multiboot
  pub paging : Paging

-- `early_panic` does not return.
pub data Outcome : Type 0 where
  panicked : Early → Outcome
  started : KernelParams → Early → Outcome

-- The addresses of the texts that are printed, of KERNEL_VERSION_STRING first.
pub record Texts : Type 0 where
  pub version : ℕ
  pub welcome : ℕ
  pub memory : ℕ
  pub kernel_end : ℕ
  pub no_format : ℕ
  pub header : ℕ
  pub stack : ℕ
  pub heap : ℕ
  pub bitmap : ℕ
  pub total : ℕ
  pub used : ℕ

-- KERNEL_PHYSICAL_TO_VIRTUAL
abbrev pub kernel_physical_to_virtual : ℕ → ℕ
kernel_physical_to_virtual address = u32 (address + 0xc000_0000)

-- The assignments to `kparams`.
unfoldable pub params_of : Paging → KernelParams
params_of p = record {
  kernel_stack = ki_get_kernel_stack_top;
  kernel_heap = ki_get_kernel_end_virtual p;
  kernel_memory_bitmap = kernel_physical_to_virtual (kmemlow_get_bitmap_ptr p.mem);
  allocator_total_blocks = kmemlow_get_total_blocks p.mem;
  allocator_used_blocks = kmemlow_get_used_blocks p.mem;
}

-- `local` is what stands in the printer's local array, `m` the memory of the texts, and `buf` what
-- stands in the buffer for an entry of the map.
module _ (local : Store) (m : Store) (texts : Texts) (buf : MmapData) (fuel : ℕ) where
  -- `ki_printf` with one argument, behind what has been printed.
  unfoldable pub print : ℕ → ℕ → Option Kterm → Option Kterm
  print format argument none = none
  print format argument (some t) = ki_printf local fuel m (λ _. u32 argument) format t

  unfoldable pub early_welcome_message : Kterm → Option Kterm
  early_welcome_message t = print texts.welcome texts.version (some t)

  unfoldable pub print_params : KernelParams → Kterm → Option Kterm
  print_params kparams t = print texts.used kparams.allocator_used_blocks (
      print texts.total kparams.allocator_total_blocks (
        print texts.bitmap kparams.kernel_memory_bitmap (
          print texts.heap kparams.kernel_heap
            (print texts.stack kparams.kernel_stack (print texts.header 0 (some t))))))

  -- What `kmemlow_init_allocator` prints, before it goes on with the size of memory.
  unfoldable pub print_memory : Multiboot → Option Kterm → Option Kterm
  print_memory b t = print texts.memory ((multiboot_api fuel buf).get_memsz (some b)).0 t

  -- What `map_kernel` prints, where `ki_setup_paging` gets to it and it has a page table.
  unfoldable pub print_kernel_end : Paging → Option Kterm → Option Kterm
  print_kernel_end p t =
      let (status, q) = (create_page_directory p >>= map_first_megabyte) >>= map_kernel in
      elim status [ success ↦ print texts.kernel_end q.kernel_end_virtual t | failure ↦ t ]

  -- `mbitmap` is the address of the symbol `_mbitmap`. The terminal is no part of the states of the
  -- allocator and of the page tables: what they print is printed here, in the same order.
  unfoldable pub kernel_early_init : ℕ → ℕ → ℕ → Early → Option Outcome
  kernel_early_init mboot_hdr magic mbitmap s = elim (early_welcome_message s.term) [
    | none ↦ none
    | some t₁ ↦ elim (multiboot_init fuel mboot_hdr magic s.boot) [
      | none ↦ none
      | some (false, b) ↦ elim (print texts.no_format b.errno (some t₁)) [
        | none ↦ none
        | some t₂ ↦ some (panicked (record s { term = t₂; boot = b }))
      ]
      | some (true, b) ↦ elim (print_memory b (some t₁)) [
        | none ↦ none
        | some t₂ ↦
            elim (kmemlow_init_allocator (multiboot_api fuel buf) fuel mbitmap (some b)
              s.paging.mem) [
                | none ↦ none
                | some (k, none) ↦ none
                | some (k, some b') ↦
                    let p = (ki_setup_paging (record s.paging { mem = k })).1 in
                    elim (print_kernel_end (record s.paging { mem = k }) (some t₂)) [
                      | none ↦ none
                      | some t₃ ↦ elim (print_params (params_of p) t₃) [
                        | none ↦ none
                        | some t₄ ↦
                            some
                              (started (params_of p) (record { term = t₄; boot = b'; paging = p }))
                      ]
                    ]
              ]
      ]
    ]
  ]
