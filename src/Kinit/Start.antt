-- ===== src/Kinit/Start.antt =====
-- The early start on a boot structure of the second standard.
use missy_kernel.Base.{
  ℕ, ◌+◌, ◌%◌, ◌^◌, ◌≤◌, ◌<◌, ◌≡◌, ◌≢◌, ◌⊎◌, inl, inr, refl, ap, arith, u32, sub32, false,
  if◌then◌else◌, ◌==◌, Bool-cases, Store, some, Option, List, length,
}
use missy_kernel.Bitmap.Laws.{IsWords}
use missy_kernel.BootInfo.{MmapData}
use missy_kernel.Kmemlow.{
  Kmemlow, block_count, unit_count, kernel_end, kmemlow_get_bitmap_ptr, kmemlow_get_total_blocks,
  kmemlow_get_used_blocks,
}
use missy_kernel.Kmemlow.Alloc.{IsValid}
use missy_kernel.Kmemlow.Init.{Initialised}
use missy_kernel.Kmemlow.Regions.{Paged}
use missy_kernel.Mboot2.Tags.{Tag, memory_size, memory_map}
use missy_kernel.Mboot2.Find.{IsBoot}
use missy_kernel.Multiboot.{Multiboot, multiboot_init, multiboot_magic, multiboot2_magic}
use missy_kernel.Multiboot.Init.{multiboot_init-refuses}
use missy_kernel.Multiboot.Boot.{multiboot_init-kmemlow_init_allocator}
use missy_kernel.Paging.{
  Paging, Status, success, failure, create_page_directory, map_first_megabyte, map_kernel, ◌>>=◌,
  ki_setup_paging, ki_get_kernel_end_virtual, ki_get_kernel_stack_top,
}
use missy_kernel.Paging.Walk.{walk}
use missy_kernel.Paging.State.{Held}
use missy_kernel.Paging.Setup.{Mapped, ki_setup_paging-Mapped}
use missy_kernel.Kterm.{Kterm, ki_update_cursor}
use missy_kernel.Kterm.Format.{Item, render, IsFormat, rounds}
use missy_kernel.Kterm.Print.{put_all, ki_printf-render}
use missy_kernel.Kinit.{
  KernelParams, Early, panicked, started, Texts, params_of, print, early_welcome_message,
  print_params, print_memory, print_kernel_end, kernel_early_init,
}
use missy_kernel.Kinit.Params.{ki_setup_paging-SameCounts}

-- A text is a format for any number as its argument, and there is fuel to print it.
pub record Prints (m : Store) (fuel format : ℕ) : Type 0 where
  pub items : ℕ → List Item
  pub is_format : (n : ℕ) → n < 2 ^ 32 → IsFormat m (λ _. n) format 0 (items n)
  pub enough : (n : ℕ) → rounds (items n) ≤ fuel

-- All that are printed but for the one of the panic, and the welcome with the version.
pub record AllPrint (m : Store) (texts : Texts) (fuel : ℕ) : Type 0 where
  pub welcome :
      (is : List Item) × IsFormat m (λ _. u32 texts.version) texts.welcome 0 is × (rounds is ≤ fuel)
  pub memory : Prints m fuel texts.memory
  pub kernel_end : Prints m fuel texts.kernel_end
  pub no_format : Prints m fuel texts.no_format
  pub header : Prints m fuel texts.header
  pub stack : Prints m fuel texts.stack
  pub heap : Prints m fuel texts.heap
  pub bitmap : Prints m fuel texts.bitmap
  pub total : Prints m fuel texts.total
  pub used : Prints m fuel texts.used

module _ (local : Store) (m : Store) (texts : Texts) (buf : MmapData) (fuel : ℕ) where
  print-Prints :
      (format n : ℕ) (t : Option Kterm)
      → Prints m fuel format
      → (t₁ : Kterm) × (t ≡ some t₁)
      → (t₂ : Kterm) × (print local m texts buf fuel format n t ≡ some t₂)
  unfolding print
  print-Prints format n t x (t₁, e) =
      let low : u32 n < 2 ^ 32 = omega arith in
      let done =
        ki_printf-render local m (λ _. u32 n) fuel format (x.items (u32 n)) t₁
          (x.is_format (u32 n) low) (x.enough (u32 n)) in
      (ki_update_cursor (put_all (render (x.items (u32 n))) t₁), rw e done)

  print_params-AllPrint :
      (kparams : KernelParams) (t : Kterm)
      → AllPrint m texts fuel
      → (t₂ : Kterm) × (print_params local m texts buf fuel kparams t ≡ some t₂)
  unfolding print_params
  print_params-AllPrint kparams t x =
      print-Prints texts.used kparams.allocator_used_blocks _ x.used (
        print-Prints texts.total kparams.allocator_total_blocks _ x.total (
          print-Prints texts.bitmap kparams.kernel_memory_bitmap _ x.bitmap (
            print-Prints texts.heap kparams.kernel_heap _ x.heap (
              print-Prints texts.stack kparams.kernel_stack _ x.stack
                (print-Prints texts.header 0 (some t) x.header (t, refl))))))

  print_memory-AllPrint :
      (b : Multiboot) (t : Kterm)
      → AllPrint m texts fuel
      → (t₂ : Kterm) × (print_memory local m texts buf fuel b (some t) ≡ some t₂)
  unfolding print_memory
  print_memory-AllPrint b t x = print-Prints texts.memory _ (some t) x.memory (t, refl)

  print_kernel_end-AllPrint :
      (p : Paging) (t : Kterm)
      → AllPrint m texts fuel
      → (t₂ : Kterm) × (print_kernel_end local m texts buf fuel p (some t) ≡ some t₂)
  unfolding print_kernel_end
  print_kernel_end-AllPrint p t x =
      by_status ((create_page_directory p >>= map_first_megabyte) >>= map_kernel)
    where
      by_status :
          (r : Status × Paging)
          → (t₂ : Kterm) × ((elim r.0 [
            | success ↦
                print local m texts buf fuel texts.kernel_end r.1.kernel_end_virtual (some t)
            | failure ↦ some t
          ])
              ≡ some t₂)
      by_status (success, q) =
          print-Prints texts.kernel_end q.kernel_end_virtual (some t) x.kernel_end (t, refl)
      by_status (failure, q) = (t, refl)

  welcome-AllPrint :
      (t : Kterm)
      → AllPrint m texts fuel
      → (t₁ : Kterm) × (early_welcome_message local m texts buf fuel t ≡ some t₁)
  unfolding early_welcome_message print
  welcome-AllPrint t x =
      let (is, f, e) = x.welcome in
      (_, ki_printf-render local m (λ _. u32 texts.version) fuel texts.welcome is t f e)

  -- Where the texts can be printed and the magic number is of neither standard, or the structure's
  -- address is not a multiple of 8: `kernel_early_init` panics, with the error number for that,
  -- and has not started the allocator or the page tables.
  pub kernel_early_init-panicked :
      (mboot_hdr magic mbitmap : ℕ) (s : Early)
      → AllPrint m texts fuel
      → (mboot_hdr % 8 ≢ 0) ⊎ ((magic ≢ multiboot_magic) × (magic ≢ multiboot2_magic))
      → (e : Early) × (kernel_early_init local m texts buf fuel mboot_hdr magic mbitmap s
          ≡ some (panicked e))
        × (e.boot.errno ≡ (if mboot_hdr % 8 == 0 then 7 else 4))
        × (e.paging ≡ s.paging)
  unfolding kernel_early_init
  kernel_early_init-panicked mboot_hdr magic mbitmap s x bad =
      let (t₁, printed) = welcome-AllPrint s.term x in
      let (misaligned, unsupported) = multiboot_init-refuses fuel mboot_hdr magic s.boot in
      let refused : (b : Multiboot) × (multiboot_init fuel mboot_hdr magic s.boot ≡ some (false, b))
          × (b.errno ≡ (if mboot_hdr % 8 == 0 then 7 else 4)) =
        elim (Bool-cases (mboot_hdr % 8 == 0)) [
          | inl y ↦
              let z : mboot_hdr % 8 ≡ 0 = ground (arith, y) in
              let (a, c) : (magic ≢ multiboot_magic) × (magic ≢ multiboot2_magic) = elim bad [
                | inl ne ↦ absurd (ne z)
                | inr p ↦ p
              ] in
              let (b, e, n, _) = unsupported z a c in (b, e, rw y n)
          | inr y ↦ (record s.boot { errno = 4 }, misaligned (λ z. ground (arith, y, z)), rw y refl)
        ] in
      let (b, e, n) = refused in
      let (t₂, last) = print-Prints texts.no_format b.errno (some t₁) x.no_format (t₁, refl) in
      (record s { term = t₂; boot = b }, rw (kernel_early_init, printed, e, last) refl, n, refl)

-- What a loader of the second standard leaves: a structure with both required tags at an address
-- that is a multiple of 8, of whose map no entry has been read, and which can be moved behind the
-- kernel, with fuel for the tags and the entries of the map. The available entries start at page
-- boundaries, and start and are long below 4 GiB, and the end of the kernel lies behind the first
-- megabyte.
pub record Loaded (fuel ptr n kb mbitmap : ℕ) (ts : List Tag) (es : List MmapData) (b : Multiboot)
    : Type 0 where
  pub aligned : ptr % 8 ≡ 0
  pub boot : IsBoot b.mem ptr n ts
  pub tags : length ts < fuel
  pub size : memory_size ts ≡ some kb
  pub map : memory_map ts ≡ some es
  pub entries : length es < fuel
  pub paged : Paged es
  pub first : b.mboot2_entry ≡ 0
  pub above : 0x10_0000 ≤ kernel_end (sub32 mbitmap 0xc000_0000) (unit_count (block_count (u32 kb)))
  pub room :
      kernel_end (sub32 mbitmap 0xc000_0000) (unit_count (block_count (u32 kb))) + n + n < 2 ^ 32
  pub place :
      (kernel_end (sub32 mbitmap 0xc000_0000) (unit_count (block_count (u32 kb))) + n ≤ ptr)
      ⊎ (ptr ≤ kernel_end (sub32 mbitmap 0xc000_0000) (unit_count (block_count (u32 kb))))

-- The kernel is started: `k` is the allocator that `kmemlow_init_allocator` leaves, `q` the page
-- tables, and the counters are those of `k`.
pub record Started (k : Kmemlow) (kparams : KernelParams) (p q : Paging) : Type 0 where
  pub tables : q ≡ (ki_setup_paging (record p { mem = k })).1
  pub total : kparams.allocator_total_blocks ≡ k.total_blocks
  pub used : kparams.allocator_used_blocks ≡ k.used_blocks
  pub bitmap : kparams.kernel_memory_bitmap ≡ u32 (k.mbitmap_physical + 0xc000_0000)
  pub heap : kparams.kernel_heap ≡ q.kernel_end_virtual
  -- Where the set-up has returned 0 and the image is not too large, everything is mapped, and the
  -- stack pointer is near the end of a block that the allocator holds.
  pub mapped :
      (ki_setup_paging (record p { mem = k })).0 ≡ success
      → q.kernel_end_virtual ≤ 0xc040_0000
      → Mapped q
        × ((block : ℕ) × Held q.mem block
            × (walk q.phys q.page_directory kparams.kernel_stack ≡ some (block + 4092)))

Initialised-IsValid :
    {memsz start : ℕ} {es : List MmapData} {k k' : Kmemlow}
    → IsWords k.map
    → Initialised memsz start es k k'
    → IsValid k'
unfolding block_count
Initialised-IsValid w x = record { words = x.words w; small = omega (arith, x.total) }

params_of-Started :
    (k : Kmemlow) (p : Paging)
    → IsValid k
    → let q = (ki_setup_paging (record p { mem = k })).1 in Started k (params_of q) p q
unfolding params_of kmemlow_get_bitmap_ptr kmemlow_get_total_blocks kmemlow_get_used_blocks
    ki_get_kernel_end_virtual
params_of-Started k p v =
    let same = ki_setup_paging-SameCounts (record p { mem = k }) in
    record {
      tables = refl;
      total = same.total;
      used = same.used;
      bitmap = ap (λ (a : ℕ). u32 (a + 0xc000_0000)) same.bitmap;
      heap = refl;
      mapped = λ ok below.
          let mapped = ki_setup_paging-Mapped (record p { mem = k }) v ok below in
          (
            mapped,
            (
              mapped.stack_page,
              mapped.stack_held,
              mapped.stack ki_get_kernel_stack_top (omega arith) (omega arith),
            ),
          );
    }

module _ (local : Store) (m : Store) (texts : Texts) (buf : MmapData) (fuel : ℕ) where
  -- Where the texts can be printed, a loader of the second standard has left a structure as it
  -- should, whose available entries start at page boundaries and start and are long below 4 GiB,
  -- the end of the kernel lies behind the first megabyte,
  -- and the bitmap's words are words: `kernel_early_init` returns and starts the kernel. The
  -- allocator's map is right for the size of memory and the entries that the tags give, with those
  -- blocks free that an available entry contains, but for the first megabyte and the kernel, the
  -- parameters are those of the allocator and of the page tables, and where the set-up of these has
  -- returned 0 and the image ends at or below 0xc0400000, they map what they should, the stack
  -- that the kernel is given included.
  pub kernel_early_init-started :
      (ptr n kb mbitmap : ℕ) (ts : List Tag) (es : List MmapData) (s : Early)
      → AllPrint m texts fuel
      → Loaded fuel ptr n kb mbitmap ts es s.boot
      → IsWords s.paging.mem.map
      → (k : Kmemlow) × (kparams : KernelParams) × (e : Early) × (kernel_early_init local m texts
            buf fuel ptr multiboot2_magic mbitmap s
          ≡ some (started kparams e))
        × Initialised (u32 kb) (sub32 mbitmap 0xc000_0000) es s.paging.mem k
        × Started k kparams s.paging e.paging
  unfolding kernel_early_init
  kernel_early_init-started ptr n kb mbitmap ts es s x l w =
      let (t₁, printed) = welcome-AllPrint local m texts buf fuel s.term x in
      let (b₁, b₂, k, init, alloc, done) =
        multiboot_init-kmemlow_init_allocator fuel fuel ptr n kb mbitmap buf ts es s.boot
          s.paging.mem l.aligned l.boot l.tags l.size l.map l.entries l.paged l.first l.above l.room
          l.place in
      let q = (ki_setup_paging (record s.paging { mem = k })).1 in
      let (t₂, size) = print_memory-AllPrint local m texts buf fuel b₁ t₁ x in
      let (t₃, mapped) =
        print_kernel_end-AllPrint local m texts buf fuel (record s.paging { mem = k }) t₂ x in
      let (t₄, last) = print_params-AllPrint local m texts buf fuel (params_of q) t₃ x in
      (
        k,
        params_of q,
        record { term = t₄; boot = b₂; paging = q },
        rw (kernel_early_init, printed, init, size, alloc, mapped, last) refl,
        done,
        params_of-Started k s.paging (Initialised-IsValid w done),
      )
