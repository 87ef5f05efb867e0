-- ===== src/Multiboot/Boot.antt =====
-- The early allocator on a boot structure of the second standard, from `multiboot_init` on.
use missy_kernel.Base.{
  ℕ, suc, ◌+◌, ◌%◌, ◌^◌, ◌≤◌, ◌<◌, ◌≡◌, ◌⊎◌, refl, ◌∙◌, sym, ap, arith, u32, sub32, true, Option,
  none, some, List, [], ◌∷◌, length, get_elem?,
}
use missy_kernel.BootInfo.{MmapData, Yields, done, more}
use missy_kernel.Kmemlow.{
  Kmemlow, block_count, unit_count, kernel_end, all_used, kmemlow_init_allocator,
}
use missy_kernel.Kmemlow.Init.{Initialised, kmemlow_init_allocator_lem}
use missy_kernel.Kmemlow.Regions.{Paged}
use missy_kernel.Mboot2.{mboot2_get_memory_size, mboot2_get_next_mmap}
use missy_kernel.Mboot2.Tags.{Tag, memory_size, memory_map}
use missy_kernel.Mboot2.Find.{IsBoot}
use missy_kernel.Mboot2.Driver.{
  mboot2_get_memory_size_lem, mboot2_get_next_mmap_lem, mboot2_relocate_tags_lem, map_answer,
  size_answer, entry_answer,
}
use missy_kernel.Multiboot.{
  Driver, mboot2, Multiboot, to_mboot2, of_mboot2, multiboot_init, multiboot_get_memsz,
  multiboot_get_mmap_next, multiboot_relocate, relocated, multiboot_api, call, multiboot2_magic,
}
use missy_kernel.Multiboot.Init.{entered, multiboot_init-mboot2}

-- The second driver is installed, and the structure has the size of memory and a map.
pub record IsReady (s : Multiboot) (n : ℕ) (ts : List Tag) (kb : ℕ) (es : List MmapData)
    : Type 0 where
  pub installed : s.driver ≡ mboot2
  pub boot : IsBoot s.mem s.mboot_ptr n ts
  pub size : memory_size ts ≡ some kb
  pub map : memory_map ts ≡ some es

abbrev at_entry : Multiboot → ℕ → Multiboot
at_entry s i = record s { mboot2_entry = i }

call-returns :
    {A : Type 0} (default : A) (f : Multiboot → Option (A × Multiboot)) (s : Multiboot) {a : A}
    {s' : Multiboot}
    → f s ≡ some (a, s')
    → call default f (some s) ≡ (a, some s')
call-returns default f s e = rw (call, e) refl

module _ (fuel : ℕ) (buf : MmapData) where
  get_memsz-IsReady :
      {s : Multiboot} {n kb : ℕ} {ts : List Tag} {es : List MmapData}
      → IsReady s n ts kb es
      → length ts < fuel
      → (multiboot_api fuel buf).get_memsz (some s) ≡ (u32 kb, some s)
  unfolding multiboot_get_memsz
  get_memsz-IsReady {s} {n} {kb} {ts} r f =
      let e : mboot2_get_memory_size fuel (to_mboot2 s) ≡ some (some (u32 kb), to_mboot2 s) =
        mboot2_get_memory_size_lem fuel n ts (to_mboot2 s) r.boot f
        ∙ ap (λ (k : Option ℕ). some (size_answer (to_mboot2 s) k)) r.size in
      let installed : multiboot_get_memsz fuel mboot2 s ≡ some (u32 kb, s) =
        rw (multiboot_get_memsz, e) refl in
      call-returns 0 (λ (s' : Multiboot). multiboot_get_memsz fuel s'.driver s') s
        (ap (λ (d : Driver). multiboot_get_memsz fuel d s) r.installed ∙ installed)

  next-IsReady :
      {s : Multiboot} {n kb : ℕ} {ts : List Tag} {es : List MmapData} (i : ℕ)
      → IsReady s n ts kb es
      → length ts < fuel
      → mboot2_get_next_mmap fuel (to_mboot2 (at_entry s i))
        ≡ some (entry_answer (to_mboot2 (at_entry s i)) (get_elem? es i))
  next-IsReady {s} {n} {ts} i r f =
      let d = to_mboot2 (at_entry s i) in
      mboot2_get_next_mmap_lem fuel n ts d r.boot f
      ∙ ap (λ (m : Option (List MmapData)). some (map_answer d m)) r.map

  get_mmap_next-IsReady :
      {s : Multiboot} {n kb : ℕ} {ts : List Tag} {es : List MmapData} (i : ℕ)
      → IsReady s n ts kb es
      → length ts < fuel
      → multiboot_get_mmap_next fuel buf s.driver (at_entry s i)
        ≡ some (
          (entry_answer (to_mboot2 (at_entry s i)) (get_elem? es i)).0,
          of_mboot2 s (entry_answer (to_mboot2 (at_entry s i)) (get_elem? es i)).1,
        )
  unfolding multiboot_get_mmap_next
  get_mmap_next-IsReady {s} {es} i r f =
      let installed : multiboot_get_mmap_next fuel buf mboot2 (at_entry s i)
          ≡ some (
            (entry_answer (to_mboot2 (at_entry s i)) (get_elem? es i)).0,
            of_mboot2 s (entry_answer (to_mboot2 (at_entry s i)) (get_elem? es i)).1,
          ) =
        rw (multiboot_get_mmap_next, next-IsReady i r f) refl in
      ap (λ (d : Driver). multiboot_get_mmap_next fuel buf d (at_entry s i)) r.installed ∙ installed

  -- The entries that are left when `i` of them have been read.
  rest-Yields :
      {s : Multiboot} {n kb : ℕ} {ts : List Tag} {es : List MmapData} (i : ℕ) (left : List MmapData)
      → IsReady s n ts kb es
      → length ts < fuel
      → i + length left ≡ length es
      → ((j : ℕ) → get_elem? es (i + j) ≡ get_elem? left j)
      → Yields (multiboot_api fuel buf) (some (at_entry s (length es))) (some (at_entry s i)) left
  rest-Yields {s} {es} i [] r f e same =
      let at : i ≡ length es = omega (arith, e) in
      let i₀ : i + 0 ≡ i = omega arith in
      let stop : get_elem? es i ≡ none = sym (ap (get_elem? es) i₀) ∙ same 0 in
      let answer = λ (o : Option MmapData). entry_answer (to_mboot2 (at_entry s i)) o in
      let stopped : multiboot_get_mmap_next fuel buf s.driver (at_entry s i)
          ≡ some (none, at_entry s (length es)) =
        get_mmap_next-IsReady i r f
        ∙ ap (λ (o : Option MmapData). some ((answer o).0, of_mboot2 s (answer o).1)) stop
        ∙ ap (λ (k : ℕ). some (none, at_entry s k)) at in
      done (
        call-returns none (λ (s' : Multiboot). multiboot_get_mmap_next fuel buf s'.driver s')
          (at_entry s i) stopped)
  rest-Yields {s} {es} i (e₀ ∷ left) r f e same =
      let i₀ : i + 0 ≡ i = omega arith in
      let go : get_elem? es i ≡ some e₀ = sym (ap (get_elem? es) i₀) ∙ same 0 in
      let answer = λ (o : Option MmapData). entry_answer (to_mboot2 (at_entry s i)) o in
      let went : multiboot_get_mmap_next fuel buf s.driver (at_entry s i)
          ≡ some (some e₀, at_entry s (i + 1)) =
        get_mmap_next-IsReady i r f
        ∙ ap (λ (o : Option MmapData). some ((answer o).0, of_mboot2 s (answer o).1)) go in
      more
        (call-returns none (λ (s' : Multiboot). multiboot_get_mmap_next fuel buf s'.driver s')
          (at_entry s i) went)
        (rest-Yields (i + 1) left r f (omega arith) (λ j.
          let at : i + 1 + j ≡ i + suc j = omega arith in ap (get_elem? es) at ∙ same (suc j)))

-- A loader of the second standard leaves, at an address that is a multiple of 8, a structure with
-- both required tags; no entry of its map has been read; the place to which it is moved, the end
-- of the kernel and its own length further, has addresses of 32 bits, and either is not above the
-- start of the structure or lies behind all of it. Every available entry of the map starts at a
-- page boundary, and starts and is long below 4 GiB, and the end of the kernel lies behind the first
-- megabyte. With more fuel than tags and than entries,
-- `multiboot_init` then succeeds and `kmemlow_init_allocator` returns, and the finished map is
-- right for the size of memory and the entries that the tags give: of its blocks those are free
-- that an available entry contains, but for the first megabyte and the kernel.
pub multiboot_init-kmemlow_init_allocator :
    (fuel fuel' ptr n kb mbitmap : ℕ) (buf : MmapData) (ts : List Tag) (es : List MmapData)
    (s : Multiboot) (k : Kmemlow)
    → ptr % 8 ≡ 0
    → IsBoot s.mem ptr n ts
    → length ts < fuel
    → memory_size ts ≡ some kb
    → memory_map ts ≡ some es
    → length es < fuel'
    → Paged es
    → s.mboot2_entry ≡ 0
    → let start = sub32 mbitmap 0xc000_0000 in
      let kend = kernel_end start (unit_count (block_count (u32 kb))) in
      0x10_0000 ≤ kend
      → kend + n + n < 2 ^ 32
      → (kend + n ≤ ptr) ⊎ (ptr ≤ kend)
      → (s₁ s₂ : Multiboot) × (k' : Kmemlow) × (multiboot_init fuel ptr multiboot2_magic s
          ≡ some (true, s₁))
        × (kmemlow_init_allocator (multiboot_api fuel buf) fuel' mbitmap (some s₁) k
            ≡ some (k', some s₂))
        × Initialised (u32 kb) start es k k'
unfolding all_used multiboot_relocate
multiboot_init-kmemlow_init_allocator fuel fuel' ptr n kb mbitmap buf ts es s k al b f size map f'
      paged z above room place =
    let api = multiboot_api fuel buf in
    let start = sub32 mbitmap 0xc000_0000 in
    let kend = kernel_end start (unit_count (block_count (u32 kb))) in
    let s₁ = entered ptr multiboot2_magic mboot2 s in
    let init : multiboot_init fuel ptr multiboot2_magic s ≡ some (true, s₁) =
      rw (multiboot_init-mboot2 fuel ptr n ts s al b f, size, map) refl in
    let ready : IsReady s₁ n ts kb es = record {
      installed = refl;
      boot = b;
      size = size;
      map = map;
    } in
    let memsz = get_memsz-IsReady fuel buf ready f in
    let (_, boot, _, _, entry, _) =
      mboot2_relocate_tags_lem kend n ts (to_mboot2 s₁) b room place in
    let s₂ = multiboot_relocate kend mboot2 s₁ in
    let start₂ : (all_used api mbitmap (some s₁) k).1 ≡ some s₂ =
      ap
        (λ (q : ℕ × Option Multiboot).
          relocated (kernel_end start (unit_count (block_count q.0))) q.1)
        memsz in
    let ready₂ : IsReady s₂ n ts kb es = record {
      installed = refl;
      boot = boot;
      size = size;
      map = map;
    } in
    let first : at_entry s₂ 0 ≡ s₂ =
      ap (λ (i : ℕ). record s₂ { mboot2_entry = i }) (sym (entry ∙ z)) in
    let all : Yields api (some (at_entry s₂ (length es))) (some (at_entry s₂ 0)) es =
      rest-Yields fuel buf 0 es ready₂ f (omega arith)
        (λ j. let j₀ : 0 + j ≡ j = omega arith in ap (get_elem? es) j₀) in
    let yields : Yields api (some (at_entry s₂ (length es))) (all_used api mbitmap (some s₁) k).1
        es =
      rw (start₂, sym first) all in
    let (k', ran, fin) =
      kmemlow_init_allocator_lem api mbitmap (some s₁) k fuel' es yields f' paged
        (rw (ap (λ (q : ℕ × Option Multiboot). q.0) memsz) above) in
    (
      s₁,
      at_entry s₂ (length es),
      k',
      init,
      ran,
      rw (ap (λ (q : ℕ × Option Multiboot). q.0) memsz) at fin,
    )
