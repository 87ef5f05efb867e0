-- ===== src/Kinit/Tests.antt =====
-- kinit.c on the boot structure of 72 bytes that the driver's tests use, with short texts.
use missy_kernel.Base.{◌≡◌, inr, refl, arith, Store, get_or, some, [], ◌∷◌}
use missy_kernel.Strings.Text.{text_at-IsText}
use missy_kernel.Kmemlow.{Kmemlow, block_count, unit_count, kernel_end}
use missy_kernel.Kmemlow.Init.{Initialised}
use missy_kernel.Kterm.Format.{
  plain, number, text, format_end, format_plain, format_number, format_text,
}
use missy_kernel.Mboot2.Tests.{boot_memory-IsBoot, boot_tags, entry}
use missy_kernel.Multiboot.{multiboot2_magic}
use missy_kernel.Multiboot.Tests.{s0, k0, buf, entry-Paged}
use missy_kernel.Kinit.{KernelParams, Early, Texts, panicked, started, kernel_early_init}
use missy_kernel.Kinit.Start.{
  Prints, AllPrint, Loaded, Started, kernel_early_init-panicked, kernel_early_init-started,
}

-- "%x\n" at 0, "%s" at 4 and "v" at 7.
abbrev memory : Store
memory a = get_or (37 ∷ 120 ∷ 10 ∷ 0 ∷ 37 ∷ 115 ∷ 0 ∷ 118 ∷ 0 ∷ []) a 0

abbrev texts : Texts
texts = record {
  version = 7;
  welcome = 4;
  memory = 0;
  kernel_end = 0;
  no_format = 0;
  header = 0;
  stack = 0;
  heap = 0;
  bitmap = 0;
  total = 0;
  used = 0;
}

hex-Prints : Prints memory 5 0
hex-Prints = record {
  items = λ n. number 16 n ∷ plain 10 ∷ [];
  is_format = λ n low.
      format_number refl refl refl low
        (format_plain refl (λ e. omega arith) (λ e. omega arith) (format_end refl));
  enough = λ n. omega arith;
}

texts-AllPrint : AllPrint memory texts 5
texts-AllPrint = record {
  welcome = (
    text (118 ∷ []) ∷ [],
    format_text refl refl (text_at-IsText 7 (118 ∷ []) refl) (format_end refl),
    omega arith,
  );
  memory = hex-Prints;
  kernel_end = hex-Prints;
  no_format = hex-Prints;
  header = hex-Prints;
  stack = hex-Prints;
  heap = hex-Prints;
  bitmap = hex-Prints;
  total = hex-Prints;
  used = hex-Prints;
}

abbrev early : Early
early = record {
  term = record { vmem = λ _. 0; cur_x = 0; cur_y = 0; color_attribute = 15; ports = [] };
  boot = s0;
  paging = record {
    mem = k0;
    phys = λ _. 0;
    page_directory = 0;
    first_pagetable = 0;
    kernel_pagetable = 0;
    kernel_stack_map = 0;
    kernel_end_virtual = 0;
  };
}

loaded : Loaded 5 0x1000 72 128 0xc011_0000 boot_tags (entry ∷ []) s0
unfolding kernel_end unit_count block_count
loaded = record {
  aligned = refl;
  boot = boot_memory-IsBoot;
  tags = omega arith;
  size = refl;
  map = refl;
  entries = omega arith;
  paged = entry-Paged;
  first = refl;
  above = omega arith;
  room = omega arith;
  place = inr (omega arith);
}

kernel_early_init-started_example :
    (k : Kmemlow) × (kparams : KernelParams) × (e : Early) × (kernel_early_init
        (λ _. 0)
        memory
        texts
        buf
        5
        0x1000
        multiboot2_magic
        0xc011_0000
        early
      ≡ some (started kparams e))
    × Initialised 128 0x11_0000 (entry ∷ []) k0 k
    × Started k kparams early.paging e.paging
kernel_early_init-started_example =
    kernel_early_init-started (λ _. 0) memory texts buf 5 0x1000 72 128 0xc011_0000 boot_tags
      (entry ∷ []) early texts-AllPrint loaded (λ i. omega arith)

kernel_early_init-panicked_example :
    (e : Early) × (kernel_early_init (λ _. 0) memory texts buf 5 0x1000 5 0xc011_0000 early
      ≡ some (panicked e))
    × (e.boot.errno ≡ 7)
    × (e.paging ≡ early.paging)
kernel_early_init-panicked_example =
    kernel_early_init-panicked (λ _. 0) memory texts buf 5 0x1000 5 0xc011_0000 early texts-AllPrint
      (inr ((λ e. omega arith), (λ e. omega arith)))
