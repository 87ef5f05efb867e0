-- ===== src/Paging/Walk.antt =====
-- Address translation through the tables, against which paging.c is stated: the two-level walk of
-- an i386 with 4 KiB pages.
use missy_kernel.Base.{
  ℕ, ◌+◌, ◌*◌, ◌/◌, ◌%◌, ◌^◌, ◌<◌, ◌≡◌, ap, ◌∙◌, arith, Store, Option, none, some, ◌==◌,
  if◌then◌else◌, bit_or,
}
use missy_kernel.Base.Masks.{bit_or_low, bit_or_fields}
use missy_kernel.Paging.{entry}
use missy_kernel.Paging.Pages.{Table}

-- The frame that an entry refers to, if its present bit is set.
abbrev pub frame_of : ℕ → Option ℕ
frame_of e = if e % 2 == 0 then none else some (e / 4096 * 4096)

-- The physical address of the virtual address `v`, with the directory at `pdir`.
unfoldable pub walk : Store → ℕ → ℕ → Option ℕ
walk m pdir v = elim (frame_of (m (pdir + 4 * (v / 2 ^ 22)))) [
  | none ↦ none
  | some table ↦ elim (frame_of (m (table + 4 * (v / 4096 % 1024)))) [
    | none ↦ none
    | some frame ↦ some (frame + v % 4096)
  ]
]

pub entry_lem : (a : ℕ) → a % 4096 ≡ 0 → entry a ≡ a + 5
entry_lem a h =
    let e : a ≡ a / 4096 * 2 ^ 12 = omega arith in
    ap entry e
    ∙ ap (λ (t : ℕ). bit_or t 4) (bit_or_fields 12 (a / 4096) 1 (omega arith))
    ∙ bit_or_low 12 (a / 4096) 1 4 (omega arith) (omega arith)
    ∙ omega arith

-- The entry of a page refers to that page.
pub frame_of-entry : (a : ℕ) → a % 4096 ≡ 0 → frame_of (entry a) ≡ some a
frame_of-entry a h = rw (entry_lem a h) (ground arith)

pub walk_lem :
    {m : Store} {pdir table frame : ℕ} {f g : ℕ → ℕ} (v : ℕ)
    → Table m pdir f
    → Table m table g
    → v < 2 ^ 32
    → frame_of (f (v / 2 ^ 22)) ≡ some table
    → frame_of (g (v / 4096 % 1024)) ≡ some frame
    → walk m pdir v ≡ some (frame + v % 4096)
unfolding walk
walk_lem {m} {pdir} {table} {frame} v d t small p q =
    let p' : frame_of (m (pdir + 4 * (v / 2 ^ 22))) ≡ some table =
      rw (d.at (v / 2 ^ 22) (omega arith)) p in
    let q' : frame_of (m (table + 4 * (v / 4096 % 1024))) ≡ some frame =
      rw (t.at (v / 4096 % 1024) (omega arith)) q in
    rw (p', walk, q')

-- The same with the two indices and the result named.
pub walk_at :
    {m : Store} {pdir table : ℕ} {f g : ℕ → ℕ} (v i j frame target : ℕ)
    → Table m pdir f
    → Table m table g
    → v < 2 ^ 32
    → v / 2 ^ 22 ≡ i
    → v / 4096 % 1024 ≡ j
    → frame_of (f i) ≡ some table
    → frame_of (g j) ≡ some frame
    → frame + v % 4096 ≡ target
    → walk m pdir v ≡ some target
walk_at {f} {g} v i j frame target d t small ei ej p q e =
    walk_lem {frame = frame} v d t small (ap (λ (k : ℕ). frame_of (f k)) ei ∙ p)
      (ap (λ (k : ℕ). frame_of (g k)) ej ∙ q)
    ∙ ap some e
