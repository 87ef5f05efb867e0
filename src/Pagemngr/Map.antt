-- ===== src/Pagemngr/Map.antt =====
-- What the processor's translation finds after mapping and unmapping.
use missy_kernel.Base.{
  ℕ, ◌+◌, ◌*◌, ◌/◌, ◌%◌, ◌^◌, ◌<◌, ◌≡◌, ◌≢◌, ◌⊎◌, inl, inr, refl, ◌∙◌, ap, arith, bit_and, bit_or,
  write, write_self, write_other, ◌==◌, Bool-cases, true, false, none, some,
}
use missy_kernel.Base.Masks.{bit_or_fields, bit_and_mask}
use missy_kernel.Bitmap.{block_bit}
use missy_kernel.Balloc.{balloc_allocate_block}
use missy_kernel.Balloc.Count.{IsValid}
use missy_kernel.Balloc.Alloc.{balloc_allocate_block_lem}
use missy_kernel.Paging.{Status, success, failure, pdir_entry, ptable_entry}
use missy_kernel.Paging.Pages.{ptable_entry_lem}
use missy_kernel.Paging.Walk.{walk, frame_of}
use missy_kernel.Pagemngr.{
  Pagemngr, directory_word, table_word, ensure_table, enter_page, pagemngr_map_block,
  pagemngr_unmap_block, table_is_empty,
}

pub Status-cases : (s : Status) → (s ≡ success) ⊎ (s ≡ failure)
Status-cases success = inl refl
Status-cases failure = inr refl

-- The directory is a page that the allocator holds as used; entry `i` of it is 0, or refers to a
-- page other than the directory itself.
pub record IsManaged (p : Pagemngr) (i : ℕ) : Type 0 where
  pub valid : IsValid p.balloc
  pub aligned : p.directory % 4096 ≡ 0
  pub held : block_bit p.balloc.mbmp (p.directory / 4096) ≡ 1
  pub entry :
      (p.phys (directory_word p i) ≡ 0)
      ⊎ ((p.phys (directory_word p i) % 2 ≡ 1)
          × (p.phys (directory_word p i) / 4096 ≢ p.directory / 4096))

-- Entry `i` of the directory refers to a page table that is not the directory.
record HasTable (p : Pagemngr) (i : ℕ) : Type 0 where
  aligned : p.directory % 4096 ≡ 0
  present : p.phys (directory_word p i) % 2 ≡ 1
  apart : p.phys (directory_word p i) / 4096 ≢ p.directory / 4096

present_lem : (a : ℕ) → a % 4096 ≡ 0 → bit_or a 1 ≡ a + 1
present_lem a h =
    let e : a ≡ a / 4096 * 2 ^ 12 = omega arith in
    ap (λ (t : ℕ). bit_or t 1) e ∙ bit_or_fields 12 (a / 4096) 1 (omega arith) ∙ omega arith

ensure_table-HasTable :
    (i : ℕ) (p : Pagemngr)
    → IsManaged p i
    → (ensure_table i p).0 ≡ success
    → HasTable (ensure_table i p).1 i
unfolding ensure_table
ensure_table-HasTable i p h ok = elim (Bool-cases (p.phys (directory_word p i) == 0)) [
  | inr full ↦ rw full (elim (h.entry) [
    | inl z ↦ absurd (ground (arith, full, z))
    | inr t ↦ record { aligned = h.aligned; present = t.0; apart = t.1 }
  ])
  | inl empty ↦ elim (balloc_allocate_block_lem p.balloc h.valid) [
    | inr r ↦
        let null : ((balloc_allocate_block p.balloc).0 == 0) ≡ true = ground (arith, r.null) in
        absurd (ground (arith, null, empty))
    | inl g ↦
        let new = (balloc_allocate_block p.balloc).0 in
        let pos : (new == 0) ≡ false = ground (arith, g.address_of, g.not_null) in
        let m = write p.phys (directory_word p i) (bit_or new 1) in
        let flat : new % 4096 ≡ 0 = omega (arith, g.address_of) in
        let c : m (directory_word p i) ≡ new + 1 =
          write_self p.phys (directory_word p i) (bit_or new 1) ∙ present_lem new flat in
        let other : g.block ≢ p.directory / 4096 = λ e. ground (arith, g.was_free, h.held, e) in
        rw (empty, pos)
          (record {
            aligned = h.aligned;
            present = rw c (omega arith);
            apart = rw c (λ e. other (omega (arith, e, g.address_of)));
          })
  ]
]

-- Entering a page makes the processor find it.
enter_page-walk :
    (v physical : ℕ) (p : Pagemngr)
    → physical % 4096 ≡ 0
    → HasTable p (v / 2 ^ 22)
    → let r = enter_page (v / 2 ^ 22) (v / 4096 % 1024) (bit_or physical 1) p in
      r.0 ≡ success → v < 2 ^ 32 → walk r.1.phys r.1.directory v ≡ some (physical + v % 4096)
unfolding enter_page walk
enter_page-walk v physical p a h ok small =
    let i = v / 2 ^ 22 in
    let j = v / 4096 % 1024 in
    let e = p.phys (directory_word p i) in
    let w = table_word p i j in
    elim (Bool-cases (p.phys w == 0)) [
      | inl z ↦
          let m = write p.phys w (bit_or physical 1) in
          let c : m (p.directory + 4 * i) ≡ e =
            write_other p.phys w (bit_or physical 1) (p.directory + 4 * i)
              (λ q. h.apart (omega (arith, q, h.aligned))) in
          let c' : m w ≡ physical + 1 =
            write_self p.phys w (bit_or physical 1) ∙ present_lem physical a in
          let f : frame_of (m (p.directory + 4 * i)) ≡ some (e / 4096 * 4096) =
            rw c (ground (arith, h.present)) in
          let f' : frame_of (m (e / 4096 * 4096 + 4 * j)) ≡ some physical =
            rw c' (ground (arith, a)) in
          let found : walk m p.directory v ≡ some (physical + v % 4096) = rw (f, walk, f') in
          rw z found
      | inr n ↦ absurd (ground (arith, n))
    ]

-- Where the allocator is valid and holds the directory's page, and the address's entry of the
-- directory is 0 or refers to a page other than the directory, a mapping of a physical page that
-- succeeds makes the processor translate the virtual address to that page.
pub pagemngr_map_block-walk :
    (physical v : ℕ) (p : Pagemngr)
    → physical % 4096 ≡ 0
    → v < 2 ^ 32
    → IsManaged p (v / 2 ^ 22)
    → let r = pagemngr_map_block physical v p in
      r.0 ≡ success → walk r.1.phys r.1.directory v ≡ some (physical + v % 4096)
unfolding pagemngr_map_block pdir_entry
pagemngr_map_block-walk physical v p a small h ok =
    let i = v / 2 ^ 22 in
    let t : ptable_entry v ≡ v / 4096 % 1024 = ptable_entry_lem v ∙ omega arith in
    let p₁ = (ensure_table i p).1 in
    elim (Status-cases (ensure_table i p).0) [
      | inl e ↦
          let r = enter_page i (v / 4096 % 1024) (bit_or physical 1) p₁ in
          let done : pagemngr_map_block physical v p ≡ r = rw (e, t, pagemngr_map_block) refl in
          let ok' : r.0 ≡ success = rw done at ok in
          rw done (enter_page-walk v physical p₁ a (ensure_table-HasTable i p h e) ok' small)
      | inr e ↦ absurd (ground (arith, e))
    ]

-- Unmapping a page that is mapped, through a table that is not the directory, leaves its addresses
-- untranslated, and returns the low 12 bits of the entry, which are its flags.
pub pagemngr_unmap_block-walk :
    (v : ℕ) (p : Pagemngr)
    → v < 2 ^ 32
    → p.directory % 4096 ≡ 0
    → p.phys (directory_word p (v / 2 ^ 22)) % 2 ≡ 1
    → p.phys (directory_word p (v / 2 ^ 22)) / 4096 ≢ p.directory / 4096
    → p.phys (table_word p (v / 2 ^ 22) (v / 4096 % 1024)) % 2 ≡ 1
    → let r = pagemngr_unmap_block v p in
      (walk r.1.phys r.1.directory v ≡ none)
      × (r.0 ≡ p.phys (table_word p (v / 2 ^ 22) (v / 4096 % 1024)) % 4096)
unfolding pagemngr_unmap_block pdir_entry walk
pagemngr_unmap_block-walk v p small a present apart mapped =
    let i = v / 2 ^ 22 in
    let j = v / 4096 % 1024 in
    let e = p.phys (directory_word p i) in
    let w = table_word p i j in
    let t : ptable_entry v ≡ j = ptable_entry_lem v ∙ omega arith in
    let b : (bit_and e 1 == 0) ≡ false = ground (arith, bit_and_mask 1 e, present) in
    let b' : (bit_and (p.phys w) 1 == 0) ≡ false =
      ground (arith, bit_and_mask 1 (p.phys w), mapped) in
    let m = write p.phys w 0 in
    let c : m (directory_word p i) ≡ e =
      write_other p.phys w 0 (directory_word p i) (λ q. apart (omega (arith, q, a))) in
    elim (Bool-cases (table_is_empty 1024 0 m (e / 4096 * 4096))) [
      | inl empty ↦
          let f : frame_of (write m (directory_word p i) 0 (p.directory + 4 * i)) ≡ none =
            rw (write_self m (directory_word p i) 0) refl in
          let gone : walk (write m (directory_word p i) 0) p.directory v ≡ none =
            rw (f, walk) refl in
          rw (t, b, b', empty) (gone, bit_and_mask 12 (p.phys w))
      | inr other ↦
          let f : frame_of (m (p.directory + 4 * i)) ≡ some (e / 4096 * 4096) =
            rw c (ground (arith, present)) in
          let f' : frame_of (m (e / 4096 * 4096 + 4 * j)) ≡ none =
            rw (write_self p.phys w 0) refl in
          let gone : walk m p.directory v ≡ none = rw (f, walk, f') refl in
          rw (t, b, b', other) (gone, bit_and_mask 12 (p.phys w))
    ]
