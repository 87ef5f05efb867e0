-- ===== src/Brk/Valid.antt =====
-- `brk` keeps the allocator of blocks valid.
use missy_kernel.Base.{
  ℕ, zero, suc, ◌+◌, inl, inr, u32, ltb, bit_and, bit_or, ◌==◌, if◌then◌else◌, Bool, Bool-cases,
  true, false,
}
use missy_kernel.Balloc.{balloc_allocate_block, balloc_deallocate_block}
use missy_kernel.Balloc.Count.{IsValid}
use missy_kernel.Balloc.Dealloc.{balloc_allocate_block-IsValid, balloc_deallocate_block-IsValid}
use missy_kernel.Pagemngr.Map.{Status-cases}
use missy_kernel.Paging.{Status, success, failure, pdir_entry, ptable_entry}
use missy_kernel.Pagemngr.{
  Pagemngr, directory_word, table_word, ensure_table, enter_page, pagemngr_map_block,
  pagemngr_unmap_block,
}
use missy_kernel.Brk.{
  Brk, set_errno, roll_back, map_frame, allocate_loop, allocate_new_brk, new_block_count,
  first_frame, extend, brk, page_align_down,
}

-- Neither a new table nor a new entry makes the allocator invalid.
ensure_table-IsValid :
    (i : ℕ) (p : Pagemngr) → IsValid p.balloc → IsValid (ensure_table i p).1.balloc
unfolding ensure_table
ensure_table-IsValid i p v =
    let v' = balloc_allocate_block-IsValid p.balloc v in
    elim (Bool-cases (p.phys (directory_word p i) == 0)) [
      | inl e ↦ elim (Bool-cases ((balloc_allocate_block p.balloc).0 == 0)) [
        | inl z ↦ rw (e, z) v'
        | inr z ↦ rw (e, z) v'
      ]
      | inr e ↦ rw e v
    ]

enter_page-IsValid :
    (i j e : ℕ) (p : Pagemngr) → IsValid p.balloc → IsValid (enter_page i j e p).1.balloc
unfolding enter_page
enter_page-IsValid i j e p v = elim (Bool-cases (p.phys (table_word p i j) == 0)) [
  | inl z ↦ rw z v
  | inr z ↦ rw z v
]

entered-IsValid :
    (s : Status) (i j e : ℕ) (p : Pagemngr)
    → IsValid p.balloc
    → IsValid
        (elim s as (λ x. Status × Pagemngr) [
          | failure ↦ (failure, p)
          | success ↦ enter_page i j e p
        ]).1.balloc
entered-IsValid failure i j e p v = v
entered-IsValid success i j e p v = enter_page-IsValid i j e p v

either-IsValid :
    (t : Bool) (p q : Pagemngr)
    → IsValid p.balloc
    → IsValid q.balloc
    → IsValid (if t then p else q).balloc
either-IsValid true p q v w = v
either-IsValid false p q v w = w

pagemngr_map_block-IsValid :
    (physical virtual : ℕ) (p : Pagemngr)
    → IsValid p.balloc
    → IsValid (pagemngr_map_block physical virtual p).1.balloc
unfolding pagemngr_map_block ensure_table
pagemngr_map_block-IsValid physical virtual p v =
    let i = pdir_entry virtual in
    entered-IsValid (ensure_table i p).0 i (ptable_entry virtual) (bit_or physical 1)
      (ensure_table i p).1 (ensure_table-IsValid i p v)

pagemngr_unmap_block-IsValid :
    (virtual : ℕ) (p : Pagemngr)
    → IsValid p.balloc
    → IsValid (pagemngr_unmap_block virtual p).1.balloc
unfolding pagemngr_unmap_block
pagemngr_unmap_block-IsValid virtual p v =
    let e = p.phys (directory_word p (pdir_entry virtual)) in
    let entry = p.phys (table_word p (pdir_entry virtual) (ptable_entry virtual)) in
    elim (Bool-cases (bit_and e 1 == 0)) [
      | inl z ↦ rw z v
      | inr z ↦ elim (Bool-cases (bit_and entry 1 == 0)) [
        | inl y ↦ rw (z, y) v
        | inr y ↦ rw (z, y) (either-IsValid _ _ _ (balloc_deallocate_block-IsValid p.balloc _ v) v)
      ]
    ]

set_errno-IsValid :
    (e : ℕ) (s : Brk) → IsValid s.pagemngr.balloc → IsValid (set_errno e s).pagemngr.balloc
set_errno-IsValid e s v = record { words = v.words; small = v.small; counted = v.counted }

roll_back-IsValid :
    (frame : ℕ) (s : Brk)
    → IsValid s.pagemngr.balloc
    → IsValid (roll_back frame s).1.pagemngr.balloc
unfolding roll_back
roll_back-IsValid frame s v =
    let v₁ = pagemngr_unmap_block-IsValid frame s.pagemngr v in
    let (physical, p) = pagemngr_unmap_block frame s.pagemngr in
    let w : IsValid
        (if physical == 0
          then p
          else record p { balloc = balloc_deallocate_block p.balloc physical }).balloc =
      either-IsValid (physical == 0) p _ v₁
        (balloc_deallocate_block-IsValid p.balloc physical v₁) in
    record { words = w.words; small = w.small; counted = w.counted }

allocate_loop-IsValid :
    (n i frame : ℕ) (s : Brk)
    → IsValid s.pagemngr.balloc
    → IsValid (allocate_loop n i frame s).1.pagemngr.balloc
unfolding allocate_loop map_frame
allocate_loop-IsValid zero i frame s v = v
allocate_loop-IsValid (suc n) i frame s v =
    let (block, b) = balloc_allocate_block s.pagemngr.balloc in
    let s' = record s { pagemngr = record s.pagemngr { balloc = b } } in
    let v₁ : IsValid b = balloc_allocate_block-IsValid s.pagemngr.balloc v in
    let v₂ = pagemngr_map_block-IsValid block frame s'.pagemngr v₁ in
    let rest = allocate_loop-IsValid n (i + 1) (u32 (frame + 4096)) (map_frame block frame s') v₂ in
    elim (Bool-cases (block == 0)) [
      | inl z ↦ elim (Bool-cases (ltb 0 i)) [
        | inl l ↦ rw (z, l) (roll_back-IsValid frame s' v₁)
        | inr l ↦ rw (z, l) rest
      ]
      | inr z ↦ rw z rest
    ]

extend-IsValid :
    (addr : ℕ) (s : Brk) → IsValid s.pagemngr.balloc → IsValid (extend addr s).1.pagemngr.balloc
unfolding extend allocate_new_brk
extend-IsValid addr s v =
    let r = allocate_loop (new_block_count addr s) 0 (first_frame s) s in
    let w = allocate_loop-IsValid (new_block_count addr s) 0 (first_frame s) s v in
    elim (Status-cases r.0) [ inl e ↦ rw (extend, e) w | inr e ↦ rw (extend, e) w ]

-- Whatever the address and the break, `brk` keeps the allocator of blocks valid: its counter stays
-- the number of blocks in use.
pub brk-IsValid :
    (addr : ℕ) (s : Brk) → IsValid s.pagemngr.balloc → IsValid (brk addr s).1.pagemngr.balloc
unfolding brk
brk-IsValid addr s v = elim (Bool-cases (s.heap_base == 0)) [
  | inl e ↦ rw (brk, e) (set_errno-IsValid 1 s v)
  | inr e ↦ elim (Bool-cases (ltb addr s.heap_base)) [
    | inl f ↦ rw (brk, e, f) (set_errno-IsValid 2 s v)
    | inr f ↦ elim (Bool-cases (s.break == 0)) [
      | inl g ↦ rw (brk, e, f, g) (extend-IsValid addr s v)
      | inr g ↦ elim (Bool-cases (page_align_down addr == page_align_down s.break)) [
        | inl h ↦ rw (brk, e, f, g, h) v
        | inr h ↦ rw (brk, e, f, g, h) (extend-IsValid addr s v)
      ]
    ]
  ]
]
