-- ===== src/Serial/Send.antt =====
-- Sending over the serial port ends when the line becomes ready often enough.
use missy_kernel.Base.{
  ℕ, zero, suc, ◌+◌, ◌-◌, ◌≤◌, ◌<◌, ◌≡◌, ◌≢◌, inl, inr, refl, ◌∙◌, ap, arith, bit_and, ◌==◌,
  ==_false_of_ne, Bool-cases, some, Store, List, [], ◌∷◌,
}
use missy_kernel.Serial.{Serial, out, wait_for, send_character, write_loop, serial_write_chars}

-- The bytes in memory from `p` on.
abbrev pub bytes_at : Store → ℕ → ℕ → List ℕ
bytes_at m p zero = []
bytes_at m p (suc n) = m p ∷ bytes_at m (p + 1) n

-- The state after some bytes have been written to the port, one after the other.
abbrev pub out_all : List ℕ → Serial → Serial
out_all [] s = s
out_all (c ∷ cs) s = out_all cs (out s.port c s)

-- What is written does not depend on how often the ports have been read.
out_all-reads :
    (cs : List ℕ) (s : Serial) (t r : ℕ)
    → record (out_all cs (record s { reads = t })) { reads = r }
      ≡ record (out_all cs s) { reads = r }
out_all-reads [] s t r = refl
out_all-reads (c ∷ cs) s t r = out_all-reads cs (out s.port c s) t r

module _ (inportb : ℕ → ℕ → ℕ) where
  -- Among any `k` reads of the port in a row there is one that has a bit of the mask.
  pub record Ready (port mask k : ℕ) : Type 0 where
    pub within : (t : ℕ) → (d : ℕ) × (d < k) × (bit_and (inportb (t + d) (port + 5)) mask ≢ 0)

  -- The first read from `t` on that has a bit of the mask is the one before the `n`th.
  pub record First (port mask t n : ℕ) : Type 0 where
    pub from : t < n
    pub reports : bit_and (inportb (n - 1) (port + 5)) mask ≢ 0
    pub before : (i : ℕ) → t ≤ i → i + 1 < n → bit_and (inportb i (port + 5)) mask ≡ 0

  First-here :
      (port mask t : ℕ) → bit_and (inportb t (port + 5)) mask ≢ 0 → First port mask t (t + 1)
  First-here port mask t r =
      let e : t + 1 - 1 ≡ t = omega arith in
      record { from = omega arith; reports = rw e r; before = λ i l h. absurd (omega arith) }

  First-later :
      (port mask t n : ℕ)
      → bit_and (inportb t (port + 5)) mask ≡ 0
      → First port mask (t + 1) n
      → First port mask t n
  First-later port mask t n z x = record {
    from = omega (arith, x.from);
    reports = x.reports;
    before = λ i l h. elim (Bool-cases (i == t)) [
      | inl y ↦
          let e : i ≡ t = ground (arith, y) in
          ap (λ (j : ℕ). bit_and (inportb j (port + 5)) mask) e ∙ z
      | inr y ↦ x.before i (ground (arith, y, l)) h
    ];
  }

  pub wait_for-Ready :
      (fuel mask d : ℕ) (s : Serial)
      → bit_and (inportb (s.reads + d) (s.port + 5)) mask ≢ 0
      → d < fuel
      → (n : ℕ) × (wait_for inportb fuel mask s ≡ some (record s { reads = n }))
        × First s.port mask s.reads n
  unfolding wait_for
  wait_for-Ready zero mask d s r f = absurd (omega arith)
  wait_for-Ready (suc fuel) mask zero s r f =
      let t : s.reads + 0 ≡ s.reads = omega arith in
      let ready : bit_and (inportb s.reads (s.port + 5)) mask ≢ 0 = rw t at r in
      let e = ==_false_of_ne (bit_and (inportb s.reads (s.port + 5)) mask) 0 ready in
      (s.reads + 1, rw (wait_for, e) refl, First-here s.port mask s.reads ready)
  wait_for-Ready (suc fuel) mask (suc d) s r f =
      let t : s.reads + suc d ≡ s.reads + 1 + d = omega arith in
      let (n, w, x) =
        wait_for-Ready fuel mask d (record s { reads = s.reads + 1 }) (rw t at r) (omega arith) in
      elim (Bool-cases (bit_and (inportb s.reads (s.port + 5)) mask == 0)) [
        | inl e ↦ (n, rw (wait_for, e) w, First-later s.port mask s.reads n (ground (arith, e)) x)
        | inr e ↦ (
          s.reads + 1,
          rw (wait_for, e) refl,
          First-here s.port mask s.reads (λ q. ground (arith, e, q)),
        )
      ]

  write_loop-Ready :
      (fuel k : ℕ) (m : Store) (buffer i n : ℕ) (s : Serial)
      → Ready s.port 0x20 k
      → k ≤ fuel
      → (t : ℕ) × (write_loop inportb fuel m buffer i n s
          ≡ some (record (out_all (bytes_at m (buffer + i) n) s) { reads = t }))
  unfolding write_loop send_character
  write_loop-Ready fuel k m buffer i zero s r h = (s.reads, refl)
  write_loop-Ready fuel k m buffer i (suc n) s r h =
      let (d, l, ready) = r.within s.reads in
      let (t, w, _) = wait_for-Ready fuel 0x20 d s ready (omega (arith, l)) in
      let s' = out s.port (m (buffer + i)) (record s { reads = t }) in
      let sent : send_character inportb fuel (m (buffer + i)) s ≡ some s' =
        rw (send_character, w) refl in
      let (t', e) = write_loop-Ready fuel k m buffer (i + 1) n s' r h in
      let next : buffer + (i + 1) ≡ buffer + i + 1 = omega arith in
      (
        t',
        rw (write_loop, sent, e)
            (ap (λ (p : ℕ). some (record (out_all (bytes_at m p n) s') { reads = t' })) next
              ∙ ap (λ (u : Serial). some u)
                  (out_all-reads (bytes_at m (buffer + i + 1) n) (out s.port (m (buffer + i)) s) t
                    t')),
      )

  -- Where among any `k` reads of the port's line status in a row there is one that reports room,
  -- and with fuel for `k` reads a character, `serial_write_chars` returns, and has written the bytes
  -- of the buffer to the port, each once and in order, and nothing else.
  pub serial_write_chars_lem :
      (fuel k : ℕ) (m : Store) (buffer length : ℕ) (s : Serial)
      → Ready s.port 0x20 k
      → k ≤ fuel
      → (t : ℕ) × (serial_write_chars inportb fuel m buffer length s
          ≡ some (length, record (out_all (bytes_at m buffer length) s) { reads = t }))
  unfolding serial_write_chars
  serial_write_chars_lem fuel k m buffer length s r h =
      let (t, e) = write_loop-Ready fuel k m buffer 0 length s r h in
      let z : buffer + 0 ≡ buffer = omega arith in
      (
        t,
        rw (serial_write_chars, e)
            (ap (λ (p : ℕ). some (length, record (out_all (bytes_at m p length) s) { reads = t }))
              z),
      )
