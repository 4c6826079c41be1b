-- ===== src/Buffer/Contents.antt =====
-- `bput` of guest/sqlite-c/main.c against the sequence of bytes that a buffer holds.
use crabcraft.Prelude.{
  ℕ, ◌+◌, ◌*◌, ◌%◌, ◌^◌, ◌≤◌, ◌<◌, true, ◌≡◌, refl, ap, ◌∙◌, arith, Option, none, some, [], ◌∷◌,
  ◌++◌, Bytes, length, ltb, ◌==◌, if◌then◌else◌, done, fault, endless,
}
use crabcraft.Buffer.{grow, Allocator, Buf, size_mod, grow_fuel, memcpy, reserve, bput, used}
use native.Mathlib.Decide.{dec_lt}
use crabcraft.Buffer.Valid.{limit, IsBlock, IsValid, contents, Plentiful}
use crabcraft.Buffer.Grow.{cap-le, cap-pos, grow_total, grow_endless}
use crabcraft.Buffer.Memory.{realloc_lem, realloc_null, memcpy_lem}

module _ (heap : Allocator) where
  -- What room for `need` bytes means: the same contents in a buffer that is large enough.
  abbrev Reserved : Option Bytes → ℕ → ℕ → ℕ → Type 0
  Reserved p len size need =
      (b' : Buf) × (reserve heap (record { p = p; len = len; cap = size }) need ≡ done b')
      × IsValid b'
      × (contents b' ≡ used p len)
      × (b'.len ≡ len)
      × (need ≤ b'.cap)

  reserve_enough :
      (p : Option Bytes) (len size need : ℕ)
      → IsBlock p len size
      → need ≤ size
      → Reserved p len size need
  unfolding reserve
  reserve_enough p len size need v h =
      (record { p = p; len = len; cap = size }, ground arith, v, refl, refl, h)

  reserve_null : (need : ℕ) → Plentiful heap → 0 < need → need ≤ limit → Reserved none 0 0 need
  unfolding reserve
  reserve_null need serves h hn =
      let (c, run, meets, grows, fits) =
        grow_total 23 grow_fuel 256 need refl (omega arith) (omega arith) hn in
      let (m, got, size) = realloc_null heap c (serves c (cap-le c fits.0 fits.1)) in
      let test : ltb 0 need ≡ true = ground arith in
      (
        record { p = some m; len = 0; cap = c },
        rw (test, run, got),
        (size, omega arith, fits),
        refl,
        refl,
        meets,
      )

  reserve_grow :
      (m : Bytes) (len size need : ℕ)
      → Plentiful heap
      → IsBlock (some m) len size
      → size < need
      → need ≤ limit
      → Reserved (some m) len size need
  unfolding reserve
  reserve_grow m len size need serves (filled, within, (j, e, hj)) h hn =
      let (c, run, meets, grows, fits) = grow_total j grow_fuel size need e hj (omega arith) hn in
      let (m', got, size', same) =
        realloc_lem heap m c (omega arith) (serves c (cap-le c fits.0 fits.1)) in
      let test : ltb size need ≡ true = ground arith in
      let start : (if size == 0 then 256 else size) ≡ size = ground (arith, cap-pos size j e) in
      (
        record { p = some m'; len = len; cap = c },
        rw (test, start, run, got),
        (size', omega arith, fits),
        same len (omega arith),
        refl,
        meets,
      )

  reserve_block :
      (p : Option Bytes) (len size need : ℕ)
      → Plentiful heap
      → IsBlock p len size
      → len ≤ need
      → need ≤ limit
      → Reserved p len size need
  reserve_block none len size need serves (no_len, no_size) low high =
      rw (no_len, no_size)
        (elim (dec_lt 0 need) [
          | yes h ↦ reserve_null need serves h high
          | no h ↦ reserve_enough none 0 0 need (refl, refl) (omega arith)
        ])
  reserve_block (some m) len size need serves v low high = elim (dec_lt size need) [
    | yes h ↦ reserve_grow m len size need serves v h high
    | no h ↦ reserve_enough (some m) len size need v (omega arith)
  ]

  -- `memcpy` of bytes for which there is room keeps the buffer valid and appends them.
  copy-IsBlock :
      (p : Option Bytes) (len size : ℕ) (s : Bytes)
      → IsBlock p len size
      → len + length s ≤ size
      → (p' : Option Bytes) × (memcpy heap p len s ≡ done p')
        × IsBlock p' (len + length s) size
        × (used p' (len + length s) ≡ used p len ++ s)
  copy-IsBlock none len size [] (no_len, no_size) h =
      (none, unfold memcpy in refl, (omega arith, no_size), refl)
  copy-IsBlock none len size (c ∷ s) (no_len, no_size) h = absurd (omega arith)
  copy-IsBlock (some m) len size s (filled, within, fits) h =
      let (m', run, same, appended) = memcpy_lem heap m s len (omega arith) in
      (some m', run, (omega arith, h, fits), appended)

  bput_parts :
      (b b' : Buf) (p : Option Bytes) (s : Bytes)
      → reserve heap b ((b.len + length s) % size_mod) ≡ done b'
      → memcpy heap b'.p b'.len s ≡ done p
      → bput heap b s ≡ done (record { p = p; len = (b'.len + length s) % size_mod; cap = b'.cap })
  unfolding bput
  bput_parts b b' p s room copied = rw (room, copied)

  -- `bput` appends, for every valid buffer whose new length is within the limit.
  pub bput_lem :
      (b : Buf) (s : Bytes)
      → Plentiful heap
      → IsValid b
      → b.len + length s ≤ limit
      → (b' : Buf) × (bput heap b s ≡ done b')
        × IsValid b'
        × (contents b' ≡ contents b ++ s)
        × (b'.len ≡ b.len + length s)
  bput_lem b s serves v h =
      let (b', room, v', same, len, fits) =
        reserve_block b.p b.len b.cap (b.len + length s) serves v (omega arith) h in
      let (p, copied, v'', appended) = copy-IsBlock b'.p b'.len b'.cap s v' (omega arith) in
      let need : (b.len + length s) % size_mod ≡ b.len + length s = omega arith in
      let sum : (b'.len + length s) % size_mod ≡ b'.len + length s = omega arith in
      (
        record { p = p; len = b'.len + length s; cap = b'.cap },
        bput_parts b b' p s (rw need room) copied
            ∙ ap (λ (k : ℕ). done (record { p = p; len = k; cap = b'.cap })) sum,
        v'',
        appended ∙ ap (λ (t : Bytes). t ++ s) same,
        omega arith,
      )

  -- The capacity that the loop starts from.
  start :
      (p : Option Bytes) (len size : ℕ)
      → IsBlock p len size
      → (j : ℕ) × ((if size == 0 then 256 else size) * 2 ^ j ≡ limit) × (size ≤ limit)
  start none len size (no_len, no_size) = (23, rw no_size refl, omega arith)
  start (some m) len size (filled, within, (j, e, hj)) =
      let same : (if size == 0 then 256 else size) ≡ size = ground (arith, cap-pos size j e) in
      (j, rw same e, cap-le size j e)

  -- The loop in `reserve`, whatever rounds it is given.
  loop_endless :
      (b : Buf) (need : ℕ)
      → IsValid b
      → limit < need
      → (fuel : ℕ) → grow fuel (if b.cap == 0 then 256 else b.cap) need ≡ fault endless
  loop_endless b need v h fuel =
      let (j, e, small) = start b.p b.len b.cap v in
      grow_endless fuel j (if b.cap == 0 then 256 else b.cap) need e h

  reserve_endless :
      (b : Buf) (need : ℕ) → IsValid b → limit < need → reserve heap b need ≡ fault endless
  unfolding reserve
  reserve_endless b need v h =
      let (j, e, small) = start b.p b.len b.cap v in
      let test : ltb b.cap need ≡ true = ground arith in
      rw (test, loop_endless b need v h grow_fuel)

  -- For contents beyond the limit, which still fit a `size_t`, the doubling loop that `bput` runs is not
  -- over after any number of rounds, and `bput` does not return.
  pub bput_endless :
      (b : Buf) (s : Bytes)
      → IsValid b
      → limit < b.len + length s
      → b.len + length s < size_mod
      → ((fuel : ℕ)
          → grow fuel (if b.cap == 0 then 256 else b.cap) ((b.len + length s) % size_mod)
            ≡ fault endless)
        × (bput heap b s ≡ fault endless)
  unfolding bput
  bput_endless b s v h hs =
      let need : (b.len + length s) % size_mod ≡ b.len + length s = omega arith in
      rw need
        (loop_endless b (b.len + length s) v h, rw (reserve_endless b (b.len + length s) v h) refl)
