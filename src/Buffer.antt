-- ===== src/Buffer.antt =====
-- The growable byte buffer of guest/sqlite-c/main.c: `buf`, `breset`, `bput`, `bputc`, `bputs`.
-- A `size_t` is 32 bits wide on wasm32. What the C library's allocator does is a parameter.
pub mod Valid
pub mod Grow
pub mod Memory
pub mod Contents
pub mod Appends
use crabcraft.Prelude.{ℕ, zero, suc, ◌+◌, ◌-◌, ◌*◌, ◌%◌, ◌^◌, Bool}
use crabcraft.Prelude.{Option, none, some, [], ◌∷◌, ◌++◌, Bytes, length, take, drop}
use crabcraft.Prelude.{
  ltb, leb, ◌==◌, if◌then◌else◌, Outcome, done, fault, null_write, overrun, endless,
}
use crabcraft.Prelude.{◌>>=◌}

abbrev pub size_mod : ℕ
size_mod = 2 ^ 32

-- `grants n`: a request for `n` bytes is served. `junk i`: what byte `i` of a fresh block holds.
pub record Allocator : Type 0 where
  pub grants : ℕ → Bool
  pub junk : ℕ → ℕ

-- `p` is the block behind the pointer, `none` for NULL.
pub record Buf : Type 0 where
  pub p : Option Bytes
  pub len : ℕ
  pub cap : ℕ

-- `buf b = {0}`
abbrev pub zeroed : Buf
zeroed = record { p = none; len = 0; cap = 0 }

unfoldable pub breset : Buf → Buf
breset b = record b { len = 0 }

-- `while (cap < need) cap *= 2;` within `fuel` rounds.
unfoldable pub grow : ℕ → ℕ → ℕ → Outcome ℕ
grow zero cap need = fault endless
grow (suc fuel) cap need =
    let rest = grow fuel (cap * 2 % size_mod) need in if ltb cap need then rest else done cap

-- From 256 the capacity is 0 after 24 rounds, so a loop that is not over by then never ends.
abbrev pub grow_fuel : ℕ
grow_fuel = 32

-- The memory behind a pointer.
abbrev pub block : Option Bytes → Bytes
block none = []
block (some m) = m

-- The `len` bytes at `p`.
abbrev pub used : Option Bytes → ℕ → Bytes
used none len = []
used (some m) len = take len m

module _ (heap : Allocator) where
  -- `n` bytes of a fresh block, from byte `i` on.
  unfoldable pub fresh : ℕ → ℕ → Bytes
  fresh i zero = []
  fresh i (suc n) = heap.junk i ∷ fresh (suc i) n

  -- `realloc(p, n)` keeps what fits of the old block, and is NULL when it fails.
  unfoldable pub realloc : Option Bytes → ℕ → Option Bytes
  realloc p n =
      let old = take n (block p) in
      if heap.grants n then some (old ++ fresh (length old) (n - length old)) else none

  -- `memcpy(p + off, s, n)` for the `n` bytes `s`.
  unfoldable pub memcpy : Option Bytes → ℕ → Bytes → Outcome (Option Bytes)
  memcpy none off [] = done none
  memcpy none off (c ∷ s) = fault null_write
  memcpy (some m) off s =
      if leb (off + length s) (length m)
      then done (some (take off m ++ (s ++ drop (off + length s) m)))
      else fault overrun

  -- The part of `bput` under its `if`.
  unfoldable pub reserve : Buf → ℕ → Outcome Buf
  reserve b need =
      if ltb b.cap need
      then (do
        cap ← grow grow_fuel (if b.cap == 0 then 256 else b.cap) need
        done (record { p = realloc b.p cap; len = b.len; cap = cap }))
      else done b

  unfoldable pub bput : Buf → Bytes → Outcome Buf
  bput b s = do
    b' ← reserve b ((b.len + length s) % size_mod)
    p ← memcpy b'.p b'.len s
    done (record { p = p; len = (b'.len + length s) % size_mod; cap = b'.cap })

  unfoldable pub bputc : Buf → ℕ → Outcome Buf
  bputc b c = bput b (c ∷ [])

  -- `s` is the text before the terminating NUL, so `strlen(s)` is its length.
  unfoldable pub bputs : Buf → Bytes → Outcome Buf
  bputs b s = bput b s

  -- `text` is what the format asks for: `vsnprintf` returns its length, and leaves at most 63 bytes
  -- of it in `tmp`.
  unfoldable pub bputf : Buf → Bytes → Outcome Buf
  bputf b text =
      let n = length text in
      if ltb 0 n then bput b (take (if ltb n 64 then n else 63) text) else done b
