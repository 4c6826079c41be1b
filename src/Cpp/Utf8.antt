-- ===== src/Cpp/Utf8.antt =====
-- `Utf8Valid` of tools/crabgen/templates/cpp/crab.cpp.
pub mod Scalars
pub mod Complete
pub mod Valid
pub mod Whole
pub mod Prefix
use Prim.Native.Nat.{bit_and, bit_or}
use crabcraft.Prelude.{
  ℕ, zero, suc, ◌+◌, ◌-◌, ◌*◌, ◌^◌, ◌%◌, Bool, true, false, not, ◌&&◌, ◌||◌, Option, none, some,
  Bytes, ltb, leb, ◌==◌, if◌then◌else◌, Outcome, done, fault, endless, ◌>>=◌,
}
use crabcraft.Uleb.{load}

-- What the first byte says: `len`, the bits of `cp`, and `min`.
pub record Lead : Type 0 where
  pub len : ℕ
  pub cp : ℕ
  pub min : ℕ

-- A first byte that is not below 0x80; `none` for `return false`.
unfoldable pub lead : ℕ → Option Lead
lead c =
    if bit_and c 0xe0 == 0xc0
    then some (record { len = 2; cp = bit_and c 0x1f; min = 0x80 })
    else if bit_and c 0xf0 == 0xe0
    then some (record { len = 3; cp = bit_and c 0x0f; min = 0x800 })
    else if bit_and c 0xf8 == 0xf0
    then some (record { len = 4; cp = bit_and c 0x07; min = 0x10000 })
    else none

-- `for (size_t j = 1; j < len; j++)`: the rounds left, `i + j` and `cp`; `none` for `return false`.
unfoldable pub continuation : Bytes → ℕ → ℕ → ℕ → Outcome (Option ℕ)
continuation p zero k cp = done (some cp)
continuation p (suc rounds) k cp = do
  cc ← load p k
  let rest = continuation p rounds (k + 1) (bit_or (cp * 2 ^ 6 % 2 ^ 32) (bit_and cc 0x3f))
  if not (bit_and cc 0xc0 == 0x80) then done none else rest

-- `cp < min || cp > 0x10FFFF || (cp >= 0xD800 && cp <= 0xDFFF)`
unfoldable pub is_bad : ℕ → ℕ → Bool
is_bad cp min = ltb cp min || (ltb 0x10ffff cp || (leb 0xd800 cp && leb cp 0xdfff))

-- One character of more than one byte at `i`: the next `i`, or `none` for `return false`.
unfoldable pub multibyte : Bytes → ℕ → ℕ → Option Lead → Outcome (Option ℕ)
multibyte p n i none = done none
multibyte p n i (some l) = if ltb n (i + l.len) then done none else (do
  r ← continuation p (l.len - 1) (i + 1) l.cp
  done (elim r [ none ↦ none | some cp ↦ if is_bad cp l.min then none else some (i + l.len) ]))

-- `while (i < n)` within `rounds` rounds.
unfoldable pub utf8_rounds : Bytes → ℕ → ℕ → ℕ → Outcome Bool
utf8_rounds p n zero i = fault endless
utf8_rounds p n (suc rounds) i = if not (ltb i n) then done true else (do
  c ← load p i
  next ← if ltb c 0x80 then done (some (i + 1)) else multibyte p n i (lead c)
  elim next [ none ↦ done false | some i' ↦ utf8_rounds p n rounds i' ])

-- Every round but the last passes over a byte.
unfoldable pub utf8_valid : Bytes → ℕ → Outcome Bool
utf8_valid p n = utf8_rounds p n (suc n) 0
