-- ===== src/Uleb.antt =====
-- The integer codec of guest/sqlite-c/main.c: `uleb_put` and `uleb_get32`.
-- `unsigned long long` is 64 bits wide, `unsigned` and `size_t` are 32.
pub mod Encode
pub mod Decode
pub mod RoundTrip
use Prim.Native.Nat.{bit_and, bit_or}
use crabcraft.Prelude.{ℕ, zero, suc, ◌+◌, ◌*◌, ◌/◌, ◌%◌, ◌^◌, Bool, not, ◌&&◌, Option, none, some}
use crabcraft.Prelude.{List, [], ◌∷◌, Bytes, leb, ◌==◌, if◌then◌else◌}
use crabcraft.Prelude.{Outcome, done, fault, overread, endless, ◌>>=◌}
use crabcraft.Buffer.{Allocator, Buf, size_mod, bput}

-- `byte`, for the value `v` before the shift.
unfoldable pub uleb_byte : ℕ → ℕ
uleb_byte v = let byte = bit_and v 0x7f in if v / 128 == 0 then byte else bit_or byte 0x80

-- `do { … } while (v);` within `rounds` rounds.
unfoldable pub uleb_loop : Allocator → ℕ → Buf → ℕ → Outcome Buf
uleb_loop heap zero b v = fault endless
uleb_loop heap (suc rounds) b v = do
  b' ← bput heap b (uleb_byte v ∷ [])
  let rest = uleb_loop heap rounds b' (v / 128)
  if v / 128 == 0 then done b' else rest

-- Ten groups of seven bits hold 64 bits.
unfoldable pub uleb_put : Allocator → Buf → ℕ → Outcome Buf
uleb_put heap b v = uleb_loop heap 10 b v

-- `p[i]`
unfoldable pub load : Bytes → ℕ → Outcome ℕ
load [] i = fault overread
load (c ∷ p) zero = done c
load (c ∷ p) (suc i) = load p i

-- The rounds of the `for` loop that are left, `i`, `*pos` and `result`. The result is the final
-- `*pos` and `*out`, or `none` for the return value -1.
unfoldable pub get_loop : Bytes → ℕ → ℕ → ℕ → ℕ → ℕ → Outcome (ℕ × Option ℕ)
get_loop p len zero i pos result = done (pos, none)
get_loop p len (suc rounds) i pos result = if leb len pos then done (pos, none) else (do
  byte ← load p pos
  let pos' = (pos + 1) % size_mod
  let payload = bit_and byte 0x7f
  let result' = bit_or result (payload * 2 ^ (7 * i) % 2 ^ 32)
  let rest = get_loop p len rounds (i + 1) pos' result'
  if (i == 4) && not (payload / 16 == 0)
      then done (pos', none)
      else if bit_and byte 0x80 == 0
      then done (pos', some result')
      else rest)

unfoldable pub uleb_get32 : Bytes → ℕ → ℕ → Outcome (ℕ × Option ℕ)
uleb_get32 p len pos = get_loop p len 5 0 pos 0
