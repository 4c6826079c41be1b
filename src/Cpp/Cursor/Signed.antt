-- ===== src/Cpp/Cursor/Signed.antt =====
-- `Sleb` of guest/hello-cpp/gen/crab.cpp on an address.
use Prim.Native.Nat.{bit_and, bit_or}
use crabcraft.Prelude.{
  ℕ, zero, suc, ◌+◌, ◌-◌, ◌*◌, ◌/◌, ◌%◌, ◌^◌, not, ◌&&◌, ◌==◌, codes, ltb, if◌then◌else◌,
}
use crabcraft.Format.{ℤ}
use crabcraft.Cpp.Decoder.{to_int64, out_of_range}
use crabcraft.Cpp.Cursor.{Scan, pure_at, refuse_at, byte_at, ◌>>=◌}

-- Behind the last byte: the sign, and the range.
unfoldable pub sleb_end_at : ℕ → ℕ → ℕ → ℕ → Scan ℤ
unfolding to_int64 out_of_range
sleb_end_at bits byte shift result =
    let signed =
      if ltb shift 64 && not (bit_and byte 0x40 == 0)
      then bit_or result (2 ^ 64 - 2 ^ shift)
      else result in
    if ltb bits 64 && out_of_range bits (to_int64 signed)
    then refuse_at (codes "sleb overflow")
    else pure_at (to_int64 signed)

unfoldable pub sleb_rounds_at : ℕ → ℕ → ℕ → ℕ → Scan ℤ
unfolding to_int64 sleb_end_at
sleb_rounds_at bits zero shift result = refuse_at (codes "sleb too long")
sleb_rounds_at bits (suc rounds) shift result = do
  b ← byte_at
  let result' = bit_or result (bit_and b 0x7f * 2 ^ shift % 2 ^ 64)
  let rest = sleb_rounds_at bits rounds (shift + 7) result'
  if shift == 63
      then (if not (b == 0) && not (b == 0x7f)
          then refuse_at (codes "sleb overflow")
          else pure_at (to_int64 (bit_or result (bit_and b 1 * 2 ^ 63))))
      else if bit_and b 0x80 == 0
      then sleb_end_at bits b (shift + 7) result'
      else rest

unfoldable pub sleb_at : ℕ → Scan ℤ
sleb_at bits = sleb_rounds_at bits ((bits + 6) / 7) 0 0
