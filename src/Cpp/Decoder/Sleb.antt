-- ===== src/Cpp/Decoder/Sleb.antt =====
-- `Decoder::Sleb` of tools/crabgen/templates/cpp/crab.cpp on what `EncodeSleb` appends.
use Prim.Native.Nat.{bit_and, bit_or}
use crabcraft.Prelude.{
  ℕ, zero, suc, ◌+◌, ◌*◌, ◌-◌, ◌/◌, ◌%◌, ◌^◌, ◌≤◌, ◌<◌, ◌≡◌, refl, ap, arith, true, false, not,
  ◌&&◌, ◌∷◌, ◌++◌, Bytes, ltb, ◌==◌, Bool-cases, inl, inr,
}
use crabcraft.Prelude.Bits.{bit_and_127, bit_and_128_bit, bit_or_fields}
use crabcraft.Prelude.Powers.{pow-add, shift_fits}
use native.Mathlib.Nat.{pow-le-pow_right}
use native.Mathlib.Decide.{dec_lt}
use crabcraft.Format.{ℤ, pos, negsuc}
use crabcraft.Cpp.Encode.Sleb.{
  size, group, above, group_small, signed_groups, signed_encoding, signed_groups-extra,
}
use crabcraft.Cpp.Decoder.{sleb, sleb_rounds, byte}
use crabcraft.Cpp.Decoder.RoundTrip.{seven_bits}
use crabcraft.Cpp.Decoder.Reads.{byte-Reads, next}
use crabcraft.Cpp.Decoder.Takes.{Takes, pure-Takes, Reads-Takes, Takes-bind}
use crabcraft.Cpp.Decoder.SignBits.{
  behind_bits, below_next, InRange, end_lem, behind_above, more_room, top_group,
}

byte-Takes : (c : ℕ) (s : Bytes) → Takes byte (c ∷ s) c s
byte-Takes c s = Reads-Takes byte-Reads (unfold next in refl)

-- A group put in place.
placed :
    (result shift c : ℕ)
    → result < 2 ^ shift
    → shift ≤ 56
    → bit_or result (bit_and c 0x7f * 2 ^ shift % 2 ^ 64) ≡ result + c % 128 * 2 ^ shift
placed result shift c low wide =
    rw (bit_and_127 c, shift_fits (c % 128) 7 shift (omega arith) (omega arith))
      (bit_or_fields shift result (c % 128) low)

last_group :
    (bits rounds shift result : ℕ) (v : ℤ) (rest : Bytes)
    → result < 2 ^ shift
    → shift ≤ 56
    → size v < 64
    → InRange bits (behind_bits result (2 ^ shift) v)
    → Takes
        (sleb_rounds bits (suc rounds) shift result)
        (group v ∷ rest)
        (behind_bits result (2 ^ shift) v)
        rest
unfolding sleb_rounds
last_group bits rounds shift result v rest low wide small range =
    let g = group_small v in
    let same : group v % 128 ≡ group v = omega arith in
    let inner : (shift == 63) ≡ false = ground arith in
    let last : (bit_and (group v) 0x80 == 0) ≡ true = ground (arith, bit_and_128_bit (group v)) in
    Takes-bind _ (byte-Takes (group v) rest) (
      rw
        (
          inner,
          last,
          placed result shift (group v) low wide,
          same,
          end_lem bits result shift v low wide small range,
        )
        (pure-Takes (behind_bits result (2 ^ shift) v) rest))

inner_group :
    (bits rounds shift result g : ℕ) {value : ℤ} (s rest : Bytes)
    → result < 2 ^ shift
    → shift ≤ 56
    → g < 128
    → Takes (sleb_rounds bits rounds (shift + 7) (result + g * 2 ^ shift)) s value rest
    → Takes (sleb_rounds bits (suc rounds) shift result) ((g + 128) ∷ s) value rest
unfolding sleb_rounds
inner_group bits rounds shift result g s rest low wide small later =
    let same : (g + 128) % 128 ≡ g = omega arith in
    let inner : (shift == 63) ≡ false = ground arith in
    let more : (bit_and (g + 128) 0x80 == 0) ≡ false = ground (arith, bit_and_128_bit (g + 128)) in
    Takes-bind _ (byte-Takes (g + 128) s)
      (rw (inner, more, placed result shift (g + 128) low wide, same) later)

top_byte :
    (rounds result : ℕ) (v : ℤ) (rest : Bytes)
    → result < 2 ^ 63
    → InRange 64 (behind_bits result (2 ^ 63) v)
    → Takes
        (sleb_rounds 64 (suc rounds) 63 result)
        (group v ∷ rest)
        (behind_bits result (2 ^ 63) v)
        rest
unfolding sleb_rounds
top_byte rounds result v rest low range =
    let (none_left, value) = top_group result v low range in
    let allowed = sign_byte v none_left in
    Takes-bind _ (byte-Takes (group v) rest)
      (rw (allowed, value) (pure-Takes (behind_bits result (2 ^ 63) v) rest))
  where
    sign_byte : (v : ℤ) → size v ≡ 0 → (not (group v == 0) && not (group v == 0x7f)) ≡ false
    sign_byte (pos n) e = ground arith
    sign_byte (negsuc n) e = ground arith

-- The last group, wherever it stands.
final_group :
    (rounds i bits shift result : ℕ) (v : ℤ) (rest : Bytes)
    → shift ≡ 7 * i
    → shift < bits
    → bits ≤ 64
    → result < 2 ^ shift
    → size v < 64
    → InRange bits (behind_bits result (2 ^ shift) v)
    → Takes
        (sleb_rounds bits (suc rounds) shift result)
        (group v ∷ rest)
        (behind_bits result (2 ^ shift) v)
        rest
final_group rounds i bits shift result v rest step begun wide low small range =
    elim (dec_lt shift 57) [
      | yes inner ↦ last_group bits rounds shift result v rest low (omega arith) small range
      | no top ↦
          let at_top : shift ≡ 63 = omega arith in
          let full : bits ≡ 64 = omega arith in
          rw (at_top, full)
            (top_byte rounds result v rest (rw at_top at low) (rw (at_top, full) at range))
    ]

sleb_rounds-groups :
    (k i bits shift result : ℕ) (v : ℤ) (rest : Bytes)
    → shift ≡ 7 * i
    → shift < bits
    → bits ≤ 64
    → bits ≤ shift + 7 * suc k
    → result < 2 ^ shift
    → InRange bits (behind_bits result (2 ^ shift) v)
    → Takes
        (sleb_rounds bits (suc k) shift result)
        (signed_groups k v ++ rest)
        (behind_bits result (2 ^ shift) v)
        rest
unfolding signed_groups
sleb_rounds-groups zero i bits shift result v rest step begun wide enough low range =
    elim (dec_lt (size v) 64) [
      | yes small ↦ final_group 0 i bits shift result v rest step begun wide low small range
      | no more ↦
          let longer = more_room bits result shift v low (omega arith) range in absurd (omega arith)
    ]
sleb_rounds-groups (suc k) i bits shift result v rest step begun wide enough low range =
    elim (Bool-cases (ltb (size v) 64)) [
      | inl last ↦
          rw last (
            final_group (suc k) i bits shift result v rest step begun wide low (ground arith) range)
      | inr more ↦
          let longer = more_room bits result shift v low (ground arith) range in
          let weight = pow-add shift 7 in
          rw more (
            inner_group bits (suc k) shift result (group v) (signed_groups k (above v) ++ rest) rest
              low (omega arith) (group_small v)
              (let placed_above = behind_above result (2 ^ shift) v in
                rw (weight, placed_above) at
                  (sleb_rounds-groups k (suc i) bits (shift + 7) (result + group v * 2 ^ shift)
                    (above v) rest (omega arith) longer wide (omega arith)
                    (below_next result (group v) shift low (group_small v))
                    (rw (weight, placed_above) range))))
    ]

from_zero : (v : ℤ) → behind_bits 0 1 v ≡ v
from_zero (pos n) = ap pos (omega arith)
from_zero (negsuc n) = ap negsuc (omega arith)

pub sleb-Takes :
    (bits : ℕ) (v : ℤ) (rest : Bytes)
    → 0 < bits
    → bits ≤ 64
    → InRange bits v
    → Takes (sleb bits) (signed_encoding v ++ rest) v rest
unfolding sleb signed_encoding
sleb-Takes bits v rest positive wide range = go ((bits + 6) / 7) refl
  where
    go :
        (n : ℕ)
        → (bits + 6) / 7 ≡ n
        → Takes (sleb_rounds bits n 0 0) (signed_groups 9 v ++ rest) v rest
    go zero e = absurd (omega arith)
    go (suc k) e =
        let power =
          pow-le-pow_right {n = 2} (omega arith) {i = bits - 1} {j = 7 * k + 6} (omega arith) in
        let fits : size v < 64 * 128 ^ k = omega (arith, pow-add (7 * k) 6, seven_bits k) in
        rw (signed_groups-extra k 9 v fits (omega arith)) (
          rw (from_zero v) at (
            sleb_rounds-groups k 0 bits 0 0 v rest (omega arith) positive wide (omega arith)
              (omega arith) (rw (from_zero v) range)))
