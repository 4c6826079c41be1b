-- ===== src/Cpp/Decoder/Flags.antt =====
-- `EncodeFlags` and `Decoder::Flags` of tools/crabgen/templates/cpp/crab.cpp: one bit for each flag.
use crabcraft.Prelude.{
  ℕ, ◌+◌, ◌-◌, ◌/◌, ◌%◌, ◌^◌, ◌≡◌, refl, ◌∙◌, ap, arith, Bool, false, not, ◌&&◌, List, [], ◌++◌,
  Bytes, length, get_or, ◌==◌, Bool-cases, inl, inr,
}
use native.Mathlib.Nat.{one-le-pow, div-eq_of_lt, zero-div}
use crabcraft.Cpp.Res.{ok}
use crabcraft.Cpp.Encode.{zeros, set_flags, encode_flags}
use crabcraft.Cpp.Decoder.{Decoder, flags, get_flags}
use crabcraft.Cpp.Decoder.Reads.{IsDecoder, left, Meets}
use crabcraft.Cpp.Decoder.Takes.{Takes, pure-Takes, Takes-bind}
use crabcraft.Cpp.Decoder.Fixed.{bytes-Takes}
use crabcraft.Cpp.Decoder.FlagBits.{
  flag_at, set_flags-append, flag_of, flag_at-set_flags, get_flags-flag_of, byte_at-zeros,
  length-zeros, length-set_flags, unused_bits,
}

-- The bytes of the flags.
abbrev pub flag_bytes : List Bool → Bytes
flag_bytes xs = set_flags (zeros ((length xs + 7) / 8)) 0 0 xs

length-flag_bytes : (xs : List Bool) → length (flag_bytes xs) ≡ (length xs + 7) / 8
length-flag_bytes xs =
    length-set_flags xs (zeros ((length xs + 7) / 8)) 0 ∙ length-zeros ((length xs + 7) / 8)

nothing_unused :
    (xs : List Bool)
    → (not (length xs % 8 == 0)
        && not (get_or (flag_bytes xs) ((length xs + 7) / 8 - 1) 0 / 2 ^ (length xs % 8) == 0))
      ≡ false
nothing_unused xs = elim (Bool-cases (length xs % 8 == 0)) [
  | inl whole ↦ rw whole
  | inr partial ↦
      let count = (length xs + 7) / 8 in
      let positive = one-le-pow (length xs % 8) 2 (omega arith) in
      let last : count - 1 ≡ length xs / 8 = ground arith in
      let low =
        unused_bits xs (zeros count) 0 (length xs / 8) (length xs % 8)
          (omega (arith, byte_at-zeros count (length xs / 8))) (omega arith)
          (omega (arith, length-zeros count)) in
      let none_left = div-eq_of_lt low in rw (partial, last, none_left)
]

flag_at-zeros : (n j : ℕ) → flag_at (zeros n) j ≡ 0
flag_at-zeros n j = rw (byte_at-zeros n (j / 8), zero-div (2 ^ (j % 8))) refl

pub flags-Takes :
    (xs : List Bool) (rest : Bytes) → Takes (flags (length xs)) (flag_bytes xs ++ rest) xs rest
unfolding flags
flags-Takes xs rest =
    let count = (length xs + 7) / 8 in
    let read : get_flags (flag_bytes xs) (length xs) 0 ≡ xs =
      get_flags-flag_of xs (flag_bytes xs) 0 (λ j later.
        flag_at-set_flags xs (zeros count) 0 j (omega (arith, length-zeros count))
        ∙ ap (λ (old : ℕ). flag_of xs 0 j old) (flag_at-zeros count j)) in
    Takes-bind _ (bytes-Takes count (flag_bytes xs) rest (length-flag_bytes xs))
      (rw (nothing_unused xs, read) (pure-Takes xs rest))

pub encode_flags_lem : (out : Bytes) (xs : List Bool) → encode_flags out xs ≡ out ++ flag_bytes xs
unfolding encode_flags
encode_flags_lem out xs = set_flags-append out (zeros ((length xs + 7) / 8)) 0 xs

-- Any list of flags: its encoder appends as many bytes as the flags need, whatever was there before.
-- A decoder for that many flags that stands before these bytes, whatever comes behind them, gives the
-- flags and stands behind them.
pub flags_round_trip :
    (xs : List Bool) (out rest : Bytes) (d : Decoder)
    → IsDecoder d
    → left d ≡ encode_flags [] xs ++ rest
    → (encode_flags out xs ≡ out ++ encode_flags [] xs)
      × (length (encode_flags [] xs) ≡ (length xs + 7) / 8)
      × Meets (flags (length xs) d) (ok (xs, rest))
unfolding encode_flags
flags_round_trip xs out rest d valid begins =
    (encode_flags_lem out xs, length-flag_bytes xs, (flags-Takes xs rest).run d valid begins)
