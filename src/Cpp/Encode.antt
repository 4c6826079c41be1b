-- ===== src/Cpp/Encode.antt =====
-- The encoder of tools/crabgen/templates/cpp/crab.cpp. A vector that is appended to is passed on. A
-- `float` and a `double` are their IEEE-754 bits, an `int64_t` is an integer.
pub mod Uleb
pub mod Sleb
use Prim.Native.Nat.{bit_and, bit_or}
use crabcraft.Prelude.{
  ℕ, zero, suc, ◌+◌, ◌-◌, ◌*◌, ◌/◌, ◌%◌, ◌^◌, Bool, true, false, not, ◌&&◌, ◌||◌, List, [], ◌∷◌,
  ◌++◌, Bytes, length, get_or, ◌==◌, if◌then◌else◌, Outcome, done, fault, endless, ◌>>=◌,
}
use crabcraft.Format.{ℤ, pos, negsuc}

abbrev pub push_back : Bytes → ℕ → Bytes
push_back out b = out ++ (b ∷ [])

-- `for (;;)` within `rounds` rounds.
unfoldable pub encode_uleb_rounds : ℕ → Bytes → ℕ → Outcome Bytes
encode_uleb_rounds zero out v = fault endless
encode_uleb_rounds (suc rounds) out v =
    let b = bit_and v 0x7f in
    let rest = encode_uleb_rounds rounds (push_back out (bit_or b 0x80)) (v / 2 ^ 7) in
    if v / 2 ^ 7 == 0 then done (push_back out b) else rest

-- Ten groups of seven bits hold 64 bits.
unfoldable pub encode_uleb : Bytes → ℕ → Outcome Bytes
encode_uleb out v = encode_uleb_rounds 10 out v

-- `v & 0x7f`, in two's complement.
unfoldable pub low_bits : ℤ → ℕ
low_bits (pos n) = n % 128
low_bits (negsuc n) = 127 - n % 128

-- `v >> 7`, which propagates the sign.
unfoldable pub shift_right : ℤ → ℤ
shift_right (pos n) = pos (n / 128)
shift_right (negsuc n) = negsuc (n / 128)

-- `(v == 0 && !sign) || (v == -1 && sign)`
unfoldable pub is_last : ℤ → Bool → Bool
is_last (pos n) sign = n == 0 && not sign
is_last (negsuc n) sign = n == 0 && sign

-- `for (;;)` within `rounds` rounds.
unfoldable pub encode_sleb_rounds : ℕ → Bytes → ℤ → Outcome Bytes
unfolding low_bits shift_right is_last
encode_sleb_rounds zero out v = fault endless
encode_sleb_rounds (suc rounds) out v =
    let b = low_bits v in
    let v' = shift_right v in
    let sign = not (bit_and b 0x40 == 0) in
    let rest = encode_sleb_rounds rounds (push_back out (bit_or b 0x80)) v' in
    if is_last v' sign then done (push_back out b) else rest

unfoldable pub encode_sleb : Bytes → ℤ → Outcome Bytes
encode_sleb out v = encode_sleb_rounds 10 out v

unfoldable pub encode_bool : Bytes → Bool → Bytes
encode_bool out v = push_back out (if v then 1 else 0)

unfoldable pub encode_u8 : Bytes → ℕ → Outcome Bytes
encode_u8 out v = encode_uleb out v

unfoldable pub encode_u16 : Bytes → ℕ → Outcome Bytes
encode_u16 out v = encode_uleb out v

unfoldable pub encode_u32 : Bytes → ℕ → Outcome Bytes
encode_u32 out v = encode_uleb out v

unfoldable pub encode_u64 : Bytes → ℕ → Outcome Bytes
encode_u64 out v = encode_uleb out v

unfoldable pub encode_s8 : Bytes → ℤ → Outcome Bytes
encode_s8 out v = encode_sleb out v

unfoldable pub encode_s16 : Bytes → ℤ → Outcome Bytes
encode_s16 out v = encode_sleb out v

unfoldable pub encode_s32 : Bytes → ℤ → Outcome Bytes
encode_s32 out v = encode_sleb out v

unfoldable pub encode_s64 : Bytes → ℤ → Outcome Bytes
encode_s64 out v = encode_sleb out v

unfoldable pub encode_f32 : Bytes → ℕ → Bytes
encode_f32 out bits =
    push_back
      (push_back (push_back (push_back out (bit_and bits 0xff)) (bit_and (bits / 2 ^ 8) 0xff))
        (bit_and (bits / 2 ^ 16) 0xff))
      (bit_and (bits / 2 ^ 24) 0xff)

-- `for (int i = 0; i < 8; i++)`: the rounds left, and `i`.
unfoldable pub encode_f64_rounds : ℕ → ℕ → Bytes → ℕ → Bytes
encode_f64_rounds zero i out bits = out
encode_f64_rounds (suc rounds) i out bits =
    encode_f64_rounds rounds (i + 1) (push_back out (bit_and (bits / 2 ^ (8 * i)) 0xff)) bits

unfoldable pub encode_f64 : Bytes → ℕ → Bytes
encode_f64 out bits = encode_f64_rounds 8 0 out bits

unfoldable pub encode_char : Bytes → ℕ → Outcome Bytes
encode_char out scalar = encode_uleb out scalar

unfoldable pub encode_string : Bytes → Bytes → Outcome Bytes
encode_string out s = do out' ← encode_uleb out (length s); done (out' ++ s)

unfoldable pub encode_list_len : Bytes → ℕ → Outcome Bytes
encode_list_len out n = encode_uleb out n

unfoldable pub encode_case : Bytes → ℕ → Outcome Bytes
encode_case out c = encode_uleb out c

unfoldable pub encode_option_tag : Bytes → Bool → Bytes
encode_option_tag out present = encode_bool out present

unfoldable pub encode_result_tag : Bytes → Bool → Bytes
encode_result_tag out is_err = encode_bool out is_err

abbrev pub zeros : ℕ → Bytes
zeros zero = []
zeros (suc n) = 0 ∷ zeros n

-- `out[i] |= mask`
unfoldable pub or_at : Bytes → ℕ → ℕ → Bytes
or_at [] i mask = []
or_at (c ∷ out) zero mask = bit_or c mask ∷ out
or_at (c ∷ out) (suc i) mask = c ∷ or_at out i mask

-- The loop over the flags, from number `i` on.
unfoldable pub set_flags : Bytes → ℕ → ℕ → List Bool → Bytes
set_flags out start i [] = out
set_flags out start i (flag ∷ bits) =
    set_flags (if flag then or_at out (start + i / 8) (2 ^ (i % 8)) else out) start (i + 1) bits

unfoldable pub encode_flags : Bytes → List Bool → Bytes
encode_flags out bits = set_flags (out ++ zeros ((length bits + 7) / 8)) (length out) 0 bits
