-- ===== src/Cpp/Primitive.antt =====
-- The primitives that generated bindings put together, as tools/crabgen/templates/cpp/crab.hpp lists them: an
-- encoder and a method of `Decoder` for each kind of value.
pub mod RoundTrip
use crabcraft.Prelude.{ℕ, Bool, List, Bytes, Outcome, done}
use crabcraft.Format.{ℤ}
use crabcraft.Cpp.Encode.{
  encode_bool, encode_u8, encode_u16, encode_u32, encode_u64, encode_s8, encode_s16, encode_s32,
  encode_s64, encode_f32, encode_f64, encode_char, encode_string, encode_list_len, encode_case,
  encode_option_tag, encode_result_tag, encode_flags,
}
use crabcraft.Cpp.Decoder.{
  Decode, bool, u8, u16, u32, u64, s8, s16, s32, s64, f32, f64, char, string, list_len, option_tag,
  result_tag, variant_case, enum_case, flags,
}

pub data Primitive : Type 0 where
  boolean unsigned_8 unsigned_16 unsigned_32 unsigned_64 signed_8 signed_16 signed_32 signed_64
        float double scalar text list_count option_mark result_mark :
      Primitive
  -- A case of so many.
  variant_of enum_of : ℕ → Primitive
  -- So many flags.
  flags_of : ℕ → Primitive

abbrev pub Value : Primitive → Type 0
Value boolean = Bool
Value option_mark = Bool
Value result_mark = Bool
Value signed_8 = ℤ
Value signed_16 = ℤ
Value signed_32 = ℤ
Value signed_64 = ℤ
Value text = Bytes
Value unsigned_8 = ℕ
Value unsigned_16 = ℕ
Value unsigned_32 = ℕ
Value unsigned_64 = ℕ
Value float = ℕ
Value double = ℕ
Value scalar = ℕ
Value list_count = ℕ
Value (variant_of n) = ℕ
Value (enum_of n) = ℕ
Value (flags_of n) = List Bool

abbrev pub encode_primitive : (p : Primitive) → Bytes → Value p → Outcome Bytes
encode_primitive boolean out v = done (encode_bool out v)
encode_primitive option_mark out v = done (encode_option_tag out v)
encode_primitive result_mark out v = done (encode_result_tag out v)
encode_primitive unsigned_8 out v = encode_u8 out v
encode_primitive unsigned_16 out v = encode_u16 out v
encode_primitive unsigned_32 out v = encode_u32 out v
encode_primitive unsigned_64 out v = encode_u64 out v
encode_primitive signed_8 out v = encode_s8 out v
encode_primitive signed_16 out v = encode_s16 out v
encode_primitive signed_32 out v = encode_s32 out v
encode_primitive signed_64 out v = encode_s64 out v
encode_primitive float out v = done (encode_f32 out v)
encode_primitive double out v = done (encode_f64 out v)
encode_primitive scalar out v = encode_char out v
encode_primitive text out v = encode_string out v
encode_primitive list_count out v = encode_list_len out v
encode_primitive (variant_of n) out v = encode_case out v
encode_primitive (enum_of n) out v = encode_case out v
encode_primitive (flags_of n) out v = done (encode_flags out v)

abbrev pub decode_primitive : (p : Primitive) → Decode (Value p)
decode_primitive boolean = bool
decode_primitive option_mark = option_tag
decode_primitive result_mark = result_tag
decode_primitive unsigned_8 = u8
decode_primitive unsigned_16 = u16
decode_primitive unsigned_32 = u32
decode_primitive unsigned_64 = u64
decode_primitive signed_8 = s8
decode_primitive signed_16 = s16
decode_primitive signed_32 = s32
decode_primitive signed_64 = s64
decode_primitive float = f32
decode_primitive double = f64
decode_primitive scalar = char
decode_primitive text = string
decode_primitive list_count = list_len
decode_primitive (variant_of n) = variant_case n
decode_primitive (enum_of n) = enum_case n
decode_primitive (flags_of n) = flags n
