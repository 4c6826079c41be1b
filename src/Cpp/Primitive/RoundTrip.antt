-- ===== src/Cpp/Primitive/RoundTrip.antt =====
-- What each encoder of the C++ runtime appends, and that its decoder gives the value back.
use crabcraft.Prelude.{
  ℕ, ◌%◌, ◌^◌, ◌≤◌, ◌<◌, ◌≡◌, refl, ap, arith, Bool, false, ◌&&◌, [], ◌∷◌, ◌++◌, Bytes, codes,
  length, ltb, leb, done,
}
use native.Mathlib.Nat.{mod-eq_of_lt}
use crabcraft.Format.{ℤ, pos, negsuc}
use crabcraft.Uleb.Encode.{encoding}
use crabcraft.Reply.Frame.{le32, wire_string}
use crabcraft.Cpp.Utf8.Scalars.{IsScalar}
use crabcraft.Cpp.Utf8.Whole.{IsUtf8}
use crabcraft.Cpp.Encode.{
  encode_bool, encode_u8, encode_u16, encode_u32, encode_u64, encode_s8, encode_s16, encode_s32,
  encode_s64, encode_char, encode_list_len, encode_case, encode_option_tag, encode_result_tag,
}
use crabcraft.Cpp.Encode.Uleb.{encode_uleb_lem}
use crabcraft.Cpp.Encode.Sleb.{signed_encoding, encode_sleb_lem, size}
use crabcraft.Cpp.Decoder.{
  Decode, uleb, sleb, bool, u8, u16, u32, u64, cast, s8, s16, s32, s64, prefix_bit, char, list_len,
  option_tag, result_tag, variant_case, enum_case, pure, ◌>>=◌,
}
use crabcraft.Cpp.Decoder.Uleb.{uleb-Reads}
use crabcraft.Cpp.Decoder.RoundTrip.{read_uleb-encoding}
use crabcraft.Cpp.Decoder.Strings.{
  string-Reads, read_string-wire_string, encode_string_lem, prefix_bit-Reads, read_bit-byte,
  bit_byte,
}
use crabcraft.Cpp.Decoder.Takes.{Takes, pure-Takes, Reads-Takes, Takes-bind}
use crabcraft.Cpp.Decoder.SignBits.{InRange}
use crabcraft.Cpp.Decoder.Sleb.{sleb-Takes}
use crabcraft.Cpp.Decoder.Fixed.{low_bytes, f32-Takes, f64-Takes, encode_f32_lem, encode_f64_lem}
use crabcraft.Cpp.Decoder.Flags.{flag_bytes, flags-Takes, encode_flags_lem}
use crabcraft.Cpp.Primitive.{
  Primitive, Value, boolean, unsigned_8, unsigned_16, unsigned_32, unsigned_64, signed_8, signed_16,
  signed_32, signed_64, float, double, scalar, text, list_count, option_mark, result_mark,
  variant_of, enum_of, flags_of, encode_primitive, decode_primitive,
}

-- What the type of a value and the format allow.
abbrev pub IsValue : (p : Primitive) → Value p → Type 0
IsValue boolean v = Unit {0}
IsValue option_mark v = Unit {0}
IsValue result_mark v = Unit {0}
IsValue unsigned_8 v = v < 2 ^ 8
IsValue unsigned_16 v = v < 2 ^ 16
IsValue unsigned_32 v = v < 2 ^ 32
IsValue unsigned_64 v = v < 2 ^ 64
IsValue signed_8 v = size v < 2 ^ 7
IsValue signed_16 v = size v < 2 ^ 15
IsValue signed_32 v = size v < 2 ^ 31
IsValue signed_64 v = size v < 2 ^ 63
IsValue float v = v < 2 ^ 32
IsValue double v = v < 2 ^ 64
IsValue scalar v = IsScalar v
IsValue text v = IsUtf8 v × (length v < 2 ^ 32)
IsValue list_count v = v < 2 ^ 32
IsValue (variant_of n) v = (v < n) × (v < 2 ^ 32)
IsValue (enum_of n) v = (v < n) × (v < 2 ^ 32)
IsValue (flags_of n) xs = length xs ≡ n

-- The bytes of a value.
abbrev pub wire : (p : Primitive) → Value p → Bytes
wire boolean v = bit_byte v ∷ []
wire option_mark v = bit_byte v ∷ []
wire result_mark v = bit_byte v ∷ []
wire unsigned_8 v = encoding v
wire unsigned_16 v = encoding v
wire unsigned_32 v = encoding v
wire unsigned_64 v = encoding v
wire signed_8 v = signed_encoding v
wire signed_16 v = signed_encoding v
wire signed_32 v = signed_encoding v
wire signed_64 v = signed_encoding v
wire float v = le32 v
wire double v = low_bytes 8 v
wire scalar v = encoding v
wire text v = wire_string v
wire list_count v = encoding v
wire (variant_of n) v = encoding v
wire (enum_of n) v = encoding v
wire (flags_of n) xs = flag_bytes xs

bit-Takes :
    (what : Bytes) (v : Bool) (rest : Bytes) → Takes (prefix_bit what) (bit_byte v ∷ rest) v rest
bit-Takes what v rest = Reads-Takes (prefix_bit-Reads what) (read_bit-byte what v rest)

uleb-Takes :
    (bits v : ℕ) (rest : Bytes)
    → 0 < bits
    → bits ≤ 64
    → v < 2 ^ bits
    → Takes (uleb bits) (encoding v ++ rest) v rest
uleb-Takes bits v rest positive wide h =
    Reads-Takes (uleb-Reads bits positive wide) (read_uleb-encoding bits v rest wide positive h)

-- A method that reads an integer, and then makes the value of it.
uleb_then :
    (bits v : ℕ) (rest : Bytes) (f : ℕ → Decode ℕ)
    → 0 < bits
    → bits ≤ 64
    → v < 2 ^ bits
    → f v ≡ pure v
    → Takes (λ d. ◌>>=◌ (uleb bits) f d) (encoding v ++ rest) v rest
uleb_then bits v rest f positive wide h e =
    Takes-bind f (uleb-Takes bits v rest positive wide h) (rw e (pure-Takes v rest))

sleb_then :
    (bits : ℕ) (v : ℤ) (rest : Bytes) (f : ℤ → Decode ℤ)
    → 0 < bits
    → bits ≤ 64
    → InRange bits v
    → f v ≡ pure v
    → Takes (λ d. ◌>>=◌ (sleb bits) f d) (signed_encoding v ++ rest) v rest
sleb_then bits v rest f positive wide h e =
    Takes-bind f (sleb-Takes bits v rest positive wide h) (rw e (pure-Takes v rest))

cast_8 : (v : ℤ) → size v < 2 ^ 7 → cast 8 v ≡ v
unfolding cast
cast_8 (pos n) h = ground arith
cast_8 (negsuc n) h = ground arith

cast_16 : (v : ℤ) → size v < 2 ^ 15 → cast 16 v ≡ v
unfolding cast
cast_16 (pos n) h = ground arith
cast_16 (negsuc n) h = ground arith

cast_32 : (v : ℤ) → size v < 2 ^ 31 → cast 32 v ≡ v
unfolding cast
cast_32 (pos n) h = ground arith
cast_32 (negsuc n) h = ground arith

-- A number that the casts leave alone.
kept : (v bound : ℕ) → v < bound → pure (v % bound) ≡ pure v
kept v bound h =
    let same : v % bound ≡ v = mod-eq_of_lt {n = v} {m = bound} h in ap (λ (t : ℕ). pure t) same

char-Takes : (v : ℕ) (rest : Bytes) → IsScalar v → Takes char (encoding v ++ rest) v rest
unfolding char
char-Takes v rest (top, side) = uleb_then 21 v rest _ (omega arith) (omega arith) (omega arith) (
    let above : ltb 0x10ffff v ≡ false = ground arith in
    let surrogate : (leb 0xd800 v && leb v 0xdfff) ≡ false = ground arith in
    rw (above, surrogate) (kept v (2 ^ 32) (omega arith)))

variant_case-Takes :
    (n v : ℕ) (rest : Bytes)
    → v < n
    → v < 2 ^ 32
    → Takes (variant_case n) (encoding v ++ rest) v rest
unfolding variant_case
variant_case-Takes n v rest inside small =
    uleb_then 32 v rest _ (omega arith) (omega arith) small
      (let test : leb n v ≡ false = ground arith in rw test (kept v (2 ^ 32) small))

enum_case-Takes :
    (n v : ℕ) (rest : Bytes) → v < n → v < 2 ^ 32 → Takes (enum_case n) (encoding v ++ rest) v rest
unfolding enum_case
enum_case-Takes n v rest inside small =
    uleb_then 32 v rest _ (omega arith) (omega arith) small
      (let test : leb n v ≡ false = ground arith in rw test (kept v (2 ^ 32) small))

pub decode_primitive-Takes :
    (p : Primitive) (v : Value p) (rest : Bytes)
    → IsValue p v
    → Takes (decode_primitive p) (wire p v ++ rest) v rest
unfolding bool u8 u16 u32 u64 s8 s16 s32 s64 list_len option_tag result_tag
decode_primitive-Takes boolean v rest h = bit-Takes (codes "bool") v rest
decode_primitive-Takes option_mark v rest h = bit-Takes (codes "option") v rest
decode_primitive-Takes result_mark v rest h = bit-Takes (codes "result") v rest
decode_primitive-Takes unsigned_8 v rest h =
    uleb_then 8 v rest _ (omega arith) (omega arith) h (kept v (2 ^ 8) h)
decode_primitive-Takes unsigned_16 v rest h =
    uleb_then 16 v rest _ (omega arith) (omega arith) h (kept v (2 ^ 16) h)
decode_primitive-Takes unsigned_32 v rest h =
    uleb_then 32 v rest _ (omega arith) (omega arith) h (kept v (2 ^ 32) h)
decode_primitive-Takes unsigned_64 v rest h = uleb-Takes 64 v rest (omega arith) (omega arith) h
decode_primitive-Takes signed_8 v rest h =
    sleb_then 8 v rest _ (omega arith) (omega arith) h (ap (λ (t : ℤ). pure t) (cast_8 v h))
decode_primitive-Takes signed_16 v rest h =
    sleb_then 16 v rest _ (omega arith) (omega arith) h (ap (λ (t : ℤ). pure t) (cast_16 v h))
decode_primitive-Takes signed_32 v rest h =
    sleb_then 32 v rest _ (omega arith) (omega arith) h (ap (λ (t : ℤ). pure t) (cast_32 v h))
decode_primitive-Takes signed_64 v rest h = sleb-Takes 64 v rest (omega arith) (omega arith) h
decode_primitive-Takes float v rest h = f32-Takes v rest h
decode_primitive-Takes double v rest h = f64-Takes v rest h
decode_primitive-Takes scalar v rest h = char-Takes v rest h
decode_primitive-Takes text v rest (good, small) =
    Reads-Takes string-Reads (read_string-wire_string v rest good small)
decode_primitive-Takes list_count v rest h =
    uleb_then 32 v rest _ (omega arith) (omega arith) h (kept v (2 ^ 32) h)
decode_primitive-Takes (variant_of n) v rest (inside, small) =
    variant_case-Takes n v rest inside small
decode_primitive-Takes (enum_of n) v rest (inside, small) = enum_case-Takes n v rest inside small
decode_primitive-Takes (flags_of n) xs rest h = rw (← h) (flags-Takes xs rest)

pub encode_primitive_lem :
    (p : Primitive) (out : Bytes) (v : Value p)
    → IsValue p v
    → encode_primitive p out v ≡ done (out ++ wire p v)
unfolding encode_u8 encode_u16 encode_u32 encode_u64 encode_s8 encode_s16 encode_s32 encode_s64
    encode_char encode_list_len encode_case encode_option_tag encode_result_tag encode_bool
encode_primitive_lem boolean out v h = refl
encode_primitive_lem option_mark out v h = refl
encode_primitive_lem result_mark out v h = refl
encode_primitive_lem unsigned_8 out v h = encode_uleb_lem out v (omega arith)
encode_primitive_lem unsigned_16 out v h = encode_uleb_lem out v (omega arith)
encode_primitive_lem unsigned_32 out v h = encode_uleb_lem out v (omega arith)
encode_primitive_lem unsigned_64 out v h = encode_uleb_lem out v h
encode_primitive_lem signed_8 out v h = encode_sleb_lem out v (omega arith)
encode_primitive_lem signed_16 out v h = encode_sleb_lem out v (omega arith)
encode_primitive_lem signed_32 out v h = encode_sleb_lem out v (omega arith)
encode_primitive_lem signed_64 out v h = encode_sleb_lem out v h
encode_primitive_lem float out v h = ap done (encode_f32_lem out v)
encode_primitive_lem double out v h = ap done (encode_f64_lem out v)
encode_primitive_lem scalar out v (top, side) = encode_uleb_lem out v (omega arith)
encode_primitive_lem text out v (good, small) = encode_string_lem out v small
encode_primitive_lem list_count out v h = encode_uleb_lem out v (omega arith)
encode_primitive_lem (variant_of n) out v (inside, small) = encode_uleb_lem out v (omega arith)
encode_primitive_lem (enum_of n) out v (inside, small) = encode_uleb_lem out v (omega arith)
encode_primitive_lem (flags_of n) out xs h = ap done (encode_flags_lem out xs)
