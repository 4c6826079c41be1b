-- ===== src/Cpp/Cursor/Typed.antt =====
-- The typed methods of `Decoder` of guest/hello-cpp/gen/crab.cpp on an address, and the composite types that
-- bindings read with them.
use Prim.Native.Nat.{bit_or}
use crabcraft.Prelude.{
  ℕ, zero, suc, ◌+◌, ◌-◌, ◌*◌, ◌/◌, ◌%◌, ◌^◌, Bool, true, false, not, ◌&&◌, ◌||◌, Option, none,
  some, List, [], ◌∷◌, ◌⊎◌, inl, inr, ◌==◌, codes, ◌++◌, get_or, ltb, leb, if◌then◌else◌,
}
use crabcraft.Format.{ℤ, pos, decimal}
use crabcraft.Cpp.Decoder.{cast, little_endian, get_flags}
use crabcraft.Cpp.Primitive.{
  Primitive, Value, boolean, unsigned_8, unsigned_16, unsigned_32, unsigned_64, signed_8, signed_16,
  signed_32, signed_64, float, double, scalar, text, list_count, option_mark, result_mark,
  variant_of, enum_of, flags_of,
}
use crabcraft.Cpp.Wire.{
  WireType, primitive, option_type, list_type, tuple_type, result_type, Content,
}
use crabcraft.Cpp.Cursor.{
  Scan, pure_at, refuse_at, read_at, uleb_at, prefix_bit_at, string_at, ◌>>=◌,
}
use crabcraft.Cpp.Cursor.Signed.{sleb_at}

-- `U8` to `U32` and `ListLen`: `(uint8_t)v.val` and its like.
unfoldable pub unsigned_at : ℕ → Scan ℕ
unsigned_at bits = do v ← uleb_at bits; pure_at (v % 2 ^ bits)

-- `S8` to `S32`.
unfoldable pub signed_at : ℕ → Scan ℤ
signed_at bits = do v ← sleb_at bits; pure_at (cast bits v)

-- The bits of the `float`.
unfoldable pub f32_at : Scan ℕ
f32_at = do
  b ← read_at 4
  pure_at (
      bit_or (bit_or (bit_or (get_or b 0 0) (get_or b 1 0 * 2 ^ 8)) (get_or b 2 0 * 2 ^ 16))
        (get_or b 3 0 * 2 ^ 24))

unfoldable pub f64_at : Scan ℕ
f64_at = do b ← read_at 8; pure_at (little_endian b 0 0)

unfoldable pub char_at : Scan ℕ
char_at = do
  s ← uleb_at 21
  if ltb 0x10ffff s || (leb 0xd800 s && leb s 0xdfff)
      then refuse_at (codes "invalid char scalar: " ++ decimal (pos s))
      else pure_at (s % 2 ^ 32)

unfoldable pub variant_case_at : ℕ → Scan ℕ
variant_case_at num_cases = do
  v ← uleb_at 32
  if leb num_cases v
      then refuse_at (codes "variant case out of range: " ++ decimal (pos v))
      else pure_at (v % 2 ^ 32)

unfoldable pub enum_case_at : ℕ → Scan ℕ
enum_case_at num_cases = do
  v ← uleb_at 32
  if leb num_cases v
      then refuse_at (codes "enum case out of range: " ++ decimal (pos v))
      else pure_at (v % 2 ^ 32)

unfoldable pub flags_at : ℕ → Scan (List Bool)
flags_at n = do
  b ← read_at ((n + 7) / 8)
  if not (n % 8 == 0) && not (get_or b ((n + 7) / 8 - 1) 0 / 2 ^ (n % 8) == 0)
      then refuse_at (codes "flags: unused high bits set")
      else pure_at (get_flags b n 0)

abbrev pub primitive_at : (p : Primitive) → Scan (Value p)
primitive_at boolean = prefix_bit_at (codes "bool")
primitive_at option_mark = prefix_bit_at (codes "option")
primitive_at result_mark = prefix_bit_at (codes "result")
primitive_at unsigned_8 = unsigned_at 8
primitive_at unsigned_16 = unsigned_at 16
primitive_at unsigned_32 = unsigned_at 32
primitive_at unsigned_64 = uleb_at 64
primitive_at signed_8 = signed_at 8
primitive_at signed_16 = signed_at 16
primitive_at signed_32 = signed_at 32
primitive_at signed_64 = sleb_at 64
primitive_at float = f32_at
primitive_at double = f64_at
primitive_at scalar = char_at
primitive_at text = string_at
primitive_at list_count = unsigned_at 32
primitive_at (variant_of n) = variant_case_at n
primitive_at (enum_of n) = enum_case_at n
primitive_at (flags_of n) = flags_at n

unfoldable pub all_at : {A : Type 0} → ℕ → Scan A → Scan (List A)
all_at zero s = pure_at []
all_at (suc n) s = do x ← s; xs ← all_at n s; pure_at (x ∷ xs)

abbrev pub present_at : {A : Type 0} → Scan A → Bool → Scan (Option A)
present_at s true = do x ← s; pure_at (some x)
present_at s false = pure_at none

abbrev pub side_at : {A B : Type 0} → Scan A → Scan B → Bool → Scan (A ⊎ B)
side_at s t true = do e ← t; pure_at (inr e)
side_at s t false = do x ← s; pure_at (inl x)

unfoldable pub wire_at : (t : WireType) → Scan (Content t)
wire_at (primitive p) = primitive_at p
wire_at (option_type t) = do
  present ← prefix_bit_at (codes "option")
  present_at (wire_at t) present
wire_at (list_type t) = do n ← unsigned_at 32; all_at n (wire_at t)
wire_at (tuple_type t u) = do x ← wire_at t; y ← wire_at u; pure_at (x, y)
wire_at (result_type t u) = do
  is_err ← prefix_bit_at (codes "result")
  side_at (wire_at t) (wire_at u) is_err
