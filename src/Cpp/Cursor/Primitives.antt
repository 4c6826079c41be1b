-- ===== src/Cpp/Cursor/Primitives.antt =====
-- The typed methods of `Decoder` on an address read what they read from the bytes there.
use Prim.Native.Nat.{bit_and, bit_or}
use crabcraft.Prelude.{
  ℕ, zero, suc, ◌+◌, ◌*◌, ◌/◌, ◌%◌, ◌^◌, Bool, true, false, none, some, [], ◌∷◌, inl, inr, ◌==◌,
  codes,
}
use crabcraft.Cpp.Decoder.{
  Decode, sleb, sleb_rounds, sleb_end, bool, u8, u16, u32, u64, s8, s16, s32, s64, f32, f64, char,
  list_len, option_tag, result_tag, variant_case, enum_case, flags,
}
use crabcraft.Cpp.Primitive.{
  Primitive, decode_primitive, boolean, unsigned_8, unsigned_16, unsigned_32, unsigned_64, signed_8,
  signed_16, signed_32, signed_64, float, double, scalar, text, list_count, option_mark,
  result_mark, variant_of, enum_of, flags_of,
}
use crabcraft.Cpp.Wire.{WireType, primitive, option_type, list_type, tuple_type, result_type}
use crabcraft.Cpp.Wire.Decode.{decode_all, decode_wire, decode_present, decode_side}
use crabcraft.Cpp.Cursor.{Scan}
use crabcraft.Cpp.Cursor.Signed.{sleb_at, sleb_rounds_at, sleb_end_at}
use crabcraft.Cpp.Cursor.Typed.{
  unsigned_at, signed_at, f32_at, f64_at, char_at, variant_case_at, enum_case_at, flags_at,
  primitive_at, all_at, present_at, side_at, wire_at,
}
use crabcraft.Cpp.Cursor.Agrees.{Agrees, Agrees-bind, Agrees-if, pure-Agrees, refuse-Agrees}
use crabcraft.Cpp.Cursor.Methods.{byte-Agrees, uleb-Agrees, prefix_bit-Agrees}
use crabcraft.Cpp.Cursor.Strings.{read-Agrees, string-Agrees}

sleb_end-Agrees :
    (bits byte shift result : ℕ)
    → Agrees (sleb_end_at bits byte shift result) (sleb_end bits byte shift result)
unfolding sleb_end_at sleb_end
sleb_end-Agrees bits byte shift result = Agrees-if _ (refuse-Agrees _) (pure-Agrees _)

sleb_rounds-Agrees :
    (bits rounds shift result : ℕ)
    → Agrees (sleb_rounds_at bits rounds shift result) (sleb_rounds bits rounds shift result)
unfolding sleb_rounds_at sleb_rounds
sleb_rounds-Agrees bits zero shift result = refuse-Agrees _
sleb_rounds-Agrees bits (suc rounds) shift result = Agrees-bind byte-Agrees (λ b.
    Agrees-if (shift == 63) (Agrees-if _ (refuse-Agrees _) (pure-Agrees _)) (
      Agrees-if (bit_and b 0x80 == 0) (sleb_end-Agrees bits b (shift + 7) _) (
        sleb_rounds-Agrees bits rounds (shift + 7)
          (bit_or result (bit_and b 0x7f * 2 ^ shift % 2 ^ 64)))))

sleb-Agrees : (bits : ℕ) → Agrees (sleb_at bits) (sleb bits)
unfolding sleb_at sleb
sleb-Agrees bits = sleb_rounds-Agrees bits ((bits + 6) / 7) 0 0

pub primitive-Agrees : (p : Primitive) → Agrees (primitive_at p) (decode_primitive p)
unfolding unsigned_at signed_at f32_at f64_at char_at variant_case_at enum_case_at flags_at bool u8
    u16 u32 u64 s8 s16 s32 s64 f32 f64 char list_len option_tag result_tag variant_case enum_case
    flags
primitive-Agrees boolean = prefix_bit-Agrees (codes "bool")
primitive-Agrees option_mark = prefix_bit-Agrees (codes "option")
primitive-Agrees result_mark = prefix_bit-Agrees (codes "result")
primitive-Agrees unsigned_8 = Agrees-bind (uleb-Agrees 8) (λ v. pure-Agrees _)
primitive-Agrees unsigned_16 = Agrees-bind (uleb-Agrees 16) (λ v. pure-Agrees _)
primitive-Agrees unsigned_32 = Agrees-bind (uleb-Agrees 32) (λ v. pure-Agrees _)
primitive-Agrees unsigned_64 = uleb-Agrees 64
primitive-Agrees signed_8 = Agrees-bind (sleb-Agrees 8) (λ v. pure-Agrees _)
primitive-Agrees signed_16 = Agrees-bind (sleb-Agrees 16) (λ v. pure-Agrees _)
primitive-Agrees signed_32 = Agrees-bind (sleb-Agrees 32) (λ v. pure-Agrees _)
primitive-Agrees signed_64 = sleb-Agrees 64
primitive-Agrees float = Agrees-bind (read-Agrees 4) (λ b. pure-Agrees _)
primitive-Agrees double = Agrees-bind (read-Agrees 8) (λ b. pure-Agrees _)
primitive-Agrees scalar =
    Agrees-bind (uleb-Agrees 21) (λ s. Agrees-if _ (refuse-Agrees _) (pure-Agrees _))
primitive-Agrees text = string-Agrees
primitive-Agrees list_count = Agrees-bind (uleb-Agrees 32) (λ v. pure-Agrees _)
primitive-Agrees (variant_of n) =
    Agrees-bind (uleb-Agrees 32) (λ v. Agrees-if _ (refuse-Agrees _) (pure-Agrees _))
primitive-Agrees (enum_of n) =
    Agrees-bind (uleb-Agrees 32) (λ v. Agrees-if _ (refuse-Agrees _) (pure-Agrees _))
primitive-Agrees (flags_of n) =
    Agrees-bind (read-Agrees _) (λ b. Agrees-if _ (refuse-Agrees _) (pure-Agrees _))

all-Agrees :
    {A : Type 0} (n : ℕ) {s : Scan A} {g : Decode A}
    → Agrees s g
    → Agrees (all_at n s) (decode_all n g)
unfolding all_at decode_all
all-Agrees zero h = pure-Agrees []
all-Agrees (suc n) h =
    Agrees-bind h (λ x. Agrees-bind (all-Agrees n h) (λ xs. pure-Agrees (x ∷ xs)))

present-Agrees :
    {A : Type 0} {s : Scan A} {g : Decode A} (b : Bool)
    → Agrees s g
    → Agrees (present_at s b) (decode_present g b)
present-Agrees true h = Agrees-bind h (λ x. pure-Agrees (some x))
present-Agrees false h = pure-Agrees none

side-Agrees :
    {A B : Type 0} {s : Scan A} {g : Decode A} {t : Scan B} {h : Decode B} (b : Bool)
    → Agrees s g
    → Agrees t h
    → Agrees (side_at s t b) (decode_side g h b)
side-Agrees true p q = Agrees-bind q (λ e. pure-Agrees (inr e))
side-Agrees false p q = Agrees-bind p (λ x. pure-Agrees (inl x))

-- Whatever lies in memory, a buffer inside it and any type: reading through the pointer gives what reading
-- the bytes gives, errors and faults included, and ends at the same position.
pub wire-Agrees : (t : WireType) → Agrees (wire_at t) (decode_wire t)
unfolding wire_at decode_wire option_tag result_tag list_len unsigned_at
wire-Agrees (primitive p) = primitive-Agrees p
wire-Agrees (option_type t) =
    Agrees-bind (primitive-Agrees option_mark) (λ b. present-Agrees b (wire-Agrees t))
wire-Agrees (list_type t) =
    Agrees-bind (primitive-Agrees list_count) (λ n. all-Agrees n (wire-Agrees t))
wire-Agrees (tuple_type t u) =
    Agrees-bind (wire-Agrees t) (λ x. Agrees-bind (wire-Agrees u) (λ y. pure-Agrees (x, y)))
wire-Agrees (result_type t u) =
    Agrees-bind (primitive-Agrees result_mark) (λ b. side-Agrees b (wire-Agrees t) (wire-Agrees u))
