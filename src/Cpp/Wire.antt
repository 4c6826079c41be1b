-- ===== src/Cpp/Wire.antt =====
-- Values of composite types, as tools/crabgen/templates/cpp/crab.hpp asks generated bindings to encode them with the
-- primitives, and as tools/crabgen/tests/golden/cpp/full/gen/bindings.cpp does: options, lists, tuples and results.
pub mod Decode
pub mod RoundTrip
use crabcraft.Prelude.{
  ℕ, true, false, Option, none, some, List, [], ◌∷◌, ◌⊎◌, inl, inr, Bytes, length, Outcome, done,
  fault, ◌>>=◌,
}
use crabcraft.Cpp.Encode.{encode_option_tag, encode_result_tag, encode_list_len}
use crabcraft.Cpp.Primitive.{Primitive, Value, encode_primitive}

pub data WireType : Type 0 where
  primitive : Primitive → WireType
  option_type list_type : WireType → WireType
  tuple_type result_type : WireType → WireType → WireType

-- The values of a type. A record is a tuple of its fields.
abbrev pub Content : WireType → Type 0
Content (primitive p) = Value p
Content (option_type t) = Option (Content t)
Content (list_type t) = List (Content t)
Content (tuple_type t u) = Content t × Content u
Content (result_type t u) = Content t ⊎ Content u

-- `for (const auto& x0 : v) { ... }`
unfoldable pub encode_all :
    {A : Type 0} → (Bytes → A → Outcome Bytes) → Bytes → List A → Outcome Bytes
encode_all f out [] = done out
encode_all f out (x ∷ xs) = elim (f out x) [ fault e ↦ fault e | done out' ↦ encode_all f out' xs ]

unfoldable pub encode_wire : (t : WireType) → Bytes → Content t → Outcome Bytes
encode_wire (primitive p) out v = encode_primitive p out v
encode_wire (option_type t) out none = done (encode_option_tag out false)
encode_wire (option_type t) out (some x) = encode_wire t (encode_option_tag out true) x
encode_wire (list_type t) out xs = do
  out' ← encode_list_len out (length xs)
  encode_all (encode_wire t) out' xs
encode_wire (tuple_type t u) out (x, y) = do out' ← encode_wire t out x; encode_wire u out' y
encode_wire (result_type t u) out (inl x) = encode_wire t (encode_result_tag out false) x
encode_wire (result_type t u) out (inr e) = encode_wire u (encode_result_tag out true) e
