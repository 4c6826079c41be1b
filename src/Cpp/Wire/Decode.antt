-- ===== src/Cpp/Wire/Decode.antt =====
-- The decoders of composite types, as tools/crabgen/tests/golden/cpp/full/gen/bindings.cpp puts them together.
use crabcraft.Prelude.{
  ℕ, zero, suc, Bool, true, false, Option, none, some, List, [], ◌∷◌, ◌⊎◌, inl, inr,
}
use crabcraft.Cpp.Decoder.{Decode, pure, ◌>>=◌, list_len, option_tag, result_tag}
use crabcraft.Cpp.Primitive.{decode_primitive}
use crabcraft.Cpp.Wire.{
  WireType, primitive, option_type, list_type, tuple_type, result_type, Content,
}

-- `for (uint32_t i = 0; i < n; i++) { ... v.push_back(...); }`, with the rounds left.
unfoldable pub decode_all : {A : Type 0} → ℕ → Decode A → Decode (List A)
decode_all zero m = pure []
decode_all (suc n) m = do x ← m; xs ← decode_all n m; pure (x ∷ xs)

abbrev pub decode_present : {A : Type 0} → Decode A → Bool → Decode (Option A)
decode_present m true = do x ← m; pure (some x)
decode_present m false = pure none

abbrev pub decode_side : {A B : Type 0} → Decode A → Decode B → Bool → Decode (A ⊎ B)
decode_side m n true = do e ← n; pure (inr e)
decode_side m n false = do x ← m; pure (inl x)

unfoldable pub decode_wire : (t : WireType) → Decode (Content t)
decode_wire (primitive p) = decode_primitive p
decode_wire (option_type t) = do present ← option_tag; decode_present (decode_wire t) present
decode_wire (list_type t) = do n ← list_len; decode_all n (decode_wire t)
decode_wire (tuple_type t u) = do x ← decode_wire t; y ← decode_wire u; pure (x, y)
decode_wire (result_type t u) = do
  is_err ← result_tag
  decode_side (decode_wire t) (decode_wire u) is_err
