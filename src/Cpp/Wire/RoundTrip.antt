-- ===== src/Cpp/Wire/RoundTrip.antt =====
-- Values of any composite type are encoded and decoded again.
use crabcraft.Prelude.{
  ◌^◌, ◌<◌, ◌≡◌, refl, sym, ◌∙◌, ap, true, false, none, some, List, [], ◌∷◌, ◌++◌, append_assoc,
  append-nil, inl, inr, All, Bytes, length, Outcome, done,
}
use crabcraft.Uleb.Encode.{encoding}
use crabcraft.Cpp.Res.{ok}
use crabcraft.Cpp.Encode.{encode_option_tag, encode_result_tag, encode_bool}
use crabcraft.Cpp.Decoder.{Decoder, Decode}
use crabcraft.Cpp.Decoder.Reads.{IsDecoder, left, Meets}
use crabcraft.Cpp.Decoder.Takes.{Takes, pure-Takes, Takes-bind}
use crabcraft.Cpp.Primitive.{list_count, option_mark, result_mark}
use crabcraft.Cpp.Primitive.RoundTrip.{IsValue, wire, encode_primitive_lem, decode_primitive-Takes}
use crabcraft.Cpp.Wire.{
  WireType, primitive, option_type, list_type, tuple_type, result_type, Content, encode_all,
  encode_wire,
}
use crabcraft.Cpp.Wire.Decode.{decode_all, decode_wire}

-- All values in it are allowed, and lists are not too long.
abbrev pub IsContent : (t : WireType) → Content t → Type 0
IsContent (primitive p) v = IsValue p v
IsContent (option_type t) none = Unit {0}
IsContent (option_type t) (some x) = IsContent t x
IsContent (list_type t) xs = (length xs < 2 ^ 32) × All (IsContent t) xs
IsContent (tuple_type t u) (x, y) = IsContent t x × IsContent u y
IsContent (result_type t u) (inl x) = IsContent t x
IsContent (result_type t u) (inr e) = IsContent u e

abbrev pub concatenated : {A : Type 0} → (A → Bytes) → List A → Bytes
concatenated f [] = []
concatenated f (x ∷ xs) = f x ++ concatenated f xs

-- The bytes of a value.
abbrev pub wire_content : (t : WireType) → Content t → Bytes
wire_content (primitive p) v = wire p v
wire_content (option_type t) none = 0 ∷ []
wire_content (option_type t) (some x) = 1 ∷ wire_content t x
wire_content (list_type t) xs = encoding (length xs) ++ concatenated (wire_content t) xs
wire_content (tuple_type t u) (x, y) = wire_content t x ++ wire_content u y
wire_content (result_type t u) (inl x) = 0 ∷ wire_content t x
wire_content (result_type t u) (inr e) = 1 ∷ wire_content u e

encode_all_lem :
    {A : Type 0} (f : Bytes → A → Outcome Bytes) (g : A → Bytes) (P : A → Type 0)
    → ((out : Bytes) (x : A) → P x → f out x ≡ done (out ++ g x))
    → (out : Bytes) (xs : List A) → All P xs
    → encode_all f out xs ≡ done (out ++ concatenated g xs)
unfolding encode_all
encode_all_lem f g P h out [] all = ap done (sym (append-nil out))
encode_all_lem f g P h out (x ∷ xs) (px, all) =
    rw (encode_all, h out x px, encode_all_lem f g P h (out ++ g x) xs all)
      (ap done (append_assoc out (g x) (concatenated g xs)))

some_mark : (out : Bytes) → encode_option_tag out true ≡ out ++ (1 ∷ [])
unfolding encode_option_tag encode_bool
some_mark out = refl

ok_mark : (out : Bytes) → encode_result_tag out false ≡ out ++ (0 ∷ [])
unfolding encode_result_tag encode_bool
ok_mark out = refl

err_mark : (out : Bytes) → encode_result_tag out true ≡ out ++ (1 ∷ [])
unfolding encode_result_tag encode_bool
err_mark out = refl

pub encode_wire_lem :
    (t : WireType) (out : Bytes) (v : Content t)
    → IsContent t v
    → encode_wire t out v ≡ done (out ++ wire_content t v)
unfolding encode_wire
encode_wire_lem (primitive p) out v h = encode_primitive_lem p out v h
encode_wire_lem (option_type t) out none h = encode_primitive_lem option_mark out false tt
encode_wire_lem (option_type t) out (some x) h = rw (some_mark out) (
    encode_wire_lem t (out ++ (1 ∷ [])) x h
    ∙ ap done (append_assoc out (1 ∷ []) (wire_content t x)))
encode_wire_lem (list_type t) out xs (small, all) =
    rw
      (
        encode_wire,
        encode_primitive_lem list_count out (length xs) small,
        encode_all_lem (encode_wire t) (wire_content t) (IsContent t) (encode_wire_lem t)
            (out ++ encoding (length xs)) xs all,
      )
      (ap done (append_assoc out (encoding (length xs)) (concatenated (wire_content t) xs)))
encode_wire_lem (tuple_type t u) out (x, y) (hx, hy) =
    rw (encode_wire, encode_wire_lem t out x hx, encode_wire_lem u (out ++ wire_content t x) y hy)
      (ap done (append_assoc out (wire_content t x) (wire_content u y)))
encode_wire_lem (result_type t u) out (inl x) h = rw (ok_mark out) (
    encode_wire_lem t (out ++ (0 ∷ [])) x h
    ∙ ap done (append_assoc out (0 ∷ []) (wire_content t x)))
encode_wire_lem (result_type t u) out (inr e) h = rw (err_mark out) (
    encode_wire_lem u (out ++ (1 ∷ [])) e h
    ∙ ap done (append_assoc out (1 ∷ []) (wire_content u e)))

decode_all-Takes :
    {A : Type 0} (m : Decode A) (g : A → Bytes) (P : A → Type 0)
    → ((x : A) (rest : Bytes) → P x → Takes m (g x ++ rest) x rest)
    → (xs : List A) (rest : Bytes) → All P xs
    → Takes (decode_all (length xs) m) (concatenated g xs ++ rest) xs rest
unfolding decode_all
decode_all-Takes m g P h [] rest all = pure-Takes [] rest
decode_all-Takes m g P h (x ∷ xs) rest (px, all) =
    rw (append_assoc (g x) (concatenated g xs) rest) (
      Takes-bind _ (h x (concatenated g xs ++ rest) px)
        (Takes-bind _ (decode_all-Takes m g P h xs rest all) (pure-Takes (x ∷ xs) rest)))

decode_wire-Takes :
    (t : WireType) (v : Content t) (rest : Bytes)
    → IsContent t v
    → Takes (decode_wire t) (wire_content t v ++ rest) v rest
unfolding decode_wire
decode_wire-Takes (primitive p) v rest h = decode_primitive-Takes p v rest h
decode_wire-Takes (option_type t) none rest h =
    Takes-bind _ (decode_primitive-Takes option_mark false rest tt) (pure-Takes none rest)
decode_wire-Takes (option_type t) (some x) rest h =
    Takes-bind _ (decode_primitive-Takes option_mark true (wire_content t x ++ rest) tt)
      (Takes-bind _ (decode_wire-Takes t x rest h) (pure-Takes (some x) rest))
decode_wire-Takes (list_type t) xs rest (small, all) =
    rw (append_assoc (encoding (length xs)) (concatenated (wire_content t) xs) rest) (
      Takes-bind _
        (decode_primitive-Takes list_count (length xs) (concatenated (wire_content t) xs ++ rest)
          small)
        (decode_all-Takes (decode_wire t) (wire_content t) (IsContent t) (decode_wire-Takes t) xs
          rest all))
decode_wire-Takes (tuple_type t u) (x, y) rest (hx, hy) =
    rw (append_assoc (wire_content t x) (wire_content u y) rest) (
      Takes-bind _ (decode_wire-Takes t x (wire_content u y ++ rest) hx)
        (Takes-bind _ (decode_wire-Takes u y rest hy) (pure-Takes (x, y) rest)))
decode_wire-Takes (result_type t u) (inl x) rest h =
    Takes-bind _ (decode_primitive-Takes result_mark false (wire_content t x ++ rest) tt)
      (Takes-bind _ (decode_wire-Takes t x rest h) (pure-Takes (inl x) rest))
decode_wire-Takes (result_type t u) (inr e) rest h =
    Takes-bind _ (decode_primitive-Takes result_mark true (wire_content u e ++ rest) tt)
      (Takes-bind _ (decode_wire-Takes u e rest h) (pure-Takes (inr e) rest))

-- A value of any type that is put together from primitives by options, lists, tuples and results: it is
-- encoded without failing, and its bytes are appended. A decoder that stands before these, whatever comes
-- behind them, gives the value and stands behind it.
pub wire_round_trip :
    (t : WireType) (out rest : Bytes) (v : Content t) (d : Decoder)
    → IsContent t v
    → IsDecoder d
    → left d ≡ wire_content t v ++ rest
    → (encode_wire t out v ≡ done (out ++ wire_content t v))
      × Meets (decode_wire t d) (ok (v, rest))
wire_round_trip t out rest v d h valid begins =
    (encode_wire_lem t out v h, (decode_wire-Takes t v rest h).run d valid begins)
