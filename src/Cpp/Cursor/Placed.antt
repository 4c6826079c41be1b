-- ===== src/Cpp/Cursor/Placed.antt =====
-- What bindings read through a pointer into linear memory.
use crabcraft.Prelude.{
  ℕ, ◌+◌, ◌-◌, ◌^◌, ◌≤◌, ◌<◌, ◌≡◌, refl, sym, ◌∙◌, ap, arith, [], ◌++◌, append-nil, Bytes, IsByte,
  All, length, take, drop, take-append_exact, Outcome, done, done-injective,
}
use mathlib.Core.Path.{subst}
use crabcraft.Cpp.Res.{Res, ok}
use crabcraft.Cpp.Decoder.{Decoder, decoder}
use crabcraft.Cpp.Decoder.Reads.{
  IsDecoder, left, length-left, left-decoder, decoder-IsDecoder, Meets,
}
use crabcraft.Cpp.Wire.{WireType, Content, encode_wire}
use crabcraft.Cpp.Wire.Decode.{decode_wire}
use crabcraft.Cpp.Wire.RoundTrip.{wire_content, IsContent, encode_wire_lem, wire_round_trip}
use crabcraft.Cpp.Linear.{Memory, store_string, store_at}
use crabcraft.Cpp.Linear.Memory.{store_string_lem, drop-store_at, length-store_at}
use crabcraft.Cpp.Cursor.{Cursor, cursor, finish_at}
use crabcraft.Cpp.Cursor.Typed.{wire_at}
use crabcraft.Cpp.Cursor.Agrees.{view, Inside, Same, same_done, same_fault}
use crabcraft.Cpp.Cursor.Primitives.{wire-Agrees}

-- Whatever lies in memory, for a buffer inside it and any type: reading through the pointer gives what
-- reading just the bytes of the buffer gives, errors and faults included, and leaves the decoder at the same
-- position. Nothing outside the buffer plays a part.
pub wire_at-decode_wire :
    (t : WireType) (m : Memory) (c : Cursor)
    → Inside m c
    → Same m (wire_at t m c) (decode_wire t (view m c))
wire_at-decode_wire t m c inside = (wire-Agrees t).same m c inside

found :
    {A : Type 0} (m : Memory) {o : Outcome (Res A × Cursor)} {o' : Outcome (Res A × Decoder)}
    {v : A} {d : Decoder}
    → Same m o o'
    → o' ≡ done (ok v, d)
    → (c : Cursor) × (o ≡ done (ok v, c)) × (d ≡ view m c)
found m (same_done r c inside there) e =
    let same = done-injective e in
    (c, ap (λ a. done (a, c)) (ap (λ a. a.0) same), sym (ap (λ a. a.1) same) ∙ there)
found m (same_fault e') e = absurd (cc)

nothing_left :
    (m : Memory) (c : Cursor) (d : Decoder)
    → d ≡ view m c
    → IsDecoder d
    → left d ≡ []
    → (what : Bytes) → finish_at c what ≡ []
unfolding finish_at
nothing_left m c d there valid none_left what =
    let lens : d.len ≡ c.len = ap (λ a. a.len) there in
    let places : d.pos ≡ c.pos = ap (λ a. a.pos) there in
    let size = ap (λ (b : Bytes). length b) none_left in
    let done_all : c.len - c.pos ≡ 0 = omega (arith, length-left d, valid.held) in ground arith

finished :
    {A : Type 0} (m : Memory) {o : Outcome (Res A × Cursor)} {o' : Outcome (Res A × Decoder)}
    {v : A}
    → Same m o o'
    → Meets o' (ok (v, []))
    → (c : Cursor) × (o ≡ done (ok v, c)) × ((what : Bytes) → finish_at c what ≡ [])
finished m same (d, ran, valid, none_left) =
    let (c, gave, there) = found m same ran in (c, gave, nothing_left m c d there valid none_left)

module _ (t : WireType) (v : Content t) (m : Memory) (p : ℕ) where
  -- Read through the pointer, it is the value, and nothing is left.
  found_there :
      (s : Bytes)
      → s ≡ wire_content t v
      → IsContent t v
      → All IsByte m
      → All IsByte s
      → p + length s ≤ length m
      → length s < 2 ^ 31
      → (c : Cursor) × (wire_at t (store_at p s m) (cursor p (length s)) ≡ done (ok v, c))
        × ((what : Bytes) → finish_at c what ≡ [])
  found_there s spelled content bytes s_bytes inside small =
      let m' = store_at p s m in
      let there = drop-store_at p s m inside in
      let junk = drop (length s) (drop p m) in
      let held : s ++ [] ≡ take (length s) (drop p m') =
        append-nil s ∙ sym (ap (λ b. take (length s) b) there ∙ take-append_exact s junk) in
      let start : decoder (s ++ []) (length s) ≡ view m' (cursor p (length s)) =
        ap (λ b. decoder b (length s)) held in
      let valid = decoder-IsDecoder s [] s_bytes tt small in
      let read =
        wire_round_trip t [] [] v (decoder (s ++ []) (length s)) content valid
          (left-decoder s [] ∙ spelled ∙ sym (append-nil (wire_content t v))) in
      let room : Inside m' (cursor p (length s)) = omega (arith, length-store_at p s m inside) in
      finished m' (wire_at-decode_wire t m' (cursor p (length s)) room)
        (subst (λ d. Meets (decode_wire t d) (ok (v, []))) start read.1)

-- A value of any type is encoded, its bytes are stored anywhere in memory, and read through a pointer to
-- them: nothing fails, it is the value, and `Finish` finds nothing left. Assumed is that its bytes are
-- fewer than 2 ^ 31, and that memory and they consist of bytes.
pub placed_round_trip :
    (t : WireType) (v : Content t) (m : Memory) (p : ℕ)
    → IsContent t v
    → All IsByte m
    → All IsByte (wire_content t v)
    → p + length (wire_content t v) ≤ length m
    → length (wire_content t v) < 2 ^ 31
    → (encode_wire t [] v ≡ done (wire_content t v))
      × (m' : Memory) × (store_string m p (wire_content t v) ≡ done m')
      × (c : Cursor) × (wire_at t m' (cursor p (length (wire_content t v))) ≡ done (ok v, c))
      × ((what : Bytes) → finish_at c what ≡ [])
placed_round_trip t v m p content bytes s_bytes inside small =
    let (c, gave, whole) =
      found_there t v m p (wire_content t v) refl content bytes s_bytes inside small in
    (
      encode_wire_lem t [] v content,
      store_at p (wire_content t v) m,
      store_string_lem p (wire_content t v) m inside,
      c,
      gave,
      whole,
    )
