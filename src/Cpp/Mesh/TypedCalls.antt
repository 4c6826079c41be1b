-- ===== src/Cpp/Mesh/TypedCalls.antt =====
-- Typed calls over the mesh.
use crabcraft.Prelude.{
  ℕ, ◌^◌, ◌<◌, ◌≡◌, ◌≢◌, sym, ◌∙◌, ap, arith, true, some, [], ◌++◌, append-nil, Bytes, IsByte, All,
  codes, length, done, ◌>>=◌, Outcome, ◌==◌,
}
use crabcraft.Cpp.Res.{Res, ok}
use crabcraft.Cpp.Decoder.{Decoder, decoder, finish, remaining}
use crabcraft.Cpp.Decoder.Reads.{
  IsDecoder, left, length-left, decoder-IsDecoder, left-decoder, Meets,
}
use crabcraft.Cpp.Wire.{WireType, Content}
use crabcraft.Cpp.Wire.Decode.{decode_wire}
use crabcraft.Cpp.Wire.RoundTrip.{wire_content, IsContent, wire_round_trip}
use crabcraft.Cpp.Runtime.{Handler, Runtime, Allocs, find_handler, erase, crab_invoke}
use crabcraft.Cpp.Mesh.{HostReply}
use crabcraft.Cpp.Mesh.Calls.{relay_lem}
use crabcraft.Cpp.Mesh.Typed.{wasm_client, unless_trailing, finished_reply, typed_reply, typed_call}

nothing_trails : (d : Decoder) (what : Bytes) → IsDecoder d → left d ≡ [] → finish d what ≡ []
unfolding finish
nothing_trails d what valid none_left =
    let size = ap (λ (b : Bytes). length b) none_left in
    let test : (remaining d == 0) ≡ true = ground (arith, length-left d, valid.held) in rw test

finished_reply_lem :
    {A : Type 0} (v : A) (d : Decoder)
    → finish d (codes "reply") ≡ []
    → finished_reply (ok v) d ≡ ok v
unfolding finished_reply
finished_reply_lem v d e = ap (λ (fin : Bytes). unless_trailing fin v) e

typed_of_Meets :
    {A : Type 0} (o : Outcome (Res A × Decoder)) (v : A)
    → Meets o (ok (v, []))
    → (o >>= λ got. done (finished_reply got.0 got.1)) ≡ done (ok v)
typed_of_Meets o v (d, ran, valid, none_left) =
    rw ran (ap done (finished_reply_lem v d (nothing_trails d (codes "reply") valid none_left)))

typed_reply_lem :
    (t : WireType) (v : Content t)
    → IsContent t v
    → All IsByte (wire_content t v)
    → length (wire_content t v) < 2 ^ 31
    → typed_reply t (ok (wire_content t v)) ≡ done (ok v)
unfolding typed_reply
typed_reply_lem t v content bytes small =
    let s = wire_content t v in
    let valid : IsDecoder (decoder s (length s)) =
      rw append-nil at (decoder-IsDecoder s [] bytes tt small) in
    let stands : left (decoder s (length s)) ≡ s ++ [] =
      (rw append-nil at (left-decoder s [])) ∙ sym (append-nil s) in
    typed_of_Meets (decode_wire t (decoder s (length s))) v
      (wire_round_trip t [] [] v (decoder s (length s)) content valid stands).1

-- A typed call of a function with a plain result, over a host that has a guest of the same runtime answer
-- it: where the handler of that guest ends with the encoding of a value of the type, shorter than 2 ^ 30
-- bytes, and the host puts the reply of `crab_invoke` into the caller's memory, in front of anything else, the
-- caller has the value, and the reply is no longer pinned.
pub typed_call_lem :
    (crabcraft_call : Allocs → Bytes → Bytes → Bytes → HostReply) (allocs : Allocs)
    (workload fn params junk : Bytes) (rt rt' : Runtime) (name_ptr arg_ptr : ℕ) (t : WireType)
    (v : Content t) {handler : Handler} {d' : Decoder}
    → length fn < 2 ^ 31
    → length params < 2 ^ 31
    → find_handler rt.handlers fn ≡ some handler
    → handler (decoder params (length params)) ≡ done (ok (wire_content t v), d')
    → IsContent t v
    → All IsByte (wire_content t v)
    → length (wire_content t v) < 2 ^ 30
    → crab_invoke rt name_ptr fn (length fn) arg_ptr params (length params) ≡ done rt'
    → (crabcraft_call allocs workload fn params).ptr ≢ 0
    → (crabcraft_call allocs workload fn params).memory ≡ rt'.reply ++ junk
    → typed_call (wasm_client crabcraft_call) t allocs workload fn params
      ≡ done (
        ok v,
        erase
            (crabcraft_call allocs workload fn params).allocs
            (crabcraft_call allocs workload fn params).ptr,
      )
unfolding typed_call
typed_call_lem crabcraft_call allocs workload fn params junk rt rt' name_ptr arg_ptr t v fn_small
      params_small found ran content bytes small invoked there memory =
    rw (
      relay_lem crabcraft_call allocs workload fn params junk rt rt' name_ptr arg_ptr
          (ok (wire_content t v)) fn_small params_small found ran (bytes, small) invoked there
          memory,
      typed_reply_lem t v content bytes (omega arith),
    )
