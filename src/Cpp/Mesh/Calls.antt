-- ===== src/Cpp/Mesh/Calls.antt =====
-- `MeshCall` of tools/crabgen/templates/cpp/mesh.cpp, and a call that a guest of the same runtime answers.
use crabcraft.Prelude.{
  ℕ, ◌^◌, ◌<◌, ◌≡◌, ◌≢◌, refl, sym, ◌∙◌, ap, arith, false, none, if◌then◌else◌, some, [], ◌∷◌, ◌++◌,
  Bytes, IsByte, All, All-append, codes, length, length-append, ◌==◌, done, done-injective,
  append-nil, take_all,
}
use crabcraft.Uleb.Encode.{encoding, encoding_shape, length-encoding}
use crabcraft.Reply.Frame.{frame, wire_string}
use crabcraft.Cpp.Res.{Res, ok, err, fail}
use crabcraft.Cpp.Decoder.{Decoder, decoder}
use crabcraft.Cpp.Decoder.Strings.{read_string, read_string-wire_string}
use crabcraft.Cpp.Utf8.Whole.{IsUtf8}
use crabcraft.Cpp.Runtime.{Handler, Runtime, Allocs, find_handler, find_alloc, erase, crab_invoke}
use crabcraft.Cpp.Runtime.Maps.{find-erase}
use crabcraft.Cpp.Runtime.Calls.{Payload, value, failure, size_of_small, crab_invoke_lem}
use crabcraft.Cpp.Mesh.{HostReply, mesh_call}
use crabcraft.Cpp.Mesh.Replies.{
  Stands, Stands-mesh_result, mesh_result, parse_mesh_reply_lem, reply_length-frame, frame-body,
}

mesh_call_run :
    (crabcraft_call : Allocs → Bytes → Bytes → Bytes → HostReply) (allocs : Allocs)
    (workload fn params payload junk : Bytes)
    → (crabcraft_call allocs workload fn params).ptr ≢ 0
    → (crabcraft_call allocs workload fn params).memory ≡ frame payload ++ junk
    → All IsByte payload
    → length payload < 2 ^ 31
    → mesh_call crabcraft_call allocs workload fn params
      ≡ done (
        mesh_result payload,
        erase
            (crabcraft_call allocs workload fn params).allocs
            (crabcraft_call allocs workload fn params).ptr,
      )
unfolding mesh_call
mesh_call_run crabcraft_call allocs workload fn params payload junk there memory bytes small =
    let h = crabcraft_call allocs workload fn params in
    let test : (h.ptr == 0) ≡ false = ground arith in
    rw (
      test,
      memory,
      reply_length-frame payload junk (omega arith),
      frame-body payload junk,
      parse_mesh_reply_lem payload bytes small,
    )

-- The reply that the host put into memory, in front of anything else, is the frame of a payload shorter
-- than `2 ^ 31` bytes, which is not an error with an empty text: `MeshCall` ends without a fault in what
-- the payload stands for. The reply is no longer pinned, and every other buffer is as it was.
pub mesh_call_lem :
    (crabcraft_call : Allocs → Bytes → Bytes → Bytes → HostReply) (allocs : Allocs)
    (workload fn params payload junk : Bytes) (r : Res Bytes)
    → (crabcraft_call allocs workload fn params).ptr ≢ 0
    → (crabcraft_call allocs workload fn params).memory ≡ frame payload ++ junk
    → All IsByte payload
    → length payload < 2 ^ 31
    → Stands payload r
    → r ≢ err []
    → (allocs' : Allocs) × (mesh_call crabcraft_call allocs workload fn params ≡ done (r, allocs'))
      × ((q : ℕ)
          → find_alloc allocs' q ≡ (
              if (crabcraft_call allocs workload fn params).ptr == q
              then none
              else find_alloc (crabcraft_call allocs workload fn params).allocs q))
mesh_call_lem crabcraft_call allocs workload fn params payload junk r there memory bytes small
      stands told =
    let h = crabcraft_call allocs workload fn params in
    (
      erase h.allocs h.ptr,
      rw (Stands-mesh_result stands told) at (
          mesh_call_run crabcraft_call allocs workload fn params payload junk there memory bytes
            small),
      find-erase h.allocs h.ptr,
    )

-- What a caller is to see of the handler's result.
abbrev pub relayed : Bytes → Res Bytes → Res Bytes
relayed name (ok val) = ok val
relayed name (err e) = err (name ++ (codes ": " ++ e))

-- The error text, if there is one, is UTF-8.
abbrev pub IsRelayable : Bytes → Res Bytes → Type 0
IsRelayable name (ok val) = All IsByte val × (length val < 2 ^ 30)
IsRelayable name (err e) =
    IsUtf8 (name ++ (codes ": " ++ e))
    × All IsByte (name ++ (codes ": " ++ e))
    × (length (name ++ (codes ": " ++ e)) < 2 ^ 30)

abbrev pub payload_of : Bytes → Res Bytes → Bytes
payload_of name (ok val) = 0 ∷ val
payload_of name (err e) = 1 ∷ wire_string (name ++ (codes ": " ++ e))

fail_cons :
    (msg s : Bytes)
    → fail {A = Bytes} [] (msg ++ (codes ": " ++ s)) ≡ err (msg ++ (codes ": " ++ s))
fail_cons [] s = refl
fail_cons (c ∷ msg) s = refl

payload_small :
    (name : Bytes) (r : Res Bytes) → IsRelayable name r → length (payload_of name r) < 2 ^ 31
payload_small name (ok val) (bytes, small) = omega arith
payload_small name (err e) (good, bytes, small) =
    let msg = name ++ (codes ": " ++ e) in
    unfold wire_string in
    omega (arith, length-append (encoding (length msg)) msg, length-encoding (length msg))

payload-IsByte :
    (name : Bytes) (r : Res Bytes) → IsRelayable name r → All IsByte (payload_of name r)
payload-IsByte name (ok val) (bytes, small) = (omega arith, bytes)
payload-IsByte name (err e) (good, bytes, small) =
    let msg = name ++ (codes ": " ++ e) in
    (
      omega arith,
      unfold wire_string in
          All-append IsByte (encoding (length msg)) msg
            (encoding_shape (length msg) (omega arith)).0 bytes,
    )

result_of_payload :
    (name : Bytes) (r : Res Bytes)
    → IsRelayable name r
    → mesh_result (payload_of name r) ≡ relayed name r
unfolding mesh_result
result_of_payload name (ok val) h = refl
result_of_payload name (err e) (good, bytes, small) =
    let msg = name ++ (codes ": " ++ e) in
    let read : read_string (wire_string msg) ≡ ok (msg, []) =
      rw append-nil at (read_string-wire_string msg [] good (omega arith)) in
    rw read (fail_cons name e)

module _ (rt : Runtime) (name_ptr arg_ptr : ℕ) (fn params : Bytes) where
  answered :
      (r : Res Bytes) {handler : Handler} {d' : Decoder}
      → length fn < 2 ^ 31
      → length params < 2 ^ 31
      → find_handler rt.handlers fn ≡ some handler
      → handler (decoder params (length params)) ≡ done (r, d')
      → IsRelayable fn r
      → crab_invoke rt name_ptr fn (length fn) arg_ptr params (length params)
        ≡ done (record {
          handlers = rt.handlers;
          allocs = erase (erase rt.allocs name_ptr) arg_ptr;
          reply = frame (payload_of fn r);
        })
  answered r {handler} {d'} fn_small params_small found ran relayable =
      let name_size = size_of_small (length fn) fn_small in
      let arg_size = size_of_small (length params) params_small in
      let whole = take_all (length fn) fn (omega arith) in
      let small = payload_small fn r relayable in
      crab_invoke_lem rt name_ptr fn (length fn) arg_ptr params (length params)
        (omega (arith, name_size)) (rw (name_size, arg_size, whole) (answer r found ran))
        (omega (arith, small))
    where
      answer :
          (r : Res Bytes)
          → find_handler rt.handlers fn ≡ some handler
          → handler (decoder params (length params)) ≡ done (r, d')
          → Payload rt fn (decoder params (length params)) (payload_of fn r)
      answer (ok val) found ran = value found ran
      answer (err e) found ran = failure found ran

-- A mesh call that a guest of this runtime answers: the function is registered there, its handler ends
-- with a result of at most `2 ^ 30` bytes and with UTF-8 as its error text, and the host puts the reply of
-- `crab_invoke` into the caller's memory, in front of anything else. The caller sees the result that the
-- handler gave, its error text behind the function's name, and the reply is no longer pinned.
pub relay_lem :
    (crabcraft_call : Allocs → Bytes → Bytes → Bytes → HostReply) (allocs : Allocs)
    (workload fn params junk : Bytes) (rt rt' : Runtime) (name_ptr arg_ptr : ℕ) (r : Res Bytes)
    {handler : Handler} {d' : Decoder}
    → length fn < 2 ^ 31
    → length params < 2 ^ 31
    → find_handler rt.handlers fn ≡ some handler
    → handler (decoder params (length params)) ≡ done (r, d')
    → IsRelayable fn r
    → crab_invoke rt name_ptr fn (length fn) arg_ptr params (length params) ≡ done rt'
    → (crabcraft_call allocs workload fn params).ptr ≢ 0
    → (crabcraft_call allocs workload fn params).memory ≡ rt'.reply ++ junk
    → mesh_call crabcraft_call allocs workload fn params
      ≡ done (
        relayed fn r,
        erase
            (crabcraft_call allocs workload fn params).allocs
            (crabcraft_call allocs workload fn params).ptr,
      )
relay_lem crabcraft_call allocs workload fn params junk rt rt' name_ptr arg_ptr r fn_small
      params_small found ran relayable invoked there memory =
    let expected =
      answered rt name_ptr arg_ptr fn params r fn_small params_small found ran relayable in
    let same = done-injective (sym expected ∙ invoked) in
    let reply : frame (payload_of fn r) ≡ rt'.reply = ap (λ (s : Runtime). s.reply) same in
    rw (result_of_payload fn r relayable) at (
      mesh_call_run crabcraft_call allocs workload fn params (payload_of fn r) junk there
        (rw reply memory) (payload-IsByte fn r relayable) (payload_small fn r relayable))
