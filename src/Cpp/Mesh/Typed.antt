-- ===== src/Cpp/Mesh/Typed.antt =====
-- The mesh client of tools/crabgen/templates/cpp/mesh.hpp as an interface, its two implementations in mesh.cpp, and the
-- typed wrappers that bindings with imports build on it (tools/crabgen/tests/golden/cpp/full/gen/bindings.cpp).
use crabcraft.Prelude.{[], ◌∷◌, Bytes, codes, length, Outcome, done, ◌>>=◌}
use crabcraft.Cpp.Res.{Res, ok, err}
use crabcraft.Cpp.Decoder.{Decoder, decoder, finish}
use crabcraft.Cpp.Runtime.{Allocs}
use crabcraft.Cpp.Mesh.{HostReply, mesh_call, mesh_call_native, parse_mesh_reply}
use crabcraft.Cpp.Wire.{WireType, Content}
use crabcraft.Cpp.Wire.Decode.{decode_wire}

-- `MeshCall` also unpins, so it takes the pinned buffers and gives them back.
pub record MeshClient : Type 0 where
  pub call : Allocs → Bytes → Bytes → Bytes → Outcome (Res Bytes × Allocs)
  pub parse_reply : Bytes → Outcome (Res Bytes)

-- `#if defined(__wasm__)`
abbrev pub wasm_client : (Allocs → Bytes → Bytes → Bytes → HostReply) → MeshClient
wasm_client crabcraft_call = record {
  call = mesh_call crabcraft_call;
  parse_reply = parse_mesh_reply;
}

abbrev pub native_client : MeshClient
native_client = record {
  call = λ allocs workload fn params. done (mesh_call_native workload fn params, allocs);
  parse_reply = parse_mesh_reply;
}

-- `if (!fin.empty()) return fail(fin); return {r, {}};`
abbrev pub unless_trailing : {A : Type 0} → Bytes → A → Res A
unless_trailing [] r = ok r
unless_trailing (c ∷ fin) r = err (c ∷ fin)

-- Behind the decoding of the result: nothing may be left.
unfoldable pub finished_reply : {A : Type 0} → Res A → Decoder → Res A
finished_reply (err e) d = err e
finished_reply (ok r) d = unless_trailing (finish d (codes "reply")) r

unfoldable pub typed_reply : (t : WireType) → Res Bytes → Outcome (Res (Content t))
typed_reply t (err e) = done (err e)
typed_reply t (ok val) = do
  (r, d) ← decode_wire t (decoder val (length val))
  done (finished_reply r d)

-- A wrapper for a function with a plain result of type `t`, its parameters encoded in `out`.
unfoldable pub typed_call :
    MeshClient
    → (t : WireType) → Allocs
    → Bytes
    → Bytes
    → Bytes
    → Outcome (Res (Content t) × Allocs)
typed_call client t allocs workload fn out = do
  (body, allocs') ← client.call allocs workload fn out
  r ← typed_reply t body
  done (r, allocs')
