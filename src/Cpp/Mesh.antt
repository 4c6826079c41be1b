-- ===== src/Cpp/Mesh.antt =====
-- The mesh client of tools/crabgen/templates/cpp/mesh.hpp and mesh.cpp. The host's import
-- `crabcraft.call` is a parameter.
pub mod Replies
pub mod Calls
pub mod Typed
pub mod TypedCalls
use Prim.Native.Nat.{bit_or}
use crabcraft.Prelude.{
  ℕ, ◌-◌, ◌*◌, ◌%◌, ◌^◌, [], ◌∷◌, Bytes, codes, length, drop, ◌==◌, if◌then◌else◌, not, Outcome,
  done, ◌>>=◌,
}
use crabcraft.Uleb.{load}
use crabcraft.Cpp.Res.{Res, ok, err, fail}
use crabcraft.Cpp.Decoder.{Decoder, decoder, remaining, string}
use crabcraft.Cpp.Runtime.{Allocs, erase, copy}

-- Behind `d.String()`.
unfoldable pub error_reply : Res Bytes → Decoder → Res Bytes
error_reply (err e) d = fail [] (codes "mesh call: malformed error reply")
error_reply (ok msg) d =
    if not (remaining d == 0)
    then fail [] (codes "mesh call: malformed error reply (trailing bytes)")
    else fail [] msg

unfoldable pub parse_mesh_reply : Bytes → Outcome (Res Bytes)
parse_mesh_reply [] = done (fail [] (codes "mesh call: empty reply"))
parse_mesh_reply (status ∷ body) =
    if status == 0
    then done (ok body)
    else if status == 1
    then (do (msg, d) ← string (decoder body (length body)); done (error_reply msg d))
    else done (fail [] (codes "mesh call: invalid reply status"))

-- What the import answers: the pointer, the memory behind it, and the pinned buffers, to which the
-- host adds by `crab_alloc`.
pub record HostReply : Type 0 where
  pub ptr : ℕ
  pub memory : Bytes
  pub allocs : Allocs

-- The length in front of the payload, as 32 bits.
unfoldable pub reply_length : Bytes → Outcome ℕ
reply_length p = do
  b0 ← load p 0
  b1 ← load p 1
  b2 ← load p 2
  b3 ← load p 3
  done (
      bit_or (bit_or (bit_or b0 (b1 * 2 ^ 8 % 2 ^ 32)) (b2 * 2 ^ 16 % 2 ^ 32))
        (b3 * 2 ^ 24 % 2 ^ 32))

module _ (crabcraft_call : Allocs → Bytes → Bytes → Bytes → HostReply) where
  unfoldable pub mesh_call : Allocs → Bytes → Bytes → Bytes → Outcome (Res Bytes × Allocs)
  mesh_call allocs workload fn params =
      let h = crabcraft_call allocs workload fn params in
      let read = (do
        n ← reply_length h.memory
        payload ← copy (drop 4 h.memory) n
        r ← parse_mesh_reply payload
        done (r, erase h.allocs h.ptr)) in
      if h.ptr == 0 then (do r ← parse_mesh_reply []; done (r, h.allocs)) else read

-- Where there is no host.
unfoldable pub mesh_call_native : Bytes → Bytes → Bytes → Res Bytes
mesh_call_native workload fn params =
    fail [] (codes "crabcraft.call import unavailable: not running under a crabcraft host")
