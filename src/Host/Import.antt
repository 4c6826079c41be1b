-- ===== src/Host/Import.antt =====
-- The import `crabcraft.call` of host/runtime.lua, which a guest calls to reach another one, with what host/cmval.lua
-- encodes for it, and `MeshCall` of tools/crabgen/templates/cpp/mesh.cpp on the addresses that it returns.
use crabcraft.Prelude.{
  ℕ, zero, suc, ◌+◌, ◌/◌, ◌%◌, Bool, Option, none, some, [], ◌∷◌, ◌++◌, Bytes, codes, length, drop,
  ltb, ◌==◌, if◌then◌else◌, Outcome, done, ◌>>=◌,
}
use crabcraft.Cpp.Res.{Res}
use crabcraft.Cpp.Runtime.{erase}
use crabcraft.Cpp.Linear.{Instance, load_string, store_string, alloc_at}
use crabcraft.Cpp.Mesh.{reply_length, parse_mesh_reply}

-- `repeat … until n == 0` within `rounds` rounds.
unfoldable pub uleb_enc : ℕ → ℕ → Bytes
uleb_enc zero n = []
uleb_enc (suc rounds) n =
    let b = n % 128 in
    let rest = uleb_enc rounds (n / 128) in if ltb 0 (n / 128) then (b + 128) ∷ rest else b ∷ []

-- `cmval.encode("string", s)`; eight groups of seven bits hold any length below 2 ^ 53.
unfoldable pub encode_text : Bytes → Bytes
encode_text s = uleb_enc 10 (length s) ++ s

-- `opts.call` gives a flag and a body, or is not there.
abbrev pub HostCall : Type 0
HostCall = Option (Bytes → Bytes → Bytes → Bool × Bytes)

abbrev pub call_reply : Bool × Bytes → Bytes
call_reply (good, body) = if good then 0 ∷ body else 1 ∷ encode_text body

unfoldable pub import_reply : HostCall → Bytes → Bytes → Bytes → Bytes
import_reply none wl fn par =
    1 ∷ encode_text (codes "no mesh: crabcraft.call not wired on this host")
import_reply (some call) wl fn par = call_reply (call wl fn par)

-- The length in front of the reply.
abbrev pub length_bytes : ℕ → Bytes
length_bytes len =
    (len % 256) ∷ (len / 256 % 256) ∷ (len / 65536 % 256) ∷ (len / 16777216 % 256) ∷ []

-- The six arguments of the import.
pub record CallArgs : Type 0 where
  pub wl_ptr : ℕ
  pub wl_len : ℕ
  pub fn_ptr : ℕ
  pub fn_len : ℕ
  pub par_ptr : ℕ
  pub par_len : ℕ

-- The allocator of the guest puts the reply at `place`.
unfoldable pub import_call : HostCall → ℕ → Instance → CallArgs → Outcome (ℕ × Instance)
import_call opts_call place inst a = do
  wl ← load_string inst.memory a.wl_ptr a.wl_len
  fn ← load_string inst.memory a.fn_ptr a.fn_len
  par ← load_string inst.memory a.par_ptr a.par_len
  let reply = import_reply opts_call wl fn par
  (ptr, inst') ← alloc_at inst place (length reply + 4)
  m ← store_string inst'.memory ptr (length_bytes (length reply) ++ reply)
  done (ptr, record inst' { memory = m })

-- Behind the import, for a pointer that is not null.
unfoldable pub take_reply : ℕ → Instance → Outcome (Res Bytes × Instance)
take_reply ptr inst = do
  n ← reply_length (drop ptr inst.memory)
  payload ← load_string inst.memory (ptr + 4) n
  r ← parse_mesh_reply payload
  done (r, record inst { pins = erase inst.pins ptr })

unfoldable pub mesh_call_at :
    (Instance → CallArgs → Outcome (ℕ × Instance))
    → Instance
    → CallArgs
    → Outcome (Res Bytes × Instance)
mesh_call_at crabcraft_call inst a = do
  (ptr, inst') ← crabcraft_call inst a
  if ptr == 0 then (do r ← parse_mesh_reply []; done (r, inst')) else take_reply ptr inst'
