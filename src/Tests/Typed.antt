-- ===== src/Tests/Typed.antt =====
-- A typed call over the mesh.
use crabcraft.Prelude.{◌≡◌, refl, arith, true, some, [], ◌∷◌, ◌++◌, Bytes, codes, done}
use crabcraft.Reply.Frame.{frame}
use crabcraft.Cpp.Res.{ok}
use crabcraft.Cpp.Primitive.{boolean}
use crabcraft.Cpp.Wire.{primitive}
use crabcraft.Cpp.Runtime.{Handler, Runtime, Allocs, find_handler, same_text, erase}
use crabcraft.Cpp.Runtime.Calls.{value, crab_invoke_lem}
use crabcraft.Cpp.Mesh.{HostReply}
use crabcraft.Cpp.Mesh.Typed.{typed_call, wasm_client}
use crabcraft.Cpp.Mesh.TypedCalls.{typed_call_lem}

-- A guest whose one function gives `true`.
abbrev ping : Handler
ping d = done (ok (1 ∷ []), d)

abbrev pinged : Runtime
pinged = record { handlers = (codes "ping", ping) ∷ []; allocs = []; reply = [] }

found_ping : find_handler pinged.handlers (codes "ping") ≡ some ping
unfolding find_handler same_text
found_ping = refl

-- A host that puts the reply at the address 32 for every call.
abbrev pong : Allocs → Bytes → Bytes → Bytes → HostReply
pong allocs workload fn params = record {
  ptr = 32;
  memory = frame (0 ∷ 1 ∷ []) ++ (7 ∷ []);
  allocs = (32, frame (0 ∷ 1 ∷ [])) ∷ allocs;
}

typed_call_lem_example :
    typed_call (wasm_client pong) (primitive boolean) [] (codes "w") (codes "ping") []
    ≡ done (ok true, erase ((32, frame (0 ∷ 1 ∷ [])) ∷ []) 32)
typed_call_lem_example =
    typed_call_lem pong [] (codes "w") (codes "ping") [] (7 ∷ []) pinged
      (record {
        handlers = pinged.handlers;
        allocs = erase (erase [] 8) 16;
        reply = frame (0 ∷ 1 ∷ []);
      })
      8 16 (primitive boolean) true (omega arith) (omega arith) found_ping refl tt (omega arith)
      (omega arith)
      (crab_invoke_lem pinged 8 (codes "ping") 4 16 [] 0 (omega arith) (value found_ping refl)
        (omega arith))
      (omega arith) refl
