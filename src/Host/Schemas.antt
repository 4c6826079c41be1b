-- ===== src/Host/Schemas.antt =====
-- The host reads the schema of a C++ guest.
use crabcraft.Prelude.{ℕ, ◌+◌, ◌^◌, ◌≤◌, ◌<◌, ◌≡◌, Bytes, length, done}
use crabcraft.Reply.Frame.{frame}
use crabcraft.Cpp.Runtime.{Runtime, crab_schema}
use crabcraft.Cpp.Runtime.Replies.{lenbuf-frame}
use crabcraft.Cpp.Linear.{Instance}
use crabcraft.Cpp.Linear.Refines.{Shows, schema_at-Answers}
use crabcraft.Host.{load_schema}
use crabcraft.Host.Values.{read_lenbuf-Shows}

crab_schema-reply :
    (rt : Runtime) (schema_json : Bytes) → (crab_schema rt schema_json).reply ≡ frame schema_json
unfolding crab_schema
crab_schema-reply rt schema_json = lenbuf-frame schema_json

-- For a schema of fewer than 2 ^ 32 bytes whose frame fits into memory: the host reads the schema byte for
-- byte, and the memory shows the runtime after `crab_schema`.
pub load_schema_lem :
    (inst : Instance) (rt : Runtime) (place : ℕ) (schema_json : Bytes)
    → Shows inst rt
    → length schema_json < 2 ^ 32
    → place + length (frame schema_json) ≤ length inst.memory
    → (inst' : Instance) × (load_schema inst place schema_json ≡ done (schema_json, inst'))
      × Shows inst' (crab_schema rt schema_json)
unfolding load_schema
load_schema_lem inst rt place schema_json shows small room =
    let framed = lenbuf-frame schema_json in
    let (inst', ran, shows', at_place) =
      schema_at-Answers inst rt shows place schema_json (rw framed room) in
    let read =
      read_lenbuf-Shows inst' (crab_schema rt schema_json) place schema_json shows' at_place
        (crab_schema-reply rt schema_json) small in
    (inst', rw (ran, read), shows')
