-- ===== src/Guest/Exports.antt =====
-- The two exports that run no statement: `crab_schema` and `crab_alloc`.
use crabcraft.Prelude.{ℕ, ◌≡◌, refl, arith, ◌||◌, some, Bytes, length, ltb, if◌then◌else◌, done}
use crabcraft.Buffer.{Allocator, block}
use crabcraft.Buffer.Valid.{Plentiful}
use crabcraft.Buffer.Memory.{realloc_null}
use crabcraft.Reply.Frame.{lenbuf_lem}
use crabcraft.Reply.Answer.{read_frame, frame_of_block}
use crabcraft.Sqlite.{Sqlite}
use crabcraft.Schema.{schema_json, length-schema_json}
use crabcraft.Guest.{Guest, crab_alloc, crab_schema, is_negative}
use crabcraft.Guest.Calls.{IsReady}

-- Whatever `REPLY` held, `crab_schema` ends without a fault, the host reads the schema byte for byte,
-- and nothing but `REPLY` has changed.
pub crab_schema_lem :
    (lib : Sqlite) (heap : Allocator) (g : Guest lib)
    → Plentiful heap
    → IsReady g
    → (g' : Guest lib) × (crab_schema lib heap g ≡ done g')
      × IsReady g'
      × (read_frame (block g'.reply.p) ≡ some schema_json)
      × (g'.out ≡ g.out)
      × (g'.db ≡ g.db)
      × (g'.world ≡ g.world)
unfolding crab_schema
crab_schema_lem lib heap g serves (v, v') =
    let (reply, ran, vr, held) =
      lenbuf_lem heap serves g.reply v schema_json (omega (arith, length-schema_json)) in
    (
      record g { reply = reply },
      rw ran,
      (vr, v'),
      frame_of_block reply schema_json held (omega (arith, length-schema_json)),
      refl,
      refl,
      refl,
    )

-- `crab_alloc` gives a block of as many bytes as it is asked for, and of one byte for a length below
-- one; negative lengths are among these.
pub crab_alloc_size :
    (heap : Allocator) (len : ℕ)
    → Plentiful heap
    → (m : Bytes) × (crab_alloc heap len ≡ some m)
      × (length m ≡ (if is_negative len || ltb len 1 then 1 else len))
unfolding crab_alloc
crab_alloc_size heap len serves =
    let size = if is_negative len || ltb len 1 then 1 else len in
    realloc_null heap size (serves size (ground arith))
