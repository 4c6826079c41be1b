-- ===== src/Tests/Linear.antt =====
-- Linear memory, and decoders on addresses.
use crabcraft.Prelude.{
  ◌+◌, ◌≤◌, ◌≡◌, refl, arith, true, some, [], ◌∷◌, ◌++◌, Bytes, codes, length, drop, done,
}
use crabcraft.Uleb.Encode.{encoding, groups}
use crabcraft.Reply.Frame.{frame, le32, wire_string}
use crabcraft.Cpp.Res.{ok}
use crabcraft.Cpp.Encode.{zeros}
use crabcraft.Cpp.Primitive.{unsigned_8, boolean}
use crabcraft.Cpp.Wire.{WireType, primitive, option_type, tuple_type, encode_wire}
use crabcraft.Cpp.Wire.Decode.{decode_wire}
use crabcraft.Cpp.Wire.RoundTrip.{wire_content}
use crabcraft.Cpp.Runtime.{Runtime, copy, erase, find_handler, crab_invoke}
use crabcraft.Cpp.Runtime.Calls.{unknown, crab_invoke_lem}
use crabcraft.Cpp.Linear.{Memory, Instance, load_string, store_string, invoke_at}
use crabcraft.Cpp.Linear.Refines.{Shows, Answers, invoke_at-Answers}
use crabcraft.Cpp.Cursor.{Cursor, cursor, finish_at}
use crabcraft.Cpp.Cursor.Typed.{wire_at}
use crabcraft.Cpp.Cursor.Agrees.{Same, view}
use crabcraft.Cpp.Cursor.Placed.{wire_at-decode_wire, placed_round_trip}

abbrev pair : WireType
pair = tuple_type (primitive unsigned_8) (option_type (primitive boolean))

-- 150 and `some true`, in front of two bytes, and behind one.
abbrev filled : Memory
filled = 9 ∷ 0x96 ∷ 0x01 ∷ 1 ∷ 1 ∷ 7 ∷ 8 ∷ []

wire_at-decode_wire_example :
    Same filled (wire_at pair filled (cursor 1 4)) (decode_wire pair (view filled (cursor 1 4)))
wire_at-decode_wire_example = wire_at-decode_wire pair filled (cursor 1 4) (omega arith)

pair_bytes : wire_content pair (150, some true) ≡ 0x96 ∷ 0x01 ∷ 1 ∷ 1 ∷ []
unfolding encoding groups
pair_bytes = refl

placed_round_trip_example :
    (encode_wire pair [] (150, some true) ≡ done (wire_content pair (150, some true)))
    × (m' : Memory) × (store_string filled 2 (wire_content pair (150, some true)) ≡ done m')
    × (c : Cursor) × (wire_at pair m' (cursor 2 (length (wire_content pair (150, some true))))
        ≡ done (ok (150, some true), c))
    × ((what : Bytes) → finish_at c what ≡ [])
placed_round_trip_example =
    placed_round_trip pair (150, some true) filled 2 (omega arith, tt) (omega arith)
      (unfold encoding groups in omega arith) (unfold encoding groups in omega arith)
      (unfold encoding groups in omega arith)

-- No functions; the name `f` lies at 1.
abbrev named : Memory
named = 0 ∷ (codes "f" ++ zeros 38)

abbrev idle : Instance
idle = record { memory = named; handlers = []; pins = (1, 1) ∷ []; reply_ptr = 0; reply_len = 0 }

abbrev idle_runtime : Runtime
idle_runtime = record { handlers = []; allocs = (1, 0 ∷ []) ∷ []; reply = [] }

idle-Shows : Shows idle idle_runtime
unfolding load_string copy
idle-Shows = record { same_handlers = refl; same_pins = refl; reply_there = refl }

abbrev f_unknown_payload : Bytes
f_unknown_payload = 1 ∷ wire_string (codes "unknown function: " ++ codes "f")

abbrev answered_runtime : Runtime
answered_runtime = record {
  handlers = [];
  allocs = erase (erase idle_runtime.allocs 1) 0;
  reply = frame f_unknown_payload;
}

idle_invoked :
    crab_invoke idle_runtime 1 (drop 1 named) 1 0 (drop 0 named) 0 ≡ done answered_runtime
idle_invoked =
    crab_invoke_lem idle_runtime 1 (drop 1 named) 1 0 (drop 0 named) 0 (omega arith)
      (unknown (unfold find_handler in refl)) (unfold wire_string encoding groups in omega arith)

reply_room : 4 + length answered_runtime.reply ≤ length idle.memory
unfolding frame le32 wire_string encoding groups
reply_room = omega arith

invoke_at-Answers_example : Answers (invoke_at idle 4 1 1 0 0) 4 answered_runtime
invoke_at-Answers_example =
    invoke_at-Answers idle idle_runtime idle-Shows 4 1 1 0 0 idle_invoked reply_room
