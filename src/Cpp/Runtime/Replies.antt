-- ===== src/Cpp/Runtime/Replies.antt =====
-- The replies of the C++ runtime, in the layout that the C guest uses too.
use crabcraft.Prelude.{◌^◌, ◌<◌, ◌≡◌, ap, [], ◌∷◌, Bytes, length, done}
use crabcraft.Prelude.Bits.{bit_and_255}
use crabcraft.Reply.Frame.{le32, frame, wire_string}
use crabcraft.Cpp.Decoder.Strings.{encode_string_lem}
use crabcraft.Cpp.Runtime.{Runtime, lenbuf, reply_ok, reply_err}

pub lenbuf-frame : (payload : Bytes) → lenbuf payload ≡ frame payload
unfolding lenbuf frame le32
lenbuf-frame payload = simp bit_and_255

pub reply_ok_lem :
    (rt : Runtime) (result : Bytes) → reply_ok rt result ≡ record rt { reply = frame (0 ∷ result) }
unfolding reply_ok
reply_ok_lem rt result =
    ap (λ (t : Bytes). record { handlers = rt.handlers; allocs = rt.allocs; reply = t })
      (lenbuf-frame (0 ∷ result))

pub reply_err_lem :
    (rt : Runtime) (msg : Bytes)
    → length msg < 2 ^ 32
    → reply_err rt msg ≡ done (record rt { reply = frame (1 ∷ wire_string msg) })
unfolding reply_err
reply_err_lem rt msg h = rw (encode_string_lem (1 ∷ []) msg h, lenbuf-frame (1 ∷ wire_string msg))
