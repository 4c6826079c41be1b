-- ===== src/Tests/Host.antt =====
-- The host calls hello-cpp.
use crabcraft.Prelude.{
  Bool, false, some, Bytes, ◌^◌, ◌<◌, ◌≡◌, refl, arith, inl, [], ◌∷◌, IsByte, All, codes, length,
  done,
}
use crabcraft.Uleb.Encode.{encoding, groups}
use crabcraft.Reply.Frame.{frame, le32, wire_string}
use crabcraft.Cpp.Encode.{zeros}
use crabcraft.Cpp.Runtime.{Runtime, find_alloc, same_text, copy}
use crabcraft.Cpp.Linear.{Instance, load_string}
use crabcraft.Cpp.Linear.Refines.{Shows}
use crabcraft.Cpp.Res.{err}
use crabcraft.Cpp.Utf8.Scalars.{encode_scalar, encode_scalars}
use crabcraft.Cpp.Utf8.Whole.{IsUtf8}
use crabcraft.Cpp.Hello.{registration}
use crabcraft.Cpp.Hello.Calls.{hello_payload}
use crabcraft.Uleb.Decode.{read_groups}
use crabcraft.Reply.Answer.{read_frame, read_wire_string}
use crabcraft.Host
use crabcraft.Host.{Places, worker_invoke, read_lenbuf, read_reply}
use crabcraft.Host.Views.{told_error, read_reply-Told}
use crabcraft.Host.Import.{CallArgs, import_call, mesh_call_at, encode_text, uleb_enc}
use crabcraft.Host.Mesh.{mesh_call_over_host}
use crabcraft.Host.Hello.{Fits, hello_answer, hello_call}

abbrev started : Runtime
started = record { handlers = registration []; allocs = []; reply = [] }

-- Ninety-six bytes of memory, in which nothing lies yet.
abbrev instance_96 : Instance
instance_96 = record {
  memory = zeros 96;
  handlers = registration [];
  pins = [];
  reply_ptr = 0;
  reply_len = 0;
}

started-Shows : Shows instance_96 started
unfolding load_string copy
started-Shows = record { same_handlers = refl; same_pins = refl; reply_there = refl }

abbrev free_places : Places
free_places = record { name_place = 8; arg_place = 48; reply_place = 56 }

payload_f : length (hello_payload (codes "f") (5 ∷ [])) < 2 ^ 32
unfolding hello_payload same_text wire_string encoding groups
payload_f = omega arith

call_f-Fits : Fits instance_96 free_places (codes "f") (5 ∷ [])
unfolding hello_payload same_text wire_string encoding groups frame le32
call_f-Fits = record {
  name_room = omega arith;
  arg_room = omega arith;
  reply_room = omega arith;
  name_apart = inl (omega arith);
  arg_apart = inl (omega arith);
  both_apart = inl (omega arith);
}

zeros_96 : All IsByte instance_96.memory
zeros_96 = omega arith

hello_call_example :
    (inst' : Instance) × (rt' : Runtime) × (worker_invoke
        (λ e. codes "trap")
        free_places
        instance_96
        (codes "f")
        (5 ∷ [])
      ≡ done (hello_answer (codes "f") (5 ∷ []), inst'))
    × Shows inst' rt'
    × (rt'.handlers ≡ registration [])
    × (rt'.reply ≡ frame (hello_payload (codes "f") (5 ∷ [])))
hello_call_example =
    hello_call (λ e. codes "trap") free_places instance_96 started (codes "f") (5 ∷ [])
      started-Shows refl zeros_96 (omega arith) (omega arith) (omega arith) (omega arith) payload_f
      call_f-Fits

-- Two bytes of memory as the function's name.
abbrev to_zeros : CallArgs
to_zeros = record { wl_ptr = 0; wl_len = 0; fn_ptr = 0; fn_len = 2; par_ptr = 4; par_len = 0 }

abbrev refuses : Bytes → Bytes → Bytes → Bool × Bytes
refuses wl fn par = (false, codes "no")

no-IsUtf8 : IsUtf8 (codes "no")
unfolding encode_scalars encode_scalar
no-IsUtf8 = (codes "no", omega arith, refl)

mesh_call_over_host_example :
    (inst' : Instance) × (mesh_call_at (import_call (some refuses) 8) instance_96 to_zeros
      ≡ done (err (codes "no"), inst'))
    × Shows inst' started
mesh_call_over_host_example =
    mesh_call_over_host refuses 8 instance_96 started to_zeros [] (0 ∷ 0 ∷ []) [] started-Shows
      zeros_96 (unfold load_string copy in refl) (unfold load_string copy in refl)
      (unfold load_string copy in refl) (λ e. cc, no-IsUtf8, omega arith, omega arith) (omega arith)
      (unfold find_alloc in refl) (unfold encode_text uleb_enc frame le32 in omega arith)
      (inl (omega arith))

-- A frame of four bytes, and one byte behind it.
abbrev refusal : Bytes
refusal = 4 ∷ 0 ∷ 0 ∷ 0 ∷ 1 ∷ 2 ∷ 110 ∷ 111 ∷ 9 ∷ []

refusal_read : read_wire_string (2 ∷ codes "no") ≡ some (codes "no")
unfolding read_wire_string read_groups
refusal_read = refl

read_reply-Told_example :
    (read_lenbuf refusal 0 ≡ done (1 ∷ 2 ∷ codes "no"))
    × (read_reply (1 ∷ 2 ∷ codes "no") ≡ Host.failed (codes "no"))
read_reply-Told_example =
    read_reply-Told refusal (1 ∷ 2 ∷ codes "no") (Host.failed (codes "no"))
      (unfold read_frame in refl) (told_error refusal_read)
