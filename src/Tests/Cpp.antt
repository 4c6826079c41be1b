-- ===== src/Tests/Cpp.antt =====
-- The theorems about the C++ runtime and the guest hello-cpp at concrete inputs.
use crabcraft.Prelude.{
  ℕ, ◌+◌, ◌^◌, ◌<◌, ◌≡◌, ◌↔◌, refl, arith, Bool, true, Option, some, [], ◌∷◌, ◌++◌, Bytes, codes,
  length, done, List, false, ◌/◌, none, ◌==◌, if◌then◌else◌,
}
use crabcraft.Uleb.{uleb_get32}
use crabcraft.Uleb.Encode.{encoding, groups}
use crabcraft.Reply.Frame.{frame, wire_string}
use crabcraft.Cpp.Res.{ok, err}
use crabcraft.Cpp.Utf8.{utf8_valid}
use crabcraft.Cpp.Utf8.Scalars.{encode_scalar, encode_scalars}
use crabcraft.Cpp.Utf8.Whole.{IsUtf8, utf8_valid_iff}
use crabcraft.Cpp.Decoder.{Decoder, decoder, uleb, u32, flags}
use crabcraft.Cpp.Decoder.Reads.{IsDecoder, Meets}
use crabcraft.Cpp.Decoder.Uleb.{read_uleb, uleb_lem}
use crabcraft.Cpp.Decoder.Unsigned.{Same, uleb_get32-u32}
use crabcraft.Format.{negsuc}
use crabcraft.Cpp.Encode.Sleb.{signed_encoding, signed_groups}
use crabcraft.Cpp.Primitive.{signed_32, boolean}
use crabcraft.Cpp.Wire.{
  WireType, primitive, option_type, list_type, tuple_type, Content, encode_wire,
}
use crabcraft.Cpp.Wire.Decode.{decode_wire}
use crabcraft.Cpp.Wire.RoundTrip.{wire_content, wire_round_trip}
use crabcraft.Cpp.Runtime.{
  Handler, Runtime, Allocs, same_text, find_handler, find_alloc, erase, crab_alloc, crab_invoke,
}
use crabcraft.Cpp.Runtime.Calls.{Payload, unknown, failure, crab_invoke_lem, crab_invoke_pins}
use crabcraft.Cpp.Hello.{
  GreetRequest, registration, Export, alloc_call, schema_call, invoke_call, hello_start,
  run_exports,
}
use crabcraft.Cpp.Hello.Calls.{hello_payload, hello_lem}
use crabcraft.Cpp.Hello.Sessions.{run_exports_lem}
use crabcraft.Cpp.Encode.{encode_flags, set_flags, or_at}
use crabcraft.Cpp.Decoder.Flags.{flags_round_trip}
use crabcraft.Cpp.Mesh.{HostReply, mesh_call}
use crabcraft.Cpp.Mesh.Replies.{result}
use crabcraft.Cpp.Mesh.Calls.{mesh_call_lem, relay_lem}

-- 150 in two bytes, and one byte more.
abbrev three : Bytes
three = 0x96 ∷ 0x01 ∷ 5 ∷ []

abbrev three_decoder : Decoder
three_decoder = decoder three 3

three_decoder-IsDecoder : IsDecoder three_decoder
three_decoder-IsDecoder = record {
  held = omega arith;
  inside = omega arith;
  bytes = omega arith;
  small = omega arith;
}

uleb_lem_example : Meets (uleb 32 three_decoder) (ok (150, 5 ∷ []))
unfolding read_uleb
uleb_lem_example = uleb_lem 32 three_decoder (omega arith) (omega arith) three_decoder-IsDecoder

uleb_get32-u32_example :
    (got : ℕ × Option ℕ) × (uleb_get32 three (length three) 0 ≡ done got)
    × Same three got (u32 (record { buf = three; len = length three; pos = 0 }))
uleb_get32-u32_example = uleb_get32-u32 three 0 (omega arith) (omega arith) (omega arith)

-- The letter é.
abbrev e_acute : Bytes
e_acute = 0xc3 ∷ 0xa9 ∷ []

e_acute-IsUtf8 : IsUtf8 e_acute
unfolding encode_scalars encode_scalar
e_acute-IsUtf8 = (0xe9 ∷ [], omega arith, refl)

utf8_valid_iff_example :
    (valid : Bool) × (utf8_valid e_acute (length e_acute) ≡ done valid)
    × ((valid ≡ true) ↔ IsUtf8 e_acute)
utf8_valid_iff_example = utf8_valid_iff e_acute (omega arith)

-- A list of numbers, and an optional flag.
abbrev mixed : WireType
mixed = tuple_type (list_type (primitive signed_32)) (option_type (primitive boolean))

abbrev mixed_value : Content mixed
mixed_value = (negsuc 99999 ∷ [], some true)

-- The number -100000 takes three bytes. One byte more follows.
abbrev mixed_decoder : Decoder
mixed_decoder = decoder (1 ∷ 0xe0 ∷ 0xf2 ∷ 0x79 ∷ 1 ∷ 1 ∷ 5 ∷ []) 7

mixed_decoder-IsDecoder : IsDecoder mixed_decoder
mixed_decoder-IsDecoder = record {
  held = omega arith;
  inside = omega arith;
  bytes = omega arith;
  small = omega arith;
}

wire_round_trip_example :
    (encode_wire mixed [] mixed_value ≡ done ([] ++ wire_content mixed mixed_value))
    × Meets (decode_wire mixed mixed_decoder) (ok (mixed_value, 5 ∷ []))
wire_round_trip_example =
    wire_round_trip mixed [] (5 ∷ []) mixed_value mixed_decoder
      ((omega arith, (omega arith, tt)), tt) mixed_decoder-IsDecoder
      (unfold signed_encoding signed_groups encoding groups in refl)

-- A runtime with no handler but a buffer that the host allocated.
abbrev bare : Runtime
bare = record { handlers = []; allocs = (8, 0 ∷ []) ∷ []; reply = [] }

abbrev unknown_payload : Bytes
unknown_payload = 1 ∷ wire_string (codes "unknown function: " ++ codes "f")

f_unknown :
    (rt : Runtime) → rt.handlers ≡ [] → Payload rt (codes "f") (decoder [] 0) unknown_payload
f_unknown rt e = unknown (rw e (unfold find_handler in refl))

unknown_payload_small : length unknown_payload < 2 ^ 32
unknown_payload_small = unfold wire_string encoding groups in omega arith

crab_invoke_lem_example :
    crab_invoke bare 8 (codes "f") 1 9 [] 0
    ≡ done (record {
      handlers = [];
      allocs = erase (erase bare.allocs 8) 9;
      reply = frame unknown_payload;
    })
crab_invoke_lem_example =
    crab_invoke_lem bare 8 (codes "f") 1 9 [] 0 (omega arith) (f_unknown bare refl)
      unknown_payload_small

crab_invoke_pins_example :
    (rt' : Runtime) × (crab_invoke (crab_alloc (crab_alloc bare 16 1) 24 0) 16 (codes "f") 1 24 [] 0
      ≡ done rt')
    × (find_alloc rt'.allocs 8 ≡ find_alloc bare.allocs 8)
crab_invoke_pins_example =
    crab_invoke_pins bare 16 24 (codes "f") 1 [] 0 8 (unfold find_alloc in refl)
      (unfold find_alloc in refl) (omega arith)
      (f_unknown (crab_alloc (crab_alloc bare 16 1) 24 0) (unfold crab_alloc in refl))
      unknown_payload_small

-- The guest after its static objects are constructed.
abbrev hello : Runtime
hello = record { handlers = registration []; allocs = []; reply = [] }

hello_payload_small : length (hello_payload (codes "f") []) < 2 ^ 32
unfolding hello_payload same_text wire_string encoding groups
hello_payload_small = omega arith

hello_lem_example :
    crab_invoke hello 8
      (codes "f" ++ (7 ∷ []))
      (length (codes "f"))
      16
      ([] ++ (9 ∷ []))
      (length {A = ℕ} [])
    ≡ done (record {
      handlers = registration [];
      allocs = erase (erase hello.allocs 8) 16;
      reply = frame (hello_payload (codes "f") []);
    })
hello_lem_example =
    hello_lem hello 8 16 (codes "f") (7 ∷ []) [] (9 ∷ []) refl (omega arith) tt (omega arith)
      (omega arith) hello_payload_small

abbrev ada : GreetRequest
ada = record { name = codes "Ada"; excited = some true }

ada-IsUtf8 : IsUtf8 (codes "Ada")
unfolding encode_scalars encode_scalar
ada-IsUtf8 = (codes "Ada", omega arith, refl)

abbrev ada_decoder : Decoder
ada_decoder = decoder (3 ∷ 65 ∷ 100 ∷ 97 ∷ 1 ∷ 1 ∷ []) 6

ada_decoder-IsDecoder : IsDecoder ada_decoder
ada_decoder-IsDecoder = record {
  held = omega arith;
  inside = omega arith;
  bytes = omega arith;
  small = omega arith;
}

-- Two calls after an allocation.
abbrev hello_session : List Export
hello_session = alloc_call 8 1 ∷ schema_call ∷ invoke_call 8 (codes "f") 1 16 [] 0 ∷ []

run_exports_lem_example :
    (rt' : Runtime) × (run_exports hello_start hello_session ≡ done rt')
    × (rt'.handlers ≡ registration [])
    × (rt'.reply ≡ frame (hello_payload (codes "f") []))
run_exports_lem_example =
    run_exports_lem hello_session
      (tt, (tt, ((refl, omega arith, refl, tt, omega arith, hello_payload_small), tt)))

abbrev nine_flags : List Bool
nine_flags = true ∷ false ∷ true ∷ false ∷ false ∷ false ∷ false ∷ false ∷ true ∷ []

abbrev flags_decoder : Decoder
flags_decoder = decoder (5 ∷ 1 ∷ 7 ∷ []) 3

flags_decoder-IsDecoder : IsDecoder flags_decoder
flags_decoder-IsDecoder = record {
  held = omega arith;
  inside = omega arith;
  bytes = omega arith;
  small = omega arith;
}

flags_round_trip_example :
    (encode_flags (9 ∷ []) nine_flags ≡ (9 ∷ []) ++ encode_flags [] nine_flags)
    × (length (encode_flags [] nine_flags) ≡ (9 + 7) / 8)
    × Meets (flags 9 flags_decoder) (ok (nine_flags, 7 ∷ []))
flags_round_trip_example =
    flags_round_trip nine_flags (9 ∷ []) (7 ∷ []) flags_decoder flags_decoder-IsDecoder
      (unfold encode_flags set_flags or_at in refl)

-- A host that puts the same reply at the address 32 for every call.
abbrev answering : Bytes → Allocs → Bytes → Bytes → Bytes → HostReply
answering reply allocs workload fn params = record {
  ptr = 32;
  memory = reply ++ (7 ∷ []);
  allocs = (32, reply) ∷ allocs;
}

mesh_call_lem_example :
    (allocs' : Allocs) × (mesh_call (answering (frame (0 ∷ 5 ∷ []))) [] (codes "w") (codes "f") []
      ≡ done (ok (5 ∷ []), allocs'))
    × ((q : ℕ)
        → find_alloc allocs' q
          ≡ (if 32 == q then none else find_alloc ((32, frame (0 ∷ 5 ∷ [])) ∷ []) q))
mesh_call_lem_example =
    mesh_call_lem (answering (frame (0 ∷ 5 ∷ []))) [] (codes "w") (codes "f") [] (0 ∷ 5 ∷ [])
      (7 ∷ []) (ok (5 ∷ [])) (omega arith) refl (omega arith) (omega arith) result (λ e. cc)

abbrev refusing : Handler
refusing d = done (err (codes "no"), d)

abbrev refusing_guest : Runtime
refusing_guest = record { handlers = (codes "f", refusing) ∷ []; allocs = []; reply = [] }

abbrev refusal : Bytes
refusal = frame (1 ∷ wire_string (codes "f: no"))

found_refusing : find_handler refusing_guest.handlers (codes "f") ≡ some refusing
unfolding find_handler same_text
found_refusing = refl

refusal_small : length (1 ∷ wire_string (codes "f: no")) < 2 ^ 32
refusal_small = unfold wire_string encoding groups in omega arith

refusal-IsUtf8 : IsUtf8 (codes "f: no")
unfolding encode_scalars encode_scalar
refusal-IsUtf8 = (codes "f: no", omega arith, refl)

relay_lem_example :
    mesh_call (answering refusal) [] (codes "w") (codes "f") []
    ≡ done (err (codes "f: no"), erase ((32, refusal) ∷ []) 32)
relay_lem_example =
    relay_lem (answering refusal) [] (codes "w") (codes "f") [] (7 ∷ []) refusing_guest
      (record {
        handlers = refusing_guest.handlers;
        allocs = erase (erase [] 8) 16;
        reply = refusal;
      })
      8 16 (err (codes "no")) (omega arith) (omega arith) found_refusing refl
      (refusal-IsUtf8, omega arith, omega arith)
      (crab_invoke_lem refusing_guest 8 (codes "f") 1 16 [] 0 (omega arith)
        (failure found_refusing refl) refusal_small)
      (omega arith) refl
