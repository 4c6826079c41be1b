-- ===== src/Cpp/Hello/Requests.antt =====
-- Requests that the bindings of guest/hello-cpp encode, and the calls that carry them.
use crabcraft.Prelude.{
  ℕ, ◌+◌, ◌%◌, ◌^◌, ◌≤◌, ◌<◌, ◌≡◌, refl, ◌∙◌, ap, arith, Bool, true, false, Option, none, some, [],
  ◌∷◌, ◌++◌, append_assoc, append-nil, Bytes, IsByte, All, All-append, ◌>>=◌, codes, length,
  length-append, done,
}
use crabcraft.Uleb.Encode.{encoding, encoding_shape, length-encoding}
use crabcraft.Reply.Frame.{frame, wire_string}
use crabcraft.Cpp.Res.{ok}
use crabcraft.Cpp.Encode.{encode_option_tag, encode_bool, encode_u32}
use crabcraft.Cpp.Encode.Uleb.{encode_uleb_lem}
use crabcraft.Cpp.Decoder.{Decoder}
use crabcraft.Cpp.Decoder.Reads.{IsDecoder, left, Meets}
use crabcraft.Cpp.Decoder.RoundTrip.{read_uleb-encoding}
use crabcraft.Cpp.Decoder.Uleb.{read_uleb}
use crabcraft.Cpp.Decoder.Strings.{
  read_string-wire_string, read_bit-byte, bit_byte, encode_string_lem,
}
use crabcraft.Cpp.Utf8.Whole.{IsUtf8}
use crabcraft.Cpp.Runtime.{Runtime, same_text, erase, crab_invoke}
use crabcraft.Cpp.Hello.{
  GreetRequest, encode_excited, has_value, encode_greet_request, decode_greet_request, greet_name,
  add_name, registration,
}
use crabcraft.Cpp.Hello.Parsers.{read_excited, read_request, request-Reads}
use crabcraft.Cpp.Hello.Handlers.{behind_name, greeting, greet_answer, add_answer, length-greeting}
use crabcraft.Cpp.Runtime.Maps.{same_text_refl}
use crabcraft.Cpp.Hello.Calls.{hello_payload, hello_exact}

-- The encoding of an optional flag, and of a request.
abbrev pub wire_excited : Option Bool → Bytes
wire_excited none = 0 ∷ []
wire_excited (some x) = 1 ∷ bit_byte x ∷ []

unfoldable pub wire_request : GreetRequest → Bytes
wire_request req = wire_string req.name ++ wire_excited req.excited

encode_excited_lem :
    (out : Bytes) (x : Option Bool)
    → encode_excited x (encode_option_tag out (has_value x)) ≡ out ++ wire_excited x
unfolding encode_option_tag encode_bool
encode_excited_lem out none = refl
encode_excited_lem out (some x) = append_assoc out (1 ∷ []) (bit_byte x ∷ [])

encode_request_lem :
    (out : Bytes) (req : GreetRequest)
    → length req.name < 2 ^ 32
    → encode_greet_request out req ≡ done (out ++ wire_request req)
unfolding encode_greet_request wire_request
encode_request_lem out req h =
    rw (encode_greet_request, encode_string_lem out req.name h)
      (ap done (
        encode_excited_lem (out ++ wire_string req.name) req.excited
        ∙ append_assoc out (wire_string req.name) (wire_excited req.excited)))

read_wire_excited :
    (name : Bytes) (x : Option Bool) (rest : Bytes)
    → behind_name name (wire_excited x ++ rest) ≡ ok (record { name = name; excited = x }, rest)
unfolding read_excited
read_wire_excited name none rest = rw (read_bit-byte (codes "option") false rest)
read_wire_excited name (some x) rest =
    rw
      (read_bit-byte (codes "option") true (bit_byte x ∷ rest), read_bit-byte (codes "bool") x rest)

read_wire_request :
    (req : GreetRequest) (rest : Bytes)
    → IsUtf8 req.name
    → length req.name < 2 ^ 32
    → read_request (wire_request req ++ rest) ≡ ok (req, rest)
unfolding read_request wire_request
read_wire_request req rest good small =
    rw
      (
        append_assoc (wire_string req.name) (wire_excited req.excited) rest,
        read_string-wire_string req.name (wire_excited req.excited ++ rest) good small,
      )
      (read_wire_excited req.name req.excited rest)

-- A request with a UTF-8 name: its encoder ends and appends its encoding. A decoder that stands before
-- this, whatever comes behind it, gives the request and stands behind it.
pub request_round_trip :
    (out rest : Bytes) (req : GreetRequest) (d : Decoder)
    → IsUtf8 req.name
    → length req.name < 2 ^ 32
    → IsDecoder d
    → left d ≡ wire_request req ++ rest
    → (encode_greet_request out req ≡ done (out ++ wire_request req))
      × Meets (decode_greet_request d) (ok (req, rest))
request_round_trip out rest req d good small valid begins = (
  encode_request_lem out req small,
  rw (begins, read_wire_request req rest good small) at (request-Reads.run d valid),
)

bit_byte-IsByte : (x : Bool) → IsByte (bit_byte x)
bit_byte-IsByte true = omega arith
bit_byte-IsByte false = omega arith

wire_excited-IsByte : (x : Option Bool) → All IsByte (wire_excited x)
wire_excited-IsByte none = omega arith
wire_excited-IsByte (some x) = (omega arith, (bit_byte-IsByte x, tt))

wire_request-IsByte :
    (req : GreetRequest)
    → All IsByte req.name
    → length req.name < 2 ^ 32
    → All IsByte (wire_request req)
unfolding wire_request wire_string
wire_request-IsByte req bytes small =
    All-append IsByte (encoding (length req.name) ++ req.name) (wire_excited req.excited)
      (All-append IsByte (encoding (length req.name)) req.name
        (encoding_shape (length req.name) (omega arith)).0 bytes)
      (wire_excited-IsByte req.excited)

length-wire_request : (req : GreetRequest) → length (wire_request req) ≤ length req.name + 12
unfolding wire_request wire_string
length-wire_request req = go req.excited
  where
    go :
        (x : Option Bool)
        → length ((encoding (length req.name) ++ req.name) ++ wire_excited x) ≤ length req.name + 12
    go none = omega (
      arith,
      length-append (encoding (length req.name) ++ req.name) (0 ∷ []),
      length-append (encoding (length req.name)) req.name,
      length-encoding (length req.name),
    )
    go (some x) = omega (
      arith,
      length-append (encoding (length req.name) ++ req.name) (1 ∷ bit_byte x ∷ []),
      length-append (encoding (length req.name)) req.name,
      length-encoding (length req.name),
    )

greet_answer_lem :
    (s : Bytes) (req : GreetRequest)
    → read_request s ≡ ok (req, [])
    → greet_answer s ≡ ok (wire_string (greeting req), [])
greet_answer_lem s req e = rw e refl

greet_payload :
    (req : GreetRequest)
    → IsUtf8 req.name
    → length req.name < 2 ^ 32
    → hello_payload greet_name (wire_request req) ≡ 0 ∷ wire_string (greeting req)
greet_payload req good small =
    let read = read_wire_request req [] good small in
    let alone = rw append-nil at read in
    let answer : greet_answer (wire_request req) ≡ ok (wire_string (greeting req), []) =
      greet_answer_lem (wire_request req) req alone in
    unfold hello_payload in rw (same_text_refl greet_name, answer) refl

-- The caller encodes a request, whose name is UTF-8 and shorter than `2 ^ 30` bytes, and calls `greet`:
-- nothing fails, the reply is the frame of the encoded greeting, the handlers stay, and the buffers of
-- the call are no longer pinned.
pub greet_call :
    (rt : Runtime) (name_ptr arg_ptr : ℕ) (req : GreetRequest)
    → rt.handlers ≡ registration []
    → IsUtf8 req.name
    → All IsByte req.name
    → length req.name < 2 ^ 30
    → (encode_greet_request [] req >>= λ params.
        crab_invoke rt name_ptr greet_name (length greet_name) arg_ptr params (length params))
      ≡ done (record {
        handlers = rt.handlers;
        allocs = erase (erase rt.allocs name_ptr) arg_ptr;
        reply = frame (0 ∷ wire_string (greeting req));
      })
greet_call rt name_ptr arg_ptr req registered good bytes small =
    let payload = greet_payload req good (omega arith) in
    let size : length (0 ∷ wire_string (greeting req)) < 2 ^ 32 = size_lem in
    let name_small : length greet_name < 2 ^ 31 = omega arith in
    let call =
      hello_exact rt name_ptr arg_ptr greet_name (wire_request req) registered name_small
        (wire_request-IsByte req bytes (omega arith)) (omega (arith, length-wire_request req))
        (rw payload size) in
    rw (encode_request_lem [] req (omega arith)) (rw payload at call)
  where
    size_lem : length (0 ∷ wire_string (greeting req)) < 2 ^ 32
    size_lem =
        unfold wire_string in
        omega (
          arith,
          length-greeting req,
          length-append (encoding (length (greeting req))) (greeting req),
          length-encoding (length (greeting req)),
        )

encode_u32_lem : (out : Bytes) (v : ℕ) → v < 2 ^ 32 → encode_u32 out v ≡ done (out ++ encoding v)
unfolding encode_u32
encode_u32_lem out v h = encode_uleb_lem out v (omega arith)

add_answer_lem :
    (a b : ℕ)
    → a < 2 ^ 32
    → b < 2 ^ 32
    → add_answer (encoding a ++ encoding b) ≡ ok (encoding ((a + b) % 2 ^ 32), [])
add_answer_lem a b ha hb =
    let second : read_uleb 5 32 (encoding b) ≡ ok (b, []) =
      rw append-nil at (read_uleb-encoding 32 b [] (omega arith) (omega arith) hb) in
    rw (read_uleb-encoding 32 a (encoding b) (omega arith) (omega arith) ha, second) refl

add_payload :
    (a b : ℕ)
    → a < 2 ^ 32
    → b < 2 ^ 32
    → hello_payload add_name (encoding a ++ encoding b) ≡ 0 ∷ encoding ((a + b) % 2 ^ 32)
add_payload a b ha hb =
    let other : same_text greet_name add_name ≡ false = unfold same_text in refl in
    unfold hello_payload in rw (other, same_text_refl add_name, add_answer_lem a b ha hb) refl

-- The caller encodes two numbers of 32 bits and calls `add`: nothing fails, the reply is the frame of
-- their sum's encoding modulo `2 ^ 32`, the handlers stay, and the buffers of the call are no longer pinned.
pub add_call :
    (rt : Runtime) (name_ptr arg_ptr a b : ℕ)
    → rt.handlers ≡ registration []
    → a < 2 ^ 32
    → b < 2 ^ 32
    → (encode_u32 [] a >>= λ first. encode_u32 first b >>= λ params.
        crab_invoke rt name_ptr add_name (length add_name) arg_ptr params (length params))
      ≡ done (record {
        handlers = rt.handlers;
        allocs = erase (erase rt.allocs name_ptr) arg_ptr;
        reply = frame (0 ∷ encoding ((a + b) % 2 ^ 32));
      })
add_call rt name_ptr arg_ptr a b registered ha hb =
    let payload = add_payload a b ha hb in
    let size : length (0 ∷ encoding ((a + b) % 2 ^ 32)) < 2 ^ 32 =
      omega (arith, length-encoding ((a + b) % 2 ^ 32)) in
    let bytes =
      All-append IsByte (encoding a) (encoding b) (encoding_shape a (omega arith)).0
        (encoding_shape b (omega arith)).0 in
    let name_small : length add_name < 2 ^ 31 = omega arith in
    let call =
      hello_exact rt name_ptr arg_ptr add_name (encoding a ++ encoding b) registered name_small
        bytes
        (omega
          (arith, length-append (encoding a) (encoding b), length-encoding a, length-encoding b))
        (rw payload size) in
    rw (encode_u32_lem [] a ha, encode_u32_lem (encoding a) b hb) (rw payload at call)
