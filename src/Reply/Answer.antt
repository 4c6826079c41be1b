-- ===== src/Reply/Answer.antt =====
-- The host's view of a reply, independent of the code that writes it: the layout of docs/WIRE.md.
use crabcraft.Prelude.{
  ℕ, ◌+◌, ◌*◌, ◌/◌, ◌%◌, ◌^◌, ◌≤◌, ◌<◌, ◌≡◌, refl, sym, arith, Bool, true, false, Option, none,
  some, [], ◌∷◌, ◌++◌, Bytes, length, take, drop, leb, ◌==◌, if◌then◌else◌, Outcome, done,
  take-append-drop, take-append_exact, length-append,
}
use crabcraft.Buffer.{Allocator, Buf, block, used}
use crabcraft.Buffer.Valid.{limit, IsValid, contents, Plentiful}
use crabcraft.Uleb.Encode.{encoding, length-encoding}
use crabcraft.Uleb.Decode.{read_groups}
use crabcraft.Uleb.RoundTrip.{read_groups-encoding}
use crabcraft.Reply.{reply_abi_err, reply_result}
use crabcraft.Reply.Frame.{le32, frame, wire_string, reply_abi_err_lem, reply_result_lem}

-- `failed` is a protocol error; `ok` and `err` are the cases of `result<string, string>`.
pub data Answer : Type 0 where
  ok err failed : Bytes → Answer

-- The payload of a frame at the start of the memory `m`.
unfoldable pub read_frame : Bytes → Option Bytes
read_frame (a ∷ b ∷ c ∷ d ∷ m) =
    let n = a + b * 256 + c * 65536 + d * 16777216 in
    if leb n (length m) then some (take n m) else none
read_frame m = none

-- A length in LEB128, and that many bytes to the last; whether they are UTF-8 plays no part.
unfoldable pub read_wire_string : Bytes → Option Bytes
read_wire_string s = elim (read_groups 5 s) [
  | none ↦ none
  | some (n, rest) ↦ if n == length rest then some rest else none
]

abbrev pub answer_with : (Bytes → Answer) → Option Bytes → Option Answer
answer_with f none = none
answer_with f (some s) = some (f s)

unfoldable pub read_case : Bytes → Option Answer
read_case [] = none
read_case (c ∷ s) =
    if c == 0
    then answer_with ok (read_wire_string s)
    else if c == 1
    then answer_with err (read_wire_string s)
    else none

unfoldable pub read_payload : Bytes → Option Answer
read_payload [] = none
read_payload (status ∷ s) =
    if status == 1
    then answer_with failed (read_wire_string s)
    else if status == 0
    then read_case s
    else none

-- What the host reads at the pointer that a call returns.
unfoldable pub read_answer : Bytes → Option Answer
read_answer m = elim (read_frame m) [ none ↦ none | some payload ↦ read_payload payload ]

le32_value :
    (n : ℕ)
    → n < 2 ^ 32
    → n % 256 + n / 256 % 256 * 256 + n / 65536 % 256 * 65536 + n / 16777216 % 256 * 16777216 ≡ n
le32_value n h = omega arith

read_frame-frame :
    (payload junk : Bytes)
    → length payload < 2 ^ 32
    → read_frame (frame payload ++ junk) ≡ some payload
unfolding read_frame frame le32
read_frame-frame payload junk h =
    let fits : leb (length payload) (length (payload ++ junk)) ≡ true =
      ground (arith, length-append payload junk) in
    rw (le32_value (length payload) h, fits, take-append_exact payload junk)

read_wire_string-wire_string :
    (s : Bytes) → length s < 2 ^ 32 → read_wire_string (wire_string s) ≡ some s
unfolding read_wire_string wire_string
read_wire_string-wire_string s h =
    let same : (length s == length s) ≡ true = ground arith in
    rw (read_groups-encoding (length s) s h, read_wire_string, same)

read_payload_failed :
    (s : Bytes) → length s < 2 ^ 32 → read_payload (1 ∷ wire_string s) ≡ some (failed s)
unfolding read_payload
read_payload_failed s h = rw (read_wire_string-wire_string s h)

read_payload_result :
    (err_case : Bool) (s : Bytes)
    → length s < 2 ^ 32
    → read_payload (0 ∷ (if err_case then 1 else 0) ∷ wire_string s)
      ≡ some (if err_case then err s else ok s)
unfolding read_payload read_case
read_payload_result true s h = rw (read_wire_string-wire_string s h)
read_payload_result false s h = rw (read_wire_string-wire_string s h)

-- The block of a buffer begins with its contents.
block-used : (p : Option Bytes) (len : ℕ) → (junk : Bytes) × (block p ≡ used p len ++ junk)
block-used none len = ([], refl)
block-used (some m) len = (drop len m, sym (take-append-drop len m))

pub frame_of_block :
    (b : Buf) (payload : Bytes)
    → contents b ≡ frame payload
    → length payload < 2 ^ 32
    → read_frame (block b.p) ≡ some payload
frame_of_block b payload held h =
    let (junk, begins) = block-used b.p b.len in rw (begins, held) (read_frame-frame payload junk h)

answer_of_frame :
    (b : Buf) (payload : Bytes) {a : Answer}
    → contents b ≡ frame payload
    → length payload < 2 ^ 32
    → read_payload payload ≡ some a
    → read_answer (block b.p) ≡ some a
unfolding read_answer
answer_of_frame b payload held h e = rw (frame_of_block b payload held h, read_answer) e

length-wire_string : (s : Bytes) → length (wire_string s) ≤ length s + 10
unfolding wire_string
length-wire_string s =
    omega (arith, length-encoding (length s), length-append (encoding (length s)) s)

-- The call ends without a fault and leaves a valid buffer, and the host reads `a` at its block.
abbrev pub Answers : Outcome Buf → Answer → Type 0
Answers o a = (b : Buf) × (o ≡ done b) × IsValid b × (read_answer (block b.p) ≡ some a)

module _ (heap : Allocator) (reply : Buf) (serves : Plentiful heap) (valid : IsValid reply) where
  -- Whatever `REPLY` held, the host reads a protocol error with the message that `reply_abi_err`
  -- was given.
  pub reply_abi_err-Answers :
      (msg : Bytes) → length msg + 16 ≤ limit → Answers (reply_abi_err heap reply msg) (failed msg)
  reply_abi_err-Answers msg h =
      let (b, ran, v, held) = reply_abi_err_lem heap serves reply valid msg h in
      (
        b,
        ran,
        v,
        answer_of_frame b _ held (omega (arith, length-wire_string msg))
            (read_payload_failed msg (omega arith)),
      )

  -- Whatever `REPLY` held, the host reads the case and the string that `reply_result` was given.
  pub reply_result-Answers :
      (err_case : Bool) (s : Bytes)
      → length s + 16 ≤ limit
      → Answers (reply_result heap reply err_case s) (if err_case then err s else ok s)
  reply_result-Answers err_case s h =
      let (b, ran, v, held) = reply_result_lem heap serves reply valid err_case s h in
      (
        b,
        ran,
        v,
        answer_of_frame b _ held (omega (arith, length-wire_string s))
            (read_payload_result err_case s (omega arith)),
      )
