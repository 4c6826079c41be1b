-- ===== src/Cpp/Mesh/Replies.antt =====
-- What a caller over the mesh makes of the reply to its call (tools/crabgen/templates/cpp/mesh.cpp).
use crabcraft.Prelude.{
  ℕ, take_all, ◌+◌, ◌*◌, ◌/◌, ◌%◌, ◌^◌, ◌<◌, ◌≡◌, ◌≢◌, refl, ◌∙◌, ap, arith, true, false, [], ◌∷◌,
  ◌++◌, Bytes, IsByte, All, codes, length, length-append, drop, take-append_exact, leb, ◌==◌,
  if◌then◌else◌, Bool-cases, inl, inr, Outcome, done, ◌>>=◌,
}
use Prim.Native.Nat.{bit_or}
use crabcraft.Prelude.Bits.{bit_or_fields}
use crabcraft.Uleb.{load}
use crabcraft.Reply.Frame.{le32, frame}
use crabcraft.Cpp.Res.{Res, ok, err, fail}
use crabcraft.Cpp.Decoder.{Decoder, decoder, remaining, string}
use crabcraft.Cpp.Decoder.Reads.{IsDecoder, left, length-left, Meets}
use crabcraft.Cpp.Decoder.Strings.{read_string, string_lem}
use crabcraft.Cpp.Runtime.{copy}
use crabcraft.Cpp.Mesh.{error_reply, parse_mesh_reply, reply_length}

-- The message that an error reply holds behind its status.
abbrev pub error_text : Res (Bytes × Bytes) → Res Bytes
error_text (err e) = fail [] (codes "mesh call: malformed error reply")
error_text (ok (msg, [])) = fail [] msg
error_text (ok (msg, c ∷ s)) = fail [] (codes "mesh call: malformed error reply (trailing bytes)")

-- What docs/WIRE.md has a payload stand for, and the errors of one that it does not allow.
pub data Stands : Bytes → Res Bytes → Type 0 where
  result : {body : Bytes} → Stands (0 ∷ body) (ok body)
  error : {body msg : Bytes} → read_string body ≡ ok (msg, []) → Stands (1 ∷ body) (err msg)
  no_text :
      {body e : Bytes}
      → read_string body ≡ err e
      → Stands (1 ∷ body) (err (codes "mesh call: malformed error reply"))
  more_than_text :
      {body msg s : Bytes} {c : ℕ}
      → read_string body ≡ ok (msg, c ∷ s)
      → Stands (1 ∷ body) (err (codes "mesh call: malformed error reply (trailing bytes)"))
  no_payload : Stands [] (err (codes "mesh call: empty reply"))
  no_status :
      {status : ℕ} {body : Bytes}
      → status ≢ 0
      → status ≢ 1
      → Stands (status ∷ body) (err (codes "mesh call: invalid reply status"))

-- What the code makes of a payload: with an empty message it is no failure.
unfoldable pub mesh_result : Bytes → Res Bytes
mesh_result [] = err (codes "mesh call: empty reply")
mesh_result (status ∷ body) =
    if status == 0
    then ok body
    else if status == 1
    then error_text (read_string body)
    else err (codes "mesh call: invalid reply status")

pub fail_text : (msg : Bytes) → msg ≢ [] → fail {A = Bytes} [] msg ≡ err msg
fail_text [] h = absurd (h refl)
fail_text (c ∷ msg) h = refl

-- An error with an empty message is the one case where the two differ.
pub Stands-mesh_result :
    {payload : Bytes} {r : Res Bytes} → Stands payload r → r ≢ err [] → mesh_result payload ≡ r
unfolding mesh_result
Stands-mesh_result result h = refl
Stands-mesh_result (error {msg = msg} e) h = rw e (fail_text msg (λ q. h (ap err q)))
Stands-mesh_result (no_text e) h = rw e refl
Stands-mesh_result (more_than_text e) h = rw e refl
Stands-mesh_result no_payload h = refl
Stands-mesh_result (no_status {status = status} p q) h =
    let zeroth : (status == 0) ≡ false = ground arith in
    let first : (status == 1) ≡ false = ground arith in rw (zeroth, first) refl

error_reply_lem :
    (d : Decoder) (msg s : Bytes)
    → IsDecoder d
    → left d ≡ s
    → error_reply (ok msg) d ≡ error_text (ok (msg, s))
unfolding error_reply
error_reply_lem d msg [] h e =
    let size = ap (λ (t : Bytes). length t) e in
    let test : (remaining d == 0) ≡ true = ground (arith, length-left d, h.held) in rw test
error_reply_lem d msg (c ∷ s) h e =
    let size = ap (λ (t : Bytes). length t) e in
    let test : (remaining d == 0) ≡ false = ground (arith, length-left d, h.held) in rw test

error_body :
    (o : Outcome (Res Bytes × Decoder)) (r : Res (Bytes × Bytes))
    → Meets o r
    → (o >>= λ got. done (error_reply got.0 got.1)) ≡ done (error_text r)
error_body o (ok (msg, s)) (d, ran, h, rest) = rw ran (ap done (error_reply_lem d msg s h rest))
error_body o (err e) (d, ran, h) = unfold error_reply in rw ran

-- Any payload shorter than `2 ^ 31` bytes, well formed or not: `ParseMeshReply` ends without a fault,
-- in what the code makes of the payload.
pub parse_mesh_reply_lem :
    (payload : Bytes)
    → All IsByte payload
    → length payload < 2 ^ 31
    → parse_mesh_reply payload ≡ done (mesh_result payload)
unfolding parse_mesh_reply mesh_result
parse_mesh_reply_lem [] bytes small = refl
parse_mesh_reply_lem (status ∷ body) (b, bytes) small = elim (Bool-cases (status == 0)) [
  | inl is_value ↦ rw is_value
  | inr other ↦ elim (Bool-cases (status == 1)) [
    | inl is_error ↦
        rw (other, is_error)
          (error_body (string (decoder body (length body))) (read_string body) (
            rw (take_all (length body) body (omega arith)) at (
              string_lem (decoder body (length body)) (record {
                held = omega arith;
                inside = omega arith;
                bytes = bytes;
                small = omega arith;
              }))))
    | inr neither ↦ rw (other, neither)
  ]
]

-- Four bytes put together.
join_bytes :
    (a b c d : ℕ)
    → a < 256
    → b < 256
    → c < 256
    → d < 256
    → bit_or (bit_or (bit_or a (b * 2 ^ 8 % 2 ^ 32)) (c * 2 ^ 16 % 2 ^ 32)) (d * 2 ^ 24 % 2 ^ 32)
      ≡ a + b * 256 + c * 65536 + d * 16777216
join_bytes a b c d ha hb hc hd =
    let eb : b * 2 ^ 8 % 2 ^ 32 ≡ b * 2 ^ 8 = omega arith in
    let ec : c * 2 ^ 16 % 2 ^ 32 ≡ c * 2 ^ 16 = omega arith in
    let ed : d * 2 ^ 24 % 2 ^ 32 ≡ d * 2 ^ 24 = omega arith in
    let ab = bit_or_fields 8 a b (omega arith) in
    let abc = bit_or_fields 16 (a + b * 2 ^ 8) c (omega arith) in
    let abcd = bit_or_fields 24 (a + b * 2 ^ 8 + c * 2 ^ 16) d (omega arith) in
    rw (eb, ec, ed, ab, abc, abcd) (omega arith)

pub reply_length-frame :
    (payload junk : Bytes)
    → length payload < 2 ^ 32
    → reply_length (frame payload ++ junk) ≡ done (length payload)
unfolding reply_length frame le32 load
reply_length-frame payload junk h =
    let n = length payload in
    let joined =
      join_bytes (n % 256) (n / 256 % 256) (n / 65536 % 256) (n / 16777216 % 256) (omega arith)
        (omega arith) (omega arith) (omega arith) in
    ap done (joined ∙ omega arith)

pub frame-body :
    (payload junk : Bytes) → copy (drop 4 (frame payload ++ junk)) (length payload) ≡ done payload
unfolding copy frame le32
frame-body payload junk =
    let fits : leb (length payload) (length (payload ++ junk)) ≡ true =
      ground (arith, length-append payload junk) in
    rw (fits, take-append_exact payload junk)
