-- ===== src/Reply/Frame.antt =====
-- What the replies hold: the bytes that `lenbuf`, `reply_abi_err` and `reply_result` leave in `REPLY`.
use crabcraft.Prelude.{
  ℕ, ◌+◌, ◌/◌, ◌%◌, ◌≤◌, ◌≡◌, refl, arith, Bool, [], ◌∷◌, ◌++◌, Bytes, length, length-append,
  if◌then◌else◌, Outcome, ◌>>=◌, >>=-assoc,
}
use crabcraft.Prelude.Bits.{bit_and_255}
use crabcraft.Buffer.{Allocator, Buf, zeroed, breset, used}
use crabcraft.Buffer.Valid.{limit, IsValid, Plentiful}
use crabcraft.Buffer.Appends.{
  Writes, Appends, Appends-then, Appends-run, bput-Appends, bputc-Appends, bputs-Appends,
  breset_lem, zeroed-IsValid,
}
use crabcraft.Uleb.Encode.{encoding, length-encoding, uleb_put-Appends}
use crabcraft.Reply.{header, lenbuf, reply_abi_err, reply_result}

-- A number below `2 ^ 32` in little-endian order.
unfoldable pub le32 : ℕ → Bytes
le32 n = (n % 256) ∷ (n / 256 % 256) ∷ (n / 65536 % 256) ∷ (n / 16777216 % 256) ∷ []

header-le32 : (n : ℕ) → header n ≡ le32 n
unfolding header le32
header-le32 n = simp bit_and_255

unfoldable pub frame : Bytes → Bytes
frame payload = le32 (length payload) ++ payload

length-header : (n : ℕ) → length (header n) ≡ 4
unfolding header
length-header n = refl

-- A string of the wire format.
unfoldable pub wire_string : Bytes → Bytes
wire_string s = encoding (length s) ++ s

module _ (heap : Allocator) (serves : Plentiful heap) (reply : Buf) (valid : IsValid reply) where
  pub lenbuf_lem :
      (payload : Bytes)
      → length payload + 4 ≤ limit
      → Writes (lenbuf heap reply payload) (frame payload)
  unfolding lenbuf frame
  lenbuf_lem payload h =
      let (fresh, empty) = breset_lem reply valid in
      let body : Appends _ (header (length payload) ++ payload) =
        Appends-then (bput-Appends heap serves (header (length payload)))
          (bput-Appends heap serves payload) in
      rw (← header-le32 (length payload)) (
        Appends-run (breset reply) body fresh empty (
          omega (
            arith,
            length-append (header (length payload)) payload,
            length-header (length payload),
          )))

  -- A payload that is composed in a local buffer, then framed.
  compose_lem :
      {f : Buf → Outcome Buf} {xs : Bytes}
      → Appends f xs
      → length xs + 4 ≤ limit
      → Writes (f zeroed >>= λ b. lenbuf heap reply (used b.p b.len)) (frame xs)
  compose_lem {xs = xs} a h =
      let (b, ran, v, held) = Appends-run zeroed a zeroed-IsValid refl (omega arith) in
      let framed : Writes (lenbuf heap reply (used b.p b.len)) (frame xs) =
        rw held (lenbuf_lem xs h) in
      rw ran framed

  pub reply_abi_err_lem :
      (msg : Bytes)
      → length msg + 16 ≤ limit
      → Writes (reply_abi_err heap reply msg) (frame (1 ∷ wire_string msg))
  unfolding reply_abi_err wire_string
  reply_abi_err_lem msg h = simp >>=-assoc at (
      compose_lem
        (Appends-then (bputc-Appends heap serves 1) (
          Appends-then (uleb_put-Appends heap (length msg) serves (omega arith))
            (bputs-Appends heap serves msg)))
        (omega (arith, length-encoding (length msg), length-append (encoding (length msg)) msg)))

  pub reply_result_lem :
      (err_case : Bool) (s : Bytes)
      → length s + 16 ≤ limit
      → Writes
          (reply_result heap reply err_case s)
          (frame (0 ∷ (if err_case then 1 else 0) ∷ wire_string s))
  unfolding reply_result wire_string
  reply_result_lem err_case s h = simp >>=-assoc at (
      compose_lem
        (Appends-then (bputc-Appends heap serves 0) (
          Appends-then (bputc-Appends heap serves (if err_case then 1 else 0)) (
            Appends-then (uleb_put-Appends heap (length s) serves (omega arith))
              (bput-Appends heap serves s))))
        (omega (arith, length-encoding (length s), length-append (encoding (length s)) s)))
