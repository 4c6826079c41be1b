-- ===== src/Reply.antt =====
-- The replies of guest/sqlite-c/main.c: the static buffer `REPLY`, `lenbuf`, `reply_abi_err` and
-- `reply_result`. A function takes the buffer's state and returns the new one; the pointer that the
-- C function returns is that buffer's block.
pub mod Frame
pub mod Answer
use Prim.Native.Nat.{bit_and}
use crabcraft.Prelude.{ℕ, ◌/◌, ◌^◌, Bool, true, false, List, [], ◌∷◌, Bytes, length, if◌then◌else◌}
use crabcraft.Prelude.{Option, some, none, Outcome, done, ◌>>=◌}
use crabcraft.Buffer.{Allocator, Buf, zeroed, breset, bput, bputc, bputs, used}
use crabcraft.Uleb.{uleb_put}

-- `hdr`, the length in little-endian order.
unfoldable pub header : ℕ → Bytes
header n =
    bit_and n 0xff
    ∷ bit_and (n / 2 ^ 8) 0xff
    ∷ bit_and (n / 2 ^ 16) 0xff
    ∷ bit_and (n / 2 ^ 24) 0xff
    ∷ []

module _ (heap : Allocator) where
  unfoldable pub lenbuf : Buf → Bytes → Outcome Buf
  lenbuf reply payload = do
    b ← bput heap (breset reply) (header (length payload))
    bput heap b payload

  unfoldable pub reply_abi_err : Buf → Bytes → Outcome Buf
  reply_abi_err reply msg = do
    b₁ ← bputc heap zeroed 1
    b₂ ← uleb_put heap b₁ (length msg)
    b ← bputs heap b₂ msg
    lenbuf reply (used b.p b.len)

  unfoldable pub reply_result : Buf → Bool → Bytes → Outcome Buf
  reply_result reply err_case s = do
    b₁ ← bputc heap zeroed 0
    b₂ ← bputc heap b₁ (if err_case then 1 else 0)
    b₃ ← uleb_put heap b₂ (length s)
    b ← bput heap b₃ s
    lenbuf reply (used b.p b.len)
