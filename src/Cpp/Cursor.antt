-- ===== src/Cpp/Cursor.antt =====
-- The class `Decoder` of guest/hello-cpp/gen/crab.hpp and crab.cpp with its pointer: what `Byte`, `Bytes` and
-- the methods on top of them do in linear memory.
pub mod Signed
pub mod Typed
pub mod Agrees
pub mod Methods
pub mod Strings
pub mod Primitives
pub mod Placed
use Prim.Native.Nat.{bit_and, bit_or}
use crabcraft.Prelude.{
  ℕ, zero, suc, ◌+◌, ◌-◌, ◌*◌, ◌/◌, ◌%◌, ◌^◌, Bool, true, false, not, ◌&&◌, [], ◌++◌, Bytes, codes,
  drop, ltb, leb, ◌==◌, if◌then◌else◌, Outcome, done, fault,
}
use crabcraft.Format.{pos, decimal}
use crabcraft.Uleb.{load}
use crabcraft.Cpp.Res.{Res, ok, err}
use crabcraft.Cpp.Utf8.{utf8_valid}
use crabcraft.Cpp.Linear.{Memory, load_string}

-- `buf_` is an address.
pub record Cursor : Type 0 where
  pub buf : ℕ
  pub len : ℕ
  pub pos : ℕ

-- `Decoder(buf, len)`
abbrev pub cursor : ℕ → ℕ → Cursor
cursor buf len = record { buf = buf; len = len; pos = 0 }

abbrev pub Scan : Type 0 → Type 0
Scan A = Memory → Cursor → Outcome (Res A × Cursor)

abbrev pub pure_at : {A : Type 0} → A → Scan A
pure_at v m c = done (ok v, c)

abbrev pub refuse_at : {A : Type 0} → Bytes → Scan A
refuse_at e m c = done (err e, c)

infixl 5 ◌>>=◌
abbrev pub ◌>>=◌ : {A B : Type 0} → Scan A → (A → Scan B) → Scan B
◌>>=◌ s f m c = elim (s m c) [
  | fault e ↦ fault e
  | done (ok v, c') ↦ f v m c'
  | done (err e, c') ↦ done (err e, c')
]

-- What is read from memory past the cursor.
abbrev pub peek : {A : Type 0} → (Memory → Outcome A) → Scan A
peek g m c = elim (g m) [ fault e ↦ fault e | done v ↦ done (ok v, c) ]

abbrev pub remaining_at : Cursor → ℕ
remaining_at c = c.len - c.pos

unfoldable pub finish_at : Cursor → Bytes → Bytes
finish_at c what =
    if remaining_at c == 0
    then []
    else decimal (pos (remaining_at c)) ++ (codes " trailing byte(s) after " ++ what)

unfoldable pub byte_at : Scan ℕ
byte_at m c =
    if leb c.len c.pos
    then done (err (codes "unexpected end of buffer"), c)
    else elim (load m (c.buf + c.pos)) [
      | fault e ↦ fault e
      | done b ↦ done (ok b, record c { pos = c.pos + 1 })
    ]

unfoldable pub bytes_at : ℕ → Scan ℕ
bytes_at n m c =
    if ltb (remaining_at c) n
    then done (err (codes "unexpected end of buffer"), c)
    else done (ok (c.buf + c.pos), record c { pos = c.pos + n })

-- `Bytes(n)`, and the loads through the pointer that it gave.
unfoldable pub read_at : ℕ → Scan Bytes
read_at n = do p ← bytes_at n; peek (λ m. load_string m p n)

unfoldable pub uleb_rounds_at : ℕ → ℕ → ℕ → ℕ → Scan ℕ
uleb_rounds_at bits zero shift result = refuse_at (codes "uleb too long")
uleb_rounds_at bits (suc rounds) shift result = do
  b ← byte_at
  let payload = bit_and b 0x7f
  let result' = bit_or result (payload * 2 ^ shift % 2 ^ 64)
  let rest = uleb_rounds_at bits rounds (shift + 7) result'
  if ltb bits (shift + 7) && not (payload / 2 ^ (bits - shift) == 0)
      then refuse_at (codes "uleb overflow")
      else if bit_and b 0x80 == 0
      then pure_at result'
      else rest

unfoldable pub uleb_at : ℕ → Scan ℕ
uleb_at bits = uleb_rounds_at bits ((bits + 6) / 7) 0 0

unfoldable pub prefix_bit_at : Bytes → Scan Bool
prefix_bit_at what = do
  b ← byte_at
  if b == 0
      then pure_at false
      else if b == 1
      then pure_at true
      else refuse_at (codes "invalid " ++ (what ++ (codes " byte: " ++ decimal (pos b))))

-- From the call of `Utf8Valid` on, for the pointer `p` that `Bytes` gave.
unfoldable pub string_text_at : ℕ → ℕ → Scan Bytes
string_text_at n p = do
  valid ← peek (λ m. utf8_valid (drop p m) n)
  if not valid then refuse_at (codes "invalid utf-8 in string") else peek (λ m. load_string m p n)

-- From the call of `Bytes` on.
unfoldable pub string_body_at : ℕ → Scan Bytes
string_body_at n = do p ← bytes_at n; string_text_at n p

unfoldable pub string_at : Scan Bytes
string_at = do n ← uleb_at 32; string_body_at n
