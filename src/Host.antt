-- ===== src/Host.antt =====
-- The host of host/runtime.lua, for a C++ guest: `read_lenbuf`, `w:invoke` and the part of host/cmval.lua that reads
-- the text of an error. The engine's `loadstr` and `storestr` are those of linear memory.
pub mod Values
pub mod Calls
pub mod Hello
pub mod Import
pub mod Mesh
pub mod Views
pub mod Schemas
use crabcraft.Prelude.{
  ℕ, zero, suc, ◌+◌, ◌*◌, ◌%◌, Option, none, some, [], ◌∷◌, ◌++◌, Bytes, codes, length, take,
  get_or, ltb, ◌==◌, if◌then◌else◌, Outcome, Fault, done, fault, ◌>>=◌,
}
use crabcraft.Cpp.Linear.{
  Memory, load_string, store_string, Instance, alloc_at, schema_at, invoke_at,
}

-- What a call gives the host's client: `ok = true` with the result, `ok = false` with the text of the error,
-- or a Lua error.
pub data Answer : Type 0 where
  result failed : Bytes → Answer
  raised : Answer

-- The four bytes of `s`.
abbrev pub u32le : Bytes → ℕ
u32le s = get_or s 0 0 + get_or s 1 0 * 256 + get_or s 2 0 * 65536 + get_or s 3 0 * 16777216

unfoldable pub read_lenbuf : Memory → ℕ → Outcome Bytes
read_lenbuf mem ptr = do hdr ← load_string mem ptr 4; load_string mem (ptr + 4) (u32le hdr)

-- What `load_reactor` keeps as `w.schema_json`; the guest's allocator puts its reply at `place`.
unfoldable pub load_schema : Instance → ℕ → Bytes → Outcome (Bytes × Instance)
load_schema inst place schema_json = do
  (sptr, inst') ← schema_at inst place schema_json
  schema ← read_lenbuf inst'.memory sptr
  done (schema, inst')

-- The rounds left, the bytes from `pos` on, `n` and `shift`; `none` for an error. Numbers from 2 ^ 53 on, which are
-- strings in the source, are exact here.
unfoldable pub uleb_dec : ℕ → Bytes → ℕ → ℕ → Option (ℕ × Bytes)
uleb_dec zero s n shift = none
uleb_dec (suc rounds) [] n shift = none
uleb_dec (suc rounds) (b ∷ s) n shift =
    let n' = n + b % 128 * shift in
    let rest = uleb_dec rounds s n' (shift * 128) in if ltb b 128 then some (n', s) else rest

-- Behind the length: `none` where the string is truncated.
abbrev pub string_body : Option (ℕ × Bytes) → Option Bytes
string_body none = none
string_body (some (len, rest)) = if ltb (length rest) len then none else some (take len rest)

-- `dec("string", s, pos)` without the position behind it.
unfoldable pub decode_string : Bytes → Option Bytes
decode_string s = string_body (uleb_dec 10 s 0 1)

abbrev pub failure_text : Option Bytes → Answer
failure_text none = raised
failure_text (some msg) = failed msg

-- From the status on. The first byte of an empty payload is `nil`, which is not 0.
unfoldable pub read_reply : Bytes → Answer
read_reply [] = failure_text (decode_string [])
read_reply (status ∷ body) = if status == 0 then result body else failure_text (decode_string body)

-- The addresses at which the guest's allocator puts the name, the argument and the reply.
pub record Places : Type 0 where
  pub name_place : ℕ
  pub arg_place : ℕ
  pub reply_place : ℕ

-- `crab_alloc`, and `storestr` at the address that it returned.
unfoldable pub put_string : Instance → ℕ → Bytes → Outcome (ℕ × Instance)
put_string inst place s = do
  (ptr, inst') ← alloc_at inst place (length s)
  m ← store_string inst'.memory ptr s
  done (ptr, record inst' { memory = m })

-- No buffer is allocated for no parameters.
unfoldable pub put_params : Instance → ℕ → Bytes → Outcome (ℕ × Instance)
put_params inst place [] = done (0, inst)
put_params inst place (b ∷ param_bytes) = put_string inst place (b ∷ param_bytes)

-- Behind the `pcall`, with the engine's text for a trap. What a trapped call changed in memory is left out.
unfoldable pub finish_call :
    (Fault → Bytes) → Instance → Outcome (ℕ × Instance) → Outcome (Answer × Instance)
finish_call trap_text inst (fault e) = done (failed (codes "guest trap: " ++ trap_text e), inst)
finish_call trap_text inst (done (rptr, inst')) = do
  payload ← read_lenbuf inst'.memory rptr
  done (read_reply payload, inst')

unfoldable pub worker_invoke :
    (Fault → Bytes) → Places → Instance → Bytes → Bytes → Outcome (Answer × Instance)
worker_invoke trap_text places inst func_addr param_bytes = do
  (name_ptr, inst₁) ← put_string inst places.name_place func_addr
  (arg_ptr, inst₂) ← put_params inst₁ places.arg_place param_bytes
  finish_call trap_text inst₂
      (invoke_at inst₂ places.reply_place name_ptr (length func_addr) arg_ptr (length param_bytes))
