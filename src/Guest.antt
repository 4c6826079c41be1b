-- ===== src/Guest.antt =====
-- The exports of guest/sqlite-c/main.c: `crab_alloc`, `crab_schema`, `crab_invoke`, and its static
-- state. A C `int` argument is its bit pattern, below `2 ^ 32`.
pub mod Arguments
pub mod Exports
pub mod Handle
pub mod Unknown
pub mod Session
pub mod Calls
use crabcraft.Prelude.{
  ℕ, zero, suc, ◌+◌, ◌%◌, ◌^◌, Bool, true, false, not, ◌&&◌, ◌||◌, Option, none, some,
}
use crabcraft.Prelude.{
  List, [], ◌∷◌, ◌++◌, Bytes, codes, length, take, drop, ltb, leb, ◌==◌, if◌then◌else◌,
}
use crabcraft.Prelude.{Outcome, done, ◌>>=◌}
use crabcraft.Buffer.{Allocator, Buf, size_mod, realloc, used}
use crabcraft.Uleb.{uleb_get32}
use crabcraft.Reply.{lenbuf, reply_abi_err, reply_result}
use crabcraft.Sqlite.{Sqlite}
use crabcraft.Query.{run_sql, Ran}
use crabcraft.Schema.{schema_json}

abbrev pub fn_exec : Bytes
fn_exec = codes "crab:sqlite/db@0.1.0#exec"

-- Whether an `int` is negative.
abbrev pub is_negative : ℕ → Bool
is_negative n = leb (2 ^ 31) n

-- `memcmp(a, b, n) == 0` for two texts of `n` bytes.
unfoldable pub same_bytes : Bytes → Bytes → Bool
same_bytes [] [] = true
same_bytes [] (d ∷ t) = false
same_bytes (c ∷ s) [] = false
same_bytes (c ∷ s) (d ∷ t) = c == d && same_bytes s t

-- A C string ends before its first NUL.
unfoldable pub c_string : Bytes → Bytes
c_string [] = []
c_string (c ∷ s) = if c == 0 then [] else c ∷ c_string s

-- `%.*s`: at most `n` bytes, or no bound if `n` is negative.
unfoldable pub precision : ℕ → Bytes → Bytes
precision n s = if is_negative n then c_string s else c_string (take n s)

-- What the format of the message asks for.
unfoldable pub unknown_text : Bytes → ℕ → Bytes
unknown_text name name_len =
    let n = if is_negative name_len then name_len else if ltb name_len 200 then name_len else 200 in
    codes "unknown function: " ++ precision n name

-- `snprintf` leaves at most 255 bytes in `msg`.
unfoldable pub unknown_function : Bytes → ℕ → Bytes
unknown_function name name_len = take 255 (unknown_text name name_len)

-- `none` for NULL.
unfoldable pub crab_alloc : Allocator → ℕ → Option Bytes
crab_alloc heap len = realloc heap none (if is_negative len || ltb len 1 then 1 else len)

-- The text of the statement, or the message that the arguments are refused with.
pub data Params : Type 0 where
  refused sql : Bytes → Params

unfoldable pub bad_length : Bytes
bad_length = codes "bad params: invalid string length"

unfoldable pub bad_end : Bytes
bad_end = codes "bad params: unexpected end of buffer"

unfoldable pub bad_trailing : Bytes
bad_trailing = codes "bad params: trailing bytes after params"

-- The tests on the length that `uleb_get32` read, which ended at `pos`.
unfoldable pub check_length : Bytes → ℕ → ℕ × Option ℕ → Params
check_length arg arg_len (pos, none) = refused bad_length
check_length arg arg_len (pos, some sql_len) =
    let end = (pos + sql_len) % size_mod in
    if ltb arg_len end
    then refused bad_end
    else if not (end == arg_len)
    then refused bad_trailing
    else sql (take sql_len (drop pos arg))

unfoldable pub parse_params : Bytes → ℕ → Outcome Params
parse_params arg arg_len = do got ← uleb_get32 arg arg_len 0; done (check_length arg arg_len got)

-- The static variables `REPLY`, `out` and `DB`, and the library's state.
pub record Guest (lib : Sqlite) : Type 0 where
  pub reply : Buf
  pub out : Buf
  pub db : Option lib.Db
  pub world : lib.World

module _ (lib : Sqlite) (heap : Allocator) where
  -- `return reply_abi_err(msg);`
  unfoldable pub refuse : Guest lib → Bytes → Outcome (Guest lib)
  refuse g msg = do reply ← reply_abi_err heap g.reply msg; done (record g { reply = reply })

  -- `rounds` bounds the rows of the statement.
  unfoldable pub exec : ℕ → Guest lib → Bytes → Outcome (Guest lib)
  exec rounds g text = do
    ran ← run_sql lib heap rounds text g.db g.world g.out
    reply ← reply_result heap g.reply (not (ran.code == 0)) (used ran.out.p ran.out.len)
    done (record { reply = reply; out = ran.out; db = ran.db; world = ran.world })

  unfoldable pub handle : ℕ → Guest lib → Params → Outcome (Guest lib)
  unfolding refuse exec
  handle rounds g (refused msg) = refuse g msg
  handle rounds g (sql text) = exec rounds g text

  unfoldable pub crab_schema : Guest lib → Outcome (Guest lib)
  crab_schema g = do reply ← lenbuf heap g.reply schema_json; done (record g { reply = reply })

  unfoldable pub crab_invoke : ℕ → Guest lib → Bytes → ℕ → Bytes → ℕ → Outcome (Guest lib)
  crab_invoke rounds g name name_len arg arg_len =
      if not (name_len == length fn_exec) || not (same_bytes (take name_len name) fn_exec)
      then refuse g (unknown_function name name_len)
      else (do params ← parse_params arg arg_len; handle rounds g params)
