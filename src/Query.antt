-- ===== src/Query.antt =====
-- `db_open` and `run_sql` of guest/sqlite-c/main.c: the lazily opened database and one statement.
pub mod Table
pub mod Tail
pub mod Total
pub mod Opening
pub mod Replies
pub mod Statement
pub mod Rows
pub mod Render
use crabcraft.Prelude.{
  ℕ, zero, suc, ◌+◌, ◌%◌, ◌^◌, Bool, true, false, not, ◌&&◌, ◌||◌, Option, none, some,
}
use crabcraft.Prelude.{List, [], ◌∷◌, ◌++◌, Bytes, codes, length, take, drop, ◌==◌, if◌then◌else◌}
use crabcraft.Prelude.{Outcome, done, fault, endless, overread, leb, ◌>>=◌}
use crabcraft.Buffer.{Allocator, Buf, size_mod, breset, bputc, bputs, bputf}
use crabcraft.Format.{ℤ, decimal}
use crabcraft.Json.{json_string, put_hex}
use crabcraft.Sqlite.{Sqlite, Prepared, sqlite_ok, sqlite_row, sqlite_done, sqlite_integer}
use crabcraft.Sqlite.{sqlite_float, sqlite_blob, sqlite_null}

abbrev pub db_file : Bytes
db_file = codes "crab.db"

-- The bytes that the loop over `tail` passes over.
unfoldable pub is_blank : ℕ → Bool
is_blank c = c == b' ' || c == b'\t' || c == b'\n' || c == b'\r' || c == b';' || c == 0

-- The loop runs to the end of the text just when nothing but blanks is left.
unfoldable pub only_blanks : Bytes → Bool
only_blanks [] = true
only_blanks (c ∷ s) = is_blank c && only_blanks s

unfoldable pub open_message : Bytes → Bytes
open_message reason = take 255 (codes "cannot open " ++ (db_file ++ (codes ": " ++ reason)))

abbrev pub only_one : Bytes
only_one = codes "only one statement per exec"

abbrev pub empty_document : Bytes
empty_document = codes "{\"columns\":[],\"rows\":[],\"changes\":0}"

-- `if (i) bputc(out, ',');`
unfoldable pub comma : Allocator → Buf → ℕ → Outcome Buf
comma heap b i = if i == 0 then done b else bputc heap b b','

-- The `n` bytes behind a pointer to `s`.
unfoldable pub read_bytes : ℕ → Bytes → Outcome Bytes
read_bytes n s = if leb n (length s) then done (take n s) else fault overread

-- `name ? name : ""`
unfoldable pub name_or_empty : Option Bytes → Bytes
name_or_empty none = []
name_or_empty (some name) = name

module _ (lib : Sqlite) where
  open lib use {World, Db, Stmt}

  -- From the test of the code of `sqlite3_open` on.
  unfoldable pub opened : ℕ × Option Db × World → Option Bytes × Option Db × World
  opened (rc, none, w) =
      if rc == sqlite_ok
      then (none, none, w)
      else (some (open_message (codes "out of memory")), none, w)
  opened (rc, some h, w) =
      if rc == sqlite_ok
      then (none, some h, w)
      else (some (open_message (lib.errmsg (some h) w)), none, lib.close h w)

  -- The message is `none` for NULL.
  unfoldable pub db_open : Option Db → World → Option Bytes × Option Db × World
  unfolding opened
  db_open (some h) w = (none, some h, w)
  db_open none w = opened (lib.open_db db_file w)

  module _ (heap : Allocator) (stmt : Stmt) where
    -- The loop over the column names: the rounds left, and `i`.
    unfoldable pub put_names : World → ℕ → ℕ → Buf → Outcome Buf
    put_names w zero i b = done b
    put_names w (suc rounds) i b = do
      b₁ ← comma heap b i
      b₂ ← json_string heap b₁ (name_or_empty (lib.column_name stmt i w))
      put_names w rounds (i + 1) b₂

    -- The `switch` on the type of column `i` of the current row.
    unfoldable pub put_cell : World → ℕ → Buf → Outcome Buf
    put_cell w i b =
        let t = lib.column_type stmt i w in
        let n = lib.column_bytes stmt i w in
        let d = lib.column_double stmt i w in
        if t == sqlite_integer
        then bputf heap b (decimal (lib.column_int64 stmt i w))
        else if t == sqlite_float
        then (if lib.isnan d || lib.isinf d
            then bputs heap b (codes "null")
            else bputf heap b (lib.format_double d))
        else if t == sqlite_null
        then bputs heap b (codes "null")
        else if t == sqlite_blob
        then (do
          b₁ ← bputc heap b b'"'
          s ← read_bytes n (lib.column_blob stmt i w)
          b₂ ← put_hex heap b₁ s
          bputc heap b₂ b'"')
        else (do s ← read_bytes n (lib.column_text stmt i w); json_string heap b s)

    unfoldable pub put_cells : World → ℕ → ℕ → Buf → Outcome Buf
    put_cells w zero i b = done b
    put_cells w (suc rounds) i b = do
      b₁ ← comma heap b i
      b₂ ← put_cell w i b₁
      put_cells w rounds (i + 1) b₂

    -- The body of the loop over the rows, `nrow` before its increment.
    unfoldable pub put_row : World → ℕ → ℕ → Buf → Outcome Buf
    put_row w ncol nrow b = do
      b₁ ← comma heap b nrow
      b₂ ← bputc heap b₁ b'['
      b₃ ← put_cells w ncol 0 b₂
      bputc heap b₃ b']'

    -- `while ((rc = sqlite3_step(stmt)) == SQLITE_ROW)` within `rounds` rounds; the result is the
    -- last `rc`, the library's state and the buffer. The counter `nrow` has 32 bits.
    unfoldable pub put_rows : ℕ → World → ℕ → ℕ → Buf → Outcome (ℕ × World × Buf)
    put_rows zero w ncol nrow b = fault endless
    put_rows (suc rounds) w ncol nrow b =
        let (rc, w₁) = lib.step stmt w in
        let next = (do
          b₁ ← put_row w₁ ncol nrow b
          put_rows rounds w₁ ncol ((nrow + 1) % 2 ^ 32) b₁) in
        if rc == sqlite_row then next else done (rc, w₁, b)

  -- The state that `run_sql` works on, and its return value: the static handle `DB`, the buffer
  -- `out`, and the library's state.
  pub record Ran : Type 0 where
    pub code : ℕ
    pub db : Option Db
    pub out : Buf
    pub world : World

  -- `sqlite3_finalize`, which does nothing to NULL.
  unfoldable pub finalize_any : Option Stmt → World → World
  finalize_any none w = w
  finalize_any (some stmt) w = lib.finalize stmt w

  -- The text behind `tail`, which is empty for NULL.
  unfoldable pub behind : Option ℕ → Bytes → Bytes
  behind none sql = []
  behind (some t) sql = drop t sql

  module _ (heap : Allocator) where
    -- What comes before the first row.
    unfoldable pub put_heading : Stmt → World → Buf → Outcome Buf
    put_heading stmt w out = do
      b₁ ← bputs heap out (codes "{\"columns\":[")
      b₂ ← put_names heap stmt w (lib.column_count stmt w) 0 b₁
      bputs heap b₂ (codes "],\"rows\":[")

    -- From `sqlite3_column_count` on. `rounds` bounds the number of calls of `sqlite3_step`.
    unfoldable pub run_stmt : ℕ → Option Db → Stmt → World → Buf → Outcome Ran
    run_stmt rounds db stmt w out = do
      b₃ ← put_heading stmt w out
      (rc, w', b₄) ← put_rows heap stmt rounds w (lib.column_count stmt w) 0 b₃
      if not (rc == sqlite_done)
          then (do
            b ← bputs heap (breset b₄) (lib.errmsg db w')
            done (record { code = 1; db = db; out = b; world = lib.finalize stmt w' }))
          else (do
            let w'' = lib.finalize stmt w'
            b ←
                bputf heap b₄
                  (codes "],\"changes\":" ++ (decimal (lib.changes db w'') ++ codes "}"))
            done (record { code = 0; db = db; out = b; world = w'' }))

    -- `bputs(out, msg); return code;`
    abbrev answer : ℕ → Option Db → World → Buf → Bytes → Outcome Ran
    answer code db w out msg = do
      b ← bputs heap out msg
      done (record { code = code; db = db; out = b; world = w })

    -- From the test of `stmt` on: NULL stands for blanks and comments alone.
    unfoldable pub run_any : ℕ → Option Db → Option Stmt → World → Buf → Outcome Ran
    run_any rounds db none w out = answer 0 db w out empty_document
    run_any rounds db (some stmt) w out = run_stmt rounds db stmt w out

    -- From the test of the code of `sqlite3_prepare_v2` on.
    unfoldable pub run_prepared : ℕ → Bytes → Option Db → Prepared Stmt World → Buf → Outcome Ran
    run_prepared rounds sql db p out =
        if not (p.rc == sqlite_ok)
        then answer 1 db p.world out (lib.errmsg db p.world)
        else if not (only_blanks (behind p.tail sql))
        then answer 1 db (finalize_any p.stmt p.world) out only_one
        else run_any rounds db p.stmt p.world out

    -- From the test of `err` on.
    unfoldable pub run_opened : ℕ → Bytes → Buf → Option Bytes × Option Db × World → Outcome Ran
    unfolding run_prepared run_any
    run_opened rounds sql out (some msg, db, w) = answer 1 db w out msg
    run_opened rounds sql out (none, db, w) = run_prepared rounds sql db (lib.prepare db sql w) out

    unfoldable pub run_sql : ℕ → Bytes → Option Db → World → Buf → Outcome Ran
    unfolding run_opened
    run_sql rounds sql db w out = run_opened rounds sql (breset out) (db_open db w)
