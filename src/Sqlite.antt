-- ===== src/Sqlite.antt =====
-- What guest/sqlite-c/main.c calls: SQLite, and the C library's floating point. It is a parameter.
use crabcraft.Prelude.{ℕ, ◌≤◌, Bool, Option, Bytes, length}
use crabcraft.Format.{ℤ}

-- The result codes and column types that the program tests, from guest/sqlite-c/sqlite3.h.
abbrev pub sqlite_ok : ℕ
sqlite_ok = 0

abbrev pub sqlite_row : ℕ
sqlite_row = 100

abbrev pub sqlite_done : ℕ
sqlite_done = 101

abbrev pub sqlite_integer : ℕ
sqlite_integer = 1

abbrev pub sqlite_float : ℕ
sqlite_float = 2

abbrev pub sqlite_blob : ℕ
sqlite_blob = 4

abbrev pub sqlite_null : ℕ
sqlite_null = 5

-- The answer of `sqlite3_prepare_v2`: `stmt` is `none` for NULL, `tail` an offset into the text.
pub record Prepared (Stmt World : Type 0) : Type 0 where
  pub rc : ℕ
  pub stmt : Option Stmt
  pub tail : Option ℕ
  pub world : World

-- `World` is all that the library keeps: memory, files, the statements' cursors. A pointer to a
-- database is `none` for NULL. Reading a column leaves the world alone.
pub record Sqlite : Type 1 where
  pub World : Type 0
  pub Db : Type 0
  pub Stmt : Type 0
  pub Double : Type 0
  pub open_db : Bytes → World → ℕ × Option Db × World
  pub errmsg : Option Db → World → Bytes
  pub close : Db → World → World
  pub prepare : Option Db → Bytes → World → Prepared Stmt World
  pub finalize : Stmt → World → World
  pub column_count : Stmt → World → ℕ
  pub column_name : Stmt → ℕ → World → Option Bytes
  pub step : Stmt → World → ℕ × World
  pub column_type : Stmt → ℕ → World → ℕ
  pub column_int64 : Stmt → ℕ → World → ℤ
  pub column_double : Stmt → ℕ → World → Double
  pub column_blob : Stmt → ℕ → World → Bytes
  pub column_text : Stmt → ℕ → World → Bytes
  pub column_bytes : Stmt → ℕ → World → ℕ
  -- `sqlite3_column_bytes` is the size of what the other two point at, which a text may have a NUL behind.
  pub blob_held :
      (stmt : Stmt) (i : ℕ) (w : World) → column_bytes stmt i w ≤ length (column_blob stmt i w)
  pub text_held :
      (stmt : Stmt) (i : ℕ) (w : World) → column_bytes stmt i w ≤ length (column_text stmt i w)
  pub changes : Option Db → World → ℤ
  pub isnan : Double → Bool
  pub isinf : Double → Bool
  -- `%.17g`
  pub format_double : Double → Bytes
