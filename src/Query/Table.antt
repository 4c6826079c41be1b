-- ===== src/Query/Table.antt =====
-- The answer to a statement as data, and its JSON document: what `run_sql` is to write.
use crabcraft.Prelude.{
  ℕ, zero, suc, ◌+◌, ◌≡◌, ◌≢◌, ◌||◌, Option, List, [], ◌∷◌, ◌++◌, Bytes, codes, take, ◌==◌,
  if◌then◌else◌,
}
use crabcraft.Format.{ℤ, decimal}
use crabcraft.Json.Escape.{quoted, hex_all}
use crabcraft.Sqlite.{Sqlite, sqlite_row, sqlite_integer, sqlite_float, sqlite_blob, sqlite_null}
use crabcraft.Query.{name_or_empty}
use mathlib.Core.List.{map}

pub data Value (D : Type 0) : Type 0 where
  integer : ℤ → Value D
  float : D → Value D
  null : Value D
  blob text : Bytes → Value D

pub record Table (D : Type 0) : Type 0 where
  pub names : List Bytes
  pub rows : List (List (Value D))
  pub changes : ℤ

-- Every part behind a comma.
unfoldable pub more : List Bytes → Bytes
more [] = []
more (x ∷ xs) = b',' ∷ (x ++ more xs)

-- The parts with commas between them.
unfoldable pub joined : List Bytes → Bytes
joined [] = []
joined (x ∷ xs) = x ++ more xs

module _ (lib : Sqlite) where
  open lib use {World, Stmt, Double}

  unfoldable pub show : Value Double → Bytes
  show (integer z) = decimal z
  show (float d) = if lib.isnan d || lib.isinf d then codes "null" else lib.format_double d
  show null = codes "null"
  show (blob s) = b'"' ∷ (hex_all s ++ (b'"' ∷ []))
  show (text s) = quoted s

  unfoldable pub show_row : List (Value Double) → Bytes
  show_row vs = b'[' ∷ (joined (map show vs) ++ (b']' ∷ []))

  unfoldable pub document : Table Double → Bytes
  document t =
      codes "{\"columns\":["
      ++ (joined (map quoted t.names)
          ++ (codes "],\"rows\":["
              ++ (joined (map show_row t.rows)
                  ++ (codes "],\"changes\":" ++ (decimal t.changes ++ codes "}")))))

  -- What the columns `i`, `i + 1`, … of a statement hold, `n` of them.
  unfoldable pub read_cell : Stmt → World → ℕ → Value Double
  read_cell stmt w i =
      let t = lib.column_type stmt i w in
      let n = lib.column_bytes stmt i w in
      if t == sqlite_integer
      then integer (lib.column_int64 stmt i w)
      else if t == sqlite_float
      then float (lib.column_double stmt i w)
      else if t == sqlite_null
      then null
      else if t == sqlite_blob
      then blob (take n (lib.column_blob stmt i w))
      else text (take n (lib.column_text stmt i w))

  unfoldable pub read_cells : Stmt → World → ℕ → ℕ → List (Value Double)
  read_cells stmt w zero i = []
  read_cells stmt w (suc n) i = read_cell stmt w i ∷ read_cells stmt w n (i + 1)

  unfoldable pub read_names : Stmt → World → ℕ → ℕ → List Bytes
  read_names stmt w zero i = []
  read_names stmt w (suc n) i =
      name_or_empty (lib.column_name stmt i w) ∷ read_names stmt w n (i + 1)

  -- Stepping `stmt` from the state `w` gives `rows`, then stops with the code `rc` in the state `w'`.
  pub data Yields (stmt : Stmt) (ncol : ℕ) (rc : ℕ) (w' : World)
      : World → List (List (Value Double)) → Type 0 where
    stop : {w : World} → lib.step stmt w ≡ (rc, w') → rc ≢ sqlite_row → Yields stmt ncol rc w' w []
    row :
        {w w₁ : World} {rows : List (List (Value Double))}
        → lib.step stmt w ≡ (sqlite_row, w₁)
        → Yields stmt ncol rc w' w₁ rows
        → Yields stmt ncol rc w' w (read_cells stmt w₁ ncol 0 ∷ rows)

  -- What `out` holds before the first row, and behind the loop over the rows.
  unfoldable pub heading : List Bytes → Bytes
  heading names = codes "{\"columns\":[" ++ (joined (map quoted names) ++ codes "],\"rows\":[")

  abbrev pub so_far : Stmt → World → List (List (Value Double)) → Bytes
  so_far stmt w rows =
      heading (read_names stmt w (lib.column_count stmt w) 0) ++ joined (map show_row rows)

  -- The table of a statement that began in the state `w`; `w''` is the state when it is finalised.
  abbrev pub result :
      Stmt → World → Option lib.Db → World → List (List (Value Double)) → Table Double
  result stmt w db w'' rows = record {
    names = read_names stmt w (lib.column_count stmt w) 0;
    rows = rows;
    changes = lib.changes db w'';
  }
