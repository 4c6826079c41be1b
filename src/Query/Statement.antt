-- ===== src/Query/Statement.antt =====
-- One prepared statement: `run_sql` of guest/sqlite-c/main.c from the column count on.
use crabcraft.Prelude.{
  ℕ, ◌+◌, ◌≤◌, ◌<◌, ◌≡◌, ◌≢◌, sym, ◌∙◌, ap, arith, false, Option, List, [], ◌∷◌, ◌++◌, append_assoc,
  Bytes, codes, length, length-append, ◌==◌, if◌then◌else◌, done,
}
use crabcraft.Buffer.{Allocator, Buf, breset}
use crabcraft.Buffer.Valid.{limit, IsValid, contents, Plentiful}
use crabcraft.Buffer.Appends.{
  Appends, Appends-then, Appends-run, bputs-Appends, bputf-Appends, breset_lem,
}
use crabcraft.Format.{ℤ, decimal}
use crabcraft.Format.Decimal.{length-decimal}
use crabcraft.Json.Escape.{quoted}
use crabcraft.Sqlite.{Sqlite, sqlite_done}
use crabcraft.Query.{put_heading, put_rows, run_stmt}
use crabcraft.Query.Table.{
  Value, heading, so_far, result, joined, show_row, document, read_names, Yields,
}
use crabcraft.Query.Render.{ShortDoubles, from, from-joined, put_names-Appends}
use crabcraft.Query.Rows.{from_split, put_rows_lem}
use mathlib.Core.List.{map}
use mathlib.Core.Path.{ap₂}

length-show_row : (lib : Sqlite) (r : List (Value lib.Double)) → 1 ≤ length (show_row lib r)
unfolding show_row
length-show_row lib r = omega arith

abbrev comma_text : ℕ → Bytes
comma_text i = if i == 0 then [] else b',' ∷ []

-- Every row takes a byte at least.
length-le-from :
    (lib : Sqlite) (i : ℕ) (rows : List (List (Value lib.Double)))
    → length rows ≤ length (from i (map (show_row lib) rows))
length-le-from lib i [] = omega arith
length-le-from lib i (r ∷ rows) = omega (
  arith,
  length-le-from lib (i + 1) rows,
  ap (λ (t : Bytes). length t) (from_split i (show_row lib r) (map (show_row lib) rows)),
  length-append (comma_text i ++ show_row lib r) (from (i + 1) (map (show_row lib) rows)),
  length-append (comma_text i) (show_row lib r),
  length-show_row lib r,
)

module _ (lib : Sqlite) (heap : Allocator) (stmt : lib.Stmt) (serves : Plentiful heap)
    (doubles : ShortDoubles lib) where
  heading-Appends :
      (w : lib.World)
      → Appends
          (λ b. put_heading lib heap stmt w b)
          (heading lib (read_names lib stmt w (lib.column_count stmt w) 0))
  unfolding put_heading heading
  heading-Appends w =
      rw (← from-joined (map quoted (read_names lib stmt w (lib.column_count stmt w) 0))) (
        Appends-then (bputs-Appends heap serves (codes "{\"columns\":[")) (
          Appends-then
            (put_names-Appends lib heap stmt serves doubles w (lib.column_count stmt w) 0)
            (bputs-Appends heap serves (codes "],\"rows\":["))))

  rows_written :
      {rounds rc : ℕ} {w w' : lib.World} {rows : List (List (Value lib.Double))} (out : Buf)
      → Yields lib stmt (lib.column_count stmt w) rc w' w rows
      → length rows < rounds
      → IsValid out
      → contents out ≡ []
      → length (so_far lib stmt w rows) ≤ limit
      → (b₃ b : Buf) × (put_heading lib heap stmt w out ≡ done b₃)
        × (put_rows lib heap stmt rounds w (lib.column_count stmt w) 0 b₃ ≡ done (rc, w', b))
        × IsValid b
        × (contents b ≡ so_far lib stmt w rows)
  rows_written {rounds} {w = w} {rows = rows} out y hr v empty room =
      let front = heading lib (read_names lib stmt w (lib.column_count stmt w) 0) in
      let text = joined (map (show_row lib) rows) in
      let sizes = length-append front text in
      let same = from-joined (map (show_row lib) rows) in
      let same_size = ap (λ (t : Bytes). length t) same in
      let (b₃, ran, v₃, held) = Appends-run out (heading-Appends w) v empty (omega arith) in
      let size = ap (λ (t : Bytes). length t) held in
      let (b, ran', v', held') =
        put_rows_lem lib heap stmt serves doubles y rounds 0 b₃ hr
          (omega (arith, length-le-from lib 0 rows)) v₃ (omega arith) in
      (b₃, b, ran, ran', v', held' ∙ ap₂ (λ (s t : Bytes). s ++ t) held same)

  ending_short : (z : ℤ) → length (codes "],\"changes\":" ++ (decimal z ++ codes "}")) ≤ 63
  ending_short z = omega (arith, length-decimal z, length-append (decimal z) (codes "}"))

  document-so_far :
      (w : lib.World) (db : Option lib.Db) (w'' : lib.World) (rows : List (List (Value lib.Double)))
      → document lib (result lib stmt w db w'' rows)
        ≡ so_far lib stmt w rows
          ++ (codes "],\"changes\":" ++ (decimal (lib.changes db w'') ++ codes "}"))
  unfolding document heading
  document-so_far w db w'' rows = simp append_assoc

  -- A statement that ends normally: the document of its table, and the statement finalised.
  pub run_stmt_done :
      {rounds : ℕ} {w w' : lib.World} {rows : List (List (Value lib.Double))} (db : Option lib.Db)
      (out : Buf)
      → Yields lib stmt (lib.column_count stmt w) sqlite_done w' w rows
      → length rows < rounds
      → IsValid out
      → contents out ≡ []
      → length (document lib (result lib stmt w db (lib.finalize stmt w') rows)) ≤ limit
      → (b : Buf) × (run_stmt lib heap rounds db stmt w out
          ≡ done (record { code = 0; db = db; out = b; world = lib.finalize stmt w' }))
        × IsValid b
        × (contents b ≡ document lib (result lib stmt w db (lib.finalize stmt w') rows))
  unfolding run_stmt
  run_stmt_done {rounds} {w} {w'} {rows} db out y hr v empty room =
      let w'' = lib.finalize stmt w' in
      let ending = codes "],\"changes\":" ++ (decimal (lib.changes db w'') ++ codes "}") in
      let whole = document-so_far w db w'' rows in
      let size =
        ap (λ (t : Bytes). length t) whole ∙ length-append (so_far lib stmt w rows) ending in
      let (b₃, b₄, ran, ran', v', held) = rows_written out y hr v empty (omega arith) in
      let held_size = ap (λ (t : Bytes). length t) held in
      let (b, ran'', v'', held'') =
        (bputf-Appends heap serves ending (ending_short (lib.changes db w''))).run b₄ v'
          (omega arith) in
      (b, rw (ran, ran', ran''), v'', held'' ∙ ap (λ (t : Bytes). t ++ ending) held ∙ sym whole)

  -- A step that fails after some rows: the library's message alone, and the statement finalised.
  pub run_stmt_failed :
      {rounds rc : ℕ} {w w' : lib.World} {rows : List (List (Value lib.Double))}
      (db : Option lib.Db) (out : Buf)
      → Yields lib stmt (lib.column_count stmt w) rc w' w rows
      → rc ≢ sqlite_done
      → length rows < rounds
      → IsValid out
      → contents out ≡ []
      → length (so_far lib stmt w rows) ≤ limit
      → length (lib.errmsg db w') ≤ limit
      → (b : Buf) × (run_stmt lib heap rounds db stmt w out
          ≡ done (record { code = 1; db = db; out = b; world = lib.finalize stmt w' }))
        × IsValid b
        × (contents b ≡ lib.errmsg db w')
  unfolding run_stmt
  run_stmt_failed {rounds} {rc} {w} {w'} {rows} db out y failed hr v empty room short =
      let (b₃, b₄, ran, ran', v', held) = rows_written out y hr v empty room in
      let (fresh, none_left) = breset_lem b₄ v' in
      let (b, ran'', v'', held'') =
        Appends-run (breset b₄) (bputs-Appends heap serves (lib.errmsg db w')) fresh none_left
          short in
      let test : (rc == sqlite_done) ≡ false = ground arith in
      (b, rw (ran, ran', test, ran''), v'', held'')
