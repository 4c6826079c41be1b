-- ===== src/Tests/Queries.antt =====
-- The theorems on statements, at concrete inputs: the small library, whose statement gives one row.
use crabcraft.Prelude.{
  ◌+◌, ◌≤◌, ◌≡◌, refl, arith, false, Option, none, some, List, [], ◌∷◌, ◌++◌, codes, length, done,
}
use mathlib.Core.List.{map}
use crabcraft.Buffer.{Buf, zeroed}
use crabcraft.Buffer.Valid.{limit, IsValid, contents}
use crabcraft.Buffer.Appends.{zeroed-IsValid}
use crabcraft.Format.{pos, decimal, digits}
use crabcraft.Json.Escape.{quoted, escape_all, escape}
use crabcraft.Sqlite.{Sqlite}
use crabcraft.Query.{db_open, opened, open_message, name_or_empty, put_rows, run_stmt, run_sql}
use crabcraft.Query.Table.{
  Value, integer, Yields, stop, row, show, show_row, heading, joined, more, document, read_names,
  read_cells, read_cell, result,
}
use crabcraft.Query.Render.{from}
use crabcraft.Query.Rows.{put_rows_lem}
use crabcraft.Query.Statement.{run_stmt_failed}
use crabcraft.Query.Replies.{Reply, Replies, complete, Gives, run_sql_lem}
use crabcraft.Query.Opening.{already, succeeded, IsOpenMessage, db_open_failure}
use crabcraft.Tests.Toy.{heap, heap-Plentiful, toy, toy-ShortDoubles}

-- One row, which holds the number 7.
abbrev pub one_row : List (List (Value (Unit {0})))
one_row = (integer (pos 7) ∷ []) ∷ []

pub one_row-Yields : Yields toy tt 1 101 0 1 one_row
unfolding read_cells read_cell
one_row-Yields = row {w = 1} {w₁ = 0} refl (stop refl (omega arith))

put_rows_example :
    (b' : Buf) × (put_rows toy heap tt 5 1 1 0 zeroed ≡ done (101, 0, b'))
    × IsValid b'
    × (contents b' ≡ contents zeroed ++ from 0 (map (show_row toy) one_row))
put_rows_example =
    put_rows_lem toy heap tt heap-Plentiful toy-ShortDoubles one_row-Yields 5 0 zeroed (omega arith)
      (omega arith) zeroed-IsValid
      (unfold from show_row joined more show decimal digits in omega arith)

-- A library whose statements fail at the first step.
abbrev failing : Sqlite
failing = record toy { step = λ stmt w. (1, w) }

run_stmt_failed_example :
    (b : Buf) × (run_stmt failing heap 5 (some tt) tt 1 zeroed
      ≡ done (record { code = 1; db = some tt; out = b; world = 1 }))
    × IsValid b
    × (contents b ≡ codes "no such table")
run_stmt_failed_example =
    run_stmt_failed failing heap tt heap-Plentiful toy-ShortDoubles {w = 1} {rows = []} (some tt)
      zeroed (stop refl (omega arith)) (omega arith) (omega arith) zeroed-IsValid refl
      (unfold heading joined more read_names name_or_empty quoted escape_all escape in omega arith)
      (omega arith)

-- A library that cannot open the file.
abbrev closed : Sqlite
closed = record toy { open_db = λ file w. (14, some tt, w) }

db_open_failure_example :
    (◌≡◌ {A = Option (Unit {0})} none none)
    × (◌≡◌ {A = Option (Unit {0})} none none)
    × IsOpenMessage (open_message (codes "no such table"))
db_open_failure_example =
    db_open_failure closed none none 1 1 (open_message (codes "no such table"))
      (unfold db_open opened in refl)

-- The answer to a text that gives one row.
abbrev pub one_reply : Reply toy
one_reply = record {
  failed = false;
  text = document toy (result toy tt 1 (some tt) 0 one_row);
  rows = length one_row;
  peak = length (document toy (result toy tt 1 (some tt) 0 one_row));
  db = some tt;
  world = 0;
}

pub one_reply-Replies : Replies toy (codes "SELECT 7") none 1 one_reply
one_reply-Replies =
    complete {w₁ = 1} (succeeded refl) refl refl (λ i hi hl. absurd (omega arith)) refl
      one_row-Yields

pub open_reply-Replies : Replies toy (codes "SELECT 7") (some tt) 1 one_reply
open_reply-Replies =
    complete {w₁ = 1} already refl refl (λ i hi hl. absurd (omega arith)) refl one_row-Yields

pub one_reply_fits : one_reply.peak + 16 ≤ limit
unfolding document heading joined more show_row show decimal digits read_names name_or_empty quoted
    escape_all escape
one_reply_fits = omega arith

run_sql_example : Gives toy heap (run_sql toy heap 5 (codes "SELECT 7") none 1 zeroed) one_reply
run_sql_example =
    run_sql_lem toy heap heap-Plentiful toy-ShortDoubles one_reply-Replies (omega arith) 5 zeroed
      (omega arith) zeroed-IsValid (omega (arith, one_reply_fits))
