-- ===== src/Tests/Totals.antt =====
-- The theorem on all texts, at a library whose statements fail at the first step.
use crabcraft.Prelude.{ℕ, ◌≤◌, ◌<◌, ◌≡◌, refl, sym, arith, some, List, [], codes, Bytes, ap}
use crabcraft.Buffer.{zeroed}
use crabcraft.Buffer.Valid.{limit}
use crabcraft.Buffer.Appends.{zeroed-IsValid}
use crabcraft.Json.Escape.{quoted, escape_all, escape}
use crabcraft.Sqlite.{Sqlite}
use crabcraft.Query.{name_or_empty, run_sql}
use crabcraft.Query.Table.{Value, Yields, stop, row, heading, joined, more, read_names}
use crabcraft.Query.Replies.{
  Reply, Replies, unopened, unprepared, surplus, nothing, complete, broken, Gives,
}
use crabcraft.Query.Total.{IsFinite, run_sql_total}
use crabcraft.Tests.Toy.{heap, heap-Plentiful, toy, toy-ShortDoubles}

abbrev broken_toy : Sqlite
broken_toy = record toy { step = λ stmt w. (1, w) }

no_rows :
    {ncol rc : ℕ} {w' w : ℕ} {rows : List (List (Value Unit))}
    → Yields broken_toy tt ncol rc w' w rows
    → (rows ≡ []) × (rc ≡ 1)
no_rows (stop e h) = (refl, sym (ap (λ (o : ℕ × ℕ). o.0) e))
no_rows (row e y) = let codes_differ = ap (λ (o : ℕ × ℕ). o.0) e in absurd (omega arith)

broken_fits :
    (text : Bytes) (r : Reply broken_toy)
    → Replies broken_toy text (some tt) 1 r
    → (r.rows < 1) × (r.peak ≤ limit)
broken_fits text r (unopened o) = elim o [ ]
broken_fits text r (unprepared o ep h) = (omega arith, omega arith)
broken_fits text r (surplus o ep h rest f) = (omega arith, omega arith)
broken_fits text r (nothing o ep h rest es) = (omega arith, omega arith)
broken_fits text r (complete o ep h rest es y) = let code = (no_rows y).1 in absurd (omega arith)
broken_fits text r (broken o ep h rest es y failed) = rw (no_rows y).0 (
    unfold joined heading read_names name_or_empty quoted escape_all escape more in
    (omega arith, omega arith))

broken-IsFinite : (text : Bytes) → IsFinite broken_toy text (some tt) 1
broken-IsFinite text db₁ w₁ st o es = (1, w₁, [], stop refl (omega arith))

run_sql_total_example :
    (r : Reply broken_toy) × Replies broken_toy (codes "SELECT 7") (some tt) 1 r
    × Gives broken_toy heap (run_sql broken_toy heap 1 (codes "SELECT 7") (some tt) 1 zeroed) r
run_sql_total_example =
    run_sql_total broken_toy heap 1 (codes "SELECT 7") (some tt) 1 zeroed heap-Plentiful
      toy-ShortDoubles (omega arith) (broken-IsFinite (codes "SELECT 7"))
      (broken_fits (codes "SELECT 7")) zeroed-IsValid
