-- ===== src/Tests/Runs.antt =====
-- Whole calls with the small library.
use crabcraft.Prelude.{◌≡◌, refl, Option, none, some, ◌∷◌, codes, done, Outcome, ◌>>=◌}
use crabcraft.Buffer.{
  zeroed, block, breset, grow, fresh, realloc, memcpy, reserve, bput, bputc, bputs, bputf,
}
use crabcraft.Uleb.{uleb_byte, uleb_loop, uleb_put, uleb_get32, get_loop, load}
use crabcraft.Format.{digits, decimal}
use crabcraft.Json.{put_char, put_chars, json_string}
use crabcraft.Reply.{header, lenbuf, reply_result}
use crabcraft.Reply.Answer.{
  Answer, ok, read_answer, read_frame, read_payload, read_case, read_wire_string,
}
use crabcraft.Uleb.Decode.{read_groups}
use crabcraft.Query.{
  run_sql, run_stmt, db_open, only_blanks, behind, put_heading, put_names, comma, name_or_empty,
  put_rows, put_row, put_cells, put_cell,
}
use crabcraft.Guest.{Guest, fn_exec, same_bytes, check_length, parse_params, handle, crab_invoke}
use crabcraft.Tests.Toy.{heap, toy}

-- Before the first call, with one row to come.
abbrev start : Guest toy
start = record { reply = zeroed; out = zeroed; db = none; world = 1 }

answer : Outcome (Guest toy) → Outcome (Option Answer)
answer o = do g ← o; done (read_answer (block g.reply.p))

select_one :
    answer (crab_invoke toy heap 5 start fn_exec 25 (8 ∷ codes "SELECT 7") 9)
    ≡ done (some (ok (codes "{\"columns\":[\"n\"],\"rows\":[[7]],\"changes\":0}")))
unfolding answer crab_invoke same_bytes parse_params check_length handle uleb_get32 get_loop load
    run_sql db_open only_blanks behind run_stmt put_heading put_names comma name_or_empty put_rows
    put_row put_cells put_cell bput bputc bputs bputf breset reserve grow realloc memcpy fresh
    decimal digits json_string put_chars put_char reply_result lenbuf header uleb_put uleb_loop
    uleb_byte read_answer read_frame read_payload read_case read_wire_string read_groups
select_one = refl
