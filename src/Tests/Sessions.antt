-- ===== src/Tests/Sessions.antt =====
-- The theorems on calls of the exports, at concrete inputs.
use crabcraft.Prelude.{
  ◌≡◌, ◌↔◌, refl, arith, none, some, [], ◌∷◌, if◌then◌else◌, Bytes, codes, length, done, ap, sym,
  ◌∙◌, ◌++◌, done-injective,
}
use mathlib.Core.Path.{subst}
use mathlib.Core.Option.{some-injective}
use crabcraft.Buffer.{zeroed, block}
use crabcraft.Buffer.Appends.{zeroed-IsValid}
use crabcraft.Uleb.Decode.{read_groups}
use crabcraft.Reply.Answer.{ok, err, failed, read_frame, read_wire_string}
use crabcraft.Schema.{schema_json}
use crabcraft.Guest.{
  Guest, fn_exec, refused, sql, bad_trailing, parse_params, crab_schema, crab_invoke,
}
use crabcraft.Guest.Arguments.{expected, judge, parse_params-expected, parse_params_iff}
use crabcraft.Guest.Unknown.{shown}
use crabcraft.Guest.Calls.{IsReady, Leaves, crab_invoke_unknown, crab_invoke_exec}
use crabcraft.Guest.Session.{
  Call, IsServed, AreServed, invoked, run_calls, Answered, crab_invoke-Answered, run_calls-IsReady,
  run_calls_keeps_handle,
}
use crabcraft.Guest.Exports.{crab_schema_lem}
use crabcraft.Tests.Toy.{heap, heap-Plentiful, toy, toy-ShortDoubles}
use crabcraft.Tests.Queries.{one_reply, one_reply-Replies, open_reply-Replies, one_reply_fits}

-- Before the first call, with one row to come, and with an open database.
abbrev fresh_guest : Guest toy
fresh_guest = record { reply = zeroed; out = zeroed; db = none; world = 1 }

abbrev open_guest : Guest toy
open_guest = record { reply = zeroed; out = zeroed; db = some tt; world = 1 }

-- `exec` with one string, and with a byte too many.
abbrev select : Bytes
select = 8 ∷ codes "SELECT 7"

abbrev trailing : Bytes
trailing = 1 ∷ codes "ab"

select_read : read_wire_string select ≡ some (codes "SELECT 7")
unfolding read_wire_string read_groups
select_read = refl

trailing_refused : expected trailing ≡ refused bad_trailing
unfolding expected judge read_groups
trailing_refused = refl

parse_params_example : parse_params trailing (length trailing) ≡ done (expected trailing)
parse_params_example = parse_params-expected trailing (omega arith) (omega arith)

parse_params_iff_example :
    (parse_params select (length select) ≡ done (sql (codes "SELECT 7")))
    ↔ (read_wire_string select ≡ some (codes "SELECT 7"))
parse_params_iff_example = parse_params_iff select (codes "SELECT 7") (omega arith) (omega arith)

unknown_example :
    Leaves toy
      (crab_invoke toy heap 5 fresh_guest (codes "nope") 4 select 9)
      (failed (codes "unknown function: " ++ shown 200 (codes "nope")))
      none
      1
unknown_example =
    crab_invoke_unknown toy heap heap-Plentiful 5 fresh_guest (codes "nope") 4 select 9
      (zeroed-IsValid, zeroed-IsValid) (omega arith) (omega arith)
      (λ e. let sizes = ap (λ (t : Bytes). length t) e in absurd (omega arith))

exec_example :
    Leaves toy
      (crab_invoke toy heap 5 fresh_guest fn_exec 25 select (length select))
      (if one_reply.failed then err one_reply.text else ok one_reply.text)
      one_reply.db
      one_reply.world
exec_example =
    crab_invoke_exec toy heap heap-Plentiful toy-ShortDoubles 5 fresh_guest fn_exec 25 select
      (codes "SELECT 7") one_reply (zeroed-IsValid, zeroed-IsValid) (omega arith) refl (omega arith)
      (omega arith) select_read one_reply-Replies (omega arith) (omega (arith, one_reply_fits))
      (omega (arith, one_reply_fits))

abbrev call : Call
call = record { name = fn_exec; arg = select }

abbrev stray : Call
stray = record { name = codes "nope"; arg = select }

-- The text that the call holds is answered with the one row, from any guest of that state.
call-IsServed : (g : Guest toy) → g.db ≡ none → g.world ≡ 1 → IsServed toy 5 g call
call-IsServed g closed one text this wire =
    let same : codes "SELECT 7" ≡ text = some-injective _ _ (sym select_read ∙ wire) in
    (
      one_reply,
      rw (← same, closed, one) one_reply-Replies,
      omega arith,
      omega (arith, one_reply_fits),
    )

open-IsServed : IsServed toy 5 open_guest call
open-IsServed text this wire =
    let same : codes "SELECT 7" ≡ text = some-injective _ _ (sym select_read ∙ wire) in
    (one_reply, rw (← same) open_reply-Replies, omega arith, omega (arith, one_reply_fits))

answered_example : Answered toy heap 5 fresh_guest call
answered_example =
    crab_invoke-Answered toy heap 5 heap-Plentiful toy-ShortDoubles fresh_guest call
      (zeroed-IsValid, zeroed-IsValid) (omega arith, omega arith, omega arith)
      (call-IsServed fresh_guest refl refl)

stray-IsServed : (g : Guest toy) → IsServed toy 5 g stray
stray-IsServed g text this wire =
    let sizes = ap (λ (t : Bytes). length t) this in absurd (omega arith)

stray_leaves :
    (g : Guest toy) → invoked toy heap 5 fresh_guest stray ≡ done g → (g.db ≡ none) × (g.world ≡ 1)
stray_leaves g ran =
    let (g', ran', v, ans, db, world) = unknown_example in
    let same : g' ≡ g = done-injective (sym ran' ∙ ran) in
    subst (λ (h : Guest toy). (h.db ≡ none) × (h.world ≡ 1)) same (db, world)

session-AreServed : AreServed toy heap 5 fresh_guest (stray ∷ call ∷ [])
session-AreServed = (
  (omega arith, omega arith, omega arith),
  stray-IsServed fresh_guest,
  λ g ran.
      let (db, world) = stray_leaves g ran in
      ((omega arith, omega arith, omega arith), call-IsServed g db world, λ g' ran'. tt),
)

session_example :
    (g' : Guest toy) × (run_calls toy heap 5 fresh_guest (stray ∷ call ∷ []) ≡ done g') × IsReady g'
session_example =
    run_calls-IsReady toy heap 5 heap-Plentiful toy-ShortDoubles fresh_guest (stray ∷ call ∷ [])
      (zeroed-IsValid, zeroed-IsValid) session-AreServed

schema_example :
    (g' : Guest toy) × (crab_schema toy heap fresh_guest ≡ done g')
    × IsReady g'
    × (read_frame (block g'.reply.p) ≡ some schema_json)
    × (g'.out ≡ zeroed)
    × (g'.db ≡ none)
    × (g'.world ≡ 1)
schema_example =
    crab_schema_lem toy heap fresh_guest heap-Plentiful (zeroed-IsValid, zeroed-IsValid)

-- The same with a database that is open.
after_one : (g' : Guest toy) × (run_calls toy heap 5 open_guest (call ∷ []) ≡ done g') × IsReady g'
after_one =
    run_calls-IsReady toy heap 5 heap-Plentiful toy-ShortDoubles open_guest (call ∷ [])
      (zeroed-IsValid, zeroed-IsValid)
      ((omega arith, omega arith, omega arith), open-IsServed, λ g' ran'. tt)

keeps_handle_example : after_one.0.db ≡ some tt
keeps_handle_example =
    run_calls_keeps_handle toy heap 5 open_guest after_one.0 (call ∷ []) tt refl after_one.1
