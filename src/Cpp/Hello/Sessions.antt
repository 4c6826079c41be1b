-- ===== src/Cpp/Hello/Sessions.antt =====
-- Sequences of calls of the guest hello-cpp.
use crabcraft.Prelude.{
  ◌^◌, ◌<◌, ◌≡◌, refl, ◌∙◌, ap, List, [], ◌∷◌, Bytes, IsByte, All, length, Outcome, done,
}
use crabcraft.Reply.Frame.{frame}
use crabcraft.Cpp.Runtime.{Runtime, erase, crab_alloc, crab_schema}
use crabcraft.Cpp.Runtime.Replies.{lenbuf-frame}
use crabcraft.Cpp.Hello.{
  schema_json, registration, hello_start, Export, alloc_call, schema_call, invoke_call,
  serve_schema, run_export, run_exports,
}
use crabcraft.Cpp.Hello.Calls.{hello_payload, hello_exact}

-- What the host keeps to: the lengths are those of the memory, and name, argument and answer are not too
-- long.
abbrev pub IsFair : Export → Type 0
IsFair (alloc_call p len) = Unit {0}
IsFair schema_call = Unit {0}
IsFair (invoke_call name_ptr name name_len arg_ptr arg arg_len) =
    (name_len ≡ length name)
    × (length name < 2 ^ 31)
    × (arg_len ≡ length arg)
    × All IsByte arg
    × (length arg < 2 ^ 31)
    × (length (hello_payload name arg) < 2 ^ 32)

-- The reply buffer after a call.
abbrev pub reply_after : Export → Bytes → Bytes
reply_after (alloc_call p len) before = before
reply_after schema_call before = frame schema_json
reply_after (invoke_call name_ptr name name_len arg_ptr arg arg_len) before =
    frame (hello_payload name arg)

abbrev pub reply_after_all : List Export → Bytes → Bytes
reply_after_all [] before = before
reply_after_all (call ∷ calls) before = reply_after_all calls (reply_after call before)

-- A call ends in a runtime with the same handlers and the reply that is due.
abbrev Ends : Runtime → Bytes → Outcome Runtime → Type 0
Ends rt reply o =
    (rt' : Runtime) × (o ≡ done rt') × (rt'.handlers ≡ rt.handlers) × (rt'.reply ≡ reply)

run_export_lem :
    (rt : Runtime) (call : Export)
    → rt.handlers ≡ registration []
    → IsFair call
    → Ends rt (reply_after call rt.reply) (run_export rt call)
unfolding run_export serve_schema crab_schema crab_alloc
run_export_lem rt (alloc_call p len) registered h = (crab_alloc rt p len, refl, refl, refl)
run_export_lem rt schema_call registered h = (
  record rt { reply = frame schema_json },
  ap (λ (t : Bytes). done (record rt { reply = t })) (lenbuf-frame schema_json),
  refl,
  refl,
)
run_export_lem rt (invoke_call name_ptr name name_len arg_ptr arg arg_len) registered
      (name_size, name_small, arg_size, bytes, arg_small, fits) =
    (
      record {
        handlers = rt.handlers;
        allocs = erase (erase rt.allocs name_ptr) arg_ptr;
        reply = frame (hello_payload name arg);
      },
      rw (name_size, arg_size)
          (hello_exact rt name_ptr arg_ptr name arg registered name_small bytes arg_small fits),
      refl,
      refl,
    )

run_exports_from :
    (rt : Runtime) (calls : List Export)
    → rt.handlers ≡ registration []
    → All IsFair calls
    → Ends rt (reply_after_all calls rt.reply) (run_exports rt calls)
unfolding run_exports
run_exports_from rt [] registered fair = (rt, refl, refl, refl)
run_exports_from rt (call ∷ calls) registered (h, fair) =
    let (rt', ran, same, reply) = run_export_lem rt call registered h in
    let (rt'', rest, kept, last) = run_exports_from rt' calls (same ∙ registered) fair in
    (
      rt'',
      rw (run_exports, ran) rest,
      kept ∙ same,
      last ∙ ap (λ (t : Bytes). reply_after_all calls t) reply,
    )

-- Any sequence of calls of hello-cpp from its start, whose lengths are those of the memory and below
-- `2 ^ 31`, with answers shorter than `2 ^ 32`: none faults, and the reply buffer holds what the last call of
-- `crab_schema` or `crab_invoke` is to be answered with.
pub run_exports_lem :
    (calls : List Export)
    → All IsFair calls
    → (rt' : Runtime) × (run_exports hello_start calls ≡ done rt')
      × (rt'.handlers ≡ registration [])
      × (rt'.reply ≡ reply_after_all calls [])
run_exports_lem calls fair = run_exports_from hello_start calls refl fair
