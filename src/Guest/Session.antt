-- ===== src/Guest/Session.antt =====
-- Sequences of calls of `crab_invoke`, and what each call is to be answered with.
use crabcraft.Prelude.{
  ℕ, ◌+◌, ◌^◌, ◌≤◌, ◌<◌, ◌≡◌, ◌≢◌, refl, sym, ◌∙◌, arith, Option, some, List, [], ◌∷◌, ◌++◌, codes,
  Bytes, IsByte, All, length, if◌then◌else◌, Outcome, done, ◌>>=◌, Bool-cases, inl, inr, take_all,
  done-injective,
}
use crabcraft.Buffer.{Allocator, block}
use mathlib.Core.Bool.{false≢true}
use crabcraft.Buffer.Valid.{limit, Plentiful}
use crabcraft.Reply.Answer.{Answer, ok, err, failed, read_answer, read_wire_string}
use crabcraft.Sqlite.{Sqlite}
use crabcraft.Query.Render.{ShortDoubles}
use crabcraft.Query.Replies.{Reply, Replies, text-le-peak}
use crabcraft.Guest.{Guest, fn_exec, same_bytes, Params, refused, sql, crab_invoke}
use crabcraft.Guest.Arguments.{expected, expected_iff}
use crabcraft.Guest.Handle.{HasOpen, Ensures->>=_after, crab_invoke-HasOpen}
use crabcraft.Guest.Unknown.{shown}
use crabcraft.Guest.Calls.{
  IsReady, Leaves, same_bytes_iff, crab_invoke_unknown, crab_invoke_refused, crab_invoke_exec,
}

-- A call of `crab_invoke` by the host: the name and the argument bytes.
pub record Call : Type 0 where
  pub name : Bytes
  pub arg : Bytes

abbrev pub IsCall : Call → Type 0
IsCall c = All IsByte c.arg × (length c.arg < 2 ^ 31) × (length c.name < 2 ^ 31)

module _ (lib : Sqlite) where
  -- What a call is answered with, and the handle and the library's state that it leaves.
  pub data Handles (g : Guest lib) (c : Call) : Answer → Option lib.Db → lib.World → Type 0 where
    unknown :
        c.name ≢ fn_exec
        → Handles g c (failed (codes "unknown function: " ++ shown 200 c.name)) g.db g.world
    malformed :
        {msg : Bytes}
        → c.name ≡ fn_exec
        → expected c.arg ≡ refused msg
        → Handles g c (failed msg) g.db g.world
    executed :
        {text : Bytes} {r : Reply lib}
        → c.name ≡ fn_exec
        → read_wire_string c.arg ≡ some text
        → Replies lib text g.db g.world r
        → Handles g c (if r.failed then err r.text else ok r.text) r.db r.world

  -- If the call is to run a text as a statement, that text has an answer from the state of `g`, which
  -- takes fewer than `rounds` rows and fits the buffers. Of other calls nothing is asked.
  abbrev pub IsServed : ℕ → Guest lib → Call → Type 0
  IsServed rounds g c =
      (text : Bytes)
      → c.name ≡ fn_exec
      → read_wire_string c.arg ≡ some text
      → (r : Reply lib) × Replies lib text g.db g.world r
        × (r.rows < rounds)
        × (r.peak + 16 ≤ limit)

  module _ (heap : Allocator) (rounds : ℕ) where
    abbrev pub invoked : Guest lib → Call → Outcome (Guest lib)
    invoked g c = crab_invoke lib heap rounds g c.name (length c.name) c.arg (length c.arg)

    -- One call after another, the state passed on.
    unfoldable pub run_calls : Guest lib → List Call → Outcome (Guest lib)
    run_calls g [] = done g
    run_calls g (c ∷ cs) = do g' ← invoked g c; run_calls g' cs

    -- Each call is one of the host's, and is served in the state that the calls before it leave.
    abbrev pub AreServed : Guest lib → List Call → Type 0
    AreServed g [] = Unit {0}
    AreServed g (c ∷ cs) =
        IsCall c
        × IsServed rounds g c
        × ((g' : Guest lib) → invoked g c ≡ done g' → AreServed g' cs)

    -- The call ends without a fault, ready for the next, and its answer is the specified one.
    abbrev pub Answered : Guest lib → Call → Type 0
    Answered g c =
        (a : Answer) × (g' : Guest lib) × (invoked g c ≡ done g')
        × IsReady g'
        × (read_answer (block g'.reply.p) ≡ some a)
        × Handles g c a g'.db g'.world

    -- A database that is open is open under the same handle after any calls that end without a fault,
    -- whatever the library does.
    pub run_calls_keeps_handle :
        (g g' : Guest lib) (cs : List Call) (h : lib.Db)
        → g.db ≡ some h
        → run_calls g cs ≡ done g'
        → g'.db ≡ some h
    unfolding run_calls
    run_calls_keeps_handle g g' [] h e ran = rw (← done-injective ran) e
    run_calls_keeps_handle g g' (c ∷ cs) h e ran =
        let kept =
          crab_invoke-HasOpen lib h heap rounds g c.name (length c.name) c.arg (length c.arg) e in
        Ensures->>=_after (HasOpen lib h) (HasOpen lib h) (invoked g c) (λ g₁. run_calls g₁ cs) kept
          (λ g₁ e₁ g₂ ran₁. run_calls_keeps_handle g₁ g₂ cs h e₁ ran₁) g' ran

    module _ (serves : Plentiful heap) (doubles : ShortDoubles lib) where
      answered :
          (g : Guest lib) (c : Call) {a : Answer} {db : Option lib.Db} {w : lib.World}
          → Leaves lib (invoked g c) a db w
          → Handles g c a db w
          → Answered g c
      answered g c {a} (g', ran, v', ans, same_db, same_world) h =
          (a, g', ran, v', ans, rw (same_db, same_world) h)

      named :
          (g : Guest lib) (c : Call) (p : Params)
          → expected c.arg ≡ p
          → c.name ≡ fn_exec
          → IsReady g
          → IsCall c
          → IsServed rounds g c
          → Answered g c
      named g c (refused msg) e this v (bytes, hl, hn) served =
          answered g c
            (crab_invoke_refused lib heap serves rounds g c.name (length c.name) c.arg msg v
              (omega arith) (take_all _ c.name (omega arith) ∙ this) bytes hl e)
            (malformed this e)
      named g c (sql text) e this v (bytes, hl, hn) served =
          let wire = (expected_iff c.arg text).0 e in
          let (r, y, few, room) = served text this wire in
          answered g c
            (crab_invoke_exec lib heap serves doubles rounds g c.name (length c.name) c.arg text r v
              (omega arith) (take_all _ c.name (omega arith) ∙ this) bytes hl wire y few
              (omega arith) (omega (arith, text-le-peak lib y)))
            (executed this wire y)

      -- On well-formed buffers, a call with a name and arguments shorter than 2 ^ 31 bytes ends without
      -- a fault in well-formed buffers, and the host reads the specified answer. If the call is to run
      -- a text, that text has an answer from this state that fits the rounds and the buffers; of other
      -- calls nothing more is asked. The allocator serves requests up to 2 ^ 31 bytes, and doubles print
      -- in at most 24 characters.
      pub crab_invoke-Answered :
          (g : Guest lib) (c : Call) → IsReady g → IsCall c → IsServed rounds g c → Answered g c
      crab_invoke-Answered g c v (bytes, hl, hn) served =
          elim (Bool-cases (same_bytes c.name fn_exec)) [
            | inl e ↦
                named g c (expected c.arg) refl ((same_bytes_iff c.name fn_exec).0 e) v
                  (bytes, hl, hn) served
            | inr e ↦
                let other : c.name ≢ fn_exec =
                  λ q. false≢true (sym e ∙ (same_bytes_iff c.name fn_exec).1 q) in
                let whole = take_all (length c.name) c.name (omega arith) in
                answered g c
                  (rw whole at (
                    crab_invoke_unknown lib heap serves rounds g c.name (length c.name) c.arg
                      (length c.arg) v (omega arith) hn (rw whole other)))
                  (unknown other)
          ]

      -- From well-formed buffers, a session of calls with names and arguments shorter than 2 ^ 31 bytes,
      -- where each text to run has an answer, from the state that it meets, that fits the rounds and the
      -- buffers, ends without a fault in well-formed buffers. Assumed of the allocator and of doubles is
      -- the same as for one call.
      pub run_calls-IsReady :
          (g : Guest lib) (cs : List Call)
          → IsReady g
          → AreServed g cs
          → (g' : Guest lib) × (run_calls g cs ≡ done g') × IsReady g'
      unfolding run_calls
      run_calls-IsReady g [] v h = (g, refl, v)
      run_calls-IsReady g (c ∷ cs) v (hc, served, later) =
          let (a, g₁, ran, v₁, ans, handled) = crab_invoke-Answered g c v hc served in
          let (g', ran', v') = run_calls-IsReady g₁ cs v₁ (later g₁ ran) in (g', rw ran ran', v')
