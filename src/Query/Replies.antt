-- ===== src/Query/Replies.antt =====
-- What a statement is to be answered with, on every path of `run_sql` of guest/sqlite-c/main.c, as a
-- relation.
use crabcraft.Prelude.{
  ℕ, ◌+◌, ◌^◌, ◌≤◌, ◌<◌, ◌≡◌, ◌≢◌, arith, codes, Bool, true, false, Option, none, some, List, Bytes,
  length, ◌==◌, if◌then◌else◌, Outcome, done, ◌>>=◌, refl,
}
use crabcraft.Buffer.{Allocator, Buf, breset, bputs}
use crabcraft.Buffer.Valid.{limit, IsValid, contents, Plentiful}
use crabcraft.Buffer.Appends.{Appends-run, bputs-Appends, breset_lem}
use crabcraft.Sqlite.{Sqlite, Prepared, sqlite_ok, sqlite_done}
use crabcraft.Query.{only_one, empty_document, finalize_any, run_sql, Ran}
use crabcraft.Query.Table.{Value, document, so_far, result, Yields}
use crabcraft.Query.Opening.{Opens, Opens-db_open}
use crabcraft.Query.Tail.{IsAlone, HasMore, IsAlone-only_blanks, HasMore-only_blanks}
use crabcraft.Query.Render.{ShortDoubles}
use crabcraft.Query.Statement.{run_stmt_done, run_stmt_failed}

module _ (lib : Sqlite) where
  open lib use {World, Db, Stmt}

  -- `rows` and `peak` are the rows read and the most bytes that `out` has to hold on the way.
  pub record Reply : Type 0 where
    pub failed : Bool
    pub text : Bytes
    pub rows : ℕ
    pub peak : ℕ
    pub db : Option Db
    pub world : World

  -- A failure or a document with no row.
  abbrev pub short : Bool → Bytes → Option Db → World → Reply
  short failed text db w = record {
    failed = failed;
    text = text;
    rows = 0;
    peak = length text;
    db = db;
    world = w;
  }

  -- `sqlite3_finalize`: a statement is finalised, and NULL is passed over.
  pub data Finalizes (w : World) : Option Stmt → World → Type 0 where
    no_statement : Finalizes w none w
    finalized : {st : Stmt} → Finalizes w (some st) (lib.finalize st w)

  -- The answer to the text `sql` with the handle and the library's state before it.
  pub data Replies (sql : Bytes) (db : Option Db) (w : World) : Reply → Type 0 where
    unopened :
        {msg : Bytes} {db₁ : Option Db} {w₁ : World}
        → Opens lib w db (some msg) db₁ w₁
        → Replies sql db w (short true msg db₁ w₁)
    unprepared :
        {db₁ : Option Db} {w₁ : World} {p : Prepared Stmt World}
        → Opens lib w db none db₁ w₁
        → lib.prepare db₁ sql w₁ ≡ p
        → p.rc ≢ sqlite_ok
        → Replies sql db w (short true (lib.errmsg db₁ p.world) db₁ p.world)
    surplus :
        {db₁ : Option Db} {w₁ w' : World} {p : Prepared Stmt World}
        → Opens lib w db none db₁ w₁
        → lib.prepare db₁ sql w₁ ≡ p
        → p.rc ≡ sqlite_ok
        → HasMore p.tail sql
        → Finalizes p.world p.stmt w'
        → Replies sql db w (short true (codes "only one statement per exec") db₁ w')
    nothing :
        {db₁ : Option Db} {w₁ : World} {p : Prepared Stmt World}
        → Opens lib w db none db₁ w₁
        → lib.prepare db₁ sql w₁ ≡ p
        → p.rc ≡ sqlite_ok
        → IsAlone p.tail sql
        → p.stmt ≡ none
        → Replies sql db w
            (short false (codes "{\"columns\":[],\"rows\":[],\"changes\":0}") db₁ p.world)
    complete :
        {db₁ : Option Db} {w₁ w' : World} {p : Prepared Stmt World} {st : Stmt}
        {rows : List (List (Value lib.Double))}
        → Opens lib w db none db₁ w₁
        → lib.prepare db₁ sql w₁ ≡ p
        → p.rc ≡ sqlite_ok
        → IsAlone p.tail sql
        → p.stmt ≡ some st
        → Yields lib st (lib.column_count st p.world) sqlite_done w' p.world rows
        → Replies sql db w (record {
          failed = false;
          text = document lib (result lib st p.world db₁ (lib.finalize st w') rows);
          rows = length rows;
          peak = length (document lib (result lib st p.world db₁ (lib.finalize st w') rows));
          db = db₁;
          world = lib.finalize st w';
        })
    broken :
        {db₁ : Option Db} {w₁ w' : World} {p : Prepared Stmt World} {st : Stmt} {rc : ℕ}
        {rows : List (List (Value lib.Double))}
        → Opens lib w db none db₁ w₁
        → lib.prepare db₁ sql w₁ ≡ p
        → p.rc ≡ sqlite_ok
        → IsAlone p.tail sql
        → p.stmt ≡ some st
        → Yields lib st (lib.column_count st p.world) rc w' p.world rows
        → rc ≢ sqlite_done
        → Replies sql db w (record {
          failed = true;
          text = lib.errmsg db₁ w';
          rows = length rows;
          peak = length (so_far lib st p.world rows) + length (lib.errmsg db₁ w');
          db = db₁;
          world = lib.finalize st w';
        })

  Finalizes-finalize_any :
      {w w' : World} {stmt : Option Stmt} → Finalizes w stmt w' → finalize_any lib stmt w ≡ w'
  unfolding finalize_any
  Finalizes-finalize_any no_statement = refl
  Finalizes-finalize_any finalized = refl

  module _ (heap : Allocator) where
    -- `run_sql` gives the answer `r`, in `out`, in its return code, and in the state it leaves.
    abbrev pub Gives : Outcome (Ran lib) → Reply → Type 0
    Gives o r =
        (b : Buf) × (o
          ≡ done (record { code = if r.failed then 1 else 0; db = r.db; out = b; world = r.world }))
        × IsValid b
        × (contents b ≡ r.text)

  module _ (heap : Allocator) (serves : Plentiful heap) (doubles : ShortDoubles lib) where
    bputs-Gives :
        (out : Buf) (failed : Bool) (msg : Bytes) (db : Option Db) (w : World)
        → IsValid out
        → length msg ≤ limit
        → Gives heap
            (bputs heap (breset out) msg >>= λ b.
              done (record { code = if failed then 1 else 0; db = db; out = b; world = w }))
            (short failed msg db w)
    bputs-Gives out failed msg db w v room =
        let (fresh, empty) = breset_lem out v in
        let (b, ran, v', held) =
          Appends-run (breset out) (bputs-Appends heap serves msg) fresh empty room in
        (b, rw ran, v', held)

    -- On a valid buffer with room for the answer, and more rounds than rows, `run_sql` of a text shorter
    -- than 2 ^ 31 bytes ends without a fault with the specified answer, on every path. The allocator serves
    -- requests up to 2 ^ 31 bytes, and doubles print in at most 24 characters.
    pub run_sql_lem :
        {sql : Bytes} {db : Option Db} {w : World} {r : Reply}
        → Replies sql db w r
        → length sql < 2 ^ 31
        → (rounds : ℕ) (out : Buf) → r.rows < rounds
        → IsValid out
        → r.peak ≤ limit
        → Gives heap (run_sql lib heap rounds sql db w out) r
    unfolding run_sql
    run_sql_lem (unopened {msg = msg} {db₁ = db₁} {w₁ = w₁} o) hs rounds out hr v room =
        rw (Opens-db_open lib o) (bputs-Gives out true msg db₁ w₁ v room)
    run_sql_lem (unprepared {db₁ = db₁} {p = p} o ep h) hs rounds out hr v room =
        let test : (p.rc == sqlite_ok) ≡ false = ground arith in
        rw (Opens-db_open lib o, ep, test)
          (bputs-Gives out true (lib.errmsg db₁ p.world) db₁ p.world v room)
    run_sql_lem {sql = sql} (surplus {db₁ = db₁} {w' = w'} {p = p} o ep h rest f) hs rounds out hr v
          room =
        rw
          (
            Opens-db_open lib o,
            ep,
            h,
            HasMore-only_blanks lib p.tail sql rest,
            Finalizes-finalize_any f,
          )
          (bputs-Gives out true only_one db₁ w' v room)
    run_sql_lem {sql = sql} (nothing {db₁ = db₁} {p = p} o ep h rest es) hs rounds out hr v room =
        rw (Opens-db_open lib o, ep, h, IsAlone-only_blanks lib p.tail sql rest, es)
          (bputs-Gives out false empty_document db₁ p.world v room)
    run_sql_lem {sql = sql} (complete {db₁ = db₁} {p = p} {st = st} o ep h rest es y) hs rounds out
          hr v room =
        let (fresh, empty) = breset_lem out v in
        rw (Opens-db_open lib o, ep, h, IsAlone-only_blanks lib p.tail sql rest, es)
          (run_stmt_done lib heap st serves doubles db₁ (breset out) y hr fresh empty room)
    run_sql_lem {sql = sql} (broken {db₁ = db₁} {p = p} {st = st} o ep h rest es y failed) hs rounds
          out hr v room =
        let (fresh, empty) = breset_lem out v in
        rw (Opens-db_open lib o, ep, h, IsAlone-only_blanks lib p.tail sql rest, es)
          (run_stmt_failed lib heap st serves doubles db₁ (breset out) y failed hr fresh empty
            (omega arith) (omega arith))

  -- The text of an answer is among what `out` has to hold.
  pub text-le-peak :
      {sql : Bytes} {db : Option Db} {w : World} {r : Reply}
      → Replies sql db w r
      → length r.text ≤ r.peak
  text-le-peak (unopened e) = omega arith
  text-le-peak (unprepared e ep h) = omega arith
  text-le-peak (surplus e ep h rest f) = omega arith
  text-le-peak (nothing e ep h rest es) = omega arith
  text-le-peak (complete e ep h rest es y) = omega arith
  text-le-peak (broken e ep h rest es y failed) = omega arith
