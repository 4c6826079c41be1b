-- ===== src/Query/Total.antt =====
-- That the specification of `run_sql` of guest/sqlite-c/main.c leaves out no case.
use crabcraft.Prelude.{
  ℕ, zero, suc, ◌^◌, ◌≤◌, ◌<◌, ◌≡◌, ◌≢◌, ◌⊎◌, inl, inr, refl, arith, Option, none, some, List, [],
  ◌∷◌, Bytes, codes, length, Bool-cases, Option-cases,
}
use native.Mathlib.Decide.{ℕ_discrete}
use mathlib.Core.Path.{subst}
use crabcraft.Buffer.{Allocator, Buf}
use crabcraft.Buffer.Valid.{limit, IsValid, Plentiful}
use crabcraft.Sqlite.{Sqlite, Prepared, sqlite_ok, sqlite_done}
use crabcraft.Query.{is_blank, run_sql}
use crabcraft.Query.Table.{Value, Yields}
use crabcraft.Query.Render.{ShortDoubles}
use crabcraft.Query.Opening.{Opens, already, succeeded, rejected, exhausted}
use crabcraft.Query.Tail.{IsBlank, IsAlone, HasMore}
use crabcraft.Query.Replies.{
  Reply, Replies, unopened, unprepared, surplus, nothing, complete, broken, Finalizes, no_statement,
  finalized, Gives, run_sql_lem,
}

IsBlank-or_not : (c : ℕ) → IsBlank c ⊎ (¬ IsBlank c)
IsBlank-or_not c = elim (Bool-cases (is_blank c)) [
  | inl e ↦ inl (unfold is_blank in ground arith)
  | inr e ↦ inr (λ h. unfold is_blank in ground arith)
]

from_here : (s : Bytes) → IsAlone (some 0) s ⊎ HasMore (some 0) s
from_here [] = inl (λ i hi hl. absurd (omega arith))
from_here (c ∷ s) = elim (IsBlank-or_not c) [
  | inr other ↦ inr (0, omega arith, omega arith, other)
  | inl blank ↦ elim (from_here s) [
    | inr (i, hi, hl, h) ↦ inr (suc i, omega arith, omega arith, h)
    | inl rest ↦ inl (each c s rest blank)
  ]
]
  where
    each : (c : ℕ) (s : Bytes) → IsAlone (some 0) s → IsBlank c → IsAlone (some 0) (c ∷ s)
    each c s rest blank zero hi hl = blank
    each c s rest blank (suc i) hi hl = rest i (omega arith) (omega arith)

from_place : (t : ℕ) (s : Bytes) → IsAlone (some t) s ⊎ HasMore (some t) s
from_place zero s = from_here s
from_place (suc t) [] = inl (λ i hi hl. absurd (omega arith))
from_place (suc t) (c ∷ s) = elim (from_place t s) [
  | inr (i, hi, hl, h) ↦ inr (suc i, omega arith, omega arith, h)
  | inl rest ↦ inl (later c s t rest)
]
  where
    later : (c : ℕ) (s : Bytes) (t : ℕ) → IsAlone (some t) s → IsAlone (some (suc t)) (c ∷ s)
    later c s t rest zero hi hl = absurd (omega arith)
    later c s t rest (suc i) hi hl = rest i (omega arith) (omega arith)

IsAlone-or_more : (tail : Option ℕ) (sql : Bytes) → IsAlone tail sql ⊎ HasMore tail sql
IsAlone-or_more none sql = inl tt
IsAlone-or_more (some t) sql = from_place t sql

module _ (lib : Sqlite) where
  open lib use {World, Db, Stmt}

  -- Every step of a statement's run from the state `w` is known: it gives finitely many rows.
  abbrev Halts : Stmt → World → Type 0
  Halts st w =
      (rc : ℕ) × (w' : World) × (rows : List (List (Value lib.Double))) × Yields lib st
        (lib.column_count st w) rc w' w rows

  -- The statement that this text prepares to, if it does and is run, halts.
  abbrev pub IsFinite : Bytes → Option Db → World → Type 0
  IsFinite sql db w =
      (db₁ : Option Db) (w₁ : World) (st : Stmt)
      → Opens lib w db none db₁ w₁
      → (lib.prepare db₁ sql w₁).stmt ≡ some st
      → Halts st (lib.prepare db₁ sql w₁).world

  Opens-total :
      (db : Option Db) (w : World)
      → (msg : Option Bytes) × (db' : Option Db) × (w' : World) × Opens lib w db msg db' w'
  Opens-total (some h) w = (none, some h, w, already)
  Opens-total none w = tried (lib.open_db (codes "crab.db") w) refl
    where
      tried :
          (o : ℕ × Option Db × World)
          → lib.open_db (codes "crab.db") w ≡ o
          → (msg : Option Bytes) × (db' : Option Db) × (w' : World) × Opens lib w none msg db' w'
      tried (rc, h, w₁) e = elim (ℕ_discrete rc sqlite_ok) [
        | yes good ↦ (none, h, w₁, succeeded (rw good at e))
        | no bad ↦ failed_to rc h w₁ e bad
      ]
        where
          failed_to :
              (rc : ℕ) (h : Option Db) (w₁ : World)
              → lib.open_db (codes "crab.db") w ≡ (rc, h, w₁)
              → rc ≢ sqlite_ok
              → (msg : Option Bytes) × (db' : Option Db) × (w' : World) × Opens lib w none msg db'
                  w'
          failed_to rc none w₁ e bad = (_, none, w₁, exhausted e bad)
          failed_to rc (some h) w₁ e bad = (_, none, lib.close h w₁, rejected e bad)

  Finalizes-total : (stmt : Option Stmt) (w : World) → (w' : World) × Finalizes lib w stmt w'
  Finalizes-total none w = (w, no_statement)
  Finalizes-total (some st) w = (lib.finalize st w, finalized)

  run_total :
      (sql : Bytes) (db db₁ : Option Db) (w w₁ : World) (st : Stmt)
      → (p : Prepared Stmt World) → lib.prepare db₁ sql w₁ ≡ p
      → Opens lib w db none db₁ w₁
      → p.rc ≡ sqlite_ok
      → IsAlone p.tail sql
      → p.stmt ≡ some st
      → Halts st p.world
      → (r : Reply lib) × Replies lib sql db w r
  run_total sql db db₁ w w₁ st p ep o ok alone es (rc, w', rows, y) =
      elim (ℕ_discrete rc sqlite_done) [
        | yes finished ↦ (
          _,
          complete o ep ok alone es (
              subst (λ k. Yields lib st (lib.column_count st p.world) k w' p.world rows) finished
                y),
        )
        | no failed ↦ (_, broken o ep ok alone es y failed)
      ]

  prepared_total :
      (sql : Bytes) (db db₁ : Option Db) (w w₁ : World) (p : Prepared Stmt World)
      → lib.prepare db₁ sql w₁ ≡ p
      → Opens lib w db none db₁ w₁
      → ((st : Stmt) → p.stmt ≡ some st → Halts st p.world)
      → (r : Reply lib) × Replies lib sql db w r
  prepared_total sql db db₁ w w₁ p ep o halts = elim (ℕ_discrete p.rc sqlite_ok) [
    | no bad ↦ (_, unprepared o ep bad)
    | yes ok ↦ elim (IsAlone-or_more p.tail sql) [
      | inr more ↦ (_, surplus o ep ok more (Finalizes-total p.stmt p.world).1)
      | inl alone ↦ elim (Option-cases p.stmt) [
        | inl es ↦ (_, nothing o ep ok alone es)
        | inr (st, es) ↦ run_total sql db db₁ w w₁ st p ep o ok alone es (halts st es)
      ]
    ]
  ]

  Replies-total :
      (sql : Bytes) (db : Option Db) (w : World)
      → IsFinite sql db w
      → (r : Reply lib) × Replies lib sql db w r
  Replies-total sql db w finite =
      let (msg, db₁, w₁, o) = Opens-total db w in by_message msg db₁ w₁ o
    where
      by_message :
          (msg : Option Bytes) (db₁ : Option Db) (w₁ : World)
          → Opens lib w db msg db₁ w₁
          → (r : Reply lib) × Replies lib sql db w r
      by_message (some msg) db₁ w₁ o = (_, unopened o)
      by_message none db₁ w₁ o =
          prepared_total sql db db₁ w w₁ (lib.prepare db₁ sql w₁) refl o
            (λ st es. finite db₁ w₁ st o es)

  -- A text shorter than 2 ^ 31 bytes, whose statement, if it prepares to one, gives finitely many rows, and
  -- whose answer has fewer rows than `rounds` and fits the buffer: on any well-formed buffer `run_sql` ends
  -- without a fault, and an answer of the specification is what it gives.
  pub run_sql_total :
      (heap : Allocator) (rounds : ℕ) (sql : Bytes) (db : Option Db) (w : World) (out : Buf)
      → Plentiful heap
      → ShortDoubles lib
      → length sql < 2 ^ 31
      → IsFinite sql db w
      → ((r : Reply lib) → Replies lib sql db w r → (r.rows < rounds) × (r.peak ≤ limit))
      → IsValid out
      → (r : Reply lib) × Replies lib sql db w r
        × Gives lib heap (run_sql lib heap rounds sql db w out) r
  run_sql_total heap rounds sql db w out serves doubles small finite fits v =
      let (r, y) = Replies-total sql db w finite in
      let (few, room) = fits r y in
      (r, y, run_sql_lem lib heap serves doubles y small rounds out few v room)
