-- ===== src/Query/Opening.antt =====
-- `db_open` of guest/sqlite-c/main.c: the handle and the message of a failure.
use crabcraft.Prelude.{
  ℕ, ◌≤◌, ◌≡◌, ◌≢◌, refl, arith, false, Option, none, some, ◌++◌, Bytes, codes, length, take,
  length-take_le, Bool-cases, ap, sym, ◌==◌,
}
use crabcraft.Sqlite.{Sqlite, sqlite_ok}
use crabcraft.Query.{opened, db_open, open_message, db_file}
use mathlib.Core.Logic.{inl, inr}
use mathlib.Core.Path.{subst}
use mathlib.Core.Option.{some-injective, none-ne-some}

-- A message of `db_open`: it names the file, and has at most 255 bytes.
abbrev pub IsOpenMessage : Bytes → Type 0
IsOpenMessage msg =
    (length msg ≤ 255) × ((rest : Bytes) × (msg ≡ codes "cannot open crab.db: " ++ rest))

open_message_lem : (reason : Bytes) → IsOpenMessage (open_message reason)
unfolding open_message
open_message_lem reason = (
  length-take_le 255 (codes "cannot open " ++ (db_file ++ (codes ": " ++ reason))),
  (take 234 reason, refl),
)

module _ (lib : Sqlite) where
  open lib use {World, Db}

  -- The message, the handle and the library's state after the opening: an open handle stays; else the
  -- file is opened, and a handle that comes with an error is closed again and forgotten.
  pub data Opens (w : World) : Option Db → Option Bytes → Option Db → World → Type 0 where
    already : {h : Db} → Opens w (some h) none (some h) w
    succeeded :
        {db₁ : Option Db} {w₁ : World}
        → lib.open_db (codes "crab.db") w ≡ (sqlite_ok, db₁, w₁)
        → Opens w none none db₁ w₁
    rejected :
        {rc : ℕ} {h : Db} {w₁ : World}
        → lib.open_db (codes "crab.db") w ≡ (rc, some h, w₁)
        → rc ≢ sqlite_ok
        → Opens w none
            (some (take 255 (codes "cannot open crab.db: " ++ lib.errmsg (some h) w₁)))
            none
            (lib.close h w₁)
    exhausted :
        {rc : ℕ} {w₁ : World}
        → lib.open_db (codes "crab.db") w ≡ (rc, none, w₁)
        → rc ≢ sqlite_ok
        → Opens w none (some (codes "cannot open crab.db: out of memory")) none w₁

  ok_opened : (db : Option Db) (w : World) → opened lib (sqlite_ok, db, w) ≡ (none, db, w)
  unfolding opened
  ok_opened none w = refl
  ok_opened (some h) w = refl

  pub Opens-db_open :
      {w w' : World} {db db' : Option Db} {msg : Option Bytes}
      → Opens w db msg db' w'
      → db_open lib db w ≡ (msg, db', w')
  unfolding db_open
  Opens-db_open already = refl
  Opens-db_open (succeeded {db₁ = db₁} {w₁ = w₁} e) = rw e (ok_opened db₁ w₁)
  Opens-db_open (rejected {rc = rc} e h) =
      let test : (rc == sqlite_ok) ≡ false = ground arith in
      rw e (unfold opened open_message in rw test refl)
  Opens-db_open (exhausted {rc = rc} e h) =
      let test : (rc == sqlite_ok) ≡ false = ground arith in
      rw e (unfold opened open_message in rw test refl)

  abbrev Opened : Type 0
  Opened = Option Bytes × Option Db × World

  failed_with :
      (reason : Bytes) (w₁ : World) {db' : Option Db} {w' : World} {msg : Bytes}
      → ◌≡◌ {A = Opened} (some (open_message reason), none, w₁) (some msg, db', w')
      → (db' ≡ none) × IsOpenMessage msg
  failed_with reason w₁ {msg = msg} e =
      let same : open_message reason ≡ msg = some-injective _ _ (ap (λ (o : Opened). o.0) e) in
      (sym (ap (λ (o : Opened). o.1) e), subst IsOpenMessage same (open_message_lem reason))

  opened_failure :
      (rc : ℕ) (h : Option Db) (w : World) {db' : Option Db} {w' : World} {msg : Bytes}
      → opened lib (rc, h, w) ≡ (some msg, db', w')
      → (db' ≡ none) × IsOpenMessage msg
  unfolding opened
  opened_failure rc none w e = elim (Bool-cases (rc == sqlite_ok)) [
    | inl same ↦ absurd (none-ne-some _ (ap (λ (o : Opened). o.0) (rw same at e)))
    | inr other ↦ failed_with (codes "out of memory") w (rw other at e)
  ]
  opened_failure rc (some h) w e = elim (Bool-cases (rc == sqlite_ok)) [
    | inl same ↦ absurd (none-ne-some _ (ap (λ (o : Opened). o.0) (rw same at e)))
    | inr other ↦ failed_with (lib.errmsg (some h) w) (lib.close h w) (rw other at e)
  ]

  -- A failure happens only where no handle was open, leaves none, so that the next call tries again,
  -- and gives a message of bounded length that names the file.
  pub db_open_failure :
      (db db' : Option Db) (w w' : World) (msg : Bytes)
      → db_open lib db w ≡ (some msg, db', w')
      → (db ≡ none) × (db' ≡ none) × IsOpenMessage msg
  unfolding db_open
  db_open_failure (some h) db' w w' msg e = absurd (none-ne-some _ (ap (λ (o : Opened). o.0) e))
  db_open_failure none db' w w' msg e =
      let o = lib.open_db db_file w in
      let (gone, shape) = opened_failure o.0 o.1 o.2 e in (refl, gone, shape)
