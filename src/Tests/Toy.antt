-- ===== src/Tests/Toy.antt =====
-- A small library and an allocator to run the code with: every text prepares to a statement whose
-- rows hold the number 7, and the state of the library counts the rows to come.
use crabcraft.Prelude.{ℕ, zero, suc, refl, arith, true, false, some, codes, length}
use crabcraft.Buffer.{Allocator}
use crabcraft.Buffer.Valid.{Plentiful}
use crabcraft.Format.{pos}
use crabcraft.Sqlite.{Sqlite}
use crabcraft.Query.Render.{ShortDoubles}

abbrev pub heap : Allocator
heap = record { grants = λ n. true; junk = λ i. 0 }

pub heap-Plentiful : Plentiful heap
heap-Plentiful = λ n h. refl

abbrev pub countdown : ℕ → ℕ × ℕ
countdown zero = (101, 0)
countdown (suc n) = (100, n)

abbrev pub toy : Sqlite
toy = record {
  World = ℕ;
  Db = Unit {0};
  Stmt = Unit {0};
  Double = Unit {0};
  open_db = λ file w. (0, some tt, w);
  errmsg = λ db w. codes "no such table";
  close = λ db w. w;
  prepare = λ db text w. record { rc = 0; stmt = some tt; tail = some (length text); world = w };
  finalize = λ stmt w. w;
  column_count = λ stmt w. 1;
  column_name = λ stmt i w. some (codes "n");
  step = λ stmt w. countdown w;
  column_type = λ stmt i w. 1;
  column_int64 = λ stmt i w. pos 7;
  column_double = λ stmt i w. tt;
  column_blob = λ stmt i w. codes "7";
  column_text = λ stmt i w. codes "7";
  column_bytes = λ stmt i w. 1;
  blob_held = λ stmt i w. omega arith;
  text_held = λ stmt i w. omega arith;
  changes = λ db w. pos 0;
  isnan = λ d. false;
  isinf = λ d. false;
  format_double = λ d. codes "0.5";
}

pub toy-ShortDoubles : ShortDoubles toy
toy-ShortDoubles = λ d. omega arith
