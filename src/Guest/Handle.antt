-- ===== src/Guest/Handle.antt =====
-- `DB` of guest/sqlite-c/main.c through `run_sql` and `crab_invoke`: no path assigns it once it is set.
use crabcraft.Prelude.{
  ℕ, ◌≡◌, refl, Bool, true, false, not, ◌||◌, Option, none, some, Bytes, codes, ◌++◌, length, take,
  ◌==◌, if◌then◌else◌, Outcome, done, fault, ◌>>=◌, fault_done, done-injective,
}
use mathlib.Core.Path.{subst}
use crabcraft.Buffer.{Allocator, Buf, breset, bputs, bputf, used}
use crabcraft.Format.{decimal}
use crabcraft.Reply.{reply_abi_err, reply_result}
use crabcraft.Sqlite.{Sqlite, sqlite_ok, sqlite_done}
use crabcraft.Query.{
  db_open, finalize_any, put_heading, put_rows, only_one, empty_document, only_blanks, behind,
  run_stmt, run_any, run_prepared, run_opened, run_sql, Ran,
}
use crabcraft.Guest.{
  Guest, fn_exec, same_bytes, unknown_function, Params, refused, sql, refuse, exec, handle,
  parse_params, crab_invoke,
}

-- Where the code ends without a fault, what it leaves meets `P`.
abbrev pub Ensures : {A : Type 0} → (A → Type 0) → Outcome A → Type 0
Ensures {A} P o = (a : A) → o ≡ done a → P a

Ensures-done : {A : Type 0} (P : A → Type 0) (a : A) → P a → Ensures P (done a)
Ensures-done P a h b e = subst P (done-injective e) h

Ensures->>= :
    {A B : Type 0} (P : B → Type 0) (m : Outcome A) (f : A → Outcome B)
    → ((a : A) → Ensures P (f a))
    → Ensures P (m >>= f)
Ensures->>= P (done a) f h = h a
Ensures->>= P (fault e) f h = λ b q. absurd (fault_done q)

pub Ensures->>=_after :
    {A B : Type 0} (Q : A → Type 0) (P : B → Type 0) (m : Outcome A) (f : A → Outcome B)
    → Ensures Q m
    → ((a : A) → Q a → Ensures P (f a))
    → Ensures P (m >>= f)
Ensures->>=_after Q P (done a) f now later = later a (now a refl)
Ensures->>=_after Q P (fault e) f now later = λ b q. absurd (fault_done q)

Ensures-if :
    {A : Type 0} (P : A → Type 0) (t : Bool) (m n : Outcome A)
    → Ensures P m
    → Ensures P n
    → Ensures P (if t then m else n)
Ensures-if P true m n hm hn = hm
Ensures-if P false m n hm hn = hn

module _ (lib : Sqlite) (h : lib.Db) where
  abbrev Holds : Ran lib → Type 0
  Holds r = r.db ≡ some h

  abbrev pub HasOpen : Guest lib → Type 0
  HasOpen g = g.db ≡ some h

  module _ (heap : Allocator) where
    answer-Holds :
        (m : Outcome Buf) (code : ℕ) (w : lib.World)
        → Ensures Holds (m >>= λ b. done (record { code = code; db = some h; out = b; world = w }))
    answer-Holds m code w = Ensures->>= Holds m _ (λ b. Ensures-done Holds _ refl)

    run_stmt-Holds :
        (rounds : ℕ) (stmt : lib.Stmt) (w : lib.World) (out : Buf)
        → Ensures Holds (run_stmt lib heap rounds (some h) stmt w out)
    unfolding run_stmt
    run_stmt-Holds rounds stmt w out = Ensures->>= Holds (put_heading lib heap stmt w out) _ (λ b₃.
        Ensures->>= Holds (put_rows lib heap stmt rounds w (lib.column_count stmt w) 0 b₃) _ (λ got.
          let (rc, w', b₄) = got in
          let w'' = lib.finalize stmt w' in
          Ensures-if Holds (not (rc == sqlite_done)) _ _
            (answer-Holds (bputs heap (breset b₄) (lib.errmsg (some h) w')) 1 w'')
            (answer-Holds
              (bputf heap b₄
                (codes "],\"changes\":" ++ (decimal (lib.changes (some h) w'') ++ codes "}")))
              0 w'')))

    run_any-Holds :
        (rounds : ℕ) (stmt : Option lib.Stmt) (w : lib.World) (out : Buf)
        → Ensures Holds (run_any lib heap rounds (some h) stmt w out)
    unfolding run_any
    run_any-Holds rounds none w out = answer-Holds (bputs heap out empty_document) 0 w
    run_any-Holds rounds (some stmt) w out = run_stmt-Holds rounds stmt w out

    run_sql-Holds :
        (rounds : ℕ) (text : Bytes) (w : lib.World) (out : Buf)
        → Ensures Holds (run_sql lib heap rounds text (some h) w out)
    unfolding run_sql db_open run_opened run_prepared
    run_sql-Holds rounds text w out =
        let p = lib.prepare (some h) text w in
        let fresh = breset out in
        Ensures-if Holds (not (p.rc == sqlite_ok)) _ _
          (answer-Holds (bputs heap fresh (lib.errmsg (some h) p.world)) 1 p.world)
          (Ensures-if Holds (not (only_blanks (behind lib p.tail text))) _ _
            (answer-Holds (bputs heap fresh only_one) 1 (finalize_any lib p.stmt p.world))
            (run_any-Holds rounds p.stmt p.world fresh))

    refuse-HasOpen :
        (g : Guest lib) (msg : Bytes) → HasOpen g → Ensures HasOpen (refuse lib heap g msg)
    unfolding refuse
    refuse-HasOpen g msg e =
        Ensures->>= HasOpen (reply_abi_err heap g.reply msg) _ (λ reply. Ensures-done HasOpen _ e)

    handle-HasOpen :
        (rounds : ℕ) (g : Guest lib) (p : Params)
        → HasOpen g
        → Ensures HasOpen (handle lib heap rounds g p)
    unfolding handle exec
    handle-HasOpen rounds g (refused msg) e = refuse-HasOpen g msg e
    handle-HasOpen rounds g (sql text) e =
        let kept : Ensures Holds (run_sql lib heap rounds text g.db g.world g.out) =
          rw e (run_sql-Holds rounds text g.world g.out) in
        Ensures->>=_after Holds HasOpen _ _ kept (λ ran q.
          Ensures->>= HasOpen
            (reply_result heap g.reply (not (ran.code == 0)) (used ran.out.p ran.out.len)) _
            (λ reply. Ensures-done HasOpen _ q))

    -- A call that ends leaves an open handle as it is.
    pub crab_invoke-HasOpen :
        (rounds : ℕ) (g : Guest lib) (name : Bytes) (name_len : ℕ) (arg : Bytes) (arg_len : ℕ)
        → HasOpen g
        → Ensures HasOpen (crab_invoke lib heap rounds g name name_len arg arg_len)
    unfolding crab_invoke
    crab_invoke-HasOpen rounds g name name_len arg arg_len e =
        Ensures-if HasOpen
          (not (name_len == length fn_exec) || not (same_bytes (take name_len name) fn_exec)) _ _
          (refuse-HasOpen g (unknown_function name name_len) e)
          (Ensures->>= HasOpen (parse_params arg arg_len) _ (λ p. handle-HasOpen rounds g p e))
