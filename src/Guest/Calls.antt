-- ===== src/Guest/Calls.antt =====
-- What a call of an export answers, and the state that it leaves.
use crabcraft.Prelude.{
  ℕ, none, ◌++◌, codes, ◌+◌, ◌^◌, ◌≤◌, ◌<◌, ◌≡◌, ◌≢◌, ◌↔◌, refl, ◌∙◌, ap, arith, Bool, true, false,
  not, ◌||◌, Option, some, [], ◌∷◌, Bytes, IsByte, All, length, take, length-take, ◌==◌,
  if◌then◌else◌, Outcome, done, Bool-cases, inl, inr,
}
use mathlib.Core.Path.{subst}
use mathlib.Core.Option.{some-injective, none-ne-some}
use crabcraft.Uleb.Decode.{read_groups}
use crabcraft.Uleb.RoundTrip.{read_groups_bounds}
use crabcraft.Buffer.{Allocator, block}
use crabcraft.Buffer.Valid.{limit, IsValid, Plentiful}
use crabcraft.Reply.Answer.{
  Answer, ok, err, failed, read_answer, read_wire_string, reply_abi_err-Answers,
  reply_result-Answers,
}
use crabcraft.Sqlite.{Sqlite}
use crabcraft.Query.Render.{ShortDoubles}
use crabcraft.Query.Replies.{Reply, Replies, run_sql_lem}
use crabcraft.Guest.{Guest, fn_exec, same_bytes, refused, refuse, exec, handle, crab_invoke}
use crabcraft.Guest.Unknown.{shown, length-shown, unknown, unknown_function_lem}
use crabcraft.Guest.Arguments.{expected, expected_iff, parse_params-expected, short_refusal}

-- Both static buffers are well formed.
abbrev pub IsReady : {lib : Sqlite} → Guest lib → Type 0
IsReady g = IsValid g.reply × IsValid g.out

-- The call ends without a fault in a state where the buffers are well formed and the handle and the
-- library's state are `db` and `w`, and the host reads the answer `a`.
abbrev pub Leaves :
    (lib : Sqlite) → Outcome (Guest lib) → Answer → Option lib.Db → lib.World → Type 0
Leaves lib o a db w =
    (g : Guest lib) × (o ≡ done g)
    × IsReady g
    × (read_answer (block g.reply.p) ≡ some a)
    × (g.db ≡ db)
    × (g.world ≡ w)

pub same_bytes_iff : (s t : Bytes) → (same_bytes s t ≡ true) ↔ (s ≡ t)
unfolding same_bytes
same_bytes_iff [] [] = (λ e. refl, λ e. refl)
same_bytes_iff [] (d ∷ t) = (λ e. cc, λ e. cc)
same_bytes_iff (c ∷ s) [] = (λ e. cc, λ e. cc)
same_bytes_iff (c ∷ s) (d ∷ t) =
    (λ e. ground (arith, (same_bytes_iff s t).0), λ e. ground (arith, (same_bytes_iff s t).1))

name_test :
    (name : Bytes) (name_len : ℕ)
    → name_len ≤ length name
    → (not (name_len == length fn_exec) || not (same_bytes (take name_len name) fn_exec))
      ≡ not (same_bytes (take name_len name) fn_exec)
name_test name name_len h = elim (Bool-cases (same_bytes (take name_len name) fn_exec)) [
  | inl e ↦
      let size =
        ap (λ (t : Bytes). length t) ((same_bytes_iff (take name_len name) fn_exec).0 e) ∙ refl in
      let sized : (name_len == length fn_exec) ≡ true = ground (arith, length-take name_len name) in
      rw (e, sized)
  | inr e ↦ rw e (ground arith)
]

shorter :
    (arg text : Bytes) (o : Option (ℕ × Bytes))
    → All IsByte arg
    → read_groups 5 arg ≡ o
    → elim o [ none ↦ none | some (n, rest) ↦ if n == length rest then some rest else none ]
      ≡ some text
    → length text ≤ length arg
shorter arg text none bytes q e = absurd (none-ne-some _ e)
shorter arg text (some (n, rest)) bytes q e =
    let (small, less, few) = read_groups_bounds 5 arg q bytes in
    elim (Bool-cases (n == length rest)) [
      | inl same ↦
          let text_is : rest ≡ text = some-injective _ _ (rw same at e) in
          subst (λ (t : Bytes). length t ≤ length arg) text_is (omega arith)
      | inr other ↦ absurd (none-ne-some _ (rw other at e))
    ]

length-read_wire_string :
    (arg text : Bytes)
    → All IsByte arg
    → read_wire_string arg ≡ some text
    → length text ≤ length arg
unfolding read_wire_string
length-read_wire_string arg text bytes e = shorter arg text (read_groups 5 arg) bytes refl e

code_flag : (failed : Bool) → not ((if failed then 1 else 0) == 0) ≡ failed
code_flag true = refl
code_flag false = refl

module _ (lib : Sqlite) (heap : Allocator) (serves : Plentiful heap) where
  refuse_lem :
      (g : Guest lib) (msg : Bytes)
      → IsReady g
      → length msg + 16 ≤ limit
      → Leaves lib (refuse lib heap g msg) (failed msg) g.db g.world
  unfolding refuse
  refuse_lem g msg (v, v') room =
      let (reply, ran, ok_reply, answers) = reply_abi_err-Answers heap g.reply serves v msg room in
      (record g { reply = reply }, rw ran, (ok_reply, v'), answers, refl, refl)

  exec_lem :
      (doubles : ShortDoubles lib) (rounds : ℕ) (g : Guest lib) (text : Bytes) (r : Reply lib)
      → IsReady g
      → Replies lib text g.db g.world r
      → length text < 2 ^ 31
      → r.rows < rounds
      → r.peak ≤ limit
      → length r.text + 16 ≤ limit
      → Leaves lib
          (exec lib heap rounds g text)
          (if r.failed then err r.text else ok r.text)
          r.db
          r.world
  unfolding exec
  exec_lem doubles rounds g text r (v, v') y ht hr room room' =
      let (b, ran, vb, held) = run_sql_lem lib heap serves doubles y ht rounds g.out hr v' room in
      let (reply, ran', vr, answers) =
        reply_result-Answers heap g.reply serves v r.failed r.text room' in
      (
        record { reply = reply; out = b; db = r.db; world = r.world },
        rw (ran, code_flag r.failed, held, ran'),
        (vr, vb),
        answers,
        refl,
        refl,
      )

  -- On well-formed buffers, a call by another name than that of `exec`, shorter than 2 ^ 31 bytes, is
  -- answered with the protocol error `unknown function: ` and that name, up to its first NUL and its 200th
  -- byte. It changes neither the database nor its handle. The allocator serves requests up to 2 ^ 31 bytes.
  pub crab_invoke_unknown :
      (rounds : ℕ) (g : Guest lib) (name : Bytes) (name_len : ℕ) (arg : Bytes) (arg_len : ℕ)
      → IsReady g
      → name_len ≤ length name
      → name_len < 2 ^ 31
      → take name_len name ≢ fn_exec
      → Leaves lib
          (crab_invoke lib heap rounds g name name_len arg arg_len)
          (failed (codes "unknown function: " ++ shown 200 (take name_len name)))
          g.db
          g.world
  unfolding crab_invoke
  crab_invoke_unknown rounds g name name_len arg arg_len v h small other =
      let test : same_bytes (take name_len name) fn_exec ≡ false =
        elim (Bool-cases (same_bytes (take name_len name) fn_exec)) [
          | inl e ↦ absurd (other ((same_bytes_iff (take name_len name) fn_exec).0 e))
          | inr e ↦ e
        ] in
      let msg = unknown (take name_len name) in
      rw (name_test name name_len h, test, unknown_function_lem name name_len small)
        (refuse_lem g msg v (omega (arith, length-shown 200 (take name_len name))))

  named_exec :
      (rounds : ℕ) (g : Guest lib) (name : Bytes) (name_len : ℕ) (arg : Bytes)
      → name_len ≤ length name
      → take name_len name ≡ fn_exec
      → All IsByte arg
      → length arg < 2 ^ 31
      → crab_invoke lib heap rounds g name name_len arg (length arg)
        ≡ handle lib heap rounds g (expected arg)
  unfolding crab_invoke
  named_exec rounds g name name_len arg h this bytes hl =
      let test = (same_bytes_iff (take name_len name) fn_exec).1 this in
      rw (name_test name name_len h, test, parse_params-expected arg bytes hl)

  -- A call of `exec` with malformed arguments is answered with a protocol error, and runs nothing.
  pub crab_invoke_refused :
      (rounds : ℕ) (g : Guest lib) (name : Bytes) (name_len : ℕ) (arg msg : Bytes)
      → IsReady g
      → name_len ≤ length name
      → take name_len name ≡ fn_exec
      → All IsByte arg
      → length arg < 2 ^ 31
      → expected arg ≡ refused msg
      → Leaves lib
          (crab_invoke lib heap rounds g name name_len arg (length arg))
          (failed msg)
          g.db
          g.world
  unfolding handle
  crab_invoke_refused rounds g name name_len arg msg v h this bytes hl e =
      rw (named_exec rounds g name name_len arg h this bytes hl, e)
        (refuse_lem g msg v (omega (arith, short_refusal arg msg e)))

  -- A call of `exec` with one string of the wire format runs it as a statement, and the host reads
  -- the statement's document as `ok` or its message as `err`.
  pub crab_invoke_exec :
      (doubles : ShortDoubles lib) (rounds : ℕ) (g : Guest lib) (name : Bytes) (name_len : ℕ)
      (arg text : Bytes) (r : Reply lib)
      → IsReady g
      → name_len ≤ length name
      → take name_len name ≡ fn_exec
      → All IsByte arg
      → length arg < 2 ^ 31
      → read_wire_string arg ≡ some text
      → Replies lib text g.db g.world r
      → r.rows < rounds
      → r.peak ≤ limit
      → length r.text + 16 ≤ limit
      → Leaves lib
          (crab_invoke lib heap rounds g name name_len arg (length arg))
          (if r.failed then err r.text else ok r.text)
          r.db
          r.world
  unfolding handle
  crab_invoke_exec doubles rounds g name name_len arg text r v h this bytes hl e y hr room room' =
      rw (named_exec rounds g name name_len arg h this bytes hl, (expected_iff arg text).1 e)
        (exec_lem doubles rounds g text r v y
          (omega (arith, length-read_wire_string arg text bytes e)) hr room room')
