-- ===== src/Cpp/Cursor/Strings.antt =====
-- `Bytes` and `String` on an address.
use crabcraft.Prelude.{
  drop-drop, ℕ, zero, suc, ap, ◌∙◌, ◌+◌, ◌-◌, ◌≡◌, refl, sym, arith, Bool, true, false, not, Bytes,
  codes, length, length-drop, length-take_le, take_all, take, drop, ltb, leb, if◌then◌else◌,
  Bool-cases, inl, inr, Outcome, done, fault,
}
use mathlib.Core.Path.{subst}
use crabcraft.Cpp.Res.{ok, err}
use crabcraft.Cpp.Utf8.{utf8_valid}
use crabcraft.Cpp.Utf8.Prefix.{utf8_valid-take}
use crabcraft.Cpp.Decoder.{Decode, bytes, string, lift, pure, refuse, ◌>>=◌}
use crabcraft.Cpp.Decoder.Reads.{take-drop-take}
use crabcraft.Cpp.Runtime.{copy}
use crabcraft.Cpp.Linear.{Memory, load_string}
use crabcraft.Cpp.Cursor.{
  Cursor, bytes_at, read_at, string_at, string_body_at, string_text_at, peek, refuse_at,
}
use crabcraft.Cpp.Cursor.Agrees.{
  view, Inside, Same, then-Same, bind-Same, front-Same, same_done, same_fault, Agrees, Agrees-bind,
}
use crabcraft.Cpp.Cursor.Methods.{uleb-Agrees}

load_there :
    (m : Memory) (c : Cursor) (n : ℕ)
    → Inside m c
    → ltb (c.len - c.pos) n ≡ false
    → load_string m (c.buf + c.pos) n ≡ done (take n (drop (c.buf + c.pos) m))
unfolding load_string copy
load_there m c n inside room =
    let dropped = length-drop (c.buf + c.pos) m in
    let test : leb n (length (drop (c.buf + c.pos) m)) ≡ true = ground arith in rw test

peek-Same :
    {A : Type 0} (m : Memory) (c : Cursor) (o : Outcome A)
    → Inside m c
    → Same m (elim o [ fault e ↦ fault e | done v ↦ done (ok v, c) ]) (lift o (view m c))
peek-Same m c (fault e) inside = same_fault e
peek-Same m c (done v) inside = same_done (ok v) c inside refl

string_text : ℕ → Bytes → Decode Bytes
string_text n b = do
  valid ← lift (utf8_valid b n)
  if not valid then refuse (codes "invalid utf-8 in string") else pure (take n b)

string_body : ℕ → Decode Bytes
string_body n = do b ← bytes n; string_text n b

loaded_bytes-Same :
    (n : ℕ) (m : Memory) (c c' : Cursor)
    → load_string m (c.buf + c.pos) n ≡ done (take n (drop (c.buf + c.pos) m))
    → Inside m c'
    → Same m
        (peek (λ m'. load_string m' (c.buf + c.pos) n) m c')
        (pure (take n (drop (c.buf + c.pos) m)) (view m c'))
loaded_bytes-Same n m c c' there inside =
    subst
      (λ o.
        Same m (elim o [ fault e ↦ fault e | done v ↦ done (ok v, c') ])
          (done (ok (take n (drop (c.buf + c.pos) m)), view m c')))
      (sym there) (same_done (ok (take n (drop (c.buf + c.pos) m))) c' inside refl)

copied-Same :
    (n : ℕ) (m : Memory) (c : Cursor) (valid : Bool)
    → load_string m (c.buf + c.pos) n ≡ done (take n (drop (c.buf + c.pos) m))
    → (c' : Cursor) → Inside m c'
    → Same m
        ((if not valid
            then refuse_at (codes "invalid utf-8 in string")
            else peek (λ m. load_string m (c.buf + c.pos) n))
          m c')
        ((if not valid
            then refuse (codes "invalid utf-8 in string")
            else pure (take n (take n (drop (c.buf + c.pos) m))))
          (view m c'))
copied-Same n m c false there c' inside =
    same_done (err (codes "invalid utf-8 in string")) c' inside refl
copied-Same n m c true there c' inside =
    let whole =
      take_all n (take n (drop (c.buf + c.pos) m)) (length-take_le n (drop (c.buf + c.pos) m)) in
    rw whole (loaded_bytes-Same n m c c' there inside)

bytes_at_short :
    (n : ℕ) (m : Memory) (c : Cursor)
    → ltb (c.len - c.pos) n ≡ true
    → bytes_at n m c ≡ done (err (codes "unexpected end of buffer"), c)
unfolding bytes_at
bytes_at_short n m c e = rw e

bytes_at_held :
    (n : ℕ) (m : Memory) (c : Cursor)
    → ltb (c.len - c.pos) n ≡ false
    → bytes_at n m c ≡ done (ok (c.buf + c.pos), record c { pos = c.pos + n })
unfolding bytes_at
bytes_at_held n m c e = rw e

bytes_short :
    (n : ℕ) (m : Memory) (c : Cursor)
    → ltb (c.len - c.pos) n ≡ true
    → bytes n (view m c) ≡ done (err (codes "unexpected end of buffer"), view m c)
unfolding bytes
bytes_short n m c e = rw e

taken :
    (n buf len pos : ℕ) (m : Bytes)
    → ltb (len - pos) n ≡ false
    → take n (drop pos (take len (drop buf m))) ≡ take n (drop (buf + pos) m)
taken zero buf len pos m e = refl
taken (suc n) buf len pos m e =
    take-drop-take (suc n) pos len (drop buf m) (ground arith)
    ∙ ap (λ (b : Bytes). take (suc n) b) (drop-drop buf pos m)

bytes_held :
    (n : ℕ) (m : Memory) (c : Cursor)
    → ltb (c.len - c.pos) n ≡ false
    → bytes n (view m c)
      ≡ done (ok (take n (drop (c.buf + c.pos) m)), view m (record c { pos = c.pos + n }))
unfolding bytes
bytes_held n m c e = rw (e, taken n c.buf c.len c.pos m e)

module _ (n : ℕ) (m : Memory) (c : Cursor) where
  text-Same :
      (c' : Cursor)
      → ltb (c.len - c.pos) n ≡ false
      → Inside m c
      → Inside m c'
      → Same m
          (string_text_at n (c.buf + c.pos) m c')
          (string_text n (take n (drop (c.buf + c.pos) m)) (view m c'))
  unfolding string_text_at string_text
  text-Same c' e inside inside' = rw (utf8_valid-take n (drop (c.buf + c.pos) m)) (
      then-Same m
        (λ valid.
          if not valid
          then refuse_at (codes "invalid utf-8 in string")
          else peek (λ m'. load_string m' (c.buf + c.pos) n))
        (λ valid.
          if not valid
          then refuse (codes "invalid utf-8 in string")
          else pure (take n (take n (drop (c.buf + c.pos) m))))
        (peek-Same m c' (utf8_valid (drop (c.buf + c.pos) m) n) inside')
        (λ valid. copied-Same n m c valid (load_there m c n inside e)))

  string_body-Same : Inside m c → Same m (string_body_at n m c) (string_body n (view m c))
  unfolding string_body_at string_body
  string_body-Same inside = elim (Bool-cases (ltb (c.len - c.pos) n)) [
    | inl e ↦
        bind-Same m c (bytes_at n) (bytes n) (string_text_at n) (string_text n)
          (bytes_at_short n m c e) (bytes_short n m c e)
          (same_done (err (codes "unexpected end of buffer")) c inside refl)
    | inr e ↦
        bind-Same m c (bytes_at n) (bytes n) (string_text_at n) (string_text n)
          (bytes_at_held n m c e) (bytes_held n m c e)
          (text-Same (record c { pos = c.pos + n }) e inside inside)
  ]

module _ (n : ℕ) (m : Memory) (c : Cursor) where
  read-Same : Inside m c → Same m (read_at n m c) (bytes n (view m c))
  unfolding read_at
  read-Same inside = elim (Bool-cases (ltb (c.len - c.pos) n)) [
    | inl e ↦
        front-Same m c (bytes_at n) (λ p. peek (λ m'. load_string m' p n)) (bytes_at_short n m c e)
          (rw (bytes_short n m c e)
            (same_done (err (codes "unexpected end of buffer")) c inside refl))
    | inr e ↦
        front-Same m c (bytes_at n) (λ p. peek (λ m'. load_string m' p n)) (bytes_at_held n m c e)
          (rw (bytes_held n m c e) (
            loaded_bytes-Same n m c (record c { pos = c.pos + n }) (load_there m c n inside e)
              inside))
  ]

pub read-Agrees : (n : ℕ) → Agrees (read_at n) (bytes n)
read-Agrees n = record { same = read-Same n }

string_body-Agrees : (n : ℕ) → Agrees (string_body_at n) (string_body n)
string_body-Agrees n = record { same = string_body-Same n }

pub string-Agrees : Agrees string_at string
unfolding string_at string string_body string_text
string-Agrees = Agrees-bind (uleb-Agrees 32) string_body-Agrees
