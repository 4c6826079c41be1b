-- ===== src/Cpp/Cursor/Agrees.antt =====
-- When a method on an address does what the method on the bytes there does.
use crabcraft.Prelude.{
  ◌+◌, ◌≤◌, ◌≡◌, refl, sym, Bool, true, false, Bytes, length, take, drop, if◌then◌else◌, Outcome,
  Fault, done, fault,
}
use mathlib.Core.Path.{subst}
use crabcraft.Cpp.Res.{Res, ok, err}
use crabcraft.Cpp.Linear.{Memory}
use crabcraft.Cpp.Decoder
use crabcraft.Cpp.Cursor

-- Just the bytes of the buffer, and none behind it.
abbrev pub view : Memory → Cursor.Cursor → Decoder.Decoder
view m c = record { buf = take c.len (drop c.buf m); len = c.len; pos = c.pos }

abbrev pub Inside : Memory → Cursor.Cursor → Type 0
Inside m c = c.buf + c.len ≤ length m

-- The same result, and decoders that stand at the same place.
pub data Same (m : Memory) {A : Type 0}
    : Outcome (Res A × Cursor.Cursor) → Outcome (Res A × Decoder.Decoder) → Type 0 where
  same_done :
      (r : Res A) (c : Cursor.Cursor) {d : Decoder.Decoder}
      → Inside m c
      → d ≡ view m c
      → Same m (done (r, c)) (done (r, d))
  same_fault : (e : Fault) → Same m (fault e) (fault e)

-- The two methods do the same wherever the buffer lies in memory.
pub record Agrees {A : Type 0} (s : Cursor.Scan A) (g : Decoder.Decode A) : Type 0 where
  pub same : (m : Memory) (c : Cursor.Cursor) → Inside m c → Same m (s m c) (g (view m c))

pub pure-Agrees : {A : Type 0} (v : A) → Agrees (Cursor.pure_at v) (Decoder.pure v)
pure-Agrees v = record { same = λ m c inside. same_done (ok v) c inside refl }

pub refuse-Agrees :
    {A : Type 0} (e : Bytes) → Agrees {A = A} (Cursor.refuse_at e) (Decoder.refuse e)
refuse-Agrees e = record { same = λ m c inside. same_done (err e) c inside refl }

-- What follows the outcome `o`, on either side.
abbrev pub answered :
    {A B : Type 0}
    → Memory
    → (A → Cursor.Scan B)
    → Outcome (Res A × Cursor.Cursor)
    → Outcome (Res B × Cursor.Cursor)
answered m f o = elim o [
  | fault e ↦ fault e
  | done (ok v, c') ↦ f v m c'
  | done (err e, c') ↦ done (err e, c')
]

abbrev pub answered_there :
    {A B : Type 0}
    → (A → Decoder.Decode B)
    → Outcome (Res A × Decoder.Decoder)
    → Outcome (Res B × Decoder.Decoder)
answered_there k o = elim o [
  | fault e ↦ fault e
  | done (ok v, d') ↦ k v d'
  | done (err e, d') ↦ done (err e, d')
]

pub then-Same :
    {A B : Type 0} (m : Memory) {o : Outcome (Res A × Cursor.Cursor)}
    {o' : Outcome (Res A × Decoder.Decoder)} (f : A → Cursor.Scan B) (k : A → Decoder.Decode B)
    → Same m o o'
    → ((v : A) (c : Cursor.Cursor) → Inside m c → Same m (f v m c) (k v (view m c)))
    → Same m (answered m f o) (answered_there k o')
then-Same m f k (same_done (ok v) c {d = d} inside there) next = rw there (next v c inside)
then-Same m f k (same_done (err e) c inside there) next = same_done (err e) c inside there
then-Same m f k (same_fault e) next = same_fault e

pub front-Same :
    {A C : Type 0} (m : Memory) (c : Cursor.Cursor) (s : Cursor.Scan A) (f : A → Cursor.Scan C)
    {o : Outcome (Res A × Cursor.Cursor)} {o' : Outcome (Res C × Decoder.Decoder)}
    → s m c ≡ o
    → Same m (answered m f o) o'
    → Same m (Cursor.◌>>=◌ s f m c) o'
front-Same m c s f {o' = o'} p t = subst (λ a. Same m (answered m f a) o') (sym p) t

-- The methods in front of a bind may differ, where it is known what they give.
pub bind-Same :
    {A B C : Type 0} (m : Memory) (c : Cursor.Cursor) (s : Cursor.Scan A) (g : Decoder.Decode B)
    (f : A → Cursor.Scan C) (k : B → Decoder.Decode C) {o : Outcome (Res A × Cursor.Cursor)}
    {o' : Outcome (Res B × Decoder.Decoder)}
    → s m c ≡ o
    → g (view m c) ≡ o'
    → Same m (answered m f o) (answered_there k o')
    → Same m (Cursor.◌>>=◌ s f m c) (Decoder.◌>>=◌ g k (view m c))
bind-Same m c s g f k {o = o} {o' = o'} p q t =
    subst (λ a. Same m (answered m f a) (answered_there k (g (view m c)))) (sym p)
      (subst (λ b. Same m (answered m f o) (answered_there k b)) (sym q) t)

pub Agrees-bind :
    {A B : Type 0} {s : Cursor.Scan A} {g : Decoder.Decode A} {f : A → Cursor.Scan B}
    {k : A → Decoder.Decode B}
    → Agrees s g
    → ((v : A) → Agrees (f v) (k v))
    → Agrees (Cursor.◌>>=◌ s f) (Decoder.◌>>=◌ g k)
Agrees-bind {f = f} {k = k} first next = record {
  same = λ m c inside. then-Same m f k (first.same m c inside) (λ v. (next v).same m);
}

pub Agrees-if :
    {A : Type 0} (test : Bool) {s t : Cursor.Scan A} {g h : Decoder.Decode A}
    → Agrees s g
    → Agrees t h
    → Agrees (if test then s else t) (if test then g else h)
Agrees-if true first second = first
Agrees-if false first second = second
