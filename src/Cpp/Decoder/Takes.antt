-- ===== src/Cpp/Decoder/Takes.antt =====
-- Decoding what an encoder wrote: the rules for the composition of methods that succeed.
use crabcraft.Prelude.{◌≡◌, refl, Bytes, Outcome, done, fault}
use crabcraft.Cpp.Res.{Res, ok, err}
use crabcraft.Cpp.Decoder.{Decoder, Decode, pure, ◌>>=◌}
use crabcraft.Cpp.Decoder.Reads.{IsDecoder, left, Meets, Parser, Reads}

-- A decoder that stands before `s` gives the value and stands before `t`.
pub record Takes {A : Type 0} (m : Decode A) (s : Bytes) (v : A) (t : Bytes) : Type 0 where
  pub run : (d : Decoder) → IsDecoder d → left d ≡ s → Meets (m d) (ok (v, t))

pub pure-Takes : {A : Type 0} (v : A) (s : Bytes) → Takes (pure v) s v s
pure-Takes v s = record { run = λ d h e. (d, refl, h, e) }

pub Reads-Takes :
    {A : Type 0} {m : Decode A} {p : Parser A} {s t : Bytes} {v : A}
    → Reads m p
    → p s ≡ ok (v, t)
    → Takes m s v t
Reads-Takes r parsed = record { run = λ d h e. rw (e, parsed) at (r.run d h) }

Meets-both :
    {A B : Type 0} {o : Outcome (Res A × Decoder)} (f : A → Decode B) {t u : Bytes} {a : A} {b : B}
    → Meets o (ok (a, t))
    → Takes (f a) t b u
    → Meets
        (elim o [
          | fault e ↦ fault e
          | done (ok v, d') ↦ f v d'
          | done (err e, d') ↦ done (err e, d')
        ])
        (ok (b, u))
Meets-both f (d, ran, h, rest) second = rw ran (second.run d h rest)

pub Takes-bind :
    {A B : Type 0} {m : Decode A} (f : A → Decode B) {s t u : Bytes} {a : A} {b : B}
    → Takes m s a t
    → Takes (f a) t b u
    → Takes (λ d. ◌>>=◌ m f d) s b u
Takes-bind f first second = record { run = λ d h e. Meets-both f (first.run d h e) second }
