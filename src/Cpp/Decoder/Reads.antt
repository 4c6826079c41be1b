-- ===== src/Cpp/Decoder/Reads.antt =====
-- The methods of `Decoder` against parsers of lists: the rules for their composition.
use crabcraft.Prelude.{
  ℕ, zero, suc, ◌+◌, ◌-◌, ◌^◌, ◌≤◌, ◌<◌, ◌≡◌, refl, sym, ◌∙◌, ap, arith, Bool, true, false, [], ◌∷◌,
  Bytes, IsByte, All, codes, length, take, drop, length-drop, length-take, min, ◌++◌, All-append,
  length-append, take-append_exact, ltb, leb, if◌then◌else◌, Bool-cases, inl, inr, Outcome, done,
  fault,
}
use crabcraft.Uleb.{load}
use crabcraft.Cpp.Res.{Res, ok, err}
use crabcraft.Cpp.Decoder.{
  Decoder, decoder, Decode, pure, refuse, lift, byte, bytes, remaining, ◌>>=◌,
}

-- The memory from the pointer on holds bytes, at least as many as `len`, which is below `2 ^ 31`, and the
-- position is among these.
pub record IsDecoder (d : Decoder) : Type 0 where
  pub held : d.len ≤ length d.buf
  pub inside : d.pos ≤ d.len
  pub bytes : All IsByte d.buf
  pub small : d.len < 2 ^ 31

-- What is not decoded yet.
abbrev pub left : Decoder → Bytes
left d = drop d.pos (take d.len d.buf)

pub length-left : (d : Decoder) → length (left d) ≡ min d.len (length d.buf) - d.pos
length-left d = omega (arith, length-drop d.pos (take d.len d.buf), length-take d.len d.buf)

-- A decoder for some bytes, with anything behind them.
pub decoder-IsDecoder :
    (b junk : Bytes)
    → All IsByte b
    → All IsByte junk
    → length b < 2 ^ 31
    → IsDecoder (decoder (b ++ junk) (length b))
decoder-IsDecoder b junk bytes others small = record {
  held = omega (arith, length-append b junk);
  inside = omega arith;
  bytes = All-append IsByte b junk bytes others;
  small = small;
}

pub left-decoder : (b junk : Bytes) → left (decoder (b ++ junk) (length b)) ≡ b
left-decoder b junk = take-append_exact b junk

-- A parser takes its value from the start of a list, and gives what follows.
abbrev pub Parser : Type 0 → Type 0
Parser A = Bytes → Res (A × Bytes)

abbrev pub returns : {A : Type 0} → A → Parser A
returns v s = ok (v, s)

abbrev pub rejects : {A : Type 0} → Bytes → Parser A
rejects e s = err e

abbrev pub follow : {A B : Type 0} → Res (A × Bytes) → (A → Parser B) → Res (B × Bytes)
follow (ok (v, t)) q = q v t
follow (err e) q = err e

abbrev pub and_then : {A B : Type 0} → Parser A → (A → Parser B) → Parser B
and_then p q s = follow (p s) q

-- The method ends without a fault with the result `r`, and what follows is left.
abbrev pub Meets : {A : Type 0} → Outcome (Res A × Decoder) → Res (A × Bytes) → Type 0
Meets o (ok (v, t)) = (d : Decoder) × (o ≡ done (ok v, d)) × IsDecoder d × (left d ≡ t)
Meets o (err e) = (d : Decoder) × (o ≡ done (err e, d)) × IsDecoder d

pub record Reads {A : Type 0} (m : Decode A) (p : Parser A) : Type 0 where
  pub run : (d : Decoder) → IsDecoder d → Meets (m d) (p (left d))

pub pure-Reads : {A : Type 0} (v : A) → Reads (pure v) (returns v)
pure-Reads v = record { run = λ d h. (d, refl, h, refl) }

pub refuse-Reads : {A : Type 0} (e : Bytes) → Reads {A = A} (refuse e) (rejects e)
refuse-Reads e = record { run = λ d h. (d, refl, h) }

Meets-bind :
    {A B : Type 0} (o : Outcome (Res A × Decoder)) (r : Res (A × Bytes)) {f : A → Decode B}
    {q : A → Parser B}
    → Meets o r
    → ((a : A) → Reads (f a) (q a))
    → Meets
        (elim o [
          | fault e ↦ fault e
          | done (ok v, d') ↦ f v d'
          | done (err e, d') ↦ done (err e, d')
        ])
        (follow r q)
Meets-bind o (ok (v, t)) {f} {q} (d, ran, h, rest) c = rw ran (rw rest at ((c v).run d h))
Meets-bind o (err e) (d, ran, h) c = (d, rw ran, h)

pub Reads-bind :
    {A B : Type 0} {m : Decode A} {p : Parser A} {f : A → Decode B} {q : A → Parser B}
    → Reads m p
    → ((a : A) → Reads (f a) (q a))
    → Reads (λ d. ◌>>=◌ m f d) (and_then p q)
Reads-bind {m = m} {p = p} r c = record { run = λ d h. Meets-bind (m d) (p (left d)) (r.run d h) c }

take-IsByte : (n : ℕ) (buf : Bytes) → All IsByte buf → All IsByte (take n buf)
take-IsByte zero buf h = tt
take-IsByte (suc n) [] h = tt
take-IsByte (suc n) (c ∷ buf) (hc, h) = (hc, take-IsByte n buf h)

left-IsByte : (n : ℕ) (buf : Bytes) → All IsByte buf → All IsByte (drop n buf)
left-IsByte zero buf h = h
left-IsByte (suc n) [] h = tt
left-IsByte (suc n) (c ∷ buf) (hc, h) = left-IsByte n buf h

-- What follows may use that the value was read from bytes.
pub Reads-bind_read :
    {A B : Type 0} {m : Decode A} {p : Parser A} {f : A → Decode B} {q : A → Parser B}
    → Reads m p
    → ((a : A) (s t : Bytes)
        → All IsByte s
        → length s < 2 ^ 31
        → p s ≡ ok (a, t)
        → Reads (f a) (q a))
    → Reads (λ d. ◌>>=◌ m f d) (and_then p q)
Reads-bind_read {A} {B} {m = m} {p = p} {f = f} {q = q} r c = record { run = run }
  where
    go :
        (d : Decoder) (o : Res (A × Bytes))
        → All IsByte (left d)
        → length (left d) < 2 ^ 31
        → p (left d) ≡ o
        → Meets (m d) o
        → Meets
            (elim (m d) [
              | fault e ↦ fault e
              | done (ok v, d') ↦ f v d'
              | done (err e, d') ↦ done (err e, d')
            ])
            (follow o q)
    go d (ok (v, t)) bytes short e (d', ran, h, rest) =
        rw ran (rw rest at ((c v (left d) t bytes short e).run d' h))
    go d (err e) bytes short same (d', ran, h) = (d', rw ran, h)

    run : (d : Decoder) → IsDecoder d → Meets (◌>>=◌ m f d) (and_then p q (left d))
    run d h =
        go d (p (left d)) (left-IsByte d.pos (take d.len d.buf) (take-IsByte d.len d.buf h.bytes))
          (omega (arith, length-left d, h.held, h.small)) refl (r.run d h)

pub Reads-if :
    {A : Type 0} (t : Bool) {m n : Decode A} {p q : Parser A}
    → Reads m p
    → Reads n q
    → Reads (λ d. (if t then m else n) d) (λ s. (if t then p else q) s)
Reads-if true r c = r
Reads-if false r c = c

pub lift-Reads : {A : Type 0} (o : Outcome A) (v : A) → o ≡ done v → Reads (lift o) (returns v)
lift-Reads o v e = rw e (pure-Reads v)

unfoldable pub next : Parser ℕ
next [] = err (codes "unexpected end of buffer")
next (c ∷ s) = ok (c, s)

load-drop :
    (buf : Bytes) (pos c : ℕ) (s : Bytes)
    → drop pos buf ≡ c ∷ s
    → (load buf pos ≡ done c) × (drop (suc pos) buf ≡ s)
unfolding load
load-drop [] zero c s e = cc
load-drop [] (suc pos) c s e = cc
load-drop (x ∷ buf) zero c s e = (cc, cc)
load-drop (x ∷ buf) (suc pos) c s e = load-drop buf pos c s e

load-take : (n i : ℕ) (buf : Bytes) {c : ℕ} → load (take n buf) i ≡ done c → load buf i ≡ done c
unfolding load
load-take zero i buf e = cc
load-take (suc n) i [] e = cc
load-take (suc n) zero (x ∷ buf) e = e
load-take (suc n) (suc i) (x ∷ buf) e = load-take n i buf e

byte-next : (d : Decoder) (s : Bytes) → IsDecoder d → left d ≡ s → Meets (byte d) (next s)
unfolding byte next
byte-next d [] h e =
    let size = ap (λ (t : Bytes). length t) e in
    let dropped = length-left d in
    let test : leb d.len d.pos ≡ true = ground (arith, h.held, h.inside) in (d, rw test, h)
byte-next d (c ∷ s) h e =
    let size = ap (λ (t : Bytes). length t) e in
    let dropped = length-left d in
    let test : leb d.len d.pos ≡ false = ground (arith, h.held, h.inside) in
    let (inner, rest) = load-drop (take d.len d.buf) d.pos c s e in
    let got = load-take d.len d.pos d.buf inner in
    let step : d.pos + 1 ≡ suc d.pos = omega arith in
    (
      record d { pos = d.pos + 1 },
      rw (test, got),
      record {
        held = h.held;
        inside = omega (arith, h.held, h.inside);
        bytes = h.bytes;
        small = h.small;
      },
      rw step rest,
    )

pub byte-Reads : Reads byte next
byte-Reads = record { run = λ d h. byte-next d (left d) h refl }

unfoldable pub split : ℕ → Parser Bytes
split n s =
    if leb n (length s) then ok (take n s, drop n s) else err (codes "unexpected end of buffer")

drop-nil : (n : ℕ) → drop {A = ℕ} n [] ≡ []
drop-nil zero = refl
drop-nil (suc n) = refl

drop-drop : (n pos : ℕ) (buf : Bytes) → drop (pos + n) buf ≡ drop n (drop pos buf)
drop-drop n zero buf = let same : 0 + n ≡ n = omega arith in rw same
drop-drop n (suc pos) [] = drop-nil (suc pos + n) ∙ sym (drop-nil n)
drop-drop n (suc pos) (x ∷ buf) =
    let s : suc pos + n ≡ suc (pos + n) = omega arith in rw s (drop-drop n pos buf)

-- The next bytes are the same without the end of the buffer.
take-take : (n k : ℕ) (buf : Bytes) → n ≤ k → take n (take k buf) ≡ take n buf
take-take zero k buf h = refl
take-take (suc n) zero buf h = absurd (omega arith)
take-take (suc n) (suc k) [] h = refl
take-take (suc n) (suc k) (c ∷ buf) h = ap (λ (t : Bytes). c ∷ t) (take-take n k buf (omega arith))

pub take-drop-take :
    (n pos len : ℕ) (buf : Bytes)
    → pos + n ≤ len
    → take n (drop pos (take len buf)) ≡ take n (drop pos buf)
take-drop-take n zero len buf h = take-take n len buf (omega arith)
take-drop-take n (suc pos) zero buf h = absurd (omega arith)
take-drop-take n (suc pos) (suc len) [] h = refl
take-drop-take n (suc pos) (suc len) (c ∷ buf) h = take-drop-take n pos len buf (omega arith)

pub bytes-Reads : (n : ℕ) → Reads (bytes n) (split n)
bytes-Reads n = record { run = run }
  where
    run : (d : Decoder) → IsDecoder d → Meets (bytes n d) (split n (left d))
    run d h =
        let dropped = length-left d in
        elim (Bool-cases (leb n (length (left d)))) [
          | inl fits ↦
              let test : ltb (remaining d) n ≡ false = ground (arith, h.held, h.inside) in
              let same : take n (left d) ≡ take n (drop d.pos d.buf) =
                take-drop-take n d.pos d.len d.buf (ground (arith, h.held, h.inside)) in
              unfold bytes split in
              rw (test, fits, same)
                (
                  record d { pos = d.pos + n },
                  refl,
                  record {
                    held = h.held;
                    inside = ground (arith, h.held, h.inside);
                    bytes = h.bytes;
                    small = h.small;
                  },
                  drop-drop n d.pos (take d.len d.buf),
                )
          | inr over ↦
              let test : ltb (remaining d) n ≡ true = ground (arith, h.held, h.inside) in
              unfold bytes split in rw (test, over) (d, refl, h)
        ]

pub Reads-eq :
    {A : Type 0} {m : Decode A} {p q : Parser A} → Reads m p → ((s : Bytes) → p s ≡ q s) → Reads m q
Reads-eq {m = m} r same = record { run = λ d h. rw (← same (left d)) (r.run d h) }
