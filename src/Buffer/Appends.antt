-- ===== src/Buffer/Appends.antt =====
-- Procedures that only append to a buffer, and their composition.
use crabcraft.Prelude.{
  ℕ, ◌+◌, ◌≤◌, ◌≡◌, refl, ap, sym, ◌∙◌, arith, [], ◌∷◌, ◌++◌, Option, none, some, Bytes, length,
  length-append, length-take, append-nil, append_assoc, Outcome, done, ◌>>=◌, take_all, ltb, Bool,
  true, false, if◌then◌else◌,
}
use crabcraft.Buffer.{Allocator, Buf, bput, bputc, bputs, bputf, breset, zeroed, used}
use crabcraft.Buffer.Valid.{limit, IsBlock, IsValid, contents, Plentiful}
use crabcraft.Buffer.Contents.{bput_lem}

length-used : (p : Option Bytes) (len size : ℕ) → IsBlock p len size → length (used p len) ≡ len
length-used none len size (no_len, no_size) = sym no_len
length-used (some m) len size v = omega (arith, length-take len m)

pub length-contents : (b : Buf) → IsValid b → length (contents b) ≡ b.len
length-contents b v = length-used b.p b.len b.cap v

-- The run ends without a fault in a valid buffer that holds `xs`.
abbrev pub Writes : Outcome Buf → Bytes → Type 0
Writes o xs = (b : Buf) × (o ≡ done b) × IsValid b × (contents b ≡ xs)

-- On every valid buffer with room for them, `f` appends the bytes `xs`.
pub record Appends (f : Buf → Outcome Buf) (xs : Bytes) : Type 0 where
  pub run :
      (b : Buf)
      → IsValid b
      → length (contents b) + length xs ≤ limit
      → Writes (f b) (contents b ++ xs)

pub Appends-done : Appends done []
Appends-done = record { run = λ b v h. (b, refl, v, sym (append-nil (contents b))) }

pub Appends-eq : {f : Buf → Outcome Buf} {xs ys : Bytes} → Appends f xs → xs ≡ ys → Appends f ys
Appends-eq a e = rw e at a

pub Appends-then :
    {f g : Buf → Outcome Buf} {xs ys : Bytes}
    → Appends f xs
    → Appends g ys
    → Appends (λ b. f b >>= g) (xs ++ ys)
Appends-then {f} {g} {xs} {ys} a c = record { run = run }
  where
    run :
        (b : Buf)
        → IsValid b
        → length (contents b) + length (xs ++ ys) ≤ limit
        → Writes (f b >>= g) (contents b ++ (xs ++ ys))
    run b v h =
        let sizes = length-append xs ys in
        let (b', first, v', held) = a.run b v (omega (arith, sizes)) in
        let room : length (contents b') ≡ length (contents b) + length xs =
          ap (λ (t : Bytes). length t) held ∙ length-append (contents b) xs in
        let (b'', second, v'', held') = c.run b' v' (omega (arith, sizes)) in
        (
          b'',
          rw (first, second),
          v'',
          held' ∙ ap (λ (t : Bytes). t ++ ys) held ∙ append_assoc (contents b) xs ys,
        )

pub Appends-if :
    (t : Bool) {f g : Buf → Outcome Buf} {xs ys : Bytes}
    → Appends f xs
    → Appends g ys
    → Appends (λ b. if t then f b else g b) (if t then xs else ys)
Appends-if true a c = a
Appends-if false a c = c

-- The same for a text that is computed from a choice.
pub Appends-if_map {ℓ} :
    {V : Type ℓ} (h : V → Bytes) (t : Bool) {f g : Buf → Outcome Buf} (x y : V)
    → Appends f (h x)
    → Appends g (h y)
    → Appends (λ b. if t then f b else g b) (h (if t then x else y))
Appends-if_map h true x y a c = a
Appends-if_map h false x y a c = c

module _ (heap : Allocator) (serves : Plentiful heap) where
  pub bput-Appends : (s : Bytes) → Appends (λ b. bput heap b s) s
  bput-Appends s = record { run = run }
    where
      run :
          (b : Buf)
          → IsValid b
          → length (contents b) + length s ≤ limit
          → Writes (bput heap b s) (contents b ++ s)
      run b v h =
          let (b', ran, v', held, _) =
            bput_lem heap b s serves v (omega (arith, length-contents b v)) in
          (b', ran, v', held)

  pub bputc-Appends : (c : ℕ) → Appends (λ b. bputc heap b c) (c ∷ [])
  unfolding bputc
  bputc-Appends c = bput-Appends (c ∷ [])

  pub bputs-Appends : (s : Bytes) → Appends (λ b. bputs heap b s) s
  unfolding bputs
  bputs-Appends s = bput-Appends s

  -- A formatted text of up to 63 bytes is not cut.
  pub bputf-Appends : (text : Bytes) → length text ≤ 63 → Appends (λ b. bputf heap b text) text
  unfolding bputf
  bputf-Appends [] h = Appends-done
  bputf-Appends (c ∷ text) h =
      let test : ltb (length (c ∷ text)) 64 ≡ true = ground arith in
      let some_text : ltb 0 (length (c ∷ text)) ≡ true = ground arith in
      rw (some_text, test, take_all (length (c ∷ text)) (c ∷ text) (omega arith))
        (bput-Appends (c ∷ text))

used-zero : (p : Option Bytes) → used p 0 ≡ []
used-zero none = refl
used-zero (some m) = refl

breset-IsBlock : (p : Option Bytes) (len size : ℕ) → IsBlock p len size → IsBlock p 0 size
breset-IsBlock none len size (no_len, no_size) = (refl, no_size)
breset-IsBlock (some m) len size (filled, within, fits) = (filled, omega arith, fits)

-- A reset buffer is valid and empty; its block is kept.
pub breset_lem : (b : Buf) → IsValid b → IsValid (breset b) × (contents (breset b) ≡ [])
unfolding breset
breset_lem b v = (breset-IsBlock b.p b.len b.cap v, used-zero b.p)

-- From an empty buffer the procedure leaves just its bytes.
pub Appends-run :
    {f : Buf → Outcome Buf} {xs : Bytes} (b : Buf)
    → Appends f xs
    → IsValid b
    → contents b ≡ []
    → length xs ≤ limit
    → Writes (f b) xs
Appends-run {f} {xs} b a v e h =
    let room : length (contents b) ≡ 0 = ap (λ (t : Bytes). length t) e in
    let (b', ran, v', held) = a.run b v (omega arith) in
    (b', ran, v', held ∙ ap (λ (t : Bytes). t ++ xs) e)

pub zeroed-IsValid : IsValid zeroed
zeroed-IsValid = (refl, refl)
