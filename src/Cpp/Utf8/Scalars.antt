-- ===== src/Cpp/Utf8/Scalars.antt =====
-- UTF-8 after RFC 3629, independent of the validator: scalar values and their encoding, and a reader
-- of one character.
use crabcraft.Prelude.{
  ℕ, zero, suc, ◌+◌, ◌-◌, ◌*◌, ◌/◌, ◌%◌, ◌≤◌, ◌<◌, ◌≡◌, refl, ◌∙◌, ap, arith, true, false, Option,
  none, some, List, [], ◌∷◌, ◌++◌, Bytes, ltb, ◌==◌, if◌then◌else◌, ◌⊎◌, Bool-cases, inl, inr,
}
use crabcraft.Cpp.Utf8.{is_bad}
use mathlib.Core.Path.{ap₂}
use native.Mathlib.Decide.{dec_lt}

-- A Unicode code point that is no surrogate.
abbrev pub IsScalar : ℕ → Type 0
IsScalar x = (x ≤ 0x10ffff) × ((x < 0xd800) ⊎ (0xdfff < x))

unfoldable pub encode_scalar : ℕ → Bytes
encode_scalar x =
    if ltb x 0x80
    then x ∷ []
    else if ltb x 0x800
    then (0xc0 + x / 64) ∷ (0x80 + x % 64) ∷ []
    else if ltb x 0x10000
    then (0xe0 + x / 4096) ∷ (0x80 + x / 64 % 64) ∷ (0x80 + x % 64) ∷ []
    else (0xf0 + x / 262144) ∷ (0x80 + x / 4096 % 64) ∷ (0x80 + x / 64 % 64) ∷ (0x80 + x % 64) ∷ []

unfoldable pub encode_scalars : List ℕ → Bytes
encode_scalars [] = []
encode_scalars (x ∷ xs) = encode_scalar x ++ encode_scalars xs

-- `k` bytes of the form 10xxxxxx, behind the digits `cp`.
unfoldable pub tail : ℕ → ℕ → Bytes → Option (ℕ × Bytes)
tail zero cp s = some (cp, s)
tail (suc k) cp [] = none
tail (suc k) cp (c ∷ s) =
    let rest = tail k (cp * 64 + c % 64) s in if c / 64 == 2 then rest else none

abbrev pub close : ℕ → Option (ℕ × Bytes) → Option (ℕ × Bytes)
close min none = none
close min (some (cp, s)) = if is_bad cp min then none else some (cp, s)

-- The first character and what follows it.
unfoldable pub one : Bytes → Option (ℕ × Bytes)
one [] = none
one (c ∷ s) =
    if ltb c 128
    then some (c, s)
    else if ltb c 192
    then none
    else if ltb c 224
    then close 0x80 (tail 1 (c - 192) s)
    else if ltb c 240
    then close 0x800 (tail 2 (c - 224) s)
    else if ltb c 248
    then close 0x10000 (tail 3 (c - 240) s)
    else none

tail_inv :
    (k cp : ℕ) (s : Bytes) {x : ℕ} {t : Bytes}
    → tail (suc k) cp s ≡ some (x, t)
    → (c : ℕ) × (s' : Bytes) × (s ≡ c ∷ s')
      × (c / 64 ≡ 2)
      × (tail k (cp * 64 + c % 64) s' ≡ some (x, t))
unfolding tail
tail_inv k cp [] e = cc
tail_inv k cp (c ∷ s) e = elim (Bool-cases (c / 64 == 2)) [
  | inl good ↦ (c, s, refl, ground arith, rw good at e)
  | inr bad ↦ cc (rw bad at e)
]

tail-zero :
    (cp : ℕ) (s : Bytes) {x : ℕ} {t : Bytes} → tail 0 cp s ≡ some (x, t) → (x ≡ cp) × (s ≡ t)
unfolding tail
tail-zero cp s e = (cc, cc)

close_inv :
    (min : ℕ) (o : Option (ℕ × Bytes)) {x : ℕ} {t : Bytes}
    → close min o ≡ some (x, t)
    → (o ≡ some (x, t)) × (min ≤ x) × IsScalar x
close_inv min none e = cc
close_inv min (some (cp, s)) {x} {t} e = elim (Bool-cases (is_bad cp min)) [
  | inl bad ↦ cc (rw bad at e)
  | inr good ↦
      let same = rw good at e in
      let cp_x : cp ≡ x = cc in (same, unfold is_bad in ground arith, unfold is_bad in ground arith)
]

pub encode_two :
    (x : ℕ) → 0x80 ≤ x → x < 0x800 → encode_scalar x ≡ (0xc0 + x / 64) ∷ (0x80 + x % 64) ∷ []
unfolding encode_scalar
encode_two x low high = ground arith

pub encode_three :
    (x : ℕ)
    → 0x800 ≤ x
    → x < 0x10000
    → encode_scalar x ≡ (0xe0 + x / 4096) ∷ (0x80 + x / 64 % 64) ∷ (0x80 + x % 64) ∷ []
unfolding encode_scalar
encode_three x low high = ground arith

pub encode_four :
    (x : ℕ)
    → 0x10000 ≤ x
    → encode_scalar x
      ≡ (0xf0 + x / 262144) ∷ (0x80 + x / 4096 % 64) ∷ (0x80 + x / 64 % 64) ∷ (0x80 + x % 64) ∷ []
unfolding encode_scalar
encode_four x low = ground arith

-- A character that is read from a text is a scalar, and the text begins with its encoding.
abbrev Begins : Bytes → ℕ → Bytes → Type 0
Begins s x t = IsScalar x × (s ≡ encode_scalar x ++ t)

two_bytes :
    (c : ℕ) (s : Bytes) {x : ℕ} {t : Bytes}
    → 192 ≤ c
    → c < 224
    → close 0x80 (tail 1 (c - 192) s) ≡ some (x, t)
    → Begins (c ∷ s) x t
two_bytes c s {x} {t} low high e =
    let (read, min, scalar) = close_inv 0x80 (tail 1 (c - 192) s) e in
    let (a, s₁, begins, mark, later) = tail_inv 0 (c - 192) s read in
    let (value, rest) = tail-zero ((c - 192) * 64 + a % 64) s₁ later in
    (
      scalar,
      rw (begins, rest, encode_two x min (omega arith))
          (ap₂ (λ (u v : ℕ). u ∷ v ∷ t) (omega arith) (omega arith)),
    )

three_bytes :
    (c : ℕ) (s : Bytes) {x : ℕ} {t : Bytes}
    → 224 ≤ c
    → c < 240
    → close 0x800 (tail 2 (c - 224) s) ≡ some (x, t)
    → Begins (c ∷ s) x t
three_bytes c s {x} {t} low high e =
    let (read, min, scalar) = close_inv 0x800 (tail 2 (c - 224) s) e in
    let (a, s₁, begins, mark, later) = tail_inv 1 (c - 224) s read in
    let (b, s₂, begins₂, mark₂, later₂) = tail_inv 0 ((c - 224) * 64 + a % 64) s₁ later in
    let (value, rest) = tail-zero (((c - 224) * 64 + a % 64) * 64 + b % 64) s₂ later₂ in
    let first : c ≡ 0xe0 + x / 4096 = omega arith in
    let second : a ≡ 0x80 + x / 64 % 64 = omega arith in
    let third : b ≡ 0x80 + x % 64 = omega arith in
    (
      scalar,
      rw (begins, begins₂, rest, encode_three x min (omega arith))
          (ap₂ (λ (u v : ℕ). u ∷ v ∷ b ∷ t) first second
            ∙ ap (λ (w : ℕ). (0xe0 + x / 4096) ∷ (0x80 + x / 64 % 64) ∷ w ∷ t) third),
    )

four_bytes :
    (c : ℕ) (s : Bytes) {x : ℕ} {t : Bytes}
    → 240 ≤ c
    → c < 248
    → close 0x10000 (tail 3 (c - 240) s) ≡ some (x, t)
    → Begins (c ∷ s) x t
four_bytes c s {x} {t} low high e =
    let (read, min, scalar) = close_inv 0x10000 (tail 3 (c - 240) s) e in
    let (a, s₁, begins, mark, later) = tail_inv 2 (c - 240) s read in
    let (b, s₂, begins₂, mark₂, later₂) = tail_inv 1 ((c - 240) * 64 + a % 64) s₁ later in
    let (d, s₃, begins₃, mark₃, later₃) =
      tail_inv 0 (((c - 240) * 64 + a % 64) * 64 + b % 64) s₂ later₂ in
    let (value, rest) =
      tail-zero ((((c - 240) * 64 + a % 64) * 64 + b % 64) * 64 + d % 64) s₃ later₃ in
    let first : c ≡ 0xf0 + x / 262144 = omega arith in
    let second : a ≡ 0x80 + x / 4096 % 64 = omega arith in
    let third : b ≡ 0x80 + x / 64 % 64 = omega arith in
    let fourth : d ≡ 0x80 + x % 64 = omega arith in
    (
      scalar,
      rw (begins, begins₂, begins₃, rest, encode_four x min)
          (ap₂ (λ (u v : ℕ). u ∷ v ∷ b ∷ d ∷ t) first second
            ∙ ap₂ (λ (v w : ℕ). (0xf0 + x / 262144) ∷ (0x80 + x / 4096 % 64) ∷ v ∷ w ∷ t) third
                fourth),
    )

pub one_sound : (s : Bytes) {x : ℕ} {t : Bytes} → one s ≡ some (x, t) → Begins s x t
unfolding one
one_sound [] e = cc
one_sound (c ∷ s) {x} {t} e = elim (dec_lt c 128) [
  | yes h ↦
      let test : ltb c 128 ≡ true = ground arith in
      let got = rw test at e in
      let value : c ≡ x = cc in
      let rest : s ≡ t = cc in (omega arith, unfold encode_scalar in ground arith)
  | no h ↦ elim (dec_lt c 192) [
    | yes h₂ ↦
        let a : ltb c 128 ≡ false = ground arith in
        let b : ltb c 192 ≡ true = ground arith in cc (rw (a, b) at e)
    | no h₂ ↦ elim (dec_lt c 224) [
      | yes h₃ ↦
          let a : ltb c 128 ≡ false = ground arith in
          let b : ltb c 192 ≡ false = ground arith in
          let d : ltb c 224 ≡ true = ground arith in
          two_bytes c s (omega arith) h₃ (rw (a, b, d) at e)
      | no h₃ ↦ elim (dec_lt c 240) [
        | yes h₄ ↦
            let a : ltb c 128 ≡ false = ground arith in
            let b : ltb c 192 ≡ false = ground arith in
            let d : ltb c 224 ≡ false = ground arith in
            let f : ltb c 240 ≡ true = ground arith in
            three_bytes c s (omega arith) h₄ (rw (a, b, d, f) at e)
        | no h₄ ↦
            let a : ltb c 128 ≡ false = ground arith in
            let b : ltb c 192 ≡ false = ground arith in
            let d : ltb c 224 ≡ false = ground arith in
            let f : ltb c 240 ≡ false = ground arith in
            elim (dec_lt c 248) [
              | yes h₅ ↦
                  let g : ltb c 248 ≡ true = ground arith in
                  four_bytes c s (omega arith) h₅ (rw (a, b, d, f, g) at e)
              | no h₅ ↦ let g : ltb c 248 ≡ false = ground arith in cc (rw (a, b, d, f, g) at e)
            ]
      ]
    ]
  ]
]
