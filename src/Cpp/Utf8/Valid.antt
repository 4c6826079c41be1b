-- ===== src/Cpp/Utf8/Valid.antt =====
-- `Utf8Valid` of tools/crabgen/templates/cpp/crab.cpp against the description of UTF-8.
use Prim.Native.Nat.{bit_and, bit_or}
use crabcraft.Prelude.{
  ℕ, zero, suc, ◌+◌, ◌-◌, ◌*◌, ◌/◌, ◌%◌, ◌^◌, ◌≤◌, ◌<◌, ◌≡◌, refl, sym, ◌∙◌, ap, arith, true, false,
  Option, none, some, [], ◌∷◌, Bytes, IsByte, All, length, drop, length-drop, ltb, ◌==◌,
  if◌then◌else◌, Bool-cases, inl, inr, Outcome, done,
}
use crabcraft.Prelude.Bits.{
  bit_and_high, bit_and_7, bit_and_15, bit_and_31, bit_and_63, mask_3, bit_or_fields, bit_or_comm,
}
use crabcraft.Uleb.{load}
use crabcraft.Cpp.Utf8.{lead, continuation, is_bad, multibyte}
use crabcraft.Cpp.Utf8.Scalars.{tail, close, one}
use native.Mathlib.Nat.{pow-succ', one-le-pow, mul_assoc, mul-le-mul_left}
use native.Mathlib.Decide.{dec_lt}

-- The tests on a first byte as ranges.
lead_lem :
    (c : ℕ)
    → 128 ≤ c
    → c < 256
    → lead c ≡ (
        if ltb c 192
        then none
        else if ltb c 224
        then some (record { len = 2; cp = c - 192; min = 0x80 })
        else if ltb c 240
        then some (record { len = 3; cp = c - 224; min = 0x800 })
        else if ltb c 248
        then some (record { len = 4; cp = c - 240; min = 0x10000 })
        else none)
unfolding lead
lead_lem c low high =
    let two : bit_and c 0xe0 ≡ c / 32 % 8 * 32 =
      bit_and_high 5 7 c ∙ ap (λ (t : ℕ). t * 32) (bit_and_7 (c / 32)) in
    let three : bit_and c 0xf0 ≡ c / 16 % 16 * 16 =
      bit_and_high 4 15 c ∙ ap (λ (t : ℕ). t * 16) (bit_and_15 (c / 16)) in
    let four : bit_and c 0xf8 ≡ c / 8 % 32 * 8 =
      bit_and_high 3 31 c ∙ ap (λ (t : ℕ). t * 8) (bit_and_31 (c / 8)) in
    rw (two, three, four, bit_and_31 c, bit_and_15 c, bit_and_7 c)
      (elim (dec_lt c 192) [
        | yes h ↦ ground arith
        | no h ↦ elim (dec_lt c 224) [
          | yes h₂ ↦ let same : c % 32 ≡ c - 192 = omega arith in rw same (ground arith)
          | no h₂ ↦ elim (dec_lt c 240) [
            | yes h₃ ↦ let same : c % 16 ≡ c - 224 = omega arith in rw same (ground arith)
            | no h₃ ↦
                let same : c / 8 % 32 * 8 ≡ c / 8 * 8 = omega arith in
                elim (dec_lt c 248) [
                  | yes h₄ ↦ let same' : c % 8 ≡ c - 240 = omega arith in rw same' (ground arith)
                  | no h₄ ↦ ground arith
                ]
          ]
        ]
      ])

pub load-drop :
    (p : Bytes) (i c : ℕ) (s : Bytes)
    → drop i p ≡ c ∷ s
    → (load p i ≡ done c) × (drop (i + 1) p ≡ s)
unfolding load
load-drop [] zero c s e = cc
load-drop [] (suc i) c s e = cc
load-drop (x ∷ p) zero c s e = (cc, cc)
load-drop (x ∷ p) (suc i) c s e =
    let (got, rest) = load-drop p i c s e in
    let step : suc i + 1 ≡ suc (i + 1) = omega arith in (got, rw step rest)

drop-IsByte : (i : ℕ) (p : Bytes) (c : ℕ) (s : Bytes) → All IsByte p → drop i p ≡ c ∷ s → c < 256
drop-IsByte zero [] c s h e = cc
drop-IsByte zero (x ∷ p) c s (hx, h) e = let same : x ≡ c = cc in omega arith
drop-IsByte (suc i) [] c s h e = cc
drop-IsByte (suc i) (x ∷ p) c s (hx, h) e = drop-IsByte i p c s h e

-- The loop over the bytes behind a first byte, at `k` bytes from position `i` on.
abbrev Continues : Bytes → ℕ → ℕ → ℕ → Option (ℕ × Bytes) → Type 0
Continues p k i cp none = continuation p k i cp ≡ done none
Continues p k i cp (some (x, t)) = (continuation p k i cp ≡ done (some x)) × (drop (i + k) p ≡ t)

continuation_byte :
    (p : Bytes) (k i cp c : ℕ)
    → load p i ≡ done c
    → c < 256
    → cp * 64 < 2 ^ 32
    → continuation p (suc k) i cp
      ≡ (if c / 64 == 2 then continuation p k (i + 1) (cp * 64 + c % 64) else done none)
unfolding continuation
continuation_byte p k i cp c got byte small =
    let mark : bit_and c 0xc0 ≡ c / 64 % 4 * 64 =
      bit_and_high 6 3 c ∙ ap (λ (t : ℕ). t * 64) (mask_3 (c / 64)) in
    let kept : cp * 2 ^ 6 % 2 ^ 32 ≡ cp * 64 = omega arith in
    let sum : bit_or (cp * 64) (c % 64) ≡ cp * 64 + c % 64 =
      bit_or_comm (cp * 64) (c % 64) ∙ bit_or_fields 6 (c % 64) cp (omega arith) ∙ omega arith in
    rw (got, mark, bit_and_63 c, kept, sum)
      (elim (Bool-cases (c / 64 == 2)) [
        | inl good ↦ let test : (c / 64 % 4 * 64 == 0x80) ≡ true = ground arith in rw (test, good)
        | inr bad ↦ let test : (c / 64 % 4 * 64 == 0x80) ≡ false = ground arith in rw (test, bad)
      ])

room_for :
    (bound k : ℕ)
    → bound * 64 ^ suc k ≤ 2 ^ 32
    → (bound * 64 * 64 ^ k ≤ 2 ^ 32) × (bound * 64 ≤ 2 ^ 32)
room_for bound k h =
    let power = pow-succ' 64 k in
    let positive = one-le-pow k 64 (omega arith) in
    let same : bound * 64 ^ suc k ≡ bound * 64 * 64 ^ k =
      ap (λ (t : ℕ). bound * t) power ∙ sym (mul_assoc bound 64 (64 ^ k)) in
    let least : bound * 64 * 1 ≤ bound * 64 * 64 ^ k =
      mul-le-mul_left {m = 1} {n = 64 ^ k} (bound * 64) positive in
    (omega arith, omega arith)

Continues-step :
    (p : Bytes) (k i cp cp' : ℕ) (o : Option (ℕ × Bytes))
    → continuation p (suc k) i cp ≡ continuation p k (i + 1) cp'
    → Continues p k (i + 1) cp' o
    → Continues p (suc k) i cp o
Continues-step p k i cp cp' none same h = same ∙ h
Continues-step p k i cp cp' (some (x, t)) same (ran, rest) =
    let next : i + suc k ≡ i + 1 + k = omega arith in (same ∙ ran, rw next rest)

continuation-tail :
    (p : Bytes) (k i cp bound : ℕ) (s : Bytes)
    → All IsByte p
    → drop i p ≡ s
    → k ≤ length s
    → cp < bound
    → bound * 64 ^ k ≤ 2 ^ 32
    → Continues p k i cp (tail k cp s)
unfolding tail
continuation-tail p zero i cp bound s bytes at enough small fits =
    let same : i + 0 ≡ i = omega arith in (unfold continuation in refl, rw same at)
continuation-tail p (suc k) i cp bound [] bytes at enough small fits = absurd (omega arith)
continuation-tail p (suc k) i cp bound (c ∷ s) bytes at enough small fits =
    let (got, rest) = load-drop p i c s at in
    let byte = drop-IsByte i p c s bytes at in
    let (room, less) = room_for bound k fits in
    let step = continuation_byte p k i cp c got byte (omega arith) in
    let later =
      continuation-tail p k (i + 1) (cp * 64 + c % 64) (bound * 64) s bytes rest (omega arith)
        (omega arith) room in
    elim (Bool-cases (c / 64 == 2)) [
      | inl good ↦
          let same = rw good at step in
          rw good
            (Continues-step p k i cp (cp * 64 + c % 64) (tail k (cp * 64 + c % 64) s) same later)
      | inr bad ↦ let same = rw bad at step in rw bad same
    ]

-- One round: the next position, or the end with `false`.
abbrev pub Advances : Bytes → Outcome (Option ℕ) → Option (ℕ × Bytes) → Type 0
Advances p r none = r ≡ done none
Advances p r (some (x, t)) = (i : ℕ) × (r ≡ done (some i)) × (drop i p ≡ t)

tail_short : (k cp : ℕ) (s : Bytes) → length s < k → tail k cp s ≡ none
unfolding tail
tail_short zero cp s h = absurd (omega arith)
tail_short (suc k) cp [] h = refl
tail_short (suc k) cp (c ∷ s) h = elim (Bool-cases (c / 64 == 2)) [
  | inl good ↦ rw good (tail_short k (cp * 64 + c % 64) s (omega arith))
  | inr bad ↦ rw bad
]

closes :
    (p : Bytes) (n i k cp min : ℕ) (o : Option (ℕ × Bytes))
    → ltb n (i + suc k) ≡ false
    → Continues p k (i + 1) cp o
    → Advances p (multibyte p n i (some (record { len = suc k; cp = cp; min = min }))) (close min o)
unfolding multibyte
closes p n i k cp min none inside h = let last : suc k - 1 ≡ k = omega arith in rw (inside, last, h)
closes p n i k cp min (some (x, t)) inside (ran, rest) =
    let last : suc k - 1 ≡ k = omega arith in
    let next : i + suc k ≡ i + 1 + k = omega arith in
    elim (Bool-cases (is_bad x min)) [
      | inl bad ↦ rw (inside, last, ran, bad)
      | inr good ↦ rw (inside, last, ran, good) (i + suc k, refl, rw next rest)
    ]

multibyte_lem :
    (p : Bytes) (i k cp min bound c : ℕ) (s : Bytes)
    → All IsByte p
    → drop i p ≡ c ∷ s
    → cp < bound
    → bound * 64 ^ k ≤ 2 ^ 32
    → Advances p
        (multibyte p (length p) i (some (record { len = suc k; cp = cp; min = min })))
        (close min (tail k cp s))
multibyte_lem p i k cp min bound c s bytes at small fits =
    let (got, rest) = load-drop p i c s at in
    let size = ap (λ (t : Bytes). length t) at in
    let dropped = length-drop i p in
    elim (dec_lt (length s) k) [
      | yes short ↦
          let over : ltb (length p) (i + suc k) ≡ true = ground arith in
          rw (tail_short k cp s short) (unfold multibyte in rw over)
      | no enough ↦
          let inside : ltb (length p) (i + suc k) ≡ false = ground arith in
          closes p (length p) i k cp min (tail k cp s) inside
            (continuation-tail p k (i + 1) cp bound s bytes rest (omega arith) small fits)
    ]

-- The body of the loop, on the byte `c` at `i`.
abbrev pub round : Bytes → ℕ → ℕ → Outcome (Option ℕ)
round p i c = if ltb c 0x80 then done (some (i + 1)) else multibyte p (length p) i (lead c)

pub round-one :
    (p : Bytes) (i c : ℕ) (s : Bytes)
    → All IsByte p
    → drop i p ≡ c ∷ s
    → Advances p (round p i c) (one (c ∷ s))
unfolding one
round-one p i c s bytes at =
    let (got, rest) = load-drop p i c s at in
    let byte = drop-IsByte i p c s bytes at in
    elim (dec_lt c 128) [
      | yes h ↦ let a : ltb c 128 ≡ true = ground arith in rw a (i + 1, refl, rest)
      | no h ↦
          let a : ltb c 128 ≡ false = ground arith in
          rw (a, lead_lem c (omega arith) byte)
            (elim (dec_lt c 192) [
              | yes h₂ ↦ let b : ltb c 192 ≡ true = ground arith in rw b (unfold multibyte in refl)
              | no h₂ ↦
                  let b : ltb c 192 ≡ false = ground arith in
                  elim (dec_lt c 224) [
                    | yes h₃ ↦
                        let d : ltb c 224 ≡ true = ground arith in
                        rw (b, d)
                          (multibyte_lem p i 1 (c - 192) 0x80 32 c s bytes at (omega arith)
                            (omega arith))
                    | no h₃ ↦
                        let d : ltb c 224 ≡ false = ground arith in
                        elim (dec_lt c 240) [
                          | yes h₄ ↦
                              let f : ltb c 240 ≡ true = ground arith in
                              rw (b, d, f)
                                (multibyte_lem p i 2 (c - 224) 0x800 32 c s bytes at (omega arith)
                                  (omega arith))
                          | no h₄ ↦
                              let f : ltb c 240 ≡ false = ground arith in
                              elim (dec_lt c 248) [
                                | yes h₅ ↦
                                    let g : ltb c 248 ≡ true = ground arith in
                                    rw (b, d, f, g)
                                      (multibyte_lem p i 3 (c - 240) 0x10000 32 c s bytes at
                                        (omega arith) (omega arith))
                                | no h₅ ↦
                                    let g : ltb c 248 ≡ false = ground arith in
                                    rw (b, d, f, g) (unfold multibyte in refl)
                              ]
                        ]
                  ]
            ])
    ]
