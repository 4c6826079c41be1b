-- ===== src/Cpp/Utf8/Complete.antt =====
-- The encoding of a scalar value is read back as that value.
use crabcraft.Prelude.{
  ℕ, suc, ◌+◌, ◌-◌, ◌*◌, ◌/◌, ◌%◌, ◌≤◌, ◌<◌, ◌≡◌, arith, true, false, some, ◌∷◌, ◌++◌, Bytes, ltb,
  ◌==◌,
}
use crabcraft.Cpp.Utf8.{is_bad}
use crabcraft.Cpp.Utf8.Scalars.{
  IsScalar, encode_scalar, encode_two, encode_three, encode_four, tail, close, one,
}
use native.Mathlib.Decide.{dec_lt}

tail_step :
    (k cp a : ℕ) (s : Bytes) → a < 64 → tail (suc k) cp ((0x80 + a) ∷ s) ≡ tail k (cp * 64 + a) s
unfolding tail
tail_step k cp a s h =
    let test : ((0x80 + a) / 64 == 2) ≡ true = ground arith in
    let value : (0x80 + a) % 64 ≡ a = omega arith in rw (test, value)

close_good : (min x : ℕ) (t : Bytes) → min ≤ x → IsScalar x → close min (some (x, t)) ≡ some (x, t)
unfolding is_bad
close_good min x t h scalar = ground arith

one_two : (c : ℕ) (s : Bytes) → 192 ≤ c → c < 224 → one (c ∷ s) ≡ close 0x80 (tail 1 (c - 192) s)
unfolding one
one_two c s low high =
    let a : ltb c 128 ≡ false = ground arith in
    let b : ltb c 192 ≡ false = ground arith in
    let d : ltb c 224 ≡ true = ground arith in rw (a, b, d)

one_three : (c : ℕ) (s : Bytes) → 224 ≤ c → c < 240 → one (c ∷ s) ≡ close 0x800 (tail 2 (c - 224) s)
unfolding one
one_three c s low high =
    let a : ltb c 128 ≡ false = ground arith in
    let b : ltb c 192 ≡ false = ground arith in
    let d : ltb c 224 ≡ false = ground arith in
    let f : ltb c 240 ≡ true = ground arith in rw (a, b, d, f)

one_four :
    (c : ℕ) (s : Bytes) → 240 ≤ c → c < 248 → one (c ∷ s) ≡ close 0x10000 (tail 3 (c - 240) s)
unfolding one
one_four c s low high =
    let a : ltb c 128 ≡ false = ground arith in
    let b : ltb c 192 ≡ false = ground arith in
    let d : ltb c 224 ≡ false = ground arith in
    let f : ltb c 240 ≡ false = ground arith in
    let g : ltb c 248 ≡ true = ground arith in rw (a, b, d, f, g)

complete_two : (x : ℕ) (t : Bytes) → 0x80 ≤ x → x < 0x800 → one (encode_scalar x ++ t) ≡ some (x, t)
complete_two x t low high =
    let value : (0xc0 + x / 64 - 192) * 64 + x % 64 ≡ x = omega arith in
    rw
      (
        encode_two x low high,
        one_two (0xc0 + x / 64) ((0x80 + x % 64) ∷ t) (omega arith) (omega arith),
        tail_step 0 (0xc0 + x / 64 - 192) (x % 64) t (omega arith),
        value,
      )
      (unfold tail in close_good 0x80 x t low (omega arith))

complete_three :
    (x : ℕ) (t : Bytes)
    → 0x800 ≤ x
    → x < 0x10000
    → IsScalar x
    → one (encode_scalar x ++ t) ≡ some (x, t)
complete_three x t low high scalar =
    let c = 0xe0 + x / 4096 in
    let value : ((c - 224) * 64 + x / 64 % 64) * 64 + x % 64 ≡ x = omega arith in
    rw
      (
        encode_three x low high,
        one_three c ((0x80 + x / 64 % 64) ∷ (0x80 + x % 64) ∷ t) (omega arith) (omega arith),
        tail_step 1 (c - 224) (x / 64 % 64) ((0x80 + x % 64) ∷ t) (omega arith),
        tail_step 0 ((c - 224) * 64 + x / 64 % 64) (x % 64) t (omega arith),
        value,
      )
      (unfold tail in close_good 0x800 x t low scalar)

complete_four :
    (x : ℕ) (t : Bytes) → 0x10000 ≤ x → IsScalar x → one (encode_scalar x ++ t) ≡ some (x, t)
complete_four x t low scalar =
    let c = 0xf0 + x / 262144 in
    let value : (((c - 240) * 64 + x / 4096 % 64) * 64 + x / 64 % 64) * 64 + x % 64 ≡ x =
      omega arith in
    rw
      (
        encode_four x low,
        one_four c ((0x80 + x / 4096 % 64) ∷ (0x80 + x / 64 % 64) ∷ (0x80 + x % 64) ∷ t)
            (omega arith) (omega arith),
        tail_step 2 (c - 240) (x / 4096 % 64) ((0x80 + x / 64 % 64) ∷ (0x80 + x % 64) ∷ t)
            (omega arith),
        tail_step 1 ((c - 240) * 64 + x / 4096 % 64) (x / 64 % 64) ((0x80 + x % 64) ∷ t)
            (omega arith),
        tail_step 0 (((c - 240) * 64 + x / 4096 % 64) * 64 + x / 64 % 64) (x % 64) t (omega arith),
        value,
      )
      (unfold tail in close_good 0x10000 x t low scalar)

pub one-encode_scalar : (x : ℕ) (t : Bytes) → IsScalar x → one (encode_scalar x ++ t) ≡ some (x, t)
one-encode_scalar x t scalar = elim (dec_lt x 0x80) [
  | yes ascii ↦ unfold one encode_scalar in ground arith
  | no h ↦ elim (dec_lt x 0x800) [
    | yes h₂ ↦ complete_two x t (omega arith) h₂
    | no h₂ ↦ elim (dec_lt x 0x10000) [
      | yes h₃ ↦ complete_three x t (omega arith) h₃ scalar
      | no h₃ ↦ complete_four x t (omega arith) scalar
    ]
  ]
]
