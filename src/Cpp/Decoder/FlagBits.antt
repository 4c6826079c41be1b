-- ===== src/Cpp/Decoder/FlagBits.antt =====
-- The loops of `EncodeFlags` and `Decoder::Flags` in tools/crabgen/templates/cpp/crab.cpp, bit by bit.
use Prim.Native.Nat.{bit_and, bit_or}
use crabcraft.Prelude.{
  ℕ, zero, suc, ◌+◌, ◌*◌, ◌/◌, ◌%◌, ◌^◌, ◌≤◌, ◌<◌, ◌≡◌, refl, ◌∙◌, arith, Bool, true, false, not,
  ◌&&◌, List, [], ◌∷◌, ◌++◌, Bytes, length, get_or, ◌==◌, if◌then◌else◌, Bool-cases, inl, inr,
}
use crabcraft.Prelude.Bits.{mask_1}
use crabcraft.Prelude.TestBit.{bit, bit-bit_or, bit-power, bit_or_below}
use native.Mathlib.Nat.{pow-suc, pow-le-pow_right, one-le-pow}
use crabcraft.Cpp.Encode.{zeros, or_at, set_flags}
use crabcraft.Cpp.Decoder.{get_flags}

-- The byte `k`, and 0 behind the last one.
abbrev pub byte_at : Bytes → ℕ → ℕ
byte_at b k = get_or b k 0

-- The flag that stands at bit `i`, as 0 or 1.
abbrev pub flag_at : Bytes → ℕ → ℕ
flag_at b i = bit (byte_at b (i / 8)) (i % 8)

length-or_at : (b : Bytes) (k m : ℕ) → length (or_at b k m) ≡ length b
unfolding or_at
length-or_at [] k m = refl
length-or_at (c ∷ b) zero m = refl
length-or_at (c ∷ b) (suc k) m = omega (arith, length-or_at b k m)

byte_at-or_at :
    (b : Bytes) (k m j : ℕ)
    → k < length b
    → byte_at (or_at b k m) j ≡ (if k == j then bit_or (byte_at b j) m else byte_at b j)
unfolding or_at
byte_at-or_at [] k m j h = absurd (omega arith)
byte_at-or_at (c ∷ b) zero m zero h = refl
byte_at-or_at (c ∷ b) zero m (suc j) h = let other : (0 == suc j) ≡ false = ground arith in rw other
byte_at-or_at (c ∷ b) (suc k) m zero h = let other : (suc k == 0) ≡ false = ground arith in rw other
byte_at-or_at (c ∷ b) (suc k) m (suc j) h =
    let same : (suc k == suc j) ≡ (k == j) = ground arith in
    rw same (byte_at-or_at b k m j (omega arith))

or_at-append : (out b : Bytes) (k m : ℕ) → or_at (out ++ b) (length out + k) m ≡ out ++ or_at b k m
unfolding or_at
or_at-append [] b k m = let same : 0 + k ≡ k = omega arith in rw same
or_at-append (c ∷ out) b k m =
    let same : suc (length out) + k ≡ suc (length out + k) = omega arith in
    rw (same, or_at, or_at-append out b k m)

pub set_flags-append :
    (out b : Bytes) (i : ℕ) (xs : List Bool)
    → set_flags (out ++ b) (length out) i xs ≡ out ++ set_flags b 0 i xs
unfolding set_flags
set_flags-append out b i [] = refl
set_flags-append out b i (false ∷ xs) = set_flags-append out b (i + 1) xs
set_flags-append out b i (true ∷ xs) =
    let same : 0 + i / 8 ≡ i / 8 = omega arith in
    rw (or_at-append out b (i / 8) (2 ^ (i % 8)), same)
      (set_flags-append out (or_at b (i / 8) (2 ^ (i % 8))) (i + 1) xs)

-- Setting one flag.
flag_at-or_at :
    (b : Bytes) (i j : ℕ)
    → i / 8 < length b
    → flag_at (or_at b (i / 8) (2 ^ (i % 8))) j ≡ (if i == j then 1 else flag_at b j)
flag_at-or_at b i j h = elim (Bool-cases (i / 8 == j / 8)) [
  | inl same ↦
      let one : bit (byte_at b (j / 8)) (j % 8) < 2 = omega arith in
      rw
        (
          byte_at-or_at b (i / 8) (2 ^ (i % 8)) (j / 8) h,
          same,
          bit-bit_or (j % 8) (byte_at b (j / 8)) (2 ^ (i % 8)),
          bit-power (i % 8) (j % 8),
        )
        (ground arith)
  | inr other ↦
      let apart : (i == j) ≡ false = ground arith in
      rw (byte_at-or_at b (i / 8) (2 ^ (i % 8)) (j / 8) h, other, apart)
]

-- What the loop leaves: the flags from number `i` on, and those that were there.
abbrev pub flag_of : List Bool → ℕ → ℕ → ℕ → ℕ
flag_of [] i j old = old
flag_of (x ∷ xs) i j old = flag_of xs (i + 1) j (if x && (i == j) then 1 else old)

pub flag_at-set_flags :
    (xs : List Bool) (b : Bytes) (i j : ℕ)
    → i + length xs ≤ 8 * length b
    → flag_at (set_flags b 0 i xs) j ≡ flag_of xs i j (flag_at b j)
unfolding set_flags
flag_at-set_flags [] b i j h = refl
flag_at-set_flags (false ∷ xs) b i j h = flag_at-set_flags xs b (i + 1) j (omega arith)
flag_at-set_flags (true ∷ xs) b i j h =
    let same : 0 + i / 8 ≡ i / 8 = omega arith in
    rw (same, ← flag_at-or_at b i j (omega arith))
      (flag_at-set_flags xs (or_at b (i / 8) (2 ^ (i % 8))) (i + 1) j
        (omega (arith, length-or_at b (i / 8) (2 ^ (i % 8)))))

-- Reading them back.
flag_of-later : (xs : List Bool) (i j old : ℕ) → j < i → flag_of xs i j old ≡ old
flag_of-later [] i j old h = refl
flag_of-later (x ∷ xs) i j old h =
    let other : (i == j) ≡ false = ground arith in
    rw (other, flag_of-later xs (i + 1) j (if x && false then 1 else old) (omega arith))
      (ground arith)

pub get_flags-flag_of :
    (xs : List Bool) (b : Bytes) (i : ℕ)
    → ((j : ℕ) → i ≤ j → flag_at b j ≡ flag_of xs i j 0)
    → get_flags b (length xs) i ≡ xs
unfolding get_flags
get_flags-flag_of [] b i h = refl
get_flags-flag_of (x ∷ xs) b i h =
    rw
      (
        first x (h i (omega arith)),
        get_flags-flag_of xs b (i + 1) (λ j later. others x j later (h j (omega arith))),
      )
      refl
  where
    first :
        (x : Bool)
        → flag_at b i ≡ flag_of (x ∷ xs) i i 0
        → not (bit_and (get_or b (i / 8) 0 / 2 ^ (i % 8)) 1 == 0) ≡ x
    first x e =
        let same : (i == i) ≡ true = ground arith in
        let value =
          rw (same, flag_of-later xs (i + 1) i (if x && true then 1 else 0) (omega arith)) at e in
        ground (arith, mask_1 (get_or b (i / 8) 0 / 2 ^ (i % 8)))

    others :
        (x : Bool) (j : ℕ)
        → i + 1 ≤ j
        → flag_at b j ≡ flag_of (x ∷ xs) i j 0
        → flag_at b j ≡ flag_of xs (i + 1) j 0
    others true j later e = let other : (i == j) ≡ false = ground arith in rw other at e
    others false j later e = e

-- An empty run of bytes.
pub byte_at-zeros : (n k : ℕ) → byte_at (zeros n) k ≡ 0
byte_at-zeros zero k = refl
byte_at-zeros (suc n) zero = refl
byte_at-zeros (suc n) (suc k) = byte_at-zeros n k

pub length-zeros : (n : ℕ) → length (zeros n) ≡ n
length-zeros zero = refl
length-zeros (suc n) = omega (arith, length-zeros n)

pub length-set_flags : (xs : List Bool) (b : Bytes) (i : ℕ) → length (set_flags b 0 i xs) ≡ length b
unfolding set_flags
length-set_flags [] b i = refl
length-set_flags (false ∷ xs) b i = length-set_flags xs b (i + 1)
length-set_flags (true ∷ xs) b i =
    length-set_flags xs (or_at b (0 + i / 8) (2 ^ (i % 8))) (i + 1)
    ∙ length-or_at b (0 + i / 8) (2 ^ (i % 8))

-- No bit is set from number `t` of the byte `k` on, where the flags end there.
pub unused_bits :
    (xs : List Bool) (b : Bytes) (i k t : ℕ)
    → byte_at b k < 2 ^ t
    → i + length xs ≤ 8 * k + t
    → i + length xs ≤ 8 * length b
    → byte_at (set_flags b 0 i xs) k < 2 ^ t
unfolding set_flags
unused_bits [] b i k t low ends inside = low
unused_bits (false ∷ xs) b i k t low ends inside =
    unused_bits xs b (i + 1) k t low (omega arith) (omega arith)
unused_bits (true ∷ xs) b i k t low ends inside =
    unused_bits xs (or_at b (0 + i / 8) (2 ^ (i % 8))) (i + 1) k t (still_low (i / 8 == k) refl)
      (omega arith) (omega (arith, length-or_at b (0 + i / 8) (2 ^ (i % 8))))
  where
    still_low :
        (same : Bool) → (i / 8 == k) ≡ same → byte_at (or_at b (0 + i / 8) (2 ^ (i % 8))) k < 2 ^ t
    still_low same e =
        let start : 0 + i / 8 ≡ i / 8 = omega arith in
        rw (start, byte_at-or_at b (i / 8) (2 ^ (i % 8)) k (omega arith), e) (by_place same e)
      where
        by_place :
            (same : Bool)
            → (i / 8 == k) ≡ same
            → (if same then bit_or (byte_at b k) (2 ^ (i % 8)) else byte_at b k) < 2 ^ t
        by_place true e =
            let inside_byte : i % 8 + 1 ≤ t = ground arith in
            let power =
              pow-le-pow_right {n = 2} (omega arith) {i = suc (i % 8)} {j = t} (omega arith) in
            bit_or_below t (byte_at b k) (2 ^ (i % 8)) low
              (omega (arith, pow-suc 2 (i % 8), one-le-pow (i % 8) 2 (omega arith)))
        by_place false e = low
