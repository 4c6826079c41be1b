-- ===== src/Prelude/Bits.antt =====
-- Masks and shifts of C as arithmetic: the native operations mean a recursion on binary digits.
use Prim.Native.Nat.{
  ℕ, zero, suc, ◌+◌, ◌*◌, ◌-◌, ◌/◌, ◌%◌, ◌^◌, ◌≤◌, ◌<◌, min, max, bit_and, bit_or, digits, bitwise,
  bit_and-bitwise, bit_or-bitwise,
}
use mathlib.Core.Path.{◌≡◌, refl, sym, ap, ◌∙◌}
use native.Mathlib.Nat.{pow-suc, pow-succ', div-div-eq-div-mul, le_refl}
use native.Mathlib.Omega.{arith}

-- A round more than enough changes nothing.
spare :
    (base : ℕ → ℕ) (op : ℕ → ℕ → ℕ) (n k x y : ℕ)
    → x ≤ n
    → digits base op (n + k) x y ≡ digits base op n x y
spare base op zero zero zero y h = refl
spare base op zero (suc k) zero y h = let all : 0 + suc k ≡ suc k = omega arith in rw all refl
spare base op zero k (suc x) y h = absurd (omega arith)
spare base op (suc n) k zero y h = let next : suc n + k ≡ suc (n + k) = omega arith in rw next refl
spare base op (suc n) k (suc x) y h =
    let next : suc n + k ≡ suc (n + k) = omega arith in
    rw (next, spare base op n k (suc x / 2) (y / 2) (omega arith))

-- The lowest digit and the others.
split_low :
    (base : ℕ → ℕ) (op : ℕ → ℕ → ℕ) (x y : ℕ)
    → bitwise base op (suc x) y ≡ bitwise base op (suc x / 2) (y / 2) * 2 + op (suc x % 2) (y % 2)
split_low base op x y =
    let half = suc x / 2 in
    let sum : half + (x - half) ≡ x = omega arith in
    omega (arith, rw sum at (spare base op half (x - half) half (y / 2) (le_refl _)))

pub bit_or_step : (x y : ℕ) → bit_or x y ≡ bit_or (x / 2) (y / 2) * 2 + max (x % 2) (y % 2)
bit_or_step zero y = simp bit_or-bitwise (omega arith)
bit_or_step (suc x) y = simp bit_or-bitwise (split_low (λ t. t) max x y)

bit_and_step : (x y : ℕ) → bit_and x y ≡ bit_and (x / 2) (y / 2) * 2 + min (x % 2) (y % 2)
bit_and_step zero y = simp bit_and-bitwise (omega arith)
bit_and_step (suc x) y = simp bit_and-bitwise (split_low (λ t. 0) min x y)

zero-bit_or : (b : ℕ) → bit_or 0 b ≡ b
zero-bit_or b = bit_or-bitwise 0 b

-- An `|` whose operands share no bit is a sum.
pub bit_or_fields : (k a b : ℕ) → a < 2 ^ k → bit_or a (b * 2 ^ k) ≡ a + b * 2 ^ k
bit_or_fields zero zero b h = simp zero-bit_or (omega arith)
bit_or_fields zero (suc a) b h = absurd (omega arith)
bit_or_fields (suc k) a b h = omega (
  arith,
  bit_or_step a (b * 2 ^ suc k),
  half,
  ap (λ (t : ℕ). bit_or (a / 2) t) half,
  pow-suc 2 k,
  ap (λ (t : ℕ). b * t) (pow-suc 2 k),
  bit_or_fields k (a / 2) b (omega (arith, pow-suc 2 k)),
)
  where
    half : b * 2 ^ suc k / 2 ≡ b * 2 ^ k
    half = omega (arith, ap (λ (t : ℕ). b * t) (pow-suc 2 k))

-- With no bit in common with 0.
none_set : (rounds x : ℕ) → x ≤ rounds → bit_and x 0 ≡ 0
none_set rounds zero low = refl
none_set zero (suc x) low = absurd (omega arith)
none_set (suc rounds) (suc x) low =
    let later = none_set rounds (suc x / 2) (omega arith) in
    omega (arith, later, bit_and_step (suc x) 0)

pub bit_or_128 : (a : ℕ) → a < 128 → bit_or a 0x80 ≡ a + 128
bit_or_128 a h = bit_or_fields 7 a 1 h

-- Masks of ones, a digit at a time.
pub mask_1 : (x : ℕ) → bit_and x 1 ≡ x % 2
mask_1 x = omega (arith, bit_and_step x 1, none_set _ (x / 2) (le_refl _))

pub mask_3 : (x : ℕ) → bit_and x 3 ≡ x % 4
mask_3 x = omega (arith, bit_and_step x 3, mask_1 (x / 2))

mask_7 : (x : ℕ) → bit_and x 7 ≡ x % 8
mask_7 x = omega (arith, bit_and_step x 7, mask_3 (x / 2))

mask_15 : (x : ℕ) → bit_and x 15 ≡ x % 16
mask_15 x = omega (arith, bit_and_step x 15, mask_7 (x / 2))

mask_31 : (x : ℕ) → bit_and x 31 ≡ x % 32
mask_31 x = omega (arith, bit_and_step x 31, mask_15 (x / 2))

mask_63 : (x : ℕ) → bit_and x 63 ≡ x % 64
mask_63 x = omega (arith, bit_and_step x 63, mask_31 (x / 2))

pub bit_and_127 : (x : ℕ) → bit_and x 0x7f ≡ x % 128
bit_and_127 x = omega (arith, bit_and_step x 127, mask_63 (x / 2))

pub bit_and_255 : (x : ℕ) → bit_and x 0xff ≡ x % 256
bit_and_255 x = omega (arith, bit_and_step x 255, bit_and_127 (x / 2))

-- Single bits, a digit at a time.
bit_2 : (x : ℕ) → bit_and x 2 ≡ x / 2 % 2 * 2
bit_2 x = omega (arith, bit_and_step x 2, mask_1 (x / 2))

bit_4 : (x : ℕ) → bit_and x 4 ≡ x / 4 % 2 * 4
bit_4 x = omega (arith, bit_and_step x 4, bit_2 (x / 2))

bit_8 : (x : ℕ) → bit_and x 8 ≡ x / 8 % 2 * 8
bit_8 x = omega (arith, bit_and_step x 8, bit_4 (x / 2))

bit_16 : (x : ℕ) → bit_and x 16 ≡ x / 16 % 2 * 16
bit_16 x = omega (arith, bit_and_step x 16, bit_8 (x / 2))

bit_32 : (x : ℕ) → bit_and x 32 ≡ x / 32 % 2 * 32
bit_32 x = omega (arith, bit_and_step x 32, bit_16 (x / 2))

pub bit_64 : (x : ℕ) → bit_and x 64 ≡ x / 64 % 2 * 64
bit_64 x = omega (arith, bit_and_step x 64, bit_32 (x / 2))

pub bit_and_128_bit : (x : ℕ) → bit_and x 0x80 ≡ x / 128 % 2 * 128
bit_and_128_bit x = omega (arith, bit_and_step x 128, bit_64 (x / 2))

pub bit_and_128 : (x : ℕ) → x < 256 → bit_and x 0x80 ≡ x / 128 * 128
bit_and_128 x h = omega (arith, bit_and_128_bit x)

-- A mask whose low digits are 0 looks at the digits above them.
pub bit_and_high : (k m x : ℕ) → bit_and x (m * 2 ^ k) ≡ bit_and (x / 2 ^ k) m * 2 ^ k
bit_and_high zero m x =
    let whole : m * 2 ^ zero ≡ m = omega arith in
    let same : x / 2 ^ zero ≡ x = omega arith in rw (whole, same) (omega arith)
bit_and_high (suc k) m x =
    let power = pow-suc 2 k in
    let halved : m * 2 ^ suc k / 2 ≡ m * 2 ^ k = omega (arith, ap (λ (t : ℕ). m * t) power) in
    let even : m * 2 ^ suc k % 2 ≡ 0 = omega (arith, ap (λ (t : ℕ). m * t) power) in
    let again : x / 2 / 2 ^ k ≡ x / 2 ^ suc k =
      div-div-eq-div-mul x 2 (2 ^ k) ∙ ap (λ (t : ℕ). x / t) (sym (pow-succ' 2 k)) in
    let high = bit_and (x / 2 ^ suc k) m in
    omega (
      arith,
      bit_and_step x (m * 2 ^ suc k),
      ap (λ (t : ℕ). bit_and (x / 2) t) halved,
      bit_and_high k m (x / 2),
      ap (λ (t : ℕ). bit_and t m * 2 ^ k) again,
      ap (λ (t : ℕ). high * t) power,
    )

pub bit_and_15 : (x : ℕ) → bit_and x 0x0f ≡ x % 16
bit_and_15 = mask_15

pub bit_and_31 : (x : ℕ) → bit_and x 0x1f ≡ x % 32
bit_and_31 = mask_31

pub bit_and_7 : (x : ℕ) → bit_and x 0x07 ≡ x % 8
bit_and_7 = mask_7

pub bit_and_63 : (x : ℕ) → bit_and x 0x3f ≡ x % 64
bit_and_63 = mask_63

bit_or-zero : (rounds x : ℕ) → x ≤ rounds → bit_or x 0 ≡ x
bit_or-zero rounds zero low = zero-bit_or 0
bit_or-zero zero (suc x) low = absurd (omega arith)
bit_or-zero (suc rounds) (suc x) low =
    let later = bit_or-zero rounds (suc x / 2) (omega arith) in
    omega (arith, later, bit_or_step (suc x) 0)

bit_or_swap : (rounds x y : ℕ) → x ≤ rounds → bit_or x y ≡ bit_or y x
bit_or_swap rounds zero y low = zero-bit_or y ∙ sym (bit_or-zero y y (le_refl y))
bit_or_swap zero (suc x) y low = absurd (omega arith)
bit_or_swap (suc rounds) (suc x) y low =
    let later = bit_or_swap rounds (suc x / 2) (y / 2) (omega arith) in
    omega (arith, later, bit_or_step (suc x) y, bit_or_step y (suc x))

pub bit_or_comm : (x y : ℕ) → bit_or x y ≡ bit_or y x
bit_or_comm x y = bit_or_swap x x y (le_refl x)
