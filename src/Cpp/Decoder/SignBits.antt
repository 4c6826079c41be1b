-- ===== src/Cpp/Decoder/SignBits.antt =====
-- The arithmetic of `Decoder::Sleb` in tools/crabgen/templates/cpp/crab.cpp: groups and signs put in place.
use Prim.Native.Nat.{bit_and, bit_or}
use crabcraft.Prelude.{
  ℕ, zero, suc, ◌+◌, ◌*◌, ◌-◌, ◌/◌, ◌%◌, ◌^◌, ◌≤◌, ◌<◌, ◌≡◌, refl, ◌∙◌, sym, ap, arith, true, false,
  not, ◌&&◌, codes, ltb, ◌==◌, if◌then◌else◌, Bool-cases, inl, inr,
}
use crabcraft.Prelude.Bits.{bit_64, bit_or_fields}
use crabcraft.Prelude.Powers.{pow-add}
use crabcraft.Uleb.Decode.{group_below}
use native.Mathlib.Nat.{pow-le-pow_right, mul-le-mul_right, one-le-pow}
use native.Mathlib.Decide.{dec_lt}
use crabcraft.Format.{ℤ, pos, negsuc}
use crabcraft.Cpp.Encode.Sleb.{size, group, above}
use crabcraft.Cpp.Decoder.{sleb_end, to_int64, out_of_range, pure, refuse}

-- The number whose bits from `shift` on are `v`, and below them `result`.
abbrev pub behind_bits : ℕ → ℕ → ℤ → ℤ
behind_bits result weight (pos n) = pos (result + n * weight)
behind_bits result weight (negsuc n) = negsuc ((n + 1) * weight - 1 - result)

-- A sum that stays below the bits above it.
pub below_next :
    (result g shift : ℕ) → result < 2 ^ shift → g < 128 → result + g * 2 ^ shift < 2 ^ (shift + 7)
below_next result g shift low small =
    omega (arith, pow-add shift 7, group_below result g (2 ^ shift) low)

pred_times : (x m : ℕ) → 0 < x → (x - 1) * m + m ≡ x * m
pred_times zero m h = absurd (omega arith)
pred_times (suc q) m h = grind arith

pub sum_times : (a b m : ℕ) → a * m + b * m ≡ (a + b) * m
sum_times a b m = grind arith

-- The bits from `shift` on set.
high_bits : (shift : ℕ) → shift ≤ 64 → (2 ^ (64 - shift) - 1) * 2 ^ shift ≡ 2 ^ 64 - 2 ^ shift
high_bits shift h =
    let sum : (64 - shift) + shift ≡ 64 = omega arith in
    let whole : 2 ^ (64 - shift) * 2 ^ shift ≡ 2 ^ 64 =
      sym (pow-add (64 - shift) shift) ∙ ap (λ (k : ℕ). 2 ^ k) sum in
    omega
      (arith, pred_times (2 ^ (64 - shift)) (2 ^ shift) (one-le-pow (64 - shift) 2 (omega arith)))

positive_end :
    (result shift n : ℕ)
    → result < 2 ^ shift
    → shift ≤ 56
    → n < 64
    → result + n * 2 ^ shift < 2 ^ 63
positive_end result shift n low wide small =
    let weight = pow-le-pow_right {n = 2} (omega arith) {i = shift} {j = 56} wide in
    let product : (n + 1) * 2 ^ shift ≤ 64 * 2 ^ shift =
      mul-le-mul_right (2 ^ shift) (omega arith) in
    let split : (n + 1) * 2 ^ shift ≡ n * 2 ^ shift + 2 ^ shift = grind arith in omega arith

-- The last group put in place, with its sign.
signed_positive :
    (result shift n : ℕ)
    → result < 2 ^ shift
    → shift ≤ 56
    → n < 64
    → to_int64 (
        if not (bit_and (n % 128) 0x40 == 0)
        then bit_or (result + n % 128 * 2 ^ shift) (2 ^ 64 - 2 ^ (shift + 7))
        else result + n % 128 * 2 ^ shift)
      ≡ pos (result + n * 2 ^ shift)
unfolding to_int64
signed_positive result shift n low wide small =
    let same : n % 128 ≡ n = omega arith in
    let sign : (bit_and n 0x40 == 0) ≡ true = ground (arith, bit_64 n) in
    let bound = positive_end result shift n low wide small in
    let test : ltb (result + n * 2 ^ shift) (2 ^ 63) ≡ true = ground arith in
    rw (same, sign, test) refl

signed_negative :
    (result shift n : ℕ)
    → result < 2 ^ shift
    → shift ≤ 56
    → n < 64
    → to_int64 (
        if not (bit_and (127 - n % 128) 0x40 == 0)
        then bit_or (result + (127 - n % 128) * 2 ^ shift) (2 ^ 64 - 2 ^ (shift + 7))
        else result + (127 - n % 128) * 2 ^ shift)
      ≡ negsuc ((n + 1) * 2 ^ shift - 1 - result)
unfolding to_int64
signed_negative result shift n low wide small =
    let same : n % 128 ≡ n = omega arith in
    let sign : (bit_and (127 - n) 0x40 == 0) ≡ false = ground (arith, bit_64 (127 - n)) in
    let joined =
      bit_or_fields (shift + 7) (result + (127 - n) * 2 ^ shift) (2 ^ (64 - (shift + 7)) - 1)
        (below_next result (127 - n) shift low (omega arith)) in
    let high = high_bits (shift + 7) (omega arith) in
    let bound = positive_end result shift n low wide small in
    let weight = pow-add shift 7 in
    let top = pow-le-pow_right {n = 2} (omega arith) {i = shift + 7} {j = 63} (omega arith) in
    let split : (127 - n) * 2 ^ shift + (n + 1) * 2 ^ shift ≡ 2 ^ shift * 128 =
      let all : 127 - n + (n + 1) ≡ 128 = omega arith in
      let times = ap (λ (k : ℕ). k * 2 ^ shift) all in
      omega (arith, sum_times (127 - n) (n + 1) (2 ^ shift)) in
    let next : (n + 1) * 2 ^ shift ≡ n * 2 ^ shift + 2 ^ shift = grind arith in
    let value : bit_or (result + (127 - n) * 2 ^ shift) (2 ^ 64 - 2 ^ (shift + 7))
        ≡ 2 ^ 64 - 1 - ((n + 1) * 2 ^ shift - 1 - result) =
      rw high at joined ∙ omega arith in
    let test : ltb (2 ^ 64 - 1 - ((n + 1) * 2 ^ shift - 1 - result)) (2 ^ 63) ≡ false =
      ground arith in
    rw (same, sign, value, test) (ap negsuc (omega arith))

signed_end :
    (result shift : ℕ) (v : ℤ)
    → result < 2 ^ shift
    → shift ≤ 56
    → size v < 64
    → to_int64 (
        if not (bit_and (group v) 0x40 == 0)
        then bit_or (result + group v * 2 ^ shift) (2 ^ 64 - 2 ^ (shift + 7))
        else result + group v * 2 ^ shift)
      ≡ behind_bits result (2 ^ shift) v
signed_end result shift (pos n) low wide small = signed_positive result shift n low wide small
signed_end result shift (negsuc n) low wide small = signed_negative result shift n low wide small

-- A number that `bits` bits hold with its sign.
abbrev pub InRange : ℕ → ℤ → Type 0
InRange bits v = size v < 2 ^ (bits - 1)

InRange-test : (bits : ℕ) (v : ℤ) → InRange bits v → out_of_range bits v ≡ false
unfolding out_of_range
InRange-test bits (pos n) h = ground arith
InRange-test bits (negsuc n) h = ground arith

checked_end :
    (bits : ℕ) (v : ℤ)
    → InRange bits v
    → (if ltb bits 64 && out_of_range bits v then refuse (codes "sleb overflow") else pure v)
      ≡ pure v
checked_end bits v h =
    let inside = InRange-test bits v h in
    elim (Bool-cases (ltb bits 64)) [ inl e ↦ rw (e, inside) refl | inr e ↦ rw e refl ]

pub end_lem :
    (bits result shift : ℕ) (v : ℤ)
    → result < 2 ^ shift
    → shift ≤ 56
    → size v < 64
    → InRange bits (behind_bits result (2 ^ shift) v)
    → sleb_end bits (group v) (shift + 7) (result + group v * 2 ^ shift)
      ≡ pure (behind_bits result (2 ^ shift) v)
unfolding sleb_end
end_lem bits result shift v low wide small range =
    let test : ltb (shift + 7) 64 ≡ true = ground arith in
    rw (test, signed_end result shift v low wide small)
      (checked_end bits (behind_bits result (2 ^ shift) v) range)

-- The bits above a group, put back behind it.
pub behind_above :
    (result w : ℕ) (v : ℤ)
    → behind_bits (result + group v * w) (w * 128) (above v) ≡ behind_bits result w v
behind_above result w (pos n) =
    let whole : n / 128 * 128 + n % 128 ≡ n = omega arith in
    let times = ap (λ (t : ℕ). t * w) whole in
    let spread = sum_times (n / 128 * 128) (n % 128) w in
    let order : n / 128 * (w * 128) ≡ n / 128 * 128 * w = grind arith in ap pos (omega arith)
behind_above result w (negsuc n) =
    let whole : (n / 128 + 1) * 128 ≡ n + 1 + (127 - n % 128) = omega arith in
    let times = ap (λ (t : ℕ). t * w) whole in
    let spread = sum_times (n + 1) (127 - n % 128) w in
    let order : (n / 128 + 1) * (w * 128) ≡ (n / 128 + 1) * 128 * w = grind arith in
    ap negsuc (omega arith)

-- A number that is not at its last group leaves room for another one.
room_for_more : (bits shift n : ℕ) → 64 ≤ n → n * 2 ^ shift < 2 ^ (bits - 1) → shift + 7 < bits
room_for_more bits shift n more range = elim (dec_lt (shift + 7) bits) [
  | yes h ↦ h
  | no h ↦
      let power =
        pow-le-pow_right {n = 2} (omega arith) {i = bits - 1} {j = shift + 6} (omega arith) in
      let product : 64 * 2 ^ shift ≤ n * 2 ^ shift = mul-le-mul_right (2 ^ shift) more in
      absurd (omega (arith, pow-add shift 6))
]

pub more_room :
    (bits result shift : ℕ) (v : ℤ)
    → result < 2 ^ shift
    → 64 ≤ size v
    → InRange bits (behind_bits result (2 ^ shift) v)
    → shift + 7 < bits
more_room bits result shift (pos n) low more range = room_for_more bits shift n more (omega arith)
more_room bits result shift (negsuc n) low more range =
    let next : (n + 1) * 2 ^ shift ≡ n * 2 ^ shift + 2 ^ shift = grind arith in
    room_for_more bits shift n more (omega arith)

-- The byte at the shift 63, which has room for the sign alone.
pub top_group :
    (result : ℕ) (v : ℤ)
    → result < 2 ^ 63
    → InRange 64 (behind_bits result (2 ^ 63) v)
    → (size v ≡ 0)
      × (to_int64 (bit_or result (bit_and (group v) 1 * 2 ^ 63)) ≡ behind_bits result (2 ^ 63) v)
unfolding to_int64
top_group result (pos n) low range =
    let none_left : n ≡ 0 = omega arith in
    let joined : bit_or result 0 ≡ result = bit_or_fields 63 result 0 low ∙ omega arith in
    let test : ltb result (2 ^ 63) ≡ true = ground arith in
    (none_left, rw (none_left, joined, test) (ap pos (omega arith)))
top_group result (negsuc n) low range =
    let none_left : n ≡ 0 = omega arith in
    let joined : bit_or result (2 ^ 63) ≡ result + 2 ^ 63 = bit_or_fields 63 result 1 low in
    let test : ltb (result + 2 ^ 63) (2 ^ 63) ≡ false = ground arith in
    (none_left, rw (none_left, joined, test) (ap negsuc (omega arith)))
