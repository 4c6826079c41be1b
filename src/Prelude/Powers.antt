-- ===== src/Prelude/Powers.antt =====
-- Powers of two as weights of digits.
use Prim.Native.Nat.{ℕ, zero, suc, ◌+◌, ◌*◌, ◌/◌, ◌%◌, ◌^◌, ◌≤◌, ◌<◌}
use mathlib.Core.Path.{◌≡◌, sym, ap, ◌∙◌}
use mathlib.Core.Bool.{not}
use native.Mathlib.Nat.{
  pow-suc, one-le-pow, pow-le-pow_right, mul-le-mul_right, mod-eq_of_lt, le-div_iff_mul-le,
  mul_assoc,
}
use native.Mathlib.Omega.{arith}
use crabcraft.Prelude.Tests.{leb, ◌==◌}

pub pow-add : (a b : ℕ) → 2 ^ (a + b) ≡ 2 ^ a * 2 ^ b
pow-add a zero = let same : a + zero ≡ a = omega arith in rw same (omega arith)
pow-add a (suc b) =
    let same : a + suc b ≡ suc (a + b) = omega arith in
    rw same (
      pow-suc 2 (a + b)
      ∙ ap (λ (t : ℕ). t * 2) (pow-add a b)
      ∙ mul_assoc (2 ^ a) (2 ^ b) 2
      ∙ ap (λ (t : ℕ). 2 ^ a * t) (sym (pow-suc 2 b)))

-- A digit group that fits into the bits that are left is not shifted out of 64 bits.
pub shift_fits :
    (g room shift : ℕ) → g < 2 ^ room → shift + room ≤ 64 → g * 2 ^ shift % 2 ^ 64 ≡ g * 2 ^ shift
shift_fits g room shift h hw =
    let positive = one-le-pow shift 2 (omega arith) in
    let below : suc g * 2 ^ shift ≤ 2 ^ room * 2 ^ shift = mul-le-mul_right (2 ^ shift) h in
    let sum = pow-add room shift in
    let top : 2 ^ (room + shift) ≤ 2 ^ 64 =
      pow-le-pow_right {n = 2} (omega arith) {i = room + shift} {j = 64} (omega arith) in
    let split : suc g * 2 ^ shift ≡ g * 2 ^ shift + 2 ^ shift = grind arith in
    mod-eq_of_lt {n = g * 2 ^ shift} {m = 2 ^ 64} (omega arith)

-- Whether any bit stands at `room` or above.
pub shifted_out : (g room : ℕ) → not (g / 2 ^ room == 0) ≡ leb (2 ^ room) g
shifted_out g room =
    let positive = one-le-pow room 2 (omega arith) in
    let both = le-div_iff_mul-le {k = 2 ^ room} {x = 1} {y = g} positive in
    let there : 2 ^ room ≤ g → 1 ≤ g / 2 ^ room = λ h. both.1 (omega arith) in
    let back : 1 ≤ g / 2 ^ room → 2 ^ room ≤ g = λ h. let k = both.0 h in omega arith in
    ground (arith, there, back)
