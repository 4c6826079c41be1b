-- ===== src/Prelude/TestBit.antt =====
-- Single bits of a number.
use Prim.Native.Nat.{ℕ, zero, suc, ◌*◌, ◌/◌, ◌%◌, ◌^◌, ◌<◌, max, bit_or}
use mathlib.Core.Path.{◌≡◌, refl, ◌∙◌}
use native.Mathlib.Nat.{pow-suc, div-div-eq-div-mul, zero-div}
use native.Mathlib.Omega.{arith}
use crabcraft.Prelude.Bits.{bit_or_step}
use crabcraft.Prelude.Tests.{◌==◌, if◌then◌else◌}

-- The bit at `t`, as 0 or 1.
abbrev pub bit : ℕ → ℕ → ℕ
bit x t = x / 2 ^ t % 2

halved : (x t : ℕ) → bit x (suc t) ≡ bit (x / 2) t
halved x t =
    let weight : 2 ^ suc t ≡ 2 * 2 ^ t = omega (arith, pow-suc 2 t) in
    rw (weight, ← div-div-eq-div-mul x 2 (2 ^ t))

pub bit-bit_or : (t x y : ℕ) → bit (bit_or x y) t ≡ max (bit x t) (bit y t)
bit-bit_or zero x y = omega (arith, bit_or_step x y)
bit-bit_or (suc t) x y =
    let half : bit_or x y / 2 ≡ bit_or (x / 2) (y / 2) = omega (arith, bit_or_step x y) in
    rw (halved (bit_or x y) t, halved x t, halved y t, half) (bit-bit_or t (x / 2) (y / 2))

-- The powers of two have one bit.
pub bit-power : (s t : ℕ) → bit (2 ^ s) t ≡ (if s == t then 1 else 0)
bit-power zero zero = refl
bit-power zero (suc t) =
    let none_left = zero-div (2 ^ t) in rw (halved 1 t, none_left) (ground arith)
bit-power (suc s) zero = ground (arith, pow-suc 2 s)
bit-power (suc s) (suc t) =
    let half : 2 ^ suc s / 2 ≡ 2 ^ s = omega (arith, pow-suc 2 s) in
    rw (halved (2 ^ suc s) t, half) (bit-power s t ∙ ground arith)

pub bit_or_below : (t x y : ℕ) → x < 2 ^ t → y < 2 ^ t → bit_or x y < 2 ^ t
bit_or_below zero x y hx hy =
    let ex : x ≡ 0 = omega arith in let ey : y ≡ 0 = omega arith in rw (ex, ey) (omega arith)
bit_or_below (suc t) x y hx hy =
    let weight = pow-suc 2 t in
    omega (arith, bit_or_step x y, bit_or_below t (x / 2) (y / 2) (omega arith) (omega arith))
