-- ===== src/Buffer/Grow.antt =====
-- The doubling loop of `bput` in guest/sqlite-c/main.c.
use crabcraft.Prelude.{
  ℕ, zero, suc, ◌*◌, ◌%◌, ◌^◌, ◌≤◌, ◌<◌, true, ◌≡◌, refl, ap, ◌∙◌, arith, ltb, done, fault, endless,
}
use crabcraft.Buffer.{size_mod, grow}
use native.Mathlib.Nat.{pow-suc}
use native.Mathlib.Decide.{dec_lt}
use crabcraft.Buffer.Valid.{limit, IsCap}

double : (cap j : ℕ) → cap * 2 ^ suc j ≡ limit → (cap * 2) * 2 ^ j ≡ limit
double cap j e = omega (arith, ap (λ (t : ℕ). cap * t) (pow-suc 2 j))

pub cap-le : (cap j : ℕ) → cap * 2 ^ j ≡ limit → cap ≤ limit
cap-le cap zero e = omega arith
cap-le cap (suc j) e = omega (arith, cap-le (cap * 2) j (double cap j e))

pub cap-pos : (cap j : ℕ) → cap * 2 ^ j ≡ limit → 0 < cap
cap-pos zero j e = omega arith
cap-pos (suc c) j e = omega arith

-- One doubling that does not wrap around.
grow_more :
    (fuel cap need : ℕ)
    → cap < need
    → cap * 2 ≤ limit
    → grow (suc fuel) cap need ≡ grow fuel (cap * 2) need
unfolding grow
grow_more fuel cap need h fits =
    let exact : cap * 2 % size_mod ≡ cap * 2 = omega arith in rw exact (ground arith)

grow_enough : (fuel cap need : ℕ) → need ≤ cap → grow (suc fuel) cap need ≡ done cap
unfolding grow
grow_enough fuel cap need h = ground arith

-- The doubling loop ends for every need up to the limit, at a capacity that meets it.
pub grow_total :
    (j fuel cap need : ℕ)
    → cap * 2 ^ j ≡ limit
    → j ≤ 23
    → j < fuel
    → need ≤ limit
    → (c : ℕ) × (grow fuel cap need ≡ done c) × (need ≤ c) × (cap ≤ c) × IsCap c
grow_total j zero cap need e hj hf hn = absurd (omega arith)
grow_total zero (suc fuel) cap need e hj hf hn =
    (cap, grow_enough fuel cap need (omega arith), omega arith, omega arith, (0, e, hj))
grow_total (suc j) (suc fuel) cap need e hj hf hn = elim (dec_lt cap need) [
  | yes more ↦
      let e' = double cap j e in
      let (c, run, meets, grows, fits) =
        grow_total j fuel (cap * 2) need e' (omega arith) (omega arith) hn in
      (c, grow_more fuel cap need more (cap-le (cap * 2) j e') ∙ run, meets, omega arith, fits)
  | no enough ↦
      (cap, grow_enough fuel cap need (omega arith), omega arith, omega arith, (suc j, e, hj))
]

-- A capacity of 0 is doubled for ever.
grow_zero : (fuel need : ℕ) → 0 < need → grow fuel 0 need ≡ fault endless
unfolding grow
grow_zero zero need h = refl
grow_zero (suc fuel) need h =
    let test : ltb 0 need ≡ true = ground arith in rw (test, grow_zero fuel need h)

grow_wrap :
    (fuel cap need : ℕ)
    → cap < need
    → grow (suc fuel) cap need ≡ grow fuel (cap * 2 % size_mod) need
unfolding grow
grow_wrap fuel cap need h = ground arith

-- However many rounds it is given, the doubling loop does not end for a need above the limit: the
-- capacity wraps around to 0.
pub grow_endless :
    (fuel j cap need : ℕ) → cap * 2 ^ j ≡ limit → limit < need → grow fuel cap need ≡ fault endless
grow_endless zero j cap need e h = unfold grow in refl
grow_endless (suc fuel) zero cap need e h =
    let wrapped : cap * 2 % size_mod ≡ 0 = omega arith in
    grow_wrap fuel cap need (omega arith) ∙ rw wrapped (grow_zero fuel need (omega arith))
grow_endless (suc fuel) (suc j) cap need e h =
    let e' = double cap j e in
    let small = cap-le (cap * 2) j e' in
    grow_more fuel cap need (omega arith) small ∙ grow_endless fuel j (cap * 2) need e' h
