-- ===== src/Cpp/Utf8/Prefix.antt =====
-- `Utf8Valid` of tools/crabgen/templates/cpp/crab.cpp reads only the `n` bytes that it is given.
use Prim.Native.Nat.{bit_and, bit_or}
use crabcraft.Prelude.{
  ℕ, zero, suc, ◌+◌, ◌*◌, ◌%◌, ◌^◌, ◌-◌, ◌≤◌, ◌<◌, ◌≡◌, refl, arith, false, Bool, Option, none,
  some, [], ◌∷◌, Bytes, take, ltb, if◌then◌else◌, Bool-cases, inl, inr, Outcome, done, >>=-cong,
}
use crabcraft.Uleb.{load}
use crabcraft.Cpp.Utf8.{Lead, lead, continuation, multibyte, utf8_rounds, utf8_valid}

pub load-take_within : (n : ℕ) (p : Bytes) (k : ℕ) → k < n → load (take n p) k ≡ load p k
unfolding load
load-take_within zero p k h = absurd (omega arith)
load-take_within (suc n) [] k h = refl
load-take_within (suc n) (c ∷ p) zero h = refl
load-take_within (suc n) (c ∷ p) (suc k) h = load-take_within n p k (omega arith)

continuation-take :
    (n : ℕ) (p : Bytes) (rounds k cp : ℕ)
    → k + rounds ≤ n
    → continuation (take n p) rounds k cp ≡ continuation p rounds k cp
unfolding continuation
continuation-take n p zero k cp h = refl
continuation-take n p (suc rounds) k cp h = rw (load-take_within n p k (omega arith)) (
    >>=-cong (load p k) _ _ (λ cc. rw (
      continuation-take n p rounds (k + 1) (bit_or (cp * 2 ^ 6 % 2 ^ 32) (bit_and cc 0x3f))
        (omega arith))))

multibyte-take :
    (n : ℕ) (p : Bytes) (i : ℕ) (l : Option Lead)
    → i < n
    → multibyte (take n p) n i l ≡ multibyte p n i l
unfolding multibyte
multibyte-take n p i none h = refl
multibyte-take n p i (some l) h = elim (Bool-cases (ltb n (i + l.len))) [
  | inl e ↦ rw e
  | inr e ↦ rw (e, continuation-take n p (l.len - 1) (i + 1) l.cp (ground arith))
]

next_round :
    (next : Option ℕ) (f g : ℕ → Outcome Bool)
    → ((i : ℕ) → f i ≡ g i)
    → (elim next [ none ↦ done false | some i ↦ f i ])
      ≡ (elim next [ none ↦ done false | some i ↦ g i ])
next_round none f g same = refl
next_round (some i) f g same = same i

utf8_rounds-take :
    (n : ℕ) (p : Bytes) (rounds i : ℕ)
    → utf8_rounds (take n p) n rounds i ≡ utf8_rounds p n rounds i
unfolding utf8_rounds
utf8_rounds-take n p zero i = refl
utf8_rounds-take n p (suc rounds) i = elim (Bool-cases (ltb i n)) [
  | inl e ↦
      rw (e, load-take_within n p i (ground arith))
        (>>=-cong (load p i) _ _ (λ c. rw (multibyte-take n p i (lead c) (ground arith)) (
          >>=-cong (if ltb c 0x80 then done (some (i + 1)) else multibyte p n i (lead c)) _ _
            (λ next. next_round next _ _ (λ i'. utf8_rounds-take n p rounds i')))))
  | inr e ↦ rw e
]

pub utf8_valid-take : (n : ℕ) (p : Bytes) → utf8_valid (take n p) n ≡ utf8_valid p n
unfolding utf8_valid
utf8_valid-take n p = utf8_rounds-take n p (suc n) 0
