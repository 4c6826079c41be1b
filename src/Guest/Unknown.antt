-- ===== src/Guest/Unknown.antt =====
-- The message of `crab_invoke` in guest/sqlite-c/main.c for a function that it does not know.
use crabcraft.Prelude.{
  ℕ, zero, suc, ◌^◌, ◌≤◌, ◌<◌, ◌≡◌, refl, arith, false, [], ◌∷◌, ◌++◌, Bytes, codes, length, take,
  take_all, ltb, ◌==◌, if◌then◌else◌, Bool-cases, inl, inr,
}
use crabcraft.Guest.{c_string, precision, is_negative, unknown_text, unknown_function}

-- Of a text, what stands before its first NUL, and `n` bytes of that at most.
unfoldable pub shown : ℕ → Bytes → Bytes
shown zero s = []
shown (suc n) [] = []
shown (suc n) (c ∷ s) = if c == 0 then [] else c ∷ shown n s

c_string-take : (n : ℕ) (s : Bytes) → c_string (take n s) ≡ shown n s
unfolding c_string shown
c_string-take zero s = refl
c_string-take (suc n) [] = refl
c_string-take (suc n) (c ∷ s) = rw (c_string-take n s) refl

shown-take_short : (n m : ℕ) (s : Bytes) → n ≤ m → shown m (take n s) ≡ shown n s
unfolding shown
shown-take_short zero zero s h = refl
shown-take_short zero (suc m) s h = refl
shown-take_short (suc n) zero s h = absurd (omega arith)
shown-take_short (suc n) (suc m) [] h = refl
shown-take_short (suc n) (suc m) (c ∷ s) h = rw (shown-take_short n m s (omega arith)) refl

shown-take_long : (n m : ℕ) (s : Bytes) → m ≤ n → shown m (take n s) ≡ shown m s
unfolding shown
shown-take_long n zero s h = refl
shown-take_long zero (suc m) s h = absurd (omega arith)
shown-take_long (suc n) (suc m) [] h = refl
shown-take_long (suc n) (suc m) (c ∷ s) h = rw (shown-take_long n m s (omega arith)) refl

pub length-shown : (n : ℕ) (s : Bytes) → length (shown n s) ≤ n
unfolding shown
length-shown zero s = omega arith
length-shown (suc n) [] = omega arith
length-shown (suc n) (c ∷ s) = ground (arith, length-shown n s)

-- The message for the name `name`.
abbrev pub unknown : Bytes → Bytes
unknown name = codes "unknown function: " ++ shown 200 name

printed :
    (name : Bytes) (n : ℕ)
    → n < 2 ^ 31
    → unknown_text name n ≡ codes "unknown function: " ++ shown 200 (take n name)
unfolding unknown_text precision
printed name n h =
    let sign : is_negative n ≡ false = ground arith in
    elim (Bool-cases (ltb n 200)) [
      | inl few ↦
          rw (sign, few, sign, c_string-take n name, shown-take_short n 200 name (ground arith))
            refl
      | inr many ↦
          rw (sign, many, c_string-take 200 name, shown-take_long n 200 name (ground arith)) refl
    ]

pub unknown_function_lem :
    (name : Bytes) (n : ℕ) → n < 2 ^ 31 → unknown_function name n ≡ unknown (take n name)
unfolding unknown_function
unknown_function_lem name n h =
    rw (printed name n h)
      (take_all 255 (unknown (take n name)) (omega (arith, length-shown 200 (take n name))))
