-- ===== src/Format/Decimal.antt =====
-- The formats %lld and %d of guest/sqlite-c/main.c against a reader of JSON integers.
use crabcraft.Prelude.{
  ℕ, zero, suc, ◌+◌, ◌-◌, ◌*◌, ◌/◌, ◌%◌, ◌^◌, ◌≤◌, ◌<◌, ◌≡◌, refl, ◌∙◌, ap, arith, Bool, true,
  false, ◌&&◌, Option, none, some, [], ◌∷◌, ◌++◌, append_assoc, Bytes, length, length-append, leb,
  ◌==◌, if◌then◌else◌,
}
use crabcraft.Format.{ℤ, pos, negsuc, digits, decimal}
use native.Mathlib.Nat.{pow-suc}
use native.Mathlib.Decide.{dec_lt}
use mathlib.Core.Option

abbrev is_digit : ℕ → Bool
is_digit c = leb b'0' c && leb c b'9'

-- The number that the digits at the start of a text spell behind `acc`, and what follows them.
unfoldable take_digits : ℕ → Bytes → ℕ × Bytes
take_digits acc [] = (acc, [])
take_digits acc (c ∷ s) =
    let later = take_digits (acc * 10 + (c - b'0')) s in if is_digit c then later else (acc, c ∷ s)

-- JSON's unsigned integers have no leading zero.
unfoldable parse_nat : Bytes → Option (ℕ × Bytes)
parse_nat [] = none
parse_nat (c ∷ s) =
    if c == b'0' then some (0, s) else if is_digit c then some (take_digits 0 (c ∷ s)) else none

abbrev negate : ℕ → ℤ
negate zero = pos 0
negate (suc n) = negsuc n

unfoldable parse_int : Bytes → Option (ℤ × Bytes)
parse_int [] = none
parse_int (c ∷ s) =
    if c == b'-'
    then Option.map (λ (n, rest). (negate n, rest)) (parse_nat s)
    else Option.map (λ (n, rest). (pos n, rest)) (parse_nat (c ∷ s))

abbrev NoDigit : Bytes → Type 0
NoDigit [] = Unit {0}
NoDigit (c ∷ s) = is_digit c ≡ false

digits_last : (rounds n : ℕ) → n < 10 → digits (suc rounds) n ≡ (b'0' + n) ∷ []
unfolding digits
digits_last rounds n h = ground arith

digits_more :
    (rounds n : ℕ)
    → 10 ≤ n
    → digits (suc rounds) n ≡ digits rounds (n / 10) ++ ((b'0' + n % 10) ∷ [])
unfolding digits
digits_more rounds n h = ground arith

take_digit :
    (acc d : ℕ) (s : Bytes)
    → d < 10
    → take_digits acc ((b'0' + d) ∷ s) ≡ take_digits (acc * 10 + d) s
unfolding take_digits
take_digit acc d s h =
    let test : is_digit (b'0' + d) ≡ true = ground arith in
    let value : b'0' + d - b'0' ≡ d = omega arith in rw (test, value)

take_digits-digits :
    (rounds n : ℕ) (rest : Bytes)
    → n < 10 ^ suc rounds
    → take_digits 0 (digits (suc rounds) n ++ rest) ≡ take_digits n rest
take_digits-digits zero n rest h =
    rw (digits_last 0 n (omega arith))
      (take_digit 0 n rest (omega arith) ∙ ap (λ (k : ℕ). take_digits k rest) (omega arith))
take_digits-digits (suc rounds) n rest h = elim (dec_lt n 10) [
  | yes last ↦
      rw (digits_last (suc rounds) n last)
        (take_digit 0 n rest last ∙ ap (λ (k : ℕ). take_digits k rest) (omega arith))
  | no more ↦
      let small : n / 10 < 10 ^ suc rounds = omega (arith, pow-suc 10 (suc rounds)) in
      rw
        (
          digits_more (suc rounds) n (omega arith),
          append_assoc (digits (suc rounds) (n / 10)) ((b'0' + n % 10) ∷ []) rest,
          take_digits-digits rounds (n / 10) ((b'0' + n % 10) ∷ rest) small,
          take_digit (n / 10) (n % 10) rest (omega arith),
        )
        (ap (λ (k : ℕ). take_digits k rest) (omega arith))
]

take_digits_stop : (n : ℕ) (rest : Bytes) → NoDigit rest → take_digits n rest ≡ (n, rest)
unfolding take_digits
take_digits_stop n [] h = refl
take_digits_stop n (c ∷ rest) h = rw h

-- The first digit of a positive number is not 0.
digits_head :
    (rounds n : ℕ)
    → 0 < n
    → n < 10 ^ suc rounds
    → (c : ℕ) × (s : Bytes) × (digits (suc rounds) n ≡ c ∷ s) × (b'1' ≤ c) × (c ≤ b'9')
digits_head zero n h small = (b'0' + n, [], digits_last 0 n (omega arith), omega arith, omega arith)
digits_head (suc rounds) n h small = elim (dec_lt n 10) [
  | yes last ↦ (b'0' + n, [], digits_last (suc rounds) n last, omega arith, omega arith)
  | no more ↦
      let (c, s, e, low, high) =
        digits_head rounds (n / 10) (omega arith) (omega (arith, pow-suc 10 (suc rounds))) in
      (
        c,
        s ++ ((b'0' + n % 10) ∷ []),
        digits_more (suc rounds) n (omega arith)
            ∙ ap (λ (t : Bytes). t ++ ((b'0' + n % 10) ∷ [])) e,
        low,
        high,
      )
]

parse_nat_head :
    (c : ℕ) (s : Bytes) → b'1' ≤ c → c ≤ b'9' → parse_nat (c ∷ s) ≡ some (take_digits 0 (c ∷ s))
unfolding parse_nat
parse_nat_head c s low high =
    let nonzero : (c == b'0') ≡ false = ground arith in
    let digit : is_digit c ≡ true = ground arith in rw (nonzero, digit)

parse_nat-digits :
    (n : ℕ) (rest : Bytes)
    → n < 10 ^ 20
    → NoDigit rest
    → parse_nat (digits 20 n ++ rest) ≡ some (n, rest)
parse_nat-digits zero rest h stop = rw (digits_last 19 0 (omega arith)) (unfold parse_nat in refl)
parse_nat-digits (suc n) rest h stop =
    let (c, s, e, low, high) = digits_head 19 (suc n) (omega arith) h in
    let read = take_digits-digits 19 (suc n) rest h ∙ take_digits_stop (suc n) rest stop in
    rw e (parse_nat_head c (s ++ rest) low high ∙ ap some (rw e at read))

parse_int_negative :
    (s : Bytes) {n : ℕ} {rest : Bytes}
    → parse_nat s ≡ some (n, rest)
    → parse_int (b'-' ∷ s) ≡ some (negate n, rest)
unfolding parse_int
parse_int_negative s e = rw e

parse_int_positive :
    (c : ℕ) (s : Bytes) {n : ℕ} {rest : Bytes}
    → b'0' ≤ c
    → parse_nat (c ∷ s) ≡ some (n, rest)
    → parse_int (c ∷ s) ≡ some (pos n, rest)
unfolding parse_int
parse_int_positive c s low e = let sign : (c == b'-') ≡ false = ground arith in rw (sign, e)

abbrev magnitude : ℤ → ℕ
magnitude (pos n) = n
magnitude (negsuc n) = suc n

-- An integer of up to 64 bits is written in the grammar of JSON, with no leading zero, and is read
-- back, whatever follows that is no digit.
parse_int-decimal :
    (z : ℤ) (rest : Bytes)
    → magnitude z < 10 ^ 20
    → NoDigit rest
    → parse_int (decimal z ++ rest) ≡ some (z, rest)
unfolding decimal
parse_int-decimal (pos zero) rest h stop =
    rw (digits_last 19 0 (omega arith))
      (parse_int_positive b'0' rest (omega arith) (unfold parse_nat in refl))
parse_int-decimal (pos (suc n)) rest h stop =
    let (c, s, e, low, high) = digits_head 19 (suc n) (omega arith) h in
    let read = parse_nat-digits (suc n) rest h stop in
    rw e (parse_int_positive c (s ++ rest) (omega arith) (rw e at read))
parse_int-decimal (negsuc n) rest h stop =
    parse_int_negative (digits 20 (suc n) ++ rest) (parse_nat-digits (suc n) rest h stop)

length-digits : (rounds n : ℕ) → length (digits rounds n) ≤ rounds
unfolding digits
length-digits zero n = omega arith
length-digits (suc rounds) n = ground (
  arith,
  length-digits rounds (n / 10),
  length-append (digits rounds (n / 10)) ((b'0' + n % 10) ∷ []),
)

-- A number of 64 bits takes at most 21 characters.
pub length-decimal : (z : ℤ) → length (decimal z) ≤ 21
unfolding decimal
length-decimal (pos n) = omega (arith, length-digits 20 n)
length-decimal (negsuc n) = omega (arith, length-digits 20 (suc n))
