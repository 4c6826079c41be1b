-- ===== src/Format.antt =====
-- The formats that guest/sqlite-c/main.c hands to `vsnprintf` and `snprintf`: %lld, %d, %02x, %04x.
pub mod Decimal
use crabcraft.Prelude.{
  ℕ, zero, suc, ◌+◌, ◌-◌, ◌/◌, ◌%◌, List, [], ◌∷◌, ◌++◌, Bytes, ltb, if◌then◌else◌,
}

-- `negsuc n` is -(n + 1).
pub data ℤ : Type 0 where
  pos : ℕ → ℤ
  negsuc : ℕ → ℤ

-- The decimal digits of `n`, at most `rounds` of them.
unfoldable pub digits : ℕ → ℕ → Bytes
digits zero n = []
digits (suc rounds) n =
    let front = digits rounds (n / 10) in
    if ltb n 10 then (b'0' + n) ∷ [] else front ++ ((b'0' + n % 10) ∷ [])

-- %lld and %d: 20 digits are enough for 64 bits.
unfoldable pub decimal : ℤ → Bytes
decimal (pos n) = digits 20 n
decimal (negsuc n) = b'-' ∷ digits 20 (suc n)

unfoldable pub hex_digit : ℕ → ℕ
hex_digit d = if ltb d 10 then b'0' + d else b'a' + (d - 10)

-- %02x and %04x of a byte.
unfoldable pub hex2 : ℕ → Bytes
hex2 c = hex_digit (c / 16) ∷ hex_digit (c % 16) ∷ []

unfoldable pub hex4 : ℕ → Bytes
hex4 c = b'0' ∷ b'0' ∷ hex2 c
