-- ===== src/Json/Hex.antt =====
-- A reader of hex digits, independent of the writer.
use crabcraft.Prelude.{
  ℕ, ◌+◌, ◌*◌, ◌/◌, ◌%◌, ◌≡◌, refl, ◌∙◌, ap, arith, Option, none, some, [], ◌∷◌, Bytes, IsByte, All,
}
use crabcraft.Format.{hex_digit, hex2}
use crabcraft.Json.Escape.{hex_all}
use crabcraft.Json.Reader.{hex_value, hex_value-hex_digit}
use mathlib.Core.Option

-- The bytes that pairs of hex digits spell.
unfoldable pub read_hex : Bytes → Option Bytes
read_hex [] = some []
read_hex (c ∷ []) = none
read_hex (c ∷ d ∷ s) =
    let later = read_hex s in
    elim (hex_value c) [
      | none ↦ none
      | some x ↦ elim (hex_value d) [
        | none ↦ none
        | some y ↦ Option.map (λ t. (x * 16 + y) ∷ t) later
      ]
    ]

read_hex_pair :
    (c d x y : ℕ) (s : Bytes) {t : Bytes}
    → hex_value c ≡ some x
    → hex_value d ≡ some y
    → read_hex s ≡ some t
    → read_hex (c ∷ d ∷ s) ≡ some ((x * 16 + y) ∷ t)
unfolding read_hex
read_hex_pair c d x y s hc hd hs = rw (hc, hd, hs, read_hex)

-- A blob can be read back from its hex digits.
pub read_hex-hex_all : (s : Bytes) → All IsByte s → read_hex (hex_all s) ≡ some s
unfolding hex_all hex2
read_hex-hex_all [] h = unfold read_hex in refl
read_hex-hex_all (c ∷ s) (hc, hs) =
    let high = hex_value-hex_digit (c / 16) (omega arith) in
    let low = hex_value-hex_digit (c % 16) (omega arith) in
    read_hex_pair (hex_digit (c / 16)) (hex_digit (c % 16)) (c / 16) (c % 16) (hex_all s) high low
      (read_hex-hex_all s hs)
    ∙ ap (λ (k : ℕ). some (k ∷ s)) (omega arith)
