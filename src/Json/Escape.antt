-- ===== src/Json/Escape.antt =====
-- `json_string` of guest/sqlite-c/main.c: the escaped form of a byte, as a list.
use crabcraft.Prelude.{ℕ, ◌≤◌, arith, [], ◌∷◌, ◌++◌, Bytes, codes, length, ltb, ◌==◌, if◌then◌else◌}
use crabcraft.Buffer.{Allocator}
use crabcraft.Buffer.Valid.{Plentiful}
use crabcraft.Buffer.Appends.{
  Appends, Appends-done, Appends-if, Appends-then, bputc-Appends, bputs-Appends, bputf-Appends,
}
use crabcraft.Format.{hex2, hex4}
use crabcraft.Json.{put_char, put_chars, json_string, put_hex}

unfoldable pub escape : ℕ → Bytes
escape c =
    if c == b'"'
    then codes "\\\""
    else if c == b'\\'
    then codes "\\\\"
    else if c == b'\n'
    then codes "\\n"
    else if c == b'\r'
    then codes "\\r"
    else if c == b'\t'
    then codes "\\t"
    else if ltb c 0x20
    then codes "\\u" ++ hex4 c
    else c ∷ []

unfoldable pub escape_all : Bytes → Bytes
escape_all [] = []
escape_all (c ∷ s) = escape c ++ escape_all s

unfoldable pub quoted : Bytes → Bytes
quoted s = b'"' ∷ (escape_all s ++ (b'"' ∷ []))

module _ (heap : Allocator) (serves : Plentiful heap) where
  put_char-Appends : (c : ℕ) → Appends (λ b. put_char heap b c) (escape c)
  unfolding put_char escape
  put_char-Appends c = Appends-if (c == b'"') (bputs-Appends heap serves (codes "\\\"")) (
      Appends-if (c == b'\\') (bputs-Appends heap serves (codes "\\\\")) (
        Appends-if (c == b'\n') (bputs-Appends heap serves (codes "\\n")) (
          Appends-if (c == b'\r') (bputs-Appends heap serves (codes "\\r")) (
            Appends-if (c == b'\t') (bputs-Appends heap serves (codes "\\t")) (
              Appends-if (ltb c 0x20) (bputf-Appends heap serves (codes "\\u" ++ hex4 c) (short c))
                (bputc-Appends heap serves c))))))
    where
      short : (c : ℕ) → length (codes "\\u" ++ hex4 c) ≤ 63
      short c = unfold hex4 hex2 in omega arith

  put_chars-Appends : (s : Bytes) → Appends (λ b. put_chars heap b s) (escape_all s)
  unfolding put_chars escape_all
  put_chars-Appends [] = Appends-done
  put_chars-Appends (c ∷ s) = Appends-then (put_char-Appends c) (put_chars-Appends s)

  -- `json_string` appends the quoted form of any bytes.
  pub json_string-Appends : (s : Bytes) → Appends (λ b. json_string heap b s) (quoted s)
  unfolding json_string quoted
  json_string-Appends s =
      Appends-then (bputc-Appends heap serves b'"')
        (Appends-then (put_chars-Appends s) (bputc-Appends heap serves b'"'))

unfoldable pub hex_all : Bytes → Bytes
hex_all [] = []
hex_all (c ∷ s) = hex2 c ++ hex_all s

pub put_hex-Appends :
    (heap : Allocator) → Plentiful heap → (s : Bytes) → Appends (λ b. put_hex heap b s) (hex_all s)
unfolding put_hex hex_all
put_hex-Appends heap serves [] = Appends-done
put_hex-Appends heap serves (c ∷ s) =
    Appends-then (bputf-Appends heap serves (hex2 c) (short c)) (put_hex-Appends heap serves s)
  where
    short : (c : ℕ) → length (hex2 c) ≤ 63
    short c = unfold hex2 in omega arith
