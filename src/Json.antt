-- ===== src/Json.antt =====
-- `json_string` of guest/sqlite-c/main.c, and the rendering of a blob as hex digits.
pub mod Escape
pub mod Written
pub mod Reader
pub mod Hex
use crabcraft.Prelude.{
  ℕ, List, [], ◌∷◌, ◌++◌, Bytes, codes, ltb, ◌==◌, if◌then◌else◌, Outcome, done, ◌>>=◌,
}
use crabcraft.Buffer.{Allocator, Buf, bputc, bputs, bputf}
use crabcraft.Format.{hex2, hex4}

module _ (heap : Allocator) where
  -- The `switch` on one byte.
  unfoldable pub put_char : Buf → ℕ → Outcome Buf
  put_char b c =
      if c == b'"'
      then bputs heap b (codes "\\\"")
      else if c == b'\\'
      then bputs heap b (codes "\\\\")
      else if c == b'\n'
      then bputs heap b (codes "\\n")
      else if c == b'\r'
      then bputs heap b (codes "\\r")
      else if c == b'\t'
      then bputs heap b (codes "\\t")
      else if ltb c 0x20
      then bputf heap b (codes "\\u" ++ hex4 c)
      else bputc heap b c

  unfoldable pub put_chars : Buf → Bytes → Outcome Buf
  put_chars b [] = done b
  put_chars b (c ∷ s) = do b' ← put_char b c; put_chars b' s

  unfoldable pub json_string : Buf → Bytes → Outcome Buf
  json_string b s = do b₁ ← bputc heap b b'"'; b₂ ← put_chars b₁ s; bputc heap b₂ b'"'

  -- `for (int j = 0; j < n; j++) bputf(out, "%02x", p[j]);`
  unfoldable pub put_hex : Buf → Bytes → Outcome Buf
  put_hex b [] = done b
  put_hex b (c ∷ s) = do b' ← bputf heap b (hex2 c); put_hex b' s
