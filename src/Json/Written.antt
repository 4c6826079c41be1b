-- ===== src/Json/Written.antt =====
-- The writers of JSON text in guest/sqlite-c/main.c against the readers.
use crabcraft.Prelude.{◌+◌, ◌≤◌, ◌≡◌, some, ◌++◌, Bytes, IsByte, All, length, done}
use crabcraft.Buffer.{Allocator, Buf}
use crabcraft.Buffer.Valid.{limit, IsValid, contents, Plentiful}
use crabcraft.Json.{json_string, put_hex}
use crabcraft.Json.Escape.{quoted, hex_all, json_string-Appends, put_hex-Appends}
use crabcraft.Json.Reader.{parse_string, parse_string-quoted, IsPrintable, quoted-IsPrintable}
use crabcraft.Json.Hex.{read_hex, read_hex-hex_all}

module _ (heap : Allocator) (b : Buf) (serves : Plentiful heap) (valid : IsValid b) where
  -- To a valid buffer with room, `json_string` appends a text without control characters that a JSON
  -- reader takes for the very bytes it was given, and for no more, whatever comes behind it.
  pub json_string_read_back :
      (s rest : Bytes)
      → length (contents b) + length (quoted s) ≤ limit
      → (b' : Buf) × (text : Bytes) × (json_string heap b s ≡ done b')
        × IsValid b'
        × (contents b' ≡ contents b ++ text)
        × (parse_string (text ++ rest) ≡ some (s, rest))
        × All IsPrintable text
  json_string_read_back s rest room =
      let (b', ran, v, held) = (json_string-Appends heap serves s).run b valid room in
      (b', quoted s, ran, v, held, parse_string-quoted s rest, quoted-IsPrintable s)

  -- To a valid buffer with room, the loop over a blob appends hex digits that spell its bytes.
  pub put_hex_read_back :
      (s : Bytes)
      → All IsByte s
      → length (contents b) + length (hex_all s) ≤ limit
      → (b' : Buf) × (text : Bytes) × (put_hex heap b s ≡ done b')
        × IsValid b'
        × (contents b' ≡ contents b ++ text)
        × (read_hex text ≡ some s)
  put_hex_read_back s bytes room =
      let (b', ran, v, held) = (put_hex-Appends heap serves s).run b valid room in
      (b', hex_all s, ran, v, held, read_hex-hex_all s bytes)
