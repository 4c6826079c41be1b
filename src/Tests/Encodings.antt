-- ===== src/Tests/Encodings.antt =====
-- The theorems on buffers, integers, JSON text and replies, at concrete inputs.
use crabcraft.Prelude.{
  ℕ, ◌+◌, ◌≤◌, ◌<◌, ◌≡◌, refl, arith, true, Option, some, [], ◌∷◌, ◌++◌, if◌then◌else◌, ◌^◌, ◌==◌,
  ◌%◌, Bytes, codes, length, done, fault, endless, All,
}
use crabcraft.Buffer.Memory.{length-fresh}
use crabcraft.Buffer.{size_mod, Buf, zeroed, fresh, bput, grow}
use crabcraft.Buffer.Valid.{limit, IsValid, IsCap, contents}
use crabcraft.Buffer.Grow.{grow_total, grow_endless}
use crabcraft.Buffer.Contents.{bput_lem, bput_endless}
use crabcraft.Buffer.Appends.{Writes, zeroed-IsValid}
use crabcraft.Uleb.{uleb_put, uleb_get32, get_loop, load}
use crabcraft.Uleb.Encode.{groups, encoding, uleb_put_lem}
use crabcraft.Uleb.Decode.{read_groups, Agrees, uleb_get32-read_groups}
use crabcraft.Uleb.RoundTrip.{uleb_get32-encoding, uleb_get32_bounds}
use crabcraft.Json.{json_string}
use crabcraft.Json.Escape.{quoted, escape, escape_all}
use crabcraft.Json.Reader.{parse_string, IsPrintable}
use crabcraft.Json.Written.{json_string_read_back}
use crabcraft.Reply.{reply_result}
use crabcraft.Reply.Answer.{Answers, ok, err, reply_result-Answers}
use crabcraft.Tests.Toy.{heap, heap-Plentiful}

-- A block of 256 bytes, four of them in use.
abbrev four : Buf
four = record {
  p = some (
      codes "crab"
      ++ codes
          "............................................................................................................................................................................................................................................................");
  len = 4;
  cap = 256;
}

four-IsValid : IsValid four
four-IsValid = (refl, omega arith, (23, refl, omega arith))

bput_example :
    (b' : Buf) × (bput heap four (codes "craft") ≡ done b')
    × IsValid b'
    × (contents b' ≡ contents four ++ codes "craft")
    × (b'.len ≡ four.len + length (codes "craft"))
bput_example = bput_lem heap four (codes "craft") heap-Plentiful four-IsValid (omega arith)

grow_example : (c : ℕ) × (grow 5 (2 ^ 28) (2 ^ 30) ≡ done c) × (2 ^ 30 ≤ c) × (2 ^ 28 ≤ c) × IsCap c
grow_example = grow_total 3 5 (2 ^ 28) (2 ^ 30) refl (omega arith) (omega arith) (omega arith)

grow_endless_example : grow 1000 256 (limit + 1) ≡ fault endless
grow_endless_example = grow_endless 1000 23 256 (limit + 1) refl (omega arith)

uleb_put_example : Writes (uleb_put heap four 300) (contents four ++ encoding 300)
uleb_put_example =
    uleb_put_lem heap four 300 heap-Plentiful four-IsValid (omega arith)
      (unfold encoding groups in omega arith)

uleb_get32_example :
    (got : ℕ × Option ℕ) × (uleb_get32
        (codes "x" ++ (0xac ∷ 0x02 ∷ 9 ∷ []))
        (length (codes "x" ++ (0xac ∷ 0x02 ∷ 9 ∷ [])))
        (length (codes "x"))
      ≡ done got)
    × Agrees (codes "x" ++ (0xac ∷ 0x02 ∷ 9 ∷ [])) got (read_groups 5 (0xac ∷ 0x02 ∷ 9 ∷ []))
uleb_get32_example =
    uleb_get32-read_groups (codes "x") (0xac ∷ 0x02 ∷ 9 ∷ []) (omega arith) (omega arith)

uleb_round_trip_example :
    uleb_get32
      (codes "x" ++ (encoding 300 ++ codes "yz"))
      (length (codes "x" ++ (encoding 300 ++ codes "yz")))
      (length (codes "x"))
    ≡ done (length (codes "x") + length (encoding 300), some 300)
uleb_round_trip_example =
    uleb_get32-encoding (codes "x") (codes "yz") 300 (omega arith) (omega arith)
      (unfold encoding groups in omega arith)

uleb_bounds_example :
    (300 < 2 ^ 32)
    × (length (codes "x") < 3)
    × (3 ≤ length (codes "x") + 5)
    × (3 ≤ length (codes "x" ++ (0xac ∷ 0x02 ∷ 9 ∷ [])))
uleb_bounds_example =
    uleb_get32_bounds (codes "x") (0xac ∷ 0x02 ∷ 9 ∷ []) 3 300 (omega arith) (omega arith)
      (unfold uleb_get32 get_loop load in refl)

json_string_example :
    (b' : Buf) × (text : Bytes) × (json_string heap four (codes "a\"b") ≡ done b')
    × IsValid b'
    × (contents b' ≡ contents four ++ text)
    × (parse_string (text ++ codes ",") ≡ some (codes "a\"b", codes ","))
    × All IsPrintable text
json_string_example =
    json_string_read_back heap four heap-Plentiful four-IsValid (codes "a\"b") (codes ",")
      (unfold quoted escape_all escape in omega arith)

reply_result_example :
    Answers
      (reply_result heap four true (codes "no"))
      (if true then err (codes "no") else ok (codes "no"))
reply_result_example =
    reply_result-Answers heap four heap-Plentiful four-IsValid true (codes "no") (omega arith)

-- One byte more than the limit.
abbrev too_many : Bytes
too_many = fresh heap 0 (2 ^ 31 + 1)

bput_endless_example :
    ((fuel : ℕ)
      → grow fuel
          (if zeroed.cap == 0 then 256 else zeroed.cap)
          ((zeroed.len + length too_many) % size_mod)
        ≡ fault endless)
    × (bput heap zeroed too_many ≡ fault endless)
bput_endless_example =
    bput_endless heap zeroed too_many zeroed-IsValid
      (omega (arith, length-fresh heap 0 (2 ^ 31 + 1)))
      (omega (arith, length-fresh heap 0 (2 ^ 31 + 1)))
