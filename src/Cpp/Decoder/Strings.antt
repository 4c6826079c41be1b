-- ===== src/Cpp/Decoder/Strings.antt =====
-- The strings and the one-byte prefixes of the C++ runtime.
use crabcraft.Prelude.{
  ℕ, zero, suc, ◌<◌, ◌^◌, ◌≡◌, refl, ap, arith, Bool, true, false, not, [], ◌∷◌, ◌++◌, append_assoc,
  Bytes, IsByte, All, codes, length, length-append, length-take, take, take_all, take-append_exact,
  drop-append, leb, ◌==◌, if◌then◌else◌, Bool-cases, inl, inr, done,
}
use crabcraft.Format.{pos, decimal}
use crabcraft.Uleb.Encode.{encoding}
use crabcraft.Reply.Frame.{wire_string}
use crabcraft.Cpp.Res.{ok}
use crabcraft.Cpp.Encode.{encode_string}
use crabcraft.Cpp.Encode.Uleb.{encode_uleb_lem}
use crabcraft.Cpp.Utf8.{utf8_valid}
use crabcraft.Cpp.Utf8.Whole.{IsUtf8, is_utf8, is_utf8_iff, utf8_valid-is_utf8}
use crabcraft.Cpp.Decoder.{Decoder, string, prefix_bit, bytes, pure, refuse}
use crabcraft.Cpp.Decoder.Reads.{
  IsDecoder, left, Meets, Parser, Reads, Reads-bind, Reads-bind_read, Reads-if, lift-Reads,
  pure-Reads, refuse-Reads, byte-Reads, bytes-Reads, next, split, and_then, returns, rejects,
}
use crabcraft.Cpp.Decoder.Uleb.{read_uleb, uleb-Reads}
use crabcraft.Cpp.Decoder.RoundTrip.{read_uleb-encoding}

-- A string behind its length, if it is UTF-8.
unfoldable pub read_string : Parser Bytes
read_string = and_then (read_uleb 5 32) (λ n.
    and_then (split n)
      (λ b. if is_utf8 b then returns b else rejects (codes "invalid utf-8 in string")))

take-IsByte : (n : ℕ) (s : Bytes) → All IsByte s → All IsByte (take n s)
take-IsByte zero s h = tt
take-IsByte (suc n) [] h = tt
take-IsByte (suc n) (c ∷ s) (hc, h) = (hc, take-IsByte n s h)

split_inv :
    (n : ℕ) (s : Bytes) {b t : Bytes}
    → All IsByte s
    → split n s ≡ ok (b, t)
    → All IsByte b × (length b ≡ n)
unfolding split
split_inv n s {b} bytes e = elim (Bool-cases (leb n (length s))) [
  | inl fits ↦
      let got = rw fits at e in
      let same : take n s ≡ b = cc in
      rw (← same) (take-IsByte n s bytes, ground (arith, length-take n s))
  | inr over ↦ cc (rw over at e)
]

checked-Reads :
    (valid : Bool) (n : ℕ) (b : Bytes)
    → length b ≡ n
    → Reads
        (if not valid then refuse (codes "invalid utf-8 in string") else pure (take n b))
        (if valid then returns b else rejects (codes "invalid utf-8 in string"))
checked-Reads true n b e = let whole = take_all n b (omega arith) in rw whole (pure-Reads b)
checked-Reads false n b e = refuse-Reads (codes "invalid utf-8 in string")

pub string-Reads : Reads string read_string
unfolding string read_string
string-Reads = Reads-bind (uleb-Reads 32 (omega arith) (omega arith)) (λ n.
    Reads-bind_read (bytes-Reads n) (λ b s t given short read.
      let (bytes, size) = split_inv n s given read in
      Reads-bind
        {q = λ valid. if valid then returns b else rejects (codes "invalid utf-8 in string")}
        (lift-Reads (utf8_valid b n) (is_utf8 b) (rw (← size) (utf8_valid-is_utf8 b bytes)))
        (λ valid. checked-Reads valid n b size)))

split_exact : (b rest : Bytes) → split (length b) (b ++ rest) ≡ ok (b, rest)
unfolding split
split_exact b rest =
    let fits : leb (length b) (length (b ++ rest)) ≡ true = ground (arith, length-append b rest) in
    rw (fits, take-append_exact b rest, drop-append (length b) b rest refl)

pub read_string-wire_string :
    (s rest : Bytes)
    → IsUtf8 s
    → length s < 2 ^ 32
    → read_string (wire_string s ++ rest) ≡ ok (s, rest)
unfolding read_string wire_string
read_string-wire_string s rest good small = rw (
  append_assoc (encoding (length s)) s rest,
  read_uleb-encoding 32 (length s) (s ++ rest) (omega arith) (omega arith) small,
  split_exact s rest,
  (is_utf8_iff s).1 good,
)

pub encode_string_lem :
    (out s : Bytes) → length s < 2 ^ 32 → encode_string out s ≡ done (out ++ wire_string s)
unfolding encode_string wire_string
encode_string_lem out s h =
    rw (encode_uleb_lem out (length s) (omega arith))
      (ap done (append_assoc out (encoding (length s)) s))

-- On any bytes, at any position, `String` ends without a fault, in what is described: the length as
-- an integer of 32 bits, that many bytes, and UTF-8.
pub string_lem : (d : Decoder) → IsDecoder d → Meets (string d) (read_string (left d))
string_lem d valid = string-Reads.run d valid

-- A byte that is 0 or 1.
unfoldable pub read_bit : Bytes → Parser Bool
read_bit what = and_then next (λ b.
    if b == 0
    then returns false
    else if b == 1
    then returns true
    else rejects (codes "invalid " ++ (what ++ (codes " byte: " ++ decimal (pos b)))))

pub prefix_bit-Reads : (what : Bytes) → Reads (prefix_bit what) (read_bit what)
unfolding prefix_bit read_bit
prefix_bit-Reads what = Reads-bind byte-Reads (λ b. Reads-if (b == 0) (pure-Reads false) (
    Reads-if (b == 1) (pure-Reads true)
      (refuse-Reads (codes "invalid " ++ (what ++ (codes " byte: " ++ decimal (pos b)))))))

abbrev pub bit_byte : Bool → ℕ
bit_byte v = if v then 1 else 0

pub read_bit-byte :
    (what : Bytes) (v : Bool) (rest : Bytes) → read_bit what (bit_byte v ∷ rest) ≡ ok (v, rest)
unfolding read_bit next
read_bit-byte what true rest = refl
read_bit-byte what false rest = refl
