-- ===== src/Cpp/Decoder.antt =====
-- The class `Decoder` of tools/crabgen/templates/cpp/crab.hpp and crab.cpp. A method takes the
-- decoder and returns its result with the decoder that it leaves.
pub mod Reads
pub mod Uleb
pub mod RoundTrip
pub mod Unsigned
pub mod Strings
pub mod Takes
pub mod Fixed
pub mod FlagBits
pub mod Flags
pub mod SignBits
pub mod Sleb
use Prim.Native.Nat.{bit_and, bit_or}
use crabcraft.Prelude.{
  ℕ, zero, suc, ◌+◌, ◌-◌, ◌*◌, ◌/◌, ◌%◌, ◌^◌, Bool, true, false, not, ◌&&◌, ◌||◌, List, [], ◌∷◌,
  ◌++◌, Bytes, codes, length, take, drop, get_or, ltb, leb, ◌==◌, if◌then◌else◌, Outcome, done,
  fault,
}
use crabcraft.Format.{ℤ, pos, negsuc, decimal}
use crabcraft.Uleb.{load}
use crabcraft.Cpp.Res.{Res, ok, err, fail}
use crabcraft.Cpp.Utf8.{utf8_valid}

-- `buf_` is the memory from the pointer on, as far as the buffer goes.
pub record Decoder : Type 0 where
  pub buf : Bytes
  pub len : ℕ
  pub pos : ℕ

-- `Decoder(buf, len)`
abbrev pub decoder : Bytes → ℕ → Decoder
decoder buf len = record { buf = buf; len = len; pos = 0 }

abbrev pub Decode : Type 0 → Type 0
Decode A = Decoder → Outcome (Res A × Decoder)

abbrev pub pure : {A : Type 0} → A → Decode A
pure v d = done (ok v, d)

-- `return Res<A>::fail(e);`, for a message that is not empty.
abbrev pub refuse : {A : Type 0} → Bytes → Decode A
refuse e d = done (err e, d)

-- `if (!r.ok()) return Res<B>::fail(r.err);`, and then the rest.
infixl 5 ◌>>=◌
abbrev pub ◌>>=◌ : {A B : Type 0} → Decode A → (A → Decode B) → Decode B
◌>>=◌ m f d = elim (m d) [
  | fault e ↦ fault e
  | done (ok v, d') ↦ f v d'
  | done (err e, d') ↦ done (err e, d')
]

-- A computation that faults or gives a value, and leaves the decoder alone.
abbrev pub lift : {A : Type 0} → Outcome A → Decode A
lift (fault e) d = fault e
lift (done v) d = done (ok v, d)

abbrev pub remaining : Decoder → ℕ
remaining d = d.len - d.pos

-- The message is empty where all was read.
unfoldable pub finish : Decoder → Bytes → Bytes
finish d what =
    if remaining d == 0
    then []
    else decimal (pos (remaining d)) ++ (codes " trailing byte(s) after " ++ what)

unfoldable pub byte : Decode ℕ
byte d =
    if leb d.len d.pos
    then done (err (codes "unexpected end of buffer"), d)
    else elim (load d.buf d.pos) [
      | fault e ↦ fault e
      | done c ↦ done (ok c, record d { pos = d.pos + 1 })
    ]

-- The pointer that is returned is the `n` bytes behind it.
unfoldable pub bytes : ℕ → Decode Bytes
bytes n d =
    if ltb (remaining d) n
    then done (err (codes "unexpected end of buffer"), d)
    else done (ok (take n (drop d.pos d.buf)), record d { pos = d.pos + n })

-- The `for` loop: the rounds left, `shift` and `result`.
unfoldable pub uleb_rounds : ℕ → ℕ → ℕ → ℕ → Decode ℕ
uleb_rounds bits zero shift result = refuse (codes "uleb too long")
uleb_rounds bits (suc rounds) shift result = do
  b ← byte
  let payload = bit_and b 0x7f
  let result' = bit_or result (payload * 2 ^ shift % 2 ^ 64)
  let rest = uleb_rounds bits rounds (shift + 7) result'
  if ltb bits (shift + 7) && not (payload / 2 ^ (bits - shift) == 0)
      then refuse (codes "uleb overflow")
      else if bit_and b 0x80 == 0
      then pure result'
      else rest

unfoldable pub uleb : ℕ → Decode ℕ
uleb bits = uleb_rounds bits ((bits + 6) / 7) 0 0

-- The `int64_t` of 64 bits.
unfoldable pub to_int64 : ℕ → ℤ
to_int64 n = if ltb n (2 ^ 63) then pos n else negsuc (2 ^ 64 - 1 - n)

-- `result < min || result > max`, for a width below 64.
unfoldable pub out_of_range : ℕ → ℤ → Bool
out_of_range bits (pos n) = ltb (2 ^ (bits - 1) - 1) n
out_of_range bits (negsuc n) = leb (2 ^ (bits - 1)) n

-- Behind the last byte: the sign, and the range.
unfoldable pub sleb_end : ℕ → ℕ → ℕ → ℕ → Decode ℤ
unfolding to_int64 out_of_range
sleb_end bits byte shift result =
    let signed =
      if ltb shift 64 && not (bit_and byte 0x40 == 0)
      then bit_or result (2 ^ 64 - 2 ^ shift)
      else result in
    if ltb bits 64 && out_of_range bits (to_int64 signed)
    then refuse (codes "sleb overflow")
    else pure (to_int64 signed)

-- The `for` loop: the rounds left, `shift` and `result`, which is kept as 64 bits.
unfoldable pub sleb_rounds : ℕ → ℕ → ℕ → ℕ → Decode ℤ
unfolding to_int64 sleb_end
sleb_rounds bits zero shift result = refuse (codes "sleb too long")
sleb_rounds bits (suc rounds) shift result = do
  b ← byte
  let result' = bit_or result (bit_and b 0x7f * 2 ^ shift % 2 ^ 64)
  let rest = sleb_rounds bits rounds (shift + 7) result'
  if shift == 63
      then (if not (b == 0) && not (b == 0x7f)
          then refuse (codes "sleb overflow")
          else pure (to_int64 (bit_or result (bit_and b 1 * 2 ^ 63))))
      else if bit_and b 0x80 == 0
      then sleb_end bits b (shift + 7) result'
      else rest

unfoldable pub sleb : ℕ → Decode ℤ
sleb bits = sleb_rounds bits ((bits + 6) / 7) 0 0

unfoldable pub prefix_bit : Bytes → Decode Bool
prefix_bit what = do
  b ← byte
  if b == 0
      then pure false
      else if b == 1
      then pure true
      else refuse (codes "invalid " ++ (what ++ (codes " byte: " ++ decimal (pos b))))

unfoldable pub bool : Decode Bool
bool = prefix_bit (codes "bool")

unfoldable pub u8 : Decode ℕ
u8 = do v ← uleb 8; pure (v % 2 ^ 8)

unfoldable pub u16 : Decode ℕ
u16 = do v ← uleb 16; pure (v % 2 ^ 16)

unfoldable pub u32 : Decode ℕ
u32 = do v ← uleb 32; pure (v % 2 ^ 32)

unfoldable pub u64 : Decode ℕ
u64 = uleb 64

-- `(int8_t)v.val` and its like, for a width of `bits`.
unfoldable pub cast : ℕ → ℤ → ℤ
cast bits (pos n) =
    let low = n % 2 ^ bits in
    if ltb low (2 ^ (bits - 1)) then pos low else negsuc (2 ^ bits - 1 - low)
cast bits (negsuc n) =
    let low = n % 2 ^ bits in
    if ltb low (2 ^ (bits - 1)) then negsuc low else pos (2 ^ bits - 1 - low)

unfoldable pub s8 : Decode ℤ
s8 = do v ← sleb 8; pure (cast 8 v)

unfoldable pub s16 : Decode ℤ
s16 = do v ← sleb 16; pure (cast 16 v)

unfoldable pub s32 : Decode ℤ
s32 = do v ← sleb 32; pure (cast 32 v)

unfoldable pub s64 : Decode ℤ
s64 = sleb 64

-- The bits of the `float`.
unfoldable pub f32 : Decode ℕ
f32 = do
  b ← bytes 4
  pure (
      bit_or (bit_or (bit_or (get_or b 0 0) (get_or b 1 0 * 2 ^ 8)) (get_or b 2 0 * 2 ^ 16))
        (get_or b 3 0 * 2 ^ 24))

-- `bits |= (uint64_t)b.val[i] << (8 * i)` from `i` on.
unfoldable pub little_endian : Bytes → ℕ → ℕ → ℕ
little_endian [] i bits = bits
little_endian (c ∷ b) i bits = little_endian b (i + 1) (bit_or bits (c * 2 ^ (8 * i)))

-- The bits of the `double`.
unfoldable pub f64 : Decode ℕ
f64 = do b ← bytes 8; pure (little_endian b 0 0)

unfoldable pub char : Decode ℕ
char = do
  s ← uleb 21
  if ltb 0x10ffff s || (leb 0xd800 s && leb s 0xdfff)
      then refuse (codes "invalid char scalar: " ++ decimal (pos s))
      else pure (s % 2 ^ 32)

unfoldable pub string : Decode Bytes
string = do
  n ← uleb 32
  b ← bytes n
  valid ← lift (utf8_valid b n)
  if not valid then refuse (codes "invalid utf-8 in string") else pure (take n b)

unfoldable pub list_len : Decode ℕ
list_len = do v ← uleb 32; pure (v % 2 ^ 32)

unfoldable pub option_tag : Decode Bool
option_tag = prefix_bit (codes "option")

unfoldable pub result_tag : Decode Bool
result_tag = prefix_bit (codes "result")

unfoldable pub variant_case : ℕ → Decode ℕ
variant_case num_cases = do
  v ← uleb 32
  if leb num_cases v
      then refuse (codes "variant case out of range: " ++ decimal (pos v))
      else pure (v % 2 ^ 32)

unfoldable pub enum_case : ℕ → Decode ℕ
enum_case num_cases = do
  v ← uleb 32
  if leb num_cases v
      then refuse (codes "enum case out of range: " ++ decimal (pos v))
      else pure (v % 2 ^ 32)

-- `bits[i] = (b.val[i / 8] >> (i % 8)) & 1`: the flags left, and `i`.
unfoldable pub get_flags : Bytes → ℕ → ℕ → List Bool
get_flags b zero i = []
get_flags b (suc n) i =
    not (bit_and (get_or b (i / 8) 0 / 2 ^ (i % 8)) 1 == 0) ∷ get_flags b n (i + 1)

unfoldable pub flags : ℕ → Decode (List Bool)
flags n = do
  b ← bytes ((n + 7) / 8)
  if not (n % 8 == 0) && not (get_or b ((n + 7) / 8 - 1) 0 / 2 ^ (n % 8) == 0)
      then refuse (codes "flags: unused high bits set")
      else pure (get_flags b n 0)
