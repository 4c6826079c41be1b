-- ===== src/Cpp/Decoder/Fixed.antt =====
-- The floating-point numbers of tools/crabgen/templates/cpp/crab.cpp, by their bits: `EncodeF32`, `EncodeF64`
-- and what `F32` and `F64` make of them.
use Prim.Native.Nat.{bit_or}
use crabcraft.Prelude.{
  ℕ, zero, suc, ◌+◌, ◌*◌, ◌/◌, ◌%◌, ◌^◌, ◌<◌, ◌≡◌, refl, ◌∙◌, sym, ap, arith, true, [], ◌∷◌, ◌++◌,
  append_assoc, append-nil, Bytes, length, length-append, take, take-append_exact, drop-append, leb,
}
use crabcraft.Prelude.Bits.{bit_and_255, bit_or_fields}
use crabcraft.Prelude.Powers.{pow-add}
use crabcraft.Reply.Frame.{le32}
use crabcraft.Cpp.Res.{ok}
use crabcraft.Cpp.Encode.{encode_f32, encode_f64, encode_f64_rounds}
use crabcraft.Cpp.Decoder.{bytes, f32, f64, little_endian}
use crabcraft.Cpp.Decoder.Reads.{bytes-Reads, split}
use crabcraft.Cpp.Decoder.SignBits.{sum_times}
use crabcraft.Cpp.Decoder.Takes.{Takes, pure-Takes, Reads-Takes, Takes-bind}
use native.Mathlib.Nat.{pow-suc, div-div-eq-div-mul}

split_exact : (n : ℕ) (b rest : Bytes) → length b ≡ n → split n (b ++ rest) ≡ ok (b, rest)
unfolding split
split_exact n b rest e =
    let fits : leb n (length (b ++ rest)) ≡ true = ground (arith, length-append b rest) in
    let front : take n (b ++ rest) ≡ b = rw e at (take-append_exact b rest) in
    rw (fits, front, drop-append n b rest e)

pub bytes-Takes : (n : ℕ) (b rest : Bytes) → length b ≡ n → Takes (bytes n) (b ++ rest) b rest
bytes-Takes n b rest e = Reads-Takes (bytes-Reads n) (split_exact n b rest e)

pub encode_f32_lem : (out : Bytes) (bits : ℕ) → encode_f32 out bits ≡ out ++ le32 bits
unfolding encode_f32 le32
encode_f32_lem out bits =
    rw
      (
        bit_and_255 bits,
        bit_and_255 (bits / 2 ^ 8),
        bit_and_255 (bits / 2 ^ 16),
        bit_and_255 (bits / 2 ^ 24),
      )
      (simp append_assoc refl)

joined_32 :
    (n : ℕ)
    → n < 2 ^ 32
    → bit_or
        (bit_or (bit_or (n % 256) (n / 256 % 256 * 2 ^ 8)) (n / 65536 % 256 * 2 ^ 16))
        (n / 16777216 % 256 * 2 ^ 24)
      ≡ n
joined_32 n h =
    let a = n % 256 in
    let b = n / 256 % 256 in
    let c = n / 65536 % 256 in
    let d = n / 16777216 % 256 in
    let ab = bit_or_fields 8 a b (omega arith) in
    let abc = bit_or_fields 16 (a + b * 2 ^ 8) c (omega arith) in
    let abcd = bit_or_fields 24 (a + b * 2 ^ 8 + c * 2 ^ 16) d (omega arith) in
    rw (ab, abc, abcd) (omega arith)

pub f32-Takes : (bits : ℕ) (rest : Bytes) → bits < 2 ^ 32 → Takes f32 (le32 bits ++ rest) bits rest
unfolding f32
f32-Takes bits rest h =
    Takes-bind _ (bytes-Takes 4 (le32 bits) rest (unfold le32 in refl))
      (unfold le32 in rw (joined_32 bits h) (pure-Takes bits rest))

-- The lowest `k` bytes, the lowest first.
unfoldable pub low_bytes : ℕ → ℕ → Bytes
low_bytes zero n = []
low_bytes (suc k) n = (n % 256) ∷ low_bytes k (n / 256)

length-low_bytes : (k n : ℕ) → length (low_bytes k n) ≡ k
unfolding low_bytes
length-low_bytes zero n = refl
length-low_bytes (suc k) n = omega (arith, length-low_bytes k (n / 256))

weight_step : (i : ℕ) → 2 ^ (8 * (i + 1)) ≡ 2 ^ (8 * i) * 256
weight_step i = let sum : 8 * (i + 1) ≡ 8 * i + 8 = omega arith in rw sum (pow-add (8 * i) 8)

rounds_lem :
    (k i : ℕ) (out : Bytes) (bits : ℕ)
    → encode_f64_rounds k i out bits ≡ out ++ low_bytes k (bits / 2 ^ (8 * i))
unfolding encode_f64_rounds low_bytes
rounds_lem zero i out bits = sym (append-nil out)
rounds_lem (suc k) i out bits =
    let next : bits / 2 ^ (8 * (i + 1)) ≡ bits / 2 ^ (8 * i) / 256 =
      ap (λ (w : ℕ). bits / w) (weight_step i) ∙ sym (div-div-eq-div-mul bits (2 ^ (8 * i)) 256) in
    rw
      (
        bit_and_255 (bits / 2 ^ (8 * i)),
        rounds_lem k (i + 1) (out ++ ((bits / 2 ^ (8 * i) % 256) ∷ [])) bits,
        next,
      )
      (append_assoc out ((bits / 2 ^ (8 * i) % 256) ∷ []) (low_bytes k (bits / 2 ^ (8 * i) / 256)))

pub encode_f64_lem : (out : Bytes) (bits : ℕ) → encode_f64 out bits ≡ out ++ low_bytes 8 bits
unfolding encode_f64
encode_f64_lem out bits =
    rounds_lem 8 0 out bits ∙ ap (λ (n : ℕ). out ++ low_bytes 8 n) (omega arith)

byte_weights : (n w : ℕ) → n % 256 * w + n / 256 * (w * 256) ≡ n * w
byte_weights n w =
    let whole : n / 256 * 256 + n % 256 ≡ n = omega arith in
    let times = ap (λ (t : ℕ). t * w) whole in
    let order : n / 256 * (w * 256) ≡ n / 256 * 256 * w = grind arith in
    omega (arith, times, order, sum_times (n / 256 * 256) (n % 256) w)

byte_below : (low g m : ℕ) → low < m → g < 256 → low + g * m < m * 256
byte_below low g m h hg = grind arith

little_endian_lem :
    (k i n acc : ℕ)
    → n < 256 ^ k
    → acc < 2 ^ (8 * i)
    → little_endian (low_bytes k n) i acc ≡ acc + n * 2 ^ (8 * i)
unfolding little_endian low_bytes
little_endian_lem zero i n acc h low =
    omega (arith, ap (λ (t : ℕ). t * 2 ^ (8 * i)) (none_left n h))
  where
    none_left : (n : ℕ) → n < 1 → n ≡ 0
    none_left n h = omega arith
little_endian_lem (suc k) i n acc h low =
    let weight = weight_step i in
    let times = byte_weights n (2 ^ (8 * i)) in
    let below : acc + n % 256 * 2 ^ (8 * i) < 2 ^ (8 * (i + 1)) =
      omega (arith, byte_below acc (n % 256) (2 ^ (8 * i)) low (omega arith)) in
    rw
      (
        little_endian,
        bit_or_fields (8 * i) acc (n % 256) low,
        little_endian_lem k (i + 1) (n / 256) (acc + n % 256 * 2 ^ (8 * i))
            (omega (arith, pow-suc 256 k)) below,
        weight,
      )
      (omega arith)

pub f64-Takes :
    (bits : ℕ) (rest : Bytes) → bits < 2 ^ 64 → Takes f64 (low_bytes 8 bits ++ rest) bits rest
unfolding f64
f64-Takes bits rest h =
    let value : little_endian (low_bytes 8 bits) 0 0 ≡ bits =
      little_endian_lem 8 0 bits 0 (omega arith) (omega arith) ∙ omega arith in
    Takes-bind _ (bytes-Takes 8 (low_bytes 8 bits) rest (length-low_bytes 8 bits))
      (rw value (pure-Takes bits rest))
