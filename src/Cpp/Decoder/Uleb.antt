-- ===== src/Cpp/Decoder/Uleb.antt =====
-- `Decoder::Uleb` of tools/crabgen/templates/cpp/crab.cpp against a description of the format.
use Prim.Native.Nat.{bit_and, bit_or}
use crabcraft.Prelude.{
  ℕ, zero, suc, ◌+◌, ◌-◌, ◌*◌, ◌/◌, ◌%◌, ◌^◌, ◌≤◌, ◌<◌, ◌≡◌, refl, sym, ap, arith, Bool, true,
  false, not, ◌&&◌, [], ◌∷◌, Bytes, codes, ltb, leb, ◌==◌, if◌then◌else◌, Bool-cases, inl, inr,
}
use crabcraft.Prelude.Bits.{bit_and_127, bit_or_fields, bit_and_128_bit}
use crabcraft.Prelude.Powers.{pow-add, shift_fits, shifted_out}
use crabcraft.Uleb.Decode.{group_below}
use crabcraft.Cpp.Res.{Res, ok, err}
use crabcraft.Cpp.Decoder.{Decoder, uleb, uleb_rounds, pure, refuse}
use crabcraft.Cpp.Decoder.Reads.{
  IsDecoder, left, Meets, Parser, Reads, Reads-bind, Reads-eq, refuse-Reads, pure-Reads, byte-Reads,
  next, and_then,
}
use native.Mathlib.Nat.{pow-le-pow_right}

-- A value put behind `low`, at the weight `m`.
abbrev pub behind : ℕ → ℕ → Res (ℕ × Bytes) → Res (ℕ × Bytes)
behind low m (ok (v, rest)) = ok (low + v * m, rest)
behind low m (err e) = err e

-- Groups of seven bits, lowest first, in at most `rounds` bytes, for a number of `room` bits: all but
-- the last byte have the top bit set.
unfoldable pub read_uleb : ℕ → ℕ → Parser ℕ
read_uleb zero room s = err (codes "uleb too long")
read_uleb (suc rounds) room [] = err (codes "unexpected end of buffer")
read_uleb (suc rounds) room (c ∷ s) =
    let more = behind (c % 128) 128 (read_uleb rounds (room - 7) s) in
    if leb (2 ^ room) (c % 128)
    then err (codes "uleb overflow")
    else if c / 128 % 2 == 0
    then ok (c % 128, s)
    else more

-- As many bytes as a number of `bits` needs.
abbrev pub uleb_bytes : ℕ → ℕ
uleb_bytes bits = (bits + 6) / 7

-- The groups that are left fill the bits that are left.
abbrev Fits : ℕ → ℕ → ℕ → ℕ → Type 0
Fits bits zero shift room = Unit {0}
Fits bits (suc rounds) shift room =
    (shift + room ≡ bits) × (room ≤ 7 * suc rounds) × (7 * suc rounds < room + 7)

Fits-next :
    (bits rounds shift room : ℕ)
    → Fits bits (suc rounds) shift room
    → Fits bits rounds (shift + 7) (room - 7)
Fits-next bits zero shift room h = tt
Fits-next bits (suc rounds) shift room h = omega arith

behind-behind :
    (low g m : ℕ) (o : Res (ℕ × Bytes))
    → behind low m (behind g 128 o) ≡ behind (low + g * m) (m * 128) o
behind-behind low g m (err e) = refl
behind-behind low g m (ok (v, rest)) = ap (λ (t : ℕ). ok (t, rest)) (grind arith)

overflow_test :
    (g room bits shift : ℕ)
    → g < 128
    → shift + room ≡ bits
    → (ltb bits (shift + 7) && not (g / 2 ^ (bits - shift) == 0)) ≡ leb (2 ^ room) g
overflow_test g room bits shift hg h =
    let same : bits - shift ≡ room = omega arith in
    rw (same, shifted_out g room)
      (elim (Bool-cases (ltb bits (shift + 7))) [
        | inl narrow ↦ rw narrow
        | inr wide ↦
            let seven : 7 ≤ room = ground arith in
            let power : 2 ^ 7 ≤ 2 ^ room =
              pow-le-pow_right {n = 2} (omega arith) {i = 7} {j = room} seven in
            rw wide (ground arith)
      ])

more_test : (c : ℕ) → (bit_and c 0x80 == 0) ≡ (c / 128 % 2 == 0)
more_test c = ground (arith, bit_and_128_bit c)

-- What the first byte decides, by its two tests; the groups before it are in `result`.
abbrev after_byte : ℕ → ℕ → ℕ → ℕ → ℕ → Bool → Bool → Parser ℕ
after_byte rounds room shift result c over last s = behind result (2 ^ shift) (
    if over
    then err (codes "uleb overflow")
    else if last
    then ok (c % 128, s)
    else behind (c % 128) 128 (read_uleb rounds (room - 7) s))

by_byte :
    (rounds room shift result : ℕ) (s : Bytes)
    → and_then next
        (λ c. after_byte rounds room shift result c (leb (2 ^ room) (c % 128)) (c / 128 % 2 == 0))
        s
      ≡ behind result (2 ^ shift) (read_uleb (suc rounds) room s)
unfolding next read_uleb
by_byte rounds room shift result [] = refl
by_byte rounds room shift result (c ∷ s) = refl

uleb_step :
    (bits rounds shift room result c : ℕ) (over last : Bool)
    → shift + room ≤ 64
    → result < 2 ^ shift
    → leb (2 ^ room) (c % 128) ≡ over
    → Reads (uleb_rounds bits rounds (shift + 7) (result + c % 128 * 2 ^ shift)) (λ s.
      behind (result + c % 128 * 2 ^ shift) (2 ^ shift * 128) (read_uleb rounds (room - 7) s))
    → Reads
        (λ d.
          (if over
              then refuse (codes "uleb overflow")
              else if last
              then pure (bit_or result (c % 128 * 2 ^ shift % 2 ^ 64))
              else uleb_rounds bits rounds
                  (shift + 7)
                  (bit_or result (c % 128 * 2 ^ shift % 2 ^ 64)))
            d)
        (after_byte rounds room shift result c over last)
uleb_step bits rounds shift room result c true last wide low test later =
    refuse-Reads (codes "uleb overflow")
uleb_step bits rounds shift room result c false last wide low test later =
    let small : c % 128 < 2 ^ room = ground arith in
    rw (shift_fits (c % 128) room shift small wide, bit_or_fields shift result (c % 128) low)
      (by_last last)
  where
    by_last :
        (last : Bool)
        → Reads
            (λ d.
              (if last
                  then pure (result + c % 128 * 2 ^ shift)
                  else uleb_rounds bits rounds (shift + 7) (result + c % 128 * 2 ^ shift))
                d)
            (after_byte rounds room shift result c false last)
    by_last true = pure-Reads (result + c % 128 * 2 ^ shift)
    by_last false =
        Reads-eq later
          (λ s. sym (behind-behind result (c % 128) (2 ^ shift) (read_uleb rounds (room - 7) s)))

uleb_rounds-Reads :
    (bits rounds shift room result : ℕ)
    → Fits bits rounds shift room
    → bits ≤ 64
    → result < 2 ^ shift
    → Reads
        (uleb_rounds bits rounds shift result)
        (λ s. behind result (2 ^ shift) (read_uleb rounds room s))
unfolding uleb_rounds
uleb_rounds-Reads bits zero shift room result fits wide low =
    Reads-eq (refuse-Reads (codes "uleb too long")) (λ s. unfold read_uleb in refl)
uleb_rounds-Reads bits (suc rounds) shift room result fits wide low =
    Reads-eq
      (Reads-bind byte-Reads (λ c.
        let weight = pow-add shift 7 in
        let below : result + c % 128 * 2 ^ shift < 2 ^ (shift + 7) =
          omega (arith, weight, group_below result (c % 128) (2 ^ shift) low) in
        rw
          (bit_and_127 c, overflow_test (c % 128) room bits shift (omega arith) fits.0, more_test c)
          (uleb_step bits rounds shift room result c (leb (2 ^ room) (c % 128)) (c / 128 % 2 == 0)
            (omega arith) low refl
            (rw weight at (
              uleb_rounds-Reads bits rounds (shift + 7) (room - 7) (result + c % 128 * 2 ^ shift)
                (Fits-next bits rounds shift room fits) wide below)))))
      (by_byte rounds room shift result)

pub uleb-Reads :
    (bits : ℕ) → 0 < bits → bits ≤ 64 → Reads (uleb bits) (read_uleb (uleb_bytes bits) bits)
unfolding uleb
uleb-Reads bits positive wide =
    Reads-eq
      (uleb_rounds-Reads bits (uleb_bytes bits) 0 bits 0 (start (uleb_bytes bits) refl) wide
        (omega arith))
      (λ s. from_zero (read_uleb (uleb_bytes bits) bits s))
  where
    from_zero : (o : Res (ℕ × Bytes)) → behind 0 1 o ≡ o
    from_zero (err e) = refl
    from_zero (ok (v, rest)) = ap (λ (t : ℕ). ok (t, rest)) (omega arith)

    start : (n : ℕ) → uleb_bytes bits ≡ n → Fits bits n 0 bits
    start zero e = tt
    start (suc n) e = omega arith

-- Of any bytes, at any position, `Uleb` of a width of 1 to 64 bits reads nothing outside the buffer.
-- Its value, the position that it leaves and its error message are those of the description.
pub uleb_lem :
    (bits : ℕ) (d : Decoder)
    → 0 < bits
    → bits ≤ 64
    → IsDecoder d
    → Meets (uleb bits d) (read_uleb (uleb_bytes bits) bits (left d))
uleb_lem bits d positive wide valid = (uleb-Reads bits positive wide).run d valid
