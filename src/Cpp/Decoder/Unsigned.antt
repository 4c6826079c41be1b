-- ===== src/Cpp/Decoder/Unsigned.antt =====
-- The unsigned integers of the C++ runtime, U8 to U64, and the C guest's `uleb_get32` beside them.
use crabcraft.Prelude.{
  ℕ, take_all, zero, suc, ◌+◌, ◌-◌, ◌*◌, ◌/◌, ◌%◌, ◌^◌, ◌≤◌, ◌<◌, ◌≡◌, refl, ◌∙◌, ap, arith, Bool,
  true, false, Option, none, some, [], ◌∷◌, Bytes, IsByte, All, All-drop, codes, length, take, drop,
  take-append-drop, length-take, length-drop, leb, ◌==◌, if◌then◌else◌, Outcome, done,
}
use crabcraft.Prelude.Powers.{pow-add}
use crabcraft.Uleb.{uleb_get32}
use crabcraft.Uleb.Decode.{Agrees, uleb_get32-read_groups}
use crabcraft.Cpp.Res.{Res, ok, err}
use crabcraft.Cpp.Decoder.{Decoder, Decode, remaining, uleb, u8, u16, u32, u64, pure, ◌>>=◌}
use crabcraft.Cpp.Decoder.Reads.{
  length-left, Meets, Reads, Reads-bind, Reads-eq, pure-Reads, returns, follow,
}
use crabcraft.Cpp.Decoder.Uleb.{behind, read_uleb, uleb_bytes, uleb-Reads}
use crabcraft.Cpp.Decoder.RoundTrip.{read_uleb-read_groups, forget}
use native.Mathlib.Nat.{mod-eq_of_lt}
use native.Mathlib.Decide.{dec_lt}

-- A value that was read, if any, is below `bound`.
abbrev Below : ℕ → Res (ℕ × Bytes) → Type 0
Below bound (ok (v, rest)) = v < bound
Below bound (err e) = Unit {0}

Below-behind :
    (low room : ℕ) (o : Res (ℕ × Bytes))
    → low < 128
    → low < 2 ^ room
    → Below (2 ^ (room - 7)) o
    → Below (2 ^ room) (behind low 128 o)
Below-behind low room (err e) h fits below = tt
Below-behind low room (ok (v, rest)) h fits below = elim (dec_lt room 7) [
  | yes narrow ↦
      let none_left : room - 7 ≡ 0 = omega arith in
      let nothing : v < 2 ^ 0 = rw none_left at below in omega arith
  | no wide ↦
      let same : room ≡ (room - 7) + 7 = omega arith in
      let power : 2 ^ room ≡ 2 ^ (room - 7) * 128 =
        ap (λ (k : ℕ). 2 ^ k) same ∙ pow-add (room - 7) 7 in
      omega arith
]

Below-if :
    (bound : ℕ) (t : Bool) (x y : Res (ℕ × Bytes))
    → (t ≡ true → Below bound x)
    → (t ≡ false → Below bound y)
    → Below bound (if t then x else y)
Below-if bound true x y hx hy = hx refl
Below-if bound false x y hx hy = hy refl

read_uleb-Below : (rounds room : ℕ) (s : Bytes) → Below (2 ^ room) (read_uleb rounds room s)
unfolding read_uleb
read_uleb-Below zero room s = tt
read_uleb-Below (suc rounds) room [] = tt
read_uleb-Below (suc rounds) room (c ∷ s) =
    let more = behind (c % 128) 128 (read_uleb rounds (room - 7) s) in
    Below-if (2 ^ room) (leb (2 ^ room) (c % 128)) (err (codes "uleb overflow"))
      (if c / 128 % 2 == 0 then ok (c % 128, s) else more) (λ over. tt)
      (λ fits.
        let small : c % 128 < 2 ^ room = ground arith in
        Below-if (2 ^ room) (c / 128 % 2 == 0) (ok (c % 128, s)) more (λ last. small)
          (λ longer.
            Below-behind (c % 128) room (read_uleb rounds (room - 7) s) (omega arith) small
              (read_uleb-Below rounds (room - 7) s)))

-- A cast to the width that was read changes nothing.
cast_away :
    (bound : ℕ) (o : Res (ℕ × Bytes)) → Below bound o → follow o (λ v. returns (v % bound)) ≡ o
cast_away bound (err e) h = refl
cast_away bound (ok (v, rest)) h =
    let same : v % bound ≡ v = mod-eq_of_lt {n = v} {m = bound} h in rw same

pub uleb_cast-Reads :
    (bits : ℕ)
    → 0 < bits
    → bits ≤ 64
    → Reads (do v ← uleb bits; pure (v % 2 ^ bits)) (read_uleb (uleb_bytes bits) bits)
uleb_cast-Reads bits positive wide =
    Reads-eq (Reads-bind (uleb-Reads bits positive wide) (λ v. pure-Reads (v % 2 ^ bits))) (λ s.
      cast_away (2 ^ bits) (read_uleb (uleb_bytes bits) bits s)
        (read_uleb-Below (uleb_bytes bits) bits s))

pub data Width : Type 0 where
  w8 w16 w32 w64 : Width

abbrev pub bits_of : Width → ℕ
bits_of w8 = 8
bits_of w16 = 16
bits_of w32 = 32
bits_of w64 = 64

-- The decoder of a width.
abbrev pub decode_unsigned : Width → Decode ℕ
decode_unsigned w8 = u8
decode_unsigned w16 = u16
decode_unsigned w32 = u32
decode_unsigned w64 = u64

pub decode_unsigned-Reads :
    (w : Width) → Reads (decode_unsigned w) (read_uleb (uleb_bytes (bits_of w)) (bits_of w))
unfolding u8 u16 u32 u64
decode_unsigned-Reads w8 = uleb_cast-Reads 8 (omega arith) (omega arith)
decode_unsigned-Reads w16 = uleb_cast-Reads 16 (omega arith) (omega arith)
decode_unsigned-Reads w32 = uleb_cast-Reads 32 (omega arith) (omega arith)
decode_unsigned-Reads w64 = uleb-Reads 64 (omega arith) (omega arith)

-- The two results for the same bytes: a value and what is left, or a failure on both sides.
abbrev pub Same : Bytes → ℕ × Option ℕ → Outcome (Res ℕ × Decoder) → Type 0
Same p got o =
    (r : Res ℕ) × (d : Decoder) × (o ≡ done (r, d))
    × (elim r [ ok v ↦ (got.1 ≡ some v) × (got.0 + remaining d ≡ length p) | err e ↦ got.1 ≡ none ])

agree :
    (p : Bytes) (got : ℕ × Option ℕ) (o : Outcome (Res ℕ × Decoder)) (r : Res (ℕ × Bytes))
    → Agrees p got (forget r)
    → Meets o r
    → Same p got o
agree p got o (ok (v, rest)) (value, inside, after) (d, ran, valid, rest_left) =
    let c_left = ap (λ (t : Bytes). length t) after in
    let c_size = length-drop got.0 p in
    let cpp_left = ap (λ (t : Bytes). length t) rest_left in
    let cpp_size = length-left d in (ok v, d, ran, (value, omega (arith, valid.held, valid.inside)))
agree p got o (err e) none_read (d, ran, valid) = (err e, d, ran, none_read)

-- At any position of any bytes, `uleb_get32` of the C guest and `U32` of the C++ runtime end
-- without a fault. Both fail, or both give the same number and leave equally many bytes.
pub uleb_get32-u32 :
    (p : Bytes) (pos : ℕ)
    → All IsByte p
    → length p < 2 ^ 31
    → pos ≤ length p
    → (got : ℕ × Option ℕ) × (uleb_get32 p (length p) pos ≡ done got)
      × Same p got (u32 (record { buf = p; len = length p; pos = pos }))
uleb_get32-u32 p pos bytes fits inside =
    let s = drop pos p in
    let addressable : length p < 2 ^ 32 = omega arith in
    let whole = take-append-drop pos p in
    let size : length (take pos p) ≡ pos = omega (arith, length-take pos p) in
    let (got, ran, agrees) =
      uleb_get32-read_groups (take pos p) s (All-drop IsByte pos p bytes) (rw whole addressable) in
    let d : Decoder = record { buf = p; len = length p; pos = pos } in
    (
      got,
      rw (whole, size) at ran,
      agree p got (u32 d) (read_uleb 5 32 s)
          (rw (whole, ← read_uleb-read_groups 4 s (All-drop IsByte pos p bytes)) at agrees)
          (rw (take_all (length p) p (omega arith)) at (
            (decode_unsigned-Reads w32).run d
              (record { held = omega arith; inside = inside; bytes = bytes; small = fits }))),
    )
