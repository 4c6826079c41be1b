-- ===== src/Cpp/Decoder/RoundTrip.antt =====
-- The integer decoder of the C++ runtime against its encoder, and against the C guest's decoder.
use crabcraft.Prelude.{
  ℕ, zero, suc, ◌+◌, ◌-◌, ◌*◌, ◌/◌, ◌%◌, ◌^◌, ◌≤◌, ◌<◌, ◌≡◌, refl, ◌∙◌, ap, arith, Bool, true,
  false, Option, none, some, [], ◌∷◌, ◌++◌, Bytes, IsByte, All, ltb, leb, ◌==◌, if◌then◌else◌,
  Bool-cases, inl, inr,
}
use crabcraft.Prelude.Powers.{pow-add}
use crabcraft.Uleb.Encode.{groups, groups_last, groups_inner, groups-extra, encoding}
use crabcraft.Uleb.Decode.{extend, read_groups}
use crabcraft.Cpp.Res.{Res, ok, err}
use crabcraft.Cpp.Decoder.Uleb.{behind, read_uleb, uleb_bytes}
use native.Mathlib.Nat.{pow-suc, pow-le-pow_right}
use native.Mathlib.Decide.{dec_lt}

read_last :
    (rounds room v : ℕ) (rest : Bytes)
    → v < 128
    → v < 2 ^ room
    → read_uleb (suc rounds) room (v ∷ rest) ≡ ok (v, rest)
unfolding read_uleb
read_last rounds room v rest h fits =
    let same : v % 128 ≡ v = omega arith in
    let within : leb (2 ^ room) v ≡ false = ground arith in
    let last : (v / 128 % 2 == 0) ≡ true = ground arith in rw (same, within, last)

read_inner :
    (rounds room v : ℕ) (s : Bytes)
    → 7 ≤ room
    → read_uleb (suc rounds) room ((v % 128 + 128) ∷ s)
      ≡ behind (v % 128) 128 (read_uleb rounds (room - 7) s)
unfolding read_uleb
read_inner rounds room v s h =
    let power : 2 ^ 7 ≤ 2 ^ room = pow-le-pow_right {n = 2} (omega arith) {i = 7} {j = room} h in
    let same : (v % 128 + 128) % 128 ≡ v % 128 = omega arith in
    let within : leb (2 ^ room) (v % 128) ≡ false = ground arith in
    let more : ((v % 128 + 128) / 128 % 2 == 0) ≡ false = ground arith in rw (same, within, more)

-- A number of more than seven bits has room for more.
room_left : (v room : ℕ) → 128 ≤ v → v < 2 ^ room → 7 ≤ room
room_left v room h fits = elim (dec_lt room 7) [
  | yes narrow ↦
      let power : 2 ^ room ≤ 2 ^ 7 =
        pow-le-pow_right {n = 2} (omega arith) {i = room} {j = 7} (omega arith) in
      absurd (omega arith)
  | no wide ↦ omega arith
]

shifted : (v room : ℕ) → 7 ≤ room → v < 2 ^ room → v / 128 < 2 ^ (room - 7)
shifted v room h fits =
    let same : room ≡ (room - 7) + 7 = omega arith in
    let power : 2 ^ room ≡ 2 ^ (room - 7) * 128 =
      ap (λ (k : ℕ). 2 ^ k) same ∙ pow-add (room - 7) 7 in
    omega arith

pub read_uleb-groups :
    (k room v : ℕ) (rest : Bytes)
    → v < 2 ^ room
    → room ≤ 7 * suc k
    → read_uleb (suc k) room (groups k v ++ rest) ≡ ok (v, rest)
read_uleb-groups zero room v rest fits h =
    let power : 2 ^ room ≤ 2 ^ 7 =
      pow-le-pow_right {n = 2} (omega arith) {i = room} {j = 7} (omega arith) in
    rw (groups_last 0 v (omega arith)) (read_last 0 room v rest (omega arith) fits)
read_uleb-groups (suc k) room v rest fits h = elim (dec_lt v 128) [
  | yes last ↦ rw (groups_last (suc k) v last) (read_last (suc k) room v rest last fits)
  | no more ↦
      let wide = room_left v room (omega arith) fits in
      rw
        (
          groups_inner k v (omega arith),
          read_inner (suc k) room v (groups k (v / 128) ++ rest) wide,
          read_uleb-groups k (room - 7) (v / 128) rest (shifted v room wide fits) (omega arith),
        )
        (ap (λ (t : ℕ). ok (t, rest)) (omega arith))
]

pub seven_bits : (n : ℕ) → 2 ^ (7 * n) ≡ 128 ^ n
seven_bits zero = refl
seven_bits (suc n) =
    let sum : 7 * suc n ≡ 7 * n + 7 = omega arith in
    rw (sum, pow-add (7 * n) 7, seven_bits n, pow-suc 128 n)

pub read_uleb-encoding :
    (bits v : ℕ) (rest : Bytes)
    → bits ≤ 64
    → 0 < bits
    → v < 2 ^ bits
    → read_uleb (uleb_bytes bits) bits (encoding v ++ rest) ≡ ok (v, rest)
unfolding encoding
read_uleb-encoding bits v rest wide positive fits = go (uleb_bytes bits) refl
  where
    go : (n : ℕ) → uleb_bytes bits ≡ n → read_uleb n bits (groups 9 v ++ rest) ≡ ok (v, rest)
    go zero e = absurd (omega arith)
    go (suc k) e =
        let power : 2 ^ bits ≤ 2 ^ (7 * suc k) =
          pow-le-pow_right {n = 2} (omega arith) {i = bits} {j = 7 * suc k} (omega arith) in
        rw (groups-extra k 9 v (omega (arith, seven_bits (suc k))) (omega arith))
          (read_uleb-groups k bits v rest fits (omega arith))

-- The errors that the C guest does not tell apart.
abbrev pub forget : Res (ℕ × Bytes) → Option (ℕ × Bytes)
forget (ok r) = some r
forget (err e) = none

forget-behind :
    (low m : ℕ) (o : Res (ℕ × Bytes)) → forget (behind low m o) ≡ extend low m (forget o)
forget-behind low m (ok (v, rest)) = refl
forget-behind low m (err e) = refl

forget-if :
    (t : Bool) (x y : Res (ℕ × Bytes))
    → forget (if t then x else y) ≡ (if t then forget x else forget y)
forget-if true x y = refl
forget-if false x y = refl

-- One byte that is not the last one allowed.
read_uleb_byte :
    (rounds room c : ℕ) (s : Bytes)
    → 7 ≤ room
    → c < 256
    → read_uleb (suc rounds) room (c ∷ s)
      ≡ (if ltb c 128 then ok (c, s) else behind (c % 128) 128 (read_uleb rounds (room - 7) s))
unfolding read_uleb
read_uleb_byte rounds room c s wide byte =
    let power : 2 ^ 7 ≤ 2 ^ room = pow-le-pow_right {n = 2} (omega arith) {i = 7} {j = room} wide in
    let within : leb (2 ^ room) (c % 128) ≡ false = ground arith in
    rw within (elim (Bool-cases (ltb c 128)) [
      | inl last ↦
          let same : c % 128 ≡ c = ground arith in
          let test : (c / 128 % 2 == 0) ≡ true = ground arith in rw (last, test, same)
      | inr longer ↦ let test : (c / 128 % 2 == 0) ≡ false = ground arith in rw (longer, test)
    ])

read_groups_byte :
    (k c : ℕ) (s : Bytes)
    → read_groups (suc (suc k)) (c ∷ s)
      ≡ (if ltb c 128 then some (c, s) else extend (c % 128) 128 (read_groups (suc k) s))
unfolding read_groups
read_groups_byte k c s = let first : (suc k == 0) ≡ false = ground arith in rw first

-- With `k` more bytes than one, a number of `7 * k + 4` bits.
pub read_uleb-read_groups :
    (k : ℕ) (s : Bytes)
    → All IsByte s
    → forget (read_uleb (suc k) (7 * k + 4) s) ≡ read_groups (suc k) s
read_uleb-read_groups k [] bytes = unfold read_uleb read_groups in refl
read_uleb-read_groups zero (c ∷ s) (byte, bytes) = unfold read_uleb read_groups in ground arith
read_uleb-read_groups (suc k) (c ∷ s) (byte, bytes) =
    let room : 7 * suc k + 4 - 7 ≡ 7 * k + 4 = omega arith in
    let more = behind (c % 128) 128 (read_uleb (suc k) (7 * k + 4) s) in
    rw (
      read_uleb_byte (suc k) (7 * suc k + 4) c s (omega arith) byte,
      read_groups_byte k c s,
      room,
      forget-if (ltb c 128) (ok (c, s)) more,
      forget-behind (c % 128) 128 (read_uleb (suc k) (7 * k + 4) s),
      read_uleb-read_groups k s bytes,
    )
