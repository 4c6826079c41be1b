-- ===== src/Cpp/Encode/Sleb.antt =====
-- `EncodeSleb` of tools/crabgen/templates/cpp/crab.cpp: the groups that it appends.
use Prim.Native.Nat.{bit_and}
use crabcraft.Prelude.{
  ℕ, zero, suc, ◌+◌, ◌*◌, ◌-◌, ◌/◌, ◌%◌, ◌^◌, ◌≤◌, ◌<◌, ◌≡◌, refl, ◌∙◌, ap, arith, true, not, [],
  ◌∷◌, ◌++◌, append_assoc, Bytes, ltb, ◌==◌, if◌then◌else◌, Bool-cases, inl, inr, done,
}
use crabcraft.Prelude.Bits.{bit_64, bit_or_128}
use crabcraft.Format.{ℤ, pos, negsuc}
use crabcraft.Cpp.Encode.{low_bits, shift_right, is_last, encode_sleb, encode_sleb_rounds}
use native.Mathlib.Nat.{pow-suc}

-- The distance from 0 or -1, whichever has the same sign.
abbrev pub size : ℤ → ℕ
size (pos n) = n
size (negsuc n) = n

-- The seven bits at the bottom.
abbrev pub group : ℤ → ℕ
group (pos n) = n % 128
group (negsuc n) = 127 - n % 128

-- The bits above them, the sign included.
abbrev pub above : ℤ → ℤ
above (pos n) = pos (n / 128)
above (negsuc n) = negsuc (n / 128)

-- Groups of seven bits in at most one byte more than `k`: all but the last have the top bit set, and the
-- last one has room for the sign.
unfoldable pub signed_groups : ℕ → ℤ → Bytes
signed_groups zero v = group v ∷ []
signed_groups (suc k) v =
    let rest = signed_groups k (above v) in
    if ltb (size v) 64 then group v ∷ [] else (group v + 128) ∷ rest

unfoldable pub signed_encoding : ℤ → Bytes
signed_encoding v = signed_groups 9 v

pub group_small : (v : ℤ) → group v < 128
group_small (pos n) = omega arith
group_small (negsuc n) = omega arith

low_bits-group : (v : ℤ) → low_bits v ≡ group v
unfolding low_bits
low_bits-group (pos n) = refl
low_bits-group (negsuc n) = refl

shift_right-above : (v : ℤ) → shift_right v ≡ above v
unfolding shift_right
shift_right-above (pos n) = refl
shift_right-above (negsuc n) = refl

last_test : (v : ℤ) → is_last (above v) (not (bit_and (group v) 0x40 == 0)) ≡ ltb (size v) 64
unfolding is_last
last_test (pos n) = ground (arith, bit_64 (n % 128))
last_test (negsuc n) = ground (arith, bit_64 (127 - n % 128))

round_of :
    (rounds : ℕ) (v : ℤ) (out : Bytes)
    → encode_sleb_rounds (suc rounds) out v ≡ (
        if ltb (size v) 64
        then done (out ++ (group v ∷ []))
        else encode_sleb_rounds rounds (out ++ ((group v + 128) ∷ [])) (above v))
unfolding encode_sleb_rounds
round_of rounds v out =
    rw (low_bits-group v, shift_right-above v, last_test v, bit_or_128 (group v) (group_small v))

smaller : (v : ℤ) (k : ℕ) → size v < 64 * 128 ^ suc k → size (above v) < 64 * 128 ^ k
smaller (pos n) k h = omega (arith, pow-suc 128 k)
smaller (negsuc n) k h = omega (arith, pow-suc 128 k)

encode_sleb_rounds_lem :
    (k : ℕ) (v : ℤ) (out : Bytes)
    → size v < 64 * 128 ^ k
    → encode_sleb_rounds (suc k) out v ≡ done (out ++ signed_groups k v)
unfolding signed_groups
encode_sleb_rounds_lem zero v out h =
    let last : ltb (size v) 64 ≡ true = ground arith in rw (round_of 0 v out, last)
encode_sleb_rounds_lem (suc k) v out h = elim (Bool-cases (ltb (size v) 64)) [
  | inl last ↦ rw (round_of (suc k) v out, last)
  | inr more ↦
      rw (round_of (suc k) v out, more)
        (encode_sleb_rounds_lem k (above v) (out ++ ((group v + 128) ∷ [])) (smaller v k h)
          ∙ ap done (append_assoc out ((group v + 128) ∷ []) (signed_groups k (above v))))
]

-- Room for more groups than it takes changes nothing.
pub signed_groups-extra :
    (k m : ℕ) (v : ℤ) → size v < 64 * 128 ^ k → k ≤ m → signed_groups m v ≡ signed_groups k v
unfolding signed_groups
signed_groups-extra zero zero v h hm = refl
signed_groups-extra zero (suc m) v h hm =
    let last : ltb (size v) 64 ≡ true = ground arith in rw last
signed_groups-extra (suc k) zero v h hm = absurd (omega arith)
signed_groups-extra (suc k) (suc m) v h hm =
    rw (signed_groups-extra k m (above v) (smaller v k h) (omega arith))

pub encode_sleb_lem :
    (out : Bytes) (v : ℤ) → size v < 2 ^ 63 → encode_sleb out v ≡ done (out ++ signed_encoding v)
unfolding encode_sleb signed_encoding
encode_sleb_lem out v h = encode_sleb_rounds_lem 9 v out (omega arith)
