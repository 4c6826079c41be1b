-- ===== src/Cpp/Encode/Uleb.antt =====
-- `EncodeUleb` of tools/crabgen/templates/cpp/crab.cpp against the encoding of the C guest.
use crabcraft.Prelude.{
  ℕ, zero, suc, ◌+◌, ◌/◌, ◌%◌, ◌^◌, ◌≤◌, ◌<◌, ◌≡◌, ◌∙◌, ap, arith, true, false, [], ◌∷◌, ◌++◌,
  append_assoc, Bytes, ◌==◌, done,
}
use crabcraft.Prelude.Bits.{bit_and_127, bit_or_128}
use crabcraft.Uleb.Encode.{groups, groups_last, groups_inner, encoding}
use crabcraft.Cpp.Encode.{encode_uleb, encode_uleb_rounds}
use native.Mathlib.Nat.{pow-suc}
use native.Mathlib.Decide.{dec_lt}

rounds_last :
    (rounds v : ℕ) (out : Bytes)
    → v < 128
    → encode_uleb_rounds (suc rounds) out v ≡ done (out ++ (v ∷ []))
unfolding encode_uleb_rounds
rounds_last rounds v out h =
    let test : (v / 2 ^ 7 == 0) ≡ true = ground arith in
    let same : v % 128 ≡ v = omega arith in rw (test, bit_and_127 v, same)

rounds_inner :
    (rounds v : ℕ) (out : Bytes)
    → 128 ≤ v
    → encode_uleb_rounds (suc rounds) out v
      ≡ encode_uleb_rounds rounds (out ++ ((v % 128 + 128) ∷ [])) (v / 128)
unfolding encode_uleb_rounds
rounds_inner rounds v out h =
    let test : (v / 2 ^ 7 == 0) ≡ false = ground arith in
    rw (test, bit_and_127 v, bit_or_128 (v % 128) (omega arith))

encode_uleb_rounds_lem :
    (k v : ℕ) (out : Bytes)
    → v < 128 ^ suc k
    → encode_uleb_rounds (suc k) out v ≡ done (out ++ groups k v)
encode_uleb_rounds_lem zero v out h =
    rw (groups_last 0 v (omega arith)) (rounds_last 0 v out (omega arith))
encode_uleb_rounds_lem (suc k) v out h = elim (dec_lt v 128) [
  | yes last ↦ rw (groups_last (suc k) v last) (rounds_last (suc k) v out last)
  | no more ↦
      let small : v / 128 < 128 ^ suc k = omega (arith, pow-suc 128 (suc k)) in
      rw (rounds_inner (suc k) v out (omega arith), groups_inner k v (omega arith))
        (encode_uleb_rounds_lem k (v / 128) (out ++ ((v % 128 + 128) ∷ [])) small
          ∙ ap done (append_assoc out ((v % 128 + 128) ∷ []) (groups k (v / 128))))
]

pub encode_uleb_lem :
    (out : Bytes) (v : ℕ) → v < 2 ^ 64 → encode_uleb out v ≡ done (out ++ encoding v)
unfolding encode_uleb encoding
encode_uleb_lem out v h = encode_uleb_rounds_lem 9 v out (omega arith)
