-- ===== src/Uleb/Encode.antt =====
-- What `uleb_put` appends.
use crabcraft.Prelude.{
  ℕ, zero, suc, ◌+◌, ◌/◌, ◌%◌, ◌^◌, ◌≤◌, ◌<◌, ◌≡◌, refl, sym, ◌∙◌, ap, arith, ltb, true, false, [],
  ◌∷◌, ◌++◌, Bytes, IsByte, All, length, ◌==◌, if◌then◌else◌,
}
use native.Mathlib.Nat.{pow-suc}
use native.Mathlib.Decide.{dec_lt}
use crabcraft.Prelude.Bits.{bit_and_127, bit_or_128}
use crabcraft.Buffer.{Allocator, Buf}
use crabcraft.Buffer.Valid.{limit, IsValid, contents, Plentiful}
use crabcraft.Buffer.Appends.{Writes, Appends, Appends-done, Appends-then, bput-Appends}
use crabcraft.Uleb.{uleb_byte, uleb_loop, uleb_put}

-- The groups of seven bits of `v`, lowest first, at most `k + 1` of them.
unfoldable pub groups : ℕ → ℕ → Bytes
groups zero v = v ∷ []
groups (suc k) v =
    let rest = groups k (v / 128) in if ltb v 128 then v ∷ [] else (v % 128 + 128) ∷ rest

-- The encoding of a 64-bit number.
unfoldable pub encoding : ℕ → Bytes
encoding v = groups 9 v

last_byte : (v : ℕ) → v < 128 → uleb_byte v ≡ v
unfolding uleb_byte
last_byte v h = ground (arith, bit_and_127 v)

inner_byte : (v : ℕ) → 128 ≤ v → uleb_byte v ≡ v % 128 + 128
unfolding uleb_byte
inner_byte v h = ground (arith, bit_and_127 v, bit_or_128 (v % 128) (omega arith))

uleb_last :
    (heap : Allocator) (rounds v : ℕ)
    → Plentiful heap
    → v < 128
    → Appends (λ b. uleb_loop heap (suc rounds) b v) (v ∷ [])
unfolding uleb_loop
uleb_last heap rounds v serves h =
    let test : (v / 128 == 0) ≡ true = ground arith in
    rw (test, last_byte v h) (Appends-then (bput-Appends heap serves (v ∷ [])) Appends-done)

uleb_inner :
    (heap : Allocator) (rounds v : ℕ) {xs : Bytes}
    → Plentiful heap
    → 128 ≤ v
    → Appends (λ b. uleb_loop heap rounds b (v / 128)) xs
    → Appends (λ b. uleb_loop heap (suc rounds) b v) ((v % 128 + 128) ∷ xs)
unfolding uleb_loop
uleb_inner heap rounds v serves h rest =
    let test : (v / 128 == 0) ≡ false = ground arith in
    rw (test, inner_byte v h) (Appends-then (bput-Appends heap serves ((v % 128 + 128) ∷ [])) rest)

pub groups_last : (k v : ℕ) → v < 128 → groups k v ≡ v ∷ []
unfolding groups
groups_last zero v h = refl
groups_last (suc k) v h = ground arith

pub groups_inner : (k v : ℕ) → 128 ≤ v → groups (suc k) v ≡ (v % 128 + 128) ∷ groups k (v / 128)
unfolding groups
groups_inner k v h = ground arith

uleb_loop-Appends :
    (heap : Allocator) (k v : ℕ)
    → Plentiful heap
    → v < 128 ^ suc k
    → Appends (λ b. uleb_loop heap (suc k) b v) (groups k v)
uleb_loop-Appends heap zero v serves h =
    rw (groups_last 0 v (omega arith)) (uleb_last heap 0 v serves (omega arith))
uleb_loop-Appends heap (suc k) v serves h = elim (dec_lt v 128) [
  | yes last ↦ rw (groups_last (suc k) v last) (uleb_last heap (suc k) v serves last)
  | no more ↦
      let small : v / 128 < 128 ^ suc k = omega (arith, pow-suc 128 (suc k)) in
      rw (groups_inner k v (omega arith)) (
        uleb_inner heap (suc k) v serves (omega arith)
          (uleb_loop-Appends heap k (v / 128) serves small))
]

pub uleb_put-Appends :
    (heap : Allocator) (v : ℕ)
    → Plentiful heap
    → v < 2 ^ 64
    → Appends (λ b. uleb_put heap b v) (encoding v)
unfolding uleb_put encoding
uleb_put-Appends heap v serves h = uleb_loop-Appends heap 9 v serves (omega arith)

-- On a valid buffer with room, `uleb_put` of a 64-bit number ends within its ten rounds, without a
-- fault, and appends the encoding of the number.
pub uleb_put_lem :
    (heap : Allocator) (b : Buf) (v : ℕ)
    → Plentiful heap
    → IsValid b
    → v < 2 ^ 64
    → length (contents b) + length (encoding v) ≤ limit
    → Writes (uleb_put heap b v) (contents b ++ encoding v)
uleb_put_lem heap b v serves valid h room = (uleb_put-Appends heap v serves h).run b valid room

groups-IsByte : (k v : ℕ) → v < 128 ^ suc k → All IsByte (groups k v)
groups-IsByte zero v h = rw (groups_last 0 v (omega arith)) (omega arith)
groups-IsByte (suc k) v h = elim (dec_lt v 128) [
  | yes last ↦ rw (groups_last (suc k) v last) (omega arith)
  | no more ↦
      rw (groups_inner k v (omega arith))
        (omega arith, groups-IsByte k (v / 128) (omega (arith, pow-suc 128 (suc k))))
]

-- As many groups as `v` needs: a number of `n + 1` groups is below `128 ^ (n + 1)`, and no smaller
-- number of groups would do.
abbrev pub Shortest : ℕ → Bytes → Type 0
Shortest v xs = (n : ℕ) × (length xs ≡ suc n) × (v < 128 ^ suc n) × (0 < n → 128 ^ n ≤ v)

Shortest-last : (v : ℕ) → v < 128 → Shortest v (v ∷ [])
Shortest-last v h = (0, refl, omega arith, λ p. absurd (omega arith))

Shortest-inner : (v x : ℕ) (xs : Bytes) → 128 ≤ v → Shortest (v / 128) xs → Shortest v (x ∷ xs)
Shortest-inner v x xs h (n, len, high, low) = (
  suc n,
  omega arith,
  omega (arith, pow-suc 128 (suc n)),
  λ p. elim (dec_lt 0 n) [
    | yes q ↦ omega (arith, pow-suc 128 n, low q)
    | no q ↦ first n (omega arith)
  ],
)
  where
    first : (n : ℕ) → n ≡ 0 → 128 ^ suc n ≤ v
    first n e = rw e h

pub groups-Shortest : (k v : ℕ) → v < 128 ^ suc k → Shortest v (groups k v)
groups-Shortest zero v h = rw (groups_last 0 v (omega arith)) (Shortest-last v (omega arith))
groups-Shortest (suc k) v h = elim (dec_lt v 128) [
  | yes last ↦ rw (groups_last (suc k) v last) (Shortest-last v last)
  | no more ↦
      let small : v / 128 < 128 ^ suc k = omega (arith, pow-suc 128 (suc k)) in
      rw (groups_inner k v (omega arith)) (
        Shortest-inner v (v % 128 + 128) (groups k (v / 128)) (omega arith)
          (groups-Shortest k (v / 128) small))
]

-- The encoding of a 64-bit number consists of bytes, and of as many groups of seven bits as the
-- number needs.
pub encoding_shape : (v : ℕ) → v < 2 ^ 64 → All IsByte (encoding v) × Shortest v (encoding v)
unfolding encoding
encoding_shape v h = (groups-IsByte 9 v (omega arith), groups-Shortest 9 v (omega arith))

length-groups : (k v : ℕ) → length (groups k v) ≤ k + 1
unfolding groups
length-groups zero v = omega arith
length-groups (suc k) v = ground (arith, length-groups k (v / 128))

pub length-encoding : (v : ℕ) → length (encoding v) ≤ 10
unfolding encoding
length-encoding v = length-groups 9 v

-- More room does not change the groups.
pub groups-extra : (k m v : ℕ) → v < 128 ^ suc k → k ≤ m → groups m v ≡ groups k v
groups-extra zero m v h hm = groups_last m v (omega arith) ∙ sym (groups_last 0 v (omega arith))
groups-extra (suc k) zero v h hm = absurd (omega arith)
groups-extra (suc k) (suc m) v h hm = elim (dec_lt v 128) [
  | yes last ↦ groups_last (suc m) v last ∙ sym (groups_last (suc k) v last)
  | no more ↦
      let small : v / 128 < 128 ^ suc k = omega (arith, pow-suc 128 (suc k)) in
      groups_inner m v (omega arith)
      ∙ ap (λ (t : Bytes). (v % 128 + 128) ∷ t) (groups-extra k m (v / 128) small (omega arith))
      ∙ sym (groups_inner k v (omega arith))
]

pub encoding_32 : (v : ℕ) → v < 2 ^ 32 → encoding v ≡ groups 4 v
unfolding encoding
encoding_32 v h = groups-extra 4 9 v (omega arith) (omega arith)
