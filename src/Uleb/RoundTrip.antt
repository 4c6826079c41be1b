-- ===== src/Uleb/RoundTrip.antt =====
-- What the encoder and the decoder have to do with one another.
use crabcraft.Prelude.{
  ℕ, zero, suc, ◌+◌, ◌*◌, ◌/◌, ◌%◌, ◌^◌, ◌≤◌, ◌<◌, ◌≡◌, refl, sym, ◌∙◌, ap, arith, Bool-cases, inl,
  inr, true, false, not, ◌&&◌, Option, none, some, [], ◌∷◌, ◌++◌, Bytes, IsByte, All, All-append,
  length, length-drop, length-append, ltb, ◌==◌, done, done-injective,
}
use crabcraft.Buffer.{size_mod}
use crabcraft.Uleb.{uleb_get32}
use crabcraft.Uleb.Encode.{groups, groups_last, groups_inner, encoding, encoding_32, encoding_shape}
use crabcraft.Uleb.Decode.{
  read_groups_over, read_groups_last, read_groups_more, extend, read_groups, Agrees,
  uleb_get32-read_groups,
}
use native.Mathlib.Nat.{pow-suc, one-le-pow}
use native.Mathlib.Decide.{dec_lt}

read_last :
    (rounds v : ℕ) (rest : Bytes)
    → v < 128
    → v < 16 * 128 ^ rounds
    → read_groups (suc rounds) (v ∷ rest) ≡ some (v, rest)
unfolding read_groups
read_last zero v rest h fits = ground arith
read_last (suc rounds) v rest h fits = ground arith

read_inner :
    (rounds v : ℕ) (s : Bytes)
    → read_groups (suc (suc rounds)) ((v % 128 + 128) ∷ s)
      ≡ extend (v % 128) 128 (read_groups (suc rounds) s)
unfolding read_groups
read_inner rounds v s =
    let group : (v % 128 + 128) % 128 ≡ v % 128 = omega arith in
    let first : (suc rounds == 0) ≡ false = ground arith in
    let more : ltb (v % 128 + 128) 128 ≡ false = ground arith in rw (first, more, group)

pub read_groups-groups :
    (k v : ℕ) (rest : Bytes)
    → v < 16 * 128 ^ k
    → read_groups (suc k) (groups k v ++ rest) ≡ some (v, rest)
read_groups-groups zero v rest h =
    rw (groups_last 0 v (omega arith)) (read_last 0 v rest (omega arith) h)
read_groups-groups (suc k) v rest h = elim (dec_lt v 128) [
  | yes last ↦ rw (groups_last (suc k) v last) (read_last (suc k) v rest last h)
  | no more ↦
      let small : v / 128 < 16 * 128 ^ k = omega (arith, pow-suc 128 k) in
      rw
        (
          groups_inner k v (omega arith),
          read_inner k v (groups k (v / 128) ++ rest),
          read_groups-groups k (v / 128) rest small,
        )
        (ap (λ (t : ℕ). some (t, rest)) (omega arith))
]

pub read_groups-encoding :
    (v : ℕ) (rest : Bytes) → v < 2 ^ 32 → read_groups 5 (encoding v ++ rest) ≡ some (v, rest)
read_groups-encoding v rest h = rw (encoding_32 v h) (read_groups-groups 4 v rest (omega arith))

-- A 32-bit number that stands encoded behind any bytes and before any others is read back, and the
-- position moves to the byte behind it.
pub uleb_get32-encoding :
    (front rest : Bytes) (v : ℕ)
    → All IsByte rest
    → v < 2 ^ 32
    → length (front ++ (encoding v ++ rest)) < size_mod
    → uleb_get32
        (front ++ (encoding v ++ rest))
        (length (front ++ (encoding v ++ rest)))
        (length front)
      ≡ done (length front + length (encoding v), some v)
uleb_get32-encoding front rest v bytes h fits =
    let s = encoding v ++ rest in
    let (shape, _) = encoding_shape v (omega arith) in
    let (got, run, agrees) =
      uleb_get32-read_groups front s (All-append IsByte (encoding v) rest shape bytes) fits in
    let (value, inside, behind) = rw (read_groups-encoding v rest h) at agrees in
    let left = ap (λ (t : Bytes). length t) behind in
    let pos : got.0 ≡ length front + length (encoding v) = omega (
      arith,
      left,
      length-drop got.0 (front ++ s),
      length-append front s,
      length-append (encoding v) rest,
    ) in
    run ∙ λ i. done (pos i, value i)

extend_inv :
    (low m : ℕ) (o : Option (ℕ × Bytes)) {v : ℕ} {rest : Bytes}
    → extend low m o ≡ some (v, rest)
    → (w : ℕ) × (o ≡ some (w, rest)) × (v ≡ low + w * m)
extend_inv low m none e = cc
extend_inv low m (some (w, rest')) e = (w, ground arith, ground arith)

-- What a successful read promises: the value fits in 32 bits, one to five bytes were taken, and
-- they lie inside the buffer.
last_bound :
    (rounds c : ℕ) (s : Bytes) {v : ℕ} {rest : Bytes}
    → ◌≡◌ {A = Option (ℕ × Bytes)} (some (c, s)) (some (v, rest))
    → ((rounds == 0) && not (ltb (c % 128) 16)) ≡ false
    → ltb c 128 ≡ true
    → (v * 128 < 16 * 128 ^ suc rounds)
      × (length rest < suc (length s))
      × (suc (length s) ≤ length rest + suc rounds)
last_bound zero c s e fits last = ground arith
last_bound (suc r) c s {v} {rest} e fits last =
    let value : v ≡ c = ground arith in
    let tail : length rest ≡ length s = ground arith in
    let small : c < 128 = ground arith in
    (
      omega (arith, pow-suc 128 (suc r), pow-suc 128 r, one-le-pow r 128 (omega arith)),
      omega arith,
      omega arith,
    )

more_bound :
    (rounds g w : ℕ) (s : Bytes) {rest : Bytes} {v : ℕ}
    → read_groups rounds s ≡ some (w, rest)
    → g < 128
    → w * 128 < 16 * 128 ^ rounds
    → v ≡ g + w * 128
    → v * 128 < 16 * 128 ^ suc rounds
more_bound zero g w s f hg small sum = unfold read_groups in cc
more_bound (suc r) g w s f hg small sum = omega (arith, pow-suc 128 (suc r), pow-suc 128 r)

read_groups_bounds_step :
    (rounds c : ℕ) (s : Bytes) {v : ℕ} {rest : Bytes}
    → read_groups (suc rounds) (c ∷ s) ≡ some (v, rest)
    → c < 256
    → All IsByte s
    → ((w : ℕ) (rest' : Bytes)
        → read_groups rounds s ≡ some (w, rest')
        → (w * 128 < 16 * 128 ^ rounds)
          × (length rest' < length s)
          × (length s ≤ length rest' + rounds))
    → (v * 128 < 16 * 128 ^ suc rounds)
      × (length rest < suc (length s))
      × (suc (length s) ≤ length rest + suc rounds)
read_groups_bounds_step rounds c s {v} {rest} e byte bytes later =
    elim (Bool-cases ((rounds == 0) && not (ltb (c % 128) 16))) [
      | inl over ↦ cc (sym (read_groups_over c rounds s over) ∙ e)
      | inr fits ↦ elim (Bool-cases (ltb c 128)) [
        | inl last ↦
            last_bound rounds c s (sym (read_groups_last c rounds s fits last) ∙ e) fits last
        | inr more ↦
            let (w, f, sum) =
              extend_inv (c % 128) 128 (read_groups rounds s)
                (sym (read_groups_more c rounds s fits more) ∙ e) in
            let (small, shorter, few) = later w rest f in
            (more_bound rounds (c % 128) w s f (omega arith) small sum, omega arith, omega arith)
      ]
    ]

pub read_groups_bounds :
    (rounds : ℕ) (s : Bytes) {v : ℕ} {rest : Bytes}
    → read_groups rounds s ≡ some (v, rest)
    → All IsByte s
    → (v * 128 < 16 * 128 ^ rounds) × (length rest < length s) × (length s ≤ length rest + rounds)
unfolding read_groups
read_groups_bounds zero s e bytes = cc
read_groups_bounds (suc rounds) [] e bytes = cc
read_groups_bounds (suc rounds) (c ∷ s) e (byte, bytes) =
    read_groups_bounds_step rounds c s e byte bytes
      (λ w rest f. read_groups_bounds rounds s {v = w} {rest = rest} f bytes)

-- A read that succeeds, at any position of any bytes: its number fits in 32 bits, one to five bytes
-- were taken, and they lie within the buffer.
pub uleb_get32_bounds :
    (front s : Bytes) (pos v : ℕ)
    → All IsByte s
    → length (front ++ s) < size_mod
    → uleb_get32 (front ++ s) (length (front ++ s)) (length front) ≡ done (pos, some v)
    → (v < 2 ^ 32) × (length front < pos) × (pos ≤ length front + 5) × (pos ≤ length (front ++ s))
uleb_get32_bounds front s pos v bytes fits e =
    let (got, run, agrees) = uleb_get32-read_groups front s bytes fits in
    bounds (read_groups 5 s) refl (rw (done-injective (sym run ∙ e)) at agrees)
  where
    bounds :
        (o : Option (ℕ × Bytes))
        → read_groups 5 s ≡ o
        → Agrees (front ++ s) (pos, some v) o
        → (v < 2 ^ 32)
          × (length front < pos)
          × (pos ≤ length front + 5)
          × (pos ≤ length (front ++ s))
    bounds none q agrees = cc
    bounds (some (w, rest)) q (value, inside, behind) =
        let (small, shorter, few) = read_groups_bounds 5 s q bytes in
        let same : v ≡ w = ground arith in
        let left = ap (λ (t : Bytes). length t) behind in
        let sizes = length-append front s in
        let dropped = length-drop pos (front ++ s) in
        (omega arith, omega arith, omega arith, omega arith)
