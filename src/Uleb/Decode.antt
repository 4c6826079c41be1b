-- ===== src/Uleb/Decode.antt =====
-- `uleb_get32` against a description of the format on lists.
use crabcraft.Prelude.{
  ℕ, zero, suc, ◌+◌, ◌*◌, ◌/◌, ◌%◌, ◌^◌, ◌≤◌, ◌<◌, ◌≡◌, refl, ◌∙◌, ap, arith, Bool-cases, inl, inr,
  true, false, not, ◌&&◌, Option, none, some, [], ◌∷◌, ◌++◌, append_assoc, Bytes, IsByte, All,
  length, drop, drop-append, length-append, ltb, leb, ◌==◌, if◌then◌else◌, Outcome, done,
}
use Prim.Native.Nat.{bit_and}
use crabcraft.Prelude.Bits.{bit_and_127, bit_and_128, bit_or_fields}
use crabcraft.Buffer.{size_mod}
use crabcraft.Uleb.{load, get_loop, uleb_get32}
use native.Mathlib.Numerals.{towards_suc}

-- A value put behind `low`, at the weight `m`.
abbrev pub extend : ℕ → ℕ → Option (ℕ × Bytes) → Option (ℕ × Bytes)
extend low m none = none
extend low m (some (v, rest)) = some (low + v * m, rest)

-- Little-endian groups of seven bits: up to `rounds` bytes, all but the last with the top bit set,
-- and the fifth below 16. The result is the value and what follows it.
unfoldable pub read_groups : ℕ → Bytes → Option (ℕ × Bytes)
read_groups zero s = none
read_groups (suc rounds) [] = none
read_groups (suc rounds) (c ∷ s) =
    let more = extend (c % 128) 128 (read_groups rounds s) in
    if (rounds == 0) && not (ltb (c % 128) 16)
    then none
    else if ltb c 128
    then some (c, s)
    else more

-- `got` is the final position and the value; `spec` says what it has to be on the input `p`.
abbrev pub Agrees : Bytes → ℕ × Option ℕ → Option (ℕ × Bytes) → Type 0
Agrees p got none = got.1 ≡ none
Agrees p got (some (v, rest)) = (got.1 ≡ some v) × (got.0 ≤ length p) × (drop got.0 p ≡ rest)

load-append : (front s : Bytes) (c : ℕ) → load (front ++ (c ∷ s)) (length front) ≡ done c
unfolding load
load-append [] s c = refl
load-append (x ∷ front) s c = load-append front s c

-- One round on the byte `c`, the test of the position and the load done.
abbrev round : Bytes → ℕ → ℕ → ℕ → ℕ → ℕ → ℕ → Outcome (ℕ × Option ℕ)
round p len rounds i pos result c =
    if (i == 4) && not (ltb (c % 128) 16)
    then done (pos, none)
    else if ltb c 128
    then done (pos, some (result + c % 128 * 2 ^ (7 * i)))
    else get_loop p len rounds (i + 1) pos (result + c % 128 * 2 ^ (7 * i))

-- The fifth group has four bits at most, so that no group is shifted out of the 32 bits.
group_fits :
    (i g : ℕ)
    → i ≤ 4
    → g < 128
    → ((i == 4) && not (ltb g 16)) ≡ false
    → g * 2 ^ (7 * i) % 2 ^ 32 ≡ g * 2 ^ (7 * i)
group_fits zero g hi hg h = omega arith
group_fits (suc zero) g hi hg h = omega arith
group_fits (suc (suc zero)) g hi hg h = omega arith
group_fits (suc (suc (suc zero))) g hi hg h = omega arith
group_fits (suc (suc (suc (suc zero)))) g hi hg h = ground arith
group_fits (suc (suc (suc (suc (suc i))))) g hi hg h = absurd (omega arith)

overflow_test : (g : ℕ) → not (g / 16 == 0) ≡ not (ltb g 16)
overflow_test g = ground arith

last_test : (c : ℕ) → c < 256 → (bit_and c 0x80 == 0) ≡ ltb c 128
last_test c h = ground (arith, bit_and_128 c)

get_loop-round :
    (front s : Bytes) (c rounds i result : ℕ)
    → c < 256
    → length (front ++ (c ∷ s)) < size_mod
    → result < 2 ^ (7 * i)
    → i ≤ 4
    → get_loop (front ++ (c ∷ s)) (length (front ++ (c ∷ s))) (suc rounds) i (length front) result
      ≡ round (front ++ (c ∷ s)) (length (front ++ (c ∷ s))) rounds i (length front + 1) result c
unfolding get_loop
get_loop-round front s c rounds i result hc hp hr hi =
    let size = length-append front (c ∷ s) in
    let test : leb (length (front ++ (c ∷ s))) (length front) ≡ false = ground arith in
    let next : (length front + 1) % size_mod ≡ length front + 1 = omega arith in
    rw (test, load-append front s c, next, bit_and_127 c, overflow_test (c % 128), last_test c hc)
      (elim (Bool-cases ((i == 4) && not (ltb (c % 128) 16))) [
        | inl over ↦ rw over
        | inr fits ↦
            let g = c % 128 in
            rw (fits, group_fits i g hi (omega arith) fits, bit_or_fields (7 * i) result g hr)
      ])

weight-suc : (i : ℕ) → 2 ^ (7 * (i + 1)) ≡ 2 ^ (7 * i) * 128
weight-suc i =
    let seven : 7 * (i + 1) ≡ 7 * i + 7 = omega arith in
    ap (λ (k : ℕ). 2 ^ k) seven ∙ simp towards_suc (omega arith)

pub extend-extend :
    (low g m : ℕ) (o : Option (ℕ × Bytes))
    → extend low m (extend g 128 o) ≡ extend (low + g * m) (m * 128) o
extend-extend low g m none = refl
extend-extend low g m (some (v, rest)) = ap (λ (t : ℕ). some (t, rest)) (omega arith)

-- The C loop from position `length front` on, the groups before it in `result`.
abbrev LoopAgrees : Bytes → Bytes → ℕ → ℕ → ℕ → Type 0
LoopAgrees front s rounds i result =
    (got : ℕ × Option ℕ) × (get_loop (front ++ s) (length (front ++ s)) rounds i (length front)
        result
      ≡ done got)
    × Agrees (front ++ s) got (extend result (2 ^ (7 * i)) (read_groups rounds s))

get_loop_end : (front : Bytes) (rounds i result : ℕ) → LoopAgrees front [] (suc rounds) i result
unfolding get_loop read_groups
get_loop_end front rounds i result =
    let size = length-append front [] in
    let test : leb (length (front ++ [])) (length front) ≡ true = ground arith in
    ((length front, none), rw test, refl)

pub read_groups_over :
    (c rounds : ℕ) (s : Bytes)
    → ((rounds == 0) && not (ltb (c % 128) 16)) ≡ true
    → read_groups (suc rounds) (c ∷ s) ≡ none
unfolding read_groups
read_groups_over c rounds s over = rw over

pub read_groups_last :
    (c rounds : ℕ) (s : Bytes)
    → ((rounds == 0) && not (ltb (c % 128) 16)) ≡ false
    → ltb c 128 ≡ true
    → read_groups (suc rounds) (c ∷ s) ≡ some (c, s)
unfolding read_groups
read_groups_last c rounds s fits last = rw (fits, last)

pub read_groups_more :
    (c rounds : ℕ) (s : Bytes)
    → ((rounds == 0) && not (ltb (c % 128) 16)) ≡ false
    → ltb c 128 ≡ false
    → read_groups (suc rounds) (c ∷ s) ≡ extend (c % 128) 128 (read_groups rounds s)
unfolding read_groups
read_groups_more c rounds s fits more = rw (fits, more)

low_group : (c : ℕ) → ltb c 128 ≡ true → c % 128 ≡ c
low_group c last = ground arith

get_loop_step :
    (front s : Bytes) (c rounds i result : ℕ)
    → c < 256
    → length (front ++ (c ∷ s)) < size_mod
    → result < 2 ^ (7 * i)
    → i + suc rounds ≡ 5
    → LoopAgrees (front ++ (c ∷ [])) s rounds (i + 1) (result + c % 128 * 2 ^ (7 * i))
    → LoopAgrees front (c ∷ s) (suc rounds) i result
get_loop_step front s c rounds i result hc hp hr hi later =
    let g = c % 128 in
    let same : ((rounds == 0) && not (ltb (c % 128) 16)) ≡ ((i == 4) && not (ltb (c % 128) 16)) =
      ground arith in
    let size : length (front ++ (c ∷ [])) ≡ length front + 1 = length-append front (c ∷ []) in
    let whole = length-append front (c ∷ s) in
    rw (get_loop-round front s c rounds i result hc hp hr (omega arith))
      (elim (Bool-cases ((i == 4) && not (ltb g 16))) [
        | inl over ↦
            ((length front + 1, none), rw over, rw (read_groups_over c rounds s (same ∙ over)))
        | inr fits ↦ elim (Bool-cases (ltb c 128)) [
          | inl last ↦ (
            (length front + 1, some (result + g * 2 ^ (7 * i))),
            rw (fits, last),
            rw (read_groups_last c rounds s (same ∙ fits) last) (
              ap (λ (t : ℕ). some (result + t * 2 ^ (7 * i))) (low_group c last),
              omega arith,
              rw (← append_assoc front (c ∷ []) s) (drop-append _ (front ++ (c ∷ [])) s size),
            ),
          )
          | inr more ↦
              let (got, run, agrees) =
                rw (append_assoc front (c ∷ []) s, size, weight-suc i) at later in
              (
                got,
                rw (fits, more) run,
                rw (read_groups_more c rounds s (same ∙ fits) more, extend-extend) agrees,
              )
        ]
      ])

pub group_below : (low g m : ℕ) → low < m → g < 128 → low + g * m < m * 128
group_below low g m h hg = grind arith

get_loop-read_groups :
    (rounds : ℕ) (front s : Bytes) (i result : ℕ)
    → i + rounds ≡ 5
    → All IsByte s
    → length (front ++ s) < size_mod
    → result < 2 ^ (7 * i)
    → LoopAgrees front s rounds i result
get_loop-read_groups zero front s i result hi hs hp hr =
    ((length front, none), unfold get_loop in refl, unfold read_groups in refl)
get_loop-read_groups (suc rounds) front [] i result hi hs hp hr = get_loop_end front rounds i result
get_loop-read_groups (suc rounds) front (c ∷ s) i result hi (hc, hs) hp hr =
    get_loop_step front s c rounds i result hc hp hr hi (
      get_loop-read_groups rounds (front ++ (c ∷ [])) s (i + 1) (result + c % 128 * 2 ^ (7 * i))
        (omega arith) hs (rw (append_assoc front (c ∷ []) s) hp)
        (rw weight-suc (group_below result (c % 128) (2 ^ (7 * i)) hr (omega arith))))

-- Reading at position `length front` of the bytes `front ++ s`, with `len` the length of all of
-- them, never faults. It gives the value that the format assigns to the start of `s` and the
-- position behind it, and -1 just where the format has no value there.
pub uleb_get32-read_groups :
    (front s : Bytes)
    → All IsByte s
    → length (front ++ s) < size_mod
    → (got : ℕ × Option ℕ) × (uleb_get32 (front ++ s) (length (front ++ s)) (length front)
        ≡ done got)
      × Agrees (front ++ s) got (read_groups 5 s)
unfolding uleb_get32
uleb_get32-read_groups front s hs hp =
    rw (← extend_zero (read_groups 5 s))
      (get_loop-read_groups 5 front s 0 0 refl hs hp (omega arith))
  where
    extend_zero : (o : Option (ℕ × Bytes)) → extend 0 1 o ≡ o
    extend_zero none = refl
    extend_zero (some (v, rest)) = ap (λ (t : ℕ). some (t, rest)) (omega arith)
