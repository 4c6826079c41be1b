-- ===== src/Cpp/Utf8/Whole.antt =====
-- `Utf8Valid` of tools/crabgen/templates/cpp/crab.cpp accepts UTF-8, and nothing else.
use crabcraft.Prelude.{
  ℕ, zero, suc, ◌<◌, ◌≡◌, ◌↔◌, refl, sym, ◌∙◌, ap, arith, Bool, true, false, Option, none, some,
  List, [], ◌∷◌, ◌++◌, Bytes, IsByte, All, length, length-append, drop, length-drop, ltb,
  Option-cases, inl, inr, done,
}
use crabcraft.Cpp.Utf8.{utf8_rounds, utf8_valid}
use crabcraft.Cpp.Utf8.Scalars.{IsScalar, encode_scalar, encode_scalars, one, one_sound}
use crabcraft.Cpp.Utf8.Complete.{one-encode_scalar}
use crabcraft.Cpp.Utf8.Valid.{load-drop, round, round-one}

-- Some scalar values whose encodings make up the text.
abbrev pub IsUtf8 : Bytes → Type 0
IsUtf8 s = (xs : List ℕ) × All IsScalar xs × (encode_scalars xs ≡ s)

-- One character after another, within `rounds` rounds.
unfoldable pub characters : ℕ → Bytes → Bool
characters zero s = false
characters (suc rounds) [] = true
characters (suc rounds) (c ∷ s) = elim (one (c ∷ s)) [
  | none ↦ false
  | some (x, t) ↦ characters rounds t
]

encode_scalar-length : (x : ℕ) → 0 < length (encode_scalar x)
unfolding encode_scalar
encode_scalar-length x = ground arith

one_shorter : (s : Bytes) {x : ℕ} {t : Bytes} → one s ≡ some (x, t) → length t < length s
one_shorter s {x} {t} e =
    let (scalar, begins) = one_sound s e in
    let size = ap (λ (r : Bytes). length r) begins in
    omega (arith, size, length-append (encode_scalar x) t, encode_scalar-length x)

utf8_end :
    (p : Bytes) (rounds i : ℕ) → drop i p ≡ [] → utf8_rounds p (length p) (suc rounds) i ≡ done true
unfolding utf8_rounds
utf8_end p rounds i at =
    let size = ap (λ (t : Bytes). length t) at in
    let dropped = length-drop i p in let test : ltb i (length p) ≡ false = ground arith in rw test

utf8_round :
    (p : Bytes) (rounds i c : ℕ) (s : Bytes) {next : Option ℕ}
    → drop i p ≡ c ∷ s
    → round p i c ≡ done next
    → utf8_rounds p (length p) (suc rounds) i
      ≡ elim next [ none ↦ done false | some i' ↦ utf8_rounds p (length p) rounds i' ]
unfolding utf8_rounds
utf8_round p rounds i c s at ran =
    let size = ap (λ (t : Bytes). length t) at in
    let dropped = length-drop i p in
    let (got, rest) = load-drop p i c s at in
    let test : ltb i (length p) ≡ true = ground arith in rw (test, got, ran)

characters_step :
    (rounds : ℕ) (s : Bytes) {x : ℕ} {t : Bytes}
    → one s ≡ some (x, t)
    → characters (suc rounds) s ≡ characters rounds t
unfolding characters
characters_step rounds [] e = unfold one in cc (e)
characters_step rounds (c ∷ s) e = rw (characters, e)

characters_stop :
    (rounds c : ℕ) (s : Bytes) → one (c ∷ s) ≡ none → characters (suc rounds) (c ∷ s) ≡ false
unfolding characters
characters_stop rounds c s e = rw (characters, e)

utf8_rounds-characters :
    (p : Bytes) (rounds i : ℕ) (s : Bytes)
    → All IsByte p
    → drop i p ≡ s
    → length s < rounds
    → utf8_rounds p (length p) rounds i ≡ done (characters rounds s)
unfolding characters
utf8_rounds-characters p zero i s bytes at enough = absurd (omega arith)
utf8_rounds-characters p (suc rounds) i [] bytes at enough = utf8_end p rounds i at
utf8_rounds-characters p (suc rounds) i (c ∷ s) bytes at enough =
    let step = round-one p i c s bytes at in
    elim (Option-cases (one (c ∷ s))) [
      | inl bad ↦
          rw (characters_stop rounds c s bad)
            (utf8_round p rounds i c s {next = none} at (rw bad at step))
      | inr ((x, t), good) ↦
          let (i', ran, rest) = rw good at step in
          let shorter = one_shorter (c ∷ s) good in
          rw (characters_step rounds (c ∷ s) good) (
            utf8_round p rounds i c s {next = some i'} at ran
            ∙ utf8_rounds-characters p rounds i' t bytes rest (omega arith))
    ]

characters_sound : (rounds : ℕ) (s : Bytes) → characters rounds s ≡ true → IsUtf8 s
unfolding characters encode_scalars
characters_sound zero s e = cc
characters_sound (suc rounds) [] e = ([], tt, refl)
characters_sound (suc rounds) (c ∷ s) e = elim (Option-cases (one (c ∷ s))) [
  | inl bad ↦ cc (sym (characters_stop rounds c s bad) ∙ e)
  | inr ((x, t), good) ↦
      let (scalar, begins) = one_sound (c ∷ s) good in
      let (xs, scalars, spelled) =
        characters_sound rounds t (sym (characters_step rounds (c ∷ s) good) ∙ e) in
      (x ∷ xs, (scalar, scalars), ap (λ (r : Bytes). encode_scalar x ++ r) spelled ∙ sym begins)
]

characters_complete :
    (rounds : ℕ) (xs : List ℕ)
    → All IsScalar xs
    → length (encode_scalars xs) < rounds
    → characters rounds (encode_scalars xs) ≡ true
unfolding encode_scalars
characters_complete zero xs scalars enough = absurd (omega arith)
characters_complete (suc rounds) [] scalars enough = unfold characters in refl
characters_complete (suc rounds) (x ∷ xs) (scalar, scalars) enough =
    let size = length-append (encode_scalar x) (encode_scalars xs) in
    characters_step rounds (encode_scalar x ++ encode_scalars xs)
      (one-encode_scalar x (encode_scalars xs) scalar)
    ∙ characters_complete rounds xs scalars (omega (arith, encode_scalar-length x))

-- Whether a text is UTF-8.
unfoldable pub is_utf8 : Bytes → Bool
is_utf8 s = characters (suc (length s)) s

pub is_utf8_iff : (s : Bytes) → (is_utf8 s ≡ true) ↔ IsUtf8 s
unfolding is_utf8
is_utf8_iff s = ((λ e. characters_sound (suc (length s)) s e), complete)
  where
    complete : IsUtf8 s → characters (suc (length s)) s ≡ true
    complete (xs, scalars, spelled) =
        rw (← spelled)
          (characters_complete (suc (length (encode_scalars xs))) xs scalars (omega arith))

pub utf8_valid-is_utf8 : (p : Bytes) → All IsByte p → utf8_valid p (length p) ≡ done (is_utf8 p)
unfolding utf8_valid is_utf8
utf8_valid-is_utf8 p bytes = utf8_rounds-characters p (suc (length p)) 0 p bytes refl (omega arith)

-- The validator ends on any bytes, reads none beyond them, and accepts them just when they are the
-- encoding of some scalar values.
pub utf8_valid_iff :
    (p : Bytes)
    → All IsByte p
    → (valid : Bool) × (utf8_valid p (length p) ≡ done valid) × ((valid ≡ true) ↔ IsUtf8 p)
utf8_valid_iff p bytes = (is_utf8 p, utf8_valid-is_utf8 p bytes, is_utf8_iff p)
