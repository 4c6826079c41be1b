-- ===== src/Query/Tail.antt =====
-- What may stand behind the statement of a text, position by position, against the loop over `tail`
-- in guest/sqlite-c/main.c.
use crabcraft.Prelude.{
  ℕ, zero, suc, ◌≤◌, ◌<◌, ◌≡◌, ◌⊎◌, refl, arith, true, false, Option, none, some, [], ◌∷◌, Bytes,
  length, drop, get_or,
}
use crabcraft.Sqlite.{Sqlite}
use crabcraft.Query.{is_blank, only_blanks, behind}

-- A space, a tab, a line feed, a carriage return, a semicolon or a NUL.
abbrev pub IsBlank : ℕ → Type 0
IsBlank c = (c ≡ 32) ⊎ (c ≡ 9) ⊎ (c ≡ 10) ⊎ (c ≡ 13) ⊎ (c ≡ 59) ⊎ (c ≡ 0)

-- Each byte of the text from position `t` on is blank.
abbrev IsBlankFrom : ℕ → Bytes → Type 0
IsBlankFrom t s = (i : ℕ) → t ≤ i → i < length s → IsBlank (get_or s i 0)

-- Some byte of the text from position `t` on is not.
abbrev HasMoreFrom : ℕ → Bytes → Type 0
HasMoreFrom t s = (i : ℕ) × (t ≤ i) × (i < length s) × ¬ IsBlank (get_or s i 0)

-- The same where NULL stands for no position.
abbrev pub IsAlone : Option ℕ → Bytes → Type 0
IsAlone none s = Unit {0}
IsAlone (some t) s = IsBlankFrom t s

abbrev pub HasMore : Option ℕ → Bytes → Type 0
HasMore none s = ⊥
HasMore (some t) s = HasMoreFrom t s

blank_test : (c : ℕ) → IsBlank c → is_blank c ≡ true
unfolding is_blank
blank_test c h = ground arith

other_test : (c : ℕ) → ¬ IsBlank c → is_blank c ≡ false
unfolding is_blank
other_test c h = ground arith

alone_test : (t : ℕ) (s : Bytes) → IsBlankFrom t s → only_blanks (drop t s) ≡ true
unfolding only_blanks
alone_test zero [] h = refl
alone_test zero (c ∷ s) h =
    rw (blank_test c (h 0 (omega arith) (omega arith)))
      (alone_test zero s (λ i hi hl. h (suc i) (omega arith) (omega arith)))
alone_test (suc t) [] h = refl
alone_test (suc t) (c ∷ s) h = alone_test t s (λ i hi hl. h (suc i) (omega arith) (omega arith))

more_test :
    (t i : ℕ) (s : Bytes)
    → t ≤ i
    → i < length s
    → ¬ IsBlank (get_or s i 0)
    → only_blanks (drop t s) ≡ false
unfolding only_blanks
more_test t i [] hi hl h = absurd (omega arith)
more_test zero zero (c ∷ s) hi hl h = rw (other_test c h) refl
more_test zero (suc i) (c ∷ s) hi hl h =
    rw (more_test zero i s (omega arith) (omega arith) h) (ground arith)
more_test (suc t) zero (c ∷ s) hi hl h = absurd (omega arith)
more_test (suc t) (suc i) (c ∷ s) hi hl h = more_test t i s (omega arith) (omega arith) h

module _ (lib : Sqlite) where
  -- The loop passes over all of it just in the one case.
  pub IsAlone-only_blanks :
      (tail : Option ℕ) (sql : Bytes) → IsAlone tail sql → only_blanks (behind lib tail sql) ≡ true
  unfolding behind only_blanks
  IsAlone-only_blanks none sql h = refl
  IsAlone-only_blanks (some t) sql h = alone_test t sql h

  pub HasMore-only_blanks :
      (tail : Option ℕ) (sql : Bytes) → HasMore tail sql → only_blanks (behind lib tail sql) ≡ false
  unfolding behind
  HasMore-only_blanks none sql h = absurd h
  HasMore-only_blanks (some t) sql (i, hi, hl, h) = more_test t i sql hi hl h
