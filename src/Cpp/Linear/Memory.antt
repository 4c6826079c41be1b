-- ===== src/Cpp/Linear/Memory.antt =====
-- Loads after stores in linear memory.
use crabcraft.Prelude.{
  fault_done, done-injective, Bool-cases, take-append-drop, length-take, ℕ, zero, suc, ◌+◌, ◌≤◌,
  ◌≡◌, refl, sym, ◌∙◌, ap, arith, true, ◌⊎◌, inl, inr, [], ◌∷◌, ◌++◌, Bytes, IsByte, All, length,
  length-append, length-drop, take, drop, take-append_exact, leb, done,
}
use crabcraft.Cpp.Runtime.{copy}
use crabcraft.Cpp.Linear.{Memory, overlay, store_at, load_string, store_string}

length-overlay : (s m : Bytes) → length s ≤ length m → length (overlay s m) ≡ length m
length-overlay [] m h = refl
length-overlay (x ∷ s) [] h = absurd (omega arith)
length-overlay (x ∷ s) (c ∷ m) h = omega (arith, length-overlay s m (omega arith))

pub length-store_at :
    (p : ℕ) (s m : Bytes) → p + length s ≤ length m → length (store_at p s m) ≡ length m
length-store_at zero s m h = length-overlay s m (omega arith)
length-store_at (suc p) s [] h = refl
length-store_at (suc p) s (c ∷ m) h = omega (arith, length-store_at p s m (omega arith))

overlay-drop : (s m : Bytes) → length s ≤ length m → overlay s m ≡ s ++ drop (length s) m
overlay-drop [] m h = refl
overlay-drop (x ∷ s) [] h = absurd (omega arith)
overlay-drop (x ∷ s) (c ∷ m) h = ap (λ (t : Bytes). x ∷ t) (overlay-drop s m (omega arith))

-- What lies behind the address of a store.
pub drop-store_at :
    (p : ℕ) (s m : Bytes)
    → p + length s ≤ length m
    → drop p (store_at p s m) ≡ s ++ drop (length s) (drop p m)
drop-store_at zero s m h = overlay-drop s m (omega arith)
drop-store_at (suc p) [] [] h = refl
drop-store_at (suc p) (x ∷ s) [] h = absurd (omega arith)
drop-store_at (suc p) s (c ∷ m) h = drop-store_at p s m (omega arith)

-- The range of `n` bytes at `p` ends before `q`, or starts behind the `k` bytes there.
abbrev pub Apart : ℕ → ℕ → ℕ → ℕ → Type 0
Apart p n q k = (p + n ≤ q) ⊎ (q + k ≤ p)

take-store_at : (n p : ℕ) (s m : Bytes) → n ≤ p → take n (store_at p s m) ≡ take n m
take-store_at zero p s m h = refl
take-store_at (suc n) zero s m h = absurd (omega arith)
take-store_at (suc n) (suc p) s [] h = refl
take-store_at (suc n) (suc p) s (c ∷ m) h =
    ap (λ (t : Bytes). c ∷ t) (take-store_at n p s m (omega arith))

range_before :
    (q n p : ℕ) (s m : Bytes) → q + n ≤ p → take n (drop q (store_at p s m)) ≡ take n (drop q m)
range_before zero n p s m h = take-store_at n p s m (omega arith)
range_before (suc q) n zero s m h = absurd (omega arith)
range_before (suc q) n (suc p) s [] h = refl
range_before (suc q) n (suc p) s (c ∷ m) h = range_before q n p s m (omega arith)

drop-overlay : (q : ℕ) (s m : Bytes) → length s ≤ q → drop q (overlay s m) ≡ drop q m
drop-overlay q [] m h = refl
drop-overlay zero (x ∷ s) m h = absurd (omega arith)
drop-overlay (suc q) (x ∷ s) [] h = refl
drop-overlay (suc q) (x ∷ s) (c ∷ m) h = drop-overlay q s m (omega arith)

range_behind : (q p : ℕ) (s m : Bytes) → p + length s ≤ q → drop q (store_at p s m) ≡ drop q m
range_behind q zero s m h = drop-overlay q s m (omega arith)
range_behind zero (suc p) s m h = absurd (omega arith)
range_behind (suc q) (suc p) s [] h = refl
range_behind (suc q) (suc p) s (c ∷ m) h = range_behind q p s m (omega arith)

range-Apart :
    (q n p : ℕ) (s m : Bytes)
    → Apart q n p (length s)
    → take n (drop q (store_at p s m)) ≡ take n (drop q m)
range-Apart q n p s m (inl h) = range_before q n p s m h
range-Apart q n p s m (inr h) = ap (λ (t : Bytes). take n t) (range_behind q p s m h)

-- A store elsewhere leaves a range alone.
pub load-store-Apart :
    (q n p : ℕ) (s m : Bytes)
    → p + length s ≤ length m
    → Apart q n p (length s)
    → load_string (store_at p s m) q n ≡ load_string m q n
unfolding load_string copy
load-store-Apart q n p s m inside apart = rw (
  range-Apart q n p s m apart,
  length-drop q (store_at p s m),
  length-store_at p s m inside,
  length-drop q m,
)

-- A range that was stored is loaded back.
pub load-store :
    (p : ℕ) (s m : Bytes)
    → p + length s ≤ length m
    → load_string (store_at p s m) p (length s) ≡ done s
unfolding load_string copy
load-store p s m inside =
    let long : leb (length s) (length (s ++ drop (length s) (drop p m))) ≡ true =
      ground (arith, length-append s (drop (length s) (drop p m))) in
    rw (drop-store_at p s m inside, long, take-append_exact s (drop (length s) (drop p m)))

pub store_string_lem :
    (p : ℕ) (s m : Bytes) → p + length s ≤ length m → store_string m p s ≡ done (store_at p s m)
unfolding store_string
store_string_lem p s m inside = ground arith

-- What is loaded stands at the address.
pub loaded :
    (m : Memory) (p n : ℕ) (s : Bytes)
    → load_string m p n ≡ done s
    → (drop p m ≡ s ++ drop n (drop p m)) × (length s ≡ n)
unfolding load_string copy
loaded m p n s e = elim (Bool-cases (leb n (length (drop p m)))) [
  | inl long ↦
      let size : n ≤ length (drop p m) = ground arith in
      let got : take n (drop p m) ≡ s = done-injective (rw long at e) in
      (
        sym (take-append-drop n (drop p m)) ∙ ap (λ (t : Bytes). t ++ drop n (drop p m)) got,
        omega (arith, ap (λ (t : Bytes). length t) got, length-take n (drop p m)),
      )
  | inr short ↦ absurd (fault_done (rw short at e))
]

pub load_front :
    (m : Memory) (p : ℕ) (s t : Bytes) → drop p m ≡ s ++ t → load_string m p (length s) ≡ done s
unfolding load_string copy
load_front m p s t e =
    let long : leb (length s) (length (s ++ t)) ≡ true = ground (arith, length-append s t) in
    rw (e, long, take-append_exact s t)

All-overlay : (s m : Bytes) → All IsByte s → All IsByte m → All IsByte (overlay s m)
All-overlay [] m hs hm = hm
All-overlay (x ∷ s) [] hs hm = tt
All-overlay (x ∷ s) (c ∷ m) (hx, hs) (hc, hm) = (hx, All-overlay s m hs hm)

pub All-store_at : (p : ℕ) (s m : Bytes) → All IsByte s → All IsByte m → All IsByte (store_at p s m)
All-store_at zero s m hs hm = All-overlay s m hs hm
All-store_at (suc p) s [] hs hm = tt
All-store_at (suc p) s (c ∷ m) hs (hc, hm) = (hc, All-store_at p s m hs hm)
