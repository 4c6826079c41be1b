-- ===== src/Cpp/Runtime/Maps.antt =====
-- The registry of handlers and the table of pinned buffers of the C++ runtime, as maps.
use crabcraft.Prelude.{
  ℕ, ◌≡◌, ◌≢◌, ◌↔◌, refl, arith, true, false, none, some, [], ◌∷◌, Bytes, ◌==◌, if◌then◌else◌,
  Bool-cases, inl, inr,
}
use crabcraft.Cpp.Runtime.{
  Handler, HandlerMap, Allocs, same_text, find_handler, register_handler, find_alloc, emplace,
  erase,
}

pub same_text_iff : (s t : Bytes) → (same_text s t ≡ true) ↔ (s ≡ t)
unfolding same_text
same_text_iff [] [] = (λ e. refl, λ e. refl)
same_text_iff [] (d ∷ t) = (λ e. cc, λ e. cc)
same_text_iff (c ∷ s) [] = (λ e. cc, λ e. cc)
same_text_iff (c ∷ s) (d ∷ t) =
    (λ e. ground (arith, (same_text_iff s t).0), λ e. ground (arith, (same_text_iff s t).1))

pub same_text_refl : (s : Bytes) → same_text s s ≡ true
same_text_refl s = (same_text_iff s s).1 refl

pub same_text_ne : (s t : Bytes) → s ≢ t → same_text s t ≡ false
same_text_ne s t other = elim (Bool-cases (same_text s t)) [
  | inl e ↦ absurd (other ((same_text_iff s t).0 e))
  | inr e ↦ e
]

find-register_self :
    (m : HandlerMap) (name : Bytes) (h : Handler)
    → find_handler (register_handler m name h) name ≡ some h
unfolding find_handler register_handler
find-register_self [] name h = rw (same_text_refl name)
find-register_self ((n, g) ∷ m) name h = elim (Bool-cases (same_text n name)) [
  | inl e ↦ rw (e, find_handler, same_text_refl name)
  | inr e ↦ rw (e, find_handler, e) (find-register_self m name h)
]

find-register_other :
    (m : HandlerMap) (name other : Bytes) (h : Handler)
    → name ≢ other
    → find_handler (register_handler m name h) other ≡ find_handler m other
unfolding find_handler register_handler
find-register_other [] name other h ne = rw (same_text_ne name other ne)
find-register_other ((n, g) ∷ m) name other h ne = elim (Bool-cases (same_text n name)) [
  | inl e ↦
      let same = (same_text_iff n name).0 e in
      rw (e, same, find_handler, same_text_ne name other ne)
  | inr e ↦ elim (Bool-cases (same_text n other)) [
    | inl f ↦ rw (e, find_handler, f)
    | inr f ↦ rw (e, find_handler, f) (find-register_other m name other h ne)
  ]
]

-- A registered handler is found under its name, where it replaces an older one, and under no other.
pub find-register :
    (m : HandlerMap) (name other : Bytes) (h : Handler)
    → (find_handler (register_handler m name h) name ≡ some h)
      × ((name ≢ other → find_handler (register_handler m name h) other ≡ find_handler m other))
find-register m name other h =
    (find-register_self m name h, λ ne. find-register_other m name other h ne)

pub find-emplace :
    (m : Allocs) (p q : ℕ) (b : Bytes)
    → find_alloc (emplace m p b) q ≡ (
        if p == q
        then (elim (find_alloc m p) [ none ↦ some b | some a ↦ some a ])
        else find_alloc m q)
unfolding find_alloc emplace
find-emplace [] p q b = ground arith
find-emplace ((r, a) ∷ m) p q b = ground (arith, find-emplace m p q b)

pub find-erase :
    (m : Allocs) (p q : ℕ) → find_alloc (erase m p) q ≡ (if p == q then none else find_alloc m q)
unfolding find_alloc erase
find-erase [] p q = ground arith
find-erase ((r, b) ∷ m) p q = ground (arith, find-erase m p q)
