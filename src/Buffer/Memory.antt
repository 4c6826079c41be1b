-- ===== src/Buffer/Memory.antt =====
-- `realloc` and `memcpy` on a block.
use crabcraft.Prelude.{
  ℕ, zero, suc, ◌+◌, ◌-◌, ◌≤◌, true, ◌≡◌, refl, ap, ◌∙◌, arith, none, some, ◌++◌, Bytes, length,
  take, drop, length-append, length-take, length-drop, take-append, take_all, take-append_le,
  take-append_exact, take-nil, done,
}
use crabcraft.Buffer.{Allocator, fresh, realloc, memcpy}

module _ (heap : Allocator) where
  pub length-fresh : (i n : ℕ) → length (fresh heap i n) ≡ n
  unfolding fresh
  length-fresh i zero = refl
  length-fresh i (suc n) = ap suc (length-fresh (suc i) n)

  -- A larger block begins with the old one.
  pub realloc_lem :
      (m : Bytes) (n : ℕ)
      → length m ≤ n
      → heap.grants n ≡ true
      → (m' : Bytes) × (realloc heap (some m) n ≡ some m')
        × (length m' ≡ n)
        × ((len : ℕ) → len ≤ length m → take len m' ≡ take len m)
  unfolding realloc
  realloc_lem m n h g =
      let old : take n m ≡ m = take_all n m h in
      let more = fresh heap (length m) (n - length m) in
      (
        m ++ more,
        rw (g, old),
        omega (arith, length-append m more, length-fresh (length m) (n - length m)),
        λ len fits. take-append_le len m more fits,
      )

  pub realloc_null :
      (n : ℕ)
      → heap.grants n ≡ true
      → (m' : Bytes) × (realloc heap none n ≡ some m') × (length m' ≡ n)
  unfolding realloc
  realloc_null n g =
      (fresh heap 0 (n - 0), rw (g, take-nil n), omega (arith, length-fresh 0 (n - 0)))

  pub memcpy_lem :
      (m s : Bytes) (off : ℕ)
      → off + length s ≤ length m
      → (m' : Bytes) × (memcpy heap (some m) off s ≡ done (some m'))
        × (length m' ≡ length m)
        × (take (off + length s) m' ≡ take off m ++ s)
  unfolding memcpy
  memcpy_lem m s off h =
      let back = drop (off + length s) m in
      let front = take off m in
      let here : off ≡ length front = omega (arith, length-take off m) in
      (
        take off m ++ (s ++ back),
        ground arith,
        omega (
          arith,
          length-append (take off m) (s ++ back),
          length-append s back,
          length-take off m,
          length-drop (off + length s) m,
        ),
        ap (λ (k : ℕ). take (k + length s) (front ++ (s ++ back))) here
            ∙ take-append (length s) front (s ++ back)
            ∙ ap (λ (t : Bytes). front ++ t) (take-append_exact s back),
      )
