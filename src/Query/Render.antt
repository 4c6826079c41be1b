-- ===== src/Query/Render.antt =====
-- The loops of `run_sql` over names and columns, as appended text.
use crabcraft.Prelude.{
  ℕ, zero, suc, ◌+◌, ◌≤◌, ◌<◌, ◌≡◌, refl, ap, arith, true, false, leb, done, ◌||◌, List, [], ◌∷◌,
  ◌++◌, Bytes, codes, take, length, ◌==◌, if◌then◌else◌, ◌>>=◌,
}
use crabcraft.Buffer.{Allocator, bputc, bputs, bputf}
use crabcraft.Buffer.Valid.{Plentiful}
use crabcraft.Buffer.Appends.{
  Appends, Appends-done, Appends-then, Appends-if, Appends-if_map, bputc-Appends, bputs-Appends,
  bputf-Appends,
}
use crabcraft.Format.{ℤ, decimal}
use crabcraft.Format.Decimal.{length-decimal}
use crabcraft.Json.{json_string, put_hex}
use crabcraft.Json.Escape.{json_string-Appends, put_hex-Appends, quoted}
use crabcraft.Sqlite.{Sqlite, sqlite_integer, sqlite_float, sqlite_blob, sqlite_null}
use crabcraft.Query.{comma, name_or_empty, read_bytes, put_names, put_cell, put_cells, put_row}
use crabcraft.Query.Table.{
  integer, float, null, blob, text, more, joined, show, show_row, read_cell, read_cells, read_names,
}
use mathlib.Core.List.{map}

-- `%.17g` takes at most 24 characters: a sign, 17 digits, a point, and an exponent of five.
abbrev pub ShortDoubles : Sqlite → Type 0
ShortDoubles lib = (d : lib.Double) → length (lib.format_double d) ≤ 24

-- The parts from number `i` on, each but number 0 behind a comma.
unfoldable pub from : ℕ → List Bytes → Bytes
from i [] = []
from i (x ∷ xs) = (if i == 0 then [] else b',' ∷ []) ++ (x ++ from (i + 1) xs)

from-more : (i : ℕ) (xs : List Bytes) → 0 < i → from i xs ≡ more xs
unfolding from more
from-more i [] h = refl
from-more i (x ∷ xs) h =
    let later : (i == 0) ≡ false = ground arith in
    rw later (ap (λ (t : Bytes). b',' ∷ (x ++ t)) (from-more (i + 1) xs (omega arith)))

pub from-joined : (xs : List Bytes) → from 0 xs ≡ joined xs
unfolding from joined
from-joined [] = refl
from-joined (x ∷ xs) = ap (λ (t : Bytes). x ++ t) (from-more 1 xs (omega arith))

module _ (lib : Sqlite) (heap : Allocator) (stmt : lib.Stmt) (serves : Plentiful heap)
    (doubles : ShortDoubles lib) where
  comma-Appends : (i : ℕ) → Appends (λ b. comma heap b i) (if i == 0 then [] else b',' ∷ [])
  unfolding comma
  comma-Appends i = Appends-if (i == 0) Appends-done (bputc-Appends heap serves b',')

  pub put_names-Appends :
      (w : lib.World) (n i : ℕ)
      → Appends
          (λ b. put_names lib heap stmt w n i b)
          (from i (map quoted (read_names lib stmt w n i)))
  unfolding put_names read_names from
  put_names-Appends w zero i = Appends-done
  put_names-Appends w (suc n) i = Appends-then (comma-Appends i) (
      Appends-then (json_string-Appends heap serves (name_or_empty (lib.column_name stmt i w)))
        (put_names-Appends w n (i + 1)))

  integer-Appends : (z : ℤ) → Appends (λ b. bputf heap b (decimal z)) (show lib (integer z))
  unfolding show
  integer-Appends z = bputf-Appends heap serves (decimal z) (omega (arith, length-decimal z))

  float-Appends :
      (d : lib.Double)
      → Appends
          (λ b.
            if lib.isnan d || lib.isinf d
            then bputs heap b (codes "null")
            else bputf heap b (lib.format_double d))
          (show lib (float d))
  unfolding show
  float-Appends d =
      Appends-if (lib.isnan d || lib.isinf d) (bputs-Appends heap serves (codes "null"))
        (bputf-Appends heap serves (lib.format_double d) (omega (arith, doubles d)))

  null-Appends : Appends (λ b. bputs heap b (codes "null")) (show lib null)
  unfolding show
  null-Appends = bputs-Appends heap serves (codes "null")

  blob-Appends :
      (s : Bytes)
      → Appends
          (λ b. bputc heap b b'"' >>= λ b₁. put_hex heap b₁ s >>= λ b₂. bputc heap b₂ b'"')
          (show lib (blob s))
  unfolding show
  blob-Appends s =
      Appends-then (bputc-Appends heap serves b'"')
        (Appends-then (put_hex-Appends heap serves s) (bputc-Appends heap serves b'"'))

  text-Appends : (s : Bytes) → Appends (λ b. json_string heap b s) (show lib (text s))
  unfolding show
  text-Appends s = json_string-Appends heap serves s

  held : (n : ℕ) (s : Bytes) → n ≤ length s → read_bytes n s ≡ done (take n s)
  unfolding read_bytes
  held n s h = let test : leb n (length s) ≡ true = ground arith in rw test refl

  put_cell-Appends :
      (w : lib.World) (i : ℕ)
      → Appends (λ b. put_cell lib heap stmt w i b) (show lib (read_cell lib stmt w i))
  unfolding put_cell read_cell
  put_cell-Appends w i =
      let t = lib.column_type stmt i w in
      let n = lib.column_bytes stmt i w in
      let s = take n (lib.column_blob stmt i w) in
      let z = lib.column_int64 stmt i w in
      let d = lib.column_double stmt i w in
      let u = take n (lib.column_text stmt i w) in
      rw
        (
          held n (lib.column_blob stmt i w) (lib.blob_held stmt i w),
          held n (lib.column_text stmt i w) (lib.text_held stmt i w),
        )
        (Appends-if_map (show lib) (t == sqlite_integer) (integer z) _ (integer-Appends z) (
          Appends-if_map (show lib) (t == sqlite_float) (float d) _ (float-Appends d) (
            Appends-if_map (show lib) (t == sqlite_null) null _ null-Appends (
              Appends-if_map (show lib) (t == sqlite_blob) (blob s) (text u) (blob-Appends s)
                (text-Appends u)))))

  put_cells-Appends :
      (w : lib.World) (n i : ℕ)
      → Appends
          (λ b. put_cells lib heap stmt w n i b)
          (from i (map (show lib) (read_cells lib stmt w n i)))
  unfolding put_cells read_cells from
  put_cells-Appends w zero i = Appends-done
  put_cells-Appends w (suc n) i =
      Appends-then (comma-Appends i)
        (Appends-then (put_cell-Appends w i) (put_cells-Appends w n (i + 1)))

  pub put_row-Appends :
      (w : lib.World) (ncol nrow : ℕ)
      → Appends
          (λ b. put_row lib heap stmt w ncol nrow b)
          ((if nrow == 0 then [] else b',' ∷ []) ++ show_row lib (read_cells lib stmt w ncol 0))
  unfolding put_row show_row
  put_row-Appends w ncol nrow = rw (← from-joined (map (show lib) (read_cells lib stmt w ncol 0))) (
      Appends-then (comma-Appends nrow) (
        Appends-then (bputc-Appends heap serves b'[')
          (Appends-then (put_cells-Appends w ncol 0) (bputc-Appends heap serves b']'))))
