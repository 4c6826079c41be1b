-- ===== src/Query/Rows.antt =====
-- The loop over the rows in `run_sql` of guest/sqlite-c/main.c.
use crabcraft.Prelude.{
  ℕ, zero, suc, ◌+◌, ◌%◌, ◌^◌, ◌≤◌, ◌<◌, ◌≡◌, ◌≢◌, sym, ◌∙◌, ap, arith, false, List, [], ◌∷◌, ◌++◌,
  append_assoc, append-nil, Bytes, length, length-append, ◌==◌, if◌then◌else◌, done,
}
use crabcraft.Buffer.{Allocator, Buf}
use crabcraft.Buffer.Valid.{limit, IsValid, contents, Plentiful}
use crabcraft.Sqlite.{Sqlite, sqlite_row}
use crabcraft.Query.{put_row, put_rows}
use crabcraft.Query.Table.{Value, show_row, read_cells, Yields, stop, row}
use crabcraft.Query.Render.{ShortDoubles, from, put_row-Appends}
use mathlib.Core.List.{map}

pub from_split :
    (i : ℕ) (x : Bytes) (xs : List Bytes)
    → from i (x ∷ xs) ≡ ((if i == 0 then [] else b',' ∷ []) ++ x) ++ from (i + 1) xs
unfolding from
from_split i x xs = sym (append_assoc (if i == 0 then [] else b',' ∷ []) x (from (i + 1) xs))

module _ (lib : Sqlite) (heap : Allocator) (stmt : lib.Stmt) where
  put_rows_stop :
      (rounds rc ncol nrow : ℕ) (w w' : lib.World) (b : Buf)
      → lib.step stmt w ≡ (rc, w')
      → rc ≢ sqlite_row
      → put_rows lib heap stmt (suc rounds) w ncol nrow b ≡ done (rc, w', b)
  unfolding put_rows
  put_rows_stop rounds rc ncol nrow w w' b e h =
      let test : (rc == sqlite_row) ≡ false = ground arith in rw (e, test)

  put_rows_row :
      (rounds ncol nrow : ℕ) (w w₁ : lib.World) (b b₁ : Buf)
      → lib.step stmt w ≡ (sqlite_row, w₁)
      → put_row lib heap stmt w₁ ncol nrow b ≡ done b₁
      → nrow + 1 < 2 ^ 32
      → put_rows lib heap stmt (suc rounds) w ncol nrow b
        ≡ put_rows lib heap stmt rounds w₁ ncol (nrow + 1) b₁
  unfolding put_rows
  put_rows_row rounds ncol nrow w w₁ b b₁ e r h =
      let exact : (nrow + 1) % 2 ^ 32 ≡ nrow + 1 = omega arith in rw (e, r, exact)

  -- The run of the loop, from the row number `nrow` on.
  abbrev Rendered :
      ℕ → ℕ → ℕ → ℕ → lib.World → lib.World → List (List (Value lib.Double)) → Buf → Type 0
  Rendered rounds rc ncol nrow w w' rows b =
      (b' : Buf) × (put_rows lib heap stmt rounds w ncol nrow b ≡ done (rc, w', b'))
      × IsValid b'
      × (contents b' ≡ contents b ++ from nrow (map (show_row lib) rows))

  module _ (serves : Plentiful heap) (doubles : ShortDoubles lib) where
    -- One row, and then the others.
    put_rows_more :
        (w w₁ w' : lib.World) (ncol rc : ℕ) (rows : List (List (Value lib.Double)))
        → (rounds nrow : ℕ) (b : Buf) → lib.step stmt w ≡ (sqlite_row, w₁)
        → nrow + 1 < 2 ^ 32
        → IsValid b
        → length (contents b)
            + length (from nrow (map (show_row lib) (read_cells lib stmt w₁ ncol 0 ∷ rows)))
          ≤ limit
        → ((b₁ : Buf)
            → IsValid b₁
            → length (contents b₁) + length (from (nrow + 1) (map (show_row lib) rows)) ≤ limit
            → Rendered rounds rc ncol (nrow + 1) w₁ w' rows b₁)
        → Rendered (suc rounds) rc ncol nrow w w' (read_cells lib stmt w₁ ncol 0 ∷ rows) b
    put_rows_more w w₁ w' ncol rc rows rounds nrow b e hn v room later =
        let text = show_row lib (read_cells lib stmt w₁ ncol 0) in
        let others = from (nrow + 1) (map (show_row lib) rows) in
        let head = (if nrow == 0 then [] else b',' ∷ []) ++ text in
        let parts = from_split nrow text (map (show_row lib) rows) in
        let size = ap (λ (t : Bytes). length t) parts ∙ length-append head others in
        let (b₁, ran, v₁, held) =
          (put_row-Appends lib heap stmt serves doubles w₁ ncol nrow).run b v (omega arith) in
        let size₁ = ap (λ (t : Bytes). length t) held ∙ length-append (contents b) head in
        let (b₂, ran₂, v₂, held₂) = later b₁ v₁ (omega arith) in
        (
          b₂,
          put_rows_row rounds ncol nrow w w₁ b b₁ e ran hn ∙ ran₂,
          v₂,
          held₂
              ∙ ap (λ (t : Bytes). t ++ others) held
              ∙ append_assoc (contents b) head others
              ∙ ap (λ (t : Bytes). contents b ++ t) (sym parts),
        )

    -- With more rounds than rows, on a valid buffer with room, the loop ends without a fault in the
    -- state and with the code in which the statement stopped, and appends the JSON text of each row,
    -- all but row number 0 behind a comma.
    pub put_rows_lem :
        {ncol rc : ℕ} {w' w : lib.World} {rows : List (List (Value lib.Double))}
        → Yields lib stmt ncol rc w' w rows
        → (rounds nrow : ℕ) (b : Buf) → length rows < rounds
        → nrow + length rows < 2 ^ 32
        → IsValid b
        → length (contents b) + length (from nrow (map (show_row lib) rows)) ≤ limit
        → Rendered rounds rc ncol nrow w w' rows b
    put_rows_lem y zero nrow b hr hn v room = absurd (omega arith)
    put_rows_lem (stop {w = w} e h) (suc rounds) nrow b hr hn v room = (
      b,
      put_rows_stop rounds _ _ nrow w _ b e h,
      v,
      unfold from in sym (append-nil (contents b)),
    )
    put_rows_lem {ncol} {rc} {w' = w'} (row {w = w} {w₁ = w₁} {rows = rows} e y) (suc rounds) nrow b
          hr hn v room =
        put_rows_more w w₁ w' ncol rc rows rounds nrow b e (omega arith) v room (λ b₁.
          put_rows_lem {w = w₁} {rows = rows} y rounds (nrow + 1) b₁ (omega arith) (omega arith))
