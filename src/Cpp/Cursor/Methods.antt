-- ===== src/Cpp/Cursor/Methods.antt =====
-- The methods of `Decoder` on an address, one by one.
use Prim.Native.Nat.{bit_and, bit_or}
use crabcraft.Prelude.{
  ℕ, zero, suc, ◌+◌, ◌-◌, ◌*◌, ◌/◌, ◌%◌, ◌^◌, ◌≡◌, refl, ap, ◌∙◌, take, arith, true, false, not,
  ◌&&◌, [], ◌∷◌, Bytes, codes, drop, ltb, leb, ◌==◌, Bool-cases, inl, inr, Outcome, done, fault,
}
use crabcraft.Uleb.{load}
use crabcraft.Cpp.Utf8.Prefix.{load-take_within}
use crabcraft.Cpp.Res.{ok, err}
use crabcraft.Cpp.Decoder.{byte, uleb, uleb_rounds, prefix_bit, finish}
use crabcraft.Cpp.Linear.{Memory}
use crabcraft.Cpp.Cursor.{Cursor, byte_at, uleb_at, uleb_rounds_at, prefix_bit_at, finish_at}
use crabcraft.Cpp.Cursor.Agrees.{
  view, Inside, Same, same_done, same_fault, Agrees, Agrees-bind, Agrees-if, pure-Agrees,
  refuse-Agrees,
}

load-drop : (p k : ℕ) (m : Bytes) → load (drop p m) k ≡ load m (p + k)
unfolding load
load-drop zero k m = ap (λ (i : ℕ). load m i) (omega arith)
load-drop (suc p) k [] = refl
load-drop (suc p) k (c ∷ m) =
    let shifted : suc p + k ≡ suc (p + k) = omega arith in rw (shifted, load) (load-drop p k m)

load-view :
    (p len k : ℕ) (m : Bytes) → leb len k ≡ false → load (take len (drop p m)) k ≡ load m (p + k)
load-view p len k m e = load-take_within len (drop p m) k (ground arith) ∙ load-drop p k m

finish_at-finish :
    (m : Memory) (c : Cursor) (what : Bytes) → finish_at c what ≡ finish (view m c) what
unfolding finish_at finish
finish_at-finish m c what = refl

loaded-Same :
    (m : Memory) (c : Cursor) (o : Outcome ℕ)
    → Inside m c
    → Same m
        (elim o [ fault e ↦ fault e | done b ↦ done (ok b, record c { pos = c.pos + 1 }) ])
        (elim o [ fault e ↦ fault e | done b ↦ done (ok b, record (view m c) { pos = c.pos + 1 }) ])
loaded-Same m c (fault e) inside = same_fault e
loaded-Same m c (done b) inside = same_done (ok b) (record c { pos = c.pos + 1 }) inside refl

pub byte-Agrees : Agrees byte_at byte
byte-Agrees = record { same = same_byte }
  where
    same_byte : (m : Memory) (c : Cursor) → Inside m c → Same m (byte_at m c) (byte (view m c))
    same_byte m c inside = elim (Bool-cases (leb c.len c.pos)) [
      | inl e ↦
          unfold byte_at byte in
          rw e (same_done (err (codes "unexpected end of buffer")) c inside refl)
      | inr e ↦
          unfold byte_at byte in
          rw (e, load-view c.buf c.len c.pos m e) (loaded-Same m c (load m (c.buf + c.pos)) inside)
    ]

uleb_rounds-Agrees :
    (bits rounds shift result : ℕ)
    → Agrees (uleb_rounds_at bits rounds shift result) (uleb_rounds bits rounds shift result)
unfolding uleb_rounds_at uleb_rounds
uleb_rounds-Agrees bits zero shift result = refuse-Agrees (codes "uleb too long")
uleb_rounds-Agrees bits (suc rounds) shift result = Agrees-bind byte-Agrees (λ b.
    Agrees-if (ltb bits (shift + 7) && not (bit_and b 0x7f / 2 ^ (bits - shift) == 0))
      (refuse-Agrees (codes "uleb overflow"))
      (Agrees-if (bit_and b 0x80 == 0) (pure-Agrees _) (
        uleb_rounds-Agrees bits rounds (shift + 7)
          (bit_or result (bit_and b 0x7f * 2 ^ shift % 2 ^ 64)))))

pub uleb-Agrees : (bits : ℕ) → Agrees (uleb_at bits) (uleb bits)
unfolding uleb_at uleb
uleb-Agrees bits = uleb_rounds-Agrees bits ((bits + 6) / 7) 0 0

pub prefix_bit-Agrees : (what : Bytes) → Agrees (prefix_bit_at what) (prefix_bit what)
unfolding prefix_bit_at prefix_bit
prefix_bit-Agrees what = Agrees-bind byte-Agrees (λ b.
    Agrees-if (b == 0) (pure-Agrees false)
      (Agrees-if (b == 1) (pure-Agrees true) (refuse-Agrees _)))
