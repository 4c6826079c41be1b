-- ===== src/Host/Views.antt =====
-- What the Lua host reads of a reply, against the description of docs/WIRE.md.
use crabcraft.Prelude.{
  ℕ, zero, suc, ◌+◌, ◌*◌, ◌%◌, ◌≤◌, ◌≡◌, ◌≢◌, refl, sym, ◌∙◌, ap, arith, true, false, not, ◌&&◌,
  ◌==◌, ltb, if◌then◌else◌, Bool-cases, inl, inr, Option, none, some, [], ◌∷◌, Bytes, length, take,
  take_all, done,
}
use crabcraft.Uleb.Decode.{
  read_groups, extend, extend-extend, read_groups_over, read_groups_last, read_groups_more,
}
use crabcraft.Reply.Answer.{read_frame, read_wire_string}
use crabcraft.Cpp.Runtime.{copy}
use crabcraft.Cpp.Linear.{load_string}
use crabcraft.Host.{
  u32le, uleb_dec, string_body, decode_string, failure_text, read_lenbuf, read_reply,
}
use crabcraft.Host

none-some : {A : Type 0} {a : A} → none ≢ some a
none-some h = cc

inner_some :
    (low m : ℕ) (o : Option (ℕ × Bytes)) (p : ℕ × Bytes)
    → extend low m o ≡ some p
    → (q : ℕ × Bytes) × (o ≡ some q)
inner_some low m none p e = absurd (cc)
inner_some low m (some q) p e = (q, refl)

dec_last :
    (r c : ℕ) (s : Bytes) (n shift : ℕ)
    → ltb c 128 ≡ true
    → uleb_dec (suc r) (c ∷ s) n shift ≡ some (n + c * shift, s)
unfolding uleb_dec
dec_last r c s n shift last = let low : c % 128 ≡ c = ground arith in rw (last, low)

dec_more :
    (r c : ℕ) (s : Bytes) (n shift : ℕ)
    → ltb c 128 ≡ false
    → uleb_dec (suc r) (c ∷ s) n shift ≡ uleb_dec r s (n + c % 128 * shift) (shift * 128)
unfolding uleb_dec
dec_more r c s n shift more = rw more

-- Where the format allows a number, the host reads it.
dec-read_groups :
    (k r : ℕ) (s : Bytes) (n shift : ℕ) (p : ℕ × Bytes)
    → k ≤ r
    → read_groups k s ≡ some p
    → uleb_dec r s n shift ≡ extend n shift (read_groups k s)
dec-read_groups zero r s n shift p h e = absurd (none-some {a = p} (unfold read_groups in e))
dec-read_groups (suc k) zero s n shift p h e = absurd (omega arith)
dec-read_groups (suc k) (suc r) [] n shift p h e =
    absurd (none-some {a = p} (unfold read_groups in e))
dec-read_groups (suc k) (suc r) (c ∷ s) n shift p h e =
    elim (Bool-cases ((k == 0) && not (ltb (c % 128) 16))) [
      | inl over ↦ absurd (none-some (sym (read_groups_over c k s over) ∙ e))
      | inr fits ↦ elim (Bool-cases (ltb c 128)) [
        | inl last ↦ rw (read_groups_last c k s fits last, dec_last r c s n shift last)
        | inr more ↦
            let step = read_groups_more c k s fits more in
            let (q, inner) = inner_some (c % 128) 128 (read_groups k s) p (sym step ∙ e) in
            dec_more r c s n shift more
            ∙ dec-read_groups k r s (n + c % 128 * shift) (shift * 128) q (omega arith) inner
            ∙ sym (extend-extend n (c % 128) shift (read_groups k s))
            ∙ ap (λ o. extend n shift o) (sym step)
      ]
    ]

-- A string that fills its bytes.
string_read :
    (o : Option (ℕ × Bytes)) (msg : Bytes)
    → (elim o [ none ↦ none | some (n, rest) ↦ if n == length rest then some rest else none ])
      ≡ some msg
    → string_body (extend 0 1 o) ≡ some msg
string_read none msg e = absurd (none-some {a = msg} e)
string_read (some (n, rest)) msg e = elim (Bool-cases (n == length rest)) [
  | inl same ↦
      let size : 0 + n * 1 ≡ n = omega arith in
      let fits : ltb (length rest) n ≡ false = ground arith in
      let text : take n rest ≡ rest = take_all n rest (ground arith) in
      rw (size, fits, text) (rw same at e)
  | inr other ↦ absurd (none-some {a = msg} (rw other at e))
]

groups_read :
    (s msg : Bytes) (o : Option (ℕ × Bytes))
    → read_groups 5 s ≡ o
    → (elim o [ none ↦ none | some (n, rest) ↦ if n == length rest then some rest else none ])
      ≡ some msg
    → decode_string s ≡ some msg
unfolding decode_string
groups_read s msg none read e = absurd (none-some {a = msg} e)
groups_read s msg (some p) read e =
    ap string_body (dec-read_groups 5 10 s 0 1 p (omega arith) read ∙ ap (λ o. extend 0 1 o) read)
    ∙ string_read (some p) msg e

decode_string-read_wire_string :
    (s msg : Bytes) → read_wire_string s ≡ some msg → decode_string s ≡ some msg
unfolding read_wire_string
decode_string-read_wire_string s msg e = groups_read s msg (read_groups 5 s) refl e

-- What docs/WIRE.md, section 2, has a payload tell: behind status 0 any bytes of a result, behind status 1
-- one string, the text of an error.
pub data Told : Bytes → Host.Answer → Type 0 where
  told_result : {body : Bytes} → Told (0 ∷ body) (Host.result body)
  told_error : {s msg : Bytes} → read_wire_string s ≡ some msg → Told (1 ∷ s) (Host.failed msg)

payload-Told : {payload : Bytes} {a : Host.Answer} → Told payload a → read_reply payload ≡ a
unfolding read_reply
payload-Told told_result = refl
payload-Told (told_error {s = s} {msg = msg} e) = rw (decode_string-read_wire_string s msg e)

frame_read : (m payload : Bytes) → read_frame m ≡ some payload → read_lenbuf m 0 ≡ done payload
unfolding read_frame read_lenbuf load_string copy
frame_read [] payload e = absurd (none-some {a = payload} e)
frame_read (a ∷ []) payload e = absurd (none-some {a = payload} e)
frame_read (a ∷ b ∷ []) payload e = absurd (none-some {a = payload} e)
frame_read (a ∷ b ∷ c ∷ []) payload e = absurd (none-some {a = payload} e)
frame_read (a ∷ b ∷ c ∷ d ∷ m) payload e = ground arith

-- A frame at the start of memory, whatever follows it, whose payload is status 0 and any result, or status 1
-- and one string: the Lua host reads just that payload, and gives its client the bytes of the result as
-- they are, or the text of the error.
pub read_reply-Told :
    (m payload : Bytes) (a : Host.Answer)
    → read_frame m ≡ some payload
    → Told payload a
    → (read_lenbuf m 0 ≡ done payload) × (read_reply payload ≡ a)
read_reply-Told m payload a framed told = (frame_read m payload framed, payload-Told told)
