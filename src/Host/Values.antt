-- ===== src/Host/Values.antt =====
-- The host reads the payloads that guests frame, and the texts of their errors.
use crabcraft.Prelude.{
  ℕ, zero, suc, ◌+◌, ◌*◌, ◌/◌, ◌%◌, ◌^◌, ◌<◌, ◌≡◌, sym, ◌∙◌, ap, drop-drop, arith, false, some, ◌∷◌,
  ◌++◌, append_assoc, Bytes, length, drop, take_all, ltb, done,
}
use native.Mathlib.Nat.{pow-suc, mul_comm, mul_assoc, add-mul}
use native.Mathlib.Decide.{dec_lt}
use crabcraft.Uleb.Encode.{encoding, groups, groups_last, groups_inner}
use crabcraft.Reply.Frame.{le32, frame, wire_string}
use crabcraft.Cpp.Runtime.{Runtime}
use crabcraft.Cpp.Linear.{Memory, Instance, load_string}
use crabcraft.Cpp.Linear.Refines.{Shows}
use crabcraft.Cpp.Linear.Memory.{loaded, load_front}
use crabcraft.Host.{uleb_dec, decode_string, string_body, read_lenbuf, u32le}

dec_last :
    (k v n shift : ℕ) (rest : Bytes)
    → v < 128
    → uleb_dec (suc k) (v ∷ rest) n shift ≡ some (n + v * shift, rest)
unfolding uleb_dec
dec_last k v n shift rest h = ground arith

whole : (v : ℕ) → 128 * (v / 128) + v % 128 ≡ v
whole v = omega arith

dec_inner :
    (k v n shift : ℕ) (s rest : Bytes)
    → uleb_dec k s (n + v % 128 * shift) (shift * 128)
      ≡ some (n + v % 128 * shift + v / 128 * (shift * 128), rest)
    → uleb_dec (suc k) ((v % 128 + 128) ∷ s) n shift ≡ some (n + v * shift, rest)
unfolding uleb_dec
dec_inner k v n shift s rest e =
    let low : (v % 128 + 128) % 128 ≡ v % 128 = omega arith in
    let more : ltb (v % 128 + 128) 128 ≡ false = ground arith in
    let sum : n + v % 128 * shift + v / 128 * (shift * 128) ≡ n + v * shift = omega (
      arith,
      mul_comm (v / 128) (shift * 128),
      mul_assoc shift 128 (v / 128),
      mul_comm shift (128 * (v / 128)),
      ap (λ (t : ℕ). t * shift) (whole v),
      add-mul (128 * (v / 128)) (v % 128) shift,
    ) in
    rw (low, more, e) (ap (λ (t : ℕ). some (t, rest)) sum)

dec-groups :
    (k v n shift : ℕ) (rest : Bytes)
    → v < 128 ^ suc k
    → uleb_dec (suc k) (groups k v ++ rest) n shift ≡ some (n + v * shift, rest)
dec-groups zero v n shift rest h =
    rw (groups_last 0 v (omega arith)) (dec_last 0 v n shift rest (omega arith))
dec-groups (suc k) v n shift rest h = elim (dec_lt v 128) [
  | yes last ↦ rw (groups_last (suc k) v last) (dec_last (suc k) v n shift rest last)
  | no more ↦
      let small : v / 128 < 128 ^ suc k = omega (arith, pow-suc 128 (suc k)) in
      rw (groups_inner k v (omega arith)) (
        dec_inner (suc k) v n shift (groups k (v / 128) ++ rest) rest
          (dec-groups k (v / 128) (n + v % 128 * shift) (shift * 128) rest small))
]

pub decode_string-wire_string :
    (msg : Bytes) → length msg < 2 ^ 64 → decode_string (wire_string msg) ≡ some msg
unfolding decode_string wire_string encoding
decode_string-wire_string msg small =
    let size : 0 + length msg * 1 ≡ length msg = omega arith in
    let fits : ltb (length msg) (length msg) ≡ false = ground arith in
    let whole_text = take_all (length msg) msg (omega arith) in
    ap string_body (dec-groups 9 (length msg) 0 1 msg (omega arith)) ∙ rw (size, fits, whole_text)

u32le-le32 : (n : ℕ) → n < 2 ^ 32 → u32le (le32 n) ≡ n
unfolding le32
u32le-le32 n h = omega arith

-- The payload of a frame that lies in memory at `p`, and the frame with what is behind it.
pub body-frame :
    (m : Memory) (p : ℕ) (payload : Bytes)
    → load_string m p (length (frame payload)) ≡ done (frame payload)
    → (load_string m p 4 ≡ done (le32 (length payload)))
      × (load_string m (p + 4) (length payload) ≡ done payload)
      × (drop p m ≡ frame payload ++ drop (length (frame payload)) (drop p m))
body-frame m p payload there =
    let (stands, size) = loaded m p (length (frame payload)) (frame payload) there in
    let junk = drop (length (frame payload)) (drop p m) in
    let begins : drop p m ≡ le32 (length payload) ++ (payload ++ junk) =
      unfold frame in stands ∙ append_assoc (le32 (length payload)) payload junk in
    let behind : drop (p + 4) m ≡ payload ++ junk =
      unfold le32 in sym (drop-drop p 4 m) ∙ ap (λ (t : Bytes). drop 4 t) begins in
    (
      unfold le32 in load_front m p (le32 (length payload)) (payload ++ junk) begins,
      load_front m (p + 4) payload junk behind,
      stands,
    )

read_lenbuf-frame :
    (m : Memory) (p : ℕ) (payload : Bytes)
    → load_string m p (length (frame payload)) ≡ done (frame payload)
    → length payload < 2 ^ 32
    → read_lenbuf m p ≡ done payload
unfolding read_lenbuf
read_lenbuf-frame m p payload there small =
    let (header, body, stands) = body-frame m p payload there in
    rw (header, u32le-le32 (length payload) small) body

-- The host reads the payload of the reply that an instance shows.
pub read_lenbuf-Shows :
    (inst : Instance) (rt : Runtime) (p : ℕ) (payload : Bytes)
    → Shows inst rt
    → inst.reply_ptr ≡ p
    → rt.reply ≡ frame payload
    → length payload < 2 ^ 32
    → read_lenbuf inst.memory p ≡ done payload
read_lenbuf-Shows inst rt p payload shows at_p framed small =
    let there : load_string inst.memory p inst.reply_len ≡ done (frame payload) =
      ap (λ (q : ℕ). load_string inst.memory q inst.reply_len) (sym at_p)
      ∙ shows.reply_there
      ∙ ap done framed in
    let size = (loaded inst.memory p inst.reply_len (frame payload) there).1 in
    read_lenbuf-frame inst.memory p payload
      (ap (λ (n : ℕ). load_string inst.memory p n) size ∙ there) small
