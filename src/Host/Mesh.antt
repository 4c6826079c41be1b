-- ===== src/Host/Mesh.antt =====
-- `MeshCall` of a C++ guest that the host serves.
use crabcraft.Prelude.{
  ℕ, zero, suc, ◌+◌, ◌-◌, ◌/◌, ◌%◌, ◌^◌, ◌≤◌, ◌<◌, ◌≡◌, ◌≢◌, refl, sym, ◌∙◌, ap, arith, Bool, true,
  false, Bool-cases, inl, inr, none, some, [], ◌∷◌, ◌++◌, append-nil, Bytes, IsByte, All,
  All-append, length, length-append, drop, ◌==◌, done,
}
use native.Mathlib.Nat.{pow-suc}
use native.Mathlib.Decide.{dec_lt}
use crabcraft.Uleb.Encode.{
  encoding, encoding_shape, length-encoding, groups, groups_last, groups_inner,
}
use crabcraft.Reply.Frame.{frame, le32, wire_string}
use crabcraft.Cpp.Res.{Res, ok, err}
use crabcraft.Cpp.Encode.{zeros}
use crabcraft.Cpp.Decoder.Strings.{read_string, read_string-wire_string}
use crabcraft.Cpp.Utf8.Whole.{IsUtf8}
use crabcraft.Cpp.Runtime.{Runtime, Allocs, find_alloc, emplace, erase, minimum_one, crab_alloc}
use crabcraft.Cpp.Linear.{Instance, load_string}
use crabcraft.Cpp.Linear.Memory.{Apart}
use crabcraft.Cpp.Linear.Refines.{Shows, sizes, sizes-erase}
use crabcraft.Cpp.Mesh.{reply_length}
use crabcraft.Cpp.Mesh.Replies.{fail_text, mesh_result, parse_mesh_reply_lem, reply_length-frame}
use crabcraft.Host.{put_string}
use crabcraft.Host.Values.{body-frame}
use crabcraft.Host.Calls.{put_string_lem}
use crabcraft.Host.Import.{
  uleb_enc, encode_text, call_reply, import_reply, CallArgs, import_call, take_reply, mesh_call_at,
}

enc_last : (k v : ℕ) → v < 128 → uleb_enc (suc k) v ≡ v ∷ []
unfolding uleb_enc
enc_last k v h = ground arith

enc_inner : (k v : ℕ) → 128 ≤ v → uleb_enc (suc k) v ≡ (v % 128 + 128) ∷ uleb_enc k (v / 128)
unfolding uleb_enc
enc_inner k v h = ground arith

uleb_enc-groups : (k v : ℕ) → v < 128 ^ suc k → uleb_enc (suc k) v ≡ groups k v
uleb_enc-groups zero v h = enc_last 0 v (omega arith) ∙ sym (groups_last 0 v (omega arith))
uleb_enc-groups (suc k) v h = elim (dec_lt v 128) [
  | yes last ↦ enc_last (suc k) v last ∙ sym (groups_last (suc k) v last)
  | no more ↦
      enc_inner (suc k) v (omega arith)
      ∙ ap (λ (t : Bytes). (v % 128 + 128) ∷ t)
          (uleb_enc-groups k (v / 128) (omega (arith, pow-suc 128 (suc k))))
      ∙ sym (groups_inner k v (omega arith))
]

-- The host encodes a text as the guests do.
pub encode_text-wire_string : (s : Bytes) → length s < 2 ^ 64 → encode_text s ≡ wire_string s
unfolding encode_text wire_string encoding
encode_text-wire_string s small =
    ap (λ (t : Bytes). t ++ s) (uleb_enc-groups 9 (length s) (omega arith))

-- What the host may answer: a result of less than 2 ^ 30 bytes, or an error text in UTF-8 that is not empty.
abbrev pub IsSendable : Bool × Bytes → Type 0
IsSendable (true, body) = All IsByte body × (length body < 2 ^ 30)
IsSendable (false, body) = (body ≢ []) × IsUtf8 body × All IsByte body × (length body < 2 ^ 30)

-- What the caller is to see of it.
abbrev pub sent : Bool × Bytes → Res Bytes
sent (true, body) = ok body
sent (false, body) = err body

call_reply_shape :
    (r : Bool × Bytes)
    → IsSendable r
    → All IsByte (call_reply r)
      × (length (call_reply r) < 2 ^ 31 - 4)
      × (mesh_result (call_reply r) ≡ sent r)
unfolding mesh_result
call_reply_shape (true, body) (bytes, small) = ((omega arith, bytes), omega arith, refl)
call_reply_shape (false, body) (told, good, bytes, small) =
    let text = encode_text-wire_string body (omega arith) in
    let read : read_string (wire_string body) ≡ ok (body, []) =
      rw append-nil at (read_string-wire_string body [] good (omega arith)) in
    rw text (
      (
        omega arith,
        unfold wire_string in
            All-append IsByte (encoding (length body)) body
              (encoding_shape (length body) (omega arith)).0 bytes,
      ),
      unfold wire_string in
          omega (arith, length-append (encoding (length body)) body, length-encoding (length body)),
      rw read (fail_text body told),
    )

erase_fresh : (m : Allocs) (p : ℕ) → find_alloc m p ≡ none → erase m p ≡ m
unfolding find_alloc erase
erase_fresh [] p h = refl
erase_fresh ((q, b) ∷ m) p h = elim (Bool-cases (q == p)) [
  | inl e ↦ let there = rw e at h in absurd (cc)
  | inr e ↦ rw e (ap (λ (t : Allocs). (q, b) ∷ t) (erase_fresh m p (rw e at h)))
]

erase-emplace :
    (m : Allocs) (p : ℕ) (b : Bytes) → find_alloc m p ≡ none → erase (emplace m p b) p ≡ m
unfolding find_alloc erase emplace
erase-emplace [] p b h = ground arith
erase-emplace ((q, a) ∷ m) p b h = elim (Bool-cases (q == p)) [
  | inl e ↦ let there = rw e at h in absurd (cc)
  | inr e ↦ rw (e, erase, e) (ap (λ (t : Allocs). (q, a) ∷ t) (erase-emplace m p b (rw e at h)))
]

take_reply_lem :
    (ptr : ℕ) (inst : Instance) (payload : Bytes)
    → load_string inst.memory ptr (length (frame payload)) ≡ done (frame payload)
    → All IsByte payload
    → length payload < 2 ^ 31
    → take_reply ptr inst ≡ done (mesh_result payload, record inst { pins = erase inst.pins ptr })
unfolding take_reply
take_reply_lem ptr inst payload there bytes small =
    let (header, body, stands) = body-frame inst.memory ptr payload there in
    let junk = drop (length (frame payload)) (drop ptr inst.memory) in
    let size : reply_length (drop ptr inst.memory) ≡ done (length payload) =
      ap reply_length stands ∙ reply_length-frame payload junk (omega arith) in
    rw (size, body, parse_mesh_reply_lem payload bytes small)

frame-IsByte : (payload : Bytes) → All IsByte payload → All IsByte (frame payload)
unfolding frame le32
frame-IsByte payload bytes = (omega arith, (omega arith, (omega arith, (omega arith, bytes))))

length-frame : (payload : Bytes) → length (frame payload) ≡ length payload + 4
unfolding frame le32
length-frame payload = omega arith

import_call_put :
    (call : Bytes → Bytes → Bytes → Bool × Bytes) (place : ℕ) (inst : Instance) (a : CallArgs)
    (wl fn par : Bytes)
    → load_string inst.memory a.wl_ptr a.wl_len ≡ done wl
    → load_string inst.memory a.fn_ptr a.fn_len ≡ done fn
    → load_string inst.memory a.par_ptr a.par_len ≡ done par
    → import_call (some call) place inst a
      ≡ put_string inst place (frame (call_reply (call wl fn par)))
unfolding import_call import_reply put_string
import_call_put call place inst a wl fn par wl_there fn_there par_there =
    rw (wl_there, fn_there, par_there, length-frame (call_reply (call wl fn par)))
      (unfold frame le32 in refl)

released :
    (inst : Instance) (rt : Runtime) (place n : ℕ)
    → Shows inst (crab_alloc rt place n)
    → find_alloc rt.allocs place ≡ none
    → Shows (record inst { pins = erase inst.pins place }) rt
unfolding crab_alloc
released inst rt place n shows free = record {
  same_handlers = shows.same_handlers;
  same_pins =
      ap (λ m. erase m place) shows.same_pins
      ∙ sym (sizes-erase (emplace rt.allocs place (zeros (minimum_one n))) place)
      ∙ ap sizes (erase-emplace rt.allocs place (zeros (minimum_one n)) free);
  reply_there = shows.reply_there;
}

-- A guest calls another one over the host, with the names and the parameters in its memory: the host
-- answers as `opts.call` says, with a result of less than 2 ^ 30 bytes or an error text in UTF-8 that is not
-- empty (an empty one the guest would take for a result), through a
-- buffer that the guest's allocator puts at a free address inside memory, apart from the last reply. The
-- caller sees just that answer, and its memory shows the same runtime as before: the buffer is unpinned.
pub mesh_call_over_host :
    (call : Bytes → Bytes → Bytes → Bool × Bytes) (place : ℕ) (inst : Instance) (rt : Runtime)
    (a : CallArgs) (wl fn par : Bytes)
    → Shows inst rt
    → All IsByte inst.memory
    → load_string inst.memory a.wl_ptr a.wl_len ≡ done wl
    → load_string inst.memory a.fn_ptr a.fn_len ≡ done fn
    → load_string inst.memory a.par_ptr a.par_len ≡ done par
    → IsSendable (call wl fn par)
    → place ≢ 0
    → find_alloc rt.allocs place ≡ none
    → place + length (frame (call_reply (call wl fn par))) ≤ length inst.memory
    → Apart inst.reply_ptr inst.reply_len place (length (frame (call_reply (call wl fn par))))
    → (inst' : Instance) × (mesh_call_at (import_call (some call) place) inst a
        ≡ done (sent (call wl fn par), inst'))
      × Shows inst' rt
unfolding mesh_call_at
mesh_call_over_host call place inst rt a wl fn par shows bytes wl_there fn_there par_there sendable
      there free room apart =
    let payload = call_reply (call wl fn par) in
    let (payload_bytes, small, told) = call_reply_shape (call wl fn par) sendable in
    let size = length-frame payload in
    let whole : minimum_one (length (frame payload)) ≡ length (frame payload) = ground arith in
    let (inst₁, ran, put) =
      put_string_lem inst place (frame payload) (omega arith) (rw whole room) rt shows bytes
        (frame-IsByte payload payload_bytes) (rw whole apart) in
    let test : (place == 0) ≡ false = ground arith in
    (
      record inst₁ { pins = erase inst₁.pins place },
      rw (
        import_call_put call place inst a wl fn par wl_there fn_there par_there,
        ran,
        test,
        take_reply_lem place inst₁ payload put.there payload_bytes (omega arith),
        told,
      ),
      released inst₁ rt place (length (frame payload)) put.shows free,
    )
