-- ===== src/Cpp/Linear/Refines.antt =====
-- The instance with linear memory does what the runtime does whose reply is a value.
use crabcraft.Prelude.{
  fault_done, ℕ, ◌+◌, ◌≤◌, ◌≡◌, refl, sym, ◌∙◌, arith, none, some, List, [], ◌∷◌, ◌++◌, Bytes,
  codes, length, drop, Option, Outcome, done, fault, done-injective, ◌>>=◌,
}
use mathlib.Core.Path.{subst}
use crabcraft.Cpp.Res.{Res, ok, err}
use crabcraft.Cpp.Encode.{push_back, zeros, encode_string}
use crabcraft.Cpp.Decoder.{Decoder, decoder}
use crabcraft.Cpp.Runtime.{
  Handler, Runtime, Allocs, find_handler, emplace, erase, lenbuf, minimum_one, size_of, reply_ok,
  reply_err, reply_to, dispatch, unpin, crab_alloc, crab_schema, crab_invoke, copy,
}
use crabcraft.Cpp.Decoder.FlagBits.{length-zeros}
use crabcraft.Cpp.Linear.{
  Instance, load_string, store_at, lenbuf_at, reply_ok_at, reply_err_at, alloc_at, schema_at,
  reply_at, dispatch_at, unpin_at, invoke_at,
}
use crabcraft.Cpp.Linear.Memory.{Apart, load-store, load-store-Apart, store_string_lem}

-- The pinned vectors by their sizes.
abbrev pub sizes : Allocs → List (ℕ × ℕ)
sizes [] = []
sizes ((p, b) ∷ m) = (p, length b) ∷ sizes m

pub sizes-emplace :
    (m : Allocs) (p : ℕ) (b : Bytes) → sizes (emplace m p b) ≡ emplace (sizes m) p (length b)
unfolding emplace
sizes-emplace [] p b = refl
sizes-emplace ((q, a) ∷ m) p b = ground (arith, sizes-emplace m p b)

pub sizes-erase : (m : Allocs) (p : ℕ) → sizes (erase m p) ≡ erase (sizes m) p
unfolding erase
sizes-erase [] p = refl
sizes-erase ((q, a) ∷ m) p = ground (arith, sizes-erase m p)

-- The same registry, the same pinned vectors, and the reply where the instance says.
pub record Shows (inst : Instance) (rt : Runtime) : Type 0 where
  pub same_handlers : inst.handlers ≡ rt.handlers
  pub same_pins : inst.pins ≡ sizes rt.allocs
  pub reply_there : load_string inst.memory inst.reply_ptr inst.reply_len ≡ done rt.reply

-- The call returns the address `p`, and the instance then shows `rt`.
abbrev pub Ends : Outcome (ℕ × Instance) → ℕ → Runtime → Type 0
Ends r p rt = (inst : Instance) × (r ≡ done (p, inst)) × Shows inst rt

-- And the reply is there.
abbrev pub Answers : Outcome (ℕ × Instance) → ℕ → Runtime → Type 0
Answers r p rt = (inst : Instance) × (r ≡ done (p, inst)) × Shows inst rt × (inst.reply_ptr ≡ p)

unpin_at-Shows :
    (inst : Instance) (rt : Runtime) (a b : ℕ)
    → Shows inst rt
    → Shows (record inst { pins = erase (erase inst.pins a) b }) (unpin rt a b)
unfolding unpin
unpin_at-Shows inst rt a b shows = record {
  same_handlers = shows.same_handlers;
  same_pins = rw (sizes-erase (erase rt.allocs a) b, sizes-erase rt.allocs a, shows.same_pins);
  reply_there = shows.reply_there;
}

unpinned_Answers :
    (o : Outcome (ℕ × Instance)) (p : ℕ) (rt : Runtime) (a b : ℕ)
    → Answers o p rt
    → Answers (o >>= λ r. done (unpin_at r a b)) p (unpin rt a b)
unfolding unpin_at
unpinned_Answers o p rt a b (inst, e, shows, at) =
    (record inst { pins = erase (erase inst.pins a) b }, rw e, unpin_at-Shows inst rt a b shows, at)

module _ (inst : Instance) (rt : Runtime) (shows : Shows inst rt) (p : ℕ) where
  lenbuf_at-Answers :
      (payload : Bytes)
      → p + length (lenbuf payload) ≤ length inst.memory
      → Answers (lenbuf_at inst p payload) p (record rt { reply = lenbuf payload })
  unfolding lenbuf_at
  lenbuf_at-Answers payload inside = (
    record inst {
      memory = store_at p (lenbuf payload) inst.memory;
      reply_ptr = p;
      reply_len = length (lenbuf payload);
    },
    rw (store_string_lem p (lenbuf payload) inst.memory inside),
    record {
      same_handlers = shows.same_handlers;
      same_pins = shows.same_pins;
      reply_there = load-store p (lenbuf payload) inst.memory inside;
    },
    refl,
  )

  -- The reply to an error, whatever its encoding gave.
  message_Answers :
      (o : Outcome Bytes) {rt' : Runtime}
      → (o >>= λ payload. done (record rt { reply = lenbuf payload })) ≡ done rt'
      → p + length rt'.reply ≤ length inst.memory
      → Answers (o >>= λ payload. lenbuf_at inst p payload) p rt'
  message_Answers (fault e) ran inside = absurd (fault_done ran)
  message_Answers (done payload) ran inside =
      subst (λ r. p + length r.reply ≤ length inst.memory → Answers (lenbuf_at inst p payload) p r)
        (done-injective ran) (lenbuf_at-Answers payload) inside

  reply_err_at-Answers :
      (msg : Bytes) {rt' : Runtime}
      → reply_err rt msg ≡ done rt'
      → p + length rt'.reply ≤ length inst.memory
      → Answers (reply_err_at inst p msg) p rt'
  unfolding reply_err reply_err_at
  reply_err_at-Answers msg ran inside =
      message_Answers (encode_string (push_back [] 1) msg) ran inside

  reply_at-Answers :
      (name : Bytes) (r : Res Bytes) {rt' : Runtime}
      → reply_to rt name r ≡ done rt'
      → p + length rt'.reply ≤ length inst.memory
      → Answers (reply_at inst p name r) p rt'
  unfolding reply_to reply_at reply_ok reply_ok_at
  reply_at-Answers name (ok val) ran inside =
      message_Answers (done (push_back [] 0 ++ val)) ran inside
  reply_at-Answers name (err e) ran inside =
      reply_err_at-Answers (name ++ (codes ": " ++ e)) ran inside

  answered-Answers :
      (name : Bytes) (o : Outcome (Res Bytes × Decoder)) {rt' : Runtime}
      → (o >>= λ (r, d'). reply_to rt name r) ≡ done rt'
      → p + length rt'.reply ≤ length inst.memory
      → Answers (o >>= λ (r, d'). reply_at inst p name r) p rt'
  answered-Answers name (fault e) ran inside = absurd (fault_done ran)
  answered-Answers name (done (r, d')) ran inside = reply_at-Answers name r ran inside

  dispatch_at-Answers :
      (name : Bytes) (found : Option Handler) (d : Decoder) {rt' : Runtime}
      → dispatch rt name found d ≡ done rt'
      → p + length rt'.reply ≤ length inst.memory
      → Answers (dispatch_at inst p name found d) p rt'
  unfolding dispatch dispatch_at
  dispatch_at-Answers name none d ran inside =
      reply_err_at-Answers (codes "unknown function: " ++ name) ran inside
  dispatch_at-Answers name (some handler) d ran inside =
      answered-Answers name (handler d) ran inside

  -- The new vector has `minimum_one len` bytes at `p`, which are not those of the reply.
  pub alloc_at-Ends :
      (len : ℕ)
      → p + minimum_one len ≤ length inst.memory
      → Apart inst.reply_ptr inst.reply_len p (minimum_one len)
      → Ends (alloc_at inst p len) p (crab_alloc rt p len)
  unfolding alloc_at crab_alloc
  alloc_at-Ends len inside apart =
      let size = length-zeros (minimum_one len) in
      let room : p + length (zeros (minimum_one len)) ≤ length inst.memory = rw size inside in
      (
        record inst {
          memory = store_at p (zeros (minimum_one len)) inst.memory;
          pins = emplace inst.pins p (minimum_one len);
        },
        rw (store_string_lem p (zeros (minimum_one len)) inst.memory room),
        record {
          same_handlers = shows.same_handlers;
          same_pins =
              rw (sizes-emplace rt.allocs p (zeros (minimum_one len)), size, shows.same_pins);
          reply_there =
              load-store-Apart inst.reply_ptr inst.reply_len p (zeros (minimum_one len)) inst.memory
                room (rw size apart)
              ∙ shows.reply_there;
        },
      )

  pub schema_at-Answers :
      (schema_json : Bytes)
      → p + length (lenbuf schema_json) ≤ length inst.memory
      → Answers (schema_at inst p schema_json) p (crab_schema rt schema_json)
  unfolding schema_at crab_schema
  schema_at-Answers schema_json inside = lenbuf_at-Answers schema_json inside

  dispatched_Answers :
      (name : Bytes) (a b : ℕ) (found : Option Handler) (d : Decoder) (o : Outcome Runtime)
      {rt' : Runtime}
      → dispatch rt name found d ≡ o
      → (o >>= λ r. done (unpin r a b)) ≡ done rt'
      → p + length rt'.reply ≤ length inst.memory
      → Answers (dispatch_at inst p name found d >>= λ r. done (unpin_at r a b)) p rt'
  unfolding unpin
  dispatched_Answers name a b found d (fault e) same ran inside = absurd (fault_done ran)
  dispatched_Answers name a b found d (done r) same ran inside =
      let room : p + length r.reply ≤ length inst.memory = rw (← done-injective ran) at inside in
      subst (λ t. Answers (dispatch_at inst p name found d >>= λ q. done (unpin_at q a b)) p t)
        (done-injective ran)
        (unpinned_Answers (dispatch_at inst p name found d) p r a b
          (dispatch_at-Answers name found d same room))

  copied_Answers :
      (name_ptr arg_ptr : ℕ) (d : Decoder) (o : Outcome Bytes) {rt' : Runtime}
      → (o >>= λ name. dispatch rt name (find_handler rt.handlers name) d >>= λ r.
          done (unpin r name_ptr arg_ptr))
        ≡ done rt'
      → p + length rt'.reply ≤ length inst.memory
      → Answers
          (o >>= λ name. dispatch_at inst p name (find_handler inst.handlers name) d >>= λ r.
            done (unpin_at r name_ptr arg_ptr))
          p
          rt'
  copied_Answers name_ptr arg_ptr d (fault e) ran inside = absurd (fault_done ran)
  copied_Answers name_ptr arg_ptr d (done name) {rt'} ran inside =
      subst
        (λ m.
          Answers
            (dispatch_at inst p name (find_handler m name) d >>= λ r.
              done (unpin_at r name_ptr arg_ptr))
            p rt')
        (sym shows.same_handlers)
        (dispatched_Answers name name_ptr arg_ptr (find_handler rt.handlers name) d
          (dispatch rt name (find_handler rt.handlers name) d) refl ran inside)

  -- Wherever the name and the argument lie in memory: a call that ends in the runtime ends in the
  -- instance.
  pub invoke_at-Answers :
      (name_ptr name_len arg_ptr arg_len : ℕ) {rt' : Runtime}
      → crab_invoke rt name_ptr
          (drop name_ptr inst.memory)
          name_len
          arg_ptr
          (drop arg_ptr inst.memory)
          arg_len
        ≡ done rt'
      → p + length rt'.reply ≤ length inst.memory
      → Answers (invoke_at inst p name_ptr name_len arg_ptr arg_len) p rt'
  unfolding crab_invoke invoke_at load_string
  invoke_at-Answers name_ptr name_len arg_ptr arg_len ran inside =
      copied_Answers name_ptr arg_ptr (decoder (drop arg_ptr inst.memory) (size_of arg_len))
        (copy (drop name_ptr inst.memory) (size_of name_len)) ran inside
