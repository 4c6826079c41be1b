-- ===== src/Cpp/Runtime/Calls.antt =====
-- `crab_invoke` of the C++ runtime, for any handlers.
use crabcraft.Prelude.{
  ℕ, ◌^◌, ◌≤◌, ◌<◌, ◌≡◌, ap, arith, true, none, some, ◌∷◌, ◌++◌, Bytes, codes, length,
  length-append, take, leb, done,
}
use crabcraft.Uleb.Encode.{encoding}
use crabcraft.Reply.Frame.{frame, wire_string}
use crabcraft.Cpp.Res.{ok, err}
use crabcraft.Cpp.Decoder.{Decoder, decoder}
use crabcraft.Cpp.Runtime.{
  Handler, Runtime, Allocs, find_handler, find_alloc, emplace, erase, copy, size_of, reply_to,
  dispatch, unpin, crab_alloc, crab_invoke,
}
use crabcraft.Cpp.Runtime.Maps.{find-emplace, find-erase}
use crabcraft.Cpp.Runtime.Replies.{reply_ok_lem, reply_err_lem}

-- What a call of the function `name` is answered with, the arguments in the decoder `d`.
pub data Payload (rt : Runtime) (name : Bytes) (d : Decoder) : Bytes → Type 0 where
  unknown :
      find_handler rt.handlers name ≡ none
      → Payload rt name d (1 ∷ wire_string (codes "unknown function: " ++ name))
  value :
      {handler : Handler} {val : Bytes} {d' : Decoder}
      → find_handler rt.handlers name ≡ some handler
      → handler d ≡ done (ok val, d')
      → Payload rt name d (0 ∷ val)
  failure :
      {handler : Handler} {e : Bytes} {d' : Decoder}
      → find_handler rt.handlers name ≡ some handler
      → handler d ≡ done (err e, d')
      → Payload rt name d (1 ∷ wire_string (name ++ (codes ": " ++ e)))

pub size_of_small : (n : ℕ) → n < 2 ^ 31 → size_of n ≡ n
size_of_small n h = ground arith

length-message : (msg : Bytes) → length (1 ∷ wire_string msg) < 2 ^ 32 → length msg < 2 ^ 32
unfolding wire_string
length-message msg h = omega (arith, length-append (encoding (length msg)) msg)

dispatch_lem :
    (rt : Runtime) (name : Bytes) (d : Decoder) {payload : Bytes}
    → Payload rt name d payload
    → length payload < 2 ^ 32
    → dispatch rt name (find_handler rt.handlers name) d
      ≡ done (record rt { reply = frame payload })
unfolding dispatch reply_to
dispatch_lem rt name d (unknown e) h = rw e (
    reply_err_lem rt (codes "unknown function: " ++ name)
      (length-message (codes "unknown function: " ++ name) h))
dispatch_lem rt name d (value {val = val} e ran) h =
    rw (e, dispatch, ran) (ap done (reply_ok_lem rt val))
dispatch_lem rt name d (failure {e = msg} e ran) h =
    rw (e, dispatch, ran)
      (reply_err_lem rt (name ++ (codes ": " ++ msg))
        (length-message (name ++ (codes ": " ++ msg)) h))

-- Whatever the handlers do, short of faults: `crab_invoke` ends, the reply is the frame of the payload
-- that the call is to be answered with, the handlers stay, and the two buffers are no longer pinned.
pub crab_invoke_lem :
    (rt : Runtime) (name_ptr : ℕ) (name_mem : Bytes) (name_len arg_ptr : ℕ) (arg_mem : Bytes)
    (arg_len : ℕ) {payload : Bytes}
    → size_of name_len ≤ length name_mem
    → Payload rt (take (size_of name_len) name_mem) (decoder arg_mem (size_of arg_len)) payload
    → length payload < 2 ^ 32
    → crab_invoke rt name_ptr name_mem name_len arg_ptr arg_mem arg_len
      ≡ done (record {
        handlers = rt.handlers;
        allocs = erase (erase rt.allocs name_ptr) arg_ptr;
        reply = frame payload;
      })
unfolding crab_invoke copy unpin
crab_invoke_lem rt name_ptr name_mem name_len arg_ptr arg_mem arg_len inside answer short =
    let test : leb (size_of name_len) (length name_mem) ≡ true = ground arith in
    rw (
      test,
      dispatch_lem rt (take (size_of name_len) name_mem) (decoder arg_mem (size_of arg_len)) answer
          short,
    )

pinned_and_erased :
    (m : Allocs) (p q r : ℕ) (a b : Bytes)
    → find_alloc m p ≡ none
    → find_alloc m q ≡ none
    → find_alloc (erase (erase (emplace (emplace m p a) q b) p) q) r ≡ find_alloc m r
pinned_and_erased m p q r a b free_p free_q = ground (
  arith,
  find-erase (erase (emplace (emplace m p a) q b) p) q r,
  find-erase (emplace (emplace m p a) q b) p r,
  find-emplace (emplace m p a) q r b,
  find-emplace m p r a,
)

-- A call for which the host allocates the name and the argument at addresses that are not in use
-- leaves just the buffers pinned that were pinned before.
pub crab_invoke_pins :
    (rt : Runtime) (p q : ℕ) (name_mem : Bytes) (name_len : ℕ) (arg_mem : Bytes) (arg_len : ℕ)
    {payload : Bytes} (r : ℕ)
    → find_alloc rt.allocs p ≡ none
    → find_alloc rt.allocs q ≡ none
    → size_of name_len ≤ length name_mem
    → Payload
        (crab_alloc (crab_alloc rt p name_len) q arg_len)
        (take (size_of name_len) name_mem)
        (decoder arg_mem (size_of arg_len))
        payload
    → length payload < 2 ^ 32
    → (rt' : Runtime) × (crab_invoke
          (crab_alloc (crab_alloc rt p name_len) q arg_len)
          p
          name_mem
          name_len
          q
          arg_mem
          arg_len
        ≡ done rt')
      × (find_alloc rt'.allocs r ≡ find_alloc rt.allocs r)
crab_invoke_pins rt p q name_mem name_len arg_mem arg_len {payload} r free_p free_q inside answer
      short =
    let rt₂ = crab_alloc (crab_alloc rt p name_len) q arg_len in
    (
      record {
        handlers = rt₂.handlers;
        allocs = erase (erase rt₂.allocs p) q;
        reply = frame payload;
      },
      crab_invoke_lem rt₂ p name_mem name_len q arg_mem arg_len inside answer short,
      unfold crab_alloc in pinned_and_erased rt.allocs p q r _ _ free_p free_q,
    )
