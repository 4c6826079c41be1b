-- ===== src/Host/Hello.antt =====
-- Whole calls of the guest hello-cpp through the host.
use crabcraft.Prelude.{
  ℕ, ◌+◌, ◌^◌, ◌≤◌, ◌<◌, ◌≡◌, refl, ◌∙◌, ap, arith, inl, inr, [], ◌∷◌, ◌++◌, Bytes, IsByte, All,
  All-drop, codes, length, length-append, drop, if◌then◌else◌, Bool-cases, done, Fault, Outcome,
}
use crabcraft.Uleb.Encode.{encoding}
use crabcraft.Reply.Frame.{frame, wire_string}
use crabcraft.Cpp.Res.{Res, ok, err}
use crabcraft.Cpp.Runtime.{Runtime, same_text, minimum_one, erase, copy, crab_alloc, crab_invoke}
use crabcraft.Cpp.Linear.{Memory, Instance, load_string}
use crabcraft.Cpp.Linear.Memory.{Apart, loaded}
use crabcraft.Cpp.Linear.Refines.{Shows, Answers, invoke_at-Answers}
use crabcraft.Cpp.Hello.{greet_name, add_name, registration}
use crabcraft.Cpp.Hello.Handlers.{greet_answer, add_answer}
use crabcraft.Cpp.Hello.Calls.{pay, hello_payload, hello_lem}
use crabcraft.Host.{
  Answer, result, failed, Places, read_reply, failure_text, put_params, finish_call, worker_invoke,
}
use crabcraft.Host.Values.{decode_string-wire_string, read_lenbuf-Shows}
use crabcraft.Host.Calls.{put_string_lem}

-- What the client of the host is to see.
abbrev pub seen : Bytes → Res (Bytes × Bytes) → Answer
seen name (ok (v, t)) = result v
seen name (err e) = failed (name ++ (codes ": " ++ e))

unfoldable pub hello_answer : Bytes → Bytes → Answer
hello_answer name arg =
    if same_text greet_name name
    then seen name (greet_answer arg)
    else if same_text add_name name
    then seen name (add_answer arg)
    else failed (codes "unknown function: " ++ name)

short_text : (msg : Bytes) → length (1 ∷ wire_string msg) < 2 ^ 32 → length msg < 2 ^ 64
unfolding wire_string
short_text msg small = omega (arith, length-append (encoding (length msg)) msg)

read_error :
    (msg : Bytes)
    → length (1 ∷ wire_string msg) < 2 ^ 32
    → read_reply (1 ∷ wire_string msg) ≡ failed msg
unfolding read_reply
read_error msg small = ap failure_text (decode_string-wire_string msg (short_text msg small))

read_pay :
    (name : Bytes) (r : Res (Bytes × Bytes))
    → length (pay name r) < 2 ^ 32
    → read_reply (pay name r) ≡ seen name r
read_pay name (ok (v, t)) small = unfold read_reply in refl
read_pay name (err e) small = read_error (name ++ (codes ": " ++ e)) small

read-hello_payload :
    (name arg : Bytes)
    → length (hello_payload name arg) < 2 ^ 32
    → read_reply (hello_payload name arg) ≡ hello_answer name arg
unfolding hello_payload hello_answer
read-hello_payload name arg small = elim (Bool-cases (same_text greet_name name)) [
  | inl e ↦ rw e (read_pay name (greet_answer arg) (rw e at small))
  | inr e ↦ elim (Bool-cases (same_text add_name name)) [
    | inl f ↦ rw (e, f) (read_pay name (add_answer arg) (rw (e, f) at small))
    | inr f ↦ rw (e, f) (read_error (codes "unknown function: " ++ name) (rw (e, f) at small))
  ]
]

-- The buffers of a call lie in memory, apart from one another and from the last reply.
pub record Fits (inst : Instance) (places : Places) (name arg : Bytes) : Type 0 where
  pub name_room : places.name_place + minimum_one (length name) ≤ length inst.memory
  pub arg_room : places.arg_place + minimum_one (length arg) ≤ length inst.memory
  pub reply_room : places.reply_place + length (frame (hello_payload name arg)) ≤ length inst.memory
  pub name_apart : Apart inst.reply_ptr inst.reply_len places.name_place (minimum_one (length name))
  pub arg_apart : Apart inst.reply_ptr inst.reply_len places.arg_place (minimum_one (length arg))
  pub both_apart : Apart places.name_place (length name) places.arg_place (minimum_one (length arg))

-- What an instance is when the argument is there.
record Ready (inst : Instance) (rt : Runtime) (name_ptr : ℕ) (name : Bytes) (arg_ptr : ℕ)
    (arg : Bytes) (inst' : Instance) (rt' : Runtime) : Type 0 where
  shows : Shows inst' rt'
  same_handlers : rt'.handlers ≡ rt.handlers
  name_there : load_string inst'.memory name_ptr (length name) ≡ done name
  arg_there : load_string inst'.memory arg_ptr (length arg) ≡ done arg
  same_size : length inst'.memory ≡ length inst.memory
  bytes : All IsByte inst'.memory

nothing_loaded : (m : Memory) → load_string m 0 0 ≡ done []
unfolding load_string copy
nothing_loaded m = ground arith

put_params_lem :
    (inst : Instance) (rt : Runtime) (p q : ℕ) (name arg : Bytes)
    → Shows inst rt
    → All IsByte inst.memory
    → All IsByte arg
    → length arg < 2 ^ 31
    → load_string inst.memory q (length name) ≡ done name
    → p + minimum_one (length arg) ≤ length inst.memory
    → Apart inst.reply_ptr inst.reply_len p (minimum_one (length arg))
    → Apart q (length name) p (minimum_one (length arg))
    → (arg_ptr : ℕ) × (inst' : Instance) × (rt' : Runtime) × (put_params inst p arg
        ≡ done (arg_ptr, inst'))
      × Ready inst rt q name arg_ptr arg inst' rt'
unfolding put_params
put_params_lem inst rt p q name [] shows bytes s_bytes small name_there room apart both = (
  0,
  inst,
  rt,
  refl,
  record {
    shows = shows;
    same_handlers = refl;
    name_there = name_there;
    arg_there = nothing_loaded inst.memory;
    same_size = refl;
    bytes = bytes;
  },
)
put_params_lem inst rt p q name (b ∷ arg) shows bytes s_bytes small name_there room apart both =
    let (inst', ran, there) =
      put_string_lem inst p (b ∷ arg) small room rt shows bytes s_bytes apart in
    (
      p,
      inst',
      crab_alloc rt p (length (b ∷ arg)),
      ran,
      record {
        shows = there.shows;
        same_handlers = unfold crab_alloc in refl;
        name_there = there.elsewhere q (length name) both ∙ name_there;
        arg_there = there.there;
        same_size = there.same_size;
        bytes = there.bytes;
      },
    )

module _ (inst : Instance) (rt : Runtime) (registered : rt.handlers ≡ registration [])
    (shows : Shows inst rt) where
  invoked :
      (name_ptr arg_ptr : ℕ) (name arg : Bytes)
      → length name < 2 ^ 31
      → All IsByte arg
      → length arg < 2 ^ 31
      → length (hello_payload name arg) < 2 ^ 32
      → All IsByte inst.memory
      → load_string inst.memory name_ptr (length name) ≡ done name
      → load_string inst.memory arg_ptr (length arg) ≡ done arg
      → crab_invoke rt name_ptr
          (drop name_ptr inst.memory)
          (length name)
          arg_ptr
          (drop arg_ptr inst.memory)
          (length arg)
        ≡ done (record {
          handlers = rt.handlers;
          allocs = erase (erase rt.allocs name_ptr) arg_ptr;
          reply = frame (hello_payload name arg);
        })
  invoked name_ptr arg_ptr name arg name_small arg_bytes arg_small fits bytes name_there arg_there =
      let (name_stands, name_size) = loaded inst.memory name_ptr (length name) name name_there in
      let (arg_stands, arg_size) = loaded inst.memory arg_ptr (length arg) arg arg_there in
      with_memory (drop name_ptr inst.memory) (drop arg_ptr inst.memory)
        (drop (length name) (drop name_ptr inst.memory))
        (drop (length arg) (drop arg_ptr inst.memory)) name_stands arg_stands
        (All-drop IsByte (length arg) (drop arg_ptr inst.memory)
          (All-drop IsByte arg_ptr inst.memory bytes))
    where
      with_memory :
          (name_mem arg_mem name_junk arg_junk : Bytes)
          → name_mem ≡ name ++ name_junk
          → arg_mem ≡ arg ++ arg_junk
          → All IsByte arg_junk
          → crab_invoke rt name_ptr name_mem (length name) arg_ptr arg_mem (length arg)
            ≡ done (record {
              handlers = rt.handlers;
              allocs = erase (erase rt.allocs name_ptr) arg_ptr;
              reply = frame (hello_payload name arg);
            })
      with_memory name_mem arg_mem name_junk arg_junk e f junk_bytes =
          rw (e, f)
            (hello_lem rt name_ptr arg_ptr name name_junk arg arg_junk registered name_small
              arg_bytes junk_bytes arg_small fits)

finish_call_lem :
    (trap_text : Fault → Bytes) (before : Instance) (o : Outcome (ℕ × Instance)) (p : ℕ)
    (rt : Runtime) (payload : Bytes)
    → Answers o p rt
    → rt.reply ≡ frame payload
    → length payload < 2 ^ 32
    → (inst : Instance) × (finish_call trap_text before o ≡ done (read_reply payload, inst))
      × Shows inst rt
unfolding finish_call
finish_call_lem trap_text before o p rt payload (inst, e, shows, at_p) framed small =
    let read = read_lenbuf-Shows inst rt p payload shows at_p framed small in
    (inst, rw (e, finish_call, read), shows)

-- A client calls any function of hello-cpp by the host, with any bytes as arguments: the guest's memory shows
-- a runtime with the two registered functions, the allocator gives addresses that are free and inside
-- memory, and name, arguments and payload are short. Nothing traps, the client sees the specified answer,
-- and the memory shows a runtime with the same functions and the frame of the specified payload.
pub hello_call :
    (trap_text : Fault → Bytes) (places : Places) (inst : Instance) (rt : Runtime)
    (name arg : Bytes)
    → Shows inst rt
    → rt.handlers ≡ registration []
    → All IsByte inst.memory
    → All IsByte name
    → All IsByte arg
    → length name < 2 ^ 31
    → length arg < 2 ^ 31
    → length (hello_payload name arg) < 2 ^ 32
    → Fits inst places name arg
    → (inst' : Instance) × (rt' : Runtime) × (worker_invoke trap_text places inst name arg
        ≡ done (hello_answer name arg, inst'))
      × Shows inst' rt'
      × (rt'.handlers ≡ registration [])
      × (rt'.reply ≡ frame (hello_payload name arg))
unfolding worker_invoke
hello_call trap_text places inst rt name arg shows registered bytes name_bytes arg_bytes name_small
      arg_small small fits =
    let (inst₁, ran₁, put) =
      put_string_lem inst places.name_place name name_small fits.name_room rt shows bytes name_bytes
        fits.name_apart in
    let (arg_ptr, inst₂, rt₂, ran₂, ready) =
      put_params_lem inst₁ (crab_alloc rt places.name_place (length name)) places.arg_place
        places.name_place name arg put.shows put.bytes arg_bytes arg_small put.there
        (rw put.same_size fits.arg_room) (rw (put.same_ptr, put.same_len) fits.arg_apart)
        fits.both_apart in
    let functions : rt₂.handlers ≡ registration [] =
      ready.same_handlers ∙ (unfold crab_alloc in registered) in
    let ran₃ =
      invoked inst₂ rt₂ functions ready.shows places.name_place arg_ptr name arg name_small
        arg_bytes arg_small small ready.bytes ready.name_there ready.arg_there in
    let answers =
      invoke_at-Answers inst₂ rt₂ ready.shows places.reply_place places.name_place (length name)
        arg_ptr (length arg) ran₃ (rw (ready.same_size, put.same_size) fits.reply_room) in
    let (inst₃, ended, shows₃) =
      finish_call_lem trap_text inst₂ _ places.reply_place _ (hello_payload name arg) answers refl
        small in
    (
      inst₃,
      record {
        handlers = rt₂.handlers;
        allocs = erase (erase rt₂.allocs places.name_place) arg_ptr;
        reply = frame (hello_payload name arg);
      },
      rw (ran₁, ran₂, ended, read-hello_payload name arg small),
      shows₃,
      functions,
      refl,
    )
