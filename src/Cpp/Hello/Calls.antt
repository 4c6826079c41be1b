-- ===== src/Cpp/Hello/Calls.antt =====
-- Whole calls of guest/hello-cpp, and the requests that its bindings encode.
use crabcraft.Prelude.{
  ℕ, ◌^◌, ◌<◌, ◌≡◌, refl, ◌∙◌, ap, arith, none, some, [], ◌∷◌, ◌++◌, Bytes, IsByte, All, codes,
  length, length-append, append-nil, take-append_exact, if◌then◌else◌, Bool-cases, inl, inr, done,
}
use crabcraft.Reply.Frame.{frame, wire_string}
use crabcraft.Cpp.Res.{Res, ok, err}
use crabcraft.Cpp.Decoder.{Decoder, decoder}
use crabcraft.Cpp.Decoder.Reads.{IsDecoder, left, decoder-IsDecoder, left-decoder, Meets}
use crabcraft.Cpp.Runtime.{
  Handler, Runtime, same_text, find_handler, register_handler, erase, crab_invoke,
}
use crabcraft.Cpp.Runtime.Calls.{Payload, unknown, value, failure, size_of_small, crab_invoke_lem}
use crabcraft.Cpp.Hello.{handle_greet, handle_add, greet_name, add_name, registration}
use crabcraft.Cpp.Hello.Handlers.{greet_answer, add_answer, handle_greet-Reads, handle_add-Reads}

-- The payload for what a handler gave.
abbrev pub pay : Bytes → Res (Bytes × Bytes) → Bytes
pay name (ok (v, t)) = 0 ∷ v
pay name (err e) = 1 ∷ wire_string (name ++ (codes ": " ++ e))

-- What a call of the function `name` with the argument bytes `s` is to be answered with.
unfoldable pub hello_payload : Bytes → Bytes → Bytes
hello_payload name s =
    if same_text greet_name name
    then pay name (greet_answer s)
    else if same_text add_name name
    then pay name (add_answer s)
    else 1 ∷ wire_string (codes "unknown function: " ++ name)

Payload-Meets :
    (rt : Runtime) (name : Bytes) (d : Decoder) {h : Handler} (r : Res (Bytes × Bytes))
    → find_handler rt.handlers name ≡ some h
    → Meets (h d) r
    → Payload rt name d (pay name r)
Payload-Meets rt name d (ok (v, t)) found (d', ran, valid, rest) = value found ran
Payload-Meets rt name d (err e) found (d', ran, valid) = failure found ran

find-registration :
    (name : Bytes)
    → find_handler (registration []) name ≡ (
        if same_text greet_name name
        then some handle_greet
        else if same_text add_name name
        then some handle_add
        else none)
unfolding registration register_handler find_handler same_text
find-registration name = refl

hello-Payload :
    (rt : Runtime) (name : Bytes) (d : Decoder)
    → rt.handlers ≡ registration []
    → IsDecoder d
    → Payload rt name d (hello_payload name (left d))
unfolding hello_payload
hello-Payload rt name d registered valid =
    let found = ap (λ m. find_handler m name) registered ∙ find-registration name in
    elim (Bool-cases (same_text greet_name name)) [
      | inl e ↦ rw e (
          Payload-Meets rt name d (greet_answer (left d)) (rw e at found)
            (handle_greet-Reads.run d valid))
      | inr e ↦ elim (Bool-cases (same_text add_name name)) [
        | inl f ↦
            rw (e, f)
              (Payload-Meets rt name d (add_answer (left d)) (rw (e, f) at found)
                (handle_add-Reads.run d valid))
        | inr f ↦ rw (e, f) (unknown (rw (e, f) at found))
      ]
    ]

-- Any name and any argument bytes, both shorter than `2 ^ 31`, with anything behind them in memory: with
-- the two registered functions the call ends without a fault, its reply is the frame of the specified
-- payload, and the buffers of the call are no longer pinned. The payload is one that 32 bits can measure.
pub hello_lem :
    (rt : Runtime) (name_ptr arg_ptr : ℕ) (name name_junk arg arg_junk : Bytes)
    → rt.handlers ≡ registration []
    → length name < 2 ^ 31
    → All IsByte arg
    → All IsByte arg_junk
    → length arg < 2 ^ 31
    → length (hello_payload name arg) < 2 ^ 32
    → crab_invoke rt name_ptr
        (name ++ name_junk)
        (length name)
        arg_ptr
        (arg ++ arg_junk)
        (length arg)
      ≡ done (record {
        handlers = rt.handlers;
        allocs = erase (erase rt.allocs name_ptr) arg_ptr;
        reply = frame (hello_payload name arg);
      })
hello_lem rt name_ptr arg_ptr name name_junk arg arg_junk registered name_small bytes others
      arg_small fits =
    let size = size_of_small (length name) name_small in
    let arg_size = size_of_small (length arg) arg_small in
    crab_invoke_lem rt name_ptr (name ++ name_junk) (length name) arg_ptr (arg ++ arg_junk)
      (length arg) (omega (arith, size, length-append name name_junk))
      (rw (size, arg_size, take-append_exact name name_junk)
        (rw (left-decoder arg arg_junk) at (
          hello-Payload rt name (decoder (arg ++ arg_junk) (length arg)) registered
            (decoder-IsDecoder arg arg_junk bytes others arg_small))))
      fits

-- With nothing behind them.
pub hello_exact :
    (rt : Runtime) (name_ptr arg_ptr : ℕ) (name arg : Bytes)
    → rt.handlers ≡ registration []
    → length name < 2 ^ 31
    → All IsByte arg
    → length arg < 2 ^ 31
    → length (hello_payload name arg) < 2 ^ 32
    → crab_invoke rt name_ptr name (length name) arg_ptr arg (length arg)
      ≡ done (record {
        handlers = rt.handlers;
        allocs = erase (erase rt.allocs name_ptr) arg_ptr;
        reply = frame (hello_payload name arg);
      })
hello_exact rt name_ptr arg_ptr name arg registered name_small bytes arg_small fits =
    rw (append-nil name, append-nil arg) at
      (hello_lem rt name_ptr arg_ptr name [] arg [] registered name_small bytes tt arg_small fits)
