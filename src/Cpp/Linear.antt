-- ===== src/Cpp/Linear.antt =====
-- A C++ guest as an instance with linear memory: the exports of guest/hello-cpp/gen/crab.cpp with their
-- pointers. The addresses at which the allocator puts new vectors are arguments.
pub mod Memory
pub mod Refines
use crabcraft.Prelude.{
  ℕ, zero, suc, ◌+◌, ◌*◌, Bool, true, false, ◌||◌, Option, none, some, List, [], ◌∷◌, ◌++◌, Bytes,
  codes, length, drop, ltb, leb, if◌then◌else◌, Outcome, done, fault, overrun, ◌>>=◌,
}
use crabcraft.Cpp.Res.{Res, ok, err}
use crabcraft.Cpp.Encode.{push_back, zeros, encode_string}
use crabcraft.Cpp.Decoder.{Decoder, decoder}
use crabcraft.Cpp.Runtime.{
  Handler, HandlerMap, find_handler, emplace, erase, lenbuf, size_of, copy, minimum_one,
}

-- Memory from address 0 to its end, where accesses trap.
abbrev pub Memory : Type 0
Memory = Bytes

unfoldable pub load_string : Memory → ℕ → ℕ → Outcome Bytes
load_string m p n = copy (drop p m) n

abbrev pub overlay : Bytes → Memory → Memory
overlay [] m = m
overlay (x ∷ s) [] = []
overlay (x ∷ s) (c ∷ m) = x ∷ overlay s m

abbrev pub store_at : ℕ → Bytes → Memory → Memory
store_at zero s m = overlay s m
store_at (suc p) s [] = []
store_at (suc p) s (c ∷ m) = c ∷ store_at p s m

unfoldable pub store_string : Memory → ℕ → Bytes → Outcome Memory
store_string m p s = if leb (p + length s) (length m) then done (store_at p s m) else fault overrun

-- The pinned vectors, by address and size.
abbrev pub Pins : Type 0
Pins = List (ℕ × ℕ)

-- The static variables: the registry, the pinned vectors, and the vector of the reply by address
-- and size.
pub record Instance : Type 0 where
  pub memory : Memory
  pub handlers : HandlerMap
  pub pins : Pins
  pub reply_ptr : ℕ
  pub reply_len : ℕ

-- The reply vector then lies at `p`.
unfoldable pub lenbuf_at : Instance → ℕ → Bytes → Outcome (ℕ × Instance)
lenbuf_at inst p payload = do
  let r = lenbuf payload
  m ← store_string inst.memory p r
  done (p, record inst { memory = m; reply_ptr = p; reply_len = length r })

unfoldable pub reply_ok_at : Instance → ℕ → Bytes → Outcome (ℕ × Instance)
reply_ok_at inst p result = lenbuf_at inst p (push_back [] 0 ++ result)

unfoldable pub reply_err_at : Instance → ℕ → Bytes → Outcome (ℕ × Instance)
reply_err_at inst p msg = do payload ← encode_string (push_back [] 1) msg; lenbuf_at inst p payload

-- The new vector lies at `p`.
unfoldable pub alloc_at : Instance → ℕ → ℕ → Outcome (ℕ × Instance)
alloc_at inst p len = do
  let size = minimum_one len
  m ← store_string inst.memory p (zeros size)
  done (p, record inst { memory = m; pins = emplace inst.pins p size })

unfoldable pub schema_at : Instance → ℕ → Bytes → Outcome (ℕ × Instance)
schema_at inst p schema_json = lenbuf_at inst p schema_json

unfoldable pub reply_at : Instance → ℕ → Bytes → Res Bytes → Outcome (ℕ × Instance)
reply_at inst p name (ok val) = reply_ok_at inst p val
reply_at inst p name (err e) = reply_err_at inst p (name ++ (codes ": " ++ e))

unfoldable pub dispatch_at :
    Instance → ℕ → Bytes → Option Handler → Decoder → Outcome (ℕ × Instance)
dispatch_at inst p name none d = reply_err_at inst p (codes "unknown function: " ++ name)
dispatch_at inst p name (some handler) d = do (r, d') ← handler d; reply_at inst p name r

unfoldable pub unpin_at : ℕ × Instance → ℕ → ℕ → ℕ × Instance
unpin_at (r, inst) a b = (r, record inst { pins = erase (erase inst.pins a) b })

-- `name_ptr` and `arg_ptr` are addresses in the memory of the instance.
unfoldable pub invoke_at : Instance → ℕ → ℕ → ℕ → ℕ → ℕ → Outcome (ℕ × Instance)
invoke_at inst p name_ptr name_len arg_ptr arg_len = do
  name ← load_string inst.memory name_ptr (size_of name_len)
  r ←
      dispatch_at inst p name (find_handler inst.handlers name)
        (decoder (drop arg_ptr inst.memory) (size_of arg_len))
  done (unpin_at r name_ptr arg_ptr)
