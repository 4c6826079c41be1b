-- ===== src/Cpp/Hello.antt =====
-- The guest hello-cpp: guest/hello-cpp/impl.cpp, and gen/bindings.hpp, gen/bindings.cpp and
-- gen/schema_json.h, which crabgen made for it.
mod Schema
pub mod Parsers
pub mod Handlers
pub mod Calls
pub mod Requests
pub mod Sessions
pub use Schema.{schema_json}
use crabcraft.Prelude.{
  ℕ, ◌+◌, ◌%◌, ◌^◌, Bool, true, false, Option, none, some, List, [], ◌∷◌, ◌++◌, Bytes, codes,
  if◌then◌else◌, Outcome, done, fault,
}
use crabcraft.Cpp.Res.{Res, ok, err, res, fail}
use crabcraft.Cpp.Encode.{encode_string, encode_option_tag, encode_bool, encode_u32}
use crabcraft.Cpp.Decoder.{
  Decoder, Decode, pure, refuse, lift, ◌>>=◌, finish, string, option_tag, bool, u32,
}
use crabcraft.Cpp.Runtime.{
  Handler, HandlerMap, GuestModule, Runtime, start, register_handler, crab_alloc, crab_schema,
  crab_invoke,
}

pub record GreetRequest : Type 0 where
  pub name : Bytes
  pub excited : Option Bool

abbrev pub encode_excited : Option Bool → Bytes → Bytes
encode_excited none out = out
encode_excited (some x0) out = encode_bool out x0

abbrev pub has_value : Option Bool → Bool
has_value none = false
has_value (some x0) = true

-- The message is always empty.
unfoldable pub encode_greet_request : Bytes → GreetRequest → Outcome Bytes
encode_greet_request out v = elim (encode_string out v.name) [
  | fault e ↦ fault e
  | done out' ↦ done (encode_excited v.excited (encode_option_tag out' (has_value v.excited)))
]

abbrev pub decode_excited : Bool → Decode (Option Bool)
decode_excited true = do x2 ← bool; pure (some x2)
decode_excited false = pure none

unfoldable pub decode_greet_request : Decode GreetRequest
decode_greet_request = do
  name ← string
  present ← option_tag
  excited ← decode_excited present
  pure (record { name = name; excited = excited })

-- `value_or(false)`
abbrev pub is_excited : Option Bool → Bool
is_excited none = false
is_excited (some x) = x

-- What the bindings call, and the application defines.
pub record Impl : Type 0 where
  pub greet : GreetRequest → Res Bytes
  pub add : ℕ → ℕ → Res ℕ

unfoldable pub greet : GreetRequest → Res Bytes
greet req =
    let bang = if is_excited req.excited then codes "!!!" else codes "!" in
    res (codes "Hello from C++, " ++ (req.name ++ bang)) []

-- Unsigned arithmetic wraps around.
unfoldable pub add : ℕ → ℕ → Res ℕ
add a b = res ((a + b) % 2 ^ 32) []

abbrev pub impl : Impl
impl = record { greet = greet; add = add }

-- `if (!r.ok()) return fail("bad params: " + r.err);`, and then the rest.
abbrev pub param : {A : Type 0} → Decode A → Decode A
param m d = elim (m d) [
  | fault e ↦ fault e
  | done (ok v, d') ↦ done (ok v, d')
  | done (err e, d') ↦ done (err (codes "bad params: " ++ e), d')
]

-- The check of `d.Finish("params")`.
abbrev pub no_more : Decode (Unit {0})
no_more d = elim (finish d (codes "params")) [
  | [] ↦ done (ok tt, d)
  | c ∷ fin ↦ done (err (codes "bad params: " ++ (c ∷ fin)), d)
]

-- What the function returned.
abbrev pub returned : {A : Type 0} → Res A → Decode A
returned r d = done (r, d)

unfoldable pub handle_greet : Handler
handle_greet = do
  req ← param decode_greet_request
  all_read ← no_more
  val ← returned (impl.greet req)
  lift (encode_string [] val)

unfoldable pub handle_add : Handler
handle_add = do
  a ← param u32
  b ← param u32
  all_read ← no_more
  val ← returned (impl.add a b)
  lift (encode_u32 [] val)

abbrev pub greet_name : Bytes
greet_name = codes "crab:hello-cpp/greeter@0.1.0#greet"

abbrev pub add_name : Bytes
add_name = codes "crab:hello-cpp/greeter@0.1.0#add"

-- The map behind `Handlers()` when the static objects are constructed.
unfoldable pub registration : HandlerMap → HandlerMap
registration m = register_handler (register_handler m greet_name handle_greet) add_name handle_add

abbrev pub hello_module : GuestModule
hello_module = record { register = registration; schema_json = schema_json }

-- The view that `SchemaJson` gives to `crab_schema`.
unfoldable pub serve_schema : Runtime → Runtime
serve_schema rt = crab_schema rt hello_module.schema_json

-- The guest when its static objects are constructed.
abbrev pub hello_start : Runtime
hello_start = start hello_module

-- The calls of the host, the memory at its pointers included.
pub data Export : Type 0 where
  alloc_call : ℕ → ℕ → Export
  schema_call : Export
  invoke_call : ℕ → Bytes → ℕ → ℕ → Bytes → ℕ → Export

unfoldable pub run_export : Runtime → Export → Outcome Runtime
run_export rt (alloc_call p len) = done (crab_alloc rt p len)
run_export rt schema_call = done (serve_schema rt)
run_export rt (invoke_call name_ptr name name_len arg_ptr arg arg_len) =
    crab_invoke rt name_ptr name name_len arg_ptr arg arg_len

-- A session: one call after another.
unfoldable pub run_exports : Runtime → List Export → Outcome Runtime
run_exports rt [] = done rt
run_exports rt (call ∷ calls) = elim (run_export rt call) [
  | fault e ↦ fault e
  | done rt' ↦ run_exports rt' calls
]
