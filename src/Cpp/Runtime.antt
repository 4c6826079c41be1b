-- ===== src/Cpp/Runtime.antt =====
-- The guest ABI of tools/crabgen/templates/cpp/crab.cpp: the registry of handlers, the pinned
-- buffers, the replies and the exports. The static variables behind `Handlers()`, `Allocs()` and
-- `Reply()` are the record `Runtime`.
pub mod Maps
pub mod Replies
pub mod Calls
use Prim.Native.Nat.{bit_and}
use crabcraft.Prelude.{
  ℕ, ◌+◌, ◌/◌, ◌^◌, Bool, true, false, ◌||◌, Option, none, some, List, [], ◌∷◌, ◌++◌, Bytes, codes,
  length, take, ltb, leb, ◌==◌, if◌then◌else◌, Outcome, done, fault, overread, ◌>>=◌,
}
use crabcraft.Cpp.Res.{Res, ok, err}
use crabcraft.Cpp.Encode.{push_back, zeros, encode_string}
use crabcraft.Cpp.Decoder.{Decoder, decoder, Decode}

-- A handler decodes its parameters and gives the encoded result.
abbrev pub Handler : Type 0
Handler = Decode Bytes

-- `==` on `std::string`.
unfoldable pub same_text : Bytes → Bytes → Bool
same_text [] [] = true
same_text [] (d ∷ t) = false
same_text (c ∷ s) [] = false
same_text (c ∷ s) (d ∷ t) = let rest = same_text s t in if c == d then rest else false

abbrev pub HandlerMap : Type 0
HandlerMap = List (Bytes × Handler)

-- `handlers.find(name)`, `none` for `end()`.
unfoldable pub find_handler : HandlerMap → Bytes → Option Handler
find_handler [] name = none
find_handler ((n, h) ∷ m) name =
    let rest = find_handler m name in if same_text n name then some h else rest

-- `Handlers()[name] = h;`
unfoldable pub register_handler : HandlerMap → Bytes → Handler → HandlerMap
register_handler [] name h = (name, h) ∷ []
register_handler ((n, g) ∷ m) name h =
    let rest = register_handler m name h in
    if same_text n name then (name, h) ∷ m else (n, g) ∷ rest

-- What the generated bindings of a guest give the runtime: the calls of `RegisterHandler` at static
-- initialisation, and the schema that `SchemaJson` gives.
pub record GuestModule : Type 0 where
  pub register : HandlerMap → HandlerMap
  pub schema_json : Bytes

-- The pinned buffers by their addresses.
abbrev pub Allocs : Type 0
Allocs = List (ℕ × Bytes)

unfoldable pub find_alloc : {A : Type 0} → List (ℕ × A) → ℕ → Option A
find_alloc [] p = none
find_alloc ((q, b) ∷ m) p = let rest = find_alloc m p in if q == p then some b else rest

-- `emplace` keeps an entry that is there.
unfoldable pub emplace : {A : Type 0} → List (ℕ × A) → ℕ → A → List (ℕ × A)
emplace [] p b = (p, b) ∷ []
emplace ((q, a) ∷ m) p b = let rest = emplace m p b in if q == p then (q, a) ∷ m else (q, a) ∷ rest

unfoldable pub erase : {A : Type 0} → List (ℕ × A) → ℕ → List (ℕ × A)
erase [] p = []
erase ((q, b) ∷ m) p = let rest = erase m p in if q == p then rest else (q, b) ∷ rest

pub record Runtime : Type 0 where
  pub handlers : HandlerMap
  pub allocs : Allocs
  pub reply : Bytes

-- When the static objects are constructed.
abbrev pub start : GuestModule → Runtime
start guest = record { handlers = guest.register []; allocs = []; reply = [] }

-- The vector that `Reply()` holds then.
unfoldable pub lenbuf : Bytes → Bytes
lenbuf payload =
    let n = length payload in
    push_back
      (push_back (push_back (push_back [] (bit_and n 0xff)) (bit_and (n / 2 ^ 8) 0xff))
        (bit_and (n / 2 ^ 16) 0xff))
      (bit_and (n / 2 ^ 24) 0xff)
    ++ payload

unfoldable pub reply_ok : Runtime → Bytes → Runtime
reply_ok rt result = record rt { reply = lenbuf (push_back [] 0 ++ result) }

unfoldable pub reply_err : Runtime → Bytes → Outcome Runtime
reply_err rt msg = do
  payload ← encode_string (push_back [] 1) msg
  done (record rt { reply = lenbuf payload })

-- Whether an `int32_t` is negative.
abbrev is_negative : ℕ → Bool
is_negative n = leb (2 ^ 31) n

-- `if (len < 1) len = 1;`
abbrev pub minimum_one : ℕ → ℕ
minimum_one len = if is_negative len || ltb len 1 then 1 else len

-- The new vector is pinned at `p`, the address that the allocator gave it.
unfoldable pub crab_alloc : Runtime → ℕ → ℕ → Runtime
crab_alloc rt p len = record rt { allocs = emplace rt.allocs p (zeros (minimum_one len)) }

unfoldable pub crab_schema : Runtime → Bytes → Runtime
crab_schema rt schema_json = record rt { reply = lenbuf schema_json }

-- `len > 0 ? (size_t)len : 0`
abbrev pub size_of : ℕ → ℕ
size_of len = if is_negative len then 0 else len

-- `std::string(p, n)`, for the memory `m` at `p`.
unfoldable pub copy : Bytes → ℕ → Outcome Bytes
copy m n = if leb n (length m) then done (take n m) else fault overread

unfoldable pub reply_to : Runtime → Bytes → Res Bytes → Outcome Runtime
reply_to rt name (ok val) = done (reply_ok rt val)
reply_to rt name (err e) = reply_err rt (name ++ (codes ": " ++ e))

-- From the search for the handler on.
unfoldable pub dispatch : Runtime → Bytes → Option Handler → Decoder → Outcome Runtime
dispatch rt name none d = reply_err rt (codes "unknown function: " ++ name)
dispatch rt name (some handler) d = do (r, d') ← handler d; reply_to rt name r

-- What `~Unpin` does.
unfoldable pub unpin : Runtime → ℕ → ℕ → Runtime
unpin rt a b = record rt { allocs = erase (erase rt.allocs a) b }

-- `name_mem` and `arg_mem` are the memory at the two pointers.
unfoldable pub crab_invoke : Runtime → ℕ → Bytes → ℕ → ℕ → Bytes → ℕ → Outcome Runtime
crab_invoke rt name_ptr name_mem name_len arg_ptr arg_mem arg_len = do
  name ← copy name_mem (size_of name_len)
  rt' ← dispatch rt name (find_handler rt.handlers name) (decoder arg_mem (size_of arg_len))
  done (unpin rt' name_ptr arg_ptr)
