-- ===== src/Cpp/Hello/Handlers.antt =====
-- What the two functions of guest/hello-cpp answer to any argument bytes.
use crabcraft.Prelude.{
  ℕ, zero, suc, ◌+◌, ◌-◌, ◌/◌, ◌%◌, ◌^◌, ◌≤◌, ◌<◌, ◌≡◌, ap, arith, Bool, true, false, Option, none,
  some, [], ◌∷◌, ◌++◌, Bytes, codes, length, length-append, length-take, take, leb, ◌==◌,
  if◌then◌else◌, Bool-cases, inl, inr,
}
use crabcraft.Uleb.Encode.{encoding}
use crabcraft.Reply.Frame.{wire_string}
use crabcraft.Cpp.Res.{Res, ok, err}
use crabcraft.Cpp.Encode.{encode_string, encode_u32}
use crabcraft.Cpp.Encode.Uleb.{encode_uleb_lem}
use crabcraft.Cpp.Decoder.{u32}
use crabcraft.Cpp.Decoder.Reads.{
  Parser, Reads, Reads-bind, Reads-bind_read, lift-Reads, and_then, returns, rejects, follow, split,
}
use crabcraft.Cpp.Decoder.Uleb.{read_uleb, behind}
use crabcraft.Cpp.Decoder.Unsigned.{w32, decode_unsigned-Reads}
use crabcraft.Cpp.Decoder.Strings.{read_string, read_bit, encode_string_lem}
use crabcraft.Cpp.Utf8.Whole.{is_utf8}
use crabcraft.Cpp.Hello.{GreetRequest, is_excited, greet, add, handle_greet, handle_add}
use crabcraft.Cpp.Hello.Parsers.{
  read_excited, read_request, request-Reads, bad_params, end_of, param-Reads, no_more-Reads,
}

-- A parser leaves no more than it was given.
abbrev NoLonger : {A : Type 0} → Bytes → Res (A × Bytes) → Type 0
NoLonger s (ok (v, t)) = length t ≤ length s
NoLonger s (err e) = Unit {0}

NoLonger-behind :
    (s : Bytes) (c low m : ℕ) (o : Res (ℕ × Bytes))
    → NoLonger s o
    → NoLonger (c ∷ s) (behind low m o)
NoLonger-behind s c low m (ok (v, t)) h = omega arith
NoLonger-behind s c low m (err e) h = tt

NoLonger-if :
    {A : Type 0} (s : Bytes) (t : Bool) (x y : Res (A × Bytes))
    → NoLonger s x
    → NoLonger s y
    → NoLonger s (if t then x else y)
NoLonger-if s true x y hx hy = hx
NoLonger-if s false x y hx hy = hy

read_uleb-NoLonger : (rounds room : ℕ) (s : Bytes) → NoLonger s (read_uleb rounds room s)
unfolding read_uleb
read_uleb-NoLonger zero room s = tt
read_uleb-NoLonger (suc rounds) room [] = tt
read_uleb-NoLonger (suc rounds) room (c ∷ s) =
    let more = behind (c % 128) 128 (read_uleb rounds (room - 7) s) in
    NoLonger-if (c ∷ s) (leb (2 ^ room) (c % 128)) (err (codes "uleb overflow"))
      (if c / 128 % 2 == 0 then ok (c % 128, s) else more) tt
      (NoLonger-if (c ∷ s) (c / 128 % 2 == 0) (ok (c % 128, s)) more (omega arith) (
        NoLonger-behind s c (c % 128) 128 (read_uleb rounds (room - 7) s)
          (read_uleb-NoLonger rounds (room - 7) s)))

-- The text that was read is no longer than the bytes it was read from.
abbrev Within : Bytes → Res (Bytes × Bytes) → Type 0
Within s (ok (b, t)) = length b ≤ length s
Within s (err e) = Unit {0}

split-Within :
    (s s' : Bytes) (n : ℕ)
    → length s' ≤ length s
    → Within s (
        and_then
          (split n)
          (λ b. if is_utf8 b then returns b else rejects (codes "invalid utf-8 in string"))
          s')
unfolding split
split-Within s s' n h = elim (Bool-cases (leb n (length s'))) [
  | inl fits ↦ rw fits (elim (Bool-cases (is_utf8 (take n s'))) [
    | inl good ↦ rw good (omega (arith, length-take n s'))
    | inr bad ↦ rw bad tt
  ])
  | inr over ↦ rw over tt
]

read_string-Within : (s : Bytes) → Within s (read_string s)
unfolding read_string
read_string-Within s = go (read_uleb 5 32 s) (read_uleb-NoLonger 5 32 s)
  where
    go :
        (o : Res (ℕ × Bytes))
        → NoLonger s o
        → Within s (
            follow o (λ n.
              and_then
                (split n)
                (λ b. if is_utf8 b then returns b else rejects (codes "invalid utf-8 in string"))))
    go (ok (n, s')) h = split-Within s s' n h
    go (err e) h = tt

-- What comes behind the name of a request.
abbrev pub behind_name : Bytes → Parser GreetRequest
behind_name name = and_then (read_bit (codes "option")) (λ present.
    and_then (read_excited present)
      (λ excited. returns (record { name = name; excited = excited })))

behind_name_keeps :
    (name s : Bytes) {req : GreetRequest} {t : Bytes}
    → bad_params (behind_name name s) ≡ ok (req, t)
    → name ≡ req.name
behind_name_keeps name s {req} {t} e = present (read_bit (codes "option") s) e
  where
    excited :
        (o : Res (Option Bool × Bytes))
        → bad_params (follow o (λ x. returns (record { name = name; excited = x }))) ≡ ok (req, t)
        → name ≡ req.name
    excited (ok (x, s')) q =
        let same : ◌≡◌ {A = GreetRequest} (record { name = name; excited = x }) req = cc in
        ap (λ (r : GreetRequest). r.name) same
    excited (err m) q = cc

    present :
        (o : Res (Bool × Bytes))
        → bad_params (
            follow o
              (λ p. and_then (read_excited p) (λ x. returns (record { name = name; excited = x }))))
          ≡ ok (req, t)
        → name ≡ req.name
    present (ok (p, s')) q = excited (read_excited p s') q
    present (err m) q = cc

short_name :
    (s : Bytes) {req : GreetRequest} {t : Bytes}
    → bad_params (read_request s) ≡ ok (req, t)
    → length req.name ≤ length s
unfolding read_request
short_name s {req} {t} e = go (read_string s) (read_string-Within s) e
  where
    go :
        (o : Res (Bytes × Bytes))
        → Within s o
        → bad_params (follow o behind_name) ≡ ok (req, t)
        → length req.name ≤ length s
    go (ok (name, s')) h q = rw (behind_name_keeps name s' q) at h
    go (err m) h q = cc

-- The text that `greet` returns.
abbrev pub greeting : GreetRequest → Bytes
greeting req =
    codes "Hello from C++, "
    ++ (req.name ++ (if is_excited req.excited then codes "!!!" else codes "!"))

-- What the handler of `greet` answers to its argument bytes.
abbrev pub greet_answer : Parser Bytes
greet_answer =
    and_then (λ s. bad_params (read_request s))
      (λ req. and_then end_of (λ all_read. returns (wire_string (greeting req))))

pub length-greeting : (req : GreetRequest) → length (greeting req) ≤ length req.name + 19
length-greeting req = go req.excited
  where
    go :
        (x : Option Bool)
        → length (
            codes "Hello from C++, "
            ++ (req.name ++ (if is_excited x then codes "!!!" else codes "!")))
          ≤ length req.name + 19
    go none = omega (arith, length-append req.name (codes "!"))
    go (some true) = omega (arith, length-append req.name (codes "!!!"))
    go (some false) = omega (arith, length-append req.name (codes "!"))

pub handle_greet-Reads : Reads handle_greet greet_answer
unfolding handle_greet greet
handle_greet-Reads =
    Reads-bind_read (param-Reads _ read_request request-Reads) (λ req s t bytes short read.
      Reads-bind no_more-Reads (λ all_read.
        let fits : length (greeting req) < 2 ^ 32 =
          omega (arith, short_name s read, length-greeting req) in
        lift-Reads (encode_string [] (greeting req)) (wire_string (greeting req))
          (encode_string_lem [] (greeting req) fits)))

-- What the handler of `add` answers to its argument bytes.
abbrev pub add_answer : Parser Bytes
add_answer =
    and_then (λ s. bad_params (read_uleb 5 32 s))
      (λ a.
        and_then (λ s. bad_params (read_uleb 5 32 s))
          (λ b. and_then end_of (λ all_read. returns (encoding ((a + b) % 2 ^ 32)))))

pub handle_add-Reads : Reads handle_add add_answer
unfolding handle_add add
handle_add-Reads =
    let number = param-Reads u32 (read_uleb 5 32) (decode_unsigned-Reads w32) in
    Reads-bind number (λ a. Reads-bind number (λ b. Reads-bind no_more-Reads (λ all_read.
      lift-Reads (encode_u32 [] ((a + b) % 2 ^ 32)) (encoding ((a + b) % 2 ^ 32))
        (unfold encode_u32 in encode_uleb_lem [] ((a + b) % 2 ^ 32) (omega arith)))))
