-- ===== src/Cpp/Hello/Parsers.antt =====
-- The handlers of guest/hello-cpp/gen/bindings.cpp against parsers of lists.
use crabcraft.Prelude.{
  ℕ, ◌+◌, ◌/◌, ◌%◌, ◌≡◌, refl, ap, arith, Bool, true, false, Option, none, some, [], ◌∷◌, ◌++◌,
  Bytes, codes, length, ltb, ◌==◌, Bool-cases, inl, inr, done,
}
use crabcraft.Format.{pos, decimal, digits}
use crabcraft.Cpp.Res.{Res, ok, err}
use crabcraft.Cpp.Decoder.{Decoder, Decode, finish, remaining, bool, option_tag}
use crabcraft.Cpp.Decoder.Reads.{
  IsDecoder, left, length-left, Meets, Parser, Reads, Reads-bind, pure-Reads, and_then, returns,
}
use crabcraft.Cpp.Decoder.Strings.{read_string, string-Reads, read_bit, prefix_bit-Reads}
use crabcraft.Cpp.Hello.{GreetRequest, decode_excited, decode_greet_request, param, no_more}

unfoldable pub read_excited : Bool → Parser (Option Bool)
read_excited true = and_then (read_bit (codes "bool")) (λ x. returns (some x))
read_excited false = returns none

unfoldable pub read_request : Parser GreetRequest
read_request = and_then read_string (λ name. and_then (read_bit (codes "option")) (λ present.
    and_then (read_excited present)
      (λ excited. returns (record { name = name; excited = excited }))))

excited-Reads : (present : Bool) → Reads (decode_excited present) (read_excited present)
unfolding read_excited bool
excited-Reads true = Reads-bind (prefix_bit-Reads (codes "bool")) (λ x. pure-Reads (some x))
excited-Reads false = pure-Reads none

pub request-Reads : Reads decode_greet_request read_request
unfolding decode_greet_request read_request option_tag
request-Reads = Reads-bind string-Reads (λ name.
    Reads-bind (prefix_bit-Reads (codes "option")) (λ present.
      Reads-bind (excited-Reads present)
        (λ excited. pure-Reads (record { name = name; excited = excited }))))

-- A parser of parameters, with the prefix of its message.
abbrev pub bad_params : {A : Type 0} → Res (A × Bytes) → Res (A × Bytes)
bad_params (ok r) = ok r
bad_params (err e) = err (codes "bad params: " ++ e)

abbrev pub end_of : Parser (Unit {0})
end_of [] = ok (tt, [])
end_of (c ∷ s) = err (
    codes "bad params: "
    ++ (decimal (pos (length (c ∷ s))) ++ (codes " trailing byte(s) after " ++ codes "params")))

pub param-Reads :
    {A : Type 0} (m : Decode A) (p : Parser A) → Reads m p → Reads (param m) (λ s. bad_params (p s))
param-Reads {A} m p r = record { run = λ d h. go d (p (left d)) (r.run d h) }
  where
    go : (d : Decoder) (o : Res (A × Bytes)) → Meets (m d) o → Meets (param m d) (bad_params o)
    go d (ok (v, t)) (d', ran, h, rest) = (d', rw (param, ran), h, rest)
    go d (err e) (d', ran, h) = (d', rw (param, ran), h)

-- A decimal number has a digit.
decimal_cons : (n : ℕ) → (c : ℕ) × (s : Bytes) × (decimal (pos n) ≡ c ∷ s)
unfolding decimal digits
decimal_cons n = elim (Bool-cases (ltb n 10)) [
  | inl last ↦ (b'0' + n, [], rw last)
  | inr more ↦ rw more (cons (digits 19 (n / 10)))
]
  where
    cons : (front : Bytes) → (c : ℕ) × (s : Bytes) × (front ++ ((b'0' + n % 10) ∷ []) ≡ c ∷ s)
    cons [] = (b'0' + n % 10, [], refl)
    cons (c ∷ front) = (c, front ++ ((b'0' + n % 10) ∷ []), refl)

finish_all : (d : Decoder) → (remaining d == 0) ≡ true → finish d (codes "params") ≡ []
unfolding finish
finish_all d test = rw test

finish_some :
    (d : Decoder)
    → (remaining d == 0) ≡ false
    → finish d (codes "params")
      ≡ decimal (pos (remaining d)) ++ (codes " trailing byte(s) after " ++ codes "params")
unfolding finish
finish_some d test = rw test

no_more_left :
    (d : Decoder) {c : ℕ} {s : Bytes}
    → finish d (codes "params") ≡ c ∷ s
    → no_more d ≡ done (err (codes "bad params: " ++ (c ∷ s)), d)
no_more_left d e = rw (no_more, e)

pub no_more-Reads : Reads no_more end_of
no_more-Reads = record { run = λ d h. go d (left d) h refl }
  where
    go : (d : Decoder) (s : Bytes) → IsDecoder d → left d ≡ s → Meets (no_more d) (end_of s)
    go d [] h e =
        let size = ap (λ (t : Bytes). length t) e in
        let dropped = length-left d in
        let none_left : remaining d ≡ 0 = omega (arith, h.held) in
        let test : (remaining d == 0) ≡ true = ground arith in
        (d, rw (no_more, finish_all d test), h, e)
    go d (c ∷ s) h e =
        let size = ap (λ (t : Bytes). length t) e in
        let dropped = length-left d in
        let some_left : remaining d ≡ length (c ∷ s) = omega (arith, h.held) in
        let test : (remaining d == 0) ≡ false = ground arith in
        let (x, more, shape) = decimal_cons (length (c ∷ s)) in
        (d, rw shape (no_more_left d (rw (finish_some d test, some_left, shape))), h)
