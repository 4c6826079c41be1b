-- ===== src/Guest/Arguments.antt =====
-- The arguments of `crab_invoke`: which are accepted, and what the others are refused with.
use crabcraft.Prelude.{
  ℕ, ◌+◌, ◌-◌, ◌^◌, ◌≤◌, ◌<◌, ◌≡◌, ◌↔◌, refl, ap, arith, Bool, true, false, Option, none, some, [],
  Bytes, IsByte, All, length, drop, take_all, length-drop, ltb, leb, ◌==◌, if◌then◌else◌, done,
}
use crabcraft.Prelude.{done-injective, sym, ◌∙◌}
use mathlib.Core.Path.{subst}
use crabcraft.Buffer.{size_mod}
use crabcraft.Uleb.Decode.{read_groups, Agrees, uleb_get32-read_groups}
use crabcraft.Uleb.RoundTrip.{read_groups_bounds}
use crabcraft.Reply.Answer.{read_wire_string}
use crabcraft.Guest.{
  Params, refused, sql, bad_length, bad_end, bad_trailing, check_length, parse_params,
}

-- The verdict on a length `n` behind which stand the bytes `rest`, `pos` bytes after the start. A
-- length so near to `2 ^ 32` that the sum wraps around is reported as trailing bytes.
unfoldable pub judge : ℕ → ℕ → Bytes → Params
judge pos n rest =
    if n == length rest
    then sql rest
    else if ltb n (length rest)
    then refused bad_trailing
    else if leb size_mod (pos + n)
    then refused bad_trailing
    else refused bad_end

-- What `crab_invoke` is to make of its arguments.
unfoldable pub expected : Bytes → Params
expected arg = elim (read_groups 5 arg) [
  | none ↦ refused bad_length
  | some (n, rest) ↦ judge (length arg - length rest) n rest
]

check_judge :
    (arg rest : Bytes) (pos n : ℕ)
    → length arg < 2 ^ 31
    → n < 2 ^ 32
    → pos ≤ 5
    → pos ≤ length arg
    → drop pos arg ≡ rest
    → check_length arg (length arg) (pos, some n) ≡ judge pos n rest
unfolding check_length judge
check_judge arg rest pos n hl hn five inside behind =
    let left = ap (λ (t : Bytes). length t) behind in
    let dropped = length-drop pos arg in rw behind (ground (arith, take_all n rest))

check_expected :
    (arg : Bytes) (got : ℕ × Option ℕ) (o : Option (ℕ × Bytes))
    → All IsByte arg
    → length arg < 2 ^ 31
    → read_groups 5 arg ≡ o
    → Agrees arg got o
    → check_length arg (length arg) got ≡ elim o [
      | none ↦ refused bad_length
      | some (n, rest) ↦ judge (length arg - length rest) n rest
    ]
check_expected arg (pos, value) none bytes hl e agrees = rw agrees (unfold check_length in refl)
check_expected arg (pos, value) (some (n, rest)) bytes hl e (same, inside, behind) =
    let (small, shorter, few) = read_groups_bounds 5 arg e bytes in
    let left = ap (λ (t : Bytes). length t) behind in
    let dropped = length-drop pos arg in
    let at : length arg - length rest ≡ pos = omega arith in
    rw (at, same) (check_judge arg rest pos n hl (omega arith) (omega arith) inside behind)

-- `crab_invoke` reads any argument bytes without a fault, and makes of them what is expected: the
-- statement's text, or one of three refusals.
pub parse_params-expected :
    (arg : Bytes)
    → All IsByte arg
    → length arg < 2 ^ 31
    → parse_params arg (length arg) ≡ done (expected arg)
unfolding parse_params expected
parse_params-expected arg bytes hl =
    let (got, ran, agrees) = uleb_get32-read_groups [] arg bytes (omega arith) in
    rw ran (ap done (check_expected arg got (read_groups 5 arg) bytes hl refl agrees))

-- The arguments are accepted just when they are a length and as many bytes.
pub expected_iff :
    (arg text : Bytes) → (expected arg ≡ sql text) ↔ (read_wire_string arg ≡ some text)
unfolding expected read_wire_string judge
expected_iff arg text = go (read_groups 5 arg)
  where
    go :
        (o : Option (ℕ × Bytes))
        → (elim o [
          | none ↦ refused bad_length
          | some (n, rest) ↦ judge (length arg - length rest) n rest
        ]
            ≡ sql text)
          ↔ (elim o [ none ↦ none | some (n, rest) ↦ if n == length rest then some rest else none ]
              ≡ some text)
    go none = (λ e. cc, λ e. cc)
    go (some (n, rest)) = ground arith

-- A refusal has at most 63 characters.
abbrev IsShort : Params → Type 0
IsShort (refused msg) = length msg ≤ 63
IsShort (sql text) = Unit {0}

IsShort-if : (t : Bool) (x y : Params) → IsShort x → IsShort y → IsShort (if t then x else y)
IsShort-if true x y hx hy = hx
IsShort-if false x y hx hy = hy

bad_trailing_short : length bad_trailing ≤ 63
unfolding bad_trailing
bad_trailing_short = omega arith

judge-IsShort : (pos n : ℕ) (rest : Bytes) → IsShort (judge pos n rest)
unfolding judge
judge-IsShort pos n rest = IsShort-if (n == length rest) (sql rest) _ tt (
    IsShort-if (ltb n (length rest)) (refused bad_trailing) _ bad_trailing_short (
      IsShort-if (leb size_mod (pos + n)) (refused bad_trailing) (refused bad_end)
        bad_trailing_short (unfold bad_end in omega arith)))

expected-IsShort : (arg : Bytes) → IsShort (expected arg)
unfolding expected
expected-IsShort arg = go (read_groups 5 arg)
  where
    go :
        (o : Option (ℕ × Bytes))
        → IsShort (elim o [
          | none ↦ refused bad_length
          | some (n, rest) ↦ judge (length arg - length rest) n rest
        ])
    go none = unfold bad_length in omega arith
    go (some (n, rest)) = judge-IsShort (length arg - length rest) n rest

pub short_refusal : (arg msg : Bytes) → expected arg ≡ refused msg → length msg ≤ 63
short_refusal arg msg e = subst IsShort e (expected-IsShort arg)

-- For argument bytes shorter than 2 ^ 31: `crab_invoke` goes on to run `text` just when they are the length
-- of `text`, below 2 ^ 32 in LEB128, and just the bytes of `text` behind it. Whether these are UTF-8 plays
-- no part.
pub parse_params_iff :
    (arg text : Bytes)
    → All IsByte arg
    → length arg < 2 ^ 31
    → (parse_params arg (length arg) ≡ done (sql text)) ↔ (read_wire_string arg ≡ some text)
parse_params_iff arg text bytes hl =
    let same = parse_params-expected arg bytes hl in
    (
      λ e. (expected_iff arg text).0 (done-injective (sym same ∙ e)),
      λ e. same ∙ ap done ((expected_iff arg text).1 e),
    )
