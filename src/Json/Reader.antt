-- ===== src/Json/Reader.antt =====
-- A reader of JSON strings, independent of the writer: RFC 8259, with \u escapes for ASCII only.
use crabcraft.Prelude.{
  ℕ, zero, suc, ◌+◌, ◌-◌, ◌*◌, ◌/◌, ◌%◌, ◌≤◌, ◌<◌, ◌≡◌, refl, ◌∙◌, ap, arith, true, false, ◌&&◌,
  ◌||◌, Option, none, some, [], ◌∷◌, ◌++◌, append_assoc, Bytes, All, All-append, codes, ltb, leb,
  ◌==◌, if◌then◌else◌, Bool-cases, ==_iff, inl, inr,
}
use crabcraft.Format.{hex_digit, hex2, hex4}
use crabcraft.Json.Escape.{escape, escape_all, quoted}

-- Where the reader stands: between characters, behind a backslash, or before the hex digits of a \u
-- escape, the last of them or with `more` behind it, and `acc` read.
pub data Mode : Type 0 where
  plain escaped : Mode
  unicode : (more acc : ℕ) → Mode

unfoldable pub hex_value : ℕ → Option ℕ
hex_value c =
    if leb b'0' c && leb c b'9'
    then some (c - b'0')
    else if leb b'a' c && leb c b'f'
    then some (c - b'a' + 10)
    else if leb b'A' c && leb c b'F'
    then some (c - b'A' + 10)
    else none

-- The character that stands behind a backslash.
unfoldable pub reveal : ℕ → Option ℕ
reveal c =
    if c == b'"' || c == b'\\' || c == b'/'
    then some c
    else if c == b'n'
    then some 10
    else if c == b'r'
    then some 13
    else if c == b't'
    then some 9
    else if c == b'b'
    then some 8
    else if c == b'f'
    then some 12
    else none

abbrev pub push : ℕ → Option (Bytes × Bytes) → Option (Bytes × Bytes)
push c none = none
push c (some (s, rest)) = some (c ∷ s, rest)

-- The characters up to the closing quote, and what follows it.
unfoldable pub read_string : Mode → Bytes → Option (Bytes × Bytes)
read_string mode [] = none
read_string plain (c ∷ s) =
    let escape_next = read_string escaped s in
    let keep = push c (read_string plain s) in
    if c == b'"'
    then some ([], s)
    else if c == b'\\'
    then escape_next
    else if ltb c 0x20
    then none
    else keep
read_string escaped (c ∷ s) =
    let code = read_string (unicode 3 0) s in
    let later = read_string plain s in
    if c == b'u' then code else elim (reveal c) [ none ↦ none | some d ↦ push d later ]
read_string (unicode zero acc) (c ∷ s) =
    let later = read_string plain s in
    elim (hex_value c) [
      | none ↦ none
      | some d ↦ if ltb (acc * 16 + d) 0x80 then push (acc * 16 + d) later else none
    ]
read_string (unicode (suc more) acc) (c ∷ s) = elim (hex_value c) [
  | none ↦ none
  | some d ↦ read_string (unicode more (acc * 16 + d)) s
]

pub hex_value-hex_digit : (d : ℕ) → d < 16 → hex_value (hex_digit d) ≡ some d
unfolding hex_value hex_digit
hex_value-hex_digit d h = ground arith

-- A statement about every character and its escape, from the cases of the `switch`.
module _ (P : ℕ → Bytes → Type 0) (quote : P b'"' (codes "\\\""))
    (backslash : P b'\\' (codes "\\\\")) (newline : P b'\n' (codes "\\n"))
    (carriage : P b'\r' (codes "\\r")) (tab : P b'\t' (codes "\\t"))
    (control : (c : ℕ) → c < 0x20 → P c (codes "\\u" ++ hex4 c))
    (other : (c : ℕ) → 0x20 ≤ c → (c == b'"') ≡ false → (c == b'\\') ≡ false → P c (c ∷ [])) where
  escape_cases : (c : ℕ) → P c (escape c)
  unfolding escape
  escape_cases c = elim (Bool-cases (c == b'"')) [
    | inl e ↦ rw (e, (==_iff c b'"').0 e) quote
    | inr e₁ ↦ rw e₁ (elim (Bool-cases (c == b'\\')) [
      | inl e ↦ rw (e, (==_iff c b'\\').0 e) backslash
      | inr e₂ ↦ rw e₂ (elim (Bool-cases (c == b'\n')) [
        | inl e ↦ rw (e, (==_iff c b'\n').0 e) newline
        | inr e₃ ↦ rw e₃ (elim (Bool-cases (c == b'\r')) [
          | inl e ↦ rw (e, (==_iff c b'\r').0 e) carriage
          | inr e₄ ↦ rw e₄ (elim (Bool-cases (c == b'\t')) [
            | inl e ↦ rw (e, (==_iff c b'\t').0 e) tab
            | inr e₅ ↦ rw e₅ (elim (Bool-cases (ltb c 0x20)) [
              | inl e ↦ rw e (control c (ground arith))
              | inr e ↦ rw e (other c (ground arith) e₁ e₂)
            ])
          ])
        ])
      ])
    ])
  ]

read_digit :
    (more acc c d : ℕ) (s : Bytes)
    → hex_value c ≡ some d
    → read_string (unicode (suc more) acc) (c ∷ s) ≡ read_string (unicode more (acc * 16 + d)) s
unfolding read_string
read_digit more acc c d s e = rw (e, read_string)

read_last_digit :
    (acc c d : ℕ) (s : Bytes)
    → hex_value c ≡ some d
    → acc * 16 + d < 0x80
    → read_string (unicode zero acc) (c ∷ s) ≡ push (acc * 16 + d) (read_string plain s)
unfolding read_string
read_last_digit acc c d s e h =
    let test : ltb (acc * 16 + d) 0x80 ≡ true = ground arith in rw (e, read_string, test)

read_code : (s : Bytes) → read_string plain (b'\\' ∷ b'u' ∷ s) ≡ read_string (unicode 3 0) s
unfolding read_string
read_code s = refl

zero_digit : hex_value b'0' ≡ some 0
unfolding hex_value
zero_digit = refl

read_control :
    (c : ℕ) (s : Bytes)
    → c < 0x20
    → read_string plain (codes "\\u" ++ hex4 c ++ s) ≡ push c (read_string plain s)
unfolding hex4 hex2
read_control c s h =
    let high = hex_value-hex_digit (c / 16) (omega arith) in
    let low = hex_value-hex_digit (c % 16) (omega arith) in
    let whole : (c / 16) * 16 + c % 16 ≡ c = omega arith in
    let tail = hex_digit (c / 16) ∷ hex_digit (c % 16) ∷ s in
    read_code (b'0' ∷ b'0' ∷ tail)
    ∙ read_digit 2 0 b'0' 0 (b'0' ∷ tail) zero_digit
    ∙ read_digit 1 0 b'0' 0 tail zero_digit
    ∙ read_digit 0 0 _ (c / 16) (hex_digit (c % 16) ∷ s) high
    ∙ read_last_digit (0 * 16 + c / 16) _ (c % 16) s low (omega arith)
    ∙ ap (λ (k : ℕ). push k (read_string plain s)) (omega arith)

read_other :
    (c : ℕ) (s : Bytes)
    → 0x20 ≤ c
    → (c == b'"') ≡ false
    → (c == b'\\') ≡ false
    → read_string plain (c ∷ s) ≡ push c (read_string plain s)
unfolding read_string
read_other c s h e₁ e₂ = let e₃ : ltb c 0x20 ≡ false = ground arith in rw (e₁, e₂, e₃)

-- The reader takes the escape of a character for that character.
read-escape : (c : ℕ) (s : Bytes) → read_string plain (escape c ++ s) ≡ push c (read_string plain s)
unfolding read_string reveal
read-escape c s =
    escape_cases (λ c xs. read_string plain (xs ++ s) ≡ push c (read_string plain s)) refl refl refl
      refl refl (λ c h. read_control c s h) (λ c h e₁ e₂. read_other c s h e₁ e₂) c

read_quote : (rest : Bytes) → read_string plain (b'"' ∷ rest) ≡ some ([], rest)
unfolding read_string
read_quote rest = refl

read-escape_all :
    (s rest : Bytes) → read_string plain (escape_all s ++ (b'"' ∷ rest)) ≡ some (s, rest)
unfolding escape_all
read-escape_all [] rest = read_quote rest
read-escape_all (c ∷ s) rest =
    rw (append_assoc (escape c) (escape_all s) (b'"' ∷ rest))
      (read-escape c (escape_all s ++ (b'"' ∷ rest)) ∙ ap (push c) (read-escape_all s rest))

-- A JSON string at the start of a text, and what follows it.
unfoldable pub parse_string : Bytes → Option (Bytes × Bytes)
parse_string [] = none
parse_string (c ∷ s) = if c == b'"' then read_string plain s else none

-- A JSON reader takes back from `json_string`'s output the very bytes that it was given, whatever
-- they are, and stops behind the closing quote.
pub parse_string-quoted : (s rest : Bytes) → parse_string (quoted s ++ rest) ≡ some (s, rest)
unfolding parse_string quoted
parse_string-quoted s rest =
    rw (append_assoc (escape_all s) (b'"' ∷ []) rest) (read-escape_all s rest)

abbrev pub IsPrintable : ℕ → Type 0
IsPrintable c = 0x20 ≤ c

hex_digit_printable : (d : ℕ) → 0x20 ≤ hex_digit d
unfolding hex_digit
hex_digit_printable d = ground arith

control-IsPrintable : (c : ℕ) → All IsPrintable (codes "\\u" ++ hex4 c)
unfolding hex4 hex2
control-IsPrintable c = omega (arith, hex_digit_printable (c / 16), hex_digit_printable (c % 16))

escape-IsPrintable : (c : ℕ) → All IsPrintable (escape c)
escape-IsPrintable =
    escape_cases (λ c xs. All IsPrintable xs) (omega arith) (omega arith) (omega arith)
      (omega arith) (omega arith) (λ c h. control-IsPrintable c) (λ c h e₁ e₂. (h, tt))

escape_all-IsPrintable : (s : Bytes) → All IsPrintable (escape_all s)
unfolding escape_all
escape_all-IsPrintable [] = tt
escape_all-IsPrintable (c ∷ s) =
    All-append IsPrintable (escape c) (escape_all s) (escape-IsPrintable c)
      (escape_all-IsPrintable s)

-- No control character is left in the output of `json_string`.
pub quoted-IsPrintable : (s : Bytes) → All IsPrintable (quoted s)
unfolding quoted
quoted-IsPrintable s = (
  omega arith,
  All-append IsPrintable (escape_all s) (b'"' ∷ []) (escape_all-IsPrintable s) (omega arith),
)
