-- ===== src/Tests/Hello.antt =====
-- Whole calls of the C++ guest.
use crabcraft.Prelude.{
  ◌+◌, ◌≡◌, refl, true, false, [], ◌∷◌, ◌++◌, Bytes, codes, length, done, Outcome, ◌>>=◌,
}
use crabcraft.Uleb.{load}
use crabcraft.Format.{negsuc, decimal, digits}
use crabcraft.Cpp.Encode.{
  encode_uleb, encode_uleb_rounds, encode_sleb, encode_sleb_rounds, encode_string, encode_u32,
  encode_flags, set_flags, or_at,
}
use crabcraft.Cpp.Decoder.{
  finish, uleb, uleb_rounds, byte, bytes, string, option_tag, bool, prefix_bit, u32,
}
use crabcraft.Cpp.Utf8.{utf8_valid, utf8_rounds, lead, continuation, multibyte, is_bad}
use crabcraft.Cpp.Runtime.{
  Runtime, find_handler, same_text, register_handler, lenbuf, reply_ok, reply_err, copy, reply_to,
  dispatch, unpin, erase, crab_invoke,
}
use crabcraft.Cpp.Hello.{
  greet, handle_greet, decode_greet_request, handle_add, add, registration, greet_name, add_name,
}

abbrev start : Runtime
start = record { handlers = registration []; allocs = []; reply = [] }

reply_of : Outcome Runtime → Outcome Bytes
reply_of o = do rt ← o; done rt.reply

greet_run :
    reply_of (crab_invoke start 16 greet_name 34 64 (3 ∷ (codes "Ada" ++ (1 ∷ 1 ∷ []))) 6)
    ≡ done (24 ∷ 0 ∷ 0 ∷ 0 ∷ 0 ∷ 22 ∷ codes "Hello from C++, Ada!!!")
unfolding reply_of crab_invoke copy dispatch find_handler registration register_handler same_text
    handle_greet decode_greet_request string uleb uleb_rounds byte load bytes utf8_valid utf8_rounds
    option_tag prefix_bit bool finish greet encode_string encode_uleb encode_uleb_rounds reply_to
    reply_ok lenbuf unpin erase
greet_run = refl

add_run :
    reply_of (crab_invoke start 16 add_name 32 64 (0xff ∷ 0xff ∷ 0xff ∷ 0xff ∷ 0x0f ∷ 2 ∷ []) 6)
    ≡ done (2 ∷ 0 ∷ 0 ∷ 0 ∷ 0 ∷ 1 ∷ [])
unfolding reply_of crab_invoke copy dispatch find_handler registration register_handler same_text
    handle_add u32 add uleb uleb_rounds byte load finish encode_u32 encode_uleb encode_uleb_rounds
    reply_to reply_ok lenbuf unpin erase
add_run = refl

trailing_run :
    reply_of (crab_invoke start 16 add_name 32 64 (1 ∷ 2 ∷ 3 ∷ []) 3)
    ≡ done (
        (2 + length (add_name ++ codes ": bad params: 1 trailing byte(s) after params"))
        ∷ 0
        ∷ 0
        ∷ 0
        ∷ 1
        ∷ length (add_name ++ codes ": bad params: 1 trailing byte(s) after params")
        ∷ (add_name ++ codes ": bad params: 1 trailing byte(s) after params"))
unfolding reply_of crab_invoke copy dispatch find_handler registration register_handler same_text
    handle_add u32 add uleb uleb_rounds byte load finish decimal digits encode_string encode_uleb
    encode_uleb_rounds reply_to reply_err lenbuf unpin erase
trailing_run = refl

sleb_run : encode_sleb [] (negsuc 99999) ≡ done (0xe0 ∷ 0xf2 ∷ 0x79 ∷ [])
unfolding encode_sleb encode_sleb_rounds
sleb_run = refl

flags_run :
    encode_flags (9 ∷ []) (true ∷ false ∷ true ∷ false ∷ false ∷ false ∷ false ∷ false ∷ true ∷ [])
    ≡ 9 ∷ 5 ∷ 1 ∷ []
unfolding encode_flags set_flags or_at
flags_run = refl

euro : utf8_valid (0xe2 ∷ 0x82 ∷ 0xac ∷ []) 3 ≡ done true
unfolding utf8_valid utf8_rounds lead load multibyte continuation is_bad
euro = refl

surrogate : utf8_valid (0xed ∷ 0xa0 ∷ 0x80 ∷ []) 3 ≡ done false
unfolding utf8_valid utf8_rounds lead load multibyte continuation is_bad
surrogate = refl
