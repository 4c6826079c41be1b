-- ===== src/Tests/Codec.antt =====
-- Buffers, integers, JSON text and replies at concrete inputs.
use crabcraft.Prelude.{◌≡◌, refl, none, some, [], ◌∷◌, done}
use crabcraft.Buffer.{grow, grow_fuel}
use crabcraft.Uleb.{uleb_get32, get_loop, load}

get_300 : uleb_get32 (0xac ∷ 0x02 ∷ 9 ∷ []) 3 0 ≡ done (2, some 300)
unfolding uleb_get32 get_loop load
get_300 = refl

get_cut : uleb_get32 (0xac ∷ []) 1 0 ≡ done (1, none)
unfolding uleb_get32 get_loop load
get_cut = refl

get_too_wide : uleb_get32 (0xff ∷ 0xff ∷ 0xff ∷ 0xff ∷ 0x10 ∷ []) 5 0 ≡ done (5, none)
unfolding uleb_get32 get_loop load
get_too_wide = refl

grow_300 : grow grow_fuel 256 300 ≡ done 512
unfolding grow
grow_300 = refl
