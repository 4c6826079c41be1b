-- ===== src/Cpp/Hello/Schema.antt =====
-- guest/hello-cpp/gen/schema_json.h, which `SchemaJson` of gen/bindings.cpp serves.
use crabcraft.Prelude.{◌≡◌, refl, List, [], ◌∷◌, ◌++◌, Bytes, codes, length}

abbrev parts : List Bytes
parts =
    codes "{\"worlds\":[{\"name\":\"hello-cpp\",\"imports\":{},\"exports\":{\"inte"
    ∷ codes "rface-0\":{\"interface\":{\"id\":0}}},\"package\":0}],\"interfaces\":"
    ∷ codes "[{\"name\":\"greeter\",\"types\":{\"greet-request\":1},\"functions\":{"
    ∷ codes "\"greet\":{\"name\":\"greet\",\"kind\":\"freestanding\",\"params\":[{\"na"
    ∷ codes "me\":\"req\",\"type\":1}],\"result\":\"string\"},\"add\":{\"name\":\"add\","
    ∷ codes "\"kind\":\"freestanding\",\"params\":[{\"name\":\"a\",\"type\":\"u32\"},{\""
    ∷ codes "name\":\"b\",\"type\":\"u32\"}],\"result\":\"u32\"}},\"package\":0}],\"typ"
    ∷ codes "es\":[{\"name\":null,\"kind\":{\"option\":\"bool\"},\"owner\":null},{\"n"
    ∷ codes "ame\":\"greet-request\",\"kind\":{\"record\":{\"fields\":[{\"name\":\"na"
    ∷ codes "me\",\"type\":\"string\"},{\"name\":\"excited\",\"type\":0,\"docs\":{\"con"
    ∷ codes "tents\":\"optional flourish; older clients simply omit it (opt"
    ∷ codes "ion = back-compat)\"}}]}},\"owner\":{\"interface\":0}}],\"packages"
    ∷ codes "\":[{\"name\":\"crab:hello-cpp@0.1.0\",\"docs\":{\"contents\":\"hello-"
    ∷ codes "cpp "
    ∷ (0xe2 ∷ 0x80 ∷ 0x94 ∷ [])
    ∷ codes " crabcraft guest interface. This file is the source of truth"
    ∷ codes ":\\nedit it, then run `crabgen regen guest/hello-cpp` to refr"
    ∷ codes "esh gen/.\\n\\nVersioned package: backwards-compatible evoluti"
    ∷ codes "on = add functions freely;\\nnew inputs as option<T>; breakin"
    ∷ codes "g changes bump the version and the daemon\\nserves both side "
    ∷ codes "by side.\"},\"interfaces\":{\"greeter\":0},\"worlds\":{\"hello-cpp\":"
    ∷ codes "0}}]}"
    ∷ []

abbrev joined : List Bytes → Bytes
joined [] = []
joined (s ∷ ss) = s ++ joined ss

unfoldable pub schema_json : Bytes
schema_json = joined parts

pub length-schema_json : length schema_json ≡ 1152
unfolding schema_json
length-schema_json = refl
