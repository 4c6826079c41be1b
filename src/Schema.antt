-- ===== src/Schema.antt =====
-- guest/sqlite-c/schema_json.h: the bytes of `schema_json`, line by line, as text.
use crabcraft.Prelude.{List, [], ◌∷◌, ◌++◌, Bytes, codes, length, ◌≡◌, refl}

abbrev lines : List Bytes
lines =
    codes "{\n"
    ∷ codes "  \"worlds\": [\n"
    ∷ codes "    {\n"
    ∷ codes "      \"name\": \"sqlite\",\n"
    ∷ codes "      \"imports\": {},\n"
    ∷ codes "      \"exports\": {\n"
    ∷ codes "        \"interface-0\": {\n"
    ∷ codes "          \"interface\": {\n"
    ∷ codes "            \"id\": 0\n"
    ∷ codes "          }\n"
    ∷ codes "        }\n"
    ∷ codes "      },\n"
    ∷ codes "      \"package\": 0\n"
    ∷ codes "    }\n"
    ∷ codes "  ],\n"
    ∷ codes "  \"interfaces\": [\n"
    ∷ codes "    {\n"
    ∷ codes "      \"name\": \"db\",\n"
    ∷ codes "      \"types\": {},\n"
    ∷ codes "      \"functions\": {\n"
    ∷ codes "        \"exec\": {\n"
    ∷ codes "          \"name\": \"exec\",\n"
    ∷ codes "          \"kind\": \"freestanding\",\n"
    ∷ codes "          \"params\": [\n"
    ∷ codes "            {\n"
    ∷ codes "              \"name\": \"sql\",\n"
    ∷ codes "              \"type\": \"string\"\n"
    ∷ codes "            }\n"
    ∷ codes "          ],\n"
    ∷ codes "          \"result\": 0,\n"
    ∷ codes "          \"docs\": {\n"
    ∷ codes "            \"contents\": \"execute SQL against the workload's "
    ∷ codes "database file (persisted on its volume).\\nreturns a JSON str"
    ∷ codes "ing: {\\\"columns\\\":[...],\\\"rows\\\":[[...],...],\\\"changes\\\":n}\""
    ∷ codes "\n"
    ∷ codes "          }\n"
    ∷ codes "        }\n"
    ∷ codes "      },\n"
    ∷ codes "      \"package\": 0\n"
    ∷ codes "    }\n"
    ∷ codes "  ],\n"
    ∷ codes "  \"types\": [\n"
    ∷ codes "    {\n"
    ∷ codes "      \"name\": null,\n"
    ∷ codes "      \"kind\": {\n"
    ∷ codes "        \"result\": {\n"
    ∷ codes "          \"ok\": \"string\",\n"
    ∷ codes "          \"err\": \"string\"\n"
    ∷ codes "        }\n"
    ∷ codes "      },\n"
    ∷ codes "      \"owner\": null\n"
    ∷ codes "    }\n"
    ∷ codes "  ],\n"
    ∷ codes "  \"packages\": [\n"
    ∷ codes "    {\n"
    ∷ codes "      \"name\": \"crab:sqlite@0.1.0\",\n"
    ∷ codes "      \"docs\": {\n"
    ∷ codes "        \"contents\": \"crabcraft SQLite workload, C edition: p"
    ∷ codes "roves the \\\"any language, our ABI\\\"\\ncontract (Rust and Go e"
    ∷ codes "xist; this is the C lane) and disk persistence --\\nthe host "
    ∷ codes "mounts the workload's volume as its WASI cwd, so the databas"
    ∷ codes "e\\nfile `crab.db` survives reboots and travels with the volu"
    ∷ codes "me.\"\n"
    ∷ codes "      },\n"
    ∷ codes "      \"interfaces\": {\n"
    ∷ codes "        \"db\": 0\n"
    ∷ codes "      },\n"
    ∷ codes "      \"worlds\": {\n"
    ∷ codes "        \"sqlite\": 0\n"
    ∷ codes "      }\n"
    ∷ codes "    }\n"
    ∷ codes "  ]\n"
    ∷ codes "}"
    ∷ []

flatten : List Bytes → Bytes
flatten [] = []
flatten (x ∷ xs) = x ++ flatten xs

unfoldable pub schema_json : Bytes
unfolding flatten
schema_json = flatten lines

-- `schema_json_len`
pub length-schema_json : length schema_json ≡ 1455
unfolding schema_json
length-schema_json = refl
