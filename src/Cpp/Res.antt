-- ===== src/Cpp/Res.antt =====
-- `Res<T>` of tools/crabgen/templates/cpp/crab.hpp: a value, or an error message that is not empty.
use crabcraft.Prelude.{[], ◌∷◌, Bytes, Bool, true, false}

-- What `ok()`, `val` and `err` show of a `Res<T>`: the value counts where `err` is empty, and only
-- there.
pub data Res {ℓ} (A : Type ℓ) : Type ℓ where
  ok : A → Res A
  err : Bytes → Res A

-- `Res<T>{val, err}`
abbrev pub res {ℓ} : {A : Type ℓ} → A → Bytes → Res A
res val [] = ok val
res val (c ∷ msg) = err (c ∷ msg)

-- `Res<T>::fail(e)`: the value is `T{}`, here `init`.
abbrev pub fail {ℓ} : {A : Type ℓ} → A → Bytes → Res A
fail init e = res init e

unfoldable pub is_ok {ℓ} : {A : Type ℓ} → Res A → Bool
is_ok (ok v) = true
is_ok (err e) = false
