-- ===== src/Prelude/Json.antt =====
-- JSON documents, as the platform stores them in its tables.
use Prim.Native.Nat.{ℕ, zero, suc}
use Prim.Native.String.{String}
use mathlib.Core.Bool.{Bool, true, false}
use mathlib.Core.Option.{Option, none, some}
use text.Mathlib.Text.{◌==◌ as str_eq}
use text.Mathlib.TextEquality.{eq_iff as str_eq_iff}
use mathlib.Core.Path.{◌≡◌, refl}
use native.Mathlib.Omega.{arith}
use market_quorum.Prelude.Tests.{if◌then◌else◌}

mutual
  pub data Json : Type 0 where
    null : Json
    bool : Bool → Json
    num : ℕ → Json
    str : String → Json
    arr : Items → Json
    obj : Fields → Json

  pub data Items : Type 0 where
    nil : Items
    cons : Json → Items → Items

  pub data Fields : Type 0 where
    end : Fields
    field : String → Json → Fields → Fields

-- `payload.get(key)`.
unfoldable pub get : String → Fields → Option Json
get key end = none
get key (field k v rest) = if str_eq k key then some v else get key rest

-- `{**payload, key: value}`: an existing key keeps its place.
unfoldable pub update : String → Json → Fields → Fields
update key value end = field key value end
update key value (field k v rest) =
    if str_eq k key then field key value rest else field k v (update key value rest)

-- `{**base, **other}`.
unfoldable pub merge : Fields → Fields → Fields
unfolding update
merge base end = base
merge base (field k v rest) = merge (update k v base) rest

-- `bool(value)` of a value that may be missing.
unfoldable pub truthy : Option Json → Bool
truthy none = false
truthy (some null) = false
truthy (some (bool b)) = b
truthy (some (num zero)) = false
truthy (some (num (suc n))) = true
truthy (some (str String.[])) = false
truthy (some (str (String.◌∷◌ c s))) = true
truthy (some (arr nil)) = false
truthy (some (arr (cons x xs))) = true
truthy (some (obj end)) = false
truthy (some (obj (field k v rest))) = true

-- `value or {}` of a value that is a dictionary or missing.
unfoldable pub fields_of : Option Json → Fields
fields_of (some (obj fs)) = fs
fields_of _ = end

-- An update is what is read afterwards.
pub get-update :
    (key k : String) (v : Json) (fs : Fields)
    → get k (update key v fs) ≡ (if str_eq key k then some v else get k fs)
unfolding get update
get-update key k v end = refl
get-update key k v (field j w fs) =
    ground (arith, str_eq_iff j key, str_eq_iff j k, str_eq_iff key k, get-update key k v fs)
