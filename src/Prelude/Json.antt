-- ===== src/Prelude/Json.antt =====
-- JSON values as `interface{}` holds them after decoding, and Go's `map[string]any`.
pub mod Struct
pub mod Columns
pub mod Laws
pub mod Floats
use Prim.Native.String.{String}
use mathlib.Core.Path.{◌≡◌, refl}
use mathlib.Core.Bool.{Bool}
use mathlib.Core.Option.{Option, none, some}
use mathlib.Core.List.{List, [], ◌∷◌}
use native.Mathlib.Omega.{arith}
use text.Mathlib.Text.{◌==◌}
use text.Mathlib.TextEquality.{eq_iff}
use matrix_groupme_bridge.Prelude.Tests.{if◌then◌else◌}

-- A map as a list of entries in no significant order; the first entry of a key counts.
abbrev pub Dict {ℓ} : Type ℓ → Type ℓ
Dict V = List (String × V)

module _ {ℓ} {V : Type ℓ} where
  unfoldable pub lookup : String → Dict V → Option V
  lookup key [] = none
  lookup key ((name, value) ∷ entries) =
      let later = lookup key entries in if name == key then some value else later

  unfoldable pub insert : String → V → Dict V → Dict V
  insert key value [] = (key, value) ∷ []
  insert key value ((name, old) ∷ entries) =
      let changed = insert key value entries in
      if name == key then (key, value) ∷ entries else (name, old) ∷ changed

  pub lookup-insert :
      (key other : String) (value : V) (entries : Dict V)
      → lookup other (insert key value entries)
        ≡ (if key == other then some value else lookup other entries)
  unfolding lookup insert
  lookup-insert key other value [] = refl
  lookup-insert key other value ((name, old) ∷ entries) = ground (
    arith,
    eq_iff key other,
    eq_iff name other,
    eq_iff name key,
    lookup-insert key other value entries,
  )

-- A number is kept as its literal, also where Go holds the float64 that it was parsed as: Prelude/Json/Floats is
-- what becomes of it when it is marshalled again.
mutual
  pub data Json : Type 0 where
    null : Json
    bool : Bool → Json
    num : String → Json
    str : String → Json
    arr : Items → Json
    obj : Fields → Json

  pub data Items : Type 0 where
    no_items : Items
    item : Json → Items → Items

  pub data Fields : Type 0 where
    no_fields : Fields
    field : String → Json → Fields → Fields

-- `m[key]` of a decoded object; a missing key reads as nil.
unfoldable pub get_field : String → Fields → Json
get_field k no_fields = null
get_field k (field j v fs) = let rest = get_field k fs in if j == k then v else rest

-- The `v, ok := m[key]` form.
unfoldable pub find_field : String → Fields → Option Json
find_field k no_fields = none
find_field k (field j v fs) = let rest = find_field k fs in if j == k then some v else rest

-- `m[key] = v`
unfoldable pub set_field : String → Json → Fields → Fields
set_field k v no_fields = field k v no_fields
set_field k v (field j w fs) =
    let rest = set_field k v fs in if j == k then field k v fs else field j w rest

pub find_field-set_field :
    (k j : String) (v : Json) (fs : Fields)
    → find_field j (set_field k v fs) ≡ (if k == j then some v else find_field j fs)
unfolding find_field set_field
find_field-set_field k j v no_fields = refl
find_field-set_field k j v (field i w fs) =
    ground (arith, eq_iff k j, eq_iff i k, eq_iff i j, find_field-set_field k j v fs)

pub get_field-set_field :
    (k j : String) (v : Json) (fs : Fields)
    → get_field j (set_field k v fs) ≡ (if k == j then v else get_field j fs)
unfolding get_field set_field
get_field-set_field k j v no_fields = refl
get_field-set_field k j v (field i w fs) =
    ground (arith, eq_iff k j, eq_iff i k, eq_iff i j, get_field-set_field k j v fs)
