-- ===== src/Params.antt =====
-- demo/ParameterRegistry.{h,cpp}: the parameters of a graph, a table of typed values with a schema
-- that `seal` freezes, and the snapshots that its tasks read. A string is the list of its bytes.
pub mod Schema
pub mod Laws
mod Tests
use gpuinfra.Prelude.{
  ℕ, ◌+◌, Bool, true, false, not, ◌||◌, ◌&&◌, Option, none, some, List, [], ◌∷◌, ◌==◌,
  if◌then◌else◌, length, size_max,
}
use gpuinfra.Prelude.Maps.{eq_list, lookup, assign}

-- `ParameterType`
pub data ParameterType : Type 0 where
  string_type bytes_type : ParameterType

-- `ParameterValue`
pub data ParameterValue : Type 0 where
  string_value bytes_value : List ℕ → ParameterValue

-- `ParameterSnapshot`
pub record ParameterSnapshot : Type 0 where
  pub values : List (List ℕ × ParameterValue)
  pub revision_number : ℕ

-- `ParameterRegistry`
pub record ParameterRegistry : Type 0 where
  pub schema : List (List ℕ × ParameterType)
  pub values : List (List ℕ × ParameterValue)
  pub revision_number : ℕ
  pub sealed : Bool

abbrev pub new_registry : ParameterRegistry
new_registry = record { schema = []; values = []; revision_number = 0; sealed = false }

abbrev pub eq_type : ParameterType → ParameterType → Bool
eq_type string_type string_type = true
eq_type string_type bytes_type = false
eq_type bytes_type string_type = false
eq_type bytes_type bytes_type = true

-- `==` of two variants
abbrev pub eq_value : ParameterValue → ParameterValue → Bool
eq_value (string_value s) (string_value t) = eq_list s t
eq_value (string_value s) (bytes_value t) = false
eq_value (bytes_value s) (string_value t) = false
eq_value (bytes_value s) (bytes_value t) = eq_list s t

-- `ParameterSnapshot::getString`; `none` for false
unfoldable pub get_string : ParameterSnapshot → List ℕ → Option (List ℕ)
get_string s name = elim (lookup name s.values) [
  | none ↦ none
  | some v ↦ elim v [ string_value x ↦ some x | bytes_value x ↦ none ]
]

-- `ParameterSnapshot::getBytes`; `none` for false
unfoldable pub get_bytes : ParameterSnapshot → List ℕ → Option (List ℕ)
get_bytes s name = elim (lookup name s.values) [
  | none ↦ none
  | some v ↦ elim v [ string_value x ↦ none | bytes_value x ↦ some x ]
]

-- `registerParameter`
unfoldable pub register_parameter :
    ParameterRegistry → List ℕ → ParameterType → ParameterRegistry × Bool
register_parameter r name type =
    if r.sealed || eq_list name [] then (r, false) else elim (lookup name r.schema) [
      | some found ↦ (r, eq_type found type)
      | none ↦ (record r { schema = assign name type r.schema }, true)
    ]

-- `setValue` past the check of the type
unfoldable pub store_value : ParameterRegistry → List ℕ → ParameterValue → ParameterRegistry × Bool
store_value r name value =
    let stored : ParameterRegistry × Bool = if r.revision_number == size_max then (r, false) else (
      record r { values = assign name value r.values; revision_number = r.revision_number + 1 },
      true,
    ) in
    elim (lookup name r.values) [
      | none ↦ stored
      | some current ↦ if eq_value current value then (r, true) else stored
    ]

-- `setValue`
unfoldable pub set_value :
    ParameterRegistry → List ℕ → ParameterType → ParameterValue → ParameterRegistry × Bool
set_value r name type value = elim (lookup name r.schema) [
  | none ↦ (r, false)
  | some found ↦ if eq_type found type then store_value r name value else (r, false)
]

-- `setString`
unfoldable pub set_string : ParameterRegistry → List ℕ → List ℕ → ParameterRegistry × Bool
set_string r name value = set_value r name string_type (string_value value)

-- `setBytes`
unfoldable pub set_bytes : ParameterRegistry → List ℕ → List ℕ → ParameterRegistry × Bool
set_bytes r name value = set_value r name bytes_type (bytes_value value)

-- `seal`
unfoldable pub seal : ParameterRegistry → ParameterRegistry × Bool
seal r =
    if r.sealed || length r.schema == 0 || not (length r.values == length r.schema)
    then (r, false)
    else (record r { sealed = true }, true)

-- `snapshot`; `none` for false
unfoldable pub snapshot : ParameterRegistry → Option ParameterSnapshot
snapshot r =
    if r.sealed
    then some (record { values = r.values; revision_number = r.revision_number })
    else none
