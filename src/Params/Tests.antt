-- ===== src/Params/Tests.antt =====
-- A registry with two parameters, and the theorems on it.
use gpuinfra.Prelude.{ℕ, ◌≡◌, refl, List, [], ◌∷◌, some}
use gpuinfra.Params.{
  string_type, bytes_type, ParameterRegistry, new_registry, get_string, get_bytes,
  register_parameter, store_value, set_value, set_string, set_bytes, seal, snapshot,
}
use gpuinfra.Params.Schema.{Reachable, created, registered, string_set, bytes_set, was_sealed}
use gpuinfra.Params.Laws.{
  contents, snapshot_complete, set_string-get_string, now, then_string, Later-revision,
}

program : Unit {0}
unfolding get_string get_bytes register_parameter store_value set_value set_string set_bytes seal
    snapshot
program = tt

abbrev declared : ParameterRegistry
declared =
    (register_parameter (register_parameter new_registry (1 ∷ []) string_type).0 (2 ∷ [])
      bytes_type).0

abbrev frozen : ParameterRegistry
frozen = (seal (set_bytes (set_string declared (1 ∷ []) (65 ∷ [])).0 (2 ∷ []) (9 ∷ [])).0).0

frozen-Reachable : Reachable frozen
frozen-Reachable = was_sealed (
    bytes_set (2 ∷ []) (9 ∷ []) (
      string_set (1 ∷ []) (65 ∷ [])
        (registered (2 ∷ []) bytes_type (registered (1 ∷ []) string_type created))))

snapshot_complete_example : (x : List ℕ) × (get_bytes (contents frozen) (2 ∷ []) ≡ some x)
unfolding program
snapshot_complete_example = (snapshot_complete frozen frozen-Reachable refl).2 (2 ∷ []) refl

set_string-get_string_example :
    get_string (contents (set_string frozen (1 ∷ []) (66 ∷ [])).0) (1 ∷ []) ≡ some (66 ∷ [])
unfolding program
set_string-get_string_example = (set_string-get_string frozen (1 ∷ []) (66 ∷ []) refl refl).1

Later-revision_example : (set_string frozen (1 ∷ []) (65 ∷ [])).0.values ≡ frozen.values
unfolding program
Later-revision_example =
    (Later-revision frozen (set_string frozen (1 ∷ []) (65 ∷ [])).0
        (then_string (1 ∷ []) (65 ∷ []) now)).1
      refl
