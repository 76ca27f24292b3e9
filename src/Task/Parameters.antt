-- ===== src/Task/Parameters.antt =====
-- The parameters that the algorithms of a task hold.
use gpuinfra.Prelude.{
  ℕ, ◌≡◌, ◌≢◌, refl, subst, sym, inl, inr, Bool, true, false, some, List, [], ◌∷◌, arith,
  if◌then◌else◌, Bool-cases,
}
use gpuinfra.Prelude.Maps.{lookup}
use gpuinfra.Context.{GpuContextManager}
use gpuinfra.Params.{ParameterSnapshot, string_value, bytes_value, get_string, get_bytes}
use gpuinfra.Algo.{AlgoParams, Algo, notify_parameter}
use gpuinfra.Task.{
  DummyTask, is_in_use, name_parameter, blob_parameter, notify_algorithms, apply_parameters,
  notify_parameters,
}

-- Every algorithm is initialized and has the parameters.
abbrev pub AllSet : AlgoParams → List Algo → Type 0
AllSet p [] = Unit
AllSet p (a ∷ others) = (a.initialized ≡ true) × (a.algo_params ≡ p) × AllSet p others

-- The task may run, and has applied the parameters as this revision.
pub record IsApplied (p : AlgoParams) (revision : ℕ) (t : DummyTask) : Type 0 where
  pub all_set : AllSet p t.algorithms
  pub revision_is : t.applied_revision ≡ revision
  pub in_use : is_in_use t.state ≡ true

-- The snapshot holds the parameters.
pub record IsHeld (p : AlgoParams) (s : ParameterSnapshot) : Type 0 where
  pub name_there : lookup name_parameter s.values ≡ some (string_value p.name)
  pub blob_there : lookup blob_parameter s.values ≡ some (bytes_value p.blob)

pub notify_algorithms-AllSet :
    (p : AlgoParams) (algorithms : List Algo)
    → (notify_algorithms algorithms p).1 ≡ true
    → AllSet p (notify_algorithms algorithms p).0
unfolding notify_algorithms notify_parameter
notify_algorithms-AllSet p [] h = tt
notify_algorithms-AllSet p (a ∷ others) h = elim (Bool-cases a.initialized) [
  | inr off ↦ absurd (ground (arith, off, h))
  | inl on ↦
      let rest = notify_algorithms-AllSet p others (ground (arith, on, h)) in
      let done : (notify_algorithms (a ∷ others) p).0
          ≡ record a { algo_params = p } ∷ (notify_algorithms others p).0 =
        ground (arith, on) in
      subst (AllSet p) (sym done) (on, refl, rest)
]

module _ (p : AlgoParams) (s : ParameterSnapshot) (t : DummyTask) (held : IsHeld p s) where
  pub apply_parameters_lem : apply_parameters t s ≡ (
      if (notify_algorithms t.algorithms p).1
      then (
        record t {
          algorithms = (notify_algorithms t.algorithms p).0;
          applied_revision = s.revision_number;
        },
        true,
      )
      else (record t { algorithms = (notify_algorithms t.algorithms p).0 }, false))
  unfolding apply_parameters get_string get_bytes
  apply_parameters_lem = let n = held.name_there in let b = held.blob_there in ground (arith, n, b)

  pub notify_parameters-IsApplied :
      (selected : Bool) (m : GpuContextManager)
      → t.applied_revision ≢ s.revision_number
      → (notify_parameters selected m t s).1 ≡ true
      → IsApplied p s.revision_number (notify_parameters selected m t s).0
  unfolding notify_parameters
  notify_parameters-IsApplied selected m new ok =
      let done = apply_parameters_lem in
      elim (Bool-cases (notify_algorithms t.algorithms p).1) [
        | inr bad ↦ absurd (ground (arith, done, bad, ok, new))
        | inl good ↦
            let used : is_in_use t.state ≡ true = ground (arith, ok, new) in
            let to : (notify_parameters selected m t s).0 ≡ record t {
              algorithms = (notify_algorithms t.algorithms p).0;
              applied_revision = s.revision_number;
            } =
              ground (arith, done, good, ok, new) in
            subst (IsApplied p s.revision_number) (sym to) (record {
              all_set = notify_algorithms-AllSet p t.algorithms good;
              revision_is = refl;
              in_use = used;
            })
      ]
