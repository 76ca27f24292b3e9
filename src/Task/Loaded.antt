-- ===== src/Task/Loaded.antt =====
-- A task that has been loaded holds the parameters of the snapshot that `load` has taken.
use gpuinfra.Prelude.{
  ℕ, ◌≡◌, refl, ap, subst, sym, ◌∙◌, inl, inr, true, not, ◌&&◌, some, [], ◌∷◌, arith, Bool-cases,
  List-cases,
}
use gpuinfra.Prelude.Int.{ℤ, is_neg}
use gpuinfra.Context.{GpuContextManager, register_task, make_task_current, gpu_ids_for_node}
use gpuinfra.Params.{ParameterSnapshot, ParameterRegistry, snapshot}
use gpuinfra.Algo.{AlgoParams, new_algo}
use gpuinfra.Task.{
  DummyTask, registered, loaded, eq_lifecycle, is_valid_runtime, notify_algorithms,
  apply_parameters, LoadAnswers, allocate_buffers, init_all, prepare_task, load_on, load_task,
}
use gpuinfra.Task.Parameters.{
  AllSet, IsApplied, IsHeld, notify_algorithms-AllSet, apply_parameters_lem,
}

-- The parameters are applied, whatever the state.
record IsSetUp (p : AlgoParams) (revision : ℕ) (t : DummyTask) : Type 0 where
  pub all_set : AllSet p t.algorithms
  pub revision_is : t.applied_revision ≡ revision

module _ (p : AlgoParams) (s : ParameterSnapshot) (held : IsHeld p s) where
  apply_parameters-IsSetUp :
      (t : DummyTask)
      → (apply_parameters t s).1 ≡ true
      → IsSetUp p s.revision_number (apply_parameters t s).0
  apply_parameters-IsSetUp t ok =
      let e = apply_parameters_lem p s t held in
      elim (Bool-cases (notify_algorithms t.algorithms p).1) [
        | inr bad ↦ absurd (ground (arith, e, bad, ok))
        | inl good ↦
            let to : (apply_parameters t s).0 ≡ record t {
              algorithms = (notify_algorithms t.algorithms p).0;
              applied_revision = s.revision_number;
            } =
              ground (arith, e, good) in
            subst (IsSetUp p s.revision_number) (sym to) (record {
              all_set = notify_algorithms-AllSet p t.algorithms good;
              revision_is = refl;
            })
      ]

  prepare_task-IsSetUp :
      (c : LoadAnswers) (t : DummyTask)
      → (prepare_task c t s).1 ≡ true
      → IsSetUp p s.revision_number (prepare_task c t s).0
  unfolding prepare_task
  prepare_task-IsSetUp c t ok =
      let t₁ = (allocate_buffers c t).0 in
      let started =
        init_all c.algorithm 0 t₁.algo_runtime t₁.resources t₁.stream
          (new_algo 2 ∷ new_algo 3 ∷ new_algo 3 ∷ []) in
      let t₂ : DummyTask = record t₁ { algorithms = started.0 } in
      elim (Bool-cases (allocate_buffers c t).1) [
        | inr bad ↦ absurd (ground (arith, bad, ok))
        | inl good ↦ elim (Bool-cases (started.1 && c.synchronized)) [
          | inr bad ↦ absurd (ground (arith, good, bad, ok))
          | inl ready ↦
              let to : prepare_task c t s ≡ apply_parameters t₂ s = ground (arith, good, ready) in
              subst (λ x. IsSetUp p s.revision_number x.0) (sym to)
                (apply_parameters-IsSetUp t₂ (sym (ap (λ x. x.1) to) ∙ ok))
        ]
      ]

  load_on-IsApplied :
      (c : LoadAnswers) (m : GpuContextManager) (t : DummyTask) (gpu : ℤ)
      → (load_on c m t s gpu).2 ≡ true
      → IsApplied p s.revision_number (load_on c m t s gpu).1
  unfolding load_on
  load_on-IsApplied c m t gpu ok =
      let r = register_task m gpu t.resources in
      let t₁ : DummyTask = record t { resources = r.1; in_bytes = t.algo_runtime.in_bytes } in
      elim (Bool-cases r.2) [
        | inr bad ↦ absurd (ground (arith, bad, ok))
        | inl bound ↦ elim (Bool-cases (make_task_current c.selected r.0 r.1)) [
          | inr bad ↦ absurd (ground (arith, bound, bad, ok))
          | inl current ↦ elim (Bool-cases (prepare_task c t₁ s).1) [
            | inr bad ↦ absurd (ground (arith, bound, current, bad, ok))
            | inl prepared ↦
                let to : (load_on c m t s gpu).1
                    ≡ record ((prepare_task c t₁ s).0) { state = loaded } =
                  ground (arith, bound, current, prepared) in
                let done = prepare_task-IsSetUp c t₁ prepared in
                subst (IsApplied p s.revision_number) (sym to)
                  (record { all_set = done.all_set; revision_is = done.revision_is; in_use = refl })
          ]
        ]
      ]

  pub load_task-IsApplied :
      (c : LoadAnswers) (m : GpuContextManager) (t : DummyTask) (r : ParameterRegistry)
      → snapshot r ≡ some s
      → (load_task c m t r).2 ≡ true
      → IsApplied p s.revision_number (load_task c m t r).1
  unfolding load_task
  load_task-IsApplied c m t r e ok =
      let gpus = gpu_ids_for_node m c.node in
      let fit =
        eq_lifecycle t.state registered
        && t.has_registry
        && not (is_neg t.id)
        && is_valid_runtime t.algo_runtime in
      elim (Bool-cases fit) [
        | inr bad ↦ absurd (ground (arith, e, bad, ok))
        | inl good ↦ elim (List-cases gpus.0) [
          | inl none_there ↦ absurd (ground (arith, e, good, none_there, ok))
          | inr (gpu, more, there) ↦ elim (Bool-cases gpus.1) [
            | inr bad ↦ absurd (ground (arith, e, good, there, bad, ok))
            | inl found ↦
                let to : load_task c m t r ≡ load_on c m t s gpu =
                  ground (arith, e, good, there, found) in
                subst (λ x. IsApplied p s.revision_number x.1) (sym to)
                  (load_on-IsApplied c m t gpu (sym (ap (λ x. x.2) to) ∙ ok))
          ]
        ]
      ]
