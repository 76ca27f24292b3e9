-- ===== src/Graph/Agreement.antt =====
-- The parameters of a graph: its registry, its record of them and the algorithms of its tasks agree.
use gpuinfra.Prelude.{
  ℕ, suc, ◌≡◌, ◌≢◌, refl, ap, subst, sym, ◌∙◌, inl, inr, Bool, true, ◌&&◌, List, [], ◌∷◌, arith,
  ◌==◌, Bool-cases,
}
use gpuinfra.Prelude.Maps.{eq_list, eq_list-≡}
use gpuinfra.Context.{GpuContextManager}
use gpuinfra.Params.{
  ParameterSnapshot, string_type, bytes_type, string_value, bytes_value, set_string, set_bytes,
}
use gpuinfra.Params.Laws.{contents, set_value-IsUpdated, sealed-snapshot}
use gpuinfra.Algo.{AlgoParams}
use gpuinfra.Task.{DummyTask, name_parameter, blob_parameter, notify_parameters}
use gpuinfra.Task.Parameters.{IsApplied, IsHeld, notify_parameters-IsApplied}
use gpuinfra.Graph.Cycle.{Owner, notify_tasks, can_change, spread_parameters, change_parameters}

abbrev pub AllApplied : AlgoParams → ℕ → List DummyTask → Type 0
AllApplied p revision [] = Unit
AllApplied p revision (t ∷ others) = IsApplied p revision t × AllApplied p revision others

pub record Agrees (o : Owner) : Type 0 where
  pub on : o.registry.sealed ≡ true
  pub held : IsHeld o.parameters (contents o.registry)
  pub applied : AllApplied o.parameters o.registry.revision_number o.tasks

module _ (selected : ℕ → Bool) (m : GpuContextManager) (p old : AlgoParams) (s : ParameterSnapshot)
    (revision : ℕ) (held : IsHeld p s) (new : revision ≢ s.revision_number) where
  notify_tasks-AllApplied :
      (i : ℕ) (tasks : List DummyTask)
      → AllApplied old revision tasks
      → (notify_tasks selected m i tasks s).1 ≡ true
      → AllApplied p s.revision_number (notify_tasks selected m i tasks s).0
  unfolding notify_tasks
  notify_tasks-AllApplied i [] a h = tt
  notify_tasks-AllApplied i (t ∷ others) (a, all) h =
      elim (Bool-cases (notify_parameters (selected i) m t s).1) [
        | inr bad ↦ absurd (ground (arith, bad, h))
        | inl good ↦
            let r = a.revision_is in
            let first =
              notify_parameters-IsApplied p s t held (selected i) m (λ e. new (sym r ∙ e)) good in
            let rest = notify_tasks-AllApplied (suc i) others all (ground (arith, good, h)) in
            let done : (notify_tasks selected m i (t ∷ others) s).0
                ≡ (notify_parameters (selected i) m t s).0
                  ∷ (notify_tasks selected m (suc i) others s).0 =
              ground (arith, good) in
            subst (AllApplied p s.revision_number) (sym done) (first, rest)
      ]

spread_parameters-Agrees :
    (on_node : Bool) (selected : ℕ → Bool) (o : Owner) (p : AlgoParams) (revision : ℕ)
    → o.registry.sealed ≡ true
    → IsHeld p (contents o.registry)
    → AllApplied o.parameters revision o.tasks
    → revision ≢ o.registry.revision_number
    → (spread_parameters on_node selected o p).1 ≡ true
    → Agrees (spread_parameters on_node selected o p).0
      × ((spread_parameters on_node selected o p).0.parameters ≡ p)
unfolding spread_parameters
spread_parameters-Agrees on_node selected o p revision on held all new ok =
    let s = sealed-snapshot o.registry on in
    let copy = contents o.registry in
    elim (Bool-cases (notify_tasks selected o.manager 0 o.tasks copy).1) [
      | inr bad ↦ absurd (ground (arith, s, bad, ok))
      | inl good ↦
          let tasks =
            notify_tasks-AllApplied selected o.manager p o.parameters copy revision held new 0
              o.tasks all good in
          let done : (spread_parameters on_node selected o p).0 ≡ record o {
            tasks = (notify_tasks selected o.manager 0 o.tasks copy).0;
            parameters = p;
            parameter_snapshot = copy;
          } =
            ground (arith, s, good, ok) in
          subst (λ x. Agrees x × (x.parameters ≡ p)) (sym done)
            (record { on = on; held = held; applied = tasks }, refl)
    ]

pub apart : name_parameter ≢ blob_parameter
apart e = let same = subst (λ x. eq_list name_parameter x ≡ true) e refl in ground (arith, same)

-- When the sealed registry of a graph and the algorithms of all its tasks hold the parameters of
-- the graph, each task has applied the revision of the registry and may run, and changeParameters
-- succeeds, then all of this holds of the new parameters and the new revision.
pub change_parameters-Agrees :
    (on_node : Bool) (selected : ℕ → Bool) (o : Owner) (p : AlgoParams)
    → Agrees o
    → (change_parameters on_node selected o p).1 ≡ true
    → Agrees (change_parameters on_node selected o p).0
      × ((change_parameters on_node selected o p).0.parameters ≡ p)
unfolding change_parameters set_string set_bytes
change_parameters-Agrees on_node selected o p a ok =
    let r₁ = (set_string o.registry name_parameter p.name).0 in
    let r₂ = (set_bytes r₁ blob_parameter p.blob).0 in
    elim (Bool-cases (can_change o)) [
      | inr no_change ↦ absurd (ground (arith, no_change, ok))
      | inl can ↦
          elim (Bool-cases (eq_list p.name o.parameters.name && eq_list p.blob o.parameters.blob)) [
            | inl same ↦
                let kept : (change_parameters on_node selected o p).0 ≡ o =
                  ground (arith, can, same) in
                let name = eq_list-≡ p.name o.parameters.name (ground (arith, same)) in
                let blob = eq_list-≡ p.blob o.parameters.blob (ground (arith, same)) in
                subst (λ x. Agrees x × (x.parameters ≡ p)) (sym kept)
                  (a, ground (arith, name, blob))
            | inr other ↦ elim (Bool-cases (set_string o.registry name_parameter p.name).1) [
              | inr bad ↦ absurd (ground (arith, can, other, bad, ok))
              | inl named ↦ elim (Bool-cases (set_bytes r₁ blob_parameter p.blob).1) [
                | inr bad ↦ absurd (ground (arith, can, other, named, bad, ok))
                | inl blobbed ↦
                    elim (Bool-cases (r₂.revision_number == o.registry.revision_number)) [
                      | inl still ↦ absurd (ground (arith, can, other, named, blobbed, still, ok))
                      | inr moved ↦
                          let u₁ =
                            set_value-IsUpdated o.registry name_parameter string_type
                              (string_value p.name) named in
                          let u₂ =
                            set_value-IsUpdated r₁ blob_parameter bytes_type (bytes_value p.blob)
                              blobbed in
                          let o₂ : Owner = record o { registry = r₂ } in
                          let go : change_parameters on_node selected o p
                              ≡ spread_parameters on_node selected o₂ p =
                            ground (arith, can, other, named, blobbed, moved) in
                          let held : IsHeld p (contents r₂) = record {
                            name_there = u₂.others name_parameter apart ∙ u₁.there;
                            blob_there = u₂.there;
                          } in
                          let new : o.registry.revision_number ≢ r₂.revision_number =
                            λ e. ground (arith, moved, e) in
                          subst (λ x. Agrees x.0 × (x.0.parameters ≡ p)) (sym go)
                            (spread_parameters-Agrees on_node selected o₂ p
                              o.registry.revision_number (u₂.sealed ∙ u₁.sealed ∙ a.on) held
                              a.applied new (sym (ap (λ x. x.1) go) ∙ ok))
                    ]
              ]
            ]
          ]
    ]
