-- ===== src/Graph/Initialized.antt =====
-- `initialize` of a graph leaves its registry, its record of the parameters and its tasks in agreement.
mod Tests
use gpuinfra.Prelude.{
  ℕ, zero, suc, ◌+◌, ◌*◌, ◌≡◌, refl, ap, subst, sym, ◌∙◌, inl, inr, Bool, true, false, not, ◌||◌,
  ◌&&◌, Option, none, some, List, [], ◌∷◌, ◌==◌, arith, if◌then◌else◌, length, Bool-cases,
  Option-cases,
}
use gpuinfra.Prelude.Int.{ℤ}
use gpuinfra.Prelude.Maps.{lookup}
use gpuinfra.Types.{AlgoRuntimeInfo}
use gpuinfra.Context.{GpuContextManager}
use gpuinfra.Params.{
  ParameterSnapshot, ParameterRegistry, string_type, bytes_type, string_value, bytes_value,
  set_string, set_bytes, seal, snapshot,
}
use gpuinfra.Params.Laws.{contents, IsUpdated, set_value-IsUpdated, sealed-snapshot}
use gpuinfra.Algo.{AlgoParams}
use gpuinfra.Task.{
  DummyTask, register_parameters, name_parameter, blob_parameter, LoadAnswers, load_task,
}
use gpuinfra.Task.Parameters.{IsApplied, IsHeld}
use gpuinfra.Task.Loaded.{load_task-IsApplied}
use gpuinfra.Graph.Cycle.{Owner}
use gpuinfra.Graph.Agreement.{AllApplied, Agrees, apart}
use gpuinfra.Graph.Setup.{
  GraphConfig, frame_counts, new_task, make_tasks, seal_parameters, load_tasks, SetupAnswers,
  fill_graph, initialize_on_node, TeardownAnswers, initialize_graph,
}

-- A registry that is sealed with its first parameters.
record IsSealed (p : AlgoParams) (s : ParameterSnapshot) (r : ParameterRegistry) : Type 0 where
  pub on : r.sealed ≡ true
  pub held : IsHeld p (contents r)
  pub copy : s ≡ contents r

seal_lem : (r : ParameterRegistry) → (seal r).1 ≡ true → (seal r).0 ≡ record r { sealed = true }
unfolding seal
seal_lem r ok = ground (arith, ok)

seal_parameters-IsSealed :
    (r : ParameterRegistry) (p : AlgoParams) (s : ParameterSnapshot)
    → (seal_parameters r p).1 ≡ some s
    → IsSealed p s (seal_parameters r p).0
unfolding seal_parameters set_string set_bytes
seal_parameters-IsSealed r p s e =
    let r₁ = (set_string r name_parameter p.name).0 in
    let r₂ = (set_bytes r₁ blob_parameter p.blob).0 in
    elim (Bool-cases (set_string r name_parameter p.name).1) [
      | inr bad ↦ absurd (ground (arith, e, bad))
      | inl named ↦ elim (Bool-cases (set_bytes r₁ blob_parameter p.blob).1) [
        | inr bad ↦ absurd (ground (arith, e, named, bad))
        | inl blobbed ↦ elim (Bool-cases (seal r₂).1) [
          | inr bad ↦ absurd (ground (arith, e, named, blobbed, bad))
          | inl closed ↦
              let u₁ =
                set_value-IsUpdated r name_parameter string_type (string_value p.name) named in
              let u₂ =
                set_value-IsUpdated r₁ blob_parameter bytes_type (bytes_value p.blob) blobbed in
              let to : (seal_parameters r p).0 ≡ record r₂ { sealed = true } =
                ground (arith, named, blobbed, closed) ∙ seal_lem r₂ closed in
              let read : snapshot (seal r₂).0 ≡ some s =
                ground (arith, e, named, blobbed, closed) in
              let full = subst (λ x. snapshot x ≡ some s) (seal_lem r₂ closed) read in
              let copied = sealed-snapshot (record r₂ { sealed = true }) refl in
              let same : some s ≡ some (contents (record r₂ { sealed = true })) =
                sym full ∙ copied in
              subst (IsSealed p s) (sym to) (record {
                on = refl;
                held = record {
                  name_there = u₂.others name_parameter apart ∙ u₁.there;
                  blob_there = u₂.there;
                };
                copy = ground (arith, same);
              })
        ]
      ]
    ]

module _ (p : AlgoParams) (s : ParameterSnapshot) (held : IsHeld p s) (r : ParameterRegistry)
    (copied : snapshot r ≡ some s) (c : ℕ → LoadAnswers) where
  load_tasks-AllApplied :
      (i : ℕ) (m : GpuContextManager) (tasks : List DummyTask)
      → (load_tasks c i m tasks r).2 ≡ true
      → AllApplied p s.revision_number (load_tasks c i m tasks r).1
  unfolding load_tasks
  load_tasks-AllApplied i m [] ok = tt
  load_tasks-AllApplied i m (t ∷ others) ok =
      let one = load_task (c i) m t r in
      elim (Bool-cases one.2) [
        | inr bad ↦ absurd (ground (arith, bad, ok))
        | inl good ↦
            let rest = load_tasks-AllApplied (suc i) one.0 others (ground (arith, good, ok)) in
            let done : (load_tasks c i m (t ∷ others) r).1
                ≡ one.1 ∷ (load_tasks c (suc i) one.0 others r).1 =
              ground (arith, good) in
            subst (AllApplied p s.revision_number) (sym done)
              (load_task-IsApplied p s held (c i) m t r copied good, rest)
      ]

  length-load_tasks :
      (i : ℕ) (m : GpuContextManager) (tasks : List DummyTask)
      → length (load_tasks c i m tasks r).1 ≡ length tasks
  unfolding load_tasks
  length-load_tasks i m [] = refl
  length-load_tasks i m (t ∷ others) =
      let one = load_task (c i) m t r in
      let rest = length-load_tasks (suc i) one.0 others in
      elim (Bool-cases one.2) [
        | inr bad ↦ ground (arith, bad)
        | inl good ↦ ground (arith, good, rest)
      ]

length-make_tasks :
    (self : ℕ → ℕ) (runtime : AlgoRuntimeInfo) (n id : ℕ) (r : ParameterRegistry)
    → (make_tasks self runtime n id r).2 ≡ true
    → length (make_tasks self runtime n id r).0 ≡ n
unfolding make_tasks
length-make_tasks self runtime zero id r ok = refl
length-make_tasks self runtime (suc n) id r ok =
    let one = register_parameters (new_task (self id) id runtime) r in
    elim (Bool-cases one.2) [
      | inr bad ↦ absurd (ground (arith, bad, ok))
      | inl good ↦
          let rest = length-make_tasks self runtime n (id + 1) one.1 (ground (arith, good, ok)) in
          ground (arith, good, rest)
    ]

-- The graph has `n` tasks, and it, its registry, its copy of it and its tasks have the parameters `p`.
pub record IsConfigured (p : AlgoParams) (n : ℕ) (o : Owner) : Type 0 where
  pub agrees : Agrees o
  pub parameters_are : o.parameters ≡ p
  pub copied : o.parameter_snapshot ≡ contents o.registry
  pub task_count : length o.tasks ≡ n

fill_graph-IsConfigured :
    (c : SetupAnswers) (g : GraphConfig) (warmup timed : ℕ) (o : Owner)
    → (fill_graph c g warmup timed o).1 ≡ true
    → IsConfigured g.parameters (length o.tasks) (fill_graph c g warmup timed o).0
unfolding fill_graph
fill_graph-IsConfigured c g warmup timed o ok =
    elim (Option-cases (seal_parameters o.registry g.parameters).1) [
      | inl missing ↦ absurd (ground (arith, missing, ok))
      | inr (s, e) ↦
          let r = (seal_parameters o.registry g.parameters).0 in
          let closed = seal_parameters-IsSealed o.registry g.parameters s e in
          let same = closed.copy in
          let copied : snapshot r ≡ some s = sealed-snapshot r closed.on ∙ ap some (sym same) in
          let held = subst (IsHeld g.parameters) (sym same) closed.held in
          elim (Bool-cases (load_tasks c.load 0 o.manager o.tasks r).2) [
            | inr bad ↦ absurd (ground (arith, e, bad, ok))
            | inl good ↦
                let all =
                  load_tasks-AllApplied g.parameters s held r copied c.load 0 o.manager o.tasks
                    good in
                let size =
                  length-load_tasks g.parameters s held r copied c.load 0 o.manager o.tasks in
                let f = (fill_graph c g warmup timed o).0 in
                let to_registry : f.registry ≡ r = ground (arith, e, good) in
                let to_params : f.parameters ≡ g.parameters = ground (arith, e, good) in
                let to_tasks : f.tasks ≡ (load_tasks c.load 0 o.manager o.tasks r).1 =
                  ground (arith, e, good) in
                let to_copy : f.parameter_snapshot ≡ s = ground (arith, e, good) in
                let number : s.revision_number ≡ r.revision_number =
                  ap (λ x. x.revision_number) same in
                record {
                  agrees = record {
                    on = ap (λ x. x.sealed) to_registry ∙ closed.on;
                    held = rw (to_registry, to_params) closed.held;
                    applied = rw (to_registry, to_params, to_tasks, sym number) all;
                  };
                  parameters_are = to_params;
                  copied = to_copy ∙ same ∙ ap contents (sym to_registry);
                  task_count = ap length to_tasks ∙ size;
                }
          ]
    ]

initialize_on_node-IsConfigured :
    (c : SetupAnswers) (g : GraphConfig) (gpus : ℕ) (o : Owner)
    → (initialize_on_node c g gpus o).1 ≡ true
    → IsConfigured g.parameters (g.task_instances_per_gpu * gpus) (initialize_on_node c g gpus o).0
unfolding initialize_on_node
initialize_on_node-IsConfigured c g gpus o ok = elim (Option-cases (frame_counts g gpus)) [
  | inl refused ↦ absurd (ground (arith, refused, ok))
  | inr (counts, e) ↦
      let n : ℕ = g.task_instances_per_gpu * gpus in
      let made = make_tasks c.self g.runtime n 0 o.registry in
      let o₁ : Owner = record o { registry = made.1; tasks = made.0 } in
      elim (Bool-cases made.2) [
        | inr bad ↦ absurd (ground (arith, e, bad, ok))
        | inl good ↦
            let to : initialize_on_node c g gpus o ≡ fill_graph c g counts.0 counts.1 o₁ =
              ground (arith, e, good) in
            let size = length-make_tasks c.self g.runtime n 0 o.registry good in
            subst (λ x. IsConfigured g.parameters n x.0) (sym to)
              (subst (λ k. IsConfigured g.parameters k (fill_graph c g counts.0 counts.1 o₁).0) size
                (fill_graph-IsConfigured c g counts.0 counts.1 o₁ (sym (ap (λ x. x.1) to) ∙ ok)))
      ]
]

-- When initialize succeeds, the graph is initialized and has as many tasks as its configuration
-- asks for on all GPUs; its parameters are those of the configuration, its sealed registry and the
-- algorithms of all its tasks hold them, its snapshot is a copy of the registry, and each task may
-- run and has applied the revision of the registry.
pub initialize_graph-IsConfigured :
    (c : SetupAnswers) (d : TeardownAnswers) (on_node : ℕ → Bool) (started : Bool)
    (gpus : List ℤ × Bool) (g : GraphConfig) (o : Owner)
    → (initialize_graph c d on_node started gpus g o).1 ≡ true
    → IsConfigured g.parameters
        (g.task_instances_per_gpu * length gpus.0)
        (initialize_graph c d on_node started gpus g o).0
      × ((initialize_graph c d on_node started gpus g o).0.graph.initialized ≡ true)
unfolding initialize_graph
initialize_graph-IsConfigured c d on_node started gpus g o ok =
    let set_up = initialize_on_node c g (length gpus.0) o in
    elim (Bool-cases set_up.1) [
      | inr bad ↦ absurd (ground (arith, bad, ok))
      | inl good ↦
          let v = initialize_on_node-IsConfigured c g (length gpus.0) o good in
          let a = v.agrees in
          let r = (initialize_graph c d on_node started gpus g o).0 in
          let to_registry : r.registry ≡ set_up.0.registry = ground (arith, good, ok) in
          let to_params : r.parameters ≡ set_up.0.parameters = ground (arith, good, ok) in
          let to_tasks : r.tasks ≡ set_up.0.tasks = ground (arith, good, ok) in
          let to_copy : r.parameter_snapshot ≡ set_up.0.parameter_snapshot =
            ground (arith, good, ok) in
          (
            record {
              agrees = record {
                on = rw to_registry a.on;
                held = rw (to_registry, to_params) a.held;
                applied = rw (to_registry, to_params, to_tasks) a.applied;
              };
              parameters_are = to_params ∙ v.parameters_are;
              copied = to_copy ∙ v.copied ∙ ap contents (sym to_registry);
              task_count = ap length to_tasks ∙ v.task_count;
            },
            ground (arith, good, ok),
          )
    ]
