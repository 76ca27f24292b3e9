-- ===== src/Context/Registration.antt =====
-- What `registerTask` and `unregisterTask` do to the tasks of a context, and to those beside.
use gpuinfra.Prelude.{
  ℕ, zero, suc, ◌+◌, ◌<◌, ◌≤◌, ◌≡◌, ◌≢◌, refl, inl, inr, true, some, List, [], ◌∷◌, arith,
  Option-cases, length, get_or, set, get_or-set, length-set, ◌==◌, if◌then◌else◌,
}
use gpuinfra.Prelude.Int.{ℤ, pos}
use gpuinfra.Types.{null}
use gpuinfra.Context.{
  GpuContext, GpuContextManager, TaskGpuResources, unbound, active_tasks, find_gpu, free_slot,
  store_task, context_at, put_tasks, register_task, unregister_task, no_context, all_idle, shutdown,
}

-- A task that is stored takes the first empty element, and the others stay where they are.
store_task-at :
    (tasks : List ℕ) (task j : ℕ)
    → get_or (store_task tasks (free_slot tasks) task) j null
      ≡ (if free_slot tasks == j then task else get_or tasks j null)
unfolding store_task free_slot
store_task-at [] task zero = refl
store_task-at [] task (suc j) = ground arith
store_task-at (t ∷ ts) task zero = ground arith
store_task-at (t ∷ ts) task (suc j) = ground (arith, store_task-at ts task j)

free_slot-free : (tasks : List ℕ) → get_or tasks (free_slot tasks) null ≡ null
unfolding free_slot
free_slot-free [] = refl
free_slot-free (t ∷ ts) = ground (arith, free_slot-free ts)

active_tasks-store :
    (tasks : List ℕ) (task : ℕ)
    → task ≢ null
    → active_tasks (store_task tasks (free_slot tasks) task) ≡ active_tasks tasks + 1
unfolding store_task free_slot active_tasks
active_tasks-store [] task h = ground (arith, h)
active_tasks-store (t ∷ ts) task h = ground (arith, h, active_tasks-store ts task h)

free_slot-lt :
    (tasks : List ℕ) (task : ℕ) → free_slot tasks < length (store_task tasks (free_slot tasks) task)
unfolding store_task free_slot
free_slot-lt [] task = ground arith
free_slot-lt (t ∷ ts) task = ground (arith, free_slot-lt ts task)

active_tasks-clear :
    (tasks : List ℕ) (slot : ℕ)
    → get_or tasks slot null ≢ null
    → active_tasks (set tasks slot null) + 1 ≡ active_tasks tasks
unfolding active_tasks
active_tasks-clear [] slot h = absurd (h refl)
active_tasks-clear (t ∷ ts) zero h = ground (arith, h)
active_tasks-clear (t ∷ ts) (suc slot) h = ground (arith, active_tasks-clear ts slot h)

find_gpu-lt :
    (cs : List GpuContext) (gpu : ℤ) (index i : ℕ)
    → find_gpu cs gpu index ≡ some i
    → (index ≤ i) × (i < index + length cs)
unfolding find_gpu
find_gpu-lt [] gpu index i e = absurd (ground (arith, e))
find_gpu-lt (c ∷ cs) gpu index i e =
    ground
      (arith, e, λ (r : find_gpu cs gpu (index + 1) ≡ some i). find_gpu-lt cs gpu (index + 1) i r)

context_at-put :
    (m : GpuContextManager) (i k : ℕ) (tasks : List ℕ)
    → i < length m.contexts
    → (context_at (put_tasks m i tasks) k).task_resources
      ≡ (if i == k then tasks else (context_at m k).task_resources)
context_at-put m i k tasks h =
    let put =
      get_or-set m.contexts i k (record (context_at m i) { task_resources = tasks }) no_context h in
    ground (arith, put)

-- The context, the element and the new tasks of a registration.
module _ (m : GpuContextManager) (gpu : ℤ) (self i : ℕ) where
  abbrev old_tasks : List ℕ
  old_tasks = (context_at m i).task_resources

  abbrev new_tasks : List ℕ
  new_tasks = store_task old_tasks (free_slot old_tasks) self

  abbrev bound : TaskGpuResources
  bound = record {
    self = self;
    resource_id = pos (free_slot old_tasks);
    gpu_id = gpu;
    ctx = some i;
  }

  register_task-bound :
      (register_task m gpu (unbound self)).2 ≡ true
      → find_gpu m.contexts gpu 0 ≡ some i
      → (register_task m gpu (unbound self) ≡ (put_tasks m i new_tasks, bound, true))
        × (m.initialised ≡ true)
  unfolding register_task
  register_task-bound ok e = ground (arith, ok, e)

  unregister_task-bound :
      m.initialised ≡ true
      → i < length m.contexts
      → unregister_task (put_tasks m i new_tasks) bound ≡ (
        put_tasks (put_tasks m i new_tasks) i (set new_tasks (free_slot old_tasks) null),
        unbound self,
        true,
      )
  unfolding unregister_task
  unregister_task-bound on h =
      let put = context_at-put m i i new_tasks h in
      let low = free_slot-lt old_tasks self in
      let at = store_task-at old_tasks self (free_slot old_tasks) in
      ground (arith, on, put, low, at)

  tasks_as_before :
      (k : ℕ)
      → self ≢ null
      → i < length m.contexts
      → active_tasks
          (context_at
            (put_tasks (put_tasks m i new_tasks) i (set new_tasks (free_slot old_tasks) null))
            k).task_resources
        ≡ active_tasks (context_at m k).task_resources
  tasks_as_before k h lt =
      let cleared = set new_tasks (free_slot old_tasks) null in
      let size = length-set m.contexts i (record (context_at m i) { task_resources = new_tasks }) in
      let outer = context_at-put (put_tasks m i new_tasks) i k cleared (rw size lt) in
      let inner = context_at-put m i k new_tasks lt in
      let at = store_task-at old_tasks self (free_slot old_tasks) in
      let more = active_tasks-store old_tasks self h in
      let less = active_tasks-clear new_tasks (free_slot old_tasks) (ground (arith, at, h)) in
      ground (arith, outer, inner, more, less)

registered_at :
    (m : GpuContextManager) (gpu : ℤ) (r : TaskGpuResources)
    → (register_task m gpu r).2 ≡ true
    → (i : ℕ) × (find_gpu m.contexts gpu 0 ≡ some i) × (i < length m.contexts)
unfolding register_task
registered_at m gpu r ok = elim (Option-cases (find_gpu m.contexts gpu 0)) [
  | inl e ↦ absurd (ground (arith, e, ok))
  | inr (i, e) ↦ (i, e, omega (arith, find_gpu-lt m.contexts gpu 0 i e))
]

-- Resources with an address, once they are registered, can be unregistered at once: they are
-- unbound again, and each context has as many tasks as before.
pub unregister_task-register_task :
    (m : GpuContextManager) (gpu : ℤ) (self : ℕ)
    → self ≢ null
    → (register_task m gpu (unbound self)).2 ≡ true
    → ((unregister_task
          (register_task m gpu (unbound self)).0
          (register_task m gpu (unbound self)).1).2
        ≡ true)
      × ((unregister_task
            (register_task m gpu (unbound self)).0
            (register_task m gpu (unbound self)).1).1
          ≡ unbound self)
      × ((k : ℕ)
          → active_tasks
              (context_at
                (unregister_task
                  (register_task m gpu (unbound self)).0
                  (register_task m gpu (unbound self)).1).0
                k).task_resources
            ≡ active_tasks (context_at m k).task_resources)
unregister_task-register_task m gpu self h ok =
    let (i, e, lt) = registered_at m gpu (unbound self) ok in
    let (made, on) = register_task-bound m gpu self i ok e in
    rw (made, unregister_task-bound m gpu self i on lt)
      (refl, refl, λ k. tasks_as_before m gpu self i k h lt)

-- When resources are registered, every task that was registered before keeps its context and its
-- number.
pub register_task-keeps :
    (m : GpuContextManager) (gpu : ℤ) (self k j : ℕ)
    → (register_task m gpu (unbound self)).2 ≡ true
    → get_or (context_at m k).task_resources j null ≢ null
    → get_or (context_at (register_task m gpu (unbound self)).0 k).task_resources j null
      ≡ get_or (context_at m k).task_resources j null
register_task-keeps m gpu self k j ok taken =
    let (i, e, lt) = registered_at m gpu (unbound self) ok in
    let (made, on) = register_task-bound m gpu self i ok e in
    let put = context_at-put m i k (new_tasks m gpu self i) lt in
    let at = store_task-at (old_tasks m gpu self i) self j in
    let free = free_slot-free (old_tasks m gpu self i) in
    rw made (ground (arith, put, at, free, taken))

active_tasks-none : (ts : List ℕ) (j : ℕ) → active_tasks ts ≡ 0 → get_or ts j null ≡ null
unfolding active_tasks
active_tasks-none [] j e = refl
active_tasks-none (t ∷ ts) zero e = ground (arith, e)
active_tasks-none (t ∷ ts) (suc j) e = active_tasks-none ts j (ground (arith, e))

all_idle-none :
    (cs : List GpuContext) (k j : ℕ)
    → all_idle cs ≡ true
    → get_or (get_or cs k no_context).task_resources j null ≡ null
unfolding all_idle
all_idle-none [] k j e = refl
all_idle-none (c ∷ cs) zero j e = active_tasks-none c.task_resources j (ground (arith, e))
all_idle-none (c ∷ cs) (suc k) j e = all_idle-none cs k j (ground (arith, e))

-- While any task is registered, shutdown changes nothing.
pub shutdown_refused :
    (m : GpuContextManager) (k j : ℕ)
    → get_or (context_at m k).task_resources j null ≢ null
    → shutdown m ≡ m
unfolding shutdown
shutdown_refused m k j taken =
    let idle = all_idle-none m.contexts k j in ground (arith, idle, taken)
