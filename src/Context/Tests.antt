-- ===== src/Context/Tests.antt =====
-- Two tasks on one GPU, and the theorems at concrete inputs.
use gpuinfra.Prelude.{◌≡◌, refl, true, [], ◌∷◌, arith, get_or}
use gpuinfra.Prelude.Int.{pos}
use gpuinfra.Types.{null}
use gpuinfra.Context.{
  GpuContextManager, unbound, active_tasks, find_gpu, free_slot, store_task, context_at,
  register_task, unregister_task, all_idle, shutdown,
}
use gpuinfra.Context.Registration.{
  unregister_task-register_task, register_task-keeps, shutdown_refused,
}

program : Unit {0}
unfolding active_tasks find_gpu free_slot store_task register_task unregister_task all_idle shutdown
program = tt

abbrev manager : GpuContextManager
manager = record {
  contexts =
      record { gpu_id = pos 0; numa_node = pos 0; primary_ctx = 9; task_resources = [] } ∷ [];
  initialised = true;
}

abbrev one_task : GpuContextManager
one_task = (register_task manager (pos 0) (unbound 100)).0

unregister_task-register_task_example :
    (unregister_task
      (register_task one_task (pos 0) (unbound 200)).0
      (register_task one_task (pos 0) (unbound 200)).1).2
    ≡ true
unfolding program
unregister_task-register_task_example =
    (unregister_task-register_task one_task (pos 0) 200 (λ e. omega (arith, e)) refl).0

register_task-keeps_example :
    get_or (context_at (register_task one_task (pos 0) (unbound 200)).0 0).task_resources 0 null
    ≡ get_or (context_at one_task 0).task_resources 0 null
unfolding program
register_task-keeps_example =
    register_task-keeps one_task (pos 0) 200 0 0 refl (λ e. omega (arith, e))

shutdown_refused_example : shutdown one_task ≡ one_task
unfolding program
shutdown_refused_example = shutdown_refused one_task 0 0 (λ e. omega (arith, e))
