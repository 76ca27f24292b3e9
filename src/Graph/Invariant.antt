-- ===== src/Graph/Invariant.antt =====
-- Every order of steps keeps the graph sound.
use gpuinfra.Prelude.{ℕ, List, get_or, set}
use gpuinfra.Graph.Workers.{exited}
use gpuinfra.Graph.Steps.{
  System, Step, worked, submitted, opened, shut, cancelled, Reach, here, next, IsSound,
}
use gpuinfra.Graph.Moves.{set-Moves}
use gpuinfra.Graph.Claims.{worker_step-IsSound}
use gpuinfra.Graph.Calls.{
  start_phase-IsSound, release_gate-IsSound, begin_shutdown-IsSound, cancelled-IsSound,
}

-- Each step of a worker and each call of the owner keeps the graph sound.
pub Step-IsSound :
    (tasks : List ℕ) (s t : System)
    → Step s t
    → IsSound tasks s.graph s.workers
    → IsSound tasks t.graph t.workers
Step-IsSound tasks s t (worked i executed g p h e eq) v = rw eq (
    worker_step-IsSound tasks s.graph s.workers v executed g (set s.workers i p)
      (get_or s.workers i exited) p (set-Moves s.workers i p h) e)
Step-IsSound tasks s t (submitted room phase gate eq) v =
    rw eq (start_phase-IsSound tasks s.workers room s.graph phase gate v)
Step-IsSound tasks s t (opened gate eq) v =
    rw eq (release_gate-IsSound tasks s.workers s.graph gate v)
Step-IsSound tasks s t (shut eq) v = rw eq (begin_shutdown-IsSound tasks s.workers s.graph v)
Step-IsSound tasks s t (cancelled eq) v = rw eq (cancelled-IsSound tasks s.workers s.graph v)

pub Reach-IsSound :
    (tasks : List ℕ) (s t : System)
    → Reach s t
    → IsSound tasks s.graph s.workers
    → IsSound tasks t.graph t.workers
Reach-IsSound tasks s _ here v = v
Reach-IsSound tasks s t (next {t = m} r st) v =
    Step-IsSound tasks m t st (Reach-IsSound tasks s m r v)
