-- ===== src/Graph/Progress.antt =====
-- The work that is left in a phase, and that the workers bring it to an end.
use gpuinfra.Prelude.{
  ℕ, ◌+◌, ◌*◌, ◌-◌, ◌<◌, ◌≤◌, ◌≡◌, ◌≢◌, refl, ap, subst, sym, ◌∙◌, inl, inr, Bool, true, false,
  some, List, [], ◌∷◌, arith, length, get_or, set, Bool-cases, List-cases, Option-cases, ◌==◌, max,
}
use gpuinfra.Graph.{DummyGraph}
use gpuinfra.Graph.Frames.{cancel_ready_frames, finish_phase_if_complete, deliver_frame_result}
use gpuinfra.Graph.Workers.{
  Worker, waiting, gated, running, ran, flagged, marked, delivered, exited, claim, finish_frame,
  worker_step,
}
use gpuinfra.Graph.Counting.{total, total-set, total-find, uses, busy, gone}
use gpuinfra.Graph.Cancelled.{cancel_ready_frames-Cancels}
use gpuinfra.Types.{FrameMetadata}
use gpuinfra.StaticData.{StaticData}
use gpuinfra.Graph.Delivery.{started, started-IsSound}
use gpuinfra.Graph.Steps.{System, Reach, IsSound}
use gpuinfra.Graph.Gates.{IsGuarded, AllGuarded-get, Reach-AllGuarded, waiting-AllGuarded}
use gpuinfra.Graph.Claims.{claim-cases}
use gpuinfra.Graph.Invariant.{Reach-IsSound}

-- What a worker has left to do with its frame.
abbrev pub rank : Worker → ℕ
rank waiting = 1
rank (gated atom task gate) = 7
rank (running atom task) = 6
rank (ran atom task ok) = 5
rank (flagged atom task ok) = 4
rank (marked atom task ok) = 3
rank (delivered atom task ok) = 2
rank exited = 0

-- The work left for the frames that are ready and for the workers.
abbrev pub work : DummyGraph → List Worker → ℕ
work g ws = 8 * length g.ready_frames + total rank ws

finish_phase_ready : (g : DummyGraph) → (finish_phase_if_complete g).ready_frames ≡ g.ready_frames
unfolding finish_phase_if_complete
finish_phase_ready g = ground arith

finish_frame_ready :
    (g : DummyGraph) (task : ℕ) (ok : Bool)
    → length (finish_frame g task ok).ready_frames ≤ length g.ready_frames
unfolding finish_frame
finish_frame_ready g task ok =
    let g₁ : DummyGraph = record g {
      free_tasks = task ∷ g.free_tasks;
      in_flight = g.in_flight - 1;
      phase_terminal = g.phase_terminal + 1;
    } in
    let g₂ : DummyGraph = record g₁ { phase_succeeded = false } in
    let c = (cancel_ready_frames-Cancels g₂).ready in
    let a = finish_phase_ready (cancel_ready_frames g₂) in
    let b = finish_phase_ready g₁ in ground (arith, a, b, c)

-- What a step leaves of the work, for the worker and the ready frames.
abbrev pub cost : DummyGraph → Worker → ℕ
cost g p = 8 * length g.ready_frames + rank p

worker_step-cost :
    (executed : Bool) (g g' : DummyGraph) (p p' : Worker)
    → worker_step executed g p ≡ some (g', p')
    → cost g' p' ≤ cost g p
unfolding worker_step deliver_frame_result
worker_step-cost executed g g' waiting p' e = elim (claim-cases g g' p' e) [
  | inl (stop, same, out) ↦ ground (arith, same, out)
  | inr rest ↦ elim rest [
    | inl (done, back) ↦
        let c = (cancel_ready_frames-Cancels g).ready in
        let a = finish_phase_ready (cancel_ready_frames g) in ground (arith, done, back, a, c)
    | inr t ↦
        let q = t.graph in let w = t.worker in let r = ap length t.ready in ground (arith, q, w, r)
  ]
]
worker_step-cost executed g g' (gated atom task gate) p' e = ground (arith, e)
worker_step-cost executed g g' (running atom task) p' e = ground (arith, e)
worker_step-cost executed g g' (ran atom task ok) p' e = ground (arith, e)
worker_step-cost executed g g' (flagged atom task ok) p' e = ground (arith, e)
worker_step-cost executed g g' (marked atom task ok) p' e = ground (arith, e)
worker_step-cost executed g g' (delivered atom task ok) p' e =
    let c = finish_frame_ready g task ok in ground (arith, c, e)
worker_step-cost executed g g' exited p' e = ground (arith, e)

-- A worker whose next step, whatever its task answers, lowers the work.
pub record Advances (g : DummyGraph) (ws : List Worker) (i : ℕ) : Type 0 where
  pub in_range : i < length ws
  pub step :
      (executed : Bool)
      → (g' : DummyGraph) × (p' : Worker) × (worker_step executed g (get_or ws i exited)
          ≡ some (g', p'))
        × (work g' (set ws i p') < work g ws)

pub lowers :
    (g g' : DummyGraph) (ws : List Worker) (i : ℕ) (p' : Worker)
    → i < length ws
    → cost g' p' < cost g (get_or ws i exited)
    → work g' (set ws i p') < work g ws
lowers g g' ws i p' h less = omega (arith, total-set rank ws i p' h, less)

-- The gate at which the worker waits, if it does, is open.
abbrev pub IsOpened : DummyGraph → Worker → Type 0
IsOpened g waiting = Unit
IsOpened g (gated atom task gate) = g.gates gate ≡ true
IsOpened g (running atom task) = Unit
IsOpened g (ran atom task ok) = Unit
IsOpened g (flagged atom task ok) = Unit
IsOpened g (marked atom task ok) = Unit
IsOpened g (delivered atom task ok) = Unit
IsOpened g exited = Unit

-- Where the gate of the phase is open, no worker waits at a gate that is not.
guarded-IsOpened :
    (g : DummyGraph) (p : Worker)
    → ((gate : ℕ) → g.phase_gate ≡ some gate → g.gates gate ≡ true)
    → IsGuarded g p
    → IsOpened g p
guarded-IsOpened g waiting f h = tt
guarded-IsOpened g (gated atom task gate) f h = elim h [ inl (e, s) ↦ f gate e | inr o ↦ o ]
guarded-IsOpened g (running atom task) f h = tt
guarded-IsOpened g (ran atom task ok) f h = tt
guarded-IsOpened g (flagged atom task ok) f h = tt
guarded-IsOpened g (marked atom task ok) f h = tt
guarded-IsOpened g (delivered atom task ok) f h = tt
guarded-IsOpened g exited f h = tt

-- A worker with a frame goes on, once its gate is open.
pub busy-step :
    (executed : Bool) (g : DummyGraph) (p : Worker)
    → busy p ≢ 0
    → IsOpened g p
    → (g' : DummyGraph) × (p' : Worker) × (worker_step executed g p ≡ some (g', p'))
      × (cost g' p' < cost g p)
unfolding worker_step deliver_frame_result
busy-step executed g waiting h open_all = absurd (h refl)
busy-step executed g (gated atom task gate) h open_all =
    (g, running atom task, ground (arith, open_all), omega arith)
busy-step executed g (running atom task) h open_all = (_, _, refl, omega arith)
busy-step executed g (ran atom task ok) h open_all = (_, _, refl, ground arith)
busy-step executed g (flagged atom task ok) h open_all = (_, _, refl, ground arith)
busy-step executed g (marked atom task ok) h open_all = (_, _, refl, omega arith)
busy-step executed g (delivered atom task ok) h open_all =
    (_, _, refl, omega (arith, finish_frame_ready g task ok))
busy-step executed g exited h open_all = absurd (h refl)

-- A worker that waits takes a frame, or cancels those that are ready.
claim_step :
    (g : DummyGraph) (atom task gate : ℕ) (frames tasks : List ℕ)
    → g.stopping ≡ false
    → g.phase_active ≡ true
    → g.ready_frames ≡ atom ∷ frames
    → g.free_tasks ≡ task ∷ tasks
    → g.phase_gate ≡ some gate
    → (g' : DummyGraph) × (p' : Worker) × (claim g ≡ some (g', p')) × (cost g' p' < cost g waiting)
unfolding claim
claim_step g atom task gate frames tasks run on r f n =
    let size = ap length r in
    elim (Bool-cases g.cancellation) [
      | inl c ↦
          let emptied = (cancel_ready_frames-Cancels g).ready in
          let same = finish_phase_ready (cancel_ready_frames g) in
          (
            finish_phase_if_complete (cancel_ready_frames g),
            waiting,
            ground (arith, c, run, on),
            ground (arith, emptied, same, size),
          )
      | inr c ↦ (
        record g {
          ready_frames = frames;
          free_tasks = tasks;
          in_flight = g.in_flight + 1;
          last_max_in_flight = max g.last_max_in_flight (g.in_flight + 1);
        },
        gated atom task gate,
        ground (arith, c, run, on, r, f, n),
        omega (arith, size),
      )
    ]

worker_step-waiting : (executed : Bool) (g : DummyGraph) → worker_step executed g waiting ≡ claim g
unfolding worker_step
worker_step-waiting executed g = refl

uses-le_busy_at : (t : ℕ) (p : Worker) → uses t p ≤ busy p
uses-le_busy_at t p = ground arith

uses-le_busy : (t : ℕ) (ps : List Worker) → total (uses t) ps ≤ total busy ps
uses-le_busy t [] = omega arith
uses-le_busy t (p ∷ ps) = omega (arith, uses-le_busy_at t p, uses-le_busy t ps)

-- A worker that neither has a frame nor has left is waiting.
idle-waiting : (p : Worker) → busy p ≡ 0 → gone p ≡ 0 → p ≡ waiting
idle-waiting waiting b h = refl
idle-waiting (gated atom task gate) b h = ground (arith, b)
idle-waiting (running atom task) b h = ground (arith, b)
idle-waiting (ran atom task ok) b h = ground (arith, b)
idle-waiting (flagged atom task ok) b h = ground (arith, b)
idle-waiting (marked atom task ok) b h = ground (arith, b)
idle-waiting (delivered atom task ok) b h = ground (arith, b)
idle-waiting exited b h = ground (arith, h)

module _ (task : ℕ) (tasks : List ℕ) (g : DummyGraph) (p : Worker) (ws : List Worker)
    (v : IsSound (task ∷ tasks) g (p ∷ ws)) (on : g.phase_active ≡ true) (run : g.stopping ≡ false)
    (open_all : (i : ℕ) → IsOpened g (get_or (p ∷ ws) i exited)) where
  busy-Advances : total busy (p ∷ ws) ≢ 0 → (i : ℕ) × Advances g (p ∷ ws) i
  busy-Advances h =
      let (i, lt, b) = total-find busy (p ∷ ws) h in
      (
        i,
        record {
          in_range = lt;
          step = λ executed.
              let (g', p', e, less) =
                busy-step executed g (get_or (p ∷ ws) i exited) b (open_all i) in
              (g', p', e, lowers g g' (p ∷ ws) i p' lt less);
        },
      )

  waiting-Advances : total busy (p ∷ ws) ≡ 0 → (i : ℕ) × Advances g (p ∷ ws) i
  waiting-Advances idle =
      let flight = v.flight in
      let live = v.live in
      let staying = v.staying run in
      let pool = v.pool task in
      let unused = uses-le_busy task (p ∷ ws) in
      let here : p ≡ waiting = idle-waiting p (omega (arith, idle)) (omega (arith, staying)) in
      elim (List-cases g.ready_frames) [
        | inl r ↦ absurd (ground (arith, r, live, flight, idle, on, run))
        | inr (atom, frames, r) ↦ elim (List-cases g.free_tasks) [
          | inl f ↦ absurd (ground (arith, f, pool, unused, idle))
          | inr (t, ts, f) ↦ elim (Option-cases g.phase_gate) [
            | inl n ↦ absurd (v.gate on n)
            | inr (gate, n) ↦
                let (g', p', e, less) = claim_step g atom t gate frames ts run on r f n in
                (
                  0,
                  record {
                    in_range = omega arith;
                    step = λ executed. (
                      g',
                      p',
                      subst (λ q. worker_step executed g q ≡ some (g', p')) (sym here)
                          (worker_step-waiting executed g ∙ e),
                      lowers g g' (p ∷ ws) 0 p' (omega arith) (rw here less),
                    );
                  },
                )
          ]
        ]
      ]

sound-Advances :
    (task : ℕ) (tasks : List ℕ) (g : DummyGraph) (ws : List Worker)
    → 0 < length ws
    → IsSound (task ∷ tasks) g ws
    → g.phase_active ≡ true
    → g.stopping ≡ false
    → ((i : ℕ) → IsOpened g (get_or ws i exited))
    → (i : ℕ) × Advances g ws i
sound-Advances task tasks g [] h v on run open_all = absurd (omega arith)
sound-Advances task tasks g (p ∷ ws) h v on run open_all =
    elim (Bool-cases (total busy (p ∷ ws) == 0)) [
      | inl idle ↦ waiting-Advances task tasks g p ws v on run open_all (ground (arith, idle))
      | inr held ↦ busy-Advances task tasks g p ws v on run open_all (λ z. ground (arith, held, z))
    ]

-- While a phase is active, its gate is open and no shutdown has begun, some worker has a step that
-- lowers the work.
pub active-Advances :
    (d : StaticData) (metadata : ℕ → FrameMetadata) (warmup_atoms timed_atoms : List ℕ) (task : ℕ)
    (tasks : List ℕ) (n : ℕ) (s : System)
    → Reach (started d metadata warmup_atoms timed_atoms (task ∷ tasks) n) s
    → 0 < length s.workers
    → s.graph.phase_active ≡ true
    → s.graph.stopping ≡ false
    → ((gate : ℕ) → s.graph.phase_gate ≡ some gate → s.graph.gates gate ≡ true)
    → (i : ℕ) × Advances s.graph s.workers i
active-Advances d metadata warmup_atoms timed_atoms task tasks n s r some_worker on run open_gate =
    let s₀ = started d metadata warmup_atoms timed_atoms (task ∷ tasks) n in
    let v₀ = started-IsSound d metadata warmup_atoms timed_atoms (task ∷ tasks) n in
    let all = Reach-AllGuarded (task ∷ tasks) s₀ s r v₀ (waiting-AllGuarded s₀.graph n) in
    sound-Advances task tasks s.graph s.workers some_worker (Reach-IsSound (task ∷ tasks) s₀ s r v₀)
      on run
      (λ i.
        guarded-IsOpened s.graph (get_or s.workers i exited) open_gate
          (AllGuarded-get s.graph s.workers i all))

-- No step of a worker adds work.
pub worker_step-work :
    (executed : Bool) (g g' : DummyGraph) (ws : List Worker) (i : ℕ) (p' : Worker)
    → i < length ws
    → worker_step executed g (get_or ws i exited) ≡ some (g', p')
    → work g' (set ws i p') ≤ work g ws
worker_step-work executed g g' ws i p' h e =
    omega
      (arith, total-set rank ws i p' h, worker_step-cost executed g g' (get_or ws i exited) p' e)
