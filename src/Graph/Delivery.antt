-- ===== src/Graph/Delivery.antt =====
-- The results of the frames: each is delivered once, also when the graph is shut down.
use gpuinfra.Prelude.{
  ℕ, zero, suc, ◌+◌, ◌-◌, ◌≡◌, refl, subst, sym, inl, inr, Bool, true, false, not, ◌||◌, none, some,
  List, [], ◌∷◌, arith, get_or, replicate, Option-cases, if◌then◌else◌,
}
use gpuinfra.Types.{FrameMetadata}
use gpuinfra.StaticData.{StaticData}
use gpuinfra.Graph.{FramePhase, warmup, timed, other, DummyGraph}
use gpuinfra.Graph.Frames.{
  cancel_ready_frames, finish_phase_if_complete, cancel_warmup, cancel_timed,
  cancel_prepared_frames, submit_phase, can_start_phase, start_phase, release_gate,
  release_phase_gate, cancel_phase, begin_shutdown, deliver_frame_result,
}
use gpuinfra.Graph.Workers.{
  Worker, waiting, gated, running, ran, flagged, marked, delivered, exited, finish_frame,
  worker_step,
}
use gpuinfra.Graph.Counting.{total, holds, uses, busy, gone}
use gpuinfra.Graph.Cancelled.{cancel_ready_frames-Cancels, fail_frames-Fails}
use gpuinfra.Graph.Steps.{
  System, Step, worked, submitted, opened, shut, cancelled, Reach, here, next, IsSound,
}
use gpuinfra.Graph.Claims.{claim-cases}
use gpuinfra.Graph.Invariant.{Reach-IsSound}

-- A graph right after `initialize` and `start`, with its workers in their first wait.
abbrev pub started_graph : StaticData → (ℕ → FrameMetadata) → List ℕ → List ℕ → List ℕ → DummyGraph
started_graph d metadata warmup_atoms timed_atoms tasks = record {
  static_data = d;
  warmup_atoms = warmup_atoms;
  timed_atoms = timed_atoms;
  metadata = metadata;
  results = λ a. true;
  gates = λ a. false;
  sink = record { delivered_results = 0; failed_results = 0 };
  deliveries = [];
  cancellation = false;
  ready_frames = [];
  free_tasks = tasks;
  phase_gate = none;
  phase_total = 0;
  phase_terminal = 0;
  in_flight = 0;
  last_max_in_flight = 0;
  warmup_submitted = false;
  timed_submitted = false;
  phase_active = false;
  phase_succeeded = true;
  initialized = true;
  execution_cycle_started = true;
  execution_cycle_stopped = false;
  stopping = false;
}

total-waiting : (w : Worker → ℕ) (n : ℕ) → w waiting ≡ 0 → total w (replicate n waiting) ≡ 0
total-waiting w zero h = refl
total-waiting w (suc n) h = omega (arith, h, total-waiting w n h)

module _ (d : StaticData) (metadata : ℕ → FrameMetadata) (warmup_atoms timed_atoms tasks : List ℕ)
    (n : ℕ) where
  abbrev pub started : System
  started = record {
    graph = started_graph d metadata warmup_atoms timed_atoms tasks;
    workers = replicate n waiting;
  }

  pub started-IsSound : IsSound tasks started.graph started.workers
  started-IsSound = record {
    frames = λ f. omega (arith, total-waiting (holds f) n refl);
    pool = λ t. omega (arith, total-waiting (uses t) n refl);
    flight = omega (arith, total-waiting busy n refl);
    phase = refl;
    quiet = λ h. (refl, refl);
    live = λ h l. ground (arith, h);
    gate = λ h. ground (arith, h);
    sunk = refl;
    staying = λ h. total-waiting gone n refl;
  }

-- After `shutdown` has begun, no frame is left to be taken.
abbrev pub IsClosed : DummyGraph → Type 0
IsClosed g =
    g.stopping ≡ true
    → (g.ready_frames ≡ []) × (g.warmup_submitted ≡ true) × (g.timed_submitted ≡ true)

finish_phase-IsClosed : (g : DummyGraph) → IsClosed g → IsClosed (finish_phase_if_complete g)
unfolding finish_phase_if_complete
finish_phase-IsClosed g c h = ground (arith, c, h)

cancel_ready-IsClosed : (g : DummyGraph) → IsClosed g → IsClosed (cancel_ready_frames g)
cancel_ready-IsClosed g c h =
    let done = cancel_ready_frames-Cancels g in
    let rest = done.rest in let ready = done.ready in ground (arith, c, h, rest, ready)

finish_frame-IsClosed :
    (g : DummyGraph) (task : ℕ) (ok : Bool) → IsClosed g → IsClosed (finish_frame g task ok)
unfolding finish_frame
finish_frame-IsClosed g task ok c =
    let g₁ : DummyGraph = record g {
      free_tasks = task ∷ g.free_tasks;
      in_flight = g.in_flight - 1;
      phase_terminal = g.phase_terminal + 1;
    } in
    elim (not ok || g.cancellation)
      as (λ z. IsClosed (
        finish_phase_if_complete
          (if z then cancel_ready_frames (record g₁ { phase_succeeded = false }) else g₁))) [
            | true ↦
                finish_phase-IsClosed (cancel_ready_frames (record g₁ { phase_succeeded = false }))
                  (cancel_ready-IsClosed (record g₁ { phase_succeeded = false }) c)
            | false ↦ finish_phase-IsClosed g₁ c
          ]

worker_step-IsClosed :
    (executed : Bool) (g g' : DummyGraph) (p p' : Worker)
    → IsClosed g
    → worker_step executed g p ≡ some (g', p')
    → IsClosed g'
unfolding worker_step deliver_frame_result
worker_step-IsClosed executed g g' waiting p' c e h = elim (claim-cases g g' p' e) [
  | inl (stop, same, out) ↦ ground (arith, c, h, same)
  | inr rest ↦ elim rest [
    | inl (done, back) ↦
        subst IsClosed (sym done)
          (finish_phase-IsClosed (cancel_ready_frames g) (cancel_ready-IsClosed g c)) h
    | inr t ↦ let r = t.ready in let q = t.graph in ground (arith, c, h, r, q)
  ]
]
worker_step-IsClosed executed g g' (gated atom task gate) p' c e h = ground (arith, c, e, h)
worker_step-IsClosed executed g g' (running atom task) p' c e h = ground (arith, c, e, h)
worker_step-IsClosed executed g g' (ran atom task ok) p' c e h = ground (arith, c, e, h)
worker_step-IsClosed executed g g' (flagged atom task ok) p' c e h = ground (arith, c, e, h)
worker_step-IsClosed executed g g' (marked atom task ok) p' c e h = ground (arith, c, e, h)
worker_step-IsClosed executed g g' (delivered atom task ok) p' c e h =
    let done : g' ≡ finish_frame g task ok = ground (arith, e) in
    subst IsClosed (sym done) (finish_frame-IsClosed g task ok c) h
worker_step-IsClosed executed g g' exited p' c e h = ground (arith, e)

cancel_warmup_lem :
    (g : DummyGraph)
    → ((cancel_warmup g).ready_frames ≡ g.ready_frames)
      × ((cancel_warmup g).warmup_submitted ≡ true)
      × ((cancel_warmup g).stopping ≡ g.stopping)
unfolding cancel_warmup
cancel_warmup_lem g =
    let done = fail_frames-Fails g.warmup_atoms (record g { warmup_submitted = true }) in
    let rest = done.rest in let ready = done.ready in ground (arith, rest, ready)

cancel_timed_lem :
    (g : DummyGraph)
    → ((cancel_timed g).ready_frames ≡ g.ready_frames)
      × ((cancel_timed g).timed_submitted ≡ true)
      × ((cancel_timed g).warmup_submitted ≡ g.warmup_submitted)
unfolding cancel_timed
cancel_timed_lem g =
    let done = fail_frames-Fails g.timed_atoms (record g { timed_submitted = true }) in
    let rest = done.rest in let ready = done.ready in ground (arith, rest, ready)

begin_shutdown-IsClosed :
    (tasks : List ℕ) (g : DummyGraph) (ws : List Worker)
    → IsSound tasks g ws
    → IsClosed (begin_shutdown g)
unfolding begin_shutdown cancel_prepared_frames cancel_phase release_phase_gate release_gate
begin_shutdown-IsClosed tasks g ws v h =
    let quiet = v.quiet in
    let g₁ : DummyGraph = record g { stopping = true; cancellation = true } in
    let ready = (cancel_ready_frames-Cancels g₁).ready in
    let g₂ : DummyGraph =
      if g.phase_active
      then cancel_phase (record g { stopping = true })
      else record g { stopping = true } in
    let a = cancel_warmup_lem g₂ in
    let b = cancel_timed_lem (cancel_warmup g₂) in
    elim (Option-cases (cancel_ready_frames g₁).phase_gate) [
      | inl e ↦ ground (arith, quiet, ready, a, b, e)
      | inr (gate, e) ↦ ground (arith, quiet, ready, a, b, e)
    ]

-- A phase cannot be started any more.
start_phase-IsClosed :
    (room : ℕ) (g : DummyGraph) (phase : FramePhase) (gate : ℕ)
    → IsClosed g
    → IsClosed (start_phase room g phase gate).0
unfolding start_phase can_start_phase submit_phase
start_phase-IsClosed room g other gate c h = c h
start_phase-IsClosed room g warmup gate c h = ground (arith, c, h)
start_phase-IsClosed room g timed gate c h = ground (arith, c, h)

Step-IsClosed :
    (tasks : List ℕ) (s t : System)
    → Step s t
    → IsSound tasks s.graph s.workers
    → IsClosed s.graph
    → IsClosed t.graph
unfolding release_gate
Step-IsClosed tasks s t (worked i executed g p lt e eq) v c =
    let moved = worker_step-IsClosed executed s.graph g (get_or s.workers i exited) p c e in
    subst (λ x. IsClosed x.graph) (sym eq) moved
Step-IsClosed tasks s t (submitted room phase gate eq) v c =
    subst (λ x. IsClosed x.graph) (sym eq) (start_phase-IsClosed room s.graph phase gate c)
Step-IsClosed tasks s t (opened gate eq) v c = subst (λ x. IsClosed x.graph) (sym eq) c
Step-IsClosed tasks s t (shut eq) v c =
    subst (λ x. IsClosed x.graph) (sym eq) (begin_shutdown-IsClosed tasks s.graph s.workers v)
Step-IsClosed tasks s t (cancelled eq) v c = subst (λ x. IsClosed x.graph) (sym eq) c

pub Reach-IsClosed :
    (tasks : List ℕ) (s t : System)
    → Reach s t
    → IsSound tasks s.graph s.workers
    → IsClosed s.graph
    → IsClosed t.graph
Reach-IsClosed tasks s _ here v c = c
Reach-IsClosed tasks s t (next {t = m} r st) v c =
    Step-IsClosed tasks m t st (Reach-IsSound tasks s m r v) (Reach-IsClosed tasks s m r v c)
