-- ===== src/Graph/Once.antt =====
-- Each frame's result is delivered once, also when the graph is shut down.
use gpuinfra.Prelude.{
  ℕ, zero, suc, ◌+◌, ◌-◌, ◌<◌, ◌≤◌, ◌≡◌, ◌≢◌, refl, ap, subst, sym, ◌∙◌, inl, inr, Bool, true,
  false, some, List, [], ◌∷◌, arith, length, get_or, Option-cases,
}
use gpuinfra.Types.{FrameMetadata}
use gpuinfra.StaticData.{StaticData}
use gpuinfra.Graph.{FramePhase, warmup, timed, other, DummyGraph}
use gpuinfra.Graph.Frames.{
  cancel_ready_frames, finish_phase_if_complete, cancel_warmup, cancel_timed,
  cancel_prepared_frames, submit_phase, start_phase, release_gate, release_phase_gate, cancel_phase,
  begin_shutdown, deliver_frame_result, wait_for_phase,
}
use gpuinfra.Graph.Workers.{
  Worker, waiting, gated, running, ran, flagged, marked, delivered, exited, finish_frame,
  worker_step,
}
use gpuinfra.Graph.Counting.{occ, total, holds, uses, busy}
use gpuinfra.Graph.Cancelled.{cancel_ready_frames-Cancels, fail_frames-Fails}
use gpuinfra.Graph.Steps.{
  System, Step, worked, submitted, opened, shut, cancelled, Reach, here, next, submitted_count,
  IsSound,
}
use gpuinfra.Graph.Claims.{claim-cases}
use gpuinfra.Graph.Invariant.{Reach-IsSound}
use gpuinfra.Graph.Delivery.{started, started-IsSound, Reach-IsClosed}

-- The atoms stay the same, and the graph stays initialized.
abbrev SameSetup : DummyGraph → DummyGraph → Type 0
SameSetup g g' =
    (g'.warmup_atoms ≡ g.warmup_atoms)
    × (g'.timed_atoms ≡ g.timed_atoms)
    × (g'.initialized ≡ g.initialized)

finish_phase-SameSetup :
    (g g' : DummyGraph) → SameSetup g g' → SameSetup g (finish_phase_if_complete g')
unfolding finish_phase_if_complete
finish_phase-SameSetup g g' e = ground (arith, e)

worker_step-SameSetup :
    (executed : Bool) (g g' : DummyGraph) (p p' : Worker)
    → worker_step executed g p ≡ some (g', p')
    → SameSetup g g'
unfolding worker_step deliver_frame_result finish_frame finish_phase_if_complete
worker_step-SameSetup executed g g' waiting p' e = elim (claim-cases g g' p' e) [
  | inl (stop, same, out) ↦ ground (arith, same)
  | inr rest ↦ elim rest [
    | inl (done, back) ↦ let c = (cancel_ready_frames-Cancels g).rest in ground (arith, done, c)
    | inr t ↦ let q = t.graph in ground (arith, q)
  ]
]
worker_step-SameSetup executed g g' (gated atom task gate) p' e = ground (arith, e)
worker_step-SameSetup executed g g' (running atom task) p' e = ground (arith, e)
worker_step-SameSetup executed g g' (ran atom task ok) p' e = ground (arith, e)
worker_step-SameSetup executed g g' (flagged atom task ok) p' e = ground (arith, e)
worker_step-SameSetup executed g g' (marked atom task ok) p' e = ground (arith, e)
worker_step-SameSetup executed g g' (delivered atom task ok) p' e =
    let g₁ : DummyGraph = record g {
      free_tasks = task ∷ g.free_tasks;
      in_flight = g.in_flight - 1;
      phase_terminal = g.phase_terminal + 1;
      phase_succeeded = false;
    } in
    let c = (cancel_ready_frames-Cancels g₁).rest in ground (arith, e, c)
worker_step-SameSetup executed g g' exited p' e = ground (arith, e)

start_phase-SameSetup :
    (room : ℕ) (g : DummyGraph) (phase : FramePhase) (gate : ℕ)
    → SameSetup g (start_phase room g phase gate).0
unfolding start_phase submit_phase
start_phase-SameSetup room g other gate = (refl, refl, refl)
start_phase-SameSetup room g warmup gate = ground arith
start_phase-SameSetup room g timed gate = ground arith

cancel_prepared-SameSetup : (g : DummyGraph) → SameSetup g (cancel_prepared_frames g)
unfolding cancel_prepared_frames cancel_warmup cancel_timed
cancel_prepared-SameSetup g =
    let one = (fail_frames-Fails g.warmup_atoms (record g { warmup_submitted = true })).rest in
    let g₁ = cancel_warmup g in
    let two = (fail_frames-Fails g₁.timed_atoms (record g₁ { timed_submitted = true })).rest in
    ground (arith, one, two)

cancel_phase-SameSetup : (g : DummyGraph) → SameSetup g (cancel_phase g)
unfolding cancel_phase release_phase_gate release_gate
cancel_phase-SameSetup g =
    let c = (cancel_ready_frames-Cancels (record g { cancellation = true })).rest in
    elim (Option-cases (cancel_ready_frames (record g { cancellation = true })).phase_gate) [
      | inl e ↦ ground (arith, c, e)
      | inr (gate, e) ↦ ground (arith, c, e)
    ]

begin_shutdown-SameSetup : (g : DummyGraph) → SameSetup g (begin_shutdown g)
unfolding begin_shutdown
begin_shutdown-SameSetup g =
    let g₁ : DummyGraph = record g { stopping = true } in
    let a = cancel_phase-SameSetup g₁ in
    let b = cancel_prepared-SameSetup (cancel_phase g₁) in
    let c = cancel_prepared-SameSetup g₁ in ground (arith, a, b, c)

Step-SameSetup : (s t : System) → Step s t → SameSetup s.graph t.graph
unfolding release_gate
Step-SameSetup s t (worked i executed g p lt e eq) =
    let moved = worker_step-SameSetup executed s.graph g (get_or s.workers i exited) p e in
    subst (λ x. SameSetup s.graph x.graph) (sym eq) moved
Step-SameSetup s t (submitted room phase gate eq) =
    subst (λ x. SameSetup s.graph x.graph) (sym eq) (start_phase-SameSetup room s.graph phase gate)
Step-SameSetup s t (opened gate eq) =
    subst (λ x. SameSetup s.graph x.graph) (sym eq) (refl, refl, refl)
Step-SameSetup s t (shut eq) =
    subst (λ x. SameSetup s.graph x.graph) (sym eq) (begin_shutdown-SameSetup s.graph)
Step-SameSetup s t (cancelled eq) =
    subst (λ x. SameSetup s.graph x.graph) (sym eq) (refl, refl, refl)

Reach-SameSetup : (s t : System) → Reach s t → SameSetup s.graph t.graph
Reach-SameSetup s _ here = (refl, refl, refl)
Reach-SameSetup s t (next {t = m} r st) =
    let a = Reach-SameSetup s m r in
    let b = Step-SameSetup m t st in (b.0 ∙ a.0, b.1 ∙ a.1, b.2 ∙ a.2)

total-one :
    (w : Worker → ℕ) (ps : List Worker) (i : ℕ)
    → i < length ps
    → w (get_or ps i exited) ≤ total w ps
total-one w [] i h = absurd (omega arith)
total-one w (p ∷ ps) zero h = omega arith
total-one w (p ∷ ps) (suc i) h = omega (arith, total-one w ps i (omega arith))

holds-le_busy_at : (f : ℕ) (p : Worker) → holds f p ≤ busy p
holds-le_busy_at f p = ground arith

holds-le_busy : (f : ℕ) (ps : List Worker) → total (holds f) ps ≤ total busy ps
holds-le_busy f [] = omega arith
holds-le_busy f (p ∷ ps) = omega (arith, holds-le_busy_at f p, holds-le_busy f ps)

-- Two workers count apart.
total-two :
    (w : Worker → ℕ) (ps : List Worker) (i j : ℕ)
    → i ≢ j
    → i < length ps
    → j < length ps
    → w (get_or ps i exited) + w (get_or ps j exited) ≤ total w ps
total-two w [] i j ne hi hj = absurd (omega arith)
total-two w (p ∷ ps) zero zero ne hi hj = absurd (ne refl)
total-two w (p ∷ ps) zero (suc j) ne hi hj = omega (arith, total-one w ps j (omega arith))
total-two w (p ∷ ps) (suc i) zero ne hi hj = omega (arith, total-one w ps i (omega arith))
total-two w (p ∷ ps) (suc i) (suc j) ne hi hj =
    omega (arith, total-two w ps i j (λ e. ne (ap suc e)) (omega arith) (omega arith))

module _ (d : StaticData) (metadata : ℕ → FrameMetadata) (warmup_atoms timed_atoms tasks : List ℕ)
    (n : ℕ) (t : System) (r : Reach (started d metadata warmup_atoms timed_atoms tasks n) t) where
  abbrev s₀ : System
  s₀ = started d metadata warmup_atoms timed_atoms tasks n

  sound : IsSound tasks t.graph t.workers
  sound = Reach-IsSound tasks s₀ t r (started-IsSound d metadata warmup_atoms timed_atoms tasks n)

  -- In every reachable state of a started graph the sink has counted each delivery, and no frame is
  -- delivered more often than it stands among the frames of both phases.
  pub deliveries-le :
      (t.graph.sink.delivered_results ≡ length t.graph.deliveries)
      × ((f : ℕ) → occ f t.graph.deliveries ≤ occ f warmup_atoms + occ f timed_atoms)
  deliveries-le = (
    sound.sunk,
    λ f.
        let a = sound.frames f in let (w, u, k) = Reach-SameSetup s₀ t r in ground (arith, a, w, u),
  )

  -- After the begin of a shutdown, and once no worker has a task, every frame has been delivered.
  pub deliveries-all :
      t.graph.stopping ≡ true
      → total busy t.workers ≡ 0
      → (f : ℕ) → occ f t.graph.deliveries ≡ occ f warmup_atoms + occ f timed_atoms
  deliveries-all stop idle f =
      let a = sound.frames f in
      let (w, u, k) = Reach-SameSetup s₀ t r in
      let c =
        Reach-IsClosed tasks s₀ t r (started-IsSound d metadata warmup_atoms timed_atoms tasks n)
          (λ h. ground (arith, h)) stop in
      let none_held = holds-le_busy f t.workers in ground (arith, a, w, u, c, none_held, idle)

  -- In every reachable state of a started graph two different workers do not have the same task, if
  -- it stands once at most among the tasks.
  pub tasks_apart :
      (task i j : ℕ)
      → occ task tasks ≤ 1
      → i ≢ j
      → i < length t.workers
      → j < length t.workers
      → uses task (get_or t.workers i exited) + uses task (get_or t.workers j exited) ≤ 1
  tasks_apart task i j one ne hi hj =
      omega (arith, sound.pool task, total-two (uses task) t.workers i j ne hi hj)

  -- When waitForPhase returns in a reachable state of a started graph, no worker has a task, and
  -- every frame is delivered as often as it stands among the frames of the submitted phases.
  pub wait_for_phase-deliveries :
      (ok : Bool)
      → wait_for_phase t.graph ≡ some ok
      → (total busy t.workers ≡ 0)
        × ((f : ℕ) → occ f t.graph.deliveries ≡ submitted_count f t.graph)
  unfolding wait_for_phase
  wait_for_phase-deliveries ok e =
      let (w, u, k) = Reach-SameSetup s₀ t r in
      let off : t.graph.phase_active ≡ false = ground (arith, e, k) in
      let (still, empty) = sound.quiet off in
      let flight = sound.flight in
      (
        omega (arith, flight, still),
        λ f.
            let a = sound.frames f in
            let none_held = holds-le_busy f t.workers in
            ground (arith, a, flight, still, empty, none_held),
      )
