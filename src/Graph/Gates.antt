-- ===== src/Graph/Gates.antt =====
-- The gates: a worker waits only at the gate of the active phase or at an open one, and once
-- `shutdown` has begun only at an open one.
use gpuinfra.Prelude.{
  ℕ, zero, suc, ◌+◌, ◌-◌, ◌≡◌, ◌⊎◌, subst, sym, ◌∙◌, inl, inr, Bool, true, false, not, ◌&&◌, some,
  List, [], ◌∷◌, arith, get_or, set, replicate, Bool-cases, Option-cases, ◌==◌,
}
use gpuinfra.Graph.{FramePhase, warmup, timed, other, DummyGraph}
use gpuinfra.Graph.Frames.{
  cancel_ready_frames, finish_phase_if_complete, cancel_warmup, cancel_timed,
  cancel_prepared_frames, submit_phase, start_phase, release_gate, release_phase_gate, cancel_phase,
  begin_shutdown, deliver_frame_result,
}
use gpuinfra.Graph.Workers.{
  Worker, waiting, gated, running, ran, flagged, marked, delivered, exited, finish_frame,
  worker_step,
}
use gpuinfra.Graph.Counting.{total, busy}
use gpuinfra.Graph.Cancelled.{cancel_ready_frames-Cancels, fail_frames-Fails}
use gpuinfra.Graph.Steps.{
  System, Step, worked, submitted, opened, shut, cancelled, Reach, here, next, IsSound,
}
use gpuinfra.Graph.Claims.{claim-cases}
use gpuinfra.Graph.Invariant.{Step-IsSound, Reach-IsSound}

-- The gate of the phase while no shutdown has begun, or an open gate.
abbrev IsSafe : DummyGraph → ℕ → Type 0
IsSafe g gate = ((g.phase_gate ≡ some gate) × (g.stopping ≡ false)) ⊎ (g.gates gate ≡ true)

abbrev pub IsGuarded : DummyGraph → Worker → Type 0
IsGuarded g waiting = Unit
IsGuarded g (gated atom task gate) = IsSafe g gate
IsGuarded g (running atom task) = Unit
IsGuarded g (ran atom task ok) = Unit
IsGuarded g (flagged atom task ok) = Unit
IsGuarded g (marked atom task ok) = Unit
IsGuarded g (delivered atom task ok) = Unit
IsGuarded g exited = Unit

abbrev pub AllGuarded : DummyGraph → List Worker → Type 0
AllGuarded g [] = Unit
AllGuarded g (p ∷ ps) = IsGuarded g p × AllGuarded g ps

pub AllGuarded-get :
    (g : DummyGraph) (ps : List Worker) (i : ℕ) → AllGuarded g ps → IsGuarded g (get_or ps i exited)
AllGuarded-get g [] i h = tt
AllGuarded-get g (p ∷ ps) zero (h, hs) = h
AllGuarded-get g (p ∷ ps) (suc i) (h, hs) = AllGuarded-get g ps i hs

AllGuarded-set :
    (g : DummyGraph) (ps : List Worker) (i : ℕ) (p : Worker)
    → AllGuarded g ps
    → IsGuarded g p
    → AllGuarded g (set ps i p)
AllGuarded-set g [] i p hs h = tt
AllGuarded-set g (q ∷ ps) zero p (k, hs) h = (h, hs)
AllGuarded-set g (q ∷ ps) (suc i) p (k, hs) h = (k, AllGuarded-set g ps i p hs h)

IsGuarded-map :
    (g g' : DummyGraph) (p : Worker)
    → ((gate : ℕ) → IsSafe g gate → IsSafe g' gate)
    → IsGuarded g p
    → IsGuarded g' p
IsGuarded-map g g' waiting f h = tt
IsGuarded-map g g' (gated atom task gate) f h = f gate h
IsGuarded-map g g' (running atom task) f h = tt
IsGuarded-map g g' (ran atom task ok) f h = tt
IsGuarded-map g g' (flagged atom task ok) f h = tt
IsGuarded-map g g' (marked atom task ok) f h = tt
IsGuarded-map g g' (delivered atom task ok) f h = tt
IsGuarded-map g g' exited f h = tt

AllGuarded-map :
    (g g' : DummyGraph) (ps : List Worker)
    → ((gate : ℕ) → IsSafe g gate → IsSafe g' gate)
    → AllGuarded g ps
    → AllGuarded g' ps
AllGuarded-map g g' [] f h = tt
AllGuarded-map g g' (p ∷ ps) f (h, hs) = (IsGuarded-map g g' p f h, AllGuarded-map g g' ps f hs)

idle-IsGuarded : (g : DummyGraph) (p : Worker) → busy p ≡ 0 → IsGuarded g p
idle-IsGuarded g waiting h = tt
idle-IsGuarded g (gated atom task gate) h = ground (arith, h)
idle-IsGuarded g (running atom task) h = tt
idle-IsGuarded g (ran atom task ok) h = tt
idle-IsGuarded g (flagged atom task ok) h = tt
idle-IsGuarded g (marked atom task ok) h = tt
idle-IsGuarded g (delivered atom task ok) h = tt
idle-IsGuarded g exited h = tt

idle-AllGuarded : (g : DummyGraph) (ps : List Worker) → total busy ps ≡ 0 → AllGuarded g ps
idle-AllGuarded g [] h = tt
idle-AllGuarded g (p ∷ ps) h =
    (idle-IsGuarded g p (omega (arith, h)), idle-AllGuarded g ps (omega (arith, h)))

finish_phase-gate :
    (g g' : DummyGraph)
    → g' ≡ finish_phase_if_complete (cancel_ready_frames g)
    → ((gate : ℕ) → IsSafe g gate → IsSafe g' gate) ⊎ (g'.in_flight ≡ 0)
unfolding finish_phase_if_complete
finish_phase-gate g g' done =
    let c = (cancel_ready_frames-Cancels g).rest in
    elim (Bool-cases (g.in_flight == 0)) [
      | inl z ↦ inr (ground (arith, done, c, z))
      | inr z ↦ inl (λ gate h. ground (arith, done, c, z, h))
    ]

finish_frame-gate :
    (g : DummyGraph) (task : ℕ) (ok : Bool)
    → ((gate : ℕ) → IsSafe g gate → IsSafe (finish_frame g task ok) gate)
      ⊎ ((finish_frame g task ok).in_flight ≡ 0)
unfolding finish_frame finish_phase_if_complete
finish_frame-gate g task ok =
    let g₁ : DummyGraph = record g {
      free_tasks = task ∷ g.free_tasks;
      in_flight = g.in_flight - 1;
      phase_terminal = g.phase_terminal + 1;
      phase_succeeded = false;
    } in
    let c = (cancel_ready_frames-Cancels g₁).rest in
    elim (Bool-cases (g.in_flight - 1 == 0)) [
      | inl z ↦ inr (ground (arith, c, z))
      | inr z ↦ inl (λ gate h. ground (arith, c, z, h))
    ]

-- After a step of a worker no frame is in flight, or what was safe still is and the worker's gate is.
worker_step-gate :
    (executed : Bool) (g g' : DummyGraph) (p p' : Worker)
    → worker_step executed g p ≡ some (g', p')
    → (((gate : ℕ) → IsSafe g gate → IsSafe g' gate) × IsGuarded g' p') ⊎ (g'.in_flight ≡ 0)
unfolding worker_step deliver_frame_result
worker_step-gate executed g g' waiting p' e = elim (claim-cases g g' p' e) [
  | inl (stop, same, out) ↦
      inl (λ gate h. ground (arith, same, h), subst (IsGuarded g') (sym out) tt)
  | inr rest ↦ elim rest [
    | inl (done, back) ↦ elim (finish_phase-gate g g' done) [
      | inl f ↦ inl (f, subst (IsGuarded g') (sym back) tt)
      | inr z ↦ inr z
    ]
    | inr t ↦
        let q = t.graph in
        let n = t.gate_of in
        let s = t.on_going in
        inl (
          λ gate h. ground (arith, q, h),
          subst (IsGuarded g') (sym t.worker) (inl (ground (arith, q, n), ground (arith, q, s))),
        )
  ]
]
worker_step-gate executed g g' (gated atom task gate) p' e =
    let to : p' ≡ running atom task = ground (arith, e) in
    inl (λ x h. ground (arith, e, h), subst (IsGuarded g') (sym to) tt)
worker_step-gate executed g g' (running atom task) p' e =
    let to : p' ≡ ran atom task (not g.cancellation && executed) = ground (arith, e) in
    inl (λ x h. ground (arith, e, h), subst (IsGuarded g') (sym to) tt)
worker_step-gate executed g g' (ran atom task ok) p' e =
    let to : p' ≡ flagged atom task ok = ground (arith, e) in
    inl (λ x h. ground (arith, e, h), subst (IsGuarded g') (sym to) tt)
worker_step-gate executed g g' (flagged atom task ok) p' e =
    let to : p' ≡ marked atom task ok = ground (arith, e) in
    inl (λ x h. ground (arith, e, h), subst (IsGuarded g') (sym to) tt)
worker_step-gate executed g g' (marked atom task ok) p' e =
    let to : p' ≡ delivered atom task ok = ground (arith, e) in
    inl (λ x h. ground (arith, e, h), subst (IsGuarded g') (sym to) tt)
worker_step-gate executed g g' (delivered atom task ok) p' e =
    let to : p' ≡ waiting = ground (arith, e) in
    let done : g' ≡ finish_frame g task ok = ground (arith, e) in
    elim (finish_frame-gate g task ok) [
      | inl f ↦
          inl (λ x h. subst (λ y. IsSafe y x) (sym done) (f x h), subst (IsGuarded g') (sym to) tt)
      | inr z ↦ inr (ground (arith, done, z))
    ]
worker_step-gate executed g g' exited p' e = ground (arith, e)

start_phase-gate :
    (room : ℕ) (g : DummyGraph) (phase : FramePhase) (gate : ℕ)
    → ((x : ℕ) → IsSafe g x → IsSafe (start_phase room g phase gate).0 x)
      ⊎ ((start_phase room g phase gate).0.in_flight ≡ 0)
unfolding start_phase submit_phase
start_phase-gate room g other gate = inl (λ x h. h)
start_phase-gate room g warmup gate = elim (Bool-cases ((start_phase room g warmup gate).1)) [
  | inl went ↦ inr (ground (arith, went))
  | inr not_gone ↦ inl (λ x h. ground (arith, not_gone, h))
]
start_phase-gate room g timed gate = elim (Bool-cases ((start_phase room g timed gate).1)) [
  | inl went ↦ inr (ground (arith, went))
  | inr not_gone ↦ inl (λ x h. ground (arith, not_gone, h))
]

-- The failure of the frames of the phases that never start leaves the gates and the counts alone.
cancel_prepared-gate :
    (g : DummyGraph)
    → ((cancel_prepared_frames g).gates ≡ g.gates)
      × ((cancel_prepared_frames g).in_flight ≡ g.in_flight)
unfolding cancel_prepared_frames cancel_warmup cancel_timed
cancel_prepared-gate g =
    let one = (fail_frames-Fails g.warmup_atoms (record g { warmup_submitted = true })).rest in
    let g₁ = cancel_warmup g in
    let two = (fail_frames-Fails g₁.timed_atoms (record g₁ { timed_submitted = true })).rest in
    (ground (arith, one, two), ground (arith, one, two))

cancel_phase-gate :
    (g : DummyGraph) (gate : ℕ)
    → (g.phase_gate ≡ some gate) ⊎ (g.gates gate ≡ true)
    → (cancel_phase g).gates gate ≡ true
unfolding cancel_phase release_phase_gate release_gate
cancel_phase-gate g gate h =
    let c = (cancel_ready_frames-Cancels (record g { cancellation = true })).rest in
    elim (Option-cases (cancel_ready_frames (record g { cancellation = true })).phase_gate) [
      | inl e ↦ ground (arith, c, e, h)
      | inr (gate', e) ↦ ground (arith, c, e, h)
    ]

begin_shutdown-gate :
    (tasks : List ℕ) (g : DummyGraph) (ws : List Worker)
    → IsSound tasks g ws
    → ((x : ℕ) → IsSafe g x → IsSafe (begin_shutdown g) x) ⊎ ((begin_shutdown g).in_flight ≡ 0)
unfolding begin_shutdown
begin_shutdown-gate tasks g ws v =
    let g₁ : DummyGraph = record g { stopping = true } in
    elim (Bool-cases g.phase_active) [
      | inl on ↦
          let kept = (cancel_prepared-gate (cancel_phase g₁)).0 in
          inl (λ x h.
            let o : (cancel_phase g₁).gates x ≡ true =
              cancel_phase-gate g₁ x (elim h [ inl (e, s) ↦ inl e | inr e ↦ inr e ]) in
            inr (ground (arith, on, kept, o)))
      | inr off ↦
          let idle = (v.quiet off).0 in
          let kept = (cancel_prepared-gate g₁).1 in inr (ground (arith, off, idle, kept))
    ]

-- One step keeps the workers at safe gates.
Step-AllGuarded :
    (tasks : List ℕ) (s t : System)
    → Step s t
    → IsSound tasks s.graph s.workers
    → AllGuarded s.graph s.workers
    → AllGuarded t.graph t.workers
unfolding release_gate
Step-AllGuarded tasks s t (worked i executed g p lt e eq) v a =
    let v' = Step-IsSound tasks s t (worked i executed g p lt e eq) v in
    elim (worker_step-gate executed s.graph g (get_or s.workers i exited) p e) [
      | inl (f, h) ↦
          subst (λ x. AllGuarded x.graph x.workers) (sym eq)
            (AllGuarded-set g s.workers i p (AllGuarded-map s.graph g s.workers f a) h)
      | inr z ↦ idle-AllGuarded t.graph t.workers (sym v'.flight ∙ ground (arith, eq, z))
    ]
Step-AllGuarded tasks s t (submitted room phase gate eq) v a =
    let v' = Step-IsSound tasks s t (submitted room phase gate eq) v in
    elim (start_phase-gate room s.graph phase gate) [
      | inl f ↦
          subst (λ x. AllGuarded x.graph x.workers) (sym eq)
            (AllGuarded-map s.graph (start_phase room s.graph phase gate).0 s.workers f a)
      | inr z ↦ idle-AllGuarded t.graph t.workers (sym v'.flight ∙ ground (arith, eq, z))
    ]
Step-AllGuarded tasks s t (opened gate eq) v a =
    subst (λ x. AllGuarded x.graph x.workers) (sym eq)
      (AllGuarded-map s.graph (release_gate s.graph gate) s.workers (λ x h. ground (arith, h)) a)
Step-AllGuarded tasks s t (shut eq) v a =
    let v' = Step-IsSound tasks s t (shut eq) v in
    elim (begin_shutdown-gate tasks s.graph s.workers v) [
      | inl f ↦
          subst (λ x. AllGuarded x.graph x.workers) (sym eq)
            (AllGuarded-map s.graph (begin_shutdown s.graph) s.workers f a)
      | inr z ↦ idle-AllGuarded t.graph t.workers (sym v'.flight ∙ ground (arith, eq, z))
    ]
Step-AllGuarded tasks s t (cancelled eq) v a =
    subst (λ x. AllGuarded x.graph x.workers) (sym eq)
      (AllGuarded-map s.graph (record (s.graph) { cancellation = true }) s.workers (λ x h. h) a)

pub Reach-AllGuarded :
    (tasks : List ℕ) (s t : System)
    → Reach s t
    → IsSound tasks s.graph s.workers
    → AllGuarded s.graph s.workers
    → AllGuarded t.graph t.workers
Reach-AllGuarded tasks s _ here v a = a
Reach-AllGuarded tasks s t (next {t = m} r st) v a =
    Step-AllGuarded tasks m t st (Reach-IsSound tasks s m r v) (Reach-AllGuarded tasks s m r v a)

pub waiting-AllGuarded : (g : DummyGraph) (n : ℕ) → AllGuarded g (replicate n waiting)
waiting-AllGuarded g zero = tt
waiting-AllGuarded g (suc n) = (tt, waiting-AllGuarded g n)
