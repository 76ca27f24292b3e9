-- ===== src/Graph/Claims.antt =====
-- What a claim of a worker does, and that each step of a worker keeps the graph sound.
use gpuinfra.Prelude.{
  ℕ, ◌+◌, ◌≡◌, ◌⊎◌, inl, inr, refl, sym, subst, Bool, true, false, not, ◌&&◌, some, List, ◌∷◌,
  arith, max, Option-cases, Bool-cases, List-cases,
}
use gpuinfra.Graph.{DummyGraph}
use gpuinfra.Graph.Frames.{cancel_ready_frames, finish_phase_if_complete, deliver_frame_result}
use gpuinfra.Graph.Workers.{
  Worker, waiting, gated, running, ran, flagged, marked, delivered, exited, claim, finish_frame,
  worker_step,
}
use gpuinfra.Graph.Steps.{IsSound}
use gpuinfra.Graph.Moves.{
  Moves, cancel_ready-IsCounted, finish_phase-IsSound, Keeps, Keeps-IsSound, deliver-IsSound,
  finish_frame-IsSound, IsSound-IsCounted, leave-IsSound, take-IsSound,
}

-- What `claim` does when it does not wait.
pub record IsTaken (g g' : DummyGraph) (p : Worker) : Type 0 where
  pub active : g.phase_active ≡ true
  pub atom : ℕ
  pub task : ℕ
  pub gate : ℕ
  pub frames : List ℕ
  pub tasks : List ℕ
  pub ready : g.ready_frames ≡ atom ∷ frames
  pub free : g.free_tasks ≡ task ∷ tasks
  pub gate_of : g.phase_gate ≡ some gate
  pub on_going : g.stopping ≡ false
  pub graph : g' ≡ record g {
    ready_frames = frames;
    free_tasks = tasks;
    in_flight = g.in_flight + 1;
    last_max_in_flight = max g.last_max_in_flight (g.in_flight + 1);
  }
  pub worker : p ≡ gated atom task gate

pub claim-cases :
    (g g' : DummyGraph) (p : Worker)
    → claim g ≡ some (g', p)
    → ((g.stopping ≡ true) × (g' ≡ g) × (p ≡ exited))
      ⊎ (((g' ≡ finish_phase_if_complete (cancel_ready_frames g)) × (p ≡ waiting)) ⊎ IsTaken g g' p)
unfolding claim
claim-cases g g' p e = elim (List-cases g.ready_frames) [
  | inl r ↦ ground (arith, e, r)
  | inr (atom, frames, r) ↦ elim (List-cases g.free_tasks) [
    | inl f ↦ ground (arith, e, r, f)
    | inr (task, tasks, f) ↦ elim (Option-cases g.phase_gate) [
      | inl n ↦ ground (arith, e, r, f, n)
      | inr (gate, n) ↦ elim (Bool-cases g.stopping) [
        | inl s ↦ ground (arith, e, s)
        | inr s ↦ elim (Bool-cases g.phase_active) [
          | inr off ↦ ground (arith, e, s, off)
          | inl on ↦ elim (Bool-cases g.cancellation) [
            | inl c ↦ ground (arith, e, s, on, c)
            | inr c ↦ inr (
                inr (record {
                  active = on;
                  atom = atom;
                  task = task;
                  gate = gate;
                  frames = frames;
                  tasks = tasks;
                  ready = r;
                  free = f;
                  gate_of = n;
                  on_going = s;
                  graph = ground (arith, e, r, f, n, s, on, c);
                  worker = ground (arith, e, r, f, n, s, on, c);
                }))
          ]
        ]
      ]
    ]
  ]
]

module _ (tasks : List ℕ) (g : DummyGraph) (ws : List Worker) (v : IsSound tasks g ws) where
  claim-IsSound :
      (g' : DummyGraph) (ws' : List Worker) (p' : Worker)
      → Moves ws ws' waiting p'
      → claim g ≡ some (g', p')
      → IsSound tasks g' ws'
  claim-IsSound g' ws' p' m e = elim (claim-cases g g' p' e) [
    | inl (stop, same, out) ↦
        rw same (leave-IsSound tasks g ws v ws' stop (subst (Moves ws ws' waiting) out m))
    | inr rest ↦ elim rest [
      | inl (done, back) ↦
          let m' = subst (Moves ws ws' waiting) back m in
          let v' = Keeps-IsSound tasks g ws v g ws' waiting waiting refl m' unmoved in
          rw done (
            finish_phase-IsSound tasks ws' _
              (cancel_ready-IsCounted tasks ws' g (IsSound-IsCounted tasks g ws' v')))
      | inr t ↦ rw t.graph (
          take-IsSound tasks g ws v ws' t.atom t.task t.gate _ t.frames t.tasks t.ready t.free
            t.active (subst (Moves ws ws' waiting) t.worker m))
    ]
  ]
    where
      unmoved : Keeps tasks g ws v waiting waiting
      unmoved = record { held = λ f. refl; used = λ t. refl; busied = refl; left = refl }

  pub worker_step-IsSound :
      (executed : Bool) (g' : DummyGraph) (ws' : List Worker) (p p' : Worker)
      → Moves ws ws' p p'
      → worker_step executed g p ≡ some (g', p')
      → IsSound tasks g' ws'
  unfolding worker_step
  worker_step-IsSound executed g' ws' waiting p' m e = claim-IsSound g' ws' p' m e
  worker_step-IsSound executed g' ws' (gated atom task gate) p' m e =
      let to : p' ≡ running atom task = ground (arith, e) in
      Keeps-IsSound tasks g ws v g' ws' (gated atom task gate) p' (ground (arith, e)) m (
        subst (Keeps tasks g ws v (gated atom task gate)) (sym to)
          (record { held = λ f. refl; used = λ t. refl; busied = refl; left = refl }))
  worker_step-IsSound executed g' ws' (running atom task) p' m e =
      let to : p' ≡ ran atom task (not g.cancellation && executed) = ground (arith, e) in
      Keeps-IsSound tasks g ws v g' ws' (running atom task) p' (ground (arith, e)) m (
        subst (Keeps tasks g ws v (running atom task)) (sym to)
          (record { held = λ f. refl; used = λ t. refl; busied = refl; left = refl }))
  worker_step-IsSound executed g' ws' (ran atom task ok) p' m e =
      let to : p' ≡ flagged atom task ok = ground (arith, e) in
      Keeps-IsSound tasks g ws v g' ws' (ran atom task ok) p' (ground (arith, e)) m (
        subst (Keeps tasks g ws v (ran atom task ok)) (sym to)
          (record { held = λ f. refl; used = λ t. refl; busied = refl; left = refl }))
  worker_step-IsSound executed g' ws' (flagged atom task ok) p' m e =
      let to : p' ≡ marked atom task ok = ground (arith, e) in
      Keeps-IsSound tasks g ws v g' ws' (flagged atom task ok) p' (ground (arith, e)) m (
        subst (Keeps tasks g ws v (flagged atom task ok)) (sym to)
          (record { held = λ f. refl; used = λ t. refl; busied = refl; left = refl }))
  worker_step-IsSound executed g' ws' (marked atom task ok) p' m e =
      let to : p' ≡ delivered atom task ok = ground (arith, e) in
      let done : g' ≡ deliver_frame_result g atom = ground (arith, e) in
      rw done (
        deliver-IsSound tasks g ws v ws' atom task ok
          (subst (Moves ws ws' (marked atom task ok)) to m))
  worker_step-IsSound executed g' ws' (delivered atom task ok) p' m e =
      let to : p' ≡ waiting = ground (arith, e) in
      let done : g' ≡ finish_frame g task ok = ground (arith, e) in
      rw done (
        finish_frame-IsSound tasks g ws v ws' atom task ok
          (subst (Moves ws ws' (delivered atom task ok)) to m))
  worker_step-IsSound executed g' ws' exited p' m e = ground (arith, e)
