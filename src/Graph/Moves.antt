-- ===== src/Graph/Moves.antt =====
-- A step of one worker keeps the graph sound.
use gpuinfra.Prelude.{
  ℕ, ◌+◌, ◌-◌, ◌<◌, ◌≡◌, ◌≢◌, ap, Bool, true, false, none, List, [], ◌∷◌, arith, length, get_or,
  set, if◌then◌else◌, not, ◌||◌,
}
use gpuinfra.Graph.{DummyGraph}
use gpuinfra.Graph.Frames.{
  deliver, deliver_frame_result, cancel_ready_frames, finish_phase_if_complete,
}
use gpuinfra.Graph.Workers.{Worker, waiting, gated, marked, delivered, exited, finish_frame}
use gpuinfra.Graph.Counting.{occ, total, total-set, holds, uses, busy, gone}
use gpuinfra.Graph.Cancelled.{cancel_ready_frames-Cancels}
use gpuinfra.Graph.Steps.{submitted_count, IsSound}

-- A worker that goes from `p` to `p'`.
pub record Moves (ws ws' : List Worker) (p p' : Worker) : Type 0 where
  pub held : (f : ℕ) → total (holds f) ws' + holds f p ≡ total (holds f) ws + holds f p'
  pub used : (t : ℕ) → total (uses t) ws' + uses t p ≡ total (uses t) ws + uses t p'
  pub busied : total busy ws' + busy p ≡ total busy ws + busy p'
  pub left : total gone ws' + gone p ≡ total gone ws + gone p'

pub set-Moves :
    (ws : List Worker) (i : ℕ) (p' : Worker)
    → i < length ws
    → Moves ws (set ws i p') (get_or ws i exited) p'
set-Moves ws i p' h = record {
  held = λ f. total-set (holds f) ws i p' h;
  used = λ t. total-set (uses t) ws i p' h;
  busied = total-set busy ws i p' h;
  left = total-set gone ws i p' h;
}

-- A phase is ended, or goes on, once there is no more work for it.
module _ (tasks : List ℕ) (ws : List Worker) where
  -- Soundness but for the field `live`.
  pub record IsCounted (g : DummyGraph) : Type 0 where
    pub frames :
        (f : ℕ)
        → occ f g.deliveries + occ f g.ready_frames + total (holds f) ws ≡ submitted_count f g
    pub pool : (t : ℕ) → occ t g.free_tasks + total (uses t) ws ≡ occ t tasks
    pub flight : g.in_flight ≡ total busy ws
    pub phase : g.phase_terminal + g.in_flight + length g.ready_frames ≡ g.phase_total
    pub quiet : g.phase_active ≡ false → (g.in_flight ≡ 0) × (g.ready_frames ≡ [])
    pub gate : g.phase_active ≡ true → g.phase_gate ≢ none
    pub sunk : g.sink.delivered_results ≡ length g.deliveries
    pub staying : g.stopping ≡ false → total gone ws ≡ 0

  pub cancel_ready-IsCounted : (g : DummyGraph) → IsCounted g → IsCounted (cancel_ready_frames g)
  cancel_ready-IsCounted g c =
      let done = cancel_ready_frames-Cancels g in
      let rest = done.rest in
      let ready = done.ready in
      let terminal = done.terminal in
      record {
        frames =
            λ f. let a = c.frames f in let b = done.each f in ground (arith, a, b, rest, ready);
        pool = λ t. let a = c.pool t in ground (arith, a, rest);
        flight = let a = c.flight in ground (arith, a, rest);
        phase = let a = c.phase in ground (arith, a, rest, ready, terminal);
        quiet = λ h. let a = c.quiet in ground (arith, a, rest, ready, h);
        gate = λ h. let a = c.gate in ground (arith, a, rest, h);
        sunk = let a = c.sunk in let b = done.sunk in omega (arith, a, b);
        staying = λ h. let a = c.staying in ground (arith, a, rest, h);
      }

  pub finish_phase-IsSound :
      (g : DummyGraph) → IsCounted g → IsSound tasks (finish_phase_if_complete g) ws
  unfolding finish_phase_if_complete
  finish_phase-IsSound g c =
      let flight = c.flight in
      let phase = c.phase in
      let quiet = c.quiet in
      let gate = c.gate in
      let sunk = c.sunk in
      let staying = c.staying in
      record {
        frames = λ f. let fr = c.frames f in ground (arith, fr);
        pool = λ t. let po = c.pool t in ground (arith, po);
        flight = ground (arith, flight);
        phase = ground (arith, phase);
        quiet = λ h. ground (arith, quiet, h);
        live = λ h k. ground (arith, phase, h, k);
        gate = λ h. ground (arith, gate, h);
        sunk = ground (arith, sunk);
        staying = λ h. ground (arith, staying, h);
      }

-- The members that soundness does not speak of.
abbrev pub outline : DummyGraph → DummyGraph
outline g = record g { results = λ a. true; cancellation = false }

module _ (tasks : List ℕ) (g : DummyGraph) (ws : List Worker) (v : IsSound tasks g ws) where
  -- A worker goes on with what it has.
  pub record Keeps (p p' : Worker) : Type 0 where
    pub held : (f : ℕ) → holds f p' ≡ holds f p
    pub used : (t : ℕ) → uses t p' ≡ uses t p
    pub busied : busy p' ≡ busy p
    pub left : gone p' ≡ gone p

  pub Keeps-IsSound :
      (g' : DummyGraph) (ws' : List Worker) (p p' : Worker)
      → outline g' ≡ outline g
      → Moves ws ws' p p'
      → Keeps p p'
      → IsSound tasks g' ws'
  Keeps-IsSound g' ws' p p' e m k = record {
    frames = λ f.
        let a = v.frames f in let b = m.held f in let d = k.held f in ground (arith, e, a, b, d);
    pool =
        λ t. let a = v.pool t in let b = m.used t in let d = k.used t in ground (arith, e, a, b, d);
    flight = let a = v.flight in let b = m.busied in let d = k.busied in ground (arith, e, a, b, d);
    phase = let a = v.phase in ground (arith, e, a);
    quiet = λ h. let a = v.quiet in ground (arith, e, a, h);
    live = λ h l. let a = v.live in ground (arith, e, a, h, l);
    gate = λ h. let a = v.gate in ground (arith, e, a, h);
    sunk = let a = v.sunk in ground (arith, e, a);
    staying =
        λ h. let a = v.staying in let b = m.left in let d = k.left in ground (arith, e, a, b, d, h);
  }

  pub deliver-IsSound :
      (ws' : List Worker) (atom task : ℕ) (ok : Bool)
      → Moves ws ws' (marked atom task ok) (delivered atom task ok)
      → IsSound tasks (deliver_frame_result g atom) ws'
  unfolding deliver_frame_result deliver
  deliver-IsSound ws' atom task ok m = record {
    frames = λ f. let a = v.frames f in let b = m.held f in omega (arith, a, b);
    pool = λ t. let a = v.pool t in let b = m.used t in omega (arith, a, b);
    flight = let a = v.flight in let b = m.busied in omega (arith, a, b);
    phase = v.phase;
    quiet = v.quiet;
    live = v.live;
    gate = v.gate;
    sunk = let a = v.sunk in omega (arith, a);
    staying = λ h. let a = v.staying h in let b = m.left in omega (arith, a, b);
  }

  pub finish_frame-IsSound :
      (ws' : List Worker) (atom task : ℕ) (ok : Bool)
      → Moves ws ws' (delivered atom task ok) waiting
      → IsSound tasks (finish_frame g task ok) ws'
  unfolding finish_frame
  finish_frame-IsSound ws' atom task ok m =
      let g₁ : DummyGraph = record g {
        free_tasks = task ∷ g.free_tasks;
        in_flight = g.in_flight - 1;
        phase_terminal = g.phase_terminal + 1;
      } in
      let flight = v.flight in
      let busied = m.busied in
      let phase = v.phase in
      let quiet = v.quiet in
      let counted₁ : IsCounted tasks ws' g₁ = record {
        frames = λ f. let a = v.frames f in let b = m.held f in omega (arith, a, b);
        pool = λ t. let a = v.pool t in let b = m.used t in omega (arith, a, b);
        flight = omega (arith, flight, busied);
        phase = omega (arith, flight, busied, phase);
        quiet = λ h. ground (arith, quiet, h, flight, busied);
        gate = v.gate;
        sunk = v.sunk;
        staying = λ h. let a = v.staying h in let b = m.left in omega (arith, a, b);
      } in
      let counted₂ : IsCounted tasks ws' (record g₁ { phase_succeeded = false }) = record {
        frames = counted₁.frames;
        pool = counted₁.pool;
        flight = counted₁.flight;
        phase = counted₁.phase;
        quiet = counted₁.quiet;
        gate = counted₁.gate;
        sunk = counted₁.sunk;
        staying = counted₁.staying;
      } in
      elim (not ok || g.cancellation)
        as (λ z.
          IsSound tasks
            (finish_phase_if_complete
              (if z then cancel_ready_frames (record g₁ { phase_succeeded = false }) else g₁))
            ws') [
              | true ↦ finish_phase-IsSound tasks ws' _ (
                  cancel_ready-IsCounted tasks ws' (record g₁ { phase_succeeded = false }) counted₂)
              | false ↦ finish_phase-IsSound tasks ws' g₁ counted₁
            ]

  pub IsSound-IsCounted : IsCounted tasks ws g
  IsSound-IsCounted = record {
    frames = v.frames;
    pool = v.pool;
    flight = v.flight;
    phase = v.phase;
    quiet = v.quiet;
    gate = v.gate;
    sunk = v.sunk;
    staying = v.staying;
  }

  -- A worker leaves while the graph is being shut down.
  pub leave-IsSound :
      (ws' : List Worker) → g.stopping ≡ true → Moves ws ws' waiting exited → IsSound tasks g ws'
  leave-IsSound ws' stop m = record {
    frames = λ f. let a = v.frames f in let b = m.held f in omega (arith, a, b);
    pool = λ t. let a = v.pool t in let b = m.used t in omega (arith, a, b);
    flight = let a = v.flight in let b = m.busied in omega (arith, a, b);
    phase = v.phase;
    quiet = v.quiet;
    live = v.live;
    gate = v.gate;
    sunk = v.sunk;
    staying = λ h. ground (arith, h, stop);
  }

  -- A worker takes the first frame and a free task.
  pub take-IsSound :
      (ws' : List Worker) (atom task gate most : ℕ) (frames tasks' : List ℕ)
      → g.ready_frames ≡ atom ∷ frames
      → g.free_tasks ≡ task ∷ tasks'
      → g.phase_active ≡ true
      → Moves ws ws' waiting (gated atom task gate)
      → IsSound tasks
          (record g {
            ready_frames = frames;
            free_tasks = tasks';
            in_flight = g.in_flight + 1;
            last_max_in_flight = most;
          })
          ws'
  take-IsSound ws' atom task gate most frames tasks' r q on m = record {
    frames = λ f.
        let a = v.frames f in let b = m.held f in let d = ap (occ f) r in omega (arith, a, b, d);
    pool =
        λ t. let a = v.pool t in let b = m.used t in let d = ap (occ t) q in omega (arith, a, b, d);
    flight = let a = v.flight in let b = m.busied in omega (arith, a, b);
    phase = let a = v.phase in let d = ap length r in omega (arith, a, d);
    quiet = λ h. ground (arith, h, on);
    live = λ h l. omega arith;
    gate = v.gate;
    sunk = v.sunk;
    staying = λ h. let a = v.staying h in let b = m.left in omega (arith, a, b);
  }
