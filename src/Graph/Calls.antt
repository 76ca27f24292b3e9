-- ===== src/Graph/Calls.antt =====
-- The calls of the owner keep the graph sound.
use gpuinfra.Prelude.{
  ℕ, ◌+◌, ◌≡◌, ◌⊎◌, inl, inr, refl, Bool, true, false, List, arith, Option-cases, Bool-cases,
  List-cases,
}
use gpuinfra.Graph.{FramePhase, warmup, timed, other, DummyGraph}
use gpuinfra.Graph.Frames.{
  cancel_ready_frames, fail_frames, cancel_prepared_frames, cancel_warmup, cancel_timed,
  release_phase_gate, submit_phase, Collected, collected, refused, thrown, collect_frames,
  can_start_phase, start_phase, release_gate, cancel_phase, begin_shutdown,
}
use gpuinfra.Graph.Workers.{Worker}
use gpuinfra.Graph.Counting.{occ}
use gpuinfra.Graph.Cancelled.{rest_of, cancel_ready_frames-Cancels, fail_frames-Fails}
use gpuinfra.Graph.Steps.{submitted_count, IsSound}
use gpuinfra.Graph.Moves.{cancel_ready-IsCounted, IsSound-IsCounted}

can_start_phase_lem :
    (g : DummyGraph) (done : Bool)
    → can_start_phase g done ≡ true
    → (g.phase_active ≡ false) × (done ≡ false)
unfolding can_start_phase
can_start_phase_lem g done can = ground (arith, can)

Collected-cases : (c : Collected) → (c ≡ collected) ⊎ ((c ≡ refused) ⊎ (c ≡ thrown))
Collected-cases collected = inl refl
Collected-cases refused = inr (inl refl)
Collected-cases thrown = inr (inr refl)

-- The owner's calls.
module _ (tasks : List ℕ) (ws : List Worker) where
  submit-IsSound :
      (g : DummyGraph) (atoms : List ℕ) (gate : ℕ)
      → IsSound tasks g ws
      → g.phase_active ≡ false
      → (g₁ : DummyGraph) → ((f : ℕ) → submitted_count f g₁ ≡ submitted_count f g + occ f atoms)
      → rest_of (record g₁ { warmup_submitted = true; timed_submitted = true })
        ≡ rest_of (record g { warmup_submitted = true; timed_submitted = true })
      → g₁.deliveries ≡ g.deliveries
      → g₁.sink ≡ g.sink
      → IsSound tasks (submit_phase g₁ atoms gate) ws
  unfolding submit_phase
  submit-IsSound g atoms gate v off g₁ count same log sink =
      let (idle, empty) = v.quiet off in
      let flight = v.flight in
      record {
        frames = λ f. let a = v.frames f in let b = count f in ground (arith, a, b, log, empty);
        pool = λ t. let a = v.pool t in ground (arith, a, same);
        flight = omega (arith, idle, flight);
        phase = omega arith;
        quiet = λ h. elim (List-cases atoms) [
          | inl e ↦ (refl, e)
          | inr (x, ys, e) ↦ ground (arith, e, h)
        ];
        live = λ h l. elim (List-cases atoms) [
          | inl e ↦ ground (arith, e, h)
          | inr (x, ys, e) ↦ ground (arith, e)
        ];
        gate = λ h. ground arith;
        sunk = let a = v.sunk in ground (arith, a, log, sink);
        staying = λ h. let a = v.staying in ground (arith, a, same, h);
      }

  pub cancelled-IsSound :
      (g : DummyGraph) → IsSound tasks g ws → IsSound tasks (record g { cancellation = true }) ws
  cancelled-IsSound g v = record {
    frames = v.frames;
    pool = v.pool;
    flight = v.flight;
    phase = v.phase;
    quiet = v.quiet;
    live = v.live;
    gate = v.gate;
    sunk = v.sunk;
    staying = v.staying;
  }

  pub start_phase-IsSound :
      (room : ℕ) (g : DummyGraph) (phase : FramePhase) (gate : ℕ)
      → IsSound tasks g ws
      → IsSound tasks (start_phase room g phase gate).0 ws
  unfolding start_phase
  start_phase-IsSound room g other gate v = v
  start_phase-IsSound room g warmup gate v =
      elim (Bool-cases (can_start_phase g g.warmup_submitted)) [
        | inr no_start ↦
            let kept : (start_phase room g warmup gate).0 ≡ g = ground (arith, no_start) in
            rw kept v
        | inl can ↦ elim (Collected-cases (collect_frames room g g.warmup_atoms)) [
          | inl a ↦
              let g₁ : DummyGraph = record g { warmup_submitted = true } in
              let (off, new) = can_start_phase_lem g g.warmup_submitted can in
              let done : (start_phase room g warmup gate).0 ≡ submit_phase g₁ g.warmup_atoms gate =
                ground (arith, can, a) in
              rw done (
                submit-IsSound g g.warmup_atoms gate v off g₁ (λ f. ground (arith, new)) refl refl
                  refl)
          | inr stuck ↦ elim stuck [
            | inl a ↦
                let kept : (start_phase room g warmup gate).0 ≡ g = ground (arith, can, a) in
                rw kept v
            | inr a ↦
                let lost : (start_phase room g warmup gate).0 ≡ record g { cancellation = true } =
                  ground (arith, can, a) in
                rw lost (cancelled-IsSound g v)
          ]
        ]
      ]
  start_phase-IsSound room g timed gate v =
      elim (Bool-cases (can_start_phase g g.timed_submitted)) [
        | inr no_start ↦
            let kept : (start_phase room g timed gate).0 ≡ g = ground (arith, no_start) in rw kept v
        | inl can ↦ elim (Collected-cases (collect_frames room g g.timed_atoms)) [
          | inl a ↦
              let g₁ : DummyGraph = record g { timed_submitted = true } in
              let (off, new) = can_start_phase_lem g g.timed_submitted can in
              let done : (start_phase room g timed gate).0 ≡ submit_phase g₁ g.timed_atoms gate =
                ground (arith, can, a) in
              rw done (
                submit-IsSound g g.timed_atoms gate v off g₁ (λ f. ground (arith, new)) refl refl
                  refl)
          | inr stuck ↦ elim stuck [
            | inl a ↦
                let kept : (start_phase room g timed gate).0 ≡ g = ground (arith, can, a) in
                rw kept v
            | inr a ↦
                let lost : (start_phase room g timed gate).0 ≡ record g { cancellation = true } =
                  ground (arith, can, a) in
                rw lost (cancelled-IsSound g v)
          ]
        ]
      ]

  pub release_gate-IsSound :
      (g : DummyGraph) (gate : ℕ) → IsSound tasks g ws → IsSound tasks (release_gate g gate) ws
  unfolding release_gate
  release_gate-IsSound g gate v = record {
    frames = v.frames;
    pool = v.pool;
    flight = v.flight;
    phase = v.phase;
    quiet = v.quiet;
    live = v.live;
    gate = v.gate;
    sunk = v.sunk;
    staying = v.staying;
  }

  cancel_ready-IsSound :
      (g : DummyGraph)
      → IsSound tasks g ws
      → g.stopping ≡ true
      → IsSound tasks (cancel_ready_frames g) ws
  cancel_ready-IsSound g v stop =
      let c = cancel_ready-IsCounted tasks ws g (IsSound-IsCounted tasks g ws v) in
      let rest = (cancel_ready_frames-Cancels g).rest in
      record {
        frames = c.frames;
        pool = c.pool;
        flight = c.flight;
        phase = c.phase;
        quiet = c.quiet;
        live = λ h l. ground (arith, rest, l, stop);
        gate = c.gate;
        sunk = c.sunk;
        staying = c.staying;
      }

  -- Frames that were not submitted are failed and count as submitted.
  fail_frames-IsSound :
      (g g₁ : DummyGraph) (atoms : List ℕ)
      → IsSound tasks g ws
      → ((f : ℕ) → submitted_count f g₁ ≡ submitted_count f g + occ f atoms)
      → record g₁ { warmup_submitted = true; timed_submitted = true }
        ≡ record g { warmup_submitted = true; timed_submitted = true }
      → IsSound tasks (fail_frames atoms g₁) ws
  fail_frames-IsSound g g₁ atoms v count same =
      let done = fail_frames-Fails atoms g₁ in
      let rest = done.rest in
      let ready = done.ready in
      let terminal = done.terminal in
      record {
        frames = λ f.
            let a = v.frames f in
            let b = count f in let d = done.each f in ground (arith, a, b, d, rest, ready, same);
        pool = λ t. let a = v.pool t in ground (arith, a, rest, same);
        flight = let a = v.flight in ground (arith, a, rest, same);
        phase = let a = v.phase in ground (arith, a, rest, ready, terminal, same);
        quiet = λ h. let a = v.quiet in ground (arith, a, rest, ready, same, h);
        live = λ h l. let a = v.live in ground (arith, a, rest, ready, same, h, l);
        gate = λ h. let a = v.gate in ground (arith, a, rest, same, h);
        sunk = let a = v.sunk in let b = done.sunk in ground (arith, a, b, same);
        staying = λ h. let a = v.staying in ground (arith, a, rest, same, h);
      }

  cancel_warmup-IsSound : (g : DummyGraph) → IsSound tasks g ws → IsSound tasks (cancel_warmup g) ws
  unfolding cancel_warmup
  cancel_warmup-IsSound g v = elim (Bool-cases g.warmup_submitted) [
    | inl done ↦ let kept : cancel_warmup g ≡ g = ground (arith, done) in rw kept v
    | inr new ↦
        let g₁ : DummyGraph = record g { warmup_submitted = true } in
        let lost : cancel_warmup g ≡ fail_frames g.warmup_atoms g₁ = ground (arith, new) in
        rw lost (fail_frames-IsSound g g₁ g.warmup_atoms v (λ f. ground (arith, new)) refl)
  ]

  cancel_timed-IsSound : (g : DummyGraph) → IsSound tasks g ws → IsSound tasks (cancel_timed g) ws
  unfolding cancel_timed
  cancel_timed-IsSound g v = elim (Bool-cases g.timed_submitted) [
    | inl done ↦ let kept : cancel_timed g ≡ g = ground (arith, done) in rw kept v
    | inr new ↦
        let g₁ : DummyGraph = record g { timed_submitted = true } in
        let lost : cancel_timed g ≡ fail_frames g.timed_atoms g₁ = ground (arith, new) in
        rw lost (fail_frames-IsSound g g₁ g.timed_atoms v (λ f. ground (arith, new)) refl)
  ]

  stop-IsSound :
      (g : DummyGraph) → IsSound tasks g ws → IsSound tasks (record g { stopping = true }) ws
  stop-IsSound g v = record {
    frames = v.frames;
    pool = v.pool;
    flight = v.flight;
    phase = v.phase;
    quiet = v.quiet;
    live = λ h l. ground (arith, l);
    gate = v.gate;
    sunk = v.sunk;
    staying = λ h. ground (arith, h);
  }

  cancel_phase-IsSound :
      (g : DummyGraph) → g.stopping ≡ true → IsSound tasks g ws → IsSound tasks (cancel_phase g) ws
  unfolding cancel_phase release_phase_gate
  cancel_phase-IsSound g stop v =
      let g₁ : DummyGraph = record g { cancellation = true } in
      let v₂ = cancel_ready-IsSound g₁ (cancelled-IsSound g v) stop in
      let g₂ = cancel_ready_frames g₁ in
      elim (Option-cases g₂.phase_gate) [
        | inl e ↦ let kept : cancel_phase g ≡ g₂ = ground (arith, e) in rw kept v₂
        | inr (gate, e) ↦
            let opened' : cancel_phase g ≡ release_gate g₂ gate = ground (arith, e) in
            rw opened' (release_gate-IsSound g₂ gate v₂)
      ]

  pub begin_shutdown-IsSound :
      (g : DummyGraph) → IsSound tasks g ws → IsSound tasks (begin_shutdown g) ws
  unfolding begin_shutdown cancel_prepared_frames
  begin_shutdown-IsSound g v =
      let g₁ : DummyGraph = record g { stopping = true } in
      let v₁ = stop-IsSound g v in
      let prepared = λ (g₂ : DummyGraph) (v₂ : IsSound tasks g₂ ws).
        cancel_timed-IsSound (cancel_warmup g₂) (cancel_warmup-IsSound g₂ v₂) in
      elim (Bool-cases g.phase_active) [
        | inl on ↦
            let e : begin_shutdown g ≡ cancel_prepared_frames (cancel_phase g₁) =
              ground (arith, on) in
            rw e (prepared (cancel_phase g₁) (cancel_phase-IsSound g₁ refl v₁))
        | inr off ↦
            let e : begin_shutdown g ≡ cancel_prepared_frames g₁ = ground (arith, off) in
            rw e (prepared g₁ v₁)
      ]
