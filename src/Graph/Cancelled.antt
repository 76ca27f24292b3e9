-- ===== src/Graph/Cancelled.antt =====
-- What the cancellation of frames delivers, and what it leaves alone.
use gpuinfra.Prelude.{ℕ, ◌+◌, ◌≡◌, refl, ◌∙◌, ap, true, false, List, [], ◌∷◌, arith, length}
use gpuinfra.Graph.{DummyGraph}
use gpuinfra.Graph.Frames.{
  deliver, deliver_frame_result, fail_frame, cancel_frames, cancel_ready_frames, fail_frames,
}
use gpuinfra.Graph.Counting.{occ}

-- The members that neither a cancellation nor a delivery changes.
abbrev pub rest_of : DummyGraph → DummyGraph
rest_of g = record g {
  results = λ a. true;
  sink = record { delivered_results = 0; failed_results = 0 };
  deliveries = [];
  ready_frames = [];
  phase_terminal = 0;
}

-- The number of calls of `deliver`, as the sink and as the log count it.
abbrev pub SinkGap : DummyGraph → DummyGraph → Type 0
SinkGap g g' =
    g'.sink.delivered_results + length g.deliveries
    ≡ g.sink.delivered_results + length g'.deliveries

module _ (g : DummyGraph) (atom : ℕ) where
  pub fail_frame_lem :
      (rest_of (fail_frame g atom) ≡ rest_of g)
      × ((fail_frame g atom).deliveries ≡ atom ∷ g.deliveries)
      × ((fail_frame g atom).ready_frames ≡ g.ready_frames)
      × ((fail_frame g atom).phase_terminal ≡ g.phase_terminal)
      × ((fail_frame g atom).sink.delivered_results ≡ g.sink.delivered_results + 1)
  unfolding fail_frame deliver_frame_result deliver
  fail_frame_lem = (refl, refl, refl, refl, refl)

cancel_frames_rest : (fs : List ℕ) (g : DummyGraph) → rest_of (cancel_frames fs g) ≡ rest_of g
unfolding cancel_frames
cancel_frames_rest [] g = refl
cancel_frames_rest (a ∷ fs) g = cancel_frames_rest fs _ ∙ (fail_frame_lem g a).0

module _ (f : ℕ) where
  occ-cancel_frames :
      (fs : List ℕ) (g : DummyGraph)
      → occ f (cancel_frames fs g).deliveries ≡ occ f g.deliveries + occ f fs
  unfolding cancel_frames
  occ-cancel_frames [] g = omega arith
  occ-cancel_frames (a ∷ fs) g =
      let g' : DummyGraph = record (fail_frame g a) {
        ready_frames = fs;
        phase_terminal = g.phase_terminal + 1;
      } in
      let more = ap (occ f) (fail_frame_lem g a).1 in omega (arith, occ-cancel_frames fs g', more)

  occ-fail_frames :
      (fs : List ℕ) (g : DummyGraph)
      → occ f (fail_frames fs g).deliveries ≡ occ f g.deliveries + occ f fs
  unfolding fail_frames
  occ-fail_frames [] g = omega arith
  occ-fail_frames (a ∷ fs) g =
      let more = ap (occ f) (fail_frame_lem g a).1 in
      omega (arith, occ-fail_frames fs (fail_frame g a), more)

cancel_frames_counts :
    (fs : List ℕ) (g : DummyGraph)
    → ((cancel_frames fs g).phase_terminal ≡ g.phase_terminal + length fs)
      × SinkGap g (cancel_frames fs g)
unfolding cancel_frames
cancel_frames_counts [] g = (omega arith, omega arith)
cancel_frames_counts (a ∷ fs) g =
    let g' : DummyGraph = record (fail_frame g a) {
      ready_frames = fs;
      phase_terminal = g.phase_terminal + 1;
    } in
    let (n, s) = cancel_frames_counts fs g' in
    let l = fail_frame_lem g a in
    let more = ap length l.1 in let sunk = l.4 in (omega (arith, n), omega (arith, s, more, sunk))

fail_frames_counts : (fs : List ℕ) (g : DummyGraph) → SinkGap g (fail_frames fs g)
unfolding fail_frames
fail_frames_counts [] g = omega arith
fail_frames_counts (a ∷ fs) g =
    let l = fail_frame_lem g a in
    let more = ap length l.1 in
    let sunk = l.4 in omega (arith, fail_frames_counts fs (fail_frame g a), more, sunk)

cancel_frames_ready :
    (fs : List ℕ) (g : DummyGraph) → g.ready_frames ≡ fs → (cancel_frames fs g).ready_frames ≡ []
unfolding cancel_frames
cancel_frames_ready [] g e = e
cancel_frames_ready (a ∷ fs) g e = cancel_frames_ready fs _ refl

fail_frames_rest :
    (fs : List ℕ) (g : DummyGraph)
    → (rest_of (fail_frames fs g) ≡ rest_of g)
      × ((fail_frames fs g).ready_frames ≡ g.ready_frames)
      × ((fail_frames fs g).phase_terminal ≡ g.phase_terminal)
unfolding fail_frames
fail_frames_rest [] g = (refl, refl, refl)
fail_frames_rest (a ∷ fs) g =
    let (r, q, n) = fail_frames_rest fs (fail_frame g a) in
    let l = fail_frame_lem g a in (r ∙ l.0, q ∙ l.2, n ∙ l.3)

-- The cancellation of the ready frames.
pub record Cancels (g g' : DummyGraph) : Type 0 where
  pub rest : rest_of g' ≡ rest_of (record g { phase_succeeded = false })
  pub ready : g'.ready_frames ≡ []
  pub terminal : g'.phase_terminal ≡ g.phase_terminal + length g.ready_frames
  pub sunk : SinkGap g g'
  pub each : (f : ℕ) → occ f g'.deliveries ≡ occ f g.deliveries + occ f g.ready_frames

pub cancel_ready_frames-Cancels : (g : DummyGraph) → Cancels g (cancel_ready_frames g)
unfolding cancel_ready_frames
cancel_ready_frames-Cancels g = record {
  rest =
      ap (λ (x : DummyGraph). record x { phase_succeeded = false })
        (cancel_frames_rest g.ready_frames g);
  ready = cancel_frames_ready g.ready_frames g refl;
  terminal = (cancel_frames_counts g.ready_frames g).0;
  sunk = (cancel_frames_counts g.ready_frames g).1;
  each = λ f. occ-cancel_frames f g.ready_frames g;
}

-- The failure of frames that were not submitted.
pub record Fails (fs : List ℕ) (g g' : DummyGraph) : Type 0 where
  pub rest : rest_of g' ≡ rest_of g
  pub ready : g'.ready_frames ≡ g.ready_frames
  pub terminal : g'.phase_terminal ≡ g.phase_terminal
  pub sunk : SinkGap g g'
  pub each : (f : ℕ) → occ f g'.deliveries ≡ occ f g.deliveries + occ f fs

pub fail_frames-Fails : (fs : List ℕ) (g : DummyGraph) → Fails fs g (fail_frames fs g)
fail_frames-Fails fs g = record {
  rest = (fail_frames_rest fs g).0;
  ready = (fail_frames_rest fs g).1;
  terminal = (fail_frames_rest fs g).2;
  sunk = fail_frames_counts fs g;
  each = λ f. occ-fail_frames f fs g;
}
