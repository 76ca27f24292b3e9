-- ===== src/Graph/FrameIds.antt =====
-- The ids of the frames of a graph: they count up from the first one, and none wraps.
use gpuinfra.Prelude.{
  ℕ, zero, suc, ◌+◌, ◌-◌, ◌*◌, ◌/◌, ◌%◌, ◌≤◌, ◌<◌, ◌≡◌, ◌≢◌, refl, ap, sym, ◌∙◌, subst, Bool, true,
  inl, inr, ◌||◌, some, List, [], ◌∷◌, arith, ltb, ◌==◌, length, get_or, size_mod, size_max,
  Bool-cases, Option-cases,
}
use gpuinfra.Prelude.Int.{ℤ}
use gpuinfra.Types.{FrameMetadata, default_metadata, AlgoRuntimeInfo}
use gpuinfra.StaticData.Plan.{product-le}
use gpuinfra.Graph.{DummyGraph}
use gpuinfra.Graph.Cycle.{Owner}
use gpuinfra.Graph.Setup.{
  place_frames, SetupAnswers, TeardownAnswers, fill_graph, initialize_on_node, initialize_graph,
  seal_parameters, load_tasks, make_tasks, addresses, GraphConfig, multiply_frame_count,
  frame_counts, make_metadata, make_frames,
}

-- The atoms of a graph hold frames in the numbers of the configuration, on `gpus` GPUs, with ids that
-- count up from the first one, through the warmup and on through the timed frames.
pub record HasFrames (g : GraphConfig) (gpus : ℕ) (graph : DummyGraph) : Type 0 where
  pub warmup_size : length graph.warmup_atoms ≡ g.warmup_frames_per_gpu * gpus
  pub timed_size : length graph.timed_atoms ≡ g.timed_frames_per_gpu * gpus
  pub no_wrap : g.first_frame_id + (length graph.warmup_atoms + length graph.timed_atoms) ≤ size_max
  pub warmup_id :
      (i : ℕ)
      → i < length graph.warmup_atoms
      → (graph.metadata (get_or graph.warmup_atoms i 0)).key.frame_id ≡ g.first_frame_id + i
  pub timed_id :
      (i : ℕ)
      → i < length graph.timed_atoms
      → (graph.metadata (get_or graph.timed_atoms i 0)).key.frame_id
        ≡ g.first_frame_id + length graph.warmup_atoms + i

module _ (runtime : AlgoRuntimeInfo) where
  make_frames_next :
      (n id : ℕ)
      → id + n < size_mod
      → ((make_frames runtime n id).1 ≡ id + n) × (length (make_frames runtime n id).0 ≡ n)
  unfolding make_frames
  make_frames_next zero id h = (omega arith, refl)
  make_frames_next (suc n) id h =
      let no_wrap : (id + 1) % size_mod ≡ id + 1 = omega (arith, h) in
      let (last, size) = make_frames_next n ((id + 1) % size_mod) (omega (arith, no_wrap, h)) in
      (omega (arith, last, no_wrap), ap suc size)

  make_frames_id :
      (n id i : ℕ)
      → id + n < size_mod
      → i < n
      → (get_or (make_frames runtime n id).0 i default_metadata).key.frame_id ≡ id + i
  unfolding make_frames make_metadata
  make_frames_id zero id i h lt = absurd (omega (arith, lt))
  make_frames_id (suc n) id zero h lt = omega arith
  make_frames_id (suc n) id (suc i) h lt =
      let no_wrap : (id + 1) % size_mod ≡ id + 1 = omega (arith, h) in
      omega (
        arith,
        no_wrap,
        make_frames_id n ((id + 1) % size_mod) i (omega (arith, no_wrap, h)) (omega (arith, lt)),
      )

-- What the allocation of atoms leaves, where no two addresses are the same.
module _ (address : ℕ → ℕ) (apart : (i j : ℕ) → address i ≡ address j → i ≡ j) where
  length-place_frames :
      (i : ℕ) (fs : List FrameMetadata) (heap : ℕ → FrameMetadata)
      → length (place_frames address i fs heap).0 ≡ length fs
  length-place_frames i [] heap = refl
  length-place_frames i (f ∷ fs) heap = ap suc (length-place_frames (suc i) fs heap)

  place_frames_address :
      (i : ℕ) (fs : List FrameMetadata) (heap : ℕ → FrameMetadata) (j : ℕ)
      → j < length fs
      → get_or (place_frames address i fs heap).0 j 0 ≡ address (i + j)
  place_frames_address i [] heap j h = absurd (omega (arith, h))
  place_frames_address i (f ∷ fs) heap zero h = ap address (omega arith)
  place_frames_address i (f ∷ fs) heap (suc j) h =
      place_frames_address (suc i) fs heap j (omega (arith, h)) ∙ ap address (omega arith)

  place_frames_before :
      (i : ℕ) (fs : List FrameMetadata) (heap : ℕ → FrameMetadata) (j : ℕ)
      → j < i
      → (place_frames address i fs heap).1 (address j) ≡ heap (address j)
  place_frames_before i [] heap j h = refl
  place_frames_before i (f ∷ fs) heap j h = elim (Bool-cases (address i == address j)) [
    | inl e ↦ absurd (omega (arith, h, apart i j (ground (arith, e))))
    | inr e ↦
        let rest = place_frames_before (suc i) fs heap j (omega (arith, h)) in
        ground (arith, e, rest)
  ]

  place_frames_at :
      (i : ℕ) (fs : List FrameMetadata) (heap : ℕ → FrameMetadata) (j : ℕ)
      → j < length fs
      → (place_frames address i fs heap).1 (address (i + j)) ≡ get_or fs j default_metadata
  place_frames_at i [] heap j h = absurd (omega (arith, h))
  place_frames_at i (f ∷ fs) heap zero h =
      let here : address (i + 0) ≡ address i = ap address (omega arith) in ground (arith, here)
  place_frames_at i (f ∷ fs) heap (suc j) h = elim (Bool-cases (address i == address (i + suc j))) [
    | inl e ↦ absurd (omega (arith, apart i (i + suc j) (ground (arith, e))))
    | inr e ↦
        let there : address (suc i + j) ≡ address (i + suc j) = ap address (omega arith) in
        let rest = place_frames_at (suc i) fs heap j (omega (arith, h)) in
        ground (arith, e, rest, there)
  ]

-- A product that is given has not wrapped.
multiply_frame_count_lem :
    (frames gpus n : ℕ)
    → multiply_frame_count frames gpus ≡ some n
    → (n ≡ frames * gpus) × (n ≤ size_max)
unfolding multiply_frame_count
multiply_frame_count_lem frames gpus n e =
    elim (Bool-cases (gpus == 0 || ltb (size_max / gpus) frames)) [
      | inl none_given ↦ absurd (ground (arith, e, none_given))
      | inr given ↦
          let some_gpu : gpus ≢ 0 = λ z. ground (arith, given, z) in
          let fits = product-le gpus frames size_max some_gpu (ground (arith, given)) in
          let product : frames * gpus % size_mod ≡ n = ground (arith, e, given) in
          let swapped : gpus * frames ≡ frames * gpus = omega arith in
          (omega (arith, product, fits, swapped), omega (arith, product, fits, swapped))
    ]

-- The checks leave room for every id.
counts_fit :
    (g : GraphConfig) (gpus warmup timed : ℕ)
    → frame_counts g gpus ≡ some (warmup, timed)
    → (g.first_frame_id + (warmup + timed) ≤ size_max)
      × (warmup ≡ g.warmup_frames_per_gpu * gpus)
      × (timed ≡ g.timed_frames_per_gpu * gpus)
unfolding frame_counts
counts_fit g gpus warmup timed e =
    elim (Option-cases (multiply_frame_count g.warmup_frames_per_gpu gpus)) [
      | inl n ↦ absurd (ground (arith, e, n))
      | inr (w, a) ↦ elim (Option-cases (multiply_frame_count g.timed_frames_per_gpu gpus)) [
        | inl n ↦ absurd (ground (arith, e, a, n))
        | inr (t, b) ↦
            elim (Bool-cases
              (ltb (size_max - t) w || ltb (size_max - (w + t) % size_mod) g.first_frame_id)) [
                | inl full ↦ absurd (ground (arith, e, a, b, full))
                | inr room ↦
                    let is : (w ≡ warmup) × (t ≡ timed) = ground (arith, e, a, b, room) in
                    let (is_w, is_t) = is in
                    let first : w ≤ size_max - t = ground (arith, room) in
                    let second : g.first_frame_id ≤ size_max - (w + t) % size_mod =
                      ground (arith, room) in
                    let (exact_w, low_w) =
                      multiply_frame_count_lem g.warmup_frames_per_gpu gpus w a in
                    let (exact_t, low_t) =
                      multiply_frame_count_lem g.timed_frames_per_gpu gpus t b in
                    (
                      omega (arith, is_w, is_t, first, second, low_t),
                      sym is_w ∙ exact_w,
                      sym is_t ∙ exact_t,
                    )
              ]
      ]
    ]

module _ (c : SetupAnswers) (apart : (i j : ℕ) → c.address i ≡ c.address j → i ≡ j)
    (g : GraphConfig) (gpus : ℕ) where
  abbrev first_frames : ℕ → List FrameMetadata × ℕ
  first_frames warmup = make_frames g.runtime warmup g.first_frame_id

  abbrev second_frames : ℕ → ℕ → List FrameMetadata
  second_frames warmup timed = (make_frames g.runtime timed (first_frames warmup).1).0

  placed-HasFrames :
      (warmup timed : ℕ) (heap : ℕ → FrameMetadata) (graph : DummyGraph)
      → frame_counts g gpus ≡ some (warmup, timed)
      → graph.warmup_atoms ≡ (place_frames c.address 0 (first_frames warmup).0 heap).0
      → graph.timed_atoms
        ≡ (place_frames c.address warmup
            (second_frames warmup timed)
            (place_frames c.address 0 (first_frames warmup).0 heap).1).0
      → graph.metadata
        ≡ (place_frames c.address warmup
            (second_frames warmup timed)
            (place_frames c.address 0 (first_frames warmup).0 heap).1).1
      → HasFrames g gpus graph
  placed-HasFrames warmup timed heap graph e is_warmup is_timed is_metadata =
      let (fits, exact_w, exact_t) = counts_fit g gpus warmup timed e in
      let first = (first_frames warmup).0 in
      let next_id = (first_frames warmup).1 in
      let second = second_frames warmup timed in
      let heap₁ = (place_frames c.address 0 first heap).1 in
      let (last, made_w) =
        make_frames_next g.runtime warmup g.first_frame_id (omega (arith, fits)) in
      let room : next_id + timed < size_mod = omega (arith, last, fits) in
      let (final, made_t) = make_frames_next g.runtime timed next_id room in
      let size_w : length graph.warmup_atoms ≡ warmup =
        ap length is_warmup ∙ length-place_frames c.address apart 0 first heap ∙ made_w in
      let size_t : length graph.timed_atoms ≡ timed =
        ap length is_timed ∙ length-place_frames c.address apart warmup second heap₁ ∙ made_t in
      record {
        warmup_size = size_w ∙ exact_w;
        timed_size = size_t ∙ exact_t;
        no_wrap = omega (arith, size_w, size_t, fits);
        warmup_id = λ i h.
            let low : i < warmup = omega (arith, h, size_w) in
            let where_it_is : get_or graph.warmup_atoms i 0 ≡ c.address (0 + i) =
              ap (λ x. get_or x i 0) is_warmup
              ∙ place_frames_address c.address apart 0 first heap i (omega (arith, low, made_w)) in
            let untouched =
              place_frames_before c.address apart warmup second heap₁ (0 + i)
                (omega (arith, low)) in
            let placed =
              place_frames_at c.address apart 0 first heap i (omega (arith, low, made_w)) in
            let read : graph.metadata (get_or graph.warmup_atoms i 0)
                ≡ get_or first i default_metadata =
              ap graph.metadata where_it_is
              ∙ ap (λ f. f (c.address (0 + i))) is_metadata
              ∙ untouched
              ∙ placed in
            ap (λ m. m.key.frame_id) read
            ∙ make_frames_id g.runtime warmup g.first_frame_id i (omega (arith, fits)) low;
        timed_id = λ i h.
            let low : i < timed = omega (arith, h, size_t) in
            let where_it_is : get_or graph.timed_atoms i 0 ≡ c.address (warmup + i) =
              ap (λ x. get_or x i 0) is_timed
              ∙ place_frames_address c.address apart warmup second heap₁ i
                  (omega (arith, low, made_t)) in
            let placed =
              place_frames_at c.address apart warmup second heap₁ i (omega (arith, low, made_t)) in
            let read : graph.metadata (get_or graph.timed_atoms i 0)
                ≡ get_or second i default_metadata =
              ap graph.metadata where_it_is
              ∙ ap (λ f. f (c.address (warmup + i))) is_metadata
              ∙ placed in
            let id =
              ap (λ m. m.key.frame_id) read ∙ make_frames_id g.runtime timed next_id i room low in
            omega (arith, id, last, size_w);
      }

  fill_graph-HasFrames :
      (warmup timed : ℕ) (o : Owner)
      → frame_counts g gpus ≡ some (warmup, timed)
      → (fill_graph c g warmup timed o).1 ≡ true
      → HasFrames g gpus (fill_graph c g warmup timed o).0.graph
  unfolding fill_graph
  fill_graph-HasFrames warmup timed o e ok =
      let sealed = seal_parameters o.registry g.parameters in
      elim (Option-cases sealed.1) [
        | inl missing ↦ absurd (ground (arith, missing, ok))
        | inr (s, copied) ↦ elim (Bool-cases (load_tasks c.load 0 o.manager o.tasks sealed.0).2) [
          | inr bad ↦ absurd (ground (arith, copied, bad, ok))
          | inl good ↦
              placed-HasFrames warmup timed o.graph.metadata
                ((fill_graph c g warmup timed o).0.graph) e (ground (arith, copied, good))
                (ground (arith, copied, good)) (ground (arith, copied, good))
        ]
      ]

  initialize_on_node-HasFrames :
      (o : Owner)
      → (initialize_on_node c g gpus o).1 ≡ true
      → HasFrames g gpus (initialize_on_node c g gpus o).0.graph
  unfolding initialize_on_node
  initialize_on_node-HasFrames o ok = elim (Option-cases (frame_counts g gpus)) [
    | inl none_given ↦ absurd (ground (arith, none_given, ok))
    | inr (counts, e) ↦
        let made = make_tasks c.self g.runtime (g.task_instances_per_gpu * gpus) 0 o.registry in
        let o₁ : Owner = record o { registry = made.1; tasks = made.0 } in
        elim (Bool-cases made.2) [
          | inr bad ↦ absurd (ground (arith, e, bad, ok))
          | inl good ↦
              let to : initialize_on_node c g gpus o ≡ fill_graph c g counts.0 counts.1 o₁ =
                ground (arith, e, good) in
              subst (λ x. HasFrames g gpus x.0.graph) (sym to)
                (fill_graph-HasFrames counts.0 counts.1 o₁ e (sym (ap (λ x. x.1) to) ∙ ok))
        ]
  ]

-- When initialize succeeds and no two atoms have the same address, the graph has as many atoms for
-- the warmup and for the timed phase as the configuration asks for on all GPUs, the ids of their
-- frames count up by one from the first id, through the warmup and on through the timed atoms, and
-- none of them wraps 64 bits.
pub initialize_graph-HasFrames :
    (c : SetupAnswers) (d : TeardownAnswers) (on_node : ℕ → Bool) (started : Bool)
    (gpus : List ℤ × Bool) (g : GraphConfig) (o : Owner)
    → ((i j : ℕ) → c.address i ≡ c.address j → i ≡ j)
    → (initialize_graph c d on_node started gpus g o).1 ≡ true
    → HasFrames g (length gpus.0) (initialize_graph c d on_node started gpus g o).0.graph
unfolding initialize_graph
initialize_graph-HasFrames c d on_node started gpus g o apart ok =
    let set_up = initialize_on_node c g (length gpus.0) o in
    elim (Bool-cases set_up.1) [
      | inr bad ↦ absurd (ground (arith, bad, ok))
      | inl good ↦
          let f = initialize_on_node-HasFrames c apart g (length gpus.0) o good in
          let r = (initialize_graph c d on_node started gpus g o).0.graph in
          let to : r ≡ record (set_up.0.graph) {
            free_tasks = addresses c.self (length set_up.0.tasks);
            initialized = true;
          } =
            ground (arith, good, ok) in
          subst (HasFrames g (length gpus.0)) (sym to) (record {
            warmup_size = f.warmup_size;
            timed_size = f.timed_size;
            no_wrap = f.no_wrap;
            warmup_id = f.warmup_id;
            timed_id = f.timed_id;
          })
    ]
