-- ===== src/Algo.antt =====
-- demo/Algo/{IAlgo,Cel,Sdd,Mi}.h, {Cel,Sdd,Mi}.cu and demo/ImageSizing.h: the algorithms of a task. The
-- three classes differ in their name, in the multiplier of their size and in their kernel; an `Algo`
-- is any of them. A kernel is its launch, whose answer is an argument, as are those of CUDA.
use gpuinfra.Prelude.{
  ℕ, ◌*◌, ◌%◌, Bool, true, false, not, ◌||◌, ◌&&◌, Option, none, some, List, [], ltb, leb, ◌==◌,
  if◌then◌else◌, size_mod,
}
use gpuinfra.Prelude.Int.{ℤ, pos, negsuc, is_neg}
use gpuinfra.Types.{AlgoRuntimeInfo, null}

-- `AlgoParams`
pub record AlgoParams : Type 0 where
  pub name : List ℕ
  pub blob : List ℕ

abbrev pub no_params : AlgoParams
no_params = record { name = []; blob = [] }

-- the members of `Cel`, `Sdd` and `Mi`; `multiplier` is the constant of the class
pub record Algo : Type 0 where
  pub multiplier : ℕ
  pub gpu_id : ℤ
  pub resource_id : ℤ
  pub frame_w : ℤ
  pub frame_h : ℤ
  pub matrix_size : ℕ
  pub in_bytes : ℕ
  pub matrix_bytes : ℕ
  pub d_output_matrix : ℕ
  pub h_output_matrix : ℕ
  pub initialized : Bool
  pub algo_params : AlgoParams

-- a new object
abbrev pub new_algo : ℕ → Algo
new_algo multiplier = record {
  multiplier = multiplier;
  gpu_id = negsuc 0;
  resource_id = negsuc 0;
  frame_w = pos 0;
  frame_h = pos 0;
  matrix_size = 0;
  in_bytes = 0;
  matrix_bytes = 0;
  d_output_matrix = null;
  h_output_matrix = null;
  initialized = false;
  algo_params = no_params;
}

-- `isValidFactor` on a factor that is not negative
unfoldable pub is_valid_factor : ℕ → Bool
is_valid_factor factor = leb 16 factor && leb factor 256 && factor % 16 == 0

-- `squareBytes`
unfoldable pub square_bytes : ℕ → ℕ → ℕ
square_bytes dimension element_bytes = dimension * dimension * element_bytes % size_mod

-- The answers of `cudaSetDevice`, `cudaFree` and `cudaFreeHost` in `close`.
pub record CloseAnswers : Type 0 where
  pub device_ok : Bool
  pub freed : Bool
  pub host_freed : Bool

-- `close`
unfoldable pub close : CloseAnswers → Algo → Algo × Bool
close c a =
    let held_d : Bool = not (a.d_output_matrix == null) in
    let held_h : Bool = not (a.h_output_matrix == null) in
    if (held_d || held_h) && not c.device_ok
    then (a, false)
    else (new_algo a.multiplier, (not held_d || c.freed) && (not held_h || c.host_freed))

-- The answers of CUDA in `init`; `undo` is for the `close` after a failure.
pub record AlgoAnswers : Type 0 where
  pub closed : CloseAnswers
  pub device_ok : Bool
  pub d_output_matrix : Option ℕ
  pub h_output_matrix : Option ℕ
  pub cleared : Bool
  pub undo : CloseAnswers

-- whether a signed number is below an output size
abbrev pub is_below : ℤ → ℕ → Bool
is_below (pos n) size = ltb n size
is_below (negsuc n) size = true

-- the bytes of a frame of one byte for each pixel, on a `size_t`
abbrev pub frame_bytes : ℤ → ℤ → ℕ
frame_bytes (pos w) (pos h) = w * h % size_mod
frame_bytes (pos w) (negsuc h) = 0
frame_bytes (negsuc w) h = 0

-- `init` past its checks and its `close`
unfoldable pub allocate_output : AlgoAnswers → Algo → Algo × Bool
allocate_output c a = if not c.device_ok then (a, false) else elim c.d_output_matrix [
  | none ↦ ((close c.undo a).0, false)
  | some d ↦
      let a₁ : Algo = record a { d_output_matrix = d } in
      elim c.h_output_matrix [
        | none ↦ ((close c.undo a₁).0, false)
        | some h ↦
            let a₂ : Algo = record a₁ { h_output_matrix = h } in
            if not c.cleared
            then ((close c.undo a₂).0, false)
            else (record a₂ { initialized = true }, true)
      ]
]

-- the checks of `init`
unfoldable pub can_init : Algo → AlgoRuntimeInfo → ℕ → ℤ → ℤ → ℕ → Bool
can_init a info factor resource_id gpu_id stream =
    not (is_neg resource_id)
    && not (is_neg gpu_id)
    && not (stream == null)
    && is_valid_factor factor
    && not (is_below info.frame_w (factor * a.multiplier))
    && not (is_below info.frame_h (factor * a.multiplier))
    && leb (frame_bytes info.frame_w info.frame_h) info.in_bytes

-- `init`, on the ids and the stream of the resources; it sets `scratchBytes` to 0
unfoldable pub init_algo : AlgoAnswers → Algo → AlgoRuntimeInfo → ℤ → ℤ → ℕ → Algo × Bool
init_algo c a info resource_id gpu_id stream = elim info.size_factor [
  | negsuc n ↦ (a, false)
  | pos factor ↦
      let (closed, ok) = close c.closed a in
      if not (can_init a info factor resource_id gpu_id stream)
      then (a, false)
      else (if not ok
          then (closed, false)
          else allocate_output c (record closed {
            gpu_id = gpu_id;
            resource_id = resource_id;
            frame_w = info.frame_w;
            frame_h = info.frame_h;
            matrix_size = factor * a.multiplier;
            in_bytes = info.in_bytes;
            matrix_bytes = square_bytes (factor * a.multiplier) 4;
          }))
]

-- `notifyParameter`
unfoldable pub notify_parameter : Algo → AlgoParams → Algo × Bool
notify_parameter a p = if a.initialized then (record a { algo_params = p }, true) else (a, false)
