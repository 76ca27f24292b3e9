-- ===== src/StaticGpuData.antt =====
-- src/StaticData/StaticGpuData.{h,cpp}: the buffers of one GPU that are uploaded once and then read.
-- The answers of the device guard and of CUDA are arguments. `buffers[0]` is `detection_zones`,
-- `buffers[1]` is `distortion_tables`.
pub mod Operations
pub mod Steps
mod Tests
use gpuinfra.Prelude.{ℕ, Bool, true, false, Option}
use gpuinfra.Prelude.Int.{ℤ, negsuc}
use gpuinfra.Types.{null}

-- `StaticGpuDataType`; `other` is any value outside the enumeration.
pub data StaticGpuDataType : Type 0 where
  detection_zones distortion_tables other : StaticGpuDataType

-- `StaticGpuDataState`
pub data StaticGpuDataState : Type 0 where
  empty uploading ready failed : StaticGpuDataState

abbrev pub is_empty : StaticGpuDataState → Bool
is_empty empty = true
is_empty uploading = false
is_empty ready = false
is_empty failed = false

abbrev pub is_uploading : StaticGpuDataState → Bool
is_uploading empty = false
is_uploading uploading = true
is_uploading ready = false
is_uploading failed = false

abbrev pub is_ready : StaticGpuDataState → Bool
is_ready empty = false
is_ready uploading = false
is_ready ready = true
is_ready failed = false

-- `Buffer`
pub record Buffer : Type 0 where
  pub d_data : ℕ
  pub capacity : ℕ

abbrev pub no_buffer : Buffer
no_buffer = record { d_data = null; capacity = 0 }

-- the members of `StaticGpuData`
pub record StaticGpuData : Type 0 where
  pub zones : Buffer
  pub distortion : Buffer
  pub upload_stream : ℕ
  pub device_id : ℤ
  pub current_state : StaticGpuDataState

-- a default-constructed object
abbrev pub new_data : StaticGpuData
new_data = record {
  zones = no_buffer;
  distortion = no_buffer;
  upload_stream = null;
  device_id = negsuc 0;
  current_state = empty;
}

-- What CUDA answers to `release`: the device guard, `cudaStreamSynchronize`, each `cudaFree` and
-- `cudaStreamDestroy`.
pub record ReleaseAnswers : Type 0 where
  pub device_ok : Bool
  pub synchronized : Bool
  pub freed : ℕ → Bool
  pub destroyed : Bool

-- What CUDA answers for one buffer of `initialize`: the allocation, and whether it can be cleared.
pub record BufferAnswers : Type 0 where
  pub pointer : Option ℕ
  pub cleared : Bool

-- What CUDA answers to `initialize`.
pub record InitAnswers : Type 0 where
  pub device_ok : Bool
  pub stream : Option ℕ
  pub zones : BufferAnswers
  pub distortion : BufferAnswers
  pub release : ReleaseAnswers

-- What CUDA answers to `upload` and `finalize`; `finalize` copies nothing.
pub record UploadAnswers : Type 0 where
  pub device_ok : Bool
  pub copied : Bool
  pub synchronized : Bool
