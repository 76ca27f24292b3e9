-- ===== src/StaticGpuData/Steps.antt =====
-- The calls on the static data as steps, their reachable states, and the invariant of these.
use gpuinfra.Prelude.{
  ℕ, ◌+◌, ◌≤◌, ◌≡◌, ◌≢◌, ◌⊎◌, refl, inl, inr, true, Option, none, some, arith, Option-cases, ◌==◌,
  ◌||◌,
}
use gpuinfra.Prelude.Int.{ℤ}
use gpuinfra.Types.{null}
use gpuinfra.StaticGpuData.{
  StaticGpuDataType, StaticGpuDataState, empty, uploading, ready, failed, Buffer, StaticGpuData,
  new_data, ReleaseAnswers, BufferAnswers, InitAnswers, UploadAnswers,
}
use gpuinfra.StaticGpuData.Operations.{
  buffer_for, free_buffer, has_resources, release, fail_initialization, allocate_buffer, initialize,
  upload, finalize, data_of, bytes,
}

-- A buffer that is not empty has its allocation.
abbrev pub IsHeld : Buffer → Type 0
IsHeld b = (b.capacity ≡ 0) ⊎ (b.d_data ≢ null)

-- While data can be uploaded or read, every buffer is held, and there is a stream unless all are
-- empty.
abbrev pub IsHolding : StaticGpuData → Type 0
IsHolding s =
    IsHeld s.zones
    × IsHeld s.distortion
    × (((s.zones.capacity ≡ 0) × (s.distortion.capacity ≡ 0)) ⊎ (s.upload_stream ≢ null))

abbrev IsConsistentAs : StaticGpuDataState → StaticGpuData → Type 0
IsConsistentAs empty s = s ≡ new_data
IsConsistentAs uploading s = IsHolding s
IsConsistentAs ready s = IsHolding s
IsConsistentAs failed s = Unit

-- What each state says of the members: an empty object is like new.
abbrev pub IsConsistent : StaticGpuData → Type 0
IsConsistent s = IsConsistentAs s.current_state s

-- CUDA never answers a successful creation with a null pointer.
abbrev pub IsSome : Option ℕ → Type 0
IsSome none = Unit
IsSome (some address) = address ≢ null

pub record AreSane (a : InitAnswers) : Type 0 where
  pub stream : IsSome a.stream
  pub zones : IsSome a.zones.pointer
  pub distortion : IsSome a.distortion.pointer

release-IsConsistent :
    (a : ReleaseAnswers) (s : StaticGpuData) → IsConsistent s → IsConsistent (release a s).0
unfolding release has_resources free_buffer
release-IsConsistent a s v = ground (arith, v)

allocate_buffer-IsHeld :
    (a : BufferAnswers) (b : Buffer)
    → IsSome a.pointer
    → (allocate_buffer a b).1 ≡ true
    → IsHeld (allocate_buffer a b).0 × ((allocate_buffer a b).0.capacity ≡ b.capacity)
unfolding allocate_buffer
allocate_buffer-IsHeld a b h ok = ground (arith, h, ok)

upload-IsConsistent :
    (a : UploadAnswers) (s : StaticGpuData) (type : StaticGpuDataType) (source count offset : ℕ)
    → IsConsistent s
    → IsConsistent (upload a s type source count offset).0
unfolding upload buffer_for
upload-IsConsistent a s type source count offset v = ground (arith, v)

finalize-IsConsistent :
    (a : UploadAnswers) (s : StaticGpuData) → IsConsistent s → IsConsistent (finalize a s).0
unfolding finalize
finalize-IsConsistent a s v = ground (arith, v)

initialize-IsConsistent :
    (a : InitAnswers) (s : StaticGpuData) (gpu : ℤ) (zone_bytes distortion_bytes : ℕ)
    → AreSane a
    → IsConsistent s
    → IsConsistent (initialize a s gpu zone_bytes distortion_bytes).0
unfolding initialize fail_initialization
initialize-IsConsistent a s gpu zone_bytes distortion_bytes sane v =
    let zones : Buffer = record (s.zones) { capacity = zone_bytes } in
    let distortion : Buffer = record (s.distortion) { capacity = distortion_bytes } in
    let first = allocate_buffer-IsHeld a.zones zones sane.zones in
    let second = allocate_buffer-IsHeld a.distortion distortion sane.distortion in
    let streamed = sane.stream in
    elim (Option-cases a.stream) [
      | inl e ↦ ground (arith, e, v)
      | inr (stream, e) ↦ ground (arith, e, v, first, second, streamed)
    ]

-- One call of an operation, whatever CUDA answers.
pub data Step : StaticGpuData → StaticGpuData → Type 0 where
  initialized :
      (a : InitAnswers) (s : StaticGpuData) (gpu : ℤ) (zone_bytes distortion_bytes : ℕ)
      → AreSane a
      → Step s (initialize a s gpu zone_bytes distortion_bytes).0
  uploaded :
      (a : UploadAnswers) (s : StaticGpuData) (type : StaticGpuDataType) (source count offset : ℕ)
      → Step s (upload a s type source count offset).0
  finalized : (a : UploadAnswers) (s : StaticGpuData) → Step s (finalize a s).0
  released : (a : ReleaseAnswers) (s : StaticGpuData) → Step s (release a s).0

-- The states that calls on a new object can reach.
pub data Reachable : StaticGpuData → Type 0 where
  started : Reachable new_data
  stepped : (s s' : StaticGpuData) → Reachable s → Step s s' → Reachable s'

Step-IsConsistent : (s s' : StaticGpuData) → Step s s' → IsConsistent s → IsConsistent s'
Step-IsConsistent _ _ (initialized a s gpu z d sane) v = initialize-IsConsistent a s gpu z d sane v
Step-IsConsistent _ _ (uploaded a s type p n o) v = upload-IsConsistent a s type p n o v
Step-IsConsistent _ _ (finalized a s) v = finalize-IsConsistent a s v
Step-IsConsistent _ _ (released a s) v = release-IsConsistent a s v

-- Where CUDA never answers a successful creation with a null pointer, every state that calls on a
-- new object can reach is consistent: an empty object is like new, and while data can be uploaded
-- or read every buffer that is not empty has its allocation, and there is a stream unless both are
-- empty.
pub Reachable-IsConsistent : (s : StaticGpuData) → Reachable s → IsConsistent s
Reachable-IsConsistent _ started = refl
Reachable-IsConsistent _ (stepped s s' r step) =
    Step-IsConsistent s s' step (Reachable-IsConsistent s r)

-- In a reachable state that is ready, the data of a type that has bytes is there.
pub data_of-bytes :
    (s : StaticGpuData) (type : StaticGpuDataType)
    → Reachable s
    → s.current_state ≡ ready
    → bytes s type ≢ 0
    → data_of s type ≢ null
unfolding data_of bytes buffer_for
data_of-bytes s type r now some_bytes =
    let v = Reachable-IsConsistent s r in ground (arith, v, now, some_bytes)

-- An upload that succeeds in a reachable state stays in the bounds of its buffer, comes from a
-- source that is not null, and leaves an object that was uploading as it was.
pub upload-bounds :
    (a : UploadAnswers) (s : StaticGpuData) (type : StaticGpuDataType) (source count offset : ℕ)
    → Reachable s
    → (upload a s type source count offset).1 ≡ true
    → (offset + count ≤ bytes s type)
      × (source ≢ null)
      × ((upload a s type source count offset).0 ≡ s)
      × (s.current_state ≡ uploading)
unfolding upload bytes buffer_for
upload-bounds a s type source count offset r ok =
    let v = Reachable-IsConsistent s r in ground (arith, v, ok)

-- When the guard, every cudaFree and cudaStreamDestroy succeed, release leaves an object like new,
-- whatever it held; the result says whether its stream, if any, could be synchronized.
pub release-new_data :
    (a : ReleaseAnswers) (s : StaticGpuData)
    → a.device_ok ≡ true
    → ((p : ℕ) → a.freed p ≡ true)
    → a.destroyed ≡ true
    → ((release a s).0 ≡ new_data) × ((release a s).1 ≡ s.upload_stream == null || a.synchronized)
unfolding release has_resources free_buffer
release-new_data a s ok freed destroyed =
    let first = freed s.zones.d_data in
    let second = freed s.distortion.d_data in ground (arith, ok, first, second, destroyed)
