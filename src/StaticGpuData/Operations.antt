-- ===== src/StaticGpuData/Operations.antt =====
-- The operations of StaticGpuData.cpp.
use gpuinfra.Prelude.{
  ℕ, ◌-◌, Bool, true, false, not, ◌||◌, ◌&&◌, Option, none, some, ltb, ◌==◌, if◌then◌else◌,
  size_mod, ◌+◌, ◌%◌,
}
use gpuinfra.Prelude.Int.{ℤ, is_neg}
use gpuinfra.Types.{null}
use gpuinfra.StaticGpuData.{
  StaticGpuDataType, detection_zones, distortion_tables, other, uploading, ready, failed, is_empty,
  is_uploading, is_ready, Buffer, StaticGpuData, new_data, ReleaseAnswers, BufferAnswers,
  InitAnswers, UploadAnswers,
}

-- `bufferFor`
unfoldable pub buffer_for : StaticGpuData → StaticGpuDataType → Option Buffer
buffer_for s detection_zones = some s.zones
buffer_for s distortion_tables = some s.distortion
buffer_for s other = none

-- the body of the loop of `release` over the buffers
unfoldable pub free_buffer : (ℕ → Bool) → Buffer → Buffer × Bool
free_buffer freed b =
    if b.d_data == null
    then (b, true)
    else (if freed b.d_data then (record b { d_data = null }, true) else (b, false))

-- the resources that `release` looks for
unfoldable pub has_resources : StaticGpuData → Bool
has_resources s =
    not (s.upload_stream == null)
    || not (s.zones.d_data == null)
    || not (s.distortion.d_data == null)

-- `release`
unfoldable pub release : ReleaseAnswers → StaticGpuData → StaticGpuData × Bool
release a s =
    let held = has_resources s in
    let s₁ : StaticGpuData = if held then record s { current_state = failed } else s in
    if held && not a.device_ok
    then (s₁, false)
    else (let (zones, zones_ok) = free_buffer a.freed s.zones in
        let (distortion, distortion_ok) = free_buffer a.freed s.distortion in
        let no_stream = s.upload_stream == null in
        let stream : ℕ = if a.destroyed then null else s.upload_stream in
        (
          if stream == null && zones.d_data == null && distortion.d_data == null
              then new_data
              else record s₁ { zones = zones; distortion = distortion; upload_stream = stream },
          (no_stream || a.synchronized) && zones_ok && distortion_ok && (no_stream || a.destroyed),
        ))

-- `failInitialization`
unfoldable pub fail_initialization : ReleaseAnswers → StaticGpuData → StaticGpuData × Bool
fail_initialization a s = (record ((release a s).0) { current_state = failed }, false)

-- the body of the loop of `initialize` over the buffers
unfoldable pub allocate_buffer : BufferAnswers → Buffer → Buffer × Bool
allocate_buffer a b = if b.capacity == 0 then (b, true) else elim a.pointer [
  | none ↦ (b, false)
  | some address ↦ (record b { d_data = address }, a.cleared)
]

-- `initialize`
unfoldable pub initialize : InitAnswers → StaticGpuData → ℤ → ℕ → ℕ → StaticGpuData × Bool
initialize a s gpu zone_bytes distortion_bytes =
    let s₁ : StaticGpuData = record s {
      device_id = gpu;
      zones = record (s.zones) { capacity = zone_bytes };
      distortion = record (s.distortion) { capacity = distortion_bytes };
      current_state = failed;
    } in
    if not (is_empty s.current_state)
    then (s, false)
    else (if is_neg gpu || not a.device_ok
        then (record s { current_state = failed }, false)
        else (if zone_bytes == 0 && distortion_bytes == 0
            then (record s₁ { current_state = uploading }, true)
            else elim a.stream [
              | none ↦ fail_initialization a.release s₁
              | some stream ↦
                  let s₂ : StaticGpuData = record s₁ { upload_stream = stream } in
                  let (zones, zones_ok) = allocate_buffer a.zones s₂.zones in
                  let s₃ : StaticGpuData = record s₂ { zones = zones } in
                  let (distortion, distortion_ok) = allocate_buffer a.distortion s₃.distortion in
                  let s₄ : StaticGpuData = record s₃ { distortion = distortion } in
                  if not zones_ok
                  then fail_initialization a.release s₃
                  else (if not distortion_ok
                      then fail_initialization a.release s₄
                      else (record s₄ { current_state = uploading }, true))
            ]))

-- `upload`, from `source`; the difference wraps on a `size_t`
unfoldable pub upload :
    UploadAnswers → StaticGpuData → StaticGpuDataType → ℕ → ℕ → ℕ → StaticGpuData × Bool
upload a s type source count offset =
    let poisoned : StaticGpuData = record s { current_state = failed } in
    if not (is_uploading s.current_state) then (s, false) else elim (buffer_for s type) [
      | none ↦ (poisoned, false)
      | some buffer ↦
          if buffer.capacity == 0
            || source == null
            || count == 0
            || ltb buffer.capacity offset
            || ltb ((buffer.capacity + size_mod - offset) % size_mod) count
            || not a.device_ok
          then (poisoned, false)
          else (if a.copied && a.synchronized then (s, true) else (poisoned, false))
    ]

-- `finalize`
unfoldable pub finalize : UploadAnswers → StaticGpuData → StaticGpuData × Bool
finalize a s =
    if not (is_uploading s.current_state)
    then (s, false)
    else (if a.device_ok && (s.upload_stream == null || a.synchronized)
        then (record s { current_state = ready }, true)
        else (record s { current_state = failed }, false))

-- `data`
unfoldable pub data_of : StaticGpuData → StaticGpuDataType → ℕ
data_of s type = elim (buffer_for s type) [
  | none ↦ null
  | some buffer ↦ if is_ready s.current_state then buffer.d_data else null
]

-- `bytes`
unfoldable pub bytes : StaticGpuData → StaticGpuDataType → ℕ
bytes s type = elim (buffer_for s type) [ none ↦ 0 | some buffer ↦ buffer.capacity ]
