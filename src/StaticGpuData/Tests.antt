-- ===== src/StaticGpuData/Tests.antt =====
-- A run of the static data, and its theorems at concrete inputs.
use gpuinfra.Prelude.{◌+◌, ◌≤◌, ◌≡◌, ◌≢◌, refl, true, some, arith}
use gpuinfra.Prelude.Int.{pos}
use gpuinfra.Types.{null}
use gpuinfra.StaticGpuData.{
  detection_zones, distortion_tables, StaticGpuData, new_data, ReleaseAnswers, InitAnswers,
  UploadAnswers,
}
use gpuinfra.StaticGpuData.Operations.{
  buffer_for, free_buffer, has_resources, release, allocate_buffer, initialize, upload, finalize,
  data_of, bytes,
}
use gpuinfra.StaticGpuData.Steps.{
  IsConsistent, AreSane, Reachable, started, stepped, initialized, uploaded, finalized,
  Reachable-IsConsistent, data_of-bytes, upload-bounds, release-new_data,
}

program : Unit {0}
unfolding buffer_for free_buffer has_resources release allocate_buffer initialize upload finalize
    data_of bytes
program = tt

abbrev freeing : ReleaseAnswers
freeing = record { device_ok = true; synchronized = true; freed = λ p. true; destroyed = true }

abbrev creating : InitAnswers
creating = record {
  device_ok = true;
  stream = some 5;
  zones = record { pointer = some 100; cleared = true };
  distortion = record { pointer = some 200; cleared = true };
  release = freeing;
}

abbrev copying : UploadAnswers
copying = record { device_ok = true; copied = true; synchronized = true }

-- 16 bytes of zones and no distortion tables
abbrev opened : StaticGpuData
opened = (initialize creating new_data (pos 0) 16 0).0

abbrev filled : StaticGpuData
filled = (upload copying opened detection_zones 900 8 8).0

abbrev done : StaticGpuData
done = (finalize copying filled).0

creating-AreSane : AreSane creating
creating-AreSane = record {
  stream = λ e. omega (arith, e);
  zones = λ e. omega (arith, e);
  distortion = λ e. omega (arith, e);
}

opened-Reachable : Reachable opened
opened-Reachable =
    stepped new_data opened started (initialized creating new_data (pos 0) 16 0 creating-AreSane)

done-Reachable : Reachable done
done-Reachable =
    stepped filled done
      (stepped opened filled opened-Reachable (uploaded copying opened detection_zones 900 8 8))
      (finalized copying filled)

data_of-done : data_of done distortion_tables ≡ null
unfolding program
data_of-done = refl

Reachable-IsConsistent_example : IsConsistent done
Reachable-IsConsistent_example = Reachable-IsConsistent done done-Reachable

data_of-bytes_example : data_of done detection_zones ≢ null
unfolding program
data_of-bytes_example =
    data_of-bytes done detection_zones done-Reachable refl (λ e. omega (arith, e))

upload-bounds_example : 8 + 8 ≤ bytes opened detection_zones
unfolding program
upload-bounds_example =
    (upload-bounds copying opened detection_zones 900 8 8 opened-Reachable refl).0

release-new_data_example : (release freeing done).0 ≡ new_data
release-new_data_example = (release-new_data freeing done refl (λ p. refl) refl).0
