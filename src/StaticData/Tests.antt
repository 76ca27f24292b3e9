-- ===== src/StaticData/Tests.antt =====
-- The memory plan at a concrete configuration.
use gpuinfra.Prelude.{◌+◌, ◌≤◌, refl, true, false, some, [], ◌∷◌}
use gpuinfra.Prelude.Int.{pos}
use gpuinfra.Types.{default_runtime}
use gpuinfra.Access.{lru}
use gpuinfra.Entry.{initialize_entry}
use gpuinfra.Residency.{grow_slots, required_slots, slot_count_for, initialize}
use gpuinfra.Cache.{new_cache}
use gpuinfra.Cache.Manage.{is_pristine, is_one_gpu, make_entries, ascending, initialize_cache}
use gpuinfra.StaticGpuData.{new_data}
use gpuinfra.StaticGpuData.Operations
use gpuinfra.StaticData.{
  StaticDataConfig, StaticData, StaticAnswers, cache_gpu_bytes, total_gpu_bytes, plan_fits,
  has_memory, init_parts, init,
}
use gpuinfra.StaticData.Plan.{required_bytes, init-required_bytes}

program : Unit {0}
unfolding initialize_entry grow_slots required_slots slot_count_for initialize is_pristine
    is_one_gpu make_entries ascending initialize_cache Operations.allocate_buffer
    Operations.initialize Operations.finalize cache_gpu_bytes total_gpu_bytes plan_fits has_memory
    init_parts init
program = tt

-- two frames of 16 bytes and 8 bytes of zones
abbrev config : StaticDataConfig
config = record {
  runtime = record default_runtime { in_bytes = 16; frame_w = pos 4; frame_h = pos 4 };
  detection_zone_bytes = 8;
  distortion_bytes = 0;
  gpu_cache_entries = 2;
  gpu_cache_wait_timeout = pos 50;
  gpu_cache_eviction_policy = lru;
}

abbrev new_static_data : StaticData
new_static_data = record {
  gpu_data_cache = new_cache 1;
  gpu_static_data = new_data;
  frame_runtime = default_runtime;
  initialized = false;
}

abbrev answers : StaticAnswers
answers = record {
  gpus = (pos 0 ∷ [], true);
  device_ok = true;
  free_bytes = some 40;
  resize_ok = true;
  pointer = λ i. some (i + 1000);
  static_data = record {
    device_ok = true;
    stream = some 5;
    zones = record { pointer = some 100; cleared = true };
    distortion = record { pointer = some 200; cleared = true };
    release = record { device_ok = true; synchronized = true; freed = λ p. true; destroyed = true };
  };
  finalized = record { device_ok = true; copied = true; synchronized = true };
  freed = λ p. true;
}

init-required_bytes_example : required_bytes config ≤ 40
unfolding program
init-required_bytes_example = (init-required_bytes answers new_static_data config 40 refl refl).1
