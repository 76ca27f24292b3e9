-- ===== src/Types.antt =====
-- The plain types that the components share: src/Types, src/DataCache/GpuDataKey.h. A device
-- pointer, a stream and an owner are addresses, with 0 for `nullptr`; an `int` is a ℤ.
use gpuinfra.Prelude.{
  ℕ, ◌+◌, ◌*◌, ◌/◌, ◌%◌, ◌^◌, ◌≡◌, ◌↔◌, Bool, true, ◌&&◌, bit_xor, arith, ◌==◌, size_mod,
}
use gpuinfra.Prelude.Int.{ℤ, pos, eq_ℤ}

-- `GpuDataKey`
pub record GpuDataKey : Type 0 where
  pub frame_id : ℕ
  pub camera_id : ℕ
  pub variant_id : ℕ

abbrev pub default_key : GpuDataKey
default_key = record { frame_id = 0; camera_id = 0; variant_id = 0 }

-- `GpuDataKey::operator==`
unfoldable pub key_eq : GpuDataKey → GpuDataKey → Bool
key_eq k j = k.frame_id == j.frame_id && k.camera_id == j.camera_id && k.variant_id == j.variant_id

pub key_eq_iff : (k j : GpuDataKey) → (key_eq k j ≡ true) ↔ (k ≡ j)
unfolding key_eq
key_eq_iff k j = ground arith

-- `std::hash` for the two integer types, which the source takes from the standard library.
pub record StdHash : Type 0 where
  pub hash_u64 : ℕ → ℕ
  pub hash_u32 : ℕ → ℕ

-- one `value ^= h + 0x9e3779b97f4a7c15 + (value << 6) + (value >> 2)` on 64-bit words
unfoldable pub hash_mix : ℕ → ℕ → ℕ
hash_mix value h =
    bit_xor value
      ((h + 0x9e37_79b9_7f4a_7c15 + (value * 2 ^ 6) % size_mod + value / 2 ^ 2) % size_mod)

-- `GpuDataKeyHash::operator()`
unfoldable pub key_hash : StdHash → GpuDataKey → ℕ
unfolding hash_mix
key_hash std key =
    hash_mix (hash_mix (std.hash_u64 key.frame_id) (std.hash_u32 key.camera_id))
      (std.hash_u64 key.variant_id)

-- `FrameMetadata`
pub record FrameMetadata : Type 0 where
  pub key : GpuDataKey
  pub bytes : ℕ
  pub width : ℤ
  pub height : ℤ
  pub dtype : ℤ

abbrev pub default_metadata : FrameMetadata
default_metadata = record {
  key = default_key;
  bytes = 0;
  width = pos 0;
  height = pos 0;
  dtype = pos 0;
}

-- `FrameMetadata::operator==`
unfoldable pub metadata_eq : FrameMetadata → FrameMetadata → Bool
unfolding key_eq
metadata_eq m o =
    key_eq m.key o.key
    && m.bytes == o.bytes
    && eq_ℤ m.width o.width
    && eq_ℤ m.height o.height
    && eq_ℤ m.dtype o.dtype

pub metadata_eq_iff : (m o : FrameMetadata) → (metadata_eq m o ≡ true) ↔ (m ≡ o)
unfolding metadata_eq
metadata_eq_iff m o = ground arith

-- `AlgoRuntimeInfo`
pub record AlgoRuntimeInfo : Type 0 where
  pub in_bytes : ℕ
  pub size_factor : ℤ
  pub frame_w : ℤ
  pub frame_h : ℤ
  pub frame_dtype : ℤ

abbrev pub default_runtime : AlgoRuntimeInfo
default_runtime = record {
  in_bytes = 0;
  size_factor = pos 0;
  frame_w = pos 0;
  frame_h = pos 0;
  frame_dtype = pos 0;
}

-- `nullptr`
abbrev pub null : ℕ
null = 0
