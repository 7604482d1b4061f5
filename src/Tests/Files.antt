-- ===== src/Tests/Files.antt =====
-- The parser of crates/model-store/src/gguf.rs on a small file.
use intelnav.Base.{ℕ, ◌+◌, ◌≤◌, ◌≡◌, refl, ◌↔◌, List, [], ◌∷◌, ◌++◌, arith, length, ok, err}
use intelnav.Base.Bytes.{of_le, is_utf8}
use intelnav.Types.{u64_mod}
use intelnav.Gguf.{
  panic, from_u32, scalar_size, read_bytes, read_u32, read_u64, read_string, skip_kv_value,
  skip_scalars, align_up, gguf_version_supported, gguf_max_tensors, gguf_max_kv,
}
use intelnav.Gguf.Cursor.{read_bytes-panics_iff}
use intelnav.Gguf.Header.{
  Gguf, KvEntry, TensorIndexEntry, walk_kv, read_dims, read_tensor, read_index, open_file,
  kv_entries,
}
use intelnav.Gguf.Walk.{Tiles}
use intelnav.Gguf.Offsets.{open_file-bounds, kv_entries-tile}

-- One entry of metadata, "a" with the byte 7, and one tensor, "t", of one dimension.
abbrev small : List ℕ
small =
    (71 ∷ 71 ∷ 85 ∷ 70 ∷ 3 ∷ 0 ∷ 0 ∷ 0 ∷ 1 ∷ 0 ∷ 0 ∷ 0 ∷ 0 ∷ 0 ∷ 0 ∷ 0 ∷ 1 ∷ 0 ∷ 0 ∷ 0 ∷ 0 ∷ 0 ∷ 0
      ∷ 0 ∷ [])
    ++ (1 ∷ 0 ∷ 0 ∷ 0 ∷ 0 ∷ 0 ∷ 0 ∷ 0 ∷ 97 ∷ 0 ∷ 0 ∷ 0 ∷ 0 ∷ 7 ∷ [])
    ++ (1 ∷ 0 ∷ 0 ∷ 0 ∷ 0 ∷ 0 ∷ 0 ∷ 0 ∷ 116 ∷ 1 ∷ 0 ∷ 0 ∷ 0 ∷ 4 ∷ 0 ∷ 0 ∷ 0 ∷ 0 ∷ 0 ∷ 0 ∷ 0 ∷ [])
    ++ (0 ∷ 0 ∷ 0 ∷ 0 ∷ 0 ∷ 0 ∷ 0 ∷ 0 ∷ 0 ∷ 0 ∷ 0 ∷ 0 ∷ [])

abbrev small_header : Gguf
small_header = record {
  version = 3;
  alignment = 32;
  tensor_data_offset = 96;
  n_kv = 1;
  n_tensors = 1;
  kv_end_offset = 38;
  index_end_offset = 71;
}

small_opens : open_file small ≡ ok small_header
unfolding open_file read_bytes read_u32 read_u64 read_string walk_kv from_u32 skip_kv_value
    skip_scalars scalar_size read_index read_tensor read_dims align_up of_le is_utf8
small_opens = refl

open_file-bounds_example :
    (3 ≡ gguf_version_supported)
    × (1 ≤ gguf_max_tensors)
    × (1 ≤ gguf_max_kv)
    × (24 ≤ 38)
    × (38 ≤ 71)
    × (71 ≤ length small)
    × ((ts : List TensorIndexEntry) × (read_index small 1 38 ≡ ok (ts, 71)) × (length ts ≡ 1))
open_file-bounds_example = open_file-bounds small small_header small_opens

kv_entries-tile_example :
    (es : List KvEntry) × (kv_entries small small_header ≡ ok es) × (length es ≡ 1) × Tiles 24 es 38
kv_entries-tile_example = kv_entries-tile small small_header small_opens

read_bytes-panics_iff_example :
    read_bytes small 18446744073709551615 24 ≡ err panic ↔ u64_mod ≤ 24 + 18446744073709551615
read_bytes-panics_iff_example =
    read_bytes-panics_iff small 18446744073709551615 24 (omega arith) (omega arith) (omega arith)
