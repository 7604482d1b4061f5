-- ===== src/Tests/Store.antt =====
-- `chunk_gguf`, `verify_chunks` and `stitch_subset` on a model of two layers. A byte string is its own
-- CID.
use intelnav.Base.{
  ℕ, ◌<◌, ◌≡◌, refl, ◌⊎◌, true, false, Option, none, some, List, [], ◌∷◌, ◌++◌, arith, length, ok,
}
use intelnav.Base.Table.{find, put, contains}
use intelnav.Base.Bytes.{to_le, of_le, is_utf8}
use intelnav.Base.Decimal.{show_u32, parse_from, parse_u32}
use intelnav.Types.{u64_mod}
use intelnav.Gguf.{
  from_u32, scalar_size, read_bytes, read_u32, read_u64, read_string, skip_kv_value, skip_scalars,
  align_up, peek_u32,
}
use intelnav.Gguf.Header.{
  Gguf, TensorIndexEntry, walk_kv, read_dims, read_tensor, read_index, open_file, element_type,
  read_entries, kv_entries, tensors, sort_idxs, insert_idx, range_from, fill_bytes, tensor_bytes,
}
use intelnav.Store.{Text, BundleEntry, Manifest, member_bytes}
use intelnav.Store.Bundle.{
  block, kind_name, layer_range, strip_prefix, split_dot, classify_tensor, blk_prefix,
}
use intelnav.Store.Chunker.{
  OutputDir, read_gguf_string, diagnose, diagnostics, key_of, to_kind, push_group, above, route,
  manifest_format,
}
use intelnav.Store.Emit.{
  prepare_output_dir, build_members, write_chunk, emit_bundles, chunk_gguf, outcome_of,
}
use intelnav.Store.Verify.{verify_chunks}
use intelnav.Store.Verified.{Collision, writing, chunk_gguf-verifies}
use intelnav.Store.Select.{
  StitchRange, KeptTensor, CacheDir, validate_range, chunks_dir_resolve, rename_tensor, includes,
  includes_again, map_bundle, map_bundles, keep_members, keep_tensors,
}
use intelnav.Store.Layout.{
  write_string, write_kv_u32, write_kv_bool, rewrite_kv, index_entry, build_index, write_tensors,
  new_header, write_file,
}
use intelnav.Store.Stitch.{
  StitchOutcome, scratch_gguf_from_header, stitch_kept, read_chunk, stitch_subset,
}
use intelnav.Store.Names.{takes, includes-kind_name, rename_tensor-block}
use intelnav.Store.Stitched.{Reopens, stitch_subset-Reopens}
use intelnav.Store.Routing.{Partition, route-partitions}
use intelnav.Store.Drift.{write_file-never-drifts}

abbrev cid : List ℕ → Text
cid bytes = bytes

abbrev header : List ℕ
header =
    (71 ∷ 71 ∷ 85 ∷ 70 ∷ 3 ∷ 0 ∷ 0 ∷ 0 ∷ 4 ∷ 0 ∷ 0 ∷ 0 ∷ 0 ∷ 0 ∷ 0 ∷ 0 ∷ 3 ∷ 0 ∷ 0 ∷ 0 ∷ 0 ∷ 0 ∷ 0
      ∷ 0 ∷ 20 ∷ 0 ∷ 0 ∷ 0 ∷ 0 ∷ 0 ∷ 0 ∷ 0 ∷ 103 ∷ 101 ∷ 110 ∷ 101 ∷ 114 ∷ 97 ∷ 108 ∷ 46 ∷ 97 ∷ 114
      ∷ 99 ∷ 104 ∷ 105 ∷ 116 ∷ 101 ∷ 99 ∷ 116 ∷ 117 ∷ 114 ∷ 101 ∷ 8 ∷ 0 ∷ 0 ∷ 0 ∷ 1 ∷ 0 ∷ 0 ∷ 0 ∷ 0
      ∷ 0 ∷ 0 ∷ 0 ∷ 113 ∷ 17 ∷ 0 ∷ 0 ∷ 0 ∷ 0 ∷ 0 ∷ 0 ∷ 0 ∷ 103 ∷ 101 ∷ 110 ∷ 101 ∷ 114 ∷ 97 ∷ 108
      ∷ 46 ∷ 97 ∷ 108 ∷ 105 ∷ 103 ∷ 110 ∷ 109 ∷ 101 ∷ 110 ∷ 116 ∷ 4 ∷ 0 ∷ 0 ∷ 0 ∷ 4 ∷ 0 ∷ 0 ∷ 0 ∷ 13
      ∷ 0 ∷ 0 ∷ 0 ∷ 0 ∷ 0 ∷ 0 ∷ 0 ∷ 113 ∷ 46 ∷ 98 ∷ 108 ∷ 111 ∷ 99 ∷ 107 ∷ 95 ∷ 99 ∷ 111 ∷ 117 ∷ 110
      ∷ 116 ∷ 4 ∷ 0 ∷ 0 ∷ 0 ∷ 2 ∷ 0 ∷ 0 ∷ 0 ∷ 10 ∷ 0 ∷ 0 ∷ 0 ∷ 0 ∷ 0 ∷ 0 ∷ 0 ∷ 116 ∷ 111 ∷ 107 ∷ 101
      ∷ 110 ∷ 95 ∷ 101 ∷ 109 ∷ 98 ∷ 100 ∷ 1 ∷ 0 ∷ 0 ∷ 0 ∷ 1 ∷ 0 ∷ 0 ∷ 0 ∷ 0 ∷ 0 ∷ 0 ∷ 0 ∷ 0 ∷ 0 ∷ 0
      ∷ 0 ∷ 0 ∷ 0 ∷ 0 ∷ 0 ∷ 0 ∷ 0 ∷ 0 ∷ 0 ∷ 7 ∷ 0 ∷ 0 ∷ 0 ∷ 0 ∷ 0 ∷ 0 ∷ 0 ∷ 98 ∷ 108 ∷ 107 ∷ 46 ∷ 48
      ∷ 46 ∷ 119 ∷ 1 ∷ 0 ∷ 0 ∷ 0 ∷ 1 ∷ 0 ∷ 0 ∷ 0 ∷ 0 ∷ 0 ∷ 0 ∷ 0 ∷ 0 ∷ 0 ∷ 0 ∷ 0 ∷ 4 ∷ 0 ∷ 0 ∷ 0 ∷ 0
      ∷ 0 ∷ 0 ∷ 0 ∷ 7 ∷ 0 ∷ 0 ∷ 0 ∷ 0 ∷ 0 ∷ 0 ∷ 0 ∷ 98 ∷ 108 ∷ 107 ∷ 46 ∷ 49 ∷ 46 ∷ 119 ∷ 1 ∷ 0 ∷ 0
      ∷ 0 ∷ 1 ∷ 0 ∷ 0 ∷ 0 ∷ 0 ∷ 0 ∷ 0 ∷ 0 ∷ 0 ∷ 0 ∷ 0 ∷ 0 ∷ 8 ∷ 0 ∷ 0 ∷ 0 ∷ 0 ∷ 0 ∷ 0 ∷ 0 ∷ 6 ∷ 0
      ∷ 0 ∷ 0 ∷ 0 ∷ 0 ∷ 0 ∷ 0 ∷ 111 ∷ 117 ∷ 116 ∷ 112 ∷ 117 ∷ 116 ∷ 1 ∷ 0 ∷ 0 ∷ 0 ∷ 1 ∷ 0 ∷ 0 ∷ 0
      ∷ 0 ∷ 0 ∷ 0 ∷ 0 ∷ 0 ∷ 0 ∷ 0 ∷ 0 ∷ 12 ∷ 0 ∷ 0 ∷ 0 ∷ 0 ∷ 0 ∷ 0 ∷ 0 ∷ 0 ∷ 0 ∷ 0 ∷ [])

abbrev embed_data : List ℕ
embed_data = (10 ∷ 11 ∷ 12 ∷ 13 ∷ [])

abbrev first_data : List ℕ
first_data = (20 ∷ 21 ∷ 22 ∷ 23 ∷ [])

abbrev second_data : List ℕ
second_data = (30 ∷ 31 ∷ 32 ∷ 33 ∷ [])

abbrev head_data : List ℕ
head_data = (40 ∷ 41 ∷ 42 ∷ 43 ∷ [])

abbrev model : List ℕ
model = header ++ embed_data ++ first_data ++ second_data ++ head_data

abbrev entry : Text → Text → Option (ℕ × ℕ) → ℕ → List ℕ → BundleEntry
entry bundle tensor layers offset bytes = record {
  name = bundle;
  layer_range = layers;
  cid = bytes;
  size = 4;
  members =
      record {
        name = tensor;
        shape = 1 ∷ [];
        dtype_code = 0;
        data_offset_rel = offset;
        cid = bytes;
        size = 4;
        offset_in_bundle = 0;
      }
      ∷ [];
}

abbrev manifest : Manifest
manifest = record {
  format = manifest_format;
  version = 2;
  name = none;
  architecture = some (113 ∷ []);
  n_layers = 2;
  gguf = record {
    gguf_version = 3;
    alignment = 4;
    tensor_data_offset = 288;
    n_kv = 3;
    n_tensors = 4;
  };
  header_chunk = record { cid = header; size = 288 };
  bundles =
      entry (101 ∷ 109 ∷ 98 ∷ 101 ∷ 100 ∷ [])
        (116 ∷ 111 ∷ 107 ∷ 101 ∷ 110 ∷ 95 ∷ 101 ∷ 109 ∷ 98 ∷ 100 ∷ []) none 0 embed_data
      ∷ entry (98 ∷ 108 ∷ 107 ∷ 46 ∷ 48 ∷ []) (98 ∷ 108 ∷ 107 ∷ 46 ∷ 48 ∷ 46 ∷ 119 ∷ [])
          (some (0, 1)) 4 first_data
      ∷ entry (98 ∷ 108 ∷ 107 ∷ 46 ∷ 49 ∷ []) (98 ∷ 108 ∷ 107 ∷ 46 ∷ 49 ∷ 46 ∷ 119 ∷ [])
          (some (1, 2)) 8 second_data
      ∷ entry (104 ∷ 101 ∷ 97 ∷ 100 ∷ []) (111 ∷ 117 ∷ 116 ∷ 112 ∷ 117 ∷ 116 ∷ []) none 12 head_data
      ∷ [];
}

abbrev to_json : Manifest → List ℕ
to_json m = []

abbrev from_json : List ℕ → Option Manifest
from_json bytes = some manifest

-- The directory is not there yet.
abbrev before : OutputDir
before = record { exists = false; others = false; manifest_file = none; chunks_dir = none }

abbrev chunks : List (Text × List ℕ)
chunks =
    (header, header)
    ∷ (embed_data, embed_data)
    ∷ (first_data, first_data)
    ∷ (second_data, second_data)
    ∷ (head_data, head_data)
    ∷ []

abbrev after : OutputDir
after = record { exists = true; others = false; manifest_file = some []; chunks_dir = some chunks }

model_chunked :
    chunk_gguf cid to_json model (writing false) before
    ≡ ok (after, outcome_of cid to_json manifest 304)
unfolding chunk_gguf open_file read_bytes read_u32 read_u64 read_string walk_kv from_u32
    skip_kv_value skip_scalars scalar_size read_index read_tensor read_dims align_up of_le is_utf8
    kv_entries read_entries element_type peek_u32 diagnostics diagnose read_gguf_string tensors
    sort_idxs insert_idx range_from fill_bytes tensor_bytes route classify_tensor strip_prefix
    split_dot parse_u32 parse_from key_of push_group above prepare_output_dir write_chunk
    emit_bundles build_members kind_name layer_range to_kind show_u32 put contains
model_chunked = refl

chunk_gguf-verifies_example : (verify_chunks cid from_json after ≡ ok tt) ⊎ Collision cid
chunk_gguf-verifies_example =
    chunk_gguf-verifies cid to_json from_json model false before after
      (outcome_of cid to_json manifest 304) model_chunked refl
      (omega arith, (omega arith, (omega arith, (omega arith, tt))))

-- The second layer and the head.
abbrev range : StitchRange
range = record { start = 1; end = 2; include_embed = false; include_head = true }

abbrev cache : CacheDir
cache = record { chunks = []; flat = chunks }

abbrev stitched_file : List ℕ
stitched_file =
    (71 ∷ 71 ∷ 85 ∷ 70 ∷ 3 ∷ 0 ∷ 0 ∷ 0 ∷ 2 ∷ 0 ∷ 0 ∷ 0 ∷ 0 ∷ 0 ∷ 0 ∷ 0 ∷ 5 ∷ 0 ∷ 0 ∷ 0 ∷ 0 ∷ 0 ∷ 0
      ∷ 0 ∷ 20 ∷ 0 ∷ 0 ∷ 0 ∷ 0 ∷ 0 ∷ 0 ∷ 0 ∷ 103 ∷ 101 ∷ 110 ∷ 101 ∷ 114 ∷ 97 ∷ 108 ∷ 46 ∷ 97 ∷ 114
      ∷ 99 ∷ 104 ∷ 105 ∷ 116 ∷ 101 ∷ 99 ∷ 116 ∷ 117 ∷ 114 ∷ 101 ∷ 8 ∷ 0 ∷ 0 ∷ 0 ∷ 1 ∷ 0 ∷ 0 ∷ 0 ∷ 0
      ∷ 0 ∷ 0 ∷ 0 ∷ 113 ∷ 17 ∷ 0 ∷ 0 ∷ 0 ∷ 0 ∷ 0 ∷ 0 ∷ 0 ∷ 103 ∷ 101 ∷ 110 ∷ 101 ∷ 114 ∷ 97 ∷ 108
      ∷ 46 ∷ 97 ∷ 108 ∷ 105 ∷ 103 ∷ 110 ∷ 109 ∷ 101 ∷ 110 ∷ 116 ∷ 4 ∷ 0 ∷ 0 ∷ 0 ∷ 4 ∷ 0 ∷ 0 ∷ 0 ∷ 13
      ∷ 0 ∷ 0 ∷ 0 ∷ 0 ∷ 0 ∷ 0 ∷ 0 ∷ 113 ∷ 46 ∷ 98 ∷ 108 ∷ 111 ∷ 99 ∷ 107 ∷ 95 ∷ 99 ∷ 111 ∷ 117 ∷ 110
      ∷ 116 ∷ 4 ∷ 0 ∷ 0 ∷ 0 ∷ 1 ∷ 0 ∷ 0 ∷ 0 ∷ 18 ∷ 0 ∷ 0 ∷ 0 ∷ 0 ∷ 0 ∷ 0 ∷ 0 ∷ 105 ∷ 110 ∷ 116 ∷ 101
      ∷ 108 ∷ 110 ∷ 97 ∷ 118 ∷ 46 ∷ 104 ∷ 97 ∷ 115 ∷ 95 ∷ 101 ∷ 109 ∷ 98 ∷ 101 ∷ 100 ∷ 7 ∷ 0 ∷ 0 ∷ 0
      ∷ 0 ∷ 17 ∷ 0 ∷ 0 ∷ 0 ∷ 0 ∷ 0 ∷ 0 ∷ 0 ∷ 105 ∷ 110 ∷ 116 ∷ 101 ∷ 108 ∷ 110 ∷ 97 ∷ 118 ∷ 46 ∷ 104
      ∷ 97 ∷ 115 ∷ 95 ∷ 104 ∷ 101 ∷ 97 ∷ 100 ∷ 7 ∷ 0 ∷ 0 ∷ 0 ∷ 1 ∷ 7 ∷ 0 ∷ 0 ∷ 0 ∷ 0 ∷ 0 ∷ 0 ∷ 0
      ∷ 98 ∷ 108 ∷ 107 ∷ 46 ∷ 48 ∷ 46 ∷ 119 ∷ 1 ∷ 0 ∷ 0 ∷ 0 ∷ 1 ∷ 0 ∷ 0 ∷ 0 ∷ 0 ∷ 0 ∷ 0 ∷ 0 ∷ 0 ∷ 0
      ∷ 0 ∷ 0 ∷ 0 ∷ 0 ∷ 0 ∷ 0 ∷ 0 ∷ 0 ∷ 0 ∷ 0 ∷ 6 ∷ 0 ∷ 0 ∷ 0 ∷ 0 ∷ 0 ∷ 0 ∷ 0 ∷ 111 ∷ 117 ∷ 116
      ∷ 112 ∷ 117 ∷ 116 ∷ 1 ∷ 0 ∷ 0 ∷ 0 ∷ 1 ∷ 0 ∷ 0 ∷ 0 ∷ 0 ∷ 0 ∷ 0 ∷ 0 ∷ 0 ∷ 0 ∷ 0 ∷ 0 ∷ 4 ∷ 0 ∷ 0
      ∷ 0 ∷ 0 ∷ 0 ∷ 0 ∷ 0 ∷ 0 ∷ 0 ∷ 0 ∷ 30 ∷ 31 ∷ 32 ∷ 33 ∷ 40 ∷ 41 ∷ 42 ∷ 43 ∷ [])

abbrev outcome : StitchOutcome
outcome = record { file = stitched_file; size = 276; n_tensors = 2; n_kv = 5 }

range_stitched : stitch_subset cid manifest cache range ≡ ok outcome
unfolding stitch_subset validate_range read_chunk chunks_dir_resolve find scratch_gguf_from_header
    open_file read_bytes read_u32 read_u64 read_string walk_kv from_u32 skip_kv_value skip_scalars
    scalar_size read_index read_tensor read_dims align_up of_le is_utf8 kv_entries read_entries
    element_type map_bundles map_bundle includes includes_again strip_prefix split_dot parse_u32
    parse_from show_u32 keep_tensors keep_members member_bytes rename_tensor stitch_kept rewrite_kv
    write_kv_u32 write_kv_bool write_string to_le write_file build_index index_entry new_header
    write_tensors peek_u32
range_stitched = refl

abbrev original : Gguf
original = record {
  version = 3;
  alignment = 4;
  tensor_data_offset = 288;
  n_kv = 3;
  n_tensors = 4;
  kv_end_offset = 127;
  index_end_offset = 285;
}

header_read : read_chunk cid cache header ≡ ok header
unfolding read_chunk chunks_dir_resolve find
header_read = refl

header_opens : open_file (scratch_gguf_from_header header 288) ≡ ok original
unfolding scratch_gguf_from_header open_file read_bytes read_u32 read_u64 read_string walk_kv
    from_u32 skip_kv_value skip_scalars scalar_size read_index read_tensor read_dims align_up of_le
    is_utf8
header_opens = refl

scratch_small : length (scratch_gguf_from_header header 288) < u64_mod
unfolding scratch_gguf_from_header
scratch_small = omega arith

stitch_subset-Reopens_example : Reopens manifest cache range outcome
unfolding is_utf8
stitch_subset-Reopens_example =
    stitch_subset-Reopens cid manifest cache range outcome header original range_stitched
      header_read header_opens refl scratch_small (omega arith) refl (omega arith) (omega arith)
      (
        ((refl, omega arith, (omega arith, tt), omega arith), tt),
        (
          ((refl, omega arith, (omega arith, tt), omega arith), tt),
          (
            ((refl, omega arith, (omega arith, tt), omega arith), tt),
            (((refl, omega arith, (omega arith, tt), omega arith), tt), tt),
          ),
        ),
      )

includes-kind_name_example : includes range (kind_name (block 1)) ≡ ok (takes range (block 1))
includes-kind_name_example = includes-kind_name range (block 1) (omega arith)

rename_tensor-block_example :
    (rename_tensor (blk_prefix ++ (show_u32 7 ++ 46 ∷ 119 ∷ [])) 3
      ≡ blk_prefix ++ (show_u32 4 ++ 46 ∷ 119 ∷ []))
    × (classify_tensor (blk_prefix ++ (show_u32 7 ++ 46 ∷ 119 ∷ [])) ≡ block 7)
    × (classify_tensor (rename_tensor (blk_prefix ++ (show_u32 7 ++ 46 ∷ 119 ∷ [])) 3) ≡ block 4)
rename_tensor-block_example = rename_tensor-block 7 3 119 [] (omega arith)

abbrev tensor : Text → TensorIndexEntry
tensor name = record { name = name; shape = 1 ∷ []; dtype = 0; data_offset_rel = 0; n_bytes = 4 }

abbrev routed : List TensorIndexEntry
routed =
    tensor (111 ∷ 117 ∷ 116 ∷ 112 ∷ 117 ∷ 116 ∷ [])
    ∷ tensor (98 ∷ 108 ∷ 107 ∷ 46 ∷ 49 ∷ 46 ∷ 119 ∷ [])
    ∷ tensor (116 ∷ 111 ∷ 107 ∷ 101 ∷ 110 ∷ 95 ∷ 101 ∷ 109 ∷ 98 ∷ 100 ∷ [])
    ∷ []

route-partitions_example : Partition routed 3 (route routed 0 [] 0).0
route-partitions_example = route-partitions routed

abbrev kept : List KeptTensor
kept = record { new_name = 116 ∷ []; dtype_code = 0; shape = 1 ∷ []; bytes = head_data } ∷ []

write_file-never-drifts_example : (file : List ℕ) × (write_file manifest kept 0 [] ≡ ok file)
unfolding new_header build_index index_entry write_string to_le align_up
write_file-never-drifts_example = write_file-never-drifts manifest kept 0 [] (omega arith)
