-- ===== src/Store/Stitch.antt =====
-- crates/model-store/src/stitch.rs: `stitch_subset`, which puts a GGUF file for a range of layers
-- together from the chunks of a model. The CID of bytes is a parameter, and the outcome has the bytes
-- of the new file.
use intelnav.Base.{
  ℕ, ◌+◌, ◌-◌, List, [], ◌∷◌, ◌++◌, ltb, ◌==◌, length, Result, ok, ◌>>=◌, ◌>>◌, guard, or_fail,
}
use intelnav.Base.Bytes.{bytes_eq}
use intelnav.Gguf.Header.{Gguf, open_file, kv_entries}
use intelnav.Store.{
  Text, text_eq, StoreError, missing, size_mismatch, hash_mismatch, no_architecture, zero_tensors,
  parsed, Manifest,
}
use intelnav.Store.Chunker.{block_count_suffix}
use intelnav.Store.Select.{
  StitchRange, KeptTensor, CacheDir, validate_range, chunks_dir_resolve, map_bundles, keep_tensors,
}
use intelnav.Store.Layout.{
  has_embed_key, has_head_key, write_kv_bool, rewrite_kv, pad_to, write_file,
}

pub record StitchOutcome : Type 0 where
  pub file : List ℕ
  pub size : ℕ
  pub n_tensors : ℕ
  pub n_kv : ℕ

-- The header chunk padded to where the data starts, and one more byte.
unfoldable pub scratch_gguf_from_header : List ℕ → ℕ → List ℕ
scratch_gguf_from_header header tensor_data_offset = pad_to header tensor_data_offset ++ 0 ∷ []

-- The second half of `stitch_subset`: the metadata rewritten, and the file written.
unfoldable pub stitch_kept :
    Manifest
    → StitchRange
    → List ℕ
    → Gguf
    → Text
    → List KeptTensor
    → Result StoreError StitchOutcome
stitch_kept manifest range header original arch kept = do
  kvs ←
      parsed
        (kv_entries (scratch_gguf_from_header header manifest.gguf.tensor_data_offset) original)
  copied ← rewrite_kv header (arch ++ block_count_suffix) (range.end - range.start) kvs
  file ← write_file manifest kept (length kvs + 2) (
      copied
      ++ write_kv_bool has_embed_key range.include_embed
      ++ write_kv_bool has_head_key range.include_head)
  ok (record { file = file; size = length file; n_tensors = length kept; n_kv = length kvs + 2 })

module _ (cid_of : List ℕ → Text) where
  -- The chunk's bytes, if they have its CID.
  unfoldable pub read_chunk : CacheDir → Text → Result StoreError (List ℕ)
  unfolding chunks_dir_resolve
  read_chunk cache cid = do
    bytes ← or_fail (chunks_dir_resolve cache cid) (missing cid)
    guard (bytes_eq (cid_of bytes) cid) (hash_mismatch cid)
    ok bytes

  unfoldable pub stitch_subset : Manifest → CacheDir → StitchRange → Result StoreError StitchOutcome
  stitch_subset manifest cache range = do
    validate_range manifest.n_layers range
    header ← read_chunk cache manifest.header_chunk.cid
    guard (length header == manifest.header_chunk.size) (size_mismatch manifest.header_chunk.cid)
    original ← parsed (open_file (scratch_gguf_from_header header manifest.gguf.tensor_data_offset))
    arch ← or_fail manifest.architecture no_architecture
    mmaps ← map_bundles cache range manifest.bundles
    kept ← keep_tensors mmaps range manifest.bundles
    guard (ltb 0 (length kept)) zero_tensors
    stitch_kept manifest range header original arch kept
