-- ===== src/Store/Emit.antt =====
-- crates/model-store/src/chunker.rs: `chunk_gguf`. The CID of bytes and the JSON of a manifest are
-- parameters.
use intelnav.Base.{
  ℕ, ◌+◌, ◌%◌, Bool, true, false, not, ◌&&◌, none, some, List, [], ◌∷◌, ◌++◌, if◌then◌else◌, length,
  get_elem?, Result, ok, err, ◌>>=◌, or_fail,
}
use intelnav.Base.Table.{put, contains}
use intelnav.Types.{u32_mod}
use intelnav.Gguf.Header.{Gguf, TensorIndexEntry, open_file, kv_entries, tensors, tensor_bytes}
use intelnav.Store.{
  Text, text_eq, Chunks, StoreError, not_empty, panic, parsed, BundleMember, BundleEntry, Manifest,
  slice,
}
use intelnav.Store.Bundle.{kind_name, layer_range}
use intelnav.Store.Chunker.{
  ChunkerOptions, OutputDir, ChunkOutcome, KvInfo, Groups, all_chunks, diagnostics, route, to_kind,
  manifest_version, manifest_format,
}

-- The directory made if it is not there, and one for the chunks in it.
unfoldable pub prepare_output_dir : OutputDir → Bool → Result StoreError OutputDir
prepare_output_dir dir overwrite =
    let empty =
      not dir.others
      && elim dir.manifest_file [ none ↦ true | some f ↦ false ]
      && elim dir.chunks_dir [ none ↦ true | some c ↦ false ] in
    if dir.exists && not overwrite && not empty
    then err not_empty
    else ok (record dir {
      exists = true;
      chunks_dir = some (elim dir.chunks_dir [ none ↦ [] | some c ↦ c ]);
    })

abbrev pub layer_count : KvInfo → ℕ → ℕ
layer_count info next_block = elim info.block_count [ none ↦ next_block % u32_mod | some n ↦ n ]

-- Sum of the numbers of members.
abbrev pub count_members : List BundleEntry → ℕ
count_members [] = 0
count_members (b ∷ bs) = length b.members + count_members bs

-- What the run has done: the chunks, the CIDs that it wrote, and the bundles so far.
pub record Run : Type 0 where
  pub chunks : Chunks
  pub written : List Text
  pub bytes_written : ℕ
  pub entries : List BundleEntry

-- Nothing is written yet.
abbrev pub start_run : Chunks → Run
start_run chunks = record { chunks = chunks; written = []; bytes_written = 0; entries = [] }

module _ (cid_of : List ℕ → Text) where
  abbrev pub member_of : TensorIndexEntry → List ℕ → ℕ → BundleMember
  member_of t bytes offset = record {
    name = t.name;
    shape = t.shape;
    dtype_code = t.dtype;
    data_offset_rel = t.data_offset_rel;
    cid = cid_of bytes;
    size = length bytes;
    offset_in_bundle = offset;
  }

  -- The members and the bytes of a bundle, from the indices of its tensors; `size` bytes are there.
  unfoldable pub build_members :
      List ℕ
      → Gguf
      → List TensorIndexEntry
      → List ℕ
      → ℕ
      → Result StoreError (List BundleMember × List ℕ)
  unfolding tensor_bytes
  build_members buf g ts [] size = ok ([], [])
  build_members buf g ts (i ∷ is) size = do
    t ← or_fail (get_elem? ts i) panic
    bytes ← parsed (tensor_bytes buf g t)
    (members, more) ← build_members buf g ts is (size + length bytes)
    ok (member_of t bytes size ∷ members, bytes ++ more)

  -- A chunk written, unless the run has already written its CID.
  unfoldable pub write_chunk : List ℕ → Run → Run
  unfolding put contains
  write_chunk bytes run = if contains (cid_of bytes) run.written then run else record run {
    chunks = put (cid_of bytes) bytes run.chunks;
    written = cid_of bytes ∷ run.written;
    bytes_written = run.bytes_written + length bytes;
  }

  abbrev pub entry_of : ℕ × ℕ → List BundleMember → List ℕ → BundleEntry
  entry_of key members bytes = record {
    name = kind_name (to_kind key);
    layer_range = layer_range (to_kind key);
    cid = cid_of bytes;
    size = length bytes;
    members = members;
  }

  unfoldable pub emit_bundles :
      List ℕ → Gguf → List TensorIndexEntry → Bool → Groups → Run → Result StoreError Run
  unfolding build_members write_chunk kind_name layer_range to_kind
  emit_bundles buf g ts dry_run [] run = ok run
  emit_bundles buf g ts dry_run ((key, is) ∷ gs) run = do
    (members, bytes) ← build_members buf g ts is 0
    let after = if dry_run then run else write_chunk bytes run
    emit_bundles buf g ts dry_run gs
        (record after { entries = after.entries ++ entry_of key members bytes ∷ [] })

  abbrev pub manifest_of : Gguf → KvInfo → ℕ → List ℕ → List BundleEntry → Manifest
  manifest_of g info n_layers header entries = record {
    format = manifest_format;
    version = manifest_version;
    name = info.model_name;
    architecture = info.arch;
    n_layers = n_layers;
    gguf = record {
      gguf_version = g.version;
      alignment = g.alignment;
      tensor_data_offset = g.tensor_data_offset;
      n_kv = g.n_kv;
      n_tensors = g.n_tensors;
    };
    header_chunk = record { cid = cid_of header; size = length header };
    bundles = entries;
  }

module _ (cid_of : List ℕ → Text) (to_json : Manifest → List ℕ) where
  abbrev pub outcome_of : Manifest → ℕ → ChunkOutcome
  outcome_of manifest bytes_written = record {
    manifest = manifest;
    manifest_cid = cid_of (to_json manifest);
    manifest_bytes = to_json manifest;
    n_bundles = length manifest.bundles;
    n_tensors = count_members manifest.bundles;
    bytes_written = bytes_written;
  }

  -- The manifest written, unless this is a dry run.
  abbrev pub finish : Bool → OutputDir → Run → Manifest → OutputDir × ChunkOutcome
  finish true dir run manifest = (dir, outcome_of manifest 0)
  finish false dir run manifest = (
    record dir { manifest_file = some (to_json manifest); chunks_dir = some run.chunks },
    outcome_of manifest (run.bytes_written + length (to_json manifest)),
  )

  unfoldable pub chunk_gguf :
      List ℕ → ChunkerOptions → OutputDir → Result StoreError (OutputDir × ChunkOutcome)
  unfolding open_file kv_entries diagnostics tensors route prepare_output_dir write_chunk
      emit_bundles
  chunk_gguf buf opts dir = do
    g ← parsed (open_file buf)
    kvs ← parsed (kv_entries buf g)
    info ← diagnostics buf kvs (record { model_name = none; arch = none; block_count = none })
    ts ← parsed (tensors buf g)
    let (groups, next_block) = route ts 0 [] 0
    header ← slice buf 0 g.tensor_data_offset
    prepared ← if opts.dry_run then ok dir else prepare_output_dir dir opts.overwrite
    run ← emit_bundles cid_of buf g ts opts.dry_run groups (
        if opts.dry_run
        then start_run (all_chunks prepared)
        else write_chunk cid_of header (start_run (all_chunks prepared)))
    ok (
        finish opts.dry_run prepared run
          (manifest_of cid_of g info (layer_count info next_block) header run.entries))
