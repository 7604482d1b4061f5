-- ===== src/Store/Chunker.antt =====
-- crates/model-store/src/chunker.rs: `chunk_gguf` and `verify_chunks`. The CID of bytes, the JSON
-- of a manifest and its parser are parameters. The chunks' temporary files are not in the model: a
-- chunk is there under its CID once it is renamed.
use intelnav.Base.{
  ℕ, ◌+◌, ◌-◌, ◌%◌, max, Bool, ◌&&◌, ◌||◌, Option, none, some, List, [], ◌∷◌, ◌++◌, ltb, leb, ◌==◌,
  if◌then◌else◌, length, take, drop, Result, ok, err, ◌>>=◌,
}
use intelnav.Base.Table.{pair_eq}
use intelnav.Base.Bytes.{bytes_eq, of_le, is_utf8}
use intelnav.Types.{u64_mod}
use intelnav.Gguf.{KvType, string}
use intelnav.Gguf
use intelnav.Gguf.Header.{KvEntry, TensorIndexEntry}
use intelnav.Store.{Text, text_eq, Chunks, StoreError, panic, Manifest, slice}
use intelnav.Store.Bundle.{BundleKind, embed, block, head, classify_tensor}

abbrev pub manifest_version : ℕ
manifest_version = 2

-- "intelnav-model"
abbrev pub manifest_format : Text
manifest_format =
    105 ∷ 110 ∷ 116 ∷ 101 ∷ 108 ∷ 110 ∷ 97 ∷ 118 ∷ 45 ∷ 109 ∷ 111 ∷ 100 ∷ 101 ∷ 108 ∷ []

-- "general.name"
abbrev general_name : Text
general_name = 103 ∷ 101 ∷ 110 ∷ 101 ∷ 114 ∷ 97 ∷ 108 ∷ 46 ∷ 110 ∷ 97 ∷ 109 ∷ 101 ∷ []

-- "general.architecture"
abbrev general_architecture : Text
general_architecture =
    103 ∷ 101 ∷ 110 ∷ 101 ∷ 114 ∷ 97 ∷ 108 ∷ 46 ∷ 97 ∷ 114 ∷ 99 ∷ 104 ∷ 105 ∷ 116 ∷ 101 ∷ 99 ∷ 116
    ∷ 117 ∷ 114 ∷ 101 ∷ []

-- ".block_count"
abbrev pub block_count_suffix : Text
block_count_suffix = 46 ∷ 98 ∷ 108 ∷ 111 ∷ 99 ∷ 107 ∷ 95 ∷ 99 ∷ 111 ∷ 117 ∷ 110 ∷ 116 ∷ []

abbrev ends_with : Text → Text → Bool
ends_with suffix xs = bytes_eq (drop (length xs - length suffix) xs) suffix

pub record ChunkerOptions : Type 0 where
  pub overwrite : Bool
  pub dry_run : Bool

-- The output directory: the chunks below it if their directory is there, and whether it holds
-- anything besides them and the manifest.
pub record OutputDir : Type 0 where
  pub exists : Bool
  pub others : Bool
  pub manifest_file : Option (List ℕ)
  pub chunks_dir : Option Chunks

abbrev pub all_chunks : OutputDir → Chunks
all_chunks dir = elim dir.chunks_dir [ none ↦ [] | some c ↦ c ]

pub record ChunkOutcome : Type 0 where
  pub manifest : Manifest
  pub manifest_cid : Text
  pub manifest_bytes : List ℕ
  pub n_bundles : ℕ
  pub n_tensors : ℕ
  pub bytes_written : ℕ

-- What the metadata says of the model.
pub record KvInfo : Type 0 where
  pub model_name : Option Text
  pub arch : Option Text
  pub block_count : Option ℕ

-- The end wraps before it is tested.
unfoldable pub read_gguf_string : List ℕ → Result StoreError (Option Text)
read_gguf_string bytes =
    let end = (8 + of_le (take 8 bytes)) % u64_mod in
    if ltb (length bytes) 8 || ltb (length bytes) end
    then ok none
    else if ltb end 8
    then err panic
    else (let text = take (end - 8) (drop 8 bytes) in
        if is_utf8 text then ok (some text) else ok none)

unfoldable pub diagnose : KvType → Text → List ℕ → KvInfo → Result StoreError KvInfo
unfolding read_gguf_string
diagnose string key val info =
    if bytes_eq key general_name
    then (read_gguf_string val >>= λ t. ok (record info { model_name = t }))
    else if bytes_eq key general_architecture
    then (read_gguf_string val >>= λ t. ok (record info { arch = t }))
    else ok info
diagnose Gguf.u32 key val info =
    if ends_with block_count_suffix key && leb 4 (length val)
    then ok (record info { block_count = some (of_le (take 4 val)) })
    else ok info
diagnose _ key val info = ok info

unfoldable pub diagnostics : List ℕ → List KvEntry → KvInfo → Result StoreError KvInfo
unfolding diagnose
diagnostics buf [] info = ok info
diagnostics buf (kv ∷ kvs) info = do
  val ← slice buf kv.value_start kv.entry_end
  next ← diagnose kv.ty kv.key val info
  diagnostics buf kvs next

-- `BundleKey`: `Embed < Block 0 < Block 1 < ... < Head`.
unfoldable pub key_of : BundleKind → ℕ × ℕ
key_of embed = (0, 0)
key_of (block n) = (1, n)
key_of head = (2, 0)

unfoldable pub to_kind : ℕ × ℕ → BundleKind
to_kind (tag, n) = if tag == 0 then embed else if tag == 1 then block n else head

abbrev pub key_less : ℕ × ℕ → ℕ × ℕ → Bool
key_less a b = ltb a.0 b.0 || a.0 == b.0 && ltb a.1 b.1

abbrev pub Groups : Type 0
Groups = List ((ℕ × ℕ) × List ℕ)

-- `groups.entry(key).or_default().push(i)`, the map in the order of its keys.
unfoldable pub push_group : ℕ × ℕ → ℕ → Groups → Groups
push_group k i [] = (k, i ∷ []) ∷ []
push_group k i ((j, is) ∷ gs) =
    let rest = push_group k i gs in
    if pair_eq k j
    then (j, is ++ i ∷ []) ∷ gs
    else if key_less k j
    then (k, i ∷ []) ∷ (j, is) ∷ gs
    else (j, is) ∷ rest

-- One above the highest block seen: the source's `max_block + 1`.
unfoldable pub above : BundleKind → ℕ → ℕ
above (block n) next_block = max (n + 1) next_block
above embed next_block = next_block
above head next_block = next_block

-- Routes the tensors from index `i` on.
unfoldable pub route : List TensorIndexEntry → ℕ → Groups → ℕ → Groups × ℕ
unfolding classify_tensor key_of push_group above
route [] i groups next_block = (groups, next_block)
route (t ∷ ts) i groups next_block =
    let kind = classify_tensor t.name in
    route ts (i + 1) (push_group (key_of kind) i groups) (above kind next_block)
