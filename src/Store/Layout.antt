-- ===== src/Store/Layout.antt =====
-- crates/model-store/src/stitch.rs: the bytes of the new file. Its position while it is written is its
-- length so far.
use intelnav.Base.{
  ℕ, ◌+◌, ◌-◌, ◌%◌, max, Bool, ◌&&◌, List, [], ◌∷◌, ◌++◌, ◌==◌, if◌then◌else◌, length, replicate,
  Result, ok, ◌>>=◌, ◌>>◌, guard,
}
use intelnav.Base.Bytes.{to_le, bytes_eq}
use intelnav.Types.{u64_mod}
use intelnav.Gguf.{gguf_magic, is_u32, align_up}
use intelnav.Gguf.Header.{KvEntry}
use intelnav.Store.{Text, text_eq, StoreError, position_drift, Manifest, slice}
use intelnav.Store.Select.{KeptTensor}

-- "intelnav.has_embed"
abbrev pub has_embed_key : Text
has_embed_key =
    105 ∷ 110 ∷ 116 ∷ 101 ∷ 108 ∷ 110 ∷ 97 ∷ 118 ∷ 46 ∷ 104 ∷ 97 ∷ 115 ∷ 95 ∷ 101 ∷ 109 ∷ 98 ∷ 101
    ∷ 100 ∷ []

-- "intelnav.has_head"
abbrev pub has_head_key : Text
has_head_key =
    105 ∷ 110 ∷ 116 ∷ 101 ∷ 108 ∷ 110 ∷ 97 ∷ 118 ∷ 46 ∷ 104 ∷ 97 ∷ 115 ∷ 95 ∷ 104 ∷ 101 ∷ 97 ∷ 100
    ∷ []

unfoldable pub write_string : Text → List ℕ
unfolding to_le
write_string s = to_le 8 (length s) ++ s

unfoldable pub write_kv_u32 : Text → ℕ → List ℕ
unfolding write_string to_le
write_kv_u32 key value = write_string key ++ to_le 4 4 ++ to_le 4 value

unfoldable pub write_kv_bool : Text → Bool → List ℕ
unfolding write_string to_le
write_kv_bool key value = write_string key ++ to_le 4 7 ++ (if value then 1 else 0) ∷ []

-- The metadata copied, but for the number of blocks.
unfoldable pub rewrite_kv : List ℕ → Text → ℕ → List KvEntry → Result StoreError (List ℕ)
unfolding write_kv_u32
rewrite_kv header block_count_key value [] = ok []
rewrite_kv header block_count_key value (kv ∷ kvs) = do
  entry ← slice header kv.entry_start kv.entry_end
  rest ← rewrite_kv header block_count_key value kvs
  ok (
      (if bytes_eq kv.key block_count_key && is_u32 kv.ty then write_kv_u32 kv.key value else entry)
      ++ rest)

abbrev pub concat_u64 : List ℕ → List ℕ
concat_u64 [] = []
concat_u64 (d ∷ ds) = to_le 8 d ++ concat_u64 ds

unfoldable pub index_entry : KeptTensor → ℕ → List ℕ
unfolding write_string to_le
index_entry t cursor =
    write_string t.new_name
    ++ to_le 4 (length t.shape)
    ++ concat_u64 t.shape
    ++ to_le 4 t.dtype_code
    ++ to_le 8 cursor

-- The new tensor index, and the offset of each tensor's data.
unfoldable pub build_index : ℕ → List KeptTensor → ℕ → List ℕ × List ℕ
unfolding index_entry align_up
build_index alignment [] cursor = ([], [])
build_index alignment (t ∷ ts) cursor =
    let rest =
      build_index alignment ts (align_up ((cursor + length t.bytes) % u64_mod) alignment) in
    (index_entry t cursor ++ rest.0, cursor ∷ rest.1)

abbrev pub pad_to : List ℕ → ℕ → List ℕ
pad_to file n = file ++ replicate (n - length file) 0

-- The data of each tensor at its place, the file padded behind it.
unfoldable pub write_tensors :
    ℕ → ℕ → List KeptTensor → List ℕ → List ℕ → Result StoreError (List ℕ)
unfolding align_up
write_tensors alignment data_start [] offs file = ok file
write_tensors alignment data_start (t ∷ ts) [] file = ok file
write_tensors alignment data_start (t ∷ ts) (off ∷ offs) file = do
  guard ((data_start + off) % u64_mod == length file)
      (position_drift ((data_start + off) % u64_mod) (length file))
  write_tensors alignment data_start ts offs
      (pad_to (file ++ t.bytes) (align_up (length (file ++ t.bytes)) alignment))

unfoldable pub new_header : ℕ → ℕ → ℕ → List ℕ → List ℕ → List ℕ
unfolding to_le
new_header version n_tensors n_kv kv index =
    gguf_magic ++ to_le 4 version ++ to_le 8 n_tensors ++ to_le 8 n_kv ++ kv ++ index

-- The header, the padding and the data.
unfoldable pub write_file : Manifest → List KeptTensor → ℕ → List ℕ → Result StoreError (List ℕ)
unfolding build_index new_header align_up write_tensors
write_file manifest kept n_kv kv =
    let alignment = max manifest.gguf.alignment 1 in
    let (index, offs) = build_index alignment kept 0 in
    let header = new_header manifest.gguf.gguf_version (length kept) n_kv kv index in
    let data_start = align_up (length header) alignment in
    write_tensors alignment data_start kept offs (pad_to header data_start)
