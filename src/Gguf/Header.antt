-- ===== src/Gguf/Header.antt =====
-- crates/model-store/src/gguf.rs: what `Gguf::open`, `kv_entries` and `tensors` make of a file.
use intelnav.Base.{
  ℕ, zero, suc, ◌+◌, ◌-◌, ◌%◌, ◌&&◌, ◌||◌, Option, none, some, List, [], ◌∷◌, ltb, leb, ◌==◌,
  if◌then◌else◌, length, get_elem?, set, take, drop, Result, ok, err, ◌>>=◌, ◌>>◌, guard,
}
use intelnav.Base.Bytes.{of_le, bytes_eq}
use intelnav.Types.{u64_mod}
use intelnav.Gguf.{
  GgufError, bad_magic, bad_version, malformed, panic, KvType, array, gguf_version_supported,
  gguf_default_alignment, gguf_max_tensors, gguf_max_kv, gguf_max_dims, gguf_magic, alignment_key,
  from_u32, is_u32, read_bytes, read_u32, read_u64, read_string, peek_u32, skip_kv_value, align_up,
}

pub record Gguf : Type 0 where
  pub version : ℕ
  pub alignment : ℕ
  pub tensor_data_offset : ℕ
  pub n_kv : ℕ
  pub n_tensors : ℕ
  pub kv_end_offset : ℕ
  pub index_end_offset : ℕ

pub record KvEntry : Type 0 where
  pub key : List ℕ
  pub ty : KvType
  pub array_element_ty : Option KvType
  pub value_start : ℕ
  pub entry_start : ℕ
  pub entry_end : ℕ

pub record TensorIndexEntry : Type 0 where
  pub name : List ℕ
  pub shape : List ℕ
  pub dtype : ℕ
  pub data_offset_rel : ℕ
  pub n_bytes : ℕ

-- The first walk over the metadata: the alignment, and where the metadata ends.
unfoldable pub walk_kv : List ℕ → ℕ → ℕ → ℕ → Result GgufError (ℕ × ℕ)
unfolding read_string read_u32 from_u32 skip_kv_value
walk_kv buf zero alignment pos = ok (alignment, pos)
walk_kv buf (suc n) alignment pos = do
  (key, p) ← read_string buf pos
  (t, q) ← read_u32 buf p
  ty ← from_u32 t
  r ← skip_kv_value buf ty q
  walk_kv buf n
      (if bytes_eq key alignment_key && is_u32 ty then of_le (take 4 (drop q buf)) else alignment) r

unfoldable pub read_dims : List ℕ → ℕ → ℕ → Result GgufError (List ℕ × ℕ)
unfolding read_u64
read_dims buf zero pos = ok ([], pos)
read_dims buf (suc n) pos = do
  (d, p) ← read_u64 buf pos
  (ds, q) ← read_dims buf n p
  ok (d ∷ ds, q)

-- One entry of the tensor index; the size in bytes is filled in later.
unfoldable pub read_tensor : List ℕ → ℕ → Result GgufError (TensorIndexEntry × ℕ)
unfolding read_string read_u32 read_dims
read_tensor buf pos = do
  (name, p) ← read_string buf pos
  (n_dims, q) ← read_u32 buf p
  guard (leb n_dims gguf_max_dims) (malformed q)
  (shape, r) ← read_dims buf n_dims q
  (dtype, s) ← read_u32 buf r
  (offset, t) ← read_u64 buf s
  ok (
    record { name = name; shape = shape; dtype = dtype; data_offset_rel = offset; n_bytes = 0 },
    t,
  )

unfoldable pub read_index : List ℕ → ℕ → ℕ → Result GgufError (List TensorIndexEntry × ℕ)
unfolding read_tensor
read_index buf zero pos = ok ([], pos)
read_index buf (suc n) pos = do
  (e, p) ← read_tensor buf pos
  (es, q) ← read_index buf n p
  ok (e ∷ es, q)

unfoldable pub open_file : List ℕ → Result GgufError Gguf
unfolding read_bytes read_u32 read_u64 walk_kv read_index align_up
open_file buf = do
  (magic, p) ← read_bytes buf 4 0
  guard (bytes_eq magic gguf_magic) (bad_magic magic)
  (version, q) ← read_u32 buf p
  guard (version == gguf_version_supported) (bad_version version)
  (n_tensors, r) ← read_u64 buf q
  (n_kv, s) ← read_u64 buf r
  guard (leb n_tensors gguf_max_tensors) (malformed 16)
  guard (leb n_kv gguf_max_kv) (malformed 24)
  (alignment, kv_end) ← walk_kv buf n_kv gguf_default_alignment s
  (index, index_end) ← read_index buf n_tensors kv_end
  ok (record {
    version = version;
    alignment = alignment;
    tensor_data_offset = align_up index_end alignment;
    n_kv = n_kv;
    n_tensors = n_tensors;
    kv_end_offset = kv_end;
    index_end_offset = index_end;
  })

unfoldable pub element_type : List ℕ → KvType → ℕ → Result GgufError (Option KvType)
unfolding peek_u32 from_u32
element_type buf array pos = peek_u32 buf pos >>= λ t. from_u32 t >>= λ ty. ok (some ty)
element_type buf ty pos = ok none

unfoldable pub read_entries : List ℕ → ℕ → ℕ → Result GgufError (List KvEntry × ℕ)
unfolding read_string read_u32 from_u32 skip_kv_value element_type
read_entries buf zero pos = ok ([], pos)
read_entries buf (suc n) pos = do
  (key, p) ← read_string buf pos
  (t, q) ← read_u32 buf p
  ty ← from_u32 t
  element ← element_type buf ty q
  r ← skip_kv_value buf ty q
  (es, s) ← read_entries buf n r
  ok (
    record {
      key = key;
      ty = ty;
      array_element_ty = element;
      value_start = q;
      entry_start = pos;
      entry_end = r;
    }
        ∷ es,
    s,
  )

-- The second walk over the metadata, behind the 24 bytes of the fixed header.
unfoldable pub kv_entries : List ℕ → Gguf → Result GgufError (List KvEntry)
unfolding read_entries
kv_entries buf g = do (es, pos) ← read_entries buf g.n_kv 24; ok es

abbrev offset_of : List TensorIndexEntry → ℕ → ℕ
offset_of ts i = elim (get_elem? ts i) [ none ↦ 0 | some t ↦ t.data_offset_rel ]

-- Stable, as `sort_by_key`.
unfoldable pub insert_idx : List TensorIndexEntry → ℕ → List ℕ → List ℕ
insert_idx ts i [] = i ∷ []
insert_idx ts i (j ∷ js) =
    let rest = insert_idx ts i js in
    if leb (offset_of ts i) (offset_of ts j) then i ∷ j ∷ js else j ∷ rest

unfoldable pub sort_idxs : List TensorIndexEntry → List ℕ → List ℕ
unfolding insert_idx
sort_idxs ts [] = []
sort_idxs ts (i ∷ is) = insert_idx ts i (sort_idxs ts is)

unfoldable pub range_from : ℕ → ℕ → List ℕ
range_from start zero = []
range_from start (suc n) = start ∷ range_from (start + 1) n

abbrev sub_u64 : ℕ → ℕ → ℕ
sub_u64 a b = if ltb a b then a + u64_mod - b else a - b

abbrev set_bytes : ℕ → ℕ → List TensorIndexEntry → List TensorIndexEntry
set_bytes i n ts = elim (get_elem? ts i) [
  | none ↦ ts
  | some t ↦ set ts i (record t { n_bytes = n })
]

-- Each tensor ends where the next in the file starts, and the last where the file ends.
unfoldable pub fill_bytes : ℕ → List ℕ → List TensorIndexEntry → List TensorIndexEntry
fill_bytes file_end_rel [] ts = ts
fill_bytes file_end_rel (i ∷ []) ts = set_bytes i (sub_u64 file_end_rel (offset_of ts i)) ts
fill_bytes file_end_rel (i ∷ j ∷ is) ts =
    fill_bytes file_end_rel (j ∷ is) (set_bytes i (sub_u64 (offset_of ts j) (offset_of ts i)) ts)

unfoldable pub tensors : List ℕ → Gguf → Result GgufError (List TensorIndexEntry)
unfolding read_index sort_idxs range_from fill_bytes
tensors buf g = do
  (ts, pos) ← read_index buf g.n_tensors g.kv_end_offset
  ok (
      fill_bytes (sub_u64 (length buf) g.tensor_data_offset)
        (sort_idxs ts (range_from 0 (length ts))) ts)

-- The slice panics when the end is out of range or before the start.
unfoldable pub tensor_bytes : List ℕ → Gguf → TensorIndexEntry → Result GgufError (List ℕ)
tensor_bytes buf g t =
    let start = (g.tensor_data_offset + t.data_offset_rel) % u64_mod in
    let end = (start + t.n_bytes) % u64_mod in
    if ltb end start || ltb (length buf) end
    then err panic
    else ok (take (end - start) (drop start buf))
