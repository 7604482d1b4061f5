-- ===== src/Gguf/Offsets.antt =====
-- The offsets that `Gguf::open` of crates/model-store/src/gguf.rs reports, and the entries that
-- `kv_entries` finds between them.
use intelnav.Base.{
  ℕ, suc, ◌+◌, ◌*◌, ◌/◌, ◌%◌, ◌≤◌, ◌<◌, ◌≡◌, refl, inl, inr, List, arith, ◌==◌, Bool-cases, length,
  ok,
}
use native.Mathlib.Nat.{mod-add-div, mod-lt, mul-suc}
use intelnav.Types.{u64_mod}
use intelnav.Gguf.{
  gguf_version_supported, gguf_default_alignment, gguf_max_tensors, gguf_max_kv, align_up,
}
use intelnav.Gguf.Header.{Gguf, open_file, KvEntry, kv_entries, TensorIndexEntry, read_index}
use intelnav.Gguf.Walk.{opened, walks_agree, Tiles, walk_kv-Within, read_index-Within}

-- A file that opens has the supported version, at most the capped numbers of tensors and of metadata
-- entries, and its offsets in order: the fixed header of 24 bytes, the end of the metadata, the end
-- of the tensor index, the end of the file. The tensor index, read again from where the metadata
-- ends, has as many entries as the header says.
pub open_file-bounds :
    (buf : List ℕ) (g : Gguf)
    → open_file buf ≡ ok g
    → (g.version ≡ gguf_version_supported)
      × (g.n_tensors ≤ gguf_max_tensors)
      × (g.n_kv ≤ gguf_max_kv)
      × (24 ≤ g.kv_end_offset)
      × (g.kv_end_offset ≤ g.index_end_offset)
      × (g.index_end_offset ≤ length buf)
      × ((ts : List TensorIndexEntry) × (read_index buf g.n_tensors g.kv_end_offset
            ≡ ok (ts, g.index_end_offset))
          × (length ts ≡ g.n_tensors))
open_file-bounds buf g e =
    let (walked, (ts, indexed), start, (version, many, more), aligned) = opened buf g e in
    let (lo1, hi1) = walk_kv-Within buf g.n_kv gguf_default_alignment 24 start walked in
    let ((lo2, hi2), len) = read_index-Within buf g.n_tensors g.kv_end_offset hi1 indexed in
    (version, many, more, lo1, lo2, hi2, (ts, indexed, len))

-- On a file that opens, the second walk over the metadata succeeds too. It finds as many entries as
-- the header says, and they lie end to end from the fixed header to where the first walk ended.
pub kv_entries-tile :
    (buf : List ℕ) (g : Gguf)
    → open_file buf ≡ ok g
    → (es : List KvEntry) × (kv_entries buf g ≡ ok es)
      × (length es ≡ g.n_kv)
      × Tiles 24 es g.kv_end_offset
unfolding kv_entries
kv_entries-tile buf g e =
    let (walked, indexed, start, caps, aligned) = opened buf g e in
    let (es, read, len, tiles) = walks_agree buf g.n_kv gguf_default_alignment 24 walked in
    (es, rw read refl, len, tiles)

-- With an alignment above zero, and where their sum is below 2^64, `align_up` gives the least
-- multiple of the alignment that is not below the offset: a multiple, at least the offset, and less
-- than one alignment above it.
pub align_up-least :
    (offset alignment : ℕ)
    → 0 < alignment
    → offset + alignment < u64_mod
    → ((k : ℕ) × (align_up offset alignment ≡ alignment * k))
      × (offset ≤ align_up offset alignment)
      × (align_up offset alignment < offset + alignment)
unfolding align_up
align_up-least offset alignment positive small =
    let parts = mod-add-div offset alignment in
    let below : offset % alignment < alignment = mod-lt offset positive in
    let next = mul-suc alignment (offset / alignment) in
    elim (Bool-cases (offset % alignment == 0)) [
      | inl exact ↦ ((offset / alignment, ground arith), ground arith, ground arith)
      | inr rest ↦ ((suc (offset / alignment), ground arith), ground arith, ground arith)
    ]
