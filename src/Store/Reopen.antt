-- ===== src/Store/Reopen.antt =====
-- What crates/model-store/src/stitch.rs writes, the parser of crates/model-store/src/gguf.rs opens.
use intelnav.Base.{
  ℕ, ◌+◌, ◌-◌, ◌≤◌, ◌<◌, max, ◌≡◌, refl, sym, ap, ◌∙◌, inl, inr, Bool, false, List, [], ◌++◌,
  append_assoc, arith, Bool-cases, length, drop, replicate, All, length-append, drop-append, ok,
  ok-inj,
}
use mathlib.Core.Path.{subst}
use intelnav.Base.Bytes.{bytes_eq, bytes_eq_iff, is_utf8}
use intelnav.Types.{u64_mod}
use intelnav.Gguf.{
  alignment_key, gguf_version_supported, gguf_default_alignment, gguf_max_tensors, gguf_max_kv,
  align_up,
}
use intelnav.Gguf.Header.{KvEntry, walk_kv, read_entries, read_index, open_file}
use intelnav.Gguf.Reads.{At, At-left, At-next}
use intelnav.Store.{Manifest}
use intelnav.Store.Chunker.{block_count_suffix}
use intelnav.Store.Select.{KeptTensor}
use intelnav.Store.Layout.{
  has_embed_key, has_head_key, write_kv_bool, rewrite_kv, build_index, pad_to, new_header,
  write_tensors, write_file,
}
use intelnav.Store.Rewrite.{write_kv_bool-Walks}
use intelnav.Store.Metadata.{Passes, walk_kv-Passes, rewrite_kv-walks}
use intelnav.Store.Index.{Fits, index_of, length-build_index, Placed, write_tensors-Placed}
use intelnav.Store.Preamble.{opened_as, new_header-opens, length-new_header}

-- `general.alignment` is not the number of blocks of any architecture.
block_count-differs : (arch : List ℕ) → bytes_eq (arch ++ block_count_suffix) alignment_key ≡ false
block_count-differs arch = elim (Bool-cases (bytes_eq (arch ++ block_count_suffix) alignment_key)) [
  | inr differs ↦ differs
  | inl same ↦
      let equal = (bytes_eq_iff (arch ++ block_count_suffix) alignment_key).0 same in
      let five : length arch ≡ 5 =
        omega (arith, ap length equal, length-append arch block_count_suffix) in
      let suffix : block_count_suffix ≡ drop 5 alignment_key =
        sym (drop-append arch block_count_suffix)
        ∙ ap (drop (length arch)) equal
        ∙ ap (λ k. drop k alignment_key) five in
      absurd (ground (arith, (bytes_eq_iff block_count_suffix (drop 5 alignment_key)).1 suffix))
]

-- The metadata rewritten and the two flags behind it: the walk comes to the alignment of the original.
pub kv-walks :
    (header more arch : List ℕ) (value n_kv a q : ℕ) (kvs : List KvEntry) (copied : List ℕ)
    (has_embed has_head : Bool)
    → length (header ++ more) < u64_mod
    → walk_kv (header ++ more) n_kv gguf_default_alignment 24 ≡ ok (a, q)
    → read_entries (header ++ more) n_kv 24 ≡ ok (kvs, q)
    → rewrite_kv header (arch ++ block_count_suffix) value kvs ≡ ok copied
    → (buf : List ℕ) → length buf < u64_mod
    → let kv =
        copied ++ write_kv_bool has_embed_key has_embed ++ write_kv_bool has_head_key has_head in
      At buf 24 kv → walk_kv buf (length kvs + 2) gguf_default_alignment 24 ≡ ok (a, 24 + length kv)
unfolding is_utf8 walk_kv
kv-walks header more arch value n_kv a q kvs copied has_embed has_head small walked read written buf
      small' at =
    let b1 = write_kv_bool has_embed_key has_embed in
    let b2 = write_kv_bool has_head_key has_head in
    let (es, found, passes) =
      walk_kv-Passes (header ++ more) n_kv gguf_default_alignment 24 small walked in
    let same : es ≡ kvs = ap (λ r. r.0) (ok-inj (sym found ∙ read)) in
    let l2 = At-left (copied ++ b1) b2 at in
    let l1 = At-left copied b1 l2 in
    let s1 = length-append copied b1 in
    let s2 = length-append (copied ++ b1) b2 in
    let p1 = 24 + length copied in
    let p2 = p1 + length b1 in
    rewrite_kv-walks header more (arch ++ block_count_suffix) value gguf_default_alignment a 24 kvs
      (block_count-differs arch)
      (subst (λ k. Passes (header ++ more) 24 k gguf_default_alignment a) same passes) written buf
      24 2 small' l1
    ∙ write_kv_bool-Walks has_embed_key has_embed refl buf p1 1 a small'
        (At-next copied b1 p1 l2 refl)
    ∙ write_kv_bool-Walks has_head_key has_head refl buf p2 0 a small'
        (At-next (copied ++ b1) b2 p2 at (omega (arith, s1)))
    ∙ ap (λ k. ok (a, k)) (omega (arith, s1, s2))

pub write_file-opens :
    (manifest : Manifest) (kept : List KeptTensor) (n_kv a : ℕ) (kv : List ℕ) {file : List ℕ}
    → write_file manifest kept n_kv kv ≡ ok file
    → length file < u64_mod
    → manifest.gguf.gguf_version ≡ gguf_version_supported
    → a ≡ max manifest.gguf.alignment 1
    → length kept ≤ gguf_max_tensors
    → n_kv ≤ gguf_max_kv
    → All Fits kept
    → (At file 24 kv → walk_kv file n_kv gguf_default_alignment 24 ≡ ok (a, 24 + length kv))
    → let index = build_index a kept 0 in
      let g =
        opened_as manifest.gguf.gguf_version (length kept) n_kv a (length kv) (length index.0) in
      (open_file file ≡ ok g)
      × (read_index file (length kept) (24 + length kv)
          ≡ ok (index_of kept index.1, 24 + length kv + length index.0))
      × Placed file g.tensor_data_offset kept index.1
unfolding write_file
write_file-opens manifest kept n_kv a kv {file = file} e small version alignment many more fits
      walks =
    let v = manifest.gguf.gguf_version in
    let index = build_index a kept 0 in
    let header = new_header v (length kept) n_kv kv index.0 in
    let written : write_tensors a (align_up (length header) a) kept index.1
          (pad_to header (align_up (length header) a))
        ≡ ok file =
      subst
        (λ al.
          write_tensors al
            (align_up (length (new_header v (length kept) n_kv kv (build_index al kept 0).0)) al)
            kept (build_index al kept 0).1
            (pad_to (new_header v (length kept) n_kv kv (build_index al kept 0).0)
              (align_up (length (new_header v (length kept) n_kv kv (build_index al kept 0).0)) al))
          ≡ ok file)
        (sym alignment) e in
    let ((tail, grown), placed) =
      write_tensors-Placed a (align_up (length header) a) kept index.1 _
        (length-build_index a kept 0) written in
    let pad = replicate (align_up (length header) a - length header) 0 in
    let here : At file 0 header = ([], pad ++ tail, grown ∙ append_assoc header pad tail, refl) in
    let (opens, indexed) =
      new_header-opens file v n_kv a a kv kept small version many more fits here walks in
    (
      opens,
      indexed,
      subst (λ k. Placed file k kept index.1)
          (ap (λ k. align_up k a) (length-new_header v (length kept) n_kv kv index.0)) placed,
    )
