-- ===== src/Store/Stitched.antt =====
-- What `stitch_subset` of crates/model-store/src/stitch.rs writes, from a model's chunks, is a GGUF
-- file with the tensors that were asked for.
use intelnav.Base.{
  ℕ, ◌+◌, ◌-◌, ◌≤◌, ◌<◌, max, ◌≡◌, refl, sym, ap, ◌∙◌, Bool, List, [], ◌∷◌, ◌++◌, append_assoc, ltb,
  ◌==◌, length, replicate, All, ok, guard, or_fail, bind-ok, ok-inj,
}
use mathlib.Core.Path.{subst}
use intelnav.Types.{u64_mod}
use intelnav.Gguf.{gguf_version_supported, gguf_default_alignment, gguf_max_tensors, gguf_max_kv}
use intelnav.Gguf.Header.{Gguf, KvEntry, walk_kv, read_entries, read_index, open_file, kv_entries}
use intelnav.Gguf.Walk.{opened, walks_agree}
use intelnav.Gguf.Reads.{At}
use intelnav.Store.{Text, Manifest, parsed, parsed-ok}
use intelnav.Store.Chunker.{block_count_suffix}
use intelnav.Store.Select.{
  StitchRange, KeptTensor, CacheDir, validate_range, map_bundles, keep_tensors,
}
use intelnav.Store.Layout.{
  has_embed_key, has_head_key, write_kv_bool, rewrite_kv, build_index, pad_to, write_file,
}
use intelnav.Store.Stitch.{
  StitchOutcome, scratch_gguf_from_header, read_chunk, stitch_kept, stitch_subset,
}
use intelnav.Store.Index.{index_of, length-build_index, Placed}
use intelnav.Store.{text_eq}
use intelnav.Store.Reopen.{kv-walks, write_file-opens}
use intelnav.Store.Kept.{MemberFits, keep_tensors-Fits}

-- What `stitch_subset` has written, opened: a file with as many tensors as were kept and as many
-- entries of metadata as the outcome says; the index has the kept tensors in order, under their new
-- names, and the data of each stands where the index says.
abbrev pub Reopens : Manifest → CacheDir → StitchRange → StitchOutcome → Type 0
Reopens manifest cache range out =
    (mmaps : List (Text × List ℕ)) × (kept : List KeptTensor) × (offs : List ℕ) × (g : Gguf)
    × (map_bundles cache range manifest.bundles ≡ ok mmaps)
    × (keep_tensors mmaps range manifest.bundles ≡ ok kept)
    × (open_file out.file ≡ ok g)
    × (g.n_tensors ≡ length kept)
    × (out.n_tensors ≡ length kept)
    × (g.n_kv ≡ out.n_kv)
    × (read_index out.file g.n_tensors g.kv_end_offset
        ≡ ok (index_of kept offs, g.index_end_offset))
    × (length offs ≡ length kept)
    × Placed out.file g.tensor_data_offset kept offs

-- The metadata of the scratch file, walked in the new one.
scratch-walks :
    (header arch : List ℕ) (tensor_data_offset value : ℕ) (original : Gguf) (kvs : List KvEntry)
    (copied : List ℕ) (has_embed has_head : Bool)
    → length (scratch_gguf_from_header header tensor_data_offset) < u64_mod
    → open_file (scratch_gguf_from_header header tensor_data_offset) ≡ ok original
    → kv_entries (scratch_gguf_from_header header tensor_data_offset) original ≡ ok kvs
    → rewrite_kv header (arch ++ block_count_suffix) value kvs ≡ ok copied
    → (buf : List ℕ) → length buf < u64_mod
    → let kv =
        copied ++ write_kv_bool has_embed_key has_embed ++ write_kv_bool has_head_key has_head in
      At buf 24 kv
      → walk_kv buf (length kvs + 2) gguf_default_alignment 24
        ≡ ok (original.alignment, 24 + length kv)
unfolding scratch_gguf_from_header kv_entries
scratch-walks header arch tensor_data_offset value original kvs copied has_embed has_head small
      opens entries written buf small' at =
    let more = replicate (tensor_data_offset - length header) 0 ++ 0 ∷ [] in
    let whole : pad_to header tensor_data_offset ++ 0 ∷ [] ≡ header ++ more =
      append_assoc header _ (0 ∷ []) in
    let (walked, indexed, start, caps, aligned) = opened _ original opens in
    let (es, read, len, tiles) = walks_agree _ original.n_kv gguf_default_alignment 24 walked in
    let ((es', q), read', rest) =
      bind-ok (read_entries (pad_to header tensor_data_offset ++ 0 ∷ []) original.n_kv 24) _
        entries in
    let same : es ≡ kvs = ap (λ r. r.0) (ok-inj (sym read ∙ read')) ∙ ok-inj rest in
    kv-walks header more arch value original.n_kv original.alignment original.kv_end_offset kvs
      copied has_embed has_head (subst (λ b. length b < u64_mod) whole small)
      (subst
        (λ b.
          walk_kv b original.n_kv gguf_default_alignment 24
          ≡ ok (original.alignment, original.kv_end_offset))
        whole walked)
      (subst (λ b. read_entries b original.n_kv 24 ≡ ok (kvs, original.kv_end_offset)) whole
        (subst
          (λ k.
            read_entries (pad_to header tensor_data_offset ++ 0 ∷ []) original.n_kv 24
            ≡ ok (k, original.kv_end_offset))
          same read))
      written buf small' at

stitch_kept-Reopens :
    (manifest : Manifest) (cache : CacheDir) (range : StitchRange) (header : List ℕ)
    (original : Gguf) (arch : Text) (mmaps : List (Text × List ℕ)) (kept : List KeptTensor)
    (out : StitchOutcome)
    → stitch_kept manifest range header original arch kept ≡ ok out
    → open_file (scratch_gguf_from_header header manifest.gguf.tensor_data_offset) ≡ ok original
    → map_bundles cache range manifest.bundles ≡ ok mmaps
    → keep_tensors mmaps range manifest.bundles ≡ ok kept
    → original.alignment ≡ max manifest.gguf.alignment 1
    → length (scratch_gguf_from_header header manifest.gguf.tensor_data_offset) < u64_mod
    → length out.file < u64_mod
    → manifest.gguf.gguf_version ≡ gguf_version_supported
    → out.n_tensors ≤ gguf_max_tensors
    → out.n_kv ≤ gguf_max_kv
    → All (λ b. All MemberFits b.members) manifest.bundles
    → Reopens manifest cache range out
unfolding stitch_kept
stitch_kept-Reopens manifest cache range header original arch mmaps kept out e opens maps keeps
      alignment small_scratch small version many more fits =
    let (kvs, e9, r9) =
      bind-ok
        (parsed
          (kv_entries (scratch_gguf_from_header header manifest.gguf.tensor_data_offset) original))
        _ e in
    let (copied, e10, r10) =
      bind-ok (rewrite_kv header (arch ++ block_count_suffix) (range.end - range.start) kvs) _ r9 in
    let kv =
      copied
      ++ write_kv_bool has_embed_key range.include_embed
      ++ write_kv_bool has_head_key range.include_head in
    let (file, e11, r11) = bind-ok (write_file manifest kept (length kvs + 2) kv) _ r10 in
    let result = ok-inj r11 in
    let small_file : length file < u64_mod =
      subst (λ o. length o.file < u64_mod) (sym result) small in
    let walks =
      scratch-walks header arch manifest.gguf.tensor_data_offset (range.end - range.start) original
        kvs copied range.include_embed range.include_head small_scratch opens (parsed-ok _ e9) e10
        file small_file in
    let (reopens, indexed, placed) =
      write_file-opens manifest kept (length kvs + 2) original.alignment kv e11 small_file version
        alignment (subst (λ o. o.n_tensors ≤ gguf_max_tensors) (sym result) many)
        (subst (λ o. o.n_kv ≤ gguf_max_kv) (sym result) more)
        (keep_tensors-Fits mmaps range manifest.bundles keeps fits) walks in
    subst (Reopens manifest cache range) result (
      mmaps,
      kept,
      (build_index original.alignment kept 0).1,
      _,
      maps,
      keeps,
      reopens,
      refl,
      refl,
      refl,
      indexed,
      length-build_index original.alignment kept 0,
      placed,
    )

-- From a manifest whose members fit a GGUF index, with the supported version and the alignment that
-- the header chunk has, everything that `stitch_subset` writes is a GGUF file that `Gguf::open` opens,
-- if the files have fewer than 2 ^ 64 bytes and the counts do not exceed the parser's caps: it has the
-- tensors that the range keeps, in order, under their new names and with their shapes and types, the
-- bytes of each where the index says, and the outcome's number of metadata entries.
pub stitch_subset-Reopens :
    (cid_of : List ℕ → Text) (manifest : Manifest) (cache : CacheDir) (range : StitchRange)
    (out : StitchOutcome) (header : List ℕ) (original : Gguf)
    → stitch_subset cid_of manifest cache range ≡ ok out
    → read_chunk cid_of cache manifest.header_chunk.cid ≡ ok header
    → open_file (scratch_gguf_from_header header manifest.gguf.tensor_data_offset) ≡ ok original
    → original.alignment ≡ max manifest.gguf.alignment 1
    → length (scratch_gguf_from_header header manifest.gguf.tensor_data_offset) < u64_mod
    → length out.file < u64_mod
    → manifest.gguf.gguf_version ≡ gguf_version_supported
    → out.n_tensors ≤ gguf_max_tensors
    → out.n_kv ≤ gguf_max_kv
    → All (λ b. All MemberFits b.members) manifest.bundles
    → Reopens manifest cache range out
unfolding stitch_subset
stitch_subset-Reopens cid_of manifest cache range out header original e chunk opens alignment
      small_scratch small version many more fits =
    let (u, e1, r1) = bind-ok (validate_range manifest.n_layers range) _ e in
    let (header', e2, r2) = bind-ok (read_chunk cid_of cache manifest.header_chunk.cid) _ r1 in
    let (v, e3, r3) = bind-ok (guard (length header' == manifest.header_chunk.size) _) _ r2 in
    let (original', e4, r4) =
      bind-ok
        (parsed (open_file (scratch_gguf_from_header header' manifest.gguf.tensor_data_offset))) _
        r3 in
    let (arch, e5, r5) = bind-ok (or_fail manifest.architecture _) _ r4 in
    let (mmaps, e6, r6) = bind-ok (map_bundles cache range manifest.bundles) _ r5 in
    let (kept, e7, r7) = bind-ok (keep_tensors mmaps range manifest.bundles) _ r6 in
    let (w, e8, r8) = bind-ok (guard (ltb 0 (length kept)) _) _ r7 in
    let same_header : header ≡ header' = ok-inj (sym chunk ∙ e2) in
    let opens' : open_file (scratch_gguf_from_header header' manifest.gguf.tensor_data_offset)
        ≡ ok original =
      subst
        (λ h. open_file (scratch_gguf_from_header h manifest.gguf.tensor_data_offset) ≡ ok original)
        same_header opens in
    let same : original ≡ original' = ok-inj (sym opens' ∙ parsed-ok _ e4) in
    stitch_kept-Reopens manifest cache range header' original' arch mmaps kept out r8
      (parsed-ok _ e4) e6 e7 (ap (λ g. g.alignment) (sym same) ∙ alignment)
      (subst (λ h. length (scratch_gguf_from_header h manifest.gguf.tensor_data_offset) < u64_mod)
        same_header small_scratch)
      small version many more fits
