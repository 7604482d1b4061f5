-- ===== src/Store/Verified.antt =====
-- What `chunk_gguf` writes, `verify_chunks` of crates/model-store/src/chunker.rs accepts.
use intelnav.Base.{
  ℕ, ◌<◌, ◌≡◌, refl, sym, ap, ◌∙◌, ◌≢◌, ◌⊎◌, inl, inr, Bool, true, false, Option, some, List, [],
  ◌∷◌, arith, ◌==◌, ==_iff, Bool-cases, length, All, ok, bind-ok, ok-inj,
}
use mathlib.Core.Path.{subst}
use intelnav.Base.Table.{find, contains}
use intelnav.Base.Bytes.{bytes_eq, bytes_eq_iff}
use intelnav.Types.{u64_mod}
use intelnav.Gguf.Header.{Gguf, open_file, kv_entries, tensors}
use intelnav.Store.{Text, text_eq, Chunks, parsed, BundleEntry, Manifest, slice}
use intelnav.Store.Chunker.{
  ChunkerOptions, OutputDir, ChunkOutcome, KvInfo, diagnostics, route, all_chunks,
}
use intelnav.Store.Emit.{
  Run, write_chunk, emit_bundles, manifest_of, start_run, finish, chunk_gguf, prepare_output_dir,
}
use intelnav.Store.Verify.{verify_members, verify_chunk, verify_bundles, verify_chunks}
use intelnav.Store.Written.{
  Written, Describes, Sound, write_chunk-Written, write_chunk-adds, write_chunk-entries,
  emit_bundles-Sound, emit_bundles-keeps,
}

-- Two byte strings with one CID.
abbrev pub Collision : (List ℕ → Text) → Type 0
Collision cid_of = (xs : List ℕ) × (ys : List ℕ) × (xs ≢ ys) × (cid_of xs ≡ cid_of ys)

module _ (cid_of : List ℕ → Text) where
  verify_chunk-found :
      (chunks : Chunks) (bytes ys : List ℕ)
      → ys ≡ bytes
      → find (cid_of bytes) chunks ≡ some ys
      → verify_chunk cid_of chunks (cid_of bytes) (length bytes) ≡ ok bytes
  unfolding verify_chunk
  verify_chunk-found chunks bytes ys same found =
      let sizes : (length bytes == length bytes) ≡ true = (==_iff _ _).1 refl in
      let cids = (bytes_eq_iff (cid_of bytes) (cid_of bytes)).1 refl in
      rw (found ∙ ap some same) (rw sizes (rw cids refl))

  -- A chunk that is written verifies, or another byte string has its CID.
  pub verify_chunk-Written :
      (run : Run) (bytes : List ℕ)
      → Written cid_of run
      → contains (cid_of bytes) run.written ≡ true
      → (verify_chunk cid_of run.chunks (cid_of bytes) (length bytes) ≡ ok bytes) ⊎ Collision cid_of
  verify_chunk-Written run bytes before named =
      let (ys, found, same) = before (cid_of bytes) named in
      elim (Bool-cases (bytes_eq ys bytes)) [
        | inl equal ↦
            inl (verify_chunk-found run.chunks bytes ys ((bytes_eq_iff ys bytes).0 equal) found)
        | inr other ↦ inr (ys, bytes, (λ e. ground (arith, (bytes_eq_iff ys bytes).1 e)), same)
      ]

  verify_bundles-cons :
      (chunks : Chunks) (b : BundleEntry) (bs : List BundleEntry) (bytes : List ℕ)
      → b.cid ≡ cid_of bytes
      → b.size ≡ length bytes
      → verify_chunk cid_of chunks (cid_of bytes) (length bytes) ≡ ok bytes
      → verify_members cid_of bytes b.members ≡ ok tt
      → verify_bundles cid_of chunks bs ≡ ok tt
      → verify_bundles cid_of chunks (b ∷ bs) ≡ ok tt
  unfolding verify_bundles
  verify_bundles-cons chunks b bs bytes named size chunk members rest =
      rw (named, size) (rw chunk (rw members rest))

  pub verify_bundles-Sound :
      (run : Run) (bs : List BundleEntry)
      → Written cid_of run
      → All (Describes cid_of run.written) bs
      → All (λ b. b.size < u64_mod) bs
      → (verify_bundles cid_of run.chunks bs ≡ ok tt) ⊎ Collision cid_of
  unfolding verify_bundles
  verify_bundles-Sound run [] before h small = inl refl
  verify_bundles-Sound run (b ∷ bs) before h small =
      let (bytes, named, size, members, written) = h.0 in
      elim (verify_chunk-Written run bytes before written) [
        | inr c ↦ inr c
        | inl chunk ↦ elim (verify_bundles-Sound run bs before h.1 small.1) [
          | inr c ↦ inr c
          | inl rest ↦
              inl
                (verify_bundles-cons run.chunks b bs bytes named size chunk (members small.0) rest)
        ]
      ]

abbrev pub writing : Bool → ChunkerOptions
writing overwrite = record { overwrite = overwrite; dry_run = false }

-- What a run that writes went through.
abbrev Ran : (List ℕ → Text) → (Manifest → List ℕ) → OutputDir × ChunkOutcome → Type 0
Ran cid_of to_json result =
    (g : Gguf) × (info : KvInfo) × (n_layers : ℕ) × (header : List ℕ) × (prepared : OutputDir)
    × (run : Run) × Sound cid_of run
    × (contains (cid_of header) run.written ≡ true)
    × (finish cid_of to_json false prepared run
          (manifest_of cid_of g info n_layers header run.entries)
        ≡ result)

module _ (cid_of : List ℕ → Text) (to_json : Manifest → List ℕ) where
  start_run-Written : (chunks : Chunks) → Written cid_of (start_run chunks)
  unfolding contains
  start_run-Written chunks c h = absurd (ground arith)

  ran :
      (buf : List ℕ) (overwrite : Bool) (dir : OutputDir) {result : OutputDir × ChunkOutcome}
      → chunk_gguf cid_of to_json buf (writing overwrite) dir ≡ ok result
      → Ran cid_of to_json result
  unfolding chunk_gguf
  ran buf overwrite dir e =
      let (g, e1, r1) = bind-ok (parsed (open_file buf)) _ e in
      let (kvs, e2, r2) = bind-ok (parsed (kv_entries buf g)) _ r1 in
      let (info, e3, r3) = bind-ok (diagnostics buf kvs _) _ r2 in
      let (ts, e4, r4) = bind-ok (parsed (tensors buf g)) _ r3 in
      let (header, e5, r5) = bind-ok (slice buf 0 g.tensor_data_offset) _ r4 in
      let (prepared, e6, r6) = bind-ok (prepare_output_dir dir overwrite) _ r5 in
      let begin = write_chunk cid_of header (start_run (all_chunks prepared)) in
      let groups = (route ts 0 [] 0).0 in
      let (run, e7, r7) = bind-ok (emit_bundles cid_of buf g ts false groups begin) _ r6 in
      let sound = emit_bundles-Sound cid_of buf g ts groups begin e7 (
        write_chunk-Written cid_of header (start_run (all_chunks prepared))
            (start_run-Written (all_chunks prepared)),
        subst (All (Describes cid_of begin.written))
            (sym (write_chunk-entries cid_of header (start_run (all_chunks prepared)))) tt,
      ) in
      let named =
        emit_bundles-keeps cid_of buf g ts groups begin (cid_of header) e7
          (write_chunk-adds cid_of header (start_run (all_chunks prepared))) in
      (g, info, _, header, prepared, run, sound, named, ok-inj r7)

  verify_chunks-Sound :
      (from_json : List ℕ → Option Manifest) (header : List ℕ) (run : Run) (m : Manifest)
      (dir : OutputDir)
      → Sound cid_of run
      → contains (cid_of header) run.written ≡ true
      → m.header_chunk.cid ≡ cid_of header
      → m.header_chunk.size ≡ length header
      → m.bundles ≡ run.entries
      → from_json (to_json m) ≡ some m
      → All (λ b. b.size < u64_mod) m.bundles
      → (verify_chunks cid_of from_json
            (record dir { manifest_file = some (to_json m); chunks_dir = some run.chunks })
          ≡ ok tt)
        ⊎ Collision cid_of
  unfolding verify_chunks
  verify_chunks-Sound from_json header run m dir sound named cid size bundles json small =
      elim (verify_chunk-Written cid_of run header sound.0 named) [
        | inr c ↦ inr c
        | inl chunk ↦
            elim (verify_bundles-Sound cid_of run m.bundles sound.0
              (subst (All (Describes cid_of run.written)) (sym bundles) sound.1) small) [
                | inr c ↦ inr c
                | inl rest ↦ inl (rw json (rw (cid, size) (rw chunk rest)))
              ]
      ]

-- Whatever `chunk_gguf` writes to an output directory, dry runs apart, `verify_chunks` accepts, or
-- two byte strings have one CID: the chunks are there under their CIDs, with the sizes of the
-- manifest, and the members are found in their bundles. The sizes of the bundles are `u64`s, and
-- the parser of JSON reads back the manifest that was written.
pub chunk_gguf-verifies :
    (cid_of : List ℕ → Text) (to_json : Manifest → List ℕ) (from_json : List ℕ → Option Manifest)
    (buf : List ℕ) (overwrite : Bool) (dir after : OutputDir) (out : ChunkOutcome)
    → chunk_gguf cid_of to_json buf (writing overwrite) dir ≡ ok (after, out)
    → from_json out.manifest_bytes ≡ some out.manifest
    → All (λ b. b.size < u64_mod) out.manifest.bundles
    → (verify_chunks cid_of from_json after ≡ ok tt) ⊎ Collision cid_of
chunk_gguf-verifies cid_of to_json from_json buf overwrite dir after out e json small =
    let (g, info, n_layers, header, prepared, run, sound, named, result) =
      ran cid_of to_json buf overwrite dir e in
    let m = manifest_of cid_of g info n_layers header run.entries in
    let read = subst (λ r. from_json r.1.manifest_bytes ≡ some r.1.manifest) (sym result) json in
    let sizes = subst (λ r. All (λ b. b.size < u64_mod) r.1.manifest.bundles) (sym result) small in
    subst (λ r. (verify_chunks cid_of from_json r.0 ≡ ok tt) ⊎ Collision cid_of) result
      (verify_chunks-Sound cid_of to_json from_json header run m prepared sound named refl refl refl
        read sizes)
