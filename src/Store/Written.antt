-- ===== src/Store/Written.antt =====
-- What a run of `chunk_gguf` in crates/model-store/src/chunker.rs keeps true of the chunks that it has
-- written.
use intelnav.Base.{
  ℕ, ◌+◌, ◌<◌, ◌≡◌, refl, sym, ◌∙◌, ◌⊎◌, inl, inr, true, false, some, List, [], ◌∷◌, ◌++◌, arith,
  Bool-cases, length, All, ok, bind-ok, ok-inj,
}
use mathlib.Core.Path.{subst}
use intelnav.Base.Table.{find, put, contains, find-put}
use intelnav.Base.Bytes.{bytes_eq, bytes_eq_iff}
use intelnav.Base.Decimal.{All-append}
use intelnav.Types.{u64_mod}
use intelnav.Gguf.Header.{Gguf, TensorIndexEntry}
use intelnav.Store.{Text, text_eq, BundleEntry}
use intelnav.Store.Chunker.{Groups}
use intelnav.Store.Emit.{Run, build_members, write_chunk, entry_of, emit_bundles}
use intelnav.Store.Verify.{verify_members}
use intelnav.Store.Members.{build_members-verified}

module _ (cid_of : List ℕ → Text) where
  -- Every CID that the run has written names bytes with that CID.
  abbrev pub Written : Run → Type 0
  Written run =
      (c : Text)
      → contains c run.written ≡ true
      → (ys : List ℕ) × (find c run.chunks ≡ some ys) × (cid_of ys ≡ c)

  -- An entry describes bytes whose CID is written.
  abbrev pub Describes : List Text → BundleEntry → Type 0
  Describes written b =
      (bytes : List ℕ) × (b.cid ≡ cid_of bytes)
      × (b.size ≡ length bytes)
      × (b.size < u64_mod → verify_members cid_of bytes b.members ≡ ok tt)
      × (contains (cid_of bytes) written ≡ true)

  abbrev added : List ℕ → Run → Run
  added bytes run = record run {
    chunks = put (cid_of bytes) bytes run.chunks;
    written = cid_of bytes ∷ run.written;
    bytes_written = run.bytes_written + length bytes;
  }

  write_chunk-cases :
      (bytes : List ℕ) (run : Run)
      → (write_chunk cid_of bytes run ≡ run) ⊎ (write_chunk cid_of bytes run ≡ added bytes run)
  unfolding write_chunk
  write_chunk-cases bytes run = elim (Bool-cases (contains (cid_of bytes) run.written)) [
    | inl old ↦ inl (rw old refl)
    | inr new ↦ inr (rw new refl)
  ]

  added-Written : (bytes : List ℕ) (run : Run) → Written run → Written (added bytes run)
  unfolding contains
  added-Written bytes run before c h = elim (Bool-cases (bytes_eq (cid_of bytes) c)) [
    | inl same ↦ (
      bytes,
      find-put (cid_of bytes) c bytes run.chunks ∙ rw same refl,
      (bytes_eq_iff _ _).0 same,
    )
    | inr other ↦
        let (ys, found, named) = before c (ground arith) in
        (ys, find-put (cid_of bytes) c bytes run.chunks ∙ rw other found, named)
  ]

  pub write_chunk-Written :
      (bytes : List ℕ) (run : Run) → Written run → Written (write_chunk cid_of bytes run)
  write_chunk-Written bytes run before = elim (write_chunk-cases bytes run) [
    | inl e ↦ subst Written (sym e) before
    | inr e ↦ subst Written (sym e) (added-Written bytes run before)
  ]

  pub write_chunk-adds :
      (bytes : List ℕ) (run : Run)
      → contains (cid_of bytes) (write_chunk cid_of bytes run).written ≡ true
  unfolding write_chunk contains
  write_chunk-adds bytes run = ground (arith, bytes_eq_iff (cid_of bytes) (cid_of bytes))

  write_chunk-keeps :
      (bytes : List ℕ) (run : Run) (c : Text)
      → contains c run.written ≡ true
      → contains c (write_chunk cid_of bytes run).written ≡ true
  unfolding write_chunk contains
  write_chunk-keeps bytes run c h = ground arith

  Describes-keeps :
      (bytes : List ℕ) (run : Run) (es : List BundleEntry)
      → All (Describes run.written) es
      → All (Describes (write_chunk cid_of bytes run).written) es
  Describes-keeps bytes run [] h = tt
  Describes-keeps bytes run (b ∷ es) h =
      let (xs, c, size, members, named) = h.0 in
      (
        (xs, c, size, members, write_chunk-keeps bytes run (cid_of xs) named),
        Describes-keeps bytes run es h.1,
      )

  pub write_chunk-entries :
      (bytes : List ℕ) (run : Run) → (write_chunk cid_of bytes run).entries ≡ run.entries
  unfolding write_chunk
  write_chunk-entries bytes run = ground arith

  -- What a run keeps true.
  abbrev pub Sound : Run → Type 0
  Sound run = Written run × All (Describes run.written) run.entries

  emit_bundle-Sound :
      (bytes : List ℕ) (run : Run) (b : BundleEntry)
      → Sound run
      → b.cid ≡ cid_of bytes
      → b.size ≡ length bytes
      → (b.size < u64_mod → verify_members cid_of bytes b.members ≡ ok tt)
      → let after = write_chunk cid_of bytes run in
        Sound (record after { entries = after.entries ++ b ∷ [] })
  emit_bundle-Sound bytes run b sound named size members = (
    write_chunk-Written bytes run sound.0,
    All-append (Describes (write_chunk cid_of bytes run).written)
        (write_chunk cid_of bytes run).entries (b ∷ [])
        (subst (All (Describes (write_chunk cid_of bytes run).written))
          (sym (write_chunk-entries bytes run)) (Describes-keeps bytes run run.entries sound.1))
        ((bytes, named, size, members, write_chunk-adds bytes run), tt),
  )

  pub emit_bundles-Sound :
      (buf : List ℕ) (g : Gguf) (ts : List TensorIndexEntry) (gs : Groups) (run : Run) {r : Run}
      → emit_bundles cid_of buf g ts false gs run ≡ ok r
      → Sound run
      → Sound r
  unfolding emit_bundles
  emit_bundles-Sound buf g ts [] run e sound = subst Sound (ok-inj e) sound
  emit_bundles-Sound buf g ts ((key, is) ∷ gs) run e sound =
      let ((members, bytes), e1, r1) = bind-ok (build_members cid_of buf g ts is 0) _ e in
      emit_bundles-Sound buf g ts gs _ r1 (
        emit_bundle-Sound bytes run (entry_of cid_of key members bytes) sound refl refl
          (λ small. build_members-verified cid_of buf g ts is [] 0 refl e1 small))

  pub emit_bundles-keeps :
      (buf : List ℕ) (g : Gguf) (ts : List TensorIndexEntry) (gs : Groups) (run : Run) {r : Run}
      (c : Text)
      → emit_bundles cid_of buf g ts false gs run ≡ ok r
      → contains c run.written ≡ true
      → contains c r.written ≡ true
  unfolding emit_bundles
  emit_bundles-keeps buf g ts [] run c e h = subst (λ r. contains c r.written ≡ true) (ok-inj e) h
  emit_bundles-keeps buf g ts ((key, is) ∷ gs) run c e h =
      let ((members, bytes), e1, r1) = bind-ok (build_members cid_of buf g ts is 0) _ e in
      emit_bundles-keeps buf g ts gs _ c r1 (write_chunk-keeps bytes run c h)
