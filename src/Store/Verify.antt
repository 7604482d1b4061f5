-- ===== src/Store/Verify.antt =====
-- crates/model-store/src/chunker.rs: `verify_chunks`. The CID of bytes and the parser of a
-- manifest's JSON are parameters.
use intelnav.Base.{ℕ, Option, List, [], ◌∷◌, ◌==◌, length, Result, ok, ◌>>=◌, ◌>>◌, guard, or_fail}
use intelnav.Base.Table.{find}
use intelnav.Base.Bytes.{bytes_eq}
use intelnav.Store.{
  Text, text_eq, Chunks, StoreError, missing, size_mismatch, hash_mismatch, bad_manifest,
  BundleMember, BundleEntry, Manifest, member_bytes,
}
use intelnav.Store.Chunker.{OutputDir, all_chunks}

module _ (cid_of : List ℕ → Text) where
  -- The members are where the manifest says, and have their CIDs.
  unfoldable pub verify_members : List ℕ → List BundleMember → Result StoreError (Unit {0})
  unfolding member_bytes
  verify_members bundle [] = ok tt
  verify_members bundle (m ∷ ms) = do
    bytes ← member_bytes bundle m
    guard (bytes_eq (cid_of bytes) m.cid) (hash_mismatch m.name)
    verify_members bundle ms

  -- A chunk is there, and has the size and the CID that the manifest gives it.
  unfoldable pub verify_chunk : Chunks → Text → ℕ → Result StoreError (List ℕ)
  unfolding find
  verify_chunk chunks cid size = do
    bytes ← or_fail (find cid chunks) (missing cid)
    guard (length bytes == size) (size_mismatch cid)
    guard (bytes_eq (cid_of bytes) cid) (hash_mismatch cid)
    ok bytes

  unfoldable pub verify_bundles : Chunks → List BundleEntry → Result StoreError (Unit {0})
  unfolding verify_chunk verify_members
  verify_bundles chunks [] = ok tt
  verify_bundles chunks (b ∷ bs) = do
    bytes ← verify_chunk chunks b.cid b.size
    verify_members bytes b.members
    verify_bundles chunks bs

module _ (cid_of : List ℕ → Text) (from_json : List ℕ → Option Manifest) where
  unfoldable pub verify_chunks : OutputDir → Result StoreError (Unit {0})
  unfolding verify_chunk verify_bundles
  verify_chunks dir = do
    json ← or_fail dir.manifest_file bad_manifest
    manifest ← or_fail (from_json json) bad_manifest
    header ←
        verify_chunk cid_of (all_chunks dir) manifest.header_chunk.cid manifest.header_chunk.size
    verify_bundles cid_of (all_chunks dir) manifest.bundles
