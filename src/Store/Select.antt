-- ===== src/Store/Select.antt =====
-- crates/model-store/src/stitch.rs: which bundles a range of layers takes, their files in the cache,
-- and the tensors cut out of them under their new names.
use intelnav.Base.{
  ℕ, ◌-◌, Bool, false, not, ◌&&◌, Option, none, some, List, [], ◌∷◌, ◌++◌, ltb, leb, ◌==◌,
  if◌then◌else◌, length, Result, ok, err, ◌>>=◌, ◌>>◌, guard, or_fail,
}
use intelnav.Base.Table.{find}
use intelnav.Base.Bytes.{bytes_eq}
use intelnav.Base.Decimal.{show_u32, parse_u32}
use intelnav.Store.{
  Text, text_eq, Chunks, StoreError, missing, size_mismatch, unknown_bundle, malformed_bundle,
  end_before_start, range_end, embed_start, head_end, panic, BundleMember, BundleEntry,
  member_bytes,
}
use intelnav.Store.Bundle.{embed_name, head_name, blk_prefix, strip_prefix, split_dot}

pub record StitchRange : Type 0 where
  pub start : ℕ
  pub end : ℕ
  pub include_embed : Bool
  pub include_head : Bool

pub record KeptTensor : Type 0 where
  pub new_name : Text
  pub dtype_code : ℕ
  pub shape : List ℕ
  pub bytes : List ℕ

-- The two layouts of a cache: `chunks/<cid>.bin`, and `<cid>.bin`.
pub record CacheDir : Type 0 where
  pub chunks : Chunks
  pub flat : Chunks

unfoldable pub validate_range : ℕ → StitchRange → Result StoreError (Unit {0})
validate_range n_layers range = do
  guard (leb range.start range.end) end_before_start
  guard (leb range.end n_layers) range_end
  guard (not (range.include_embed && not (range.start == 0))) embed_start
  guard (not (range.include_head && not (range.end == n_layers))) head_end

-- The file of a CID.
unfoldable pub chunks_dir_resolve : CacheDir → Text → Option (List ℕ)
unfolding find
chunks_dir_resolve cache cid = elim (find cid cache.chunks) [
  | some bytes ↦ some bytes
  | none ↦ find cid cache.flat
]

unfoldable pub rename_tensor : Text → ℕ → Text
rename_tensor name layer_offset = elim (strip_prefix blk_prefix name) [
  | none ↦ name
  | some rest ↦
      let (n_str, tail) = split_dot rest in
      elim (parse_u32 n_str) [
        | none ↦ name
        | some n ↦ elim tail [
          | [] ↦ blk_prefix ++ show_u32 (n - layer_offset)
          | c ∷ cs ↦ blk_prefix ++ show_u32 (n - layer_offset) ++ 46 ∷ c ∷ cs
        ]
      ]
]

-- Whether the range takes a bundle, by the bundle's name.
unfoldable pub includes : StitchRange → Text → Result StoreError Bool
includes range name =
    if bytes_eq name embed_name
    then ok range.include_embed
    else if bytes_eq name head_name
    then ok range.include_head
    else elim (strip_prefix blk_prefix name) [
      | none ↦ err (unknown_bundle name)
      | some rest ↦ elim (parse_u32 rest) [
        | none ↦ err (malformed_bundle name)
        | some n ↦ ok (leb range.start n && ltb n range.end)
      ]
    ]

-- The same test in the second loop: another name is left out, and a malformed one unwrapped.
unfoldable pub includes_again : StitchRange → Text → Result StoreError Bool
includes_again range name =
    if bytes_eq name embed_name
    then ok range.include_embed
    else if bytes_eq name head_name
    then ok range.include_head
    else elim (strip_prefix blk_prefix name) [
      | none ↦ ok false
      | some rest ↦ elim (parse_u32 rest) [
        | none ↦ err panic
        | some n ↦ ok (leb range.start n && ltb n range.end)
      ]
    ]

-- The file of a bundle that the range takes.
unfoldable pub map_bundle : CacheDir → BundleEntry → Result StoreError (List ℕ)
unfolding chunks_dir_resolve
map_bundle cache b = do
  file ← or_fail (chunks_dir_resolve cache b.cid) (missing b.cid)
  guard (length file == b.size) (size_mismatch b.name)
  ok file

unfoldable pub map_bundles : CacheDir → StitchRange → List BundleEntry → Result StoreError Chunks
unfolding includes map_bundle
map_bundles cache range [] = ok []
map_bundles cache range (b ∷ bs) = do
  include ← includes range b.name
  mmap ← if include then (map_bundle cache b >>= λ file. ok ((b.cid, file) ∷ [])) else ok []
  rest ← map_bundles cache range bs
  ok (mmap ++ rest)

abbrev kept_tensor : ℕ → BundleMember → List ℕ → KeptTensor
kept_tensor start m bytes = record {
  new_name = rename_tensor m.name start;
  dtype_code = m.dtype_code;
  shape = m.shape;
  bytes = bytes;
}

unfoldable pub keep_members : ℕ → List ℕ → List BundleMember → Result StoreError (List KeptTensor)
unfolding member_bytes rename_tensor
keep_members start mmap [] = ok []
keep_members start mmap (m ∷ ms) = do
  bytes ← member_bytes mmap m
  kept ← keep_members start mmap ms
  ok (kept_tensor start m bytes ∷ kept)

unfoldable pub keep_tensors :
    Chunks → StitchRange → List BundleEntry → Result StoreError (List KeptTensor)
unfolding includes_again keep_members find
keep_tensors mmaps range [] = ok []
keep_tensors mmaps range (b ∷ bs) = do
  include ← includes_again range b.name
  kept ←
      if include
      then (or_fail (find b.cid mmaps) panic >>= λ mmap. keep_members range.start mmap b.members)
      else ok []
  rest ← keep_tensors mmaps range bs
  ok (kept ++ rest)
