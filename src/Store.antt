-- ===== src/Store.antt =====
-- crates/model-store/src/{manifest,bundle,chunker,stitch}.rs: a model's GGUF file cut into chunks
-- that their CIDs name, and a part of the model put together again from them. Text is its bytes; an
-- `i64` of a shape is its 64 bits; files are lists of bytes, and a directory maps names to files.
pub mod Bundle
pub mod Chunker
pub mod Emit
pub mod Verify
pub mod Members
pub mod Written
pub mod Verified
pub mod Select
pub mod Layout
pub mod Stitch
pub mod Rewrite
pub mod Metadata
pub mod Names
pub mod Index
pub mod Preamble
pub mod Reopen
pub mod Kept
pub mod Stitched
pub mod Drift
pub mod Routing
use intelnav.Base.{
  ℕ, zero, suc, ◌+◌, ◌-◌, ◌*◌, ◌/◌, ◌%◌, ◌^◌, ◌≤◌, ◌<◌, min, max, String, ◌≡◌, refl, sym, ap, ◌∙◌,
  ◌≢◌, ◌↔◌, ◌⊎◌, inl, inr, Bool, true, false, not, ◌&&◌, ◌||◌, Option, none, some, List, [], ◌∷◌,
  ◌++◌, map, append_assoc, append-nil, arith, ltb, leb, ◌==◌, if◌then◌else◌, ltb→lt, lt→ltb, leb→le,
  le→leb, ==_iff, tests, Bool-cases, Option-cases, List-cases, length, get_elem?, set, take, drop,
  replicate, All, length-append, take-append-drop, length-take, length-drop, length-replicate,
  take-append, drop-append, take-all, take-append_add, take-take, last-split, length-set,
  length-map, Result, ok, err, ◌>>=◌, ◌>>◌, guard, or_fail, Result-cases, bind-ok, guard-ok, ok-inj,
}
use intelnav.Base.Table.{Eq}
use intelnav.Base.Bytes.{bytes_eq, bytes_eq_iff}
use intelnav.Types.{u64_mod}
use intelnav.Gguf.{GgufError}

abbrev pub Text : Type 0
Text = List ℕ

instance abbrev pub text_eq : Eq Text
text_eq = record { beq = bytes_eq; beq_iff = bytes_eq_iff }

-- The files of a directory of chunks, by their CIDs.
abbrev pub Chunks : Type 0
Chunks = List (Text × List ℕ)

pub data StoreError : Type 0 where
  gguf : GgufError → StoreError
  missing : Text → StoreError
  size_mismatch hash_mismatch overrun : Text → StoreError
  unknown_bundle malformed_bundle : Text → StoreError
  end_before_start range_end embed_start head_end no_architecture zero_tensors : StoreError
  position_drift : ℕ → ℕ → StoreError
  not_empty bad_manifest : StoreError
  -- a slice out of range, or an empty `Option` unwrapped
  panic : StoreError

-- An error of the parser passed on.
abbrev pub parsed {ℓ} : {A : Type ℓ} → Result GgufError A → Result StoreError A
parsed (ok a) = ok a
parsed (err e) = err (gguf e)

pub parsed-ok {ℓ} : {A : Type ℓ} (r : Result GgufError A) {a : A} → parsed r ≡ ok a → r ≡ ok a
parsed-ok (ok a) e = ground arith
parsed-ok (err x) e = absurd (ground arith)

pub record BundleMember : Type 0 where
  pub name : Text
  pub shape : List ℕ
  pub dtype_code : ℕ
  pub data_offset_rel : ℕ
  pub cid : Text
  pub size : ℕ
  pub offset_in_bundle : ℕ

pub record BundleEntry : Type 0 where
  pub name : Text
  pub layer_range : Option (ℕ × ℕ)
  pub cid : Text
  pub size : ℕ
  pub members : List BundleMember

pub record GgufInfo : Type 0 where
  pub gguf_version : ℕ
  pub alignment : ℕ
  pub tensor_data_offset : ℕ
  pub n_kv : ℕ
  pub n_tensors : ℕ

pub record Chunk : Type 0 where
  pub cid : Text
  pub size : ℕ

pub record Manifest : Type 0 where
  pub format : Text
  pub version : ℕ
  pub name : Option Text
  pub architecture : Option Text
  pub n_layers : ℕ
  pub gguf : GgufInfo
  pub header_chunk : Chunk
  pub bundles : List BundleEntry

-- `&bytes[start..end]`
abbrev pub slice : List ℕ → ℕ → ℕ → Result StoreError (List ℕ)
slice bytes start end =
    if ltb end start || ltb (length bytes) end
    then err panic
    else ok (take (end - start) (drop start bytes))

-- The bytes of a member within its bundle; the end wraps before it is tested.
unfoldable pub member_bytes : List ℕ → BundleMember → Result StoreError (List ℕ)
member_bytes bundle m =
    let end = (m.offset_in_bundle + m.size) % u64_mod in
    if ltb (length bundle) end then err (overrun m.name) else slice bundle m.offset_in_bundle end
