-- ===== src/Store/Kept.antt =====
-- The tensors that crates/model-store/src/stitch.rs keeps have room in the new index.
use intelnav.Base.{
  ℕ, ◌^◌, ◌≤◌, ◌<◌, ◌≡◌, Bool, true, false, List, [], ◌∷◌, if◌then◌else◌, length, All, ok, ◌>>=◌,
  or_fail, bind-ok, ok-inj,
}
use mathlib.Core.Path.{subst}
use intelnav.Base.Bytes.{is_utf8}
use intelnav.Types.{u64_mod}
use intelnav.Base.Decimal.{All-append}
use intelnav.Store.{Text}
use intelnav.Store.Select.{StitchRange, KeptTensor, keep_tensors}
use intelnav.Store.Index.{Fits}
use intelnav.Gguf.{gguf_max_dims}
use intelnav.Store.{BundleMember, BundleEntry, panic, member_bytes}
use intelnav.Base.Table.{find}
use intelnav.Store.{text_eq}
use intelnav.Store.Names.{rename_tensor-utf8}
use intelnav.Store.Select.{includes_again, keep_members}

-- What a member of a manifest may be.
abbrev pub MemberFits : BundleMember → Type 0
MemberFits m =
    (is_utf8 m.name ≡ true)
    × (length m.shape ≤ gguf_max_dims)
    × All (λ d. d < u64_mod) m.shape
    × (m.dtype_code < 2 ^ 32)

keep_members-Fits :
    (start : ℕ) (mmap : List ℕ) (ms : List BundleMember) {kept : List KeptTensor}
    → keep_members start mmap ms ≡ ok kept
    → All MemberFits ms
    → All Fits kept
unfolding keep_members
keep_members-Fits start mmap [] e fits = subst (All Fits) (ok-inj e) tt
keep_members-Fits start mmap (m ∷ ms) e fits =
    let (bytes, e1, r1) = bind-ok (member_bytes mmap m) _ e in
    let (kept, e2, r2) = bind-ok (keep_members start mmap ms) _ r1 in
    let (valid, rank, dims, code) = fits.0 in
    subst (All Fits) (ok-inj r2) (
      (rename_tensor-utf8 m.name start valid, rank, dims, code),
      keep_members-Fits start mmap ms e2 fits.1,
    )

keep_bundle-Fits :
    (mmaps : List (Text × List ℕ)) (range : StitchRange) (b : BundleEntry) (include : Bool)
    {kept : List KeptTensor}
    → (if include
        then (or_fail (find b.cid mmaps) panic >>= λ mmap. keep_members range.start mmap b.members)
        else ok [])
      ≡ ok kept
    → All MemberFits b.members
    → All Fits kept
keep_bundle-Fits mmaps range b true e fits =
    let (mmap, e1, r1) = bind-ok (or_fail (find b.cid mmaps) panic) _ e in
    keep_members-Fits range.start mmap b.members r1 fits
keep_bundle-Fits mmaps range b false e fits = subst (All Fits) (ok-inj e) tt

pub keep_tensors-Fits :
    (mmaps : List (Text × List ℕ)) (range : StitchRange) (bs : List BundleEntry)
    {kept : List KeptTensor}
    → keep_tensors mmaps range bs ≡ ok kept
    → All (λ b. All MemberFits b.members) bs
    → All Fits kept
unfolding keep_tensors
keep_tensors-Fits mmaps range [] e fits = subst (All Fits) (ok-inj e) tt
keep_tensors-Fits mmaps range (b ∷ bs) e fits =
    let (include, e1, r1) = bind-ok (includes_again range b.name) _ e in
    let (kept, e2, r2) =
      bind-ok
        (if include
          then (or_fail (find b.cid mmaps) panic >>= λ mmap.
              keep_members range.start mmap b.members)
          else ok [])
        _ r1 in
    let (rest, e3, r3) = bind-ok (keep_tensors mmaps range bs) _ r2 in
    subst (All Fits) (ok-inj r3) (
      All-append Fits kept rest (keep_bundle-Fits mmaps range b include e2 fits.0)
        (keep_tensors-Fits mmaps range bs e3 fits.1))
