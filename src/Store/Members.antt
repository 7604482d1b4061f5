-- ===== src/Store/Members.antt =====
-- crates/model-store/src/chunker.rs: the members of a bundle, as `chunk_gguf` lists them and
-- `verify_chunks` cuts them out.
use intelnav.Base.{
  ℕ, ◌+◌, ◌-◌, ◌%◌, ◌≤◌, ◌<◌, ◌≡◌, refl, sym, ap, ◌∙◌, List, [], ◌∷◌, ◌++◌, append_assoc, arith,
  length, get_elem?, take, drop, length-append, take-append, drop-append, ok, or_fail, bind-ok,
  ok-inj,
}
use mathlib.Core.Path.{subst}
use intelnav.Base.Bytes.{bytes_eq_iff}
use intelnav.Types.{u64_mod}
use intelnav.Gguf.Header.{Gguf, TensorIndexEntry, tensor_bytes}
use intelnav.Store.{Text, text_eq, panic, parsed, BundleMember, member_bytes}
use intelnav.Store.Emit.{build_members, member_of}
use intelnav.Store.Verify.{verify_members}

-- A member that ends inside the bundle is cut out of it.
member_bytes-inside :
    (bundle : List ℕ) (m : BundleMember)
    → m.offset_in_bundle + m.size ≤ length bundle
    → length bundle < u64_mod
    → member_bytes bundle m ≡ ok (take m.size (drop m.offset_in_bundle bundle))
unfolding member_bytes
member_bytes-inside bundle m inside small =
    let end : (m.offset_in_bundle + m.size) % u64_mod ≡ m.offset_in_bundle + m.size = omega arith in
    let size : m.offset_in_bundle + m.size - m.offset_in_bundle ≡ m.size = omega arith in
    rw (end, size) (ground arith)

member_bytes-append :
    (pre bytes post : List ℕ) (m : BundleMember)
    → m.offset_in_bundle ≡ length pre
    → m.size ≡ length bytes
    → length (pre ++ (bytes ++ post)) < u64_mod
    → member_bytes (pre ++ (bytes ++ post)) m ≡ ok bytes
member_bytes-append pre bytes post m at size small =
    let total = length-append pre (bytes ++ post) in
    let rest = length-append bytes post in
    let cut : take m.size (drop m.offset_in_bundle (pre ++ (bytes ++ post))) ≡ bytes =
      rw (at, size, drop-append pre (bytes ++ post)) (take-append bytes post) in
    member_bytes-inside (pre ++ (bytes ++ post)) m (omega arith) small ∙ ap ok cut

module _ (cid_of : List ℕ → Text) where
  verify_members-cons :
      (bundle bytes : List ℕ) (m : BundleMember) (ms : List BundleMember)
      → member_bytes bundle m ≡ ok bytes
      → cid_of bytes ≡ m.cid
      → verify_members cid_of bundle ms ≡ ok tt
      → verify_members cid_of bundle (m ∷ ms) ≡ ok tt
  unfolding verify_members
  verify_members-cons bundle bytes m ms e same rest =
      let eq = (bytes_eq_iff (cid_of bytes) m.cid).1 same in rw e (rw eq rest)

  verify_members-none : (bundle : List ℕ) → verify_members cid_of bundle [] ≡ ok tt
  unfolding verify_members
  verify_members-none bundle = refl

  -- The members of a bundle are verified in its bytes.
  pub build_members-verified :
      (buf : List ℕ) (g : Gguf) (ts : List TensorIndexEntry) (is : List ℕ) (pre : List ℕ) (size : ℕ)
      {members : List BundleMember} {bytes : List ℕ}
      → size ≡ length pre
      → build_members cid_of buf g ts is size ≡ ok (members, bytes)
      → length (pre ++ bytes) < u64_mod
      → verify_members cid_of (pre ++ bytes) members ≡ ok tt
  unfolding build_members
  build_members-verified buf g ts [] pre size {bytes = bytes} at e small =
      let none_left = ap (λ x. x.0) (ok-inj e) in
      subst (λ ms. verify_members cid_of (pre ++ bytes) ms ≡ ok tt) none_left
        (verify_members-none (pre ++ bytes))
  build_members-verified buf g ts (i ∷ is) pre size {bytes = full} at e small =
      let (t, e1, r1) = bind-ok (or_fail (get_elem? ts i) panic) _ e in
      let (bytes, e2, r2) = bind-ok (parsed (tensor_bytes buf g t)) _ r1 in
      let ((ms, more), e3, r3) =
        bind-ok (build_members cid_of buf g ts is (size + length bytes)) _ r2 in
      let pair = ok-inj r3 in
      let split : bytes ++ more ≡ full = ap (λ x. x.1) pair in
      let whole : pre ++ (bytes ++ more) ≡ pre ++ full = ap (λ x. pre ++ x) split in
      let bound : length (pre ++ (bytes ++ more)) < u64_mod =
        subst (λ x. length x < u64_mod) (sym whole) small in
      let assoc : pre ++ bytes ++ more ≡ pre ++ (bytes ++ more) = append_assoc pre bytes more in
      let rest =
        build_members-verified buf g ts is (pre ++ bytes) (size + length bytes)
          (omega (arith, length-append pre bytes)) e3
          (subst (λ x. length x < u64_mod) (sym assoc) bound) in
      let first =
        member_bytes-append pre bytes more (member_of cid_of t bytes size) at refl bound in
      let both =
        verify_members-cons (pre ++ (bytes ++ more)) bytes (member_of cid_of t bytes size) ms first
          refl (subst (λ x. verify_members cid_of x ms ≡ ok tt) assoc rest) in
      subst (λ x. verify_members cid_of (pre ++ x.1) x.0 ≡ ok tt) pair both
