-- ===== src/Store/Preamble.antt =====
-- The header that crates/model-store/src/stitch.rs writes, as `Gguf::open` reads it.
use intelnav.Base.{
  ℕ, ◌+◌, ◌≤◌, ◌<◌, ◌≡◌, refl, true, List, ◌++◌, arith, ◌==◌, le→leb, ==_iff, length, All,
  length-append, ok,
}
use mathlib.Core.Path.{subst}
use intelnav.Base.Bytes.{to_le, length-to_le}
use intelnav.Types.{u64_mod}
use intelnav.Gguf.{
  gguf_magic, gguf_version_supported, gguf_default_alignment, gguf_max_tensors, gguf_max_kv,
  read_bytes, read_u32, read_u64, align_up,
}
use intelnav.Gguf.Header.{Gguf, TensorIndexEntry, walk_kv, read_index, open_file}
use intelnav.Gguf.Reads.{At, At-left, At-next, read_bytes-At, read_u32-At, read_u64-At}
use intelnav.Store.Select.{KeptTensor}
use intelnav.Store.Layout.{build_index, new_header}
use intelnav.Store.Index.{Fits, index_of, read_index-At}

open_file-of :
    (buf : List ℕ) {p q r s version n_tensors n_kv alignment kv_end index_end : ℕ}
    {ts : List TensorIndexEntry}
    → read_bytes buf 4 0 ≡ ok (gguf_magic, p)
    → read_u32 buf p ≡ ok (version, q)
    → version ≡ gguf_version_supported
    → read_u64 buf q ≡ ok (n_tensors, r)
    → read_u64 buf r ≡ ok (n_kv, s)
    → n_tensors ≤ gguf_max_tensors
    → n_kv ≤ gguf_max_kv
    → walk_kv buf n_kv gguf_default_alignment s ≡ ok (alignment, kv_end)
    → read_index buf n_tensors kv_end ≡ ok (ts, index_end)
    → open_file buf
      ≡ ok (record {
        version = version;
        alignment = alignment;
        tensor_data_offset = align_up index_end alignment;
        n_kv = n_kv;
        n_tensors = n_tensors;
        kv_end_offset = kv_end;
        index_end_offset = index_end;
      })
unfolding open_file
open_file-of buf {version = version} {n_tensors = n_tensors} {n_kv = n_kv} e1 e2 known e3 e4 few
      few' e5 e6 =
    let v : (version == gguf_version_supported) ≡ true = (==_iff _ _).1 known in
    let c1 = le→leb n_tensors gguf_max_tensors few in
    let c2 = le→leb n_kv gguf_max_kv few' in
    rw e1 (rw e2 (rw v (rw e3 (rw e4 (rw (c1, c2) (rw e5 (rw e6 refl)))))))

pub length-new_header :
    (version n_tensors n_kv : ℕ) (kv index : List ℕ)
    → length (new_header version n_tensors n_kv kv index) ≡ 24 + length kv + length index
unfolding new_header
length-new_header version n_tensors n_kv kv index =
    let v = to_le 4 version in
    let nt = to_le 8 n_tensors in
    let nk = to_le 8 n_kv in
    omega (
      arith,
      length-to_le 4 version,
      length-to_le 8 n_tensors,
      length-to_le 8 n_kv,
      length-append gguf_magic v,
      length-append (gguf_magic ++ v) nt,
      length-append (gguf_magic ++ v ++ nt) nk,
      length-append (gguf_magic ++ v ++ nt ++ nk) kv,
      length-append (gguf_magic ++ v ++ nt ++ nk ++ kv) index,
    )

-- The file that the new header begins, opened.
abbrev pub opened_as : ℕ → ℕ → ℕ → ℕ → ℕ → ℕ → Gguf
opened_as version n_tensors n_kv alignment kv_size index_size = record {
  version = version;
  alignment = alignment;
  tensor_data_offset = align_up (24 + kv_size + index_size) alignment;
  n_kv = n_kv;
  n_tensors = n_tensors;
  kv_end_offset = 24 + kv_size;
  index_end_offset = 24 + kv_size + index_size;
}

pub new_header-opens :
    (buf : List ℕ) (version n_kv alignment a : ℕ) (kv : List ℕ) (ts : List KeptTensor)
    → length buf < u64_mod
    → version ≡ gguf_version_supported
    → length ts ≤ gguf_max_tensors
    → n_kv ≤ gguf_max_kv
    → All Fits ts
    → At buf 0 (new_header version (length ts) n_kv kv (build_index alignment ts 0).0)
    → (At buf 24 kv → walk_kv buf n_kv gguf_default_alignment 24 ≡ ok (a, 24 + length kv))
    → let index = build_index alignment ts 0 in
      (open_file buf ≡ ok (opened_as version (length ts) n_kv a (length kv) (length index.0)))
      × (read_index buf (length ts) (24 + length kv)
          ≡ ok (index_of ts index.1, 24 + length kv + length index.0))
unfolding new_header
new_header-opens buf version n_kv alignment a kv ts small known few few' fits at walks =
    let v = to_le 4 version in
    let nt = to_le 8 (length ts) in
    let nk = to_le 8 n_kv in
    let index = (build_index alignment ts 0).0 in
    let l5 = At-left (gguf_magic ++ v ++ nt ++ nk ++ kv) index at in
    let l4 = At-left (gguf_magic ++ v ++ nt ++ nk) kv l5 in
    let l3 = At-left (gguf_magic ++ v ++ nt) nk l4 in
    let l2 = At-left (gguf_magic ++ v) nt l3 in
    let l1 = At-left gguf_magic v l2 in
    let s1 = length-to_le 4 version in
    let s2 = length-to_le 8 (length ts) in
    let s3 = length-to_le 8 n_kv in
    let t1 = length-append gguf_magic v in
    let t2 = length-append (gguf_magic ++ v) nt in
    let t3 = length-append (gguf_magic ++ v ++ nt) nk in
    let t4 = length-append (gguf_magic ++ v ++ nt ++ nk) kv in
    let e1 = read_bytes-At buf 0 gguf_magic small l1 in
    let e2 = read_u32-At buf 4 version small (omega arith) (At-next gguf_magic v 4 l2 refl) in
    let e3 =
      read_u64-At buf (4 + length v) (length ts) small (omega arith)
        (At-next (gguf_magic ++ v) nt (4 + length v) l3 (omega (arith, t1))) in
    let e4 =
      read_u64-At buf (4 + length v + length nt) n_kv small (omega arith) (
        At-next (gguf_magic ++ v ++ nt) nk (4 + length v + length nt) l4 (omega (arith, t1, t2))) in
    let walk =
      walks
        (At-next (gguf_magic ++ v ++ nt ++ nk) kv 24 l5 (omega (arith, s1, s2, s3, t1, t2, t3))) in
    let e5 =
      subst (λ k. walk_kv buf n_kv gguf_default_alignment k ≡ ok (a, 24 + length kv))
        {y = 4 + length v + length nt + length nk} (omega (arith, s1, s2, s3)) walk in
    let e6 = read_index-At alignment buf (24 + length kv) ts 0 small fits (omega arith) (
      At-next (gguf_magic ++ v ++ nt ++ nk ++ kv) index (24 + length kv) at
        (omega (arith, s1, s2, s3, t1, t2, t3, t4))) in
    (open_file-of buf e1 e2 known e3 e4 few few' e5 e6, e6)
