-- ===== src/Gguf/Walk.antt =====
-- What `Gguf::open` of crates/model-store/src/gguf.rs promises of the offsets that it finds, and how
-- the second walk over the metadata agrees with the first.
use intelnav.Base.{
  ℕ, zero, suc, ◌+◌, ◌%◌, ◌≤◌, ◌≡◌, refl, ap, true, Option, none, some, List, [], ◌∷◌, arith, leb,
  ◌==◌, leb→le, ==_iff, length, ok, guard, bind-ok, guard-ok, ok-inj,
}
use mathlib.Core.Path.{subst}
use intelnav.Base.Bytes.{bytes_eq}
use intelnav.Types.{u64_mod}
use intelnav.Gguf.{
  bad_magic, bad_version, malformed, KvType, u8, i8, u16, i16, u32, i32, f32, bool, string, u64,
  i64, f64, array, gguf_version_supported, gguf_default_alignment, gguf_max_tensors, gguf_max_kv,
  gguf_max_dims, gguf_magic, from_u32, read_bytes, read_u32, read_u64, read_string, skip_kv_value,
  align_up,
}
use intelnav.Gguf.Cursor.{
  Within, read_u32-Within, read_u64-Within, read_string-Within, skip_kv_value-Within,
  read_bytes-moves, read_u32-moves, read_u64-moves, peek-read,
}
use intelnav.Gguf.Header.{
  Gguf, TensorIndexEntry, walk_kv, read_dims, read_tensor, read_index, open_file, KvEntry,
  element_type, read_entries,
}

pub walk_kv-Within :
    (buf : List ℕ) (n alignment pos : ℕ) {a q : ℕ}
    → pos ≤ length buf
    → walk_kv buf n alignment pos ≡ ok (a, q)
    → Within buf pos q
unfolding walk_kv
walk_kv-Within buf zero alignment pos inside e = (ground arith, ground arith)
walk_kv-Within buf (suc n) alignment pos inside e =
    let ((key, p), e1, r1) = bind-ok (read_string buf pos) _ e in
    let ((t, q), e2, r2) = bind-ok (read_u32 buf p) _ r1 in
    let (ty, e3, r3) = bind-ok (from_u32 t) _ r2 in
    let (r, e4, r4) = bind-ok (skip_kv_value buf ty q) _ r3 in
    let (lo1, hi1) = read_string-Within buf pos e1 in
    let (lo2, hi2) = read_u32-Within buf p e2 in
    let (lo3, hi3) = skip_kv_value-Within buf ty q e4 in
    let (lo4, hi4) = walk_kv-Within buf n _ r hi3 r4 in (omega arith, hi4)

read_dims-Within :
    (buf : List ℕ) (n pos : ℕ) {ds : List ℕ} {q : ℕ}
    → pos ≤ length buf
    → read_dims buf n pos ≡ ok (ds, q)
    → Within buf pos q
unfolding read_dims
read_dims-Within buf zero pos inside e = (ground arith, ground arith)
read_dims-Within buf (suc n) pos inside e =
    let ((d, p), e1, r1) = bind-ok (read_u64 buf pos) _ e in
    let ((ds, q), e2, r2) = bind-ok (read_dims buf n p) _ r1 in
    let (lo1, hi1) = read_u64-Within buf pos e1 in
    let (lo2, hi2) = read_dims-Within buf n p hi1 e2 in (ground arith, ground arith)

read_tensor-Within :
    (buf : List ℕ) (pos : ℕ) {x : TensorIndexEntry} {q : ℕ}
    → read_tensor buf pos ≡ ok (x, q)
    → Within buf pos q
unfolding read_tensor
read_tensor-Within buf pos e =
    let ((name, p), e1, r1) = bind-ok (read_string buf pos) _ e in
    let ((n_dims, q), e2, r2) = bind-ok (read_u32 buf p) _ r1 in
    let (u, e3, r3) = bind-ok (guard (leb n_dims gguf_max_dims) (malformed q)) _ r2 in
    let ((shape, r), e4, r4) = bind-ok (read_dims buf n_dims q) _ r3 in
    let ((dtype, s), e5, r5) = bind-ok (read_u32 buf r) _ r4 in
    let ((offset, t), e6, r6) = bind-ok (read_u64 buf s) _ r5 in
    let (lo1, hi1) = read_string-Within buf pos e1 in
    let (lo2, hi2) = read_u32-Within buf p e2 in
    let (lo3, hi3) = read_dims-Within buf n_dims q hi2 e4 in
    let (lo4, hi4) = read_u32-Within buf r e5 in
    let (lo5, hi5) = read_u64-Within buf s e6 in (ground arith, ground arith)

pub read_index-Within :
    (buf : List ℕ) (n pos : ℕ) {ts : List TensorIndexEntry} {q : ℕ}
    → pos ≤ length buf
    → read_index buf n pos ≡ ok (ts, q)
    → Within buf pos q × (length ts ≡ n)
unfolding read_index
read_index-Within buf zero pos inside e = ((ground arith, ground arith), ground arith)
read_index-Within buf (suc n) pos inside e =
    let ((t, p), e1, r1) = bind-ok (read_tensor buf pos) _ e in
    let ((ts, q), e2, r2) = bind-ok (read_index buf n p) _ r1 in
    let (lo1, hi1) = read_tensor-Within buf pos e1 in
    let ((lo2, hi2), len) = read_index-Within buf n p hi1 e2 in
    ((ground arith, ground arith), ground arith)

-- What `open` went through.
abbrev pub Opened : List ℕ → Gguf → Type 0
Opened buf g =
    (walk_kv buf g.n_kv gguf_default_alignment 24 ≡ ok (g.alignment, g.kv_end_offset))
    × ((ts : List TensorIndexEntry) × (read_index buf g.n_tensors g.kv_end_offset
          ≡ ok (ts, g.index_end_offset)))
    × (24 ≤ length buf)
    × ((g.version ≡ gguf_version_supported)
        × (g.n_tensors ≤ gguf_max_tensors)
        × (g.n_kv ≤ gguf_max_kv))
    × (g.tensor_data_offset ≡ align_up g.index_end_offset g.alignment)

header_ends :
    (buf : List ℕ) (p q r s : ℕ)
    → p ≡ (0 + 4) % u64_mod
    → q ≡ (p + 4) % u64_mod
    → r ≡ (q + 8) % u64_mod
    → s ≡ (r + 8) % u64_mod
    → s ≡ 24
header_ends buf p q r s e1 e2 e3 e4 = omega arith

pub opened : (buf : List ℕ) (g : Gguf) → open_file buf ≡ ok g → Opened buf g
unfolding open_file
opened buf g e =
    let ((magic, p), e1, r1) = bind-ok (read_bytes buf 4 0) _ e in
    let (u, e2, r2) = bind-ok (guard (bytes_eq magic gguf_magic) (bad_magic magic)) _ r1 in
    let ((version, q), e3, r3) = bind-ok (read_u32 buf p) _ r2 in
    let (v, e4, r4) =
      bind-ok (guard (version == gguf_version_supported) (bad_version version)) _ r3 in
    let ((n_tensors, r), e5, r5) = bind-ok (read_u64 buf q) _ r4 in
    let ((n_kv, s), e6, r6) = bind-ok (read_u64 buf r) _ r5 in
    let (w, e7, r7) = bind-ok (guard (leb n_tensors gguf_max_tensors) (malformed 16)) _ r6 in
    let (x, e8, r8) = bind-ok (guard (leb n_kv gguf_max_kv) (malformed 24)) _ r7 in
    let ((alignment, kv_end), e9, r9) = bind-ok (walk_kv buf n_kv gguf_default_alignment s) _ r8 in
    let ((index, index_end), e10, r10) = bind-ok (read_index buf n_tensors kv_end) _ r9 in
    let at =
      header_ends buf p q r s (read_bytes-moves buf 4 0 e1) (read_u32-moves buf p e3)
        (read_u64-moves buf q e5) (read_u64-moves buf r e6) in
    let (lo, hi) = read_u64-Within buf r e6 in
    let t4 : leb n_tensors gguf_max_tensors ≡ true = guard-ok _ _ e7 in
    let t5 : leb n_kv gguf_max_kv ≡ true = guard-ok _ _ e8 in
    let t6 : (version == gguf_version_supported) ≡ true = guard-ok _ _ e4 in
    subst (Opened buf) (ok-inj r10) (
      subst (λ k. walk_kv buf n_kv gguf_default_alignment k ≡ ok (alignment, kv_end)) at e9,
      (index, e10),
      omega arith,
      ((==_iff version gguf_version_supported).0 t6, leb→le _ _ t4, leb→le _ _ t5),
      refl,
    )

-- The element type of an array is there to peek at wherever the value can be skipped.
pub element_type-skips :
    (buf : List ℕ) (ty : KvType) (pos : ℕ) {q : ℕ}
    → skip_kv_value buf ty pos ≡ ok q
    → (element : Option KvType) × (element_type buf ty pos ≡ ok element)
unfolding skip_kv_value element_type
element_type-skips buf array pos e =
    let ((t, p), tag, e1) = bind-ok (read_u32 buf pos) _ e in
    let (ty, known, e2) = bind-ok (from_u32 t) _ e1 in
    (some ty, ground (arith, known, peek-read buf pos tag))
element_type-skips buf u8 pos e = (none, refl)
element_type-skips buf i8 pos e = (none, refl)
element_type-skips buf u16 pos e = (none, refl)
element_type-skips buf i16 pos e = (none, refl)
element_type-skips buf u32 pos e = (none, refl)
element_type-skips buf i32 pos e = (none, refl)
element_type-skips buf f32 pos e = (none, refl)
element_type-skips buf bool pos e = (none, refl)
element_type-skips buf string pos e = (none, refl)
element_type-skips buf u64 pos e = (none, refl)
element_type-skips buf i64 pos e = (none, refl)
element_type-skips buf f64 pos e = (none, refl)

-- Entries that lie end to end from one offset to another.
abbrev pub Tiles : ℕ → List KvEntry → ℕ → Type 0
Tiles from [] to = from ≡ to
Tiles from (e ∷ es) to =
    (e.entry_start ≡ from)
    × (from ≤ e.value_start)
    × (e.value_start ≤ e.entry_end)
    × Tiles e.entry_end es to

pub first_entry :
    (buf : List ℕ) (n pos p q r s t : ℕ) (key : List ℕ) (ty : KvType) (element : Option KvType)
    (es : List KvEntry)
    → read_string buf pos ≡ ok (key, p)
    → read_u32 buf p ≡ ok (t, q)
    → from_u32 t ≡ ok ty
    → element_type buf ty q ≡ ok element
    → skip_kv_value buf ty q ≡ ok r
    → read_entries buf n r ≡ ok (es, s)
    → read_entries buf (suc n) pos
      ≡ ok (
        record {
          key = key;
          ty = ty;
          array_element_ty = element;
          value_start = q;
          entry_start = pos;
          entry_end = r;
        }
            ∷ es,
        s,
      )
unfolding read_entries
first_entry buf n pos p q r s t key ty element es e1 e2 e3 e4 e5 e6 =
    rw e1 (rw e2 (rw e3 (rw e4 (rw e5 (rw e6 refl)))))

pub walks_agree :
    (buf : List ℕ) (n alignment pos : ℕ) {a q : ℕ}
    → walk_kv buf n alignment pos ≡ ok (a, q)
    → (es : List KvEntry) × (read_entries buf n pos ≡ ok (es, q)) × (length es ≡ n) × Tiles pos es q
unfolding walk_kv read_entries
walks_agree buf zero alignment pos e = ([], ground arith, refl, ground arith)
walks_agree buf (suc n) alignment pos e =
    let ((key, p), e1, r1) = bind-ok (read_string buf pos) _ e in
    let ((t, q), e2, r2) = bind-ok (read_u32 buf p) _ r1 in
    let (ty, e3, r3) = bind-ok (from_u32 t) _ r2 in
    let (r, e4, r4) = bind-ok (skip_kv_value buf ty q) _ r3 in
    let (element, e5) = element_type-skips buf ty q e4 in
    let (lo1, hi1) = read_string-Within buf pos e1 in
    let (lo2, hi2) = read_u32-Within buf p e2 in
    let (lo3, hi3) = skip_kv_value-Within buf ty q e4 in
    let (es, e6, len, tiles) = walks_agree buf n _ r r4 in
    (
      _ ∷ es,
      first_entry buf n pos p q r _ t key ty element es e1 e2 e3 e5 e4 e6,
      ap suc len,
      (refl, omega (arith, lo1, lo2), lo3, tiles),
    )
