-- ===== src/Gguf/Shift.antt =====
-- Reads of crates/model-store/src/gguf.rs depend only on the bytes that they pass: where the same
-- bytes stand in another file, the same reads give the same values, as far ahead.
use intelnav.Base.{
  ℕ, zero, suc, ◌+◌, ◌-◌, ◌*◌, ◌%◌, ◌≤◌, ◌<◌, ◌≡◌, refl, sym, ap, ◌∙◌, List, arith, length, take,
  drop, Result, ok, guard, or_fail, bind-ok, guard-ok, ok-inj,
}
use mathlib.Core.Path.{subst}
use intelnav.Base.Bytes.{is_utf8}
use intelnav.Types.{u64_mod}
use intelnav.Gguf.{
  GgufError, malformed, panic, KvType, u8, i8, u16, i16, u32, i32, f32, bool, string, array, u64,
  i64, f64, from_u32, scalar_size, read_bytes, read_u32, read_u64, read_string, skip_strings,
  skip_scalars, skip_array, skip_kv_value,
}
use intelnav.Gguf.Cursor.{
  read_bytes-Within, read_u64-Within, skip_strings-Within, skip_array-Within,
}

read_bytes-taken :
    (buf : List ℕ) (n pos : ℕ) {x : List ℕ} {q : ℕ}
    → length buf < u64_mod
    → read_bytes buf n pos ≡ ok (x, q)
    → (k : ℕ) × (k ≡ n % u64_mod) × (q ≡ pos + k) × (x ≡ take k (drop pos buf))
unfolding read_bytes
read_bytes-taken buf n pos {q = q} small e =
    let (lo, hi) = read_bytes-Within buf n pos e in
    (q - pos, ground arith, ground arith, ground arith)

pub read_bytes-there :
    (buf : List ℕ) (n pos k : ℕ)
    → k ≡ n % u64_mod
    → pos + k ≤ length buf
    → length buf < u64_mod
    → read_bytes buf n pos ≡ ok (take k (drop pos buf), pos + k)
unfolding read_bytes
read_bytes-there buf n pos k size inside small =
    let stop : (pos + n) % u64_mod ≡ pos + k = omega arith in
    let step : pos + k - pos ≡ k = omega arith in rw stop (rw step (ground arith))

ok_pair {ℓ} :
    {A : Type ℓ} {x y : A} {p q : ℕ}
    → x ≡ y
    → p ≡ q
    → let left : Result GgufError (A × ℕ) = ok (x, p) in left ≡ ok (y, q)
ok_pair {y = y} {p = p} ex ep = ap (λ v. ok (v, p)) ex ∙ ap (λ v. ok (y, v)) ep

skip_array-reads :
    (buf : List ℕ) (pos : ℕ) {t p n r q : ℕ} {ty : KvType}
    → read_u32 buf pos ≡ ok (t, p)
    → from_u32 t ≡ ok ty
    → read_u64 buf p ≡ ok (n, r)
    → skip_array buf ty n r ≡ ok q
    → skip_kv_value buf array pos ≡ ok q
unfolding skip_kv_value
skip_array-reads buf pos e1 e2 e3 e4 = rw e1 (rw e2 (rw e3 e4))

-- The bytes from `d` in `b` and from `d'` in `b'` are the same, `len` of them.
abbrev pub Same : List ℕ → List ℕ → ℕ → ℕ → ℕ → Type 0
Same b b' d d' len = (i n : ℕ) → i + n ≤ len → take n (drop (d + i) b) ≡ take n (drop (d' + i) b')

module _ (b b' : List ℕ) (d d' len : ℕ) (small : length b < u64_mod) (small' : length b' < u64_mod)
    (inside' : d' + len ≤ length b') (same : Same b b' d d' len) where
  read_bytes-shift :
      (n i : ℕ) {x : List ℕ} {q : ℕ}
      → read_bytes b n (d + i) ≡ ok (x, q)
      → q ≤ d + len
      → (j : ℕ) × (q ≡ d + j) × (read_bytes b' n (d' + i) ≡ ok (x, d' + j))
  read_bytes-shift n i e hi =
      let (k, size, stop, taken) = read_bytes-taken b n (d + i) small e in
      let there = read_bytes-there b' n (d' + i) k size (omega arith) small' in
      (i + k, omega arith, there ∙ ok_pair (sym (same i k (omega arith)) ∙ sym taken) (omega arith))

  pub read_u32-shift :
      (i : ℕ) {x q : ℕ}
      → read_u32 b (d + i) ≡ ok (x, q)
      → q ≤ d + len
      → (j : ℕ) × (q ≡ d + j) × (read_u32 b' (d' + i) ≡ ok (x, d' + j))
  unfolding read_u32
  read_u32-shift i e hi =
      let ((xs, p), e1, r1) = bind-ok (read_bytes b 4 (d + i)) _ e in
      let pair = ok-inj r1 in
      let end = ap (λ r. r.1) pair in
      let (j, at, e1') = read_bytes-shift 4 i e1 (omega arith) in
      (j, omega arith, rw e1' (ok_pair (ap (λ r. r.0) pair) refl))

  read_u64-shift :
      (i : ℕ) {x q : ℕ}
      → read_u64 b (d + i) ≡ ok (x, q)
      → q ≤ d + len
      → (j : ℕ) × (q ≡ d + j) × (read_u64 b' (d' + i) ≡ ok (x, d' + j))
  unfolding read_u64
  read_u64-shift i e hi =
      let ((xs, p), e1, r1) = bind-ok (read_bytes b 8 (d + i)) _ e in
      let pair = ok-inj r1 in
      let end = ap (λ r. r.1) pair in
      let (j, at, e1') = read_bytes-shift 8 i e1 (omega arith) in
      (j, omega arith, rw e1' (ok_pair (ap (λ r. r.0) pair) refl))

  -- A count, and as many bytes.
  counted-shift :
      (i : ℕ) {n p r : ℕ} {x : List ℕ}
      → read_u64 b (d + i) ≡ ok (n, p)
      → read_bytes b n p ≡ ok (x, r)
      → r ≤ d + len
      → (j : ℕ) × (k : ℕ) × (r ≡ d + k)
        × (read_u64 b' (d' + i) ≡ ok (n, d' + j))
        × (read_bytes b' n (d' + j) ≡ ok (x, d' + k))
  counted-shift i {n = n} {r = r} {x = x} e1 e2 hi =
      let (lo, up) = read_bytes-Within b n _ e2 in
      let (j, at, e1') = read_u64-shift i e1 (omega arith) in
      let (k, end, e2') =
        read_bytes-shift n j (subst (λ p. read_bytes b n p ≡ ok (x, r)) at e2) hi in
      (j, k, end, e1', e2')

  pub read_string-shift :
      (i : ℕ) {x : List ℕ} {q : ℕ}
      → read_string b (d + i) ≡ ok (x, q)
      → q ≤ d + len
      → (j : ℕ) × (q ≡ d + j) × (read_string b' (d' + i) ≡ ok (x, d' + j))
  unfolding read_string
  read_string-shift i e hi =
      let ((n, p), e1, r1) = bind-ok (read_u64 b (d + i)) _ e in
      let ((bytes, r), e2, r2) = bind-ok (read_bytes b n p) _ r1 in
      let (u, e3, r3) = bind-ok (guard (is_utf8 bytes) (malformed (r - n))) _ r2 in
      let pair = ok-inj r3 in
      let end = ap (λ r. r.1) pair in
      let (j, k, at, e1', e2') = counted-shift i e1 e2 (omega arith) in
      let valid = guard-ok _ _ e3 in
      (k, omega arith, rw e1' (rw e2' (rw valid (ok_pair (ap (λ r. r.0) pair) refl))))

  skip_strings-shift :
      (n i : ℕ) {q : ℕ}
      → d + i ≤ length b
      → skip_strings b n (d + i) ≡ ok q
      → q ≤ d + len
      → (j : ℕ) × (q ≡ d + j) × (skip_strings b' n (d' + i) ≡ ok (d' + j))
  unfolding skip_strings
  skip_strings-shift zero i inside e hi = (i, sym (ok-inj e), refl)
  skip_strings-shift (suc n) i {q = q} inside e hi =
      let ((m, p), e1, r1) = bind-ok (read_u64 b (d + i)) _ e in
      let ((bytes, r), e2, r2) = bind-ok (read_bytes b m p) _ r1 in
      let (lo2, hi2) = read_bytes-Within b m p e2 in
      let (lo3, hi3) = skip_strings-Within b n r hi2 r2 in
      let (j, k, at, e1', e2') = counted-shift i e1 e2 (omega arith) in
      let (l, end, e3') =
        skip_strings-shift n k (omega arith) (subst (λ p. skip_strings b n p ≡ ok q) at r2) hi in
      (l, end, rw e1' (rw e2' e3'))

  skip_scalars-shift :
      (ty : KvType) (n i : ℕ) {q : ℕ}
      → skip_scalars b ty n (d + i) ≡ ok q
      → q ≤ d + len
      → (j : ℕ) × (q ≡ d + j) × (skip_scalars b' ty n (d' + i) ≡ ok (d' + j))
  unfolding skip_scalars
  skip_scalars-shift ty n i e hi =
      let (sz, known, e1) = bind-ok (or_fail (scalar_size ty) panic) _ e in
      let ((bytes, p), e2, r2) = bind-ok (read_bytes b (sz * n % u64_mod) (d + i)) _ e1 in
      let end = ok-inj r2 in
      let (j, at, e2') = read_bytes-shift (sz * n % u64_mod) i e2 (omega arith) in
      (j, omega arith, rw known (rw e2' refl))

  skip_array-shift :
      (ty : KvType) (n i : ℕ) {q : ℕ}
      → d + i ≤ length b
      → skip_array b ty n (d + i) ≡ ok q
      → q ≤ d + len
      → (j : ℕ) × (q ≡ d + j) × (skip_array b' ty n (d' + i) ≡ ok (d' + j))
  unfolding skip_array
  skip_array-shift string n i inside e hi = skip_strings-shift n i inside e hi
  skip_array-shift array n i inside e hi = absurd (ground arith)
  skip_array-shift u8 n i inside e hi = skip_scalars-shift u8 n i e hi
  skip_array-shift i8 n i inside e hi = skip_scalars-shift i8 n i e hi
  skip_array-shift u16 n i inside e hi = skip_scalars-shift u16 n i e hi
  skip_array-shift i16 n i inside e hi = skip_scalars-shift i16 n i e hi
  skip_array-shift u32 n i inside e hi = skip_scalars-shift u32 n i e hi
  skip_array-shift i32 n i inside e hi = skip_scalars-shift i32 n i e hi
  skip_array-shift f32 n i inside e hi = skip_scalars-shift f32 n i e hi
  skip_array-shift bool n i inside e hi = skip_scalars-shift bool n i e hi
  skip_array-shift u64 n i inside e hi = skip_scalars-shift u64 n i e hi
  skip_array-shift i64 n i inside e hi = skip_scalars-shift i64 n i e hi
  skip_array-shift f64 n i inside e hi = skip_scalars-shift f64 n i e hi

  pub skip_kv_value-shift :
      (ty : KvType) (i : ℕ) {q : ℕ}
      → skip_kv_value b ty (d + i) ≡ ok q
      → q ≤ d + len
      → (j : ℕ) × (q ≡ d + j) × (skip_kv_value b' ty (d' + i) ≡ ok (d' + j))
  unfolding skip_kv_value
  skip_kv_value-shift string i e hi =
      let ((n, p), e1, r1) = bind-ok (read_u64 b (d + i)) _ e in
      let ((bytes, r), e2, r2) = bind-ok (read_bytes b n p) _ r1 in
      let end = ok-inj r2 in
      let (j, k, at, e1', e2') = counted-shift i e1 e2 (omega arith) in
      (k, omega arith, rw e1' (rw e2' refl))
  skip_kv_value-shift array i {q = q} e hi =
      let ((t, p), e1, r1) = bind-ok (read_u32 b (d + i)) _ e in
      let (ty, known, r2) = bind-ok (from_u32 t) _ r1 in
      let ((n, r), e3, r3) = bind-ok (read_u64 b p) _ r2 in
      let (lo3, hi3) = read_u64-Within b p e3 in
      let (lo4, hi4) = skip_array-Within b ty n r hi3 r3 in
      let (j, at, e1') = read_u32-shift i e1 (omega arith) in
      let (k, at', e3') =
        read_u64-shift j (subst (λ p. read_u64 b p ≡ ok (n, r)) at e3) (omega arith) in
      let (l, end, e4') =
        skip_array-shift ty n k (omega arith) (subst (λ p. skip_array b ty n p ≡ ok q) at' r3) hi in
      (l, end, skip_array-reads b' (d' + i) e1' known e3' e4')
  skip_kv_value-shift u8 i e hi = skip_scalars-shift u8 1 i e hi
  skip_kv_value-shift i8 i e hi = skip_scalars-shift i8 1 i e hi
  skip_kv_value-shift u16 i e hi = skip_scalars-shift u16 1 i e hi
  skip_kv_value-shift i16 i e hi = skip_scalars-shift i16 1 i e hi
  skip_kv_value-shift u32 i e hi = skip_scalars-shift u32 1 i e hi
  skip_kv_value-shift i32 i e hi = skip_scalars-shift i32 1 i e hi
  skip_kv_value-shift f32 i e hi = skip_scalars-shift f32 1 i e hi
  skip_kv_value-shift bool i e hi = skip_scalars-shift bool 1 i e hi
  skip_kv_value-shift u64 i e hi = skip_scalars-shift u64 1 i e hi
  skip_kv_value-shift i64 i e hi = skip_scalars-shift i64 1 i e hi
  skip_kv_value-shift f64 i e hi = skip_scalars-shift f64 1 i e hi
