-- ===== src/Gguf/Cursor.antt =====
-- Where the cursor of crates/model-store/src/gguf.rs may be: no read moves it back, or behind the
-- end of the file.
use intelnav.Base.{
  ℕ, zero, suc, ◌+◌, ◌-◌, ◌*◌, ◌%◌, ◌≤◌, ◌<◌, ◌≡◌, ap, ◌↔◌, List, arith, length, take, drop, ok,
  err, guard, or_fail, bind-ok,
}
use intelnav.Base.Bytes.{is_utf8, of_le}
use intelnav.Types.{u64_mod}
use intelnav.Gguf.{
  malformed, panic, KvType, u8, i8, u16, i16, u32, i32, f32, bool, string, array, u64, i64, f64,
  from_u32, scalar_size, read_bytes, read_u32, read_u64, read_string, skip_strings, skip_scalars,
  skip_array, skip_kv_value, peek_u32,
}

abbrev pub Within : List ℕ → ℕ → ℕ → Type 0
Within buf pos q = (pos ≤ q) × (q ≤ length buf)

-- With the cursor inside a file of fewer than 2^64 bytes, and a count below 2^64, a read panics
-- exactly where the sum of the position and the count reaches 2^64: the bound is tested behind the
-- wrap-around.
pub read_bytes-panics_iff :
    (buf : List ℕ) (n pos : ℕ)
    → n < u64_mod
    → pos ≤ length buf
    → length buf < u64_mod
    → read_bytes buf n pos ≡ err panic ↔ u64_mod ≤ pos + n
unfolding read_bytes
read_bytes-panics_iff buf n pos small inside file = (λ e. ground arith, λ e. ground arith)

pub read_bytes-Within :
    (buf : List ℕ) (n pos : ℕ) {x : List ℕ} {q : ℕ}
    → read_bytes buf n pos ≡ ok (x, q)
    → Within buf pos q
unfolding read_bytes
read_bytes-Within buf n pos e = (ground arith, ground arith)

pub read_u32-Within :
    (buf : List ℕ) (pos : ℕ) {x q : ℕ} → read_u32 buf pos ≡ ok (x, q) → Within buf pos q
unfolding read_u32
read_u32-Within buf pos e =
    let ((b, p), read, rest) = bind-ok (read_bytes buf 4 pos) _ e in
    let (lo, hi) = read_bytes-Within buf 4 pos read in (ground arith, ground arith)

pub read_u64-Within :
    (buf : List ℕ) (pos : ℕ) {x q : ℕ} → read_u64 buf pos ≡ ok (x, q) → Within buf pos q
unfolding read_u64
read_u64-Within buf pos e =
    let ((b, p), read, rest) = bind-ok (read_bytes buf 8 pos) _ e in
    let (lo, hi) = read_bytes-Within buf 8 pos read in (ground arith, ground arith)

pub read_string-Within :
    (buf : List ℕ) (pos : ℕ) {x : List ℕ} {q : ℕ}
    → read_string buf pos ≡ ok (x, q)
    → Within buf pos q
unfolding read_string
read_string-Within buf pos e =
    let ((n, p), len, e1) = bind-ok (read_u64 buf pos) _ e in
    let ((bytes, r), read, e2) = bind-ok (read_bytes buf n p) _ e1 in
    let (u, valid, e3) = bind-ok (guard (is_utf8 bytes) (malformed (r - n))) _ e2 in
    let (lo1, hi1) = read_u64-Within buf pos len in
    let (lo2, hi2) = read_bytes-Within buf n p read in (ground arith, ground arith)

pub skip_strings-Within :
    (buf : List ℕ) (n pos : ℕ) {q : ℕ}
    → pos ≤ length buf
    → skip_strings buf n pos ≡ ok q
    → Within buf pos q
unfolding skip_strings
skip_strings-Within buf zero pos inside e = (ground arith, ground arith)
skip_strings-Within buf (suc n) pos inside e =
    let ((k, p), len, e1) = bind-ok (read_u64 buf pos) _ e in
    let ((bytes, r), read, e2) = bind-ok (read_bytes buf k p) _ e1 in
    let (lo1, hi1) = read_u64-Within buf pos len in
    let (lo2, hi2) = read_bytes-Within buf k p read in
    let (lo3, hi3) = skip_strings-Within buf n r hi2 e2 in (omega arith, hi3)

skip_scalars-Within :
    (buf : List ℕ) (ty : KvType) (n pos : ℕ) {q : ℕ}
    → skip_scalars buf ty n pos ≡ ok q
    → Within buf pos q
unfolding skip_scalars
skip_scalars-Within buf ty n pos e =
    let (sz, known, e1) = bind-ok (or_fail (scalar_size ty) panic) _ e in
    let ((bytes, p), read, e2) = bind-ok (read_bytes buf (sz * n % u64_mod) pos) _ e1 in
    let (lo, hi) = read_bytes-Within buf (sz * n % u64_mod) pos read in (ground arith, ground arith)

pub skip_array-Within :
    (buf : List ℕ) (ty : KvType) (n pos : ℕ) {q : ℕ}
    → pos ≤ length buf
    → skip_array buf ty n pos ≡ ok q
    → Within buf pos q
unfolding skip_array
skip_array-Within buf string n pos inside e = skip_strings-Within buf n pos inside e
skip_array-Within buf array n pos inside e = absurd (ground arith)
skip_array-Within buf u8 n pos inside e = skip_scalars-Within buf u8 n pos e
skip_array-Within buf i8 n pos inside e = skip_scalars-Within buf i8 n pos e
skip_array-Within buf u16 n pos inside e = skip_scalars-Within buf u16 n pos e
skip_array-Within buf i16 n pos inside e = skip_scalars-Within buf i16 n pos e
skip_array-Within buf u32 n pos inside e = skip_scalars-Within buf u32 n pos e
skip_array-Within buf i32 n pos inside e = skip_scalars-Within buf i32 n pos e
skip_array-Within buf f32 n pos inside e = skip_scalars-Within buf f32 n pos e
skip_array-Within buf bool n pos inside e = skip_scalars-Within buf bool n pos e
skip_array-Within buf u64 n pos inside e = skip_scalars-Within buf u64 n pos e
skip_array-Within buf i64 n pos inside e = skip_scalars-Within buf i64 n pos e
skip_array-Within buf f64 n pos inside e = skip_scalars-Within buf f64 n pos e

pub skip_kv_value-Within :
    (buf : List ℕ) (ty : KvType) (pos : ℕ) {q : ℕ}
    → skip_kv_value buf ty pos ≡ ok q
    → Within buf pos q
unfolding skip_kv_value
skip_kv_value-Within buf string pos e =
    let ((n, p), len, e1) = bind-ok (read_u64 buf pos) _ e in
    let ((bytes, r), read, e2) = bind-ok (read_bytes buf n p) _ e1 in
    let (lo1, hi1) = read_u64-Within buf pos len in
    let (lo2, hi2) = read_bytes-Within buf n p read in (ground arith, ground arith)
skip_kv_value-Within buf array pos e =
    let ((t, p), tag, e1) = bind-ok (read_u32 buf pos) _ e in
    let (ty, known, e2) = bind-ok (from_u32 t) _ e1 in
    let ((n, r), count, e3) = bind-ok (read_u64 buf p) _ e2 in
    let (lo1, hi1) = read_u32-Within buf pos tag in
    let (lo2, hi2) = read_u64-Within buf p count in
    let (lo3, hi3) = skip_array-Within buf ty n r hi2 e3 in (omega arith, hi3)
skip_kv_value-Within buf u8 pos e = skip_scalars-Within buf u8 1 pos e
skip_kv_value-Within buf i8 pos e = skip_scalars-Within buf i8 1 pos e
skip_kv_value-Within buf u16 pos e = skip_scalars-Within buf u16 1 pos e
skip_kv_value-Within buf i16 pos e = skip_scalars-Within buf i16 1 pos e
skip_kv_value-Within buf u32 pos e = skip_scalars-Within buf u32 1 pos e
skip_kv_value-Within buf i32 pos e = skip_scalars-Within buf i32 1 pos e
skip_kv_value-Within buf f32 pos e = skip_scalars-Within buf f32 1 pos e
skip_kv_value-Within buf bool pos e = skip_scalars-Within buf bool 1 pos e
skip_kv_value-Within buf u64 pos e = skip_scalars-Within buf u64 1 pos e
skip_kv_value-Within buf i64 pos e = skip_scalars-Within buf i64 1 pos e
skip_kv_value-Within buf f64 pos e = skip_scalars-Within buf f64 1 pos e

-- How far the reads of a fixed size move.
pub read_bytes-moves :
    (buf : List ℕ) (n pos : ℕ) {x : List ℕ} {q : ℕ}
    → read_bytes buf n pos ≡ ok (x, q)
    → q ≡ (pos + n) % u64_mod
unfolding read_bytes
read_bytes-moves buf n pos e = ground arith

pub read_u32-moves :
    (buf : List ℕ) (pos : ℕ) {x q : ℕ} → read_u32 buf pos ≡ ok (x, q) → q ≡ (pos + 4) % u64_mod
unfolding read_u32
read_u32-moves buf pos e =
    let ((b, p), read, rest) = bind-ok (read_bytes buf 4 pos) _ e in
    let moves = read_bytes-moves buf 4 pos read in ground arith

pub read_u64-moves :
    (buf : List ℕ) (pos : ℕ) {x q : ℕ} → read_u64 buf pos ≡ ok (x, q) → q ≡ (pos + 8) % u64_mod
unfolding read_u64
read_u64-moves buf pos e =
    let ((b, p), read, rest) = bind-ok (read_bytes buf 8 pos) _ e in
    let moves = read_bytes-moves buf 8 pos read in ground arith

four_ahead :
    (buf : List ℕ) (pos : ℕ) {b : List ℕ} {p : ℕ}
    → read_bytes buf 4 pos ≡ ok (b, p)
    → peek_u32 buf pos ≡ ok (of_le b)
unfolding read_bytes peek_u32
four_ahead buf pos e =
    let (lo, hi) = read_bytes-Within buf 4 pos e in
    let moves = read_bytes-moves buf 4 pos e in
    let four : (pos + 4) % u64_mod - pos ≡ 4 = omega arith in
    ground (arith, ap (λ k. take k (drop pos buf)) four)

-- Peeking finds what reading finds.
pub peek-read :
    (buf : List ℕ) (pos : ℕ) {x q : ℕ} → read_u32 buf pos ≡ ok (x, q) → peek_u32 buf pos ≡ ok x
unfolding read_u32
peek-read buf pos e =
    let ((b, p), read, rest) = bind-ok (read_bytes buf 4 pos) _ e in
    let peeks = four_ahead buf pos read in ground arith
