-- ===== src/Store/Rewrite.antt =====
-- The metadata that crates/model-store/src/stitch.rs writes, as `Gguf::open` walks over it.
use intelnav.Base.{
  ℕ, suc, ◌+◌, ◌*◌, ◌%◌, ◌^◌, ◌<◌, ◌≡◌, refl, sym, ap, ◌∙◌, inl, inr, Bool, true, false, ◌&&◌, some,
  List, [], ◌∷◌, ◌++◌, arith, if◌then◌else◌, Bool-cases, length, take, drop, length-append, ok,
  bind-ok, ok-inj,
}
use mathlib.Core.Path.{subst}
use intelnav.Base.Bytes.{to_le, of_le, bytes_eq, is_utf8, length-to_le}
use intelnav.Types.{u64_mod}
use intelnav.Gguf.{
  alignment_key, KvType, u8, i8, u16, i16, u32, i32, f32, bool, string, array, u64, i64, f64,
  from_u32, is_u32, scalar_size, read_bytes, read_u32, read_string, skip_scalars, skip_kv_value,
}
use intelnav.Gguf.Cursor.{read_bytes-moves, read_u32-Within, skip_kv_value-Within}
use intelnav.Gguf.Header.{walk_kv}
use intelnav.Gguf.Shift.{read_string-shift, read_u32-shift, skip_kv_value-shift}
use intelnav.Gguf.Reads.{
  At, At-left, At-right, At-bound, At-Same, read_bytes-At, read_u32-At, read_string-At,
}
use intelnav.Store.Layout.{write_string, write_kv_u32, write_kv_bool}

abbrev pub next_alignment : List ℕ → KvType → List ℕ → ℕ → ℕ → ℕ
next_alignment key ty buf q alignment =
    if bytes_eq key alignment_key && is_u32 ty then of_le (take 4 (drop q buf)) else alignment

walk_kv-step :
    (buf : List ℕ) (n alignment pos : ℕ) {p q r t : ℕ} {key : List ℕ} {ty : KvType}
    → read_string buf pos ≡ ok (key, p)
    → read_u32 buf p ≡ ok (t, q)
    → from_u32 t ≡ ok ty
    → skip_kv_value buf ty q ≡ ok r
    → walk_kv buf (suc n) alignment pos ≡ walk_kv buf n (next_alignment key ty buf q alignment) r
unfolding walk_kv
walk_kv-step buf n alignment pos e1 e2 e3 e4 = rw e1 (rw e2 (rw e3 (rw e4 refl)))

-- Wherever these bytes stand, the walk passes them as one entry, which does to the alignment what
-- the function says.
abbrev pub Walks : List ℕ → (ℕ → ℕ) → Type 0
Walks e f =
    (buf : List ℕ) (pos n alignment : ℕ)
    → length buf < u64_mod
    → At buf pos e
    → walk_kv buf (suc n) alignment pos ≡ walk_kv buf n (f alignment) (pos + length e)

and_false : (t : Bool) → (t && false) ≡ false
and_false true = refl
and_false false = refl

skip_scalars-At :
    (buf : List ℕ) (ty : KvType) (pos : ℕ) (xs : List ℕ) (size : ℕ)
    → length buf < u64_mod
    → At buf pos xs
    → scalar_size ty ≡ some size
    → size ≡ length xs
    → skip_scalars buf ty 1 pos ≡ ok (pos + length xs)
unfolding skip_scalars
skip_scalars-At buf ty pos xs size small at known same =
    let bound = At-bound buf pos xs at in
    let count : size * 1 % u64_mod ≡ length xs = omega arith in
    rw known (rw count (rw (read_bytes-At buf pos xs small at) refl))

-- A key, the number of a type of scalars, and such a scalar.
scalar-Walks :
    (key : List ℕ) (t : ℕ) (ty : KvType) (value : List ℕ)
    → is_utf8 key ≡ true
    → t < 2 ^ 32
    → from_u32 t ≡ ok ty
    → scalar_size ty ≡ some (length value)
    → ((buf : List ℕ) (pos : ℕ) → skip_kv_value buf ty pos ≡ skip_scalars buf ty 1 pos)
    → (bytes_eq key alignment_key && is_u32 ty) ≡ false
    → Walks (write_string key ++ to_le 4 t ++ value) (λ a. a)
unfolding write_string
scalar-Walks key t ty value valid small_t known size scalar other buf pos n alignment small at =
    let front = At-left (write_string key ++ to_le 4 t) value at in
    let name = At-left (write_string key) (to_le 4 t) front in
    let tag = At-right (write_string key) (to_le 4 t) front in
    let last = At-right (write_string key ++ to_le 4 t) value at in
    let e1 = read_string-At buf pos key small valid name in
    let e2 = read_u32-At buf (pos + length (write_string key)) t small small_t tag in
    let start : pos + length (write_string key ++ to_le 4 t)
        ≡ pos + length (write_string key) + length (to_le 4 t) =
      omega (arith, length-append (write_string key) (to_le 4 t)) in
    let bytes = subst (λ k. At buf k value) start last in
    let e4 = scalar buf _ ∙ skip_scalars-At buf ty _ value (length value) small bytes size refl in
    walk_kv-step buf n alignment pos e1 e2 known e4
    ∙ rw other (
        ap (walk_kv buf n alignment)
          (omega (arith, length-append (write_string key ++ to_le 4 t) value, start)))

pub write_kv_bool-Walks :
    (key : List ℕ) (value : Bool) → is_utf8 key ≡ true → Walks (write_kv_bool key value) (λ a. a)
unfolding write_kv_bool skip_kv_value scalar_size from_u32
write_kv_bool-Walks key value valid =
    scalar-Walks key 7 bool ((if value then 1 else 0) ∷ []) valid (omega arith) refl refl
      (λ buf pos. refl) (and_false (bytes_eq key alignment_key))

pub write_kv_u32-Walks :
    (key : List ℕ) (value : ℕ)
    → is_utf8 key ≡ true
    → bytes_eq key alignment_key ≡ false
    → Walks (write_kv_u32 key value) (λ a. a)
unfolding write_kv_u32 skip_kv_value scalar_size from_u32
write_kv_u32-Walks key value valid other =
    scalar-Walks key 4 u32 (to_le 4 value) valid (omega arith) refl
      (ap some (sym (length-to_le 4 value))) (λ buf pos. refl) (rw other refl)

is_u32-only : (ty : KvType) → is_u32 ty ≡ true → ty ≡ u32
is_u32-only u8 h = absurd (ground arith)
is_u32-only i8 h = absurd (ground arith)
is_u32-only u16 h = absurd (ground arith)
is_u32-only i16 h = absurd (ground arith)
is_u32-only u32 h = refl
is_u32-only i32 h = absurd (ground arith)
is_u32-only f32 h = absurd (ground arith)
is_u32-only bool h = absurd (ground arith)
is_u32-only string h = absurd (ground arith)
is_u32-only array h = absurd (ground arith)
is_u32-only u64 h = absurd (ground arith)
is_u32-only i64 h = absurd (ground arith)
is_u32-only f64 h = absurd (ground arith)

skip_u32-moves :
    (buf : List ℕ) (pos : ℕ) {q : ℕ} → skip_kv_value buf u32 pos ≡ ok q → q ≡ (pos + 4) % u64_mod
unfolding skip_kv_value skip_scalars scalar_size
skip_u32-moves buf pos e =
    let ((bytes, p), read, r1) = bind-ok (read_bytes buf 4 pos) _ e in
    sym (ok-inj r1) ∙ read_bytes-moves buf 4 pos read

next_alignment-Same :
    (key : List ℕ) (ty : KvType) (b b' : List ℕ) (q q' alignment : ℕ)
    → (is_u32 ty ≡ true → take 4 (drop q b) ≡ take 4 (drop q' b'))
    → next_alignment key ty b q alignment ≡ next_alignment key ty b' q' alignment
next_alignment-Same key ty b b' q q' alignment same = elim (Bool-cases (is_u32 ty)) [
  | inl word ↦
      ap (λ v. if bytes_eq key alignment_key && is_u32 ty then of_le v else alignment) (same word)
  | inr other ↦ rw other (rw (and_false (bytes_eq key alignment_key)) refl)
]

-- An entry cut out of a file that the walk passes there is passed wherever it stands.
pub entry-Walks :
    (b : List ℕ) (d : ℕ) (e key : List ℕ) (ty : KvType) {p q r t : ℕ}
    → length b < u64_mod
    → At b d e
    → read_string b d ≡ ok (key, p)
    → read_u32 b p ≡ ok (t, q)
    → from_u32 t ≡ ok ty
    → skip_kv_value b ty q ≡ ok r
    → r ≡ d + length e
    → Walks e (next_alignment key ty b q)
entry-Walks b d e key ty {p = p} {q = q} {r = r} {t = t} small_b here e1 e2 e3 e4 end buf pos n
      alignment small at =
    let same = At-Same b buf d pos e here at in
    let bound = At-bound buf pos e at in
    let (lo2, hi2) = read_u32-Within b p e2 in
    let (lo3, hi3) = skip_kv_value-Within b ty q e4 in
    let first : read_string b (d + 0) ≡ ok (key, p) =
      subst (λ k. read_string b k ≡ ok (key, p)) (omega arith) e1 in
    let (j1, at1, s1) =
      read_string-shift b buf d pos (length e) small_b small bound same 0 first (omega arith) in
    let (j2, at2, s2) =
      read_u32-shift b buf d pos (length e) small_b small bound same j1
        (subst (λ k. read_u32 b k ≡ ok (t, q)) at1 e2) (omega arith) in
    let (j4, at4, s4) =
      skip_kv_value-shift b buf d pos (length e) small_b small bound same ty j2
        (subst (λ k. skip_kv_value b ty k ≡ ok r) at2 e4) (omega arith) in
    let start : read_string buf pos ≡ ok (key, pos + j1) =
      subst (λ k. read_string buf k ≡ ok (key, pos + j1)) (omega arith) s1 in
    walk_kv-step buf n alignment pos start s2 e3 s4
    ∙ ap (λ k. walk_kv buf n (next_alignment key ty buf (pos + j2) alignment) k) (omega arith)
    ∙ ap (λ a. walk_kv buf n a (pos + length e))
        (sym (
          next_alignment-Same key ty b buf q (pos + j2) alignment (λ word.
            let moves =
              skip_u32-moves b q
                (subst (λ y. skip_kv_value b y q ≡ ok r) (is_u32-only ty word) e4) in
            ap (λ k. take 4 (drop k b)) at2 ∙ same j2 4 (omega arith))))
