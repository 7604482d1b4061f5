-- ===== src/Store/Metadata.antt =====
-- The metadata of a file that crates/model-store/src/stitch.rs rewrites: `Gguf::open` finds in it the
-- alignment that it finds in the original.
use intelnav.Base.{
  ℕ, zero, suc, ◌+◌, ◌-◌, ◌≤◌, ◌<◌, ◌≡◌, refl, sym, ap, ◌∙◌, inl, inr, true, false, ◌&&◌, List, [],
  ◌∷◌, ◌++◌, append_assoc, arith, if◌then◌else◌, Bool-cases, length, take, drop, length-append,
  take-append-drop, length-take, length-drop, ok, guard, bind-ok, guard-ok, ok-inj,
}
use mathlib.Core.Path.{subst}
use intelnav.Base.Bytes.{bytes_eq, bytes_eq_iff, is_utf8}
use intelnav.Types.{u64_mod}
use intelnav.Gguf.{
  alignment_key, from_u32, is_u32, read_bytes, read_u32, read_u64, read_string, skip_kv_value,
}
use intelnav.Gguf.Header.{KvEntry, walk_kv, read_entries}
use intelnav.Gguf.Reads.{At, At-left, At-right}
use intelnav.Store.{slice}
use intelnav.Store.Layout.{write_kv_u32, rewrite_kv}
use intelnav.Gguf.{malformed}
use intelnav.Gguf.Walk.{element_type-skips, first_entry}
use intelnav.Store.Rewrite.{Walks, next_alignment, entry-Walks, write_kv_u32-Walks}

-- What is cut out of a file stands there, and in every file that begins with it.
slice-At :
    (file more : List ℕ) (start end : ℕ) {xs : List ℕ}
    → slice file start end ≡ ok xs
    → At (file ++ more) start xs × (end ≡ start + length xs)
slice-At file more start end {xs = xs} e =
    let (lo, hi) : (start ≤ end) × (end ≤ length file) = (ground arith, ground arith) in
    let cut : take (end - start) (drop start file) ≡ xs = ground arith in
    let front = take-append-drop start file in
    let back = take-append-drop (end - start) (drop start file) in
    let size : length (take (end - start) (drop start file)) ≡ end - start =
      omega (arith, length-take (end - start) (drop start file), length-drop start file) in
    subst (λ t. At (file ++ more) start t × (end ≡ start + length t)) cut
      (
        (
          take start file,
          drop (end - start) (drop start file) ++ more,
          ap (λ t. t ++ more) (sym front)
              ∙ append_assoc (take start file) (drop start file) more
              ∙ ap (λ t. take start file ++ (t ++ more)) (sym back)
              ∙ ap (λ t. take start file ++ t)
                  (append_assoc (take (end - start) (drop start file))
                    (drop (end - start) (drop start file)) more),
          omega (arith, length-take start file),
        ),
        omega arith,
      )

read_string-utf8 :
    (buf : List ℕ) (pos : ℕ) {s : List ℕ} {q : ℕ}
    → read_string buf pos ≡ ok (s, q)
    → is_utf8 s ≡ true
unfolding read_string
read_string-utf8 buf pos e =
    let ((n, p), e1, r1) = bind-ok (read_u64 buf pos) _ e in
    let ((bytes, r), e2, r2) = bind-ok (read_bytes buf n p) _ r1 in
    let (u, e3, r3) = bind-ok (guard (is_utf8 bytes) (malformed (r - n))) _ r2 in
    subst (λ b. is_utf8 b ≡ true) (ap (λ r. r.0) (ok-inj r3)) (guard-ok _ _ e3)

-- The entries of a file `b` end to end from `d`, with what each does to the alignment, which is
-- `alignment` in front of them and `a` behind them.
abbrev pub Passes : List ℕ → ℕ → List KvEntry → ℕ → ℕ → Type 0
Passes b d [] alignment a = alignment ≡ a
Passes b d (kv ∷ kvs) alignment a =
    (f : ℕ → ℕ) × (kv.entry_start ≡ d)
    × (is_utf8 kv.key ≡ true)
    × (bytes_eq kv.key alignment_key ≡ false → (x : ℕ) → f x ≡ x)
    × ((e : List ℕ) → At b d e → kv.entry_end ≡ d + length e → Walks e f)
    × Passes b kv.entry_end kvs (f alignment) a

pub walk_kv-Passes :
    (b : List ℕ) (n alignment d : ℕ) {a q : ℕ}
    → length b < u64_mod
    → walk_kv b n alignment d ≡ ok (a, q)
    → (es : List KvEntry) × (read_entries b n d ≡ ok (es, q)) × Passes b d es alignment a
unfolding walk_kv read_entries
walk_kv-Passes b zero alignment d small e =
    ([], ap (λ r. ok ([], r.1)) (ok-inj e), ap (λ r. r.0) (ok-inj e))
walk_kv-Passes b (suc n) alignment d {a = a} small e =
    let ((key, p), e1, r1) = bind-ok (read_string b d) _ e in
    let ((t, q), e2, r2) = bind-ok (read_u32 b p) _ r1 in
    let (ty, e3, r3) = bind-ok (from_u32 t) _ r2 in
    let (r, e4, r4) = bind-ok (skip_kv_value b ty q) _ r3 in
    let (element, e5) = element_type-skips b ty q e4 in
    let (es, e6, passes) = walk_kv-Passes b n _ r small r4 in
    (
      _ ∷ es,
      first_entry b n d p q r _ t key ty element es e1 e2 e3 e5 e4 e6,
      (
        next_alignment key ty b q,
        refl,
        read_string-utf8 b d e1,
        (λ other x. rw other refl),
        (λ bytes at end. entry-Walks b d bytes key ty small at e1 e2 e3 e4 end),
        passes,
      ),
    )

-- The entry copied, or the number of blocks in its place.
written_entry-Walks :
    (key entry : List ℕ) (value : ℕ) (kv : KvEntry) (f : ℕ → ℕ)
    → bytes_eq key alignment_key ≡ false
    → is_utf8 kv.key ≡ true
    → (bytes_eq kv.key alignment_key ≡ false → (x : ℕ) → f x ≡ x)
    → Walks entry f
    → Walks (if bytes_eq kv.key key && is_u32 kv.ty then write_kv_u32 kv.key value else entry) f
written_entry-Walks key entry value kv f other valid keep walks =
    elim (Bool-cases (bytes_eq kv.key key && is_u32 kv.ty)) [
      | inl count ↦
          let named : kv.key ≡ key = (bytes_eq_iff kv.key key).0 (ground arith) in
          let differs : bytes_eq kv.key alignment_key ≡ false =
            ap (λ t. bytes_eq t alignment_key) named ∙ other in
          rw count (λ buf pos n al small at.
            write_kv_u32-Walks kv.key value valid differs buf pos n al small at
            ∙ ap (λ x. walk_kv buf n x (pos + length (write_kv_u32 kv.key value)))
                (sym (keep differs al)))
      | inr same ↦ rw same walks
    ]

-- The metadata of a file `b` that begins with `header`, rewritten: the walk over it comes to the
-- alignment `a` too, wherever it stands.
pub rewrite_kv-walks :
    (header more key : List ℕ) (value alignment a d : ℕ) (kvs : List KvEntry) {copied : List ℕ}
    → bytes_eq key alignment_key ≡ false
    → Passes (header ++ more) d kvs alignment a
    → rewrite_kv header key value kvs ≡ ok copied
    → (buf : List ℕ) (pos m : ℕ) → length buf < u64_mod
    → At buf pos copied
    → walk_kv buf (length kvs + m) alignment pos ≡ walk_kv buf m a (pos + length copied)
unfolding rewrite_kv
rewrite_kv-walks header more key value alignment a d [] other passes written buf pos m small at =
    subst (λ c. walk_kv buf (0 + m) alignment pos ≡ walk_kv buf m a (pos + length c))
      (ok-inj written)
      (ap (λ k. walk_kv buf k alignment pos) (omega arith)
        ∙ ap (λ x. walk_kv buf m x pos) passes
        ∙ ap (walk_kv buf m a) (omega arith))
rewrite_kv-walks header more key value alignment a d (kv ∷ kvs) {copied = copied} other
      (f, start, valid, keep, walks, rest) written buf pos m small at =
    let (entry, e1, r1) = bind-ok (slice header kv.entry_start kv.entry_end) _ written in
    let (tail, e2, r2) = bind-ok (rewrite_kv header key value kvs) _ r1 in
    let (there, end) = slice-At header more kv.entry_start kv.entry_end e1 in
    let here = subst (λ k. At (header ++ more) k entry) start there in
    let first = if bytes_eq kv.key key && is_u32 kv.ty then write_kv_u32 kv.key value else entry in
    let step =
      written_entry-Walks key entry value kv f other valid keep
        (walks entry here (end ∙ ap (λ k. k + length entry) start)) in
    let both : At buf pos (first ++ tail) = subst (At buf pos) (sym (ok-inj r2)) at in
    let front = At-left first tail both in
    let back = At-right first tail both in
    let go =
      rewrite_kv-walks header more key value (f alignment) a kv.entry_end kvs other rest e2 buf
        (pos + length first) m small back in
    subst (λ c. walk_kv buf (suc (length kvs) + m) alignment pos ≡ walk_kv buf m a (pos + length c))
      (ok-inj r2)
      (ap (λ k. walk_kv buf k alignment pos) (omega arith)
        ∙ step buf pos (length kvs + m) alignment small front
        ∙ go
        ∙ ap (walk_kv buf m a) (omega (arith, length-append first tail)))
