-- ===== src/Gguf/Reads.antt =====
-- Reads of crates/model-store/src/gguf.rs at a place where what they read has been written.
use intelnav.Base.{
  ℕ, zero, suc, ◌+◌, ◌^◌, ◌≤◌, ◌<◌, ◌≡◌, refl, sym, ap, ◌∙◌, true, List, [], ◌∷◌, ◌++◌,
  append_assoc, arith, length, take, drop, length-append, take-all, ok,
}
use mathlib.Core.Path.{subst}
use intelnav.Base.Bytes.{to_le, length-to_le, of_le-to_le, is_utf8}
use intelnav.Types.{u64_mod}
use intelnav.Gguf.{read_bytes, read_u32, read_u64, read_string}
use intelnav.Gguf.Shift.{Same, read_bytes-there}

-- The bytes `xs` stand in `buf` from `pos` on.
abbrev pub At : List ℕ → ℕ → List ℕ → Type 0
At buf pos xs = (pre : List ℕ) × (post : List ℕ) × (buf ≡ pre ++ (xs ++ post)) × (pos ≡ length pre)

pub At-left : {buf : List ℕ} {pos : ℕ} (xs ys : List ℕ) → At buf pos (xs ++ ys) → At buf pos xs
At-left xs ys (pre, post, e, at) =
    (pre, ys ++ post, e ∙ ap (λ t. pre ++ t) (append_assoc xs ys post), at)

pub At-right :
    {buf : List ℕ} {pos : ℕ} (xs ys : List ℕ) → At buf pos (xs ++ ys) → At buf (pos + length xs) ys
At-right xs ys (pre, post, e, at) = (
  pre ++ xs,
  post,
  e ∙ ap (λ t. pre ++ t) (append_assoc xs ys post) ∙ sym (append_assoc pre xs (ys ++ post)),
  omega (arith, length-append pre xs),
)

pub At-bound : (buf : List ℕ) (pos : ℕ) (xs : List ℕ) → At buf pos xs → pos + length xs ≤ length buf
At-bound buf pos xs (pre, post, e, at) =
    omega (arith, ap length e, length-append pre (xs ++ post), length-append xs post)

drop-append_add : (pre zs : List ℕ) (i : ℕ) → drop (length pre + i) (pre ++ zs) ≡ drop i zs
drop-append_add [] zs i = ap (λ k. drop k zs) (omega arith)
drop-append_add (p ∷ pre) zs i =
    let shape : suc (length pre) + i ≡ suc (length pre + i) = omega arith in
    ap (λ k. drop k (p ∷ pre ++ zs)) shape ∙ drop-append_add pre zs i

take-append_short : (n : ℕ) (xs post : List ℕ) → n ≤ length xs → take n (xs ++ post) ≡ take n xs
take-append_short zero xs post h = refl
take-append_short (suc n) [] post h = absurd (omega arith)
take-append_short (suc n) (x ∷ xs) post h =
    ap (λ t. x ∷ t) (take-append_short n xs post (omega arith))

part-append :
    (i n : ℕ) (xs post : List ℕ)
    → i + n ≤ length xs
    → take n (drop i (xs ++ post)) ≡ take n (drop i xs)
part-append zero n xs post h = take-append_short n xs post (omega arith)
part-append (suc i) zero xs post h = refl
part-append (suc i) (suc n) [] post h = absurd (omega arith)
part-append (suc i) (suc n) (x ∷ xs) post h = part-append i (suc n) xs post (omega arith)

At-part :
    (buf : List ℕ) (pos : ℕ) (xs : List ℕ) (i n : ℕ)
    → At buf pos xs
    → i + n ≤ length xs
    → take n (drop (pos + i) buf) ≡ take n (drop i xs)
At-part buf pos xs i n (pre, post, e, at) h =
    ap (λ b. take n (drop (pos + i) b)) e
    ∙ ap (λ k. take n (drop (k + i) (pre ++ (xs ++ post)))) at
    ∙ ap (take n) (drop-append_add pre (xs ++ post) i)
    ∙ part-append i n xs post h

-- Where the same bytes stand in two files, they have the same parts.
pub At-Same :
    (b b' : List ℕ) (d d' : ℕ) (xs : List ℕ) → At b d xs → At b' d' xs → Same b b' d d' (length xs)
At-Same b b' d d' xs at at' i n h = At-part b d xs i n at h ∙ sym (At-part b' d' xs i n at' h)

pub At-whole :
    (buf : List ℕ) (pos : ℕ) (xs : List ℕ) → At buf pos xs → take (length xs) (drop pos buf) ≡ xs
At-whole buf pos xs at =
    ap (λ k. take (length xs) (drop k buf)) (omega arith)
    ∙ At-part buf pos xs 0 (length xs) at (omega arith)
    ∙ take-all (length xs) xs (omega arith)

pub read_bytes-At :
    (buf : List ℕ) (pos : ℕ) (xs : List ℕ)
    → length buf < u64_mod
    → At buf pos xs
    → read_bytes buf (length xs) pos ≡ ok (xs, pos + length xs)
read_bytes-At buf pos xs small at =
    let bound = At-bound buf pos xs at in
    read_bytes-there buf (length xs) pos (length xs) (omega arith) bound small
    ∙ ap (λ t. ok (t, pos + length xs)) (At-whole buf pos xs at)

pub read_u32-At :
    (buf : List ℕ) (pos n : ℕ)
    → length buf < u64_mod
    → n < 2 ^ 32
    → At buf pos (to_le 4 n)
    → read_u32 buf pos ≡ ok (n, pos + length (to_le 4 n))
unfolding read_u32
read_u32-At buf pos n small bound at =
    let e = read_bytes-At buf pos (to_le 4 n) small at in
    rw
      (subst (λ k. read_bytes buf k pos ≡ ok (to_le 4 n, pos + length (to_le 4 n)))
        (length-to_le 4 n) e)
      (ap (λ v. ok (v, pos + length (to_le 4 n))) (of_le-to_le 4 n bound))

pub read_u64-At :
    (buf : List ℕ) (pos n : ℕ)
    → length buf < u64_mod
    → n < u64_mod
    → At buf pos (to_le 8 n)
    → read_u64 buf pos ≡ ok (n, pos + length (to_le 8 n))
unfolding read_u64
read_u64-At buf pos n small bound at =
    let e = read_bytes-At buf pos (to_le 8 n) small at in
    rw
      (subst (λ k. read_bytes buf k pos ≡ ok (to_le 8 n, pos + length (to_le 8 n)))
        (length-to_le 8 n) e)
      (ap (λ v. ok (v, pos + length (to_le 8 n))) (of_le-to_le 8 n bound))

pub read_string-At :
    (buf : List ℕ) (pos : ℕ) (s : List ℕ)
    → length buf < u64_mod
    → is_utf8 s ≡ true
    → At buf pos (to_le 8 (length s) ++ s)
    → read_string buf pos ≡ ok (s, pos + length (to_le 8 (length s) ++ s))
unfolding read_string
read_string-At buf pos s small valid at =
    let front = At-left (to_le 8 (length s)) s at in
    let back = At-right (to_le 8 (length s)) s at in
    let bound = At-bound buf _ s back in
    let e1 = read_u64-At buf pos (length s) small (omega arith) front in
    let e2 = read_bytes-At buf (pos + length (to_le 8 (length s))) s small back in
    let end = length-append (to_le 8 (length s)) s in
    rw e1 (rw e2 (rw valid (ap (λ k. ok (s, k)) (omega arith))))

pub At-next :
    {buf : List ℕ} {pos : ℕ} (xs ys : List ℕ) (p : ℕ)
    → At buf pos (xs ++ ys)
    → p ≡ pos + length xs
    → At buf p ys
At-next {buf = buf} xs ys p at e = subst (λ k. At buf k ys) (sym e) (At-right xs ys at)
