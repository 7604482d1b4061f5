-- ===== src/Store/Names.antt =====
-- The names of tensors and bundles in crates/model-store/src/{bundle,stitch}.rs: what is written is
-- read back, and what is renamed stays text.
use intelnav.Base.{
  ℕ, ◌+◌, ◌-◌, ◌*◌, ◌<◌, ◌≡◌, refl, sym, ap, ◌∙◌, inl, inr, Bool, true, false, ◌&&◌, none, some,
  List, [], ◌∷◌, ◌++◌, append_assoc, append-nil, arith, ltb, leb, ◌==◌, ==_iff, Bool-cases,
  Option-cases, List-cases, All, ok,
}
use intelnav.Base.Bytes.{is_utf8, is_utf8-cons}
use intelnav.Base.Decimal.{
  show_u32, parse_from, parse_u32, parse_u32-show, show_u32-IsDigit, IsDigit,
}
use intelnav.Types.{u32_mod}
use intelnav.Store.{Text}
use intelnav.Store.Bundle.{
  BundleKind, embed, block, head, IsU32Kind, kind_name, token_embd, blk_prefix, strip_prefix,
  split_dot, classify_tensor,
}
use intelnav.Store.Select.{StitchRange, rename_tensor, includes}

strip_prefix-append : (p xs : List ℕ) → strip_prefix p (p ++ xs) ≡ some xs
unfolding strip_prefix
strip_prefix-append [] xs = refl
strip_prefix-append (c ∷ p) xs =
    let same : (c == c) ≡ true = (==_iff c c).1 refl in rw same (strip_prefix-append p xs)

strip_prefix-whole :
    (p xs : List ℕ) {rest : List ℕ} → strip_prefix p xs ≡ some rest → xs ≡ p ++ rest
unfolding strip_prefix
strip_prefix-whole [] xs e = ground arith
strip_prefix-whole (c ∷ p) [] e = absurd (ground arith)
strip_prefix-whole (c ∷ p) (x ∷ xs) {rest = rest} e = elim (Bool-cases (c == x)) [
  | inl same ↦
      ap (λ y. y ∷ xs) (sym ((==_iff c x).0 same))
      ∙ ap (λ t. c ∷ t) (strip_prefix-whole p xs (ground arith))
  | inr other ↦ absurd (ground arith)
]

split_dot-whole :
    (xs : List ℕ) (c : ℕ) (cs : List ℕ)
    → (split_dot xs).1 ≡ c ∷ cs
    → xs ≡ (split_dot xs).0 ++ 46 ∷ (split_dot xs).1
unfolding split_dot
split_dot-whole [] c cs e = absurd (ground arith)
split_dot-whole (x ∷ xs) c cs e = elim (Bool-cases (x == 46)) [
  | inl dot ↦ rw dot (ap (λ y. y ∷ xs) ((==_iff x 46).0 dot))
  | inr other ↦ rw other (ap (λ t. x ∷ t) (split_dot-whole xs c cs (ground arith)))
]

abbrev pub IsAscii : ℕ → Type 0
IsAscii c = c < 128

is_utf8-append : (xs ys : List ℕ) → All IsAscii xs → is_utf8 (xs ++ ys) ≡ is_utf8 ys
is_utf8-append [] ys h = refl
is_utf8-append (x ∷ xs) ys h = is_utf8-cons x (xs ++ ys) h.0 ∙ is_utf8-append xs ys h.1

parse_from-IsAscii : (acc n : ℕ) (s : List ℕ) → parse_from acc s ≡ some n → All IsAscii s
unfolding parse_from
parse_from-IsAscii acc n [] e = tt
parse_from-IsAscii acc n (c ∷ cs) e =
    let rest : parse_from (acc * 10 + (c - 48)) cs ≡ some n = ground arith in
    (ground arith, parse_from-IsAscii (acc * 10 + (c - 48)) n cs rest)

parse_u32-IsAscii : (s : List ℕ) (n : ℕ) → parse_u32 s ≡ some n → All IsAscii s
unfolding parse_u32
parse_u32-IsAscii [] n e = tt
parse_u32-IsAscii (c ∷ []) n e = parse_from-IsAscii 0 n (c ∷ []) e
parse_u32-IsAscii (c ∷ d ∷ cs) n e = elim (Bool-cases (c == 43)) [
  | inl plus ↦
      let rest : parse_from 0 (d ∷ cs) ≡ some n = ground arith in
      (ground arith, parse_from-IsAscii 0 n (d ∷ cs) rest)
  | inr other ↦
      let rest : parse_from 0 (c ∷ d ∷ cs) ≡ some n = ground arith in
      parse_from-IsAscii 0 n (c ∷ d ∷ cs) rest
]

digits-IsAscii : (xs : List ℕ) → All IsDigit xs → All IsAscii xs
digits-IsAscii [] h = tt
digits-IsAscii (x ∷ xs) h = (omega (arith, h.0), digits-IsAscii xs h.1)

is_utf8-none : is_utf8 [] ≡ true
unfolding is_utf8
is_utf8-none = refl

numbered-utf8 : (n : ℕ) → is_utf8 (blk_prefix ++ show_u32 n) ≡ true
numbered-utf8 n =
    is_utf8-append blk_prefix (show_u32 n)
      (omega arith, (omega arith, (omega arith, (omega arith, tt))))
    ∙ ap is_utf8 (sym (append-nil (show_u32 n)))
    ∙ is_utf8-append (show_u32 n) [] (digits-IsAscii (show_u32 n) (show_u32-IsDigit n))
    ∙ is_utf8-none

-- What stands behind the number in a name.
tail-utf8 :
    (name : Text)
    → is_utf8 name ≡ true
    → (rest : List ℕ) (n c : ℕ) (cs : List ℕ) → strip_prefix blk_prefix name ≡ some rest
    → parse_u32 (split_dot rest).0 ≡ some n
    → (split_dot rest).1 ≡ c ∷ cs
    → is_utf8 (c ∷ cs) ≡ true
tail-utf8 name valid rest n c cs found number tail =
    let number_text = (split_dot rest).0 in
    let whole : name ≡ blk_prefix ++ (number_text ++ 46 ∷ c ∷ cs) =
      strip_prefix-whole blk_prefix name found
      ∙ ap (λ t. blk_prefix ++ t)
          (split_dot-whole rest c cs tail ∙ ap (λ t. number_text ++ 46 ∷ t) tail) in
    sym (
      ap is_utf8 whole
      ∙ is_utf8-append blk_prefix (number_text ++ 46 ∷ c ∷ cs)
          (omega arith, (omega arith, (omega arith, (omega arith, tt))))
      ∙ is_utf8-append number_text (46 ∷ c ∷ cs) (parse_u32-IsAscii number_text n number)
      ∙ is_utf8-cons 46 (c ∷ cs) (omega arith))
    ∙ valid

renamed-utf8 :
    (n : ℕ) (tail : List ℕ)
    → is_utf8 tail ≡ true
    → is_utf8 (blk_prefix ++ show_u32 n ++ 46 ∷ tail) ≡ true
renamed-utf8 n tail valid =
    ap is_utf8 (append_assoc blk_prefix (show_u32 n) (46 ∷ tail))
    ∙ is_utf8-append blk_prefix (show_u32 n ++ 46 ∷ tail)
        (omega arith, (omega arith, (omega arith, (omega arith, tt))))
    ∙ is_utf8-append (show_u32 n) (46 ∷ tail) (digits-IsAscii (show_u32 n) (show_u32-IsDigit n))
    ∙ is_utf8-cons 46 tail (omega arith)
    ∙ valid

-- A renamed tensor has text for a name.
pub rename_tensor-utf8 :
    (name : Text) (layer_offset : ℕ)
    → is_utf8 name ≡ true
    → is_utf8 (rename_tensor name layer_offset) ≡ true
unfolding rename_tensor
rename_tensor-utf8 name layer_offset valid = elim (Option-cases (strip_prefix blk_prefix name)) [
  | inl other ↦ rw (other, rename_tensor) valid
  | inr (rest, found) ↦ elim (Option-cases (parse_u32 (split_dot rest).0)) [
    | inl other ↦ rw (found, rename_tensor) (rw other valid)
    | inr (n, number) ↦ elim (List-cases (split_dot rest).1) [
      | inl none_left ↦
          rw (found, rename_tensor) (rw number (rw none_left (numbered-utf8 (n - layer_offset))))
      | inr (c, cs, tail) ↦
          rw (found, rename_tensor)
            (rw number (
              rw tail (
                renamed-utf8 (n - layer_offset) (c ∷ cs)
                  (tail-utf8 name valid rest n c cs found number tail))))
    ]
  ]
]

split_dot-front : (xs ys : List ℕ) → All IsDigit xs → split_dot (xs ++ 46 ∷ ys) ≡ (xs, ys)
unfolding split_dot
split_dot-front [] ys h = refl
split_dot-front (x ∷ xs) ys h =
    let other : (x == 46) ≡ false = ground (arith, h.0) in
    rw other (ap (λ r. (x ∷ r.0, r.1)) (split_dot-front xs ys h.1))

-- A bundle is taken by the range that has its layer, the first bundle by a range that takes the
-- embedding, and the last by one that takes the head.
abbrev pub takes : StitchRange → BundleKind → Bool
takes range embed = range.include_embed
takes range (block n) = leb range.start n && ltb n range.end
takes range head = range.include_head

-- The test of `stitch_subset` on a bundle's name reads the kind that the chunker wrote into it: for
-- every kind, with a layer below 2 ^ 32, it takes exactly the bundles that the range has.
pub includes-kind_name :
    (range : StitchRange) (kind : BundleKind)
    → IsU32Kind kind
    → includes range (kind_name kind) ≡ ok (takes range kind)
unfolding includes kind_name
includes-kind_name range embed small = refl
includes-kind_name range head small = refl
includes-kind_name range (block n) small =
    rw (strip_prefix-append blk_prefix (show_u32 n)) (rw (parse_u32-show n small) refl)

rename_tensor-of :
    (name rest number : List ℕ) (n layer_offset c : ℕ) (cs : List ℕ)
    → strip_prefix blk_prefix name ≡ some rest
    → split_dot rest ≡ (number, c ∷ cs)
    → parse_u32 number ≡ some n
    → rename_tensor name layer_offset ≡ blk_prefix ++ show_u32 (n - layer_offset) ++ 46 ∷ c ∷ cs
unfolding rename_tensor
rename_tensor-of name rest number n layer_offset c cs e1 e2 e3 =
    let front : (split_dot rest).0 ≡ number = ap (λ r. r.0) e2 in
    let back : (split_dot rest).1 ≡ c ∷ cs = ap (λ r. r.1) e2 in
    rw (e1, rename_tensor) (rw (front ∙ refl) (rw e3 (rw back refl)))

classify_tensor-of :
    (name rest number tail : List ℕ) (n : ℕ)
    → strip_prefix token_embd name ≡ none
    → strip_prefix blk_prefix name ≡ some rest
    → split_dot rest ≡ (number, tail)
    → parse_u32 number ≡ some n
    → classify_tensor name ≡ block n
unfolding classify_tensor
classify_tensor-of name rest number tail n e1 e2 e3 e4 =
    rw (e1, classify_tensor) (rw e2 (rw e3 (rw e4 refl)))

block_is_not_embd : (xs : List ℕ) → strip_prefix token_embd (blk_prefix ++ xs) ≡ none
unfolding strip_prefix
block_is_not_embd xs = refl

block_name-classified :
    (n c : ℕ) (cs : List ℕ)
    → n < u32_mod
    → classify_tensor (blk_prefix ++ (show_u32 n ++ 46 ∷ c ∷ cs)) ≡ block n
block_name-classified n c cs small =
    let rest = show_u32 n ++ 46 ∷ c ∷ cs in
    classify_tensor-of (blk_prefix ++ rest) rest (show_u32 n) (c ∷ cs) n (block_is_not_embd rest)
      (strip_prefix-append blk_prefix rest)
      (split_dot-front (show_u32 n) (c ∷ cs) (show_u32-IsDigit n)) (parse_u32-show n small)

-- A tensor of block `n` under a name of the usual form is renamed to the same tensor of block
-- `n - layer_offset` (0 where the offset is larger), and the chunker sorts it to its block before and
-- after.
pub rename_tensor-block :
    (n layer_offset c : ℕ) (cs : List ℕ)
    → n < u32_mod
    → let name = λ (k : ℕ). blk_prefix ++ (show_u32 k ++ 46 ∷ c ∷ cs) in
      (rename_tensor (name n) layer_offset ≡ name (n - layer_offset))
      × (classify_tensor (name n) ≡ block n)
      × (classify_tensor (rename_tensor (name n) layer_offset) ≡ block (n - layer_offset))
rename_tensor-block n layer_offset c cs small =
    let rest = show_u32 n ++ 46 ∷ c ∷ cs in
    let renamed =
      rename_tensor-of (blk_prefix ++ rest) rest (show_u32 n) n layer_offset c cs
        (strip_prefix-append blk_prefix rest)
        (split_dot-front (show_u32 n) (c ∷ cs) (show_u32-IsDigit n)) (parse_u32-show n small)
      ∙ append_assoc blk_prefix (show_u32 (n - layer_offset)) (46 ∷ c ∷ cs) in
    (
      renamed,
      block_name-classified n c cs small,
      ap classify_tensor renamed ∙ block_name-classified (n - layer_offset) c cs (omega arith),
    )
