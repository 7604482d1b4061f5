-- ===== src/Store/Drift.antt =====
-- The check of positions in crates/model-store/src/stitch.rs never fails: the offsets of the index are
-- where the file is when the data is written.
use intelnav.Base.{
  ℕ, ◌+◌, ◌-◌, ◌*◌, ◌%◌, ◌≤◌, ◌<◌, max, ◌≡◌, refl, sym, ap, ◌∙◌, inl, inr, true, List, [], ◌∷◌,
  ◌++◌, arith, ◌==◌, ==_iff, Bool-cases, length, replicate, length-append, length-replicate, ok,
}
use mathlib.Core.Path.{subst}
use native.Mathlib.Nat.{mul-add-mod_self_left}
use intelnav.Types.{u64_mod}
use intelnav.Gguf.{align_up}
use intelnav.Gguf.Offsets.{align_up-least}
use intelnav.Store.{Manifest}
use intelnav.Store.Select.{KeptTensor}
use intelnav.Store.Layout.{build_index, pad_to, new_header, write_tensors, write_file}

-- The bytes of the tensors with the most padding that may stand behind them.
abbrev pub room : ℕ → List KeptTensor → ℕ
room alignment [] = 0
room alignment (t ∷ ts) = length t.bytes + alignment + room alignment ts

-- Behind a multiple of the alignment, aligning does the same.
align_up-shift :
    (alignment k x : ℕ)
    → 0 < alignment
    → alignment * k + x + alignment < u64_mod
    → align_up (alignment * k + x) alignment ≡ alignment * k + align_up x alignment
unfolding align_up
align_up-shift alignment k x positive small =
    let same = mul-add-mod_self_left alignment k x in
    elim (Bool-cases (x % alignment == 0)) [
      | inl exact ↦ ground (arith, same)
      | inr rest ↦ ground (arith, same)
    ]

length-pad_to : (file : List ℕ) (n : ℕ) → length file ≤ n → length (pad_to file n) ≡ n
length-pad_to file n below = omega (
  arith,
  length-append file (replicate (n - length file) 0),
  length-replicate {A = ℕ} (n - length file) 0,
)

write_tensors-step :
    (alignment data_start : ℕ) (t : KeptTensor) (ts : List KeptTensor) (off : ℕ)
    (offs start : List ℕ)
    → (data_start + off) % u64_mod ≡ length start
    → write_tensors alignment data_start (t ∷ ts) (off ∷ offs) start
      ≡ write_tensors alignment data_start ts offs
          (pad_to (start ++ t.bytes) (align_up (length (start ++ t.bytes)) alignment))
unfolding write_tensors
write_tensors-step alignment data_start t ts off offs start here =
    let there : ((data_start + off) % u64_mod == length start) ≡ true = (==_iff _ _).1 here in
    rw there refl

written_none :
    (alignment data_start : ℕ) (start : List ℕ)
    → write_tensors alignment data_start [] [] start ≡ ok start
unfolding write_tensors
written_none alignment data_start start = refl

write_tensors-writes :
    (alignment data_start k cursor : ℕ) (ts : List KeptTensor) (start : List ℕ)
    → 0 < alignment
    → data_start ≡ alignment * k
    → length start ≡ data_start + cursor
    → data_start + cursor + room alignment ts < u64_mod
    → (file : List ℕ) × (write_tensors alignment data_start ts
          (build_index alignment ts cursor).1
          start
        ≡ ok file)
unfolding build_index
write_tensors-writes alignment data_start k cursor [] start positive multiple here small =
    (start, written_none alignment data_start start)
write_tensors-writes alignment data_start k cursor (t ∷ ts) start positive multiple here small =
    let size = length-append start t.bytes in
    let next : (cursor + length t.bytes) % u64_mod ≡ cursor + length t.bytes = omega arith in
    let shift = align_up-shift alignment k (cursor + length t.bytes) positive (omega arith) in
    let (multiple', below, above) =
      align_up-least (cursor + length t.bytes) alignment positive (omega arith) in
    let whole : align_up (length (start ++ t.bytes)) alignment
        ≡ data_start + align_up (cursor + length t.bytes) alignment =
      ap (λ n. align_up n alignment) (omega (arith, size)) ∙ shift ∙ omega arith in
    let padded =
      length-pad_to (start ++ t.bytes) (align_up (length (start ++ t.bytes)) alignment)
        (omega (arith, size, whole)) in
    let (file, rest) =
      write_tensors-writes alignment data_start k
        (align_up ((cursor + length t.bytes) % u64_mod) alignment) ts
        (pad_to (start ++ t.bytes) (align_up (length (start ++ t.bytes)) alignment)) positive
        multiple (padded ∙ whole ∙ ap (λ n. data_start + align_up n alignment) (sym next))
        (subst (λ n. data_start + align_up n alignment + room alignment ts < u64_mod) (sym next)
          (omega (arith, below, above))) in
    (file, write_tensors-step alignment data_start t ts cursor _ start (omega arith) ∙ rest)

-- Where the header, the data and the padding have fewer than 2 ^ 64 bytes, with one alignment to spare,
-- the file is written: no tensor is found to have drifted from its offset.
pub write_file-never-drifts :
    (manifest : Manifest) (kept : List KeptTensor) (n_kv : ℕ) (kv : List ℕ)
    → let alignment = max manifest.gguf.alignment 1 in
      let header =
        new_header manifest.gguf.gguf_version
          (length kept)
          n_kv
          kv
          (build_index alignment kept 0).0 in
      length header + alignment + alignment + room alignment kept < u64_mod
      → (file : List ℕ) × (write_file manifest kept n_kv kv ≡ ok file)
unfolding write_file
write_file-never-drifts manifest kept n_kv kv small =
    let alignment = max manifest.gguf.alignment 1 in
    let header =
      new_header manifest.gguf.gguf_version (length kept) n_kv kv
        (build_index alignment kept 0).0 in
    let positive : 0 < alignment = omega arith in
    let ((k, multiple), below, above) =
      align_up-least (length header) alignment positive (omega arith) in
    let padded = length-pad_to header (align_up (length header) alignment) below in
    write_tensors-writes alignment (align_up (length header) alignment) k 0 kept
      (pad_to header (align_up (length header) alignment)) positive multiple (omega (arith, padded))
      (omega (arith, above))
