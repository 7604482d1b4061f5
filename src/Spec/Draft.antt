-- ===== src/Spec/Draft.antt =====
-- The draft model's side of crates/runtime/src/spec.rs: its cache stays one token short of its
-- proposal.
use intelnav.Base.{
  ℕ, zero, suc, ◌+◌, ◌-◌, ◌≤◌, ◌≡◌, refl, ap, ◌∙◌, List, [], ◌∷◌, ◌++◌, append_assoc, append-nil,
  arith, length, take, length-append, length-take, take-all, take-append_add, take-take, last-split,
  ok,
}
use native.Mathlib.Decide.{dec_le}
use intelnav.Sample.{Logits, argmax_last}
use intelnav.Decode.{Models}
use intelnav.Spec.{draft_forward, propose_k_drafts, advance_and_propose}

module _ (m : Models) where
  open m use {scores, draft}

  draft_forward-ok :
      (cache tokens : List ℕ) (pos : ℕ)
      → pos ≡ length cache
      → draft_forward m cache tokens pos ≡ ok (draft (cache ++ tokens), cache ++ tokens)
  unfolding draft_forward
  draft_forward-ok cache tokens pos h = ground arith

  -- The proposal after a prefix leaves all but its last token in the cache.
  pub propose-ok :
      (k : ℕ) (cache : List ℕ) (cur : (Logits scores)) (pos : ℕ)
      → pos ≡ length cache
      → (ds : List ℕ) × (propose_k_drafts m cache cur (suc k) pos ≡ ok (ds, cache ++ take k ds))
        × (length ds ≡ suc k)
  unfolding propose_k_drafts
  propose-ok zero cache cur pos h =
      (argmax_last scores cur ∷ [], ground (arith, append-nil cache), refl)
  propose-ok (suc k) cache cur pos h =
      let d : ℕ = argmax_last scores cur in
      let (ds, e, n) =
        propose-ok k (cache ++ d ∷ []) (draft (cache ++ d ∷ [])) (pos + 1)
          (omega (arith, length-append cache (d ∷ []))) in
      (
        d ∷ ds,
        ground (
          arith,
          draft_forward-ok cache (d ∷ []) pos h,
          e,
          append_assoc cache (d ∷ []) (take k ds),
        ),
        ap suc n,
      )

  regroup : (xs ys : List ℕ) (d l : ℕ) → (xs ++ ys) ++ d ∷ l ∷ [] ≡ (xs ++ (ys ++ d ∷ [])) ++ l ∷ []
  regroup xs ys d l = simp append_assoc

  advance-all :
      (k last pos : ℕ) (ctx drafts : List ℕ)
      → pos ≡ length ctx
      → length drafts ≡ suc k
      → (ds : List ℕ) × (advance_and_propose m
            (ctx ++ take k drafts)
            (suc k)
            (suc k)
            drafts
            last
            pos
          ≡ ok (ds, (ctx ++ drafts ++ last ∷ []) ++ take k ds))
        × (length ds ≡ suc k)
  unfolding advance_and_propose
  advance-all k last pos ctx drafts at_end n =
      let (d, found, split) = last-split k drafts n in
      let now : List ℕ = ctx ++ drafts ++ last ∷ [] in
      let regrouped : (ctx ++ take k drafts) ++ d ∷ last ∷ [] ≡ now =
        regroup ctx (take k drafts) d last ∙ ap (λ t. ctx ++ t ++ last ∷ []) split in
      let (ds, e, more) = propose-ok k now (draft now) (pos + suc k + 1) (
        omega
          (arith, at_end, length-append (ctx ++ drafts) (last ∷ []), length-append ctx drafts)) in
      (
        ds,
        ground (
          arith,
          found,
          e,
          regrouped,
          draft_forward-ok (ctx ++ take k drafts) (d ∷ last ∷ []) (pos + suc k - 1),
          length-append ctx (take k drafts),
          length-take k drafts,
        ),
        more,
      )

  advance-part :
      (k j last pos : ℕ) (ctx drafts : List ℕ)
      → pos ≡ length ctx
      → length drafts ≡ suc k
      → j ≤ k
      → (ds : List ℕ) × (advance_and_propose m (ctx ++ take k drafts) j (suc k) drafts last pos
          ≡ ok (ds, (ctx ++ take j drafts ++ last ∷ []) ++ take k ds))
        × (length ds ≡ suc k)
  unfolding advance_and_propose
  advance-part k j last pos ctx drafts at_end n h =
      let now : List ℕ = ctx ++ take j drafts ++ last ∷ [] in
      let (ds, e, more) = propose-ok k now (draft now) (pos + j + 1) (
        omega (
          arith,
          at_end,
          length-append (ctx ++ take j drafts) (last ∷ []),
          length-append ctx (take j drafts),
          length-take j drafts,
        )) in
      (
        ds,
        ground (
          arith,
          e,
          ap (λ i. take (i + j) (ctx ++ take k drafts)) at_end,
          take-append_add ctx (take k drafts) j,
          take-take j k drafts h,
          draft_forward-ok (ctx ++ take j drafts) (last ∷ []) (pos + j),
          length-append ctx (take j drafts),
          length-take j drafts,
        ),
        more,
      )

  -- From the cache that a proposal leaves, the draft catches up with the committed tokens and
  -- proposes as many drafts again.
  pub advance-ok :
      (k j last pos : ℕ) (ctx drafts : List ℕ)
      → pos ≡ length ctx
      → length drafts ≡ suc k
      → j ≤ suc k
      → (ds : List ℕ) × (advance_and_propose m (ctx ++ take k drafts) j (suc k) drafts last pos
          ≡ ok (ds, (ctx ++ take j drafts ++ last ∷ []) ++ take k ds))
        × (length ds ≡ suc k)
  advance-ok k j last pos ctx drafts at_end n h = elim (dec_le j k) [
    | yes part ↦ advance-part k j last pos ctx drafts at_end n part
    | no all ↦
        let (ds, e, more) = advance-all k last pos ctx drafts at_end n in
        (ds, ground (arith, e, take-all j drafts), more)
  ]
