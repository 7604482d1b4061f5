-- ===== src/Sample.antt =====
-- crates/runtime/src/sample.rs: the sampler where the temperature is zero, and `argmax_last` of
-- crates/ggml/src/hidden.rs. Floating point is a parameter. Above that temperature the sampler draws at
-- random.
use intelnav.Base.{
  ℕ, ◌+◌, ◌-◌, ◌%◌, ◌≤◌, ◌<◌, ◌≡◌, sym, inl, inr, Bool, false, ◌&&◌, Option, none, some, List, [],
  ◌∷◌, arith, ltb, if◌then◌else◌, Bool-cases, length, get_elem?, set, drop,
}
use native.Mathlib.Nat.{mod-eq_of_lt}

pub record Scores : Type 1 where
  pub F : Type 0
  pub neg_infinity : F
  pub zero_f : F
  pub one_f : F
  pub gt : F → F → Bool
  pub ge : F → F → Bool
  pub div : F → F → F
  pub mul : F → F → F

module _ (s : Scores) where
  open s use {F, neg_infinity, zero_f, one_f, gt, ge, div, mul}

  -- The logits of one position: a score for each token of the vocabulary, which is not empty.
  pub record Logits : Type 0 where
    pub first : F
    pub more : List F

  abbrev pub scores_of : Logits → List F
  scores_of l = l.first ∷ l.more

  pub record SamplerCfg : Type 0 where
    pub repeat_penalty : F
    pub repeat_ctx : ℕ

  -- From token `i` on, with the best token before and its score.
  unfoldable pub argmax_from : ℕ → ℕ → F → List F → ℕ
  argmax_from i bi bv [] = bi
  argmax_from i bi bv (x ∷ xs) =
      let (b, v) = if gt x bv then (i, x) else (bi, bv) in argmax_from (i + 1) b v xs

  unfoldable pub argmax : List F → ℕ
  unfolding argmax_from
  argmax logits = argmax_from 0 0 neg_infinity logits

  -- The best token of the last row, by its place in that row.
  unfoldable pub argmax_last : Logits → ℕ
  unfolding argmax
  argmax_last l = argmax (scores_of l) % length (scores_of l)

  unfoldable pub penalise_token : F → List F → ℕ → List F
  penalise_token penalty logits tok = elim (get_elem? logits tok) [
    | none ↦ logits
    | some v ↦ set logits tok (if ge v zero_f then div v penalty else mul v penalty)
  ]

  -- One by one; a token that comes twice is penalised twice.
  unfoldable pub penalise_tokens : F → List ℕ → List F → List F
  unfolding penalise_token
  penalise_tokens penalty [] logits = logits
  penalise_tokens penalty (tok ∷ toks) logits =
      penalise_tokens penalty toks (penalise_token penalty logits tok)

  unfoldable pub apply_repeat_penalty : List F → List ℕ → ℕ → F → List F
  unfolding penalise_tokens
  apply_repeat_penalty logits ctx repeat_ctx penalty =
      penalise_tokens penalty (drop (length ctx - repeat_ctx) ctx) logits

  -- The scores that the sampler looks at.
  unfoldable pub view : List F → List ℕ → SamplerCfg → List F
  unfolding apply_repeat_penalty
  view logits ctx cfg =
      if gt cfg.repeat_penalty one_f && ltb 0 (length ctx)
      then apply_repeat_penalty logits ctx cfg.repeat_ctx cfg.repeat_penalty
      else logits

  -- Empty logits are an error.
  unfoldable pub sample : List F → List ℕ → SamplerCfg → Option ℕ
  unfolding view argmax
  sample [] ctx cfg = none
  sample (x ∷ xs) ctx cfg = some (argmax (view (x ∷ xs) ctx cfg))

  argmax_from-lt :
      (i bi n : ℕ) (bv : F) (xs : List F) → bi < n → i + length xs ≤ n → argmax_from i bi bv xs < n
  unfolding argmax_from
  argmax_from-lt i bi n bv [] h room = h
  argmax_from-lt i bi n bv (x ∷ xs) h room = elim (Bool-cases (gt x bv)) [
    | inl up ↦ rw (up, argmax_from) (argmax_from-lt (i + 1) i n x xs (omega arith) (omega arith))
    | inr down ↦ rw (down, argmax_from) (argmax_from-lt (i + 1) bi n bv xs h (omega arith))
  ]

  -- Where no penalty is set the sampler's choice is the last position's best token.
  pub argmax-unpenalised :
      (l : Logits) (ctx : List ℕ) (cfg : SamplerCfg)
      → gt cfg.repeat_penalty one_f ≡ false
      → argmax (view (scores_of l) ctx cfg) ≡ argmax_last l
  unfolding argmax_last argmax view
  argmax-unpenalised l ctx cfg off = rw off (
      sym (
        mod-eq_of_lt (
          argmax_from-lt 0 0 (length (scores_of l)) neg_infinity (scores_of l) (omega arith)
            (omega arith))))
