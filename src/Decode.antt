-- ===== src/Decode.antt =====
-- The forward passes of crates/runtime/src/chain.rs and its plain decode loop `run_turn`, with the
-- sampler at temperature zero. A model comes from libllama: it is a function from the tokens before a position to
-- the logits there. A KV cache is the list of tokens that it covers; a pass whose position or context
-- is not the cache's would compute on the wrong keys, and is an error here. Detokenising and the
-- callback are left out.
pub mod Greedy
use intelnav.Base.{
  ℕ, zero, suc, ◌+◌, ◌-◌, ◌*◌, ◌/◌, ◌%◌, ◌^◌, ◌≤◌, ◌<◌, min, max, String, ◌≡◌, refl, sym, ap, ◌∙◌,
  ◌≢◌, ◌↔◌, ◌⊎◌, inl, inr, Bool, true, false, not, ◌&&◌, ◌||◌, Option, none, some, List, [], ◌∷◌,
  ◌++◌, map, append_assoc, append-nil, arith, ltb, leb, ◌==◌, if◌then◌else◌, ltb→lt, lt→ltb, leb→le,
  le→leb, ==_iff, tests, Bool-cases, Option-cases, List-cases, length, get_elem?, set, take, drop,
  replicate, All, length-append, take-append-drop, length-take, length-drop, length-replicate,
  take-append, drop-append, take-all, length-set, length-map, Result, ok, err, ◌>>=◌, ◌>>◌, guard,
  or_fail, Result-cases,
}
use intelnav.Sample.{Scores, Logits, SamplerCfg, scores_of, sample}

pub record Models : Type 1 where
  pub scores : Scores
  pub target : List ℕ → Logits scores
  pub draft : List ℕ → Logits scores
  pub is_eos : ℕ → Bool

pub data DecodeError : Type 0 where
  bad_k not_greedy repeat_penalised empty_prompt empty_logits misplaced out_of_range out_of_fuel :
      DecodeError

-- The caches of the driver's front slice and of the peers.
pub record Target : Type 0 where
  pub front : List ℕ
  pub peers : List ℕ

-- Activations of `tokens` behind `context`, after some of the layers.
pub record Hidden : Type 0 where
  pub context : List ℕ
  pub tokens : List ℕ

abbrev pub tokens_eq : List ℕ → List ℕ → Bool
tokens_eq [] [] = true
tokens_eq (x ∷ xs) (y ∷ ys) = x == y && tokens_eq xs ys
tokens_eq _ _ = false

pub tokens_eq_refl : (xs : List ℕ) → tokens_eq xs xs ≡ true
tokens_eq_refl [] = refl
tokens_eq_refl (x ∷ xs) = ground (arith, tokens_eq_refl xs)

-- `truncate_kv_to(keep)`.
abbrev pub truncate_kv_to : ℕ → List ℕ → List ℕ
truncate_kv_to = take

unfoldable pub front_forward : Target → List ℕ → ℕ → Result DecodeError (Hidden × Target)
front_forward t tokens index_pos =
    if index_pos == length t.front
    then ok (record { context = t.front; tokens = tokens }, record t { front = t.front ++ tokens })
    else err misplaced

abbrev pub kept : Option ℕ → List ℕ → List ℕ
kept none cache = cache
kept (some n) cache = truncate_kv_to n cache

-- Every peer truncates its cache to `keep`, if that is given, and runs its layers.
unfoldable pub step_with_truncate :
    Target → Hidden → Option ℕ → Result DecodeError (Hidden × Target)
step_with_truncate t hidden keep =
    let cache = kept keep t.peers in
    if tokens_eq cache hidden.context
    then ok (hidden, record t { peers = cache ++ hidden.tokens })
    else err misplaced

unfoldable pub chain_step : Target → Hidden → Result DecodeError (Hidden × Target)
unfolding step_with_truncate
chain_step t hidden = step_with_truncate t hidden none

module _ (m : Models) where
  open m use {scores, target, is_eos}

  -- The logits of the last position.
  unfoldable pub head_forward : Hidden → Logits scores
  head_forward h = target (h.context ++ h.tokens)

  unfoldable pub position_logits : List ℕ → List ℕ → List (Logits scores)
  position_logits context [] = []
  position_logits context (t ∷ ts) =
      target (context ++ t ∷ []) ∷ position_logits (context ++ t ∷ []) ts

  -- The logits of every position.
  unfoldable pub head_all_forward : Hidden → List (Logits scores)
  unfolding position_logits
  head_all_forward h = position_logits h.context h.tokens

  -- Front slice, peers and head on `tokens`.
  unfoldable pub forward : Target → List ℕ → ℕ → Result DecodeError (Logits scores × Target)
  unfolding front_forward chain_step head_forward
  forward t tokens index_pos = do
    (front, t1) ← front_forward t tokens index_pos
    (tail, t2) ← chain_step t1 front
    ok (head_forward tail, t2)

  module _ (cfg : SamplerCfg scores) where
    -- The loop of `run_turn`; `next` is sampled and not yet pushed.
    unfoldable pub decode_loop :
        ℕ → ℕ → Target → List ℕ → ℕ → ℕ → ℕ → Result DecodeError (ℕ × List ℕ)
    unfolding forward sample
    decode_loop zero max_new_tokens t tokens index_pos next n_gen = err out_of_fuel
    decode_loop (suc fuel) max_new_tokens t tokens index_pos next n_gen =
        let pushed = tokens ++ next ∷ [] in
        let go_on : Result DecodeError (ℕ × List ℕ) =
          forward t (next ∷ []) index_pos >>= λ (logits, t').
          or_fail (sample scores (scores_of scores logits) pushed cfg) empty_logits >>= λ sampled.
          decode_loop fuel max_new_tokens t' pushed (index_pos + 1) sampled (n_gen + 1) in
        if is_eos next || leb max_new_tokens n_gen then ok (n_gen, tokens) else go_on

    -- The number of tokens generated, and all tokens, the prompt's first. `peers` is what the peers'
    -- caches hold: nothing, behind a fresh session.
    unfoldable pub run_turn : List ℕ → List ℕ → ℕ → Result DecodeError (ℕ × List ℕ)
    unfolding forward decode_loop sample
    run_turn peers [] max_new_tokens = err empty_prompt
    run_turn peers (p ∷ ps) max_new_tokens = do
      (logits, t) ← forward (record { front = []; peers = peers }) (p ∷ ps) 0
      next ← or_fail (sample scores (scores_of scores logits) (p ∷ ps) cfg) empty_logits
      decode_loop (max_new_tokens + 1) max_new_tokens t (p ∷ ps) (length (p ∷ ps)) next 0
