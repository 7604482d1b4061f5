-- ===== src/Spec.antt =====
-- crates/runtime/src/spec.rs: greedy draft-and-verify over the chain. The draft's advance runs beside
-- the commit step there; the two touch disjoint state, so they are one after the other here. The
-- float tests at entry are two flags of the configuration.
mod Draft
mod Match
pub mod Emit
mod Rounds
pub mod Equivalence
use intelnav.Base.{
  ℕ, zero, suc, ◌+◌, ◌-◌, ◌*◌, ◌/◌, ◌%◌, ◌^◌, ◌≤◌, ◌<◌, min, max, String, ◌≡◌, refl, sym, ap, ◌∙◌,
  ◌≢◌, ◌↔◌, ◌⊎◌, inl, inr, Bool, true, false, not, ◌&&◌, ◌||◌, Option, none, some, List, [], ◌∷◌,
  ◌++◌, map, append_assoc, append-nil, arith, ltb, leb, ◌==◌, if◌then◌else◌, ltb→lt, lt→ltb, leb→le,
  le→leb, ==_iff, tests, Bool-cases, Option-cases, List-cases, length, get_elem?, set, take, drop,
  replicate, All, length-append, take-append-drop, length-take, length-drop, length-replicate,
  take-append, drop-append, take-all, length-set, length-map, Result, ok, err, ◌>>=◌, ◌>>◌, guard,
  or_fail, Result-cases,
}
use intelnav.Sample.{Logits, argmax_last}
use intelnav.Decode.{
  Models, DecodeError, bad_k, not_greedy, repeat_penalised, empty_prompt, misplaced, out_of_range,
  out_of_fuel, Target, Hidden, truncate_kv_to, front_forward, step_with_truncate, chain_step,
  head_forward, head_all_forward, forward,
}

-- `hot`: the temperature is not zero. `penalty`: the repeat penalty is above one.
pub record SpecCfg : Type 0 where
  pub k : ℕ
  pub hot : Bool
  pub penalty : Bool
  pub max_new_tokens : ℕ

-- The target's KV truncated in the front slice.
unfoldable pub truncate_front_kv : Target → ℕ → Target
truncate_front_kv t keep = record t { front = truncate_kv_to keep t.front }

-- `verify_logits.select_position(i)`.
abbrev pub select_position {ℓ} : {A : Type ℓ} → List A → ℕ → Result DecodeError A
select_position logits i = or_fail (get_elem? logits i) out_of_range

-- `pred[i]` of the match: the pending logits, then those of the verify pass.
unfoldable pub pred_at {ℓ} : {A : Type ℓ} → A → List A → ℕ → Result DecodeError A
pred_at pending verify zero = ok pending
pred_at pending verify (suc i) = select_position verify i

-- The emit loop over the round's tokens: all tokens, their number, and whether the turn stops.
unfoldable pub emit : (ℕ → Bool) → ℕ → List ℕ → ℕ → List ℕ → List ℕ × ℕ × Bool
emit is_eos max_new tokens n_gen [] = (tokens, n_gen, false)
emit is_eos max_new tokens n_gen (t ∷ ts) =
    let go_on = emit is_eos max_new (tokens ++ t ∷ []) (n_gen + 1) ts in
    if leb max_new n_gen
    then (tokens, n_gen, true)
    else if is_eos t
    then (tokens ++ t ∷ [], n_gen + 1, true)
    else go_on

module _ (m : Models) where
  open m use {scores, draft, is_eos}

  -- The draft's pass: the last position's logits, and the longer cache.
  unfoldable pub draft_forward : List ℕ → List ℕ → ℕ → Result DecodeError (Logits scores × List ℕ)
  draft_forward cache tokens index_pos =
      if index_pos == length cache
      then ok (draft (cache ++ tokens), cache ++ tokens)
      else err misplaced

  -- `k` drafts; the pass after the last one is skipped.
  unfoldable pub propose_k_drafts :
      List ℕ → (Logits scores) → ℕ → ℕ → Result DecodeError (List ℕ × List ℕ)
  unfolding draft_forward
  propose_k_drafts cache cur zero pos = ok ([], cache)
  propose_k_drafts cache cur (suc zero) pos = ok (argmax_last scores cur ∷ [], cache)
  propose_k_drafts cache cur (suc (suc k)) pos = do
    (next, cache1) ← draft_forward cache (argmax_last scores cur ∷ []) pos
    (rest, cache2) ← propose_k_drafts cache1 next (suc k) (pos + 1)
    ok (argmax_last scores cur ∷ rest, cache2)

  -- Brings the draft to the committed tokens and proposes again.
  unfoldable pub advance_and_propose :
      List ℕ → ℕ → ℕ → List ℕ → ℕ → ℕ → Result DecodeError (List ℕ × List ℕ)
  unfolding draft_forward propose_k_drafts
  advance_and_propose cache j k drafts_prev last_committed pos =
      if j == k
      then (do
        d ← select_position drafts_prev (k - 1)
        (cur, cache1) ← draft_forward cache (d ∷ last_committed ∷ []) (pos + k - 1)
        propose_k_drafts cache1 cur k (pos + k + 1))
      else do
        (cur, cache1) ←
            draft_forward (truncate_kv_to (pos + j) cache) (last_committed ∷ []) (pos + j)
        propose_k_drafts cache1 cur k (pos + j + 1)

  -- How many drafts from the `i`-th on the target agrees with, up to the first that it does not.
  unfoldable pub match_prefix :
      (Logits scores) → List (Logits scores) → ℕ → List ℕ → Result DecodeError ℕ
  unfolding pred_at
  match_prefix pending verify i [] = ok 0
  match_prefix pending verify i (d ∷ ds) = do
    pred ← pred_at pending verify i
    let more = match_prefix pending verify (suc i) ds
    if argmax_last scores pred == d then (do j ← more; ok (suc j)) else ok 0

  -- The round's tokens and the last of them: the accepted drafts, then the bonus token or the
  -- target's own choice.
  unfoldable pub commit :
      ℕ → (Logits scores) → List (Logits scores) → List ℕ → ℕ → Result DecodeError (List ℕ × ℕ)
  unfolding pred_at
  commit k pending verify drafts j =
      if j == k
      then (do
        bonus ← select_position verify (k - 1)
        ok (drafts ++ argmax_last scores bonus ∷ [], argmax_last scores bonus))
      else do
        pred ← pred_at pending verify j
        ok (take j drafts ++ argmax_last scores pred ∷ [], argmax_last scores pred)

  -- The state at the head of a round.
  pub record Round : Type 0 where
    pub target : Target
    pub cache : List ℕ
    pub pending : (Logits scores)
    pub target_pos : ℕ
    pub drafts : List ℕ
    pub tokens : List ℕ
    pub n_gen : ℕ

  -- Verify, match and commit: the target after the pass, the accepted count, the tokens to emit and
  -- the last of them.
  unfoldable pub verify_round : ℕ → Round → Result DecodeError (Target × ℕ × List ℕ × ℕ)
  unfolding front_forward chain_step head_all_forward match_prefix commit
  verify_round k r = do
    (verify_front, t1) ← front_forward r.target r.drafts r.target_pos
    (verify_tail, t2) ← chain_step t1 verify_front
    let verify_logits = head_all_forward m verify_tail
    j ← match_prefix r.pending verify_logits 0 r.drafts
    (emitted, last_committed) ← commit k r.pending verify_logits r.drafts j
    ok (t2, j, emitted, last_committed)

  -- The commit step and the draft's advance: the next round.
  unfoldable pub advance_round : ℕ → Round → Target → ℕ → ℕ → List ℕ → ℕ → Result DecodeError Round
  unfolding truncate_front_kv front_forward step_with_truncate head_forward advance_and_propose
  advance_round k r t j last_committed tokens n_gen = do
    let new_pos = r.target_pos + j
    (commit_front, t1) ← front_forward (truncate_front_kv t new_pos) (last_committed ∷ []) new_pos
    (drafts_next, cache) ← advance_and_propose r.cache j k r.drafts last_committed r.target_pos
    (commit_tail, t2) ← step_with_truncate t1 commit_front (some new_pos)
    ok (record {
      target = t2;
      cache = cache;
      pending = head_forward m commit_tail;
      target_pos = new_pos + 1;
      drafts = drafts_next;
      tokens = tokens;
      n_gen = n_gen;
    })

  unfoldable pub rounds : ℕ → ℕ → ℕ → Round → Result DecodeError (ℕ × List ℕ)
  unfolding verify_round advance_round emit
  rounds zero k max_new r = err out_of_fuel
  rounds (suc fuel) k max_new r =
      let go_on : Result DecodeError (ℕ × List ℕ) =
        verify_round k r >>= λ (t, j, emitted, last_committed).
        let (tokens, n_gen, stop) = emit is_eos max_new r.tokens r.n_gen emitted in
        let next_round : Result DecodeError (ℕ × List ℕ) =
          advance_round k r t j last_committed tokens n_gen >>= rounds fuel k max_new in
        if stop then ok (n_gen, tokens) else next_round in
      if leb max_new r.n_gen then ok (r.n_gen, r.tokens) else go_on

  -- The prefill of both models and the first drafts.
  unfoldable pub first_round : List ℕ → ℕ → List ℕ → Result DecodeError Round
  unfolding forward draft_forward propose_k_drafts
  first_round peers k prompt = do
    (pending, t) ← forward m (record { front = []; peers = peers }) prompt 0
    (d, cache) ← draft_forward [] prompt 0
    (drafts, cache1) ← propose_k_drafts cache d k (length prompt)
    ok (record {
      target = t;
      cache = cache1;
      pending = pending;
      target_pos = length prompt;
      drafts = drafts;
      tokens = prompt;
      n_gen = 0;
    })

  unfoldable pub run_turn_spec : List ℕ → List ℕ → SpecCfg → Result DecodeError (ℕ × List ℕ)
  unfolding first_round rounds
  run_turn_spec peers prompt cfg = do
    guard (leb 2 cfg.k) bad_k
    guard (not cfg.hot) not_greedy
    guard (not cfg.penalty) repeat_penalised
    guard (ltb 0 (length prompt)) empty_prompt
    r ← first_round peers cfg.k prompt
    rounds (cfg.max_new_tokens + 1) cfg.k cfg.max_new_tokens r
