-- ===== src/Decode/Greedy.antt =====
-- What `run_turn` of crates/runtime/src/chain.rs decodes, with and without a repeat penalty.
use intelnav.Base.{
  ℕ, zero, suc, ap, ◌∙◌, some, false, ◌+◌, ◌<◌, ◌≡◌, refl, ◌≢◌, List, [], ◌∷◌, ◌++◌, append_assoc,
  append-nil, arith, if◌then◌else◌, length, length-append, ok,
}
use intelnav.Decode.{
  Models, Target, tokens_eq_refl, front_forward, chain_step, head_forward, forward, decode_loop,
  run_turn,
}
use intelnav.Sample.{SamplerCfg, scores_of, argmax, argmax_last, view, sample, argmax-unpenalised}

-- Caches that cover just `xs`.
abbrev pub at : List ℕ → Target
at xs = record { front = xs; peers = xs }

module _ (m : Models) where
  open m use {scores, target, is_eos}

  abbrev pub best : List ℕ → ℕ
  best ctx = argmax_last scores (target ctx)

  -- At most `n` greedy tokens behind `ctx`, up to the end token and without it.
  unfoldable pub greedy : ℕ → List ℕ → List ℕ
  greedy zero ctx = []
  greedy (suc n) ctx =
      let rest = greedy n (ctx ++ best ctx ∷ []) in
      if is_eos (best ctx) then [] else best ctx ∷ rest

  -- In step, a pass appends to both caches and gives the logits behind the last token.
  pub forward-at :
      (xs ys : List ℕ) → forward m (at xs) ys (length xs) ≡ ok (target (xs ++ ys), at (xs ++ ys))
  unfolding forward front_forward chain_step head_forward
  forward-at xs ys = ground (arith, tokens_eq_refl xs)

  module _ (cfg : SamplerCfg scores) where
    -- What the sampler takes behind `ctx`: the best score of the target's, once those of the last
    -- tokens of `ctx` are penalised.
    abbrev pub pick : List ℕ → ℕ
    pick ctx = argmax scores (view scores (scores_of scores (target ctx)) ctx cfg)

    -- At most `n` such tokens behind `ctx`, up to the end token and without it.
    unfoldable pub picks : ℕ → List ℕ → List ℕ
    picks zero ctx = []
    picks (suc n) ctx =
        let rest = picks n (ctx ++ pick ctx ∷ []) in
        if is_eos (pick ctx) then [] else pick ctx ∷ rest

    sample-pick :
        (ctx : List ℕ) → sample scores (scores_of scores (target ctx)) ctx cfg ≡ some (pick ctx)
    unfolding sample
    sample-pick ctx = refl

    decode_loop-picks :
        (room fuel max_new n_gen pos : ℕ) (xs : List ℕ)
        → room < fuel
        → max_new ≡ n_gen + room
        → pos ≡ length xs
        → decode_loop m cfg fuel max_new (at xs) xs pos (pick xs) n_gen
          ≡ ok (n_gen + length (picks room xs), xs ++ picks room xs)
    unfolding decode_loop picks
    decode_loop-picks room zero max_new n_gen pos xs h e p = absurd (omega arith)
    decode_loop-picks zero (suc fuel) max_new n_gen pos xs h e p = ground (arith, append-nil xs)
    decode_loop-picks (suc room) (suc fuel) max_new n_gen pos xs h e p =
        let b : ℕ = pick xs in
        ground (
          arith,
          append-nil xs,
          forward-at xs (b ∷ []),
          sample-pick (xs ++ b ∷ []),
          length-append xs (b ∷ []),
          decode_loop-picks room fuel max_new (n_gen + 1) (pos + 1) (xs ++ b ∷ []),
          append_assoc xs (b ∷ []) (picks room (xs ++ b ∷ [])),
        )

    pub run_turn-picks :
        (prompt : List ℕ) (max_new_tokens : ℕ)
        → prompt ≢ []
        → run_turn m cfg [] prompt max_new_tokens
          ≡ ok (length (picks max_new_tokens prompt), prompt ++ picks max_new_tokens prompt)
    unfolding run_turn
    run_turn-picks [] n h = absurd (h refl)
    run_turn-picks (p ∷ ps) n h = ground (
      arith,
      forward-at [] (p ∷ ps),
      sample-pick (p ∷ ps),
      decode_loop-picks n (n + 1) n 0 (length (p ∷ ps)) (p ∷ ps),
    )

    picks-greedy :
        (n : ℕ) (ctx : List ℕ)
        → scores.gt cfg.repeat_penalty scores.one_f ≡ false
        → picks n ctx ≡ greedy n ctx
    unfolding picks greedy
    picks-greedy zero ctx off = refl
    picks-greedy (suc n) ctx off =
        rw (argmax-unpenalised scores (target ctx) ctx cfg off)
          (rw (picks-greedy n (ctx ++ best ctx ∷ []) off) refl)

    -- The same without a repeat penalty: the greedy continuation.
    pub run_turn-greedy :
        (prompt : List ℕ) (max_new_tokens : ℕ)
        → prompt ≢ []
        → scores.gt cfg.repeat_penalty scores.one_f ≡ false
        → run_turn m cfg [] prompt max_new_tokens
          ≡ ok (length (greedy max_new_tokens prompt), prompt ++ greedy max_new_tokens prompt)
    run_turn-greedy prompt n h off =
        run_turn-picks prompt n h
        ∙ ap (λ xs. ok (length xs, prompt ++ xs)) (picks-greedy n prompt off)
