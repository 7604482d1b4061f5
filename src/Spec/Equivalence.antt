-- ===== src/Spec/Equivalence.antt =====
-- crates/runtime/src/spec.rs emits what the target alone would decode.
use intelnav.Base.{
  ℕ, zero, suc, ◌+◌, ◌-◌, ◌≤◌, ◌<◌, ◌≡◌, refl, sym, ◌∙◌, ◌≢◌, ◌⊎◌, inl, inr, true, false, List, [],
  ◌∷◌, ◌++◌, append_assoc, append-nil, arith, length, take, length-append, ok,
}
use intelnav.Sample.{SamplerCfg}
use intelnav.Decode.{Models, run_turn}
use intelnav.Decode.Greedy.{at, forward-at, greedy, run_turn-greedy}
use intelnav.Spec.{SpecCfg, Round, rounds, first_round, run_turn_spec, draft_forward}
use intelnav.Spec.Draft.{propose-ok}
use intelnav.Spec.Match.{free, length-free}
use intelnav.Spec.Emit.{greedy_end, emit-greedy, greedy_end-greedy}
use intelnav.Spec.Rounds.{InStep, verify-greedy, advance-greedy}

module _ (m : Models) where
  open m use {scores, target, draft, is_eos}

  none_left : (ctx : List ℕ) → greedy_end m 0 ctx ≡ []
  unfolding greedy_end
  none_left ctx = refl

  rounds-greedy :
      (room fuel k max_new n_gen : ℕ) (ctx : List ℕ) (r : Round m)
      → room < fuel
      → max_new ≡ n_gen + room
      → r.n_gen ≡ n_gen
      → InStep m k ctx r
      → rounds m fuel (suc k) max_new r
        ≡ ok (n_gen + length (greedy_end m room ctx), ctx ++ greedy_end m room ctx)
  unfolding rounds
  rounds-greedy room zero k max_new n_gen ctx r h e n s = absurd (omega arith)
  rounds-greedy zero (suc fuel) k max_new n_gen ctx r h e n s =
      ground (arith, s.tokens, append-nil ctx, none_left ctx)
  rounds-greedy (suc room) (suc fuel) k max_new n_gen ctx r h e n s =
      let (j, verified, le, taken) =
        verify-greedy m k ctx r.drafts r s.caches s.pending s.position refl s.proposal in
      elim (emit-greedy m (suc j) (suc room) max_new n_gen ctx ctx e) [
        | inl stop ↦ ground (arith, verified, stop, s.tokens)
        | inr (fits, go, rest) ↦
            let ctx' : List ℕ = ctx ++ free m (suc j) ctx in
            let (r', advanced, s', n') =
              advance-greedy m k j (n_gen + suc j) ctx ctx' r s le taken refl in
            let later =
              rounds-greedy (suc room - suc j) fuel k max_new (n_gen + suc j) ctx' r' (omega arith)
                (omega arith) n' s' in
            ground (
              arith,
              verified,
              go,
              advanced,
              later,
              s.tokens,
              rest,
              append_assoc ctx (free m (suc j) ctx) (greedy_end m (suc room - suc j) ctx'),
              length-append (free m (suc j) ctx) (greedy_end m (suc room - suc j) ctx'),
              length-free m (suc j) ctx,
            )
      ]

  first-in-step :
      (k : ℕ) (prompt : List ℕ)
      → (r : Round m) × (first_round m [] (suc k) prompt ≡ ok r)
        × InStep m k prompt r
        × (r.n_gen ≡ 0)
  unfolding first_round draft_forward
  first-in-step k prompt =
      let (ds, e, n) = propose-ok m k prompt (draft prompt) (length prompt) refl in
      (
        record {
          target = at prompt;
          cache = prompt ++ take k ds;
          pending = target prompt;
          target_pos = length prompt;
          drafts = ds;
          tokens = prompt;
          n_gen = 0;
        },
        ground (arith, forward-at m [] prompt, e),
        record {
          caches = refl;
          pending = refl;
          position = refl;
          proposal = n;
          draft_cache = refl;
          tokens = refl;
        },
        refl,
      )

  spec-greedy :
      (k : ℕ) (prompt : List ℕ) (cfg : SpecCfg)
      → 0 < length prompt
      → cfg.k ≡ suc k
      → 1 ≤ k
      → cfg.hot ≡ false
      → cfg.penalty ≡ false
      → run_turn_spec m [] prompt cfg
        ≡ ok (
          length (greedy_end m cfg.max_new_tokens prompt),
          prompt ++ greedy_end m cfg.max_new_tokens prompt,
        )
  unfolding run_turn_spec
  spec-greedy k prompt cfg some_tokens at_k two cold free_ =
      let (r, e, s, n) = first-in-step k prompt in
      let n_max : ℕ = cfg.max_new_tokens in
      let turn =
        rounds-greedy n_max (n_max + 1) k n_max 0 prompt r (omega arith) (omega arith) n s in
      ground (arith, turn, e)

  -- With fresh peers, `k` at least two, greedy sampling, no repeat penalty and a prompt that is not
  -- empty, the speculative turn ends without an error. Its tokens are the prompt and the target's
  -- greedy continuation: at most `max_new_tokens`, the end token included, whatever the draft model
  -- is.
  pub run_turn_spec-greedy :
      (prompt : List ℕ) (cfg : SpecCfg)
      → prompt ≢ []
      → 2 ≤ cfg.k
      → cfg.hot ≡ false
      → cfg.penalty ≡ false
      → run_turn_spec m [] prompt cfg
        ≡ ok (
          length (greedy_end m cfg.max_new_tokens prompt),
          prompt ++ greedy_end m cfg.max_new_tokens prompt,
        )
  run_turn_spec-greedy [] cfg h two cold free_ = absurd (h refl)
  run_turn_spec-greedy (p ∷ ps) cfg h two cold free_ =
      spec-greedy (cfg.k - 1) (p ∷ ps) cfg (omega arith) (omega arith) (omega arith) cold free_

  -- With fresh peers, `k` at least two, greedy sampling, no repeat penalty in either turn and a
  -- prompt that is not empty: where the plain turn generates `max_new_tokens` tokens, the speculative turn has the
  -- same outcome; otherwise the plain turn generates fewer, and the speculative turn also pushes
  -- and counts an end token behind them.
  pub spec_against_plain :
      (prompt : List ℕ) (cfg : SpecCfg) (sampler : SamplerCfg scores)
      → prompt ≢ []
      → 2 ≤ cfg.k
      → cfg.hot ≡ false
      → cfg.penalty ≡ false
      → cfg.penalty ≡ scores.gt sampler.repeat_penalty scores.one_f
      → (n : ℕ) × (tokens : List ℕ) × (run_turn m sampler [] prompt cfg.max_new_tokens
          ≡ ok (n, tokens))
        × (((n ≡ cfg.max_new_tokens) × (run_turn_spec m [] prompt cfg ≡ ok (n, tokens)))
            ⊎ ((e : ℕ) × (is_eos e ≡ true)
                × (n < cfg.max_new_tokens)
                × (run_turn_spec m [] prompt cfg ≡ ok (n + 1, tokens ++ e ∷ []))))
  spec_against_plain prompt cfg sampler h two cold free_ agree =
      let n_max : ℕ = cfg.max_new_tokens in
      let plain : List ℕ = greedy m n_max prompt in
      let spec = run_turn_spec-greedy prompt cfg h two cold free_ in
      (
        length plain,
        prompt ++ plain,
        run_turn-greedy m sampler prompt n_max h (sym agree ∙ free_),
        elim (greedy_end-greedy m n_max prompt) [
          | inl (same, full) ↦ inl (full, ground (arith, spec, same))
          | inr (e, eos, longer, short) ↦ inr (
            e,
            eos,
            short,
            ground (
              arith,
              spec,
              longer,
              append_assoc prompt plain (e ∷ []),
              length-append plain (e ∷ []),
            ),
          )
        ],
      )
