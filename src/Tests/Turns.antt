-- ===== src/Tests/Turns.antt =====
-- The plain and the speculative turn, crates/runtime/src/chain.rs and spec.rs, with a small model.
use intelnav.Base.{
  ℕ, ◌+◌, ◌*◌, ◌/◌, ◌%◌, ltb, leb, map, if◌then◌else◌, ◌<◌, ◌≡◌, refl, ◌≢◌, ◌⊎◌, true, false, List,
  [], ◌∷◌, ◌++◌, arith, ◌==◌, length, ok,
}
use intelnav.Sample.{
  Scores, Logits, SamplerCfg, argmax, argmax_from, argmax_last, view, apply_repeat_penalty,
  penalise_tokens, penalise_token,
}
use intelnav.Decode.{Models, run_turn}
use intelnav.Decode.Greedy.{greedy, picks}
use intelnav.Spec.{SpecCfg, run_turn_spec}
use intelnav.Spec.Emit.{greedy_end}
use intelnav.Spec.Equivalence.{run_turn_spec-greedy, spec_against_plain}

abbrev naturals : Scores
naturals = record {
  F = ℕ;
  neg_infinity = 0;
  zero_f = 0;
  one_f = 1;
  gt = λ x y. ltb y x;
  ge = λ x y. leb y x;
  div = λ x y. x / y;
  mul = λ x y. x * y;
}

-- Eight tokens, of which this one has the best score.
abbrev only : ℕ → Logits naturals
only n = record {
  first = 1;
  more = map (λ t. if t == n then 4 else 1) (1 ∷ 2 ∷ 3 ∷ 4 ∷ 5 ∷ 6 ∷ 7 ∷ []);
}

-- The penalty is the score itself: none, or four.
abbrev sampler : ℕ → SamplerCfg naturals
sampler penalty = record { repeat_penalty = penalty; repeat_ctx = 64 }

-- The target counts the tokens, the draft is wrong on every other one, and 6 ends.
abbrev counting : Models
counting = record {
  scores = naturals;
  target = λ ctx. only (length ctx);
  draft = λ ctx. only (length ctx % 2);
  is_eos = λ t. t == 6;
}

abbrev words : List ℕ
words = 5 ∷ 7 ∷ []

words_there : words ≢ []
words_there e = ground arith

-- The token 5 is in the prompt, so the penalty takes it down and the first token wins.
penalised_run : picks counting (sampler 8) 4 words ≡ 2 ∷ 3 ∷ 4 ∷ 0 ∷ []
unfolding picks argmax argmax_from view apply_repeat_penalty penalise_tokens penalise_token
penalised_run = refl

-- The plain turn leaves the end token out.
greedy_run : greedy counting 8 words ≡ 2 ∷ 3 ∷ 4 ∷ 5 ∷ []
unfolding greedy argmax_last argmax argmax_from
greedy_run = refl

abbrev spec_cfg : SpecCfg
spec_cfg = record { k = 3; hot = false; penalty = false; max_new_tokens = 8 }

run_turn_spec-greedy_example :
    run_turn_spec counting [] words spec_cfg
    ≡ ok (length (greedy_end counting 8 words), words ++ greedy_end counting 8 words)
run_turn_spec-greedy_example =
    run_turn_spec-greedy counting words spec_cfg words_there (omega arith) refl refl

greedy_end_run : greedy_end counting 8 words ≡ 2 ∷ 3 ∷ 4 ∷ 5 ∷ 6 ∷ []
unfolding greedy_end argmax_last argmax argmax_from
greedy_end_run = refl

spec_against_plain_example :
    (n : ℕ) × (tokens : List ℕ) × (run_turn counting (sampler 1) [] words 8 ≡ ok (n, tokens))
    × (((n ≡ 8) × (run_turn_spec counting [] words spec_cfg ≡ ok (n, tokens)))
        ⊎ ((e : ℕ) × ((e == 6) ≡ true)
            × (n < 8)
            × (run_turn_spec counting [] words spec_cfg ≡ ok (n + 1, tokens ++ e ∷ []))))
spec_against_plain_example =
    spec_against_plain counting words spec_cfg (sampler 1) words_there (omega arith) refl refl refl
