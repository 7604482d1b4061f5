-- ===== src/Spec/Match.antt =====
-- The verify pass of crates/runtime/src/spec.rs: what it accepts and commits is what the target
-- would have chosen token by token.
use intelnav.Base.{
  ℕ, zero, suc, ◌≤◌, ◌≡◌, refl, ap, inl, inr, List, [], ◌∷◌, ◌++◌, append_assoc, append-nil, arith,
  ◌==◌, Bool-cases, length, take, ok,
}
use intelnav.Sample.{Logits}
use intelnav.Decode.{Models, position_logits}
use intelnav.Decode.Greedy.{best}
use intelnav.Spec.{pred_at, match_prefix}

module _ (m : Models) where
  open m use {scores, target}

  -- `n` greedy tokens behind `ctx`, whatever they are.
  unfoldable pub free : ℕ → List ℕ → List ℕ
  free zero ctx = []
  free (suc n) ctx = best m ctx ∷ free n (ctx ++ best m ctx ∷ [])

  pub length-free : (n : ℕ) (ctx : List ℕ) → length (free n ctx) ≡ n
  unfolding free
  length-free zero ctx = refl
  length-free (suc n) ctx = ap suc (length-free n (ctx ++ best m ctx ∷ []))

  pub free-snoc :
      (n : ℕ) (ctx : List ℕ) → free n ctx ++ best m (ctx ++ free n ctx) ∷ [] ≡ free (suc n) ctx
  unfolding free
  free-snoc zero ctx = rw append-nil
  free-snoc (suc n) ctx =
      let b : ℕ = best m ctx in
      ground
        (arith, free-snoc n (ctx ++ b ∷ []), append_assoc ctx (b ∷ []) (free n (ctx ++ b ∷ [])))

  pred-shift :
      (p v : (Logits scores)) (vs : List (Logits scores)) (i : ℕ)
      → pred_at p (v ∷ vs) (suc i) ≡ pred_at v vs i
  unfolding pred_at
  pred-shift p v vs zero = refl
  pred-shift p v vs (suc i) = refl

  match-shift :
      (p v : (Logits scores)) (vs : List (Logits scores)) (i : ℕ) (ds : List ℕ)
      → match_prefix m p (v ∷ vs) (suc i) ds ≡ match_prefix m v vs i ds
  unfolding match_prefix
  match-shift p v vs i [] = refl
  match-shift p v vs zero (d ∷ ds) = ground (arith, match-shift p v vs 1 ds)
  match-shift p v vs (suc i) (d ∷ ds) = ground (arith, match-shift p v vs (suc (suc i)) ds)

  -- The matched drafts are greedy tokens, and the prediction behind them is the target's.
  pub match-greedy :
      (ctx ds : List ℕ)
      → (j : ℕ) × (match_prefix m (target ctx) (position_logits m ctx ds) 0 ds ≡ ok j)
        × (j ≤ length ds)
        × (take j ds ≡ free j ctx)
        × (pred_at (target ctx) (position_logits m ctx ds) j ≡ ok (target (ctx ++ free j ctx)))
  unfolding match_prefix position_logits free
  match-greedy ctx [] = (0, refl, omega arith, refl, ground (arith, append-nil ctx))
  match-greedy ctx (d ∷ ds) = elim (Bool-cases (best m ctx == d)) [
    | inr differ ↦ (0, ground arith, omega arith, refl, ground (arith, append-nil ctx))
    | inl same ↦
        let (j, e, le, taken, pred) = match-greedy (ctx ++ d ∷ []) ds in
        let verify : List (Logits scores) = position_logits m (ctx ++ d ∷ []) ds in
        (
          suc j,
          ground (arith, e, match-shift (target ctx) (target (ctx ++ d ∷ [])) verify 0 ds),
          omega (arith, le),
          ground (arith, taken),
          ground (
            arith,
            pred,
            append_assoc ctx (d ∷ []) (free j (ctx ++ d ∷ [])),
            pred-shift (target ctx) (target (ctx ++ d ∷ [])) verify j,
          ),
        )
  ]
