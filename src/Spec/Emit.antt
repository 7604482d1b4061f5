-- ===== src/Spec/Emit.antt =====
-- The emit loop of crates/runtime/src/spec.rs on greedy tokens.
use intelnav.Base.{
  ℕ, zero, suc, ◌+◌, ◌-◌, ◌≤◌, ◌<◌, ◌≡◌, refl, ◌⊎◌, inl, inr, true, false, List, [], ◌∷◌, ◌++◌,
  append_assoc, append-nil, arith, if◌then◌else◌, Bool-cases, length,
}
use intelnav.Decode.{Models}
use intelnav.Decode.Greedy.{best, greedy}
use intelnav.Spec.{emit}
use intelnav.Spec.Match.{free}

module _ (m : Models) where
  open m use {is_eos}

  -- At most `n` greedy tokens behind `ctx`, up to the end token and with it.
  unfoldable pub greedy_end : ℕ → List ℕ → List ℕ
  greedy_end zero ctx = []
  greedy_end (suc n) ctx =
      let rest = greedy_end n (ctx ++ best m ctx ∷ []) in
      best m ctx ∷ (if is_eos (best m ctx) then [] else rest)

  -- The loop stops with all that the turn may still emit, or passes on with all its tokens pushed.
  pub emit-greedy :
      (c room max_new n_gen : ℕ) (ctx tokens : List ℕ)
      → max_new ≡ n_gen + room
      → (emit is_eos max_new tokens n_gen (free m c ctx)
          ≡ (tokens ++ greedy_end room ctx, n_gen + length (greedy_end room ctx), true))
        ⊎ ((c ≤ room)
            × (emit is_eos max_new tokens n_gen (free m c ctx)
                ≡ (tokens ++ free m c ctx, n_gen + c, false))
            × (greedy_end room ctx ≡ free m c ctx ++ greedy_end (room - c) (ctx ++ free m c ctx)))
  unfolding emit free greedy_end
  emit-greedy zero room max_new n_gen ctx tokens e =
      inr (omega arith, ground (arith, append-nil tokens), ground (arith, append-nil ctx))
  emit-greedy (suc c) zero max_new n_gen ctx tokens e = inl (ground (arith, append-nil tokens))
  emit-greedy (suc c) (suc room) max_new n_gen ctx tokens e =
      let b : ℕ = best m ctx in
      elim (Bool-cases (is_eos b)) [
        | inl ended ↦ inl (ground arith)
        | inr more ↦
            elim (emit-greedy c room max_new (n_gen + 1) (ctx ++ b ∷ []) (tokens ++ b ∷ [])
              (omega arith)) [
                | inl stop ↦ inl (
                    ground
                      (arith, stop, append_assoc tokens (b ∷ []) (greedy_end room (ctx ++ b ∷ []))))
                | inr (le, go, rest) ↦ inr (
                  omega arith,
                  ground (arith, go, append_assoc tokens (b ∷ []) (free m c (ctx ++ b ∷ []))),
                  ground (arith, rest, append_assoc ctx (b ∷ []) (free m c (ctx ++ b ∷ []))),
                )
              ]
      ]

  -- With the end token or without it: the two continuations differ by that token at most.
  pub greedy_end-greedy :
      (n : ℕ) (ctx : List ℕ)
      → ((greedy_end n ctx ≡ greedy m n ctx) × (length (greedy m n ctx) ≡ n))
        ⊎ ((e : ℕ) × (is_eos e ≡ true)
            × (greedy_end n ctx ≡ greedy m n ctx ++ e ∷ [])
            × (length (greedy m n ctx) < n))
  unfolding greedy greedy_end
  greedy_end-greedy zero ctx = inl (refl, refl)
  greedy_end-greedy (suc n) ctx = elim (Bool-cases (is_eos (best m ctx))) [
    | inl ended ↦ inr (best m ctx, ended, ground arith, ground arith)
    | inr more ↦ elim (greedy_end-greedy n (ctx ++ best m ctx ∷ [])) [
      | inl (same, full) ↦ inl (ground arith, ground arith)
      | inr (e, eos, longer, short) ↦ inr (e, eos, ground arith, ground arith)
    ]
  ]
