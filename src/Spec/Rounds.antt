-- ===== src/Spec/Rounds.antt =====
-- One round of crates/runtime/src/spec.rs, from caches that are in step to caches that are in step.
use intelnav.Base.{
  ℕ, zero, suc, ◌+◌, ◌≤◌, ◌≡◌, refl, ap, ◌∙◌, List, [], ◌∷◌, ◌++◌, append_assoc, arith, length,
  take, length-append, take-all, take-append_add, ok,
}
use intelnav.Decode.{
  Models, front_forward, step_with_truncate, chain_step, head_forward, head_all_forward,
  position_logits, tokens_eq_refl,
}
use intelnav.Decode.Greedy.{best, at}
use intelnav.Spec.{pred_at, commit, verify_round, advance_round, truncate_front_kv, Round}
use intelnav.Spec.Draft.{advance-ok}
use intelnav.Spec.Match.{free, length-free, free-snoc, match-greedy}

module _ (m : Models) where
  open m use {scores, target, draft, is_eos}

  -- At the head of a round both caches of the target cover the committed tokens, the draft's cache
  -- covers them and all drafts but the last, and the pending logits are the target's.
  pub record InStep (k : ℕ) (ctx : List ℕ) (r : Round m) : Type 0 where
    pub caches : r.target ≡ at ctx
    pub pending : r.pending ≡ target ctx
    pub position : r.target_pos ≡ length ctx
    pub proposal : length r.drafts ≡ suc k
    pub draft_cache : r.cache ≡ ctx ++ take k r.drafts
    pub tokens : r.tokens ≡ ctx

  -- Both branches of the commit emit the next greedy tokens.
  commit-greedy :
      (k j : ℕ) (ctx ds : List ℕ)
      → length ds ≡ suc k
      → j ≤ suc k
      → take j ds ≡ free m j ctx
      → pred_at (target ctx) (position_logits m ctx ds) j ≡ ok (target (ctx ++ free m j ctx))
      → commit m (suc k) (target ctx) (position_logits m ctx ds) ds j
        ≡ ok (free m (suc j) ctx, best m (ctx ++ free m j ctx))
  unfolding commit pred_at
  commit-greedy k zero ctx ds n le taken pred = ground (arith, pred, taken, free-snoc m 0 ctx)
  commit-greedy k (suc i) ctx ds n le taken pred =
      ground (arith, pred, taken, free-snoc m (suc i) ctx, take-all (suc i) ds)

  pub verify-greedy :
      (k : ℕ) (ctx ds : List ℕ) (r : Round m)
      → r.target ≡ at ctx
      → r.pending ≡ target ctx
      → r.target_pos ≡ length ctx
      → r.drafts ≡ ds
      → length ds ≡ suc k
      → (j : ℕ) × (verify_round m (suc k) r
          ≡ ok (at (ctx ++ ds), j, free m (suc j) ctx, best m (ctx ++ free m j ctx)))
        × (j ≤ suc k)
        × (take j ds ≡ free m j ctx)
  unfolding verify_round front_forward chain_step step_with_truncate head_all_forward
  verify-greedy k ctx ds r caches pending position drafts n =
      let (j, e, le, taken, pred) = match-greedy m ctx ds in
      (
        j,
        ground (
          arith,
          caches,
          pending,
          position,
          drafts,
          e,
          tokens_eq_refl ctx,
          commit-greedy k j ctx ds n (omega (arith, le, n)) taken pred,
        ),
        omega (arith, le, n),
        taken,
      )

  -- The committed tokens, as the caches reach them.
  pub prefix-free :
      (j : ℕ) (ctx ds : List ℕ) (pos : ℕ)
      → pos ≡ length ctx
      → take j ds ≡ free m j ctx
      → (take (pos + j) (ctx ++ ds) ≡ ctx ++ free m j ctx)
        × (pos + j ≡ length (ctx ++ free m j ctx))
        × ((ctx ++ free m j ctx) ++ best m (ctx ++ free m j ctx) ∷ [] ≡ ctx ++ free m (suc j) ctx)
  prefix-free j ctx ds pos position taken = (
    ground (arith, ap (λ i. take (i + j) (ctx ++ ds)) position, take-append_add ctx ds j, taken),
    omega (arith, length-append ctx (free m j ctx), length-free m j ctx),
    append_assoc ctx (free m j ctx) (best m (ctx ++ free m j ctx) ∷ [])
        ∙ ap (◌++◌ ctx) (free-snoc m j ctx),
  )

  pub advance-greedy :
      (k j n_gen : ℕ) (ctx tokens : List ℕ) (r : Round m)
      → InStep k ctx r
      → j ≤ suc k
      → take j r.drafts ≡ free m j ctx
      → tokens ≡ ctx ++ free m (suc j) ctx
      → (r' : Round m) × (advance_round m
            (suc k)
            r
            (at (ctx ++ r.drafts))
            j
            (best m (ctx ++ free m j ctx))
            tokens
            n_gen
          ≡ ok r')
        × InStep k (ctx ++ free m (suc j) ctx) r'
        × (r'.n_gen ≡ n_gen)
  unfolding advance_round truncate_front_kv front_forward step_with_truncate head_forward
  advance-greedy k j n_gen ctx tokens r s le taken pushed =
      let last : ℕ = best m (ctx ++ free m j ctx) in
      let ctx' : List ℕ = ctx ++ free m (suc j) ctx in
      let (short, long, grown) = prefix-free j ctx r.drafts r.target_pos s.position taken in
      let (ds, e, n) = advance-ok m k j last r.target_pos ctx r.drafts s.position s.proposal le in
      (
        record {
          target = at ctx';
          cache = ctx' ++ take k ds;
          pending = target ctx';
          target_pos = r.target_pos + j + 1;
          drafts = ds;
          tokens = tokens;
          n_gen = n_gen;
        },
        ground (
          arith,
          short,
          long,
          grown,
          e,
          s.draft_cache,
          taken,
          tokens_eq_refl (ctx ++ free m j ctx),
        ),
        record {
          caches = refl;
          pending = refl;
          position = omega (
            arith,
            s.position,
            length-append ctx (free m (suc j) ctx),
            length-free m (suc j) ctx,
          );
          proposal = n;
          draft_cache = refl;
          tokens = pushed;
        },
        refl,
      )
