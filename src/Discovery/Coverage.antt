-- ===== src/Discovery/Coverage.antt =====
-- What crates/net/src/swarm_index.rs says of a model's coverage, against what
-- crates/app/src/chain_driver.rs makes of the same records.
use intelnav.Base.{
  ℕ, suc, String, ◌≡◌, refl, ap, ◌∙◌, ◌≢◌, ◌↔◌, inl, inr, true, false, none, List, [], ◌∷◌, map,
  length, All, arith, take, ok, err, Option-cases, List-cases, Bool-cases, drop,
}
use mathlib.Core.Path.{subst}
use intelnav.Base.Table.{string_eq}
use intelnav.Chain.{ChainError, other}
use intelnav.Chain.Picks.{Picks, assemble-Fits}
use intelnav.Chain.Swarm.{
  ChainTarget, ProviderRecord, ranked, dedup, candidates, add_hop, assemble, from_swarm,
  insert_fresh,
}
use intelnav.Discovery.{
  RangeCoverage, SwarmModel, Node, empty_ranges, gaps, all_served, fully_served, refresh_one,
}

-- Every provider of the range has an address that can be dialled.
abbrev pub Dialable : RangeCoverage → Type 0
Dialable r = All (λ (p : ProviderRecord). p.forward_addr ≢ none) r.providers

-- crates/app/src/tui/mod.rs: the ranges as a driver takes them.
abbrev pub offered : List RangeCoverage → List (ℕ × ℕ × List ProviderRecord)
offered [] = []
offered (r ∷ rs) = (r.start, r.end, r.providers) ∷ offered rs

length-insert_fresh :
    (m : ℕ) (a : String) (xs : List (ℕ × String))
    → length (insert_fresh (m, a) xs) ≡ suc (length xs)
unfolding insert_fresh
length-insert_fresh m a [] = refl
length-insert_fresh m a ((n, b) ∷ rest) = ground (arith, length-insert_fresh m a rest)

length-ranked :
    (ps : List ProviderRecord)
    → All (λ (p : ProviderRecord). p.forward_addr ≢ none) ps
    → length (ranked ps) ≡ length ps
unfolding ranked
length-ranked [] h = refl
length-ranked (p ∷ ps) (there, more) = elim (Option-cases p.forward_addr) [
  | inl bad ↦ absurd (there bad)
  | inr (a, good) ↦
      rw (good, ranked)
        (length-insert_fresh p.minted_at a (ranked ps) ∙ ap suc (length-ranked ps more))
]

dedup-cons :
    (a : String) (xs : List String)
    → (b : String) × (rest : List String) × (dedup (a ∷ xs) ≡ b ∷ rest)
unfolding dedup
dedup-cons a [] = (a, [], refl)
dedup-cons a (b ∷ rest) = elim (Bool-cases (string_eq.beq a b)) [
  | inl same ↦ (a, drop 1 (dedup (b ∷ rest)), rw (same, dedup) refl)
  | inr differs ↦ (a, dedup (b ∷ rest), rw (differs, dedup) refl)
]

candidates-cons :
    (p : ProviderRecord) (ps : List ProviderRecord)
    → All (λ (p : ProviderRecord). p.forward_addr ≢ none) (p ∷ ps)
    → (c : String) × (cs : List String) × (candidates (p ∷ ps) ≡ c ∷ cs)
unfolding candidates
candidates-cons p ps h = elim (List-cases (ranked (p ∷ ps))) [
  | inl empty ↦ absurd (omega (arith, ap length empty, length-ranked (p ∷ ps) h))
  | inr ((n, b), rest, shape) ↦
      let (c, cs, e) = dedup-cons b (take 2 (map (λ (x : ℕ × String). x.1) rest)) in
      (c, cs, rw (shape, candidates) e)
]

assemble-on :
    (r : RangeCoverage) (rs : List RangeCoverage) (c : String) (cs : List String) (t : ChainTarget)
    → candidates r.providers ≡ c ∷ cs
    → assemble (offered rs) ≡ ok t
    → assemble (offered (r ∷ rs))
      ≡ ok (record {
        hops = c ∷ t.hops;
        starts = r.start ∷ t.starts;
        alternates = cs ∷ t.alternates;
      })
unfolding assemble add_hop
assemble-on r rs c cs t e e1 = rw (e, assemble) (rw e1 refl)

assemble-served :
    (rs : List RangeCoverage)
    → All Dialable rs
    → all_served rs ≡ true
    → (t : ChainTarget) × (assemble (offered rs) ≡ ok t)
unfolding assemble add_hop
assemble-served [] h full = (record { hops = []; starts = []; alternates = [] }, refl)
assemble-served (r ∷ rs) (here, more) full = elim (List-cases r.providers) [
  | inl empty ↦ absurd (ground (arith, empty, full))
  | inr (p, ps, shape) ↦
      let there = subst (All (λ (p : ProviderRecord). p.forward_addr ≢ none)) shape here in
      let (c, cs, e) = candidates-cons p ps there in
      let (t, e1) = assemble-served rs more (ground (arith, full)) in
      let whole : ChainTarget = record {
        hops = c ∷ t.hops;
        starts = r.start ∷ t.starts;
        alternates = cs ∷ t.alternates;
      } in
      (whole, assemble-on r rs c cs t (ap candidates shape ∙ e) e1)
]

assemble-unserved :
    (rs : List RangeCoverage)
    → all_served rs ≡ false
    → (e : ChainError) × (assemble (offered rs) ≡ err e)
unfolding assemble add_hop candidates ranked dedup
assemble-unserved [] h = absurd (ground (arith, h))
assemble-unserved (r ∷ rs) h = elim (List-cases r.providers) [
  | inl empty ↦ (other, rw (empty, assemble) refl)
  | inr (p, ps, shape) ↦
      let (e, e1) = assemble-unserved rs (ground (arith, h, shape)) in
      elim (List-cases (candidates r.providers)) [
        | inl none_left ↦ (other, rw (none_left, assemble) refl)
        | inr (c, cs, some_left) ↦ (e, rw (some_left, assemble) (rw e1 refl))
      ]
]

all_served-gaps : (rs : List RangeCoverage) → (all_served rs ≡ true) ↔ (empty_ranges rs ≡ [])
all_served-gaps [] = (λ e. refl, λ e. refl)
all_served-gaps (r ∷ rs) = ground (arith, all_served-gaps rs)

served_iff :
    (rs : List RangeCoverage) (m : SwarmModel)
    → m.ranges ≡ rs
    → All Dialable rs
    → (((t : ChainTarget) × (from_swarm (offered rs) ≡ ok t)
          × Picks t.hops t.alternates (offered rs))
        ↔ (fully_served m ≡ true))
      × ((fully_served m ≡ true) ↔ ((rs ≢ []) × (gaps m ≡ [])))
unfolding from_swarm fully_served gaps
served_iff [] m at h = rw at (
  (λ (t, e, picks). absurd (ground (arith, e)), λ e. absurd (ground (arith, e))),
  (λ e. absurd (ground (arith, e)), λ (filled, e). absurd (filled refl)),
)
served_iff (r ∷ rs) m at h = rw at (
  (
    λ (t, e, picks). elim (Bool-cases (all_served (r ∷ rs))) [
      | inl full ↦ full
      | inr lacks ↦ let (x, e1) = assemble-unserved (r ∷ rs) lacks in absurd (ground (arith, e, e1))
    ],
    λ full.
        let (t, e) = assemble-served (r ∷ rs) h full in
        (t, e, (assemble-Fits (offered (r ∷ rs)) t e).1),
  ),
  (
    λ e. (λ q. absurd (ground (arith, q)), (all_served-gaps (r ∷ rs)).0 e),
    λ (filled, e). (all_served-gaps (r ∷ rs)).1 e,
  ),
)

-- When every provider that the swarm knows of has an address, `from_swarm` gives a target for a
-- refreshed model, with a freshest provider of each range as its hop, exactly if the model is fully
-- served; that it is exactly if some range was asked for and none is a gap. Whether the target can
-- be connected is another matter.
pub refresh_one-serves :
    (n : Node) (cid : String) (ranges : List (ℕ × ℕ))
    → All Dialable (refresh_one n cid ranges).ranges
    → let m = refresh_one n cid ranges in
      (((t : ChainTarget) × (from_swarm (offered m.ranges) ≡ ok t)
          × Picks t.hops t.alternates (offered m.ranges))
        ↔ (fully_served m ≡ true))
      × ((fully_served m ≡ true) ↔ ((m.ranges ≢ []) × (gaps m ≡ [])))
refresh_one-serves n cid ranges h =
    served_iff (refresh_one n cid ranges).ranges (refresh_one n cid ranges) refl h
