-- ===== src/Chain/Picks.antt =====
-- crates/app/src/chain_driver.rs, `from_swarm`: which providers of a range become its hop and the
-- alternates, and which of its targets `connect` takes.
use intelnav.Base.{
  ℕ, zero, suc, ◌≤◌, ◌<◌, String, ◌≡◌, refl, sym, ap, ◌∙◌, ◌↔◌, ◌⊎◌, inl, inr, true, false, none,
  some, List, [], ◌∷◌, map, arith, leb, Bool-cases, Option-cases, List-cases, Result-cases, length,
  take, All, length-take, length-drop, length-map, Result, ok, err, ok-inj,
}
use mathlib.Core.Path.{subst}
use intelnav.Base.Table.{string_eq}
use intelnav.Chain.{
  ChainError, failed_index, ChainCfg, Peer, other, is_increasing, head_or, last_or, validate,
  connect,
}
use intelnav.Chain.Swarm.{
  max_candidates_per_hop, ChainTarget, ProviderRecord, insert_fresh, ranked, dedup, candidates,
  add_hop, assemble, from_swarm, cfg_of, connect_attempts, connect_with_failover,
  max_failover_attempts,
}

-- A provider has this address, in a record of this time.
abbrev pub Offered : ℕ → String → List ProviderRecord → Type 0
Offered m a [] = true ≡ false
Offered m a (p ∷ ps) = ((p.forward_addr ≡ some a) × (p.minted_at ≡ m)) ⊎ Offered m a ps

-- No provider with an address has a later record.
abbrev pub Latest : ℕ → List ProviderRecord → Type 0
Latest m [] = Unit
Latest m (p ∷ ps) = ((p.forward_addr ≡ none) ⊎ (p.minted_at ≤ m)) × Latest m ps

-- Addresses of providers, at this time or before, from fresh to stale.
abbrev pub Falling : ℕ → List ProviderRecord → List String → Type 0
Falling m ps [] = Unit
Falling m ps (a ∷ more) = (k : ℕ) × (k ≤ m) × Offered k a ps × Falling k ps more

-- The hop is a freshest provider of the range, and the alternates are providers of it, from fresh to
-- stale.
abbrev pub Picked : String → List String → List ProviderRecord → Type 0
Picked hop alternates ps = (m : ℕ) × Offered m hop ps × Latest m ps × Falling m ps alternates

abbrev pub Picks : List String → List (List String) → List (ℕ × ℕ × List ProviderRecord) → Type 0
Picks [] [] [] = Unit
Picks (hop ∷ hops) (a ∷ more) ((start, end, ps) ∷ ranges) = Picked hop a ps × Picks hops more ranges
Picks _ _ _ = true ≡ false

abbrev pub start_of : ℕ × ℕ × List ProviderRecord → ℕ
start_of (start, end, providers) = start

-- The same of pairs of a time and an address.
abbrev Ranked : ℕ → List ProviderRecord → List (ℕ × String) → Type 0
Ranked m ps [] = Unit
Ranked m ps ((k, a) ∷ more) = (k ≤ m) × Offered k a ps × Ranked k ps more

-- The first pair has the latest time.
abbrev Leads : List (ℕ × String) → List ProviderRecord → Type 0
Leads [] ps = All (λ (p : ProviderRecord). p.forward_addr ≡ none) ps
Leads ((k, a) ∷ more) ps = Latest k ps

Ranked-insert :
    (m n : ℕ) (a : String) (ps : List ProviderRecord) (xs : List (ℕ × String))
    → n ≤ m
    → Offered n a ps
    → Ranked m ps xs
    → Ranked m ps (insert_fresh (n, a) xs)
unfolding insert_fresh
Ranked-insert m n a ps [] le there h = (le, there, tt)
Ranked-insert m n a ps ((k, b) ∷ rest) le there (le2, off, more) = elim (Bool-cases (leb k n)) [
  | inl fresh ↦ rw (fresh, insert_fresh) (le, there, (ground (arith, fresh), off, more))
  | inr stale ↦
      rw (stale, insert_fresh)
        (le2, off, Ranked-insert k n a ps rest (ground (arith, stale)) there more)
]

Ranked-cons :
    (m : ℕ) (p : ProviderRecord) (ps : List ProviderRecord) (xs : List (ℕ × String))
    → Ranked m ps xs
    → Ranked m (p ∷ ps) xs
Ranked-cons m p ps [] h = tt
Ranked-cons m p ps ((k, a) ∷ xs) (le, off, more) = (le, inr off, Ranked-cons k p ps xs more)

Latest-le : (k m : ℕ) (ps : List ProviderRecord) → k ≤ m → Latest k ps → Latest m ps
Latest-le k m [] le h = tt
Latest-le k m (p ∷ ps) le (inl unnamed, more) = (inl unnamed, Latest-le k m ps le more)
Latest-le k m (p ∷ ps) le (inr old, more) = (inr (omega arith), Latest-le k m ps le more)

Latest-none :
    (m : ℕ) (ps : List ProviderRecord)
    → All (λ (p : ProviderRecord). p.forward_addr ≡ none) ps
    → Latest m ps
Latest-none m [] h = tt
Latest-none m (p ∷ ps) (unnamed, more) = (inl unnamed, Latest-none m ps more)

Leads-insert :
    (n : ℕ) (a : String) (p : ProviderRecord) (ps : List ProviderRecord) (xs : List (ℕ × String))
    → p.minted_at ≡ n
    → Leads xs ps
    → Leads (insert_fresh (n, a) xs) (p ∷ ps)
unfolding insert_fresh
Leads-insert n a p ps [] at h = (inr (omega arith), Latest-none n ps h)
Leads-insert n a p ps ((k, b) ∷ rest) at h = elim (Bool-cases (leb k n)) [
  | inl fresh ↦
      rw (fresh, insert_fresh) (inr (omega arith), Latest-le k n ps (ground (arith, fresh)) h)
  | inr stale ↦ rw (stale, insert_fresh) (inr (ground (arith, stale, at)), h)
]

Leads-none :
    (p : ProviderRecord) (ps : List ProviderRecord) (xs : List (ℕ × String))
    → p.forward_addr ≡ none
    → Leads xs ps
    → Leads xs (p ∷ ps)
Leads-none p ps [] e h = (e, h)
Leads-none p ps ((k, a) ∷ xs) e h = (inl e, h)

ranked-unnamed :
    (p : ProviderRecord) (ps : List ProviderRecord)
    → p.forward_addr ≡ none
    → ranked (p ∷ ps) ≡ ranked ps
unfolding ranked
ranked-unnamed p ps e = rw (e, ranked) refl

ranked-named :
    (p : ProviderRecord) (ps : List ProviderRecord) (a : String)
    → p.forward_addr ≡ some a
    → ranked (p ∷ ps) ≡ insert_fresh (p.minted_at, a) (ranked ps)
unfolding ranked
ranked-named p ps a e = rw (e, ranked) refl

ranked-Leads : (ps : List ProviderRecord) → Leads (ranked ps) ps
unfolding ranked
ranked-Leads [] = tt
ranked-Leads (p ∷ ps) = elim (Option-cases p.forward_addr) [
  | inl unnamed ↦
      subst (λ xs. Leads xs (p ∷ ps)) (sym (ranked-unnamed p ps unnamed))
        (Leads-none p ps (ranked ps) unnamed (ranked-Leads ps))
  | inr (a, named) ↦
      subst (λ xs. Leads xs (p ∷ ps)) (sym (ranked-named p ps a named))
        (Leads-insert p.minted_at a p ps (ranked ps) refl (ranked-Leads ps))
]

named-le :
    (m : ℕ) (p : ProviderRecord) (a : String)
    → p.forward_addr ≡ some a
    → (p.forward_addr ≡ none) ⊎ (p.minted_at ≤ m)
    → p.minted_at ≤ m
named-le m p a named (inl unnamed) = absurd (ground (arith, named, unnamed))
named-le m p a named (inr old) = old

ranked-Ranked : (m : ℕ) (ps : List ProviderRecord) → Latest m ps → Ranked m ps (ranked ps)
unfolding ranked
ranked-Ranked m [] h = tt
ranked-Ranked m (p ∷ ps) (here, more) =
    let rest = Ranked-cons m p ps (ranked ps) (ranked-Ranked m ps more) in
    elim (Option-cases p.forward_addr) [
      | inl unnamed ↦ subst (Ranked m (p ∷ ps)) (sym (ranked-unnamed p ps unnamed)) rest
      | inr (a, named) ↦ subst (Ranked m (p ∷ ps)) (sym (ranked-named p ps a named)) (
          Ranked-insert m p.minted_at a (p ∷ ps) (ranked ps) (named-le m p a named here)
            (inl (named, refl)) rest)
    ]

Falling-map :
    (m : ℕ) (ps : List ProviderRecord) (xs : List (ℕ × String))
    → Ranked m ps xs
    → Falling m ps (map (λ (x : ℕ × String). x.1) xs)
Falling-map m ps [] h = tt
Falling-map m ps ((k, a) ∷ xs) (le, off, more) = (k, le, off, Falling-map k ps xs more)

Falling-take :
    (n m : ℕ) (ps : List ProviderRecord) (alts : List String)
    → Falling m ps alts
    → Falling m ps (take n alts)
Falling-take zero m ps alts h = tt
Falling-take (suc n) m ps [] h = tt
Falling-take (suc n) m ps (a ∷ alts) (k, le, off, more) =
    (k, le, off, Falling-take n k ps alts more)

Falling-le :
    (k m : ℕ) (ps : List ProviderRecord) (alts : List String)
    → k ≤ m
    → Falling k ps alts
    → Falling m ps alts
Falling-le k m ps [] le h = tt
Falling-le k m ps (a ∷ alts) le (j, le2, off, more) = (j, omega arith, off, more)

dedup-Falling :
    (m : ℕ) (ps : List ProviderRecord) (a : String) (alts : List String)
    → Falling m ps alts
    → (rest : List String) × (dedup (a ∷ alts) ≡ a ∷ rest) × Falling m ps rest
unfolding dedup
dedup-Falling m ps a [] h = ([], refl, tt)
dedup-Falling m ps a (b ∷ alts) (k, le, off, more) =
    let (rest, e, falls) = dedup-Falling k ps b alts more in
    elim (Bool-cases (string_eq.beq a b)) [
      | inl same ↦ (rest, rw (same, dedup) (rw e refl), Falling-le k m ps rest le falls)
      | inr differs ↦ (b ∷ rest, rw (differs, dedup) (rw e refl), (k, le, off, falls))
    ]

abbrev PickedFrom : List String → List ProviderRecord → Type 0
PickedFrom [] ps = Unit
PickedFrom (c ∷ cs) ps = Picked c cs ps

candidates-Picked :
    (ps : List ProviderRecord) (c : String) (cs : List String)
    → candidates ps ≡ c ∷ cs
    → Picked c cs ps
unfolding candidates dedup
candidates-Picked ps c cs e = elim (List-cases (ranked ps)) [
  | inl empty ↦ absurd (ground (arith, empty, e))
  | inr ((n, a), more, shape) ↦
      let latest : Latest n ps = subst (λ xs. Leads xs ps) shape (ranked-Leads ps) in
      let (le, off, falls) = subst (Ranked n ps) shape (ranked-Ranked n ps latest) in
      let (rest, e1, falls2) =
        dedup-Falling n ps a (take 2 (map (λ (x : ℕ × String). x.1) more))
          (Falling-take 2 n ps _ (Falling-map n ps more falls)) in
      let whole : candidates ps ≡ a ∷ rest = rw (shape, candidates) e1 in
      subst (λ xs. PickedFrom xs ps) (sym whole ∙ e) (n, off, latest, falls2)
]

length-dedup : (xs : List String) → length (dedup xs) ≤ length xs
unfolding dedup
length-dedup [] = ground arith
length-dedup (a ∷ []) = ground arith
length-dedup (a ∷ b ∷ rest) =
    ground (arith, length-dedup (b ∷ rest), length-drop 1 (dedup (b ∷ rest)))

length-candidates : (ps : List ProviderRecord) → length (candidates ps) ≤ max_candidates_per_hop
unfolding candidates
length-candidates ps =
    let named = map (λ (x : ℕ × String). x.1) (ranked ps) in
    omega (
      arith,
      length-dedup (take max_candidates_per_hop named),
      length-take max_candidates_per_hop named,
    )

-- A target has the starts of the ranges, a hop picked for each with its alternates, at most two.
abbrev pub Fits : ChainTarget → List (ℕ × ℕ × List ProviderRecord) → Type 0
Fits t ranges =
    (t.starts ≡ map start_of ranges)
    × Picks t.hops t.alternates ranges
    × (length t.hops ≡ length ranges)
    × All (λ (a : List String). length a < max_candidates_per_hop) t.alternates

pub assemble-Fits :
    (ranges : List (ℕ × ℕ × List ProviderRecord)) (t : ChainTarget)
    → assemble ranges ≡ ok t
    → Fits t ranges
unfolding assemble add_hop
assemble-Fits [] t e = subst (λ (x : ChainTarget). Fits x []) (ok-inj e) (refl, tt, omega arith, tt)
assemble-Fits ((start, end, providers) ∷ ranges) t e = elim (List-cases (candidates providers)) [
  | inl empty ↦ absurd (ground arith)
  | inr (c, cs, shape) ↦ elim (Result-cases (assemble ranges)) [
    | inr (x, e1) ↦ absurd (ground arith)
    | inl (u, e1) ↦
        let (starts, picks, hops, small) = assemble-Fits ranges u e1 in
        let few = length-candidates providers in
        let whole : ChainTarget = record {
          hops = c ∷ u.hops;
          starts = start ∷ u.starts;
          alternates = cs ∷ u.alternates;
        } in
        let added : assemble ((start, end, providers) ∷ ranges) ≡ ok whole =
          rw (shape, assemble) (rw e1 refl) in
        subst (λ (x : ChainTarget). Fits x ((start, end, providers) ∷ ranges))
          (ok-inj (sym added ∙ e))
          (
            ap (λ xs. start ∷ xs) starts,
            (candidates-Picked providers c cs shape, picks),
            ap suc hops,
            (omega (arith, ap length shape, few), small),
          )
  ]
]

validate_iff :
    (cfg : ChainCfg) (n_blocks : ℕ)
    → 0 < length cfg.peers
    → length cfg.peers ≡ length cfg.splits
    → (validate cfg n_blocks ≡ ok tt) ↔ (
        (is_increasing cfg.splits ≡ true)
        × (0 < head_or 0 cfg.splits)
        × (last_or 0 cfg.splits < n_blocks))
unfolding validate
validate_iff cfg n_blocks some_there same = ground arith

abbrev Passes : Result ChainError (Unit {0}) → ℕ → List ℕ → Type 0
Passes r n_blocks starts =
    (r ≡ ok tt)
    ↔ ((is_increasing starts ≡ true) × (0 < head_or 0 starts) × (last_or 0 starts < n_blocks))

-- A target from the swarm has the starts of the ranges, and for each range, in their order, a hop at
-- the freshest of the range's providers with an address; the alternates of a hop are at most two,
-- are providers of its range too, and go from fresh to stale. It passes the checks of `connect`
-- exactly if the starts increase, the first is above zero and the last is below the number of blocks.
pub from_swarm-Picks :
    (r : ℕ × ℕ × List ProviderRecord) (rs : List (ℕ × ℕ × List ProviderRecord)) (t : ChainTarget)
    (model : String) (n_blocks : ℕ)
    → from_swarm (r ∷ rs) ≡ ok t
    → (t.starts ≡ map start_of (r ∷ rs))
      × Picks t.hops t.alternates (r ∷ rs)
      × All (λ (a : List String). length a < max_candidates_per_hop) t.alternates
      × ((validate (cfg_of model t) n_blocks ≡ ok tt) ↔ (
          (is_increasing (map start_of (r ∷ rs)) ≡ true)
          × (0 < head_or 0 (map start_of (r ∷ rs)))
          × (last_or 0 (map start_of (r ∷ rs)) < n_blocks)))
unfolding from_swarm
from_swarm-Picks r rs t model n_blocks e =
    let (starts, picks, hops, small) = assemble-Fits (r ∷ rs) t e in
    let same = hops ∙ sym (length-map start_of (r ∷ rs)) ∙ ap length (sym starts) in
    (
      starts,
      picks,
      small,
      subst (Passes (validate (cfg_of model t) n_blocks) n_blocks) starts
          (validate_iff (cfg_of model t) n_blocks (omega (arith, hops)) same),
    )

validate-other :
    (cfg : ChainCfg) (n_blocks : ℕ)
    → (validate cfg n_blocks ≡ ok tt) ⊎ (validate cfg n_blocks ≡ err other)
unfolding validate
validate-other cfg n_blocks = ground arith

connect-unchecked :
    (cfg : ChainCfg) (n_blocks : ℕ) (net : ℕ → String → Peer)
    → validate cfg n_blocks ≡ err other
    → connect cfg n_blocks net ≡ err other
unfolding connect
connect-unchecked cfg n_blocks net e = rw (e, connect) refl

unchecked-ends :
    (fuel attempts : ℕ) (t : ChainTarget) (model : String) (n_blocks : ℕ)
    (net : ℕ → ℕ → String → Peer)
    → connect (cfg_of model t) n_blocks (net attempts) ≡ err other
    → connect_attempts (suc fuel) attempts model n_blocks net t ≡ (some (err other), t)
unfolding connect_attempts failed_index
unchecked-ends fuel attempts t model n_blocks net e = rw (e, connect_attempts) refl

-- No chain comes of a target from the swarm whose first range starts at layer zero: whatever the peers
-- do, `connect_with_failover` gives the error that names no peer, and tries no alternate.
pub from_swarm-refused :
    (end : ℕ) (providers : List ProviderRecord) (rs : List (ℕ × ℕ × List ProviderRecord))
    (t : ChainTarget) (model : String) (n_blocks : ℕ) (net : ℕ → ℕ → String → Peer)
    → from_swarm ((0, end, providers) ∷ rs) ≡ ok t
    → connect_with_failover model n_blocks net t ≡ (some (err other), t)
unfolding connect_with_failover
from_swarm-refused end providers rs t model n_blocks net e =
    unchecked-ends max_failover_attempts 0 t model n_blocks net (
      connect-unchecked (cfg_of model t) n_blocks (net 0)
        (elim (validate-other (cfg_of model t) n_blocks) [
          | inr bad ↦ bad
          | inl good ↦
              let (u, positive, v) =
                (from_swarm-Picks (0, end, providers) rs t model n_blocks e).3.0 good in
              absurd (omega arith)
        ]))
